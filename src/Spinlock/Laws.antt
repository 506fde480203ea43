-- ===== src/Spinlock/Laws.antt =====
-- What the spinlocks of kern/conc/spinlock.c promise on one CPU.
use fos_fcis_operating_syste.Prelude.{
  ℕ, zero, suc, ◌+◌, ◌^◌, ◌<◌, ◌≡◌, refl, ◌∙◌, ◌≢◌, ◌⊎◌, inl, inr, true, false, not, ◌&&◌, ◌==◌,
  if◌then◌else◌, arith, add32, sub32, add32_small, sub32_small, ok, panic, out_of_fuel, panic_if,
  eq→==, ne→==, Bool-cases, ◌>>=◌, lt→leb,
}
use fos_fcis_operating_syste.Spinlock.Defs.{
  Cpu, Spinlock, mycpu, pushcli, popcli, holding_spinlock, spin, acquire_spinlock, release_spinlock,
  init_spinlock,
}

-- Interrupts are off inside `pushcli`, and the depth is far from the end of an `int`.
pub record Steady (c : Cpu) : Type 0 where
  pub quiet : (c.ncli ≡ 0) ⊎ (c.interrupts ≡ false)
  pub shallow : c.ncli + 2 < 2 ^ 31

-- `intena` is only meaningful inside `pushcli`: outside it is what `pushcli` last saw.
abbrev pub noted : Cpu → Cpu
noted c = record c { intena = if c.ncli == 0 then c.interrupts else c.intena }

-- Whether `popcli` switches the interrupts on again.
restored :
    (c : Cpu)
    → Steady c
    → (if (c.ncli == 0) && (if c.ncli == 0 then c.interrupts else c.intena) then true else false)
      ≡ c.interrupts
restored c s = elim (Bool-cases (c.ncli == 0)) [
  | inl outer ↦ rw outer (elim (Bool-cases c.interrupts) [ inl on ↦ rw on | inr off ↦ rw off ])
  | inr inner ↦ elim s.quiet [
    | inl none_pushed ↦ let top : (c.ncli == 0) ≡ true = eq→== c.ncli 0 none_pushed in cc
    | inr off ↦ rw (inner, off)
  ]
]

-- `popcli` undoes `pushcli`.
pub popcli-pushcli : (c : Cpu) → Steady c → popcli (pushcli c) ≡ ok (noted c)
unfolding popcli pushcli panic_if
popcli-pushcli c s =
    let small : add32 c.ncli 1 ≡ c.ncli + 1 = add32_small c.ncli 1 (omega (arith, s.shallow)) in
    let back : sub32 (c.ncli + 1) 1 ≡ c.ncli =
      sub32_small (c.ncli + 1) 1 (omega arith) (omega (arith, s.shallow)) ∙ omega arith in
    rw (small, back, lt→leb (2 ^ 31) c.ncli (omega (arith, s.shallow)), restored c s)

pub holding_spinlock_lem :
    (lk : Spinlock) (c : Cpu)
    → Steady c
    → holding_spinlock lk c ≡ ok (not (lk.locked == 0) && (lk.cpu == mycpu), noted c)
unfolding holding_spinlock
holding_spinlock_lem lk c s = rw (popcli-pushcli c s)

-- The lock is free, or this CPU holds it.
abbrev pub Free : Spinlock → Type 0
Free lk = lk.locked ≡ 0

abbrev pub Held : Spinlock → Type 0
Held lk = (lk.locked ≡ 1) × (lk.cpu ≡ mycpu)

pub noted-Steady : (c : Cpu) → Steady c → Steady (noted c)
noted-Steady c s = record { quiet = s.quiet; shallow = s.shallow }

-- Acquiring a free lock takes it and pushes the interrupts off.
pub acquire_spinlock-Free :
    (fuel : ℕ) (lk : Spinlock) (c : Cpu)
    → Steady c
    → Free lk
    → acquire_spinlock (suc fuel) lk c ≡ ok (record { locked = 1; cpu = mycpu }, pushcli (noted c))
unfolding acquire_spinlock panic_if spin
acquire_spinlock-Free fuel lk c s free = rw (holding_spinlock_lem lk c s, eq→== lk.locked 0 free)

-- Acquiring a lock that this CPU holds panics.
pub acquire_spinlock-Held :
    (fuel : ℕ) (lk : Spinlock) (c : Cpu) → Steady c → Held lk → acquire_spinlock fuel lk c ≡ panic
unfolding acquire_spinlock panic_if
acquire_spinlock-Held fuel lk c s held = rw (holding_spinlock_lem lk c s, held.0, held.1)

-- Acquiring a lock that another CPU holds spins for as long as that one keeps it.
pub acquire_spinlock-waits :
    (fuel : ℕ) (lk : Spinlock) (c : Cpu)
    → Steady c
    → lk.locked ≢ 0
    → lk.cpu ≢ mycpu
    → acquire_spinlock fuel lk c ≡ out_of_fuel
unfolding acquire_spinlock panic_if spin
acquire_spinlock-waits fuel lk c s taken other = rw (
  holding_spinlock_lem lk c s,
  ne→== lk.locked 0 taken,
  ne→== lk.cpu mycpu other,
  waits fuel lk taken,
)
  where
    waits : (n : ℕ) (lk : Spinlock) → lk.locked ≢ 0 → spin n lk ≡ out_of_fuel
    waits zero lk taken = refl
    waits (suc n) lk taken =
        rw (ne→== lk.locked 0 taken, waits n (record lk { locked = 1 }) (omega arith))

-- Releasing a lock that this CPU does not hold panics.
pub release_spinlock-panic :
    (lk : Spinlock) (c : Cpu)
    → Steady c
    → Free lk ⊎ (lk.cpu ≢ mycpu)
    → release_spinlock lk c ≡ panic
unfolding release_spinlock panic_if
release_spinlock-panic lk c s (inl free) = rw (holding_spinlock_lem lk c s, eq→== lk.locked 0 free)
release_spinlock-panic lk c s (inr other) = elim (Bool-cases (lk.locked == 0)) [
  | inl e ↦ rw (holding_spinlock_lem lk c s, e)
  | inr e ↦ rw (holding_spinlock_lem lk c s, e, ne→== lk.cpu mycpu other)
]

-- Inside `pushcli`, `intena` is noted already.
pub noted-pushcli : (c : Cpu) → Steady c → noted (pushcli c) ≡ pushcli c
unfolding pushcli
noted-pushcli c s =
    let small : add32 c.ncli 1 ≡ c.ncli + 1 = add32_small c.ncli 1 (omega (arith, s.shallow)) in
    rw (small, ne→== (c.ncli + 1) 0 (omega arith))

pub noted_twice : (c : Cpu) → noted (noted c) ≡ noted c
noted_twice c = elim (Bool-cases (c.ncli == 0)) [ inl e ↦ rw e | inr e ↦ rw e ]

pub pushcli-Steady : (c : Cpu) → Steady c → c.ncli + 3 < 2 ^ 31 → Steady (pushcli c)
unfolding pushcli add32
pushcli-Steady c s shallow = record { quiet = inr refl; shallow = omega arith }

pub proc-pushcli : (c : Cpu) → (pushcli c).proc ≡ c.proc
unfolding pushcli
proc-pushcli c = refl

pub init_spinlock-Free : Free init_spinlock
unfolding init_spinlock
init_spinlock-Free = refl

pub ncli-pushcli : (c : Cpu) → c.ncli + 1 < 2 ^ 31 → (pushcli c).ncli ≡ c.ncli + 1
unfolding pushcli add32
ncli-pushcli c shallow = omega arith

-- Releasing a lock that this CPU holds frees it and undoes one `pushcli`.
pub release_spinlock-Held :
    (lk : Spinlock) (c : Cpu)
    → Steady c
    → c.ncli + 3 < 2 ^ 31
    → Held lk
    → release_spinlock lk (pushcli c) ≡ ok (init_spinlock, noted c)
unfolding release_spinlock panic_if init_spinlock
release_spinlock-Held lk c s shallow held = rw (
  holding_spinlock_lem lk (pushcli c) (pushcli-Steady c s shallow),
  held.0,
  held.1,
  noted-pushcli c s,
  popcli-pushcli c s,
)

-- Releasing the lock that was acquired frees it, and leaves the interrupts and the depth as they
-- were before.
pub release-acquire :
    (fuel : ℕ) (lk : Spinlock) (c : Cpu)
    → Steady c
    → c.ncli + 3 < 2 ^ 31
    → Free lk
    → (acquire_spinlock (suc fuel) lk c >>= λ (lk1, c1). release_spinlock lk1 c1)
      ≡ ok (init_spinlock, noted c)
release-acquire fuel lk c s shallow free = rw (
  acquire_spinlock-Free fuel lk c s free,
  release_spinlock-Held (record { locked = 1; cpu = mycpu }) (noted c) (noted-Steady c s) shallow
      (refl, refl),
  noted_twice c,
)
