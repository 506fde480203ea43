-- ===== src/Spinlock/Defs.antt =====
-- `pushcli` and `popcli` of kern/cpu/cpu.c, and kern/conc/spinlock.c without the call stacks that a
-- lock records for debugging.
use fos_fcis_operating_syste.Prelude.{
  ℕ, zero, suc, ◌^◌, Bool, true, false, not, ◌&&◌, ◌==◌, leb, if◌then◌else◌, add32, sub32, Run, ok,
  out_of_fuel, panic_if, ◌>>=◌,
}

-- The fields of `struct cpu` that locks and the scheduler use, and the interrupt flag FL_IF.
-- `proc` is the address of the running environment, or 0.
pub record Cpu : Type 0 where
  pub interrupts : Bool
  pub ncli : ℕ
  pub intena : Bool
  pub proc : ℕ

-- `struct spinlock`; `cpu` is 0 for NULL.
pub record Spinlock : Type 0 where
  pub locked : ℕ
  pub cpu : ℕ

-- The address that `mycpu` always answers: that of the one CPU.
abbrev pub mycpu : ℕ
mycpu = 1

-- pushcli
unfoldable pub pushcli : Cpu → Cpu
unfolding add32
pushcli c = record c {
  interrupts = false;
  intena = if c.ncli == 0 then c.interrupts else c.intena;
  ncli = add32 c.ncli 1;
}

-- popcli; `ncli` is an `int`, negative from 2 ^ 31 on.
unfoldable pub popcli : Cpu → Run Cpu
unfolding panic_if sub32
popcli c =
    let left = sub32 c.ncli 1 in
    panic_if c.interrupts c >>= λ c1.
    panic_if (leb (2 ^ 31) left) (record c1 {
      ncli = left;
      interrupts = if left == 0 && c1.intena then true else c1.interrupts;
    })

-- init_spinlock
unfoldable pub init_spinlock : Spinlock
init_spinlock = record { locked = 0; cpu = 0 }

-- holding_spinlock
unfoldable pub holding_spinlock : Spinlock → Cpu → Run (Bool × Cpu)
holding_spinlock lk c =
    let held = not (lk.locked == 0) && (lk.cpu == mycpu) in
    popcli (pushcli c) >>= λ c1. ok (held, c1)

-- The loop on `xchg`: the old value is 0 at the end. The fuel bounds the rounds.
unfoldable pub spin : ℕ → Spinlock → Run Spinlock
spin zero lk = out_of_fuel
spin (suc n) lk =
    let rest = spin n (record lk { locked = 1 }) in
    if lk.locked == 0 then ok (record lk { locked = 1 }) else rest

-- acquire_spinlock
unfoldable pub acquire_spinlock : ℕ → Spinlock → Cpu → Run (Spinlock × Cpu)
acquire_spinlock fuel lk c = holding_spinlock lk c >>= λ (held, c1).
    panic_if held (pushcli c1) >>= λ c2. spin fuel lk >>= λ lk1. ok (record lk1 { cpu = mycpu }, c2)

-- release_spinlock
unfoldable pub release_spinlock : Spinlock → Cpu → Run (Spinlock × Cpu)
release_spinlock lk c = holding_spinlock lk c >>= λ (held, c1).
    panic_if (not held) c1 >>= λ c2. popcli c2 >>= λ c3. ok (record { locked = 0; cpu = 0 }, c3)
