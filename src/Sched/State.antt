-- ===== src/Sched/State.antt =====
-- The lock on the queues of kern/cpu/sched_helpers.c: what its holder may rely on.
use fos_fcis_operating_syste.Prelude.{
  ◌+◌, ◌^◌, ◌<◌, ◌≤◌, ◌≡◌, inl, inr, false, arith, ok, panic_if, ne→==, Bool-cases,
}
use fos_fcis_operating_syste.Spinlock.{mycpu, pushcli, popcli, release_spinlock}
use fos_fcis_operating_syste.Spinlock.Laws.{
  Steady, Held, Free, holding_spinlock_lem, acquire_spinlock-Free,
}
use fos_fcis_operating_syste.Sched.Defs.{Sched, expect_qlock, acquire_qlock, release_qlock}

-- This CPU holds the lock, with the interrupts off.
pub record Locked (k : Sched) : Type 0 where
  pub held : Held k.qlock
  pub inside : 1 ≤ k.cpu.ncli
  pub shallow : k.cpu.ncli + 2 < 2 ^ 31
  pub off : k.cpu.interrupts ≡ false

-- No one holds the lock, and no `pushcli` is open.
pub record Outside (k : Sched) : Type 0 where
  pub free : Free k.qlock
  pub depth : k.cpu.ncli ≡ 0

module _ (k : Sched) where
  Locked-Steady : Locked k → Steady k.cpu
  Locked-Steady l = record { quiet = inr l.off; shallow = l.shallow }

  pub expect_qlock-Locked : Locked k → expect_qlock k ≡ ok k
  unfolding expect_qlock panic_if
  expect_qlock-Locked l = rw (
    holding_spinlock_lem k.qlock k.cpu (Locked-Steady l),
    l.held.0,
    l.held.1,
    ne→== k.cpu.ncli 0 (omega (arith, l.inside)),
  )

  -- What `acquire_spinlock` on the free lock makes of the state.
  abbrev pub locked : Sched
  locked = record k {
    qlock = record { locked = 1; cpu = mycpu };
    cpu = record k.cpu { interrupts = false; ncli = 1; intena = k.cpu.interrupts };
  }

  pub acquire_qlock-Outside : Outside k → acquire_qlock k ≡ ok locked
  unfolding acquire_qlock pushcli
  acquire_qlock-Outside o =
      let steady : Steady k.cpu = record {
        quiet = inl o.depth;
        shallow = omega (arith, o.depth);
      } in
      rw (acquire_spinlock-Free 0 k.qlock k.cpu steady o.free) (rw o.depth)

  -- What `release_spinlock` makes of it at depth 1.
  abbrev pub unlocked : Sched
  unlocked = record k {
    qlock = record { locked = 0; cpu = 0 };
    cpu = record k.cpu { interrupts = k.cpu.intena; ncli = 0 };
  }

  pub release_qlock-Locked : Locked k → k.cpu.ncli ≡ 1 → release_qlock k ≡ ok unlocked
  unfolding release_qlock release_spinlock panic_if popcli
  release_qlock-Locked l depth =
      rw
        (
          holding_spinlock_lem k.qlock k.cpu (Locked-Steady l),
          l.held.0,
          l.held.1,
          ne→== k.cpu.ncli 0 (omega (arith, l.inside)),
          l.off,
          depth,
        )
        (elim (Bool-cases k.cpu.intena) [ inl on ↦ rw on | inr off ↦ rw off ])
