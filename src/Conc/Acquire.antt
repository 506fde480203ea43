-- ===== src/Conc/Acquire.antt =====
-- `acquire_sleeplock` of kern/conc/sleeplock.c.
use fos_fcis_operating_syste.Prelude.{
  ◌+◌, ◌^◌, ◌<◌, ◌≡◌, refl, ◌⊎◌, inl, inr, true, false, eq→==, ok,
}
use fos_fcis_operating_syste.Spinlock.{mycpu, init_spinlock}
use fos_fcis_operating_syste.Spinlock.Laws.{
  Steady, Free, noted, noted_twice, noted-Steady, proc-pushcli, init_spinlock-Free,
  acquire_spinlock-Free, release_spinlock-Held,
}
use fos_fcis_operating_syste.Sched.{Sched}
use fos_fcis_operating_syste.Conc.Defs.{
  SleepLock, acquired, acquire_guard, release_guard, acquire_loop, acquire_sleeplock,
}
use fos_fcis_operating_syste.Conc.Release.{holding_sleeplock_lem}

-- `acquire_sleeplock` of a free lock, or of one that the running environment holds already, returns
-- at once: the lock is then held by that environment, the guard is free, and the queues stay.
pub acquire_sleeplock-acquired :
    (l : SleepLock) (k : Sched)
    → Steady k.cpu
    → k.cpu.ncli + 3 < 2 ^ 31
    → Free l.lk
    → (l.locked ≡ false) ⊎ ((l.locked ≡ true) × (l.pid ≡ k.env_id k.cpu.proc))
    → acquire_sleeplock l k
      ≡ ok (
        acquired,
        record l { locked = true; pid = k.env_id k.cpu.proc; lk = init_spinlock },
        record k { cpu = noted k.cpu },
      )
unfolding acquire_sleeplock acquire_loop acquire_guard release_guard
acquire_sleeplock-acquired l k steady shallow free (inl open_lock) =
    let c = noted k.cpu in
    let steady_c = noted-Steady k.cpu steady in
    rw (
      holding_sleeplock_lem l k steady shallow free,
      open_lock,
      acquire_spinlock-Free 0 init_spinlock c steady_c init_spinlock-Free,
      noted_twice k.cpu,
      release_spinlock-Held (record { locked = 1; cpu = mycpu }) c steady_c shallow (refl, refl),
      noted_twice k.cpu,
      proc-pushcli c,
    )
acquire_sleeplock-acquired l k steady shallow free (inr (busy, mine)) = rw (
  holding_sleeplock_lem l k steady shallow free,
  busy,
  eq→== l.pid (k.env_id k.cpu.proc) mine,
  ← mine,
)
