-- ===== src/Conc/Release.antt =====
-- `wakeup_all` of kern/conc/channel.c with its lock, and `release_sleeplock` of kern/conc/sleeplock.c.
use fos_fcis_operating_syste.Prelude.{
  ℕ, ◌+◌, ◌^◌, ◌<◌, ◌≡◌, refl, sym, ◌≢◌, ◌⊎◌, inl, inr, Bool-cases, true, false, ◌&&◌, List, [],
  ◌++◌, ◌==◌, arith, add32, eq→==, ne→==, Run, panic, ok, Returns, returns, Returns-bind,
}
use fos_fcis_operating_syste.Spinlock.{Cpu, mycpu, pushcli, init_spinlock}
use fos_fcis_operating_syste.Spinlock.Laws.{
  Steady, Free, Held, acquire_spinlock-Held, noted, noted_twice, noted-Steady, noted-pushcli,
  pushcli-Steady, proc-pushcli, init_spinlock-Free, ncli-pushcli, acquire_spinlock-Free,
  release_spinlock-Held,
}
use fos_fcis_operating_syste.Sched.{Head, Sched, acquire_qlock, release_qlock}
use fos_fcis_operating_syste.Sched.Fifo.{Last-of}
use fos_fcis_operating_syste.Sched.State.{Locked}
use fos_fcis_operating_syste.Conc.Defs.{
  SleepLock, wakeup_all, acquire_guard, release_guard, holding_sleeplock, release_held,
  release_sleeplock,
}
use fos_fcis_operating_syste.Conc.Wakeup.{Waiting, wake_each-Waiting}

-- All wait no more, and the lock on the queues is free again.
pub record Woken (chan : Head) (k k' : Sched) (rs : List ℕ) : Type 0 where
  pub waiting : Waiting chan k' [] rs
  pub cpu : k'.cpu ≡ noted k.cpu
  pub qlock : k'.qlock ≡ init_spinlock
  pub env_id : k'.env_id ≡ k.env_id

pub Locked-pushcli :
    (k : Sched) (c : Cpu)
    → Steady c
    → c.ncli + 3 < 2 ^ 31
    → Locked (record k { qlock = record { locked = 1; cpu = mycpu }; cpu = pushcli c })
unfolding pushcli add32
Locked-pushcli k c s shallow = record {
  held = (refl, refl);
  inside = omega arith;
  shallow = omega arith;
  off = refl;
}

-- How a call ends that acquires the lock on the queues itself: with the result where the lock was
-- free, and in a panic where this CPU already held it.
pub data Unlocked (k : Sched) (Post : Head × Sched → Type 0) : Run (Head × Sched) → Type 0 where
  completes : {run : Run (Head × Sched)} → Free k.qlock → Returns Post run → Unlocked k Post run
  stops : Held k.qlock → Unlocked k Post panic

-- `wakeup_all` where the lock on the queues is free.
pub wakeup_all-Woken :
    (chan : Head) (k : Sched) (xs rs : List ℕ)
    → Steady k.cpu
    → k.cpu.ncli + 3 < 2 ^ 31
    → Free k.qlock
    → Waiting chan k xs rs
    → Returns (λ (chan', k'). Woken chan' k k' (xs ++ rs)) (wakeup_all chan k)
unfolding wakeup_all acquire_qlock release_qlock
wakeup_all-Woken chan k xs rs steady shallow free v =
    let c = noted k.cpu in
    let steady_c = noted-Steady k.cpu steady in
    let k1 = record k { qlock = record { locked = 1; cpu = mycpu }; cpu = pushcli c } in
    let v1 : Waiting chan k1 xs rs = record {
      blocked = v.blocked;
      ready = v.ready;
      apart = v.apart;
      room = v.room;
    } in
    rw (acquire_spinlock-Free 0 k.qlock k.cpu steady free) (
      Returns-bind
        (wake_each-Waiting chan.size chan k1 rs (Last-of xs) (sym v.blocked.count)
          (Locked-pushcli k c steady_c shallow) v1)
        λ (chan', k2) (v2, s).
          rw
            (
              s.qlock,
              s.cpu,
              release_spinlock-Held (record { locked = 1; cpu = mycpu }) c steady_c shallow
                  (refl, refl),
              noted_twice k.cpu,
            )
            (returns (record {
              waiting = record {
                blocked = v2.blocked;
                ready = v2.ready;
                apart = v2.apart;
                room = v2.room;
              };
              cpu = refl;
              qlock = refl;
              env_id = s.env_id;
            })))

-- `wakeup_all`, where no other CPU holds the lock on the queues, returns if the caller does not hold it
-- either: the channel then is empty and its environments are in the ready queue, first in first out
-- behind those that were ready; the lock is free and the interrupts are as before. If the caller
-- holds the lock, as the comment in the code demands, the kernel panics.
pub wakeup_all-Unlocked :
    (chan : Head) (k : Sched) (xs rs : List ℕ)
    → Steady k.cpu
    → k.cpu.ncli + 3 < 2 ^ 31
    → Free k.qlock ⊎ Held k.qlock
    → Waiting chan k xs rs
    → Unlocked k (λ (chan', k'). Woken chan' k k' (xs ++ rs)) (wakeup_all chan k)
unfolding wakeup_all acquire_qlock
wakeup_all-Unlocked chan k xs rs steady shallow (inl free) v =
    completes free (wakeup_all-Woken chan k xs rs steady shallow free v)
wakeup_all-Unlocked chan k xs rs steady shallow (inr held) v =
    rw (acquire_spinlock-Held 1 k.qlock k.cpu steady held) (stops held)

-- `holding_sleeplock` looks at the lock under its guard, and gives the guard back.
pub holding_sleeplock_lem :
    (l : SleepLock) (k : Sched)
    → Steady k.cpu
    → k.cpu.ncli + 3 < 2 ^ 31
    → Free l.lk
    → holding_sleeplock l k
      ≡ ok (
        l.locked && (l.pid == k.env_id k.cpu.proc),
        record l { lk = init_spinlock },
        record k { cpu = noted k.cpu },
      )
unfolding holding_sleeplock acquire_guard release_guard
holding_sleeplock_lem l k steady shallow free = rw (
  acquire_spinlock-Free 0 l.lk k.cpu steady free,
  release_spinlock-Held (record { locked = 1; cpu = mycpu }) (noted k.cpu)
      (noted-Steady k.cpu steady) shallow (refl, refl),
  noted_twice k.cpu,
  proc-pushcli (noted k.cpu),
)

-- `release_sleeplock` of a lock that the running environment holds returns with the lock free and all
-- that waited for it ready, first in first out behind those that were; guard and queue lock are free,
-- and the interrupts as before.
pub release_sleeplock-Woken :
    (l : SleepLock) (k : Sched) (xs rs : List ℕ)
    → Steady k.cpu
    → k.cpu.ncli + 4 < 2 ^ 31
    → Free l.lk
    → Free k.qlock
    → l.locked ≡ true
    → l.pid ≡ k.env_id k.cpu.proc
    → Waiting l.chan k xs rs
    → Returns
        (λ (l', k').
          (l'.locked ≡ false)
          × (l'.pid ≡ 0)
          × (l'.lk ≡ init_spinlock)
          × Woken l'.chan k k' (xs ++ rs))
        (release_sleeplock l k)
unfolding release_sleeplock release_held acquire_guard release_guard
release_sleeplock-Woken l k xs rs steady shallow free qfree busy mine v =
    let c = noted k.cpu in
    let steady_c = noted-Steady k.cpu steady in
    let deeper : (pushcli c).ncli ≡ c.ncli + 1 = ncli-pushcli c (omega arith) in
    let k1 = record k { cpu = pushcli c } in
    let v1 : Waiting l.chan k1 xs rs = record {
      blocked = v.blocked;
      ready = v.ready;
      apart = v.apart;
      room = v.room;
    } in
    rw
      (
        holding_sleeplock_lem l k steady (omega arith) free,
        busy,
        eq→== l.pid (k.env_id k.cpu.proc) mine,
        acquire_spinlock-Free 0 init_spinlock c steady_c init_spinlock-Free,
        noted_twice k.cpu,
      )
      (Returns-bind
        (wakeup_all-Woken l.chan k1 xs rs (pushcli-Steady c steady_c (omega arith)) (omega arith)
          qfree v1)
        λ (chan, k2) w.
          rw
            (
              w.cpu,
              noted-pushcli c steady_c,
              release_spinlock-Held (record { locked = 1; cpu = mycpu }) c steady_c (omega arith)
                  (refl, refl),
              noted_twice k.cpu,
            )
            (returns (
              refl,
              refl,
              refl,
              record {
                waiting = record {
                  blocked = w.waiting.blocked;
                  ready = w.waiting.ready;
                  apart = w.waiting.apart;
                  room = w.waiting.room;
                };
                cpu = refl;
                qlock = w.qlock;
                env_id = w.env_id;
              },
            )))

-- `release_sleeplock` of a lock that is free, or that another environment holds, only looks at it.
pub release_sleeplock-other :
    (l : SleepLock) (k : Sched)
    → Steady k.cpu
    → k.cpu.ncli + 3 < 2 ^ 31
    → Free l.lk
    → (l.locked ≡ false) ⊎ (l.pid ≢ k.env_id k.cpu.proc)
    → release_sleeplock l k ≡ ok (record l { lk = init_spinlock }, record k { cpu = noted k.cpu })
unfolding release_sleeplock
release_sleeplock-other l k steady shallow free (inl unlocked) =
    rw (holding_sleeplock_lem l k steady shallow free, unlocked)
release_sleeplock-other l k steady shallow free (inr other) =
    rw (holding_sleeplock_lem l k steady shallow free, ne→== l.pid (k.env_id k.cpu.proc) other)
      (elim (Bool-cases l.locked) [ inl e ↦ rw e | inr e ↦ rw e ])
