-- ===== src/Conc/Tests.antt =====
-- A sleep lock with two waiting environments, and the theorems on sleep locks at it.
use fos_fcis_operating_syste.Prelude.{
  ◌≡◌, refl, inl, true, false, [], ◌∷◌, ◌==◌, if◌then◌else◌, arith, ok, Returns,
}
use fos_fcis_operating_syste.Queue.{write}
use fos_fcis_operating_syste.Queue.Chain.{nil, cons}
use fos_fcis_operating_syste.Spinlock.{init_spinlock}
use fos_fcis_operating_syste.Spinlock.Laws.{Steady}
use fos_fcis_operating_syste.Sched.{Head, Sched, env_running, env_blocked}
use fos_fcis_operating_syste.Conc.Defs.{
  SleepLock, acquired, asleep, wakeup_all, acquire_sleeplock, release_sleeplock,
}
use fos_fcis_operating_syste.Conc.Wakeup.{Waiting}
use fos_fcis_operating_syste.Conc.Release.{
  Unlocked, Woken, wakeup_all-Unlocked, release_sleeplock-Woken,
}
use fos_fcis_operating_syste.Conc.Asleep.{Slept, acquire_sleeplock-asleep}
use fos_fcis_operating_syste.Conc.Acquire.{acquire_sleeplock-acquired}

-- Environment 100 runs; 200 and then 300 have been blocked.
abbrev contended : Sched
unfolding write
contended = record {
  cpu = record { interrupts = true; ncli = 0; intena = true; proc = 100 };
  stopped = false;
  qlock = record { locked = 0; cpu = 0 };
  next = write (λ _. 0) 300 200;
  prev = write (λ _. 0) 200 300;
  env_id = λ e. e;
  priority = λ _. 0;
  env_status = λ e. if e == 100 then env_running else env_blocked;
  env_new_queue = record { first = 0; last = 0; size = 0 };
  env_exit_queue = record { first = 0; last = 0; size = 0 };
  env_ready_queues = λ _. record { first = 0; last = 0; size = 0 };
  num_of_ready_queues = 1;
  quantums = λ _. 10;
  clock_quantum = 10;
  buffering = false;
  cleaned = [];
}

abbrev blocked_two : Head
blocked_two = record { first = 300; last = 200; size = 2 }

abbrev owned : SleepLock
owned = record { locked = true; lk = record { locked = 0; cpu = 0 }; chan = blocked_two; pid = 100 }

contended-Steady : Steady contended.cpu
unfolding contended
contended-Steady = record { quiet = inl refl; shallow = omega arith }

blocked_two-Waiting : Waiting blocked_two contended (300 ∷ 200 ∷ []) []
unfolding contended write
blocked_two-Waiting = record {
  blocked = record {
    chain =
        cons {x = 300} refl (omega arith) refl (omega arith, tt)
          (cons {x = 200} refl (omega arith) refl tt (nil refl refl));
    count = refl;
    fits = omega arith;
  };
  ready = record { chain = nil refl refl; count = refl; fits = omega arith };
  apart = tt;
  room = omega arith;
}

wakeup_all-Unlocked_example :
    Unlocked contended
      (λ (chan', k'). Woken chan' contended k' (300 ∷ 200 ∷ []))
      (wakeup_all blocked_two contended)
unfolding contended
wakeup_all-Unlocked_example =
    wakeup_all-Unlocked blocked_two contended (300 ∷ 200 ∷ []) [] contended-Steady (omega arith)
      (inl refl) blocked_two-Waiting

release_sleeplock-Woken_example :
    Returns
      (λ (l', k').
        (l'.locked ≡ false)
        × (l'.pid ≡ 0)
        × (l'.lk ≡ init_spinlock)
        × Woken l'.chan contended k' (300 ∷ 200 ∷ []))
      (release_sleeplock owned contended)
unfolding contended
release_sleeplock-Woken_example =
    release_sleeplock-Woken owned contended (300 ∷ 200 ∷ []) [] contended-Steady (omega arith) refl
      refl refl refl blocked_two-Waiting

acquire_sleeplock-acquired_example :
    acquire_sleeplock (record owned { locked = false; pid = 0 }) contended
    ≡ ok (acquired, record owned { lk = init_spinlock }, contended)
unfolding contended
acquire_sleeplock-acquired_example =
    acquire_sleeplock-acquired (record owned { locked = false; pid = 0 }) contended contended-Steady
      (omega arith) refl (inl refl)

-- Environment 7 holds the lock, 200 and 300 are ready, and 100 asks for the lock.
abbrev ready_two : Sched
unfolding contended
ready_two = record contended { env_ready_queues = λ _. blocked_two }

abbrev taken : SleepLock
taken = record owned { pid = 7; chan = record { first = 0; last = 0; size = 0 } }

ready_two-Waiting : Waiting taken.chan ready_two [] (300 ∷ 200 ∷ [])
unfolding ready_two contended write
ready_two-Waiting = record {
  blocked = record { chain = nil refl refl; count = refl; fits = omega arith };
  ready = blocked_two-Waiting.blocked;
  apart = (tt, (tt, tt));
  room = omega arith;
}

acquire_sleeplock-asleep_example :
    Returns
      (λ (how, l', k'). (how ≡ asleep 200) × Slept taken 100 [] (300 ∷ []) 200 l' k')
      (acquire_sleeplock taken ready_two)
unfolding ready_two contended
acquire_sleeplock-asleep_example =
    acquire_sleeplock-asleep taken ready_two [] (300 ∷ []) 200 refl refl refl (omega arith) refl
      (omega arith) ready_two-Waiting tt (omega arith, (omega arith, tt)) (omega arith)
