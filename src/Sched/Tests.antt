-- ===== src/Sched/Tests.antt =====
-- Two waiting environments and a running one, and the theorems on the scheduler at them.
use fos_fcis_operating_syste.Prelude.{
  ◌≡◌, refl, true, false, [], ◌∷◌, ◌==◌, if◌then◌else◌, arith, panic, Returns,
}
use fos_fcis_operating_syste.Queue.{write}
use fos_fcis_operating_syste.Queue.Chain.{nil, cons, IsQueue}
use fos_fcis_operating_syste.Sched.Defs.{env_ready, env_running, env_new, new_queue, Sched}
use fos_fcis_operating_syste.Sched.Switch.{yield_to_next}
use fos_fcis_operating_syste.Sched.Ops.{sched_run_all, sched_exit_env, to_scheduler}
use fos_fcis_operating_syste.Sched.State.{Outside}
use fos_fcis_operating_syste.Sched.RunAll.{Queues, sched_run_all-Queues}
use fos_fcis_operating_syste.Sched.ExitNew.{sched_exit_env-new}
use fos_fcis_operating_syste.Sched.RoundRobin.{Turn, Running, yield_to_next-Turn}
use fos_fcis_operating_syste.Sched.Turns.{slices, slices-fair}

-- Environment 100 runs; 200 and then 300 entered the queue, so 200 is last.
abbrev three_envs : Sched
unfolding write
three_envs = record {
  cpu = record { interrupts = true; ncli = 0; intena = false; proc = 100 };
  stopped = false;
  qlock = record { locked = 0; cpu = 0 };
  next = write (λ _. 0) 300 200;
  prev = write (λ _. 0) 200 300;
  env_id = λ e. e;
  priority = λ _. 0;
  env_status = λ e. if e == 100 then env_running else env_ready;
  env_new_queue = record { first = 0; last = 0; size = 0 };
  env_exit_queue = record { first = 0; last = 0; size = 0 };
  env_ready_queues = λ _. record { first = 300; last = 200; size = 2 };
  num_of_ready_queues = 1;
  quantums = λ _. 10;
  clock_quantum = 10;
  buffering = false;
  cleaned = [];
}

three_envs-Running : Running three_envs (300 ∷ 200 ∷ [])
unfolding write
three_envs-Running = record {
  outside = record { free = refl; depth = refl };
  nonzero = omega arith;
  ready = record {
    chain =
        cons {x = 300} refl (omega arith) refl (omega arith, tt)
          (cons {x = 200} refl (omega arith) refl tt (nil refl refl));
    count = refl;
    fits = omega arith;
  };
  fresh = (omega arith, (omega arith, tt));
  room = omega arith;
  running = refl;
}

yield_to_next-Turn_example :
    Returns
      (λ (env, k'). (env ≡ 200) × (k'.cpu.proc ≡ env) × Turn k' (100 ∷ 300 ∷ []))
      (yield_to_next three_envs)
unfolding three_envs
yield_to_next-Turn_example = yield_to_next-Turn three_envs (300 ∷ 200 ∷ []) three_envs-Running

slices-fair_example : Returns (λ k'. k'.cpu.proc ≡ 300) (slices 2 true three_envs)
slices-fair_example = slices-fair true three_envs [] 300 (200 ∷ []) three_envs-Running

-- The same two in the new queue, before the scheduler has started.
abbrev two_new : Sched
unfolding three_envs
two_new = record three_envs {
  stopped = true;
  cpu = record { interrupts = true; ncli = 0; intena = false; proc = 0 };
  env_status = λ _. env_new;
  env_new_queue = record { first = 300; last = 200; size = 2 };
  env_ready_queues = λ _. record { first = 0; last = 0; size = 0 };
}

two_new-IsQueue : IsQueue (new_queue two_new) (300 ∷ 200 ∷ [])
unfolding two_new write
two_new-IsQueue = record {
  chain =
      cons {x = 300} refl (omega arith) refl (omega arith, tt)
        (cons {x = 200} refl (omega arith) refl tt (nil refl refl));
  count = refl;
  fits = omega arith;
}

two_new-Queues : Queues two_new (300 ∷ 200 ∷ []) []
unfolding two_new write
two_new-Queues = record {
  new = two_new-IsQueue;
  ready = record { chain = nil refl refl; count = refl; fits = omega arith };
  apart = tt;
  room = omega arith;
  flat = λ env. refl;
}

two_new-Outside : Outside two_new
unfolding two_new
two_new-Outside = record { free = refl; depth = refl }

sched_run_all-Queues_example :
    Returns
      (λ (ending, k'). (ending ≡ to_scheduler) × Queues k' [] (300 ∷ 200 ∷ []) × Outside k')
      (sched_run_all two_new)
unfolding two_new
sched_run_all-Queues_example =
    sched_run_all-Queues two_new (300 ∷ 200 ∷ []) [] two_new-Outside refl two_new-Queues

sched_exit_env-new_example : sched_exit_env 200 two_new ≡ panic
unfolding two_new
sched_exit_env-new_example =
    sched_exit_env-new 200 two_new (300 ∷ []) 200 [] two_new-Outside two_new-IsQueue refl
      (omega arith) refl (omega arith, tt) tt
