-- ===== src/Sched/Switch.antt =====
-- The round-robin choice of kern/cpu/sched.c, and the way from one environment to the next: `yield`
-- and `sched` of kern/proc/user_environment.c, and the inner loop of `fos_scheduler`.
use fos_fcis_operating_syste.Prelude.{ℕ, Bool, not, ◌==◌, if◌then◌else◌, Run, ok, panic_if, ◌>>=◌}
use fos_fcis_operating_syste.Sched.Defs.{
  env_ready, env_running, is_ready, is_running, enqueue, dequeue, Sched, ready_queue,
  set_ready_queue, set_status, expect_qlock, acquire_qlock, release_qlock,
}

abbrev pub set_proc : ℕ → Sched → Sched
set_proc env k = record k { cpu = record k.cpu { proc = env } }

-- fos_scheduler_RR
unfoldable pub fos_scheduler_rr : Sched → Run (ℕ × Sched)
fos_scheduler_rr k = expect_qlock k >>= λ k1. enqueue (ready_queue 0 k1) k1.cpu.proc >>= λ q1.
    dequeue q1 >>= λ (env, q2).
    ok (env, record (set_ready_queue 0 q2 k1) { clock_quantum = k1.quantums 0 })

-- The inner loop of `fos_scheduler` up to the switch to the chosen environment, 0 for none.
unfoldable pub pick : Sched → Run (ℕ × Sched)
pick k = fos_scheduler_rr k >>= λ (env, k1).
    ok (env, if env == 0 then k1 else set_status env env_running (set_proc env k1))

-- The rest of the loop, once the environment has switched back.
unfoldable pub scheduler_resumed : Sched → Run Sched
unfolding panic_if
scheduler_resumed k =
    let env = k.cpu.proc in
    panic_if k.cpu.interrupts k >>= λ k1.
    panic_if (is_running (k1.env_status env))
      (if is_ready (k1.env_status env) then k1 else set_proc 0 k1)

-- sched up to the switch to the scheduler
unfoldable pub sched_checks : Sched → Run Sched
unfolding panic_if
sched_checks k = panic_if (k.cpu.proc == 0) k >>= expect_qlock >>= λ k1.
    panic_if (not (k1.cpu.ncli == 1)) k1 >>= λ k2.
    panic_if (is_running (k2.env_status k2.cpu.proc)) k2 >>= λ k3. panic_if k3.cpu.interrupts k3

-- yield, with `sched` and the scheduler, up to the switch to the next environment
unfoldable pub yield_to_next : Sched → Run (ℕ × Sched)
unfolding panic_if
yield_to_next k = acquire_qlock k >>= λ k1.
    panic_if (k1.cpu.proc == 0) (set_status k1.cpu.proc env_ready k1)
    >>= sched_checks
    >>= scheduler_resumed
    >>= pick

-- The end of `sched` and of `yield` in the environment that was switched to; `intena` is what it
-- had saved.
unfoldable pub resume : Bool → Sched → Run Sched
resume intena k = release_qlock (record k { cpu = record k.cpu { intena = intena } })
