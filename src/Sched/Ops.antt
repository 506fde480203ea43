-- ===== src/Sched/Ops.antt =====
-- The operations of kern/cpu/sched_helpers.c on the queues of environments.
use fos_fcis_operating_syste.Prelude.{
  ℕ, zero, suc, ◌+◌, Bool, true, false, not, ◌||◌, List, [], ◌∷◌, ◌==◌, if◌then◌else◌, Run, ok,
  panic_if, ◌>>=◌,
}
use fos_fcis_operating_syste.Queue
use fos_fcis_operating_syste.Queue.{Queue}
use fos_fcis_operating_syste.Spinlock.{holding_spinlock}
use fos_fcis_operating_syste.Sched.Defs.{
  env_ready, env_new, env_exit, env_unknown, is_ready, is_new, is_exit, enqueue, dequeue,
  find_env_in_queue, Sched, new_queue, exit_queue, ready_queue, set_new_queue, set_exit_queue,
  set_ready_queue, set_status, expect_qlock, acquire_qlock, release_qlock, queue_size,
}

-- sched_insert_ready0
unfoldable pub sched_insert_ready0 : ℕ → Sched → Run Sched
sched_insert_ready0 env k = expect_qlock k >>= λ k1.
    panic_if (env == 0) (set_status env env_ready k1) >>= λ k2.
    enqueue (ready_queue 0 k2) env >>= λ q. ok (set_ready_queue 0 q k2)

-- sched_insert_ready
unfoldable pub sched_insert_ready : ℕ → Sched → Run Sched
sched_insert_ready env k = expect_qlock k >>= λ k1.
    panic_if (env == 0) (set_status env env_ready k1) >>= λ k2.
    enqueue (ready_queue (k2.priority env) k2) env >>= λ q.
    ok (set_ready_queue (k2.priority env) q k2)

-- The loop of `sched_remove_ready`, with `n` queues left from `i` on.
unfoldable pub remove_ready_from : ℕ → ℕ → ℕ → Sched → Run Sched
remove_ready_from zero i env k = ok k
remove_ready_from (suc n) i env k =
    let rest = remove_ready_from n (i + 1) env k in
    if find_env_in_queue k.env_id (ready_queue i k) (k.env_id env) == 0
    then rest
    else Queue.remove (ready_queue i k) env >>= λ q.
        ok (set_status env env_unknown (set_ready_queue i q k))

-- sched_remove_ready
unfoldable pub sched_remove_ready : ℕ → Sched → Run Sched
sched_remove_ready env k = expect_qlock k >>= λ k1.
    panic_if ((env == 0) || not (is_ready (k1.env_status env))) k1
    >>= remove_ready_from k1.num_of_ready_queues 0 env

-- sched_insert_new
unfoldable pub sched_insert_new : ℕ → Sched → Run Sched
sched_insert_new env k = expect_qlock k >>= λ k1.
    panic_if (env == 0) (set_status env env_new k1) >>= λ k2.
    enqueue (new_queue k2) env >>= λ q. ok (set_new_queue q k2)

-- sched_remove_new
unfoldable pub sched_remove_new : ℕ → Sched → Run Sched
sched_remove_new env k = expect_qlock k >>= λ k1.
    panic_if ((env == 0) || not (is_new (k1.env_status env))) k1 >>= λ k2.
    Queue.remove (new_queue k2) env >>= λ q. ok (set_status env env_unknown (set_new_queue q k2))

-- `if(isBufferingEnabled()) {cleanup_buffers(env);}`
abbrev pub clean_buffers : ℕ → Sched → Sched
clean_buffers env k = if k.buffering then record k { cleaned = env ∷ k.cleaned } else k

-- sched_insert_exit
unfoldable pub sched_insert_exit : ℕ → Sched → Run Sched
sched_insert_exit env k = expect_qlock k >>= λ k1.
    panic_if (env == 0) (set_status env env_exit (clean_buffers env k1)) >>= λ k2.
    enqueue (exit_queue k2) env >>= λ q. ok (set_exit_queue q k2)

-- sched_remove_exit
unfoldable pub sched_remove_exit : ℕ → Sched → Run Sched
sched_remove_exit env k = expect_qlock k >>= λ k1.
    panic_if ((env == 0) || not (is_exit (k1.env_status env))) k1 >>= λ k2.
    Queue.remove (exit_queue k2) env >>= λ q. ok (set_status env env_unknown (set_exit_queue q k2))

-- sched_new_env
unfoldable pub sched_new_env : ℕ → Sched → Run Sched
sched_new_env env k =
    acquire_qlock k >>= λ k1. panic_if (env == 0) k1 >>= sched_insert_new env >>= release_qlock

-- How a call ends: it returns, or control goes to `fos_scheduler`, from which it does not come back,
-- or to another environment by `sched`.
pub data Ending : Type 0 where
  back to_scheduler switched : Ending

-- The end of `sched_run_env` behind the found environment.
unfoldable pub started : ℕ → Sched → Run (Ending × Sched)
started env k = sched_remove_new env k >>= sched_insert_ready env >>= release_qlock >>= λ k1.
    ok (if k1.stopped then to_scheduler else back, k1)

-- sched_run_env
unfoldable pub sched_run_env : ℕ → Sched → Run (Ending × Sched)
sched_run_env id k = acquire_qlock k >>= λ k1.
    let env = find_env_in_queue k1.env_id (new_queue k1) id in
    if env == 0 then (release_qlock k1 >>= λ k2. ok (back, k2)) else started env k1

-- The loop of `sched_run_all`: the oldest first.
unfoldable pub move_new : ℕ → Sched → Run Sched
move_new zero k = ok k
move_new (suc n) k =
    dequeue (new_queue k) >>= λ (env, q). sched_insert_ready env (set_new_queue q k) >>= move_new n

-- sched_run_all
unfoldable pub sched_run_all : Sched → Run (Ending × Sched)
sched_run_all k = acquire_qlock k >>= λ k1.
    move_new (queue_size (new_queue k1)) k1 >>= release_qlock >>= λ k2.
    panic_if (not k2.stopped) (to_scheduler, k2)

-- The loop of `sched_exit_env` over the new queue, which has no `break`.
unfoldable pub remove_all_new : ℕ → List ℕ → Bool → Sched → Run (Bool × Sched)
remove_all_new id [] found k = ok (found, k)
remove_all_new id (e ∷ es) found k =
    if k.env_id e == id
    then sched_remove_new e k >>= remove_all_new id es true
    else remove_all_new id es found k

-- Its loop over the ready queues: the first queue with the environment, which it then leaves.
unfoldable pub remove_ready_id : ℕ → ℕ → ℕ → Sched → Run (ℕ × Sched)
remove_ready_id zero i id k = ok (0, k)
remove_ready_id (suc n) i id k =
    let rest = remove_ready_id n (i + 1) id k in
    let env = find_env_in_queue k.env_id (ready_queue i k) id in
    if env == 0
    then rest
    else Queue.remove (ready_queue i k) env >>= λ q. ok (env, set_ready_queue i q k)

-- Its end: the environment enters the exit queue, and the running one calls `sched`.
unfoldable pub exit_found : ℕ → ℕ → Sched → Run (Ending × Sched)
exit_found id env k = sched_insert_exit env k >>= λ k1.
    ok (if k1.env_id k1.cpu.proc == id then switched else back, k1)

unfoldable pub exit_search : ℕ → Bool → Sched → Run (Ending × Sched)
exit_search id true k = panic_if (k.cpu.proc == 0) k >>= exit_found id 0
exit_search id false k = remove_ready_id k.num_of_ready_queues 0 id k >>= λ (env, k1).
    panic_if (k1.cpu.proc == 0) k1 >>= λ k2.
    if not (env == 0)
    then exit_found id env k2
    else if k2.env_id k2.cpu.proc == id
    then exit_found id k2.cpu.proc k2
    else ok (back, k2)

-- The lock is released where this call acquired it, unless control is gone.
unfoldable pub exit_unlock : Bool → Ending × Sched → Run (Ending × Sched)
exit_unlock false (back, k) = release_qlock k >>= λ k1. ok (back, k1)
exit_unlock _ r = ok r

-- sched_exit_env. Behind the loop over the new queue `ptr_env` is NULL.
unfoldable pub sched_exit_env : ℕ → Sched → Run (Ending × Sched)
sched_exit_env id k = holding_spinlock k.qlock k.cpu >>= λ (held, c).
    (if held then ok (record k { cpu = c }) else acquire_qlock (record k { cpu = c })) >>= λ k1.
    remove_all_new id (Queue.elements (new_queue k1)) false k1 >>= λ (found, k2).
    exit_search id found k2 >>= exit_unlock held

-- One ready queue of `sched_exit_all_ready_envs`.
unfoldable pub exit_queue_of : ℕ → List ℕ → Sched → Run Sched
exit_queue_of i [] k = ok k
exit_queue_of i (e ∷ es) k = Queue.remove (ready_queue i k) e >>= λ q.
    sched_insert_exit e (set_ready_queue i q k) >>= exit_queue_of i es

unfoldable pub exit_queues : ℕ → ℕ → Sched → Run Sched
exit_queues zero i k = ok k
exit_queues (suc n) i k =
    exit_queue_of i (Queue.elements (ready_queue i k)) k >>= exit_queues n (i + 1)

-- sched_exit_all_ready_envs
unfoldable pub sched_exit_all_ready_envs : Sched → Run Sched
sched_exit_all_ready_envs k =
    acquire_qlock k >>= λ k1. exit_queues k1.num_of_ready_queues 0 k1 >>= release_qlock
