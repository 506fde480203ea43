-- ===== src/Sched/Defs.antt =====
-- The queue functions of kern/cpu/sched_helpers.c, and the state of the scheduler. An environment
-- is its address, and 0 is NULL.
use fos_fcis_operating_syste.Prelude.{
  ℕ, Bool, true, false, not, List, [], ◌∷◌, ◌==◌, if◌then◌else◌, Run, ok, panic_if, ◌>>=◌,
}
use fos_fcis_operating_syste.Queue
use fos_fcis_operating_syste.Queue.{Queue}
use fos_fcis_operating_syste.Spinlock.{
  Cpu, Spinlock, holding_spinlock, acquire_spinlock, release_spinlock,
}

-- The ENV_* states of inc/environment_definitions.h.
pub data Status : Type 0 where
  env_free env_ready env_running env_blocked env_new env_exit env_unknown : Status

abbrev pub is_ready : Status → Bool
is_ready env_ready = true
is_ready _ = false

abbrev pub is_running : Status → Bool
is_running env_running = true
is_running _ = false

abbrev pub is_new : Status → Bool
is_new env_new = true
is_new _ = false

abbrev pub is_exit : Status → Bool
is_exit env_exit = true
is_exit _ = false

-- queue_size
unfoldable pub queue_size : Queue → ℕ
queue_size q = q.size

-- enqueue
unfoldable pub enqueue : Queue → ℕ → Run Queue
enqueue q env = if env == 0 then ok q else Queue.insert_head q env

-- dequeue
unfoldable pub dequeue : Queue → Run (ℕ × Queue)
dequeue q =
    let env = q.last in if env == 0 then ok (0, q) else Queue.remove q env >>= λ q1. ok (env, q1)

-- remove_from_queue
unfoldable pub remove_from_queue : Queue → ℕ → Run Queue
remove_from_queue q env = if env == 0 then ok q else Queue.remove q env

-- The loop of `find_env_in_queue`.
unfoldable pub find_env : (ℕ → ℕ) → ℕ → List ℕ → ℕ
find_env env_id id [] = 0
find_env env_id id (e ∷ es) = let rest = find_env env_id id es in if env_id e == id then e else rest

-- find_env_in_queue
unfoldable pub find_env_in_queue : (ℕ → ℕ) → Queue → ℕ → ℕ
find_env_in_queue env_id q id = find_env env_id id (Queue.elements q)

-- A head of `struct Env_Queue`, without the links of its elements.
pub record Head : Type 0 where
  pub first : ℕ
  pub last : ℕ
  pub size : ℕ

-- `ProcessQueues` with its lock, the fields of the environments that the scheduler uses, the CPU, and
-- what was last told to the clock. `next` and `prev` are the one `prev_next_info` of an environment,
-- which all queues share. `stopped` says that `scheduler_status` is SCH_STOPPED; `cleaned` lists
-- the environments that `cleanup_buffers` was called for.
pub record Sched : Type 0 where
  pub cpu : Cpu
  pub stopped : Bool
  pub qlock : Spinlock
  pub next : ℕ → ℕ
  pub prev : ℕ → ℕ
  pub env_id : ℕ → ℕ
  pub priority : ℕ → ℕ
  pub env_status : ℕ → Status
  pub env_new_queue : Head
  pub env_exit_queue : Head
  pub env_ready_queues : ℕ → Head
  pub num_of_ready_queues : ℕ
  pub quantums : ℕ → ℕ
  pub clock_quantum : ℕ
  pub buffering : Bool
  pub cleaned : List ℕ

-- A queue is its head and the shared links.
abbrev pub queue_at : Head → Sched → Queue
queue_at h k = record {
  first = h.first;
  last = h.last;
  size = h.size;
  next = k.next;
  prev = k.prev;
}

abbrev pub head_of : Queue → Head
head_of q = record { first = q.first; last = q.last; size = q.size }

abbrev pub new_queue : Sched → Queue
new_queue k = queue_at k.env_new_queue k

abbrev pub exit_queue : Sched → Queue
exit_queue k = queue_at k.env_exit_queue k

abbrev pub ready_queue : ℕ → Sched → Queue
ready_queue i k = queue_at (k.env_ready_queues i) k

abbrev pub set_new_queue : Queue → Sched → Sched
set_new_queue q k = record k { env_new_queue = head_of q; next = q.next; prev = q.prev }

abbrev pub set_exit_queue : Queue → Sched → Sched
set_exit_queue q k = record k { env_exit_queue = head_of q; next = q.next; prev = q.prev }

abbrev pub set_ready_queue : ℕ → Queue → Sched → Sched
set_ready_queue i q k = record k {
  env_ready_queues = λ j. if j == i then head_of q else k.env_ready_queues j;
  next = q.next;
  prev = q.prev;
}

abbrev pub set_status : ℕ → Status → Sched → Sched
set_status env s k = record k { env_status = λ e. if e == env then s else k.env_status e }

-- The test `if(!holding_spinlock(&ProcessQueues.qlock)) panic(...);`
unfoldable pub expect_qlock : Sched → Run Sched
unfolding panic_if
expect_qlock k =
    holding_spinlock k.qlock k.cpu >>= λ (held, c). panic_if (not held) (record k { cpu = c })

-- `acquire_spinlock(&ProcessQueues.qlock)`, which succeeds in the first round or not at all.
unfoldable pub acquire_qlock : Sched → Run Sched
acquire_qlock k =
    acquire_spinlock 1 k.qlock k.cpu >>= λ (lk, c). ok (record k { qlock = lk; cpu = c })

unfoldable pub release_qlock : Sched → Run Sched
release_qlock k =
    release_spinlock k.qlock k.cpu >>= λ (lk, c). ok (record k { qlock = lk; cpu = c })
