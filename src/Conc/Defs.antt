-- ===== src/Conc/Defs.antt =====
-- The operations of kern/conc/channel.c and kern/conc/sleeplock.c. A call that leaves the CPU is split
-- at the switch: what runs before it, and what runs when the environment gets the CPU again.
use fos_fcis_operating_syste.Prelude.{
  ℕ, zero, suc, Bool, true, false, ◌&&◌, ◌==◌, if◌then◌else◌, Run, ok, out_of_fuel, ◌>>=◌,
}
use fos_fcis_operating_syste.Queue.{Queue}
use fos_fcis_operating_syste.Spinlock.{Spinlock, init_spinlock, acquire_spinlock, release_spinlock}
use fos_fcis_operating_syste.Sched.{
  Head, Sched, queue_at, head_of, set_status, env_ready, env_blocked, enqueue, dequeue, queue_size,
  acquire_qlock, release_qlock, sched_insert_ready0, sched_checks, scheduler_resumed, pick, resume,
}

-- The links of the environments are in the scheduler's state: a channel is the head of its queue.
abbrev pub set_links : Queue → Sched → Sched
set_links q k = record k { next = q.next; prev = q.prev }

-- What one blocked environment goes through on its way to the ready queue.
unfoldable pub wake_last : Head → Sched → Run (Head × Sched)
wake_last chan k = dequeue (queue_at chan k) >>= λ (env, q).
    sched_insert_ready0 env (set_status env env_ready (set_links q k)) >>= λ k1. ok (head_of q, k1)

-- wakeup_one
unfoldable pub wakeup_one : Head → Sched → Run (Head × Sched)
wakeup_one chan k = acquire_qlock k >>= λ k1.
    (if queue_size (queue_at chan k1) == 0 then ok (chan, k1) else wake_last chan k1)
    >>= λ (chan1, k2). release_qlock k2 >>= λ k3. ok (chan1, k3)

-- The loop of `wakeup_all`.
unfoldable pub wake_each : ℕ → Head → Sched → Run (Head × Sched)
wake_each zero chan k = out_of_fuel
wake_each (suc fuel) chan k =
    let rest = wake_last chan k >>= λ (chan1, k1). wake_each fuel chan1 k1 in
    if queue_size (queue_at chan k) == 0 then ok (chan, k) else rest

-- wakeup_all; every round takes one environment from the channel, so its size bounds the rounds.
unfoldable pub wakeup_all : Head → Sched → Run (Head × Sched)
wakeup_all chan k = acquire_qlock k >>= λ k1.
    wake_each (suc chan.size) chan k1 >>= λ (chan1, k2). release_qlock k2 >>= λ k3. ok (chan1, k3)

-- `struct sleeplock`: `lk` is the guard.
pub record SleepLock : Type 0 where
  pub locked : Bool
  pub lk : Spinlock
  pub chan : Head
  pub pid : ℕ

-- `acquire_spinlock(&(lk->lk))` and its release
unfoldable pub acquire_guard : SleepLock → Sched → Run (SleepLock × Sched)
acquire_guard l k =
    acquire_spinlock 1 l.lk k.cpu >>= λ (lk, c). ok (record l { lk = lk }, record k { cpu = c })

unfoldable pub release_guard : SleepLock → Sched → Run (SleepLock × Sched)
release_guard l k =
    release_spinlock l.lk k.cpu >>= λ (lk, c). ok (record l { lk = lk }, record k { cpu = c })

-- holding_sleeplock
unfoldable pub holding_sleeplock : SleepLock → Sched → Run (Bool × SleepLock × Sched)
holding_sleeplock l k = acquire_guard l k >>= λ (l1, k1).
    release_guard l1 k1 >>= λ (l2, k2). ok (l1.locked && (l1.pid == k1.env_id k1.cpu.proc), l2, k2)

-- sleep up to the switch; the answer is the next environment on the CPU, 0 for none.
unfoldable pub sleep : SleepLock → Sched → Run (ℕ × SleepLock × Sched)
sleep l k = acquire_qlock k >>= λ k1. enqueue (queue_at l.chan k1) k1.cpu.proc >>= λ q.
    release_guard (record l { chan = head_of q }) (set_links q k1) >>= λ (l1, k2).
    sched_checks (set_status k2.cpu.proc env_blocked k2)
    >>= scheduler_resumed
    >>= pick
    >>= λ (env, k3). ok (env, l1, k3)

-- The rest of `sleep`, when the environment has been woken and has got the CPU.
unfoldable pub awakened : Bool → SleepLock → Sched → Run (SleepLock × Sched)
awakened intena l k = resume intena k >>= acquire_guard l

-- How a call of `acquire_sleeplock` goes on: with the lock, or asleep, with `env` on the CPU.
pub data Acquiring : Type 0 where
  acquired : Acquiring
  asleep : (env : ℕ) → Acquiring

-- The loop of `acquire_sleeplock` with the guard held, and what follows it.
unfoldable pub acquire_loop : SleepLock → Sched → Run (Acquiring × SleepLock × Sched)
acquire_loop l k =
    if l.locked
    then (sleep l k >>= λ (env, l1, k1). ok (asleep env, l1, k1))
    else (release_guard (record l { locked = true; pid = k.env_id k.cpu.proc }) k >>= λ (l1, k1).
        ok (acquired, l1, k1))

-- acquire_sleeplock up to a first sleep
unfoldable pub acquire_sleeplock : SleepLock → Sched → Run (Acquiring × SleepLock × Sched)
acquire_sleeplock l k = holding_sleeplock l k >>= λ (held, l1, k1).
    if held then ok (acquired, l1, k1) else (acquire_guard l1 k1 >>= λ (l2, k2). acquire_loop l2 k2)

-- acquire_sleeplock from one sleep on
unfoldable pub acquire_awakened : Bool → SleepLock → Sched → Run (Acquiring × SleepLock × Sched)
acquire_awakened intena l k = awakened intena l k >>= λ (l1, k1). acquire_loop l1 k1

-- release_sleeplock behind the test for the holder
unfoldable pub release_held : SleepLock → Sched → Run (SleepLock × Sched)
release_held l k = acquire_guard l k >>= λ (l1, k1). wakeup_all l1.chan k1 >>= λ (chan, k2).
    release_guard (record l1 { chan = chan; locked = false; pid = 0 }) k2

-- release_sleeplock
unfoldable pub release_sleeplock : SleepLock → Sched → Run (SleepLock × Sched)
release_sleeplock l k =
    holding_sleeplock l k >>= λ (held, l1, k1). if held then release_held l1 k1 else ok (l1, k1)

-- init_channel and init_sleeplock, without the names
unfoldable pub init_channel : Head
init_channel = record { first = 0; last = 0; size = 0 }

unfoldable pub init_sleeplock : SleepLock
unfolding init_channel init_spinlock
init_sleeplock = record { locked = false; lk = init_spinlock; chan = init_channel; pid = 0 }
