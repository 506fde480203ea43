-- ===== src/Sched/Blocked.antt =====
-- A blocked environment leaves the CPU: `sched` of kern/proc/user_environment.c, and the scheduler of
-- kern/cpu/sched.c behind it.
use fos_fcis_operating_syste.Prelude.{
  ℕ, ◌≡◌, refl, ◌≢◌, List, [], ◌∷◌, ◌++◌, eq→==, ne→==, panic_if, ok, Returns, returns,
  Returns-bind,
}
use fos_fcis_operating_syste.Queue.Chain.{IsQueue}
use fos_fcis_operating_syste.Queue.Keeps.{Keeps}
use fos_fcis_operating_syste.Sched.Defs.{Sched, ready_queue, env_running, env_blocked, enqueue}
use fos_fcis_operating_syste.Sched.Switch.{
  set_proc, sched_checks, scheduler_resumed, fos_scheduler_rr, pick,
}
use fos_fcis_operating_syste.Sched.Fifo.{dequeue-IsQueue}
use fos_fcis_operating_syste.Sched.State.{Locked, expect_qlock-Locked}
use fos_fcis_operating_syste.Sched.RoundRobin.{last-Absent}

-- A blocked environment that holds the queue lock at depth 1 may leave the CPU.
pub sched_checks-blocked :
    (k : Sched)
    → Locked k
    → k.cpu.ncli ≡ 1
    → k.cpu.proc ≢ 0
    → k.env_status k.cpu.proc ≡ env_blocked
    → sched_checks k ≡ ok k
unfolding sched_checks panic_if
sched_checks-blocked k l depth nz blocked =
    rw (ne→== k.cpu.proc 0 nz, expect_qlock-Locked k l) (rw (depth, blocked, l.off))

-- It does not go back into the ready queue.
pub scheduler_resumed-blocked :
    (k : Sched)
    → Locked k
    → k.env_status k.cpu.proc ≡ env_blocked
    → scheduler_resumed k ≡ ok (set_proc 0 k)
unfolding scheduler_resumed panic_if
scheduler_resumed-blocked k l blocked = rw (l.off, blocked)

-- With no environment on the CPU the oldest ready one is picked.
pub pick-idle :
    (k0 : Sched) (ys : List ℕ) (y : ℕ)
    → Locked k0
    → IsQueue (ready_queue 0 k0) (ys ++ (y ∷ []))
    → Returns
        (λ (env, k').
          (env ≡ y)
          × IsQueue (ready_queue 0 k') ys
          × Keeps (ready_queue 0 k0) (ready_queue 0 k') (ys ++ (y ∷ []))
          × (k'.cpu.proc ≡ y)
          × (k'.env_status y ≡ env_running)
          × ((e : ℕ) → e ≢ y → k'.env_status e ≡ k0.env_status e)
          × Locked k')
        (pick (set_proc 0 k0))
unfolding pick fos_scheduler_rr enqueue
pick-idle k0 ys y l0 v =
    let alone = last-Absent ys y v in
    let k = set_proc 0 k0 in
    let l : Locked k = record {
      held = l0.held;
      inside = l0.inside;
      shallow = l0.shallow;
      off = l0.off;
    } in
    rw (expect_qlock-Locked k l) (
      Returns-bind
        (Returns-bind
          {Then = λ (env, k1).
            (env ≡ y)
            × IsQueue (ready_queue 0 k1) ys
            × Keeps (ready_queue 0 k) (ready_queue 0 k1) (ys ++ (y ∷ []))
            × (k1.cpu ≡ k.cpu)
            × (k1.qlock ≡ k.qlock)
            × (k1.env_status ≡ k.env_status)}
          (dequeue-IsQueue ys y v)
          λ (env, q) (same, listed, kept). returns (same, listed, kept, refl, refl, refl))
        λ (env, k1) (same, listed, kept, same_cpu, same_lock, same_status).
          rw (same, ne→== y 0 alone.1)
            (returns (
              refl,
              listed,
              kept,
              refl,
              rw (eq→== y y refl),
              λ e other. rw (ne→== e y other, same_status),
              record {
                held = rw same_lock l.held;
                inside = rw same_cpu l.inside;
                shallow = rw same_cpu l.shallow;
                off = rw same_cpu l.off;
              },
            )))
