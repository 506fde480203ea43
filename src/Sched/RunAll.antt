-- ===== src/Sched/RunAll.antt =====
-- `sched_run_all` of kern/cpu/sched_helpers.c moves every new environment into the ready queue.
use fos_fcis_operating_syste.Prelude.{
  ℕ, zero, suc, ◌+◌, ◌<◌, ◌≡◌, refl, sym, ap, ◌∙◌, true, List, [], ◌∷◌, ◌++◌, word_mod, length,
  length-append, arith, append_assoc, ne→==, panic_if, Returns, returns, Returns-bind, Returns-mono,
  Returns-panic_if,
}
use fos_fcis_operating_syste.Queue.{Queue}
use fos_fcis_operating_syste.Queue.Chain.{Absent, Apart, IsQueue}
use fos_fcis_operating_syste.Queue.Insert.{Apart-cons}
use fos_fcis_operating_syste.Queue.Keeps.{Keeps, Apart-prefix, Apart-sym}
use fos_fcis_operating_syste.Sched.Defs.{Sched, new_queue, ready_queue, set_new_queue, queue_size}
use fos_fcis_operating_syste.Sched.Ops.{sched_insert_ready, move_new, sched_run_all, to_scheduler}
use fos_fcis_operating_syste.Sched.Fifo.{
  Last, empty, snoc, Last-of, enqueue-IsQueue, dequeue-IsQueue,
}
use fos_fcis_operating_syste.Sched.State.{
  Locked, Outside, expect_qlock-Locked, acquire_qlock-Outside, release_qlock-Locked, locked,
}
use fos_fcis_operating_syste.Sched.RoundRobin.{last-Absent}

-- The new environments `xs` and the ready ones `rs` with one ready queue for all priorities.
pub record Queues (k : Sched) (xs rs : List ℕ) : Type 0 where
  pub new : IsQueue (new_queue k) xs
  pub ready : IsQueue (ready_queue 0 k) rs
  pub apart : Apart rs xs
  pub room : length xs + length rs < word_mod
  pub flat : (env : ℕ) → k.priority env ≡ 0

-- The lock is held at depth 1, and the scheduler is as it was.
pub record Same (k k' : Sched) : Type 0 where
  pub cpu : k'.cpu ≡ k.cpu
  pub qlock : k'.qlock ≡ k.qlock
  pub stopped : k'.stopped ≡ k.stopped

Same-Locked : {k k' : Sched} → Same k k' → Locked k → Locked k'
Same-Locked s l = record {
  held = rw (s.qlock) l.held;
  inside = rw (s.cpu) l.inside;
  shallow = rw (s.cpu) l.shallow;
  off = rw (s.cpu) l.off;
}

-- The oldest new environment becomes the youngest ready one.
insert_ready_lem :
    (k : Sched) (q : Queue) (xs rs : List ℕ) (x : ℕ)
    → Locked k
    → Queues k (xs ++ (x ∷ [])) rs
    → IsQueue q xs
    → Keeps (new_queue k) q (xs ++ (x ∷ []))
    → Returns (λ k'. Queues k' xs (x ∷ rs) × Same k k') (sched_insert_ready x (set_new_queue q k))
unfolding sched_insert_ready panic_if
insert_ready_lem k q xs rs x l v listed kept =
    let k1 = set_new_queue q k in
    let l1 : Locked k1 = record {
      held = l.held;
      inside = l.inside;
      shallow = l.shallow;
      off = l.off;
    } in
    let alone = last-Absent xs x v.new in
    let parts = Apart-prefix rs xs (x ∷ []) v.apart in
    let stranger : Absent x rs = (Apart-sym (x ∷ []) rs parts.1).0 in
    let still : IsQueue (ready_queue 0 k1) rs = record {
      chain = kept rs v.apart _ _ v.ready.chain;
      count = v.ready.count;
      fits = v.ready.fits;
    } in
    rw (expect_qlock-Locked k1 l1, ne→== x 0 alone.1, v.flat x)
      (Returns-bind
        (enqueue-IsQueue x still alone.1 stranger
          (omega (arith, v.room, length-append xs (x ∷ []))))
        λ q2 (entered, kept2). returns (
          record {
            new = record {
              chain =
                  kept2 xs (Apart-cons x xs rs alone.0 (Apart-sym xs rs parts.0)) _ _ listed.chain;
              count = listed.count;
              fits = listed.fits;
            };
            ready = entered;
            apart = (alone.0, parts.0);
            room = omega (arith, v.room, length-append xs (x ∷ []));
            flat = v.flat;
          },
          record { cpu = refl; qlock = refl; stopped = refl },
        ))

move_new-Queues :
    (n : ℕ) (k : Sched) {xs : List ℕ} (rs : List ℕ)
    → Last xs
    → length xs ≡ n
    → Locked k
    → Queues k xs rs
    → Returns (λ k'. Queues k' [] (xs ++ rs) × Same k k') (move_new n k)
unfolding move_new
move_new-Queues zero k rs empty count l v =
    returns (v, record { cpu = refl; qlock = refl; stopped = refl })
move_new-Queues (suc n) k rs empty count l v = absurd (omega (arith, count))
move_new-Queues zero k rs (snoc ys y) count l v =
    absurd (omega (arith, count, length-append ys (y ∷ [])))
move_new-Queues (suc n) k rs (snoc ys y) count l v =
    Returns-bind (dequeue-IsQueue ys y v.new) λ (env, q) (same, listed, kept). rw same (
      Returns-bind (insert_ready_lem k q ys rs y l v listed kept) λ k1 (v1, s1).
        Returns-mono
          (move_new-Queues n k1 (y ∷ rs) (Last-of ys)
            (omega (arith, count, length-append ys (y ∷ []))) (Same-Locked s1 l) v1)
          λ k2 (v2, s2). (
            rw (append_assoc ys (y ∷ []) rs) v2,
            record {
              cpu = s2.cpu ∙ s1.cpu;
              qlock = s2.qlock ∙ s1.qlock;
              stopped = s2.stopped ∙ s1.stopped;
            },
          ))

-- `sched_run_all` of a scheduler that is stopped moves all new environments behind the ready ones
-- that are there, first in first out, frees the lock again, and goes to the scheduler.
pub sched_run_all-Queues :
    (k : Sched) (xs rs : List ℕ)
    → Outside k
    → k.stopped ≡ true
    → Queues k xs rs
    → Returns
        (λ (ending, k'). (ending ≡ to_scheduler) × Queues k' [] (xs ++ rs) × Outside k')
        (sched_run_all k)
unfolding sched_run_all queue_size
sched_run_all-Queues k xs rs o stopped v =
    let l : Locked (locked k) = record {
      held = (refl, refl);
      inside = omega arith;
      shallow = omega arith;
      off = refl;
    } in
    let v1 : Queues (locked k) xs rs = record {
      new = v.new;
      ready = v.ready;
      apart = v.apart;
      room = v.room;
      flat = v.flat;
    } in
    let moved =
      Returns-bind {Then = λ k3. (k3.stopped ≡ true) × Queues k3 [] (xs ++ rs) × Outside k3}
        (move_new-Queues k.env_new_queue.size (locked k) rs (Last-of xs) (sym v.new.count) l v1)
        λ k2 (v2, s). rw (release_qlock-Locked k2 (Same-Locked s l) (ap (λ c. c.ncli) s.cpu)) (
          returns (
            s.stopped ∙ stopped,
            record {
              new = v2.new;
              ready = v2.ready;
              apart = v2.apart;
              room = v2.room;
              flat = v2.flat;
            },
            record { free = refl; depth = refl },
          )) in
    rw (acquire_qlock-Outside k o) (
      Returns-bind moved
        λ k3 (still, v3, o3). Returns-panic_if (to_scheduler, k3) (rw still) (refl, v3, o3))
