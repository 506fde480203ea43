-- ===== src/Sched/RoundRobin.antt =====
-- The round-robin scheduler of kern/cpu/sched.c takes turns: who yields goes to the end of the
-- queue, and who has waited longest runs.
use fos_fcis_operating_syste.Prelude.{
  ℕ, ◌+◌, ◌<◌, ◌≡◌, refl, ap, ◌≢◌, Bool, List, [], ◌∷◌, ◌++◌, word_mod, length, arith, ne→==, eq→==,
  ok, panic_if, Returns, returns, Returns-bind,
}
use fos_fcis_operating_syste.Queue.{Queue}
use fos_fcis_operating_syste.Queue.Chain.{Absent, Apart-head, Chain, cons, Chain-split, IsQueue}
use fos_fcis_operating_syste.Sched.Defs.{env_ready, env_running, Sched, ready_queue, set_status}
use fos_fcis_operating_syste.Sched.Switch.{
  fos_scheduler_rr, pick, scheduler_resumed, sched_checks, yield_to_next, resume,
}
use fos_fcis_operating_syste.Sched.Fifo.{enqueue-IsQueue, dequeue-IsQueue}
use fos_fcis_operating_syste.Sched.State.{
  Locked, Outside, expect_qlock-Locked, acquire_qlock-Outside, release_qlock-Locked, locked,
}

-- The running environment has been switched to and still holds the lock; `xs` wait, the oldest last.
pub record Turn (k : Sched) (xs : List ℕ) : Type 0 where
  pub locked : Locked k
  pub depth : k.cpu.ncli ≡ 1
  pub nonzero : k.cpu.proc ≢ 0
  pub ready : IsQueue (ready_queue 0 k) xs
  pub fresh : Absent k.cpu.proc xs
  pub room : length xs + 1 < word_mod
  pub running : k.env_status k.cpu.proc ≡ env_running

-- Who runs next, and who waits then.
abbrev pub next_turn : ℕ → List ℕ → ℕ × List ℕ
next_turn cur [] = (cur, [])
next_turn cur (x ∷ xs) = let (env, ys) = next_turn x xs in (env, cur ∷ ys)

pub next_turn-snoc : (x : ℕ) (ys : List ℕ) (y : ℕ) → next_turn x (ys ++ (y ∷ [])) ≡ (y, x ∷ ys)
next_turn-snoc x [] y = refl
next_turn-snoc x (z ∷ ys) y = rw (next_turn-snoc z ys y)

next_turn-whole : (x : ℕ) (xs : List ℕ) → x ∷ xs ≡ (next_turn x xs).1 ++ ((next_turn x xs).0 ∷ [])
next_turn-whole x [] = refl
next_turn-whole x (y ∷ xs) = ap (λ l. x ∷ l) (next_turn-whole y xs)

-- The last element of a list is none of the others, and not NULL.
pub last-Absent :
    {q : Queue} (ys : List ℕ) (x : ℕ) → IsQueue q (ys ++ (x ∷ [])) → Absent x ys × (x ≢ 0)
last-Absent {q} ys x v =
    let (k, m, f, b, apart) = Chain-split ys (x ∷ []) v.chain in
    ((Apart-head x ys [] apart).0, go b)
  where
    go : {k m : ℕ} → Chain q.next q.prev 0 k m (x ∷ []) q.last → x ≢ 0
    go (cons e nz back fresh c) = nz

-- `fos_scheduler_RR` with the running environment: it enters the queue, and the oldest leaves it.
pub fos_scheduler_rr_lem :
    (k : Sched) (xs : List ℕ)
    → Locked k
    → k.cpu.proc ≢ 0
    → IsQueue (ready_queue 0 k) xs
    → Absent k.cpu.proc xs
    → length xs + 1 < word_mod
    → Returns
        (λ (env, k').
          (env ≡ (next_turn k.cpu.proc xs).0)
          × IsQueue (ready_queue 0 k') (next_turn k.cpu.proc xs).1
          × (k'.cpu ≡ k.cpu)
          × (k'.qlock ≡ k.qlock)
          × (k'.env_status ≡ k.env_status)
          × (k'.clock_quantum ≡ k.quantums 0)
          × (Absent env (next_turn k.cpu.proc xs).1)
          × (env ≢ 0))
        (fos_scheduler_rr k)
unfolding fos_scheduler_rr
fos_scheduler_rr_lem k xs l nz v fresh room =
    let (env, ys) = next_turn k.cpu.proc xs in
    rw (expect_qlock-Locked k l) (
      Returns-bind (enqueue-IsQueue k.cpu.proc v nz fresh room) λ q1 (listed, kept).
        let whole : IsQueue q1 (ys ++ (env ∷ [])) = rw (next_turn-whole k.cpu.proc xs) at listed in
        let alone = last-Absent ys env whole in
        Returns-bind (dequeue-IsQueue ys env whole) λ (e, q2) (same, rest, kept2).
          returns (same, rest, refl, refl, refl, refl, rw same alone.0, rw same alone.1))

-- An environment runs outside the kernel's lock, while `xs` wait.
pub record Running (k : Sched) (xs : List ℕ) : Type 0 where
  pub outside : Outside k
  pub nonzero : k.cpu.proc ≢ 0
  pub ready : IsQueue (ready_queue 0 k) xs
  pub fresh : Absent k.cpu.proc xs
  pub room : length xs + 1 < word_mod
  pub running : k.env_status k.cpu.proc ≡ env_running

length-next_turn : (x : ℕ) (xs : List ℕ) → length (next_turn x xs).1 ≡ length xs
length-next_turn x [] = refl
length-next_turn x (y ∷ xs) = omega (arith, length-next_turn y xs)

pick-Turn :
    (k : Sched) (xs : List ℕ)
    → Locked k
    → k.cpu.ncli ≡ 1
    → k.cpu.proc ≢ 0
    → IsQueue (ready_queue 0 k) xs
    → Absent k.cpu.proc xs
    → length xs + 1 < word_mod
    → Returns
        (λ (env, k').
          (env ≡ (next_turn k.cpu.proc xs).0)
          × (k'.cpu.proc ≡ env)
          × Turn k' (next_turn k.cpu.proc xs).1)
        (pick k)
unfolding pick
pick-Turn k xs l depth nz v fresh room =
    Returns-bind (fos_scheduler_rr_lem k xs l nz v fresh room)
      λ (env, k') (same, listed, same_cpu, same_lock, same_status, clock, alone, some_env).
        rw (ne→== env 0 some_env) (
          returns (
            same,
            refl,
            record {
              locked = record {
                held = rw same_lock l.held;
                inside = rw same_cpu l.inside;
                shallow = rw same_cpu l.shallow;
                off = rw same_cpu l.off;
              };
              depth = rw same_cpu depth;
              nonzero = some_env;
              ready = listed;
              fresh = alone;
              room = rw (length-next_turn k.cpu.proc xs) room;
              running = rw (eq→== env env refl);
            },
          ))

-- A ready environment that holds the lock may leave the CPU, and the scheduler keeps it as the
-- one to put back into the queue.
sched_checks-ready :
    (k : Sched)
    → Locked k
    → k.cpu.ncli ≡ 1
    → k.cpu.proc ≢ 0
    → k.env_status k.cpu.proc ≡ env_ready
    → sched_checks k ≡ ok k
unfolding sched_checks panic_if
sched_checks-ready k l depth nz ready =
    rw (ne→== k.cpu.proc 0 nz, expect_qlock-Locked k l) (rw (depth, ready, l.off))

scheduler_resumed-ready :
    (k : Sched) → Locked k → k.env_status k.cpu.proc ≡ env_ready → scheduler_resumed k ≡ ok k
unfolding scheduler_resumed panic_if
scheduler_resumed-ready k l ready = rw (l.off, ready)

-- `yield` gives the CPU to the environment that has waited longest, and the one that yields is the
-- last to get it again.
pub yield_to_next-Turn :
    (k : Sched) (xs : List ℕ)
    → Running k xs
    → Returns
        (λ (env, k').
          (env ≡ (next_turn k.cpu.proc xs).0)
          × (k'.cpu.proc ≡ env)
          × Turn k' (next_turn k.cpu.proc xs).1)
        (yield_to_next k)
unfolding yield_to_next panic_if
yield_to_next-Turn k xs r =
    let k1 = set_status k.cpu.proc env_ready (locked k) in
    let l : Locked k1 = record {
      held = (refl, refl);
      inside = omega arith;
      shallow = omega arith;
      off = refl;
    } in
    let ready : k1.env_status k.cpu.proc ≡ env_ready = rw (eq→== k.cpu.proc k.cpu.proc refl) in
    rw
      (
        acquire_qlock-Outside k r.outside,
        ne→== k.cpu.proc 0 r.nonzero,
        sched_checks-ready k1 l refl r.nonzero ready,
        scheduler_resumed-ready k1 l ready,
      )
      (pick-Turn k1 xs l refl r.nonzero r.ready r.fresh r.room)

-- Back in the environment, the lock is free and the interrupts are as it had them.
pub resume-Running :
    (intena : Bool) (k : Sched) (xs : List ℕ)
    → Turn k xs
    → Returns
        (λ k'. Running k' xs × (k'.cpu.proc ≡ k.cpu.proc) × (k'.cpu.interrupts ≡ intena))
        (resume intena k)
unfolding resume
resume-Running intena k xs t =
    let k1 = record k { cpu = record k.cpu { intena = intena } } in
    let l : Locked k1 = record {
      held = t.locked.held;
      inside = t.locked.inside;
      shallow = t.locked.shallow;
      off = t.locked.off;
    } in
    rw (release_qlock-Locked k1 l t.depth) (
      returns (
        record {
          outside = record { free = refl; depth = refl };
          nonzero = t.nonzero;
          ready = t.ready;
          fresh = t.fresh;
          room = t.room;
          running = t.running;
        },
        refl,
        refl,
      ))
