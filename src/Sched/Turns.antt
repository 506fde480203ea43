-- ===== src/Sched/Turns.antt =====
-- Every environment in the ready queue of the round-robin scheduler gets its turn.
use fos_fcis_operating_syste.Prelude.{
  ℕ, zero, suc, ◌≡◌, refl, ◌∙◌, Bool, List, [], ◌∷◌, ◌++◌, length, length-append, arith,
  append_assoc, Run, ok, Returns, returns, Returns-bind, Returns-mono, ◌>>=◌,
}
use fos_fcis_operating_syste.Sched.Defs.{Sched}
use fos_fcis_operating_syste.Sched.Switch.{yield_to_next, resume}
use fos_fcis_operating_syste.Sched.Fifo.{Last, empty, snoc, Last-of}
use fos_fcis_operating_syste.Sched.RoundRobin.{
  Running, next_turn, next_turn-snoc, yield_to_next-Turn, resume-Running,
}

-- One time slice up to the next `yield`: the switch, and the return into the environment.
unfoldable pub slice : Bool → Sched → Run Sched
slice intena k = yield_to_next k >>= λ (env, k1). resume intena k1

unfoldable pub slices : ℕ → Bool → Sched → Run Sched
slices zero intena k = ok k
slices (suc n) intena k = slice intena k >>= slices n intena

pub slice-Running :
    (intena : Bool) (k : Sched) (xs : List ℕ)
    → Running k xs
    → Returns
        (λ k'. Running k' (next_turn k.cpu.proc xs).1 × (k'.cpu.proc ≡ (next_turn k.cpu.proc xs).0))
        (slice intena k)
unfolding slice
slice-Running intena k xs r =
    Returns-bind (yield_to_next-Turn k xs r) λ (env, k1) (chosen, on_cpu, turn).
      Returns-mono (resume-Running intena k1 (next_turn k.cpu.proc xs).1 turn)
        λ k2 (running, same, flag). (running, same ∙ on_cpu ∙ chosen)

-- The oldest of the queue runs next, behind the others of the queue and the one that ran.
slice-snoc :
    (intena : Bool) (k : Sched) (ys : List ℕ) (y : ℕ)
    → Running k (ys ++ (y ∷ []))
    → Returns (λ k'. Running k' (k.cpu.proc ∷ ys) × (k'.cpu.proc ≡ y)) (slice intena k)
slice-snoc intena k ys y r =
    rw (next_turn-snoc k.cpu.proc ys y) at (slice-Running intena k (ys ++ (y ∷ [])) r)

waits :
    (n : ℕ) (intena : Bool) (k : Sched) (ys : List ℕ) (x : ℕ) {zs : List ℕ}
    → Last zs
    → length zs ≡ n
    → Running k (ys ++ (x ∷ zs))
    → Returns (λ k'. k'.cpu.proc ≡ x) (slices (suc n) intena k)
unfolding slices
waits zero intena k ys x empty count r =
    Returns-bind (slice-snoc intena k ys x r) λ k' (running, runs). returns runs
waits (suc n) intena k ys x empty count r = absurd (omega (arith, count))
waits zero intena k ys x (snoc ws w) count r =
    absurd (omega (arith, length-append ws (w ∷ []), count))
waits (suc n) intena k ys x (snoc ws w) count r =
    let grouped : Running k ((ys ++ (x ∷ ws)) ++ (w ∷ [])) =
      rw (append_assoc ys (x ∷ ws) (w ∷ [])) r in
    Returns-bind (slice-snoc intena k (ys ++ (x ∷ ws)) w grouped) λ k' (running, runs).
      waits n intena k' (k.cpu.proc ∷ ys) x (Last-of ws)
        (omega (arith, length-append ws (w ∷ []), count)) running

-- An environment with `zs` before it in the queue runs after as many time slices as there are in
-- `zs`, and one more: none starves.
pub slices-fair :
    (intena : Bool) (k : Sched) (ys : List ℕ) (x : ℕ) (zs : List ℕ)
    → Running k (ys ++ (x ∷ zs))
    → Returns (λ k'. k'.cpu.proc ≡ x) (slices (suc (length zs)) intena k)
slices-fair intena k ys x zs r = waits (length zs) intena k ys x (Last-of zs) refl r
