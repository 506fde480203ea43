-- ===== src/Sched/Fifo.antt =====
-- `enqueue` and `dequeue` of kern/cpu/sched_helpers.c make a list of inc/queue.h a first-in
-- first-out queue: the new come first, the oldest is last.
use fos_fcis_operating_syste.Prelude.{
  ℕ, ◌+◌, ◌<◌, ◌≡◌, sym, ◌∙◌, subst, false, ◌≢◌, List, [], ◌∷◌, ◌++◌, word_mod, length, ne→==, ◌==◌,
  append-nil, ok, Returns, returns, Returns-bind, Returns-both,
}
use fos_fcis_operating_syste.Queue
use fos_fcis_operating_syste.Queue.{Queue}
use fos_fcis_operating_syste.Queue.Chain.{Absent, Chain, nil, cons, Chain-split, IsQueue}
use fos_fcis_operating_syste.Queue.Insert.{insert_head-IsQueue}
use fos_fcis_operating_syste.Queue.Remove.{remove-IsQueue}
use fos_fcis_operating_syste.Queue.Keeps.{Keeps, insert_head-Keeps, remove-Keeps}
use fos_fcis_operating_syste.Sched.Defs.{enqueue, dequeue}

-- A list is empty, or has a last element.
pub data Last : List ℕ → Type 0 where
  empty : Last []
  snoc : (ys : List ℕ) (x : ℕ) → Last (ys ++ (x ∷ []))

pub Last-of : (xs : List ℕ) → Last xs
Last-of [] = empty
Last-of (x ∷ xs) = go (Last-of xs)
  where
    go : {xs : List ℕ} → Last xs → Last (x ∷ xs)
    go empty = snoc [] x
    go (snoc ys y) = snoc (x ∷ ys) y

module _ {q : Queue} where
  -- `enqueue` of an environment that is neither NULL nor in a well-formed queue returns, puts it in
  -- front, and leaves every other list whose elements are strangers to the queue's.
  pub enqueue-IsQueue :
      (x : ℕ) {xs : List ℕ}
      → IsQueue q xs
      → x ≢ 0
      → Absent x xs
      → length xs + 1 < word_mod
      → Returns (λ q'. IsQueue q' (x ∷ xs) × Keeps q q' (x ∷ xs)) (enqueue q x)
  unfolding enqueue
  enqueue-IsQueue x v nz out room =
      rw (ne→== x 0 nz)
        (Returns-both (insert_head-IsQueue x v nz out room) (insert_head-Keeps x v nz))

  pub dequeue_empty : IsQueue q [] → dequeue q ≡ ok (0, q)
  unfolding dequeue
  dequeue_empty v = go v.chain
    where
      go : Chain q.next q.prev 0 0 q.first [] q.last → dequeue q ≡ ok (0, q)
      go (nil e f) = rw f

  -- `dequeue` of a well-formed queue with a last environment returns it, leaves the others in their
  -- order, and leaves every other list whose elements are strangers to the queue's.
  pub dequeue-IsQueue :
      (xs : List ℕ) (x : ℕ)
      → IsQueue q (xs ++ (x ∷ []))
      → Returns (λ (env, q'). (env ≡ x) × IsQueue q' xs × Keeps q q' (xs ++ (x ∷ []))) (dequeue q)
  unfolding dequeue
  dequeue-IsQueue xs x v = let (k, m, f, b, apart) = Chain-split xs (x ∷ []) v.chain in go b
    where
      go :
          {k m : ℕ}
          → Chain q.next q.prev 0 k m (x ∷ []) q.last
          → Returns
              (λ (env, q'). (env ≡ x) × IsQueue q' xs × Keeps q q' (xs ++ (x ∷ [])))
              (dequeue q)
      go (cons e nz back fresh (nil _ last)) =
          let some_last : (q.last == 0) ≡ false = ne→== q.last 0 (λ z. nz (sym last ∙ z)) in
          let removed =
            subst
              (λ e.
                Returns (λ q'. IsQueue q' (xs ++ []) × Keeps q q' (xs ++ (x ∷ [])))
                  (Queue.remove q e))
              (sym last) (Returns-both (remove-IsQueue xs x [] v) (remove-Keeps x xs [] v)) in
          rw some_last (
            Returns-bind removed λ q' (listed, kept). returns (last, rw append-nil at listed, kept))
