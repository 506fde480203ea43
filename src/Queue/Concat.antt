-- ===== src/Queue/Concat.antt =====
-- LIST_CONCAT of inc/queue.h on two well-formed lists.
use fos_fcis_operating_syste.Prelude.{
  ℕ, ◌+◌, ◌%◌, ◌≡◌, refl, ◌≢◌, sym, ◌∙◌, List, [], ◌∷◌, ◌++◌, word_mod, length, arith, ne→==,
}
use fos_fcis_operating_syste.Queue.Defs.{Queue, write, concat}
use fos_fcis_operating_syste.Queue.Chain.{
  Apart, Chain, nil, cons, IsQueue, Chain-append, Chain-end, Chain-nonzero, Chain-link_next,
  Chain-link_prev, front-link, back-link, head-Absent, end-Absent,
}

head-nonzero :
    {next prev : ℕ → ℕ} {stop before p end x : ℕ} {xs : List ℕ}
    → Chain next prev stop before p (x ∷ xs) end
    → (p ≢ 0) × (end ≢ 0)
head-nonzero (cons e nz back fresh c) =
    let whole = cons e nz back fresh c in
    ((λ z. nz (sym e ∙ z)), Chain-end (λ z. z ≢ 0) whole (Chain-nonzero whole))

module _ (q r : Queue) {x y : ℕ} {xs ys : List ℕ} where
  -- LIST_CONCAT of two lists with elements links the second's behind the first's, and empties the
  -- second head; but the first head keeps its size, because LIST_INIT has set the second's to 0
  -- before it is added.
  pub concat-Chain :
      IsQueue q (x ∷ xs)
      → Chain q.next q.prev 0 0 r.first (y ∷ ys) r.last
      → Apart (x ∷ xs) (y ∷ ys)
      → ((joined : Queue) × (emptied : Queue) × (concat q r ≡ (joined, emptied))
          × Chain joined.next joined.prev 0 0 joined.first ((x ∷ xs) ++ (y ∷ ys)) joined.last
          × (joined.size ≡ length (x ∷ xs))
          × IsQueue emptied [])
  unfolding concat
  concat-Chain v w apart =
      let q_some = head-nonzero v.chain in
      let r_some = head-nonzero w in
      let front =
        Chain-link_prev r.first q.last (head-Absent (x ∷ xs) w apart)
          (front-link r.first v.chain) in
      let back =
        Chain-link_next q.last r.first (end-Absent (y ∷ ys) v.chain apart) (back-link q.last w) in
      let whole = Chain-append (y ∷ ys) front back apart in
      (
        record q {
          last = r.last;
          size = q.size;
          next = write q.next q.last r.first;
          prev = write q.prev r.first q.last;
        },
        record r { first = 0; last = 0; size = 0 },
        rw (
          ne→== q.first 0 q_some.0,
          ne→== r.first 0 r_some.0,
          let z : (q.size + 0) % word_mod ≡ q.size = omega (arith, v.count, v.fits) in z,
        ),
        rw (ne→== q.last 0 q_some.1, ne→== r.first 0 r_some.0) at whole,
        v.count,
        record { chain = nil refl refl; count = refl; fits = omega arith },
      )
