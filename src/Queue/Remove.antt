-- ===== src/Queue/Remove.antt =====
-- LIST_REMOVE of inc/queue.h on a well-formed list.
use fos_fcis_operating_syste.Prelude.{
  ℕ, ◌≡◌, ◌∙◌, ◌⊎◌, List, [], ◌∷◌, ◌++◌, length-append, arith, ne→==, sub32, Returns,
  Returns-panic_if, Returns-mono, append_assoc,
}
use fos_fcis_operating_syste.Queue.Defs.{Queue, remove}
use fos_fcis_operating_syste.Queue.Chain.{
  Absent, Apart, Apart-head, Chain, cons, IsQueue, Chain-write_next, Chain-write_prev, Chain-append,
  Chain-split, front-link, back-link, link, link-other, head-Absent, end-Absent, Chain-link_next,
  Chain-link_prev,
}

module _ {q : Queue} (xs : List ℕ) (x : ℕ) (ys : List ℕ) (v : IsQueue q (xs ++ (x ∷ ys))) where
  remove-Chain :
      {k m : ℕ}
      → Chain q.next q.prev m 0 q.first xs k
      → Chain q.next q.prev 0 k m (x ∷ ys) q.last
      → Apart xs (x ∷ ys)
      → Returns (λ q'. IsQueue q' (xs ++ ys)) (remove q x)
  unfolding remove sub32
  remove-Chain {k} f (cons e nz back fresh c) apart =
      let heads = Apart-head x xs ys apart in
      let first_back : (q.next x ≡ 0) ⊎ Absent (q.next x) xs = head-Absent xs c heads.1 in
      let first_x : (q.next x ≡ 0) ⊎ Absent (q.next x) (x ∷ []) =
        head-Absent (x ∷ []) c (fresh, tt) in
      let before_x : link q.prev (q.next x) (q.prev x) x ≡ k =
        link-other q.prev (q.next x) (q.prev x) x first_x ∙ back in
      let before = Chain-write_prev x 0 heads.0 (
        Chain-write_next x 0 heads.0
          (Chain-link_prev (q.next x) k first_back (front-link (q.next x) f))) in
      let behind = Chain-write_prev x 0 fresh (
        Chain-write_next x 0 fresh
          (Chain-link_next k (q.next x) (end-Absent ys f heads.1) (back-link k c))) in
      Returns-panic_if _ (ne→== x 0 nz) (record {
        chain = rw (before_x, back) (Chain-append ys before behind heads.1);
        count = omega (arith, v.count, length-append xs (x ∷ ys), length-append xs ys);
        fits = omega (arith, length-append xs (x ∷ ys), length-append xs ys);
      })

  -- LIST_REMOVE of an element of a well-formed list returns, takes out that element, and keeps the
  -- order of the rest.
  pub remove-IsQueue : Returns (λ q'. IsQueue q' (xs ++ ys)) (remove q x)
  remove-IsQueue =
      let (k, m, f, b, apart) = Chain-split xs (x ∷ ys) v.chain in remove-Chain f b apart

-- LIST_REMOVE of an element behind a given one.
pub remove_second :
    {q : Queue} (xs : List ℕ) (a x : ℕ) (ys : List ℕ)
    → IsQueue q (xs ++ (a ∷ x ∷ ys))
    → Returns (λ q'. IsQueue q' (xs ++ (a ∷ ys))) (remove q x)
remove_second {q} xs a x ys v =
    let regrouped : IsQueue q (xs ++ (a ∷ []) ++ (x ∷ ys)) =
      rw (append_assoc xs (a ∷ []) (x ∷ ys)) v in
    Returns-mono (remove-IsQueue (xs ++ (a ∷ [])) x ys regrouped)
      (λ q' w. rw (append_assoc xs (a ∷ []) ys) at w)
