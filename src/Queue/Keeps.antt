-- ===== src/Queue/Keeps.antt =====
-- What an operation on one list of inc/queue.h leaves of the lists that share its link fields.
use fos_fcis_operating_syste.Prelude.{
  ℕ, ◌≡◌, ◌≢◌, ◌∙◌, List, [], ◌∷◌, ◌++◌, ne→==, Returns, Returns-panic_if,
}
use fos_fcis_operating_syste.Queue.Defs.{Queue, insert_head, remove}
use fos_fcis_operating_syste.Queue.Chain.{
  Apart, Absent-prefix, Apart-head, Chain, cons, Chain-split, link-other, IsQueue, Chain-write_next,
  Chain-write_prev, Chain-link_next, Chain-link_prev, head-Absent, end-Absent, link,
}

-- Every list of strangers to `xs` is still linked as it was.
abbrev pub Keeps : Queue → Queue → List ℕ → Type 0
Keeps q q' xs =
    (ys : List ℕ)
    → Apart ys xs
    → (p end : ℕ) → Chain q.next q.prev 0 0 p ys end
    → Chain q'.next q'.prev 0 0 p ys end

pub Keeps-then : (q q' q'' : Queue) (xs : List ℕ) → Keeps q q' xs → Keeps q' q'' xs → Keeps q q'' xs
Keeps-then q q' q'' xs first second ys apart p end c =
    second ys apart p end (first ys apart p end c)

pub Apart-prefix : (ys xs zs : List ℕ) → Apart ys (xs ++ zs) → Apart ys xs × Apart ys zs
Apart-prefix [] xs zs a = (tt, tt)
Apart-prefix (y ∷ ys) xs zs a =
    let here = Absent-prefix y xs zs a.0 in
    let rest = Apart-prefix ys xs zs a.1 in ((here.0, rest.0), (here.1, rest.1))

pub Apart-sym : (xs ys : List ℕ) → Apart ys xs → Apart xs ys
Apart-sym [] ys a = tt
Apart-sym (x ∷ xs) ys a = let heads = Apart-head x ys xs a in (heads.0, Apart-sym xs ys heads.1)

module _ {q : Queue} (x : ℕ) where
  pub insert_head-Keeps :
      {xs : List ℕ} → IsQueue q xs → x ≢ 0 → Returns (λ q'. Keeps q q' (x ∷ xs)) (insert_head q x)
  unfolding insert_head
  insert_head-Keeps {xs} v nz = Returns-panic_if _ (ne→== x 0 nz) λ ys apart p end c.
      let heads = Apart-head x ys xs apart in
      Chain-write_prev x 0 heads.0 (
        Chain-link_prev q.first x (head-Absent ys v.chain heads.1)
          (Chain-write_next x q.first heads.0 c))

  pub remove-Keeps :
      (xs zs : List ℕ)
      → IsQueue q (xs ++ (x ∷ zs))
      → Returns (λ q'. Keeps q q' (xs ++ (x ∷ zs))) (remove q x)
  unfolding remove
  remove-Keeps xs zs v = let (k, m, f, b, apart) = Chain-split xs (x ∷ zs) v.chain in go f b
    where
      go :
          {k m : ℕ}
          → Chain q.next q.prev m 0 q.first xs k
          → Chain q.next q.prev 0 k m (x ∷ zs) q.last
          → Returns (λ q'. Keeps q q' (xs ++ (x ∷ zs))) (remove q x)
      go {k} f (cons e nz back fresh c) =
          let first_x = head-Absent (x ∷ []) c (fresh, tt) in
          let before_x : link q.prev (q.next x) (q.prev x) x ≡ k =
            link-other q.prev (q.next x) (q.prev x) x first_x ∙ back in
          Returns-panic_if _ (ne→== x 0 nz) λ ys far p end d.
            let parts = Apart-prefix ys xs (x ∷ zs) far in
            let heads = Apart-head x ys zs parts.1 in
            rw before_x (
              Chain-write_prev x 0 heads.0 (
                Chain-link_prev (q.next x) (q.prev x) (head-Absent ys c heads.1) (
                  Chain-write_next x 0 heads.0
                    (Chain-link_next k (q.next x) (end-Absent ys f (Apart-sym xs ys parts.0)) d))))
