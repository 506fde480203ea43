-- ===== src/DynAlloc/Sorted.antt =====
-- The sorted insertion of `free_block`.
use fos_fcis_operating_syste.Prelude.{
  ℕ, ◌+◌, ◌<◌, ◌≡◌, refl, ◌≢◌, List, [], ◌∷◌, ◌++◌, arith, word_mod, All, length, Returns, lt→ltb,
  le→ltb, append-nil,
}
use fos_fcis_operating_syste.Queue.{Queue}
use fos_fcis_operating_syste.Queue.Chain.{IsQueue, elements-IsQueue, Absent-append}
use fos_fcis_operating_syste.Queue.Insert.{insert_tail-IsQueue, insert_before-IsQueue}
use fos_fcis_operating_syste.DynAlloc.Ops.{first_above, insert_at, insert_sorted}
use fos_fcis_operating_syste.DynAlloc.Tiling.{Absent-above, Absent-below}

first_above-append :
    (va : ℕ) (xs ys : List ℕ) → All (λ x. x < va) xs → first_above va (xs ++ ys) ≡ first_above va ys
unfolding first_above
first_above-append va [] ys h = refl
first_above-append va (x ∷ xs) ys h =
    rw (le→ltb va x (omega arith)) (first_above-append va xs ys h.1)

-- The sorted insertion into a well-formed list returns, and puts an address that is not NULL
-- between the smaller and the larger ones, as long as the size fits a word.
pub insert_sorted-IsQueue :
    {q : Queue} (va : ℕ) (xs ys : List ℕ)
    → IsQueue q (xs ++ ys)
    → All (λ x. x < va) xs
    → All (λ y. va < y) ys
    → va ≢ 0
    → length (xs ++ ys) + 1 < word_mod
    → Returns (λ q'. IsQueue q' (xs ++ (va ∷ ys))) (insert_sorted q va)
unfolding insert_sorted first_above insert_at
insert_sorted-IsQueue {q} va xs [] v below above nz room =
    let w : IsQueue q xs = rw append-nil at v in
    rw (elements-IsQueue v, first_above-append va xs [] below)
      (insert_tail-IsQueue va w nz (Absent-below va xs below) (rw append-nil at room))
insert_sorted-IsQueue va xs (y ∷ ys) v below above nz room =
    rw (elements-IsQueue v, first_above-append va xs (y ∷ ys) below, lt→ltb va y above.0)
      (insert_before-IsQueue va xs y ys v nz
        (Absent-append va xs (y ∷ ys) (Absent-below va xs below) (Absent-above va (y ∷ ys) above))
        room)
