-- ===== src/KHeap/Back.antt =====
-- The list steps of `kmalloc` and `kfree` of kern/mem/kheap.c after one another: pages cut off a
-- range join it again.
use fos_fcis_operating_syste.Prelude.{
  ℕ, ◌+◌, ◌-◌, ◌*◌, ◌%◌, ◌≤◌, ◌<◌, ◌≡◌, refl, none, some, List, [], ◌∷◌, ◌++◌, All, arith, word_mod,
  add32_small, ne→==, eq→==, lt→ltb, le→ltb,
}
use fos_fcis_operating_syste.KHeap.Defs.{FreePagesInfo, take_pages}
use fos_fcis_operating_syste.KHeap.Ops.{grown, grow_right, insert_behind, insert_pages}
use fos_fcis_operating_syste.KHeap.Ranges.{end_of, Ranges, Ranges-lower}
use fos_fcis_operating_syste.KHeap.Joins.{touches_right_lem, touches_left_lem}

-- A range without its first `n` pages.
abbrev pub cut : ℕ → FreePagesInfo → FreePagesInfo
cut n e = record e { va = e.va + n * 4096; no_consecutive_pages = e.no_consecutive_pages - n }

pub Ranges-drop :
    (lo hi : ℕ) (pre : List FreePagesInfo) (e : FreePagesInfo) (post : List FreePagesInfo)
    → Ranges lo hi (pre ++ (e ∷ post))
    → Ranges lo hi (e ∷ post)
Ranges-drop lo hi [] e post r = r
Ranges-drop lo hi (p ∷ pre) e post (l, a, c, h, rest) =
    Ranges-lower (end_of p + 4096) lo hi (e ∷ post) (omega arith)
      (Ranges-drop (end_of p + 4096) hi pre e post rest)

module _ (hi n : ℕ) (top : hi < word_mod) (some_pages : 0 < n) (e : FreePagesInfo)
    (post : List FreePagesInfo) (larger : n < e.no_consecutive_pages) (aligned : e.va % 4096 ≡ 0)
    (fits : end_of e ≤ hi) where
  -- First fit cuts the pages off the first range that is large enough.
  pub take_pages-cut :
      (pre : List FreePagesInfo)
      → All (λ (x : FreePagesInfo). x.no_consecutive_pages < n) pre
      → take_pages n (pre ++ (e ∷ post))
        ≡ some (record { begin = e.va; rest = pre ++ (cut n e ∷ post); unused = none })
  unfolding take_pages
  take_pages-cut [] small =
      let bytes : n * 4096 % word_mod ≡ n * 4096 = omega arith in
      rw
        (
          ne→== e.no_consecutive_pages n (omega arith),
          lt→ltb n e.no_consecutive_pages larger,
          bytes,
          add32_small e.va (n * 4096) (omega arith),
        )
        refl
  take_pages-cut (p ∷ pre) (less, small) =
      rw
        (
          ne→== p.no_consecutive_pages n (omega arith),
          le→ltb n p.no_consecutive_pages (omega arith),
          take_pages-cut pre small,
        )
        refl

  grow_back : grow_right e.va n (cut n e) ≡ e
  unfolding grow_right
  grow_back =
      let whole : e.no_consecutive_pages - n + n ≡ e.no_consecutive_pages = omega arith in
      rw (add32_small (e.no_consecutive_pages - n) n (omega arith), whole) refl

  inside : e.va + n * 4096 ≤ hi
  inside = omega arith

  abbrev ending : ℕ
  ending = e.va + n * 4096 - 4096

  insert_behind-cut :
      (pre : List FreePagesInfo) (p : FreePagesInfo) (lo : ℕ)
      → Ranges lo hi (p ∷ (pre ++ (e ∷ post)))
      → insert_behind ending e.va ending n p (pre ++ (cut n e ∷ post))
        ≡ grown (p ∷ (pre ++ (e ∷ post)))
  unfolding insert_behind
  insert_behind-cut [] p lo (l, a, c, h, (l', a', c', h', rest)) =
      let touch =
        touches_right_lem hi e.va n top aligned some_pages inside (cut n e) (omega arith)
          (omega arith) in
      let apart = touches_left_lem hi e.va n top aligned some_pages inside p c (omega arith) in
      rw
        (
          lt→ltb ending (e.va + n * 4096) (omega arith),
          touch,
          eq→== (e.va + n * 4096) (e.va + n * 4096) refl,
          apart,
          ne→== e.va (end_of p) (omega arith),
          grow_back,
        )
        refl
  insert_behind-cut (x ∷ pre) p lo (l, a, c, h, rest) =
      let (l', a', c', h', rest') = rest in
      let before = Ranges-drop (end_of x + 4096) hi pre e post rest' in
      rw
        (
          le→ltb ending x.va (omega (arith, before.0)),
          insert_behind-cut pre x (end_of p + 4096) rest,
        )
        refl

  -- `kfree` joins them to it again.
  pub insert_pages-cut :
      (pre : List FreePagesInfo) (lo : ℕ)
      → Ranges lo hi (pre ++ (e ∷ post))
      → insert_pages ending e.va ending n (pre ++ (cut n e ∷ post)) ≡ grown (pre ++ (e ∷ post))
  unfolding insert_pages
  insert_pages-cut [] lo r =
      let touch =
        touches_right_lem hi e.va n top aligned some_pages inside (cut n e) (omega arith)
          (omega arith) in
      rw
        (
          lt→ltb ending (e.va + n * 4096) (omega arith),
          touch,
          eq→== (e.va + n * 4096) (e.va + n * 4096) refl,
          grow_back,
        )
        refl
  insert_pages-cut (p ∷ pre) lo r =
      let (l, a, c, h, rest) = r in
      let before = Ranges-drop (end_of p + 4096) hi pre e post rest in
      rw (le→ltb ending p.va (omega (arith, before.0)), insert_behind-cut pre p lo r) refl
