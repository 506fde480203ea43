-- ===== src/DynAlloc/SplitTags.antt =====
-- The tag writes by which `alloc_block_FF` and `alloc_block_BF` split a block.
use fos_fcis_operating_syste.Prelude.{
  ℕ, ◌+◌, ◌-◌, ◌%◌, ◌≤◌, ◌<◌, ◌≡◌, ◌∙◌, ◌⊎◌, inl, inr, List, ◌∷◌, ◌++◌, arith, word_mod,
}
use fos_fcis_operating_syste.Memory.{Mem, load, store, load-store, load-store_apart}
use fos_fcis_operating_syste.DynAlloc.Tiling.{
  Block, used, free, size_of, word_of, Tags, Tiled, cons, Tiled-store, Tiled-append, Tiled-total,
}
use fos_fcis_operating_syste.DynAlloc.Heaps.{Around, order}

word_of_bound : (x : Block) → word_of x ≤ size_of x + 1
word_of_bound (used s) = omega arith
word_of_bound (free s) = omega arith

-- The four tag writes that split a block of `s` bytes into a used one of `n` bytes and
-- `x` behind it.
module _ {m : Mem} {a b s e word foot : ℕ} {pre post : List Block}
    (r : Around m a pre b s post e word foot) (n : ℕ) (x : Block) (sum : s ≡ n + size_of x)
    (big : 16 ≤ n) (even : n % 2 ≡ 0) (worth : 16 ≤ size_of x) where
  abbrev pub split_tags : Mem
  split_tags =
      store (store (store (store m (b + n - 4) (n + 1)) b (n + 1)) (b + n) (word_of x)) (b + s - 4)
        (word_of x)

  fits : n + 1 < word_mod
  fits = omega (arith, order r, r.high)

  fits_rest : word_of x < word_mod
  fits_rest = omega (arith, word_of_bound x, order r, r.high)

  -- A word that none of the four writes touches.
  split_tags_apart : (p : ℕ) → (p + 4 ≤ b) ⊎ (b + s ≤ p) → load split_tags p ≡ load m p
  split_tags_apart p out =
      let m1 = store m (b + n - 4) (n + 1) in
      let m2 = store m1 b (n + 1) in
      let m3 = store m2 (b + n) (word_of x) in
      load-store_apart m3 (b + s - 4) (word_of x) p (omega arith)
      ∙ load-store_apart m2 (b + n) (word_of x) p (omega arith)
      ∙ load-store_apart m1 b (n + 1) p (omega arith)
      ∙ load-store_apart m (b + n - 4) (n + 1) p (omega arith)

  split_tags-Tiled_lem :
      {c d : ℕ} {bs : List Block} → (d ≤ b) ⊎ (b + s ≤ c) → Tiled m c bs d → Tiled split_tags c bs d
  split_tags-Tiled_lem out t =
      let len = Tiled-total t in
      Tiled-store (b + s - 4) (word_of x) (omega arith) (
        Tiled-store (b + n) (word_of x) (omega arith)
          (Tiled-store b (n + 1) (omega arith) (Tiled-store (b + n - 4) (n + 1) (omega arith) t)))

  used-Tags : Tags split_tags b (used n)
  used-Tags =
      let m1 = store m (b + n - 4) (n + 1) in
      let m2 = store m1 b (n + 1) in
      let m3 = store m2 (b + n) (word_of x) in
      record {
        even = even;
        large = big;
        header =
            load-store_apart m3 (b + s - 4) (word_of x) b (omega arith)
            ∙ load-store_apart m2 (b + n) (word_of x) b (omega arith)
            ∙ load-store m1 b (n + 1) fits;
        footer =
            load-store_apart m3 (b + s - 4) (word_of x) (b + n - 4) (omega arith)
            ∙ load-store_apart m2 (b + n) (word_of x) (b + n - 4) (omega arith)
            ∙ load-store_apart m1 b (n + 1) (b + n - 4) (omega arith)
            ∙ load-store m (b + n - 4) (n + 1) fits;
      }

  rest-Tags : Tags split_tags (b + n) x
  rest-Tags =
      let m1 = store m (b + n - 4) (n + 1) in
      let m2 = store m1 b (n + 1) in
      let m3 = store m2 (b + n) (word_of x) in
      let end : b + n + size_of x - 4 ≡ b + s - 4 = omega arith in
      record {
        even = omega (arith, r.even);
        large = worth;
        header =
            load-store_apart m3 (b + s - 4) (word_of x) (b + n) (omega arith)
            ∙ load-store m2 (b + n) (word_of x) fits_rest;
        footer = rw end (load-store m3 (b + s - 4) (word_of x) fits_rest);
      }

  pub split_tags-Tiled : Tiled split_tags a (pre ++ (used n ∷ x ∷ post)) e
  split_tags-Tiled =
      let end : b + n + size_of x ≡ b + s = omega arith in
      Tiled-append (used n ∷ x ∷ post) (split_tags-Tiled_lem (inl (omega arith)) r.front)
        (cons used-Tags (cons rest-Tags (rw end (split_tags-Tiled_lem (inr (omega arith)) r.back))))

  pub split_tags_begin : load split_tags (a - 4) ≡ 1
  split_tags_begin = split_tags_apart (a - 4) (inl (omega (arith, order r, r.low))) ∙ r.begin

  pub split_tags_stop : load split_tags e ≡ 1
  split_tags_stop = split_tags_apart e (inr (omega (arith, order r))) ∙ r.stop
