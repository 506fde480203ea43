-- ===== src/DynAlloc/Shrink.antt =====
-- `realloc_block_FF` of lib/dynamic_allocator.c where a used block becomes smaller.
use fos_fcis_operating_syste.Prelude.{
  ℕ, ◌+◌, ◌-◌, ◌%◌, ◌≤◌, ◌<◌, ◌≡◌, refl, ap, ◌∙◌, false, List, [], ◌∷◌, ◌++◌, arith, le→ltb, lt→ltb,
  ne→==, ◌==◌, word_mod, add32, sub32, or_one, or_one_even, add32_small, sub32_small, append_assoc,
  Returns, returns, Returns-bind,
}
use fos_fcis_operating_syste.Memory.{Mem, load}
use fos_fcis_operating_syste.DynAlloc.Defs.{Heap}
use fos_fcis_operating_syste.DynAlloc.Resize.{
  split, split_and_free, realloc_shrink, realloc_sized, realloc_block_ff,
}
use fos_fcis_operating_syste.DynAlloc.Tiling.{Block, used, total, total-append}
use fos_fcis_operating_syste.DynAlloc.Heaps.{Holds, SameLimits, order}
use fos_fcis_operating_syste.DynAlloc.Coalesce.{join, release_last_used}
use fos_fcis_operating_syste.DynAlloc.SplitTags.{
  split_tags, split_tags-Tiled, split_tags_begin, split_tags_stop,
}
use fos_fcis_operating_syste.DynAlloc.Neighbours.{free_vas-used}
use fos_fcis_operating_syste.DynAlloc.Release.{Holds-Around, free_block-release}

module _ (h : Heap) (a e s : ℕ) (pre post : List Block) (v : Holds h a (pre ++ (used s ∷ post)) e)
    (size rest : ℕ) (sum : s ≡ size + 8 + rest) (even : size % 2 ≡ 0) (big : 8 ≤ size)
    (worth : 16 ≤ rest) where
  -- The block at `b`, and what its four new tags make of the memory.
  split_mem : Mem
  split_mem =
      split_tags (Holds-Around pre post v) (size + 8) (used rest) sum (omega arith) (omega arith)
        worth

  -- The split heap: two used blocks where there was one.
  split-Holds :
      Holds
        (record h { mem = split_mem })
        a
        ((pre ++ (used (size + 8) ∷ [])) ++ (used rest ∷ post))
        e
  unfolding split_mem
  split-Holds =
      let r = Holds-Around pre post v in
      let b = a + total pre in
      let far : b + (size + 8) + rest ≡ b + s = omega arith in
      rw (append_assoc pre (used (size + 8) ∷ []) (used rest ∷ post)) (record {
        tiled = split_tags-Tiled r (size + 8) (used rest) sum (omega arith) (omega arith) worth;
        begin = split_tags_begin r (size + 8) (used rest) sum (omega arith) (omega arith) worth;
        stop = split_tags_stop r (size + 8) (used rest) sum (omega arith) (omega arith) worth;
        listed =
            rw (free_vas-used a b (size + 8) pre (used rest ∷ post) refl, far)
              (rw (free_vas-used a b s pre post refl) at v.listed);
        low = v.low;
        high = v.high;
      })

  bounds : (a + total pre + s ≤ e) × (e + 4 < word_mod)
  bounds = (omega (arith, order (Holds-Around pre post v)), v.high)

  rest_even : rest % 2 ≡ 0
  rest_even = let r = Holds-Around pre post v in omega (arith, r.even)

  header-eq : load h.mem (a + total pre) ≡ s + 1
  header-eq = let r = Holds-Around pre post v in r.header

  split-eq : split (a + total pre + 4) size (rest + 1) (a + total pre + s - 4) h.mem ≡ split_mem
  unfolding split split_mem
  split-eq =
      let b = a + total pre in
      let old : add32 (b + 4) size ≡ b + (size + 8) - 4 =
        add32_small (b + 4) size (omega (arith, bounds)) ∙ omega arith in
      let n_at : add32 size 8 ≡ size + 8 = add32_small size 8 (omega (arith, bounds)) in
      let tag : or_one (size + 8) ≡ size + 8 + 1 = or_one_even (size + 8) (omega arith) in
      let head : sub32 (b + 4) 4 ≡ b =
        sub32_small (b + 4) 4 (omega arith) (omega (arith, bounds)) ∙ omega arith in
      let new : add32 (b + (size + 8) - 4) 4 ≡ b + (size + 8) =
        add32_small (b + (size + 8) - 4) 4 (omega (arith, bounds)) ∙ omega arith in
      rw (old, n_at, tag, head, new)

  split_and_free_lem :
      Returns
        (λ (va, h').
          (va ≡ a + total pre + 4)
          × Holds h' a (pre ++ (used (size + 8) ∷ join rest post)) e
          × SameLimits h h')
        (split_and_free (a + total pre + 4) size rest (a + total pre + s - 4) h)
  unfolding split_and_free
  split_and_free_lem =
      let b = a + total pre in
      let tag : or_one rest ≡ rest + 1 = or_one_even rest (omega (arith, rest_even)) in
      let old : add32 (b + 4) size ≡ b + 4 + size =
        add32_small (b + 4) size (omega (arith, bounds)) in
      let head : add32 (b + 4 + size) 4 ≡ b + 4 + size + 4 =
        add32_small (b + 4 + size) 4 (omega (arith, bounds)) in
      let va : add32 (b + 4 + size + 4) 4 ≡ a + total (pre ++ (used (size + 8) ∷ [])) + 4 =
        add32_small (b + 4 + size + 4) 4 (omega (arith, bounds))
        ∙ omega (arith, total-append pre (used (size + 8) ∷ [])) in
      rw (tag, old, head, va, split-eq)
        (Returns-bind
          (free_block-release (record h { mem = split_mem }) a e rest
            (pre ++ (used (size + 8) ∷ [])) post split-Holds)
          λ h' (holds, limits). returns (
            refl,
            rw (release_last_used pre (size + 8) rest post) at holds,
            record {
              brk = limits.brk;
              hard_limit = limits.hard_limit;
              free_frames = limits.free_frames;
              mapped = limits.mapped;
              is_initialized = limits.is_initialized;
            },
          ))

  realloc_sized_lem :
      Returns
        (λ (va, h').
          (va ≡ a + total pre + 4)
          × Holds h' a (pre ++ (used (size + 8) ∷ join rest post)) e
          × SameLimits h h')
        (realloc_sized (a + total pre + 4) size h)
  unfolding realloc_sized realloc_shrink
  realloc_sized_lem =
      let b = a + total pre in
      let head : sub32 (b + 4) 4 ≡ b =
        sub32_small (b + 4) 4 (omega arith) (omega (arith, bounds)) ∙ omega arith in
      let odd_tag : ((s + 1) % 2 == 0) ≡ false = ne→== ((s + 1) % 2) 0 (omega (arith, rest_even)) in
      let whole : sub32 (s + 1) 1 ≡ s =
        sub32_small (s + 1) 1 (omega arith) (omega (arith, bounds)) ∙ omega arith in
      let n_at : add32 size 8 ≡ size + 8 = add32_small size 8 (omega (arith, bounds)) in
      let left : sub32 s (size + 8) ≡ rest =
        sub32_small s (size + 8) (omega arith) (omega (arith, bounds)) ∙ omega arith in
      let foot : sub32 (add32 (b + 4) s) 8 ≡ b + s - 4 =
        ap (λ z. sub32 z 8) (add32_small (b + 4) s (omega (arith, bounds)))
        ∙ sub32_small (b + 4 + s) 8 (omega arith) (omega (arith, bounds))
        ∙ omega arith in
      rw
        (
          head,
          header-eq,
          odd_tag,
          whole,
          n_at,
          ne→== (size + 8) s (omega arith),
          lt→ltb (size + 8) s (omega arith),
          left,
          le→ltb rest 16 worth,
          foot,
        )
        split_and_free_lem

-- `realloc_block_FF` of a used block to an even size of 8 bytes or more that leaves a rest of 16 bytes or
-- more returns the same address: the block keeps what is wanted with two tags, and the rest is free,
-- joined with a free block behind it. All else of the heap stays well-formed as it was.
pub realloc_block_ff-shrink :
    (h : Heap) (a e s : ℕ) (pre post : List Block) (size : ℕ)
    → Holds h a (pre ++ (used s ∷ post)) e
    → size % 2 ≡ 0
    → 8 ≤ size
    → size + 24 ≤ s
    → Returns
        (λ (va, h').
          (va ≡ a + total pre + 4)
          × Holds h' a (pre ++ (used (size + 8) ∷ join (s - (size + 8)) post)) e
          × SameLimits h h')
        (realloc_block_ff (a + total pre + 4) size h)
unfolding realloc_block_ff
realloc_block_ff-shrink h a e s pre post size v even big worth =
    rw
      (
        ne→== (a + total pre + 4) 0 (omega arith),
        ne→== size 0 (omega arith),
        ne→== (size % 2) 1 (omega arith),
      )
      (realloc_sized_lem h a e s pre post v size (s - (size + 8)) (omega arith) even big
        (omega arith))
