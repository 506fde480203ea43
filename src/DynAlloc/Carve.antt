-- ===== src/DynAlloc/Carve.antt =====
-- The chosen free block is carved as `carve` says.
use fos_fcis_operating_syste.Prelude.{
  ℕ, ◌+◌, ◌-◌, ◌%◌, ◌≤◌, ◌<◌, ◌≡◌, refl, ◌∙◌, inl, inr, List, ◌∷◌, ◌++◌, arith, ltb, le→ltb,
  word_mod, Bool-cases, ltb→lt, add32, or_one, or_one_even, add32_small, Returns, returns,
  Returns-bind, Returns-mono, length, length-append,
}
use fos_fcis_operating_syste.Queue.Chain.{IsQueue, Absent, Absent-append}
use fos_fcis_operating_syste.Queue.Insert.{insert_after-IsQueue}
use fos_fcis_operating_syste.Queue.Remove.{remove-IsQueue}
use fos_fcis_operating_syste.DynAlloc.Defs.{Heap, take_block}
use fos_fcis_operating_syste.DynAlloc.Tiling.{
  Block, used, free, free_vas, Tiled-Roomy, Tiled-total, free_vas_below, free_vas_above,
  Absent-above, Absent-below, length-free_vas,
}
use fos_fcis_operating_syste.DynAlloc.Heaps.{Holds, SameLimits, Around, order, Around-Tiled}
use fos_fcis_operating_syste.DynAlloc.Free.{header_at, same_limits}
use fos_fcis_operating_syste.DynAlloc.SplitTags.{
  split_tags-Tiled, split_tags_begin, split_tags_stop,
}
use fos_fcis_operating_syste.DynAlloc.Take.{carve, take_whole, footer_of}
use fos_fcis_operating_syste.DynAlloc.Neighbours.{free_vas-used}

module _ {a b s e foot : ℕ} {pre post : List Block} (h : Heap)
    (r : Around h.mem a pre b s post e s foot)
    (v : IsQueue h.free_blocks (free_vas a pre ++ ((b + 4) ∷ free_vas (b + s) post))) where
  room_to_split : length (free_vas a pre ++ ((b + 4) ∷ free_vas (b + s) post)) + 1 < word_mod
  room_to_split = omega (
    arith,
    length-append (free_vas a pre) ((b + 4) ∷ free_vas (b + s) post),
    length-free_vas a pre (Tiled-Roomy r.front),
    length-free_vas (b + s) post (Tiled-Roomy r.back),
    Tiled-total r.front,
    Tiled-total r.back,
    r.high,
    r.large,
    r.low,
  )

  rest_not_listed :
      (n : ℕ)
      → 0 < n
      → n + 4 ≤ s
      → Absent (b + n + 4) (free_vas a pre ++ ((b + 4) ∷ free_vas (b + s) post))
  rest_not_listed n pos le =
      Absent-append (b + n + 4) (free_vas a pre) ((b + 4) ∷ free_vas (b + s) post)
        (Absent-below (b + n + 4) (free_vas a pre) (
          free_vas_below a (b + n + 4) pre (Tiled-Roomy r.front)
            (omega (arith, Tiled-total r.front))))
        (
          omega arith,
          Absent-above (b + n + 4) (free_vas (b + s) post)
              (free_vas_above (b + n + 4) (b + s) post (omega (arith, le))),
        )

  -- A rest of 16 bytes or more becomes a free block, whatever the old footer was.
  pub take_split :
      (size rest : ℕ)
      → s ≡ size + 8 + rest
      → 8 ≤ size
      → size % 2 ≡ 0
      → 16 ≤ rest
      → Returns
          (λ h'. Holds h' a (pre ++ (used (size + 8) ∷ free rest ∷ post)) e × SameLimits h h')
          (take_block (b + 4) size rest h)
  unfolding take_block
  take_split size rest sum big even worth =
      let bounds = order r in
      let n_at : add32 size 8 ≡ size + 8 = add32_small size 8 (omega (arith, bounds, r.high)) in
      let tag : or_one (size + 8) ≡ size + 8 + 1 = or_one_even (size + 8) (omega arith) in
      let foot_old : add32 (b + 4) size ≡ b + (size + 8) - 4 =
        add32_small (b + 4) size (omega (arith, bounds, r.high)) ∙ omega arith in
      let head_new : add32 (b + (size + 8) - 4) 4 ≡ b + (size + 8) =
        add32_small (b + (size + 8) - 4) 4 (omega (arith, bounds, r.high)) ∙ omega arith in
      let va_new : add32 (b + (size + 8)) 4 ≡ b + (size + 8) + 4 =
        add32_small (b + (size + 8)) 4 (omega (arith, bounds, r.high)) in
      let far : b + (size + 8) + rest ≡ b + s = omega arith in
      rw
        (
          le→ltb rest 16 worth,
          header_at r,
          footer_of h r v refl,
          n_at,
          tag,
          foot_old,
          head_new,
          va_new,
        )
        (Returns-bind
          (insert_after-IsQueue (b + (size + 8) + 4) (free_vas a pre) (b + 4)
            (free_vas (b + s) post) v (omega arith)
            (rest_not_listed (size + 8) (omega arith) (omega arith)) room_to_split)
          λ q1 v1.
            Returns-bind
              (remove-IsQueue (free_vas a pre) (b + 4)
                ((b + (size + 8) + 4) ∷ free_vas (b + s) post) v1)
              λ q2 v2. returns (
                record {
                  tiled =
                      split_tags-Tiled r (size + 8) (free rest) sum (omega arith) (omega arith)
                        worth;
                  begin =
                      split_tags_begin r (size + 8) (free rest) sum (omega arith) (omega arith)
                        worth;
                  stop =
                      split_tags_stop r (size + 8) (free rest) sum (omega arith) (omega arith)
                        worth;
                  listed =
                      rw
                        (
                          free_vas-used a b (size + 8) pre (free rest ∷ post) (Tiled-total r.front),
                          far,
                        )
                        v2;
                  low = r.low;
                  high = r.high;
                },
                same_limits,
              ))

  -- The chosen block is carved: all of it where the rest is too small, else split.
  pub take_block-carve :
      (size : ℕ)
      → size + 8 ≤ s
      → 8 ≤ size
      → size % 2 ≡ 0
      → foot ≡ s
      → Returns
          (λ h'. Holds h' a (pre ++ carve (size + 8) s post) e × SameLimits h h')
          (take_block (b + 4) size (s - (size + 8)) h)
  take_block-carve size fit big even good = elim (Bool-cases (ltb (s - (size + 8)) 16)) [
    | inl few ↦ rw few (
        Returns-mono (take_whole h r v refl size (s - (size + 8)) (ltb→lt _ _ few) good)
          λ h' (r', listed, limits). (
            record {
              tiled = Around-Tiled (used s) r';
              begin = r'.begin;
              stop = r'.stop;
              listed = rw (free_vas-used a b s pre post (Tiled-total r.front)) listed;
              low = r'.low;
              high = r'.high;
            },
            limits,
          ))
    | inr many ↦ rw many (take_split size (s - (size + 8)) (omega arith) big even (ground arith))
  ]
