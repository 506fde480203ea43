-- ===== src/DynAlloc/FreeBlock.antt =====
-- `free_block` of lib/dynamic_allocator.c for each pair of neighbours.
use fos_fcis_operating_syste.Prelude.{
  ℕ, ◌+◌, ◌-◌, ◌%◌, ◌≡◌, List, [], ◌∷◌, ◌++◌, arith, sub32, Returns, returns, Returns-mono,
}
use fos_fcis_operating_syste.Memory.{Mem, load}
use fos_fcis_operating_syste.Queue.Chain.{IsQueue}
use fos_fcis_operating_syste.DynAlloc.Defs.{Heap}
use fos_fcis_operating_syste.DynAlloc.Ops.{merge_prev, coalesce, free_block}
use fos_fcis_operating_syste.DynAlloc.Tiling.{Block, free, total, free_vas}
use fos_fcis_operating_syste.DynAlloc.Heaps.{
  Holds, SameLimits, Around, Around-Tiled, widen_prev, widen_next,
}
use fos_fcis_operating_syste.DynAlloc.Free.{Closed, clear_tags-Around, free_alone_lem, same_limits}
use fos_fcis_operating_syste.DynAlloc.Merge.{merge_prev-Around, merge_next_lem, merge_both_lem}
use fos_fcis_operating_syste.DynAlloc.Neighbours.{free_block-eq, list-prev, Holds-free}

-- What the neighbours' tags say, whatever the block's own tags are.
abbrev pub ClosedBefore : (a b s e : ℕ) → List Block → List Block → Type 0
ClosedBefore a b s e pre post =
    (m : Mem) (w f : ℕ) → Around m a pre b s post e w f → Closed (load m (b - 4)) (free_vas a pre)

abbrev pub ClosedBehind : (a b s e : ℕ) → List Block → List Block → Type 0
ClosedBehind a b s e pre post =
    (m : Mem) (w f : ℕ)
    → Around m a pre b s post e w f
    → Closed (load m (b + s)) (free_vas (b + s) post)

module _ (h : Heap) {a b s e foot : ℕ} where
  -- Between used neighbours: the footer becomes one less than it was.
  pub free_between_used :
      {pre post : List Block}
      → Around h.mem a pre b s post e (s + 1) foot
      → IsQueue h.free_blocks (free_vas a pre ++ free_vas (b + s) post)
      → ClosedBefore a b s e pre post
      → ClosedBehind a b s e pre post
      → Returns
          (λ h'.
            Around h'.mem a pre b s post e s (sub32 foot 1)
            × IsQueue h'.free_blocks (free_vas a pre ++ ((b + 4) ∷ free_vas (b + s) post))
            × SameLimits h h')
          (free_block (b + 4) h)
  unfolding coalesce
  free_between_used r v cb cn =
      let r' = clear_tags-Around r in
      rw (free_block-eq h r, (cb _ _ _ r).odd, (cn _ _ _ r).odd)
        (Returns-mono (free_alone_lem h r' v (cb _ _ _ r') (cn _ _ _ r'))
          λ h' (same_mem, listed, limits). (rw same_mem r', listed, limits))

  pub free_behind_free :
      {post : List Block} (pre : List Block) (t : ℕ)
      → Around h.mem a (pre ++ (free t ∷ [])) b s post e (s + 1) foot
      → IsQueue h.free_blocks (free_vas a (pre ++ (free t ∷ [])) ++ free_vas (b + s) post)
      → ClosedBehind a b s e (pre ++ (free t ∷ [])) post
      → Returns
          (λ h'. Holds h' a (pre ++ (free (t + s) ∷ post)) e × SameLimits h h')
          (free_block (b + 4) h)
  unfolding coalesce merge_prev
  free_behind_free {post} pre t r v cn =
      let w = widen_prev pre t r in
      let even : t % 2 ≡ 0 = omega (arith, w.wide.even, r.even) in
      let joined = merge_prev-Around h pre t (clear_tags-Around r) in
      rw (free_block-eq h r, w.tag, even, (cn _ _ _ r).odd)
        (returns (
          record {
            tiled = Around-Tiled (free (t + s)) joined;
            begin = joined.begin;
            stop = joined.stop;
            listed = rw (← list-prev a b s t pre post w.room) v;
            low = joined.low;
            high = joined.high;
          },
          same_limits,
        ))

  pub free_before_free :
      {pre : List Block} (post : List Block) (t : ℕ)
      → Around h.mem a pre b s (free t ∷ post) e (s + 1) foot
      → IsQueue h.free_blocks (free_vas a pre ++ free_vas (b + s) (free t ∷ post))
      → ClosedBefore a b s e pre (free t ∷ post)
      → Returns
          (λ h'. Holds h' a (pre ++ (free (s + t) ∷ post)) e × SameLimits h h')
          (free_block (b + 4) h)
  unfolding coalesce
  free_before_free post t r v cb =
      let w = widen_next post t r in
      let even : t % 2 ≡ 0 = omega (arith, w.1.even, r.even) in
      rw (free_block-eq h r, (cb _ _ _ r).odd, w.0, even)
        (Returns-mono (merge_next_lem h post t (clear_tags-Around r) v)
          λ h' (joined, listed, limits). (Holds-free joined listed, limits))

  pub free_between_free :
      (pre : List Block) (t : ℕ) (post : List Block) (u : ℕ)
      → Around h.mem a (pre ++ (free t ∷ [])) b s (free u ∷ post) e (s + 1) foot
      → IsQueue h.free_blocks
          (free_vas a (pre ++ (free t ∷ [])) ++ free_vas (b + s) (free u ∷ post))
      → Returns
          (λ h'. Holds h' a (pre ++ (free (t + s + u) ∷ post)) e × SameLimits h h')
          (free_block (b + 4) h)
  unfolding coalesce
  free_between_free pre t post u r v =
      let w = widen_prev pre t r in
      let x = widen_next post u r in
      let even_t : t % 2 ≡ 0 = omega (arith, w.wide.even, r.even) in
      let even_u : u % 2 ≡ 0 = omega (arith, x.1.even, r.even) in
      let room : a + total pre + t ≡ b = w.room in
      let y : b + s + u ≡ b + (s + u) = omega arith in
      let z : t + (s + u) ≡ t + s + u = omega arith in
      rw (free_block-eq h r, w.tag, x.0, even_t, even_u)
        (Returns-mono (merge_both_lem h pre t post u (clear_tags-Around r) v)
          λ h' (joined, listed, limits). (
            record {
              tiled = Around-Tiled (free (t + s + u)) joined;
              begin = joined.begin;
              stop = joined.stop;
              listed = rw z at (rw (list-prev a b (s + u) t pre post room) at (rw y at listed));
              low = joined.low;
              high = joined.high;
            },
            limits,
          ))
