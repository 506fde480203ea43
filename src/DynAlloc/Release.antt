-- ===== src/DynAlloc/Release.antt =====
-- `free_block` of lib/dynamic_allocator.c refines the release of a block of the list.
use fos_fcis_operating_syste.Prelude.{
  ℕ, ◌+◌, ◌%◌, ◌≡◌, refl, sym, ◌∙◌, true, List, [], ◌∷◌, ◌++◌, arith, ◌==◌, eq→==, ne→==, sub32,
  sub32_small, ok, Returns, Returns-mono, append_assoc,
}
use fos_fcis_operating_syste.Queue.Chain.{IsQueue}
use fos_fcis_operating_syste.DynAlloc.Defs.{Heap}
use fos_fcis_operating_syste.DynAlloc.Ops.{free_block}
use fos_fcis_operating_syste.DynAlloc.Tiling.{
  Block, used, free, total, free_vas, Tiled, cons, Tiled-split, Tiled-total,
}
use fos_fcis_operating_syste.DynAlloc.Heaps.{Holds, SameLimits, Coalesced, Around, order}
use fos_fcis_operating_syste.DynAlloc.Coalesce.{
  join, release, release-Coalesced, Before, first, last_used, last_free, before, release_last_used,
  release_last_free,
}
use fos_fcis_operating_syste.DynAlloc.Neighbours.{
  Holds-free, free_vas-used, Closed-first, Closed-last_used, Closed-end, Closed-next_used,
}
use fos_fcis_operating_syste.DynAlloc.FreeBlock.{
  ClosedBefore, ClosedBehind, free_between_used, free_behind_free, free_before_free,
  free_between_free,
}

-- The heap around one of its used blocks.
pub Holds-Around :
    {h : Heap} {a e s : ℕ} (pre post : List Block)
    → Holds h a (pre ++ (used s ∷ post)) e
    → Around h.mem a pre (a + total pre) s post e (s + 1) (s + 1)
Holds-Around {h} {a} {e} {s} pre post v = go (Tiled-split pre (used s ∷ post) v.tiled)
  where
    go :
        Tiled h.mem a pre (a + total pre) × Tiled h.mem (a + total pre) (used s ∷ post) e
        → Around h.mem a pre (a + total pre) s post e (s + 1) (s + 1)
    go (f, cons g k) = record {
      front = f;
      back = k;
      even = g.even;
      large = g.large;
      header = g.header;
      footer = g.footer;
      begin = v.begin;
      stop = v.stop;
      low = v.low;
      high = v.high;
    }

module _ (h : Heap) (a e s : ℕ) where
  between_used :
      (pre post : List Block)
      → Holds h a (pre ++ (used s ∷ post)) e
      → ClosedBefore a (a + total pre) s e pre post
      → ClosedBehind a (a + total pre) s e pre post
      → Returns
          (λ h'. Holds h' a (pre ++ (free s ∷ post)) e × SameLimits h h')
          (free_block (a + total pre + 4) h)
  between_used pre post v cb cn =
      let r = Holds-Around pre post v in
      let foot : sub32 (s + 1) 1 ≡ s =
        sub32_small (s + 1) 1 (omega arith) (omega (arith, order r, r.high)) ∙ omega arith in
      Returns-mono
        (free_between_used h r (rw (free_vas-used a (a + total pre) s pre post refl) at v.listed) cb
          cn)
        λ h' (r', listed, limits). (Holds-free (rw foot at r') listed, limits)

  -- No free block before: the freed block joins at most the one behind it.
  after_used :
      (pre post : List Block)
      → Holds h a (pre ++ (used s ∷ post)) e
      → ((post : List Block) → ClosedBefore a (a + total pre) s e pre post)
      → Returns
          (λ h'. Holds h' a (pre ++ join s post) e × SameLimits h h')
          (free_block (a + total pre + 4) h)
  after_used pre [] v cb = between_used pre [] v (cb []) (λ m w f r. Closed-end r)
  after_used pre (used t ∷ post) v cb =
      between_used pre (used t ∷ post) v (cb (used t ∷ post)) (λ m w f r. Closed-next_used t post r)
  after_used pre (free t ∷ post) v cb =
      let r = Holds-Around pre (free t ∷ post) v in
      free_before_free h post t r
        (rw (free_vas-used a (a + total pre) s pre (free t ∷ post) refl) at v.listed)
        (cb (free t ∷ post))

  -- A free block before.
  after_free :
      (pre post : List Block) (t : ℕ)
      → Holds h a ((pre ++ (free t ∷ [])) ++ (used s ∷ post)) e
      → Returns
          (λ h'. Holds h' a (pre ++ join (t + s) post) e × SameLimits h h')
          (free_block (a + total (pre ++ (free t ∷ [])) + 4) h)
  after_free pre post t v = go post (Holds-Around p post v) listed
    where
      p : List Block
      p = pre ++ (free t ∷ [])

      listed : IsQueue h.free_blocks (free_vas a p ++ free_vas (a + total p + s) post)
      listed = rw (free_vas-used a (a + total p) s p post refl) at v.listed

      go :
          (post : List Block)
          → Around h.mem a p (a + total p) s post e (s + 1) (s + 1)
          → IsQueue h.free_blocks (free_vas a p ++ free_vas (a + total p + s) post)
          → Returns
              (λ h'. Holds h' a (pre ++ join (t + s) post) e × SameLimits h h')
              (free_block (a + total p + 4) h)
      go [] r l = free_behind_free h pre t r l (λ m w f x. Closed-end x)
      go (used u ∷ post) r l = free_behind_free h pre t r l (λ m w f x. Closed-next_used u post x)
      go (free u ∷ post) r l = free_between_free h pre t post u r l

  by_view :
      {pre : List Block} (post : List Block)
      → Before pre
      → Holds h a (pre ++ (used s ∷ post)) e
      → Returns
          (λ h'. Holds h' a (release pre s post) e × SameLimits h h')
          (free_block (a + total pre + 4) h)
  by_view post first v = after_used [] post v (λ q m w f r. Closed-first r)
  by_view post (last_used pre t) v =
      let same : release (pre ++ (used t ∷ [])) s post ≡ pre ++ (used t ∷ []) ++ join s post =
        release_last_used pre t s post ∙ sym (append_assoc pre (used t ∷ []) (join s post)) in
      rw same (after_used (pre ++ (used t ∷ [])) post v (λ q m w f r. Closed-last_used pre t r))
  by_view post (last_free pre t) v = rw (release_last_free pre t s post) (after_free pre post t v)

-- `free_block` of a used block in a well-formed heap returns, and leaves the heap well-formed: the
-- memory and the free list afterwards are those of the blocks with that block released, which joins
-- it with its free neighbours. The break, the limit, the free frames and the mapped pages stay.
pub free_block-release :
    (h : Heap) (a e s : ℕ) (pre post : List Block)
    → Holds h a (pre ++ (used s ∷ post)) e
    → Returns
        (λ h'. Holds h' a (release pre s post) e × SameLimits h h')
        (free_block (a + total pre + 4) h)
free_block-release h a e s pre post v = by_view h a e s post (before pre) v

-- In a well-formed heap without two free neighbours, `free_block` of a used block returns a
-- well-formed heap without two free neighbours.
pub free_block-Coalesced :
    (h : Heap) (a e s : ℕ) (pre post : List Block)
    → Holds h a (pre ++ (used s ∷ post)) e
    → Coalesced (pre ++ (used s ∷ post))
    → Returns
        (λ h'. (bs : List Block) × Holds h' a bs e × Coalesced bs)
        (free_block (a + total pre + 4) h)
free_block-Coalesced h a e s pre post v c =
    Returns-mono (free_block-release h a e s pre post v)
      λ h' (holds, limits). (release pre s post, holds, release-Coalesced pre s post c)

-- In a well-formed heap, `free_block` of NULL and of a block that is already free change nothing.
pub free_block-harmless :
    (h : Heap) (a e s : ℕ) (pre post : List Block)
    → Holds h a (pre ++ (free s ∷ post)) e
    → (free_block 0 h ≡ ok h) × (free_block (a + total pre + 4) h ≡ ok h)
unfolding free_block
free_block-harmless h a e s pre post v = (refl, at_free (Tiled-split pre (free s ∷ post) v.tiled))
  where
    at_free :
        Tiled h.mem a pre (a + total pre) × Tiled h.mem (a + total pre) (free s ∷ post) e
        → free_block (a + total pre + 4) h ≡ ok h
    at_free (f, cons g k) =
        let at : sub32 (a + total pre + 4) 4 ≡ a + total pre =
          sub32_small (a + total pre + 4) 4 (omega arith)
            (omega (arith, Tiled-total k, g.large, v.high))
          ∙ omega arith in
        let even_tag : (s % 2 == 0) ≡ true = eq→== (s % 2) 0 g.even in
        rw (at, g.header, even_tag, ne→== (a + total pre + 4) 0 (omega arith))
