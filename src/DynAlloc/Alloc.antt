-- ===== src/DynAlloc/Alloc.antt =====
-- `alloc_block_FF` of lib/dynamic_allocator.c where the free list has a fit.
use fos_fcis_operating_syste.Prelude.{
  ℕ, suc, ◌+◌, ◌-◌, ◌%◌, ◌≤◌, ◌<◌, ◌≡◌, refl, true, List, ◌∷◌, ◌++◌, some, arith, word_mod, add32,
  add32_small, sub32, sub32_small, ok, Returns, returns, Returns-bind,
}
use fos_fcis_operating_syste.Queue.Chain.{elements-IsQueue}
use fos_fcis_operating_syste.DynAlloc.Defs.{Heap, payload_size, ensure_initialized}
use fos_fcis_operating_syste.DynAlloc.Ops.{alloc_first, alloc_round, chosen}
use fos_fcis_operating_syste.DynAlloc.Tiling.{Block, free, total, Tiled, cons, Tiled-split}
use fos_fcis_operating_syste.DynAlloc.Heaps.{Holds, SameLimits, Around, order}
use fos_fcis_operating_syste.DynAlloc.Neighbours.{free_vas-free}
use fos_fcis_operating_syste.DynAlloc.Free.{header_at}
use fos_fcis_operating_syste.DynAlloc.Carve.{take_block-carve}
use fos_fcis_operating_syste.DynAlloc.FirstFit.{first_fit, Found}
use fos_fcis_operating_syste.DynAlloc.Take.{carve}

-- The size that is looked for is even, at least 8, and no smaller than what was asked for.
pub payload_size_bounds :
    (size : ℕ)
    → size + 1 < word_mod
    → (payload_size size % 2 ≡ 0)
      × (8 ≤ payload_size size)
      × (size ≤ payload_size size)
      × (payload_size size ≤ size + 8)
unfolding payload_size add32
payload_size_bounds size h = ground arith

pub payload_size_fixed : (size : ℕ) → size % 2 ≡ 0 → 8 ≤ size → payload_size size ≡ size
unfolding payload_size
payload_size_fixed size even big = ground arith

-- The heap around one of its free blocks.
pub free-Around :
    {h : Heap} {a e s : ℕ} (pre post : List Block)
    → Holds h a (pre ++ (free s ∷ post)) e
    → Around h.mem a pre (a + total pre) s post e s s
free-Around {h} {a} {e} {s} pre post v = go (Tiled-split pre (free s ∷ post) v.tiled)
  where
    go :
        Tiled h.mem a pre (a + total pre) × Tiled h.mem (a + total pre) (free s ∷ post) e
        → Around h.mem a pre (a + total pre) s post e s s
    go (f, cons g k) = record {
      front = f;
      back = k;
      even = g.even;
      large = g.large;
      header = g.header;
      footer = g.footer;
      begin = v.begin;
      stop = v.stop;
      low = v.low;
      high = v.high;
    }

pub ensure_initialized_ready :
    (w : ℕ) (h : Heap) → h.is_initialized ≡ true → ensure_initialized w h ≡ ok h
unfolding ensure_initialized
ensure_initialized_ready w h ready = simp ready

module _ (h : Heap) {a e : ℕ} {bs : List Block} (v : Holds h a bs e)
    (ready : h.is_initialized ≡ true) where
  -- With a fit in the list, one round takes the first.
  pub alloc_first-Found :
      (fuel size : ℕ)
      → size + 16 < word_mod
      → Found h.mem (payload_size size + 8) a bs
      → Returns
          (λ (va, h').
            (bs' : List Block) × (first_fit (payload_size size + 8) a bs ≡ some (va, bs'))
            × Holds h' a bs' e
            × SameLimits h h')
          (alloc_first (suc fuel) size h)
  unfolding alloc_first alloc_round chosen
  alloc_first-Found fuel size room f =
      let w = payload_size size in
      let bounds = payload_size_bounds size (omega arith) in
      let held : Holds h a (f.pre ++ (free f.s ∷ f.post)) e = rw f.here at v in
      let r = free-Around f.pre f.post held in
      let total_at : add32 w 8 ≡ w + 8 = add32_small w 8 (omega arith) in
      let excess : sub32 f.s (w + 8) ≡ f.s - (w + 8) =
        sub32_small f.s (w + 8) f.fits (omega (arith, order r, r.high)) in
      rw
        (
          ensure_initialized_ready w h ready,
          total_at,
          elements-IsQueue v.listed,
          f.search,
          total_at,
          header_at r,
          r.header,
          excess,
        )
        (Returns-bind
          (take_block-carve h r
            (rw (free_vas-free a (a + total f.pre) f.s f.pre f.post refl) at held.listed) w f.fits
            bounds.1 bounds.0 refl)
          λ h' (held', limits).
            returns (f.pre ++ carve (w + 8) f.s f.post, f.result, held', limits))
