-- ===== src/DynAlloc/FirstFitAlloc.antt =====
-- `alloc_block_FF` of lib/dynamic_allocator.c: it refines first fit on the list of blocks.
use fos_fcis_operating_syste.Prelude.{
  ℕ, suc, ◌+◌, ◌-◌, ◌%◌, ◌≤◌, ◌≡◌, ◌∙◌, ◌⊎◌, inl, inr, true, false, List, [], ◌∷◌, ◌++◌, none, some,
  arith, ltb, leb, le→leb, le→ltb, page_size, add32, add32_small, sub32, sub32_small, Returns,
  returns, Returns-bind, Returns-mono,
}
use fos_fcis_operating_syste.Queue.Chain.{elements-IsQueue}
use fos_fcis_operating_syste.DynAlloc.Defs.{Heap, payload_size, find_first}
use fos_fcis_operating_syste.DynAlloc.Ops.{alloc_first, alloc_round, chosen}
use fos_fcis_operating_syste.DynAlloc.Tiling.{Block, used, free, total, free_vas, Tiled-total}
use fos_fcis_operating_syste.DynAlloc.Heaps.{Holds, order}
use fos_fcis_operating_syste.DynAlloc.Coalesce.{release}
use fos_fcis_operating_syste.DynAlloc.Free.{header_at}
use fos_fcis_operating_syste.DynAlloc.Carve.{take_split}
use fos_fcis_operating_syste.DynAlloc.FirstFit.{
  first_fit, NoFit, NoFit-tail, first_fit-behind, find_first-append, Found, Missing, Missing-NoFit,
  find_first-first_fit,
}
use fos_fcis_operating_syste.DynAlloc.Alloc.{
  payload_size_fixed, ensure_initialized_ready, alloc_first-Found,
}
use fos_fcis_operating_syste.DynAlloc.Grow.{NewLast, LongerLast}

-- DYN_ALLOC_MAX_BLOCK_SIZE, the largest request that the kernel and the user heap send here.
abbrev pub max_block_size : ℕ
max_block_size = 2048

-- The heap between two calls, once initialised: it ends at the break.
pub record Ready (h : Heap) (a : ℕ) (bs : List Block) (e : ℕ) : Type 0 where
  pub holds : Holds h a bs e
  pub is_initialized : h.is_initialized ≡ true
  pub at_break : h.brk ≡ e + 4

-- What a call answers: the first fit of `bs`, in a heap that ends at `e`.
abbrev pub TakesFirst : (n a : ℕ) → List Block → (e : ℕ) → ℕ × Heap → Type 0
TakesFirst n a bs e (va, h') =
    (bs' : List Block) × (first_fit n a bs ≡ some (va, bs')) × Ready h' a bs' e

module _ (h : Heap) {a e : ℕ} {bs : List Block} (v : Ready h a bs e) (w : ℕ) (even : w % 2 ≡ 0)
    (big : 8 ≤ w) (small : w ≤ max_block_size) where
  pub search : Found h.mem (w + 8) a bs ⊎ Missing h.mem (w + 8) a bs
  search = find_first-first_fit (w + 8) (omega (arith, v.holds.high)) v.holds.tiled

  pub alloc_first-fits :
      (fuel : ℕ)
      → Found h.mem (w + 8) a bs
      → Returns (TakesFirst (w + 8) a bs e) (alloc_first (suc fuel) w h)
  alloc_first-fits fuel f =
      let same : payload_size w ≡ w = payload_size_fixed w even big in
      let f' : Found h.mem (payload_size w + 8) a bs = rw same f in
      Returns-mono (alloc_first-Found h v.holds v.is_initialized fuel w (omega arith) f')
        λ (va, h') (bs', result, held, limits). (
          bs',
          rw same at result,
          record {
            holds = held;
            is_initialized = limits.is_initialized ∙ v.is_initialized;
            at_break = limits.brk ∙ v.at_break;
          },
        )

module _ (h : Heap) {a e : ℕ} {bs : List Block} (w : ℕ) (even : w % 2 ≡ 0) (big : 8 ≤ w)
    (small : w ≤ max_block_size) where
  -- After the growth the call takes the new page, whose footer it repairs by splitting it.
  pub retry-NewLast :
      (fuel : ℕ)
      → h.is_initialized ≡ true
      → h.brk ≡ e + page_size + 4
      → NoFit (w + 8) bs
      → NewLast h a e bs
      → Returns
          (TakesFirst (w + 8) a (release bs page_size []) (e + page_size))
          (alloc_first (suc fuel) w h)
  unfolding alloc_first alloc_round chosen find_first
  retry-NewLast fuel ready at_break no_fit k =
      let r = k.around in
      let n_at : add32 w 8 ≡ w + 8 = add32_small w 8 (omega arith) in
      let same : payload_size w ≡ w = payload_size_fixed w even big in
      let bounds = order r in
      let front_missing : find_first h.mem (w + 8) (free_vas a bs) ≡ none =
        (Missing-NoFit (w + 8) no_fit
          (find_first-first_fit (w + 8) (omega (arith, r.high)) r.front)).search in
      let passes = find_first-append h.mem (w + 8) (free_vas a bs) ((e + 4) ∷ []) front_missing in
      let excess : sub32 page_size (w + 8) ≡ page_size - (w + 8) =
        sub32_small page_size (w + 8) (omega arith) (omega arith) in
      let fits : leb (w + 8) page_size ≡ true = le→leb (w + 8) page_size (omega arith) in
      let split : ltb (page_size - (w + 8)) 16 ≡ false =
        le→ltb (page_size - (w + 8)) 16 (omega arith) in
      let at : e + 4 ≡ a + total bs + 4 = omega (arith, Tiled-total r.front) in
      let answer : first_fit (w + 8) a (release bs page_size [])
          ≡ some (e + 4, bs ++ (used (w + 8) ∷ free (page_size - (w + 8)) ∷ [])) =
        rw (k.result, first_fit-behind (w + 8) a bs page_size [] no_fit (omega arith), split, at) in
      rw
        (
          same,
          ensure_initialized_ready w h ready,
          n_at,
          elements-IsQueue k.listed,
          passes,
          header_at r,
          r.header,
          fits,
          n_at,
          header_at r,
          r.header,
          excess,
        )
        (Returns-bind
          (take_split h r k.listed w (page_size - (w + 8)) (omega arith) big even (omega arith))
          λ h' (held, limits). returns (
            bs ++ (used (w + 8) ∷ free (page_size - (w + 8)) ∷ []),
            answer,
            record {
              holds = held;
              is_initialized = limits.is_initialized ∙ ready;
              at_break = limits.brk ∙ at_break;
            },
          ))

  -- After the growth the call takes from the last block, which has grown.
  pub retry-LongerLast :
      (fuel : ℕ)
      → h.is_initialized ≡ true
      → h.brk ≡ e + page_size + 4
      → LongerLast h a e bs
      → Returns
          (TakesFirst (w + 8) a (release bs page_size []) (e + page_size))
          (alloc_first (suc fuel) w h)
  retry-LongerLast fuel ready at_break k =
      let bs2 = k.pre ++ (free (k.t + page_size) ∷ []) in
      let v2 : Ready h a bs2 (e + page_size) = record {
        holds = k.holds;
        is_initialized = ready;
        at_break = at_break;
      } in
      rw k.result
        (alloc_first-fits h v2 w even big small fuel (found v2 (search h v2 w even big small)))
    where
      found :
          Ready h a (k.pre ++ (free (k.t + page_size) ∷ [])) (e + page_size)
          → Found h.mem (w + 8) a (k.pre ++ (free (k.t + page_size) ∷ []))
            ⊎ Missing h.mem (w + 8) a (k.pre ++ (free (k.t + page_size) ∷ []))
          → Found h.mem (w + 8) a (k.pre ++ (free (k.t + page_size) ∷ []))
      found v2 (inl f) = f
      found v2 (inr miss) =
          let tail = NoFit-tail (w + 8) k.pre (free (k.t + page_size) ∷ []) miss.none_fits in
          absurd (omega (arith, tail.0))
