-- ===== src/DynAlloc/AllocSpec.antt =====
-- `alloc_block_FF` of lib/dynamic_allocator.c refines first fit with growth by a page.
use fos_fcis_operating_syste.Prelude.{
  ℕ, suc, ◌+◌, ◌-◌, ◌%◌, ◌≤◌, ◌<◌, ◌≡◌, refl, ◌∙◌, ◌⊎◌, inl, inr, Bool, true, List, [], Option,
  none, some, ◌&&◌, arith, if◌then◌else◌, leb, leb→le, ne→==, word_mod, page_size, add32,
  add32_small, ok, Returns, returns, Returns-bind, Returns-mono, Bool-cases, ◌>>=◌,
}
use fos_fcis_operating_syste.DynAlloc.Defs.{Heap, payload_size}
use fos_fcis_operating_syste.DynAlloc.Ops.{
  extend, alloc_first, alloc_round, chosen, grown, alloc_rounds, alloc_block_ff,
}
use fos_fcis_operating_syste.Queue.Chain.{elements-IsQueue}
use fos_fcis_operating_syste.DynAlloc.Tiling.{Block}
use fos_fcis_operating_syste.DynAlloc.Coalesce.{release}
use fos_fcis_operating_syste.DynAlloc.FirstFit.{first_fit, Found, Missing}
use fos_fcis_operating_syste.DynAlloc.Alloc.{
  payload_size_bounds, payload_size_fixed, ensure_initialized_ready,
}
use fos_fcis_operating_syste.DynAlloc.Grow.{NewLast, LongerLast, extend-grows, extend-fails}
use fos_fcis_operating_syste.DynAlloc.FirstFitAlloc.{
  max_block_size, Ready, TakesFirst, search, alloc_first-fits, retry-NewLast, retry-LongerLast,
}

-- `sbrk` can add a page.
abbrev pub can_grow : Heap → Bool
can_grow h = leb (h.brk + page_size) h.hard_limit && leb 1 h.free_frames

-- An answer: the address or 0, the blocks afterwards, and where they end.
abbrev pub Answer : Type 0
Answer = ℕ × List Block × ℕ

abbrev pub or_null : List Block → ℕ → ℕ → Option (ℕ × List Block) → Answer
or_null bs e e' none = (0, bs, e)
or_null bs e e' (some (va, bs')) = (va, bs', e')

abbrev pub or_grow : Answer → ℕ → Option (ℕ × List Block) → Answer
or_grow grown e none = grown
or_grow grown e (some (va, bs')) = (va, bs', e)

-- The first fit; without one, the first fit after a free page has joined the end of the heap, if
-- there can be one; else NULL and no change.
abbrev pub alloc_spec : Bool → ℕ → ℕ → List Block → ℕ → Answer
alloc_spec grows n a bs e =
    or_grow
      (if grows
        then or_null bs e (e + page_size) (first_fit n a (release bs page_size []))
        else (0, bs, e))
      e (first_fit n a bs)

abbrev pub Answers : ℕ → Answer → ℕ × Heap → Type 0
Answers a (va, bs, e) (va', h') = (va' ≡ va) × Ready h' a bs e

module _ (h : Heap) {a e : ℕ} {bs : List Block} (v : Ready h a bs e) (w : ℕ) (even : w % 2 ≡ 0)
    (big : 8 ≤ w) (small : w ≤ max_block_size) (high : e + page_size + 4 < word_mod - 1) where
  -- Without a fit the call is that of `extend`, and of itself in the grown heap.
  no_fit-eq :
      (fuel : ℕ)
      → Missing h.mem (w + 8) a bs
      → alloc_first (suc fuel) w h ≡ (extend (w + 8) h >>= grown (alloc_first fuel) w h)
  unfolding alloc_first alloc_round chosen
  no_fit-eq fuel k =
      let n_at : add32 w 8 ≡ w + 8 = add32_small w 8 (omega arith) in
      rw (
        payload_size_fixed w even big,
        ensure_initialized_ready w h v.is_initialized,
        n_at,
        elements-IsQueue v.holds.listed,
        k.search,
        n_at,
      )

  fails :
      (fuel : ℕ)
      → Missing h.mem (w + 8) a bs
      → (h.hard_limit < h.brk + page_size) ⊎ (h.free_frames < 1)
      → alloc_first (suc fuel) w h ≡ ok (0, h)
  unfolding grown
  fails fuel k why =
      no_fit-eq fuel k
      ∙ rw (extend-fails h v.holds v.at_break (w + 8) (omega arith) (omega arith) high why)

  grows :
      (fuel : ℕ)
      → Missing h.mem (w + 8) a bs
      → h.brk + page_size ≤ h.hard_limit
      → 1 ≤ h.free_frames
      → Returns
          (TakesFirst (w + 8) a (release bs page_size []) (e + page_size))
          (alloc_first (suc (suc fuel)) w h)
  unfolding grown
  grows fuel k limit enough = rw (no_fit-eq (suc fuel) k) (
      Returns-bind
        (extend-grows h v.holds v.at_break (w + 8) (omega arith) (omega arith) high limit enough)
        λ o (h', is_some, g, outcome).
          let ready : h'.is_initialized ≡ true = g.is_initialized ∙ v.is_initialized in
          let at_break : h'.brk ≡ e + page_size + 4 = omega (arith, g.brk, v.at_break) in
          rw is_some (retry h' ready at_break outcome))
    where
      retry :
          (h' : Heap)
          → h'.is_initialized ≡ true
          → h'.brk ≡ e + page_size + 4
          → NewLast h' a e bs ⊎ LongerLast h' a e bs
          → Returns
              (TakesFirst (w + 8) a (release bs page_size []) (e + page_size))
              (alloc_first (suc fuel) w h')
      retry h' ready at_break (inl x) =
          retry-NewLast h' w even big small fuel ready at_break k.none_fits x
      retry h' ready at_break (inr x) = retry-LongerLast h' w even big small fuel ready at_break x

  pub alloc_first_lem :
      Returns (Answers a (alloc_spec (can_grow h) (w + 8) a bs e)) (alloc_first alloc_rounds w h)
  alloc_first_lem = go (search h v w even big small)
    where
      go :
          Found h.mem (w + 8) a bs ⊎ Missing h.mem (w + 8) a bs
          → Returns (Answers a (alloc_spec (can_grow h) (w + 8) a bs e)) (alloc_first 2 w h)
      go (inl f) =
          Returns-mono (alloc_first-fits h v w even big small 1 f)
            λ (va, h') (l, result, ready). rw result (refl, ready)
      go (inr k) = elim (Bool-cases (leb (h.brk + page_size) h.hard_limit)) [
        | inr over ↦ rw (k.result, over, fails 1 k (inl (ground arith))) (returns (refl, v))
        | inl limit ↦ elim (Bool-cases (leb 1 h.free_frames)) [
          | inr few ↦ rw (k.result, limit, few, fails 1 k (inr (ground arith))) (returns (refl, v))
          | inl enough ↦
              rw (k.result, limit, enough)
                (Returns-mono (grows 0 k (leb→le _ _ limit) (leb→le _ _ enough))
                  λ (va, h') (l, result, ready). rw result (refl, ready))
        ]
      ]

max_payload : (size : ℕ) → size ≤ max_block_size → payload_size size ≤ max_block_size
unfolding payload_size
max_payload size small = ground arith

-- A request is rounded once: the rounded one is treated alike.
alloc_first-payload_size :
    (fuel size : ℕ) (h : Heap)
    → payload_size (payload_size size) ≡ payload_size size
    → alloc_first (suc fuel) size h ≡ alloc_first (suc fuel) (payload_size size) h
unfolding alloc_first
alloc_first-payload_size fuel size h fixed = rw fixed

-- `alloc_block_FF` of 1 to DYN_ALLOC_MAX_BLOCK_SIZE bytes in a ready heap with address space for one
-- more page always returns, with the address, the blocks and the end of the heap that
-- `alloc_spec` says: the first free block that holds the request's even size and its two tags.
pub alloc_block_ff-alloc_spec :
    (size : ℕ) (h : Heap) {a e : ℕ} {bs : List Block}
    → Ready h a bs e
    → 0 < size
    → size ≤ max_block_size
    → e + page_size + 4 < word_mod - 1
    → Returns
        (Answers a (alloc_spec (can_grow h) (payload_size size + 8) a bs e))
        (alloc_block_ff size h)
unfolding alloc_block_ff
alloc_block_ff-alloc_spec size h {a} {e} {bs} v pos small high =
    let bounds = payload_size_bounds size (omega arith) in
    let w = payload_size size in
    let fixed : payload_size w ≡ w = payload_size_fixed w bounds.0 bounds.1 in
    rw (ne→== size 0 (omega arith), alloc_first-payload_size 1 size h fixed)
      (alloc_first_lem h v w bounds.0 bounds.1 (max_payload size small) high)
