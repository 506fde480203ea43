-- ===== src/DynAlloc/Tests.antt =====
-- A small heap, runs of the allocator on it, and the theorems at it.
use fos_fcis_operating_syste.Prelude.{
  All, ℕ, ◌<◌, none, some, ◌+◌, ◌≡◌, refl, ◌⊎◌, true, List, [], ◌∷◌, arith, ok, Returns,
}
use fos_fcis_operating_syste.Memory.{Mem, load, store}
use fos_fcis_operating_syste.Queue.Chain
use fos_fcis_operating_syste.Queue.Chain.{IsQueue}
use fos_fcis_operating_syste.DynAlloc.Defs.{Heap, payload_size, sbrk, initialize_dynamic_allocator}
use fos_fcis_operating_syste.DynAlloc.Ops.{free_block, alloc_block_ff, find_best}
use fos_fcis_operating_syste.DynAlloc.Tiling.{Block, used, free, nil, cons}
use fos_fcis_operating_syste.DynAlloc.Heaps.{Holds, SameLimits, Coalesced}
use fos_fcis_operating_syste.DynAlloc.Release.{
  free_block-release, free_block-Coalesced, free_block-harmless,
}
use fos_fcis_operating_syste.DynAlloc.Resize.{realloc_block_ff}
use fos_fcis_operating_syste.DynAlloc.Shrink.{realloc_block_ff-shrink}
use fos_fcis_operating_syste.DynAlloc.BestFit.{size_at, Best, find_best-Best}
use fos_fcis_operating_syste.DynAlloc.Init.{initialize_dynamic_allocator-Holds}
use fos_fcis_operating_syste.DynAlloc.Sbrk.{Mapped, sbrk-grows}
use fos_fcis_operating_syste.DynAlloc.FirstFit.{Found, Missing, find_first-first_fit}
use fos_fcis_operating_syste.DynAlloc.FirstFitAlloc.{Ready}
use fos_fcis_operating_syste.DynAlloc.AllocSpec.{
  Answers, alloc_spec, can_grow, alloc_block_ff-alloc_spec,
}

-- A used block of 24 bytes, a free one of 32, a used one of 16, between two border tags.
abbrev small_mem : Mem
small_mem =
    store
      (store
        (store
          (store (store (store (store (store (λ _. 0) 4096 1) 4100 25) 4120 25) 4124 32) 4152 32)
          4156 17)
        4168 17)
      4172 1

abbrev small_heap : Heap
small_heap = record {
  mem = small_mem;
  free_blocks = record { first = 4128; last = 4128; size = 1; next = λ _. 0; prev = λ _. 0 };
  is_initialized = true;
  brk = 4176;
  hard_limit = 65536;
  free_frames = 5;
  mapped = [];
}

abbrev small_blocks : List Block
small_blocks = used 24 ∷ free 32 ∷ used 16 ∷ []

small_heap-Holds : Holds small_heap 4100 small_blocks 4172
unfolding load store
small_heap-Holds = record {
  tiled =
      cons (record { even = refl; large = omega arith; header = refl; footer = refl })
        (cons (record { even = refl; large = omega arith; header = refl; footer = refl })
          (cons (record { even = refl; large = omega arith; header = refl; footer = refl })
            (nil refl)));
  begin = refl;
  stop = refl;
  listed = record {
    chain = Chain.cons refl (omega arith) refl tt (Chain.nil refl refl);
    count = refl;
    fits = omega arith;
  };
  low = omega arith;
  high = omega arith;
}

small_heap-Ready : Ready small_heap 4100 small_blocks 4172
small_heap-Ready = record { holds = small_heap-Holds; is_initialized = refl; at_break = refl }

free_block-release_example :
    Returns
      (λ h'. Holds h' 4100 (free 56 ∷ used 16 ∷ []) 4172 × SameLimits small_heap h')
      (free_block 4104 small_heap)
free_block-release_example =
    free_block-release small_heap 4100 4172 24 [] (free 32 ∷ used 16 ∷ []) small_heap-Holds

free_block-Coalesced_example :
    Returns
      (λ h'. (bs : List Block) × Holds h' 4100 bs 4172 × Coalesced bs)
      (free_block 4104 small_heap)
free_block-Coalesced_example =
    free_block-Coalesced small_heap 4100 4172 24 [] (free 32 ∷ used 16 ∷ []) small_heap-Holds
      (refl, tt)

free_block-harmless_example :
    (free_block 0 small_heap ≡ ok small_heap) × (free_block 4128 small_heap ≡ ok small_heap)
free_block-harmless_example =
    free_block-harmless small_heap 4100 4172 32 (used 24 ∷ []) (used 16 ∷ []) small_heap-Holds

initialize_dynamic_allocator-Holds_example :
    Returns
      (λ h'.
        Holds h' 4100 (free 4088 ∷ []) 8188
        × (h'.is_initialized ≡ true)
        × (h'.brk ≡ 4176)
        × (h'.hard_limit ≡ 65536)
        × (h'.free_frames ≡ 5))
      (initialize_dynamic_allocator 4096 4096 small_heap)
initialize_dynamic_allocator-Holds_example =
    initialize_dynamic_allocator-Holds 4096 4096 small_heap (omega arith) (omega arith) refl
      (omega arith)

sbrk-grows_example :
    Returns
      (λ (addr, h'). (addr ≡ 4176) × (h'.brk ≡ 12368) × Mapped 2 4176 small_heap h')
      (sbrk 2 small_heap)
sbrk-grows_example =
    sbrk-grows 2 small_heap (omega arith) (omega arith) (omega arith) (omega arith) (omega arith)
      (omega arith)

find_first-first_fit_example :
    Found small_mem 32 4100 small_blocks ⊎ Missing small_mem 32 4100 small_blocks
find_first-first_fit_example = find_first-first_fit 32 (omega arith) small_heap-Holds.tiled

alloc_block_ff-alloc_spec_example :
    Returns
      (Answers 4100
        (alloc_spec (can_grow small_heap) (payload_size 100 + 8) 4100 small_blocks 4172))
      (alloc_block_ff 100 small_heap)
alloc_block_ff-alloc_spec_example =
    alloc_block_ff-alloc_spec 100 small_heap small_heap-Ready (omega arith) (omega arith)
      (omega arith)

find_best-Best_example :
    ((find_best small_mem 32 none (4128 ∷ []) ≡ none)
      × All (λ e. size_at small_mem e < 32) (4128 ∷ []))
    ⊎ ((b : ℕ) × (least : ℕ) × (find_best small_mem 32 none (4128 ∷ []) ≡ some (b, least))
        × Best small_mem 32 b least (4128 ∷ []))
find_best-Best_example = find_best-Best small_mem 32 (4128 ∷ [])

-- 16 bytes are kept of the first block of a larger heap; the rest joins the free block behind it.
abbrev large_mem : Mem
large_mem =
    store (store (store (store (store (store (λ _. 0) 4096 1) 4100 65) 4160 65) 4164 32) 4192 32)
      4196 1

abbrev large_heap : Heap
large_heap = record small_heap {
  mem = large_mem;
  free_blocks = record { first = 4168; last = 4168; size = 1; next = λ _. 0; prev = λ _. 0 };
}

large_heap-Holds : Holds large_heap 4100 (used 64 ∷ free 32 ∷ []) 4196
unfolding load store
large_heap-Holds = record {
  tiled =
      cons (record { even = refl; large = omega arith; header = refl; footer = refl })
        (cons (record { even = refl; large = omega arith; header = refl; footer = refl })
          (nil refl));
  begin = refl;
  stop = refl;
  listed = record {
    chain = Chain.cons refl (omega arith) refl tt (Chain.nil refl refl);
    count = refl;
    fits = omega arith;
  };
  low = omega arith;
  high = omega arith;
}

realloc_block_ff-shrink_example :
    Returns
      (λ (va, h').
        (va ≡ 4104) × Holds h' 4100 (used 24 ∷ free 72 ∷ []) 4196 × SameLimits large_heap h')
      (realloc_block_ff 4104 16 large_heap)
realloc_block_ff-shrink_example =
    realloc_block_ff-shrink large_heap 4100 4196 64 [] (free 32 ∷ []) 16 large_heap-Holds refl
      (omega arith) (omega arith)

-- 100 bytes do not fit: the heap grows by a page behind its last block.
grown_answer :
    alloc_spec true 108 4100 small_blocks 4172
    ≡ (4176, used 24 ∷ free 32 ∷ used 16 ∷ used 108 ∷ free 3988 ∷ [], 8268)
grown_answer = refl

-- 24 bytes do: the free block is taken whole.
fitting_answer :
    alloc_spec true 32 4100 small_blocks 4172 ≡ (4128, used 24 ∷ used 32 ∷ used 16 ∷ [], 4172)
fitting_answer = refl
