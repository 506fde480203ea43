-- ===== src/DynAlloc/Init.antt =====
-- `initialize_dynamic_allocator` of lib/dynamic_allocator.c.
use fos_fcis_operating_syste.Prelude.{
  ℕ, ◌+◌, ◌-◌, ◌%◌, ◌≤◌, ◌<◌, ◌≡◌, refl, ◌∙◌, true, [], ◌∷◌, arith, ne→==, word_mod, add32, sub32,
  add32_small, sub32_small, Returns, returns, Returns-bind,
}
use fos_fcis_operating_syste.Memory.{Mem, load, store, load-store, load-store_apart}
use fos_fcis_operating_syste.Queue.Chain.{init-IsQueue}
use fos_fcis_operating_syste.Queue.Insert.{insert_head-IsQueue}
use fos_fcis_operating_syste.DynAlloc.Defs.{Heap, initial_size, initialize_dynamic_allocator}
use fos_fcis_operating_syste.DynAlloc.Tiling.{free, nil, cons}
use fos_fcis_operating_syste.DynAlloc.Heaps.{Holds}

-- An even size of at least 24 bytes is used as it is.
initial_size-fixed : (n : ℕ) → n % 2 ≡ 0 → 24 ≤ n → initial_size n ≡ n
unfolding initial_size
initial_size-fixed n even big = ground arith

-- The four tags that the initialisation writes.
abbrev initial_mem : Mem → ℕ → ℕ → Mem
initial_mem m b s = store (store (store (store m b 1) (b + 4 + s) 1) (b + 4) s) (b + 4 + s - 4) s

module _ (m : Mem) (b s : ℕ) (large : 16 ≤ s) (high : b + 4 + s + 4 < word_mod) where
  header_lem : load (initial_mem m b s) (b + 4) ≡ s
  header_lem =
      load-store_apart _ (b + 4 + s - 4) s (b + 4) (omega arith)
      ∙ load-store _ (b + 4) s (omega arith)

  footer_lem : load (initial_mem m b s) (b + 4 + s - 4) ≡ s
  footer_lem = load-store _ (b + 4 + s - 4) s (omega arith)

  begin_lem : load (initial_mem m b s) (b + 4 - 4) ≡ 1
  begin_lem =
      load-store_apart _ (b + 4 + s - 4) s (b + 4 - 4) (omega arith)
      ∙ load-store_apart _ (b + 4) s (b + 4 - 4) (omega arith)
      ∙ load-store_apart _ (b + 4 + s) 1 (b + 4 - 4) (omega arith)
      ∙ (let z : b + 4 - 4 ≡ b = omega arith in rw z (load-store m b 1 (omega arith)))

  stop_lem : load (initial_mem m b s) (b + 4 + s) ≡ 1
  stop_lem =
      load-store_apart _ (b + 4 + s - 4) s (b + 4 + s) (omega arith)
      ∙ load-store_apart _ (b + 4) s (b + 4 + s) (omega arith)
      ∙ load-store _ (b + 4 + s) 1 (omega arith)

-- `initialize_dynamic_allocator` of an even size of at least 24 bytes below the end of memory makes
-- the heap one free block between the begin and the end block, alone on the free list; the
-- break, the limit, the frames and the mapped pages stay.
pub initialize_dynamic_allocator-Holds :
    (start n : ℕ) (h : Heap)
    → 0 < start
    → start + n < word_mod
    → n % 2 ≡ 0
    → 24 ≤ n
    → Returns
        (λ h'.
          Holds h' (start + 4) (free (n - 8) ∷ []) (start + n - 4)
          × (h'.is_initialized ≡ true)
          × (h'.brk ≡ h.brk)
          × (h'.hard_limit ≡ h.hard_limit)
          × (h'.free_frames ≡ h.free_frames))
        (initialize_dynamic_allocator start n h)
unfolding initialize_dynamic_allocator
initialize_dynamic_allocator-Holds start n h pos high even big =
    let sum : add32 start n ≡ start + n = add32_small start n high in
    let stop_at : sub32 (start + n) 4 ≡ start + 4 + (n - 8) =
      sub32_small (start + n) 4 (omega arith) high ∙ omega arith in
    let head_at : add32 start 4 ≡ start + 4 = add32_small start 4 (omega arith) in
    let size : sub32 n 8 ≡ n - 8 = sub32_small n 8 (omega arith) (omega arith) in
    let foot_at : sub32 (start + n) 8 ≡ start + 4 + (n - 8) - 4 =
      sub32_small (start + n) 8 (omega arith) high ∙ omega arith in
    let va : add32 start 8 ≡ start + 8 = add32_small start 8 (omega arith) in
    let end_at : start + 4 + (n - 8) ≡ start + n - 4 = omega arith in
    let va_of : start + 8 ≡ start + 4 + 4 = omega arith in
    rw
      (
        initial_size-fixed n even big,
        ne→== n 0 (omega arith),
        sum,
        stop_at,
        head_at,
        size,
        foot_at,
        va,
      )
      (Returns-bind
        (insert_head-IsQueue (start + 8) (init-IsQueue h.free_blocks) (omega arith) tt
          (omega arith))
        λ q v. returns (
          record {
            tiled =
                cons
                  (record {
                    even = omega arith;
                    large = omega arith;
                    header = header_lem h.mem start (n - 8) (omega arith) (omega arith);
                    footer = footer_lem h.mem start (n - 8) (omega arith) (omega arith);
                  })
                  (nil end_at);
            begin = begin_lem h.mem start (n - 8) (omega arith) (omega arith);
            stop = rw (← end_at) (stop_lem h.mem start (n - 8) (omega arith) (omega arith));
            listed = rw va_of at v;
            low = omega arith;
            high = omega arith;
          },
          refl,
          refl,
          refl,
          refl,
        ))
