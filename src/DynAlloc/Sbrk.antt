-- ===== src/DynAlloc/Sbrk.antt =====
-- `sbrk` of kern/mem/kheap.c: it moves the break by whole pages, or changes nothing.
use fos_fcis_operating_syste.Prelude.{
  ℕ, zero, suc, ◌+◌, ◌-◌, ◌*◌, ◌%◌, ◌^◌, ◌≤◌, ◌<◌, ◌≡◌, refl, ◌⊎◌, inl, inr, false, List, ◌∷◌,
  arith, ◌==◌, ◌||◌, leb, ne→==, le→ltb, lt→ltb, lt→leb, le→leb, word_mod, page_size, Bool-cases,
  add32, add32_small, sub32, sub32_small, ok, Returns, returns, Returns-bind, Returns-mono,
}
use fos_fcis_operating_syste.DynAlloc.Defs.{Heap, map_page, map_pages, sbrk, minus_one}

-- The addresses of `n` pages from `va` on, the last one first, in front of `pages`.
abbrev pub push_pages : ℕ → ℕ → List ℕ → List ℕ
push_pages zero va pages = pages
push_pages (suc n) va pages = push_pages n (va + page_size) (va ∷ pages)

pub record Mapped (n va : ℕ) (h h' : Heap) : Type 0 where
  pub mem : h'.mem ≡ h.mem
  pub free_blocks : h'.free_blocks ≡ h.free_blocks
  pub is_initialized : h'.is_initialized ≡ h.is_initialized
  pub hard_limit : h'.hard_limit ≡ h.hard_limit
  pub frames : h'.free_frames + n ≡ h.free_frames
  pub mapped : h'.mapped ≡ push_pages n va h.mapped

map_pages_lem :
    (n j : ℕ) (h : Heap)
    → n ≤ h.free_frames
    → h.brk + j + n * page_size < word_mod
    → Returns (λ h'. Mapped n (h.brk + j) h h' × (h'.brk ≡ h.brk)) (map_pages n j h)
unfolding map_pages map_page
map_pages_lem zero j h enough room = returns (
  record {
    mem = refl;
    free_blocks = refl;
    is_initialized = refl;
    hard_limit = refl;
    frames = omega arith;
    mapped = refl;
  },
  refl,
)
map_pages_lem (suc n) j h enough room =
    let here : add32 h.brk j ≡ h.brk + j = add32_small h.brk j (omega arith) in
    let next : add32 j page_size ≡ j + page_size = add32_small j page_size (omega arith) in
    let some_left : (h.free_frames == 0) ≡ false = ne→== h.free_frames 0 (omega arith) in
    let h1 : Heap = record h { free_frames = h.free_frames - 1; mapped = (h.brk + j) ∷ h.mapped } in
    rw (some_left, here, next)
      (Returns-mono (map_pages_lem n (j + page_size) h1 (omega arith) (omega arith))
        λ h' (m, same_brk).
          let at : h.brk + (j + page_size) ≡ h.brk + j + page_size = omega arith in
          (
            record {
              mem = m.mem;
              free_blocks = m.free_blocks;
              is_initialized = m.is_initialized;
              hard_limit = m.hard_limit;
              frames = omega (arith, m.frames);
              mapped = rw at at m.mapped;
            },
            same_brk,
          ))

module _ (n : ℕ) (h : Heap) (pos : 0 < n) (whole : n * page_size < word_mod)
    (in_memory : h.brk + n * page_size < word_mod) (below : 0 < h.brk) where
  asks : (n == 0 || leb (2 ^ 31) n) ≡ false
  asks = rw (ne→== n 0 (omega arith), lt→leb (2 ^ 31) n (omega arith))

  bytes : n * page_size % word_mod ≡ n * page_size
  bytes = omega arith

  last_byte : sub32 (add32 h.brk (n * page_size)) 1 ≡ h.brk + n * page_size - 1
  last_byte =
      rw (add32_small h.brk (n * page_size) in_memory)
        (sub32_small (h.brk + n * page_size) 1 (omega arith) in_memory)

  -- Below the limit and with enough free frames the break moves up, and the new pages are mapped.
  pub sbrk-grows :
      h.brk + n * page_size ≤ h.hard_limit
      → n ≤ h.free_frames
      → Returns
          (λ (addr, h'). (addr ≡ h.brk) × (h'.brk ≡ h.brk + n * page_size) × Mapped n h.brk h h')
          (sbrk n h)
  unfolding sbrk
  sbrk-grows limit enough =
      let zero_off : h.brk + 0 ≡ h.brk = omega arith in
      rw
        (
          asks,
          bytes,
          last_byte,
          lt→leb h.hard_limit (h.brk + n * page_size - 1) (omega arith),
          le→ltb h.free_frames n enough,
        )
        (Returns-bind (map_pages_lem n 0 h enough (omega arith)) λ h' (m, same_brk). returns (
          refl,
          add32_small h.brk (n * page_size) in_memory,
          record {
            mem = m.mem;
            free_blocks = m.free_blocks;
            is_initialized = m.is_initialized;
            hard_limit = m.hard_limit;
            frames = m.frames;
            mapped = rw zero_off at m.mapped;
          },
        ))

  -- Past the limit, or with too few free frames, it answers -1 and changes nothing.
  pub sbrk-fails :
      (h.hard_limit < h.brk + n * page_size) ⊎ (h.free_frames < n) → sbrk n h ≡ ok (minus_one, h)
  unfolding sbrk
  sbrk-fails (inl over) =
      rw (asks, bytes, last_byte, le→leb h.hard_limit (h.brk + n * page_size - 1) (omega arith))
  sbrk-fails (inr few) =
      rw (asks, bytes, last_byte, lt→ltb h.free_frames n few)
        (elim (Bool-cases (leb h.hard_limit (h.brk + n * page_size - 1))) [
          | inl e ↦ rw e
          | inr e ↦ rw e
        ])
