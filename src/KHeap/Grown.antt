-- ===== src/KHeap/Grown.antt =====
-- `krealloc` of kern/mem/kheap.c on pages: what it takes for their number, and what it returns when
-- they grow where they are.
use fos_fcis_operating_syste.Prelude.{
  ℕ, zero, suc, ◌+◌, ◌-◌, ◌*◌, ◌/◌, ◌%◌, ◌≤◌, ◌<◌, ◌≡◌, refl, ap, sym, ◌∙◌, Bool, true, false, none,
  some, List, ◌∷◌, ◌==◌, if◌then◌else◌, arith, word_mod, add32, add32_small, sub32, sub32_small,
  page_size, Bool-cases, inl, inr, ne→==, eq→==, le→ltb, lt→ltb, le→leb, ok, Returns, returns,
  Returns-bind, Returns-mono,
}
use fos_fcis_operating_syste.DynAlloc.{Heap, map_page}
use fos_fcis_operating_syste.KHeap.Defs.{
  FreePagesInfo, KHeap, Taken, kernel_heap_start, kernel_heap_max, page_of, set_mark, with_heap,
  drop_node,
}
use fos_fcis_operating_syste.KHeap.Ops.{kernel_heap_pages}
use fos_fcis_operating_syste.KHeap.Resize.{
  count_pages, old_pages, take_behind, back_more, krealloc_extend, krealloc_pages, krealloc,
}

count_pages_marked :
    (fuel va : ℕ) (k : KHeap) → k.marked (page_of va) ≡ true → count_pages (suc fuel) va k ≡ ok 1
unfolding count_pages
count_pages_marked fuel va k e = rw e refl

old_pages_marked :
    (va : ℕ) (k : KHeap)
    → k.marked (page_of va) ≡ true
    → old_pages va k ≡ count_pages kernel_heap_pages va k
unfolding old_pages
old_pages_marked va k e = rw e refl

old_pages_unmarked : (va : ℕ) (k : KHeap) → k.marked (page_of va) ≡ false → old_pages va k ≡ ok 1
unfolding old_pages
old_pages_unmarked va k e = rw e refl

-- The number of pages that `krealloc` finds is 1 for every allocation, since the loop that counts
-- them stops at the mark of the first page.
pub old_pages-one : (va : ℕ) (k : KHeap) → old_pages va k ≡ ok 1
old_pages-one va k = elim (Bool-cases (k.marked (page_of va))) [
  | inl e ↦ old_pages_marked va k e ∙ count_pages_marked 40958 va k e
  | inr e ↦ old_pages_unmarked va k e
]

back_more-Returns :
    (n left page_no va : ℕ) (k : KHeap)
    → left ≤ k.heap.free_frames
    → Returns
        (λ k'. k'.heap.free_frames + left ≡ k.heap.free_frames)
        (back_more n left page_no va k)
unfolding back_more map_page with_heap set_mark
back_more-Returns n zero page_no va k enough = returns (omega arith)
back_more-Returns n (suc left) page_no va k enough =
    let h : Heap = record k.heap {
      free_frames = k.heap.free_frames - 1;
      mapped = va ∷ k.heap.mapped;
    } in
    let k1 : KHeap = with_heap k h in
    let rest : (k2 : KHeap)
        → k2.heap.free_frames ≡ k.heap.free_frames - 1
        → Returns (λ k'. k'.heap.free_frames + suc left ≡ k.heap.free_frames)
            (back_more n left (page_no + 1) (add32 va page_size) k2) =
      λ k2 e.
        Returns-mono
          (back_more-Returns n left (page_no + 1) (add32 va page_size) k2
            (omega (arith, enough, e)))
          λ k' f. omega (arith, e, f, enough) in
    rw (ne→== k.heap.free_frames 0 (omega arith)) (go (page_no == n) rest)
  where
    go :
        (b : Bool)
        → ((k2 : KHeap)
            → k2.heap.free_frames ≡ k.heap.free_frames - 1
            → Returns
                (λ k'. k'.heap.free_frames + suc left ≡ k.heap.free_frames)
                (back_more n left (page_no + 1) (add32 va page_size) k2))
        → Returns
            (λ k'. k'.heap.free_frames + suc left ≡ k.heap.free_frames)
            (back_more n left (page_no + 1) (add32 va page_size) (
              if b
              then set_mark (page_of va) true (
                  with_heap k (record k.heap {
                    free_frames = k.heap.free_frames - 1;
                    mapped = va ∷ k.heap.mapped;
                  }))
              else with_heap k (record k.heap {
                free_frames = k.heap.free_frames - 1;
                mapped = va ∷ k.heap.mapped;
              })))
    go true rest = rest _ refl
    go false rest = rest _ refl

krealloc_dispatch :
    (va new_size : ℕ) (k : KHeap)
    → 0 < new_size
    → kernel_heap_start ≤ va
    → k.heap.brk ≤ va
    → k.heap.hard_limit + page_size ≤ va
    → va < kernel_heap_max
    → krealloc va new_size k ≡ krealloc_pages va new_size k
unfolding krealloc
krealloc_dispatch va new_size k pos high past limit top =
    rw
      (
        ne→== new_size 0 (omega arith),
        ne→== va 0 (omega arith),
        le→leb kernel_heap_start va high,
        le→ltb va k.heap.brk past,
        add32_small k.heap.hard_limit page_size (omega arith),
        le→leb (k.heap.hard_limit + page_size) va limit,
        lt→ltb va kernel_heap_max top,
      )
      refl

krealloc_pages_more :
    (va new_size : ℕ) (k : KHeap)
    → page_size < new_size
    → krealloc_pages va new_size k
      ≡ krealloc_extend va new_size 1 (sub32 (new_size / page_size) 1) k (
          take_behind
            (add32 va page_size)
            (sub32 (new_size / page_size) 1)
            (new_size / page_size)
            k.free_pages_list)
unfolding krealloc_pages
krealloc_pages_more va new_size k larger =
    rw
      (
        old_pages-one va k,
        ne→== page_size new_size (omega arith),
        le→ltb new_size page_size (omega arith),
      )
      refl

module _ (va new_size : ℕ) (k : KHeap) (e : FreePagesInfo) (post : List FreePagesInfo) (wanted : ℕ)
    (fewer : wanted < new_size / page_size)
    (enough : new_size / page_size < e.no_consecutive_pages) where
  take_behind_first :
      e.va ≡ va
      → take_behind va wanted (new_size / page_size) (e ∷ post)
        ≡ some (record {
          begin = e.va;
          rest =
              record e {
                va = add32 e.va (wanted * page_size % word_mod);
                no_consecutive_pages = sub32 e.no_consecutive_pages wanted;
              }
              ∷ post;
          unused = none;
        })
  unfolding take_behind
  take_behind_first behind_it =
      rw
        (
          eq→== e.va va behind_it,
          ne→== e.no_consecutive_pages wanted (omega arith),
          lt→ltb (new_size / page_size) e.no_consecutive_pages enough,
        )
        refl

krealloc_extend_one :
    (va new_size wanted : ℕ) (k : KHeap) (t : Taken)
    → t.unused ≡ none
    → wanted ≤ k.heap.free_frames
    → Returns (λ (a, k'). a ≡ t.begin) (krealloc_extend va new_size 1 wanted k (some t))
unfolding krealloc_extend drop_node
krealloc_extend_one va new_size wanted k t kept frames =
    rw (kept, le→ltb k.heap.free_frames wanted frames)
      (Returns-bind
        (back_more-Returns wanted wanted 1 t.begin (record k { free_pages_list = t.rest }) frames)
        λ k' f. returns refl)

-- A page that `krealloc` enlarges where it is: the free range right behind it, the first of the
-- list, is large enough, and there are as many free frames. `krealloc` returns the address of the
-- pages that it adds, not that of the allocation.
pub krealloc-added :
    (va new_size : ℕ) (k : KHeap) (e : FreePagesInfo) (post : List FreePagesInfo)
    → k.free_pages_list ≡ e ∷ post
    → e.va ≡ va + page_size
    → page_size < new_size
    → new_size < word_mod
    → new_size / page_size < e.no_consecutive_pages
    → new_size / page_size ≤ k.heap.free_frames
    → kernel_heap_start ≤ va
    → k.heap.brk ≤ va
    → k.heap.hard_limit + page_size ≤ va
    → va + page_size < kernel_heap_max
    → Returns (λ (a, k'). a ≡ va + page_size) (krealloc va new_size k)
krealloc-added va new_size k e post listed behind_it larger word enough frames high past limit top =
    let wanted = sub32 (new_size / page_size) 1 in
    let pages : wanted ≡ new_size / page_size - 1 =
      sub32_small (new_size / page_size) 1 (omega arith) (omega arith) in
    let after : add32 va page_size ≡ va + page_size = add32_small va page_size (omega arith) in
    let taken =
      ap (take_behind (add32 va page_size) wanted (new_size / page_size)) listed
      ∙ take_behind_first (add32 va page_size) new_size k e post wanted (omega arith) enough
          (behind_it ∙ sym after) in
    rw
      (
        krealloc_dispatch va new_size k (omega arith) high past limit (omega arith),
        krealloc_pages_more va new_size k larger,
        taken,
      )
      (Returns-mono (krealloc_extend_one va new_size wanted k _ refl (omega arith))
        λ (a, k') at. at ∙ behind_it)
