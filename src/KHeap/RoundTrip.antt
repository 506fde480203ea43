-- ===== src/KHeap/RoundTrip.antt =====
-- `kfree` of kern/mem/kheap.c undoes `kmalloc` of pages.
use fos_fcis_operating_syste.Prelude.{
  ℕ, ◌+◌, ◌-◌, ◌*◌, ◌/◌, ◌%◌, ◌≤◌, ◌<◌, ◌≡◌, refl, ap, sym, ◌∙◌, Bool, true, false, ◌&&◌, List, ◌∷◌,
  ◌++◌, ltb, leb, All, arith, add32, add32_small, page_size, lt→ltb, le→ltb, lt→leb, le→leb, ok,
  ◌>>=◌, Returns, returns, Returns-bind,
}
use fos_fcis_operating_syste.DynAlloc.{round_up}
use fos_fcis_operating_syste.KHeap.Defs.{
  FreePagesInfo, KHeap, kernel_heap_start, kernel_heap_max, max_block, page_of, ensure_pages,
  take_pages, drop_node, back_pages, hand_out, place_pages, kmalloc_pages, kmalloc,
}
use fos_fcis_operating_syste.KHeap.Ops.{is_mapped, insert_pages, enter, kfree_pages, kfree}
use fos_fcis_operating_syste.KHeap.Ranges.{Ranges}
use fos_fcis_operating_syste.KHeap.Pages.{at_page, Backed, back_pages-Backed, page_of_aligned}
use fos_fcis_operating_syste.KHeap.Back.{cut, take_pages-cut, insert_pages-cut, Ranges-drop}
use fos_fcis_operating_syste.KHeap.Releasing.{
  Restored, Vacant, Backed-Released, page-Backed, release_all-Released,
}

-- The pages that `size` bytes take.
abbrev pub pages_for : ℕ → ℕ
pages_for size = round_up size page_size / page_size

-- A page allocator in use, whose first range with `n` pages or more is `e`, and has more.
pub record CanCut (n : ℕ) (k : KHeap) (pre : List FreePagesInfo) (e : FreePagesInfo)
    (post : List FreePagesInfo) : Type 0 where
  pub started : k.page_allocator_flag ≡ true
  pub listed : k.free_pages_list ≡ pre ++ (e ∷ post)
  pub ranges : Ranges (k.heap.hard_limit + page_size) kernel_heap_max (pre ++ (e ∷ post))
  pub small : All (λ (x : FreePagesInfo). x.no_consecutive_pages < n) pre
  pub larger : n < e.no_consecutive_pages
  pub frames : n ≤ k.heap.free_frames
  pub vacant : Vacant e.va n k
  pub above : kernel_heap_start ≤ k.heap.hard_limit
  pub below_limit : k.heap.brk ≤ k.heap.hard_limit

module _ (size : ℕ) (k : KHeap) (pre : List FreePagesInfo) (e : FreePagesInfo)
    (post : List FreePagesInfo) (filled : 0 < pages_for size)
    (c : CanCut (pages_for size) k pre e post) where
  abbrev n : ℕ
  n = pages_for size

  abbrev placed : Ranges (k.heap.hard_limit + page_size) kernel_heap_max (e ∷ post)
  placed = Ranges-drop (k.heap.hard_limit + page_size) kernel_heap_max pre e post c.ranges

  after_cut : KHeap
  after_cut = record k { free_pages_list = pre ++ (cut n e ∷ post) }

  kmalloc_pages-eq :
      kmalloc_pages size k ≡ (back_pages n n 1 e.va after_cut >>= λ k2. ok (e.va, k2))
  unfolding kmalloc_pages ensure_pages place_pages hand_out drop_node after_cut
  kmalloc_pages-eq =
      let (l, a, filled_range, top, rest) = placed in
      let taken =
        ap (take_pages n) c.listed
        ∙ take_pages-cut kernel_heap_max n (omega arith) filled e post c.larger a top pre c.small in
      rw (c.started, le→ltb k.heap.free_frames n c.frames, taken) refl

  kmalloc_pages-Backed :
      Returns (λ (va, k1). (va ≡ e.va) × Backed n n 1 e.va after_cut k1) (kmalloc_pages size k)
  unfolding after_cut
  kmalloc_pages-Backed =
      let (l, a, filled_range, top, rest) = placed in
      rw kmalloc_pages-eq (
        Returns-bind
          (back_pages-Backed n n 1 e.va after_cut (omega arith) (omega arith) a
            (omega (arith, c.larger)) c.frames)
          λ k2 b. returns (refl, b))

  -- The list step of the release.
  enter_back :
      (k2 : KHeap)
      → k2.free_pages_list ≡ pre ++ (cut n e ∷ post)
      → enter e.va n k2
          (insert_pages (e.va + n * 4096 - 4096) e.va (e.va + n * 4096 - 4096) n k2.free_pages_list)
        ≡ ok (record k2 { free_pages_list = pre ++ (e ∷ post) })
  unfolding enter
  enter_back k2 listed =
      let (l, a, filled_range, top, rest) = placed in
      ap
        (λ es.
          enter e.va n k2
            (insert_pages (e.va + n * 4096 - 4096) e.va (e.va + n * 4096 - 4096) n es))
        listed
      ∙ ap (enter e.va n k2) (
          insert_pages-cut kernel_heap_max n (omega arith) filled e post c.larger a top pre
            (k.heap.hard_limit + page_size) c.ranges)

  kfree_pages-Restored :
      (k1 : KHeap) → Backed n n 1 e.va after_cut k1 → Returns (Restored k) (kfree_pages e.va k1)
  unfolding kfree_pages after_cut
  kfree_pages-Restored k1 b =
      let (l, a, filled_range, top, rest) = placed in
      let v : Vacant e.va n after_cut = record {
        unmapped = c.vacant.unmapped;
        unmarked = c.vacant.unmarked;
      } in
      let there : is_mapped (page_of e.va) k1.heap.mapped ≡ true =
        ap (λ p. is_mapped p k1.heap.mapped) (page_of_aligned e.va a)
        ∙ page-Backed n e.va e.va b (first_page n e.va a filled) in
      rw there (
        Returns-bind
          (release_all-Released n e.va a filled (omega (arith, c.larger, c.above))
            (omega (arith, c.larger)) v b)
          λ (last, m, k2) (last_at, m_at, r).
            let (frames, mapped, marked, same) = Backed-Released n e.va a v b r in
            rw (last_at, m_at, enter_back k2 (r.free_pages_list ∙ b.free_pages_list))
              (returns (record {
                free_frames = frames;
                mapped = mapped;
                marked = marked;
                free_pages_list = sym c.listed;
                same = record {
                  mem = same.mem;
                  free_blocks = same.free_blocks;
                  brk = same.brk;
                  hard_limit = same.hard_limit;
                  start = same.start;
                  strategy = same.strategy;
                  page_allocator_flag = same.page_allocator_flag;
                };
              })))
    where
      first_page : (n begin : ℕ) → begin % 4096 ≡ 0 → 0 < n → at_page begin begin n ≡ true
      first_page n begin aligned filled = ground arith

-- The block allocator's bounds are as before.
module _ (size : ℕ) (k : KHeap) (pre : List FreePagesInfo) (e : FreePagesInfo)
    (post : List FreePagesInfo) (filled : 0 < pages_for size)
    (c : CanCut (pages_for size) k pre e post) (k1 : KHeap)
    (b : Backed
      (pages_for size)
      (pages_for size)
      1
      e.va
      (after_cut size k pre e post filled c)
      k1) where
  limit_same : k1.heap.hard_limit ≡ k.heap.hard_limit
  unfolding after_cut
  limit_same = b.same.hard_limit

  brk_same : k1.heap.brk ≡ k.heap.brk
  unfolding after_cut
  brk_same = b.same.brk

pages_for_pos : (size : ℕ) → max_block < size → size ≤ kernel_heap_max → 0 < pages_for size
unfolding round_up
pages_for_pos size big fits = omega arith

-- `kmalloc` of more than 2048 bytes, where the first range with as many pages has more and there are
-- as many free frames, returns the range's address, and `kfree` of it returns with the frames, the
-- mapped pages, the marks and the list of the free ranges as they were before.
pub kfree-kmalloc :
    (size : ℕ) (k : KHeap) (pre : List FreePagesInfo) (e : FreePagesInfo)
    (post : List FreePagesInfo)
    → max_block < size
    → size ≤ kernel_heap_max
    → CanCut (pages_for size) k pre e post
    → Returns
        (λ (va, k2). (va ≡ e.va) × Restored k k2)
        (kmalloc size k >>= λ (va, k1). kfree va k1 >>= λ k2. ok (va, k2))
unfolding kmalloc kfree
kfree-kmalloc size k pre e post big fits c =
    let filled = pages_for_pos size big fits in
    let (l, a, filled_range, top, rest) = placed size k pre e post filled c in
    rw (lt→leb size max_block big) (
      Returns-bind (kmalloc_pages-Backed size k pre e post filled c) λ (va, k1) (at, b).
        let guard : add32 k1.heap.hard_limit 4 ≡ k.heap.hard_limit + 4 =
          ap (λ x. add32 x 4) (limit_same size k pre e post filled c k1 b)
          ∙ add32_small k.heap.hard_limit 4 (omega (arith, c.larger)) in
        let past_blocks : ltb e.va k1.heap.brk ≡ false =
          ap (ltb e.va) (brk_same size k pre e post filled c k1 b)
          ∙ le→ltb e.va k.heap.brk (omega (arith, c.below_limit)) in
        rw
          (
            at,
            past_blocks,
            and_false (leb k1.start e.va),
            guard,
            le→leb (k.heap.hard_limit + 4) e.va (omega arith),
            lt→ltb e.va kernel_heap_max (omega (arith, c.larger)),
          )
          (Returns-bind (kfree_pages-Restored size k pre e post filled c k1 b)
            λ k2 r. returns (refl, r)))
  where
    and_false : (b : Bool) → (b && false) ≡ false
    and_false true = refl
    and_false false = refl
