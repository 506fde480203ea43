-- ===== src/KHeap/Resize.antt =====
-- `krealloc` of kern/mem/kheap.c.
use fos_fcis_operating_syste.Prelude.{
  ℕ, zero, suc, ◌+◌, ◌*◌, ◌/◌, ◌%◌, true, false, ◌&&◌, ◌||◌, Option, none, some, List, [], ◌∷◌, ltb,
  leb, ◌==◌, if◌then◌else◌, word_mod, add32, sub32, page_size, Run, ok, out_of_fuel, ◌>>=◌,
}
use fos_fcis_operating_syste.Memory.{load}
use fos_fcis_operating_syste.Strings.{memcpy}
use fos_fcis_operating_syste.DynAlloc.{map_page, realloc_block_ff}
use fos_fcis_operating_syste.KHeap.Defs.{
  FreePagesInfo, KHeap, Taken, kernel_heap_start, kernel_heap_max, max_block, page_of, set_mark,
  with_heap, keep_first, drop_node, kmalloc,
}
use fos_fcis_operating_syste.KHeap.Ops.{kfree, kernel_heap_pages}

-- A new place, the first `bytes` copied there, and the old one freed; NULL if there is none.
unfoldable pub krealloc_move : (va new_size bytes : ℕ) → KHeap → Run (ℕ × KHeap)
unfolding kmalloc kfree memcpy with_heap
krealloc_move va new_size bytes k = kmalloc new_size k >>= λ (new, k1).
    if new == 0
    then ok (0, k1)
    else (kfree va (with_heap k1 (record k1.heap { mem = memcpy new va bytes k1.heap.mem }))
        >>= λ k2. ok (new, k2))

-- A block of the block allocator; its header holds its size with the tags, plus 1.
unfoldable pub krealloc_block : (va new_size : ℕ) → KHeap → Run (ℕ × KHeap)
unfolding krealloc_move realloc_block_ff with_heap load sub32
krealloc_block va new_size k =
    let old_size = sub32 (load k.heap.mem (sub32 va 4)) 9 in
    if old_size == new_size
    then ok (va, k)
    else if ltb new_size old_size || leb new_size max_block
    then (realloc_block_ff va new_size k.heap >>= λ (a, h). ok (a, with_heap k h))
    else krealloc_move va new_size old_size k

-- The loop that counts the pages: it ends at the first page that is marked.
unfoldable pub count_pages : (fuel va : ℕ) → KHeap → Run ℕ
unfolding page_of add32
count_pages zero va k = out_of_fuel
count_pages (suc fuel) va k =
    let more = count_pages fuel (add32 va page_size) k >>= λ n. ok (n + 1) in
    if k.marked (page_of va) then ok 1 else more

unfoldable pub old_pages : ℕ → KHeap → Run ℕ
old_pages va k = if k.marked (page_of va) then count_pages kernel_heap_pages va k else ok 1

-- Fewer pages: the rest is freed, with marks for its first page and for the new last one.
unfoldable pub krealloc_shrink : (va new_size pages : ℕ) → KHeap → Run (ℕ × KHeap)
unfolding kfree set_mark page_of add32 sub32
krealloc_shrink va new_size pages k =
    let begin_free = add32 va new_size in
    let no_free = sub32 (pages * page_size % word_mod) new_size / page_size in
    let no_allocated = sub32 pages no_free in
    let k1 = set_mark (page_of begin_free) (ltb 1 no_free) k in
    kfree begin_free k1 >>= λ k2.
    ok (va, set_mark (page_of (sub32 begin_free page_size)) (ltb 1 no_allocated) k2)

-- The free range right behind the pages, if it is large enough: cut or used up.
unfoldable pub take_behind : (after wanted whole : ℕ) → List FreePagesInfo → Option Taken
unfolding keep_first add32 sub32
take_behind after wanted whole [] = none
take_behind after wanted whole (e ∷ es) =
    let later = keep_first e (take_behind after wanted whole es) in
    if (e.va == after) && (e.no_consecutive_pages == wanted)
    then some (record { begin = e.va; rest = es; unused = some e.node })
    else if (e.va == after) && ltb whole e.no_consecutive_pages
    then some (record {
      begin = e.va;
      rest =
          record e {
            va = add32 e.va (wanted * page_size % word_mod);
            no_consecutive_pages = sub32 e.no_consecutive_pages wanted;
          }
          ∷ es;
      unused = none;
    })
    else later

-- The pages that are added; the last one is marked.
unfoldable pub back_more : (n left page_no va : ℕ) → KHeap → Run KHeap
unfolding map_page with_heap set_mark page_of add32
back_more n zero page_no va k = ok k
back_more n (suc left) page_no va k = map_page va k.heap >>= λ h.
    let k1 = with_heap k h in
    back_more n left (page_no + 1) (add32 va page_size)
      (if page_no == n then set_mark (page_of va) true k1 else k1)

unfoldable pub krealloc_extend :
    (va new_size pages wanted : ℕ) → KHeap → Option Taken → Run (ℕ × KHeap)
krealloc_extend va new_size pages wanted k none =
    krealloc_move va new_size (pages * page_size % word_mod) k
krealloc_extend va new_size pages wanted k (some t) = drop_node t.unused k >>= λ k1.
    let k2 = record k1 { free_pages_list = t.rest } in
    let k3 =
      if pages == 1
      then k2
      else set_mark (page_of (add32 va (pages * page_size % word_mod))) false k2 in
    if ltb k2.heap.free_frames wanted
    then ok (0, k2)
    else (back_more wanted wanted 1 t.begin k3 >>= λ k4. ok (t.begin, k4))

-- Pages of the page allocator.
unfoldable pub krealloc_pages : (va new_size : ℕ) → KHeap → Run (ℕ × KHeap)
krealloc_pages va new_size k = old_pages va k >>= λ pages.
    let old_size = pages * page_size % word_mod in
    let wanted = sub32 (new_size / page_size) pages in
    if old_size == new_size
    then ok (va, k)
    else if ltb new_size old_size
    then if leb new_size max_block
      then krealloc_move va new_size new_size k
      else krealloc_shrink va new_size pages k
    else krealloc_extend va new_size pages wanted k
        (take_behind (add32 va old_size) wanted (new_size / page_size) k.free_pages_list)

-- krealloc
unfoldable pub krealloc : (va new_size : ℕ) → KHeap → Run (ℕ × KHeap)
krealloc va new_size k =
    if new_size == 0
    then (kfree va k >>= λ k1. ok (0, k1))
    else if va == 0
    then kmalloc new_size k
    else if leb kernel_heap_start va && ltb va k.heap.brk
    then krealloc_block va new_size k
    else if leb (add32 k.heap.hard_limit page_size) va && ltb va kernel_heap_max
    then krealloc_pages va new_size k
    else ok (0, k)
