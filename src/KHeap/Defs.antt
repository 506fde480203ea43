-- ===== src/KHeap/Defs.antt =====
-- The page allocator of the kernel heap: the list of free page ranges, `kmalloc` and `kfree` of
-- kern/mem/kheap.c, over the block allocator and `sbrk`.
use fos_fcis_operating_syste.Prelude.{
  ℕ, zero, suc, ◌+◌, ◌-◌, ◌*◌, ◌/◌, ◌%◌, Bool, true, not, ◌&&◌, ◌||◌, Option, none, some, List, [],
  ◌∷◌, ltb, leb, ◌==◌, if◌then◌else◌, word_mod, add32, sub32, page_size, Run, ok, panic, ◌>>=◌,
}
use fos_fcis_operating_syste.DynAlloc.{
  Heap, map_page, round_up, alloc_block_ff, alloc_block_bf, free_block,
}

-- struct FreePagesInfo, with its address in place of its links
pub record FreePagesInfo : Type 0 where
  pub node : ℕ
  pub va : ℕ
  pub no_consecutive_pages : ℕ

-- `marked p` is bit 9 of the entry of the page at `p`, which the allocator sets on the first and the
-- last page of several. A page has a frame where it is in `heap.mapped`.
pub record KHeap : Type 0 where
  pub heap : Heap
  pub start : ℕ
  pub strategy : ℕ
  pub page_allocator_flag : Bool
  pub free_pages_list : List FreePagesInfo
  pub marked : ℕ → Bool

-- KERNEL_HEAP_START and KERNEL_HEAP_MAX of inc/memlayout.h, DYN_ALLOC_MAX_BLOCK_SIZE, and the size
-- of a FreePagesInfo
abbrev pub kernel_heap_start : ℕ
kernel_heap_start = 0xF6000000

abbrev pub kernel_heap_max : ℕ
kernel_heap_max = 0xFFFFF000

abbrev pub max_block : ℕ
max_block = 2048

abbrev pub info_size : ℕ
info_size = 16

-- The page that an address lies in.
unfoldable pub page_of : ℕ → ℕ
page_of va = va / 4096 * 4096

unfoldable pub set_mark : ℕ → Bool → KHeap → KHeap
set_mark p b k = record k { marked = λ p'. if p' == p then b else k.marked p' }

unfoldable pub with_heap : KHeap → Heap → KHeap
with_heap k h = record k { heap = h }

-- kmalloc of at most DYN_ALLOC_MAX_BLOCK_SIZE bytes, by the placement strategy
unfoldable pub kmalloc_block : ℕ → KHeap → Run (ℕ × KHeap)
unfolding with_heap
kmalloc_block size k =
    if k.strategy == 1
    then (alloc_block_ff size k.heap >>= λ (a, h). ok (a, with_heap k h))
    else if k.strategy == 2
    then (alloc_block_bf size k.heap >>= λ (a, h). ok (a, with_heap k h))
    else ok (0, k)

-- A new FreePagesInfo; the callers write through its address, which stops the kernel at NULL.
unfoldable pub new_info : KHeap → Run (ℕ × KHeap)
unfolding kmalloc_block
new_info k = kmalloc_block info_size k >>= λ (a, k1). if a == 0 then panic else ok (a, k1)

-- The first call: one range of all pages behind the block allocator's limit and a guard page.
unfoldable pub ensure_pages : KHeap → Run KHeap
unfolding new_info round_up add32 sub32
ensure_pages k =
    if k.page_allocator_flag
    then ok k
    else new_info (record k { free_pages_list = [] }) >>= λ (a, k1).
        let first = add32 k1.heap.hard_limit page_size in
        let bytes = round_up (sub32 kernel_heap_max first) page_size in
        ok (record k1 {
          free_pages_list =
              record { node = a; va = first; no_consecutive_pages = bytes / page_size } ∷ [];
          page_allocator_flag = true;
        })

-- The search of kmalloc for `n` pages: where they begin, the list without them, and the node that is
-- not needed any more if they are a whole range.
pub record Taken : Type 0 where
  pub begin : ℕ
  pub rest : List FreePagesInfo
  pub unused : Option ℕ

unfoldable pub keep_first : FreePagesInfo → Option Taken → Option Taken
keep_first e none = none
keep_first e (some t) = some (record t { rest = e ∷ t.rest })

unfoldable pub take_pages : ℕ → List FreePagesInfo → Option Taken
unfolding keep_first add32
take_pages n [] = none
take_pages n (e ∷ es) =
    let later = keep_first e (take_pages n es) in
    if e.no_consecutive_pages == n
    then some (record { begin = e.va; rest = es; unused = some e.node })
    else if ltb n e.no_consecutive_pages
    then some (record {
      begin = e.va;
      rest =
          record e {
            va = add32 e.va (n * page_size % word_mod);
            no_consecutive_pages = e.no_consecutive_pages - n;
          }
          ∷ es;
      unused = none;
    })
    else later

-- `free_block` of a node that left the list
unfoldable pub drop_node : Option ℕ → KHeap → Run KHeap
unfolding free_block with_heap
drop_node none k = ok k
drop_node (some a) k = free_block a k.heap >>= λ h. ok (with_heap k h)

-- The loop of kmalloc that maps the pages `page_no` to `n`, `left` of them; it marks the first and
-- the last of several.
unfoldable pub back_pages : (n left page_no va : ℕ) → KHeap → Run KHeap
unfolding map_page with_heap set_mark page_of add32
back_pages n zero page_no va k = ok k
back_pages n (suc left) page_no va k = map_page va k.heap >>= λ h.
    let k1 = with_heap k h in
    let k2 =
      if not (n == 1) && ((page_no == 1) || (page_no == n))
      then set_mark (page_of va) true k1
      else k1 in
    back_pages n left (page_no + 1) (add32 va page_size) k2

-- A range was found, or not.
unfoldable pub hand_out : ℕ → KHeap → Option Taken → Run (ℕ × KHeap)
hand_out n k none = ok (0, k)
hand_out n k (some t) = drop_node t.unused k >>= λ k1.
    back_pages n n 1 t.begin (record k1 { free_pages_list = t.rest }) >>= λ k2. ok (t.begin, k2)

-- `n` pages, if there are as many free frames.
unfoldable pub place_pages : ℕ → KHeap → Run (ℕ × KHeap)
place_pages n k =
    if ltb k.heap.free_frames n then ok (0, k) else hand_out n k (take_pages n k.free_pages_list)

-- kmalloc of more
unfoldable pub kmalloc_pages : ℕ → KHeap → Run (ℕ × KHeap)
kmalloc_pages size k = ensure_pages k >>= place_pages (round_up size page_size / page_size)

-- kmalloc
unfoldable pub kmalloc : ℕ → KHeap → Run (ℕ × KHeap)
kmalloc size k = if leb size max_block then kmalloc_block size k else kmalloc_pages size k
