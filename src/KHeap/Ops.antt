-- ===== src/KHeap/Ops.antt =====
-- `kfree` and `krealloc` of kern/mem/kheap.c.
use fos_fcis_operating_syste.Prelude.{
  ℕ, zero, suc, ◌+◌, ◌*◌, ◌%◌, Bool, false, not, ◌&&◌, ◌||◌, some, List, [], ◌∷◌, ◌++◌, ltb, leb,
  ◌==◌, if◌then◌else◌, word_mod, add32, sub32, page_size, Run, ok, panic, out_of_fuel, ◌>>=◌,
}
use fos_fcis_operating_syste.DynAlloc.{free_block}
use fos_fcis_operating_syste.KHeap.Defs.{
  FreePagesInfo, KHeap, kernel_heap_max, page_of, set_mark, with_heap, new_info, drop_node,
}

-- Whether `get_frame_info` finds a frame for the page.
unfoldable pub is_mapped : ℕ → List ℕ → Bool
is_mapped p [] = false
is_mapped p (q ∷ qs) = (q == p) || is_mapped p qs

unfoldable pub without : ℕ → List ℕ → List ℕ
without p [] = []
without p (q ∷ qs) = let rest = without p qs in if q == p then rest else q ∷ rest

-- pt_set_page_permissions(..., 0, PERM_AVAILABLE) and unmap_frame of the page of `va`
unfoldable pub release_page : ℕ → KHeap → KHeap
unfolding set_mark page_of is_mapped without with_heap
release_page va k =
    let p = page_of va in
    let h = k.heap in
    set_mark p false (
      if is_mapped p h.mapped
      then with_heap k (record h { free_frames = h.free_frames + 1; mapped = without p h.mapped })
      else k)

-- The loop of kfree over several pages, up to the next page that is marked: the last page, and how
-- many they were.
unfoldable pub release_pages : (fuel page_no va : ℕ) → KHeap → Run (ℕ × ℕ × KHeap)
unfolding release_page page_of add32
release_pages zero page_no va k = out_of_fuel
release_pages (suc fuel) page_no va k =
    let k1 = release_page va k in
    let more = release_pages fuel (page_no + 1) (add32 va page_size) k1 in
    if k.marked (page_of va) && ltb 1 page_no then ok (va, page_no, k1) else more

-- What becomes of the list: a range grew, two ranges were joined and a node is not needed, or a new
-- range stands between two parts of the list.
pub data Insertion : Type 0 where
  grown : List FreePagesInfo → Insertion
  joined : ℕ → List FreePagesInfo → Insertion
  fresh : (before after : List FreePagesInfo) → Insertion

unfoldable pub behind : FreePagesInfo → Insertion → Insertion
behind e (grown es) = grown (e ∷ es)
behind e (joined a es) = joined a (e ∷ es)
behind e (fresh before after) = fresh (e ∷ before) after

-- Whether the pages up to `last` end where the range begins, and whether they begin where it ends.
unfoldable pub touches_right : ℕ → FreePagesInfo → Bool
unfolding sub32
touches_right last e = sub32 e.va last == page_size

unfoldable pub touches_left : ℕ → FreePagesInfo → Bool
unfolding add32 sub32
touches_left begin e =
    sub32 begin (add32 e.va (sub32 e.no_consecutive_pages 1 * page_size % word_mod)) == page_size

unfoldable pub grow_right : ℕ → ℕ → FreePagesInfo → FreePagesInfo
unfolding add32
grow_right begin n e = record e {
  va = begin;
  no_consecutive_pages = add32 e.no_consecutive_pages n;
}

unfoldable pub grow_left : ℕ → FreePagesInfo → FreePagesInfo
unfolding add32
grow_left n e = record e { no_consecutive_pages = add32 e.no_consecutive_pages n }

-- The loop's body at the first range above, with the one before it.
unfoldable pub between :
    (begin last n : ℕ) → FreePagesInfo → FreePagesInfo → List FreePagesInfo → Insertion
unfolding touches_right touches_left grow_right grow_left
between begin last n p e es =
    if touches_right last e && not (touches_left begin p)
    then grown (p ∷ grow_right begin n e ∷ es)
    else if not (touches_right last e) && touches_left begin p
    then grown (grow_left n p ∷ e ∷ es)
    else if touches_right last e && touches_left begin p
    then joined e.node (grow_left e.no_consecutive_pages (grow_left n p) ∷ es)
    else fresh (p ∷ []) (e ∷ es)

-- Behind all ranges.
unfoldable pub at_end : (begin n : ℕ) → FreePagesInfo → Insertion
unfolding touches_left grow_left
at_end begin n p = if touches_left begin p then grown (grow_left n p ∷ []) else fresh (p ∷ []) []

-- The search for the first range above `va`, behind the range `p`.
unfoldable pub insert_behind :
    (va begin last n : ℕ) → FreePagesInfo → List FreePagesInfo → Insertion
unfolding between at_end behind
insert_behind va begin last n p [] = at_end begin n p
insert_behind va begin last n p (e ∷ es) =
    let later = behind p (insert_behind va begin last n e es) in
    if ltb va e.va then between begin last n p e es else later

unfoldable pub insert_pages : (va begin last n : ℕ) → List FreePagesInfo → Insertion
unfolding insert_behind touches_right grow_right
insert_pages va begin last n [] = fresh [] []
insert_pages va begin last n (e ∷ es) =
    let later = insert_behind va begin last n e es in
    if ltb va e.va
    then if touches_right last e then grown (grow_right begin n e ∷ es) else fresh [] (e ∷ es)
    else later

unfoldable pub enter : (begin n : ℕ) → KHeap → Insertion → Run KHeap
enter begin n k (grown es) = ok (record k { free_pages_list = es })
enter begin n k (joined a es) =
    drop_node (some a) k >>= λ k1. ok (record k1 { free_pages_list = es })
enter begin n k (fresh before after) = new_info k >>= λ (a, k1). ok (record k1 {
  free_pages_list = before ++ (record { node = a; va = begin; no_consecutive_pages = n } ∷ after);
})

-- The pages of the kernel heap bound the loop over several pages.
abbrev pub kernel_heap_pages : ℕ
kernel_heap_pages = 40959

-- kfree in the range of the page allocator
unfoldable pub kfree_pages : ℕ → KHeap → Run KHeap
kfree_pages va k =
    if not (is_mapped (page_of va) k.heap.mapped)
    then panic
    else (if k.marked (page_of va)
        then release_pages kernel_heap_pages 1 va k
        else ok (va, 1, release_page va k))
      >>= λ (last, n, k1). enter va n k1 (insert_pages last va last n k1.free_pages_list)

-- kfree
unfoldable pub kfree : ℕ → KHeap → Run KHeap
kfree va k =
    if leb k.start va && ltb va k.heap.brk
    then (free_block va k.heap >>= λ h. ok (with_heap k h))
    else if leb (add32 k.heap.hard_limit 4) va && ltb va kernel_heap_max
    then kfree_pages va k
    else panic
