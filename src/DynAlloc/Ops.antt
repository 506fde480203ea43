-- ===== src/DynAlloc/Ops.antt =====
-- free_block, alloc_block_FF, alloc_block_BF, alloc_block and realloc_block_FF of
-- lib/dynamic_allocator.c.
use fos_fcis_operating_syste.Prelude.{
  ℕ, zero, suc, ◌*◌, ◌/◌, ◌%◌, Bool, true, false, not, ◌&&◌, ◌||◌, Option, none, some, List, [],
  ◌∷◌, ltb, leb, ◌==◌, if◌then◌else◌, word_mod, add32, sub32, or_one, page_size, Run, ok,
  out_of_fuel, ◌>>=◌,
}
use fos_fcis_operating_syste.Memory.{Mem, load, store}
use fos_fcis_operating_syste.Queue
use fos_fcis_operating_syste.Queue.{Queue}
use fos_fcis_operating_syste.DynAlloc.Defs.{
  Heap, sbrk, round_up, minus_one, payload_size, ensure_initialized, find_first, take_block,
}

-- The loop of `free_block` that keeps the free list sorted: the first element above `va`.
unfoldable pub first_above : ℕ → List ℕ → Option ℕ
first_above va [] = none
first_above va (e ∷ es) = let rest = first_above va es in if ltb va e then some e else rest

-- LIST_INSERT_BEFORE that element, or LIST_INSERT_TAIL where the loop finds none.
unfoldable pub insert_at : Queue → ℕ → Option ℕ → Run Queue
unfolding Queue.insert_tail Queue.insert_before
insert_at q va none = Queue.insert_tail q va
insert_at q va (some e) = Queue.insert_before q e va

unfoldable pub insert_sorted : Queue → ℕ → Run Queue
unfolding first_above Queue.elements insert_at
insert_sorted q va = insert_at q va (first_above va (Queue.elements q))

-- `*header = *header - 1; *footer = *footer - 1;`
unfoldable pub clear_tags : Mem → ℕ → ℕ → Mem
unfolding load store sub32
clear_tags m header footer =
    let m1 = store m header (sub32 (load m header) 1) in store m1 footer (sub32 (load m1 footer) 1)

-- The neighbours are in use: the block enters the free list, first or last next to a border.
unfoldable pub enlist : ℕ → ℕ → ℕ → Mem → Queue → Run Queue
unfolding insert_sorted Queue.insert_head Queue.insert_tail load
enlist va footer_prev header_next m q =
    if (load m footer_prev == 1) && not (load m header_next % 2 == 0)
    then Queue.insert_head q va
    else if not (load m footer_prev % 2 == 0) && (load m header_next == 1)
    then Queue.insert_tail q va
    else insert_sorted q va

unfoldable pub free_alone : ℕ → ℕ → ℕ → Mem → Heap → Run Heap
unfolding enlist
free_alone va footer_prev header_next m h =
    enlist va footer_prev header_next m h.free_blocks >>= λ q.
    ok (record h { mem = m; free_blocks = q })

-- The block before is free: it grows by this one.
unfoldable pub merge_prev : ℕ → ℕ → ℕ → ℕ → Mem → Heap → Heap
unfolding load store add32 sub32
merge_prev va header footer footer_prev m h =
    let header_prev = sub32 (sub32 va 4) (load m footer_prev) in
    let m1 = store m header_prev (add32 (load m header) (load m footer_prev)) in
    record h { mem = store m1 footer (load m1 header_prev) }

-- The block behind is free: this one grows by it, and takes its place in the free list.
unfoldable pub merge_next : ℕ → ℕ → Mem → Heap → Run Heap
unfolding load store add32 sub32 Queue.insert_before Queue.remove
merge_next header header_next m h =
    let m1 = store m header (add32 (load m header) (load m header_next)) in
    let footer_next = sub32 (add32 header_next (load m1 header_next)) 4 in
    let m2 = store m1 footer_next (load m1 header) in
    Queue.insert_before h.free_blocks (add32 header_next 4) (add32 header 4) >>= λ q1.
    Queue.remove q1 (add32 header_next 4) >>= λ q2. ok (record h { mem = m2; free_blocks = q2 })

-- Both are free: the block before grows by two.
unfoldable pub merge_both : ℕ → ℕ → ℕ → ℕ → Mem → Heap → Run Heap
unfolding load store add32 sub32 Queue.remove
merge_both va header footer_prev header_next m h =
    let header_prev = sub32 (sub32 va 4) (load m footer_prev) in
    let m1 =
      store m header_prev
        (add32 (add32 (load m header_prev) (load m header)) (load m header_next)) in
    let footer_next = sub32 (add32 header_next (load m1 header_next)) 4 in
    let m2 = store m1 footer_next (load m1 header_prev) in
    Queue.remove h.free_blocks (add32 header_next 4) >>= λ q.
    ok (record h { mem = m2; free_blocks = q })

-- The branches of `free_block`, by whether the block before and the one behind are in use: the test
-- of the first branch implies each of its two others, and that of a later branch is a parity pair.
unfoldable pub coalesce :
    Bool → Bool → (va header footer footer_prev header_next : ℕ) → Mem → Heap → Run Heap
unfolding free_alone merge_prev merge_next merge_both
coalesce true true va header footer footer_prev header_next m h =
    free_alone va footer_prev header_next m h
coalesce false true va header footer footer_prev header_next m h =
    ok (merge_prev va header footer footer_prev m h)
coalesce true false va header footer footer_prev header_next m h = merge_next header header_next m h
coalesce false false va header footer footer_prev header_next m h =
    merge_both va header footer_prev header_next m h

-- free_block
unfoldable pub free_block : ℕ → Heap → Run Heap
unfolding clear_tags coalesce load add32 sub32
free_block va h =
    let header = sub32 va 4 in
    let actual = sub32 (load h.mem header) 1 in
    let footer = sub32 (add32 va actual) 8 in
    let footer_prev = sub32 va 8 in
    let header_next = sub32 (add32 va actual) 4 in
    let prev_used = not (load h.mem footer_prev % 2 == 0) in
    let next_used = not (load h.mem header_next % 2 == 0) in
    if va == 0 || load h.mem header % 2 == 0
    then ok h
    else coalesce prev_used next_used va header footer footer_prev header_next
        (clear_tags h.mem header footer) h

-- The branch of an allocation that finds no fit: more pages from `sbrk`, as a block in use that is
-- then freed. `none` is the failure of `sbrk`.
unfoldable pub extend : ℕ → Heap → Run (Option Heap)
extend total h =
    let rounded = round_up total page_size in
    let pages = rounded / page_size in
    sbrk pages h >>= λ (addr, h1).
    if addr == minus_one
    then ok none
    else (let header = sub32 addr 4 in
        let footer = sub32 (add32 header rounded) 8 in
        let size = pages * page_size % word_mod in
        let m1 = store h1.mem header (or_one size) in
        let m2 = store m1 footer (or_one size) in
        let m3 = store m2 (add32 header rounded) 1 in
        free_block addr (record h1 { mem = m3 }) >>= λ h2. ok (some h2))

-- The end of a call that had to grow the heap: NULL if `sbrk` failed, else the call is made again.
unfoldable pub grown : (ℕ → Heap → Run (ℕ × Heap)) → ℕ → Heap → Option Heap → Run (ℕ × Heap)
grown again wanted h none = ok (0, h)
grown again wanted h (some h') = again wanted h'

-- A block was found, or not.
unfoldable pub chosen : (ℕ → Heap → Run (ℕ × Heap)) → ℕ → Heap → Option ℕ → Run (ℕ × Heap)
chosen again wanted h (some e) =
    take_block e wanted (sub32 (load h.mem (sub32 e 4)) (add32 wanted 8)) h >>= λ h'. ok (e, h')
chosen again wanted h none = extend (add32 wanted 8) h >>= grown again wanted h

-- The body of alloc_block_FF behind its guards.
unfoldable pub alloc_round : (ℕ → Heap → Run (ℕ × Heap)) → ℕ → Heap → Run (ℕ × Heap)
alloc_round again wanted h =
    chosen again wanted h (find_first h.mem (add32 wanted 8) (Queue.elements h.free_blocks))

-- alloc_block_FF for a size other than 0; it calls itself once the heap has grown. The answer is the
-- address, 0 for NULL.
unfoldable pub alloc_first : ℕ → ℕ → Heap → Run (ℕ × Heap)
alloc_first zero size h = out_of_fuel
alloc_first (suc fuel) size h =
    ensure_initialized (payload_size size) h >>= alloc_round (alloc_first fuel) (payload_size size)

-- A call that grows the heap calls itself once: two rounds.
abbrev pub alloc_rounds : ℕ
alloc_rounds = 2

unfoldable pub alloc_block_ff : ℕ → Heap → Run (ℕ × Heap)
alloc_block_ff size h = if size == 0 then ok (0, h) else alloc_first alloc_rounds size h

-- The best-fit search of `alloc_block_BF`: the best block so far with its excess. The loop breaks
-- at a perfect fit.
unfoldable pub find_best : Mem → ℕ → Option (ℕ × ℕ) → List ℕ → Option (ℕ × ℕ)
find_best m total best [] = best
find_best m total none (e ∷ es) =
    let size = load m (sub32 e 4) in
    let excess = sub32 size total in
    let rest = find_best m total (if leb total size then some (e, excess) else none) es in
    if leb total size && (excess == 0) then some (e, excess) else rest
find_best m total (some (b, least)) (e ∷ es) =
    let size = load m (sub32 e 4) in
    let excess = sub32 size total in
    let better = leb total size && ltb excess least in
    let rest = find_best m total (if better then some (e, excess) else some (b, least)) es in
    if better && (excess == 0) then some (e, excess) else rest

-- alloc_block_BF after its guards.
unfoldable pub alloc_best : ℕ → ℕ → Heap → Run (ℕ × Heap)
alloc_best zero size h = out_of_fuel
alloc_best (suc fuel) size h =
    let wanted = payload_size size in
    let total = add32 wanted 8 in
    ensure_initialized wanted h >>= λ h1.
    elim (find_best h1.mem total none (Queue.elements h1.free_blocks)) [
      | some (e, least) ↦ take_block e wanted least h1 >>= λ h2. ok (e, h2)
      | none ↦ extend total h1 >>= λ grown. elim grown [
        | none ↦ ok (0, h1)
        | some h2 ↦ alloc_best fuel wanted h2
      ]
    ]

unfoldable pub alloc_block_bf : ℕ → Heap → Run (ℕ × Heap)
alloc_block_bf size h = if size == 0 then ok (0, h) else alloc_best alloc_rounds size h
