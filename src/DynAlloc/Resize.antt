-- ===== src/DynAlloc/Resize.antt =====
-- realloc_block_FF of lib/dynamic_allocator.c.
use fos_fcis_operating_syste.Prelude.{
  ℕ, ◌%◌, not, ◌&&◌, ◌||◌, ltb, leb, ◌==◌, if◌then◌else◌, add32, sub32, or_one, Run, ok, ◌>>=◌,
}
use fos_fcis_operating_syste.Memory.{Mem, load, store}
use fos_fcis_operating_syste.Strings.{memcpy}
use fos_fcis_operating_syste.Queue
use fos_fcis_operating_syste.Queue.{Queue}
use fos_fcis_operating_syste.DynAlloc.Defs.{Heap}
use fos_fcis_operating_syste.DynAlloc.Ops.{free_block, alloc_block_ff}

-- The four tag writes of a split: a used block of `size` bytes without tags at `va`, and `word` in
-- both tags of the rest up to `footer`.
unfoldable pub split : ℕ → ℕ → ℕ → ℕ → Mem → Mem
unfolding add32 sub32 or_one
split va size word footer m =
    let footer_old = add32 va size in
    let m1 = store m footer_old (or_one (add32 size 8)) in
    let m2 = store m1 (sub32 va 4) (or_one (add32 size 8)) in
    let m3 = store m2 (add32 footer_old 4) word in store m3 footer word

-- The rest of a split block enters the heap as a used block that is freed.
unfoldable pub split_and_free : ℕ → ℕ → ℕ → ℕ → Heap → Run (ℕ × Heap)
split_and_free va size rest footer h =
    free_block (add32 (add32 (add32 va size) 4) 4)
      (record h { mem = split va size (or_one rest) footer h.mem })
    >>= λ h'. ok (va, h')

-- The block is free: it is taken, carved, or left alone for a new allocation.
unfoldable pub realloc_free : ℕ → ℕ → Heap → Run (ℕ × Heap)
realloc_free va size h =
    let header = sub32 va 4 in
    let total = add32 size 8 in
    let found = load h.mem header in
    let footer = sub32 (add32 va found) 8 in
    let m1 = store h.mem header (or_one found) in
    let m2 = store m1 footer (or_one (load m1 footer)) in
    let rest = sub32 found total in
    if ltb found total
    then alloc_block_ff size h
    else if ltb rest 16
    then (Queue.remove h.free_blocks va >>= λ q. ok (va, record h { mem = m2; free_blocks = q }))
    else (Queue.remove h.free_blocks va >>= λ q.
        split_and_free va size rest footer (record h { free_blocks = q }))

-- The used block of `actual` bytes is larger than wanted.
unfoldable pub realloc_shrink : ℕ → ℕ → ℕ → Heap → Run (ℕ × Heap)
realloc_shrink va size actual h =
    let total = add32 size 8 in
    let rest = sub32 actual total in
    let footer = sub32 (add32 va actual) 8 in
    let header_next = load h.mem (sub32 (add32 va total) 4) in
    if not (ltb rest 16) || (not (header_next == 1) && (header_next % 2 == 0))
    then split_and_free va size rest footer h
    else ok (va, h)

-- The block behind is free and large enough: the block grows into it.
unfoldable pub grow_into_next : ℕ → ℕ → ℕ → Heap → Run (ℕ × Heap)
grow_into_next va size actual h =
    let header = sub32 va 4 in
    let header_next = sub32 (add32 va actual) 4 in
    let found = load h.mem header_next in
    let footer_next = sub32 (add32 header_next found) 4 in
    let whole = add32 header_next 4 in
    let rest = sub32 (add32 actual found) (add32 size 8) in
    let m1 = store h.mem header (add32 (load h.mem header) found) in
    let m2 = store m1 footer_next (load m1 header) in
    if ltb rest 16
    then (Queue.remove h.free_blocks whole >>= λ q. ok (va, record h { mem = m2; free_blocks = q }))
    else (Queue.insert_after h.free_blocks whole (add32 (add32 (add32 va size) 4) 4) >>= λ q1.
        Queue.remove q1 whole >>= λ q2.
        ok (va, record h { mem = split va size rest footer_next h.mem; free_blocks = q2 }))

-- The contents move to a new block, if there is one.
unfoldable pub realloc_move : ℕ → ℕ → Heap → Run (ℕ × Heap)
realloc_move va size h = alloc_block_ff size h >>= λ (new, h1).
    if new == 0
    then ok (0, h1)
    else (free_block va
          (record h1 { mem = memcpy new va (sub32 (load h1.mem (sub32 va 4)) 9) h1.mem })
        >>= λ h2. ok (new, h2))

-- The used block of `actual` bytes is smaller than wanted.
unfoldable pub realloc_grow : ℕ → ℕ → ℕ → Heap → Run (ℕ × Heap)
realloc_grow va size actual h =
    let found = load h.mem (sub32 (add32 va actual) 4) in
    if (not (found == 1) && (found % 2 == 0)) && leb (add32 size 8) (add32 actual found)
    then grow_into_next va size actual h
    else realloc_move va size h

-- realloc_block_FF of a block, with the size made even.
unfoldable pub realloc_sized : ℕ → ℕ → Heap → Run (ℕ × Heap)
realloc_sized va size h =
    let word = load h.mem (sub32 va 4) in
    let actual = sub32 word 1 in
    let total = add32 size 8 in
    if word % 2 == 0
    then realloc_free va size h
    else if total == actual
    then ok (va, h)
    else if ltb total actual
    then realloc_shrink va size actual h
    else realloc_grow va size actual h

-- realloc_block_FF
unfoldable pub realloc_block_ff : ℕ → ℕ → Heap → Run (ℕ × Heap)
realloc_block_ff va new_size h =
    if va == 0
    then alloc_block_ff new_size h
    else if new_size == 0
    then (free_block va h >>= λ h'. ok (0, h'))
    else realloc_sized va (if new_size % 2 == 1 then add32 new_size 1 else new_size) h
