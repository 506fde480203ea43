-- ===== src/DynAlloc/Defs.antt =====
-- The operations of lib/dynamic_allocator.c, and `sbrk` of kern/mem/kheap.c.
-- An address is its number, 0 is NULL. `va` is the address behind a block's header.
use fos_fcis_operating_syste.Prelude.{
  ℕ, zero, suc, ◌-◌, ◌*◌, ◌/◌, ◌%◌, ◌^◌, Bool, true, not, ◌&&◌, ◌||◌, Option, none, some, List, [],
  ◌∷◌, ltb, leb, ◌==◌, if◌then◌else◌, word_mod, add32, sub32, or_one, page_size, Run, ok, panic,
  ◌>>=◌,
}
use fos_fcis_operating_syste.Memory.{Mem, load, store}
use fos_fcis_operating_syste.Queue
use fos_fcis_operating_syste.Queue.{Queue}

-- The state that the allocator and `sbrk` share: memory, `freeBlocksList`, `is_initialized`, `BRK`,
-- `HARD_LIMIT`, the size of `MemFrameLists.free_frame_list`, and the pages that have been mapped.
pub record Heap : Type 0 where
  pub mem : Mem
  pub free_blocks : Queue
  pub is_initialized : Bool
  pub brk : ℕ
  pub hard_limit : ℕ
  pub free_frames : ℕ
  pub mapped : List ℕ

-- ROUNDDOWN and ROUNDUP of inc/types.h.
unfoldable pub round_down : ℕ → ℕ → ℕ
unfolding sub32
round_down a n = sub32 a (a % n)

unfoldable pub round_up : ℕ → ℕ → ℕ
unfolding round_down add32 sub32
round_up a n = round_down (sub32 (add32 a n) 1) n

-- `return -1` as a `uint32`
abbrev pub minus_one : ℕ
minus_one = word_mod - 1

-- get_block_size
unfoldable pub get_block_size : Mem → ℕ → ℕ
unfolding load sub32
get_block_size m va = load m (sub32 va 4) / 2 * 2

-- is_free_block
unfoldable pub is_free_block : Mem → ℕ → Bool
unfolding load sub32
is_free_block m va = load m (sub32 va 4) % 2 == 0

-- One round of the loop of `sbrk`: `allocate_frame`, which panics without a free frame, and
-- `map_frame` of the page at `va`.
unfoldable pub map_page : ℕ → Heap → Run Heap
map_page va h =
    if h.free_frames == 0
    then panic
    else ok (record h { free_frames = h.free_frames - 1; mapped = va ∷ h.mapped })

-- The loop of `sbrk`: `n` more pages, the next one at `BRK + j`.
unfoldable pub map_pages : ℕ → ℕ → Heap → Run Heap
unfolding map_page add32
map_pages zero j h = ok h
map_pages (suc n) j h = map_page (add32 h.brk j) h >>= map_pages n (add32 j page_size)

-- sbrk of kern/mem/kheap.c; `n` is the pattern of the `int` argument.
unfoldable pub sbrk : ℕ → Heap → Run (ℕ × Heap)
unfolding map_pages add32 sub32
sbrk n h =
    if n == 0 || leb (2 ^ 31) n
    then ok (h.brk, h)
    else if leb h.hard_limit (sub32 (add32 h.brk (n * page_size % word_mod)) 1)
    then ok (minus_one, h)
    else if ltb h.free_frames n
    then ok (minus_one, h)
    else map_pages n 0 h >>= λ h'.
        ok (h.brk, record h' { brk = add32 h.brk (n * page_size % word_mod) })

-- initialize_dynamic_allocator: the size made even, and at least 24.
unfoldable pub initial_size : ℕ → ℕ
unfolding add32
initial_size size =
    let even = if size % 2 == 0 then size else add32 size 1 in
    if even == 0 then 0 else if ltb even 24 then 24 else even

unfoldable pub initialize_dynamic_allocator : ℕ → ℕ → Heap → Run Heap
unfolding initial_size add32 sub32 store Queue.init Queue.insert_head
initialize_dynamic_allocator start size h =
    let n = initial_size size in
    if n == 0
    then ok h
    else let m1 = store h.mem start 1 in
      let m2 = store m1 (sub32 (add32 start n) 4) 1 in
      let m3 = store m2 (add32 start 4) (sub32 n 8) in
      let m4 = store m3 (sub32 (add32 start n) 8) (sub32 n 8) in
      Queue.insert_head (Queue.init h.free_blocks) (add32 start 8) >>= λ q.
      ok (record h { mem = m4; free_blocks = q; is_initialized = true })

-- set_block_data
unfoldable pub set_block_data : Mem → ℕ → ℕ → Bool → Mem
unfolding add32 sub32 store or_one
set_block_data m va total is_allocated =
    let size = if (not (total % 2 == 0)) && not is_allocated then add32 total 1 else total in
    let word = if is_allocated then or_one size else size in
    if ltb size 16 then m else store (store m (sub32 va 4) word) (sub32 (add32 va size) 8) word

-- The size that is looked for: even, and at least DYN_ALLOC_MIN_BLOCK_SIZE.
unfoldable pub payload_size : ℕ → ℕ
unfolding add32
payload_size size =
    let even = if size % 2 == 0 then size else add32 size 1 in if ltb even 8 then 8 else even

-- The first call's initialisation from `sbrk`.
unfoldable pub ensure_initialized : ℕ → Heap → Run Heap
ensure_initialized size h = if h.is_initialized then ok h else do
  (start, h1) ← sbrk (round_up (add32 size 16) page_size / page_size) h
  (break, h2) ← sbrk 0 h1
  initialize_dynamic_allocator start (sub32 break start) h2

-- The first-fit search of `alloc_block_FF`.
unfoldable pub find_first : Mem → ℕ → List ℕ → Option ℕ
unfolding load sub32
find_first m total [] = none
find_first m total (e ∷ es) =
    let rest = find_first m total es in if leb total (load m (sub32 e 4)) then some e else rest

-- What a fitting block `e` becomes; `rest` is what its header exceeds the wanted total by.
unfoldable pub take_block : ℕ → ℕ → ℕ → Heap → Run Heap
unfolding load store add32 sub32 or_one Queue.insert_after Queue.remove
take_block e size rest h =
    let header = sub32 e 4 in
    let footer = sub32 (add32 e (load h.mem header)) 8 in
    if ltb rest 16
    then (let m1 = store h.mem header (or_one (load h.mem header)) in
        let m2 = store m1 footer (or_one (load m1 footer)) in
        Queue.remove h.free_blocks e >>= λ q. ok (record h { mem = m2; free_blocks = q }))
    else let footer_old = add32 e size in
      let header_new = add32 footer_old 4 in
      let m1 = store h.mem footer_old (or_one (add32 size 8)) in
      let m2 = store m1 header (or_one (add32 size 8)) in
      let m3 = store m2 header_new rest in
      let m4 = store m3 footer rest in
      Queue.insert_after h.free_blocks e (add32 header_new 4) >>= λ q1.
      Queue.remove q1 e >>= λ q2. ok (record h { mem = m4; free_blocks = q2 })
