-- ===== src/UserHeap/Ops.antt =====
-- The program's side of the user heap, lib/uheap.c, and the system calls of kern/trap/syscall.c between
-- it and the kernel, which run on the environment's state. `env_exit` does not come back to the
-- program: it ends the call.
use fos_fcis_operating_syste.Prelude.{
  ℕ, ◌+◌, ◌*◌, ◌/◌, ◌%◌, Bool, ◌&&◌, ◌||◌, ltb, leb, ◌==◌, if◌then◌else◌, word_mod, add32, sub32,
  page_size, Run, ok, panic, ◌>>=◌,
}
use fos_fcis_operating_syste.DynAlloc.{round_up}
use fos_fcis_operating_syste.Paging.{Paging}
use fos_fcis_operating_syste.Fault.{Faulted, user_heap_start, user_heap_max}
use fos_fcis_operating_syste.UserHeap.Defs.{
  UserEnv, user_heap_pages, get_consecutive_free_pages, allocate_user_mem, free_user_mem,
}

-- `blocks` is what the block allocator of the program keeps.
pub record UserHeap (B : Type 0) : Type 0 where
  pub env : UserEnv
  pub blocks : B
  pub first_fit : Bool
  pub best_fit : Bool
  pub marked_page_size : ℕ → ℕ

-- The index of a page behind the limit of the block allocator, in `marked_page_size`.
unfoldable pub page_index : {B : Type 0} → ℕ → UserHeap B → ℕ
unfolding add32 sub32
page_index va u = sub32 va (add32 u.env.userh_hard_limit page_size) / page_size

unfoldable pub set_size : {B : Type 0} → ℕ → ℕ → UserHeap B → UserHeap B
set_size i n u = record u { marked_page_size = λ j. if j == i then n else u.marked_page_size j }

-- A call of the program comes back with a result, or the environment has ended in it.
pub data Call (X : Type 0) : Type 0 where
  returned : X → Call X
  ended : Call X

abbrev pub and_then : {X Y : Type 0} → (X → Y) → Call X → Call Y
and_then f (returned x) = returned (f x)
and_then f ended = ended

-- The check of the parameters in sys_allocate_user_mem and sys_free_user_mem.
unfoldable pub is_bad_range : ℕ → ℕ → Bool
unfolding add32
is_bad_range va size =
    (va == 0)
    || (ltb va user_heap_start || (leb user_heap_max va || leb user_heap_max (add32 va size)))

unfoldable pub with_faulted : {B : Type 0} → UserHeap B → Faulted → UserHeap B
with_faulted u s = record u { env = record u.env { faulted = s } }

-- The block allocator of the program, the kernel heap and the page file, as the user heap calls them.
module _ {B : Type 0} (kmalloc : ℕ → Paging → Run (ℕ × Paging)) (kernel : ℕ)
    (kfree : ℕ → Paging → Run Paging) (pf_remove_env_page : ℕ → Faulted → Run Faulted)
    (alloc_block_ff alloc_block_bf : ℕ → UserHeap B → Run (ℕ × UserHeap B))
    (free_block : ℕ → UserHeap B → Run (UserHeap B)) where
  -- sys_allocate_user_mem
  unfoldable pub sys_allocate_user_mem : ℕ → ℕ → Faulted → Run (Call Faulted)
  unfolding is_bad_range
  sys_allocate_user_mem va size s =
      let allocated =
        allocate_user_mem kmalloc kernel (user_heap_pages + 1) s.env_page_directory va size s.paging
        >>= λ k. ok (returned (record s { paging = k })) in
      if is_bad_range va size then ok ended else allocated

  -- sys_free_user_mem; buffering is off.
  unfoldable pub sys_free_user_mem : ℕ → ℕ → Faulted → Run (Call Faulted)
  unfolding is_bad_range
  sys_free_user_mem va size s =
      let freed = free_user_mem kfree pf_remove_env_page (user_heap_pages + 1) va size s >>= λ s1.
      ok (returned s1) in
      if is_bad_range va size then ok ended else freed

  -- malloc of more than DYN_ALLOC_MAX_BLOCK_SIZE bytes
  unfoldable pub malloc_pages : ℕ → UserHeap B → Run (Call (ℕ × UserHeap B))
  unfolding with_faulted
  malloc_pages size u =
      let bytes = round_up size page_size in
      let mark = λ (va : ℕ).
        let u1 = set_size (page_index va u) (bytes / page_size) u in
        sys_allocate_user_mem va bytes u1.env.faulted >>= λ r.
        ok (and_then (λ s. (va, with_faulted u1 s)) r) in
      get_consecutive_free_pages bytes u.env >>= λ va.
      if va == 0 then ok (returned (0, u)) else mark va

  -- malloc
  unfoldable pub malloc : ℕ → UserHeap B → Run (Call (ℕ × UserHeap B))
  malloc size u =
      if size == 0
      then ok (returned (0, u))
      else if leb size 2048
      then if u.first_fit
        then (alloc_block_ff size u >>= λ r. ok (returned r))
        else if u.best_fit
        then (alloc_block_bf size u >>= λ r. ok (returned r))
        else ok (returned (0, u))
      else malloc_pages size u

  -- free
  unfoldable pub free : ℕ → UserHeap B → Run (Call (UserHeap B))
  unfolding with_faulted
  free va u =
      let i = page_index va u in
      let bytes = u.marked_page_size i * page_size % word_mod in
      let give_back = sys_free_user_mem va bytes u.env.faulted >>= λ r.
      ok (and_then (λ s. set_size i 0 (with_faulted u s)) r) in
      if leb user_heap_start va && ltb va u.env.userh_brk
      then (free_block va u >>= λ u1. ok (returned u1))
      else if leb (add32 u.env.userh_hard_limit page_size) va && ltb va user_heap_max
      then give_back
      else panic
