-- ===== src/UserHeap/Malloc.antt =====
-- malloc of lib/uheap.c hands out the first free pages and reserves them.
use fos_fcis_operating_syste.Prelude.{
  ℕ, ◌+◌, ◌*◌, ◌/◌, ◌≤◌, ◌<◌, ◌≡◌, refl, subst, Bool, false, ◌==◌, if◌then◌else◌, arith, word_mod,
  sub32, add32_small, page_size, eq→==, ne→==, lt→leb, le→ltb, leb→le, leb→lt, Bool-cases, inl, inr,
  leb, ok, Run, ◌>>=◌, Returns, returns, Returns-bind,
}
use fos_fcis_operating_syste.DynAlloc.{round_up}
use fos_fcis_operating_syste.Paging.{Paging}
use fos_fcis_operating_syste.Fault.{Faulted, user_heap_start, user_heap_max}
use fos_fcis_operating_syste.Fault.Clock.{Resident, entry_of}
use fos_fcis_operating_syste.UserHeap.Defs.{
  user_heap_pages, is_free_page, get_consecutive_free_pages,
}
use fos_fcis_operating_syste.UserHeap.Ops.{
  UserHeap, Call, returned, ended, and_then, is_bad_range, with_faulted, page_index, set_size,
  sys_allocate_user_mem, malloc_pages, malloc,
}
use fos_fcis_operating_syste.UserHeap.Search.{
  AllFree, FirstFree, nowhere, at, get_consecutive_free_pages-FirstFree,
}
use fos_fcis_operating_syste.UserHeap.Marks.{Marked}
use fos_fcis_operating_syste.UserHeap.Reserve.{
  free_entry, is_free_page-entry, allocate_user_mem-Reserved,
}

abbrev pub pages_of : ℕ → ℕ
pages_of size = round_up size page_size / page_size

-- The first address behind the block allocator of the program.
abbrev pub first_page : {B : Type 0} → UserHeap B → ℕ
first_page u = u.env.userh_hard_limit + page_size

-- Page `i` behind it is free.
abbrev pub is_free : {B : Type 0} → UserHeap B → ℕ → Bool
is_free u i =
    free_entry (
      entry_of u.env.faulted.env_page_directory (first_page u + i * page_size) u.env.faulted.paging)

-- What malloc of `n` pages answers, and the state that it leaves. The system call takes no range up to
-- USER_HEAP_MAX.
pub data Allocated {B : Type 0} (u : UserHeap B) (n total : ℕ)
    : Call (ℕ × UserHeap B) → Type 0 where
  full :
      ((s : ℕ) → s + n ≤ total → ¬ AllFree (is_free u) s n) → Allocated u n total (returned (0, u))
  placed :
      {u' : UserHeap B} (s : ℕ)
      → s + n < total
      → AllFree (is_free u) s n
      → ((s' : ℕ) → s' < s → ¬ AllFree (is_free u) s' n)
      → u'.marked_page_size s ≡ n
      → ((i : ℕ)
          → i < n
          → is_free_page u.env.faulted.env_page_directory
              (first_page u + s * page_size + i * page_size)
              u'.env.faulted.paging
            ≡ ok false)
      → Marked u.env.faulted.env_page_directory u.env.faulted.paging u'.env.faulted.paging
      → Allocated u n total (returned (first_page u + s * page_size, u'))
  refused :
      (s : ℕ)
      → s + n ≡ total
      → AllFree (is_free u) s n
      → ((s' : ℕ) → s' < s → ¬ AllFree (is_free u) s' n)
      → Allocated u n total ended

-- The system calls take a range of the user heap that ends below USER_HEAP_MAX, and no other.
is_bad_range_lem :
    (va size : ℕ)
    → user_heap_start ≤ va
    → va < user_heap_max
    → va + size < word_mod
    → is_bad_range va size ≡ leb user_heap_max (va + size)
unfolding is_bad_range
is_bad_range_lem va size low high room =
    rw
      (
        add32_small va size room,
        ne→== va 0 (omega arith),
        le→ltb va user_heap_start low,
        lt→leb user_heap_max va high,
      )
      refl

module _ {B : Type 0} (kmalloc : ℕ → Paging → Run (ℕ × Paging)) (kernel : ℕ)
    (kfree : ℕ → Paging → Run Paging) (pf_remove_env_page : ℕ → Faulted → Run Faulted)
    (alloc_block_ff alloc_block_bf : ℕ → UserHeap B → Run (ℕ × UserHeap B))
    (free_block : ℕ → UserHeap B → Run (UserHeap B)) where
  marked : (bytes : ℕ) (u : UserHeap B) (va : ℕ) → Run (Call (ℕ × UserHeap B))
  marked bytes u va =
      let u1 = set_size (page_index va u) (bytes / page_size) u in
      sys_allocate_user_mem kmalloc kernel kfree pf_remove_env_page alloc_block_ff alloc_block_bf
        free_block va bytes u1.env.faulted
      >>= λ r. ok (and_then (λ s. (va, with_faulted u1 s)) r)

  malloc_pages-eq :
      (size : ℕ) (u : UserHeap B)
      → malloc_pages kmalloc kernel kfree pf_remove_env_page alloc_block_ff alloc_block_bf
          free_block size u
        ≡ (get_consecutive_free_pages (round_up size page_size) u.env >>= λ va.
            if va == 0 then ok (returned (0, u)) else marked (round_up size page_size) u va)
  unfolding malloc_pages marked
  malloc_pages-eq size u = refl

  malloc-eq :
      (size : ℕ) (u : UserHeap B)
      → 2048 < size
      → malloc kmalloc kernel kfree pf_remove_env_page alloc_block_ff alloc_block_bf free_block size
          u
        ≡ malloc_pages kmalloc kernel kfree pf_remove_env_page alloc_block_ff alloc_block_bf
            free_block size u
  unfolding malloc
  malloc-eq size u big = rw (ne→== size 0 (omega arith), lt→leb size 2048 big) refl

  own_index :
      (u : UserHeap B) (s : ℕ)
      → first_page u + s * page_size < word_mod
      → page_index (first_page u + s * page_size) u ≡ s
  unfolding page_index sub32
  own_index u s room = rw (add32_small u.env.userh_hard_limit page_size (omega arith)) (omega arith)

  size_at : (i n : ℕ) (u : UserHeap B) → (set_size i n u).marked_page_size i ≡ n
  unfolding set_size
  size_at i n u = rw (eq→== i i refl) refl

  whole_pages :
      (size : ℕ)
      → 2048 < size
      → size ≤ user_heap_max
      → (round_up size page_size ≡ pages_of size * 4096) × (0 < pages_of size)
  unfolding round_up
  whole_pages size big fits = (omega arith, omega arith)

  module _ (u : UserHeap B) (total bytes n : ℕ) (pages : bytes ≡ n * 4096)
      (count : bytes / page_size ≡ n) (filled : 0 < n)
      (whole : first_page u + total * page_size ≡ user_heap_max) (few : total ≤ user_heap_pages)
      (tables : (i : ℕ)
        → i < total
        → Resident u.env.faulted.env_page_directory
            (first_page u + i * page_size)
            u.env.faulted.paging) where
    marked-Allocated :
        (s : ℕ)
        → s + n ≤ total
        → AllFree (is_free u) s n
        → ((s' : ℕ) → s' < s → ¬ AllFree (is_free u) s' n)
        → Returns (Allocated u n total) (marked bytes u (first_page u + s * page_size))
    unfolding marked set_size sys_allocate_user_mem with_faulted
    marked-Allocated s fits free first =
        let d = u.env.faulted.env_page_directory in
        let va = first_page u + s * page_size in
        let own = own_index u s (omega arith) in
        let checked = is_bad_range_lem va (n * 4096) (omega arith) (omega arith) (omega arith) in
        elim (Bool-cases (leb user_heap_max (va + n * 4096))) [
          | inl past ↦
              rw (own, count, pages, checked, past)
                (returns
                  (refused s (omega (arith, leb→le user_heap_max (va + n * 4096) past)) free first))
          | inr below ↦
              rw (own, count, pages, checked, below)
                (Returns-bind
                  (Returns-bind
                    {Then = λ r.
                      (k : Paging) × (r ≡ returned (record u.env.faulted { paging = k }))
                      × Marked d u.env.faulted.paging k
                      × ((i : ℕ) → i < n → is_free_page d (va + i * page_size) k ≡ ok false)}
                    (allocate_user_mem-Reserved kmalloc kernel d n (user_heap_pages + 1) va
                      u.env.faulted.paging (omega arith) (omega arith)
                      λ i h.
                        subst (λ x. Resident d x u.env.faulted.paging) (omega arith)
                          (tables (s + i) (omega arith)))
                    λ k (m, r). returns (k, refl, m, r))
                  λ r (k, same, m, taken). rw same (
                    returns (
                      placed s (omega (arith, leb→lt user_heap_max (va + n * 4096) below)) free
                        first (size_at s n u) taken m)))
        ]

  -- malloc of more than 2048 bytes, where the tables of all pages behind the block allocator's limit
  -- are in memory, comes to an end. It answers NULL only where as many pages in a row are not free,
  -- and then nothing has changed. Else the lowest address counts from which as many pages are free:
  -- if these are the last pages of the user heap, the environment has ended, and else the call
  -- answers that address; then their number is noted for free, none of them is free any more, and
  -- nothing but the marks of pages has changed in the page tables.
  pub malloc-Allocated :
      (size total : ℕ) (u : UserHeap B)
      → 2048 < size
      → size ≤ user_heap_max
      → first_page u + total * page_size ≡ user_heap_max
      → total ≤ user_heap_pages
      → ((i : ℕ)
          → i < total
          → Resident u.env.faulted.env_page_directory
              (first_page u + i * page_size)
              u.env.faulted.paging)
      → Returns (Allocated u (pages_of size) total) (
          malloc kmalloc kernel kfree pf_remove_env_page alloc_block_ff alloc_block_bf free_block
            size u)
  malloc-Allocated size total u big fits whole few tables =
      let (pages, filled) = whole_pages size big fits in
      rw (malloc-eq size u big, malloc_pages-eq size u)
        (Returns-bind
          (get_consecutive_free_pages-FirstFree (round_up size page_size) total u.env (is_free u)
            (omega arith) whole few
            λ i h.
              is_free_page-entry u.env.faulted.env_page_directory (first_page u + i * page_size)
                u.env.faulted.paging (tables i h))
          (go pages filled))
    where
      go :
          round_up size page_size ≡ pages_of size * 4096
          → 0 < pages_of size
          → (va : ℕ) → FirstFree (is_free u) (first_page u) total (pages_of size) va
          → Returns
              (Allocated u (pages_of size) total)
              (if va == 0 then ok (returned (0, u)) else marked (round_up size page_size) u va)
      go pages filled _ (nowhere none) = returns (full none)
      go pages filled _ (at s l free first) = rw (ne→== (first_page u + s * 4096) 0 (omega arith)) (
          marked-Allocated u total (round_up size page_size) (pages_of size) pages refl filled whole
            few tables s l free first)
