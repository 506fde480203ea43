-- ===== src/UserHeap/Defs.antt =====
-- The kernel's side of the user heap: kern/mem/chunk_operations.c. A page is reserved where bit 10
-- of its entry is set, and has been faulted in where bit 11 is.
use fos_fcis_operating_syste.Prelude.{
  ℕ, zero, suc, ◌+◌, ◌-◌, ◌*◌, ◌/◌, ◌%◌, ◌^◌, Bool, true, not, ◌&&◌, ◌||◌, Option, none, some, List,
  [], ◌∷◌, ltb, leb, ◌==◌, if◌then◌else◌, length, word_mod, add32, sub32, bit, page_size, Run, ok,
  panic, out_of_fuel, ◌>>=◌,
}
use fos_fcis_operating_syste.Paging.{
  Paging, get_page_table, get_frame_info, create_page_table, unmap_frame, pt_get_page_permissions,
  pt_set_page_permissions,
}
use fos_fcis_operating_syste.Fault.{WsElement, Faulted, user_heap_max, is_negative, set_element}

-- What the user heap uses of an environment.
pub record UserEnv : Type 0 where
  pub faulted : Faulted
  pub userh_brk : ℕ
  pub userh_hard_limit : ℕ

abbrev pub minus_one : ℕ
minus_one = 2 ^ 32 - 1

-- The pages from USER_HEAP_START to USER_HEAP_MAX
abbrev pub user_heap_pages : ℕ
user_heap_pages = 131072

-- A page that is neither reserved nor faulted in.
unfoldable pub is_free_page : (d va : ℕ) → Paging → Run Bool
unfolding get_page_table pt_get_page_permissions bit
is_free_page d va k = get_page_table d va k >>= λ (present, t).
    if t == 0
    then ok true
    else (pt_get_page_permissions d va k >>= λ p. ok (not (bit 10 p) && not (bit 11 p)))

-- The loop of getConsecutiveFreePages: `count` free pages from `begin` stand before `page`.
unfoldable pub scan : (fuel d wanted page count begin : ℕ) → Paging → Run ℕ
unfolding is_free_page add32
scan zero d wanted page count begin k = out_of_fuel
scan (suc fuel) d wanted page count begin k =
    let next = is_free_page d page k >>= λ free.
    let count' = if free then count + 1 else 0 in
    let begin' = if free then if count == 0 then page else begin else 0 in
    let rest = scan fuel d wanted (add32 page page_size) count' begin' k in
    if leb wanted count' then ok begin' else rest in
    if ltb page user_heap_max then next else ok 0

-- getConsecutiveFreePages; NULL is 0
unfoldable pub get_consecutive_free_pages : ℕ → UserEnv → Run ℕ
unfolding scan add32
get_consecutive_free_pages size e =
    scan (user_heap_pages + 1) e.faulted.env_page_directory (size / page_size)
      (add32 e.userh_hard_limit page_size) 0 0 e.faulted.paging

-- The position of the element at an address, and the list without the element at a position.
unfoldable pub position : ℕ → List WsElement → Option ℕ
position a [] = none
position a (x ∷ xs) = let later = next (position a xs) in if x.node == a then some 0 else later
  where
    next : Option ℕ → Option ℕ
    next none = none
    next (some i) = some (suc i)

unfoldable pub remove_at : ℕ → List WsElement → List WsElement
remove_at i [] = []
remove_at zero (x ∷ xs) = xs
remove_at (suc i) (x ∷ xs) = x ∷ remove_at i xs

-- The hand, a position, after LIST_REMOVE of the element at `i`: from that element it has moved to
-- the next one, and from the last to the first.
unfoldable pub hand_without : (i hand size : ℕ) → ℕ
hand_without i hand size =
    if hand == i then if i + 1 == size then 0 else hand else if ltb i hand then hand - 1 else hand

-- LIST_REMOVE of an element; through a NULL it stops the kernel.
unfoldable pub remove_element : Option ℕ → Faulted → Run Faulted
unfolding remove_at hand_without
remove_element none s = panic
remove_element (some i) s = ok (record s {
  page_ws_list = remove_at i s.page_ws_list;
  page_last_ws_element = hand_without i s.page_last_ws_element (length s.page_ws_list);
})

module _ (kmalloc : ℕ → Paging → Run (ℕ × Paging)) (kernel : ℕ) where
  -- The page's table is created where it is not in memory, and the page is marked.
  unfoldable pub reserve_page : (d va : ℕ) → Paging → Run Paging
  unfolding get_page_table create_page_table pt_set_page_permissions
  reserve_page d va k = get_page_table d va k >>= λ (present, t).
      (if t == 0 then (create_page_table kmalloc kernel d va k >>= λ (t1, k1). ok k1) else ok k)
      >>= pt_set_page_permissions d va 1028 0

  -- The loop of sys_sbrk
  unfoldable pub reserve_pages : (fuel d va limit : ℕ) → Paging → Run Paging
  unfolding reserve_page add32
  reserve_pages zero d va limit k = out_of_fuel
  reserve_pages (suc fuel) d va limit k =
      let rest = reserve_page d va k >>= reserve_pages fuel d (add32 va page_size) limit in
      if ltb va limit then rest else ok k

  -- sys_sbrk, of the pattern of an `int`
  unfoldable pub sys_sbrk : ℕ → UserEnv → Run (ℕ × UserEnv)
  unfolding reserve_pages add32 sub32
  sys_sbrk n e =
      let limit = add32 e.userh_brk (n * page_size % word_mod) in
      let s = e.faulted in
      let grow = reserve_pages (n + 1) s.env_page_directory e.userh_brk limit s.paging >>= λ k.
      ok (e.userh_brk, record e { faulted = record s { paging = k }; userh_brk = limit }) in
      if is_negative n || (n == 0)
      then ok (e.userh_brk, e)
      else if leb e.userh_hard_limit (sub32 limit 1)
      then ok (minus_one, e)
      else grow

  -- allocate_user_mem
  unfoldable pub allocate_user_mem : (fuel d va size : ℕ) → Paging → Run Paging
  unfolding reserve_page add32 sub32
  allocate_user_mem zero d va size k = out_of_fuel
  allocate_user_mem (suc fuel) d va size k =
      let rest =
        reserve_page d va k
        >>= allocate_user_mem fuel d (add32 va page_size) (sub32 size page_size) in
      if size == 0 then ok k else rest

module _ (kfree : ℕ → Paging → Run Paging) (pf_remove_env_page : ℕ → Faulted → Run Faulted) where
  -- A page that is in memory leaves it, and its element leaves the working set.
  unfoldable pub drop_page : ℕ → Faulted → Run Faulted
  unfolding get_page_table get_frame_info unmap_frame remove_element position set_element
  drop_page va s =
      let d = s.env_page_directory in
      get_page_table d va s.paging >>= λ _. get_frame_info d va s.paging >>= λ (f, t).
      let element = (s.paging.frames_info f).addr_working_set_element in
      unmap_frame d va s.paging >>= λ k1.
      remove_element (position element s.page_ws_list) (record s { paging = k1 }) >>= λ s2.
      kfree element s2.paging >>= λ k3. ok (record s2 { paging = set_element f 0 k3 })

  -- A round of free_user_mem
  unfoldable pub free_user_page : ℕ → Faulted → Run Faulted
  unfolding drop_page pt_get_page_permissions pt_set_page_permissions bit
  free_user_page va s =
      let d = s.env_page_directory in
      let emptied = λ (p : ℕ).
        (if bit 0 p then drop_page va s else pf_remove_env_page va s) >>= λ s1.
        pt_set_page_permissions d va 0 2048 s1.paging >>= λ k. ok (record s1 { paging = k }) in
      pt_get_page_permissions d va s.paging >>= λ p.
      (if bit 11 p then emptied p else ok s) >>= λ s2.
      pt_set_page_permissions d va 0 1024 s2.paging >>= λ k. ok (record s2 { paging = k })

  -- free_user_mem
  unfoldable pub free_user_mem : (fuel va size : ℕ) → Faulted → Run Faulted
  unfolding free_user_page add32 sub32
  free_user_mem zero va size s = out_of_fuel
  free_user_mem (suc fuel) va size s =
      let rest =
        free_user_page va s >>= free_user_mem fuel (add32 va page_size) (sub32 size page_size) in
      if size == 0 then ok s else rest
