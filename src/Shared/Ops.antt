-- ===== src/Shared/Ops.antt =====
-- createSharedObject, getSharedObject and freeSharedObject of kern/mem/shared_memory_manager.c.
use fos_fcis_operating_syste.Prelude.{
  ℕ, zero, suc, ◌+◌, ◌/◌, Bool, true, ◌&&◌, Option, none, some, List, ◌∷◌, ltb, ◌==◌, if◌then◌else◌,
  length, add32, sub32, page_size, Run, ok, panic, ◌>>=◌,
}
use fos_fcis_operating_syste.Paging.{
  Paging, get_page_table, create_page_table, allocate_frame, map_frame, unmap_frame,
  pt_set_page_permissions, pd_clear_page_dir_entry,
}
use fos_fcis_operating_syste.Shared.Defs.{
  Share, Sharing, e_no_share, e_shared_mem_exists, e_shared_mem_not_exists, get_share, find_id,
  set_share, remove_share, create_share,
}

module _ (kmalloc : ℕ → Paging → Run (ℕ × Paging)) (kernel : ℕ)
    (kfree : ℕ → Paging → Run Paging) where
  -- The page's table is created where it is not in memory.
  unfoldable pub ensure_table : (d va : ℕ) → Paging → Run Paging
  ensure_table d va k = get_page_table d va k >>= λ (present, t).
      if t == 0 then (create_page_table kmalloc kernel d va k >>= λ (t1, k1). ok k1) else ok k

  -- The loop of createSharedObject: `left` pages from `va` get frames, which the object `v` stores
  -- from `i` on.
  unfoldable pub back_share : (left i va : ℕ) → Share → Sharing → Run (Share × Sharing)
  back_share zero i va v s = ok (v, s)
  back_share (suc left) i va v s =
      ensure_table s.env_page_directory va s.paging >>= allocate_frame >>= λ (f, k1).
      map_frame kmalloc kernel s.env_page_directory f va 2055 k1 >>= λ k2.
      back_share left (i + 1) (add32 va page_size)
        (record v { frames_storage = λ j. if j == i then f else v.frames_storage j })
        (record s { paging = k2 })

  -- The new object is in the list before its pages have frames, also where they cannot get any.
  unfoldable pub register : (size va : ℕ) → Sharing → Option Share → Run (ℕ × Sharing)
  register size va s none = ok (e_no_share, s)
  register size va s (some v) =
      let s1 = record s { shares_list = v ∷ s.shares_list } in
      let backed =
        back_share (size / page_size) 0 va v s1 >>= λ (v1, s2). ok (v1.id, set_share v1 s2) in
      if ltb (length s.paging.free_frame_list) (size / page_size)
      then ok (e_no_share, s1)
      else backed

  unfoldable pub create_new :
      (owner : ℕ) (name : List ℕ) (size writable va : ℕ)
      → Sharing
      → Option Share
      → Run (ℕ × Sharing)
  create_new owner name size writable va s (some x) = ok (e_shared_mem_exists, s)
  create_new owner name size writable va s none =
      create_share kmalloc kfree owner name size writable s.paging >>= λ (v, k).
      register size va (record s { paging = k }) v

  -- createSharedObject
  unfoldable pub create_shared_object :
      (owner : ℕ) (name : List ℕ) (size writable va : ℕ) → Sharing → Run (ℕ × Sharing)
  create_shared_object owner name size writable va s =
      create_new owner name size writable va s (get_share owner name s)

  -- The loop of getSharedObject
  unfoldable pub map_share : (left i va : ℕ) → Share → Sharing → Run Sharing
  map_share zero i va v s = ok s
  map_share (suc left) i va v s = ensure_table s.env_page_directory va s.paging >>= λ k1.
      map_frame kmalloc kernel s.env_page_directory (v.frames_storage i) va
        (if v.is_writable == 1 then 2055 else 2053) k1
      >>= λ k2. map_share left (i + 1) (add32 va page_size) v (record s { paging = k2 })

  unfoldable pub join_share : ℕ → Sharing → Option Share → Run (ℕ × Sharing)
  join_share va s none = ok (e_shared_mem_not_exists, s)
  join_share va s (some v) = map_share (v.size / page_size) 0 va v s >>= λ s1.
      ok (v.id, set_share (record v { references = add32 v.references 1 }) s1)

  -- getSharedObject
  unfoldable pub get_shared_object : (owner : ℕ) → List ℕ → ℕ → Sharing → Run (ℕ × Sharing)
  get_shared_object owner name va s = join_share va s (get_share owner name s)

  -- free_share
  unfoldable pub free_share : Share → Sharing → Run Sharing
  free_share v s =
      let s1 = record s { shares_list = remove_share v.node s.shares_list } in
      (if v.storage == 0 then ok s1.paging else kfree v.storage s1.paging) >>= kfree v.node >>= λ k.
      ok (record s1 { paging = k })

  -- No entry of the table is used.
  unfoldable pub is_empty_table : (n t : ℕ) → Paging → Bool
  is_empty_table zero t k = true
  is_empty_table (suc n) t k = let rest = is_empty_table n t k in (k.table t n == 0) && rest

  -- A round of freeSharedObject: a page goes, and its table if it is then empty.
  unfoldable pub unshare_page : (d va : ℕ) → Paging → Run Paging
  unshare_page d va k = pt_set_page_permissions d va 0 0xE00 k >>= unmap_frame d va >>= λ k1.
      get_page_table d va k1 >>= λ (present, t).
      if t == 0
      then ok k1
      else if is_empty_table 1024 t k1
      then (kfree t k1 >>= λ k2. ok (pd_clear_page_dir_entry d va k2))
      else ok k1

  unfoldable pub unshare_pages : (left d va : ℕ) → Paging → Run Paging
  unshare_pages zero d va k = ok k
  unshare_pages (suc left) d va k =
      unshare_page d va k >>= unshare_pages left d (add32 va page_size)

  -- Without an object of that ID the source goes on with a pointer that has no value; the model stops.
  unfoldable pub leave_share : ℕ → Sharing → Option Share → Run (ℕ × Sharing)
  leave_share va s none = panic
  leave_share va s (some v) =
      unshare_pages (v.size / page_size) s.env_page_directory va s.paging >>= λ k.
      let v1 = record v { references = sub32 v.references 1 } in
      let s1 = set_share v1 (record s { paging = k }) in
      if v1.references == 0 then (free_share v1 s1 >>= λ s2. ok (0, s2)) else ok (0, s1)

  -- freeSharedObject
  unfoldable pub free_shared_object : (id va : ℕ) → Sharing → Run (ℕ × Sharing)
  free_shared_object id va s = leave_share va s (find_id id s.shares_list)
