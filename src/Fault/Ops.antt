-- ===== src/Fault/Ops.antt =====
-- The page fault handler of kern/trap/fault_handler.c. `env_exit` does not return to its caller: it
-- ends a run of the handler with `exited`. allocate_frame and map_frame stop the kernel where they fail,
-- so the handler's tests of their results are left out.
use fos_fcis_operating_syste.Prelude.{
  ℕ, Bool, not, ◌&&◌, ◌||◌, [], ◌∷◌, ◌++◌, ltb, leb, ◌==◌, if◌then◌else◌, length, bit, page_size,
  Run, ok, panic, ◌>>=◌,
}
use fos_fcis_operating_syste.DynAlloc.{round_down}
use fos_fcis_operating_syste.Paging.{
  Paging, set_frame, get_page_table, get_frame_info, allocate_frame, free_frame, map_frame,
  unmap_frame, pt_set_page_permissions,
}
use fos_fcis_operating_syste.Fault.Defs.{
  WsElement, Faulted, Outcome, handled, exited, user_heap_start, user_heap_max, ustack_bottom,
  ustack_top, user_limit, set, is_negative, advance, find_victim,
}

-- The pages of the user heap and the user stack need not be in the page file.
unfoldable pub in_heap_or_stack : ℕ → Bool
in_heap_or_stack va =
    (ltb va user_heap_max && leb user_heap_start va) || (ltb va ustack_top && leb ustack_bottom va)

-- frame_info->addr_working_set_element = element
unfoldable pub set_element : ℕ → ℕ → Paging → Paging
unfolding set_frame
set_element f element k =
    set_frame f (record (k.frames_info f) { addr_working_set_element = element }) k

-- The page file of the environment, and the kernel heap, as the handler calls them:
-- `pf_read_env_page` tells whether the page is in the page file.
module _ (kmalloc : ℕ → Paging → Run (ℕ × Paging)) (kernel : ℕ)
    (pf_read_env_page : ℕ → Faulted → Run (Bool × Faulted))
    (pf_update_env_page : ℕ → ℕ → Faulted → Run Faulted) where
  -- A frame for the faulted page, and its contents. A page that has to be in the page file and is
  -- not ends the environment.
  unfoldable pub load_page : ℕ → Faulted → (ℕ → Faulted → Run Outcome) → Run Outcome
  load_page fault_va s next = allocate_frame s.paging >>= λ (f, k1).
      map_frame kmalloc kernel s.env_page_directory f fault_va 7 k1 >>= λ k2.
      pf_read_env_page fault_va (record s { paging = k2 }) >>= λ (in_file, s3).
      if not in_file && not (in_heap_or_stack fault_va)
      then ok (exited (record s3 { paging = free_frame f s3.paging }))
      else next f s3

  -- The victim goes: its page to the page file if it has been modified, its mark and its frame.
  unfoldable pub evict : ℕ → WsElement → ℕ → Faulted → Run Faulted
  evict max_sweeps e permissions s =
      let d = s.env_page_directory in
      let va = e.virtual_address in
      get_page_table d va s.paging >>= λ _. get_frame_info d va s.paging >>= λ (f, t).
      (if bit 6 permissions then pf_update_env_page va f s else ok s) >>= λ s1.
      let k2 = set_element f 0 s1.paging in
      (if is_negative max_sweeps
        then (unmap_frame d va k2 >>= pt_set_page_permissions d va 0 2048)
        else (pt_set_page_permissions d va 0 2048 k2 >>= unmap_frame d va))
      >>= λ k3. ok (record s1 { paging = k3 })

  -- The element of the victim becomes that of the faulted page.
  unfoldable pub occupy : ℕ → WsElement → ℕ → Faulted → Run Outcome
  occupy fault_va e f s =
      pt_set_page_permissions s.env_page_directory fault_va 2048 0 (set_element f e.node s.paging)
      >>= λ k. ok (
          handled (
            advance (record s {
              paging = k;
              page_ws_list =
                  set s.page_ws_list s.page_last_ws_element
                    (record e { virtual_address = fault_va; sweeps_counter = 0 });
            })))

  -- The replacement: with `fuel` rounds for the search of a victim.
  unfoldable pub replace : ℕ → ℕ → ℕ → Faulted → Run Outcome
  replace fuel max_sweeps fault_va s = find_victim fuel max_sweeps s >>= λ (s1, e, permissions).
      evict max_sweeps e permissions s1 >>= λ s2. load_page fault_va s2 (occupy fault_va e)

  -- The element that env_page_ws_list_create_element makes: `kmalloc` of a WorkingSetElement.
  unfoldable pub env_page_ws_list_create_element : ℕ → Paging → Run (WsElement × Paging)
  env_page_ws_list_create_element va k = kmalloc 24 k >>= λ (a, k1).
      if a == 0
      then panic
      else ok (
        record {
          node = a;
          virtual_address = round_down va page_size;
          time_stamp = 0;
          sweeps_counter = 0;
        },
        k1,
      )

  -- The placement: the page enters the working set at its end.
  unfoldable pub enlist_page : ℕ → ℕ → Faulted → Run Outcome
  enlist_page fault_va f s = env_page_ws_list_create_element fault_va s.paging >>= λ (e, k1).
      pt_set_page_permissions s.env_page_directory fault_va 2048 0 k1 >>= λ k2.
      let ws = s.page_ws_list ++ (e ∷ []) in
      ok (
        handled (record s {
          paging = set_element f e.node k2;
          page_ws_list = ws;
          page_last_ws_element =
              if length ws == s.page_ws_max_size then 0 else s.page_last_ws_element;
        }))

  unfoldable pub place : ℕ → Faulted → Run Outcome
  place fault_va s = load_page fault_va s (enlist_page fault_va)

  -- page_fault_handler
  unfoldable pub page_fault_handler : ℕ → ℕ → ℕ → Faulted → Run Outcome
  page_fault_handler fuel max_sweeps fault_va s =
      if ltb (length s.page_ws_list) s.page_ws_max_size
      then place fault_va s
      else replace fuel max_sweeps fault_va s

-- What the handler does to a page fault before it looks for the page: the environment ends, the
-- kernel panics, or the page is loaded.
pub data Verdict : Type 0 where
  ends : Verdict
  panics : Verdict
  loads : Verdict

-- The checks of fault_handler on a page fault: those of the pointer for a fault of user code, and
-- that the page is not present.
unfoldable pub check_fault : Bool → ℕ → ℕ → Verdict
unfolding bit
check_fault user_trap fault_va permissions =
    if user_trap && leb user_limit fault_va
    then ends
    else if user_trap
        && ((leb user_heap_start fault_va && ltb fault_va user_heap_max)
            && (not (bit 10 permissions) && not (bit 11 permissions)))
    then ends
    else if user_trap && (bit 0 permissions && not (bit 1 permissions))
    then ends
    else if bit 0 permissions
    then panics
    else loads
