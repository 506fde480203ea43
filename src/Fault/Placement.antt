-- ===== src/Fault/Placement.antt =====
-- The placement of kern/trap/fault_handler.c: the faulted page is in memory and in the working set.
use fos_fcis_operating_syste.Prelude.{
  ℕ, ◌+◌, ◌%◌, ◌^◌, ◌<◌, ◌≡◌, refl, ap, ◌∙◌, ◌≢◌, Bool, true, false, not, ◌&&◌, ◌||◌, List, [], ◌∷◌,
  ◌++◌, length, ◌==◌, if◌then◌else◌, arith, word_mod, ne→==, lt→ltb, bit, page_size, ok, Run,
  Returns, returns, Returns-bind,
}
use fos_fcis_operating_syste.DynAlloc.{round_down}
use fos_fcis_operating_syste.Paging.{
  Frame, Paging, ptx, set_frame, get_frame_info, clean_frame, pt_get_page_permissions,
}
use fos_fcis_operating_syste.Paging.Tables.{table_frame, get_page_table-set_frame, frame_at}
use fos_fcis_operating_syste.Paging.Mapping.{TableAt, map_frame-Linked}
use fos_fcis_operating_syste.Paging.Unmapping.{with_free}
use fos_fcis_operating_syste.Paging.Cycle.{
  allocate_frame_lem, TableAt-allocated, pt_set_page_permissions-Changed,
}
use fos_fcis_operating_syste.Fault.Defs.{Faulted, Outcome, handled}
use fos_fcis_operating_syste.Fault.Ops.{
  in_heap_or_stack, set_element, load_page, env_page_ws_list_create_element, enlist_page, place,
  page_fault_handler,
}
use fos_fcis_operating_syste.Fault.PageFile.{pf_read_env_page, pf_read_env_page-Filled}
use fos_fcis_operating_syste.Fault.Entries.{
  get_frame_info_same, pt_get_page_permissions-set_frame, Filled, Linked-Filled, entry_bit,
  marks_present, marks_writeable, marks_user, marks_faulted,
}

-- A run of the handler that comes back.
pub data Handled (P : Faulted → Type 0) : Outcome → Type 0 where
  back : {s : Faulted} → P s → Handled P (handled s)

-- The page at `va` is in the frame `f`, which was free, and last in the working set.
pub record PageIn (va f t node : ℕ) (fs : List ℕ) (s s' : Faulted) : Type 0 where
  pub found : get_frame_info s.env_page_directory va s'.paging ≡ ok (f, t)
  pub permissions : ℕ
  pub shown : pt_get_page_permissions s.env_page_directory va s'.paging ≡ ok permissions
  pub present : bit 0 permissions ≡ true
  pub writeable : bit 1 permissions ≡ true
  pub user : bit 2 permissions ≡ true
  pub faulted_in : bit 11 permissions ≡ true
  pub frame :
      s'.paging.frames_info f
      ≡ record clean_frame { references = 1; base_va_page = va; addr_working_set_element = node }
  pub free_frame_list : s'.paging.free_frame_list ≡ fs
  pub working_set :
      s'.page_ws_list
      ≡ s.page_ws_list
        ++ (record {
          node = node;
          virtual_address = round_down va page_size;
          time_stamp = 0;
          sweeps_counter = 0;
        }
            ∷ [])
  pub hand :
      s'.page_last_ws_element
      ≡ (if length s'.page_ws_list == s.page_ws_max_size then 0 else s.page_last_ws_element)

module _ (kmalloc : ℕ → Paging → Run (ℕ × Paging)) (kernel : ℕ) (in_page_file : ℕ → Bool)
    (pf_update_env_page : ℕ → ℕ → Faulted → Run Faulted) where
  place-eq :
      (fuel max_sweeps va : ℕ) (s : Faulted)
      → length s.page_ws_list < s.page_ws_max_size
      → page_fault_handler kmalloc kernel
          (pf_read_env_page in_page_file)
          pf_update_env_page
          fuel
          max_sweeps
          va
          s
        ≡ load_page kmalloc kernel
            (pf_read_env_page in_page_file)
            pf_update_env_page
            va
            s
            (enlist_page kmalloc kernel (pf_read_env_page in_page_file) pf_update_env_page va)
  unfolding page_fault_handler place
  place-eq fuel max_sweeps va s room =
      rw (lt→ltb (length s.page_ws_list) s.page_ws_max_size room) refl

  module _ (va f t node : ℕ) (fs : List ℕ) (s : Faulted) (word : va < word_mod)
      (at : TableAt s.env_page_directory va t s.paging)
      (own : table_frame s.env_page_directory va s.paging ≢ f)
      (free : s.paging.free_frame_list ≡ f ∷ fs)
      (plain : (s.paging.frames_info f).is_buffered ≡ false) (nz : f ≢ 0)
      (inside : f < s.paging.number_of_frames) (fits : f < 2 ^ 20)
      (absent : bit 0 (s.paging.table t (ptx va)) ≡ false)
      (block : (k : Paging) → kmalloc 24 k ≡ ok (node, k)) (node_nz : node ≢ 0) where
    abbrev k1 : Paging
    k1 = set_frame f clean_frame (with_free fs s.paging)

    enlist_page-PageIn :
        (k2 : Paging)
        → Filled s.env_page_directory va f t k1 k2
        → Returns (Handled (PageIn va f t node fs s)) (
            enlist_page kmalloc kernel
              (pf_read_env_page in_page_file)
              pf_update_env_page
              va
              f
              (record s { paging = k2 }))
    unfolding enlist_page env_page_ws_list_create_element set_element
    enlist_page-PageIn k2 l =
        let d = s.env_page_directory in
        rw (block k2, ne→== node 0 node_nz)
          (Returns-bind
            (pt_set_page_permissions-Changed d va t 2048 0 k2 l.table (omega arith) (omega arith)
              l.word)
            λ k3 c.
              let own3 : table_frame d va k3 ≢ f = rw (c.directory, l.directory) own in
              let v : Frame = record (k3.frames_info f) { addr_working_set_element = node } in
              let at3 : TableAt d va t (set_frame f v k3) =
                (get_page_table-set_frame k3 f v d va own3 ∙ c.located d va ∙ l.table.0, at.1) in
              returns (
                back (record {
                  found =
                      get_frame_info_same d va t f (set_frame f v k3) at3 (c.frame ∙ l.page) nz
                        (omega (arith, c.number_of_frames, l.number_of_frames));
                  permissions = k3.table t (ptx va) % 4096;
                  shown = pt_get_page_permissions-set_frame d va f v k3 own3 ∙ c.permissions;
                  present = entry_bit d va f t 0 k1 k2 k3 (omega arith) l c marks_present;
                  writeable = entry_bit d va f t 1 k1 k2 k3 (omega arith) l c marks_writeable;
                  user = entry_bit d va f t 2 k1 k2 k3 (omega arith) l c marks_user;
                  faulted_in = entry_bit d va f t 11 k1 k2 k3 (omega arith) l c marks_faulted;
                  frame =
                      frame_at k3 f v
                      ∙ ap (λ (m : ℕ → Frame). record (m f) { addr_working_set_element = node })
                          c.frames
                      ∙ ap (λ (x : Frame). record x { addr_working_set_element = node }) l.frame
                      ∙ ap
                          (λ (x : Frame). record x {
                            references = (x.references + 1) % 65536;
                            base_va_page = va;
                            addr_working_set_element = node;
                          })
                          (frame_at (with_free fs s.paging) f clean_frame);
                  free_frame_list = c.free_frame_list ∙ l.free_frame_list;
                  working_set = refl;
                  hand = refl;
                })))

    load_page-PageIn :
        (not (in_page_file (round_down va page_size)) && not (in_heap_or_stack va)) ≡ false
        → Returns (Handled (PageIn va f t node fs s)) (
            load_page kmalloc kernel
              (pf_read_env_page in_page_file)
              pf_update_env_page
              va
              s
              (enlist_page kmalloc kernel (pf_read_env_page in_page_file) pf_update_env_page va))
    unfolding load_page set_frame
    load_page-PageIn stays = rw (allocate_frame_lem f fs s.paging free plain) (
        Returns-bind
          (map_frame-Linked s.env_page_directory va f 7 t k1
            (TableAt-allocated s.env_page_directory va f t fs s.paging at own) own nz inside fits
            (omega arith) kmalloc kernel absent)
          λ k2 l.
            Returns-bind
              (pf_read_env_page-Filled in_page_file va f t k1 k2 s word (Linked-Filled fits l))
              λ (found, s3) (same, k3, read, filled).
                rw (same, stays, read) (enlist_page-PageIn k3 filled))

    -- A page fault at a page that is not present and whose table is in memory, while the working
    -- set is not full, a frame is free and kmalloc hands out an element without a change of the
    -- page tables: the handler comes back if pf_read_env_page finds the page in the page file or if
    -- it belongs to the heap or the stack. The first free frame is not the one of the table. The
    -- page then is in that frame, present, writeable, open to the user and marked as faulted in,
    -- the frame knows the page and its element, and the element is the last of the working set,
    -- whose hand is at its first element if it is full.
    pub page_fault_handler-PageIn :
        (fuel max_sweeps : ℕ)
        → length s.page_ws_list < s.page_ws_max_size
        → (in_page_file (round_down va page_size) || in_heap_or_stack va) ≡ true
        → Returns (Handled (PageIn va f t node fs s)) (
            page_fault_handler kmalloc kernel
              (pf_read_env_page in_page_file)
              pf_update_env_page
              fuel
              max_sweeps
              va
              s)
    page_fault_handler-PageIn fuel max_sweeps room allowed =
        rw (place-eq fuel max_sweeps va s room) (
          load_page-PageIn
            (guard (in_page_file (round_down va page_size)) (in_heap_or_stack va) allowed))
      where
        guard : (a b : Bool) → (a || b) ≡ true → (not a && not b) ≡ false
        guard true b e = refl
        guard false true e = refl
        guard false false e = cc
