-- ===== src/Paging/Ops.antt =====
-- The operations of kern/mem/memory_manager.c and kern/mem/paging_helpers.c that change page tables
-- and frames.
use fos_fcis_operating_syste.Prelude.{
  ℕ, ◌+◌, ◌-◌, ◌*◌, ◌/◌, ◌%◌, Bool, false, List, [], ◌∷◌, ◌==◌, if◌then◌else◌, word_mod, or32,
  clear32, bit, page_size, Run, ok, panic, ◌>>=◌,
}
use fos_fcis_operating_syste.Paging.Defs.{
  Frame, Paging, perm_present, pdx, ptx, write_entry, extract_address, set_entry, set_frame,
  to_physical_address, kheap_physical_address, get_page_table, get_frame_info, table_address,
}

-- initialize_frame_info
abbrev pub clean_frame : Frame
clean_frame = record {
  references = 0;
  base_va_page = 0;
  addr_working_set_element = 0;
  proc = 0;
  buffered_va = 0;
  is_buffered = false;
}

-- pt_set_page_permissions
unfoldable pub pt_set_page_permissions : ℕ → ℕ → ℕ → ℕ → Paging → Run Paging
unfolding get_page_table set_entry ptx or32 clear32
pt_set_page_permissions d va set clear k = get_page_table d va k >>= λ (present, t).
    if t == 0
    then panic
    else ok (set_entry t (ptx va) (clear32 (or32 (k.table t (ptx va)) set) clear) k)

-- pt_get_page_permissions
unfoldable pub pt_get_page_permissions : ℕ → ℕ → Paging → Run ℕ
unfolding get_page_table ptx
pt_get_page_permissions d va k = get_page_table d va k >>= λ (present, t).
    ok (if t == 0 then word_mod - 1 else k.table t (ptx va) % 4096)

-- pt_clear_page_table_entry
unfoldable pub pt_clear_page_table_entry : ℕ → ℕ → Paging → Run Paging
unfolding get_page_table set_entry ptx
pt_clear_page_table_entry d va k = get_page_table d va k >>= λ (present, t).
    if t == 0 then panic else ok (set_entry t (ptx va) 0 k)

-- pd_is_table_used, pd_set_table_unused and pd_clear_page_dir_entry
unfoldable pub pd_is_table_used : ℕ → ℕ → Paging → Bool
unfolding pdx bit
pd_is_table_used d va k = bit 5 (k.directory d (pdx va))

unfoldable pub set_directory : ℕ → ℕ → ℕ → Paging → Paging
unfolding write_entry
set_directory d i v k = record k { directory = write_entry k.directory d i v }

unfoldable pub pd_set_table_unused : ℕ → ℕ → Paging → Paging
unfolding set_directory pdx clear32
pd_set_table_unused d va k = set_directory d (pdx va) (clear32 (k.directory d (pdx va)) 0x20) k

unfoldable pub pd_clear_page_dir_entry : ℕ → ℕ → Paging → Paging
unfolding set_directory pdx
pd_clear_page_dir_entry d va k = set_directory d (pdx va) 0 k

-- allocate_frame
unfoldable pub take_frame : List ℕ → Paging → Run (ℕ × Paging)
unfolding pt_clear_page_table_entry set_frame
take_frame [] k = panic
take_frame (f ∷ fs) k =
    let info = k.frames_info f in
    let k1 = record k { free_frame_list = fs } in
    (if info.is_buffered
      then pt_clear_page_table_entry (k.env_page_directory info.proc) info.buffered_va k1
      else ok k1)
    >>= λ k2. ok (f, set_frame f clean_frame k2)

unfoldable pub allocate_frame : Paging → Run (ℕ × Paging)
unfolding take_frame
allocate_frame k = take_frame k.free_frame_list k

-- free_frame
unfoldable pub free_frame : ℕ → Paging → Paging
unfolding set_frame
free_frame f k = set_frame f clean_frame (record k { free_frame_list = f ∷ k.free_frame_list })

-- decrement_references, of a 16-bit counter
unfoldable pub decrement_references : ℕ → Paging → Paging
unfolding set_frame free_frame
decrement_references f k =
    let info = k.frames_info f in
    let left = (info.references + 65535) % 65536 in
    let k1 = set_frame f (record info { references = left }) k in
    if left == 0 then free_frame f k1 else k1

-- unmap_frame
unfoldable pub unmap_frame : ℕ → ℕ → Paging → Run Paging
unfolding get_frame_info decrement_references set_entry set_frame clear32 ptx
unmap_frame d va k = get_frame_info d va k >>= λ (f, t).
    if f == 0
    then ok k
    else (let k1 = decrement_references f k in
        let kept = k1.table t (ptx va) / 512 % 8 * 512 in
        let k2 = set_entry t (ptx va) kept k1 in
        ok (set_frame f (record (k2.frames_info f) { base_va_page = 0 }) k2))

-- create_page_table; `kmalloc` hands out a page of the kernel heap, or 0.
unfoldable pub create_page_table :
    (ℕ → Paging → Run (ℕ × Paging)) → ℕ → ℕ → ℕ → Paging → Run (ℕ × Paging)
unfolding kheap_physical_address or32 set_directory pdx
create_page_table kmalloc kernel d va k = kmalloc page_size k >>= λ (t, k1).
    if t == 0
    then panic
    else kheap_physical_address kernel t k1 >>= λ pa.
        let k2 = set_directory d (pdx va) (or32 pa 7) k1 in
        ok (t, record k2 { table = λ t' i. if t' == t then 0 else k2.table t' i })

-- The frame `f` enters the entry of `va` in the table at `t`, with the software bits that it has.
unfoldable pub link_frame : ℕ → ℕ → ℕ → ℕ → Paging → Paging
unfolding set_frame set_entry to_physical_address or32 ptx
link_frame f va perm t k =
    let info = k.frames_info f in
    let k1 =
      set_frame f (record info { references = (info.references + 1) % 65536; base_va_page = va })
        k in
    let available = k1.table t (ptx va) / 512 % 8 * 512 in
    set_entry t (ptx va) (or32 (to_physical_address f) (or32 (or32 available perm) perm_present)) k1

-- map_frame with the table at `t`
unfoldable pub map_in_table : ℕ → ℕ → ℕ → ℕ → ℕ → Paging → Run Paging
unfolding unmap_frame link_frame extract_address to_physical_address bit ptx
map_in_table d f va perm t k =
    let entry = k.table t (ptx va) in
    if bit 0 entry
    then if extract_address entry == to_physical_address f
      then ok k
      else (unmap_frame d va k >>= λ k1. ok (link_frame f va perm t k1))
    else ok (link_frame f va perm t k)

-- map_frame
unfoldable pub map_frame : (ℕ → Paging → Run (ℕ × Paging)) → ℕ → ℕ → ℕ → ℕ → ℕ → Paging → Run Paging
unfolding get_page_table create_page_table map_in_table
map_frame kmalloc kernel d f va perm k = get_page_table d va k >>= λ (present, t).
    (if present then ok (t, k) else create_page_table kmalloc kernel d va k) >>= λ (t1, k1).
    map_in_table d f va perm t1 k1

-- loadtime_map_frame: the table's address is computed before the entry is looked at.
unfoldable pub loadtime_map_frame :
    (ℕ → Paging → Run (ℕ × Paging)) → ℕ → ℕ → ℕ → ℕ → ℕ → Paging → Run Paging
unfolding table_address create_page_table set_frame set_entry to_physical_address or32 pdx ptx
loadtime_map_frame kmalloc kernel d f va perm k =
    let entry = k.directory d (pdx va) in
    table_address va entry k >>= λ t.
    (if entry == 0 then create_page_table kmalloc kernel d va k else ok (t, k)) >>= λ (t1, k1).
    let info = k1.frames_info f in
    let k2 = set_frame f (record info { references = (info.references + 1) % 65536 }) k1 in
    ok (set_entry t1 (ptx va) (or32 (to_physical_address f) (or32 perm perm_present)) k2)
