-- ===== src/Paging/Defs.antt =====
-- Page tables and frames: kern/mem/memory_manager.c, kern/mem/paging_helpers.c, and the address
-- translation of kern/mem/kheap.c. A frame stands for its `struct FrameInfo`; frame 0 is never
-- handed out, and 0 is the NULL pointer. The frames' lock is not part of the state.
use fos_fcis_operating_syste.Prelude.{
  ℕ, ◌*◌, ◌/◌, ◌%◌, ◌^◌, Bool, true, false, ◌&&◌, List, ltb, leb, ◌==◌, if◌then◌else◌, word_mod,
  add32, sub32, bit, page_size, Run, ok, panic, ◌>>=◌,
}

-- struct FrameInfo, without its links
pub record Frame : Type 0 where
  pub references : ℕ
  pub base_va_page : ℕ
  pub addr_working_set_element : ℕ
  pub proc : ℕ
  pub buffered_va : ℕ
  pub is_buffered : Bool

-- `directory d i` is `d[i]` of the page directory at `d`, `table t i` that of the page table at `t`;
-- the list of the free frames holds their numbers, its first element first.
pub record Paging : Type 0 where
  pub directory : ℕ → ℕ → ℕ
  pub table : ℕ → ℕ → ℕ
  pub frames_info : ℕ → Frame
  pub number_of_frames : ℕ
  pub free_frame_list : List ℕ
  pub env_page_directory : ℕ → ℕ

-- KERNEL_BASE and USER_TOP of inc/memlayout.h
abbrev pub kernel_base : ℕ
kernel_base = 0xF0000000

abbrev pub user_top : ℕ
user_top = 0xEEC00000

-- PERM_PRESENT, PERM_WRITEABLE, PERM_USER and PERM_AVAILABLE of inc/mmu.h
abbrev pub perm_present : ℕ
perm_present = 1

abbrev pub perm_writeable : ℕ
perm_writeable = 2

abbrev pub perm_user : ℕ
perm_user = 4

abbrev pub perm_available : ℕ
perm_available = 0xE00

-- PDX, PTX and EXTRACT_ADDRESS
unfoldable pub pdx : ℕ → ℕ
pdx va = va / 2 ^ 22 % 1024

unfoldable pub ptx : ℕ → ℕ
ptx va = va / 2 ^ 12 % 1024

unfoldable pub extract_address : ℕ → ℕ
extract_address entry = entry / 4096 * 4096

-- The write `t[i] = v` of an array of arrays.
unfoldable pub write_entry : (ℕ → ℕ → ℕ) → ℕ → ℕ → ℕ → ℕ → ℕ → ℕ
write_entry m t i v t' i' = if (t' == t) && (i' == i) then v else m t' i'

unfoldable pub write_frame : (ℕ → Frame) → ℕ → Frame → ℕ → Frame
write_frame m f v f' = if f' == f then v else m f'

unfoldable pub set_entry : ℕ → ℕ → ℕ → Paging → Paging
unfolding write_entry
set_entry t i v k = record k { table = write_entry k.table t i v }

unfoldable pub set_frame : ℕ → Frame → Paging → Paging
unfolding write_frame
set_frame f v k = record k { frames_info = write_frame k.frames_info f v }

-- to_physical_address
unfoldable pub to_physical_address : ℕ → ℕ
to_physical_address f = f * 4096 % word_mod

-- to_frame_info
unfoldable pub to_frame_info : ℕ → Paging → Run ℕ
to_frame_info pa k = if leb k.number_of_frames (pa / 4096) then panic else ok (pa / 4096)

-- kheap_virtual_address
unfoldable pub kheap_virtual_address : ℕ → Paging → Run ℕ
unfolding to_frame_info add32 sub32
kheap_virtual_address pa k = to_frame_info pa k >>= λ f.
    if (k.frames_info f).references == 0
    then ok 0
    else ok (add32 (k.frames_info f).base_va_page (sub32 pa (f * page_size % word_mod)))

-- STATIC_KERNEL_VIRTUAL_ADDRESS
unfoldable pub static_kernel_virtual_address : ℕ → Paging → Run ℕ
unfolding add32
static_kernel_virtual_address pa k =
    if leb k.number_of_frames (pa / 4096) then panic else ok (add32 pa kernel_base)

-- Where the table of a directory entry is: in the kernel heap, or at its address in kernel space.
unfoldable pub table_address : ℕ → ℕ → Paging → Run ℕ
unfolding kheap_virtual_address static_kernel_virtual_address extract_address
table_address va entry k =
    if ltb va user_top
    then kheap_virtual_address (extract_address entry) k
    else static_kernel_virtual_address (extract_address entry) k

-- get_page_table: whether the table is in memory, and its address. For a table that is on the disk
-- the source calls fault_handler(NULL), which reads its trap frame through that NULL; no code here
-- writes such an entry, and the model stops.
unfoldable pub get_page_table : ℕ → ℕ → Paging → Run (Bool × ℕ)
unfolding pdx bit table_address
get_page_table d va k =
    let entry = k.directory d (pdx va) in
    if bit 0 entry
    then (table_address va entry k >>= λ t. ok (true, t))
    else if entry == 0
    then ok (false, 0)
    else panic

-- get_frame_info, with the table that it stores
unfoldable pub get_frame_info : ℕ → ℕ → Paging → Run (ℕ × ℕ)
unfolding get_page_table extract_address to_frame_info ptx
get_frame_info d va k = get_page_table d va k >>= λ (present, t).
    let entry = k.table t (ptx va) in
    if t == 0
    then ok (0, t)
    else if extract_address entry == 0
    then ok (0, t)
    else to_frame_info (extract_address entry) k >>= λ f. ok (f, t)

-- kheap_physical_address, of the kernel's directory `d`
unfoldable pub kheap_physical_address : ℕ → ℕ → Paging → Run ℕ
unfolding get_frame_info add32
kheap_physical_address d va k = get_page_table d va k >>= λ _. get_frame_info d va k >>= λ (f, t).
    ok (if f == 0 then 0 else add32 (f * page_size % word_mod) (va % 4096))
