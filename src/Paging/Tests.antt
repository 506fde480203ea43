-- ===== src/Paging/Tests.antt =====
-- A page table with one page, and the theorems at it.
use fos_fcis_operating_syste.Prelude.{
  ℕ, ◌<◌, refl, [], ◌∷◌, ◌==◌, if◌then◌else◌, arith, ok, Run, ◌>>=◌, Returns, bit,
}
use fos_fcis_operating_syste.Paging.Defs.{Paging, get_page_table, get_frame_info, ptx}
use fos_fcis_operating_syste.Paging.Ops.{clean_frame, allocate_frame, map_frame, unmap_frame}
use fos_fcis_operating_syste.Paging.Mapping.{TableAt}
use fos_fcis_operating_syste.Paging.Unmapping.{Unmapped, unmap_frame-Unmapped}
use fos_fcis_operating_syste.Paging.Addresses.{Translates, map_frame-Translates}
use fos_fcis_operating_syste.Paging.Cycle.{Restored, unmap_frame-map_frame}

-- The first page of the kernel heap, and the one behind it; frame 7 is mapped at the second.
abbrev heap_page : ℕ
heap_page = 0xF6000000

abbrev second_page : ℕ
second_page = 0xF6001000

abbrev heap_table : ℕ
heap_table = 0xF0005000

abbrev small_paging : Paging
small_paging = record {
  directory = λ d i. 0x5003;
  table = λ t i. if i == 1 then 0x7003 else 0x400;
  frames_info = λ f. if f == 7 then record clean_frame { references = 1 } else clean_frame;
  number_of_frames = 100;
  free_frame_list = 8 ∷ 9 ∷ [];
  env_page_directory = λ e. 1;
}

-- No page table has to be made.
abbrev no_heap : ℕ → Paging → Run (ℕ × Paging)
no_heap size k = ok (0, k)

heap_page-TableAt : TableAt 1 heap_page heap_table small_paging
unfolding get_page_table
heap_page-TableAt = (refl, omega arith)

second_page-TableAt : TableAt 1 second_page heap_table small_paging
unfolding get_page_table
second_page-TableAt = (refl, omega arith)

map_frame-Translates_example :
    Returns
      (λ k'. (o : ℕ) → o < 4096 → Translates 1 heap_page 8 o k')
      (map_frame no_heap 1 1 8 heap_page 3 small_paging)
unfolding bit ptx
map_frame-Translates_example =
    map_frame-Translates no_heap 1 1 heap_page 8 3 heap_table small_paging heap_page-TableAt
      (omega arith) (omega arith) (omega arith) (omega arith) (omega arith) refl (omega arith) refl
      (omega arith)

unmap_frame-Unmapped_example :
    Returns
      (Unmapped 1 second_page 7 heap_table small_paging)
      (unmap_frame 1 second_page small_paging)
unfolding get_frame_info
unmap_frame-Unmapped_example =
    unmap_frame-Unmapped 1 second_page 7 heap_table small_paging second_page-TableAt (omega arith)
      (omega arith) refl (omega arith) (omega arith)

unmap_frame-map_frame_example : Returns (Restored 1 heap_page 8 heap_table (9 ∷ []) small_paging) (
    allocate_frame small_paging >>= λ (f, k1).
    map_frame no_heap 1 1 f heap_page 3 k1 >>= unmap_frame 1 heap_page)
unfolding bit ptx
unmap_frame-map_frame_example =
    unmap_frame-map_frame 1 heap_page 8 heap_table (9 ∷ []) small_paging no_heap 1 3
      heap_page-TableAt (omega arith) refl refl (omega arith) (omega arith) (omega arith)
      (omega arith) refl
