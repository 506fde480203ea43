-- ===== src/UserHeap/Tests.antt =====
-- A user heap of four pages, the first reserved, and the theorems at it.
use fos_fcis_operating_syste.Prelude.{
  ℕ, zero, suc, ◌+◌, ◌*◌, ◌/◌, ◌≡◌, ◌<◌, refl, Bool, true, false, not, [], ◌==◌, if◌then◌else◌,
  arith, ok, panic, bit, ltb, lt→ltb, ◌^◌, Returns, page_size,
}
use fos_fcis_operating_syste.Paging.{Paging, clean_frame, get_page_table, ptx}
use fos_fcis_operating_syste.Fault.Clock.{Resident}
use fos_fcis_operating_syste.UserHeap.Defs.{UserEnv, is_free_page, get_consecutive_free_pages}
use fos_fcis_operating_syste.UserHeap.Ops.{UserHeap, malloc}
use fos_fcis_operating_syste.UserHeap.Search.{FirstFree, get_consecutive_free_pages-FirstFree}
use fos_fcis_operating_syste.UserHeap.Malloc.{Allocated, pages_of, malloc-Allocated}

abbrev heap_paging : Paging
heap_paging = record {
  directory = λ d i. 0x5007;
  table = λ t i. if i == 1020 then 0x404 else 0;
  frames_info = λ f.
      if f == 5
      then record clean_frame { references = 1; base_va_page = 0xF6000000 }
      else clean_frame;
  number_of_frames = 100;
  free_frame_list = [];
  env_page_directory = λ e. 1;
}

abbrev four_pages : UserEnv
four_pages = record {
  faulted = record {
    paging = heap_paging;
    env_page_directory = 1;
    page_ws_list = [];
    page_ws_max_size = 10;
    page_last_ws_element = 0;
  };
  userh_brk = 0x80001000;
  userh_hard_limit = 0x9FFFB000;
}

abbrev small_heap : UserHeap ℕ
small_heap = record {
  env = four_pages;
  blocks = 0;
  first_fit = true;
  best_fit = false;
  marked_page_size = λ i. 0;
}

abbrev free_four : ℕ → Bool
free_four i = not (i == 0)

reads_four :
    (i : ℕ)
    → i < 4
    → is_free_page 1 (0x9FFFB000 + page_size + i * page_size) heap_paging ≡ ok (free_four i)
unfolding is_free_page
reads_four zero h = refl
reads_four (suc zero) h = refl
reads_four (suc (suc zero)) h = refl
reads_four (suc (suc (suc zero))) h = refl
reads_four (suc (suc (suc (suc i)))) h = absurd (omega arith)

get_consecutive_free_pages-FirstFree_example :
    Returns
      (FirstFree free_four (0x9FFFB000 + page_size) 4 (8192 / page_size))
      (get_consecutive_free_pages 8192 four_pages)
get_consecutive_free_pages-FirstFree_example =
    get_consecutive_free_pages-FirstFree 8192 4 four_pages free_four (omega arith) (omega arith)
      (omega arith) reads_four

table_of : (va : ℕ) → ltb va 0xEEC00000 ≡ true → Resident 1 va heap_paging
unfolding get_page_table bit
table_of va low = record {
  table = 0xF6000000;
  at = (rw low refl, omega arith);
  word = entry_word (ptx va == 1020);
}
  where
    entry_word : (b : Bool) → (if b then 0x404 else 0) < 2 ^ 32
    entry_word true = omega arith
    entry_word false = omega arith

-- Two pages fit behind the first one, below the last.
malloc-Allocated_example : Returns (Allocated small_heap (pages_of 8000) 4) (
    malloc
      (λ n k. panic)
      2
      (λ a k. panic)
      (λ va s. panic)
      (λ n u. panic)
      (λ n u. panic)
      (λ a u. panic)
      8000
      small_heap)
malloc-Allocated_example =
    malloc-Allocated (λ n k. panic) 2 (λ a k. panic) (λ va s. panic) (λ n u. panic) (λ n u. panic)
      (λ a u. panic) 8000 4 small_heap (omega arith) (omega arith) (omega arith) (omega arith)
      λ i h. table_of (0x9FFFB000 + page_size + i * page_size) (lt→ltb _ _ (omega arith))
