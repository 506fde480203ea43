-- ===== src/Shared/Tests.antt =====
-- A program without a shared object, in a memory without a free frame, and the theorems at it.
use fos_fcis_operating_syste.Prelude.{
  ℕ, ◌≡◌, refl, some, [], ◌∷◌, ◌==◌, if◌then◌else◌, arith, ok, Run, Returns,
}
use fos_fcis_operating_syste.Paging.{Paging, clean_frame}
use fos_fcis_operating_syste.DynAlloc.{round_up}
use fos_fcis_operating_syste.UserHeap.{get_consecutive_free_pages}
use fos_fcis_operating_syste.Shared.Defs.{find_share}
use fos_fcis_operating_syste.Shared.Calls.{SharedHeap, smalloc}
use fos_fcis_operating_syste.Shared.Creation.{unbacked, smalloc-unbacked}
use fos_fcis_operating_syste.Shared.Defs.{Sharing}

abbrev full_paging : Paging
full_paging = record {
  directory = λ d i. 0x5007;
  table = λ t i. if i == 1021 then 0x404 else 0;
  frames_info = λ f.
      if f == 5
      then record clean_frame { references = 1; base_va_page = 0xF6000000 }
      else clean_frame;
  number_of_frames = 100;
  free_frame_list = [];
  env_page_directory = λ e. 1;
}

abbrev sharer : SharedHeap
sharer = record {
  env = record {
    faulted = record {
      paging = full_paging;
      env_page_directory = 1;
      page_ws_list = [];
      page_ws_max_size = 10;
      page_last_ws_element = 0;
    };
    userh_brk = 0x80001000;
    userh_hard_limit = 0x9FFFB000;
  };
  env_id = 7;
  shares_list = [];
  va_page_id_share_object = λ i. 0;
}

-- A kernel heap that hands out two blocks.
abbrev two_blocks : ℕ → Paging → Run (ℕ × Paging)
two_blocks n k = ok (if n == 96 then 0xF6000100 else 0xF6000200, k)

searched : get_consecutive_free_pages (round_up 8000 4096) sharer.env ≡ ok 0x9FFFE000
unfolding get_consecutive_free_pages round_up
searched = refl

smalloc-unbacked_example :
    Returns
      (λ (answer, u').
        (answer ≡ 0x9FFFE000)
        × (u'.env.faulted.paging ≡ full_paging)
        × (find_share 7 (120 ∷ []) u'.shares_list
            ≡ some (unbacked 7 (120 ∷ []) (round_up 8000 4096) 1 0xF6000100 0xF6000200)))
      (smalloc two_blocks 2 (λ a k. ok k) (120 ∷ []) 8000 1 sharer)
unfolding find_share round_up
smalloc-unbacked_example =
    smalloc-unbacked two_blocks 2 (λ a k. ok k) (120 ∷ []) 8000 1 0x9FFFE000 0xF6000100 0xF6000200
      sharer full_paging full_paging (omega arith) searched (omega arith) refl refl (omega arith)
      refl (omega arith) (omega arith)

-- A memory with a free frame, and two environments that share their page table.
abbrev one_left : Sharing
one_left = record {
  paging = record full_paging { table = λ t i. 0; free_frame_list = 9 ∷ [] };
  env_page_directory = 1;
  shares_list = [];
}
