-- ===== src/Fault/Tests.antt =====
-- A working set of two pages, one of which has been used, and the theorem at it.
use fos_fcis_operating_syste.Prelude.{
  refl, [], ◌∷◌, ◌==◌, if◌then◌else◌, arith, ok, true, bit, Returns,
}
use fos_fcis_operating_syste.Paging.{Paging, clean_frame, get_page_table, pdx, ptx}
use fos_fcis_operating_syste.Fault.Defs.{Faulted, find_victim}
use fos_fcis_operating_syste.Fault.WorkingSet.{Sweeping, Victim}
use fos_fcis_operating_syste.Fault.Victim.{find_victim-Victim}
use fos_fcis_operating_syste.Fault.Ops.{page_fault_handler}
use fos_fcis_operating_syste.Fault.PageFile.{pf_read_env_page}
use fos_fcis_operating_syste.DynAlloc.{round_down}
use fos_fcis_operating_syste.Fault.Placement.{Handled, PageIn, page_fault_handler-PageIn}
use fos_fcis_operating_syste.Prelude.{◌≡◌, inl, panic}
use fos_fcis_operating_syste.Paging.{pt_get_page_permissions}
use fos_fcis_operating_syste.Fault.Defs.{exited}
use fos_fcis_operating_syste.Fault.Handler.{FaultLog, Trap, fault_handler}
use fos_fcis_operating_syste.Fault.Pointers.{
  unmarked, log_faults, log_faults-stops, fault_handler-exited,
}

abbrev user_paging : Paging
user_paging = record {
  directory = λ d i. 0x5007;
  table = λ t i. if i == 0 then 0x7027 else 0x8047;
  frames_info = λ f.
      if f == 5
      then record clean_frame { references = 1; base_va_page = 0xF6000000 }
      else clean_frame;
  number_of_frames = 100;
  free_frame_list = [];
  env_page_directory = λ e. 1;
}

abbrev two_pages : Faulted
two_pages = record {
  paging = user_paging;
  env_page_directory = 1;
  page_ws_list =
      record { node = 100; virtual_address = 0x80000000; time_stamp = 0; sweeps_counter = 0 }
      ∷ record { node = 200; virtual_address = 0x80001000; time_stamp = 0; sweeps_counter = 1 }
      ∷ [];
  page_ws_max_size = 2;
  page_last_ws_element = 0;
}

two_pages-Sweeping : Sweeping 2 two_pages
unfolding get_page_table ptx bit
two_pages-Sweeping = record {
  resident = (
    record { table = 0xF6000000; at = (refl, omega arith); word = omega arith },
    (record { table = 0xF6000000; at = (refl, omega arith); word = omega arith }, tt),
  );
  fits = (omega arith, (omega arith, tt));
  inside = omega arith;
}

find_victim-Victim_example :
    Returns (λ (s', e, p). Victim 2 two_pages s' e p) (find_victim 7 2 two_pages)
find_victim-Victim_example =
    find_victim-Victim 7 2 two_pages (omega arith) two_pages-Sweeping (omega arith)

abbrev one_free : Paging
one_free = record user_paging { table = λ t i. 0; free_frame_list = 9 ∷ [] }

abbrev one_page : Faulted
one_page = record two_pages { paging = one_free; page_ws_list = [] }

-- 0x80002ABC is in the page from 0x80002000 on, which is in the page file.
page_fault_handler-PageIn_example :
    Returns (Handled (PageIn 0x80002ABC 9 0xF6000000 300 [] one_page)) (
      page_fault_handler
        (λ n k. ok (300, k))
        2
        (pf_read_env_page (λ page. page == 0x80002000))
        (λ va f s. ok s)
        1
        2
        0x80002ABC
        one_page)
unfolding get_page_table bit pdx round_down
page_fault_handler-PageIn_example =
    page_fault_handler-PageIn (λ n k. ok (300, k)) 2 (λ page. page == 0x80002000) (λ va f s. ok s)
      0x80002ABC 9 0xF6000000 300 [] one_page (omega arith) (refl, omega arith) (omega arith) refl
      refl (omega arith) (omega arith) (omega arith) refl (λ k. refl) (omega arith) 1 2
      (omega arith) refl

-- A fault at a heap page that is not marked.
abbrev stray : Trap
stray = record { fault_va = 0x80002000; cur_env = 7; user_trap = true; kstack = 0; cpu_stack = 0 }

abbrev no_fault : FaultLog
no_fault = record { last_fault_va = 0; last_faulted_env = 0; num_repeated_fault = 0 }

log_faults-stops_example :
    (log_faults 3 stray no_fault
      ≡ ok (record { last_fault_va = 0x80002000; last_faulted_env = 7; num_repeated_fault = 2 }))
    × (log_faults 4 stray no_fault ≡ panic)
log_faults-stops_example = log_faults-stops stray no_fault (omega arith)

fault_handler-exited_example :
    Returns
      (λ (o, log').
        (o ≡ exited one_page)
        × (log'
            ≡ record { last_fault_va = 0x80002000; last_faulted_env = 7; num_repeated_fault = 0 }))
      (fault_handler (λ n k. panic) 2 (λ va s. panic) (λ va f s. panic) 1 2 stray no_fault one_page)
unfolding get_page_table bit pdx pt_get_page_permissions
fault_handler-exited_example =
    fault_handler-exited (λ n k. panic) 2 (λ va s. panic) (λ va f s. panic) 1 2 0 stray no_fault
      one_page refl (omega arith) (omega arith) (inl (omega arith)) refl refl
      (unmarked (omega arith) (omega arith) refl refl)
