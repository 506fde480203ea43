-- ===== src/Fault/Handler.antt =====
-- fault_handler of kern/trap/fault_handler.c, without its counters of faults and the buffering, which
-- the source does not implement.
use fos_fcis_operating_syste.Prelude.{
  ℕ, ◌+◌, ◌%◌, Bool, not, ◌&&◌, ◌||◌, ltb, leb, ◌==◌, if◌then◌else◌, add32, bit, page_size, Run, ok,
  panic, ◌>>=◌,
}
use fos_fcis_operating_syste.Paging.{
  Paging, pdx, user_top, create_page_table, pt_get_page_permissions,
}
use fos_fcis_operating_syste.Fault.Defs.{Faulted, Outcome, handled, exited, ustack_top}
use fos_fcis_operating_syste.Fault.Ops.{
  Verdict, ends, panics, loads, check_fault, page_fault_handler,
}

-- last_fault_va, last_faulted_env and num_repeated_fault
pub record FaultLog : Type 0 where
  pub last_fault_va : ℕ
  pub last_faulted_env : ℕ
  pub num_repeated_fault : ℕ

-- The fault: its address, the running environment or NULL, whether user code made it, and the stacks
-- of the environment and of the CPU in the kernel.
pub record Trap : Type 0 where
  pub fault_va : ℕ
  pub cur_env : ℕ
  pub user_trap : Bool
  pub kstack : ℕ
  pub cpu_stack : ℕ

-- The same fault of the same environment for the third time after the first stops the kernel; the
-- number is an `int8`.
unfoldable pub log_fault : ℕ → ℕ → FaultLog → Run FaultLog
log_fault va env log =
    let again = (log.num_repeated_fault + 1) % 256 in
    if (log.last_fault_va == va) && (log.last_faulted_env == env)
    then if again == 3 then panic else ok (record log { num_repeated_fault = again })
    else ok (record { last_fault_va = va; last_faulted_env = env; num_repeated_fault = 0 })

abbrev pub kernel_heap_end : ℕ
kernel_heap_end = 0xFFFFF000

-- The faults that stop the kernel because a stack or the kernel heap ran over.
unfoldable pub is_overflow : Trap → Bool
is_overflow t =
    let va = t.fault_va in
    if t.user_trap
    then leb ustack_top va && ltb va user_top
    else (not (t.cur_env == 0) && (leb t.kstack va && ltb va (add32 t.kstack page_size)))
      || ((leb t.cpu_stack va && ltb va (add32 t.cpu_stack page_size)) || leb kernel_heap_end va)

module _ (kmalloc : ℕ → Paging → Run (ℕ × Paging)) (kernel : ℕ)
    (pf_read_env_page : ℕ → Faulted → Run (Bool × Faulted))
    (pf_update_env_page : ℕ → ℕ → Faulted → Run Faulted) where
  unfoldable pub answer : (fuel max_sweeps va : ℕ) → Faulted → Verdict → Run Outcome
  answer fuel max_sweeps va s ends = ok (exited s)
  answer fuel max_sweeps va s panics = panic
  answer fuel max_sweeps va s loads =
      page_fault_handler kmalloc kernel pf_read_env_page pf_update_env_page fuel max_sweeps va s

  -- A table fault makes the table; else the page is looked at.
  unfoldable pub resolve : (fuel max_sweeps : ℕ) → Trap → Faulted → Run Outcome
  resolve fuel max_sweeps t s =
      let d = s.env_page_directory in
      let va = t.fault_va in
      if bit 0 (s.paging.directory d (pdx va))
      then (pt_get_page_permissions d va s.paging >>= λ p.
          answer fuel max_sweeps va s (check_fault t.user_trap va p))
      else (create_page_table kmalloc kernel d va s.paging >>= λ (table, k).
          ok (handled (record s { paging = k })))

  -- fault_handler
  unfoldable pub fault_handler :
      (fuel max_sweeps : ℕ) → Trap → FaultLog → Faulted → Run (Outcome × FaultLog)
  fault_handler fuel max_sweeps t log s = log_fault t.fault_va t.cur_env log >>= λ log1.
      let resolved = resolve fuel max_sweeps t s >>= λ o. ok (o, log1) in
      if is_overflow t || (t.cur_env == 0) then panic else resolved
