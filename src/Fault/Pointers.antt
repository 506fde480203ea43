-- ===== src/Fault/Pointers.antt =====
-- The pointers that fault_handler of kern/trap/fault_handler.c does not let a program use, and the
-- faults that come back.
use fos_fcis_operating_syste.Prelude.{
  ℕ, zero, suc, ◌+◌, ◌%◌, ◌≤◌, ◌<◌, ◌≡◌, refl, ◌≢◌, ◌⊎◌, inl, inr, Bool, true, false, not, ◌&&◌,
  ltb, leb, ◌==◌, if◌then◌else◌, arith, bit, le→leb, lt→ltb, eq→==, ne→==, lt→leb, Bool-cases, Run,
  ok, panic, ◌>>=◌, Returns, returns,
}
use fos_fcis_operating_syste.Paging.{Paging, pdx, user_top, pt_get_page_permissions}
use fos_fcis_operating_syste.Fault.Defs.{
  Faulted, exited, user_heap_start, user_heap_max, user_limit, ustack_top,
}
use fos_fcis_operating_syste.Fault.Ops.{ends, check_fault}
use fos_fcis_operating_syste.Fault.Handler.{
  FaultLog, Trap, log_fault, is_overflow, answer, resolve, fault_handler,
}

-- A pointer into the kernel, to a heap page that is neither reserved nor faulted in, or to a page that
-- is only to be read.
pub data Forbidden (va p : ℕ) : Type 0 where
  kernel_page : user_limit ≤ va → Forbidden va p
  unmarked :
      user_heap_start ≤ va
      → va < user_heap_max
      → bit 10 p ≡ false
      → bit 11 p ≡ false
      → Forbidden va p
  read_only : bit 0 p ≡ true → bit 1 p ≡ false → Forbidden va p

check_fault-ends : (va p : ℕ) → Forbidden va p → check_fault true va p ≡ ends
unfolding check_fault
check_fault-ends va p (kernel_page h) = rw (le→leb user_limit va h) refl
check_fault-ends va p (unmarked low high free empty) =
    rw
      (
        lt→leb user_limit va (omega arith),
        le→leb user_heap_start va low,
        lt→ltb va user_heap_max high,
        free,
        empty,
      )
      refl
check_fault-ends va p (read_only there fixed) = elim (Bool-cases (leb user_limit va)) [
  | inl e ↦ rw e refl
  | inr e ↦
      elim (Bool-cases
        ((leb user_heap_start va && ltb va user_heap_max) && (not (bit 10 p) && not (bit 11 p)))) [
          | inl u ↦ rw (e, u) refl
          | inr u ↦ rw (e, u, there, fixed) refl
        ]
]

-- The next log, where the fault is not the same one again.
abbrev fresh_log : Trap → FaultLog
fresh_log t = record {
  last_fault_va = t.fault_va;
  last_faulted_env = t.cur_env;
  num_repeated_fault = 0;
}

log_fault-fresh :
    (t : Trap) (log : FaultLog)
    → log.last_fault_va ≢ t.fault_va
    → log_fault t.fault_va t.cur_env log ≡ ok (fresh_log t)
unfolding log_fault
log_fault-fresh t log h = rw (ne→== log.last_fault_va t.fault_va h) refl

log_fault-again :
    (t : Trap) (n : ℕ)
    → log_fault t.fault_va t.cur_env (record (fresh_log t) { num_repeated_fault = n }) ≡ (
        if (n + 1) % 256 == 3
        then panic
        else ok (record (fresh_log t) { num_repeated_fault = (n + 1) % 256 }))
unfolding log_fault
log_fault-again t n = rw (eq→== t.fault_va t.fault_va refl, eq→== t.cur_env t.cur_env refl) refl

-- A fault that is logged `n` times in a row.
abbrev pub log_faults : ℕ → Trap → FaultLog → Run FaultLog
log_faults zero t log = ok log
log_faults (suc n) t log = log_fault t.fault_va t.cur_env log >>= log_faults n t

-- A fault at another address than the last one can come three times in a row, and the log then holds
-- it with two repetitions; the fourth time stops the kernel.
pub log_faults-stops :
    (t : Trap) (log : FaultLog)
    → log.last_fault_va ≢ t.fault_va
    → (log_faults 3 t log ≡ ok (record (fresh_log t) { num_repeated_fault = 2 }))
      × (log_faults 4 t log ≡ panic)
log_faults-stops t log h = (
  rw (log_fault-fresh t log h, log_fault-again t 0, log_fault-again t 1) refl,
  rw (log_fault-fresh t log h, log_fault-again t 0, log_fault-again t 1, log_fault-again t 2) refl,
)

is_overflow-user :
    (t : Trap)
    → t.user_trap ≡ true
    → (t.fault_va < ustack_top) ⊎ (user_top ≤ t.fault_va)
    → is_overflow t ≡ false
unfolding is_overflow
is_overflow-user t user outside =
    let no_stack : (leb ustack_top t.fault_va && ltb t.fault_va user_top) ≡ false = ground arith in
    rw (user, no_stack) refl

module _ (kmalloc : ℕ → Paging → Run (ℕ × Paging)) (kernel : ℕ)
    (pf_read_env_page : ℕ → Faulted → Run (Bool × Faulted))
    (pf_update_env_page : ℕ → ℕ → Faulted → Run Faulted) where
  resolve-exited :
      (fuel max_sweeps p : ℕ) (t : Trap) (s : Faulted)
      → bit 0 (s.paging.directory s.env_page_directory (pdx t.fault_va)) ≡ true
      → pt_get_page_permissions s.env_page_directory t.fault_va s.paging ≡ ok p
      → t.user_trap ≡ true
      → Forbidden t.fault_va p
      → resolve kmalloc kernel pf_read_env_page pf_update_env_page fuel max_sweeps t s
        ≡ ok (exited s)
  unfolding resolve answer
  resolve-exited fuel max_sweeps p t s table shown user bad =
      rw (table, shown, user, check_fault-ends t.fault_va p bad) refl

  -- A fault of user code through a pointer into the kernel, to a heap page that is not marked or to
  -- a page that is only to be read, whose page table is there, ends the environment without a change
  -- of any page table or of its working set. The fault is not between USTACKTOP and USER_TOP, and
  -- not the last one again.
  pub fault_handler-exited :
      (fuel max_sweeps p : ℕ) (t : Trap) (log : FaultLog) (s : Faulted)
      → t.user_trap ≡ true
      → t.cur_env ≢ 0
      → log.last_fault_va ≢ t.fault_va
      → (t.fault_va < ustack_top) ⊎ (user_top ≤ t.fault_va)
      → bit 0 (s.paging.directory s.env_page_directory (pdx t.fault_va)) ≡ true
      → pt_get_page_permissions s.env_page_directory t.fault_va s.paging ≡ ok p
      → Forbidden t.fault_va p
      → Returns
          (λ (o, log'). (o ≡ exited s) × (log' ≡ fresh_log t))
          (fault_handler kmalloc kernel pf_read_env_page pf_update_env_page fuel max_sweeps t log s)
  unfolding fault_handler
  fault_handler-exited fuel max_sweeps p t log s user running fresh outside table shown bad =
      rw
        (
          log_fault-fresh t log fresh,
          is_overflow-user t user outside,
          ne→== t.cur_env 0 running,
          resolve-exited fuel max_sweeps p t s table shown user bad,
        )
        (returns (refl, refl))
