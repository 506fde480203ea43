-- ===== src/Shared/Calls.antt =====
-- smalloc, sget and sfree of lib/uheap.c.
use fos_fcis_operating_syste.Prelude.{
  ℕ, ◌/◌, ◌||◌, List, ◌==◌, if◌then◌else◌, add32, sub32, page_size, Run, ok, ◌>>=◌,
}
use fos_fcis_operating_syste.DynAlloc.{round_up}
use fos_fcis_operating_syste.Paging.{Paging}
use fos_fcis_operating_syste.Fault.{Faulted}
use fos_fcis_operating_syste.UserHeap.{UserEnv, get_consecutive_free_pages}
use fos_fcis_operating_syste.Shared.Defs.{
  Share, Sharing, e_no_mem, e_shared_mem_exists, e_shared_mem_not_exists, get_size_of_shared_object,
}
use fos_fcis_operating_syste.Shared.Ops.{
  create_shared_object, get_shared_object, free_shared_object,
}

-- The calling environment, the shared objects, and the program's array of IDs.
pub record SharedHeap : Type 0 where
  pub env : UserEnv
  pub env_id : ℕ
  pub shares_list : List Share
  pub va_page_id_share_object : ℕ → ℕ

-- The state that a system call on shared objects runs on, and what it leaves.
unfoldable pub enter_call : SharedHeap → Sharing
enter_call u = record {
  paging = u.env.faulted.paging;
  env_page_directory = u.env.faulted.env_page_directory;
  shares_list = u.shares_list;
}

unfoldable pub leave_call : SharedHeap → Sharing → SharedHeap
leave_call u s =
    let faulted : Faulted = record u.env.faulted { paging = s.paging } in
    record u { env = record u.env { faulted = faulted }; shares_list = s.shares_list }

unfoldable pub set_id : (va id : ℕ) → SharedHeap → SharedHeap
set_id va id u =
    let i = sub32 va (add32 u.env.userh_hard_limit page_size) / page_size in
    record u { va_page_id_share_object = λ j. if j == i then id else u.va_page_id_share_object j }

module _ (kmalloc : ℕ → Paging → Run (ℕ × Paging)) (kernel : ℕ)
    (kfree : ℕ → Paging → Run Paging) where
  -- smalloc
  unfoldable pub smalloc : (name : List ℕ) (size writable : ℕ) → SharedHeap → Run (ℕ × SharedHeap)
  smalloc name size writable u =
      let bytes = round_up size page_size in
      let create = λ (va : ℕ).
        create_shared_object kmalloc kernel kfree u.env_id name bytes writable va (enter_call u)
        >>= λ (id, s).
            let u1 = leave_call u s in
            if (id == e_no_mem) || (id == e_shared_mem_exists)
            then ok (0, u1)
            else ok (va, set_id va id u1) in
      let search =
        get_consecutive_free_pages bytes u.env >>= λ va. if va == 0 then ok (0, u) else create va in
      if size == 0 then ok (0, u) else search

  -- sget
  unfoldable pub sget : (owner : ℕ) (name : List ℕ) → SharedHeap → Run (ℕ × SharedHeap)
  sget owner name u =
      let size = get_size_of_shared_object owner name (enter_call u) in
      let join = λ (va : ℕ).
        get_shared_object kmalloc kernel kfree owner name va (enter_call u) >>= λ (id, s).
        let u1 = leave_call u s in
        if id == e_shared_mem_not_exists then ok (0, u1) else ok (va, set_id va id u1) in
      let search =
        get_consecutive_free_pages size u.env >>= λ va. if va == 0 then ok (0, u) else join va in
      if size == e_shared_mem_not_exists then ok (0, u) else search

  -- sfree
  unfoldable pub sfree : ℕ → SharedHeap → Run SharedHeap
  sfree va u =
      let i = sub32 va (add32 u.env.userh_hard_limit page_size) / page_size in
      free_shared_object kmalloc kernel kfree (u.va_page_id_share_object i) va (enter_call u)
      >>= λ (code, s). ok (set_id va 0 (leave_call u s))
