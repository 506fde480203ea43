-- ===== src/Fault/PageFile.antt =====
-- pf_read_env_page of kern/disk/pagefile_manager.c, which the page fault handler calls. What the page
-- file holds is a parameter; the contents of the page and the counters of page-ins are not modelled.
use fos_fcis_operating_syste.Prelude.{
  ℕ, ◌<◌, ◌≡◌, refl, Bool, true, false, if◌then◌else◌, arith, ltb, Bool-cases, inl, inr, page_size,
  word_mod, ok, Run, ◌>>=◌, Returns, returns, Returns-bind,
}
use fos_fcis_operating_syste.DynAlloc.{round_down}
use fos_fcis_operating_syste.Paging.{
  Paging, pdx, ptx, user_top, table_address, get_page_table, pt_set_page_permissions,
}
use fos_fcis_operating_syste.Paging.Cycle.{pt_set_page_permissions-Changed}
use fos_fcis_operating_syste.Fault.Defs.{Faulted}
use fos_fcis_operating_syste.Fault.Entries.{Filled, Filled-unmodified}

-- The addresses of the pages that are in the page file of the environment.
module _ (in_page_file : ℕ → Bool) where
  -- pf_read_env_page: whether the page is in the page file. If it is, its mark as modified, which the
  -- copy has set, is taken back.
  unfoldable pub pf_read_env_page : ℕ → Faulted → Run (Bool × Faulted)
  pf_read_env_page va s =
      let page = round_down va page_size in
      if in_page_file page
      then (pt_set_page_permissions s.env_page_directory page 0 64 s.paging >>= λ k.
          ok (true, record s { paging = k }))
      else ok (false, s)

  -- The entry at the first address of a page is that of the page.
  round_down_lem :
      (va : ℕ)
      → va < word_mod
      → (pdx (round_down va page_size) ≡ pdx va)
        × (ptx (round_down va page_size) ≡ ptx va)
        × (ltb (round_down va page_size) user_top ≡ ltb va user_top)
  unfolding pdx ptx round_down
  round_down_lem va word = (omega arith, omega arith, ground arith)

  pt_set_page_permissions-round_down :
      (d va set clear : ℕ) (k : Paging)
      → va < word_mod
      → pt_set_page_permissions d (round_down va page_size) set clear k
        ≡ pt_set_page_permissions d va set clear k
  unfolding pt_set_page_permissions get_page_table table_address
  pt_set_page_permissions-round_down d va set clear k word =
      let (directory, table, user) = round_down_lem va word in rw (directory, table, user) refl

  -- What reading leaves of a page that has just been mapped.
  pub pf_read_env_page-Filled :
      (va f t : ℕ) (k1 k2 : Paging) (s : Faulted)
      → va < word_mod
      → Filled s.env_page_directory va f t k1 k2
      → Returns
          (λ (found, s').
            (found ≡ in_page_file (round_down va page_size))
            × (k3 : Paging) × (s' ≡ record s { paging = k3 })
            × Filled s.env_page_directory va f t k1 k3)
          (pf_read_env_page va (record s { paging = k2 }))
  unfolding pf_read_env_page
  pf_read_env_page-Filled va f t k1 k2 s word l =
      elim (Bool-cases (in_page_file (round_down va page_size))) [
        | inl there ↦
            rw (there, pt_set_page_permissions-round_down s.env_page_directory va 0 64 k2 word)
              (Returns-bind
                (pt_set_page_permissions-Changed s.env_page_directory va t 0 64 k2 l.table
                  (omega arith) (omega arith) l.word)
                λ k3 c. returns (refl, k3, refl, Filled-unmodified l c))
        | inr missing ↦ rw missing (returns (refl, k2, refl, l))
      ]
