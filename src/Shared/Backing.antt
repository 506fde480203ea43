-- ===== src/Shared/Backing.antt =====
-- createSharedObject of kern/mem/shared_memory_manager.c for an object of one page.
use fos_fcis_operating_syste.Prelude.{
  ℕ, ◌%◌, ◌^◌, ◌<◌, ◌≡◌, refl, ap, ◌∙◌, ◌≢◌, false, none, some, List, ◌∷◌, ltb, ◌==◌, if◌then◌else◌,
  length, arith, bit, eq→==, ne→==, le→ltb, ok, Run, Returns, returns, Returns-bind,
}
use fos_fcis_operating_syste.DynAlloc.{round_up}
use fos_fcis_operating_syste.Paging.{Paging, clean_frame, ptx, set_frame}
use fos_fcis_operating_syste.Paging.Tables.{table_frame}
use fos_fcis_operating_syste.Paging.Mapping.{TableAt, Linked, map_frame-Linked}
use fos_fcis_operating_syste.Paging.Unmapping.{with_free}
use fos_fcis_operating_syste.Paging.Cycle.{allocate_frame_lem, TableAt-allocated}
use fos_fcis_operating_syste.Shared.Defs.{
  Share, Sharing, share_size, get_share, write_share, set_share, create_share,
}
use fos_fcis_operating_syste.Shared.Ops.{
  ensure_table, back_share, register, create_new, create_shared_object,
}
use fos_fcis_operating_syste.Shared.Creation.{unbacked, create_share-unbacked}

-- An object of one page with its frame.
abbrev pub one_frame : Share → ℕ → Share
one_frame v f = record v { frames_storage = λ j. if j == 0 then f else v.frames_storage j }

module _ (kmalloc : ℕ → Paging → Run (ℕ × Paging)) (kernel : ℕ)
    (kfree : ℕ → Paging → Run Paging) where
  pub ensure_table-there :
      (d va t : ℕ) (k : Paging) → TableAt d va t k → ensure_table kmalloc kernel kfree d va k ≡ ok k
  unfolding ensure_table
  ensure_table-there d va t k at = rw (at.0, ne→== t 0 at.1) refl

  back_share-one :
      (va t f : ℕ) (fs : List ℕ) (v : Share) (s : Sharing)
      → TableAt s.env_page_directory va t s.paging
      → table_frame s.env_page_directory va s.paging ≢ f
      → s.paging.free_frame_list ≡ f ∷ fs
      → (s.paging.frames_info f).is_buffered ≡ false
      → f ≢ 0
      → f < s.paging.number_of_frames
      → f < 2 ^ 20
      → bit 0 (s.paging.table t (ptx va)) ≡ false
      → Returns
          (λ (v', s').
            (v' ≡ one_frame v f)
            × (s'.shares_list ≡ s.shares_list)
            × Linked s.env_page_directory va f 2055 t
                (set_frame f clean_frame (with_free fs s.paging))
                s'.paging)
          (back_share kmalloc kernel kfree 1 0 va v s)
  unfolding back_share set_frame
  back_share-one va t f fs v s at own free plain nz inside fits absent =
      let d = s.env_page_directory in
      rw (ensure_table-there d va t s.paging at, allocate_frame_lem f fs s.paging free plain)
        (Returns-bind
          (map_frame-Linked d va f 2055 t (set_frame f clean_frame (with_free fs s.paging))
            (TableAt-allocated d va f t fs s.paging at own) own nz inside fits (omega arith) kmalloc
            kernel absent)
          λ k l. returns (refl, refl, l))

  pub write_share-head :
      (v v' : Share) (vs : List Share) → v.node ≡ v'.node → write_share v' (v ∷ vs) ≡ v' ∷ vs
  unfolding write_share
  write_share-head v v' vs e = rw (eq→== v.node v'.node e) refl

  module _ (owner : ℕ) (name : List ℕ) (writable a b : ℕ) (va t f : ℕ) (fs : List ℕ) (s : Sharing)
      (new : get_share owner name s ≡ none)
      (object : kmalloc share_size s.paging ≡ ok (a, s.paging)) (a_nz : a ≢ 0)
      (storage : kmalloc 4 s.paging ≡ ok (b, s.paging)) (b_nz : b ≢ 0)
      (at : TableAt s.env_page_directory va t s.paging)
      (own : table_frame s.env_page_directory va s.paging ≢ f)
      (free : s.paging.free_frame_list ≡ f ∷ fs)
      (plain : (s.paging.frames_info f).is_buffered ≡ false) (nz : f ≢ 0)
      (inside : f < s.paging.number_of_frames) (fits : f < 2 ^ 20)
      (absent : bit 0 (s.paging.table t (ptx va)) ≡ false) where
    abbrev object_of : Share
    object_of = unbacked owner name 4096 writable a b

    created :
        create_share kmalloc kfree owner name 4096 writable s.paging ≡ ok (some object_of, s.paging)
    unfolding round_up
    created =
        create_share-unbacked kmalloc kernel kfree owner name 4096 writable a b s.paging s.paging
          s.paging object a_nz storage b_nz

    register-one :
        Returns
          (λ (id, s').
            (id ≡ a % 2 ^ 31)
            × (s'.shares_list ≡ one_frame object_of f ∷ s.shares_list)
            × Linked s.env_page_directory va f 2055 t
                (set_frame f clean_frame (with_free fs s.paging))
                s'.paging)
          (register kmalloc kernel kfree 4096 va s (some object_of))
    unfolding register set_share
    register-one =
        let some_free : ltb (length s.paging.free_frame_list) 1 ≡ false =
          le→ltb (length s.paging.free_frame_list) 1 (omega (arith, ap length free)) in
        rw some_free (
          Returns-bind
            (back_share-one va t f fs object_of
              (record s { shares_list = object_of ∷ s.shares_list }) at own free plain nz inside
              fits absent)
            λ (v', s') (e, same, l). returns (
              ap (λ (x : Share). x.id) e,
              ap (λ (x : Share). write_share x s'.shares_list) e
                  ∙ ap (write_share (one_frame object_of f)) same
                  ∙ write_share-head object_of (one_frame object_of f) s.shares_list refl,
              l,
            ))

    pub create_shared_object-one :
        Returns
          (λ (id, s').
            (id ≡ a % 2 ^ 31)
            × (s'.shares_list ≡ one_frame object_of f ∷ s.shares_list)
            × Linked s.env_page_directory va f 2055 t
                (set_frame f clean_frame (with_free fs s.paging))
                s'.paging)
          (create_shared_object kmalloc kernel kfree owner name 4096 writable va s)
    unfolding create_shared_object create_new
    create_shared_object-one = rw (new, created) register-one
