-- ===== src/Shared/Joining.antt =====
-- createSharedObject and getSharedObject of kern/mem/shared_memory_manager.c after one another: two
-- environments share a frame.
use fos_fcis_operating_syste.Prelude.{
  ℕ, ◌^◌, ◌<◌, ◌≡◌, ◌≢◌, false, none, some, List, ◌∷◌, ◌==◌, if◌then◌else◌, bit, ok, Run,
}
use fos_fcis_operating_syste.Paging.{
  Paging, clean_frame, ptx, set_frame, get_frame_info, pt_get_page_permissions,
}
use fos_fcis_operating_syste.Paging.Tables.{table_frame}
use fos_fcis_operating_syste.Paging.Mapping.{TableAt}
use fos_fcis_operating_syste.Paging.Unmapping.{with_free}
use fos_fcis_operating_syste.Shared.Defs.{Share, Sharing, share_size, find_share, get_share}
use fos_fcis_operating_syste.Shared.Creation.{unbacked}

-- A page of each environment is in the frame `f`, the second may write to it if the object is
-- writable, and the object counts both.
pub record Joined (d1 va1 t1 d2 va2 t2 f : ℕ) (v : Share) (s : Sharing) : Type 0 where
  pub first : get_frame_info d1 va1 s.paging ≡ ok (f, t1)
  pub second : get_frame_info d2 va2 s.paging ≡ ok (f, t2)
  pub permissions : ℕ
  pub shown : pt_get_page_permissions d2 va2 s.paging ≡ ok permissions
  pub writeable : bit 1 permissions ≡ (v.is_writable == 1)
  pub references : (s.paging.frames_info f).references ≡ 2
  pub listed : find_share v.owner_id v.name s.shares_list ≡ some (record v { references = 2 })

-- The permissions that getSharedObject maps with.
abbrev joined_perm : ℕ → ℕ
joined_perm writable = if writable == 1 then 2055 else 2053

module _ (kmalloc : ℕ → Paging → Run (ℕ × Paging)) (kernel : ℕ)
    (kfree : ℕ → Paging → Run Paging) where
  module _ (owner : ℕ) (name : List ℕ) (writable a b : ℕ) (va t f : ℕ) (fs : List ℕ) (s : Sharing)
      (new : get_share owner name s ≡ none)
      (object : kmalloc share_size s.paging ≡ ok (a, s.paging)) (a_nz : a ≢ 0)
      (storage : kmalloc 4 s.paging ≡ ok (b, s.paging)) (b_nz : b ≢ 0)
      (at : TableAt s.env_page_directory va t s.paging)
      (own : table_frame s.env_page_directory va s.paging ≢ f)
      (free : s.paging.free_frame_list ≡ f ∷ fs)
      (plain : (s.paging.frames_info f).is_buffered ≡ false) (nz : f ≢ 0)
      (inside : f < s.paging.number_of_frames) (fits : f < 2 ^ 20)
      (absent : bit 0 (s.paging.table t (ptx va)) ≡ false) where
    abbrev object_of : Share
    object_of = unbacked owner name 4096 writable a b

    abbrev cleaned : Paging
    cleaned = set_frame f clean_frame (with_free fs s.paging)
