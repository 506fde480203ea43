-- ===== src/Paging/Unmapping.antt =====
-- `unmap_frame` of kern/mem/memory_manager.c.
use fos_fcis_operating_syste.Prelude.{
  ℕ, ◌+◌, ◌-◌, ◌/◌, ◌%◌, ◌<◌, ◌≡◌, refl, ◌∙◌, ◌≢◌, false, List, ◌∷◌, ◌==◌, arith, ne→==, ok,
  Returns, returns,
}
use native.Mathlib.Decide.{ℕ_discrete}
use fos_fcis_operating_syste.Paging.Defs.{
  Frame, Paging, ptx, extract_address, set_entry, set_frame, write_frame, get_page_table,
  get_frame_info,
}
use fos_fcis_operating_syste.Paging.Ops.{
  clean_frame, free_frame, unmap_frame, pt_get_page_permissions,
}
use fos_fcis_operating_syste.Paging.Tables.{
  table_frame, get_page_table-set_frame, get_page_table-set_entry, entry_at, write_frame_self,
  write_frame_again,
}
use fos_fcis_operating_syste.Paging.Mapping.{software_bits, TableAt, SameBut, set_both-SameBut}

-- The frame `f` with one reference less; without any it is clean and the first of the free ones.
pub data Dropped (f : ℕ) (k k' : Paging) : Type 0 where
  freed :
      (k.frames_info f).references ≡ 1
      → k'.frames_info f ≡ clean_frame
      → k'.free_frame_list ≡ f ∷ k.free_frame_list
      → Dropped f k k'
  kept :
      (k.frames_info f).references ≢ 1
      → k'.frames_info f ≡ record (k.frames_info f) {
        references = (k.frames_info f).references - 1;
        base_va_page = 0;
      }
      → k'.free_frame_list ≡ k.free_frame_list
      → Dropped f k k'

pub record Unmapped (d va f t : ℕ) (k k' : Paging) : Type 0 where
  pub table : TableAt d va t k'
  pub entry : k'.table t (ptx va) ≡ software_bits (k.table t (ptx va))
  pub found : get_frame_info d va k' ≡ ok (0, t)
  pub permissions : pt_get_page_permissions d va k' ≡ ok (software_bits (k.table t (ptx va)))
  pub dropped : Dropped f k k'
  pub same : SameBut t (ptx va) f k k'

abbrev pub with_free : List ℕ → Paging → Paging
with_free fs k = record k { free_frame_list = fs }

module _ (d va f t : ℕ) (k : Paging) (at : TableAt d va t k) (own : table_frame d va k ≢ f)
    (v : Frame) (fs : List ℕ) where
  -- The state in the end, for both outcomes.
  pub unmapped : Paging
  unmapped =
      set_entry t (ptx va) (software_bits (k.table t (ptx va))) (set_frame f v (with_free fs k))

  unmapped-table : TableAt d va t unmapped
  unfolding unmapped get_page_table set_entry set_frame
  unmapped-table = (
    get_page_table-set_entry (set_frame f v (with_free fs k)) t (ptx va)
          (software_bits (k.table t (ptx va))) d va
        ∙ get_page_table-set_frame (with_free fs k) f v d va own
        ∙ at.0,
    at.1,
  )

  unmapped-SameBut : SameBut t (ptx va) f k unmapped
  unfolding unmapped
  unmapped-SameBut =
      let s =
        set_both-SameBut t (ptx va) (software_bits (k.table t (ptx va))) f v (with_free fs k) in
      record {
        directory = s.directory;
        env_page_directory = s.env_page_directory;
        number_of_frames = s.number_of_frames;
        tables = s.tables;
        frames = s.frames;
      }

  unmapped-Unmapped : Dropped f k unmapped → Unmapped d va f t k unmapped
  unfolding unmapped get_frame_info pt_get_page_permissions extract_address
  unmapped-Unmapped dropped =
      let soft = software_bits (k.table t (ptx va)) in
      let t_nz : (t == 0) ≡ false = ne→== t 0 at.1 in
      let there = unmapped-table in
      let e : unmapped.table t (ptx va) ≡ soft = entry_at _ t (ptx va) soft in
      let no_frame : soft / 4096 ≡ 0 = omega arith in
      let low : soft % 4096 ≡ soft = omega arith in
      record {
        table = there;
        entry = e;
        found = rw (there.0, t_nz, e, no_frame);
        permissions = rw (there.0, t_nz, e, low);
        dropped = dropped;
        same = unmapped-SameBut;
      }

-- The frame that is left with fewer references.
abbrev pub released : Frame → Frame
released info = record info { references = info.references - 1; base_va_page = 0 }

module _ (d va f t : ℕ) (k : Paging) (at : TableAt d va t k) (own : table_frame d va k ≢ f)
    (nz : f ≢ 0) (found : get_frame_info d va k ≡ ok (f, t))
    (counted : 0 < (k.frames_info f).references)
    (bounded : (k.frames_info f).references < 65536) where
  unmap_last-eq :
      (k.frames_info f).references ≡ 1
      → unmap_frame d va k ≡ ok (unmapped d va f t k at own clean_frame (f ∷ k.free_frame_list))
  unfolding unmap_frame unmapped free_frame
  unmap_last-eq one =
      let none_left : ((k.frames_info f).references + 65535) % 65536 ≡ 0 = omega arith in
      let v = record (k.frames_info f) { references = 0 } in
      let m = k.frames_info in
      rw (
        found,
        ne→== f 0 nz,
        none_left,
        write_frame_self (write_frame m f v) f clean_frame,
        write_frame_again m f v clean_frame,
        write_frame_again m f clean_frame clean_frame,
      )

  unmap_shared-eq :
      (k.frames_info f).references ≢ 1
      → unmap_frame d va k
        ≡ ok (unmapped d va f t k at own (released (k.frames_info f)) k.free_frame_list)
  unfolding unmap_frame unmapped
  unmap_shared-eq more =
      let left : ((k.frames_info f).references + 65535) % 65536 ≡ (k.frames_info f).references - 1 =
        omega arith in
      let some_left : ((k.frames_info f).references - 1 == 0) ≡ false =
        ne→== _ 0 (λ z. more (omega arith)) in
      let v = record (k.frames_info f) { references = (k.frames_info f).references - 1 } in
      let m = k.frames_info in
      rw (
        found,
        ne→== f 0 nz,
        left,
        some_left,
        write_frame_self m f v,
        write_frame_again m f v (released (m f)),
      )

  -- `unmap_frame` of a mapped page, whose table is in another frame, returns with no frame found
  -- there and only the software bits left in the entry. A frame that had one reference is clean and
  -- the first of the free ones; another has one less, and is no longer known to be at any address.
  -- No other entry, frame or directory changes.
  pub unmap_frame-Unmapped : Returns (Unmapped d va f t k) (unmap_frame d va k)
  unfolding unmapped set_frame set_entry
  unmap_frame-Unmapped = elim (ℕ_discrete (k.frames_info f).references 1) [
    | yes one ↦ rw (unmap_last-eq one) (
        returns (
          unmapped-Unmapped d va f t k at own clean_frame (f ∷ k.free_frame_list) (
            freed one (last_frame clean_frame (f ∷ k.free_frame_list))
              (last_free clean_frame (f ∷ k.free_frame_list)))))
    | no more ↦ rw (unmap_shared-eq more) (
        returns (
          unmapped-Unmapped d va f t k at own (released (k.frames_info f)) k.free_frame_list (
            kept more (last_frame (released (k.frames_info f)) k.free_frame_list)
              (last_free (released (k.frames_info f)) k.free_frame_list))))
  ]
    where
      last_frame : (v : Frame) (fs : List ℕ) → (unmapped d va f t k at own v fs).frames_info f ≡ v
      last_frame v fs = write_frame_self k.frames_info f v

      last_free : (v : Frame) (fs : List ℕ) → (unmapped d va f t k at own v fs).free_frame_list ≡ fs
      last_free v fs = refl
