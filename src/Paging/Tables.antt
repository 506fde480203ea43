-- ===== src/Paging/Tables.antt =====
-- Where page tables are does not depend on the entries of tables, and on no frame but their own.
use fos_fcis_operating_syste.Prelude.{
  ℕ, ◌*◌, ◌/◌, ◌≡◌, refl, ap, ◌≢◌, true, false, ◌==◌, if◌then◌else◌, arith, ne→==, eq→==, ltb, leb,
  bit, Bool-cases, inl, inr, ok, panic, Run, ◌>>=◌,
}
use mathlib.Core.Path.{fun_ext}
use fos_fcis_operating_syste.Paging.Defs.{
  Frame, Paging, pdx, extract_address, set_entry, set_frame, write_frame, to_frame_info,
  kheap_virtual_address, user_top, static_kernel_virtual_address, table_address, get_page_table,
}

-- The frame that holds the table of `va`.
abbrev pub table_frame : ℕ → ℕ → Paging → ℕ
table_frame d va k = k.directory d (pdx va) / 4096

module _ (k : Paging) (f : ℕ) (v : Frame) where
  kheap_virtual_address-set_frame :
      (pa : ℕ)
      → pa / 4096 ≢ f
      → kheap_virtual_address pa (set_frame f v k) ≡ kheap_virtual_address pa k
  unfolding kheap_virtual_address to_frame_info set_frame
  kheap_virtual_address-set_frame pa apart =
      elim (Bool-cases (leb k.number_of_frames (pa / 4096))) [
        | inl e ↦ rw e
        | inr e ↦ rw (e, ne→== (pa / 4096) f apart)
      ]

  pub get_page_table-set_frame :
      (d va : ℕ)
      → table_frame d va k ≢ f
      → get_page_table d va (set_frame f v k) ≡ get_page_table d va k
  unfolding get_page_table table_address extract_address static_kernel_virtual_address set_frame
  get_page_table-set_frame d va apart =
      let own : k.directory d (pdx va) / 4096 * 4096 / 4096 ≢ f = λ e. apart (omega (arith, e)) in
      ap
        (λ (r : Run ℕ).
          if bit 0 (k.directory d (pdx va))
          then ((if ltb va user_top
                then r
                else static_kernel_virtual_address (k.directory d (pdx va) / 4096 * 4096) k)
              >>= λ t. ok (true, t))
          else if k.directory d (pdx va) == 0
          then ok (false, 0)
          else panic)
        (kheap_virtual_address-set_frame (k.directory d (pdx va) / 4096 * 4096) own)

pub get_page_table-set_entry :
    (k : Paging) (t i v d va : ℕ) → get_page_table d va (set_entry t i v k) ≡ get_page_table d va k
unfolding get_page_table set_entry kheap_virtual_address to_frame_info static_kernel_virtual_address
    table_address
get_page_table-set_entry k t i v d va = refl

pub entry_at : (k : Paging) (t i v : ℕ) → (set_entry t i v k).table t i ≡ v
unfolding set_entry
entry_at k t i v = rw (eq→== t t refl, eq→== i i refl)

pub frame_at : (k : Paging) (f : ℕ) (v : Frame) → (set_frame f v k).frames_info f ≡ v
unfolding set_frame
frame_at k f v = rw (eq→== f f refl)

pub frame_apart :
    (k : Paging) (f : ℕ) (v : Frame) (f' : ℕ)
    → f' ≢ f
    → (set_frame f v k).frames_info f' ≡ k.frames_info f'
unfolding set_frame
frame_apart k f v f' h = rw (ne→== f' f h)

pub write_frame_self : (m : ℕ → Frame) (f : ℕ) (v : Frame) → write_frame m f v f ≡ v
unfolding write_frame
write_frame_self m f v = rw (eq→== f f refl)

pub write_frame_again :
    (m : ℕ → Frame) (f : ℕ) (v w : Frame) → write_frame (write_frame m f v) f w ≡ write_frame m f w
unfolding write_frame
write_frame_again m f v w = fun_ext λ f'. at f'
  where
    at :
        (f' : ℕ)
        → (if f' == f then w else if f' == f then v else m f') ≡ (if f' == f then w else m f')
    at f' = elim (Bool-cases (f' == f)) [ inl e ↦ rw e | inr e ↦ rw e ]
