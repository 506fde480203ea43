-- ===== src/Paging/Located.antt =====
-- A change of one frame and one entry leaves the page tables where they are that lie in other frames.
use fos_fcis_operating_syste.Prelude.{
  ℕ, ◌*◌, ◌/◌, ◌≡◌, refl, ap, ◌∙◌, ◌≢◌, inl, inr, Bool, true, false, ltb, leb, ◌==◌, if◌then◌else◌,
  arith, bit, Bool-cases, panic, ok, Run, ◌>>=◌,
}
use fos_fcis_operating_syste.Paging.Defs.{
  Paging, pdx, extract_address, to_frame_info, kheap_virtual_address, static_kernel_virtual_address,
  table_address, get_page_table, user_top,
}
use fos_fcis_operating_syste.Paging.Tables.{table_frame}
use fos_fcis_operating_syste.Paging.Mapping.{SameBut}

module _ {t i f : ℕ} {k k' : Paging} (b : SameBut t i f k k') where
  kheap_virtual_address-SameBut :
      (pa : ℕ) → pa / 4096 ≢ f → kheap_virtual_address pa k' ≡ kheap_virtual_address pa k
  unfolding kheap_virtual_address to_frame_info
  kheap_virtual_address-SameBut pa own = elim (Bool-cases (leb k.number_of_frames (pa / 4096))) [
    | inl e ↦ rw (b.number_of_frames, e) refl
    | inr e ↦ rw (b.number_of_frames, e, b.frames (pa / 4096) own) refl
  ]

  static-SameBut :
      (pa : ℕ) → static_kernel_virtual_address pa k' ≡ static_kernel_virtual_address pa k
  unfolding static_kernel_virtual_address
  static-SameBut pa = rw b.number_of_frames refl

  abbrev table_of : (va entry : ℕ) → Run ℕ → Run ℕ → Run (Bool × ℕ)
  table_of va entry low high =
      if bit 0 entry
      then ((if ltb va user_top then low else high) >>= λ t'. ok (true, t'))
      else if entry == 0
      then ok (false, 0)
      else panic

  -- A table stays where it is when its frame, its directory and the number of frames do.
  pub get_page_table-SameBut :
      (d va : ℕ) → table_frame d va k ≢ f → get_page_table d va k' ≡ get_page_table d va k
  unfolding get_page_table table_address extract_address
  get_page_table-SameBut d va own =
      let entry = k.directory d (pdx va) in
      let pa = entry / 4096 * 4096 in
      ap
        (λ (m : ℕ → ℕ → ℕ).
          table_of va (m d (pdx va)) (kheap_virtual_address (m d (pdx va) / 4096 * 4096) k')
            (static_kernel_virtual_address (m d (pdx va) / 4096 * 4096) k'))
        b.directory
      ∙ ap (λ low. table_of va entry low (static_kernel_virtual_address pa k'))
          (kheap_virtual_address-SameBut pa (λ e. own (omega (arith, e))))
      ∙ ap (table_of va entry (kheap_virtual_address pa k)) (static-SameBut pa)
