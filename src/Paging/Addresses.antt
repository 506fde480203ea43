-- ===== src/Paging/Addresses.antt =====
-- `kheap_physical_address` and `kheap_virtual_address` of kern/mem/kheap.c, between the addresses of
-- a mapped page and those of its frame.
use fos_fcis_operating_syste.Prelude.{
  ℕ, ◌+◌, ◌-◌, ◌*◌, ◌/◌, ◌%◌, ◌^◌, ◌<◌, ◌≡◌, refl, ap, ◌∙◌, ◌≢◌, true, false, arith, ne→==, lt→leb,
  ltb, bit, ok, Run, add32, add32_small, sub32_small, word_mod, Returns, Returns-mono,
}
use fos_fcis_operating_syste.Paging.Defs.{
  Paging, pdx, ptx, user_top, to_frame_info, get_page_table, get_frame_info, table_address,
  kheap_virtual_address, kheap_physical_address,
}
use fos_fcis_operating_syste.Paging.Ops.{map_frame}
use fos_fcis_operating_syste.Paging.Tables.{table_frame}
use fos_fcis_operating_syste.Paging.Mapping.{TableAt, MappedAt, map_frame-Linked}

module _ (va o : ℕ) (aligned : va % 4096 ≡ 0) (offset : o < 4096) where
  pdx_offset : pdx (va + o) ≡ pdx va
  unfolding pdx
  pdx_offset = omega arith

  ptx_offset : ptx (va + o) ≡ ptx va
  unfolding ptx
  ptx_offset = omega arith

  below_offset : ltb (va + o) user_top ≡ ltb va user_top
  below_offset = ground arith

  -- All addresses of a page share its table and its frame.
  pub get_page_table-offset :
      (d : ℕ) (k : Paging) → get_page_table d (va + o) k ≡ get_page_table d va k
  unfolding get_page_table table_address
  get_page_table-offset d k = rw (pdx_offset, below_offset)

  pub get_frame_info-offset :
      (d : ℕ) (k : Paging) → get_frame_info d (va + o) k ≡ get_frame_info d va k
  unfolding get_frame_info
  get_frame_info-offset d k = rw (get_page_table-offset d k, ptx_offset)

-- Both translations of the address `va + o` of a page at `va`.
pub record Translates (d va f o : ℕ) (k : Paging) : Type 0 where
  pub to_physical : kheap_physical_address d (va + o) k ≡ ok (f * 4096 + o)
  pub to_virtual : kheap_virtual_address (f * 4096 + o) k ≡ ok (va + o)

MappedAt-Translates :
    (d va f t perms o : ℕ) (k : Paging)
    → MappedAt d va f t perms k
    → f ≢ 0
    → f < k.number_of_frames
    → f < 2 ^ 20
    → (k.frames_info f).references ≢ 0
    → (k.frames_info f).base_va_page ≡ va
    → va % 4096 ≡ 0
    → va < word_mod
    → o < 4096
    → Translates d va f o k
unfolding kheap_physical_address kheap_virtual_address to_frame_info
MappedAt-Translates d va f t perms o k m nz inside fits counted base aligned fits_va offset =
    let same_table : get_page_table d (va + o) k ≡ ok (true, t) =
      get_page_table-offset va o aligned offset d k ∙ m.table.0 in
    let same_frame : get_frame_info d (va + o) k ≡ ok (f, t) =
      get_frame_info-offset va o aligned offset d k ∙ m.found in
    let low : (va + o) % 4096 ≡ o = omega arith in
    let start : f * 4096 % word_mod ≡ f * 4096 = omega arith in
    let number : (f * 4096 + o) / 4096 ≡ f = omega arith in
    record {
      to_physical = rw (
        same_frame,
        same_table,
        ne→== f 0 nz,
        low,
        start,
        add32_small (f * 4096) o (omega arith),
      );
      to_virtual =
          rw
            (
              number,
              lt→leb k.number_of_frames f inside,
              ne→== (k.frames_info f).references 0 counted,
              base,
              start,
              sub32_small (f * 4096 + o) (f * 4096) (omega arith) (omega arith),
            )
            (ap ok rest);
    }
  where
    rest : add32 va (f * 4096 + o - f * 4096) ≡ va + o
    rest =
        let cancel : f * 4096 + o - f * 4096 ≡ o = omega arith in
        rw cancel (add32_small va o (omega arith))

-- After `map_frame` of a frame that is not frame 0, is not full of references and does not hold the
-- page table, at a page whose table is in memory and has no present page there,
-- `kheap_physical_address` answers for each address of the page with that of the same byte of the
-- frame, and `kheap_virtual_address` leads back.
pub map_frame-Translates :
    (kmalloc : ℕ → Paging → Run (ℕ × Paging)) (kernel d va f perm t : ℕ) (k : Paging)
    → TableAt d va t k
    → table_frame d va k ≢ f
    → f ≢ 0
    → f < k.number_of_frames
    → f < 2 ^ 20
    → perm < 4096
    → bit 0 (k.table t (ptx va)) ≡ false
    → (k.frames_info f).references < 65535
    → va % 4096 ≡ 0
    → va < word_mod
    → Returns
        (λ k'. (o : ℕ) → o < 4096 → Translates d va f o k')
        (map_frame kmalloc kernel d f va perm k)
map_frame-Translates kmalloc kernel d va f perm t k at own nz inside fits low absent bounded aligned
      fits_va =
    Returns-mono (map_frame-Linked d va f perm t k at own nz inside fits low kmalloc kernel absent)
      λ k' l o offset.
        MappedAt-Translates d va f t _ o k' l.mapped nz (rw (l.same.number_of_frames) inside) fits
          (rw (l.frame) (λ z. absurd (omega (arith, z)))) (rw (l.frame) refl) aligned fits_va offset
