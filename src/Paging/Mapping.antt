-- ===== src/Paging/Mapping.antt =====
-- `map_frame` of kern/mem/memory_manager.c.
use fos_fcis_operating_syste.Prelude.{
  ℕ, ◌+◌, ◌*◌, ◌/◌, ◌%◌, ◌^◌, ◌<◌, ◌≡◌, refl, ap, ◌∙◌, ◌≢◌, ◌⊎◌, inl, inr, true, false, ◌==◌, or32,
  or32-entry, or32-lt_page, bit, arith, ne→==, lt→leb, Bool-cases, ok, Run, Returns, returns,
}
use fos_fcis_operating_syste.Paging.Defs.{
  Frame, Paging, ptx, perm_present, extract_address, set_entry, set_frame, to_frame_info,
  to_physical_address, get_page_table, get_frame_info,
}
use fos_fcis_operating_syste.Paging.Ops.{
  link_frame, map_in_table, map_frame, pt_get_page_permissions,
}
use fos_fcis_operating_syste.Paging.Tables.{
  table_frame, get_page_table-set_frame, get_page_table-set_entry, entry_at, frame_at, frame_apart,
}

-- The software bits of an entry.
abbrev pub software_bits : ℕ → ℕ
software_bits entry = entry / 512 % 8 * 512

-- The table of `va` in the directory `d` is in memory at `t`.
abbrev pub TableAt : ℕ → ℕ → ℕ → Paging → Type 0
TableAt d va t k = (get_page_table d va k ≡ ok (true, t)) × (t ≢ 0)

-- Only the entry of `va` in the table at `t`, and the frame `f`, differ.
pub record SameBut (t i f : ℕ) (k k' : Paging) : Type 0 where
  pub directory : k'.directory ≡ k.directory
  pub env_page_directory : k'.env_page_directory ≡ k.env_page_directory
  pub number_of_frames : k'.number_of_frames ≡ k.number_of_frames
  pub tables : (t' i' : ℕ) → (t' ≢ t) ⊎ (i' ≢ i) → k'.table t' i' ≡ k.table t' i'
  pub frames : (f' : ℕ) → f' ≢ f → k'.frames_info f' ≡ k.frames_info f'

-- A write of one entry leaves the others.
pub set_entry-Apart :
    (t i e : ℕ) (k : Paging) (t' i' : ℕ)
    → (t' ≢ t) ⊎ (i' ≢ i)
    → (set_entry t i e k).table t' i' ≡ k.table t' i'
unfolding set_entry
set_entry-Apart t i e k t' i' (inl h) = rw (ne→== t' t h)
set_entry-Apart t i e k t' i' (inr h) = elim (Bool-cases (t' == t)) [
  | inl same ↦ rw (same, ne→== i' i h)
  | inr apart ↦ rw apart
]

pub set_both-SameBut :
    (t i e f : ℕ) (v : Frame) (k : Paging) → SameBut t i f k (set_entry t i e (set_frame f v k))
unfolding set_entry set_frame
set_both-SameBut t i e f v k = record {
  directory = refl;
  env_page_directory = refl;
  number_of_frames = refl;
  tables = set_entry-Apart t i e k;
  frames = λ f' h. frame_apart k f v f' h;
}

to_physical_address_small : (f : ℕ) → f < 2 ^ 20 → to_physical_address f ≡ f * 4096
unfolding to_physical_address
to_physical_address_small f h = omega arith

-- `f` is mapped at `va` with the permissions `perms`.
pub record MappedAt (d va f t perms : ℕ) (k : Paging) : Type 0 where
  pub table : TableAt d va t k
  pub found : get_frame_info d va k ≡ ok (f, t)
  pub permissions : pt_get_page_permissions d va k ≡ ok perms

pub MappedAt-entry :
    (d va f t perms : ℕ) (k : Paging)
    → TableAt d va t k
    → k.table t (ptx va) ≡ f * 4096 + perms
    → perms < 4096
    → f ≢ 0
    → f < k.number_of_frames
    → MappedAt d va f t perms k
unfolding get_frame_info pt_get_page_permissions extract_address to_frame_info
MappedAt-entry d va f t perms k (at, nz) e small fnz inside =
    let t_nz : (t == 0) ≡ false = ne→== t 0 nz in
    let whole : (f * 4096 + perms) / 4096 ≡ f = omega arith in
    let again : f * 4096 / 4096 ≡ f = omega arith in
    let low : (f * 4096 + perms) % 4096 ≡ perms = omega arith in
    let f_nz : (f * 4096 == 0) ≡ false = ne→== (f * 4096) 0 (λ z. fnz (omega (arith, z))) in
    record {
      table = (at, nz);
      found = rw (at, t_nz, e, whole, f_nz, again, lt→leb k.number_of_frames f inside);
      permissions = rw (at, t_nz, e, low);
    }

-- The entry that `map_frame` writes.
pub record Linked (d va f perm t : ℕ) (k k' : Paging) : Type 0 where
  pub mapped :
      MappedAt d va f t (or32 (or32 (software_bits (k.table t (ptx va))) perm) perm_present) k'
  pub entry :
      k'.table t (ptx va)
      ≡ f * 4096 + or32 (or32 (software_bits (k.table t (ptx va))) perm) perm_present
  pub frame : k'.frames_info f ≡ record (k.frames_info f) {
    references = ((k.frames_info f).references + 1) % 65536;
    base_va_page = va;
  }
  pub same : SameBut t (ptx va) f k k'
  pub free_frame_list : k'.free_frame_list ≡ k.free_frame_list

-- The frame with one more reference, from `va`.
abbrev pub referenced : ℕ → Frame → Frame
referenced va info = record info { references = (info.references + 1) % 65536; base_va_page = va }

-- What `map_frame` writes behind the frame number.
abbrev pub new_permissions : ℕ → ℕ → ℕ
new_permissions entry perm = or32 (or32 (software_bits entry) perm) perm_present

pub new_permissions-lt : (entry perm : ℕ) → perm < 4096 → new_permissions entry perm < 4096
new_permissions-lt entry perm low =
    or32-lt_page (or32 (software_bits entry) perm) 1
      (or32-lt_page (software_bits entry) perm (omega arith) low) (omega arith)

link_frame-eq :
    (va f perm t : ℕ) (k : Paging)
    → f < 2 ^ 20
    → perm < 4096
    → link_frame f va perm t k
      ≡ set_entry t
          (ptx va)
          (f * 4096 + new_permissions (k.table t (ptx va)) perm)
          (set_frame f (referenced va (k.frames_info f)) k)
unfolding link_frame
link_frame-eq va f perm t k fits low =
    let perms = new_permissions (k.table t (ptx va)) perm in
    let address : to_physical_address f ≡ f * 4096 = to_physical_address_small f fits in
    ap (λ e. set_entry t (ptx va) e (set_frame f (referenced va (k.frames_info f)) k))
      (ap (λ a. or32 a perms) address
        ∙ or32-entry f perms fits (new_permissions-lt (k.table t (ptx va)) perm low))

module _ (d va f perm t : ℕ) (k : Paging) (at : TableAt d va t k) (own : table_frame d va k ≢ f)
    (nz : f ≢ 0) (inside : f < k.number_of_frames) (fits : f < 2 ^ 20) (low : perm < 4096) where
  pub link_frame-Linked : Linked d va f perm t k (link_frame f va perm t k)
  unfolding set_entry set_frame
  link_frame-Linked =
      let v = referenced va (k.frames_info f) in
      let perms = new_permissions (k.table t (ptx va)) perm in
      let k1 = set_frame f v k in
      let k2 = set_entry t (ptx va) (f * 4096 + perms) k1 in
      let there : TableAt d va t k2 = (
        get_page_table-set_entry k1 t (ptx va) (f * 4096 + perms) d va
            ∙ get_page_table-set_frame k f v d va own
            ∙ at.0,
        at.1,
      ) in
      let linked : Linked d va f perm t k k2 = record {
        mapped =
            MappedAt-entry d va f t perms k2 there (entry_at k1 t (ptx va) (f * 4096 + perms))
              (new_permissions-lt (k.table t (ptx va)) perm low) nz inside;
        entry = entry_at k1 t (ptx va) (f * 4096 + perms);
        frame = frame_at k f v;
        same = set_both-SameBut t (ptx va) (f * 4096 + perms) f v k;
        free_frame_list = refl;
      } in
      rw (link_frame-eq va f perm t k fits low) linked

  -- `map_frame` at an address whose page table is in memory, in another frame, and has no present
  -- page there returns with the frame found at the address. The permissions are the software bits
  -- of before with those asked for and PERM_PRESENT; the frame has one reference more and is known
  -- to be at the address; no other entry, frame or directory changes, nor does the free list.
  pub map_frame-Linked :
      (kmalloc : ℕ → Paging → Run (ℕ × Paging)) (kernel : ℕ)
      → bit 0 (k.table t (ptx va)) ≡ false
      → Returns (Linked d va f perm t k) (map_frame kmalloc kernel d f va perm k)
  unfolding map_frame
  map_frame-Linked kmalloc kernel absent =
      rw (at.0, map_in_table, absent) (returns link_frame-Linked)
