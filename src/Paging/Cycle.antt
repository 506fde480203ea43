-- ===== src/Paging/Cycle.antt =====
-- `allocate_frame`, `map_frame` and `unmap_frame` of kern/mem/memory_manager.c after one another,
-- and the permissions of kern/mem/paging_helpers.c.
use fos_fcis_operating_syste.Prelude.{
  ℕ, ◌+◌, ◌/◌, ◌%◌, ◌^◌, ◌<◌, ◌≡◌, refl, ap, sym, ◌∙◌, ◌≢◌, ◌⊎◌, true, false, not, ◌&&◌, ◌||◌, List,
  ◌∷◌, ◌==◌, arith, ne→==, bit, or32, clear32, or32-lt, clear32-lt, frame-or32, frame-clear32,
  bit-or32, bit-clear32, ok, Run, ◌>>=◌, Returns, returns, Returns-bind, Returns-mono,
}
use fos_fcis_operating_syste.Paging.Defs.{
  Frame, Paging, ptx, set_entry, set_frame, get_page_table, get_frame_info,
}
use fos_fcis_operating_syste.Paging.Ops.{
  clean_frame, allocate_frame, map_frame, unmap_frame, pt_get_page_permissions,
  pt_set_page_permissions,
}
use fos_fcis_operating_syste.Paging.Tables.{
  table_frame, get_page_table-set_frame, get_page_table-set_entry, entry_at, frame_at, frame_apart,
}
use fos_fcis_operating_syste.Paging.Mapping.{TableAt, SameBut, map_frame-Linked, set_entry-Apart}
use fos_fcis_operating_syste.Paging.Unmapping.{
  Dropped, freed, kept, with_free, unmap_frame-Unmapped,
}

pub SameBut-trans :
    {t i f : ℕ} {k l m : Paging} → SameBut t i f k l → SameBut t i f l m → SameBut t i f k m
SameBut-trans p q = record {
  directory = q.directory ∙ p.directory;
  env_page_directory = q.env_page_directory ∙ p.env_page_directory;
  number_of_frames = q.number_of_frames ∙ p.number_of_frames;
  tables = λ t' i' h. q.tables t' i' h ∙ p.tables t' i' h;
  frames = λ f' h. q.frames f' h ∙ p.frames f' h;
}

pub allocate_frame_lem :
    (f : ℕ) (fs : List ℕ) (k : Paging)
    → k.free_frame_list ≡ f ∷ fs
    → (k.frames_info f).is_buffered ≡ false
    → allocate_frame k ≡ ok (f, set_frame f clean_frame (with_free fs k))
unfolding allocate_frame
allocate_frame_lem f fs k e plain = rw (e, plain)

pub TableAt-allocated :
    (d va f t : ℕ) (fs : List ℕ) (k : Paging)
    → TableAt d va t k
    → table_frame d va k ≢ f
    → TableAt d va t (set_frame f clean_frame (with_free fs k))
unfolding get_page_table
TableAt-allocated d va f t fs k at own =
    (get_page_table-set_frame (with_free fs k) f clean_frame d va own ∙ at.0, at.1)

module _ (d va f t : ℕ) (fs : List ℕ) (k : Paging) where
  -- What remains of it when a frame that has been mapped is unmapped again.
  pub record Restored (k' : Paging) : Type 0 where
    pub free_frame_list : k'.free_frame_list ≡ k.free_frame_list
    pub frame : k'.frames_info f ≡ clean_frame
    pub found : get_frame_info d va k' ≡ ok (0, t)
    pub same : SameBut t (ptx va) f k k'

  -- A frame that is allocated, not buffered, mapped at a page whose table is in memory in another
  -- frame, where nothing was present, and then unmapped is clean and again the first free frame.
  -- The page has no frame, and no other entry, frame or directory has changed.
  pub unmap_frame-map_frame :
      (kmalloc : ℕ → Paging → Run (ℕ × Paging)) (kernel perm : ℕ)
      → TableAt d va t k
      → table_frame d va k ≢ f
      → k.free_frame_list ≡ f ∷ fs
      → (k.frames_info f).is_buffered ≡ false
      → f ≢ 0
      → f < k.number_of_frames
      → f < 2 ^ 20
      → perm < 4096
      → bit 0 (k.table t (ptx va)) ≡ false
      → Returns Restored (
          allocate_frame k >>= λ (f', k1).
          map_frame kmalloc kernel d f' va perm k1 >>= unmap_frame d va)
  unfolding set_frame
  unmap_frame-map_frame kmalloc kernel perm at own e plain nz inside fits low absent =
      let k1 = set_frame f clean_frame (with_free fs k) in
      let at1 = TableAt-allocated d va f t fs k at own in
      let clean1 : k1.frames_info f ≡ clean_frame = frame_at (with_free fs k) f clean_frame in
      let same1 : SameBut t (ptx va) f k k1 = record {
        directory = refl;
        env_page_directory = refl;
        number_of_frames = refl;
        tables = λ t' i' h. refl;
        frames = λ f' h. frame_apart (with_free fs k) f clean_frame f' h;
      } in
      rw (allocate_frame_lem f fs k e plain) (
        Returns-bind
          (map_frame-Linked d va f perm t k1 at1 own nz inside fits low kmalloc kernel absent)
          λ k2 l.
            let one : (k2.frames_info f).references ≡ 1 =
              ap (λ (x : Frame). x.references) l.frame
              ∙ ap (λ (x : Frame). (x.references + 1) % 65536) clean1 in
            Returns-mono
              (unmap_frame-Unmapped d va f t k2 l.mapped.table (rw (l.same.directory) own) nz
                l.mapped.found (omega (arith, one)) (omega (arith, one)))
              λ k3 u. record {
                free_frame_list =
                    free_again (λ more. more one) u.dropped
                    ∙ ap (λ x. f ∷ x) l.free_frame_list
                    ∙ sym e;
                frame = clean_again (λ more. more one) u.dropped;
                found = u.found;
                same = SameBut-trans same1 (SameBut-trans l.same u.same);
              })
    where
      free_again :
          {k2 k3 : Paging}
          → ¬ ((k2.frames_info f).references ≢ 1)
          → Dropped f k2 k3
          → k3.free_frame_list ≡ f ∷ k2.free_frame_list
      free_again once (freed one frame free) = free
      free_again once (kept more frame free) = absurd (once more)

      clean_again :
          {k2 k3 : Paging}
          → ¬ ((k2.frames_info f).references ≢ 1)
          → Dropped f k2 k3
          → k3.frames_info f ≡ clean_frame
      clean_again once (freed one frame free) = frame
      clean_again once (kept more frame free) = absurd (once more)

-- An entry after `pt_set_page_permissions`.
pub record Changed (d va t set clear : ℕ) (k k' : Paging) : Type 0 where
  pub frame : k'.table t (ptx va) / 4096 ≡ k.table t (ptx va) / 4096
  pub bits :
      (j : ℕ)
      → j < 32
      → bit j (k'.table t (ptx va))
        ≡ ((bit j (k.table t (ptx va)) || bit j set) && not (bit j clear))
  pub permissions : pt_get_page_permissions d va k' ≡ ok (k'.table t (ptx va) % 4096)
  pub tables : (t' i' : ℕ) → (t' ≢ t) ⊎ (i' ≢ ptx va) → k'.table t' i' ≡ k.table t' i'
  pub word : k'.table t (ptx va) < 2 ^ 32
  pub located : (d' va' : ℕ) → get_page_table d' va' k' ≡ get_page_table d' va' k
  pub frames : k'.frames_info ≡ k.frames_info
  pub number_of_frames : k'.number_of_frames ≡ k.number_of_frames
  pub directory : k'.directory ≡ k.directory
  pub free_frame_list : k'.free_frame_list ≡ k.free_frame_list

-- `pt_set_page_permissions` of an address whose table is in memory returns with exactly the bits to
-- clear cleared and, of the others, those to set set, and with the same frame in the entry. No other
-- entry changes, and `pt_get_page_permissions` answers with the new bits.
pub pt_set_page_permissions-Changed :
    (d va t set clear : ℕ) (k : Paging)
    → TableAt d va t k
    → set < 4096
    → clear < 4096
    → k.table t (ptx va) < 2 ^ 32
    → Returns (Changed d va t set clear k) (pt_set_page_permissions d va set clear k)
unfolding pt_set_page_permissions pt_get_page_permissions
pt_set_page_permissions-Changed d va t set clear k at small small' word =
    let old = k.table t (ptx va) in
    let new = clear32 (or32 old set) clear in
    let k' = set_entry t (ptx va) new k in
    let t_nz : (t == 0) ≡ false = ne→== t 0 at.1 in
    let there : get_page_table d va k' ≡ ok (true, t) =
      get_page_table-set_entry k t (ptx va) new d va ∙ at.0 in
    let e : k'.table t (ptx va) ≡ new = entry_at k t (ptx va) new in
    let s = set_entry-Apart t (ptx va) new k in
    let done : Changed d va t set clear k k' = record {
      frame = rw e (
          frame-clear32 (or32 old set) clear (or32-lt old set) small'
          ∙ frame-or32 old set word small);
      bits = λ j h. rw e (
          bit-clear32 j (or32 old set) clear h
          ∙ ap (λ b. b && not (bit j clear)) (bit-or32 j old set h));
      permissions = rw (there, t_nz);
      tables = s;
      word = rw e (clear32-lt (or32 old set) clear);
      located = get_page_table-set_entry k t (ptx va) new;
      frames = refl;
      number_of_frames = refl;
      directory = refl;
      free_frame_list = refl;
    } in
    rw (at.0, t_nz) (returns done)
