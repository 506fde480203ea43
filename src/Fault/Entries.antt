-- ===== src/Fault/Entries.antt =====
-- The entry of a page that the placement of kern/trap/fault_handler.c has mapped and marked.
use fos_fcis_operating_syste.Prelude.{
  ℕ, zero, suc, ◌+◌, ◌-◌, ◌*◌, ◌/◌, ◌%◌, ◌^◌, ◌<◌, ◌≡◌, refl, ap, sym, ◌∙◌, ◌≢◌, Bool, true, false,
  not, ◌&&◌, ◌||◌, ◌==◌, if◌then◌else◌, arith, ne→==, lt→leb, bit, or32, bit-or32, bit-page,
  bit_zero, ok, Run, ◌>>=◌,
}
use fos_fcis_operating_syste.Paging.{
  Frame, Paging, ptx, set_frame, get_frame_info, extract_address, to_frame_info,
  pt_get_page_permissions,
}
use fos_fcis_operating_syste.Paging.Tables.{table_frame, get_page_table-set_frame}
use fos_fcis_operating_syste.Paging.Mapping.{
  TableAt, Linked, referenced, new_permissions, new_permissions-lt,
}
use fos_fcis_operating_syste.Paging.Cycle.{Changed}

-- What get_frame_info finds depends on the table's place and the frame number in the entry.
pub get_frame_info_same :
    (d va t f : ℕ) (k' : Paging)
    → TableAt d va t k'
    → k'.table t (ptx va) / 4096 ≡ f
    → f ≢ 0
    → f < k'.number_of_frames
    → get_frame_info d va k' ≡ ok (f, t)
unfolding get_frame_info extract_address to_frame_info
get_frame_info_same d va t f k' at e nz inside =
    let again : f * 4096 / 4096 ≡ f = omega arith in
    rw
      (
        at.0,
        ne→== t 0 at.1,
        e,
        ne→== (f * 4096) 0 (λ z. nz (omega (arith, z))),
        again,
        lt→leb k'.number_of_frames f inside,
      )
      refl

pub pt_get_page_permissions-set_frame :
    (d va f : ℕ) (v : Frame) (k : Paging)
    → table_frame d va k ≢ f
    → pt_get_page_permissions d va (set_frame f v k) ≡ pt_get_page_permissions d va k
unfolding pt_get_page_permissions set_frame
pt_get_page_permissions-set_frame d va f v k own =
    ap
      (λ (g : Run (Bool × ℕ)).
        g >>= λ (present, t). ok (if t == 0 then 2 ^ 32 - 1 else k.table t (ptx va) % 4096))
      (get_page_table-set_frame k f v d va own)

-- What `map_frame` for the handler leaves: `va` is at `f`, and the bits 0, 1 and 2 are set.
pub record Filled (d va f t : ℕ) (k k' : Paging) : Type 0 where
  pub table : TableAt d va t k'
  pub page : k'.table t (ptx va) / 4096 ≡ f
  pub word : k'.table t (ptx va) < 2 ^ 32
  pub given : (j : ℕ) → j < 12 → bit j 7 ≡ true → bit j (k'.table t (ptx va)) ≡ true
  pub frame : k'.frames_info f ≡ referenced va (k.frames_info f)
  pub directory : k'.directory ≡ k.directory
  pub number_of_frames : k'.number_of_frames ≡ k.number_of_frames
  pub free_frame_list : k'.free_frame_list ≡ k.free_frame_list

or_second : (a b c : Bool) → b ≡ true → ((a || b) || c) ≡ true
or_second a b c h = ground arith

pub Linked-Filled :
    {d va f t : ℕ} {k k' : Paging} → f < 2 ^ 20 → Linked d va f 7 t k k' → Filled d va f t k k'
Linked-Filled {va} {f} {t} {k} {k'} fits l =
    let perms = new_permissions (k.table t (ptx va)) 7 in
    let bound = new_permissions-lt (k.table t (ptx va)) 7 (omega arith) in
    let soft = k.table t (ptx va) / 512 % 8 * 512 in
    let page : (f * 4096 + perms) % 4096 ≡ perms = omega arith in
    record {
      table = l.mapped.table;
      page = omega (arith, l.entry, bound);
      word = omega (arith, l.entry, bound);
      given = λ j low h.
          ap (bit j) l.entry
          ∙ sym (bit-page j (f * 4096 + perms) low)
          ∙ ap (bit j) page
          ∙ bit-or32 j (or32 soft 7) 1 (omega (arith, low))
          ∙ ap (λ b. b || bit j 1) (bit-or32 j soft 7 (omega (arith, low)))
          ∙ or_second (bit j soft) (bit j 7) (bit j 1) h;
      frame = l.frame;
      directory = l.same.directory;
      number_of_frames = l.same.number_of_frames;
      free_frame_list = l.free_frame_list;
    }

-- The mark of a modified page is none of the bits 0, 1 and 2.
modified_apart : (j : ℕ) → bit j 7 ≡ true → bit j 64 ≡ false
unfolding bit
modified_apart zero h = refl
modified_apart (suc zero) h = refl
modified_apart (suc (suc zero)) h = refl
modified_apart (suc (suc (suc j))) h = let clear = bit_zero j in cc

keep_set : (a s c : Bool) → a ≡ true → c ≡ false → ((a || s) && not c) ≡ true
keep_set a s c e n = ground arith

-- Without its mark as modified the page is as it was.
pub Filled-unmodified :
    {d va f t : ℕ} {k k' k3 : Paging}
    → Filled d va f t k k'
    → Changed d va t 0 64 k' k3
    → Filled d va f t k k3
Filled-unmodified {d} {va} {f} {t} {k} {k'} {k3} l c = record {
  table = (c.located d va ∙ l.table.0, l.table.1);
  page = c.frame ∙ l.page;
  word = c.word;
  given = λ j low h.
      c.bits j (omega (arith, low))
      ∙ keep_set (bit j (k'.table t (ptx va))) (bit j 0) (bit j 64) (l.given j low h)
          (modified_apart j h);
  frame = ap (λ (m : ℕ → Frame). m f) c.frames ∙ l.frame;
  directory = c.directory ∙ l.directory;
  number_of_frames = c.number_of_frames ∙ l.number_of_frames;
  free_frame_list = c.free_frame_list ∙ l.free_frame_list;
}

mark_set :
    (a s z : Bool)
    → (b : Bool) → (b || s) ≡ true
    → (b ≡ true → a ≡ true)
    → z ≡ false
    → ((a || s) && not z) ≡ true
mark_set a s z true e given n = keep_set a s z (given refl) n
mark_set a true z false e given n = ground arith
mark_set a false z false e given n = cc

-- The bits of an entry that has been filled and then marked as faulted in.
pub entry_bit :
    (d va f t j : ℕ) (k1 k2 k3 : Paging)
    → j < 12
    → Filled d va f t k1 k2
    → Changed d va t 2048 0 k2 k3
    → (bit j 7 || bit j 2048) ≡ true
    → bit j (k3.table t (ptx va) % 4096) ≡ true
entry_bit d va f t j k1 k2 k3 low l c h =
    bit-page j (k3.table t (ptx va)) low
    ∙ c.bits j (omega (arith, low))
    ∙ mark_set (bit j (k2.table t (ptx va))) (bit j 2048) (bit j 0) (bit j 7) h (l.given j low)
        (bit_zero j)

pub marks_present : (bit 0 7 || bit 0 2048) ≡ true
unfolding bit
marks_present = refl

pub marks_writeable : (bit 1 7 || bit 1 2048) ≡ true
unfolding bit
marks_writeable = refl

pub marks_user : (bit 2 7 || bit 2 2048) ≡ true
unfolding bit
marks_user = refl

pub marks_faulted : (bit 11 7 || bit 11 2048) ≡ true
unfolding bit
marks_faulted = refl
