-- ===== src/Fault/Clock.antt =====
-- What a round of the replacement loop of kern/trap/fault_handler.c does to the used bits and the
-- counters of a working set.
use fos_fcis_operating_syste.Prelude.{
  ℕ, ◌^◌, ◌<◌, ◌≡◌, refl, ap, sym, ◌∙◌, ◌⊎◌, inl, inr, Bool, true, false, not, ◌&&◌, ◌||◌, arith,
  bit, ok, Run,
}
use native.Mathlib.Decide.{ℕ_discrete}
use fos_fcis_operating_syste.Paging.{Paging, ptx, get_page_table}
use fos_fcis_operating_syste.Paging.Mapping.{TableAt}
use fos_fcis_operating_syste.Paging.Cycle.{Changed}

-- The entry of a page whose table is in memory.
pub record Resident (d va : ℕ) (k : Paging) : Type 0 where
  pub table : ℕ
  pub at : TableAt d va table k
  pub word : k.table table (ptx va) < 2 ^ 32

abbrev pub in_table : ℕ → Paging → Run (Bool × ℕ) → ℕ
in_table va k (ok (present, t)) = k.table t (ptx va)
in_table va k other = 0

abbrev pub entry_of : ℕ → ℕ → Paging → ℕ
entry_of d va k = in_table va k (get_page_table d va k)

pub entry_of_lem :
    (d va t : ℕ) (k : Paging) → TableAt d va t k → entry_of d va k ≡ k.table t (ptx va)
entry_of_lem d va t k at = ap (in_table va k) at.0

-- Some used bits have been cleared.
pub record Cleared (d : ℕ) (k k' : Paging) : Type 0 where
  pub located : (va : ℕ) → get_page_table d va k' ≡ get_page_table d va k
  pub resident : (va : ℕ) → Resident d va k → Resident d va k'
  pub modified : (va : ℕ) → Resident d va k → bit 6 (entry_of d va k') ≡ bit 6 (entry_of d va k)
  pub used :
      (va : ℕ) → Resident d va k → bit 5 (entry_of d va k') ≡ true → bit 5 (entry_of d va k) ≡ true
  pub frames : k'.frames_info ≡ k.frames_info
  pub free_frame_list : k'.free_frame_list ≡ k.free_frame_list

pub Cleared-refl : (d : ℕ) (k : Paging) → Cleared d k k
Cleared-refl d k = record {
  located = λ va. refl;
  resident = λ va r. r;
  modified = λ va r. refl;
  used = λ va r h. h;
  frames = refl;
  free_frame_list = refl;
}

pub Cleared-trans : {d : ℕ} {k l m : Paging} → Cleared d k l → Cleared d l m → Cleared d k m
Cleared-trans p q = record {
  located = λ va. q.located va ∙ p.located va;
  resident = λ va r. q.resident va (p.resident va r);
  modified = λ va r. q.modified va (p.resident va r) ∙ p.modified va r;
  used = λ va r h. p.used va r (q.used va (p.resident va r) h);
  frames = q.frames ∙ p.frames;
  free_frame_list = q.free_frame_list ∙ p.free_frame_list;
}

mask_used : bit 5 0x20 ≡ true
unfolding bit
mask_used = refl

mask_modified : bit 6 0x20 ≡ false
unfolding bit
mask_modified = refl

mask_nothing : bit 6 0 ≡ false
unfolding bit
mask_nothing = refl

cleared_bit : (a b : Bool) → b ≡ true → (a && not b) ≡ false
cleared_bit true true e = refl
cleared_bit false true e = refl
cleared_bit true false e = cc
cleared_bit false false e = cc

kept_bit : (a b c : Bool) → b ≡ false → c ≡ false → ((a || b) && not c) ≡ a
kept_bit a true c e f = cc
kept_bit a false true e f = cc
kept_bit true false false e f = refl
kept_bit false false false e f = refl

pub false-true : false ≡ true → ⊥
false-true e = cc

pub pair_eq : {a b c d : ℕ} → a ≡ b → c ≡ d → ◌≡◌ {A = ℕ × ℕ} (a, c) (b, d)
pair_eq e f = rw (e, f) refl

module _ (d va t : ℕ) (k k' : Paging) (at : TableAt d va t k) (c : Changed d va t 0 0x20 k k') where
  -- The entry of any page is the changed one, or as before.
  either :
      (va' t' : ℕ)
      → (((t' ≡ t) × (ptx va' ≡ ptx va)) ⊎ (k'.table t' (ptx va') ≡ k.table t' (ptx va')))
  either va' t' = elim (ℕ_discrete t' t) [
    | no h ↦ inr (c.tables t' (ptx va') (inl h))
    | yes e ↦ elim (ℕ_discrete (ptx va') (ptx va)) [
      | no h ↦ inr (c.tables t' (ptx va') (inr h))
      | yes i ↦ inl (e, i)
    ]
  ]

  pub Changed-unused : bit 5 (entry_of d va k') ≡ false
  Changed-unused =
      ap (bit 5) (entry_of_lem d va t k' (c.located d va ∙ at.0, at.1))
      ∙ c.bits 5 (omega arith)
      ∙ cleared_bit (bit 5 (k.table t (ptx va)) || bit 5 0) (bit 5 0x20) mask_used

  pub Changed-Cleared : Cleared d k k'
  Changed-Cleared = record {
    located = c.located d;
    resident = λ va' r. record {
      table = r.table;
      at = (c.located d va' ∙ r.at.0, r.at.1);
      word = word_at va' r (either va' r.table);
    };
    modified = λ va' r.
        ap (bit 6) (entry_of_lem d va' r.table k' (c.located d va' ∙ r.at.0, r.at.1))
        ∙ modified_at va' r (either va' r.table)
        ∙ ap (bit 6) (sym (entry_of_lem d va' r.table k r.at));
    used = λ va' r h.
        ap (bit 5) (entry_of_lem d va' r.table k r.at)
        ∙ used_at va' r (either va' r.table) (
            ap (bit 5) (sym (entry_of_lem d va' r.table k' (c.located d va' ∙ r.at.0, r.at.1)))
            ∙ h);
    frames = c.frames;
    free_frame_list = c.free_frame_list;
  }
    where
      word_at :
          (va' : ℕ) (r : Resident d va' k)
          → (((r.table ≡ t) × (ptx va' ≡ ptx va))
              ⊎ (k'.table r.table (ptx va') ≡ k.table r.table (ptx va')))
          → k'.table r.table (ptx va') < 2 ^ 32
      word_at va' r (inl (e, i)) = rw (e, i) c.word
      word_at va' r (inr same) = rw same r.word

      modified_at :
          (va' : ℕ) (r : Resident d va' k)
          → (((r.table ≡ t) × (ptx va' ≡ ptx va))
              ⊎ (k'.table r.table (ptx va') ≡ k.table r.table (ptx va')))
          → bit 6 (k'.table r.table (ptx va')) ≡ bit 6 (k.table r.table (ptx va'))
      modified_at va' r (inl (e, i)) =
          ap (λ (x : ℕ × ℕ). bit 6 (k'.table x.0 x.1)) (pair_eq e i)
          ∙ c.bits 6 (omega arith)
          ∙ kept_bit (bit 6 (k.table t (ptx va))) (bit 6 0) (bit 6 0x20) mask_nothing mask_modified
          ∙ ap (λ (x : ℕ × ℕ). bit 6 (k.table x.0 x.1)) (sym (pair_eq e i))
      modified_at va' r (inr same) = ap (bit 6) same

      used_at :
          (va' : ℕ) (r : Resident d va' k)
          → (((r.table ≡ t) × (ptx va' ≡ ptx va))
              ⊎ (k'.table r.table (ptx va') ≡ k.table r.table (ptx va')))
          → bit 5 (k'.table r.table (ptx va')) ≡ true
          → bit 5 (k.table r.table (ptx va')) ≡ true
      used_at va' r (inl (e, i)) h =
          let gone : bit 5 (k'.table t (ptx va)) ≡ false =
            c.bits 5 (omega arith)
            ∙ cleared_bit (bit 5 (k.table t (ptx va)) || bit 5 0) (bit 5 0x20) mask_used in
          absurd (
            false-true
              (sym gone ∙ ap (λ (x : ℕ × ℕ). bit 5 (k'.table x.0 x.1)) (sym (pair_eq e i)) ∙ h))
      used_at va' r (inr same) h = ap (bit 5) (sym same) ∙ h
