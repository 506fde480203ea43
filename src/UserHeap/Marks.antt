-- ===== src/UserHeap/Marks.antt =====
-- What reserving a page does to the page tables, for kern/mem/chunk_operations.c.
use fos_fcis_operating_syste.Prelude.{
  bit_zero, ℕ, zero, suc, ◌^◌, ◌<◌, ◌≡◌, refl, ap, sym, ◌∙◌, subst, ◌≢◌, inl, inr, Bool, true,
  false, not, ◌&&◌, ◌||◌, arith, bit,
}
use native.Mathlib.Decide.{ℕ_discrete}
use fos_fcis_operating_syste.Paging.{Paging, ptx}
use fos_fcis_operating_syste.Paging.Mapping.{TableAt}
use fos_fcis_operating_syste.Paging.Cycle.{Changed}
use fos_fcis_operating_syste.Fault.Clock.{Resident, entry_of, entry_of_lem, pair_eq}

-- Bits 2 and 10 of some entries have been set, and nothing else has changed.
pub record Marked (d : ℕ) (k k' : Paging) : Type 0 where
  pub resident : (va : ℕ) → Resident d va k → Resident d va k'
  pub set :
      (va j : ℕ)
      → Resident d va k
      → j < 32
      → bit j (entry_of d va k) ≡ true
      → bit j (entry_of d va k') ≡ true
  pub others :
      (va j : ℕ)
      → Resident d va k
      → j < 32
      → j ≢ 2
      → j ≢ 10
      → bit j (entry_of d va k') ≡ bit j (entry_of d va k)
  pub frames : k'.frames_info ≡ k.frames_info
  pub directory : k'.directory ≡ k.directory
  pub free_frame_list : k'.free_frame_list ≡ k.free_frame_list

pub Marked-refl : (d : ℕ) (k : Paging) → Marked d k k
Marked-refl d k = record {
  resident = λ va r. r;
  set = λ va j r l h. h;
  others = λ va j r l h h'. refl;
  frames = refl;
  directory = refl;
  free_frame_list = refl;
}

pub Marked-trans : {d : ℕ} {k l m : Paging} → Marked d k l → Marked d l m → Marked d k m
Marked-trans p q = record {
  resident = λ va r. q.resident va (p.resident va r);
  set = λ va j r l h. q.set va j (p.resident va r) l (p.set va j r l h);
  others = λ va j r l h h'. q.others va j (p.resident va r) l h h' ∙ p.others va j r l h h';
  frames = q.frames ∙ p.frames;
  directory = q.directory ∙ p.directory;
  free_frame_list = q.free_frame_list ∙ p.free_frame_list;
}

marks_reserved : bit 10 1028 ≡ true
unfolding bit
marks_reserved = refl

marks_others : (j : ℕ) → j < 32 → j ≢ 2 → j ≢ 10 → bit j 1028 ≡ false
unfolding bit
marks_others zero l h h' = refl
marks_others (suc zero) l h h' = refl
marks_others (suc (suc zero)) l h h' = absurd (h refl)
marks_others (suc (suc (suc zero))) l h h' = refl
marks_others (suc (suc (suc (suc zero)))) l h h' = refl
marks_others (suc (suc (suc (suc (suc zero))))) l h h' = refl
marks_others (suc (suc (suc (suc (suc (suc zero)))))) l h h' = refl
marks_others (suc (suc (suc (suc (suc (suc (suc zero))))))) l h h' = refl
marks_others (suc (suc (suc (suc (suc (suc (suc (suc zero)))))))) l h h' = refl
marks_others (suc (suc (suc (suc (suc (suc (suc (suc (suc zero))))))))) l h h' = refl
marks_others (suc (suc (suc (suc (suc (suc (suc (suc (suc (suc zero)))))))))) l h h' =
    absurd (h' refl)
marks_others (suc (suc (suc (suc (suc (suc (suc (suc (suc (suc (suc j))))))))))) l h h' = bit_zero j

kept : (a b c : Bool) → c ≡ false → a ≡ true → ((a || b) && not c) ≡ true
kept true b false e h = refl
kept true b true e h = cc
kept false b c e h = cc

same_bit : (a b c : Bool) → b ≡ false → c ≡ false → ((a || b) && not c) ≡ a
same_bit a true c e f = cc
same_bit a false true e f = cc
same_bit true false false e f = refl
same_bit false false false e f = refl

set_bit : (a b c : Bool) → b ≡ true → c ≡ false → ((a || b) && not c) ≡ true
set_bit true true false e f = refl
set_bit false true false e f = refl
set_bit a false c e f = cc
set_bit a true true e f = cc

module _ (d va t : ℕ) (k k' : Paging) (at : TableAt d va t k) (c : Changed d va t 1028 0 k k') where
  pub reserved_bit : bit 10 (entry_of d va k') ≡ true
  reserved_bit =
      ap (bit 10) (entry_of_lem d va t k' (c.located d va ∙ at.0, at.1))
      ∙ c.bits 10 (omega arith)
      ∙ set_bit (bit 10 (k.table t (ptx va))) (bit 10 1028) (bit 10 0) marks_reserved (bit_zero 10)

  -- An entry is the changed one or as before.
  entry_case :
      (P : ℕ → ℕ → Type 0) (va' : ℕ) (r : Resident d va' k)
      → P (k.table t (ptx va)) (k'.table t (ptx va))
      → ((x : ℕ) → x < 2 ^ 32 → P x x)
      → P (k.table r.table (ptx va')) (k'.table r.table (ptx va'))
  entry_case P va' r changed same = elim (ℕ_discrete r.table t) [
    | no h ↦
        subst (P (k.table r.table (ptx va'))) (sym (c.tables r.table (ptx va') (inl h)))
          (same (k.table r.table (ptx va')) r.word)
    | yes e ↦ elim (ℕ_discrete (ptx va') (ptx va)) [
      | no h ↦
          subst (P (k.table r.table (ptx va'))) (sym (c.tables r.table (ptx va') (inr h)))
            (same (k.table r.table (ptx va')) r.word)
      | yes i ↦
          subst (λ (x : ℕ × ℕ). P (k.table x.0 x.1) (k'.table x.0 x.1)) (sym (pair_eq e i)) changed
    ]
  ]

  entry_of_case :
      (P : ℕ → ℕ → Type 0) (va' : ℕ) (r : Resident d va' k)
      → P (k.table t (ptx va)) (k'.table t (ptx va))
      → ((x : ℕ) → x < 2 ^ 32 → P x x)
      → P (entry_of d va' k) (entry_of d va' k')
  entry_of_case P va' r changed same =
      subst (P (entry_of d va' k))
        (sym (entry_of_lem d va' r.table k' (c.located d va' ∙ r.at.0, r.at.1)))
        (subst (λ x. P x (k'.table r.table (ptx va'))) (sym (entry_of_lem d va' r.table k r.at))
          (entry_case P va' r changed same))

  pub Changed-Marked : Marked d k k'
  Changed-Marked = record {
    resident = λ va' r. record {
      table = r.table;
      at = (c.located d va' ∙ r.at.0, r.at.1);
      word = entry_case (λ x y. y < 2 ^ 32) va' r c.word λ x h. h;
    };
    set = λ va' j r l.
        entry_of_case (λ x y. bit j x ≡ true → bit j y ≡ true) va' r
          (λ h.
            c.bits j l ∙ kept (bit j (k.table t (ptx va))) (bit j 1028) (bit j 0) (bit_zero j) h)
          λ x w h. h;
    others = λ va' j r l h h'.
        entry_of_case (λ x y. bit j y ≡ bit j x) va' r
          (c.bits j l
            ∙ same_bit (bit j (k.table t (ptx va))) (bit j 1028) (bit j 0) (marks_others j l h h')
                (bit_zero j))
          λ x w. refl;
    frames = c.frames;
    directory = c.directory;
    free_frame_list = c.free_frame_list;
  }
