-- ===== src/Fault/WorkingSet.antt =====
-- The working set of kern/trap/fault_handler.c while the N-chance clock looks for a victim.
use fos_fcis_operating_syste.Prelude.{
  ℕ, zero, suc, ◌<◌, ◌≡◌, refl, ap, sym, ◌∙◌, subst, false, some, List, [], ◌∷◌, ◌==◌,
  if◌then◌else◌, arith, All, length, bit, ok,
}
use fos_fcis_operating_syste.Paging.{pt_get_page_permissions}
use fos_fcis_operating_syste.Fault.Defs.{WsElement, Faulted, get_elem?, set}
use fos_fcis_operating_syste.Fault.Clock.{Cleared, Cleared-trans}
use fos_fcis_operating_syste.Fault.Rounds.{limit, AllResident, Fits}

-- The tables of the pages of the working set are in memory, the hand is in it, and the counters are
-- below their limits, or 0.
pub record Sweeping (n : ℕ) (s : Faulted) : Type 0 where
  pub resident : AllResident s.env_page_directory s.paging s.page_ws_list
  pub fits : All (Fits n s.env_page_directory s.paging) s.page_ws_list
  pub inside : s.page_last_ws_element < length s.page_ws_list

abbrev pub addresses : List WsElement → List ℕ
addresses [] = []
addresses (e ∷ es) = e.virtual_address ∷ addresses es

-- The same pages in the same order; only used bits may have been cleared.
pub record SamePages (s s' : Faulted) : Type 0 where
  pub pages : addresses s'.page_ws_list ≡ addresses s.page_ws_list
  pub cleared : Cleared s.env_page_directory s.paging s'.paging
  pub env_page_directory : s'.env_page_directory ≡ s.env_page_directory
  pub page_ws_max_size : s'.page_ws_max_size ≡ s.page_ws_max_size

-- The page under the hand is unused, and its counter has reached its limit. With its counter at 0, as
-- the page that takes its place has it, the working set is ready for another search.
pub record Victim (n : ℕ) (s s' : Faulted) (e : WsElement) (p : ℕ) : Type 0 where
  pub under_hand : get_elem? s'.page_ws_list s'.page_last_ws_element ≡ some e
  pub permissions : pt_get_page_permissions s'.env_page_directory e.virtual_address s'.paging ≡ ok p
  pub unused : bit 5 p ≡ false
  pub due : e.sweeps_counter ≡ (if limit n (bit 6 p) == 0 then 1 else limit n (bit 6 p))
  pub same : SamePages s s'
  pub ready : Sweeping n (record s' {
    page_ws_list = set s'.page_ws_list s'.page_last_ws_element (record e { sweeps_counter = 0 });
  })

pub length-set : (es : List WsElement) (i : ℕ) (e : WsElement) → length (set es i e) ≡ length es
length-set [] i e = refl
length-set (x ∷ es) zero e = refl
length-set (x ∷ es) (suc i) e = ap suc (length-set es i e)

-- Of two writes at one position the second counts.
pub set_set : (es : List WsElement) (i : ℕ) (a b : WsElement) → set (set es i a) i b ≡ set es i b
set_set [] i a b = refl
set_set (x ∷ es) zero a b = refl
set_set (x ∷ es) (suc i) a b = ap (λ rest. x ∷ rest) (set_set es i a b)

pub addresses-set :
    (es : List WsElement) (i : ℕ) (e e' : WsElement)
    → get_elem? es i ≡ some e
    → e'.virtual_address ≡ e.virtual_address
    → addresses (set es i e') ≡ addresses es
addresses-set [] i e e' at same = refl
addresses-set (x ∷ es) zero e e' at same =
    ap (λ a. a ∷ addresses es) (same ∙ ap (λ (y : WsElement). y.virtual_address) (sym (inner at)))
  where
    inner : {x y : WsElement} → some x ≡ some y → x ≡ y
    inner p = cc
addresses-set (x ∷ es) (suc i) e e' at same =
    ap (λ rest. x.virtual_address ∷ rest) (addresses-set es i e e' at same)

pub get_elem?-set_self :
    (es : List WsElement) (i : ℕ) (e : WsElement)
    → i < length es
    → get_elem? (set es i e) i ≡ some e
get_elem?-set_self [] i e h = elim h [ ]
get_elem?-set_self (x ∷ es) zero e h = refl
get_elem?-set_self (x ∷ es) (suc i) e h = get_elem?-set_self es i e (omega arith)

pub get_elem?_inside :
    (es : List WsElement) (i : ℕ) → i < length es → (e : WsElement) × (get_elem? es i ≡ some e)
get_elem?_inside [] i h = elim h [ ]
get_elem?_inside (x ∷ es) zero h = (x, refl)
get_elem?_inside (x ∷ es) (suc i) h = get_elem?_inside es i (omega arith)

pub SamePages-trans : {s s1 s2 : Faulted} → SamePages s s1 → SamePages s1 s2 → SamePages s s2
SamePages-trans {s} {s1} {s2} p q = record {
  pages = q.pages ∙ p.pages;
  cleared =
      Cleared-trans p.cleared
        (subst (λ d. Cleared d s1.paging s2.paging) p.env_page_directory q.cleared);
  env_page_directory = q.env_page_directory ∙ p.env_page_directory;
  page_ws_max_size = q.page_ws_max_size ∙ p.page_ws_max_size;
}

pub Victim-later :
    {n : ℕ} {s s1 s2 : Faulted} {e : WsElement} {p : ℕ}
    → SamePages s s1
    → Victim n s1 s2 e p
    → Victim n s s2 e p
Victim-later same v = record {
  under_hand = v.under_hand;
  permissions = v.permissions;
  unused = v.unused;
  due = v.due;
  same = SamePages-trans same v.same;
  ready = v.ready;
}
