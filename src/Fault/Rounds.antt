-- ===== src/Fault/Rounds.antt =====
-- How many rounds the replacement loop of kern/trap/fault_handler.c can make: each takes one from a
-- sum over the working set.
use fos_fcis_operating_syste.Prelude.{
  ℕ, zero, suc, ◌+◌, ◌-◌, ◌^◌, ◌≤◌, ◌<◌, ◌≡◌, refl, subst, Bool, true, false, not, ◌&&◌, ◌||◌, some,
  List, [], ◌∷◌, ◌==◌, if◌then◌else◌, arith, All, add32, sub32, bit, leb,
}
use fos_fcis_operating_syste.Paging.{Paging}
use fos_fcis_operating_syste.Fault.Clock.{Resident, entry_of, Cleared, false-true}
use fos_fcis_operating_syste.Fault.Defs.{WsElement, get_elem?, set, is_negative, is_victim}

-- How many sweeps a page outlives.
abbrev pub limit : ℕ → Bool → ℕ
limit n modified = if is_negative n then (if modified then sub32 0 n + 1 else sub32 0 n) else n

-- How many rounds a page outlives from now on.
abbrev pub weight_of : ℕ → Bool → Bool → ℕ → ℕ
weight_of n used modified counter =
    if used then limit n modified + 1 else limit n modified - counter

abbrev pub weight : ℕ → ℕ → Paging → WsElement → ℕ
weight n d k e =
    weight_of n (bit 5 (entry_of d e.virtual_address k)) (bit 6 (entry_of d e.virtual_address k))
      e.sweeps_counter

abbrev pub rounds : ℕ → ℕ → Paging → List WsElement → ℕ
rounds n d k [] = 0
rounds n d k (e ∷ es) = weight n d k e + rounds n d k es

abbrev pub AllResident : ℕ → Paging → List WsElement → Type 0
AllResident d k = All (λ e. Resident d e.virtual_address k)

weight_of_falls :
    (n c : ℕ) (u u' m : Bool) → (u' ≡ true → u ≡ true) → weight_of n u' m c ≤ weight_of n u m c
weight_of_falls n c true true m h = omega arith
weight_of_falls n c true false m h = omega arith
weight_of_falls n c false true m h = absurd (false-true (h refl))
weight_of_falls n c false false m h = omega arith

weight_falls :
    (n d : ℕ) (k k' : Paging) (e : WsElement)
    → Cleared d k k'
    → Resident d e.virtual_address k
    → weight n d k' e ≤ weight n d k e
weight_falls n d k k' e c r = rw (c.modified e.virtual_address r) (
    weight_of_falls n e.sweeps_counter (bit 5 (entry_of d e.virtual_address k))
      (bit 5 (entry_of d e.virtual_address k')) (bit 6 (entry_of d e.virtual_address k))
      (c.used e.virtual_address r))

rounds_fall :
    (n d : ℕ) (k k' : Paging) (es : List WsElement)
    → Cleared d k k'
    → AllResident d k es
    → rounds n d k' es ≤ rounds n d k es
rounds_fall n d k k' [] c rs = omega arith
rounds_fall n d k k' (e ∷ es) c (r, rs) =
    omega (arith, weight_falls n d k k' e c r, rounds_fall n d k k' es c rs)

-- One element changes.
pub rounds-set :
    (n d : ℕ) (k k' : Paging) (es : List WsElement) (i : ℕ) (e e' : WsElement)
    → Cleared d k k'
    → AllResident d k es
    → get_elem? es i ≡ some e
    → rounds n d k' (set es i e') + weight n d k e ≤ rounds n d k es + weight n d k' e'
rounds-set n d k k' [] i e e' c rs at = cc
rounds-set n d k k' (x ∷ es) zero e e' c (r, rs) at =
    let same : x ≡ e = some_injective at in rw same (omega (arith, rounds_fall n d k k' es c rs))
  where
    some_injective : {x y : WsElement} → some x ≡ some y → x ≡ y
    some_injective p = cc
rounds-set n d k k' (x ∷ es) (suc i) e e' c (r, rs) at =
    omega (arith, weight_falls n d k k' x c r, rounds-set n d k k' es i e e' c rs at)

pub AllResident-Cleared :
    (d : ℕ) (k k' : Paging) (es : List WsElement)
    → Cleared d k k'
    → AllResident d k es
    → AllResident d k' es
AllResident-Cleared d k k' [] c rs = tt
AllResident-Cleared d k k' (e ∷ es) c (r, rs) =
    (c.resident e.virtual_address r, AllResident-Cleared d k k' es c rs)

-- A predicate on all elements holds at a position, and goes on holding when one changes for one of
-- which it holds.
pub All-get_elem? {κ} :
    (P : WsElement → Type κ) (es : List WsElement) (i : ℕ) {e : WsElement}
    → All P es
    → get_elem? es i ≡ some e
    → P e
All-get_elem? P [] i all at = cc
All-get_elem? P (x ∷ es) zero all at = subst P (some_injective at) all.0
  where
    some_injective : {x y : WsElement} → some x ≡ some y → x ≡ y
    some_injective p = cc
All-get_elem? P (x ∷ es) (suc i) all at = All-get_elem? P es i all.1 at

pub All-set {κ} :
    (P : WsElement → Type κ) (es : List WsElement) (i : ℕ) (e : WsElement)
    → All P es
    → P e
    → All P (set es i e)
All-set P [] i e all p = tt
All-set P (x ∷ es) zero e all p = (p, all.1)
All-set P (x ∷ es) (suc i) e all p = (all.0, All-set P es i e all.1 p)

-- A page's counter is below its limit, or both are 0.
abbrev pub Fits : ℕ → ℕ → Paging → WsElement → Type 0
Fits n d k e = e.sweeps_counter ≤ limit n (bit 6 (entry_of d e.virtual_address k)) - 1

pub Fits-Cleared :
    (n d : ℕ) (k k' : Paging) (es : List WsElement)
    → Cleared d k k'
    → AllResident d k es
    → All (Fits n d k) es
    → All (Fits n d k') es
Fits-Cleared n d k k' [] c rs fs = tt
Fits-Cleared n d k k' (e ∷ es) c (r, rs) (f, fs) =
    (rw (c.modified e.virtual_address r) f, Fits-Cleared n d k k' es c rs fs)

-- On a counter that fits, both forms of the test ask whether the limit is reached.
pub is_victim-limit :
    (n p c : ℕ)
    → n < 2 ^ 32
    → c ≤ limit n (bit 6 p) - 1
    → is_victim n p (add32 c 1) ≡ leb (limit n (bit 6 p)) (c + 1)
unfolding is_victim
is_victim-limit n p c word fits = go (bit 6 p) fits
  where
    go :
        (m : Bool)
        → c ≤ limit n m - 1
        → (if is_negative n
            then (m && (add32 c 1 == add32 (sub32 0 n) 1)) || (not m && (add32 c 1 == sub32 0 n))
            else leb n (add32 c 1))
          ≡ leb (limit n m) (c + 1)
    go true f = ground arith
    go false f = ground arith
