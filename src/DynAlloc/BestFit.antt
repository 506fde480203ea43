-- ===== src/DynAlloc/BestFit.antt =====
-- The search of `alloc_block_BF` in lib/dynamic_allocator.c finds a best fit.
use fos_fcis_operating_syste.Prelude.{
  ℕ, ◌+◌, ◌≤◌, ◌<◌, ◌≡◌, refl, ◌⊎◌, inl, inr, true, false, ◌&&◌, List, [], ◌∷◌, none, some, ltb,
  leb, ◌==◌, if◌then◌else◌, arith, All, word_mod, sub32, Bool-cases, ==→eq,
}
use fos_fcis_operating_syste.Memory.{Mem, load, load-lt}
use fos_fcis_operating_syste.DynAlloc.Ops.{find_best}

-- The size in the header of the element at `e`.
abbrev pub size_at : Mem → ℕ → ℕ
size_at m e = load m (sub32 e 4)

abbrev pub OneOf : ℕ → List ℕ → Type 0
OneOf x [] = ⊥
OneOf x (y ∷ ys) = (x ≡ y) ⊎ OneOf x ys

-- No element that holds `n` bytes exceeds them by less than `least`.
abbrev pub NoBetter : Mem → ℕ → ℕ → List ℕ → Type 0
NoBetter m n least es = All (λ e. (size_at m e < n) ⊎ (n + least ≤ size_at m e)) es

-- `b` is an element that exceeds `n` by `least`, and no other element is better.
pub record Best (m : Mem) (n b least : ℕ) (es : List ℕ) : Type 0 where
  pub member : OneOf b es
  pub exact : size_at m b ≡ n + least
  pub minimal : NoBetter m n least es

module _ (m : Mem) (n : ℕ) where
  -- With a best so far the search ends with it, or with a better element.
  pub record Improved (b0 least0 : ℕ) (es : List ℕ) : Type 0 where
    pub b : ℕ
    pub least : ℕ
    pub found : find_best m n (some (b0, least0)) es ≡ some (b, least)
    pub at_most : least ≤ least0
    pub kept : ((b ≡ b0) × (least ≡ least0)) ⊎ (OneOf b es × (size_at m b ≡ n + least))
    pub minimal : NoBetter m n least es

NoBetter-zero : (m : Mem) (n least : ℕ) (es : List ℕ) → least ≡ 0 → NoBetter m n least es
NoBetter-zero m n least [] none_left = tt
NoBetter-zero m n least (e ∷ es) none_left = (omega arith, NoBetter-zero m n least es none_left)

too_small : (s n : ℕ) → leb n s ≡ false → s < n
too_small s n h = ground arith

not_better :
    (s n least : ℕ)
    → s < word_mod
    → (leb n s && ltb (sub32 s n) least) ≡ false
    → (s < n) ⊎ (n + least ≤ s)
unfolding sub32
not_better s n least small worse = ground arith

is_better :
    (s n least : ℕ)
    → s < word_mod
    → (leb n s && ltb (sub32 s n) least) ≡ true
    → (s ≡ n + sub32 s n) × (sub32 s n < least)
unfolding sub32
is_better s n least small better = ground arith

fitting : (s n : ℕ) → s < word_mod → leb n s ≡ true → s ≡ n + sub32 s n
unfolding sub32
fitting s n small fits = ground arith

-- The element with its excess is the best so far, and the search goes on or ends at a perfect fit.
goes_on :
    (m : Mem) (n e : ℕ) (es : List ℕ) (more : Improved m n e (sub32 (size_at m e) n) es)
    → size_at m e ≡ n + sub32 (size_at m e) n
    → ((b : ℕ) × (least : ℕ) × ((if sub32 (size_at m e) n == 0
            then some (e, sub32 (size_at m e) n)
            else find_best m n (some (e, sub32 (size_at m e) n)) es)
          ≡ some (b, least))
        × (least ≤ sub32 (size_at m e) n)
        × Best m n b least (e ∷ es))
goes_on m n e es more exact = elim (Bool-cases (sub32 (size_at m e) n == 0)) [
  | inl perfect ↦
      let none_left : sub32 (size_at m e) n ≡ 0 = ==→eq (sub32 (size_at m e) n) 0 perfect in
      (
        e,
        sub32 (size_at m e) n,
        rw perfect,
        omega arith,
        record {
          member = inl refl;
          exact = exact;
          minimal = NoBetter-zero m n (sub32 (size_at m e) n) (e ∷ es) none_left;
        },
      )
  | inr other ↦ (
    more.b,
    more.least,
    rw (other, more.found),
    more.at_most,
    record {
      member = elim more.kept [ inl same ↦ inl same.0 | inr later ↦ inr later.0 ];
      exact = elim more.kept [ inl same ↦ rw (same.0, same.1) exact | inr later ↦ later.1 ];
      minimal = (omega (arith, exact, more.at_most), more.minimal);
    },
  )
]

improve : (m : Mem) (n b0 least0 : ℕ) (es : List ℕ) → Improved m n b0 least0 es
unfolding find_best
improve m n b0 least0 [] = record {
  b = b0;
  least = least0;
  found = refl;
  at_most = omega arith;
  kept = inl (refl, refl);
  minimal = tt;
}
improve m n b0 least0 (e ∷ es) =
    elim (Bool-cases (leb n (size_at m e) && ltb (sub32 (size_at m e) n) least0)) [
      | inr worse ↦
          let r = improve m n b0 least0 es in
          let here = not_better (size_at m e) n least0 (load-lt m (sub32 e 4)) worse in
          record {
            b = r.b;
            least = r.least;
            found = rw worse r.found;
            at_most = r.at_most;
            kept = elim r.kept [ inl same ↦ inl same | inr later ↦ inr (inr later.0, later.1) ];
            minimal = (omega (arith, here, r.at_most), r.minimal);
          }
      | inl better ↦
          let at = is_better (size_at m e) n least0 (load-lt m (sub32 e 4)) better in
          let (b, least, found, at_most, best) =
            goes_on m n e es (improve m n e (sub32 (size_at m e) n) es) at.0 in
          record {
            b = b;
            least = least;
            found = rw better found;
            at_most = omega (arith, at.1, at_most);
            kept = inr (best.member, best.exact);
            minimal = best.minimal;
          }
    ]

-- The search for `n` bytes through the free list answers with an element that holds them and leaves
-- the least rest of all, and with what it leaves; it answers nothing only where no element holds them.
pub find_best-Best :
    (m : Mem) (n : ℕ) (es : List ℕ)
    → ((find_best m n none es ≡ none) × All (λ e. size_at m e < n) es)
      ⊎ ((b : ℕ) × (least : ℕ) × (find_best m n none es ≡ some (b, least)) × Best m n b least es)
unfolding find_best
find_best-Best m n [] = inl (refl, tt)
find_best-Best m n (e ∷ es) = elim (Bool-cases (leb n (size_at m e))) [
  | inl fits ↦
      let exact = fitting (size_at m e) n (load-lt m (sub32 e 4)) fits in
      let (b, least, found, at_most, best) =
        goes_on m n e es (improve m n e (sub32 (size_at m e) n) es) exact in
      inr (b, least, rw fits found, best)
  | inr small ↦ elim (find_best-Best m n es) [
    | inl (missing, all_small) ↦
        inl (rw small missing, (too_small (size_at m e) n small, all_small))
    | inr (b, least, found, best) ↦ inr (
      b,
      least,
      rw small found,
      record {
        member = inr best.member;
        exact = best.exact;
        minimal = (inl (too_small (size_at m e) n small), best.minimal);
      },
    )
  ]
]
