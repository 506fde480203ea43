-- ===== src/DynAlloc/FirstFit.antt =====
-- First fit on the list of blocks, and the search of `alloc_block_FF` for it.
use fos_fcis_operating_syste.Prelude.{
  ℕ, ◌+◌, ◌≤◌, ◌<◌, ◌≡◌, refl, ap, ◌∙◌, ◌⊎◌, inl, inr, List, [], ◌∷◌, ◌++◌, Option, none, some,
  arith, if◌then◌else◌, leb, le→leb, lt→leb, leb→le, word_mod, Bool-cases, sub32, sub32_small,
}
use fos_fcis_operating_syste.Memory.{Mem, load}
use fos_fcis_operating_syste.DynAlloc.Defs.{find_first}
use fos_fcis_operating_syste.DynAlloc.Tiling.{
  Block, used, free, total, free_vas, Tiled, nil, cons, Tiled-total,
}
use fos_fcis_operating_syste.DynAlloc.Take.{carve}

abbrev pub with_block : Block → Option (ℕ × List Block) → Option (ℕ × List Block)
with_block b none = none
with_block b (some (va, bs)) = some (va, b ∷ bs)

-- The first free block of at least `n` bytes, tags included: its address, and the blocks after it
-- is carved.
abbrev pub first_fit : ℕ → ℕ → List Block → Option (ℕ × List Block)
first_fit n a [] = none
first_fit n a (used s ∷ bs) = with_block (used s) (first_fit n (a + s) bs)
first_fit n a (free s ∷ bs) =
    if leb n s then some (a + 4, carve n s bs) else with_block (free s) (first_fit n (a + s) bs)

-- Every free block is smaller than `n`.
abbrev pub NoFit : ℕ → List Block → Type 0
NoFit n [] = Unit
NoFit n (used s ∷ bs) = NoFit n bs
NoFit n (free s ∷ bs) = (s < n) × NoFit n bs

pub record Found (m : Mem) (n a : ℕ) (bs : List Block) : Type 0 where
  pub pre : List Block
  pub s : ℕ
  pub post : List Block
  pub here : bs ≡ pre ++ (free s ∷ post)
  pub fits : n ≤ s
  pub smaller : NoFit n pre
  pub search : find_first m n (free_vas a bs) ≡ some (a + total pre + 4)
  pub result : first_fit n a bs ≡ some (a + total pre + 4, pre ++ carve n s post)

pub record Missing (m : Mem) (n a : ℕ) (bs : List Block) : Type 0 where
  pub none_fits : NoFit n bs
  pub search : find_first m n (free_vas a bs) ≡ none
  pub result : first_fit n a bs ≡ none

module _ {m : Mem} (n : ℕ) {a s : ℕ} {bs : List Block} where
  skip_used :
      Found m n (a + s) bs ⊎ Missing m n (a + s) bs
      → Found m n a (used s ∷ bs) ⊎ Missing m n a (used s ∷ bs)
  skip_used (inl f) =
      let at : a + s + total f.pre + 4 ≡ a + (s + total f.pre) + 4 = omega arith in
      inl (record {
        pre = used s ∷ f.pre;
        s = f.s;
        post = f.post;
        here = ap (λ l. used s ∷ l) f.here;
        fits = f.fits;
        smaller = f.smaller;
        search = f.search ∙ ap some at;
        result = rw f.result (rw at);
      })
  skip_used (inr k) =
      inr (record { none_fits = k.none_fits; search = k.search; result = rw k.result })

  skip_free :
      find_first m n ((a + 4) ∷ free_vas (a + s) bs) ≡ find_first m n (free_vas (a + s) bs)
      → s < n
      → Found m n (a + s) bs ⊎ Missing m n (a + s) bs
      → Found m n a (free s ∷ bs) ⊎ Missing m n a (free s ∷ bs)
  skip_free next less (inl f) =
      let at : a + s + total f.pre + 4 ≡ a + (s + total f.pre) + 4 = omega arith in
      inl (record {
        pre = free s ∷ f.pre;
        s = f.s;
        post = f.post;
        here = ap (λ l. free s ∷ l) f.here;
        fits = f.fits;
        smaller = (less, f.smaller);
        search = next ∙ f.search ∙ ap some at;
        result = rw (lt→leb n s less, f.result) (rw at);
      })
  skip_free next less (inr k) = inr (record {
    none_fits = (less, k.none_fits);
    search = next ∙ k.search;
    result = rw (lt→leb n s less, k.result);
  })

-- The search of the free list finds the first fit of the blocks, or nothing where none fits.
pub find_first-first_fit :
    {m : Mem} (n : ℕ) {a e : ℕ} {bs : List Block}
    → e < word_mod
    → Tiled m a bs e
    → Found m n a bs ⊎ Missing m n a bs
unfolding find_first
find_first-first_fit n high (nil z) = inr (record { none_fits = tt; search = refl; result = refl })
find_first-first_fit n high (cons {b = used s} t r) = skip_used n (find_first-first_fit n high r)
find_first-first_fit {m} n {e} high (cons {a} {b = free s} {bs} t r) =
    let at : sub32 (a + 4) 4 ≡ a =
      sub32_small (a + 4) 4 (omega arith) (omega (arith, Tiled-total r, t.large)) ∙ omega arith in
    elim (Bool-cases (leb n s)) [
      | inl yes_fits ↦ inl (record {
        pre = [];
        s = s;
        post = bs;
        here = refl;
        fits = leb→le n s yes_fits;
        smaller = tt;
        search = rw (at, t.header, yes_fits) (ap some (omega arith));
        result = rw yes_fits (let z : a + 4 ≡ a + 0 + 4 = omega arith in rw (← z));
      })
      | inr no_fit ↦
          skip_free n (rw (at, t.header, no_fit)) (ground arith) (find_first-first_fit n high r)
    ]

pub NoFit-tail : (n : ℕ) (xs ys : List Block) → NoFit n (xs ++ ys) → NoFit n ys
NoFit-tail n [] ys h = h
NoFit-tail n (used s ∷ xs) ys h = NoFit-tail n xs ys h
NoFit-tail n (free s ∷ xs) ys h = NoFit-tail n xs ys h.1

-- Behind blocks of which none fits, the first fit is a fitting block.
pub first_fit-behind :
    (n a : ℕ) (xs : List Block) (s : ℕ) (post : List Block)
    → NoFit n xs
    → n ≤ s
    → first_fit n a (xs ++ (free s ∷ post)) ≡ some (a + total xs + 4, xs ++ carve n s post)
first_fit-behind n a [] s post h fits =
    let z : a + 4 ≡ a + 0 + 4 = omega arith in rw (le→leb n s fits, ← z)
first_fit-behind n a (used t ∷ xs) s post h fits =
    let z : a + t + total xs + 4 ≡ a + (t + total xs) + 4 = omega arith in
    rw (first_fit-behind n (a + t) xs s post h fits, z)
first_fit-behind n a (free t ∷ xs) s post h fits =
    let z : a + t + total xs + 4 ≡ a + (t + total xs) + 4 = omega arith in
    rw (lt→leb n t h.0, first_fit-behind n (a + t) xs s post h.1 fits, z)

pub find_first-append :
    (m : Mem) (n : ℕ) (xs ys : List ℕ)
    → find_first m n xs ≡ none
    → find_first m n (xs ++ ys) ≡ find_first m n ys
unfolding find_first
find_first-append m n [] ys h = refl
find_first-append m n (x ∷ xs) ys h = elim (Bool-cases (leb n (load m (sub32 x 4)))) [
  | inl e ↦ let no : some x ≡ none = rw e at h in cc
  | inr e ↦ rw e (find_first-append m n xs ys (rw e at h))
]

module _ {m : Mem} (n : ℕ) {a : ℕ} {bs : List Block} where
  pub Found-not-NoFit : Found m n a bs → NoFit n bs → ⊥
  Found-not-NoFit f no_fit =
      let tail = NoFit-tail n f.pre (free f.s ∷ f.post) (rw f.here at no_fit) in
      absurd (omega (arith, f.fits, tail.0))

  pub Missing-NoFit : NoFit n bs → Found m n a bs ⊎ Missing m n a bs → Missing m n a bs
  Missing-NoFit no_fit (inl f) = absurd (Found-not-NoFit f no_fit)
  Missing-NoFit no_fit (inr k) = k
