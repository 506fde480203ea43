-- ===== src/DynAlloc/Tiling.antt =====
-- The abstract view of the block allocator's heap: memory is tiled by blocks with equal tags at
-- both ends, and the free list names the free ones in address order.
mod Addresses
pub use Addresses.*
use fos_fcis_operating_syste.Prelude.{
  ℕ, zero, suc, ◌+◌, ◌-◌, ◌%◌, ◌≤◌, ◌<◌, ◌≡◌, refl, ◌⊎◌, inl, inr, Bool, true, false, List, [], ◌∷◌,
  ◌++◌, arith, if◌then◌else◌, word_mod,
}
use fos_fcis_operating_syste.Memory.{Mem, load, store, load-store_apart}
use fos_fcis_operating_syste.DynAlloc.Tiling.Addresses.{
  Block, used, free, size_of, word_of, total, Roomy,
}

-- Both tags of the block `b` at `a` hold its word.
pub record Tags (m : Mem) (a : ℕ) (b : Block) : Type 0 where
  pub even : size_of b % 2 ≡ 0
  pub large : 16 ≤ size_of b
  pub header : load m a ≡ word_of b
  pub footer : load m (a + size_of b - 4) ≡ word_of b

-- From the header at `a` on, the blocks `bs` fill memory up to `e`.
pub data Tiled (m : Mem) : ℕ → List Block → ℕ → Type 0 where
  nil : {a e : ℕ} → a ≡ e → Tiled m a [] e
  cons :
      {a e : ℕ} {b : Block} {bs : List Block}
      → Tags m a b
      → Tiled m (a + size_of b) bs e
      → Tiled m a (b ∷ bs) e

module _ {m : Mem} where
  pub Tiled-total : {a e : ℕ} {bs : List Block} → Tiled m a bs e → e ≡ a + total bs
  Tiled-total (nil h) = omega arith
  Tiled-total (cons t r) = omega (arith, Tiled-total r)

  pub Tags-store :
      (p v : ℕ) {a : ℕ} {b : Block}
      → (p + 4 ≤ a) ⊎ (a + size_of b ≤ p)
      → Tags m a b
      → Tags (store m p v) a b
  Tags-store p v {a} {b} out t = record {
    even = t.even;
    large = t.large;
    header = ground (arith, load-store_apart m p v a, t.large, t.header);
    footer = ground (arith, load-store_apart m p v (a + size_of b - 4), t.large, t.footer);
  }

  -- A write outside a tiled stretch leaves it tiled.
  pub Tiled-store :
      (p v : ℕ) {a e : ℕ} {bs : List Block}
      → (p + 4 ≤ a) ⊎ (e ≤ p)
      → Tiled m a bs e
      → Tiled (store m p v) a bs e
  Tiled-store p v out (nil h) = nil h
  Tiled-store p v out (cons t r) =
      cons (Tags-store p v (omega (arith, Tiled-total r)) t) (Tiled-store p v (omega arith) r)

  pub Tiled-append :
      {e : ℕ} (ys : List Block) {a c : ℕ} {xs : List Block}
      → Tiled m a xs c
      → Tiled m c ys e
      → Tiled m a (xs ++ ys) e
  Tiled-append ys (nil h) r = rw h r
  Tiled-append ys (cons t f) r = cons t (Tiled-append ys f r)

  pub Tiled-split :
      (xs ys : List Block) {a e : ℕ}
      → Tiled m a (xs ++ ys) e
      → Tiled m a xs (a + total xs) × Tiled m (a + total xs) ys e
  Tiled-split [] ys {a} t = let z : a ≡ a + 0 = omega arith in (nil z, rw z at t)
  Tiled-split (x ∷ xs) ys {a} (cons t r) =
      let (f, g) = Tiled-split xs ys r in
      let z : a + size_of x + total xs ≡ a + (size_of x + total xs) = omega arith in
      (cons t (rw z at f), rw z at g)

  pub Tiled-Roomy : {a e : ℕ} {bs : List Block} → Tiled m a bs e → Roomy bs
  Tiled-Roomy (nil h) = tt
  Tiled-Roomy (cons t r) = (t.large, Tiled-Roomy r)
