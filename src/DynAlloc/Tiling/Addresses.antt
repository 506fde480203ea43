-- ===== src/DynAlloc/Tiling/Addresses.antt =====
-- Blocks, the address of each free one, and how the free addresses of two stretches lie.
use fos_fcis_operating_syste.Prelude.{
  ℕ, ◌+◌, ◌≤◌, ◌<◌, ◌≡◌, ap, List, [], ◌∷◌, ◌++◌, arith, All, ◌*◌, length,
}
use fos_fcis_operating_syste.Queue.Chain.{Absent}

-- A block with its total size, tags included.
pub data Block : Type 0 where
  used : ℕ → Block
  free : ℕ → Block

abbrev pub size_of : Block → ℕ
size_of (used s) = s
size_of (free s) = s

-- What both tags hold: the lowest bit says that the block is in use.
abbrev pub word_of : Block → ℕ
word_of (used s) = s + 1
word_of (free s) = s

abbrev pub total : List Block → ℕ
total [] = 0
total (b ∷ bs) = size_of b + total bs

-- The addresses that the free list has for the blocks from the header at `a` on.
abbrev pub free_vas : ℕ → List Block → List ℕ
free_vas a [] = []
free_vas a (used s ∷ bs) = free_vas (a + s) bs
free_vas a (free s ∷ bs) = (a + 4) ∷ free_vas (a + s) bs

pub total-append : (xs ys : List Block) → total (xs ++ ys) ≡ total xs + total ys
total-append [] ys = omega arith
total-append (x ∷ xs) ys = omega (arith, total-append xs ys)

pub free_vas-append :
    (a : ℕ) (xs ys : List Block)
    → free_vas a (xs ++ ys) ≡ free_vas a xs ++ free_vas (a + total xs) ys
free_vas-append a [] ys = let z : a + 0 ≡ a = omega arith in rw z
free_vas-append a (used s ∷ xs) ys =
    let z : a + s + total xs ≡ a + (s + total xs) = omega arith in
    rw (← z) (free_vas-append (a + s) xs ys)
free_vas-append a (free s ∷ xs) ys =
    let z : a + s + total xs ≡ a + (s + total xs) = omega arith in
    rw (← z) (ap (λ t. (a + 4) ∷ t) (free_vas-append (a + s) xs ys))

-- Every block has room for its two tags and the two links.
abbrev pub Roomy : List Block → Type 0
Roomy bs = All (λ b. 16 ≤ size_of b) bs

pub free_vas_above : (c a : ℕ) (bs : List Block) → c ≤ a → All (λ x. c < x) (free_vas a bs)
free_vas_above c a [] h = tt
free_vas_above c a (used s ∷ bs) h = free_vas_above c (a + s) bs (omega arith)
free_vas_above c a (free s ∷ bs) h = (omega arith, free_vas_above c (a + s) bs (omega arith))

pub free_vas_below :
    (a e : ℕ) (bs : List Block) → Roomy bs → a + total bs ≤ e → All (λ x. x < e) (free_vas a bs)
free_vas_below a e [] r h = tt
free_vas_below a e (used s ∷ bs) r h = free_vas_below (a + s) e bs r.1 (omega arith)
free_vas_below a e (free s ∷ bs) r h = (omega arith, free_vas_below (a + s) e bs r.1 (omega arith))

pub Absent-above : (x : ℕ) (xs : List ℕ) → All (λ y. x < y) xs → Absent x xs
Absent-above x [] h = tt
Absent-above x (y ∷ xs) h = (omega arith, Absent-above x xs h.1)

pub Absent-below : (x : ℕ) (xs : List ℕ) → All (λ y. y < x) xs → Absent x xs
Absent-below x [] h = tt
Absent-below x (y ∷ xs) h = (omega arith, Absent-below x xs h.1)

pub length-free_vas : (a : ℕ) (bs : List Block) → Roomy bs → 16 * length (free_vas a bs) ≤ total bs
length-free_vas a [] r = omega arith
length-free_vas a (used s ∷ bs) r = omega (arith, length-free_vas (a + s) bs r.1)
length-free_vas a (free s ∷ bs) r = omega (arith, length-free_vas (a + s) bs r.1)
