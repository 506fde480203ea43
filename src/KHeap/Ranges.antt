-- ===== src/KHeap/Ranges.antt =====
-- The free page ranges of kern/mem/kheap.c as a set of pages: `kfree` enters pages into them.
use fos_fcis_operating_syste.Prelude.{
  ℕ, ◌+◌, ◌*◌, ◌%◌, ◌≤◌, ◌<◌, ◌≡◌, refl, ◌⊎◌, Bool, false, ◌&&◌, ◌||◌, List, [], ◌∷◌, ◌++◌, ltb,
  leb, All, arith,
}
use fos_fcis_operating_syste.KHeap.Defs.{FreePagesInfo}
use fos_fcis_operating_syste.KHeap.Ops.{Insertion, grown, joined, fresh, behind}

-- The address behind a range.
abbrev pub end_of : FreePagesInfo → ℕ
end_of e = e.va + e.no_consecutive_pages * 4096

-- Ranges of whole pages in address order, none empty, and no two of them touching.
abbrev pub Ranges : ℕ → ℕ → List FreePagesInfo → Type 0
Ranges lo hi [] = Unit {0}
Ranges lo hi (e ∷ es) =
    (lo ≤ e.va)
    × (e.va % 4096 ≡ 0)
    × (0 < e.no_consecutive_pages)
    × (end_of e ≤ hi)
    × Ranges (end_of e + 4096) hi es

abbrev pub in_pages : (q begin n : ℕ) → Bool
in_pages q begin n = leb begin q && ltb q (begin + n * 4096)

-- The address `q` is free.
abbrev pub free_at : ℕ → List FreePagesInfo → Bool
free_at q [] = false
free_at q (e ∷ es) = in_pages q e.va e.no_consecutive_pages || free_at q es

-- `n` pages at `begin` that are not free.
abbrev pub Away : (begin n : ℕ) → List FreePagesInfo → Type 0
Away begin n = All (λ e. (begin + n * 4096 ≤ e.va) ⊎ (end_of e ≤ begin))

-- The list in the end, with the new node where there is one.
abbrev pub list_of : (node begin n : ℕ) → Insertion → List FreePagesInfo
list_of node begin n (grown es) = es
list_of node begin n (joined a es) = es
list_of node begin n (fresh before after) =
    before ++ (record { node = node; va = begin; no_consecutive_pages = n } ∷ after)

pub list_of-behind :
    (node begin n : ℕ) (e : FreePagesInfo) (i : Insertion)
    → list_of node begin n (behind e i) ≡ e ∷ list_of node begin n i
unfolding behind
list_of-behind node begin n e (grown es) = refl
list_of-behind node begin n e (joined a es) = refl
list_of-behind node begin n e (fresh before after) = refl

pub Ranges-lower :
    (lo lo' hi : ℕ) (es : List FreePagesInfo) → lo' ≤ lo → Ranges lo hi es → Ranges lo' hi es
Ranges-lower lo lo' hi [] h r = tt
Ranges-lower lo lo' hi (e ∷ es) h (l, a, c, top, rest) = (omega arith, a, c, top, rest)

-- The list is one of ranges again, and free are the pages and what was free.
pub record Entered (hi begin n lo : ℕ) (es es' : List FreePagesInfo) : Type 0 where
  pub ranges : Ranges lo hi es'
  pub pages : (q : ℕ) → free_at q es' ≡ (in_pages q begin n || free_at q es)
