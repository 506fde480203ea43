-- ===== src/DynAlloc/Coalesce.antt =====
-- What freeing a block does to the list of blocks: it joins its free neighbours.
use fos_fcis_operating_syste.Prelude.{ℕ, ◌+◌, ◌≡◌, refl, ap, List, [], ◌∷◌, ◌++◌}
use fos_fcis_operating_syste.DynAlloc.Tiling.{Block, used, free}
use fos_fcis_operating_syste.DynAlloc.Heaps.{Coalesced}

-- A free block of `s` bytes in front of `post`.
abbrev pub join : ℕ → List Block → List Block
join s [] = free s ∷ []
join s (used t ∷ post) = free s ∷ used t ∷ post
join s (free t ∷ post) = free (s + t) ∷ post

-- A block of `s` bytes is freed between `pre` and `post`.
abbrev pub release : List Block → ℕ → List Block → List Block
release [] s post = join s post
release (used t ∷ pre) s post = used t ∷ release pre s post
release (free t ∷ []) s post = join (t + s) post
release (free t ∷ b ∷ pre) s post = free t ∷ release (b ∷ pre) s post

pub data Before : List Block → Type 0 where
  first : Before []
  last_used : (pre : List Block) (t : ℕ) → Before (pre ++ (used t ∷ []))
  last_free : (pre : List Block) (t : ℕ) → Before (pre ++ (free t ∷ []))

extend_view : (b : Block) {pre : List Block} → Before pre → Before (b ∷ pre)
extend_view (used t) first = last_used [] t
extend_view (free t) first = last_free [] t
extend_view b (last_used pre t) = last_used (b ∷ pre) t
extend_view b (last_free pre t) = last_free (b ∷ pre) t

pub before : (pre : List Block) → Before pre
before [] = first
before (b ∷ pre) = extend_view b (before pre)

pub release_last_used :
    (pre : List Block) (t s : ℕ) (post : List Block)
    → release (pre ++ (used t ∷ [])) s post ≡ pre ++ (used t ∷ join s post)
release_last_used [] t s post = refl
release_last_used (used u ∷ pre) t s post = ap (λ l. used u ∷ l) (release_last_used pre t s post)
release_last_used (free u ∷ []) t s post = refl
release_last_used (free u ∷ b ∷ pre) t s post =
    ap (λ l. free u ∷ l) (release_last_used (b ∷ pre) t s post)

pub release_last_free :
    (pre : List Block) (t s : ℕ) (post : List Block)
    → release (pre ++ (free t ∷ [])) s post ≡ pre ++ join (t + s) post
release_last_free [] t s post = refl
release_last_free (used u ∷ pre) t s post = ap (λ l. used u ∷ l) (release_last_free pre t s post)
release_last_free (free u ∷ []) t s post = refl
release_last_free (free u ∷ b ∷ pre) t s post =
    ap (λ l. free u ∷ l) (release_last_free (b ∷ pre) t s post)

join-Coalesced : (s : ℕ) (post : List Block) → Coalesced post → Coalesced (join s post)
join-Coalesced s [] c = (refl, tt)
join-Coalesced s (used t ∷ post) c = (refl, c)
join-Coalesced s (free t ∷ post) c = c

-- Freeing a block of a coalesced heap leaves it coalesced.
pub release-Coalesced :
    (pre : List Block) (s : ℕ) (post : List Block)
    → Coalesced (pre ++ (used s ∷ post))
    → Coalesced (release pre s post)
release-Coalesced [] s post c = join-Coalesced s post c
release-Coalesced (used t ∷ pre) s post c = release-Coalesced pre s post c
release-Coalesced (free t ∷ []) s post c = join-Coalesced (t + s) post c.1
release-Coalesced (free t ∷ used u ∷ pre) s post c =
    (refl, release-Coalesced (used u ∷ pre) s post c.1)
release-Coalesced (free t ∷ free u ∷ pre) s post c = cc (c.0)
