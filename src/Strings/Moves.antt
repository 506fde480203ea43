-- ===== src/Strings/Moves.antt =====
-- What `memcpy`, `memmove` and `memset` of lib/string.c do to each byte.
use fos_fcis_operating_syste.Prelude.{
  ℕ, zero, suc, ◌+◌, ◌-◌, ◌%◌, ◌^◌, ◌<◌, ◌≤◌, ◌≡◌, ◌∙◌, ◌⊎◌, inl, inr, ◌&&◌, ltb, leb,
  if◌then◌else◌, arith, word_mod, add32, sub32, add32_small, sub32_small, Bool-cases,
}
use fos_fcis_operating_syste.Memory.{Mem}
use fos_fcis_operating_syste.Strings.Defs.{put, fill, memset, memcpy, copy_down, memmove}

-- The byte at `x` once the `n` bytes at `src` have been copied to `dst`.
abbrev pub copied : ℕ → ℕ → ℕ → Mem → ℕ → ℕ
copied dst src n m x = if leb dst x && ltb x (dst + n) then m (src + (x - dst)) else m x

-- The first byte is copied, then the others.
copied-first :
    (dst src n : ℕ) (m : Mem) (x : ℕ)
    → (dst ≤ src) ⊎ (src + suc n ≤ dst)
    → copied (dst + 1) (src + 1) n (put m dst (m src)) x ≡ copied dst src (suc n) m x
copied-first dst src n m x out = grind arith

pub memcpy-copied :
    (dst src n : ℕ) (m : Mem) (x : ℕ)
    → dst + n < word_mod
    → src + n < word_mod
    → (dst ≤ src) ⊎ (src + n ≤ dst)
    → memcpy dst src n m x ≡ copied dst src n m x
unfolding memcpy
memcpy-copied dst src zero m x hd hs out = ground arith
memcpy-copied dst src (suc n) m x hd hs out =
    let d : add32 dst 1 ≡ dst + 1 = add32_small dst 1 (omega arith) in
    let s : add32 src 1 ≡ src + 1 = add32_small src 1 (omega arith) in
    let rest =
      memcpy-copied (dst + 1) (src + 1) n (put m dst (m src)) x (omega arith) (omega arith)
        (omega arith) in
    rw (d, s, rest) (copied-first dst src n m x out)

-- The last byte is copied, then the others.
copied-last :
    (dst src n : ℕ) (m : Mem) (x : ℕ)
    → src < dst
    → copied dst src n (put m (dst + n) (m (src + n))) x ≡ copied dst src (suc n) m x
copied-last dst src n m x below = grind arith

copy_down-copied :
    (dst src n : ℕ) (m : Mem) (x : ℕ)
    → dst + n < word_mod
    → src < dst
    → copy_down (dst + n) (src + n) n m x ≡ copied dst src n m x
unfolding copy_down
copy_down-copied dst src zero m x high below = ground arith
copy_down-copied dst src (suc n) m x high below =
    let d : sub32 (dst + suc n) 1 ≡ dst + n =
      sub32_small (dst + suc n) 1 (omega arith) high ∙ omega arith in
    let s : sub32 (src + suc n) 1 ≡ src + n =
      sub32_small (src + suc n) 1 (omega arith) (omega arith) ∙ omega arith in
    let rest = copy_down-copied dst src n (put m (dst + n) (m (src + n))) x (omega arith) below in
    rw (d, s, rest) (copied-last dst src n m x below)

-- `memmove` of `n` bytes that do not run over the end of memory: each of them has the value that
-- its source had before the call, also where the ranges overlap, and all others stay.
pub memmove-copied :
    (dst src n : ℕ) (m : Mem) (x : ℕ)
    → dst + n < word_mod
    → src + n < word_mod
    → memmove dst src n m x ≡ copied dst src n m x
unfolding memmove
memmove-copied dst src n m x hd hs =
    let s : add32 src n ≡ src + n = add32_small src n hs in
    let d : add32 dst n ≡ dst + n = add32_small dst n hd in
    elim (Bool-cases (ltb src dst && ltb dst (src + n))) [
      | inl over ↦ rw (s, d, over) (copy_down-copied dst src n m x hd (ground arith))
      | inr clear ↦ rw (s, d, clear) (memcpy-copied dst src n m x hd hs (ground arith))
    ]

-- The byte at `x` once the `n` bytes at `v` are `c`.
abbrev pub filled : ℕ → ℕ → ℕ → Mem → ℕ → ℕ
filled v c n m x = if leb v x && ltb x (v + n) then c else m x

fill-filled :
    (n v c : ℕ) (m : Mem) (x : ℕ) → v + n < word_mod → fill n v c m x ≡ filled v (c % 256) n m x
unfolding fill
fill-filled zero v c m x high = ground arith
fill-filled (suc n) v c m x high =
    rw (add32_small v 1 (omega arith), fill-filled n (v + 1) c (put m v (c % 256)) x (omega arith))
      (ground arith)

-- `memset` of at most 2 ^ 31 bytes that do not run over the end of memory sets each of them to the
-- low byte of its argument, and no other; of more it sets none, because its counter is signed.
pub memset-filled :
    (v c n : ℕ) (m : Mem) (x : ℕ)
    → v + n < word_mod
    → memset v c n m x ≡ (if leb n (2 ^ 31) then filled v (c % 256) n m x else m x)
unfolding memset sub32
memset-filled v c n m x high = elim (Bool-cases (leb (2 ^ 31) ((n + word_mod - 1) % word_mod))) [
  | inl many ↦ rw many (ground arith)
  | inr few ↦ rw (few, fill-filled n v c m x high) (ground arith)
]
