-- ===== src/Strings/Texts.antt =====
-- What the routines of lib/string.c on strings that end in 0 compute.
use fos_fcis_operating_syste.Prelude.{
  ℕ, zero, suc, ◌+◌, ◌<◌, ◌≡◌, refl, sym, ap, ◌∙◌, ◌≢◌, ◌⊎◌, inl, inr, true, false, ◌==◌, List, [],
  ◌∷◌, length, All, arith, word_mod, add32, sub32, add32_small, eq→==, ne→==, ==→eq, Bool-cases, ok,
  Returns, returns, Returns-mono,
}
use fos_fcis_operating_syste.Memory.{Mem}
use fos_fcis_operating_syste.Strings.Defs.{put, count_bytes, strlen, strcpy, strcmp, memcpy}
use fos_fcis_operating_syste.Strings.Moves.{copied, memcpy-copied}

-- From `s` on, memory holds the bytes `cs`, none of them 0, and then a 0.
abbrev pub Text : Mem → ℕ → List ℕ → Type 0
Text m s [] = m s ≡ 0
Text m s (c ∷ cs) = (m s ≡ c) × (c ≢ 0) × Text m (add32 s 1) cs

count_bytes-Text :
    (fuel : ℕ) (m : Mem) (s n : ℕ) (cs : List ℕ)
    → Text m s cs
    → length cs < fuel
    → n + length cs < word_mod
    → count_bytes fuel m s n ≡ ok (n + length cs)
unfolding count_bytes
count_bytes-Text zero m s n cs t enough small = absurd (omega arith)
count_bytes-Text (suc fuel) m s n [] t enough small = rw (eq→== (m s) 0 t) (ap ok (omega arith))
count_bytes-Text (suc fuel) m s n (c ∷ cs) (here, nz, t) enough small =
    let more : (m s == 0) ≡ false = ne→== (m s) 0 (λ e. nz (sym here ∙ e)) in
    rw
      (
        more,
        add32_small n 1 (omega arith),
        count_bytes-Text fuel m (add32 s 1) (n + 1) cs t (omega arith) (omega arith),
      )
      (ap ok (omega arith))

-- `strlen` of a string returns its length.
pub strlen-Text :
    (fuel : ℕ) (m : Mem) (s : ℕ) (cs : List ℕ)
    → Text m s cs
    → length cs < fuel
    → length cs < word_mod
    → strlen fuel m s ≡ ok (length cs)
unfolding strlen
strlen-Text fuel m s cs t enough small =
    count_bytes-Text fuel m s 0 cs t enough (omega arith) ∙ ap ok (omega arith)

-- A word difference is 0 only for equal words.
sub32-zero : (a b : ℕ) → a < word_mod → b < word_mod → sub32 a b ≡ 0 → a ≡ b
unfolding sub32
sub32-zero a b ha hb z = omega arith

sub32_self : (a : ℕ) → a < word_mod → sub32 a a ≡ 0
unfolding sub32
sub32_self a ha = omega arith

-- The result `r` tells whether two lists are equal.
abbrev pub Tells : List ℕ → List ℕ → ℕ → Type 0
Tells ps qs r = (r ≡ 0 → ps ≡ qs) × (ps ≡ qs → r ≡ 0)

Tells-other : (ps qs : List ℕ) (r : ℕ) → r ≢ 0 → ps ≢ qs → Tells ps qs r
Tells-other ps qs r nz other = (λ z. absurd (nz z), λ e. absurd (other e))

Tells-tail : (x y : ℕ) (ps qs : List ℕ) (r : ℕ) → x ≡ y → Tells ps qs r → Tells (x ∷ ps) (y ∷ qs) r
Tells-tail x y ps qs r e t = (λ z. cc (e, t.0 z), λ same. t.1 (cc (same)))

-- `strcmp` of two strings of bytes returns, with 0 exactly where they are equal.
pub strcmp-equal :
    (fuel : ℕ) (m : Mem) (p q : ℕ) (ps qs : List ℕ)
    → Text m p ps
    → Text m q qs
    → All (λ c. c < 256) ps
    → All (λ c. c < 256) qs
    → length ps < fuel
    → Returns (Tells ps qs) (strcmp fuel m p q)
unfolding strcmp
strcmp-equal zero m p q ps qs t u b d enough = absurd (omega arith)
strcmp-equal (suc fuel) m p q [] [] t u b d enough =
    rw (t, u) (returns (λ z. refl, λ e. sub32_self 0 (omega arith)))
strcmp-equal (suc fuel) m p q [] (y ∷ qs) t (here, nz, u) b d enough =
    rw (t, here)
      (returns (
        Tells-other [] (y ∷ qs) (sub32 0 y)
          (λ z. nz (sym (sub32-zero 0 y (omega arith) (omega (arith, d.0)) z))) (λ e. cc (e))))
strcmp-equal (suc fuel) m p q (x ∷ ps) [] (here, nz, t) u b d enough =
    rw (here, u, ne→== x 0 nz)
      (returns (
        Tells-other (x ∷ ps) [] (sub32 x 0)
          (λ z. nz (sub32-zero x 0 (omega (arith, b.0)) (omega arith) z)) (λ e. cc (e))))
strcmp-equal (suc fuel) m p q (x ∷ ps) (y ∷ qs) (here, nz, t) (there, nz2, u) b d enough =
    elim (Bool-cases (x == y)) [
      | inl same ↦
          rw (here, there, ne→== x 0 nz, same)
            (Returns-mono
              (strcmp-equal fuel m (add32 p 1) (add32 q 1) ps qs t u b.1 d.1 (omega arith))
              λ r tells. Tells-tail x y ps qs r (==→eq x y same) tells)
      | inr other ↦
          let apart : x ≢ y = λ e. let same : (x == y) ≡ true = eq→== x y e in cc in
          rw (here, there, ne→== x 0 nz, other)
            (returns (
              Tells-other (x ∷ ps) (y ∷ qs) (sub32 x y)
                (λ z. apart (sub32-zero x y (omega (arith, b.0)) (omega (arith, d.0)) z))
                (λ e. apart (cc (e)))))
    ]

-- The bytes of a string stay where another byte is written.
Text-put :
    (m : Mem) (a v s : ℕ) (cs : List ℕ)
    → s + length cs < word_mod
    → (a < s) ⊎ (s + length cs < a)
    → Text m s cs
    → Text (put m a v) s cs
Text-put m a v s [] small out t = rw (ne→== s a (omega arith)) t
Text-put m a v s (c ∷ cs) small out (here, nz, t) =
    let next : add32 s 1 ≡ s + 1 = add32_small s 1 (omega arith) in
    (
      rw (ne→== s a (omega arith)) here,
      nz,
      rw next (Text-put m a v (s + 1) cs (omega arith) (omega arith) (rw next at t)),
    )

memcpy_none : (dst src : ℕ) (m : Mem) → memcpy dst src 0 m ≡ m
unfolding memcpy
memcpy_none dst src m = refl

memcpy-suc :
    (dst src n : ℕ) (m : Mem)
    → memcpy dst src (suc n) m ≡ memcpy (add32 dst 1) (add32 src 1) n (put m dst (m src))
unfolding memcpy
memcpy-suc dst src n m = refl

-- `strcpy` of a string is `memcpy` of its bytes and of the 0.
pub strcpy-memcpy :
    (fuel : ℕ) (dst src : ℕ) (m : Mem) (cs : List ℕ)
    → Text m src cs
    → length cs < fuel
    → src + length cs < word_mod
    → dst + length cs < word_mod
    → (dst + length cs < src) ⊎ (src + length cs < dst)
    → strcpy fuel dst src m ≡ ok (memcpy dst src (suc (length cs)) m)
unfolding strcpy
strcpy-memcpy zero dst src m cs t enough hs hd out = absurd (omega arith)
strcpy-memcpy (suc fuel) dst src m [] t enough hs hd out =
    rw (eq→== (m src) 0 t) (ap ok (sym (memcpy-suc dst src 0 m ∙ memcpy_none _ _ _)))
strcpy-memcpy (suc fuel) dst src m (c ∷ cs) (here, nz, t) enough hs hd out =
    let d : add32 dst 1 ≡ dst + 1 = add32_small dst 1 (omega arith) in
    let s : add32 src 1 ≡ src + 1 = add32_small src 1 (omega arith) in
    let more : (m src == 0) ≡ false = ne→== (m src) 0 (λ e. nz (sym here ∙ e)) in
    let first : memcpy dst src (suc (suc (length cs))) m
        ≡ memcpy (dst + 1) (src + 1) (suc (length cs)) (put m dst (m src)) =
      memcpy-suc dst src (suc (length cs)) m ∙ rw (d, s) in
    let kept = Text-put m dst (m src) (src + 1) cs (omega arith) (omega arith) (rw s at t) in
    let rest =
      strcpy-memcpy fuel (dst + 1) (src + 1) (put m dst (m src)) cs kept (omega arith) (omega arith)
        (omega arith) (omega arith) in
    rw (more, d, s, rest) (ap ok (sym first))

-- `strcpy` of a string to where it does not touch it returns; every byte of the string and its 0 is
-- copied, and no other byte changes.
pub strcpy-copied :
    (fuel : ℕ) (dst src : ℕ) (m : Mem) (cs : List ℕ)
    → Text m src cs
    → length cs < fuel
    → src + length cs + 1 < word_mod
    → dst + length cs + 1 < word_mod
    → (dst + length cs < src) ⊎ (src + length cs < dst)
    → Returns (λ m'. (x : ℕ) → m' x ≡ copied dst src (length cs + 1) m x) (strcpy fuel dst src m)
strcpy-copied fuel dst src m cs t enough hs hd out =
    rw (strcpy-memcpy fuel dst src m cs t enough (omega arith) (omega arith) out) (
      returns λ x.
        memcpy-copied dst src (suc (length cs)) m x (omega arith) (omega arith) (omega arith)
        ∙ (let z : suc (length cs) ≡ length cs + 1 = omega arith in rw z))
