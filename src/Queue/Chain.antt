-- ===== src/Queue/Chain.antt =====
-- What a well-formed list of inc/queue.h is: the links of `xs` run both ways, NULL at both ends.
use fos_fcis_operating_syste.Prelude.{
  ℕ, zero, suc, ◌+◌, ◌<◌, ◌≡◌, refl, sym, ◌∙◌, ◌≢◌, true, false, List, [], ◌∷◌, ◌++◌, ◌==◌,
  if◌then◌else◌, word_mod, length, arith, All, ne→==, eq→==, ok,
}
use fos_fcis_operating_syste.Prelude.{Bool-cases, ◌⊎◌, inl, inr}
use fos_fcis_operating_syste.Queue.Defs.{Queue, write, walk, visited, elements, init}

-- `x` is none of `xs`
abbrev pub Absent : ℕ → List ℕ → Type 0
Absent x xs = All (λ y. x ≢ y) xs

-- From `p`, coming from `before`, the `next` fields lead through `xs` to `stop`; the `prev`
-- fields lead back; `end` is the last element, or `before` if there is none.
pub data Chain (next prev : ℕ → ℕ) (stop : ℕ) : (before p : ℕ) → List ℕ → (end : ℕ) → Type 0 where
  nil : {before p end : ℕ} → p ≡ stop → end ≡ before → Chain next prev stop before p [] end
  cons :
      {before p x end : ℕ} {xs : List ℕ}
      → p ≡ x
      → x ≢ 0
      → prev x ≡ before
      → Absent x xs
      → Chain next prev stop x (next x) xs end
      → Chain next prev stop before p (x ∷ xs) end

pub record IsQueue (q : Queue) (xs : List ℕ) : Type 0 where
  pub chain : Chain q.next q.prev 0 0 q.first xs q.last
  pub count : q.size ≡ length xs
  pub fits : length xs < word_mod

-- No element of `xs` is one of `ys`.
abbrev pub Apart : List ℕ → List ℕ → Type 0
Apart xs ys = All (λ x. Absent x ys) xs

pub Absent-append : (x : ℕ) (xs ys : List ℕ) → Absent x xs → Absent x ys → Absent x (xs ++ ys)
Absent-append x [] ys h k = k
Absent-append x (y ∷ xs) ys h k = (h.0, Absent-append x xs ys h.1 k)

pub Absent-prefix : (x : ℕ) (xs ys : List ℕ) → Absent x (xs ++ ys) → Absent x xs × Absent x ys
Absent-prefix x [] ys h = (tt, h)
Absent-prefix x (y ∷ xs) ys h = let r = Absent-prefix x xs ys h.1 in ((h.0, r.0), r.1)

pub Apart-head : (y : ℕ) (xs ys : List ℕ) → Apart xs (y ∷ ys) → Absent y xs × Apart xs ys
Apart-head y [] ys h = (tt, tt)
Apart-head y (x ∷ xs) ys h =
    let r = Apart-head y xs ys h.1 in ((λ e. h.0.0 (sym e), r.0), (h.0.1, r.1))

module _ {next prev : ℕ → ℕ} where
  -- A write to a field of a stranger leaves a chain as it is.
  pub Chain-write_next :
      (a v : ℕ) {stop before p end : ℕ} {xs : List ℕ}
      → Absent a xs
      → Chain next prev stop before p xs end
      → Chain (write next a v) prev stop before p xs end
  unfolding write
  Chain-write_next a v out (nil e f) = nil e f
  Chain-write_next a v out (cons {x} e nz back fresh c) =
      let same : (x == a) ≡ false = ne→== x a (λ q. out.0 (sym q)) in
      cons e nz back fresh (rw same (Chain-write_next a v out.1 c))

  pub Chain-write_prev :
      (a v : ℕ) {stop before p end : ℕ} {xs : List ℕ}
      → Absent a xs
      → Chain next prev stop before p xs end
      → Chain next (write prev a v) stop before p xs end
  unfolding write
  Chain-write_prev a v out (nil e f) = nil e f
  Chain-write_prev a v out (cons {x} e nz back fresh c) =
      let same : (x == a) ≡ false = ne→== x a (λ q. out.0 (sym q)) in
      cons e nz (rw same back) fresh (Chain-write_prev a v out.1 c)

  pub Chain-append :
      {stop m end : ℕ} (ys : List ℕ) {before p k : ℕ} {xs : List ℕ}
      → Chain next prev m before p xs k
      → Chain next prev stop k m ys end
      → Apart xs ys
      → Chain next prev stop before p (xs ++ ys) end
  Chain-append ys (nil e f) d apart = rw (e, ← f) d
  Chain-append ys (cons {x} {xs} e nz back fresh c) d apart =
      cons e nz back (Absent-append x xs ys fresh apart.0) (Chain-append ys c d apart.1)

  pub Chain-split :
      (xs ys : List ℕ) {stop before p end : ℕ}
      → Chain next prev stop before p (xs ++ ys) end
      → (k : ℕ) × (m : ℕ) × Chain next prev m before p xs k
        × Chain next prev stop k m ys end
        × Apart xs ys
  Chain-split [] ys {before} {p} c = (before, p, nil refl refl, c, tt)
  Chain-split (x ∷ xs) ys (cons e nz back fresh c) =
      let (k, m, f, b, apart) = Chain-split xs ys c in
      let out = Absent-prefix x xs ys fresh in (k, m, cons e nz back out.0 f, b, (out.1, apart))

  -- The end of a chain is one of its elements.
  pub Chain-end :
      (P : ℕ → Type 0) {stop before p end x : ℕ} {xs : List ℕ}
      → Chain next prev stop before p (x ∷ xs) end
      → All P (x ∷ xs)
      → P end
  Chain-end P (cons e nz back fresh (nil _ f)) a = rw f a.0
  Chain-end P (cons e nz back fresh (cons e' nz' back' fresh' c)) a =
      Chain-end P (cons e' nz' back' fresh' c) a.1

  pub Chain-nonzero :
      {stop before p end : ℕ} {xs : List ℕ}
      → Chain next prev stop before p xs end
      → All (λ x. x ≢ 0) xs
  Chain-nonzero (nil e f) = tt
  Chain-nonzero (cons e nz back fresh c) = (nz, Chain-nonzero c)

  retarget :
      (v : ℕ) {stop before p end x : ℕ} {xs : List ℕ}
      → Chain next prev stop before p (x ∷ xs) end
      → Chain (write next end v) prev v before p (x ∷ xs) end
  unfolding write
  retarget v {end} (cons {x} e nz back fresh (nil _ f)) =
      let same : (x == end) ≡ true = eq→== x end (sym f) in cons e nz back fresh (nil (rw same) f)
  retarget v {end} (cons {x} e nz back fresh (cons e' nz' back' fresh' c)) =
      let ne : x ≢ end = Chain-end (λ z. x ≢ z) (cons e' nz' back' fresh' c) fresh in
      let same : (x == end) ≡ false = ne→== x end ne in
      cons e nz back fresh (rw same (retarget v (cons e' nz' back' fresh' c)))

  -- What is before a gap, with its last `next` field, or `lh_first`, set to `v`.
  pub front-link :
      (v : ℕ) {p k m : ℕ} {xs : List ℕ}
      → Chain next prev m 0 p xs k
      → Chain (if k == 0 then next else write next k v) prev v 0 (if k == 0 then v else p) xs k
  front-link v {k} (nil e f) = rw (eq→== k 0 f) (nil refl f)
  front-link v {k} (cons e nz back fresh c) =
      let whole = cons e nz back fresh c in
      let some_end : (k == 0) ≡ false =
        ne→== k 0 (Chain-end (λ z. z ≢ 0) whole (Chain-nonzero whole)) in
      rw some_end (retarget v whole)

  -- What is behind a gap, with its first `prev` field, or `lh_last`, set to `v`.
  pub back-link :
      (v : ℕ) {before p end : ℕ} {xs : List ℕ}
      → Chain next prev 0 before p xs end
      → Chain next (if p == 0 then prev else write prev p v) 0 v p xs (if p == 0 then v else end)
  unfolding write
  back-link v {p} (nil e f) = rw (eq→== p 0 e) (nil e refl)
  back-link v {p} (cons {x} {xs} e nz back fresh c) =
      let head : (p == 0) ≡ false = ne→== p 0 (λ z. nz (sym e ∙ z)) in
      let same : (x == p) ≡ true = eq→== x p (sym e) in
      let out : Absent p xs = rw e fresh in
      rw head (cons e nz (rw same) fresh (Chain-write_prev p v out c))

pub write_self : (f : ℕ → ℕ) (a v : ℕ) → write f a v a ≡ v
unfolding write
write_self f a v = rw (eq→== a a refl)

pub write_other : (f : ℕ → ℕ) (a v b : ℕ) → a ≢ b → write f a v b ≡ f b
unfolding write
write_other f a v b ne = rw (ne→== b a (λ e. ne (sym e)))

-- A field written behind a test for NULL.
abbrev pub link : (ℕ → ℕ) → ℕ → ℕ → ℕ → ℕ
link f a v = if a == 0 then f else write f a v

pub link-other : (f : ℕ → ℕ) (a v b : ℕ) → (a ≡ 0) ⊎ Absent a (b ∷ []) → link f a v b ≡ f b
link-other f a v b (inl e) = rw (eq→== a 0 e)
link-other f a v b (inr out) = elim (Bool-cases (a == 0)) [
  | inl e ↦ rw e
  | inr e ↦ rw e (write_other f a v b out.0)
]

module _ {next prev : ℕ → ℕ} where
  -- The first element behind a gap is none of those before it.
  pub head-Absent :
      (xs : List ℕ) {before p end : ℕ} {ys : List ℕ}
      → Chain next prev 0 before p ys end
      → Apart xs ys
      → (p ≡ 0) ⊎ Absent p xs
  head-Absent xs (nil e f) apart = inl e
  head-Absent xs (cons {x} {xs = ys} e nz back fresh c) apart =
      inr (rw e (Apart-head x xs ys apart).0)

  -- The last element before a gap is none of those behind it.
  pub end-Absent :
      {m p k : ℕ} {xs : List ℕ} (ys : List ℕ)
      → Chain next prev m 0 p xs k
      → Apart xs ys
      → (k ≡ 0) ⊎ Absent k ys
  end-Absent ys (nil e f) apart = inl f
  end-Absent ys (cons e nz back fresh c) apart =
      inr (Chain-end (λ z. Absent z ys) (cons e nz back fresh c) apart)

  pub Chain-link_next :
      (a v : ℕ) {stop before p end : ℕ} {xs : List ℕ}
      → (a ≡ 0) ⊎ Absent a xs
      → Chain next prev stop before p xs end
      → Chain (link next a v) prev stop before p xs end
  Chain-link_next a v (inl e) c = rw (eq→== a 0 e) c
  Chain-link_next a v (inr out) c = elim (Bool-cases (a == 0)) [
    | inl e ↦ rw e c
    | inr e ↦ rw e (Chain-write_next a v out c)
  ]

  pub Chain-link_prev :
      (a v : ℕ) {stop before p end : ℕ} {xs : List ℕ}
      → (a ≡ 0) ⊎ Absent a xs
      → Chain next prev stop before p xs end
      → Chain next (link prev a v) stop before p xs end
  Chain-link_prev a v (inl e) c = rw (eq→== a 0 e) c
  Chain-link_prev a v (inr out) c = elim (Bool-cases (a == 0)) [
    | inl e ↦ rw e c
    | inr e ↦ rw e (Chain-write_prev a v out c)
  ]

-- LIST_FOREACH from any place of a chain comes to its end.
walk-Chain :
    (fuel : ℕ) {next prev : ℕ → ℕ} {before p end : ℕ} {xs : List ℕ}
    → Chain next prev 0 before p xs end
    → length xs < fuel
    → walk fuel next p ≡ ok xs
unfolding walk
walk-Chain zero c enough = absurd (omega arith)
walk-Chain (suc fuel) {p} (nil e f) enough = rw (eq→== p 0 e)
walk-Chain (suc fuel) (cons {x} e nz back fresh c) enough =
    rw (e, ne→== x 0 nz, walk-Chain fuel c (omega (arith, enough)))

-- The elements of a well-formed list.
pub elements-IsQueue : {q : Queue} {xs : List ℕ} → IsQueue q xs → elements q ≡ xs
unfolding elements visited
elements-IsQueue {q} v = rw (walk-Chain (q.size + 1) v.chain (omega (arith, v.count)))

-- LIST_FOREACH of a well-formed list comes to its end, at NULL, within one round more than the list
-- has elements, however many rounds it is given beyond that. It has then visited exactly the
-- elements, in order, and the size of the list allows for the rounds that this takes.
pub walk-IsQueue :
    {q : Queue} {xs : List ℕ} (fuel : ℕ)
    → IsQueue q xs
    → length xs < fuel
    → (walk fuel q.next q.first ≡ ok xs) × (elements q ≡ xs)
walk-IsQueue fuel v enough = (walk-Chain fuel v.chain enough, elements-IsQueue v)

-- LIST_INIT makes the list empty.
pub init-IsQueue : (q : Queue) → IsQueue (init q) []
unfolding init
init-IsQueue q = record { chain = nil refl refl; count = refl; fits = omega arith }
