-- ===== src/KHeap/Unpages.antt =====
-- The pages that `kfree` of kern/mem/kheap.c gives back: up to the second mark.
use fos_fcis_operating_syste.Prelude.{
  ℕ, zero, suc, ◌+◌, ◌-◌, ◌*◌, ◌%◌, ◌≤◌, ◌<◌, ◌≡◌, refl, ap, sym, ◌∙◌, ◌≢◌, Bool, true, false, not,
  ◌&&◌, List, [], ◌∷◌, ltb, ◌==◌, if◌then◌else◌, arith, word_mod, add32, add32_small, page_size,
  lt→ltb, ok, Returns, returns, Returns-mono,
}
use native.Mathlib.Decide.{ℕ_discrete}
use fos_fcis_operating_syste.KHeap.Defs.{KHeap, page_of, set_mark, with_heap}
use fos_fcis_operating_syste.KHeap.Ops.{is_mapped, without, release_page, release_pages}
use fos_fcis_operating_syste.KHeap.Pages.{at_page, SameBlocks, SameBlocks-trans, page_of_aligned}

pub record Released (left va : ℕ) (k k' : KHeap) : Type 0 where
  pub frames : k'.heap.free_frames ≡ k.heap.free_frames + left
  pub mapped :
      (q : ℕ) → is_mapped q k'.heap.mapped ≡ (not (at_page q va left) && is_mapped q k.heap.mapped)
  pub marked : (q : ℕ) → k'.marked q ≡ (not (at_page q va left) && k.marked q)
  pub free_pages_list : k'.free_pages_list ≡ k.free_pages_list
  pub same : SameBlocks k k'

is_mapped-without :
    (q p : ℕ) (ps : List ℕ) → is_mapped q (without p ps) ≡ (not (q == p) && is_mapped q ps)
unfolding is_mapped without
is_mapped-without q p [] = ground arith
is_mapped-without q p (x ∷ xs) = ground (arith, is_mapped-without q p xs)

single :
    (q va : ℕ) (old : Bool) → va % 4096 ≡ 0 → (not (q == va) && old) ≡ (not (at_page q va 1) && old)
single q va old aligned = ground arith

pub release_page-Released :
    (va : ℕ) (k : KHeap)
    → va % 4096 ≡ 0
    → is_mapped va k.heap.mapped ≡ true
    → Released 1 va k (release_page va k)
unfolding release_page set_mark with_heap
release_page-Released va k aligned there =
    rw (page_of_aligned va aligned, there)
      (record {
        frames = refl;
        mapped = λ q.
            is_mapped-without q va k.heap.mapped ∙ single q va (is_mapped q k.heap.mapped) aligned;
        marked = λ q. choice (q == va) (k.marked q) ∙ single q va (k.marked q) aligned;
        free_pages_list = refl;
        same = record {
          mem = refl;
          free_blocks = refl;
          brk = refl;
          hard_limit = refl;
          start = refl;
          strategy = refl;
          page_allocator_flag = refl;
        };
      })
  where
    choice : (b c : Bool) → (if b then false else c) ≡ (not b && c)
    choice true c = refl
    choice false c = refl

split_pages :
    (q va left : ℕ) (old : Bool)
    → va % 4096 ≡ 0
    → (not (at_page q (va + page_size) left) && (not (at_page q va 1) && old))
      ≡ (not (at_page q va (suc left)) && old)
split_pages q va left old aligned = ground arith

Released-next :
    (left va : ℕ) {k l m : KHeap}
    → va % 4096 ≡ 0
    → Released 1 va k l
    → Released left (va + page_size) l m
    → Released (suc left) va k m
Released-next left va {k} {l} {m} aligned a b = record {
  frames = omega (arith, a.frames, b.frames);
  mapped = λ q.
      b.mapped q
      ∙ ap (λ c. not (at_page q (va + page_size) left) && c) (a.mapped q)
      ∙ split_pages q va left (is_mapped q k.heap.mapped) aligned;
  marked = λ q.
      b.marked q
      ∙ ap (λ c. not (at_page q (va + page_size) left) && c) (a.marked q)
      ∙ split_pages q va left (k.marked q) aligned;
  free_pages_list = b.free_pages_list ∙ a.free_pages_list;
  same = SameBlocks-trans a.same b.same;
}

-- `left` pages from `va` on, all with frames, of which the first may be marked if it is the first of
-- all, and otherwise the last one alone is.
pub record Bounded (page_no left va : ℕ) (k : KHeap) : Type 0 where
  pub backed : (q : ℕ) → at_page q va left ≡ true → is_mapped q k.heap.mapped ≡ true
  pub stop : k.marked (va + left * 4096 - 4096) ≡ true
  pub inner : (q : ℕ) → at_page q va (left - 1) ≡ true → (page_no ≡ 1 → q ≢ va) → k.marked q ≡ false

later_in :
    (q va m : ℕ) → va % 4096 ≡ 0 → at_page q (va + page_size) m ≡ true → at_page q va (suc m) ≡ true
later_in q va m aligned h = ground arith

later_out :
    (q va m : ℕ) → va % 4096 ≡ 0 → at_page q (va + page_size) m ≡ true → at_page q va 1 ≡ false
later_out q va m aligned h = ground arith

later_ne : (q va m : ℕ) → at_page q (va + page_size) m ≡ true → q ≢ va
later_ne q va m h e = absurd (ground arith)

first_in : (va m : ℕ) → va % 4096 ≡ 0 → at_page va va (suc m) ≡ true
first_in va m aligned = ground arith

kept : (a b : Bool) → a ≡ false → (not a && b) ≡ b
kept a b h = rw h refl

pred : (m : ℕ) → suc m - 1 ≡ m
pred m = omega arith

not_yet :
    (page_no left va : ℕ) (k : KHeap)
    → va % 4096 ≡ 0
    → 0 < page_no
    → Bounded page_no (suc (suc left)) va k
    → (k.marked (page_of va) && ltb 1 page_no) ≡ false
not_yet page_no left va k aligned first b = elim (ℕ_discrete page_no 1) [
  | yes one ↦ rw one (and_false (k.marked (page_of va)))
  | no more ↦
      let clear : k.marked va ≡ false =
        b.inner va (ap (at_page va va) (pred (suc left)) ∙ first_in va left aligned)
          (λ one. absurd (more one)) in
      rw (page_of_aligned va aligned, clear) refl
]
  where
    and_false : (b : Bool) → (b && false) ≡ false
    and_false true = refl
    and_false false = refl

Bounded-next :
    (page_no left va : ℕ) (k k1 : KHeap)
    → va % 4096 ≡ 0
    → Bounded page_no (suc (suc left)) va k
    → Released 1 va k k1
    → Bounded (page_no + 1) (suc left) (va + page_size) k1
Bounded-next page_no left va k k1 aligned b r =
    let stop_at : va + page_size + suc left * 4096 - 4096 ≡ va + suc (suc left) * 4096 - 4096 =
      omega arith in
    record {
      backed = λ q h.
          r.mapped q
          ∙ kept (at_page q va 1) (is_mapped q k.heap.mapped) (later_out q va (suc left) aligned h)
          ∙ b.backed q (later_in q va (suc left) aligned h);
      stop =
          ap k1.marked stop_at
          ∙ r.marked (va + suc (suc left) * 4096 - 4096)
          ∙ kept (at_page (va + suc (suc left) * 4096 - 4096) va 1) _ (ground arith)
          ∙ b.stop;
      inner = λ q h' other.
          let h = sym (ap (at_page q (va + page_size)) (pred left)) ∙ h' in
          r.marked q
          ∙ kept (at_page q va 1) (k.marked q) (later_out q va left aligned h)
          ∙ b.inner q (ap (at_page q va) (pred (suc left)) ∙ later_in q va left aligned h)
              (λ one. later_ne q va left h);
    }

release_pages_stop :
    (fuel page_no va : ℕ) (k : KHeap)
    → (k.marked (page_of va) && ltb 1 page_no) ≡ true
    → release_pages (suc fuel) page_no va k ≡ ok (va, page_no, release_page va k)
unfolding release_pages
release_pages_stop fuel page_no va k h = rw h refl

release_pages_more :
    (fuel page_no va : ℕ) (k : KHeap)
    → (k.marked (page_of va) && ltb 1 page_no) ≡ false
    → release_pages (suc fuel) page_no va k
      ≡ release_pages fuel (page_no + 1) (add32 va page_size) (release_page va k)
unfolding release_pages
release_pages_more fuel page_no va k h = rw h refl

pub release_pages-Released :
    (fuel n left page_no va : ℕ) (k : KHeap)
    → 1 < n
    → 0 < left
    → left ≤ fuel
    → 0 < page_no
    → page_no + left ≡ n + 1
    → va % 4096 ≡ 0
    → va + left * 4096 < word_mod
    → Bounded page_no left va k
    → Returns
        (λ (last, m, k'). (last ≡ va + left * 4096 - 4096) × (m ≡ n) × Released left va k k')
        (release_pages fuel page_no va k)
release_pages-Released zero n left page_no va k several pos enough first count aligned room b =
    absurd (omega arith)
release_pages-Released (suc fuel) n zero page_no va k several pos enough first count aligned room
      b =
    absurd (omega arith)
release_pages-Released (suc fuel) n (suc zero) page_no va k several pos enough first count aligned
      room b =
    let here : va + 1 * 4096 - 4096 ≡ va = omega arith in
    let stop : k.marked va ≡ true = ap k.marked (sym here) ∙ b.stop in
    let r = release_page-Released va k aligned (b.backed va (first_in va 0 aligned)) in
    let test : (k.marked (page_of va) && ltb 1 page_no) ≡ true =
      rw (page_of_aligned va aligned, stop, lt→ltb 1 page_no (omega arith)) refl in
    rw (release_pages_stop fuel page_no va k test) (returns (sym here, omega arith, r))
release_pages-Released (suc fuel) n (suc (suc left)) page_no va k several pos enough first count
      aligned room b =
    let next : add32 va page_size ≡ va + page_size = add32_small va page_size (omega arith) in
    let r = release_page-Released va k aligned (b.backed va (first_in va (suc left) aligned)) in
    let stop_at : va + page_size + suc left * 4096 - 4096 ≡ va + suc (suc left) * 4096 - 4096 =
      omega arith in
    rw (release_pages_more fuel page_no va k (not_yet page_no left va k aligned first b), next)
      (Returns-mono
        (release_pages-Released fuel n (suc left) (page_no + 1) (va + page_size) (release_page va k)
          several (omega arith) (omega arith) (omega arith) (omega arith) (omega arith)
          (omega arith) (Bounded-next page_no left va k (release_page va k) aligned b r))
        λ (l, m, k') (at, number, rest).
          (at ∙ stop_at, number, Released-next (suc left) va aligned r rest))
