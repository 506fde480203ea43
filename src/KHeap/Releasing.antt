-- ===== src/KHeap/Releasing.antt =====
-- `kfree` of kern/mem/kheap.c releases the pages that `kmalloc` has backed.
use fos_fcis_operating_syste.Prelude.{
  ℕ, ◌+◌, ◌-◌, ◌*◌, ◌%◌, ◌≤◌, ◌<◌, ◌≡◌, refl, ap, sym, ◌∙◌, subst, ◌≢◌, Bool, true, false, not,
  ◌&&◌, ◌||◌, ◌==◌, if◌then◌else◌, arith, word_mod, ne→==, ok, Run, Returns, returns,
}
use native.Mathlib.Decide.{ℕ_discrete}
use fos_fcis_operating_syste.KHeap.Defs.{KHeap, page_of}
use fos_fcis_operating_syste.KHeap.Ops.{is_mapped, release_page, release_pages, kernel_heap_pages}
use fos_fcis_operating_syste.KHeap.Pages.{
  at_page, marks, SameBlocks, SameBlocks-trans, Backed, page_of_aligned,
}
use fos_fcis_operating_syste.KHeap.Unpages.{
  Released, Bounded, release_page-Released, release_pages-Released,
}

-- Nothing that the page allocator keeps differs.
pub record Restored (k k' : KHeap) : Type 0 where
  pub free_frames : k'.heap.free_frames ≡ k.heap.free_frames
  pub mapped : (q : ℕ) → is_mapped q k'.heap.mapped ≡ is_mapped q k.heap.mapped
  pub marked : (q : ℕ) → k'.marked q ≡ k.marked q
  pub free_pages_list : k'.free_pages_list ≡ k.free_pages_list
  pub same : SameBlocks k k'

-- `n` pages at `begin` have no frame and no mark.
pub record Vacant (begin n : ℕ) (k : KHeap) : Type 0 where
  pub unmapped : (q : ℕ) → at_page q begin n ≡ true → is_mapped q k.heap.mapped ≡ false
  pub unmarked : (q : ℕ) → at_page q begin n ≡ true → k.marked q ≡ false

back_out : (a old : Bool) → (a ≡ true → old ≡ false) → (not a && (a || old)) ≡ old
back_out true old h = sym (h refl)
back_out false old h = refl

marks_inside :
    (n begin q : ℕ) → begin % 4096 ≡ 0 → marks n n 1 begin q ≡ true → at_page q begin n ≡ true
marks_inside n begin q aligned h = ground arith

mark_out :
    (a m old : Bool)
    → (m ≡ true → a ≡ true)
    → (a ≡ true → old ≡ false)
    → (not a && (m || old)) ≡ old
mark_out true m old f h = sym (h refl)
mark_out false true old f h = cc (f refl)
mark_out false false old f h = refl

-- What was backed and is released is as before.
pub Backed-Released :
    (n begin : ℕ) {k k1 k2 : KHeap}
    → begin % 4096 ≡ 0
    → Vacant begin n k
    → Backed n n 1 begin k k1
    → Released n begin k1 k2
    → (k2.heap.free_frames ≡ k.heap.free_frames)
      × ((q : ℕ) → is_mapped q k2.heap.mapped ≡ is_mapped q k.heap.mapped)
      × ((q : ℕ) → k2.marked q ≡ k.marked q)
      × SameBlocks k k2
Backed-Released n begin {k} {k1} {k2} aligned v b r = (
  omega (arith, b.frames, r.frames),
  λ q.
      r.mapped q
      ∙ ap (λ c. not (at_page q begin n) && c) (b.mapped q)
      ∙ back_out (at_page q begin n) (is_mapped q k.heap.mapped) (v.unmapped q),
  λ q.
      r.marked q
      ∙ ap (λ c. not (at_page q begin n) && c) (b.marked q)
      ∙ mark_out (at_page q begin n) (marks n n 1 begin q) (k.marked q)
          (marks_inside n begin q aligned) (v.unmarked q),
  SameBlocks-trans b.same r.same,
)

pub page-Backed :
    (n begin q : ℕ) {k k1 : KHeap}
    → Backed n n 1 begin k k1
    → at_page q begin n ≡ true
    → is_mapped q k1.heap.mapped ≡ true
page-Backed n begin q {k} b h = b.mapped q ∙ ap (λ c. c || is_mapped q k.heap.mapped) h

-- The marks are those that the release looks for.
Backed-Bounded :
    (n begin : ℕ) {k k1 : KHeap}
    → begin % 4096 ≡ 0
    → 1 < n
    → Vacant begin n k
    → Backed n n 1 begin k k1
    → Bounded 1 n begin k1
Backed-Bounded n begin {k} {k1} aligned several v b = record {
  backed = λ q h. page-Backed n begin q b h;
  stop =
      b.marked (begin + n * 4096 - 4096)
      ∙ ap (λ c. c || k.marked (begin + n * 4096 - 4096)) (last_mark n begin several);
  inner = λ q h other.
      b.marked q
      ∙ ap (λ c. c || k.marked q) (inner_mark n begin q several aligned h (other refl))
      ∙ v.unmarked q (inner_page n begin q h);
}
  where
    last_mark : (n begin : ℕ) → 1 < n → marks n n 1 begin (begin + n * 4096 - 4096) ≡ true
    last_mark n begin several = ground arith

    inner_mark :
        (n begin q : ℕ)
        → 1 < n
        → begin % 4096 ≡ 0
        → at_page q begin (n - 1) ≡ true
        → q ≢ begin
        → marks n n 1 begin q ≡ false
    inner_mark n begin q several aligned h other = ground arith

    inner_page : (n begin q : ℕ) → at_page q begin (n - 1) ≡ true → at_page q begin n ≡ true
    inner_page n begin q h = ground arith

-- The first page alone tells whether they are several.
first_mark :
    (n begin : ℕ) {k k1 : KHeap}
    → begin % 4096 ≡ 0
    → 0 < n
    → Vacant begin n k
    → Backed n n 1 begin k k1
    → k1.marked (page_of begin) ≡ not (n == 1)
first_mark n begin {k} {k1} aligned filled v b =
    ap k1.marked (page_of_aligned begin aligned)
    ∙ b.marked begin
    ∙ ap (λ c. marks n n 1 begin begin || c) (v.unmarked begin (first_page n begin aligned filled))
    ∙ at_first n begin filled
  where
    first_page : (n begin : ℕ) → begin % 4096 ≡ 0 → 0 < n → at_page begin begin n ≡ true
    first_page n begin aligned filled = ground arith

    at_first : (n begin : ℕ) → 0 < n → (marks n n 1 begin begin || false) ≡ not (n == 1)
    at_first n begin filled = ground arith

-- The part of `kfree` that gives the pages back.
abbrev pub release_all : ℕ → KHeap → Run (ℕ × ℕ × KHeap)
release_all va k =
    if k.marked (page_of va)
    then release_pages kernel_heap_pages 1 va k
    else ok (va, 1, release_page va k)

pub release_all-Released :
    (n begin : ℕ) {k k1 : KHeap}
    → begin % 4096 ≡ 0
    → 0 < n
    → n ≤ kernel_heap_pages
    → begin + n * 4096 < word_mod
    → Vacant begin n k
    → Backed n n 1 begin k k1
    → Returns
        (λ (last, m, k2). (last ≡ begin + n * 4096 - 4096) × (m ≡ n) × Released n begin k1 k2)
        (release_all begin k1)
release_all-Released n begin {k} {k1} aligned filled few room v b = elim (ℕ_discrete n 1) [
  | yes one ↦
      let there : is_mapped begin k1.heap.mapped ≡ true =
        page-Backed n begin begin b (whole n begin aligned filled) in
      let r = release_page-Released begin k1 aligned there in
      let unmarked : k1.marked (page_of begin) ≡ false =
        first_mark n begin aligned filled v b ∙ ap (λ m. not (m == 1)) one in
      rw unmarked (
        returns (
          omega arith,
          sym one,
          subst (λ m. Released m begin k1 (release_page begin k1)) (sym one) r,
        ))
  | no more ↦
      let marked : k1.marked (page_of begin) ≡ true =
        first_mark n begin aligned filled v b ∙ ap not (ne→== n 1 more) in
      rw marked (
        release_pages-Released kernel_heap_pages n n 1 begin k1 (omega (arith, more)) filled few
          (omega arith) (omega arith) aligned room
          (Backed-Bounded n begin aligned (omega (arith, more)) v b))
]
  where
    whole : (n begin : ℕ) → begin % 4096 ≡ 0 → 0 < n → at_page begin begin n ≡ true
    whole n begin aligned filled = ground arith
