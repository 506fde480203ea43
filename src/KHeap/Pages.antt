-- ===== src/KHeap/Pages.antt =====
-- The pages that `kmalloc` of kern/mem/kheap.c backs with frames and marks.
use fos_fcis_operating_syste.Prelude.{
  ℕ, zero, suc, ◌+◌, ◌-◌, ◌*◌, ◌%◌, ◌≤◌, ◌<◌, ◌≡◌, refl, ap, ◌∙◌, Bool, true, false, not, ◌&&◌,
  ◌||◌, ◌∷◌, ltb, ◌==◌, if◌then◌else◌, arith, word_mod, add32, add32_small, page_size, ne→==,
  Returns, returns, Returns-mono,
}
use fos_fcis_operating_syste.DynAlloc.{Heap}
use fos_fcis_operating_syste.KHeap.Defs.{KHeap, page_of, set_mark, with_heap, back_pages}
use fos_fcis_operating_syste.KHeap.Ops.{is_mapped}
use fos_fcis_operating_syste.KHeap.Ranges.{in_pages}

-- A page: an address of one.
abbrev pub at_page : (q begin n : ℕ) → Bool
at_page q begin n = in_pages q begin n && (q % 4096 == 0)

-- What stays when pages come and go.
pub record SameBlocks (k k' : KHeap) : Type 0 where
  pub mem : k'.heap.mem ≡ k.heap.mem
  pub free_blocks : k'.heap.free_blocks ≡ k.heap.free_blocks
  pub brk : k'.heap.brk ≡ k.heap.brk
  pub hard_limit : k'.heap.hard_limit ≡ k.heap.hard_limit
  pub start : k'.start ≡ k.start
  pub strategy : k'.strategy ≡ k.strategy
  pub page_allocator_flag : k'.page_allocator_flag ≡ k.page_allocator_flag

pub SameBlocks-trans : {k l m : KHeap} → SameBlocks k l → SameBlocks l m → SameBlocks k m
SameBlocks-trans p q = record {
  mem = q.mem ∙ p.mem;
  free_blocks = q.free_blocks ∙ p.free_blocks;
  brk = q.brk ∙ p.brk;
  hard_limit = q.hard_limit ∙ p.hard_limit;
  start = q.start ∙ p.start;
  strategy = q.strategy ∙ p.strategy;
  page_allocator_flag = q.page_allocator_flag ∙ p.page_allocator_flag;
}

-- Whether the page `q` is marked, of those from `page_no` at `va` to `n`, `left` of them.
abbrev pub marks : (n left page_no va q : ℕ) → Bool
marks n left page_no va q =
    (ltb 0 left && not (n == 1))
    && (((page_no == 1) && (q == va)) || (q == va + left * 4096 - 4096))

pub record Backed (n left page_no va : ℕ) (k k' : KHeap) : Type 0 where
  pub frames : k'.heap.free_frames + left ≡ k.heap.free_frames
  pub mapped :
      (q : ℕ) → is_mapped q k'.heap.mapped ≡ (at_page q va left || is_mapped q k.heap.mapped)
  pub marked : (q : ℕ) → k'.marked q ≡ (marks n left page_no va q || k.marked q)
  pub free_pages_list : k'.free_pages_list ≡ k.free_pages_list
  pub same : SameBlocks k k'

pub page_of_aligned : (va : ℕ) → va % 4096 ≡ 0 → page_of va ≡ va
unfolding page_of
page_of_aligned va h = omega arith

-- One page, with its mark.
backed_page : (n page_no va : ℕ) → KHeap → KHeap
backed_page n page_no va k =
    let k1 =
      with_heap k
        (record k.heap { free_frames = k.heap.free_frames - 1; mapped = va ∷ k.heap.mapped }) in
    if not (n == 1) && ((page_no == 1) || (page_no == n)) then set_mark (page_of va) true k1 else k1

back_page-eq :
    (n left page_no va : ℕ) (k : KHeap)
    → 0 < k.heap.free_frames
    → back_pages n (suc left) page_no va k
      ≡ back_pages n left (page_no + 1) (add32 va page_size) (backed_page n page_no va k)
unfolding back_pages backed_page
back_page-eq n left page_no va k some = rw (ne→== k.heap.free_frames 0 (omega arith))

-- A mark under a test.
record MarkedIf (b : Bool) (p : ℕ) (k k' : KHeap) : Type 0 where
  heap : k'.heap ≡ k.heap
  marked : (q : ℕ) → k'.marked q ≡ ((b && (q == p)) || k.marked q)
  free_pages_list : k'.free_pages_list ≡ k.free_pages_list
  start : k'.start ≡ k.start
  strategy : k'.strategy ≡ k.strategy
  page_allocator_flag : k'.page_allocator_flag ≡ k.page_allocator_flag

mark_if : (b : Bool) (p : ℕ) (k : KHeap) → MarkedIf b p k (if b then set_mark p true k else k)
unfolding set_mark
mark_if true p k = record {
  heap = refl;
  marked = λ q. choice (q == p) (k.marked q);
  free_pages_list = refl;
  start = refl;
  strategy = refl;
  page_allocator_flag = refl;
}
  where
    choice : (b c : Bool) → (if b then true else c) ≡ (b || c)
    choice true c = refl
    choice false c = refl
mark_if false p k = record {
  heap = refl;
  marked = λ q. refl;
  free_pages_list = refl;
  start = refl;
  strategy = refl;
  page_allocator_flag = refl;
}

one_more_page :
    (left va q : ℕ) (old : Bool)
    → va % 4096 ≡ 0
    → (at_page q (va + page_size) left || ((va == q) || old)) ≡ (at_page q va (suc left) || old)
one_more_page left va q old aligned = ground arith

one_more_mark :
    (n left page_no va q : ℕ) (old : Bool)
    → 0 < page_no
    → page_no + suc left ≡ n + 1
    → (marks n left (page_no + 1) (va + page_size) q
        || (((not (n == 1) && ((page_no == 1) || (page_no == n))) && (q == va)) || old))
      ≡ (marks n (suc left) page_no va q || old)
one_more_mark n left page_no va q old pos count = ground arith

backed_page-Backed :
    (n left page_no va : ℕ) (k k' : KHeap)
    → 0 < page_no
    → page_no + suc left ≡ n + 1
    → va % 4096 ≡ 0
    → suc left ≤ k.heap.free_frames
    → Backed n left (page_no + 1) (va + page_size) (backed_page n page_no va k) k'
    → Backed n (suc left) page_no va k k'
unfolding backed_page with_heap is_mapped
backed_page-Backed n left page_no va k k' pos count aligned enough b =
    let test = not (n == 1) && ((page_no == 1) || (page_no == n)) in
    let k1 =
      with_heap k
        (record k.heap { free_frames = k.heap.free_frames - 1; mapped = va ∷ k.heap.mapped }) in
    let m = mark_if test (page_of va) k1 in
    let at = page_of_aligned va aligned in
    record {
      frames = omega (arith, b.frames, ap (λ (h : Heap). h.free_frames) m.heap);
      mapped = λ q.
          b.mapped q
          ∙ ap (λ (h : Heap). at_page q (va + page_size) left || is_mapped q h.mapped) m.heap
          ∙ one_more_page left va q (is_mapped q k.heap.mapped) aligned;
      marked = λ q.
          b.marked q
          ∙ ap (λ c. marks n left (page_no + 1) (va + page_size) q || c) (m.marked q)
          ∙ ap
              (λ p.
                marks n left (page_no + 1) (va + page_size) q || ((test && (q == p)) || k.marked q))
              at
          ∙ one_more_mark n left page_no va q (k.marked q) pos count;
      free_pages_list = b.free_pages_list ∙ m.free_pages_list;
      same =
          SameBlocks-trans
            (record {
              mem = ap (λ (h : Heap). h.mem) m.heap;
              free_blocks = ap (λ (h : Heap). h.free_blocks) m.heap;
              brk = ap (λ (h : Heap). h.brk) m.heap;
              hard_limit = ap (λ (h : Heap). h.hard_limit) m.heap;
              start = m.start;
              strategy = m.strategy;
              page_allocator_flag = m.page_allocator_flag;
            })
            b.same;
    }

backed_page-frames :
    (n page_no va : ℕ) (k : KHeap)
    → (backed_page n page_no va k).heap.free_frames ≡ k.heap.free_frames - 1
unfolding backed_page with_heap
backed_page-frames n page_no va k = ap (λ (h : Heap). h.free_frames) (mark_if _ (page_of va) _).heap

nothing-Backed : (n page_no va : ℕ) (k : KHeap) → Backed n 0 page_no va k k
nothing-Backed n page_no va k = record {
  frames = omega arith;
  mapped = λ q. ground arith;
  marked = λ q. refl;
  free_pages_list = refl;
  same = record {
    mem = refl;
    free_blocks = refl;
    brk = refl;
    hard_limit = refl;
    start = refl;
    strategy = refl;
    page_allocator_flag = refl;
  };
}

pub back_pages-Backed :
    (n left page_no va : ℕ) (k : KHeap)
    → 0 < page_no
    → page_no + left ≡ n + 1
    → va % 4096 ≡ 0
    → va + left * 4096 < word_mod
    → left ≤ k.heap.free_frames
    → Returns (Backed n left page_no va k) (back_pages n left page_no va k)
unfolding back_pages
back_pages-Backed n zero page_no va k pos count aligned room enough =
    returns (nothing-Backed n page_no va k)
back_pages-Backed n (suc left) page_no va k pos count aligned room enough =
    let next : add32 va page_size ≡ va + page_size = add32_small va page_size (omega arith) in
    let k1 = backed_page n page_no va k in
    rw (back_page-eq n left page_no va k (omega arith), next)
      (Returns-mono
        (back_pages-Backed n left (page_no + 1) (va + page_size) k1 (omega arith) (omega arith)
          (omega arith) (omega arith) (omega (arith, enough, backed_page-frames n page_no va k)))
        λ k' b. backed_page-Backed n left page_no va k k' pos count aligned enough b)
