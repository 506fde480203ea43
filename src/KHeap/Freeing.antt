-- ===== src/KHeap/Freeing.antt =====
-- `kfree` of kern/mem/kheap.c for pages, from the call to the list of the free page ranges.
use fos_fcis_operating_syste.Prelude.{
  ℕ, ◌+◌, ◌-◌, ◌*◌, ◌≡◌, some, List, ◌==◌, if◌then◌else◌, page_size, Run, ok, panic, ◌>>=◌, Returns,
}
use fos_fcis_operating_syste.DynAlloc.{Heap}
use fos_fcis_operating_syste.KHeap.Defs.{
  FreePagesInfo, KHeap, kernel_heap_max, with_heap, new_info, drop_node,
}
use fos_fcis_operating_syste.KHeap.Ops.{Insertion, grown, joined, fresh, insert_pages}
use fos_fcis_operating_syste.KHeap.Ranges.{Ranges, Entered}
use fos_fcis_operating_syste.KHeap.Pages.{Backed}
use fos_fcis_operating_syste.KHeap.Unpages.{Released}
use fos_fcis_operating_syste.KHeap.Releasing.{Vacant}

abbrev Any : {X : Type 0} → X → Type 0
Any x = Unit {0}

-- The block allocator takes back the node of a range that is not needed any more, or hands out the
-- node of a new one.
abbrev pub Supplied : KHeap → Insertion → Type 0
Supplied k (grown es) = Unit {0}
Supplied k (joined a es) = Returns Any (drop_node (some a) k)
Supplied k (fresh before after) = Returns Any (new_info k)

-- `n` pages at `begin` as kmalloc hands them out: `before` is the state in which they had no frames
-- and no marks.
pub record InUse (begin n : ℕ) (before k : KHeap) : Type 0 where
  pub vacant : Vacant begin n before
  pub backed : Backed n n 1 begin before k

-- The pages lose their frames and marks, and then are in the list of the free ranges.
pub record Freed (begin n : ℕ) (k k' : KHeap) : Type 0 where
  pub middle : KHeap
  pub released : Released n begin k middle
  pub marked : k'.marked ≡ middle.marked
  pub entered :
      Entered kernel_heap_max begin n
        (k.heap.hard_limit + page_size)
        k.free_pages_list
        k'.free_pages_list

abbrev SameMarks : KHeap → ℕ × KHeap → Type 0
SameMarks k (a, k') = k'.marked ≡ k.marked

abbrev handed : KHeap → Run (ℕ × Heap) → Run (ℕ × KHeap)
handed k run = run >>= λ (a, h). ok (a, with_heap k h)

abbrev not_null : ℕ × KHeap → Run (ℕ × KHeap)
not_null (a, k) = if a == 0 then panic else ok (a, k)

-- The insertion of `n` pages at `begin` into the list of free ranges.
abbrev pub insertion : (begin n : ℕ) → List FreePagesInfo → Insertion
insertion begin n es = insert_pages (begin + n * 4096 - 4096) begin (begin + n * 4096 - 4096) n es
