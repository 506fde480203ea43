-- ===== src/KHeap/Tests.antt =====
-- A kernel heap with a range of ten free pages, and the theorems at it.
use fos_fcis_operating_syste.Prelude.{
  ◌+◌, ◌≡◌, ◌==◌, ◌||◌, refl, true, false, [], ◌∷◌, arith, ok, ◌>>=◌, page_size, Returns,
}
use fos_fcis_operating_syste.DynAlloc.{round_up}
use fos_fcis_operating_syste.KHeap.Defs.{FreePagesInfo, KHeap, kmalloc}
use fos_fcis_operating_syste.KHeap.Ops.{kfree, is_mapped}
use fos_fcis_operating_syste.KHeap.Resize.{old_pages, krealloc}
use fos_fcis_operating_syste.KHeap.Releasing.{Restored}
use fos_fcis_operating_syste.KHeap.RoundTrip.{CanCut, pages_for, kfree-kmalloc}
use fos_fcis_operating_syste.KHeap.Grown.{old_pages-one, krealloc-added}

abbrev ten_pages : FreePagesInfo
ten_pages = record { node = 0xF6000010; va = 0xF7001000; no_consecutive_pages = 10 }

abbrev small_kheap : KHeap
small_kheap = record {
  heap = record {
    mem = λ a. 0;
    free_blocks = record { first = 0; last = 0; size = 0; next = λ x. 0; prev = λ x. 0 };
    is_initialized = true;
    brk = 0xF6001000;
    hard_limit = 0xF7000000;
    free_frames = 5;
    mapped = [];
  };
  start = 0xF6000000;
  strategy = 1;
  page_allocator_flag = true;
  free_pages_list = ten_pages ∷ [];
  marked = λ p. false;
}

small_kheap-CanCut : CanCut (pages_for 5000) small_kheap [] ten_pages []
unfolding round_up is_mapped
small_kheap-CanCut = record {
  started = refl;
  listed = refl;
  ranges = (omega arith, refl, omega arith, omega arith, tt);
  small = tt;
  larger = omega arith;
  frames = omega arith;
  vacant = record { unmapped = λ q h. refl; unmarked = λ q h. refl };
  above = omega arith;
  below_limit = omega arith;
}

kfree-kmalloc_example :
    Returns
      (λ (va, k2). (va ≡ 0xF7001000) × Restored small_kheap k2)
      (kmalloc 5000 small_kheap >>= λ (va, k1). kfree va k1 >>= λ k2. ok (va, k2))
kfree-kmalloc_example =
    kfree-kmalloc 5000 small_kheap [] ten_pages [] (omega arith) (omega arith) small_kheap-CanCut

-- Three free pages, and the two in front of them, which become those of an allocation.
abbrev three_free : KHeap
three_free = record small_kheap {
  free_pages_list = record { node = 0xF6000010; va = 0xF7003000; no_consecutive_pages = 3 } ∷ [];
}

abbrev two_used : KHeap
two_used = record three_free {
  heap = record small_kheap.heap { free_frames = 3; mapped = 0xF7001000 ∷ 0xF7002000 ∷ [] };
  marked = λ p. (p == 0xF7001000) || (p == 0xF7002000);
}

old_pages-one_example : old_pages 0xF7001000 small_kheap ≡ ok 1
old_pages-one_example = old_pages-one 0xF7001000 small_kheap

krealloc-added_example :
    Returns
      (λ (a, k'). a ≡ 0xF7000000 + page_size)
      (krealloc 0xF7000000 8192
        (record small_kheap { heap = record small_kheap.heap { hard_limit = 0xF6FF0000 } }))
krealloc-added_example =
    krealloc-added 0xF7000000 8192
      (record small_kheap { heap = record small_kheap.heap { hard_limit = 0xF6FF0000 } }) ten_pages
      [] refl refl (omega arith) (omega arith) (omega arith) (omega arith) (omega arith)
      (omega arith) (omega arith) (omega arith)
