-- ===== src/DynAlloc/Heaps.antt =====
-- Well-formed heaps of the block allocator, and the heap around a block that is being freed.
use fos_fcis_operating_syste.Prelude.{
  ℕ, ◌+◌, ◌-◌, ◌%◌, ◌≤◌, ◌<◌, ◌≡◌, Bool, true, false, List, [], ◌∷◌, ◌++◌, arith, word_mod,
}
use fos_fcis_operating_syste.Memory.{Mem, load, store, load-store, load-store_apart}
use fos_fcis_operating_syste.Queue.Chain.{IsQueue}
use fos_fcis_operating_syste.DynAlloc.Defs.{Heap}
use fos_fcis_operating_syste.DynAlloc.Tiling.{
  Block, used, free, size_of, word_of, total, free_vas, Tiled, nil, cons, Tiled-store, Tiled-append,
  Tiled-split, Tiled-total,
}

-- The first block is free.
abbrev pub starts_free : List Block → Bool
starts_free [] = false
starts_free (used s ∷ bs) = false
starts_free (free s ∷ bs) = true

-- No two free blocks are neighbours.
abbrev pub Coalesced : List Block → Type 0
Coalesced [] = Unit
Coalesced (used s ∷ bs) = Coalesced bs
Coalesced (free s ∷ bs) = (starts_free bs ≡ false) × Coalesced bs

-- Between the begin block, which ends at `a`, and the end block at `e`, the blocks are `bs`, and
-- the free list holds the free ones in address order.
pub record Holds (h : Heap) (a : ℕ) (bs : List Block) (e : ℕ) : Type 0 where
  pub tiled : Tiled h.mem a bs e
  pub begin : load h.mem (a - 4) ≡ 1
  pub stop : load h.mem e ≡ 1
  pub listed : IsQueue h.free_blocks (free_vas a bs)
  pub low : 4 < a
  pub high : e + 4 < word_mod

-- All but the memory and the free list.
pub record SameLimits (h h' : Heap) : Type 0 where
  pub brk : h'.brk ≡ h.brk
  pub hard_limit : h'.hard_limit ≡ h.hard_limit
  pub free_frames : h'.free_frames ≡ h.free_frames
  pub mapped : h'.mapped ≡ h.mapped
  pub is_initialized : h'.is_initialized ≡ h.is_initialized

-- The memory around a block of `s` bytes at `b` with `word` in its header and `foot` in its footer.
pub record Around (m : Mem) (a : ℕ) (pre : List Block) (b s : ℕ) (post : List Block) (e : ℕ)
    (word foot : ℕ) : Type 0 where
  pub front : Tiled m a pre b
  pub back : Tiled m (b + s) post e
  pub even : s % 2 ≡ 0
  pub large : 16 ≤ s
  pub header : load m b ≡ word
  pub footer : load m (b + s - 4) ≡ foot
  pub begin : load m (a - 4) ≡ 1
  pub stop : load m e ≡ 1
  pub low : 4 < a
  pub high : e + 4 < word_mod

-- Writing both tags of the block leaves what is around it.
module _ {m : Mem} {a b s e word foot : ℕ} {pre post : List Block}
    (r : Around m a pre b s post e word foot) where
  pub order : (a ≤ b) × (b + s ≤ e)
  order = omega (arith, Tiled-total r.front, Tiled-total r.back)

  pub Around-store_header : (v : ℕ) → v < word_mod → Around (store m b v) a pre b s post e v foot
  Around-store_header v small = record {
    front = Tiled-store b v (omega arith) r.front;
    back = Tiled-store b v (omega (arith, r.large)) r.back;
    even = r.even;
    large = r.large;
    header = load-store m b v small;
    footer = ground (arith, load-store_apart m b v (b + s - 4), r.large, r.footer);
    begin = ground (arith, load-store_apart m b v (a - 4), r.large, r.begin, r.low, order);
    stop = ground (arith, load-store_apart m b v e, r.large, r.stop, order);
    low = r.low;
    high = r.high;
  }

  pub Around-store_footer :
      (v : ℕ) → v < word_mod → Around (store m (b + s - 4) v) a pre b s post e word v
  Around-store_footer v small = record {
    front = Tiled-store (b + s - 4) v (omega (arith, r.large)) r.front;
    back = Tiled-store (b + s - 4) v (omega (arith, r.large)) r.back;
    even = r.even;
    large = r.large;
    header = ground (arith, load-store_apart m (b + s - 4) v b, r.large, r.header);
    footer = load-store m (b + s - 4) v small;
    begin =
        ground (arith, load-store_apart m (b + s - 4) v (a - 4), r.large, r.begin, r.low, order);
    stop = ground (arith, load-store_apart m (b + s - 4) v e, r.large, r.stop, order);
    low = r.low;
    high = r.high;
  }

-- With equal tags the block is one of the blocks.
pub Around-Tiled :
    {m : Mem} {a b e : ℕ} {pre post : List Block} (x : Block)
    → Around m a pre b (size_of x) post e (word_of x) (word_of x)
    → Tiled m a (pre ++ (x ∷ post)) e
Around-Tiled {post} x r =
    Tiled-append (x ∷ post) r.front (
      cons (record { even = r.even; large = r.large; header = r.header; footer = r.footer }) r.back)

-- A free block before or behind, taken together with the block.
pub widen_prev :
    {m : Mem} {a b s e word foot : ℕ} {post : List Block} (pre : List Block) (t : ℕ)
    → Around m a (pre ++ (free t ∷ [])) b s post e word foot
    → record {
      tag : load m (b - 4) ≡ t;
      room : a + total pre + t ≡ b;
      wide : Around m a pre (a + total pre) (t + s) post e t foot;
    }
widen_prev {m} {a} {b} {s} {e} {word} {foot} {post} pre t r =
    go (Tiled-split pre (free t ∷ []) r.front)
  where
    go : Tiled m a pre (a + total pre) × Tiled m (a + total pre) (free t ∷ []) b → record {
      tag : load m (b - 4) ≡ t;
      room : a + total pre + t ≡ b;
      wide : Around m a pre (a + total pre) (t + s) post e t foot;
    }
    go (f, cons g (nil z)) =
        let y : a + total pre + (t + s) ≡ b + s = omega arith in
        record {
          tag = rw (← z) g.footer;
          room = z;
          wide = record {
            front = f;
            back = rw y r.back;
            even = omega (arith, g.even, r.even);
            large = omega (arith, r.large);
            header = g.header;
            footer = rw y r.footer;
            begin = r.begin;
            stop = r.stop;
            low = r.low;
            high = r.high;
          };
        }

pub widen_next :
    {m : Mem} {a b s e word foot : ℕ} {pre : List Block} (post : List Block) (t : ℕ)
    → Around m a pre b s (free t ∷ post) e word foot
    → (load m (b + s) ≡ t) × Around m a pre b (s + t) post e word t
widen_next {m} {a} {b} {s} {e} {word} {foot} {pre} post t r = go r.back
  where
    go :
        Tiled m (b + s) (free t ∷ post) e
        → (load m (b + s) ≡ t) × Around m a pre b (s + t) post e word t
    go (cons g k) =
        let y : b + (s + t) ≡ b + s + t = omega arith in
        (
          g.header,
          record {
            front = r.front;
            back = rw y k;
            even = omega (arith, g.even, r.even);
            large = omega (arith, r.large);
            header = r.header;
            footer = rw y g.footer;
            begin = r.begin;
            stop = r.stop;
            low = r.low;
            high = r.high;
          },
        )

-- Both tags of the taken-together block are written.
pub Around-retag :
    {m : Mem} {a b s e word foot : ℕ} {pre post : List Block}
    → Around m a pre b s post e word foot
    → Around (store (store m b s) (b + s - 4) s) a pre b s post e s s
Around-retag {b} {s} {e} r =
    let small : s < word_mod = omega (arith, order r, r.high) in
    Around-store_footer (Around-store_header r s small) s small
