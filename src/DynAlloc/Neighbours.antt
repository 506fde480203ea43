-- ===== src/DynAlloc/Neighbours.antt =====
-- The neighbours of a block that `free_block` is given, and the branch that it takes.
use fos_fcis_operating_syste.Prelude.{
  ℕ, ◌+◌, ◌-◌, ◌%◌, ◌≡◌, refl, ◌∙◌, false, not, List, [], ◌∷◌, ◌++◌, arith, ◌==◌, ne→==, sub32,
  sub32_small, append_assoc,
}
use fos_fcis_operating_syste.Memory.{Mem, load}
use fos_fcis_operating_syste.Queue.Chain.{IsQueue}
use fos_fcis_operating_syste.DynAlloc.Defs.{Heap}
use fos_fcis_operating_syste.DynAlloc.Ops.{clear_tags, coalesce, free_block}
use fos_fcis_operating_syste.DynAlloc.Tiling.{
  Block, used, free, total, free_vas, Tiled, nil, cons, Tiled-split, Tiled-total, free_vas-append,
}
use fos_fcis_operating_syste.DynAlloc.Heaps.{Holds, Around, order, Around-Tiled}
use fos_fcis_operating_syste.DynAlloc.Free.{
  header_at, footer_at, footer_prev_at, header_next_at, Closed,
}

module _ {m : Mem} {a b s e word foot : ℕ} where
  pub Closed-first :
      {post : List Block}
      → Around m a [] b s post e word foot
      → Closed (load m (b - 4)) (free_vas a [])
  Closed-first {post} r = go r.front
    where
      go : Tiled m a [] b → Closed (load m (b - 4)) (free_vas a [])
      go (nil z) = record { odd = rw (← z, r.begin); border = λ e. refl }

  pub Closed-last_used :
      {post : List Block} (pre : List Block) (t : ℕ)
      → Around m a (pre ++ (used t ∷ [])) b s post e word foot
      → Closed (load m (b - 4)) (free_vas a (pre ++ (used t ∷ [])))
  Closed-last_used pre t r = go (Tiled-split pre (used t ∷ []) r.front)
    where
      go :
          Tiled m a pre (a + total pre) × Tiled m (a + total pre) (used t ∷ []) b
          → Closed (load m (b - 4)) (free_vas a (pre ++ (used t ∷ [])))
      go (f, cons g (nil z)) =
          let tag : load m (b - 4) ≡ t + 1 = rw (← z) g.footer in
          record {
            odd = omega (arith, tag, g.even);
            border = λ one. absurd (omega (arith, tag, g.large, one));
          }

  pub Closed-end :
      {pre : List Block}
      → Around m a pre b s [] e word foot
      → Closed (load m (b + s)) (free_vas (b + s) [])
  Closed-end r = go r.back
    where
      go : Tiled m (b + s) [] e → Closed (load m (b + s)) (free_vas (b + s) [])
      go (nil z) = record { odd = rw (z, r.stop); border = λ e. refl }

  pub Closed-next_used :
      {pre : List Block} (t : ℕ) (post : List Block)
      → Around m a pre b s (used t ∷ post) e word foot
      → Closed (load m (b + s)) (free_vas (b + s) (used t ∷ post))
  Closed-next_used t post r = go r.back
    where
      go :
          Tiled m (b + s) (used t ∷ post) e
          → Closed (load m (b + s)) (free_vas (b + s) (used t ∷ post))
      go (cons g k) = record {
        odd = omega (arith, g.header, g.even);
        border = λ one. absurd (omega (arith, g.header, g.large, one));
      }

-- The branch that `free_block` takes, with its pointers worked out.
pub free_block-eq :
    (h : Heap) {a b s e foot : ℕ} {pre post : List Block}
    → Around h.mem a pre b s post e (s + 1) foot
    → free_block (b + 4) h
      ≡ coalesce
          (not (load h.mem (b - 4) % 2 == 0))
          (not (load h.mem (b + s) % 2 == 0))
          (b + 4)
          b
          (b + s - 4)
          (b - 4)
          (b + s)
          (clear_tags h.mem b (b + s - 4))
          h
unfolding free_block
free_block-eq h {b} {s} r =
    let nonzero : (b + 4 == 0) ≡ false = ne→== (b + 4) 0 (omega arith) in
    let in_use : ((s + 1) % 2 == 0) ≡ false = ne→== ((s + 1) % 2) 0 (omega (arith, r.even)) in
    let actual : sub32 (s + 1) 1 ≡ s =
      sub32_small (s + 1) 1 (omega arith) (omega (arith, order r, r.high)) ∙ omega arith in
    rw (
      nonzero,
      header_at r,
      r.header,
      in_use,
      actual,
      footer_at r,
      footer_prev_at r,
      header_next_at r,
    )

pub free_vas-free :
    (a b n : ℕ) (pre post : List Block)
    → b ≡ a + total pre
    → free_vas a (pre ++ (free n ∷ post)) ≡ free_vas a pre ++ ((b + 4) ∷ free_vas (b + n) post)
free_vas-free a b n pre post e = rw e (free_vas-append a pre (free n ∷ post))

pub free_vas-used :
    (a b n : ℕ) (pre post : List Block)
    → b ≡ a + total pre
    → free_vas a (pre ++ (used n ∷ post)) ≡ free_vas a pre ++ free_vas (b + n) post
free_vas-used a b n pre post e = rw e (free_vas-append a pre (used n ∷ post))

-- The joined block is on the free list where the one before it was.
pub list-prev :
    (a b s t : ℕ) (pre post : List Block)
    → a + total pre + t ≡ b
    → free_vas a (pre ++ (free t ∷ [])) ++ free_vas (b + s) post
      ≡ free_vas a (pre ++ (free (t + s) ∷ post))
list-prev a b s t pre post e =
    let y : a + total pre + (t + s) ≡ b + s = omega arith in
    rw (
      free_vas-append a pre (free t ∷ []),
      free_vas-append a pre (free (t + s) ∷ post),
      y,
      append_assoc,
    )

pub Holds-free :
    {h' : Heap} {a b n e : ℕ} {pre post : List Block}
    → Around h'.mem a pre b n post e n n
    → IsQueue h'.free_blocks (free_vas a pre ++ ((b + 4) ∷ free_vas (b + n) post))
    → Holds h' a (pre ++ (free n ∷ post)) e
Holds-free {h'} {a} {b} {n} {pre} {post} r v = record {
  tiled = Around-Tiled (free n) r;
  begin = r.begin;
  stop = r.stop;
  listed = rw (free_vas-free a b n pre post (Tiled-total r.front)) v;
  low = r.low;
  high = r.high;
}
