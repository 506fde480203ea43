-- ===== src/DynAlloc/Free.antt =====
-- `free_block` of lib/dynamic_allocator.c, branch by branch.
use fos_fcis_operating_syste.Prelude.{
  ℕ, ◌+◌, ◌-◌, ◌%◌, ◌<◌, ◌≡◌, refl, ◌∙◌, inl, inr, List, [], ◌∷◌, ◌++◌, arith, word_mod, ◌==◌,
  ==→eq, Bool-cases, add32, sub32, add32_small, sub32_small, sub32-lt, length-append, Returns,
  returns, Returns-bind, length, All, append-nil,
}
use fos_fcis_operating_syste.Memory.{Mem, load}
use fos_fcis_operating_syste.Queue.{Queue}
use fos_fcis_operating_syste.Queue.Chain.{IsQueue, Absent, Absent-append}
use fos_fcis_operating_syste.Queue.Insert.{insert_head-IsQueue, insert_tail-IsQueue}
use fos_fcis_operating_syste.DynAlloc.Defs.{Heap}
use fos_fcis_operating_syste.DynAlloc.Ops.{clear_tags, enlist, free_alone}
use fos_fcis_operating_syste.DynAlloc.Tiling.{
  Block, free_vas, Tiled-total, free_vas_above, free_vas_below, Tiled-Roomy, Absent-above,
  Absent-below, length-free_vas,
}
use fos_fcis_operating_syste.DynAlloc.Heaps.{
  SameLimits, Around, order, Around-store_header, Around-store_footer,
}
use fos_fcis_operating_syste.DynAlloc.Sorted.{insert_sorted-IsQueue}

pub clear_tags-Around :
    {m : Mem} {a b s e foot : ℕ} {pre post : List Block}
    → Around m a pre b s post e (s + 1) foot
    → Around (clear_tags m b (b + s - 4)) a pre b s post e s (sub32 foot 1)
unfolding clear_tags
clear_tags-Around {m} {b} {s} {e} {foot} r =
    let less : sub32 (load m b) 1 ≡ s =
      rw r.header
        (sub32_small (s + 1) 1 (omega arith) (omega (arith, order r, r.high)) ∙ omega arith) in
    let small : s < word_mod = omega (arith, order r, r.high) in
    let r1 = Around-store_header r s small in
    rw (less, r1.footer) (Around-store_footer r1 (sub32 foot 1) (sub32-lt foot 1))

-- Where the allocator's pointers point for a block at `b`.
module _ {m : Mem} {a b s e word foot : ℕ} {pre post : List Block}
    (r : Around m a pre b s post e word foot) where
  pub header_at : sub32 (b + 4) 4 ≡ b
  header_at =
      sub32_small (b + 4) 4 (omega arith) (omega (arith, order r, r.high, r.large)) ∙ omega arith

  pub footer_at : sub32 (add32 (b + 4) s) 8 ≡ b + s - 4
  footer_at = rw (add32_small (b + 4) s (omega (arith, order r, r.high))) (
      sub32_small (b + 4 + s) 8 (omega (arith, r.large)) (omega (arith, order r, r.high))
      ∙ omega arith)

  pub footer_prev_at : sub32 (b + 4) 8 ≡ b - 4
  footer_prev_at =
      sub32_small (b + 4) 8 (omega (arith, order r, r.low))
        (omega (arith, order r, r.high, r.large))
      ∙ omega arith

  pub header_next_at : sub32 (add32 (b + 4) s) 4 ≡ b + s
  header_next_at =
      rw (add32_small (b + 4) s (omega (arith, order r, r.high)))
        (sub32_small (b + 4 + s) 4 (omega arith) (omega (arith, order r, r.high)) ∙ omega arith)

  -- Room for one more address in the free list.
  pub list_room : length (free_vas a pre ++ free_vas (b + s) post) + 1 < word_mod
  list_room = omega (
    arith,
    length-append (free_vas a pre) (free_vas (b + s) post),
    length-free_vas a pre (Tiled-Roomy r.front),
    length-free_vas (b + s) post (Tiled-Roomy r.back),
    Tiled-total r.front,
    Tiled-total r.back,
    r.high,
    r.large,
    r.low,
  )

  -- The free addresses before the block lie below it, those behind it above.
  pub below : All (λ x. x < b + 4) (free_vas a pre)
  below = free_vas_below a (b + 4) pre (Tiled-Roomy r.front) (omega (arith, Tiled-total r.front))

  pub above : All (λ x. b + 4 < x) (free_vas (b + s) post)
  above = free_vas_above (b + 4) (b + s) post (omega (arith, r.large))

  pub not_listed : Absent (b + 4) (free_vas a pre ++ free_vas (b + s) post)
  not_listed =
      Absent-append (b + 4) (free_vas a pre) (free_vas (b + s) post)
        (Absent-below (b + 4) (free_vas a pre) below)
        (Absent-above (b + 4) (free_vas (b + s) post) above)

-- A neighbouring tag says "in use"; it is 1 only at the end of the heap, where `xs` is empty.
pub record Closed (tag : ℕ) (xs : List ℕ) : Type 0 where
  pub odd : tag % 2 ≡ 1
  pub border : tag ≡ 1 → xs ≡ []

-- Between used neighbours the block enters the free list at its place.
enlist-IsQueue :
    {q : Queue} {m : Mem} {a b s e word foot : ℕ} {pre post : List Block}
    → Around m a pre b s post e word foot
    → IsQueue q (free_vas a pre ++ free_vas (b + s) post)
    → Closed (load m (b - 4)) (free_vas a pre)
    → Closed (load m (b + s)) (free_vas (b + s) post)
    → Returns
        (λ q'. IsQueue q' (free_vas a pre ++ ((b + 4) ∷ free_vas (b + s) post)))
        (enlist (b + 4) (b - 4) (b + s) m q)
unfolding enlist
enlist-IsQueue {q} {m} {a} {b} {s} {pre} {post} r v cb ca =
    elim (Bool-cases (load m (b - 4) == 1)) [
      | inl e1 ↦
          rw (e1, ca.odd)
            (let none_before : free_vas a pre ≡ [] = cb.border (==→eq _ _ e1) in
              let whole : free_vas a pre ++ free_vas (b + s) post ≡ free_vas (b + s) post =
                rw none_before in
              rw none_before (
                insert_head-IsQueue (b + 4) (rw whole at v) (omega arith)
                  (rw whole at (not_listed r)) (rw whole at (list_room r))))
      | inr e1 ↦ elim (Bool-cases (load m (b + s) == 1)) [
        | inl e2 ↦
            rw (e1, e2, cb.odd)
              (let none_behind : free_vas (b + s) post ≡ [] = ca.border (==→eq _ _ e2) in
                let whole : free_vas a pre ++ free_vas (b + s) post ≡ free_vas a pre =
                  rw (none_behind, append-nil) in
                rw none_behind (
                  insert_tail-IsQueue (b + 4) (rw whole at v) (omega arith)
                    (rw whole at (not_listed r)) (rw whole at (list_room r))))
        | inr e2 ↦
            rw (e1, e2, cb.odd)
              (insert_sorted-IsQueue (b + 4) (free_vas a pre) (free_vas (b + s) post) v (below r)
                (above r) (omega arith) (list_room r))
      ]
    ]

pub same_limits :
    {h : Heap} {m : Mem} {q : Queue} → SameLimits h (record h { mem = m; free_blocks = q })
same_limits = record {
  brk = refl;
  hard_limit = refl;
  free_frames = refl;
  mapped = refl;
  is_initialized = refl;
}

pub free_alone_lem :
    {m : Mem} {a b s e word foot : ℕ} {pre post : List Block} (h : Heap)
    → Around m a pre b s post e word foot
    → IsQueue h.free_blocks (free_vas a pre ++ free_vas (b + s) post)
    → Closed (load m (b - 4)) (free_vas a pre)
    → Closed (load m (b + s)) (free_vas (b + s) post)
    → Returns
        (λ h'.
          (h'.mem ≡ m)
          × IsQueue h'.free_blocks (free_vas a pre ++ ((b + 4) ∷ free_vas (b + s) post))
          × SameLimits h h')
        (free_alone (b + 4) (b - 4) (b + s) m h)
unfolding free_alone
free_alone_lem h r v cb ca =
    Returns-bind (enlist-IsQueue r v cb ca) (λ q' is. returns (refl, is, same_limits))
