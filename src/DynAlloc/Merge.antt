-- ===== src/DynAlloc/Merge.antt =====
-- The branches of `free_block` that join the block with its free neighbours.
use fos_fcis_operating_syste.Prelude.{
  ℕ, ◌+◌, ◌-◌, ◌<◌, ◌≡◌, ◌∙◌, inr, List, [], ◌∷◌, ◌++◌, arith, word_mod, add32, sub32, add32_small,
  sub32_small, Returns, returns, Returns-bind,
}
use fos_fcis_operating_syste.Memory.{Mem, load, store, load-store, load-store_apart}
use fos_fcis_operating_syste.Queue.Chain.{IsQueue}
use fos_fcis_operating_syste.Queue.Insert.{insert_before-IsQueue}
use fos_fcis_operating_syste.Queue.Remove.{remove-IsQueue, remove_second}
use fos_fcis_operating_syste.DynAlloc.Defs.{Heap}
use fos_fcis_operating_syste.DynAlloc.Ops.{merge_prev, merge_next, merge_both}
use fos_fcis_operating_syste.DynAlloc.Tiling.{Block, free, total, free_vas}
use fos_fcis_operating_syste.DynAlloc.Heaps.{
  SameLimits, Around, order, widen_prev, widen_next, Around-retag,
}
use fos_fcis_operating_syste.DynAlloc.Free.{header_at, same_limits, not_listed, list_room}

module _ {m : Mem} {a b s e foot : ℕ} {post : List Block} (h : Heap) (pre : List Block) (t : ℕ)
    (r : Around m a (pre ++ (free t ∷ [])) b s post e s foot) where
  -- The tags of the joined block are written where its two ends are.
  pub merge_prev-Around :
      Around
        (merge_prev (b + 4) b (b + s - 4) (b - 4) m h).mem
        a
        pre
        (a + total pre)
        (t + s)
        post
        e
        (t + s)
        (t + s)
  unfolding merge_prev
  merge_prev-Around =
      let w = widen_prev pre t r in
      let bounds = order w.wide in
      let at_prev : sub32 b t ≡ a + total pre =
        sub32_small b t (omega (arith, w.room)) (omega (arith, order r, r.high))
        ∙ omega (arith, w.room) in
      let sum : add32 s t ≡ t + s = add32_small s t (omega (arith, bounds, r.high)) ∙ omega arith in
      let at_foot : b + s - 4 ≡ a + total pre + (t + s) - 4 = omega (arith, w.room) in
      let small : t + s < word_mod = omega (arith, bounds, r.high) in
      rw
        (
          header_at r,
          w.tag,
          r.header,
          at_prev,
          sum,
          load-store m (a + total pre) (t + s) small,
          at_foot,
        )
        (Around-retag w.wide)

module _ {m : Mem} {a b s e foot : ℕ} {pre : List Block} (h : Heap) (post : List Block) (t : ℕ)
    (r : Around m a pre b s (free t ∷ post) e s foot)
    (v : IsQueue h.free_blocks (free_vas a pre ++ free_vas (b + s) (free t ∷ post))) where
  pub merge_next_lem :
      Returns
        (λ h'.
          Around h'.mem a pre b (s + t) post e (s + t) (s + t)
          × IsQueue h'.free_blocks (free_vas a pre ++ ((b + 4) ∷ free_vas (b + (s + t)) post))
          × SameLimits h h')
        (merge_next b (b + s) m h)
  unfolding merge_next
  merge_next_lem =
      let w = widen_next post t r in
      let bounds = order w.1 in
      let small : s + t < word_mod = omega (arith, bounds, r.high) in
      let sum : add32 s t ≡ s + t = add32_small s t small in
      let kept : load (store m b (s + t)) (b + s) ≡ t =
        load-store_apart m b (s + t) (b + s) (inr (omega (arith, r.large))) ∙ w.0 in
      let at_foot : sub32 (add32 (b + s) t) 4 ≡ b + (s + t) - 4 =
        rw (add32_small (b + s) t (omega (arith, bounds, r.high))) (
          sub32_small (b + s + t) 4 (omega (arith, r.large)) (omega (arith, bounds, r.high))
          ∙ omega arith) in
      let tail_at : b + (s + t) ≡ b + s + t = omega arith in
      let va_next : add32 (b + s) 4 ≡ b + s + 4 =
        add32_small (b + s) 4 (omega (arith, order r, r.high)) in
      let va_here : add32 b 4 ≡ b + 4 = add32_small b 4 (omega (arith, order r, r.high)) in
      rw (r.header, w.0, sum, kept, at_foot, load-store m b (s + t) small, va_next, va_here)
        (Returns-bind
          (insert_before-IsQueue (b + 4) (free_vas a pre) (b + s + 4) (free_vas (b + s + t) post) v
            (omega arith) (not_listed r) (list_room r))
          λ q1 v1.
            Returns-bind
              (remove_second (free_vas a pre) (b + 4) (b + s + 4) (free_vas (b + s + t) post) v1)
              λ q2 v2. returns (Around-retag w.1, rw tail_at v2, same_limits))

module _ {m : Mem} {a b s e foot : ℕ} (h : Heap) (pre : List Block) (t : ℕ) (post : List Block)
    (u : ℕ) (r : Around m a (pre ++ (free t ∷ [])) b s (free u ∷ post) e s foot)
    (v : IsQueue h.free_blocks
      (free_vas a (pre ++ (free t ∷ [])) ++ free_vas (b + s) (free u ∷ post))) where
  pub merge_both_lem :
      Returns
        (λ h'.
          Around h'.mem a pre (a + total pre) (t + s + u) post e (t + s + u) (t + s + u)
          × IsQueue h'.free_blocks (free_vas a (pre ++ (free t ∷ [])) ++ free_vas (b + s + u) post)
          × SameLimits h h')
        (merge_both (b + 4) b (b - 4) (b + s) m h)
  unfolding merge_both
  merge_both_lem =
      let w = widen_prev pre t r in
      let x = widen_next post u w.wide in
      let bounds = order x.1 in
      let at_prev : sub32 b t ≡ a + total pre =
        sub32_small b t (omega (arith, w.room)) (omega (arith, order r, r.high))
        ∙ omega (arith, w.room) in
      let next_tag : load m (b + s) ≡ u =
        let y : b + s ≡ a + total pre + (t + s) = omega (arith, w.room) in rw y x.0 in
      let small : t + s + u < word_mod = omega (arith, bounds, r.high) in
      let sum1 : add32 t s ≡ t + s = add32_small t s (omega arith) in
      let sum2 : add32 (t + s) u ≡ t + s + u = add32_small (t + s) u small in
      let kept : load (store m (a + total pre) (t + s + u)) (b + s) ≡ u =
        load-store_apart m (a + total pre) (t + s + u) (b + s)
          (inr (omega (arith, r.large, w.room)))
        ∙ next_tag in
      let at_foot : sub32 (add32 (b + s) u) 4 ≡ a + total pre + (t + s + u) - 4 =
        rw (add32_small (b + s) u (omega (arith, bounds, r.high, w.room))) (
          sub32_small (b + s + u) 4 (omega (arith, r.large)) (omega (arith, bounds, r.high, w.room))
          ∙ omega (arith, w.room)) in
      let va_next : add32 (b + s) 4 ≡ b + s + 4 =
        add32_small (b + s) 4 (omega (arith, order r, r.high)) in
      rw
        (
          header_at r,
          w.tag,
          at_prev,
          w.wide.header,
          r.header,
          next_tag,
          sum1,
          sum2,
          kept,
          at_foot,
          load-store m (a + total pre) (t + s + u) small,
          va_next,
        )
        (Returns-bind
          (remove-IsQueue (free_vas a (pre ++ (free t ∷ []))) (b + s + 4)
            (free_vas (b + s + u) post) v)
          λ q w'. returns (Around-retag x.1, w', same_limits))
