-- ===== src/DynAlloc/Take.antt =====
-- What `alloc_block_FF` and `alloc_block_BF` do to the free block that they chose.
use fos_fcis_operating_syste.Prelude.{
  ℕ, ◌+◌, ◌-◌, ◌<◌, ◌≡◌, List, ◌∷◌, ◌++◌, arith, if◌then◌else◌, ltb, lt→ltb, word_mod, add32, sub32,
  or_one, or_one_even, Returns, returns, Returns-bind,
}
use fos_fcis_operating_syste.Memory.{Mem, load}
use fos_fcis_operating_syste.Queue.Chain.{IsQueue}
use fos_fcis_operating_syste.Queue.Remove.{remove-IsQueue}
use fos_fcis_operating_syste.DynAlloc.Defs.{Heap, take_block}
use fos_fcis_operating_syste.DynAlloc.Tiling.{Block, used, free, free_vas}
use fos_fcis_operating_syste.DynAlloc.Heaps.{
  SameLimits, Around, order, Around-store_header, Around-store_footer,
}
use fos_fcis_operating_syste.DynAlloc.Free.{header_at, footer_at, same_limits}

-- The chosen block of `s` bytes gives `n` bytes: the rest stays free if it is worth a block.
abbrev pub carve : ℕ → ℕ → List Block → List Block
carve n s post = if ltb (s - n) 16 then used s ∷ post else used n ∷ free (s - n) ∷ post

module _ {m : Mem} {a b s e foot : ℕ} {pre post : List Block} (h : Heap)
    (r : Around m a pre b s post e s foot)
    (v : IsQueue h.free_blocks (free_vas a pre ++ ((b + 4) ∷ free_vas (b + s) post)))
    (same : h.mem ≡ m) where
  pub footer_of : sub32 (add32 (b + 4) (load h.mem b)) 8 ≡ b + s - 4
  footer_of = rw (same, r.header) (footer_at r)

  -- A rest of less than 16 bytes: the whole block is taken.
  pub take_whole :
      (size rest : ℕ)
      → rest < 16
      → foot ≡ s
      → Returns
          (λ h'.
            Around h'.mem a pre b s post e (s + 1) (s + 1)
            × IsQueue h'.free_blocks (free_vas a pre ++ free_vas (b + s) post)
            × SameLimits h h')
          (take_block (b + 4) size rest h)
  unfolding take_block
  take_whole size rest few good =
      let small : s + 1 < word_mod = omega (arith, order r, r.high) in
      let r1 = Around-store_header r (s + 1) small in
      let r2 = Around-store_footer r1 (s + 1) small in
      let tag : or_one s ≡ s + 1 = or_one_even s r.even in
      rw (lt→ltb rest 16 few, header_at r, footer_of, same, r.header, tag, r1.footer, good, tag)
        (Returns-bind (remove-IsQueue (free_vas a pre) (b + 4) (free_vas (b + s) post) v)
          λ q v'. returns (r2, v', same_limits))
