-- ===== src/DynAlloc/Grow.antt =====
-- The growth of `alloc_block_FF`: one page from `sbrk` behind the last block, freed like a block.
use fos_fcis_operating_syste.Prelude.{
  ℕ, ◌+◌, ◌-◌, ◌≤◌, ◌<◌, ◌≡◌, refl, sym, ◌∙◌, ◌⊎◌, inl, inr, false, List, [], ◌∷◌, ◌++◌, none, some,
  arith, ◌==◌, ne→==, word_mod, page_size, or_one, or_one_even, add32, add32_small, sub32,
  sub32_small, ok, Returns, returns, Returns-bind, Returns-mono, append-nil, append_assoc,
}
use fos_fcis_operating_syste.Memory.{Mem, load, store, load-store, load-store_apart}
use fos_fcis_operating_syste.Queue.Chain.{IsQueue}
use fos_fcis_operating_syste.DynAlloc.Defs.{Heap, minus_one, round_up}
use fos_fcis_operating_syste.DynAlloc.Ops.{extend, free_block}
use fos_fcis_operating_syste.DynAlloc.Tiling.{
  Block, used, free, free_vas, Tiled, nil, Tiled-total, Tiled-store,
}
use fos_fcis_operating_syste.DynAlloc.Heaps.{Holds, SameLimits, Around}
use fos_fcis_operating_syste.DynAlloc.Coalesce.{
  Before, first, last_used, last_free, before, release, release_last_used, release_last_free,
}
use fos_fcis_operating_syste.DynAlloc.Neighbours.{Closed-first, Closed-last_used, Closed-end}
use fos_fcis_operating_syste.DynAlloc.FreeBlock.{free_between_used, free_behind_free, ClosedBefore}
use fos_fcis_operating_syste.DynAlloc.Sbrk.{sbrk-grows, sbrk-fails}

-- A total size that one page covers.
pub round_up_page : (n : ℕ) → 0 < n → n ≤ page_size → round_up n page_size ≡ page_size
unfolding round_up
round_up_page n pos le = omega arith

-- What a grown heap keeps of the old one, and where its break is.
pub record Grown (h h' : Heap) : Type 0 where
  pub brk : h'.brk ≡ h.brk + page_size
  pub is_initialized : h'.is_initialized ≡ h.is_initialized
  pub hard_limit : h'.hard_limit ≡ h.hard_limit
  pub frames : h'.free_frames + 1 ≡ h.free_frames

-- The state before the new block is freed.
record Appended (h1 : Heap) (a e : ℕ) (bs : List Block) (foot : ℕ) : Type 0 where
  around : Around h1.mem a bs e page_size [] (e + page_size) (page_size + 1) foot
  listed : IsQueue h1.free_blocks (free_vas a bs ++ [])

-- The memory writes of the new block's tags and end block. The footer is written four bytes too
-- low, so the footer's true place keeps what the fresh page held.
new_block :
    {m : Mem} {a e : ℕ} {bs : List Block}
    → Tiled m a bs e
    → load m (a - 4) ≡ 1
    → 4 < a
    → e + page_size + 4 < word_mod
    → let m3 =
        store
          (store (store m e (page_size + 1)) (e + page_size - 8) (page_size + 1))
          (e + page_size)
          1 in
      Around m3 a bs e page_size [] (e + page_size) (page_size + 1) (load m3 (e + page_size - 4))
new_block {m} {a} {e} tiled begin low high =
    let m1 = store m e (page_size + 1) in
    let m2 = store m1 (e + page_size - 8) (page_size + 1) in
    let len = Tiled-total tiled in
    record {
      front = Tiled-store (e + page_size) 1 (omega arith) (
          Tiled-store (e + page_size - 8) (page_size + 1) (omega arith)
            (Tiled-store e (page_size + 1) (omega arith) tiled));
      back = nil refl;
      even = refl;
      large = omega arith;
      header =
          load-store_apart m2 (e + page_size) 1 e (omega arith)
          ∙ load-store_apart m1 (e + page_size - 8) (page_size + 1) e (omega arith)
          ∙ load-store m e (page_size + 1) (omega arith);
      footer = refl;
      begin =
          load-store_apart m2 (e + page_size) 1 (a - 4) (omega arith)
          ∙ load-store_apart m1 (e + page_size - 8) (page_size + 1) (a - 4) (omega arith)
          ∙ load-store_apart m e (page_size + 1) (a - 4) (omega arith)
          ∙ begin;
      stop = load-store m2 (e + page_size) 1 (omega arith);
      low = low;
      high = high;
    }

-- The grown heap where the last block is in use: the new block's footer is whatever it is.
pub record NewLast (h' : Heap) (a e : ℕ) (bs : List Block) : Type 0 where
  pub foot : ℕ
  pub around : Around h'.mem a bs e page_size [] (e + page_size) page_size foot
  pub listed : IsQueue h'.free_blocks (free_vas a bs ++ ((e + 4) ∷ []))
  pub result : release bs page_size [] ≡ bs ++ (free page_size ∷ [])

-- The grown heap where the last block is free: it has grown.
pub record LongerLast (h' : Heap) (a e : ℕ) (bs : List Block) : Type 0 where
  pub pre : List Block
  pub t : ℕ
  pub here : bs ≡ pre ++ (free t ∷ [])
  pub holds : Holds h' a (pre ++ (free (t + page_size) ∷ [])) (e + page_size)
  pub result : release bs page_size [] ≡ pre ++ (free (t + page_size) ∷ [])

Outcome : Heap → Heap → ℕ → ℕ → List Block → Type 0
Outcome h h' a e bs = (NewLast h' a e bs ⊎ LongerLast h' a e bs) × SameLimits h h'

free_new_last :
    (h : Heap) {a e foot : ℕ} {bs : List Block}
    → Around h.mem a bs e page_size [] (e + page_size) (page_size + 1) foot
    → IsQueue h.free_blocks (free_vas a bs ++ [])
    → ClosedBefore a e page_size (e + page_size) bs []
    → release bs page_size [] ≡ bs ++ (free page_size ∷ [])
    → Returns (λ h'. Outcome h h' a e bs) (free_block (e + 4) h)
unfolding Outcome
free_new_last h {foot} r v cb same =
    Returns-mono (free_between_used h r v cb (λ m w f x. Closed-end x)) λ h' (r', listed, limits).
      (inl (record { foot = sub32 foot 1; around = r'; listed = listed; result = same }), limits)

free_new :
    (h : Heap) {a e foot : ℕ} {bs : List Block}
    → Before bs
    → Around h.mem a bs e page_size [] (e + page_size) (page_size + 1) foot
    → IsQueue h.free_blocks (free_vas a bs ++ [])
    → Returns (λ h'. Outcome h h' a e bs) (free_block (e + 4) h)
unfolding Outcome
free_new h first r v = free_new_last h r v (λ m w f x. Closed-first x) refl
free_new h (last_used pre t) r v =
    free_new_last h r v (λ m w f x. Closed-last_used pre t x)
      (release_last_used pre t page_size []
        ∙ sym (append_assoc pre (used t ∷ []) (free page_size ∷ [])))
free_new h (last_free pre t) r v =
    Returns-mono (free_behind_free h pre t r v (λ m w f x. Closed-end x)) λ h' (held, limits). (
      inr (record {
        pre = pre;
        t = t;
        here = refl;
        holds = held;
        result = release_last_free pre t page_size [];
      }),
      limits,
    )

module _ (h : Heap) {a e : ℕ} {bs : List Block} (v : Holds h a bs e) (at_break : h.brk ≡ e + 4)
    (n : ℕ) (pos : 0 < n) (one_page : n ≤ page_size) where
  pub extend-grows :
      e + page_size + 4 < word_mod - 1
      → h.brk + page_size ≤ h.hard_limit
      → 1 ≤ h.free_frames
      → Returns
          (λ o.
            (h' : Heap) × (o ≡ some h') × Grown h h' × (NewLast h' a e bs ⊎ LongerLast h' a e bs))
          (extend n h)
  unfolding extend Outcome
  extend-grows high limit enough = rw (round_up_page n pos one_page) (
      Returns-bind
        (sbrk-grows 1 h (omega arith) (omega arith) (omega arith) (omega arith) limit enough)
        λ (addr, h1) (at, moved, m).
          let addr_at : addr ≡ e + 4 = omega arith in
          let is_new : (e + 4 == minus_one) ≡ false = ne→== (e + 4) minus_one (omega arith) in
          let head : sub32 (e + 4) 4 ≡ e =
            sub32_small (e + 4) 4 (omega arith) (omega arith) ∙ omega arith in
          let stop_at : add32 e page_size ≡ e + page_size = add32_small e page_size (omega arith) in
          let foot_at : sub32 (e + page_size) 8 ≡ e + page_size - 8 =
            sub32_small (e + page_size) 8 (omega arith) (omega arith) in
          let tag : or_one page_size ≡ page_size + 1 = or_one_even page_size refl in
          let tiled : Tiled h1.mem a bs e = rw m.mem v.tiled in
          let begin : load h1.mem (a - 4) ≡ 1 = rw m.mem v.begin in
          let listed : IsQueue h1.free_blocks (free_vas a bs ++ []) =
            rw (append-nil, m.free_blocks) v.listed in
          rw (addr_at, is_new, head, stop_at, foot_at, tag)
            (Returns-bind
              (free_new _ (before bs) (new_block tiled begin v.low (omega arith)) listed)
              λ h2 (outcome, limits). returns (
                h2,
                refl,
                record {
                  brk = limits.brk ∙ moved;
                  is_initialized = limits.is_initialized ∙ m.is_initialized;
                  hard_limit = limits.hard_limit ∙ m.hard_limit;
                  frames = omega (arith, limits.free_frames, m.frames);
                },
                outcome,
              )))

  pub extend-fails :
      e + page_size + 4 < word_mod - 1
      → (h.hard_limit < h.brk + page_size) ⊎ (h.free_frames < 1)
      → extend n h ≡ ok none
  unfolding extend
  extend-fails high why = rw (
    round_up_page n pos one_page,
    sbrk-fails 1 h (omega arith) (omega arith) (omega arith) (omega arith) why,
  )
