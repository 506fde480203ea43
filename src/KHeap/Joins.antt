-- ===== src/KHeap/Joins.antt =====
-- Pages that `kfree` of kern/mem/kheap.c enters between two ranges.
use fos_fcis_operating_syste.Prelude.{
  ℕ, ◌+◌, ◌-◌, ◌*◌, ◌%◌, ◌≤◌, ◌<◌, ◌≡◌, ◌≢◌, inl, inr, Bool, ◌||◌, List, ◌∷◌, ◌==◌, arith, word_mod,
  add32, add32_small, sub32, Bool-cases, ==→eq, ==→ne,
}
use fos_fcis_operating_syste.KHeap.Defs.{FreePagesInfo}
use fos_fcis_operating_syste.KHeap.Ops.{touches_right, touches_left, grow_right, grow_left, between}
use fos_fcis_operating_syste.KHeap.Ranges.{
  end_of, Ranges, in_pages, free_at, list_of, Ranges-lower, Entered,
}

module _ (hi begin n : ℕ) (top : hi < word_mod) (aligned : begin % 4096 ≡ 0) (some : 0 < n)
    (inside : begin + n * 4096 ≤ hi) where
  abbrev pub last : ℕ
  last = begin + n * 4096 - 4096

  pub touches_right_lem :
      (e : FreePagesInfo)
      → begin + n * 4096 ≤ e.va
      → e.va ≤ hi
      → touches_right last e ≡ (e.va == begin + n * 4096)
  unfolding touches_right sub32
  touches_right_lem e above below = ground arith

  pub touches_left_lem :
      (e : FreePagesInfo)
      → 0 < e.no_consecutive_pages
      → end_of e ≤ begin
      → touches_left begin e ≡ (begin == end_of e)
  unfolding touches_left sub32 add32
  touches_left_lem e filled below = ground arith

  pub pages_grow_right :
      (q va c : ℕ) (before after : Bool)
      → va ≡ begin + n * 4096
      → (before || (in_pages q begin (c + n) || after))
        ≡ (in_pages q begin n || (before || (in_pages q va c || after)))
  pages_grow_right q va c before after e = ground arith

  pub pages_grow_left :
      (q va c : ℕ) (after : Bool)
      → begin ≡ va + c * 4096
      → (in_pages q va (c + n) || after) ≡ (in_pages q begin n || (in_pages q va c || after))
  pages_grow_left q va c after e = ground arith

  pages_join :
      (q va c va' c' : ℕ) (after : Bool)
      → begin ≡ va + c * 4096
      → va' ≡ begin + n * 4096
      → (in_pages q va (c + n + c') || after)
        ≡ (in_pages q begin n || (in_pages q va c || (in_pages q va' c' || after)))
  pages_join q va c va' c' after e e' = ground arith

  pub pages_swap : (a b c : Bool) → (a || (b || c)) ≡ (b || (a || c))
  pages_swap a b c = ground arith

  module _ (lo node : ℕ) (p e : FreePagesInfo) (es : List FreePagesInfo)
      (r : Ranges lo hi (p ∷ e ∷ es)) (left : end_of p ≤ begin)
      (right : begin + n * 4096 ≤ e.va) where
    grown_right :
        e.va ≡ begin + n * 4096
        → begin ≢ end_of p
        → Entered hi begin n lo (p ∷ e ∷ es) (p ∷ grow_right begin n e ∷ es)
    unfolding grow_right
    grown_right touch apart =
        let (l, a, c, h, (l', a', c', h', rest)) = r in
        rw (add32_small e.no_consecutive_pages n (omega arith)) (record {
          ranges = (
            l,
            a,
            c,
            h,
            (
              omega (arith, apart),
              aligned,
              omega arith,
              omega arith,
              Ranges-lower (end_of e + 4096) _ hi es (omega arith) rest,
            ),
          );
          pages = λ q.
              pages_grow_right q e.va e.no_consecutive_pages
                (in_pages q p.va p.no_consecutive_pages) (free_at q es) touch;
        })

    grown_left :
        e.va ≢ begin + n * 4096
        → begin ≡ end_of p
        → Entered hi begin n lo (p ∷ e ∷ es) (grow_left n p ∷ e ∷ es)
    unfolding grow_left
    grown_left apart touch =
        let (l, a, c, h, (l', a', c', h', rest)) = r in
        rw (add32_small p.no_consecutive_pages n (omega arith)) (record {
          ranges = (l, a, omega arith, omega arith, (omega (arith, apart), a', c', h', rest));
          pages = λ q. pages_grow_left q p.va p.no_consecutive_pages (free_at q (e ∷ es)) touch;
        })

    grown_both :
        e.va ≡ begin + n * 4096
        → begin ≡ end_of p
        → Entered hi begin n lo (p ∷ e ∷ es) (grow_left e.no_consecutive_pages (grow_left n p) ∷ es)
    unfolding grow_left
    grown_both right_touch left_touch =
        let (l, a, c, h, (l', a', c', h', rest)) = r in
        rw
          (
            add32_small p.no_consecutive_pages n (omega arith),
            add32_small (p.no_consecutive_pages + n) e.no_consecutive_pages (omega arith),
          )
          (record {
            ranges = (
              l,
              a,
              omega arith,
              omega arith,
              Ranges-lower (end_of e + 4096) _ hi es (omega arith) rest,
            );
            pages = λ q.
                pages_join q p.va p.no_consecutive_pages e.va e.no_consecutive_pages (free_at q es)
                  left_touch right_touch;
          })

    put_between :
        e.va ≢ begin + n * 4096
        → begin ≢ end_of p
        → Entered hi begin n lo
            (p ∷ e ∷ es)
            (p ∷ record { node = node; va = begin; no_consecutive_pages = n } ∷ e ∷ es)
    put_between apart_right apart_left =
        let (l, a, c, h, (l', a', c', h', rest)) = r in
        record {
          ranges = (
            l,
            a,
            c,
            h,
            (
              omega (arith, apart_left),
              aligned,
              some,
              inside,
              (omega (arith, apart_right), a', c', h', rest),
            ),
          );
          pages = λ q.
              pages_swap (in_pages q p.va p.no_consecutive_pages) (in_pages q begin n)
                (free_at q (e ∷ es));
        }

    pub between-Entered :
        Entered hi begin n lo (p ∷ e ∷ es) (list_of node begin n (between begin last n p e es))
    unfolding between
    between-Entered =
        let (l, a, c, h, (l', a', c', h', rest)) = r in
        let on_right = touches_right_lem e right (omega arith) in
        let on_left = touches_left_lem p c left in
        let right_end = begin + n * 4096 in
        elim (Bool-cases (e.va == right_end)) [
          | inl t ↦ elim (Bool-cases (begin == end_of p)) [
            | inl u ↦
                rw (on_right, t, on_left, u)
                  (grown_both (==→eq e.va right_end t) (==→eq begin (end_of p) u))
            | inr u ↦
                rw (on_right, t, on_left, u)
                  (grown_right (==→eq e.va right_end t) (==→ne begin (end_of p) u))
          ]
          | inr t ↦ elim (Bool-cases (begin == end_of p)) [
            | inl u ↦
                rw (on_right, t, on_left, u)
                  (grown_left (==→ne e.va right_end t) (==→eq begin (end_of p) u))
            | inr u ↦
                rw (on_right, t, on_left, u)
                  (put_between (==→ne e.va right_end t) (==→ne begin (end_of p) u))
          ]
        ]
