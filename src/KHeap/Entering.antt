-- ===== src/KHeap/Entering.antt =====
-- `kfree` of kern/mem/kheap.c enters pages into the free page ranges.
use fos_fcis_operating_syste.Prelude.{
  ℕ, ◌+◌, ◌-◌, ◌*◌, ◌%◌, ◌≤◌, ◌<◌, ◌≡◌, refl, ap, ◌∙◌, inl, inr, false, ◌||◌, List, [], ◌∷◌, ◌==◌,
  arith, word_mod, add32_small, Bool-cases, lt→ltb, le→ltb, ==→eq, ==→ne,
}
use fos_fcis_operating_syste.KHeap.Defs.{FreePagesInfo}
use fos_fcis_operating_syste.KHeap.Ops.{
  Insertion, behind, grow_right, grow_left, at_end, insert_behind, insert_pages,
}
use fos_fcis_operating_syste.KHeap.Ranges.{
  end_of, Ranges, in_pages, free_at, Away, list_of, list_of-behind, Ranges-lower, Entered,
}
use fos_fcis_operating_syste.KHeap.Joins.{
  touches_right_lem, touches_left_lem, pages_grow_right, pages_grow_left, pages_swap,
  between-Entered,
}

module _ (hi begin n : ℕ) (top : hi < word_mod) (aligned : begin % 4096 ≡ 0) (some : 0 < n)
    (inside : begin + n * 4096 ≤ hi) where
  abbrev pub last : ℕ
  last = begin + n * 4096 - 4096

  at_end-Entered :
      (lo node : ℕ) (p : FreePagesInfo)
      → Ranges lo hi (p ∷ [])
      → end_of p ≤ begin
      → Entered hi begin n lo (p ∷ []) (list_of node begin n (at_end begin n p))
  unfolding at_end grow_left
  at_end-Entered lo node p (l, a, c, h, rest) left =
      let on_left = touches_left_lem hi begin n top aligned some inside p c left in
      elim (Bool-cases (begin == end_of p)) [
        | inl u ↦
            rw (on_left, u, add32_small p.no_consecutive_pages n (omega arith))
              (record {
                ranges = (l, a, omega arith, omega (arith, ==→eq begin (end_of p) u), tt);
                pages = λ q.
                    pages_grow_left hi begin n top aligned some inside q p.va p.no_consecutive_pages
                      false (==→eq begin (end_of p) u);
              })
        | inr u ↦
            rw (on_left, u)
              (record {
                ranges = (
                  l,
                  a,
                  c,
                  h,
                  (omega (arith, ==→ne begin (end_of p) u), aligned, some, inside, tt),
                );
                pages = λ q.
                    pages_swap hi begin n top aligned some inside
                      (in_pages q p.va p.no_consecutive_pages) (in_pages q begin n) false;
              })
      ]

  -- A range in front of all that is entered.
  behind-Entered :
      (lo node : ℕ) (p : FreePagesInfo) (es : List FreePagesInfo) (i : Insertion)
      → Ranges lo hi (p ∷ es)
      → Entered hi begin n (end_of p + 4096) es (list_of node begin n i)
      → Entered hi begin n lo (p ∷ es) (list_of node begin n (behind p i))
  behind-Entered lo node p es i (l, a, c, h, rest) d =
      rw (list_of-behind node begin n p i) (record {
        ranges = (l, a, c, h, d.ranges);
        pages = λ q.
            ap (λ b. in_pages q p.va p.no_consecutive_pages || b) (d.pages q)
            ∙ pages_swap hi begin n top aligned some inside (in_pages q p.va p.no_consecutive_pages)
                (in_pages q begin n) (free_at q es);
      })

  insert_behind-Entered :
      (es : List FreePagesInfo) (p : FreePagesInfo) (lo node : ℕ)
      → Ranges lo hi (p ∷ es)
      → end_of p ≤ begin
      → Away begin n es
      → Entered hi begin n lo (p ∷ es) (list_of node begin n (insert_behind last begin last n p es))
  unfolding insert_behind
  insert_behind-Entered [] p lo node r left away = at_end-Entered lo node p r left
  insert_behind-Entered (e ∷ es) p lo node r left (inl right, away) =
      rw (lt→ltb last e.va (omega arith))
        (between-Entered hi begin n top aligned some inside lo node p e es r left right)
  insert_behind-Entered (e ∷ es) p lo node r left (inr on, away) =
      rw (le→ltb last e.va (omega (arith, r))) (
        behind-Entered lo node p (e ∷ es) _ r
          (insert_behind-Entered es e (end_of p + 4096) node r.4 on away))

  -- What `kfree` of `n` pages at `begin`, none of which is free, makes of the list: ranges in
  -- address order, of which no two touch, and free are those pages and what was free before.
  pub insert_pages-Entered :
      (es : List FreePagesInfo) (lo node : ℕ)
      → lo ≤ begin
      → Ranges lo hi es
      → Away begin n es
      → Entered hi begin n lo es (list_of node begin n (insert_pages last begin last n es))
  unfolding insert_pages grow_right
  insert_pages-Entered [] lo node low r away = record {
    ranges = (low, aligned, some, inside, tt);
    pages = λ q. refl;
  }
  insert_pages-Entered (e ∷ es) lo node low (l, a, c, h, rest) (inl right, away) =
      elim (Bool-cases (e.va == begin + n * 4096)) [
        | inl t ↦
            rw
              (
                lt→ltb last e.va (omega arith),
                touches_right_lem hi begin n top aligned some inside e right (omega arith),
                t,
                add32_small e.no_consecutive_pages n (omega arith),
              )
              (record {
                ranges = (
                  low,
                  aligned,
                  omega arith,
                  omega (arith, ==→eq e.va (begin + n * 4096) t),
                  Ranges-lower (end_of e + 4096) _ hi es
                      (omega (arith, ==→eq e.va (begin + n * 4096) t)) rest,
                );
                pages = λ q.
                    pages_grow_right hi begin n top aligned some inside q e.va
                      e.no_consecutive_pages false (free_at q es) (==→eq e.va (begin + n * 4096) t);
              })
        | inr t ↦
            rw
              (
                lt→ltb last e.va (omega arith),
                touches_right_lem hi begin n top aligned some inside e right (omega arith),
                t,
              )
              (record {
                ranges = (
                  low,
                  aligned,
                  some,
                  inside,
                  (omega (arith, ==→ne e.va (begin + n * 4096) t), a, c, h, rest),
                );
                pages = λ q. refl;
              })
      ]
  insert_pages-Entered (e ∷ es) lo node low r (inr on, away) =
      rw (le→ltb last e.va (omega (arith, r))) (insert_behind-Entered es e lo node r on away)
