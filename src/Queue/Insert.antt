-- ===== src/Queue/Insert.antt =====
-- The insertions of inc/queue.h on a well-formed list.
use fos_fcis_operating_syste.Prelude.{
  ℕ, ◌+◌, ◌%◌, ◌<◌, ◌≡◌, refl, sym, ◌∙◌, ◌≢◌, List, [], ◌∷◌, ◌++◌, word_mod, length, length-append,
  arith, ne→==, add32, Returns, Returns-panic_if, ◌⊎◌,
}
use fos_fcis_operating_syste.Queue.Defs.{
  Queue, write, insert_head, insert_tail, insert_after, insert_before,
}
use fos_fcis_operating_syste.Queue.Chain.{
  Absent, Apart, Absent-prefix, Apart-head, Chain, nil, cons, IsQueue, Chain-write_next,
  Chain-write_prev, Chain-append, Chain-split, front-link, back-link, write_self, write_other, link,
  link-other, head-Absent, end-Absent, Chain-link_next, Chain-link_prev,
}

Apart-single : (x : ℕ) (xs : List ℕ) → Absent x xs → Apart xs (x ∷ [])
Apart-single x [] out = tt
Apart-single x (y ∷ xs) out = ((λ e. out.0 (sym e), tt), Apart-single x xs out.1)

pub Apart-cons : (x : ℕ) (xs ys : List ℕ) → Absent x xs → Apart xs ys → Apart xs (x ∷ ys)
Apart-cons x [] ys out apart = tt
Apart-cons x (y ∷ xs) ys out apart =
    ((λ e. out.0 (sym e), apart.0), Apart-cons x xs ys out.1 apart.1)

length-middle :
    (xs : List ℕ) (x : ℕ) (ys : List ℕ) → length (xs ++ (x ∷ ys)) ≡ length (xs ++ ys) + 1
length-middle xs x ys = omega (arith, length-append xs (x ∷ ys), length-append xs ys)

module _ {q : Queue} (x : ℕ) where
  -- LIST_INSERT_HEAD of an element that is neither NULL nor in a well-formed list returns, and puts
  -- it in front, as long as the size fits a word.
  pub insert_head-IsQueue :
      {xs : List ℕ}
      → IsQueue q xs
      → x ≢ 0
      → Absent x xs
      → length xs + 1 < word_mod
      → Returns (λ q'. IsQueue q' (x ∷ xs)) (insert_head q x)
  unfolding insert_head add32
  insert_head-IsQueue {xs} v nz out room =
      let linked = back-link x v.chain in
      let spared = Chain-write_prev x 0 out (Chain-write_next x q.first out linked) in
      Returns-panic_if _ (ne→== x 0 nz) (record {
        chain =
            cons refl nz (write_self (link q.prev q.first x) x 0) out
              (rw (write_self q.next x q.first) spared);
        count = omega (arith, v.count);
        fits = omega arith;
      })

  -- LIST_INSERT_TAIL of an element that is neither NULL nor in a well-formed list returns, and puts
  -- it last, as long as the size fits a word.
  pub insert_tail-IsQueue :
      {xs : List ℕ}
      → IsQueue q xs
      → x ≢ 0
      → Absent x xs
      → length xs + 1 < word_mod
      → Returns (λ q'. IsQueue q' (xs ++ (x ∷ []))) (insert_tail q x)
  unfolding insert_tail add32
  insert_tail-IsQueue {xs} v nz out room =
      let linked = front-link x v.chain in
      let spared = Chain-write_prev x q.last out (Chain-write_next x 0 out linked) in
      let back =
        cons refl nz (write_self q.prev x q.last) tt
          (nil (write_self (link q.next q.last x) x 0) refl) in
      Returns-panic_if _ (ne→== x 0 nz) (record {
        chain = Chain-append (x ∷ []) spared back (Apart-single x xs out);
        count = omega (arith, v.count, length-append xs (x ∷ []));
        fits = omega (arith, length-append xs (x ∷ []));
      })

  module _ (xs : List ℕ) (a : ℕ) (ys : List ℕ) (v : IsQueue q (xs ++ (a ∷ ys))) (nz : x ≢ 0)
      (out : Absent x (xs ++ (a ∷ ys))) (room : length (xs ++ (a ∷ ys)) + 1 < word_mod) where
    after-Chain :
        {k m : ℕ}
        → Chain q.next q.prev m 0 q.first xs k
        → Chain q.next q.prev 0 k m (a ∷ ys) q.last
        → Apart xs (a ∷ ys)
        → Returns (λ q'. IsQueue q' (xs ++ (a ∷ x ∷ ys))) (insert_after q a x)
    unfolding insert_after add32
    after-Chain {k} f (cons e nza back fresh c) apart =
        let longer : length (xs ++ (a ∷ x ∷ ys)) ≡ length (xs ++ (a ∷ ys)) + 1 =
          omega (arith, length-append xs (a ∷ ys), length-append xs (a ∷ x ∷ ys)) in
        let counted : (q.size + 1) % word_mod ≡ length (xs ++ (a ∷ x ∷ ys)) =
          omega (arith, v.count) in
        let fitting : length (xs ++ (a ∷ x ∷ ys)) < word_mod = omega arith in
        let outs = Absent-prefix x xs (a ∷ ys) out in
        let heads = Apart-head a xs ys apart in
        let xa : x ≢ a = outs.1.0 in
        let first_back = head-Absent xs c heads.1 in
        let second_back = head-Absent (a ∷ []) c (fresh, tt) in
        let before = Chain-write_prev x a outs.0 (
          Chain-link_prev (q.next a) x first_back
            (Chain-write_next a x heads.0 (Chain-write_next x (q.next a) outs.0 f))) in
        let behind =
          Chain-write_prev x a outs.1.1
            (Chain-write_next a x fresh (Chain-write_next x (q.next a) outs.1.1 (back-link x c))) in
        let at_x : write (write q.next x (q.next a)) a x x ≡ q.next a =
          write_other (write q.next x (q.next a)) a x x (λ z. xa (sym z))
          ∙ write_self q.next x (q.next a) in
        let new =
          cons refl nz (write_self (link q.prev (q.next a) x) x a) outs.1.1 (rw at_x behind) in
        let old =
          cons e nza
            (write_other (link q.prev (q.next a) x) x a a xa
              ∙ link-other q.prev (q.next a) x a second_back
              ∙ back)
            ((λ z. xa (sym z)), fresh) (rw (write_self (write q.next x (q.next a)) a x) new) in
        Returns-panic_if _ (rw (ne→== a 0 nza, ne→== x 0 nz)) (record {
          chain = rw at_x (
              Chain-append (a ∷ x ∷ ys) before old
                (Apart-cons a xs (x ∷ ys) heads.0 (Apart-cons x xs ys outs.0 heads.1)));
          count = counted;
          fits = fitting;
        })

    before-Chain :
        {k m : ℕ}
        → Chain q.next q.prev m 0 q.first xs k
        → Chain q.next q.prev 0 k m (a ∷ ys) q.last
        → Apart xs (a ∷ ys)
        → Returns (λ q'. IsQueue q' (xs ++ (x ∷ a ∷ ys))) (insert_before q a x)
    unfolding insert_before add32
    before-Chain {k} f (cons e nza back fresh c) apart =
        let longer : length (xs ++ (x ∷ a ∷ ys)) ≡ length (xs ++ (a ∷ ys)) + 1 =
          omega (arith, length-append xs (a ∷ ys), length-append xs (x ∷ a ∷ ys)) in
        let counted : (q.size + 1) % word_mod ≡ length (xs ++ (x ∷ a ∷ ys)) =
          omega (arith, v.count) in
        let fitting : length (xs ++ (x ∷ a ∷ ys)) < word_mod = omega arith in
        let outs = Absent-prefix x xs (a ∷ ys) out in
        let heads = Apart-head a xs ys apart in
        let xa : x ≢ a = outs.1.0 in
        let last_front = end-Absent ys f heads.1 in
        let last_at : (k ≡ 0) ⊎ Absent k (a ∷ []) =
          end-Absent (a ∷ []) f (Apart-single a xs heads.0) in
        let last_x : (k ≡ 0) ⊎ Absent k (x ∷ []) =
          end-Absent (x ∷ []) f (Apart-single x xs outs.0) in
        let at_a : write q.prev x (q.prev a) a ≡ k = write_other q.prev x (q.prev a) a xa ∙ back in
        let next2 = link (write q.next x a) k x in
        let before =
          Chain-write_prev a x heads.0
            (Chain-write_prev x (q.prev a) outs.0 (front-link x (Chain-write_next x a outs.0 f))) in
        let behind = Chain-write_prev a x fresh (
          Chain-write_prev x (q.prev a) outs.1.1
            (Chain-link_next k x last_front (Chain-write_next x a outs.1.1 c))) in
        let next_a : next2 a ≡ q.next a =
          link-other (write q.next x a) k x a last_at ∙ write_other q.next x a a xa in
        let next_x : next2 x ≡ a =
          link-other (write q.next x a) k x x last_x ∙ write_self q.next x a in
        let old =
          cons next_x nza (write_self (write q.prev x (q.prev a)) a x) fresh (rw next_a behind) in
        let at_x : write (write q.prev x (q.prev a)) a x x ≡ k =
          write_other (write q.prev x (q.prev a)) a x x (λ z. xa (sym z))
          ∙ write_self q.prev x (q.prev a)
          ∙ back in
        let new = cons refl nz at_x outs.1 old in
        Returns-panic_if _ (rw (ne→== a 0 nza, ne→== x 0 nz)) (record {
          chain = rw at_a (
              Chain-append (x ∷ a ∷ ys) before new
                (Apart-cons x xs (a ∷ ys) outs.0 (Apart-cons a xs ys heads.0 heads.1)));
          count = counted;
          fits = fitting;
        })

    -- LIST_INSERT_AFTER of an element that is neither NULL nor in a well-formed list returns, and puts
    -- it right behind the given one, as long as the size fits a word.
    pub insert_after-IsQueue : Returns (λ q'. IsQueue q' (xs ++ (a ∷ x ∷ ys))) (insert_after q a x)
    insert_after-IsQueue =
        let (k, m, f, b, apart) = Chain-split xs (a ∷ ys) v.chain in after-Chain f b apart

    -- LIST_INSERT_BEFORE of an element that is neither NULL nor in a well-formed list returns, and puts
    -- it right in front of the given one, as long as the size fits a word.
    pub insert_before-IsQueue :
        Returns (λ q'. IsQueue q' (xs ++ (x ∷ a ∷ ys))) (insert_before q a x)
    insert_before-IsQueue =
        let (k, m, f, b, apart) = Chain-split xs (a ∷ ys) v.chain in before-Chain f b apart
