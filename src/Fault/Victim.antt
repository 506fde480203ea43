-- ===== src/Fault/Victim.antt =====
-- The search of the N-chance clock in kern/trap/fault_handler.c ends, at a page that may be replaced.
use fos_fcis_operating_syste.Prelude.{
  ℕ, zero, suc, ◌+◌, ◌-◌, ◌*◌, ◌%◌, ◌^◌, ◌≤◌, ◌<◌, ◌≡◌, refl, sym, ◌∙◌, subst, false, some, List,
  [], ◌∷◌, ◌==◌, if◌then◌else◌, arith, length, add32, add32_small, sub32, bit, leb, leb→le, leb→lt,
  Bool-cases, inl, inr, Run, Returns, returns, Returns-bind, Returns-mono,
}
use fos_fcis_operating_syste.Paging.{Paging}
use fos_fcis_operating_syste.Fault.Defs.{
  WsElement, Faulted, get_elem?, is_negative, advance, count_sweep, visit, judge, find_victim,
}
use fos_fcis_operating_syste.Fault.Clock.{Resident, entry_of, Cleared-refl}
use fos_fcis_operating_syste.Fault.Rounds.{limit, weight, rounds, is_victim-limit, Fits, All-set}
use fos_fcis_operating_syste.Fault.WorkingSet.{
  Sweeping, Victim, set_set, length-set, addresses-set, get_elem?-set_self, get_elem?_inside,
  Victim-later,
}
use fos_fcis_operating_syste.Fault.Sweeps.{
  rounds_left, Round, used_low, modified_low, permissions_of, limit_bound, Resident-here, Fits-here,
  give_chance-Round, count_sweep-Round,
}

due_lem : (l c : ℕ) → c ≤ l - 1 → l ≤ c + 1 → c + 1 ≡ (if l == 0 then 1 else l)
due_lem l c fits reached = ground arith

module _ (n : ℕ) (s : Faulted) (v : Sweeping n s) (word : n < 2 ^ 32) (e : WsElement)
    (at : get_elem? s.page_ws_list s.page_last_ws_element ≡ some e)
    (next : Faulted → Run (Faulted × WsElement × ℕ))
    (later : (s1 : Faulted)
      → Round n s s1
      → Returns (λ (s', e', p). Victim n s s' e' p) (next s1)) where
  abbrev here : ℕ
  here = entry_of s.env_page_directory e.virtual_address s.paging

  found-Victim :
      bit 5 (here % 4096) ≡ false
      → limit n (bit 6 (here % 4096)) ≤ e.sweeps_counter + 1
      → Victim n s
          (count_sweep e s)
          (record e { sweeps_counter = add32 e.sweeps_counter 1 })
          (here % 4096)
  unfolding count_sweep
  found-Victim unused reached =
      let d = s.env_page_directory in
      let es = s.page_ws_list in
      let i = s.page_last_ws_element in
      let e' = record e { sweeps_counter = add32 e.sweeps_counter 1 } in
      let low = modified_low (entry_of d e.virtual_address s.paging) in
      let bound = limit_bound n (bit 6 (entry_of d e.virtual_address s.paging)) word in
      let fits = Fits-here n s v word e at in
      let still_fits : e.sweeps_counter ≤ limit n (bit 6 (here % 4096)) - 1 =
        subst (λ b. e.sweeps_counter ≤ limit n b - 1) (sym low) fits in
      let one_more = add32_small e.sweeps_counter 1 (omega (arith, bound, fits)) in
      record {
        under_hand = get_elem?-set_self es i e' v.inside;
        permissions = permissions_of d e.virtual_address s.paging (Resident-here n s v word e at);
        unused = unused;
        due =
            one_more ∙ due_lem (limit n (bit 6 (here % 4096))) e.sweeps_counter still_fits reached;
        same = record {
          pages = addresses-set es i e e' at refl;
          cleared = Cleared-refl d s.paging;
          env_page_directory = refl;
          page_ws_max_size = refl;
        };
        ready = rw (set_set es i e' (record e { sweeps_counter = 0 })) (record {
          resident =
              All-set (λ (x : WsElement). Resident d x.virtual_address s.paging) es i
                (record e { sweeps_counter = 0 }) v.resident (Resident-here n s v word e at);
          fits =
              All-set (Fits n d s.paging) es i (record e { sweeps_counter = 0 }) v.fits
                (omega arith);
          inside = rw (length-set es i (record e { sweeps_counter = 0 })) v.inside;
        });
      }

  -- The counter fits the limit that the permissions show.
  fits_shown : e.sweeps_counter ≤ limit n (bit 6 (here % 4096)) - 1
  fits_shown =
      subst (λ b. e.sweeps_counter ≤ limit n b - 1) (sym (modified_low here))
        (Fits-here n s v word e at)

  judge_unused :
      bit 5 (here % 4096) ≡ false
      → Returns (λ (s', e', p). Victim n s s' e' p) (judge next n s e (here % 4096))
  unfolding judge
  judge_unused unused =
      let m = bit 6 (here % 4096) in
      let test = is_victim-limit n (here % 4096) e.sweeps_counter word fits_shown in
      elim (Bool-cases (leb (limit n m) (e.sweeps_counter + 1))) [
        | inl reached ↦
            rw (unused, test, reached)
              (returns (found-Victim unused (leb→le (limit n m) (e.sweeps_counter + 1) reached)))
        | inr short ↦
            let more : e.sweeps_counter + 1 < limit n (bit 6 here) =
              subst (λ b. e.sweeps_counter + 1 < limit n b) (modified_low here)
                (leb→lt (limit n m) (e.sweeps_counter + 1) short) in
            rw (unused, test, short)
              (later (advance (count_sweep e s))
                (count_sweep-Round n s v word e at (sym (used_low here) ∙ unused) more))
      ]

  judge-Victim : Returns (λ (s', e', p). Victim n s s' e' p) (judge next n s e (here % 4096))
  unfolding judge
  judge-Victim = elim (Bool-cases (bit 5 (here % 4096))) [
    | inl used ↦ rw used (
        Returns-bind (give_chance-Round n s v word e at (sym (used_low here) ∙ used))
          λ s1 r. later (advance s1) r)
    | inr unused ↦ judge_unused unused
  ]

-- With rounds to spare the search ends.
pub find_victim-ends :
    (fuel n : ℕ) (s : Faulted)
    → n < 2 ^ 32
    → Sweeping n s
    → rounds_left n s < fuel
    → Returns (λ (s', e, p). Victim n s s' e p) (find_victim fuel n s)
unfolding find_victim visit
find_victim-ends zero n s word v enough = absurd (omega arith)
find_victim-ends (suc fuel) n s word v enough =
    let (e, at) = get_elem?_inside s.page_ws_list s.page_last_ws_element v.inside in
    rw
      (
        at,
        permissions_of s.env_page_directory e.virtual_address s.paging
            (Resident-here n s v word e at),
      )
      (judge-Victim n s v word e at (find_victim fuel n) λ s1 r.
        Returns-mono (find_victim-ends fuel n s1 word r.sweeping (omega (arith, enough, r.fewer)))
          λ x w. Victim-later r.same w)

-- The number of sweeps that the sign of `page_WS_max_sweeps` leaves, and one for modified pages.
abbrev pub most_sweeps : ℕ → ℕ
most_sweeps n = if is_negative n then sub32 0 n + 1 else n

rounds_bound :
    (n d : ℕ) (k : Paging) (es : List WsElement) → rounds n d k es ≤ length es * (most_sweeps n + 1)
rounds_bound n d k [] = omega arith
rounds_bound n d k (e ∷ es) =
    let rest = rounds_bound n d k es in
    let one : weight n d k e ≤ most_sweeps n + 1 = ground arith in grind (arith, rest, one)

-- Where the tables of all pages of the working set are in memory, the hand is in it and every
-- counter is below its limit, or 0, the replacement loop of page_fault_handler ends after at most
-- one round more than the size of the working set times the most sweeps plus one. The page under
-- the hand is then unused, its counter has just reached its limit, which for a negative
-- `page_WS_max_sweeps` is one higher for a modified page, the working set has the same pages in the
-- same order, and only used bits have been cleared. With the counter under the hand at 0 again all
-- this is as another search needs it.
pub find_victim-Victim :
    (fuel n : ℕ) (s : Faulted)
    → n < 2 ^ 32
    → Sweeping n s
    → length s.page_ws_list * (most_sweeps n + 1) < fuel
    → Returns (λ (s', e, p). Victim n s s' e p) (find_victim fuel n s)
find_victim-Victim fuel n s word v enough =
    find_victim-ends fuel n s word v
      (omega (arith, rounds_bound n s.env_page_directory s.paging s.page_ws_list, enough))
