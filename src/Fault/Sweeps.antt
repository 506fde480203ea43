-- ===== src/Fault/Sweeps.antt =====
-- The rounds of the N-chance clock in kern/trap/fault_handler.c that find no victim.
use fos_fcis_operating_syste.Prelude.{
  bit-page, ℕ, ◌+◌, ◌%◌, ◌^◌, ◌≤◌, ◌<◌, ◌≡◌, refl, Bool, true, false, some, arith, add32,
  add32_small, sub32, bit, ne→==, ok, Returns, returns, Returns-bind,
}
use fos_fcis_operating_syste.Paging.{Paging, pt_get_page_permissions}
use fos_fcis_operating_syste.Paging.Cycle.{pt_set_page_permissions-Changed}
use fos_fcis_operating_syste.Fault.Defs.{
  WsElement, Faulted, get_elem?, set, advance, give_chance, count_sweep,
}
use fos_fcis_operating_syste.Fault.Clock.{
  Resident, entry_of, Cleared, Cleared-refl, Changed-unused, Changed-Cleared,
}
use fos_fcis_operating_syste.Fault.Rounds.{
  limit, weight, rounds, rounds-set, AllResident-Cleared, All-get_elem?, All-set, Fits,
  Fits-Cleared,
}
use fos_fcis_operating_syste.Fault.WorkingSet.{Sweeping, SamePages, length-set, addresses-set}

-- What is left of the sum, in a state.
abbrev pub rounds_left : ℕ → Faulted → ℕ
rounds_left n s = rounds n s.env_page_directory s.paging s.page_ws_list

-- One round that finds no victim.
pub record Round (n : ℕ) (s s' : Faulted) : Type 0 where
  pub sweeping : Sweeping n s'
  pub same : SamePages s s'
  pub fewer : rounds_left n s' < rounds_left n s

module _ (n : ℕ) (s : Faulted) (v : Sweeping n s) (e : WsElement)
    (at : get_elem? s.page_ws_list s.page_last_ws_element ≡ some e) where
  -- The round's new state, for new page tables and a new counter.
  swept : Paging → ℕ → Faulted
  swept k c = record s {
    paging = k;
    page_ws_list = set s.page_ws_list s.page_last_ws_element (record e { sweeps_counter = c });
  }

  advance-Round :
      (k : Paging) (c : ℕ)
      → Cleared s.env_page_directory s.paging k
      → Fits n s.env_page_directory k (record e { sweeps_counter = c })
      → weight n s.env_page_directory k (record e { sweeps_counter = c })
        < weight n s.env_page_directory s.paging e
      → Round n s (advance (swept k c))
  unfolding advance swept
  advance-Round k c cleared fits falls =
      let d = s.env_page_directory in
      let es = s.page_ws_list in
      let i = s.page_last_ws_element in
      let e' = record e { sweeps_counter = c } in
      let same_length = length-set es i e' in
      record {
        sweeping = record {
          resident =
              All-set (λ (x : WsElement). Resident d x.virtual_address k) es i e'
                (AllResident-Cleared d s.paging k es cleared v.resident)
                (cleared.resident e.virtual_address (
                  All-get_elem? (λ (x : WsElement). Resident d x.virtual_address s.paging) es i
                    v.resident at));
          fits =
              All-set (Fits n d k) es i e'
                (Fits-Cleared n d s.paging k es cleared v.resident v.fits) fits;
          inside = rw same_length (ground (arith, v.inside));
        };
        same = record {
          pages = addresses-set es i e e' at refl;
          cleared = cleared;
          env_page_directory = refl;
          page_ws_max_size = refl;
        };
        fewer = omega (arith, rounds-set n d s.paging k es i e e' cleared v.resident at);
      }

-- The permissions hold the low bits of the entry.
pub used_low : (x : ℕ) → bit 5 (x % 4096) ≡ bit 5 x
used_low x = bit-page 5 x (omega arith)

pub modified_low : (x : ℕ) → bit 6 (x % 4096) ≡ bit 6 x
modified_low x = bit-page 6 x (omega arith)

pub permissions_of :
    (d va : ℕ) (k : Paging)
    → Resident d va k
    → pt_get_page_permissions d va k ≡ ok (entry_of d va k % 4096)
unfolding pt_get_page_permissions
permissions_of d va k r = rw (r.at.0, ne→== r.table 0 r.at.1)

pub limit_bound : (n : ℕ) (m : Bool) → n < 2 ^ 32 → limit n m ≤ 2 ^ 31 + 1
unfolding sub32
limit_bound n m h = ground arith

module _ (n : ℕ) (s : Faulted) (v : Sweeping n s) (word : n < 2 ^ 32) (e : WsElement)
    (at : get_elem? s.page_ws_list s.page_last_ws_element ≡ some e) where
  pub Resident-here : Resident s.env_page_directory e.virtual_address s.paging
  Resident-here =
      All-get_elem? (λ (x : WsElement). Resident s.env_page_directory x.virtual_address s.paging)
        s.page_ws_list s.page_last_ws_element v.resident at

  pub Fits-here : Fits n s.env_page_directory s.paging e
  Fits-here =
      All-get_elem? (Fits n s.env_page_directory s.paging) s.page_ws_list s.page_last_ws_element
        v.fits at

  -- A page that has been used gets another chance.
  pub give_chance-Round :
      bit 5 (entry_of s.env_page_directory e.virtual_address s.paging) ≡ true
      → Returns (λ s1. Round n s (advance s1)) (give_chance e s)
  unfolding give_chance swept
  give_chance-Round used =
      let d = s.env_page_directory in
      let va = e.virtual_address in
      let r = Resident-here in
      Returns-bind
        (pt_set_page_permissions-Changed d va r.table 0 0x20 s.paging r.at (omega arith)
          (omega arith) r.word)
        λ k c.
          let cleared = Changed-Cleared d va r.table s.paging k r.at c in
          let unused = Changed-unused d va r.table s.paging k r.at c in
          returns (
            advance-Round n s v e at k 0 cleared (omega arith)
              (rw (unused, used, cleared.modified va r) (omega arith)))

  -- One that has not been used loses a sweep.
  pub count_sweep-Round :
      bit 5 (entry_of s.env_page_directory e.virtual_address s.paging) ≡ false
      → e.sweeps_counter + 1
        < limit n (bit 6 (entry_of s.env_page_directory e.virtual_address s.paging))
      → Round n s (advance (count_sweep e s))
  unfolding count_sweep swept
  count_sweep-Round unused short =
      let m = bit 6 (entry_of s.env_page_directory e.virtual_address s.paging) in
      let next : add32 e.sweeps_counter 1 ≡ e.sweeps_counter + 1 =
        add32_small e.sweeps_counter 1 (omega (arith, limit_bound n m word)) in
      rw next (
        advance-Round n s v e at s.paging (e.sweeps_counter + 1)
          (Cleared-refl s.env_page_directory s.paging) (omega arith) (rw unused (omega arith)))
