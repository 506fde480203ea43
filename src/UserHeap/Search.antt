-- ===== src/UserHeap/Search.antt =====
-- The search of getConsecutiveFreePages in kern/mem/chunk_operations.c is first fit.
use fos_fcis_operating_syste.Prelude.{
  ℕ, zero, suc, ◌+◌, ◌-◌, ◌*◌, ◌/◌, ◌≤◌, ◌<◌, ◌≡◌, refl, ap, sym, ◌∙◌, subst, inl, inr, Bool, true,
  false, leb, ◌==◌, if◌then◌else◌, arith, add32, add32_small, page_size, Bool-cases, lt→ltb, le→ltb,
  leb→le, leb→lt, ok, Returns, returns,
}
use native.Mathlib.Decide.{ℕ_discrete}
use fos_fcis_operating_syste.Paging.{Paging}
use fos_fcis_operating_syste.Fault.{user_heap_max}
use fos_fcis_operating_syste.UserHeap.Defs.{
  UserEnv, user_heap_pages, is_free_page, scan, get_consecutive_free_pages,
}

-- The pages `s` to `s + n` are all free.
abbrev pub AllFree : (ℕ → Bool) → (s n : ℕ) → Type 0
AllFree free s n = (j : ℕ) → s ≤ j → j < s + n → free j ≡ true

-- The first `wanted` free pages among `total` ones, counted from the address `start`; 0 if there are
-- not as many in a row.
pub data FirstFree (free : ℕ → Bool) (start total wanted : ℕ) : ℕ → Type 0 where
  nowhere :
      ((s : ℕ) → s + wanted ≤ total → ¬ AllFree free s wanted) → FirstFree free start total wanted 0
  at :
      (s : ℕ)
      → s + wanted ≤ total
      → AllFree free s wanted
      → ((s' : ℕ) → s' < s → ¬ AllFree free s' wanted)
      → FirstFree free start total wanted (start + s * 4096)

-- Before page `i`: `count` free pages end there, and no run starts before them.
record Scanned (free : ℕ → Bool) (wanted i count : ℕ) : Type 0 where
  short : count < wanted
  past : count ≤ i
  run : (j : ℕ) → i ≤ j + count → j < i → free j ≡ true
  blocked : (s : ℕ) → s + count < i → ¬ AllFree free s wanted

module _ (d wanted start total : ℕ) (free : ℕ → Bool) (k : Paging) (filled : 0 < wanted)
    (whole : start + total * 4096 ≡ user_heap_max)
    (reads : (i : ℕ) → i < total → is_free_page d (start + i * 4096) k ≡ ok (free i)) where
  abbrev begin_of : (i count : ℕ) → ℕ
  begin_of i count = if count == 0 then 0 else start + (i - count) * 4096

  one_more :
      (i count : ℕ)
      → free i ≡ true
      → Scanned free wanted i count
      → count + 1 < wanted
      → Scanned free wanted (i + 1) (count + 1)
  one_more i count here v less = record {
    short = less;
    past = omega (arith, v.past);
    run = λ j h l. elim (ℕ_discrete j i) [
      | yes e ↦ ap free e ∙ here
      | no ne ↦ v.run j (omega arith) (omega (arith, ne))
    ];
    blocked = λ s l. v.blocked s (omega arith);
  }

  taken :
      (i count : ℕ) → free i ≡ false → Scanned free wanted i count → Scanned free wanted (i + 1) 0
  taken i count here v = record {
    short = filled;
    past = omega arith;
    run = λ j h l. absurd (omega arith);
    blocked = λ s l all. elim (ℕ_discrete (s + count - i) 0) [
      | yes e ↦ elim (ℕ_discrete (s + count) i) [
        | yes on ↦ cc (here, all i (omega arith) (omega (arith, v.short)))
        | no off ↦ v.blocked s (omega (arith, e, off)) all
      ]
      | no ne ↦ cc (here, all i (omega arith) (omega (arith, v.short, ne)))
    ];
  }

  found :
      (i count : ℕ)
      → i < total
      → free i ≡ true
      → Scanned free wanted i count
      → wanted ≤ count + 1
      → FirstFree free start total wanted (start + (i - count) * 4096)
  found i count inside here v enough =
      at (i - count) (omega (arith, v.past, v.short, inside, enough))
        (λ j l h. elim (ℕ_discrete j i) [
          | yes e ↦ ap free e ∙ here
          | no ne ↦
              v.run j (omega (arith, v.past, l)) (omega (arith, ne, v.past, v.short, enough, h))
        ])
        (λ s' l. v.blocked s' (omega (arith, l)))

  begin_next :
      (i count : ℕ)
      → (if count == 0 then start + i * 4096 else begin_of i count) ≡ start + (i - count) * 4096
  begin_next i count = ground arith

  begin_after : (i count : ℕ) → start + (i - count) * 4096 ≡ begin_of (i + 1) (count + 1)
  begin_after i count = ground arith

  scan-suc :
      (fuel page count begin : ℕ) (b : Bool)
      → page < user_heap_max
      → is_free_page d page k ≡ ok b
      → scan (suc fuel) d wanted page count begin k ≡ (
          let count' = if b then count + 1 else 0 in
          let begin' = if b then if count == 0 then page else begin else 0 in
          if leb wanted count'
          then ok begin'
          else scan fuel d wanted (add32 page page_size) count' begin' k)
  unfolding scan
  scan-suc fuel page count begin b low r = rw (lt→ltb page user_heap_max low, r) refl

  scan_past :
      (fuel page count begin : ℕ)
      → user_heap_max ≤ page
      → scan (suc fuel) d wanted page count begin k ≡ ok 0
  unfolding scan
  scan_past fuel page count begin high = rw (le→ltb page user_heap_max high) refl

  scan-first :
      (fuel i count : ℕ)
      → i ≤ total
      → total < i + fuel
      → Scanned free wanted i count
      → Returns
          (FirstFree free start total wanted)
          (scan fuel d wanted (start + i * 4096) count (begin_of i count) k)
  scan-first zero i count inside enough v = absurd (omega arith)
  scan-first (suc fuel) i count inside enough v = elim (ℕ_discrete i total) [
    | yes e ↦
        rw (scan_past fuel (start + i * 4096) count (begin_of i count) (omega (arith, e)))
          (returns (nowhere λ s l. v.blocked s (omega (arith, e, v.short))))
    | no ne ↦
        let page = start + i * 4096 in
        let low : page < user_heap_max = omega (arith, ne) in
        let next : add32 page page_size ≡ start + (i + 1) * 4096 =
          add32_small page page_size (omega arith) ∙ omega arith in
        let less : i < total = omega (arith, ne) in
        elim (Bool-cases (free i)) [
          | inl here ↦
              let step =
                scan-suc fuel page count (begin_of i count) true low (reads i less ∙ ap ok here) in
              elim (Bool-cases (leb wanted (count + 1))) [
                | inl full ↦
                    rw (step, full, begin_next i count)
                      (returns (found i count less here v (leb→le wanted (count + 1) full)))
                | inr short ↦
                    rw (step, short, begin_next i count ∙ begin_after i count, next)
                      (scan-first fuel (i + 1) (count + 1) (omega arith) (omega arith)
                        (one_more i count here v (leb→lt wanted (count + 1) short)))
              ]
          | inr here ↦
              let step =
                scan-suc fuel page count (begin_of i count) false low (reads i less ∙ ap ok here) in
              let none_yet : leb wanted 0 ≡ false = ground arith in
              rw (step, none_yet, next)
                (scan-first fuel (i + 1) 0 (omega arith) (omega arith) (taken i count here v))
        ]
  ]

get_consecutive-scan :
    (size : ℕ) (e : UserEnv) (page : ℕ)
    → page ≡ add32 e.userh_hard_limit page_size
    → scan
        (user_heap_pages + 1)
        e.faulted.env_page_directory
        (size / page_size)
        page
        0
        0
        e.faulted.paging
      ≡ get_consecutive_free_pages size e
unfolding get_consecutive_free_pages
get_consecutive-scan size e page p =
    ap
      (λ x.
        scan (user_heap_pages + 1) e.faulted.env_page_directory (size / page_size) x 0 0
          e.faulted.paging)
      p

-- getConsecutiveFreePages for some whole pages answers, in an address space where it can tell of each
-- page whether it is free, with the lowest address from which that many pages are free behind the
-- limit of the block allocator and below USER_HEAP_MAX, and with NULL only if there is none.
pub get_consecutive_free_pages-FirstFree :
    (size total : ℕ) (e : UserEnv) (free : ℕ → Bool)
    → page_size ≤ size
    → e.userh_hard_limit + page_size + total * page_size ≡ user_heap_max
    → total ≤ user_heap_pages
    → ((i : ℕ)
        → i < total
        → is_free_page e.faulted.env_page_directory
            (e.userh_hard_limit + page_size + i * page_size)
            e.faulted.paging
          ≡ ok (free i))
    → Returns
        (FirstFree free (e.userh_hard_limit + page_size) total (size / page_size))
        (get_consecutive_free_pages size e)
get_consecutive_free_pages-FirstFree size total e free big whole few reads =
    let first : e.userh_hard_limit + page_size + 0 * 4096 ≡ add32 e.userh_hard_limit page_size =
      omega arith ∙ sym (add32_small e.userh_hard_limit page_size (omega arith)) in
    subst (Returns (FirstFree free (e.userh_hard_limit + page_size) total (size / page_size)))
      (get_consecutive-scan size e (e.userh_hard_limit + page_size + 0 * 4096) first)
      (scan-first e.faulted.env_page_directory (size / page_size) (e.userh_hard_limit + page_size)
        total free e.faulted.paging (omega arith) whole reads (user_heap_pages + 1) 0 0
        (omega arith) (omega arith)
        (record {
          short = omega arith;
          past = omega arith;
          run = λ j h l. absurd (omega arith);
          blocked = λ s l. absurd (omega arith);
        }))
