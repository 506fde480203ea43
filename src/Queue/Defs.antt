-- ===== src/Queue/Defs.antt =====
-- The LIST_* macros of inc/queue.h.
use fos_fcis_operating_syste.Prelude.{
  ℕ, zero, suc, List, [], ◌∷◌, ◌==◌, if◌then◌else◌, add32, sub32, Run, ok, panic, out_of_fuel,
  ◌>>=◌, panic_if, ◌||◌, ◌+◌,
}

-- A field of every element, updated at one address.
unfoldable pub write : (ℕ → ℕ) → ℕ → ℕ → ℕ → ℕ
write f a v x = if x == a then v else f x

-- LIST_HEAD, and the LIST_ENTRY fields `le_next` and `le_prev` of all elements.
pub record Queue : Type 0 where
  pub first : ℕ
  pub last : ℕ
  pub size : ℕ
  pub next : ℕ → ℕ
  pub prev : ℕ → ℕ

-- LIST_INIT
unfoldable pub init : Queue → Queue
init q = record q { first = 0; last = 0; size = 0 }

-- LIST_INSERT_AFTER
unfoldable pub insert_after : Queue → ℕ → ℕ → Run Queue
unfolding write add32 panic_if
insert_after q at_elem elem = panic_if (at_elem == 0 || elem == 0) (
    let after = q.next at_elem in
    let next1 = write q.next elem after in
    let prev1 = if after == 0 then q.prev else write q.prev after elem in
    let next2 = write next1 at_elem elem in
    let prev2 = write prev1 elem at_elem in
    record {
      first = q.first;
      last = if next2 elem == 0 then elem else q.last;
      size = add32 q.size 1;
      next = next2;
      prev = prev2;
    })

-- LIST_INSERT_BEFORE
unfoldable pub insert_before : Queue → ℕ → ℕ → Run Queue
unfolding write add32 panic_if
insert_before q at_elem elem = panic_if (at_elem == 0 || elem == 0) (
    let before = q.prev at_elem in
    let prev1 = write q.prev elem before in
    let next1 = write q.next elem at_elem in
    record {
      first = if prev1 at_elem == 0 then elem else q.first;
      last = q.last;
      size = add32 q.size 1;
      next = if prev1 at_elem == 0 then next1 else write next1 (prev1 at_elem) elem;
      prev = write prev1 at_elem elem;
    })

-- LIST_INSERT_HEAD
unfoldable pub insert_head : Queue → ℕ → Run Queue
unfolding write add32 panic_if
insert_head q elem = panic_if (elem == 0) (record {
  first = elem;
  last = if q.first == 0 then elem else q.last;
  size = add32 q.size 1;
  next = write q.next elem q.first;
  prev = write (if q.first == 0 then q.prev else write q.prev q.first elem) elem 0;
})

-- LIST_INSERT_TAIL
unfoldable pub insert_tail : Queue → ℕ → Run Queue
unfolding write add32 panic_if
insert_tail q elem = panic_if (elem == 0) (record {
  first = if q.last == 0 then elem else q.first;
  last = elem;
  size = add32 q.size 1;
  next = write (if q.last == 0 then q.next else write q.next q.last elem) elem 0;
  prev = write q.prev elem q.last;
})

-- LIST_REMOVE
unfoldable pub remove : Queue → ℕ → Run Queue
unfolding write sub32 panic_if
remove q elem = panic_if (elem == 0) (
    let after = q.next elem in
    let prev1 = if after == 0 then q.prev else write q.prev after (q.prev elem) in
    let last1 = if after == 0 then q.prev elem else q.last in
    let before = prev1 elem in
    record {
      first = if before == 0 then q.next elem else q.first;
      last = last1;
      size = sub32 q.size 1;
      next = write (if before == 0 then q.next else write q.next before (q.next elem)) elem 0;
      prev = write prev1 elem 0;
    })

-- LIST_CONCAT, with the heads apart and the link fields of both lists' elements in the first.
unfoldable pub concat : Queue → Queue → Queue × Queue
unfolding write add32
concat q r =
    if q.first == 0
    then (record q { first = r.first; last = r.last; size = add32 q.size r.size }, r)
    else if r.first == 0
    then (record q { size = add32 q.size r.size }, r)
    else let next1 = write q.next q.last r.first in
      let prev1 = write q.prev r.first q.last in
      let emptied = record r { first = 0; last = 0; size = 0 } in
      (
        record q { last = r.last; size = add32 q.size emptied.size; next = next1; prev = prev1 },
        emptied,
      )

-- LIST_FOREACH: from `lh_first` along `le_next` until NULL. It fetches the successor before the body
-- runs, so the body may remove the element. The size of the list plays no part in it.
unfoldable pub walk : ℕ → (ℕ → ℕ) → ℕ → Run (List ℕ)
walk zero next x = out_of_fuel
walk (suc fuel) next x =
    let rest = walk fuel next (next x) >>= λ xs. ok (x ∷ xs) in if x == 0 then ok [] else rest

-- The elements in the order in which a LIST_FOREACH that comes to its end has visited them.
unfoldable pub visited : Run (List ℕ) → List ℕ
visited (ok xs) = xs
visited panic = []
visited out_of_fuel = []

-- The elements that LIST_FOREACH visits: one round for each that the list counts, and the one that
-- finds NULL, are the fuel.
unfoldable pub elements : Queue → List ℕ
unfolding walk visited
elements q = visited (walk (q.size + 1) q.next q.first)
