-- ===== src/Fault/Defs.antt =====
-- The state of the page fault handler of kern/trap/fault_handler.c, and the N-chance clock.
use fos_fcis_operating_syste.Prelude.{
  ℕ, zero, suc, ◌+◌, ◌^◌, Bool, not, ◌&&◌, ◌||◌, Option, none, some, List, [], ◌∷◌, leb, ◌==◌,
  if◌then◌else◌, length, add32, sub32, bit, Run, ok, panic, out_of_fuel, ◌>>=◌,
}
use fos_fcis_operating_syste.Paging.{Paging, pt_get_page_permissions, pt_set_page_permissions}

-- struct WorkingSetElement, with its address in place of its links
pub record WsElement : Type 0 where
  pub node : ℕ
  pub virtual_address : ℕ
  pub time_stamp : ℕ
  pub sweeps_counter : ℕ

-- What the handler uses of an environment, and the memory: `page_last_ws_element` is a position in
-- `page_ws_list`.
pub record Faulted : Type 0 where
  pub paging : Paging
  pub env_page_directory : ℕ
  pub page_ws_list : List WsElement
  pub page_ws_max_size : ℕ
  pub page_last_ws_element : ℕ

-- How a run of the handler ends.
pub data Outcome : Type 0 where
  handled : Faulted → Outcome
  exited : Faulted → Outcome

-- USER_HEAP_START, USER_HEAP_MAX, USTACKBOTTOM, USTACKTOP and USER_LIMIT of inc/memlayout.h
abbrev pub user_heap_start : ℕ
user_heap_start = 0x80000000

abbrev pub user_heap_max : ℕ
user_heap_max = 0xA0000000

abbrev pub ustack_bottom : ℕ
ustack_bottom = 0xA0062000

abbrev pub ustack_top : ℕ
ustack_top = 0xEEBFE000

abbrev pub user_limit : ℕ
user_limit = 0xEF800000

-- The element at a position, and the list with another one there.
abbrev pub get_elem? {ℓ} : {A : Type ℓ} → List A → ℕ → Option A
get_elem? [] i = none
get_elem? (x ∷ xs) zero = some x
get_elem? (x ∷ xs) (suc i) = get_elem? xs i

abbrev pub set {ℓ} : {A : Type ℓ} → List A → ℕ → A → List A
set [] i v = []
set (x ∷ xs) zero v = v ∷ xs
set (x ∷ xs) (suc i) v = x ∷ set xs i v

-- `page_WS_max_sweeps` is the pattern of an `int`.
abbrev pub is_negative : ℕ → Bool
is_negative n = leb (2 ^ 31) n

-- The test that replaces the page under the hand, on its permissions and its new counter.
unfoldable pub is_victim : ℕ → ℕ → ℕ → Bool
unfolding bit add32 sub32
is_victim max_sweeps permissions counter =
    if is_negative max_sweeps
    then (bit 6 permissions && (counter == add32 (sub32 0 max_sweeps) 1))
      || (not (bit 6 permissions) && (counter == sub32 0 max_sweeps))
    else leb max_sweeps counter

-- The hand moves to the next element, and from the last to the first.
unfoldable pub advance : Faulted → Faulted
advance s = record s {
  page_last_ws_element =
      if s.page_last_ws_element + 1 == length s.page_ws_list then 0 else s.page_last_ws_element + 1;
}

-- The page under the hand has been used: it gets another chance.
unfoldable pub give_chance : WsElement → Faulted → Run Faulted
unfolding pt_set_page_permissions
give_chance e s =
    pt_set_page_permissions s.env_page_directory e.virtual_address 0 0x20 s.paging >>= λ k.
    ok (record s {
      paging = k;
      page_ws_list = set s.page_ws_list s.page_last_ws_element (record e { sweeps_counter = 0 });
    })

-- It has not: its counter goes up.
unfoldable pub count_sweep : WsElement → Faulted → Faulted
unfolding add32
count_sweep e s = record s {
  page_ws_list =
      set s.page_ws_list s.page_last_ws_element
        (record e { sweeps_counter = add32 e.sweeps_counter 1 });
}

-- A round on the page under the hand, by its permissions; `next` makes the other rounds.
unfoldable pub judge :
    (Faulted → Run (Faulted × WsElement × ℕ))
    → ℕ
    → Faulted
    → WsElement
    → ℕ
    → Run (Faulted × WsElement × ℕ)
judge next max_sweeps s e permissions =
    let rest = next (advance (count_sweep e s)) in
    if bit 5 permissions
    then (give_chance e s >>= λ s1. next (advance s1))
    else if is_victim max_sweeps permissions (add32 e.sweeps_counter 1)
    then ok (count_sweep e s, record e { sweeps_counter = add32 e.sweeps_counter 1 }, permissions)
    else rest

-- A round; the hand of a working set that is not empty points to an element.
unfoldable pub visit :
    (Faulted → Run (Faulted × WsElement × ℕ))
    → ℕ
    → Faulted
    → Option WsElement
    → Run (Faulted × WsElement × ℕ)
visit next max_sweeps s none = panic
visit next max_sweeps s (some e) =
    pt_get_page_permissions s.env_page_directory e.virtual_address s.paging
    >>= judge next max_sweeps s e

-- The rounds of the replacement loop up to the victim, which is then under the hand with its new
-- counter; its permissions are the third result.
unfoldable pub find_victim : ℕ → ℕ → Faulted → Run (Faulted × WsElement × ℕ)
find_victim zero max_sweeps s = out_of_fuel
find_victim (suc fuel) max_sweeps s =
    visit (find_victim fuel max_sweeps) max_sweeps s
      (get_elem? s.page_ws_list s.page_last_ws_element)
