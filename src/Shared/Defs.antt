-- ===== src/Shared/Defs.antt =====
-- The shared objects of kern/mem/shared_memory_manager.c. The lock on their list, which each
-- operation takes and gives back, is not part of the state.
use fos_fcis_operating_syste.Prelude.{
  ℕ, ◌-◌, ◌*◌, ◌/◌, ◌%◌, ◌^◌, Bool, true, false, ◌&&◌, Option, none, some, List, [], ◌∷◌, ◌==◌,
  if◌then◌else◌, word_mod, page_size, Run, ok, ◌>>=◌,
}
use fos_fcis_operating_syste.DynAlloc.{round_up}
use fos_fcis_operating_syste.Paging.{Paging}

-- struct Share, with its address in place of its links; its name without the 0 at the end.
pub record Share : Type 0 where
  pub node : ℕ
  pub id : ℕ
  pub owner_id : ℕ
  pub name : List ℕ
  pub size : ℕ
  pub references : ℕ
  pub is_writable : ℕ
  pub storage : ℕ
  pub frames_storage : ℕ → ℕ

-- The memory, with the page directory of the calling environment, and AllShares.shares_list
pub record Sharing : Type 0 where
  pub paging : Paging
  pub env_page_directory : ℕ
  pub shares_list : List Share

-- Error codes of inc/error.h, as patterns of an `int`
abbrev pub e_no_mem : ℕ
e_no_mem = 2 ^ 32 - 4

abbrev pub e_no_share : ℕ
e_no_share = 2 ^ 32 - 14

abbrev pub e_shared_mem_exists : ℕ
e_shared_mem_exists = 2 ^ 32 - 15

abbrev pub e_shared_mem_not_exists : ℕ
e_shared_mem_not_exists = 2 ^ 32 - 16

-- strcmp(...) == 0
unfoldable pub same_name : List ℕ → List ℕ → Bool
same_name [] [] = true
same_name [] (y ∷ ys) = false
same_name (x ∷ xs) [] = false
same_name (x ∷ xs) (y ∷ ys) = let rest = same_name xs ys in (x == y) && rest

-- get_share
unfoldable pub find_share : (owner : ℕ) → List ℕ → List Share → Option Share
unfolding same_name
find_share owner name [] = none
find_share owner name (x ∷ xs) =
    let later = find_share owner name xs in
    if (x.owner_id == owner) && same_name x.name name then some x else later

unfoldable pub get_share : (owner : ℕ) → List ℕ → Sharing → Option Share
unfolding find_share
get_share owner name s = find_share owner name s.shares_list

-- getSizeOfSharedObject
unfoldable pub size_or_error : Option Share → ℕ
size_or_error none = e_shared_mem_not_exists
size_or_error (some x) = x.size

unfoldable pub get_size_of_shared_object : (owner : ℕ) → List ℕ → Sharing → ℕ
unfolding get_share size_or_error
get_size_of_shared_object owner name s = size_or_error (get_share owner name s)

-- The object of freeSharedObject, by its ID
unfoldable pub find_id : ℕ → List Share → Option Share
find_id id [] = none
find_id id (x ∷ xs) = let later = find_id id xs in if x.id == id then some x else later

-- A write through the pointer to a shared object
unfoldable pub write_share : Share → List Share → List Share
write_share v [] = []
write_share v (x ∷ xs) =
    let rest = write_share v xs in if x.node == v.node then v ∷ xs else x ∷ rest

unfoldable pub set_share : Share → Sharing → Sharing
unfolding write_share
set_share v s = record s { shares_list = write_share v s.shares_list }

-- LIST_REMOVE of a shared object
unfoldable pub remove_share : ℕ → List Share → List Share
remove_share a [] = []
remove_share a (x ∷ xs) = let rest = remove_share a xs in if x.node == a then xs else x ∷ rest

-- The size of a struct Share
abbrev pub share_size : ℕ
share_size = 96

module _ (kmalloc : ℕ → Paging → Run (ℕ × Paging)) (kfree : ℕ → Paging → Run Paging) where
  -- create_frames_storage
  unfoldable pub create_frames_storage : ℕ → Paging → Run (ℕ × Paging)
  create_frames_storage n k = kmalloc (n * 4 % word_mod) k

  -- create_share; NULL is none. The ID is the address without its highest bit.
  unfoldable pub create_share :
      (owner : ℕ) (name : List ℕ) (size writable : ℕ) → Paging → Run (Option Share × Paging)
  create_share owner name size writable k = kmalloc share_size k >>= λ (a, k1).
      let filled = create_frames_storage (round_up size page_size / page_size) k1 >>= λ (b, k2).
      if b == 0
      then (kfree a k2 >>= λ k3. ok (none, k3))
      else ok (
        some (record {
          node = a;
          id = a % 2 ^ 31;
          owner_id = owner;
          name = name;
          size = size;
          references = 1;
          is_writable = writable;
          storage = b;
          frames_storage = λ i. 0;
        }),
        k2,
      ) in
      if a == 0 then ok (none, k1) else filled
