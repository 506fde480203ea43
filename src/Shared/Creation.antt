-- ===== src/Shared/Creation.antt =====
-- smalloc of lib/uheap.c where there are not enough frames.
use fos_fcis_operating_syste.Prelude.{
  ℕ, ◌*◌, ◌/◌, ◌%◌, ◌^◌, ◌<◌, ◌≡◌, refl, ◌≢◌, true, none, some, List, [], ◌∷◌, length, word_mod,
  page_size, eq→==, ne→==, lt→ltb, ok, Run, Returns, returns,
}
use fos_fcis_operating_syste.DynAlloc.{round_up}
use fos_fcis_operating_syste.Paging.{Paging}
use fos_fcis_operating_syste.UserHeap.{get_consecutive_free_pages}
use fos_fcis_operating_syste.Shared.Defs.{
  Share, Sharing, e_no_share, share_size, same_name, find_share, get_share, create_frames_storage,
  create_share,
}
use fos_fcis_operating_syste.Shared.Ops.{register, create_new, create_shared_object}
use fos_fcis_operating_syste.Shared.Calls.{SharedHeap, enter_call, leave_call, set_id, smalloc}

same_name_refl : (name : List ℕ) → same_name name name ≡ true
unfolding same_name
same_name_refl [] = refl
same_name_refl (x ∷ xs) = rw (eq→== x x refl, same_name_refl xs) refl

pub find_share-head : (v : Share) (vs : List Share) → find_share v.owner_id v.name (v ∷ vs) ≡ some v
unfolding find_share
find_share-head v vs = rw (eq→== v.owner_id v.owner_id refl, same_name_refl v.name) refl

-- The number of frames that an object of `bytes` needs.
abbrev pub frames_for : ℕ → ℕ
frames_for bytes = round_up bytes page_size / page_size

-- A new object for the caller, without any frame.
abbrev pub unbacked : (owner : ℕ) (name : List ℕ) (bytes writable a b : ℕ) → Share
unbacked owner name bytes writable a b = record {
  node = a;
  id = a % 2 ^ 31;
  owner_id = owner;
  name = name;
  size = bytes;
  references = 1;
  is_writable = writable;
  storage = b;
  frames_storage = λ i. 0;
}

module _ (kmalloc : ℕ → Paging → Run (ℕ × Paging)) (kernel : ℕ)
    (kfree : ℕ → Paging → Run Paging) where
  pub create_share-unbacked :
      (owner : ℕ) (name : List ℕ) (bytes writable a b : ℕ) (k k1 k2 : Paging)
      → kmalloc share_size k ≡ ok (a, k1)
      → a ≢ 0
      → kmalloc (frames_for bytes * 4 % word_mod) k1 ≡ ok (b, k2)
      → b ≢ 0
      → create_share kmalloc kfree owner name bytes writable k
        ≡ ok (some (unbacked owner name bytes writable a b), k2)
  unfolding create_share create_frames_storage
  create_share-unbacked owner name bytes writable a b k k1 k2 first a_nz second b_nz =
      rw (first, ne→== a 0 a_nz, second, ne→== b 0 b_nz) refl

  register-short :
      (bytes va : ℕ) (s : Sharing) (v : Share)
      → length s.paging.free_frame_list < bytes / page_size
      → register kmalloc kernel kfree bytes va s (some v)
        ≡ ok (e_no_share, record s { shares_list = v ∷ s.shares_list })
  unfolding register
  register-short bytes va s v short =
      rw (lt→ltb (length s.paging.free_frame_list) (bytes / page_size) short) refl

  create_shared_object-short :
      (owner : ℕ) (name : List ℕ) (bytes writable va a b : ℕ) (s : Sharing) (k1 k2 : Paging)
      → get_share owner name s ≡ none
      → kmalloc share_size s.paging ≡ ok (a, k1)
      → a ≢ 0
      → kmalloc (frames_for bytes * 4 % word_mod) k1 ≡ ok (b, k2)
      → b ≢ 0
      → length k2.free_frame_list < bytes / page_size
      → create_shared_object kmalloc kernel kfree owner name bytes writable va s
        ≡ ok (
          e_no_share,
          record s {
            paging = k2;
            shares_list = unbacked owner name bytes writable a b ∷ s.shares_list;
          },
        )
  unfolding create_shared_object create_new
  create_shared_object-short owner name bytes writable va a b s k1 k2 free first a_nz second b_nz
        short =
      rw
        (
          free,
          create_share-unbacked owner name bytes writable a b s.paging k1 k2 first a_nz second b_nz,
          register-short bytes va (record s { paging = k2 })
              (unbacked owner name bytes writable a b) short,
        )
        refl

  -- smalloc of some bytes where as many pages in a row are free, the name is not taken and kmalloc
  -- hands out the object and its array, but there are fewer free frames than pages, answers the
  -- address of the pages all the same. No page has been given a frame, and the name is taken by an
  -- object without frames.
  pub smalloc-unbacked :
      (name : List ℕ) (size writable va a b : ℕ) (u : SharedHeap) (k1 k2 : Paging)
      → size ≢ 0
      → get_consecutive_free_pages (round_up size page_size) u.env ≡ ok va
      → va ≢ 0
      → find_share u.env_id name u.shares_list ≡ none
      → kmalloc share_size u.env.faulted.paging ≡ ok (a, k1)
      → a ≢ 0
      → kmalloc (frames_for (round_up size page_size) * 4 % word_mod) k1 ≡ ok (b, k2)
      → b ≢ 0
      → length k2.free_frame_list < round_up size page_size / page_size
      → Returns
          (λ (answer, u').
            (answer ≡ va)
            × (u'.env.faulted.paging ≡ k2)
            × (find_share u.env_id name u'.shares_list
                ≡ some (unbacked u.env_id name (round_up size page_size) writable a b)))
          (smalloc kmalloc kernel kfree name size writable u)
  unfolding smalloc enter_call leave_call set_id get_share
  smalloc-unbacked name size writable va a b u k1 k2 filled search va_nz free first a_nz second b_nz
        short =
      let bytes = round_up size page_size in
      rw
        (
          ne→== size 0 filled,
          search,
          ne→== va 0 va_nz,
          create_shared_object-short u.env_id name bytes writable va a b (enter_call u) k1 k2 free
              first a_nz second b_nz short,
        )
        (returns
          (refl, refl, find_share-head (unbacked u.env_id name bytes writable a b) u.shares_list))
