-- ===== src/UserHeap/Reserve.antt =====
-- allocate_user_mem of kern/mem/chunk_operations.c reserves its pages.
use fos_fcis_operating_syste.Prelude.{
  bit-page, ℕ, zero, suc, ◌+◌, ◌-◌, ◌*◌, ◌%◌, ◌<◌, ◌≡◌, refl, ap, ◌∙◌, subst, ◌≢◌, Bool, true,
  false, not, ◌&&◌, ◌==◌, if◌then◌else◌, arith, word_mod, sub32, add32_small, page_size, bit, ne→==,
  ok, Run, ◌>>=◌, Returns, returns, Returns-bind, Returns-mono,
}
use native.Mathlib.Decide.{ℕ_discrete}
use fos_fcis_operating_syste.Paging.{Paging, get_page_table, pt_get_page_permissions}
use fos_fcis_operating_syste.Paging.Cycle.{pt_set_page_permissions-Changed}
use fos_fcis_operating_syste.Fault.Clock.{Resident, entry_of}
use fos_fcis_operating_syste.Fault.Sweeps.{permissions_of}
use fos_fcis_operating_syste.UserHeap.Defs.{is_free_page, reserve_page, allocate_user_mem}
use fos_fcis_operating_syste.UserHeap.Marks.{
  Marked, Marked-refl, Marked-trans, reserved_bit, Changed-Marked,
}

abbrev free_of : Run (Bool × ℕ) → Run ℕ → Run Bool
free_of place permissions = place >>= λ (present, t).
    if t == 0 then ok true else (permissions >>= λ p. ok (not (bit 10 p) && not (bit 11 p)))

is_free_page-free_of :
    (d va : ℕ) (k : Paging)
    → is_free_page d va k ≡ free_of (get_page_table d va k) (pt_get_page_permissions d va k)
unfolding is_free_page
is_free_page-free_of d va k = refl

-- Whether a page with a table is free, by its entry.
abbrev pub free_entry : ℕ → Bool
free_entry x = not (bit 10 x) && not (bit 11 x)

free_of-ok : (t x : ℕ) → t ≢ 0 → free_of (ok (true, t)) (ok (x % 4096)) ≡ ok (free_entry x)
free_of-ok t x h = rw (ne→== t 0 h, bit-page 10 x (omega arith), bit-page 11 x (omega arith)) refl

pub is_free_page-entry :
    (d va : ℕ) (k : Paging)
    → Resident d va k
    → is_free_page d va k ≡ ok (free_entry (entry_of d va k))
is_free_page-entry d va k r =
    is_free_page-free_of d va k
    ∙ ap (free_of (get_page_table d va k)) (permissions_of d va k r)
    ∙ ap (λ g. free_of g (ok (entry_of d va k % 4096))) r.at.0
    ∙ free_of-ok r.table (entry_of d va k) r.at.1

-- A page that is reserved is not free.
reserved-page :
    (d va : ℕ) (k : Paging)
    → Resident d va k
    → bit 10 (entry_of d va k) ≡ true
    → is_free_page d va k ≡ ok false
reserved-page d va k r h =
    is_free_page-entry d va k r ∙ ap (λ b. ok (not b && not (bit 11 (entry_of d va k)))) h

module _ (kmalloc : ℕ → Paging → Run (ℕ × Paging)) (kernel d : ℕ) where
  reserve_page-Marked :
      (va : ℕ) (k : Paging)
      → Resident d va k
      → Returns
          (λ k'. Marked d k k' × (bit 10 (entry_of d va k') ≡ true))
          (reserve_page kmalloc kernel d va k)
  unfolding reserve_page
  reserve_page-Marked va k r =
      rw (r.at.0, ne→== r.table 0 r.at.1)
        (Returns-mono
          (pt_set_page_permissions-Changed d va r.table 1028 0 k r.at (omega arith) (omega arith)
            r.word)
          λ k' c. (Changed-Marked d va r.table k k' r.at c, reserved_bit d va r.table k k' r.at c))

  allocate-suc :
      (fuel n va : ℕ) (k : Paging)
      → va + suc n * 4096 < word_mod
      → allocate_user_mem kmalloc kernel (suc fuel) d va (suc n * 4096) k ≡ (
          reserve_page kmalloc kernel d va k
          >>= allocate_user_mem kmalloc kernel fuel d (va + 4096) (n * 4096))
  unfolding allocate_user_mem sub32
  allocate-suc fuel n va k room =
      let left : (suc n * 4096 + word_mod - page_size) % word_mod ≡ n * 4096 = omega arith in
      rw (ne→== (suc n * 4096) 0 (omega arith), add32_small va page_size (omega arith), left) refl

  allocate-zero :
      (fuel va : ℕ) (k : Paging) → allocate_user_mem kmalloc kernel (suc fuel) d va 0 k ≡ ok k
  unfolding allocate_user_mem
  allocate-zero fuel va k = refl

  -- allocate_user_mem of whole pages whose tables are in memory returns with all of them reserved, so
  -- that none is free. Of no entry another bit than these and PERM_USER has changed, and no bit was
  -- cleared; frames, directories and the free list are as before.
  pub allocate_user_mem-Reserved :
      (n fuel va : ℕ) (k : Paging)
      → n < fuel
      → va + n * 4096 < word_mod
      → ((i : ℕ) → i < n → Resident d (va + i * 4096) k)
      → Returns
          (λ k'. Marked d k k' × ((i : ℕ) → i < n → is_free_page d (va + i * 4096) k' ≡ ok false))
          (allocate_user_mem kmalloc kernel fuel d va (n * 4096) k)
  allocate_user_mem-Reserved n zero va k enough room all = absurd (omega arith)
  allocate_user_mem-Reserved zero (suc fuel) va k enough room all =
      rw (allocate-zero fuel va k) (returns (Marked-refl d k, λ i h. absurd (omega arith)))
  allocate_user_mem-Reserved (suc n) (suc fuel) va k enough room all =
      let here : Resident d va k =
        subst (λ x. Resident d x k) (omega arith) (all 0 (omega arith)) in
      rw (allocate-suc fuel n va k room) (
        Returns-bind (reserve_page-Marked va k here) λ k1 (m, bit_set).
          let later : (i : ℕ) → i < n → Resident d (va + 4096 + i * 4096) k1 = λ i h.
            m.resident (va + 4096 + i * 4096)
              (subst (λ x. Resident d x k) (omega arith) (all (i + 1) (omega (arith, h)))) in
          Returns-mono
            (allocate_user_mem-Reserved n fuel (va + 4096) k1 (omega arith) (omega arith) later)
            λ k2 (m2, rest). (
              Marked-trans m m2,
              λ i h. elim (ℕ_discrete i 0) [
                | yes e ↦
                    subst (λ x. is_free_page d x k2 ≡ ok false) (omega (arith, e))
                      (reserved-page d va k2 (m2.resident va (m.resident va here))
                        (m2.set va 10 (m.resident va here) (omega arith) bit_set))
                | no ne ↦
                    subst (λ x. is_free_page d x k2 ≡ ok false) (omega (arith, ne))
                      (rest (i - 1) (omega (arith, ne, h)))
              ],
            ))
