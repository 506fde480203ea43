-- ===== src/Sched/ExitNew.antt =====
-- `sched_exit_env` of kern/cpu/sched_helpers.c for an environment of the new queue.
use fos_fcis_operating_syste.Prelude.{
  ℕ, ◌≡◌, refl, ◌≢◌, inl, inr, Bool, true, false, List, [], ◌∷◌, ◌++◌, ◌==◌, arith, All, ne→==,
  eq→==, Run, ok, panic, panic_if, Returns, returns, Returns-bind, Bool-cases, ◌>>=◌,
}
use fos_fcis_operating_syste.Queue.Chain.{IsQueue, elements-IsQueue}
use fos_fcis_operating_syste.Queue.Remove.{remove-IsQueue}
use fos_fcis_operating_syste.Spinlock.Laws.{Steady, noted, holding_spinlock_lem}
use fos_fcis_operating_syste.Sched.Defs.{Sched, new_queue, env_new}
use fos_fcis_operating_syste.Sched.Ops.{
  sched_remove_new, sched_insert_exit, remove_all_new, exit_found, exit_search, sched_exit_env,
}
use fos_fcis_operating_syste.Sched.State.{
  Locked, Outside, expect_qlock-Locked, acquire_qlock-Outside, locked,
}

-- What follows a run that returns.
Returns-panic :
    {X Y : Type 0} {Post : X → Type 0} {run : Run X} (next : X → Run Y)
    → Returns Post run
    → ((x : X) → Post x → next x ≡ panic)
    → (run >>= next) ≡ panic
Returns-panic next (returns holds) stops = stops _ holds

remove_new_lem :
    (k : Sched) (xs : List ℕ) (x : ℕ) (ys : List ℕ)
    → Locked k
    → IsQueue (new_queue k) (xs ++ (x ∷ ys))
    → k.env_status x ≡ env_new
    → x ≢ 0
    → Returns (λ k'. Locked k' × (k'.env_id ≡ k.env_id)) (sched_remove_new x k)
unfolding sched_remove_new panic_if
remove_new_lem k xs x ys l v new nz =
    rw (expect_qlock-Locked k l, ne→== x 0 nz, new)
      (Returns-bind (remove-IsQueue xs x ys v) λ q listed.
        returns
          (record { held = l.held; inside = l.inside; shallow = l.shallow; off = l.off }, refl))

-- Environments with other ids stay where they are.
remove_all_new-others :
    (id : ℕ) (es : List ℕ) (found : Bool) (k : Sched)
    → All (λ e. k.env_id e ≢ id) es
    → remove_all_new id es found k ≡ ok (found, k)
unfolding remove_all_new
remove_all_new-others id [] found k others = refl
remove_all_new-others id (e ∷ es) found k others =
    rw (ne→== (k.env_id e) id others.0, remove_all_new-others id es found k others.1)

remove_all_new-one :
    (id x : ℕ) (xs ys : List ℕ) (k : Sched)
    → All (λ e. k.env_id e ≢ id) xs
    → k.env_id x ≡ id
    → remove_all_new id (xs ++ (x ∷ ys)) false k
      ≡ (sched_remove_new x k >>= remove_all_new id ys true)
unfolding remove_all_new
remove_all_new-one id x [] ys k others here = rw (eq→== (k.env_id x) id here)
remove_all_new-one id x (e ∷ xs) ys k others here =
    rw (ne→== (k.env_id e) id others.0, remove_all_new-one id x xs ys k others.1 here)

-- NULL enters no queue.
exit_search-found : (id : ℕ) (k : Sched) → Locked k → exit_search id true k ≡ panic
unfolding exit_search exit_found sched_insert_exit panic_if
exit_search-found id k l = elim (Bool-cases (k.cpu.proc == 0)) [
  | inl none ↦ rw none
  | inr some ↦ rw (some, expect_qlock-Locked k l)
]

-- `sched_exit_env` of an environment in the new queue panics, whichever environment runs: the loop
-- over that queue removes it, but leaves NULL for the exit queue.
pub sched_exit_env-new :
    (id : ℕ) (k : Sched) (xs : List ℕ) (x : ℕ) (ys : List ℕ)
    → Outside k
    → IsQueue (new_queue k) (xs ++ (x ∷ ys))
    → k.env_status x ≡ env_new
    → x ≢ 0
    → k.env_id x ≡ id
    → All (λ e. k.env_id e ≢ id) xs
    → All (λ e. k.env_id e ≢ id) ys
    → sched_exit_env id k ≡ panic
unfolding sched_exit_env
sched_exit_env-new id k xs x ys o v new nz here before behind =
    let steady : Steady k.cpu = record { quiet = inl o.depth; shallow = omega (arith, o.depth) } in
    let k0 = record k { cpu = noted k.cpu } in
    let l : Locked (locked k0) = record {
      held = (refl, refl);
      inside = omega arith;
      shallow = omega arith;
      off = refl;
    } in
    let o0 : Outside k0 = record { free = o.free; depth = o.depth } in
    let removed =
      Returns-bind {Then = λ (found, k2). (found ≡ true) × Locked k2}
        (remove_new_lem (locked k0) xs x ys l v new nz)
        λ k1 (l1, same).
          rw (remove_all_new-others id ys true k1 (rw same behind)) (returns (refl, l1)) in
    rw
      (
        holding_spinlock_lem k.qlock k.cpu steady,
        eq→== k.qlock.locked 0 o.free,
        acquire_qlock-Outside k0 o0,
        elements-IsQueue v,
        remove_all_new-one id x xs ys (locked k0) before here,
      )
      (Returns-panic _ removed λ (found, k2) (in_new, l2). rw (in_new, exit_search-found id k2 l2))
