-- ===== src/Conc/WakeOne.antt =====
-- `wakeup_one` of kern/conc/channel.c makes the oldest environment of a channel ready.
use fos_fcis_operating_syste.Prelude.{ℕ, ◌≡◌, List, [], ◌∷◌, ◌++◌}
use fos_fcis_operating_syste.Spinlock.{init_spinlock}
use fos_fcis_operating_syste.Spinlock.Laws.{noted}
use fos_fcis_operating_syste.Sched.{Head, Sched}
use fos_fcis_operating_syste.Conc.Wakeup.{Waiting}

-- Of those that wait the oldest, if there is one, waits no more.
pub data FirstOut : (before after woken : List ℕ) → Type 0 where
  none_waits : FirstOut [] [] []
  oldest : (ys : List ℕ) (x : ℕ) → FirstOut (ys ++ (x ∷ [])) ys (x ∷ [])

-- What is woken is the youngest ready environment.
pub record Promoted (chan : Head) (k : Sched) (xs rs : List ℕ) : Type 0 where
  pub after : List ℕ
  pub woken : List ℕ
  pub order : FirstOut xs after woken
  pub waiting : Waiting chan k after (woken ++ rs)

-- Besides, the lock on the queues is free again.
pub record WokenOne (chan : Head) (k k' : Sched) (xs rs : List ℕ) : Type 0 where
  pub promoted : Promoted chan k' xs rs
  pub cpu : k'.cpu ≡ noted k.cpu
  pub qlock : k'.qlock ≡ init_spinlock
  pub env_id : k'.env_id ≡ k.env_id
