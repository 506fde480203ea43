-- ===== src/Conc/Wakeup.antt =====
-- `wakeup_all` of kern/conc/channel.c makes every environment of a channel ready.
use fos_fcis_operating_syste.Prelude.{
  ℕ, zero, suc, ◌+◌, ◌<◌, ◌≡◌, refl, ◌∙◌, ◌≢◌, true, false, List, [], ◌∷◌, ◌++◌, ◌==◌, word_mod,
  length, length-append, arith, append_assoc, ne→==, eq→==, panic_if, Returns, returns,
  Returns-bind, Returns-mono,
}
use fos_fcis_operating_syste.Queue.Chain.{Absent, Apart, IsQueue}
use fos_fcis_operating_syste.Queue.Insert.{Apart-cons}
use fos_fcis_operating_syste.Queue.Keeps.{Keeps, Apart-prefix, Apart-sym}
use fos_fcis_operating_syste.Sched.{
  Head, Sched, queue_at, ready_queue, set_status, env_ready, queue_size, sched_insert_ready0,
}
use fos_fcis_operating_syste.Sched.Fifo.{
  Last, empty, snoc, Last-of, enqueue-IsQueue, dequeue-IsQueue,
}
use fos_fcis_operating_syste.Sched.State.{Locked, expect_qlock-Locked}
use fos_fcis_operating_syste.Sched.RoundRobin.{last-Absent}
use fos_fcis_operating_syste.Conc.Defs.{set_links, wake_last, wake_each}

-- `xs` wait on the channel, `rs` are ready.
pub record Waiting (chan : Head) (k : Sched) (xs rs : List ℕ) : Type 0 where
  pub blocked : IsQueue (queue_at chan k) xs
  pub ready : IsQueue (ready_queue 0 k) rs
  pub apart : Apart rs xs
  pub room : length xs + length rs < word_mod

-- The lock, the CPU and the ids are as they were.
pub record SameCpu (k k' : Sched) : Type 0 where
  pub cpu : k'.cpu ≡ k.cpu
  pub qlock : k'.qlock ≡ k.qlock
  pub env_id : k'.env_id ≡ k.env_id

pub SameCpu-Locked : {k k' : Sched} → SameCpu k k' → Locked k → Locked k'
SameCpu-Locked s l = record {
  held = rw (s.qlock) l.held;
  inside = rw (s.cpu) l.inside;
  shallow = rw (s.cpu) l.shallow;
  off = rw (s.cpu) l.off;
}

insert_ready0_lem :
    (k : Sched) (rs : List ℕ) (x : ℕ)
    → Locked k
    → IsQueue (ready_queue 0 k) rs
    → x ≢ 0
    → Absent x rs
    → length rs + 1 < word_mod
    → Returns
        (λ k'.
          IsQueue (ready_queue 0 k') (x ∷ rs)
          × Keeps (ready_queue 0 k) (ready_queue 0 k') (x ∷ rs)
          × SameCpu k k')
        (sched_insert_ready0 x k)
unfolding sched_insert_ready0 panic_if
insert_ready0_lem k rs x l v nz stranger room =
    rw (expect_qlock-Locked k l, ne→== x 0 nz)
      (Returns-bind (enqueue-IsQueue x v nz stranger room) λ q (entered, kept).
        returns (entered, kept, record { cpu = refl; qlock = refl; env_id = refl }))

-- The environment that has waited longest on the channel becomes the youngest ready one.
pub wake_last-Waiting :
    (chan : Head) (k : Sched) (xs : List ℕ) (x : ℕ) (rs : List ℕ)
    → Locked k
    → Waiting chan k (xs ++ (x ∷ [])) rs
    → Returns (λ (chan', k'). Waiting chan' k' xs (x ∷ rs) × SameCpu k k') (wake_last chan k)
unfolding wake_last
wake_last-Waiting chan k xs x rs l v =
    let alone = last-Absent xs x v.blocked in
    let parts = Apart-prefix rs xs (x ∷ []) v.apart in
    let stranger : Absent x rs = (Apart-sym (x ∷ []) rs parts.1).0 in
    Returns-bind (dequeue-IsQueue xs x v.blocked) λ (env, q) (same, listed, kept).
      let k1 = set_status env env_ready (set_links q k) in
      let l1 : Locked k1 = record {
        held = l.held;
        inside = l.inside;
        shallow = l.shallow;
        off = l.off;
      } in
      let still : IsQueue (ready_queue 0 k1) rs = record {
        chain = kept rs v.apart _ _ v.ready.chain;
        count = v.ready.count;
        fits = v.ready.fits;
      } in
      Returns-bind
        (insert_ready0_lem k1 rs env l1 still (rw same alone.1) (rw same stranger)
          (omega (arith, v.room, length-append xs (x ∷ []))))
        λ k2 (entered, kept2, s). returns (
          record {
            blocked = record {
              chain =
                  kept2 xs (Apart-cons env xs rs (rw same alone.0) (Apart-sym xs rs parts.0)) _ _
                    listed.chain;
              count = listed.count;
              fits = listed.fits;
            };
            ready = rw (← same) entered;
            apart = (alone.0, parts.0);
            room = omega (arith, v.room, length-append xs (x ∷ []));
          },
          record { cpu = s.cpu; qlock = s.qlock; env_id = s.env_id },
        )

pub wake_each-Waiting :
    (n : ℕ) (chan : Head) (k : Sched) {xs : List ℕ} (rs : List ℕ)
    → Last xs
    → length xs ≡ n
    → Locked k
    → Waiting chan k xs rs
    → Returns
        (λ (chan', k'). Waiting chan' k' [] (xs ++ rs) × SameCpu k k')
        (wake_each (suc n) chan k)
unfolding wake_each queue_size
wake_each-Waiting zero chan k rs empty count l v =
    let none_left : (chan.size == 0) ≡ true = eq→== chan.size 0 v.blocked.count in
    rw none_left (returns (v, record { cpu = refl; qlock = refl; env_id = refl }))
wake_each-Waiting (suc n) chan k rs empty count l v = absurd (omega (arith, count))
wake_each-Waiting zero chan k rs (snoc ys y) count l v =
    absurd (omega (arith, count, length-append ys (y ∷ [])))
wake_each-Waiting (suc n) chan k rs (snoc ys y) count l v =
    let some_left : (chan.size == 0) ≡ false =
      ne→== chan.size 0 (omega (arith, v.blocked.count, length-append ys (y ∷ []))) in
    rw some_left (
      Returns-bind (wake_last-Waiting chan k ys y rs l v) λ (chan1, k1) (v1, s1).
        Returns-mono
          (wake_each-Waiting n chan1 k1 (y ∷ rs) (Last-of ys)
            (omega (arith, count, length-append ys (y ∷ []))) (SameCpu-Locked s1 l) v1)
          λ (chan2, k2) (v2, s2). (
            rw (append_assoc ys (y ∷ []) rs) v2,
            record {
              cpu = s2.cpu ∙ s1.cpu;
              qlock = s2.qlock ∙ s1.qlock;
              env_id = s2.env_id ∙ s1.env_id;
            },
          ))
