-- ===== src/Conc/Asleep.antt =====
-- `acquire_sleeplock` of kern/conc/sleeplock.c for a lock that another environment holds.
use fos_fcis_operating_syste.Prelude.{
  ℕ, ◌+◌, ◌<◌, ◌≡◌, refl, ap, ◌∙◌, ◌≢◌, inl, true, List, [], ◌∷◌, ◌++◌, arith, eq→==, ne→==,
  word_mod, length, length-append, ok, Returns, returns, Returns-bind, Returns-mono, ◌>>=◌,
}
use fos_fcis_operating_syste.Queue.{Queue}
use fos_fcis_operating_syste.Queue.Chain.{Absent, Absent-prefix, Apart, IsQueue}
use fos_fcis_operating_syste.Queue.Insert.{Apart-cons}
use fos_fcis_operating_syste.Queue.Keeps.{Keeps, Apart-prefix, Apart-sym}
use fos_fcis_operating_syste.Spinlock.{
  Cpu, Spinlock, mycpu, pushcli, init_spinlock, acquire_spinlock, release_spinlock,
}
use fos_fcis_operating_syste.Spinlock.Laws.{
  Steady, Free, noted, noted_twice, noted-Steady, noted-pushcli, pushcli-Steady, init_spinlock-Free,
  ncli-pushcli, acquire_spinlock-Free, release_spinlock-Held,
}
use fos_fcis_operating_syste.Sched.{
  Sched, queue_at, ready_queue, set_status, env_running, env_blocked, sched_checks,
  scheduler_resumed, pick, acquire_qlock,
}
use fos_fcis_operating_syste.Sched.Fifo.{enqueue-IsQueue}
use fos_fcis_operating_syste.Sched.State.{Locked}
use fos_fcis_operating_syste.Sched.Blocked.{
  sched_checks-blocked, scheduler_resumed-blocked, pick-idle,
}
use fos_fcis_operating_syste.Conc.Defs.{
  SleepLock, asleep, set_links, acquire_guard, release_guard, sleep, acquire_loop,
  acquire_sleeplock,
}
use fos_fcis_operating_syste.Conc.Wakeup.{Waiting}
use fos_fcis_operating_syste.Conc.Release.{holding_sleeplock_lem}

-- `p` waits on the lock's channel in front of `xs`, `ys` are still ready, and `y` runs.
pub record Slept (l : SleepLock) (p : ℕ) (xs ys : List ℕ) (y : ℕ) (l' : SleepLock) (k' : Sched)
    : Type 0 where
  pub on_cpu : k'.cpu.proc ≡ y
  pub running : k'.env_status y ≡ env_running
  pub waiting : Waiting l'.chan k' (p ∷ xs) ys
  pub locked : l'.locked ≡ l.locked
  pub pid : l'.pid ≡ l.pid
  pub guard : l'.lk ≡ init_spinlock
  pub blocked : k'.env_status p ≡ env_blocked
  pub queue_lock : Locked k'

abbrev held_lock : Spinlock
held_lock = record { locked = 1; cpu = mycpu }

module _ (l : SleepLock) (k0 : Sched) (c : Cpu) (xs ys : List ℕ) (y : ℕ) (s : Steady c)
    (depth : c.ncli ≡ 0) (free : Free k0.qlock) (nz : c.proc ≢ 0)
    (v : Waiting l.chan k0 xs (ys ++ (y ∷ []))) (out : Absent c.proc xs)
    (ready_out : Absent c.proc (ys ++ (y ∷ [])))
    (room : length xs + 1 + length (ys ++ (y ∷ [])) < word_mod) where
  -- From the switch on, with the running environment in the channel.
  leave_lem :
      (q : Queue)
      → IsQueue q (c.proc ∷ xs)
      → Keeps (queue_at l.chan k0) q (c.proc ∷ xs)
      → Returns
          (λ (env, k').
            (env ≡ y)
            × Slept l c.proc xs ys y
                (record l {
                  chan = record { first = q.first; last = q.last; size = q.size };
                  lk = init_spinlock;
                })
                k')
          (sched_checks (
              set_status c.proc env_blocked
                (set_links q (record k0 { cpu = pushcli c; qlock = held_lock })))
            >>= scheduler_resumed
            >>= pick)
  unfolding pushcli
  leave_lem q entered kept =
      let k3 =
        set_status c.proc env_blocked
          (set_links q (record k0 { cpu = pushcli c; qlock = held_lock })) in
      let l3 : Locked k3 = record {
        held = (refl, refl);
        inside = omega (arith, ncli-pushcli c (omega arith));
        shallow = omega (arith, ncli-pushcli c (omega arith));
        off = refl;
      } in
      let here : k3.env_status c.proc ≡ env_blocked = rw (eq→== c.proc c.proc refl) in
      let parts = Absent-prefix c.proc ys (y ∷ []) ready_out in
      let far : Apart (ys ++ (y ∷ [])) (c.proc ∷ xs) =
        Apart-cons c.proc (ys ++ (y ∷ [])) xs ready_out v.apart in
      let still : IsQueue (ready_queue 0 k3) (ys ++ (y ∷ [])) = record {
        chain = kept (ys ++ (y ∷ [])) far _ _ v.ready.chain;
        count = v.ready.count;
        fits = v.ready.fits;
      } in
      let one : (pushcli c).ncli ≡ 1 = ncli-pushcli c (omega arith) ∙ omega arith in
      rw (sched_checks-blocked k3 l3 one nz here, scheduler_resumed-blocked k3 l3 here)
        (Returns-mono (pick-idle k3 ys y l3 still)
          λ (env, k4) (same, ready, kept4, on_cpu, running, statuses, l4). (
            same,
            record {
              on_cpu = on_cpu;
              running = running;
              waiting = record {
                blocked = record {
                  chain =
                      kept4 (c.proc ∷ xs) (Apart-sym (c.proc ∷ xs) (ys ++ (y ∷ [])) far) _ _
                        entered.chain;
                  count = entered.count;
                  fits = entered.fits;
                };
                ready = ready;
                apart =
                    Apart-sym ys (c.proc ∷ xs)
                      (Apart-prefix (c.proc ∷ xs) ys (y ∷ [])
                        (Apart-sym (c.proc ∷ xs) (ys ++ (y ∷ [])) far)).0;
                room = omega (arith, room, length-append ys (y ∷ []));
              };
              locked = refl;
              pid = refl;
              guard = refl;
              blocked = statuses c.proc parts.1.0 ∙ here;
              queue_lock = l4;
            },
          ))

  depth_one : (pushcli c).ncli ≡ 1
  depth_one = ncli-pushcli c (omega arith) ∙ omega arith

  acquire_again : acquire_spinlock 1 k0.qlock (pushcli c) ≡ ok (held_lock, pushcli (pushcli c))
  acquire_again =
      acquire_spinlock-Free 0 k0.qlock (pushcli c) (pushcli-Steady c s (omega arith)) free
      ∙ rw (noted-pushcli c s)

  release_again : release_spinlock held_lock (pushcli (pushcli c)) ≡ ok (init_spinlock, pushcli c)
  release_again =
      release_spinlock-Held held_lock (pushcli c) (pushcli-Steady c s (omega arith))
        (omega (arith, depth_one)) (refl, refl)
      ∙ rw (noted-pushcli c s)

  sleep_lem :
      Returns
        (λ (env, l', k'). (env ≡ y) × Slept l c.proc xs ys y l' k')
        (sleep (record l { lk = held_lock }) (record k0 { cpu = pushcli c }))
  unfolding sleep acquire_qlock release_guard pushcli
  sleep_lem = rw acquire_again (
      Returns-bind
        (enqueue-IsQueue {q = queue_at l.chan k0} c.proc v.blocked nz out (omega (arith, room)))
        λ q (entered, kept). rw release_again (
          Returns-bind (leave_lem q entered kept) λ (env, k') (same, slept). returns (
            same,
            record {
              on_cpu = slept.on_cpu;
              running = slept.running;
              waiting = slept.waiting;
              locked = slept.locked;
              pid = slept.pid;
              guard = slept.guard;
              blocked = slept.blocked;
              queue_lock = slept.queue_lock;
            },
          )))

-- `acquire_sleeplock` of a lock that another environment holds puts the running one to sleep: it is
-- blocked on the channel of the lock behind those that wait there already, the oldest ready
-- environment is on the CPU and running, the others are still ready in their order, the lock still
-- belongs to its holder, and the guard is free.
pub acquire_sleeplock-asleep :
    (l : SleepLock) (k : Sched) (xs ys : List ℕ) (y : ℕ)
    → k.cpu.ncli ≡ 0
    → Free l.lk
    → Free k.qlock
    → k.cpu.proc ≢ 0
    → l.locked ≡ true
    → l.pid ≢ k.env_id k.cpu.proc
    → Waiting l.chan k xs (ys ++ (y ∷ []))
    → Absent k.cpu.proc xs
    → Absent k.cpu.proc (ys ++ (y ∷ []))
    → length xs + 1 + length (ys ++ (y ∷ [])) < word_mod
    → Returns
        (λ (how, l', k'). (how ≡ asleep y) × Slept l k.cpu.proc xs ys y l' k')
        (acquire_sleeplock l k)
unfolding acquire_sleeplock acquire_loop acquire_guard
acquire_sleeplock-asleep l k xs ys y depth free qfree nz busy other v out ready_out room =
    let c = noted k.cpu in
    let steady : Steady k.cpu = record { quiet = inl depth; shallow = omega arith } in
    let steady_c = noted-Steady k.cpu steady in
    rw
      (
        holding_sleeplock_lem l k steady (omega arith) free,
        ne→== l.pid (k.env_id k.cpu.proc) other,
        busy,
        acquire_spinlock-Free 0 init_spinlock c steady_c init_spinlock-Free,
        noted_twice k.cpu,
      )
      (Returns-bind
        (sleep_lem (record l { locked = true }) k c xs ys y steady_c depth qfree nz v out ready_out
          room)
        λ (env, l', k') (same, slept). returns (ap asleep same, slept))
