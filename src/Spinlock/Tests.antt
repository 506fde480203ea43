-- ===== src/Spinlock/Tests.antt =====
-- A CPU and its locks, and the theorems on spinlocks at them.
use fos_fcis_operating_syste.Prelude.{◌≡◌, refl, inl, true, false, arith, ok, ◌>>=◌}
use fos_fcis_operating_syste.Spinlock.Defs.{Cpu, acquire_spinlock, release_spinlock, init_spinlock}
use fos_fcis_operating_syste.Spinlock.Laws.{Steady, release-acquire}

abbrev running : Cpu
running = record { interrupts = true; ncli = 0; intena = false; proc = 500 }

running-Steady : Steady running
running-Steady = record { quiet = inl refl; shallow = omega arith }

release-acquire_example :
    (acquire_spinlock 1 (record { locked = 0; cpu = 0 }) running >>= λ (lk1, c1).
    release_spinlock lk1 c1)
    ≡ ok (init_spinlock, record running { intena = true })
release-acquire_example =
    release-acquire 0 (record { locked = 0; cpu = 0 }) running running-Steady (omega arith) refl
