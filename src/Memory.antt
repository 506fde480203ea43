-- ===== src/Memory.antt =====
-- Byte-addressed memory with 32-bit little-endian words, as the `uint32 *` accesses of
-- lib/dynamic_allocator.c see it.
use fos_fcis_operating_syste.Prelude.{
  ℕ, ◌+◌, ◌*◌, ◌/◌, ◌%◌, ◌≤◌, ◌<◌, ◌≡◌, ◌⊎◌, arith, ◌==◌, if◌then◌else◌, word_mod,
}

-- the byte at each address
abbrev pub Mem : Type 0
Mem = ℕ → ℕ

-- `*(uint32 *) a`
unfoldable pub load : Mem → ℕ → ℕ
load m a = m a % 256 + m (a + 1) % 256 * 256 + m (a + 2) % 256 * 65536 + m (a + 3) % 256 * 16777216

-- `*(uint32 *) a = v`
unfoldable pub store : Mem → ℕ → ℕ → Mem
store m a v x =
    if x == a
    then v % 256
    else if x == a + 1
    then v / 256 % 256
    else if x == a + 2
    then v / 65536 % 256
    else if x == a + 3
    then v / 16777216 % 256
    else m x

pub load-lt : (m : Mem) (a : ℕ) → load m a < word_mod
unfolding load
load-lt m a = omega arith

pub load-store : (m : Mem) (a v : ℕ) → v < word_mod → load (store m a v) a ≡ v
unfolding load store
load-store m a v h = ground arith

pub load-store_apart :
    (m : Mem) (a v b : ℕ) → (b + 4 ≤ a) ⊎ (a + 4 ≤ b) → load (store m a v) b ≡ load m b
unfolding load store
load-store_apart m a v b h = ground arith
