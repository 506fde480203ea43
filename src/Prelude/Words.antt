-- ===== src/Prelude/Words.antt =====
-- `uint32` arithmetic: the wrap-around written out, and when it does not happen.
use Prim.Native.Nat.{ℕ, ◌+◌, ◌-◌, ◌*◌, ◌/◌, ◌%◌, ◌^◌, ◌≤◌, ◌<◌}
use mathlib.Core.Path.{◌≡◌}
use native.Mathlib.Omega.{arith}

-- the number of values of a `uint32`
abbrev pub word_mod : ℕ
word_mod = 2 ^ 32

unfoldable pub add32 : ℕ → ℕ → ℕ
add32 a b = (a + b) % word_mod

unfoldable pub sub32 : ℕ → ℕ → ℕ
sub32 a b = (a + word_mod - b) % word_mod

-- `x | 1`
unfoldable pub or_one : ℕ → ℕ
or_one x = x / 2 * 2 + 1

-- `PAGE_SIZE` of inc/mmu.h
abbrev pub page_size : ℕ
page_size = 4096

pub add32_small : (a b : ℕ) → a + b < word_mod → add32 a b ≡ a + b
unfolding add32
add32_small a b h = omega arith

pub sub32_small : (a b : ℕ) → b ≤ a → a < word_mod → sub32 a b ≡ a - b
unfolding sub32
sub32_small a b h k = omega arith

pub or_one_even : (x : ℕ) → x % 2 ≡ 0 → or_one x ≡ x + 1
unfolding or_one
or_one_even x h = omega arith

pub or_one_odd : (x : ℕ) → x % 2 ≡ 1 → or_one x ≡ x
unfolding or_one
or_one_odd x h = omega arith

pub add32-lt : (a b : ℕ) → add32 a b < word_mod
unfolding add32
add32-lt a b = omega arith

pub sub32-lt : (a b : ℕ) → sub32 a b < word_mod
unfolding sub32
sub32-lt a b = omega arith
