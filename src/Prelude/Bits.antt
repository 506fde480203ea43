-- ===== src/Prelude/Bits.antt =====
-- `|` and `& ~` of words, digit by digit.
use Prim.Native.Nat.{ℕ, zero, suc, ◌+◌, ◌*◌, ◌/◌, ◌%◌, ◌^◌, ◌<◌}
use mathlib.Core.Path.{◌≡◌, refl, sym, ap, ◌∙◌}
use mathlib.Core.Bool.{Bool, true, false, not, ◌&&◌, ◌||◌}
use native.Mathlib.Omega.{arith}
use fos_fcis_operating_syste.Prelude.Tests.{◌==◌, if◌then◌else◌}

-- The digit with a given value.
abbrev pub digit : Bool → ℕ
digit b = if b then 1 else 0

-- Bit `j` of `a`, and `a >> j`.
unfoldable pub bit : ℕ → ℕ → Bool
bit zero a = a % 2 == 1
bit (suc j) a = bit j (a / 2)

unfoldable pub high : ℕ → ℕ → ℕ
high zero a = a
high (suc j) a = high j (a / 2)

-- `a | b` and `a & ~b` of numbers of `n` bits.
unfoldable pub or_digits : ℕ → ℕ → ℕ → ℕ
or_digits zero a b = 0
or_digits (suc n) a b = or_digits n (a / 2) (b / 2) * 2 + digit ((a % 2 == 1) || (b % 2 == 1))

unfoldable pub clear_digits : ℕ → ℕ → ℕ → ℕ
clear_digits zero a b = 0
clear_digits (suc n) a b =
    clear_digits n (a / 2) (b / 2) * 2 + digit ((a % 2 == 1) && not (b % 2 == 1))

double_half : (x : ℕ) (d : Bool) → (x * 2 + digit d) / 2 ≡ x
double_half x d = ground arith

double_digit : (x : ℕ) (d : Bool) → ((x * 2 + digit d) % 2 == 1) ≡ d
double_digit x true = ground arith
double_digit x false = ground arith

pub bit-or_digits : (j n a b : ℕ) → j < n → bit j (or_digits n a b) ≡ (bit j a || bit j b)
unfolding bit or_digits
bit-or_digits j zero a b h = elim h [ ]
bit-or_digits zero (suc n) a b h = double_digit _ _
bit-or_digits (suc j) (suc n) a b h =
    ap (bit j) (double_half _ _) ∙ bit-or_digits j n (a / 2) (b / 2) (omega arith)

pub bit-clear_digits :
    (j n a b : ℕ) → j < n → bit j (clear_digits n a b) ≡ (bit j a && not (bit j b))
unfolding bit clear_digits
bit-clear_digits j zero a b h = elim h [ ]
bit-clear_digits zero (suc n) a b h = double_digit _ _
bit-clear_digits (suc j) (suc n) a b h =
    ap (bit j) (double_half _ _) ∙ bit-clear_digits j n (a / 2) (b / 2) (omega arith)

pow_suc : (n : ℕ) → 2 ^ suc n ≡ 2 ^ n * 2
pow_suc n = omega arith

or_digits-zero : (n a b : ℕ) → b ≡ 0 → a < 2 ^ n → or_digits n a b ≡ a
unfolding or_digits
or_digits-zero zero a b e h = omega arith
or_digits-zero (suc n) a b e h =
    let ih = or_digits-zero n (a / 2) (b / 2) (omega arith) (omega (arith, pow_suc n)) in
    ground (arith, ih)

clear_digits-zero : (n a b : ℕ) → b ≡ 0 → a < 2 ^ n → clear_digits n a b ≡ a
unfolding clear_digits
clear_digits-zero zero a b e h = omega arith
clear_digits-zero (suc n) a b e h =
    let ih = clear_digits-zero n (a / 2) (b / 2) (omega arith) (omega (arith, pow_suc n)) in
    ground (arith, ih)

-- `k + n` with the digits of `k` counted off.
abbrev pub count_on : ℕ → ℕ → ℕ
count_on zero n = n
count_on (suc k) n = suc (count_on k n)

high-or_digits :
    (k n a b : ℕ) → high k (or_digits (count_on k n) a b) ≡ or_digits n (high k a) (high k b)
unfolding high or_digits
high-or_digits zero n a b = refl
high-or_digits (suc k) n a b = ap (high k) (double_half _ _) ∙ high-or_digits k n (a / 2) (b / 2)

high-clear_digits :
    (k n a b : ℕ) → high k (clear_digits (count_on k n) a b) ≡ clear_digits n (high k a) (high k b)
unfolding high clear_digits
high-clear_digits zero n a b = refl
high-clear_digits (suc k) n a b =
    ap (high k) (double_half _ _) ∙ high-clear_digits k n (a / 2) (b / 2)

high_twelve : (a : ℕ) → high 12 a ≡ a / 4096
unfolding high
high_twelve a = omega arith

-- `|` and `& ~` of 32-bit words.
unfoldable pub or32 : ℕ → ℕ → ℕ
or32 a b = or_digits 32 a b

unfoldable pub clear32 : ℕ → ℕ → ℕ
clear32 a b = clear_digits 32 a b

-- The low 12 bits of an entry are its permissions; the others are a frame number, which a change of
-- permissions keeps.
pub frame-or32 : (a b : ℕ) → a < 2 ^ 32 → b < 4096 → or32 a b / 4096 ≡ a / 4096
unfolding or32
frame-or32 a b h k =
    sym (high_twelve (or_digits 32 a b))
    ∙ high-or_digits 12 20 a b
    ∙ or_digits-zero 20 (high 12 a) (high 12 b) (omega (arith, high_twelve b))
        (omega (arith, high_twelve a))
    ∙ high_twelve a

pub frame-clear32 : (a b : ℕ) → a < 2 ^ 32 → b < 4096 → clear32 a b / 4096 ≡ a / 4096
unfolding clear32
frame-clear32 a b h k =
    sym (high_twelve (clear_digits 32 a b))
    ∙ high-clear_digits 12 20 a b
    ∙ clear_digits-zero 20 (high 12 a) (high 12 b) (omega (arith, high_twelve b))
        (omega (arith, high_twelve a))
    ∙ high_twelve a

or_digits-lt : (n a b : ℕ) → or_digits n a b < 2 ^ n
unfolding or_digits
or_digits-lt zero a b = omega arith
or_digits-lt (suc n) a b = let ih = or_digits-lt n (a / 2) (b / 2) in ground (arith, ih, pow_suc n)

pub or32-lt : (a b : ℕ) → or32 a b < 2 ^ 32
unfolding or32
or32-lt a b = or_digits-lt 32 a b

clear_digits-lt : (n a b : ℕ) → clear_digits n a b < 2 ^ n
unfolding clear_digits
clear_digits-lt zero a b = omega arith
clear_digits-lt (suc n) a b =
    let ih = clear_digits-lt n (a / 2) (b / 2) in ground (arith, ih, pow_suc n)

pub clear32-lt : (a b : ℕ) → clear32 a b < 2 ^ 32
unfolding clear32
clear32-lt a b = clear_digits-lt 32 a b

pub bit-or32 : (j a b : ℕ) → j < 32 → bit j (or32 a b) ≡ (bit j a || bit j b)
unfolding or32
bit-or32 j a b h = bit-or_digits j 32 a b h

pub bit-clear32 : (j a b : ℕ) → j < 32 → bit j (clear32 a b) ≡ (bit j a && not (bit j b))
unfolding clear32
bit-clear32 j a b h = bit-clear_digits j 32 a b h

double : ℕ → ℕ → ℕ
double zero x = x
double (suc k) x = double k x * 2

or_digits-double :
    (k n x b : ℕ)
    → x < 2 ^ n
    → high k b ≡ 0
    → or_digits (count_on k n) (double k x) b ≡ double k x + b
unfolding or_digits double high
or_digits-double zero n x b h e = omega (arith, or_digits-zero n x b e h)
or_digits-double (suc k) n x b h e =
    let half : double k x * 2 / 2 ≡ double k x = omega arith in
    let ih = or_digits-double k n x (b / 2) h e in
    let even : (double k x * 2 % 2 == 1) ≡ false = ground arith in
    rw (half, even) (ground (arith, ih))

double_twelve : (x : ℕ) → double 12 x ≡ x * 4096
unfolding double
double_twelve x = omega arith

-- An entry is made of a frame number and permissions.
pub or32-entry : (f b : ℕ) → f < 2 ^ 20 → b < 4096 → or32 (f * 4096) b ≡ f * 4096 + b
unfolding or32
or32-entry f b h k =
    rw (← double_twelve f) (or_digits-double 12 20 f b h (omega (arith, high_twelve b)))

pub or32-lt_page : (a b : ℕ) → a < 4096 → b < 4096 → or32 a b < 4096
or32-lt_page a b h k = omega (arith, frame-or32 a b (omega arith) k)

pub clear32-lt_page : (a b : ℕ) → a < 4096 → b < 4096 → clear32 a b < 4096
clear32-lt_page a b h k = omega (arith, frame-clear32 a b (omega arith) k)

-- The bits of an address within a page.
pub bit-page : (j x : ℕ) → j < 12 → bit j (x % 4096) ≡ bit j x
unfolding bit
bit-page zero x h = ap (λ b. b == 1) (omega arith)
bit-page (suc zero) x h = ap (λ b. b == 1) (omega arith)
bit-page (suc (suc zero)) x h = ap (λ b. b == 1) (omega arith)
bit-page (suc (suc (suc zero))) x h = ap (λ b. b == 1) (omega arith)
bit-page (suc (suc (suc (suc zero)))) x h = ap (λ b. b == 1) (omega arith)
bit-page (suc (suc (suc (suc (suc zero))))) x h = ap (λ b. b == 1) (omega arith)
bit-page (suc (suc (suc (suc (suc (suc zero)))))) x h = ap (λ b. b == 1) (omega arith)
bit-page (suc (suc (suc (suc (suc (suc (suc zero))))))) x h = ap (λ b. b == 1) (omega arith)
bit-page (suc (suc (suc (suc (suc (suc (suc (suc zero)))))))) x h = ap (λ b. b == 1) (omega arith)
bit-page (suc (suc (suc (suc (suc (suc (suc (suc (suc zero))))))))) x h =
    ap (λ b. b == 1) (omega arith)
bit-page (suc (suc (suc (suc (suc (suc (suc (suc (suc (suc zero)))))))))) x h =
    ap (λ b. b == 1) (omega arith)
bit-page (suc (suc (suc (suc (suc (suc (suc (suc (suc (suc (suc zero))))))))))) x h =
    ap (λ b. b == 1) (omega arith)
bit-page (suc (suc (suc (suc (suc (suc (suc (suc (suc (suc (suc (suc j)))))))))))) x h =
    absurd (omega arith)

pub bit_zero : (j : ℕ) → bit j 0 ≡ false
unfolding bit
bit_zero zero = refl
bit_zero (suc j) = bit_zero j
