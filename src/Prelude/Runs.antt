-- ===== src/Prelude/Runs.antt =====
-- Runs of kernel code: a result, a `panic`, or a model's fuel that ran out.
use mathlib.Core.Path.{◌≡◌}
use mathlib.Core.Bool.{Bool, true, false}

pub data Run {ℓ} (X : Type ℓ) : Type ℓ where
  panic : Run X
  out_of_fuel : Run X
  ok : X → Run X

infixl 5 ◌>>=◌ ◌>>◌
abbrev pub ◌>>=◌ {ℓ ℓ'} : {X : Type ℓ} {Y : Type ℓ'} → Run X → (X → Run Y) → Run Y
panic >>= next = panic
out_of_fuel >>= next = out_of_fuel
ok x >>= next = next x

abbrev pub ◌>>◌ {ℓ ℓ'} : {X : Type ℓ} {Y : Type ℓ'} → Run X → Run Y → Run Y
first >> second = first >>= λ _. second

-- `if (test) panic(...);` in front of a result.
unfoldable pub panic_if {ℓ} : {X : Type ℓ} → Bool → X → Run X
panic_if true x = panic
panic_if false x = ok x

-- Total correctness of a run: it is `ok`, and its result satisfies the postcondition.
pub data Returns {ℓ ℓ'} {X : Type ℓ} (Post : X → Type ℓ') : Run X → Type (ℓ ⊔ ℓ') where
  returns : {x : X} → Post x → Returns Post (ok x)

module _ {ℓ ℓ'} {X : Type ℓ} {Post : X → Type ℓ'} where
  pub Returns-panic_if : {b : Bool} (x : X) → b ≡ false → Post x → Returns Post (panic_if b x)
  unfolding panic_if
  Returns-panic_if x e holds = rw e (returns holds)

  pub Returns-mono {κ} :
      {Weaker : X → Type κ} {run : Run X}
      → Returns Post run
      → ((x : X) → Post x → Weaker x)
      → Returns Weaker run
  Returns-mono (returns holds) weaken = returns (weaken _ holds)

  pub Returns-bind {κ κ'} :
      {Y : Type κ} {Then : Y → Type κ'} {run : Run X} {next : X → Run Y}
      → Returns Post run
      → ((x : X) → Post x → Returns Then (next x))
      → Returns Then (run >>= next)
  Returns-bind (returns holds) step = step _ holds

  pub Returns-both {κ} :
      {Also : X → Type κ} {run : Run X}
      → Returns Post run
      → Returns Also run
      → Returns (λ x. Post x × Also x) run
  Returns-both (returns holds) (returns too) = returns (holds, too)
