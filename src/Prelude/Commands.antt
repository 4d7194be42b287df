-- ===== src/Prelude/Commands.antt =====
-- Code that reads and allocates in a store: it returns with a new store, panics, or has spent
-- the fuel that bounds its recursion.
use mathlib.Core.Option.{Option, none, some}

pub data Run {ℓ κ} (S : Type ℓ) (A : Type κ) : Type (ℓ ⊔ κ) where
  ok : A → S → Run S A
  panic : Run S A
  out_of_fuel : Run S A

abbrev pub Cmd {ℓ κ} : Type ℓ → Type κ → Type (ℓ ⊔ κ)
Cmd S A = S → Run S A

module _ {ℓ κ} {S : Type ℓ} {A : Type κ} where
  abbrev pub pure : A → Cmd S A
  pure a s = ok a s

  -- A read of the store that fails out of range.
  abbrev pub expect : Option A → Cmd S A
  expect none s = panic
  expect (some a) s = ok a s

  -- A step that always succeeds.
  abbrev pub modify : (S → A × S) → Cmd S A
  modify f s = let (a, t) = f s in ok a t

  module _ {μ} {B : Type μ} where
    abbrev pub and_then : Run S A → (A → Cmd S B) → Run S B
    and_then (ok a s) k = k a s
    and_then panic k = panic
    and_then out_of_fuel k = out_of_fuel

    infixl 5 ◌>>=◌
    abbrev pub ◌>>=◌ : Cmd S A → (A → Cmd S B) → Cmd S B
    m >>= k = λ s. and_then (m s) k
