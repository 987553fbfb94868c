-- ===== src/Programs.antt =====
-- The main programs of the operators, the daemons and the labeler: how each of them ends.
pub mod Names
pub mod Operators
pub mod Daemons
pub mod Exporting
mod Tests
use openshift_operator.Base.{ℕ, Exec, handle}

-- How a program ends: with a panic, by os.Exit with a code, or by the return of main.
pub data Ended : Type 0 where
  panicked : Ended
  exited : ℕ → Ended
  finished : Ended

module _ {ℓ κ} {S : Type ℓ} {A : Type κ} where
  -- `x, err := m(); if err != nil { os.Exit(1) }; k`
  unfoldable pub or_exit : Exec S A → (A → S → Ended × S) → S → Ended × S
  or_exit m k = handle m k (λ e s. (exited 1, s))

module _ {ℓ} {S : Type ℓ} where
  unfoldable pub finish : S → Ended × S
  finish s = (finished, s)
