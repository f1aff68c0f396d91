-- ===== src/Base/Outcome.antt =====
-- What a Go call returns: a value, an error, or a panic. A method is a function of the state it
-- may change, and the state that it leaves is kept on every one of these paths.
use Prim.Native.Nat.{ℕ}
use Prim.Native.String.{String}

-- The errors that the code returns. `wrap` is `fmt.Errorf("…: %w", err)`; `storage` is a
-- `StorageEngineError` with its message, its type and the error inside; `no_rows` and `tx_done` are
-- those of database/sql, and `unique_violation` is what a driver reports of a column.
pub data Error : Type 0 where
  key_exceeds_maximum_length : Error
  duplicate_key : Error
  no_aggregate_with_id : ℕ → Error
  no_aggregate_with_key : String → Error
  aggregate_type_mismatch : Error
  subscription_not_found : Error
  subscription_already_owned : Error
  subscription_inactive : String → Error
  unknown_start_from : String → Error
  unsupported_driver : String → Error
  no_decoder : String → Error
  not_a_state_event : Error
  cannot_assign : String → Error
  context_done : Error
  external : String → Error
  no_rows : Error
  tx_done : Error
  unique_violation : String → Error
  storage : String → String → Error → Error
  wrap : String → Error → Error

pub data Outcome {ℓ} (A : Type ℓ) : Type ℓ where
  ok : A → Outcome A
  err : Error → Outcome A
  panic : String → Outcome A

abbrev pub M : Type 0 → Type 0 → Type 0
M S A = S → Outcome A × S

-- What follows a call: it runs on the value and the state left, or not at all.
abbrev pub resume : {S A B : Type 0} → Outcome A × S → (A → M S B) → Outcome B × S
resume (ok a, s) f = f a s
resume (err e, s) f = (err e, s)
resume (panic m, s) f = (panic m, s)

infixl 5 ◌>>=◌ ◌>>◌
abbrev pub ◌>>=◌ : {S A B : Type 0} → M S A → (A → M S B) → M S B
◌>>=◌ m f s = resume (m s) f

abbrev pub ◌>>◌ : {S A B : Type 0} → M S A → M S B → M S B
◌>>◌ m k = m >>= λ _. k

abbrev pub pure : {S A : Type 0} → A → M S A
pure a s = (ok a, s)

abbrev pub fail : {S A : Type 0} → Error → M S A
fail e s = (err e, s)

-- `if err != nil { return fmt.Errorf(label + ": %w", err) }`
abbrev pub relabel : {A : Type 0} → String → Outcome A → Outcome A
relabel l (ok a) = ok a
relabel l (err e) = err (wrap l e)
relabel l (panic m) = panic m

abbrev pub wrapping : {S A : Type 0} → String → M S A → M S A
wrapping l m s = (relabel l (m s).0, (m s).1)
