-- ===== src/Sql/Errors.antt =====
-- `WrapError` of evercoresqlite/engine.go, and the tests of errors that the SQL engines make.
use evercore.Base.{String, Bool, true, false, if◌then◌else◌}
use evercore.Base.Outcome.{
  Error, M, Outcome, ok, err, panic, no_rows, unique_violation, storage, wrap,
}

-- `ErrorNotFound` and `ErrorTypeConstraintViolation`.
abbrev pub error_not_found : String
error_not_found = "not_found"

abbrev pub error_type_constraint_violation : String
error_type_constraint_violation = "constraint_violation"

-- `NewStorageEngineError`
unfoldable pub new_storage_engine_error : String → Error → Error
new_storage_engine_error message e = storage message "" e

-- `errors.Is(err, sql.ErrNoRows)`
unfoldable pub is_no_rows : Error → Bool
is_no_rows no_rows = true
is_no_rows (wrap l e) = is_no_rows e
is_no_rows (storage m t e) = is_no_rows e
is_no_rows _ = false

-- `strings.Contains(err.Error(), "UNIQUE constraint failed")`: the driver's report of a violated
-- constraint says so, and the text of a wrapped error is part of the text.
unfoldable pub says_constraint_failed : Error → Bool
says_constraint_failed (unique_violation column) = true
says_constraint_failed (wrap l e) = says_constraint_failed e
says_constraint_failed (storage m t e) = says_constraint_failed e
says_constraint_failed _ = false

unfoldable pub wrap_error : String → Error → Error
unfolding new_storage_engine_error is_no_rows says_constraint_failed
wrap_error msg e =
    if says_constraint_failed e
    then storage msg error_type_constraint_violation e
    else if is_no_rows e
    then storage msg error_not_found e
    else new_storage_engine_error msg e

-- `if err != nil { return WrapError(msg, err) }`
abbrev pub wrap_outcome : {A : Type 0} → String → Outcome A → Outcome A
wrap_outcome msg (ok a) = ok a
wrap_outcome msg (err e) = err (wrap_error msg e)
wrap_outcome msg (panic m) = panic m

abbrev pub storing : {D A : Type 0} → String → M D A → M D A
storing msg m d = (wrap_outcome msg (m d).0, (m d).1)

-- A call whose `sql.ErrNoRows` stands for a value.
abbrev pub none_is : {A : Type 0} → A → Outcome A → Outcome A
none_is a (ok x) = ok x
none_is a (err e) = if is_no_rows e then ok a else err e
none_is a (panic m) = panic m

abbrev pub absent_as : {D A : Type 0} → A → M D A → M D A
absent_as a m d = (none_is a (m d).0, (m d).1)
