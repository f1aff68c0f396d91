-- ===== src/Memory/Aggregates.antt =====
-- Aggregates and their natural keys, from base/memory.go.
pub mod Keys
pub mod Lookup
pub mod Rename
use Prim.Native.String.{len}
use evercore.Base.{
  ℕ, ◌+◌, String, not, Option, none, some, ltb, ◌==◌, if◌then◌else◌, with_default, nat_eq,
  string_eq,
}
use evercore.Base.Dict.{lookup, insert, delete}
use evercore.Base.Outcome.{
  M, ok, err, panic, key_exceeds_maximum_length, duplicate_key, no_aggregate_with_id,
  no_aggregate_with_key, aggregate_type_mismatch,
}
use evercore.Memory.State.{Memory}
use mathlib.Core.Bool.{Bool, true, false}

-- `maxKeyLength`; `len` counts bytes, as Go's does.
abbrev pub max_key_length : ℕ
max_key_length = 64

unfoldable pub new_aggregate : ℕ → M Memory ℕ
new_aggregate aggregate_type_id store =
    let id = store.count_aggregates + 1 in
    (
      ok id,
      record store {
        count_aggregates = id;
        aggregate_inv = insert id none store.aggregate_inv;
        aggregate_to_type_id = insert id aggregate_type_id store.aggregate_to_type_id;
      },
    )

-- The writes by which both creating calls enter an aggregate under a key.
enter_with_key : ℕ → String → Memory → Memory
enter_with_key aggregate_type_id natural_key store =
    let id = store.count_aggregates + 1 in
    record store {
      count_aggregates = id;
      aggregates = insert natural_key id store.aggregates;
      aggregate_to_type_id = insert id aggregate_type_id store.aggregate_to_type_id;
      aggregate_inv = insert id (some natural_key) store.aggregate_inv;
    }

unfoldable pub new_aggregate_with_key : ℕ → String → M Memory ℕ
unfolding enter_with_key
new_aggregate_with_key aggregate_type_id natural_key store =
    if ltb max_key_length (len natural_key)
    then (err key_exceeds_maximum_length, store)
    else elim (lookup natural_key store.aggregates) [
      | some _ ↦ (err duplicate_key, store)
      | none ↦ (ok (store.count_aggregates + 1), enter_with_key aggregate_type_id natural_key store)
    ]

-- The key that an aggregate had is read through its pointer, which is nil if it had none.
unfoldable pub change_aggregate_natural_key : ℕ → String → M Memory (Unit {0})
change_aggregate_natural_key aggregate_id natural_key store =
    if ltb max_key_length (len natural_key)
    then (err key_exceeds_maximum_length, store)
    else elim (lookup aggregate_id store.aggregate_inv) [
      | none ↦ (err (no_aggregate_with_id aggregate_id), store)
      | some none ↦ (panic "nil pointer dereference", store)
      | some (some aggregate_key) ↦ (
        ok tt,
        record store {
          aggregates = insert natural_key aggregate_id (delete aggregate_key store.aggregates);
          aggregate_inv =
              insert aggregate_id (some natural_key) (delete aggregate_id store.aggregate_inv);
        },
      )
    ]

-- `store.AggregateToTypeId[id] != aggregateTypeId`
has_type : Memory → ℕ → ℕ → Bool
has_type store aggregate_id aggregate_type_id =
    with_default (lookup aggregate_id store.aggregate_to_type_id) 0 == aggregate_type_id

unfoldable pub get_aggregate_by_id : ℕ → ℕ → M Memory (ℕ × Option String)
unfolding has_type
get_aggregate_by_id aggregate_type_id aggregate_id store =
    elim (lookup aggregate_id store.aggregate_inv) [
      | none ↦ (err (no_aggregate_with_id aggregate_id), store)
      | some aggregate_key ↦
          if not (has_type store aggregate_id aggregate_type_id)
          then (err aggregate_type_mismatch, store)
          else (ok (aggregate_id, aggregate_key), store)
    ]

-- The Boolean of the result says whether the aggregate was created.
unfoldable pub get_or_create_aggregate_by_key : ℕ → String → M Memory (Bool × ℕ)
unfolding enter_with_key has_type
get_or_create_aggregate_by_key aggregate_type_id natural_key store =
    if ltb max_key_length (len natural_key)
    then (err key_exceeds_maximum_length, store)
    else elim (lookup natural_key store.aggregates) [
      | some aggregate_id ↦
          if not (has_type store aggregate_id aggregate_type_id)
          then (err aggregate_type_mismatch, store)
          else (ok (false, aggregate_id), store)
      | none ↦ (
        ok (true, store.count_aggregates + 1),
        enter_with_key aggregate_type_id natural_key store,
      )
    ]

unfoldable pub get_aggregate_by_key : ℕ → String → M Memory ℕ
unfolding has_type
get_aggregate_by_key aggregate_type_id natural_key store =
    elim (lookup natural_key store.aggregates) [
      | none ↦ (err (no_aggregate_with_key natural_key), store)
      | some aggregate_id ↦
          if not (has_type store aggregate_id aggregate_type_id)
          then (err aggregate_type_mismatch, store)
          else (ok aggregate_id, store)
    ]
