-- ===== src/Memory/TypeIds.antt =====
-- The ids of event types and aggregate types: `GetEventTypeId`, `GetAggregateTypeId`,
-- `GetEventTypes`, `GetAggregateTypes` of base/memory.go.
pub mod Registry
use evercore.Base.{ℕ, ◌+◌, String, List, map, none, some, nat_eq, string_eq}
use evercore.Base.Dict.{lookup, insert}
use evercore.Base.Outcome.{M, ok}
use evercore.Types.{IdNamePair}
use evercore.Memory.State.{Memory}

unfoldable pub get_event_type_id : String → M Memory ℕ
get_event_type_id name store = elim (lookup name store.event_types) [
  | some event_type ↦ (ok event_type, store)
  | none ↦
      let id = store.count_event_types + 1 in
      (
        ok id,
        record store {
          count_event_types = id;
          event_types = insert name id store.event_types;
          event_types_inv = insert id name store.event_types_inv;
        },
      )
]

unfoldable pub get_aggregate_type_id : String → M Memory ℕ
get_aggregate_type_id name store = elim (lookup name store.aggregate_types) [
  | some aggregate_type_id ↦ (ok aggregate_type_id, store)
  | none ↦
      let id = store.count_aggregate_type + 1 in
      (
        ok id,
        record store {
          count_aggregate_type = id;
          aggregate_types = insert name id store.aggregate_types;
          aggregate_types_inv = insert id name store.aggregate_types_inv;
        },
      )
]

-- Go ranges over a map in an order of the runtime's choice: `order` is that choice.
abbrev pub pair_of : String × ℕ → IdNamePair
pair_of (name, id) = record { id = id; name = name }

unfoldable pub get_aggregate_types :
    (List IdNamePair → List IdNamePair) → M Memory (List IdNamePair)
get_aggregate_types order store = (ok (order (map pair_of store.aggregate_types)), store)

unfoldable pub get_event_types : (List IdNamePair → List IdNamePair) → M Memory (List IdNamePair)
get_event_types order store = (ok (order (map pair_of store.event_types)), store)
