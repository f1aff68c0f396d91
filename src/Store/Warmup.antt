-- ===== src/Store/Warmup.antt =====
-- `Warmup` of base/eventstore.go. What it logs is left out.
pub mod Known
use evercore.Base.{
  String, Bool, true, false, ◌&&◌, List, [], ◌∷◌, some, length, ltb, if◌then◌else◌, ◌==◌,
  with_default, nat_eq, string_eq,
}
use evercore.Base.Dict.{Dict, lookup, insert}
use evercore.Base.Outcome.{M, ok, ◌>>=◌, wrapping, pure}
use evercore.Types.{IdNamePair, map_name_to_id}
use evercore.Engine.{StorageEngine}
use evercore.Store.State.{EventStore, engine_call}

-- The set of names built from the pairs, and a lookup in it.
abbrev pub name_set : List IdNamePair → Dict String Bool
name_set [] = []
name_set (p ∷ ps) = insert p.name true (name_set ps)

abbrev pub is_listed : List IdNamePair → String → Bool
is_listed ps name = with_default (lookup name (name_set ps)) false

module _ {S Tx : Type 0} (engine : StorageEngine S Tx) (tx : Tx) where
  -- The loop over the known event types. The Boolean is `databaseUpdated`.
  add_event_types : List IdNamePair → List String → Bool → M (EventStore S) Bool
  add_event_types found [] updated store = (ok updated, store)
  add_event_types found (name ∷ names) updated store =
      let skip = add_event_types found names updated store in
      let add =
        ◌>>=◌
          (wrapping "failed to get event type ID in Warmup"
            (engine_call (engine.get_event_type_id (some tx) name)))
          (λ id s.
            add_event_types found names true
              (record s { event_type_lookup = insert name id s.event_type_lookup }))
          store in
      if is_listed found name then skip else add

  add_aggregate_types : List IdNamePair → List String → Bool → M (EventStore S) Bool
  add_aggregate_types found [] updated store = (ok updated, store)
  add_aggregate_types found (name ∷ names) updated store =
      let skip = add_aggregate_types found names updated store in
      let add =
        ◌>>=◌
          (wrapping "failed to get aggregate type ID in Warmup"
            (engine_call (engine.get_aggregate_type_id (some tx) name)))
          (λ id s.
            add_aggregate_types found names true
              (record s { aggregate_type_lookup = insert name id s.aggregate_type_lookup }))
          store in
      if is_listed found name then skip else add

  warm_event_types : List String → M (EventStore S) Bool
  unfolding add_event_types
  warm_event_types names = do
    found ←
        wrapping "failed to get event types in Warmup"
          (engine_call (engine.get_event_types (some tx)))
    updated ← add_event_types found names false
    λ s. (ok updated, record s { event_type_lookup = map_name_to_id found })

  warm_aggregate_types : List String → Bool → M (EventStore S) Bool
  unfolding add_aggregate_types
  warm_aggregate_types names updated = do
    found ←
        wrapping "failed to get aggregate types in Warmup"
          (engine_call (engine.get_aggregate_types (some tx)))
    (λ s.
        add_aggregate_types found names updated
          (record s { aggregate_type_lookup = map_name_to_id found }))

  -- `if len(lookup) == 0 { … }`
  warm_event_types_if_empty : List String → M (EventStore S) Bool
  unfolding warm_event_types
  warm_event_types_if_empty names store =
      if length store.event_type_lookup == 0
      then warm_event_types names store
      else (ok false, store)

  warm_aggregate_types_if_empty : List String → Bool → M (EventStore S) Bool
  unfolding warm_aggregate_types
  warm_aggregate_types_if_empty names updated store =
      if length store.aggregate_type_lookup == 0
      then warm_aggregate_types names updated store
      else (ok updated, store)

  commit_if : Bool → M (EventStore S) (Unit {0})
  commit_if updated =
      if updated
      then wrapping "failed to commit transaction in Warmup" (engine_call (engine.commit tx))
      else pure tt

module _ {S Tx : Type 0} (engine : StorageEngine S Tx) where
  warm : List String → List String → M (EventStore S) (Unit {0})
  unfolding warm_event_types_if_empty warm_aggregate_types_if_empty commit_if
  warm known_aggregate_types known_event_types = do
    tx ←
        wrapping "failed to get transaction info in Warmup"
          (engine_call engine.get_transaction_info)
    updated ← warm_event_types_if_empty engine tx known_event_types
    updated' ← warm_aggregate_types_if_empty engine tx known_aggregate_types updated
    commit_if engine tx updated'

  unfoldable pub warmup : List String → List String → M (EventStore S) (Unit {0})
  unfolding warm
  warmup known_aggregate_types known_event_types store =
      if ltb 0 (length store.event_type_lookup) && ltb 0 (length store.aggregate_type_lookup)
      then (ok tt, store)
      else warm known_aggregate_types known_event_types store
