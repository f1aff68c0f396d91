-- ===== src/Store/Warmup/Known.antt =====
-- `Warmup` over any engine where every known type is there already.
use evercore.Base.{
  String, Bool, true, false, List, [], ◌∷◌, some, ◌≡◌, refl, ap, ◌∙◌, ◌==◌, nat_eq, string_eq, All,
  inl, inr, with_default, Eq-cases, ==_refl, ==_ne,
}
use evercore.Base.Dict.{lookup, lookup-insert_self, lookup-insert_ne}
use evercore.Base.Outcome.{ok}
use evercore.Types.{IdNamePair, map_name_to_id}
use evercore.Engine.{StorageEngine}
use evercore.Sql.Tables.Rows.{any}
use evercore.Store.State.{EventStore}
use evercore.Store.Warmup.{
  warmup, add_event_types, add_aggregate_types, name_set, is_listed, warm, warm_event_types,
  warm_aggregate_types, warm_event_types_if_empty, warm_aggregate_types_if_empty, commit_if,
}

abbrev pub has_name : List IdNamePair → String → Bool
has_name types name = any (λ p. p.name == name) types

-- The set that is built of the types says which names they have.
is_listed-has_name :
    (types : List IdNamePair) (name : String) → is_listed types name ≡ has_name types name
unfolding lookup
is_listed-has_name [] name = refl
is_listed-has_name (p ∷ ps) name = elim (Eq-cases p.name name) [
  | inl same ↦
      rw (same, ==_refl name)
        (ap (λ o. with_default o false) (lookup-insert_self name true (name_set ps)))
  | inr other ↦ rw (==_ne p.name name other) (
      ap (λ o. with_default o false) (lookup-insert_ne p.name name true (name_set ps) other)
      ∙ is_listed-has_name ps name)
]

module _ {S Tx : Type 0} (engine : StorageEngine S Tx) (tx : Tx) (found : List IdNamePair) where
  -- A loop over names that all are there does nothing.
  add_event_types-known :
      (names : List String) (updated : Bool) (s : EventStore S)
      → All (λ n. has_name found n ≡ true) names
      → add_event_types engine tx found names updated s ≡ (ok updated, s)
  unfolding add_event_types
  add_event_types-known [] updated s all = refl
  add_event_types-known (n ∷ names) updated s (known, all) =
      rw (is_listed-has_name found n, known) (add_event_types-known names updated s all)

  add_aggregate_types-known :
      (names : List String) (updated : Bool) (s : EventStore S)
      → All (λ n. has_name found n ≡ true) names
      → add_aggregate_types engine tx found names updated s ≡ (ok updated, s)
  unfolding add_aggregate_types
  add_aggregate_types-known [] updated s all = refl
  add_aggregate_types-known (n ∷ names) updated s (known, all) =
      rw (is_listed-has_name found n, known) (add_aggregate_types-known names updated s all)

module _ {S Tx : Type 0} (engine : StorageEngine S Tx) (tx : Tx)
    (events aggregates : List IdNamePair) where
  -- Nothing is added, and the transaction is neither committed nor rolled back.
  pub warmup_known :
      (store : EventStore S) (begun listed listed' : S) (aggregate_types event_types : List String)
      → engine.get_transaction_info store.storage_engine ≡ (ok tx, begun)
      → engine.get_event_types (some tx) begun ≡ (ok events, listed)
      → engine.get_aggregate_types (some tx) listed ≡ (ok aggregates, listed')
      → store.event_type_lookup ≡ []
      → store.aggregate_type_lookup ≡ []
      → All (λ n. has_name aggregates n ≡ true) aggregate_types
      → All (λ n. has_name events n ≡ true) event_types
      → warmup engine aggregate_types event_types store ≡ (
        ok tt,
        record {
          storage_engine = listed';
          event_type_lookup = map_name_to_id events;
          aggregate_type_lookup = map_name_to_id aggregates;
        },
      )
  unfolding warmup warm warm_event_types warm_aggregate_types warm_event_types_if_empty
      warm_aggregate_types_if_empty commit_if
  warmup_known store begun listed listed' aggregate_types event_types opens reads reads' none_yet
        none_yet' known known' =
      rw (none_yet, none_yet', opens)
        (rw reads (
          rw (add_event_types-known engine tx events event_types false _ known') (
            rw reads' (
              rw (add_aggregate_types-known engine tx aggregates aggregate_types false _ known)
                refl))))
