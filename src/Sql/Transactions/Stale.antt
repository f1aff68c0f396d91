-- ===== src/Sql/Transactions/Stale.antt =====
-- The cache of type ids after a transaction that was rolled back.
use evercore.Base.{
  ℕ, ◌+◌, String, List, [], ◌∷◌, true, false, none, ◌≡◌, refl, ◌==◌, string_eq, nat_eq, arith,
}
use evercore.Base.Dict.{lookup, insert}
use evercore.Base.Outcome.{ok, err, wrap, storage, unique_violation}
use evercore.Types.{IdNamePair, SerializedEvent}
use evercore.Sql.Errors.{says_constraint_failed, is_no_rows}
use evercore.Sql.Tables.Rows.{Tables, any, max_id}
use evercore.Sql.Tables.Streams.{
  at_sequence, id_of_name, add_name, add_event, add_event_type, get_event_type_id_by_name,
}
use evercore.Sql.Tables.Database.{Database, at_rest, connection, queries, begin, rollback}
use evercore.Sql.Engine.Streams.{get_event_type_id, write_events, write_state}
use evercore.Sql.Engine.Interface.{sqlite_engine}
use evercore.Sql.Errors.{wrap_error}
use evercore.Store.State.{EventStore}
use evercore.Store.Types as Store
use evercore.Context.State.{publish}
use evercore.Context.Run.{with_context, finish}

id_of_name-absent :
    (name : String) (ps : List IdNamePair)
    → id_of_name name ps ≡ none
    → any (λ p. p.name == name) ps ≡ false
unfolding id_of_name
id_of_name-absent name [] h = refl
id_of_name-absent name (p ∷ ps) h = ground (arith, id_of_name-absent name ps)

module _ (t : Tables) where
  abbrev next_event_type : ℕ
  next_event_type = max_id (λ p. p.id) t.event_types + 1

  -- A name that is not registered gets the next id.
  registers :
      (name : String)
      → id_of_name name t.event_types ≡ none
      → (get_event_type_id (queries none) name (at_rest t)).0 ≡ ok next_event_type
  unfolding get_event_type_id get_event_type_id_by_name add_event_type add_name is_no_rows
  registers name fresh = rw (fresh, id_of_name-absent name t.event_types fresh)

  -- Over a SQL database at rest, a run of WithContext that publishes an event of a new type, not
  -- in the store's cache, at a sequence that is taken fails with a constraint violation and
  -- commits nothing, but leaves the new type's name in the store's cache under the id that the
  -- database gives to the next new name.
  pub with_context-stale :
      (clock : ℕ → ℕ) (s : EventStore Database) (e : SerializedEvent) (other : String)
      → s.storage_engine ≡ at_rest t
      → lookup e.event_type s.event_type_lookup ≡ none
      → id_of_name e.event_type t.event_types ≡ none
      → any (at_sequence e.aggregate_id e.sequence) t.events ≡ true
      → id_of_name other t.event_types ≡ none
      → (with_context (sqlite_engine connection) clock (publish e) s ≡ (
        err (
            wrap "failed to save state in WithContext" (
              storage "failed to add event" "constraint_violation"
                (unique_violation "events.aggregate_id, events.sequence"))),
        record s { event_type_lookup = insert e.event_type next_event_type s.event_type_lookup },
      ))
        × ((get_event_type_id (queries none) other (at_rest t)).0 ≡ ok next_event_type)
  unfolding with_context finish begin rollback publish Store.save_state Store.save_loop
      Store.get_event_type_id Store.storage_event get_event_type_id get_event_type_id_by_name
      add_event_type add_name is_no_rows write_state write_events add_event wrap_error
      says_constraint_failed
  with_context-stale clock s e other at uncached fresh taken unused =
      let absent = id_of_name-absent e.event_type t.event_types fresh in
      (
        rw at (
            rw (uncached, Store.get_event_type_id)
              (rw (fresh, absent) (rw taken (rw absent (rw taken refl))))),
        registers other unused,
      )
