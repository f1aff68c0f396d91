-- ===== src/Sql/Transactions.antt =====
-- What the engine does inside a transaction leaves the committed tables alone.

pub mod Atomic
pub mod Appends
pub mod Conflicts
pub mod Stale
pub mod Loads
pub mod Leaks
use evercore.Base.{
  ℕ, suc, inl, inr, Option-cases, nat_eq, string_eq, String, List, [], ◌∷◌, ◌++◌, Option, none,
  some, ◌≡◌, refl, ◌==◌, if◌then◌else◌,
}
use evercore.Base.Outcome.{M, Outcome, ok, err, ◌>>=◌, wrapping, pure}
use evercore.Base.Dict.{lookup, insert}
use evercore.Base.Preserves.{Preserves, >>=-Preserves, if-Preserves, resume-Preserves}
use evercore.Types.{SerializedEvent, StorageEngineEvent, Snapshot}
use evercore.Sql.Errors.{storing, absent_as}
use evercore.Sql.Tables.Rows.{Tables}
use evercore.Sql.Tables.Streams as Tables
use evercore.Sql.Tables.Database.{Database, in_transaction, statement, connection, queries}
use evercore.Sql.Engine.Streams.{get_event_type_id, write_events, write_snapshots, write_state}
use evercore.Sql.Engine.Interface.{sqlite_engine}
use evercore.Store.State.{EventStore, engine_call}
use evercore.Store.Types as Store

-- A transaction over these committed tables is open, and its own tables have this property.
abbrev pub Inside : Tables → (Tables → Type 0) → Database → Type 0
Inside t Q db = (t' : Tables) × (db ≡ in_transaction t t') × Q t'

-- The same of a store.
abbrev pub StoreInside : Tables → (Tables → Type 0) → EventStore Database → Type 0
StoreInside t Q s = Inside t Q s.storage_engine

abbrev pub AnyTables : Tables → Type 0
AnyTables t = Unit

abbrev pub Open : Tables → Database → Type 0
Open t = Inside t AnyTables

module _ (t : Tables) (Q : Tables → Type 0) where
  statement-Inside :
      {A : Type 0} (m : M Tables A) → Preserves Q m → Preserves (Inside t Q) (statement (some tt) m)
  statement-Inside m keeps db (t', e, q) = ((m t').1, rw e, keeps t' q)

  module _ (typed : (name : String) → Preserves Q (Tables.add_event_type name)) where
    get_event_type_id-Inside :
        (name : String) → Preserves (Inside t Q) (get_event_type_id (queries (some tt)) name)
    unfolding get_event_type_id Tables.get_event_type_id_by_name
    get_event_type_id-Inside name =
        let q = queries (some tt) in
        let ask : M Database ℕ =
          storing "failed to get event type id" (absent_as 0 (q.get_event_type_id_by_name name)) in
        let add : M Database ℕ = storing "failed to add event type" (q.add_event_type name) in
        >>=-Preserves (Inside t Q) ask (λ id. if id == 0 then add else pure id)
          (statement-Inside (Tables.get_event_type_id_by_name name) (λ u h. h))
          (λ id.
            if-Preserves (Inside t Q) (id == 0) add (pure id)
              (statement-Inside (Tables.add_event_type name) (typed name)) (λ db o. o))

    pub store_type_id-Inside :
        (name : String)
        → Preserves
            (StoreInside t Q)
            (Store.get_event_type_id (sqlite_engine connection) (some tt) name)
    unfolding Store.get_event_type_id
    store_type_id-Inside name s o = elim (Option-cases (lookup name s.event_type_lookup)) [
      | inr (i, hit) ↦ rw (hit, Store.get_event_type_id) o
      | inl miss ↦
          let asked = get_event_type_id-Inside name s.storage_engine o in
          rw (miss, Store.get_event_type_id)
            (resume-Preserves (StoreInside t Q)
              (wrapping "failed to get event type ID in getEventTypeId"
                (engine_call (get_event_type_id (queries (some tt)) name)) s)
              (λ id store. (
                ok id,
                record store { event_type_lookup = insert name id store.event_type_lookup },
              ))
              asked (λ id s' o'. o'))
    ]

module _ (t : Tables) where
  pub write_events-Inside :
      (Q : Tables → Type 0)
      → ((event : StorageEngineEvent) → Preserves Q (Tables.add_event event))
      → (events : List StorageEngineEvent)
      → Preserves (Inside t Q) (write_events (queries (some tt)) events)
  unfolding write_events
  write_events-Inside Q keeps [] = λ db o. o
  write_events-Inside Q keeps (event ∷ events) =
      >>=-Preserves (Inside t Q) _ _ (statement-Inside t Q (Tables.add_event event) (keeps event))
        (λ _. write_events-Inside Q keeps events)

  pub write_snapshots-Inside :
      (Q : Tables → Type 0)
      → ((snapshot : Snapshot) → Preserves Q (Tables.add_snapshot snapshot))
      → (snapshots : List Snapshot)
      → Preserves (Inside t Q) (write_snapshots (queries (some tt)) snapshots)
  unfolding write_snapshots
  write_snapshots-Inside Q keeps [] = λ db o. o
  write_snapshots-Inside Q keeps (snapshot ∷ snapshots) =
      >>=-Preserves (Inside t Q) _ _
        (statement-Inside t Q (Tables.add_snapshot snapshot) (keeps snapshot))
        (λ _. write_snapshots-Inside Q keeps snapshots)

  pub write_state-Inside :
      (Q : Tables → Type 0)
      → ((event : StorageEngineEvent) → Preserves Q (Tables.add_event event))
      → ((snapshot : Snapshot) → Preserves Q (Tables.add_snapshot snapshot))
      → (events : List StorageEngineEvent) (snapshots : List Snapshot)
      → Preserves (Inside t Q) (write_state (queries (some tt)) events snapshots)
  unfolding write_state
  write_state-Inside Q keeps keeps' events snapshots =
      >>=-Preserves (Inside t Q) _ _ (write_events-Inside Q keeps events)
        (λ _. write_snapshots-Inside Q keeps' snapshots)

  save_loop-Open :
      (clock : ℕ → ℕ) (events : List SerializedEvent) (acc : List StorageEngineEvent)
      → Preserves
          (StoreInside t AnyTables)
          (Store.save_loop (sqlite_engine connection) clock (some tt) events acc)
  unfolding Store.save_loop
  save_loop-Open clock [] acc = λ s o. o
  save_loop-Open clock (e ∷ es) acc =
      >>=-Preserves (StoreInside t AnyTables) _ _
        (store_type_id-Inside t AnyTables (λ _ u h. tt) e.event_type)
        (λ id. save_loop-Open (λ i. clock (suc i)) es _)

  pub save_state-Open :
      (clock : ℕ → ℕ) (events : List SerializedEvent) (snapshots : List Snapshot)
      → Preserves
          (StoreInside t AnyTables)
          (Store.save_state (sqlite_engine connection) clock (some tt) events snapshots)
  unfolding Store.save_state
  save_state-Open clock events snapshots =
      >>=-Preserves (StoreInside t AnyTables) _ _ (save_loop-Open clock events []) (λ rs s o.
        write_state-Inside AnyTables (λ _ u h. tt) (λ _ u h. tt) rs snapshots s.storage_engine o)
