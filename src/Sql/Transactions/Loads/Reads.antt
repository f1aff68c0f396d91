-- ===== src/Sql/Transactions/Loads/Reads.antt =====
-- A read of a stream after a `WithContext` that succeeded, over a SQL engine.
use mathlib.Core.List.{Perm}
use evercore.Base.{
  ℕ, suc, List, [], ◌∷◌, ◌++◌, none, some, ◌≡◌, refl, sym, ap, subst, ◌∙◌, ◌==◌, ◌&&◌, nat_eq,
  Bool-cases, inl, inr, with_default, map, keep_if,
}
use evercore.Base.Outcome.{M, ok}
use evercore.Base.Preserves.{
  Preserves, OnSuccess, OnSuccess-resume, OnSuccess-ok, OnSuccess-within, OnSuccess-both,
  Preserves-OnSuccess,
}
use evercore.Types.{IdNamePair, SerializedEvent, StorageEngineEvent, Snapshot}
use evercore.Sql.Tables.Rows.{Tables, any, order_by}
use evercore.Sql.Tables.Streams.{
  joined, add_event, add_snapshot, at_sequence, get_events_for_aggregate,
}
use evercore.Sql.Tables.Database.{Database, at_rest, in_transaction, connection, queries}
use evercore.Sql.Engine.Streams.{serialized, write_state}
use evercore.Sql.Engine.Streams as Engine
use evercore.Sql.Engine.Interface.{sqlite_engine}
use evercore.Sql.Transactions.{Inside, write_state-Inside}
use evercore.Sql.Transactions.Atomic.{saving, with_context-Atomic}
use evercore.Sql.Transactions.Appends.{Appended, Grown, write_state-Grown}
use evercore.Sql.Transactions.Loads.{Ready, Recorded, is_wanted, earlier_events, later_events}
use evercore.Sql.Transactions.Loads.Events.{ordered_events}
use evercore.Sql.Transactions.Loads.Ordered.{Ascends, order_by-perm, order_by-Ascends}
use evercore.Sql.Transactions.Loads.Saved.{Looped, save_loop-Looped}
use evercore.Sql.Transactions.Loads.Joined.{joined-Appended}
use evercore.Store.State.{EventStore, engine_call}
use evercore.Store.Types as Store
use evercore.Context.State.{Context}
use evercore.Context.Run.{with_context, run_in}

module _ (t : Tables) where
  abbrev HasTypes : List IdNamePair → Tables → Type 0
  HasTypes types v = v.event_types ≡ types

  add_event-HasTypes :
      (types : List IdNamePair) (e : StorageEngineEvent) → Preserves (HasTypes types) (add_event e)
  unfolding add_event
  add_event-HasTypes types e v h =
      elim (Bool-cases (any (at_sequence e.aggregate_id e.sequence) v.events)) [
        | inl taken ↦ rw taken h
        | inr free ↦ rw free h
      ]

  add_snapshot-HasTypes :
      (types : List IdNamePair) (e : Snapshot) → Preserves (HasTypes types) (add_snapshot e)
  unfolding add_snapshot
  add_snapshot-HasTypes types e v h =
      let twin =
        any (λ s. s.aggregate_id == e.aggregate_id && s.sequence == e.sequence) v.snapshots in
      elim (Bool-cases twin) [ inl taken ↦ rw taken h | inr free ↦ rw free h ]

  -- What a save leaves in its transaction: the records of the events, under ids that have their names.
  abbrev Written : Tables → (ℕ → ℕ) → List SerializedEvent → Database → Type 0
  Written u clock events db =
      (v : Tables) × (rs : List StorageEngineEvent) × (db ≡ in_transaction t v)
      × Recorded v clock events rs
      × Appended u.events rs v.events

  Recorded-types :
      (u v : Tables) (clock : ℕ → ℕ) (events : List SerializedEvent) (rs : List StorageEngineEvent)
      → v.event_types ≡ u.event_types
      → Recorded u clock events rs
      → Recorded v clock events rs
  Recorded-types u v clock [] [] same r = tt
  Recorded-types u v clock [] (r ∷ rs) same h = absurd h
  Recorded-types u v clock (e ∷ es) [] same h = absurd h
  Recorded-types u v clock (e ∷ es) (r ∷ rs) same (made, named, more) =
      (made, rw same named, Recorded-types u v (λ i. clock (suc i)) es rs same more)

  write_state-Written :
      (clock : ℕ → ℕ) (events : List SerializedEvent) (snapshots : List Snapshot) (u u' : Tables)
      (rs : List StorageEngineEvent) (s : EventStore Database)
      → Ready t s u'
      → u'.events ≡ u.events
      → Recorded u' clock events rs
      → OnSuccess
          (λ _ s'. Written u clock events s'.storage_engine)
          (engine_call (write_state (queries (some tt)) rs snapshots) s)
  write_state-Written clock events snapshots u u' rs s ready same recorded =
      let typed : Database → Type 0 = Inside t (HasTypes u'.event_types) in
      let written = write_state (queries (some tt)) rs snapshots s.storage_engine in
      OnSuccess-within (λ _ db. Grown t u.events rs db × typed db)
        (λ _ s'. Written u clock events s'.storage_engine) (λ d. record s { storage_engine = d })
        written
        (λ _ db ((v, begun, grown), (w, begun', types)).
          let v-is : w ≡ v = ap (λ d. with_default d.pending t) (sym begun' ∙ begun) in
          let types' : v.event_types ≡ u'.event_types =
            subst (λ x. x.event_types ≡ u'.event_types) v-is types in
          (v, rs, begun, Recorded-types u' v clock events rs types' recorded, grown))
        (OnSuccess-both (λ _. Grown t u.events rs) (λ _. typed) written
          (write_state-Grown t u.events rs snapshots s.storage_engine (u', ready.begun, same))
          (Preserves-OnSuccess typed written (
            write_state-Inside t (HasTypes u'.event_types) (add_event-HasTypes u'.event_types)
              (add_snapshot-HasTypes u'.event_types) rs snapshots s.storage_engine
              (u', ready.begun, refl))))

  save_state-Written :
      (clock : ℕ → ℕ) (ctx : Context Database (Unit {0})) (u : Tables)
      → Ready t ctx.store u
      → OnSuccess (λ _ s. Written u clock ctx.captured_events s.storage_engine) (saving clock ctx)
  unfolding Store.save_state
  save_state-Written clock ctx u ready =
      OnSuccess-resume (Looped t u clock ctx.captured_events [])
        (λ _ s. Written u clock ctx.captured_events s.storage_engine)
        (Store.save_loop (sqlite_engine connection) clock (some tt) ctx.captured_events []
          ctx.store)
        (λ all. engine_call (write_state (queries (some tt)) all ctx.snapshots))
        (save_loop-Looped t ctx.store u clock ctx.captured_events [] ready)
        (λ all s (u', rs, ready', (events, more, types), same, recorded). rw same (
          write_state-Written clock ctx.captured_events ctx.snapshots u u' rs s ready' events
            recorded))

  read_lem :
      (v : Tables) (aggregate_id after : ℕ)
      → (sqlite_engine connection).get_events_for_aggregate none aggregate_id after (at_rest v) ≡ (
        ok (
            map (serialized aggregate_id) (
              order_by
                (λ r. r.sequence)
                (joined v.event_types (keep_if (is_wanted aggregate_id after) v.events)))),
        at_rest v,
      )
  unfolding Engine.get_events_for_aggregate get_events_for_aggregate
  read_lem v aggregate_id after = refl

  -- Over a SQL database at rest, after a successful run of WithContext whose callback leaves its
  -- transaction open with the events as they were, a cache that agrees with its tables on event
  -- types, and distinct ids of these, a read of any stream after any sequence returns, in
  -- ascending order of their sequences and each once, the earlier events of it whose types have a
  -- name and the captured ones, each without an id, under the name of its type and with its
  -- sequence, state, reference and time, and changes nothing.
  pub with_context-loads :
      (clock : ℕ → ℕ) (exec : M (Context Database (Unit {0})) (Unit {0}))
      (s s' : EventStore Database) (u : Tables) (aggregate_id after : ℕ)
      → s.storage_engine ≡ at_rest t
      → let ctx = (run_in (some tt) exec (record s { storage_engine = in_transaction t t })).1 in
        Ready t ctx.store u
        → u.events ≡ t.events
        → with_context (sqlite_engine connection) clock exec s ≡ (ok tt, s')
        → (t' : Tables) × (events : List SerializedEvent) × (s'.storage_engine ≡ at_rest t')
          × ((sqlite_engine connection).get_events_for_aggregate none aggregate_id after
                s'.storage_engine
              ≡ (ok events, at_rest t'))
          × Perm events (
              earlier_events t'.event_types aggregate_id after t.events
              ++ later_events clock aggregate_id after ctx.captured_events)
          × Ascends (λ e. e.sequence) events
  with_context-loads clock exec s s' u aggregate_id after at ready same done =
      let ctx = (run_in (some tt) exec (record s { storage_engine = in_transaction t t })).1 in
      elim (with_context-Atomic clock t exec s at (u, ready.begun, tt)) [
        | inl (failed, _, _) ↦ absurd (failed (ap (λ r. r.0) done))
        | inr (t', saved, _, _, stored, open_t', ended) ↦
            let (v, rs, begun, recorded, grown) =
              OnSuccess-ok (λ _ s. Written u clock ctx.captured_events s.storage_engine)
                (saving clock ctx) tt saved stored (save_state-Written clock ctx u ready) in
            let v-is : v ≡ t' = ap (λ d. with_default d.pending t) (sym begun ∙ open_t') in
            let rests : s'.storage_engine ≡ at_rest v =
              ap (λ r. r.1.storage_engine) (sym done) ∙ ended ∙ ap at_rest (sym v-is) in
            let rows =
              joined-Appended v aggregate_id after clock ctx.captured_events rs t.events v.events
                recorded (subst (λ l. Appended l rs v.events) same grown) in
            let read =
              earlier_events v.event_types aggregate_id after t.events
              ++ later_events clock aggregate_id after ctx.captured_events in
            (
              v,
              order_by (λ e. e.sequence) read,
              rests,
              rw rests (
                  read_lem v aggregate_id after
                  ∙ ap (λ l. (ok l, at_rest v))
                      (ap (λ l. map (serialized aggregate_id) (order_by (λ r. r.sequence) l)) rows
                        ∙ ordered_events v.event_types aggregate_id after clock t.events
                            ctx.captured_events)),
              order_by-perm (λ e. e.sequence) read,
              order_by-Ascends (λ e. e.sequence) read,
            )
      ]
