-- ===== src/Sql/Transactions/Appends.antt =====
-- What a successful `WithContext` over a SQL engine adds to the committed events.
use mathlib.Core.List.{append_assoc, append-nil}
use evercore.Base.{
  ℕ, String, zero, suc, ◌+◌, List, [], ◌∷◌, ◌++◌, false, some, ◌≡◌, refl, sym, ap, subst, ◌∙◌, inl,
  inr, Bool-cases, with_default, ◌==◌, nat_eq, ◌&&◌,
}
use evercore.Base.Outcome.{M, Outcome, ok, err, panic, wrapping}
use evercore.Base.Preserves.{
  Preserves, OnSuccess, Ensures, OnSuccess-resume, Preserves-OnSuccess, OnSuccess-ok,
  OnSuccess-weaken, OnSuccess-within,
}
use evercore.Sql.Errors.{wrap_outcome, storing}
use evercore.Types.{SerializedEvent, StorageEngineEvent, Snapshot}
use evercore.Sql.Tables.Rows.{Tables, EventRow, any, max_id}
use evercore.Sql.Tables.Streams.{add_event_type, add_event, add_snapshot, at_sequence}
use evercore.Sql.Tables.Database.{Database, at_rest, in_transaction, connection, queries}
use evercore.Sql.Engine.Streams.{write_events, write_state}
use evercore.Sql.Engine.Interface.{sqlite_engine}
use evercore.Sql.Reads.{row_of}
use evercore.Sql.Transactions.{Inside, StoreInside, store_type_id-Inside, write_snapshots-Inside}
use evercore.Sql.Transactions.Atomic.{saving, with_context-Atomic}
use evercore.Store.State.{EventStore, engine_call}
use evercore.Store.Types as Store
use evercore.Context.State.{Context}
use evercore.Context.Run.{with_context, run_in}

-- The records that are made of some events: each as `SaveState` makes it, under some id.
abbrev pub Stamped : (ℕ → ℕ) → List SerializedEvent → List StorageEngineEvent → Type 0
Stamped clock [] [] = Unit
Stamped clock (e ∷ es) [] = ⊥
Stamped clock [] (r ∷ rs) = ⊥
Stamped clock (e ∷ es) (r ∷ rs) =
    (r ≡ Store.storage_event (clock zero) r.event_type_id e) × Stamped (λ i. clock (suc i)) es rs

-- A table of events with these records appended, each at a sequence of its aggregate that no
-- earlier row has.
abbrev pub Appended : List EventRow → List StorageEngineEvent → List EventRow → Type 0
Appended rows [] all = all ≡ rows
Appended rows (e ∷ es) all =
    (any (at_sequence e.aggregate_id e.sequence) rows ≡ false)
    × Appended (rows ++ row_of (max_id (λ r. r.id) rows + 1) e ∷ []) es all

abbrev pub Holding : List EventRow → Tables → Type 0
Holding rows t = t.events ≡ rows

pub OnSuccess-storing :
    {D A : Type 0} (Q : A → D → Type 0) (msg : String) (r : Outcome A × D)
    → OnSuccess Q r
    → OnSuccess Q (wrap_outcome msg r.0, r.1)
OnSuccess-storing Q msg (ok a, s) q = q
OnSuccess-storing Q msg (err e, s) q = q
OnSuccess-storing Q msg (panic m, s) q = q

module _ (t : Tables) where
  -- Inside the transaction the events are `rows`, with these records after them.
  abbrev pub Grown : List EventRow → List StorageEngineEvent → Database → Type 0
  Grown rows es = Inside t (λ u. Appended rows es u.events)

  added-Inside :
      (rows : List EventRow) (e : StorageEngineEvent)
      → Ensures (Inside t (Holding rows)) ((queries (some tt)).add_event e) (λ _ db.
        (any (at_sequence e.aggregate_id e.sequence) rows ≡ false)
        × Inside t (Holding (rows ++ row_of (max_id (λ r. r.id) rows + 1) e ∷ [])) db)
  unfolding add_event
  added-Inside rows e db (t', begun, held) =
      rw begun (elim (Bool-cases (any (at_sequence e.aggregate_id e.sequence) t'.events)) [
        | inl taken ↦ rw taken tt
        | inr free ↦ rw free (
            (
              ap (any (at_sequence e.aggregate_id e.sequence)) (sym held) ∙ free,
              (_, refl, ap (λ l. l ++ row_of (max_id (λ r. r.id) l + 1) e ∷ []) held),
            ))
      ])

  write_events-Grown :
      (rows : List EventRow) (es : List StorageEngineEvent)
      → Ensures (Inside t (Holding rows)) (write_events (queries (some tt)) es) (λ _. Grown rows es)
  unfolding write_events
  write_events-Grown rows [] db o = o
  write_events-Grown rows (e ∷ es) db o =
      let grown = rows ++ row_of (max_id (λ r. r.id) rows + 1) e ∷ [] in
      let free = any (at_sequence e.aggregate_id e.sequence) rows ≡ false in
      let added : Unit {0} → Database → Type 0 = λ _ d. free × Inside t (Holding grown) d in
      let add = (queries (some tt)).add_event e in
      OnSuccess-resume added (λ _. Grown rows (e ∷ es)) (storing "failed to add event" add db)
        (λ _. write_events (queries (some tt)) es)
        (OnSuccess-storing added "failed to add event" (add db) (added-Inside rows e db o))
        (λ _ d (f, q).
          OnSuccess-weaken (λ _. Grown grown es) (λ _. Grown rows (e ∷ es)) _
            (λ _ d' (t', begun, more). (t', begun, (f, more))) (write_events-Grown grown es d q))

  add_snapshot-Grown :
      (rows : List EventRow) (es : List StorageEngineEvent) (snapshot : Snapshot)
      → Preserves (λ u. Appended rows es u.events) (add_snapshot snapshot)
  unfolding add_snapshot
  add_snapshot-Grown rows es snapshot u h =
      let twin =
        any (λ s. s.aggregate_id == snapshot.aggregate_id && s.sequence == snapshot.sequence)
          u.snapshots in
      elim (Bool-cases twin) [ inl found ↦ rw found h | inr new ↦ rw new h ]

  -- The snapshots leave the events alone.
  pub write_state-Grown :
      (rows : List EventRow) (es : List StorageEngineEvent) (snapshots : List Snapshot)
      → Ensures
          (Inside t (Holding rows))
          (write_state (queries (some tt)) es snapshots)
          (λ _. Grown rows es)
  unfolding write_state
  write_state-Grown rows es snapshots db o =
      OnSuccess-resume (λ _. Grown rows es) (λ _. Grown rows es) _ _
        (write_events-Grown rows es db o)
        (λ _ d q. Preserves-OnSuccess (Grown rows es) _ (
          write_snapshots-Inside t (λ u. Appended rows es u.events) (add_snapshot-Grown rows es)
            snapshots d q))

  -- What the loop of a save leaves: a record for each event, and the events of the tables as before.
  abbrev Saved :
      List EventRow
      → (ℕ → ℕ)
      → List SerializedEvent
      → List StorageEngineEvent
      → List StorageEngineEvent
      → EventStore Database
      → Type 0
  Saved rows clock events acc all s =
      ((rs : List StorageEngineEvent) × (all ≡ acc ++ rs) × Stamped clock events rs)
      × StoreInside t (Holding rows) s

  -- The type ids that a save asks for do not change the events.
  save_loop-Stamped :
      (rows : List EventRow) (clock : ℕ → ℕ) (events : List SerializedEvent)
      (acc : List StorageEngineEvent)
      → Ensures
          (StoreInside t (Holding rows))
          (Store.save_loop (sqlite_engine connection) clock (some tt) events acc)
          (Saved rows clock events acc)
  unfolding Store.save_loop Store.storage_event add_event_type
  save_loop-Stamped rows clock [] acc s o = (([], sym (append-nil acc), tt), o)
  save_loop-Stamped rows clock (e ∷ es) acc s o =
      let engine = sqlite_engine connection in
      let ask = Store.get_event_type_id engine (some tt) e.event_type in
      OnSuccess-resume (λ _. StoreInside t (Holding rows)) (Saved rows clock (e ∷ es) acc)
        (wrapping "failed to get event type ID in SaveState" ask s)
        (λ id.
          Store.save_loop engine (λ i. clock (suc i)) (some tt) es
            (acc ++ Store.storage_event (clock zero) id e ∷ []))
        (Preserves-OnSuccess (StoreInside t (Holding rows)) _
          (store_type_id-Inside t (Holding rows) (λ _ u h. h) e.event_type s o))
        (λ id s' o'.
          let r = Store.storage_event (clock zero) id e in
          OnSuccess-weaken (Saved rows (λ i. clock (suc i)) es (acc ++ r ∷ []))
            (Saved rows clock (e ∷ es) acc) _
            (λ all s'' ((rs, here, more), o'').
              ((r ∷ rs, here ∙ append_assoc acc (r ∷ []) rs, (refl, more)), o''))
            (save_loop-Stamped rows (λ i. clock (suc i)) es (acc ++ r ∷ []) s' o'))

  -- A save that succeeds has appended a record for each event.
  save_state-Grown :
      (clock : ℕ → ℕ) (ctx : Context Database (Unit {0})) (s : EventStore Database)
      → StoreInside t (Holding t.events) ctx.store
      → saving clock ctx ≡ (ok tt, s)
      → (rs : List StorageEngineEvent) × Stamped clock ctx.captured_events rs
        × Grown t.events rs s.storage_engine
  unfolding Store.save_state
  save_state-Grown clock ctx s o saved =
      let goal : Unit {0} → EventStore Database → Type 0 = λ _ s.
        (rs : List StorageEngineEvent) × Stamped clock ctx.captured_events rs
        × Grown t.events rs s.storage_engine in
      let looped = save_loop-Stamped t.events clock ctx.captured_events [] ctx.store o in
      OnSuccess-ok goal (saving clock ctx) tt s saved (
        OnSuccess-resume (Saved t.events clock ctx.captured_events []) goal
          (Store.save_loop (sqlite_engine connection) clock (some tt) ctx.captured_events []
            ctx.store)
          (λ all. engine_call (write_state (queries (some tt)) all ctx.snapshots)) looped
          (λ all s' ((rs, same, stamped), held).
            let written = write_state-Grown t.events rs ctx.snapshots s'.storage_engine held in
            rw same (
              OnSuccess-within (λ _. Grown t.events rs) goal (λ d. record s' { storage_engine = d })
                (write_state (queries (some tt)) rs ctx.snapshots s'.storage_engine)
                (λ _ d grown. (rs, stamped, grown)) written)))

  -- Over a SQL database at rest, a successful run of WithContext, whose callback leaves its
  -- transaction open with the events as they were, commits tables whose events are the earlier
  -- ones and then one row for each captured event, in order: the record that SaveState makes of
  -- it under some event type id, at the next id of a row, and at a sequence of its aggregate that
  -- no earlier row has. No transaction stays open.
  pub with_context-appends :
      (clock : ℕ → ℕ) (exec : M (Context Database (Unit {0})) (Unit {0}))
      (s s' : EventStore Database)
      → s.storage_engine ≡ at_rest t
      → let begun = record s { storage_engine = in_transaction t t } in
        StoreInside t (Holding t.events) (run_in (some tt) exec begun).1.store
        → with_context (sqlite_engine connection) clock exec s ≡ (ok tt, s')
        → (t' : Tables) × (rs : List StorageEngineEvent) × (s'.storage_engine ≡ at_rest t')
          × Stamped clock (run_in (some tt) exec begun).1.captured_events rs
          × Appended t.events rs t'.events
  with_context-appends clock exec s s' at (u, left, held) done =
      let begun : EventStore Database = record s { storage_engine = in_transaction t t } in
      let ctx = (run_in (some tt) exec begun).1 in
      elim (with_context-Atomic clock t exec s at (u, left, tt)) [
        | inl (failed, _, _) ↦ absurd (failed (ap (λ r. r.0) done))
        | inr (t', saved, _, _, stored, open_t', ended) ↦
            let (rs, stamped, (t'', open_t'', grown)) =
              save_state-Grown clock ctx saved (u, left, held) stored in
            (
              t',
              rs,
              ap (λ r. r.1.storage_engine) (sym done) ∙ ended,
              stamped,
              subst (λ d. Appended t.events rs (with_default d.pending t).events)
                  (sym open_t'' ∙ open_t') grown,
            )
      ]
