-- ===== src/Sql/Transactions/Loads/Saved.antt =====
-- `SaveState` inside a transaction, with the ids of types that the store's cache and the tables have.
use mathlib.Core.List.{append_assoc, append-nil}
use evercore.Base.{
  ℕ, zero, suc, String, List, [], ◌∷◌, ◌++◌, some, ◌≡◌, refl, sym, ap, subst, ◌∙◌, nat_eq,
  string_eq, Option-cases, inl, inr, Eq-cases,
}
use evercore.Base.Dict.{lookup, insert, lookup-insert_self, lookup-insert_ne}
use evercore.Base.Outcome.{M, ok, wrapping}
use evercore.Base.Preserves.{
  OnSuccess, OnSuccess-relabel, OnSuccess-resume, OnSuccess-weaken, OnSuccess-within,
}
use evercore.Types.{SerializedEvent, StorageEngineEvent}
use evercore.Sql.Tables.Rows.{Tables}
use evercore.Sql.Tables.Streams.{name_of_id}
use evercore.Sql.Tables.Database.{Database, in_transaction, connection, queries}
use evercore.Sql.Engine.Streams.{get_event_type_id}
use evercore.Sql.Engine.Interface.{sqlite_engine}
use evercore.Sql.Transactions.Loads.{Ready, Recorded}
use evercore.Sql.Transactions.Loads.Names.{name_of_id-append}
use evercore.Store.State.{EventStore, engine_call}
use evercore.Store.Types as Store
use evercore.Sql.Transactions.Loads.Gains.{
  Extends, Extends-refl, Extends-trans, Added, Gained, get_event_type_id-Gained,
}

module _ (t : Tables) where
  -- The store has the id of a name, and its cache still agrees.
  abbrev Resolved : Tables → String → ℕ → EventStore Database → Type 0
  Resolved u name id s =
      (u' : Tables) × Ready t s u' × Extends u u' × (name_of_id id u'.event_types ≡ some name)

  remembered :
      (s s' : EventStore Database) (u u' : Tables) (name : String) (id : ℕ)
      → Ready t s u
      → Added t u name u' id
      → s'.storage_engine ≡ in_transaction t u'
      → s'.event_type_lookup ≡ s.event_type_lookup
      → Resolved u name id (record s' { event_type_lookup = insert name id s'.event_type_lookup })
  remembered s s' u u' name id ready ((events, more, types), apart, named) begun kept =
      let cached : (n : String) (i : ℕ)
          → lookup n (insert name id s.event_type_lookup) ≡ some i
          → name_of_id i u'.event_types ≡ some n =
        λ n i hit. elim (Eq-cases name n) [
          | inl same ↦
              let held : some id ≡ some i =
                sym (lookup-insert_self name id s.event_type_lookup)
                ∙ subst (λ k. lookup k (insert name id s.event_type_lookup) ≡ some i) (sym same)
                    hit in
              let at_i : id ≡ i = (let h = held in cc) in
              subst (λ k. name_of_id k u'.event_types ≡ some n) at_i (named ∙ ap some same)
          | inr other ↦ rw types (
              name_of_id-append i n u.event_types more (
                ready.cached n i
                  (sym (lookup-insert_ne name n id s.event_type_lookup other) ∙ hit)))
        ] in
      rw kept
        (u', record { begun = begun; apart = apart; cached = cached }, (events, more, types), named)

  store_type_id-Resolved :
      (s : EventStore Database) (u : Tables) (name : String)
      → Ready t s u
      → OnSuccess
          (Resolved u name)
          (Store.get_event_type_id (sqlite_engine connection) (some tt) name s)
  unfolding Store.get_event_type_id
  store_type_id-Resolved s u name ready = elim (Option-cases (lookup name s.event_type_lookup)) [
    | inr (id, hit) ↦
        rw (hit, Store.get_event_type_id) (u, ready, Extends-refl u, ready.cached name id hit)
    | inl miss ↦
        let ask : M Database ℕ = get_event_type_id (queries (some tt)) name in
        let Asked : ℕ → EventStore Database → Type 0 = λ id s'.
          Gained t u name id s'.storage_engine × (s'.event_type_lookup ≡ s.event_type_lookup) in
        let label : String = "failed to get event type ID in getEventTypeId" in
        let asked : OnSuccess (Gained t u name) (ask s.storage_engine) =
          subst (λ d. OnSuccess (Gained t u name) (ask d)) (sym ready.begun)
            (get_event_type_id-Gained t u name ready.apart) in
        rw (miss, Store.get_event_type_id)
          (OnSuccess-resume Asked (Resolved u name) (wrapping label (engine_call ask) s)
            (λ id s'.
              (ok id, record s' { event_type_lookup = insert name id s'.event_type_lookup }))
            (OnSuccess-relabel Asked label (engine_call ask s) (
              OnSuccess-within (Gained t u name) Asked (λ d. record s { storage_engine = d })
                (ask s.storage_engine) (λ id d gained. (gained, refl)) asked))
            (λ id s' ((u', begun, added), kept).
              remembered s s' u u' name id ready added begun kept))
  ]

  -- What the loop of a save leaves.
  abbrev pub Looped :
      Tables
      → (ℕ → ℕ)
      → List SerializedEvent
      → List StorageEngineEvent
      → List StorageEngineEvent
      → EventStore Database
      → Type 0
  Looped u clock events acc all s =
      (u' : Tables) × (rs : List StorageEngineEvent) × Ready t s u'
      × Extends u u'
      × (all ≡ acc ++ rs)
      × Recorded u' clock events rs

  Recorded-Looped :
      (u u' : Tables) (clock : ℕ → ℕ) (e : SerializedEvent) (es : List SerializedEvent) (id : ℕ)
      (acc : List StorageEngineEvent)
      → Extends u u'
      → name_of_id id u'.event_types ≡ some e.event_type
      → (all : List StorageEngineEvent) (s : EventStore Database)
      → Looped u' (λ i. clock (suc i)) es (acc ++ Store.storage_event (clock zero) id e ∷ []) all s
      → Looped u clock (e ∷ es) acc all s
  unfolding Store.storage_event
  Recorded-Looped u u' clock e es id acc grew named all s
        (u'', rs, ready, (events, more, types), same, recorded) =
      let r = Store.storage_event (clock zero) id e in
      let named' : name_of_id id u''.event_types ≡ some e.event_type =
        rw types (name_of_id-append id e.event_type u'.event_types more named) in
      (
        u'',
        r ∷ rs,
        ready,
        Extends-trans u u' u'' grew (events, more, types),
        same ∙ append_assoc acc (r ∷ []) rs,
        (refl, named', recorded),
      )

  pub save_loop-Looped :
      (s : EventStore Database) (u : Tables) (clock : ℕ → ℕ) (events : List SerializedEvent)
      (acc : List StorageEngineEvent)
      → Ready t s u
      → OnSuccess
          (Looped u clock events acc)
          (Store.save_loop (sqlite_engine connection) clock (some tt) events acc s)
  unfolding Store.save_loop
  save_loop-Looped s u clock [] acc ready = (u, [], ready, Extends-refl u, sym (append-nil acc), tt)
  save_loop-Looped s u clock (e ∷ es) acc ready =
      let engine = sqlite_engine connection in
      let label : String = "failed to get event type ID in SaveState" in
      let ask = Store.get_event_type_id engine (some tt) e.event_type in
      OnSuccess-resume (Resolved u e.event_type) (Looped u clock (e ∷ es) acc)
        (wrapping label ask s)
        (λ id.
          Store.save_loop engine (λ i. clock (suc i)) (some tt) es
            (acc ++ Store.storage_event (clock zero) id e ∷ []))
        (OnSuccess-relabel (Resolved u e.event_type) label (ask s)
          (store_type_id-Resolved s u e.event_type ready))
        (λ id s' (u', ready', grew, named).
          let acc' = acc ++ Store.storage_event (clock zero) id e ∷ [] in
          OnSuccess-weaken (Looped u' (λ i. clock (suc i)) es acc') (Looped u clock (e ∷ es) acc) _
            (Recorded-Looped u u' clock e es id acc grew named)
            (save_loop-Looped s' u' (λ i. clock (suc i)) es acc' ready'))
