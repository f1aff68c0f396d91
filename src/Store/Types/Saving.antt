-- ===== src/Store/Types/Saving.antt =====
-- `SaveState` over the in-memory engine: what it appends to the log.
use mathlib.Core.List.{append-nil, append_assoc}
use evercore.Base.{
  ℕ, zero, suc, String, List, [], ◌∷◌, ◌++◌, Option, none, some, ◌≡◌, refl, sym, ap, subst, ◌∙◌,
  inl, inr, nat_eq, string_eq, Option-cases, Eq-cases,
}
use evercore.Base.Dict.{Dict, lookup, insert, lookup-insert_self, lookup-insert_ne}
use evercore.Base.Outcome.{ok}
use evercore.Types.{IdNamePair, SerializedEvent, StorageEngineEvent, Snapshot}
use evercore.Memory.State.{Memory}
use evercore.Memory.TypeIds as Engine
use evercore.Memory.TypeIds.Registry.{EventTypesValid, get_event_type_id-Valid}
use evercore.Memory.TypeIds.Registry.Naming.{resolve, keeps}
use evercore.Memory.Frames.{without_types, get_event_type_id-frame}
use evercore.Memory.Engine.{memory_engine}
use evercore.Memory.Events.{write_state}
use evercore.Store.State.{EventStore}
use evercore.Store.Types.{
  get_event_type_id, remember_event_type, save_loop, save_state, storage_event,
}

-- The engine's tables of event types are inverse to one another, and what the store has cached
-- is in them.
pub record StoreValid (s : EventStore Memory) : Type 0 where
  pub registered : EventTypesValid s.storage_engine
  pub cached :
      (n : String) (i : ℕ)
      → lookup n s.event_type_lookup ≡ some i
      → lookup n s.storage_engine.event_types ≡ some i

-- A store that has changed in its type ids only, and where every name keeps its id.
pub record Extends (s s' : EventStore Memory) : Type 0 where
  pub kept :
      (n : String) (i : ℕ)
      → lookup n s.storage_engine.event_types ≡ some i
      → lookup n s'.storage_engine.event_types ≡ some i
  pub frame : without_types s'.storage_engine ≡ without_types s.storage_engine

Extends-trans : {s t u : EventStore Memory} → Extends s t → Extends t u → Extends s u
Extends-trans a b = record { kept = λ n i h. b.kept n i (a.kept n i h); frame = b.frame ∙ a.frame }

module _ (order : List IdNamePair → List IdNamePair) (tx : Option (Unit {0})) where
  abbrev Resolves : String → EventStore Memory → Type 0
  Resolves name s =
      (i : ℕ) × (s' : EventStore Memory) × (get_event_type_id (memory_engine order) tx name s
        ≡ (ok i, s'))
      × StoreValid s'
      × Extends s s'
      × (lookup name s'.storage_engine.event_types ≡ some i)

  resolve_new :
      (name : String) (s : EventStore Memory)
      → StoreValid s
      → lookup name s.event_type_lookup ≡ none
      → Resolves name s
  unfolding get_event_type_id remember_event_type
  resolve_new name s v fresh =
      let m = s.storage_engine in
      let (i, got, at) = resolve name m v.registered in
      (
        i,
        record s {
          storage_engine = (Engine.get_event_type_id name m).1;
          event_type_lookup = insert name i s.event_type_lookup;
        },
        rw (fresh, get_event_type_id) (rw got),
        record {
          registered = get_event_type_id-Valid name m v.registered;
          cached = λ n j h. elim (Eq-cases name n) [
            | inl same ↦
                let here : lookup n (insert name i s.event_type_lookup) ≡ some i =
                  subst (λ x. lookup x (insert name i s.event_type_lookup) ≡ some i) same
                    (lookup-insert_self name i s.event_type_lookup) in
                let it : some i ≡ some j = sym here ∙ h in
                subst (λ x. lookup x (Engine.get_event_type_id name m).1.event_types ≡ some i) same
                  at
                ∙ it
            | inr other ↦
                keeps n name m j
                  (v.cached n j (sym (lookup-insert_ne name n i s.event_type_lookup other) ∙ h))
          ];
        },
        record { kept = λ n j h. keeps n name m j h; frame = get_event_type_id-frame name m },
        at,
      )

  resolve_lem : (name : String) (s : EventStore Memory) → StoreValid s → Resolves name s
  unfolding get_event_type_id
  resolve_lem name s v = elim (Option-cases (lookup name s.event_type_lookup)) [
    | inl fresh ↦ resolve_new name s v fresh
    | inr (i, hit) ↦ (
      i,
      s,
      rw (hit, get_event_type_id),
      v,
      record { kept = λ n j h. h; frame = refl },
      v.cached name i hit,
    )
  ]

-- The records of some events: each as `SaveState` makes it, under an id of
-- its event type in the engine's table of names.
abbrev pub Records :
    Dict ℕ String → (ℕ → ℕ) → List SerializedEvent → List StorageEngineEvent → Type 0
Records names clock [] [] = Unit
Records names clock (e ∷ es) [] = ⊥
Records names clock [] (r ∷ rs) = ⊥
Records names clock (e ∷ es) (r ∷ rs) =
    (r ≡ storage_event (clock zero) r.event_type_id e)
    × (lookup r.event_type_id names ≡ some e.event_type)
    × Records names (λ i. clock (suc i)) es rs

module _ (order : List IdNamePair → List IdNamePair) (tx : Option (Unit {0})) where
  save_loop-Records :
      (clock : ℕ → ℕ) (events : List SerializedEvent) (acc : List StorageEngineEvent)
      (s : EventStore Memory)
      → StoreValid s
      → (rs : List StorageEngineEvent) × (s' : EventStore Memory) × (save_loop
            (memory_engine order)
            clock
            tx
            events
            acc
            s
          ≡ (ok (acc ++ rs), s'))
        × StoreValid s'
        × Extends s s'
        × Records s'.storage_engine.event_types_inv clock events rs
  unfolding save_loop storage_event
  save_loop-Records clock [] acc s v =
      ([], s, rw (append-nil acc), v, record { kept = λ n j h. h; frame = refl }, tt)
  save_loop-Records clock (e ∷ es) acc s v =
      let (i, s1, got, v1, x1, at) = resolve_lem order tx e.event_type s v in
      let r = storage_event (clock zero) i e in
      let (rs, s2, ran, v2, x2, rest) =
        save_loop-Records (λ i. clock (suc i)) es (acc ++ r ∷ []) s1 v1 in
      (
        r ∷ rs,
        s2,
        rw got (ran ∙ ap (λ l. (ok l, s2)) (append_assoc acc (r ∷ []) rs)),
        v2,
        Extends-trans x1 x2,
        (refl, v2.registered.forward e.event_type i (x2.kept e.event_type i at), rest),
      )

  -- Saving succeeds on a valid store. It appends to the log one record for each event, in order,
  -- and the snapshots to theirs.
  pub save_state-Records :
      (clock : ℕ → ℕ) (events : List SerializedEvent) (snapshots : List Snapshot)
      (s : EventStore Memory)
      → StoreValid s
      → (rs : List StorageEngineEvent) × (s' : EventStore Memory) × (save_state
            (memory_engine order)
            clock
            tx
            events
            snapshots
            s
          ≡ (ok tt, s'))
        × StoreValid s'
        × Records s'.storage_engine.event_types_inv clock events rs
        × (s'.storage_engine.captured_events ≡ s.storage_engine.captured_events ++ rs)
        × (s'.storage_engine.captured_snapshots ≡ s.storage_engine.captured_snapshots ++ snapshots)
  unfolding save_state write_state
  save_state-Records clock events snapshots s v =
      let (rs, s1, ran, v1, x, recorded) = save_loop-Records clock events [] s v in
      (
        rs,
        record s1 { storage_engine = (write_state rs snapshots s1.storage_engine).1 },
        rw ran,
        record { registered = v1.registered; cached = v1.cached },
        recorded,
        ap (λ m. m.captured_events ++ rs) x.frame,
        ap (λ m. m.captured_snapshots ++ snapshots) x.frame,
      )
