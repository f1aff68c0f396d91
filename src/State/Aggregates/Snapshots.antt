-- ===== src/State/Aggregates/Snapshots.antt =====
-- A snapshot of a `StateAggregate` in place of the events before it.
use evercore.Base.{
  ℕ, String, List, [], ◌∷◌, ◌++◌, Option, none, some, ◌≡◌, refl, sym, ap, ◌∙◌, inl, inr,
  Option-cases,
}
use evercore.Base.Outcome.{M, Outcome, ok, err, panic, resume, wrapping}
use evercore.Types.{Snapshot, SerializedEvent}
use evercore.Context.Replay.{replay, apply_state}
use evercore.Context.Replay.Snapshots.{apply_state-snapshot}
use evercore.State.Fields.{Reflection}
use evercore.State.Aggregates.{
  State, Change, StateAggregate, Json, state_aggregate, apply_event_state, apply_snapshot,
  get_snapshot_state,
}

-- A struct that was written as JSON is read back as it was.
abbrev pub RoundTrips : {V : Type 0} → Json V → Type 0
RoundTrips {V} json =
    (state : State V) (text : String)
    → json.marshal state ≡ ok text
    → json.unmarshal text ≡ ok state

module _ {V E : Type 0} (r : Reflection V) (json : Json V) (type_name : String)
    (get_state : E → Option (Change V)) (decode : SerializedEvent → Outcome E) where
  -- The aggregate with another struct.
  abbrev with_state : StateAggregate V → State V → StateAggregate V
  with_state t state = record t { state = state }

  apply_event_state-keeps :
      (e : E) (time : ℕ) (reference : String) (t : StateAggregate V)
      → let t' = (apply_event_state r json type_name get_state e time reference t).1 in
        t' ≡ with_state t t'.state
  unfolding apply_event_state
  apply_event_state-keeps e time reference t = elim (Option-cases (get_state e)) [
    | inl none_there ↦ rw (none_there, apply_event_state)
    | inr (change, there) ↦ rw (there, apply_event_state)
  ]

  resume_keeps :
      {A B : Type 0} (s : Outcome A × StateAggregate V) (f : A → M (StateAggregate V) B)
      (t : StateAggregate V)
      → s.1 ≡ with_state t s.1.state
      → ((a : A) (u : StateAggregate V) → (f a u).1 ≡ with_state u (f a u).1.state)
      → (resume s f).1 ≡ with_state t (resume s f).1.state
  resume_keeps (ok a, u) f t before after =
      after a u ∙ ap (λ w. with_state w (f a u).1.state) before
  resume_keeps (err e, u) f t before after = before
  resume_keeps (panic m, u) f t before after = before

  -- Replaying changes the struct only.
  replay-keeps :
      (events : List SerializedEvent) (start : ℕ) (t : StateAggregate V)
      → let t' = (replay (state_aggregate r json type_name get_state) decode events start t).1 in
        t' ≡ with_state t t'.state
  unfolding replay
  replay-keeps [] start t = refl
  replay-keeps (event ∷ events) start t =
      resume_keeps (wrapping "failed to decode event in applyState" (λ g. (decode event, g)) t) _ t
        refl
        (λ e u.
          resume_keeps
            (wrapping "failed to apply event state in applyState"
              (apply_event_state r json type_name get_state e event.event_time event.reference) u)
            _ u (apply_event_state-keeps e event.event_time event.reference u)
            (λ _ w. replay-keeps events event.sequence w))

  -- Where a stream is replayed on a StateAggregate without an error and JSON round trips, the
  -- snapshot taken then, at the sequence of the last event, stands for those events: loading it
  -- with the later ones ends as loading the whole stream does, errors and panics included.
  pub snapshot-replay :
      RoundTrips json
      → (id : ℕ) (key : Option String) (older newer : List SerializedEvent)
        (t t' : StateAggregate V) (sequence : ℕ) (text : String)
      → replay (state_aggregate r json type_name get_state) decode older 0 t ≡ (ok sequence, t')
      → get_snapshot_state r json type_name get_state t' ≡ ok text
      → let taken : Snapshot = record { aggregate_id = id; state = text; sequence = sequence } in
        apply_state
          (state_aggregate r json type_name get_state)
          decode
          (record { aggregate_id = id; natural_key = key; snapshot = some taken; events = newer })
          t
        ≡ apply_state
            (state_aggregate r json type_name get_state)
            decode
            (record {
              aggregate_id = id;
              natural_key = key;
              snapshot = none;
              events = older ++ newer;
            })
            t
  unfolding apply_snapshot
  snapshot-replay law id key older newer t t' sequence text replayed taken =
      let back = law t'.state text (unfold get_snapshot_state in taken) in
      let kept : t' ≡ with_state t t'.state =
        sym (ap (λ o. o.1) replayed)
        ∙ replay-keeps older 0 t
        ∙ ap (λ o. with_state t o.1.state) replayed in
      apply_state-snapshot (state_aggregate r json type_name get_state) decode id key
        (record { aggregate_id = id; state = text; sequence = sequence }) older newer t t' replayed
        (rw (back, apply_snapshot) (ap (λ u. (ok tt, u)) (sym kept)))
