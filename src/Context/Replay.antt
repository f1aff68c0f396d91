-- ===== src/Context/Replay.antt =====
-- The methods of a context that work on an aggregate object: it is loaded from its stream, and
-- changed by events that the context captures. The state is the context beside the object.
pub mod Snapshots
use evercore.Base.{
  ℕ, ◌+◌, ◌%◌, String, Bool, true, false, ◌&&◌, List, [], ◌∷◌, Option, none, some, ltb, ◌==◌,
  if◌then◌else◌, nat_eq,
}
use evercore.Base.Outcome.{M, Outcome, ok, ◌>>=◌, ◌>>◌, wrapping, pure}
use evercore.Types.{SerializedEvent, Snapshot}
use evercore.Engine.{StorageEngine}
use evercore.Aggregate.{Aggregate, EventState}
use evercore.Store.Aggregates as Owner
use evercore.Context.State.{Context, store_call, publish, save_snapshot}
use evercore.Context.Streams as Streams
use evercore.Context.Streams.{AggregateState}

-- A method of the context, and one of the object.
abbrev pub on_context : {C G A : Type 0} → M C A → M (C × G) A
on_context m s = let r = m s.0 in (r.0, (r.1, s.1))

abbrev pub on_object : {C G A : Type 0} → M G A → M (C × G) A
on_object m s = let r = m s.1 in (r.0, (s.0, r.1))

abbrev pub read_object : {C G A : Type 0} → (G → A) → M (C × G) A
read_object f s = (ok (f s.1), s)

abbrev pub write_object : {C G : Type 0} → (G → G) → M (C × G) (Unit {0})
write_object f s = (ok tt, (s.0, f s.1))

-- `applyState`, over the decoder of serialized events.
module _ {E G : Type 0} (agg : Aggregate E G) (decode_event : SerializedEvent → Outcome E) where
  -- The loop; `sequence` is that of the last event applied.
  unfoldable pub replay : List SerializedEvent → ℕ → M G ℕ
  replay [] sequence = pure sequence
  replay (event ∷ events) sequence = do
    decoded ← wrapping "failed to decode event in applyState" (λ g. (decode_event event, g))
    wrapping "failed to apply event state in applyState"
        (agg.apply_event_state decoded event.event_time event.reference)
    replay events event.sequence

  apply_snapshot_if : Option Snapshot → M G ℕ
  apply_snapshot_if none = pure 0
  apply_snapshot_if (some s) = do agg.apply_snapshot s; pure s.sequence

  unfoldable pub apply_state : AggregateState → M G (Unit {0})
  unfolding replay apply_snapshot_if
  apply_state state = do
    start ← apply_snapshot_if state.snapshot
    sequence ← replay state.events start
    λ g. (ok tt, agg.set_sequence sequence (agg.set_id state.aggregate_id g))

module _ {S Tx E G : Type 0} (engine : StorageEngine S Tx) (agg : Aggregate E G)
    (decode_event : SerializedEvent → Outcome E) where
  unfoldable pub load_state_into : ℕ → M (Context S Tx × G) (Unit {0})
  load_state_into aggregate_id = do
    aggregate_type ← read_object agg.get_aggregate_type
    state ← on_context (Streams.load_aggregate_state engine aggregate_type aggregate_id)
    wrapping "failed to apply state in LoadStateInto"
        (on_object (apply_state agg decode_event state))

  unfoldable pub load_state_by_key_into : String → M (Context S Tx × G) (Unit {0})
  load_state_by_key_into natural_key = do
    aggregate_type ← read_object agg.get_aggregate_type
    state ← on_context (Streams.load_aggregate_state_by_key engine aggregate_type natural_key)
    wrapping "failed to apply state in LoadStateByKeyInto"
        (on_object (apply_state agg decode_event state))

  unfoldable pub create_aggregate_into : M (Context S Tx × G) (Unit {0})
  create_aggregate_into = do
    aggregate_type ← read_object agg.get_aggregate_type
    id ← on_context (Streams.new_aggregate_id engine aggregate_type)
    write_object (agg.set_id id)

  -- Returns whether the aggregate was created.
  unfoldable pub load_or_create_aggregate : String → M (Context S Tx × G) Bool
  load_or_create_aggregate natural_key = do
    aggregate_type ← read_object agg.get_aggregate_type
    found ←
        on_context (
          store_call
            λ tx. Owner.get_or_create_aggregate_by_key engine tx aggregate_type natural_key)
    let create = (do write_object (agg.set_id found.1); pure true)
    let load = (do load_state_by_key_into natural_key; pure false)
    if found.0 then create else load

  unfoldable pub create_aggregate_with_key_into : String → M (Context S Tx × G) (Unit {0})
  create_aggregate_with_key_into natural_key = do
    aggregate_type ← read_object agg.get_aggregate_type
    id ← on_context (Streams.new_aggregate_id_with_key engine aggregate_type natural_key)
    write_object (agg.set_id id)

module _ {E G : Type 0} (ev : EventState E) (agg : Aggregate E G) where
  -- The event that is published for a state applied to the object as it is now.
  unfoldable pub event_for : E → ℕ → String → G → SerializedEvent
  event_for event_state time reference g = record {
    event_id = 0;
    aggregate_id = agg.get_id g;
    event_type = ev.get_event_type event_state;
    state = ev.serialize event_state;
    sequence = agg.get_sequence g + 1;
    reference = reference;
    event_time = time;
  }

  -- `snapshotFrequency > 0 && newSequence%snapshotFrequency == 0`
  unfoldable pub is_snapshot_due : ℕ → G → Bool
  is_snapshot_due sequence g =
      ltb 0 (agg.get_snapshot_frequency g) && (sequence % agg.get_snapshot_frequency g) == 0

  stage_snapshot : {S Tx : Type 0} → ℕ → M (Context S Tx × G) (Unit {0})
  stage_snapshot sequence = do
    snapshot_state ← on_object (λ g. (agg.get_snapshot_state g, g))
    id ← read_object agg.get_id
    on_context
        (save_snapshot (record { aggregate_id = id; state = snapshot_state; sequence = sequence }))

  unfoldable pub apply_event_to : {S Tx : Type 0} → E → ℕ → String → M (Context S Tx × G) (Unit {0})
  unfolding event_for is_snapshot_due stage_snapshot publish save_snapshot
  apply_event_to event_state time reference = do
    on_object (agg.apply_event_state event_state time reference)
    event ← read_object (event_for event_state time reference)
    write_object (agg.set_sequence event.sequence)
    on_context (publish event)
    due ← read_object (is_snapshot_due event.sequence)
    if due then stage_snapshot event.sequence else pure tt
