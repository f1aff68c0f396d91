-- ===== src/State/Aggregates.antt =====
-- `StateAggregate` and `StateEvent`. A struct is its fields by name; `encoding/json` and
-- `reflect` are parameters.
pub mod Snapshots
use evercore.Base.{ℕ, String, List, Option, none, some, ◌==◌, if◌then◌else◌, string_eq}
use evercore.Base.Dict.{Dict}
use evercore.Base.Outcome.{M, Outcome, ok, err, panic, not_a_state_event}
use evercore.Types.{Snapshot}
use evercore.Aggregate.{Aggregate}
use evercore.State.Fields.{Reflection, SourceField, TargetField, copy_fields}

-- The struct of an aggregate, and the struct of an event.
abbrev pub State : Type 0 → Type 0
State V = Dict String (TargetField V)

abbrev pub Change : Type 0 → Type 0
Change V = List (String × SourceField V)

pub record StateAggregate (V : Type 0) : Type 0 where
  pub id : ℕ
  pub state : State V
  pub sequence : ℕ
  pub aggregate_type : String

pub record StateEvent (V : Type 0) : Type 0 where
  pub type_name : String
  pub state : Change V

-- `json.Marshal` and `json.Unmarshal` of the struct of an aggregate and of that of an event.
pub record Json (V : Type 0) : Type 0 where
  pub marshal : State V → Outcome String
  pub unmarshal : String → Outcome (State V)
  pub marshal_event : Change V → Outcome String
  pub unmarshal_event : String → Outcome (Change V)

-- The methods of `StateEvent`.
unfoldable pub get_event_type : {V : Type 0} → StateEvent V → String
get_event_type ev = ev.type_name

unfoldable pub serialize_to_json : Outcome String → Outcome String
serialize_to_json (ok serialized) = ok serialized
serialize_to_json (err e) = panic "State failed to serialize."
serialize_to_json (panic m) = panic m

unfoldable pub serialize : {V : Type 0} → Json V → StateEvent V → Outcome String
unfolding serialize_to_json
serialize json ev = serialize_to_json (json.marshal_event ev.state)

unfoldable pub deserialize : {V : Type 0} → Json V → String → M (StateEvent V) (Unit {0})
deserialize json serialized ev = elim (json.unmarshal_event serialized) [
  | ok state ↦ (ok tt, record ev { state = state })
  | err e ↦ (err e, ev)
  | panic m ↦ (panic m, ev)
]

module _ {V E : Type 0} (r : Reflection V) (json : Json V) (type_name : String)
    (get_state : E → Option (Change V)) where
  -- `get_state` is `GetState` of an event state that is an `iStateEvent`.
  unfoldable pub apply_event_state : E → ℕ → String → M (StateAggregate V) (Unit {0})
  apply_event_state event_state event_time reference t = elim (get_state event_state) [
    | none ↦ (err not_a_state_event, t)
    | some change ↦
        let copied = copy_fields r change t.state in (copied.0, record t { state = copied.1 })
  ]

  unfoldable pub get_snapshot_state : StateAggregate V → Outcome String
  get_snapshot_state t = json.marshal t.state

  unfoldable pub apply_snapshot : Snapshot → M (StateAggregate V) (Unit {0})
  apply_snapshot snapshot t = elim (json.unmarshal snapshot.state) [
    | ok state ↦ (ok tt, record t { state = state })
    | err e ↦ (err e, t)
    | panic m ↦ (panic m, t)
  ]

  -- The name of the type is kept in the aggregate once it was asked for.
  unfoldable pub get_aggregate_type : M (StateAggregate V) String
  get_aggregate_type t =
      let name = if t.aggregate_type == "" then type_name else t.aggregate_type in
      (ok name, record t { aggregate_type = name })

  abbrev pub state_aggregate : Aggregate E (StateAggregate V)
  state_aggregate = record {
    get_id = λ t. t.id;
    set_id = λ id t. record t { id = id };
    get_sequence = λ t. t.sequence;
    set_sequence = λ seq t. record t { sequence = seq };
    get_aggregate_type = λ t. if t.aggregate_type == "" then type_name else t.aggregate_type;
    get_snapshot_frequency = λ t. 10;
    get_snapshot_state = get_snapshot_state;
    apply_event_state = apply_event_state;
    apply_snapshot = apply_snapshot;
  }
