-- ===== src/Tests/States.antt =====
-- Structs, their events and their decoders.
use evercore.Base.{
  String, true, false, ◌&&◌, List, [], ◌∷◌, ◌++◌, Option, none, some, if◌then◌else◌, ◌≡◌, ◌≢◌, refl,
  sym, ◌==◌, ==_refl, string_eq, arith,
}
use evercore.Base.Dict.{lookup, insert}
use evercore.Base.Outcome.{Outcome, ok, err, external}
use evercore.Types.{Snapshot, SerializedEvent}
use evercore.Context.Replay.{replay, apply_state}
use evercore.State.Fields.{Reflection, copy_fields}
use evercore.State.Fields.Copies.{copy_fields-other, copy_fields-copied}
use evercore.State.Decoders.{
  EventDecoder, decode_event, decode_event_method, register_event_decoder, decode_event-register,
}
use evercore.State.Aggregates.{
  State, Change, StateAggregate, Json, state_aggregate, apply_event_state, get_snapshot_state,
}
use evercore.State.Aggregates.Snapshots.{RoundTrips, snapshot-replay}
use evercore.Tests.{read_event}

abbrev by_name : EventDecoder String
by_name e = ok (if e.event_type == "placed" then some e.state else none)

decoded : decode_event_method (by_name ∷ []) (read_event 1 1 1 10 "a" "") ≡ ok "a"
unfolding decode_event_method
decoded = refl

decode_event-register_example :
    let registered = register_event_decoder (by_name ∷ []) ((λ e. err (external "no")) ∷ []) in
    let event = read_event 1 1 1 10 "a" "" in
    (decode_event (λ s. true) (by_name ∷ []) event ≡ ok (true, "a"))
    × (decode_event_method registered event ≡ ok "a")
    × (decode_event (λ s. true) registered event ≡ ok (true, "a"))
decode_event-register_example =
    decode_event-register (λ s. true) (by_name ∷ []) ((λ e. err (external "no")) ∷ [])
      (read_event 1 1 1 10 "a" "") "a" decoded

-- Texts and numbers, all written as texts; a number converts to a text.
abbrev types : Reflection String
types = record {
  is_assignable = λ a b. a == b;
  is_convertible = λ a b. a == "int";
  convert = λ a b v. "#";
}

abbrev user : State String
user =
    ("Name", record { value_type = "string"; can_set = true; value = "" })
    ∷ ("Code", record { value_type = "string"; can_set = true; value = "" })
    ∷ []

abbrev change : Change String
change =
    ("Name", record { value_type = "string"; value = some "Ann" })
    ∷ ("Code", record { value_type = "int"; value = some "7" })
    ∷ []

unlike : (a b : String) → (a == b) ≡ false → a ≢ b
unlike a b h e = ground (arith, ==_refl a)

copy_fields-copied_example :
    lookup "Code" (copy_fields types change user).1
    ≡ some (record { value_type = "string"; can_set = true; value = "#" })
copy_fields-copied_example =
    copy_fields-copied types "Code" (record { value_type = "int"; value = some "7" }) "7"
      (record { value_type = "string"; can_set = true; value = "" })
      (("Name", record { value_type = "string"; value = some "Ann" }) ∷ []) [] user
      (unlike "Name" "Code" refl, tt) tt refl (unfold lookup in refl) refl
      (unfold copy_fields insert lookup in refl)

copy_fields-other_example : lookup "Age" (copy_fields types change user).1 ≡ lookup "Age" user
copy_fields-other_example =
    copy_fields-other types "Age" change user
      (unlike "Name" "Age" refl, (unlike "Code" "Age" refl, tt))

-- JSON of a struct with one field, of a text.
abbrev marshal_name : State String → Outcome String
marshal_name ((k, f) ∷ []) =
    if k == "Name" && (f.value_type == "string" && f.can_set)
    then ok f.value
    else err (external "json")
marshal_name _ = err (external "json")

abbrev json : Json String
json = record {
  marshal = marshal_name;
  unmarshal =
      λ text. ok (("Name", record { value_type = "string"; can_set = true; value = text }) ∷ []);
  marshal_event = λ c. ok "";
  unmarshal_event = λ text. ok [];
}

read_back : RoundTrips json
read_back ((k, f) ∷ []) text h =
    let key : k ≡ "Name" = ground (arith, string_eq.same_iff k "Name") in
    let kind : f.value_type ≡ "string" = ground (arith, string_eq.same_iff f.value_type "string") in
    let free : f.can_set ≡ true = ground arith in
    let value : f.value ≡ text = ground arith in
    λ i. ok (
      (sym key i, record { value_type = sym kind i; can_set = sym free i; value = sym value i })
      ∷ [])
read_back [] text h = absurd (cc)
read_back (a ∷ b ∷ s) text h = absurd (cc)

abbrev named : String → Change String
named v = ("Name", record { value_type = "string"; value = some v }) ∷ []

abbrev aggregate : StateAggregate String
aggregate = record {
  id = 7;
  state = ("Name", record { value_type = "string"; can_set = true; value = "" }) ∷ [];
  sequence = 0;
  aggregate_type = "";
}

abbrev older : List SerializedEvent
older = read_event 1 7 1 10 "a" "" ∷ []

abbrev newer : List SerializedEvent
newer = read_event 2 7 2 20 "b" "" ∷ []

abbrev get_change : String → Option (Change String)
get_change v = some (named v)

abbrev decode : SerializedEvent → Outcome String
decode e = ok e.state

abbrev renamed : StateAggregate String
renamed = record aggregate {
  state = ("Name", record { value_type = "string"; can_set = true; value = "a" }) ∷ [];
}

replayed :
    replay (state_aggregate types json "User" get_change) decode older 0 aggregate ≡ (ok 1, renamed)
unfolding replay apply_event_state copy_fields lookup insert
replayed = refl

taken : get_snapshot_state types json "User" get_change renamed ≡ ok "a"
unfolding get_snapshot_state
taken = refl

snapshot-replay_example :
    let user_aggregate = state_aggregate types json "User" get_change in
    let snapshot : Snapshot = record { aggregate_id = 7; state = "a"; sequence = 1 } in
    apply_state user_aggregate decode
      (record { aggregate_id = 7; natural_key = none; snapshot = some snapshot; events = newer })
      aggregate
    ≡ apply_state user_aggregate decode
        (record { aggregate_id = 7; natural_key = none; snapshot = none; events = older ++ newer })
        aggregate
snapshot-replay_example =
    snapshot-replay types json "User" get_change decode read_back 7 none older newer aggregate
      renamed 1 "a" replayed taken
