-- ===== src/Tests/Streams.antt =====
-- An object that lists the states of its events.
use evercore.Base.{ℕ, String, List, [], ◌∷◌, ◌++◌, none, some, ◌≡◌, refl}
use evercore.Base.Outcome.{Outcome, ok}
use evercore.Types.{Snapshot, SerializedEvent}
use evercore.Aggregate.{Aggregate}
use evercore.Context.Replay.{replay, apply_state}
use evercore.Context.Replay.Snapshots.{apply_state-snapshot}
use evercore.Tests.{read_event}

record Journal : Type 0 where
  pub id : ℕ
  pub sequence : ℕ
  pub seen : List String

abbrev journal : Aggregate String Journal
journal = record {
  get_id = λ g. g.id;
  set_id = λ i g. record g { id = i };
  get_sequence = λ g. g.sequence;
  set_sequence = λ n g. record g { sequence = n };
  get_aggregate_type = λ g. "Journal";
  get_snapshot_frequency = λ g. 2;
  get_snapshot_state = λ g. ok "a";
  apply_event_state = λ state time reference g. (ok tt, record g { seen = g.seen ++ state ∷ [] });
  apply_snapshot = λ s g. (ok tt, record g { seen = s.state ∷ [] });
}

abbrev decode : SerializedEvent → Outcome String
decode e = ok e.state

abbrev empty : Journal
empty = record { id = 0; sequence = 0; seen = [] }

abbrev snapshot : Snapshot
snapshot = record { aggregate_id = 7; state = "a"; sequence = 1 }

abbrev older : List SerializedEvent
older = read_event 3 7 1 10 "a" "" ∷ []

abbrev newer : List SerializedEvent
newer = read_event 5 7 2 20 "b" "" ∷ read_event 6 7 3 30 "c" "" ∷ []

replayed : replay journal decode older 0 empty ≡ (ok 1, record empty { seen = "a" ∷ [] })
unfolding replay
replayed = refl

apply_state-snapshot_example :
    apply_state journal decode
      (record { aggregate_id = 7; natural_key = none; snapshot = some snapshot; events = newer })
      empty
    ≡ apply_state journal decode
        (record { aggregate_id = 7; natural_key = none; snapshot = none; events = older ++ newer })
        empty
apply_state-snapshot_example =
    apply_state-snapshot journal decode 7 none snapshot older newer empty
      (record empty { seen = "a" ∷ [] }) replayed refl
