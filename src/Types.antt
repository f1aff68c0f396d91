-- ===== src/Types.antt =====
-- base/types.go and the types of base/context.go and base/subscriptions.go. A `time.Time` is the
-- number of ticks since Go's zero time; ids, sequences and durations are the non-negative int64s.
use evercore.Base.{ℕ, String, Bool, List, [], ◌∷◌, Option, nat_eq, string_eq}
use evercore.Base.Dict.{Dict, insert}

pub record IdNamePair : Type 0 where
  pub id : ℕ
  pub name : String

pub record SerializedEvent : Type 0 where
  pub event_id : ℕ
  pub aggregate_id : ℕ
  pub event_type : String
  pub state : String
  pub sequence : ℕ
  pub reference : String
  pub event_time : ℕ

pub record Subscription : Type 0 where
  pub id : ℕ
  pub name : String
  pub aggregate_type_id : Option ℕ
  pub event_type_id : Option ℕ
  pub aggregate_key : Option String
  pub start_from : String
  pub start_event_id : ℕ
  pub start_timestamp : Option ℕ
  pub last_event_id : ℕ
  pub active : Bool
  pub lease_owner : Option String
  pub lease_expires_at : Option ℕ

pub record StorageEngineEvent : Type 0 where
  pub aggregate_id : ℕ
  pub sequence : ℕ
  pub event_type_id : ℕ
  pub state : String
  pub event_time : ℕ
  pub reference : String

pub record Snapshot : Type 0 where
  pub aggregate_id : ℕ
  pub state : String
  pub sequence : ℕ

-- `zeroTime`, and the time of `IsZero`.
abbrev pub zero_time : ℕ
zero_time = 0

-- Later pairs overwrite earlier ones.
map_name_to_id_loop : List IdNamePair → Dict String ℕ → Dict String ℕ
map_name_to_id_loop [] m = m
map_name_to_id_loop (p ∷ ps) m = map_name_to_id_loop ps (insert p.name p.id m)

unfoldable pub map_name_to_id : List IdNamePair → Dict String ℕ
unfolding map_name_to_id_loop
map_name_to_id ps = map_name_to_id_loop ps []

map_id_to_name_loop : List IdNamePair → Dict ℕ String → Dict ℕ String
map_id_to_name_loop [] m = m
map_id_to_name_loop (p ∷ ps) m = map_id_to_name_loop ps (insert p.id p.name m)

unfoldable pub map_id_to_name : List IdNamePair → Dict ℕ String
unfolding map_id_to_name_loop
map_id_to_name ps = map_id_to_name_loop ps []
