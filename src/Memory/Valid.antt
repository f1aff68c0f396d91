-- ===== src/Memory/Valid.antt =====
-- The invariant of the whole in-memory engine, over every call that changes it.
use evercore.Base.{ℕ, String, List, [], ◌∷◌, ◌≡◌, sym, subst, nat_eq, string_eq}
use evercore.Base.Dict.{lookup}
use evercore.Types.{StorageEngineEvent, Snapshot}
use evercore.Memory.State.{Memory, new_memory_storage_engine}
use evercore.Memory.TypeIds.{get_event_type_id, get_aggregate_type_id}
use evercore.Memory.TypeIds.Registry.{
  EventTypesValid, AggregateTypesValid, get_event_type_id-other, get_aggregate_type_id-other,
  get_event_type_id-Valid, get_aggregate_type_id-Valid,
}
use evercore.Memory.Aggregates.{
  new_aggregate, new_aggregate_with_key, get_or_create_aggregate_by_key,
  change_aggregate_natural_key,
}
use evercore.Memory.Aggregates.Keys.{
  KeysValid, new_aggregate-KeysValid, new_aggregate_with_key-KeysValid,
  get_or_create_aggregate_by_key-KeysValid, change_aggregate_natural_key-KeysValid,
}
use evercore.Memory.Events.{write_state}
use evercore.Memory.Leases.Exclusion.{Call, step}
use evercore.Memory.Leases.Valid.{SubscriptionsValid}
use evercore.Memory.Frames.{
  without_types, without_aggregates, without_subscriptions, get_event_type_id-frame,
  get_aggregate_type_id-frame, new_aggregate-frame, new_aggregate_with_key-frame,
  get_or_create_aggregate_by_key-frame, change_aggregate_natural_key-frame, step-frame,
  KeysValid-types, KeysValid-subscriptions, SubscriptionsValid-types, SubscriptionsValid-aggregates,
}
use evercore.Memory.Leases.Valid.Calls.{step-SubscriptionsValid}

pub record IsValid (m : Memory) : Type 0 where
  pub event_types_valid : EventTypesValid m
  pub aggregate_types_valid : AggregateTypesValid m
  pub keys_valid : KeysValid m
  pub subscriptions_valid : SubscriptionsValid m

-- Every call of the engine that can change its state.
pub data Request : Type 0 where
  event_type aggregate_type : String → Request
  new : ℕ → Request
  new_with_key get_or_create : ℕ → String → Request
  change_key : ℕ → String → Request
  write : List StorageEngineEvent → List Snapshot → Request
  subscription : Call → Request

unfoldable pub serve : Request → Memory → Memory
serve (event_type name) m = (get_event_type_id name m).1
serve (aggregate_type name) m = (get_aggregate_type_id name m).1
serve (new t) m = (new_aggregate t m).1
serve (new_with_key t key) m = (new_aggregate_with_key t key m).1
serve (get_or_create t key) m = (get_or_create_aggregate_by_key t key m).1
serve (change_key id key) m = (change_aggregate_natural_key id key m).1
serve (write events snapshots) m = (write_state events snapshots m).1
serve (subscription c) m = step c m

unfoldable pub serve_all : List Request → Memory → Memory
unfolding serve
serve_all [] m = m
serve_all (r ∷ rs) m = serve_all rs (serve r m)

-- What a call leaves of the invariant when it changes the aggregates only, or subscriptions only.
module _ (m m' : Memory) (v : IsValid m) where
  keys_changed : without_aggregates m' ≡ without_aggregates m → KeysValid m' → IsValid m'
  keys_changed same k = record {
    event_types_valid = subst EventTypesValid (sym same) v.event_types_valid;
    aggregate_types_valid = subst AggregateTypesValid (sym same) v.aggregate_types_valid;
    keys_valid = k;
    subscriptions_valid = SubscriptionsValid-aggregates m m' same v.subscriptions_valid;
  }

  subscriptions_changed :
      without_subscriptions m' ≡ without_subscriptions m → SubscriptionsValid m' → IsValid m'
  subscriptions_changed same s = record {
    event_types_valid = subst EventTypesValid (sym same) v.event_types_valid;
    aggregate_types_valid = subst AggregateTypesValid (sym same) v.aggregate_types_valid;
    keys_valid = KeysValid-subscriptions m m' same v.keys_valid;
    subscriptions_valid = s;
  }

  types_changed :
      without_types m' ≡ without_types m → EventTypesValid m' → AggregateTypesValid m' → IsValid m'
  types_changed same e a = record {
    event_types_valid = e;
    aggregate_types_valid = a;
    keys_valid = KeysValid-types m m' same v.keys_valid;
    subscriptions_valid = SubscriptionsValid-types m m' same v.subscriptions_valid;
  }

write-IsValid :
    (events : List StorageEngineEvent) (snapshots : List Snapshot) (m : Memory)
    → IsValid m
    → IsValid (write_state events snapshots m).1
unfolding write_state
write-IsValid events snapshots m v =
    let k = v.keys_valid in
    let s = v.subscriptions_valid in
    record {
      event_types_valid = v.event_types_valid;
      aggregate_types_valid = v.aggregate_types_valid;
      keys_valid = record { keyed = k.keyed; numbered = k.numbered; typed = k.typed };
      subscriptions_valid = record {
        named = s.named;
        known = s.known;
        by_their_name = s.by_their_name;
        by_their_id = s.by_their_id;
        allocated = s.allocated;
        numbered = s.numbered;
      };
    }

serve-IsValid : (r : Request) (m : Memory) → IsValid m → IsValid (serve r m)
unfolding serve
serve-IsValid (event_type name) m v =
    types_changed m _ v (get_event_type_id-frame name m)
      (get_event_type_id-Valid name m v.event_types_valid)
      (get_event_type_id-other name m v.aggregate_types_valid)
serve-IsValid (aggregate_type name) m v =
    types_changed m _ v (get_aggregate_type_id-frame name m)
      (get_aggregate_type_id-other name m v.event_types_valid)
      (get_aggregate_type_id-Valid name m v.aggregate_types_valid)
serve-IsValid (new t) m v =
    keys_changed m _ v (new_aggregate-frame t m) (new_aggregate-KeysValid m v.keys_valid t)
serve-IsValid (new_with_key t key) m v =
    keys_changed m _ v (new_aggregate_with_key-frame t key m)
      (new_aggregate_with_key-KeysValid m v.keys_valid t key)
serve-IsValid (get_or_create t key) m v =
    keys_changed m _ v (get_or_create_aggregate_by_key-frame t key m)
      (get_or_create_aggregate_by_key-KeysValid m v.keys_valid t key)
serve-IsValid (change_key id key) m v =
    keys_changed m _ v (change_aggregate_natural_key-frame id key m)
      (change_aggregate_natural_key-KeysValid m id key v.keys_valid)
serve-IsValid (write events snapshots) m v = write-IsValid events snapshots m v
serve-IsValid (subscription c) m v =
    subscriptions_changed m _ v (step-frame c m) (step-SubscriptionsValid c m v.subscriptions_valid)

new-IsValid : IsValid new_memory_storage_engine
unfolding lookup
new-IsValid = record {
  event_types_valid = record {
    forward = λ n i h. absurd (cc);
    backward = λ i n h. absurd (cc);
    bounded = λ n i h. absurd (cc);
  };
  aggregate_types_valid = record {
    forward = λ n i h. absurd (cc);
    backward = λ i n h. absurd (cc);
    bounded = λ n i h. absurd (cc);
  };
  keys_valid = record {
    keyed = λ k i h. absurd (cc);
    numbered = λ i k h. absurd (cc);
    typed = λ i k h. absurd (cc);
  };
  subscriptions_valid = record {
    named = λ n p h. absurd (cc);
    known = λ i p h. absurd (cc);
    by_their_name = λ p s h. absurd (cc);
    by_their_id = λ p s h. absurd (cc);
    allocated = λ p s h. absurd (cc);
    numbered = λ p s h. absurd (cc);
  };
}

serve_all-keeps : (rs : List Request) (m : Memory) → IsValid m → IsValid (serve_all rs m)
unfolding serve_all
serve_all-keeps [] m v = v
serve_all-keeps (r ∷ rs) m v = serve_all-keeps rs (serve r m) (serve-IsValid r m v)

-- Whatever is asked of a new in-memory engine, in any order: names and ids of types stay inverse
-- to one another, a natural key leads to an aggregate that has it, every aggregate has a number
-- up to the count and a type, and the two maps over subscriptions share their objects.
pub serve_all-IsValid : (rs : List Request) → IsValid (serve_all rs new_memory_storage_engine)
serve_all-IsValid rs = serve_all-keeps rs new_memory_storage_engine new-IsValid
