-- ===== src/Tests/Aggregates.antt =====
-- Aggregates, their keys, and type ids.
use evercore.Base.{
  ℕ, String, true, false, ◌+◌, ◌==◌, ==_refl, List, [], ◌∷◌, some, none, ◌≡◌, ◌≢◌, ◌↔◌, refl, arith,
  nat_eq, string_eq,
}
use evercore.Base.Dict.{lookup, insert}
use evercore.Base.Outcome.{ok, panic}
use evercore.Memory.State.{Memory, new_memory_storage_engine}
use evercore.Memory.TypeIds.{get_event_type_id}
use evercore.Memory.TypeIds.Registry.Naming.{get_event_type_id-distinct}
use evercore.Memory.Aggregates.{
  new_aggregate, new_aggregate_with_key, get_or_create_aggregate_by_key, get_aggregate_by_key,
  get_aggregate_by_id, change_aggregate_natural_key,
}
use evercore.Memory.Aggregates.Lookup.{
  new_aggregate_with_key-found, get_or_create_aggregate_by_key_idem,
}
use evercore.Memory.Aggregates.Rename.{
  change_aggregate_natural_key-moves, change_aggregate_natural_key-keyless,
}
use evercore.Memory.Valid.{
  IsValid, Request, event_type, new, new_with_key, serve_all, serve_all-IsValid,
}

-- Three aggregates, two with a key.
abbrev requests : List Request
requests = event_type "placed" ∷ new_with_key 1 "a" ∷ new_with_key 1 "b" ∷ new 1 ∷ []

abbrev three : Memory
three = serve_all requests new_memory_storage_engine

serve_all-IsValid_example : IsValid (serve_all requests new_memory_storage_engine)
serve_all-IsValid_example = serve_all-IsValid requests

get_event_type_id-distinct_example :
    let a : String = "paid" in
    let b : String = "placed" in
    let first = get_event_type_id a three in
    let second = get_event_type_id b first.1 in
    (i : ℕ) × (j : ℕ) × (first.0 ≡ ok i)
    × (second.0 ≡ ok j)
    × ((i ≡ j) ↔ (a ≡ b))
    × (lookup i second.1.event_types_inv ≡ some a)
    × (lookup j second.1.event_types_inv ≡ some b)
get_event_type_id-distinct_example =
    get_event_type_id-distinct "paid" "placed" three (serve_all-IsValid requests).event_types_valid

created : (new_aggregate_with_key 1 "c" three).0 ≡ ok 4
unfolding serve_all new_aggregate_with_key lookup new_aggregate get_event_type_id insert
created = refl

new_aggregate_with_key-found_example :
    let m' = (new_aggregate_with_key 1 "c" three).1 in
    (lookup 4 three.aggregate_inv ≡ none)
    × (get_aggregate_by_key 1 "c" m' ≡ (ok 4, m'))
    × (get_aggregate_by_id 1 4 m' ≡ (ok (4, some "c"), m'))
    × ((u : ℕ) (other : String)
        → "c" ≢ other
        → (get_aggregate_by_key u other m').0 ≡ (get_aggregate_by_key u other three).0)
new_aggregate_with_key-found_example =
    new_aggregate_with_key-found 1 4 "c" three (serve_all-IsValid requests).keys_valid created

found : (get_or_create_aggregate_by_key 1 "b" three).0 ≡ ok (false, 2)
unfolding serve_all get_or_create_aggregate_by_key new_aggregate_with_key lookup new_aggregate
    get_event_type_id insert
found = refl

get_or_create_aggregate_by_key_idem_example :
    let m' = (get_or_create_aggregate_by_key 1 "b" three).1 in
    (lookup "b" m'.aggregates ≡ some 2)
    × ((false ≡ true) ↔ (lookup "b" three.aggregates ≡ none))
    × (get_or_create_aggregate_by_key 1 "b" m' ≡ (ok (false, 2), m'))
get_or_create_aggregate_by_key_idem_example =
    get_or_create_aggregate_by_key_idem 1 2 false "b" three found

Had : (id : ℕ) (key : String) → Type 0
Had id key = lookup id three.aggregate_inv ≡ some (some key)

first-Had : Had 1 "a"
unfolding Had serve_all new_aggregate_with_key lookup new_aggregate get_event_type_id insert
first-Had = refl

second-Had : Had 2 "b"
unfolding Had serve_all new_aggregate_with_key lookup new_aggregate get_event_type_id insert
second-Had = refl

apart : (a b : String) → (a == b) ≡ false → a ≢ b
apart a b h e = ground (arith, ==_refl a)

change_aggregate_natural_key-moves_example :
    let m' = (change_aggregate_natural_key 1 "c" three).1 in
    ((change_aggregate_natural_key 1 "c" three).0 ≡ ok tt)
    × (lookup "c" m'.aggregates ≡ some 1)
    × (lookup 1 m'.aggregate_inv ≡ some (some "c"))
    × (lookup "a" m'.aggregates ≡ none)
    × ((k : String) → "a" ≢ k → "c" ≢ k → lookup k m'.aggregates ≡ lookup k three.aggregates)
    × ((i : ℕ) → 1 ≢ i → lookup i m'.aggregate_inv ≡ lookup i three.aggregate_inv)
unfolding Had
change_aggregate_natural_key-moves_example =
    change_aggregate_natural_key-moves three 1 "a" "c" first-Had (omega arith) (apart "a" "c" refl)

change_aggregate_natural_key-keyless_example :
    let m' = (new_aggregate 1 three).1 in
    change_aggregate_natural_key (three.count_aggregates + 1) "d" m'
    ≡ (panic "nil pointer dereference", m')
change_aggregate_natural_key-keyless_example =
    change_aggregate_natural_key-keyless 1 "d" three (omega arith)
