-- ===== src/Memory/Aggregates/Lookup.antt =====
-- What is found by a key after it was entered.
use Prim.Native.String.{len}
use evercore.Base.{
  ℕ, ◌+◌, String, Bool, true, false, Option, none, some, ◌≡◌, ◌≢◌, ◌↔◌, refl, ◌∙◌, inl, inr, arith,
  ltb, if◌then◌else◌, nat_eq, string_eq, Option-cases, Bool-cases, ==_refl,
}
use evercore.Base.Dict.{lookup, lookup-insert_self, lookup-insert_ne}
use evercore.Base.Outcome.{
  ok, err, key_exceeds_maximum_length, duplicate_key, aggregate_type_mismatch,
}
use evercore.Memory.State.{Memory}
use evercore.Memory.Aggregates.{
  max_key_length, new_aggregate_with_key, enter_with_key, has_type, get_aggregate_by_key,
  get_or_create_aggregate_by_key, get_aggregate_by_id,
}
use evercore.Memory.Aggregates.Keys.{KeysValid}

-- What `GetAggregateByKey` and `GetAggregateById` find of an aggregate that is there.
module _ (t i : ℕ) (key : String) (m : Memory)
    (typed : lookup i m.aggregate_to_type_id ≡ some t) where
  has_type-typed : has_type m i t ≡ true
  unfolding has_type
  has_type-typed = rw typed (==_refl t)

  get_aggregate_by_key-found :
      lookup key m.aggregates ≡ some i → get_aggregate_by_key t key m ≡ (ok i, m)
  unfolding get_aggregate_by_key
  get_aggregate_by_key-found h = rw (h, get_aggregate_by_key) (rw has_type-typed)

  get_aggregate_by_id-found :
      (k : Option String)
      → lookup i m.aggregate_inv ≡ some k
      → get_aggregate_by_id t i m ≡ (ok (i, k), m)
  unfolding get_aggregate_by_id
  get_aggregate_by_id-found k h = rw (h, get_aggregate_by_id) (rw has_type-typed)

-- An aggregate that a call has entered is found by its key and by its id, with its type.
enter-found :
    (t : ℕ) (key : String) (m : Memory)
    → let m' = enter_with_key t key m in
      let id = m.count_aggregates + 1 in
      (get_aggregate_by_key t key m' ≡ (ok id, m'))
      × (get_aggregate_by_id t id m' ≡ (ok (id, some key), m'))
unfolding enter_with_key
enter-found t key m =
    let m' : Memory = enter_with_key t key m in
    let id = m.count_aggregates + 1 in
    (
      get_aggregate_by_key-found t id key m' (lookup-insert_self id t _)
          (lookup-insert_self key id _),
      get_aggregate_by_id-found t id key m' (lookup-insert_self id t _) (some key)
          (lookup-insert_self id (some key) _),
    )

enter-other :
    (t u : ℕ) (key other : String) (m : Memory)
    → KeysValid m
    → key ≢ other
    → (get_aggregate_by_key u other (enter_with_key t key m)).0 ≡ (get_aggregate_by_key u other m).0
unfolding get_aggregate_by_key enter_with_key has_type
enter-other t u key other m v h = elim (Option-cases (lookup other m.aggregates)) [
  | inl missing ↦ rw (lookup-insert_ne key other _ m.aggregates h, missing, get_aggregate_by_key)
  | inr (i, found) ↦
      let known = v.keyed other i found in
      let same_key = lookup-insert_ne key other (m.count_aggregates + 1) m.aggregates h in
      let same_type =
        lookup-insert_ne (m.count_aggregates + 1) i t m.aggregate_to_type_id (new_ne i known) in
      ground (arith, found, same_key, same_type)
]
  where
    new_ne : (i : ℕ) → lookup i m.aggregate_inv ≡ some (some other) → m.count_aggregates + 1 ≢ i
    new_ne i known = let b = v.numbered i (some other) known in omega arith

created_id :
    (t id : ℕ) (key : String) (m : Memory)
    → (new_aggregate_with_key t key m).0 ≡ ok id
    → (id ≡ m.count_aggregates + 1) × ((new_aggregate_with_key t key m).1 ≡ enter_with_key t key m)
unfolding new_aggregate_with_key
created_id t id key m h = elim (Bool-cases (ltb max_key_length (len key))) [
  | inl long ↦
      absurd (
        let e : (new_aggregate_with_key t key m).0 ≡ err key_exceeds_maximum_length = rw long in cc)
  | inr short ↦ rw short (elim (Option-cases (lookup key m.aggregates)) [
    | inl free ↦ rw free (
        let e : (new_aggregate_with_key t key m).0 ≡ ok (m.count_aggregates + 1) =
          rw short (rw free) in
        (ground arith, refl))
    | inr (i, taken) ↦
        absurd (
          let e : (new_aggregate_with_key t key m).0 ≡ err duplicate_key = rw short (rw taken) in
          cc)
  ])
]

next_id_free : (m : Memory) → KeysValid m → lookup (m.count_aggregates + 1) m.aggregate_inv ≡ none
next_id_free m v = elim (Option-cases (lookup (m.count_aggregates + 1) m.aggregate_inv)) [
  | inl free ↦ free
  | inr (k, taken) ↦ absurd (let b = v.numbered _ k taken in omega arith)
]

-- After a successful creation under a key on an engine whose keys are valid, the id is new, the
-- aggregate is found by its key and by its id, and what any other key leads to is as before.
pub new_aggregate_with_key-found :
    (t id : ℕ) (key : String) (m : Memory)
    → KeysValid m
    → (new_aggregate_with_key t key m).0 ≡ ok id
    → let m' = (new_aggregate_with_key t key m).1 in
      (lookup id m.aggregate_inv ≡ none)
      × (get_aggregate_by_key t key m' ≡ (ok id, m'))
      × (get_aggregate_by_id t id m' ≡ (ok (id, some key), m'))
      × ((u : ℕ) (other : String)
          → key ≢ other
          → (get_aggregate_by_key u other m').0 ≡ (get_aggregate_by_key u other m).0)
new_aggregate_with_key-found t id key m v created =
    let (is_next, entered) = created_id t id key m created in
    let (by_key, by_id) = enter-found t key m in
    rw (entered, is_next)
      (next_id_free m v, by_key, by_id, λ u other h. enter-other t u key other m v h)

module _ (t : ℕ) (key : String) (m : Memory) where
  get_or_create_long :
      ltb max_key_length (len key) ≡ true
      → get_or_create_aggregate_by_key t key m ≡ (err key_exceeds_maximum_length, m)
  unfolding get_or_create_aggregate_by_key
  get_or_create_long long = rw long

  get_or_create_new :
      ltb max_key_length (len key) ≡ false
      → lookup key m.aggregates ≡ none
      → get_or_create_aggregate_by_key t key m
        ≡ (ok (true, m.count_aggregates + 1), enter_with_key t key m)
  unfolding get_or_create_aggregate_by_key
  get_or_create_new short free = rw short (rw (free, get_or_create_aggregate_by_key))

  get_or_create_old :
      (i : ℕ)
      → ltb max_key_length (len key) ≡ false
      → lookup key m.aggregates ≡ some i
      → get_or_create_aggregate_by_key t key m
        ≡ (if has_type m i t then (ok (false, i), m) else (err aggregate_type_mismatch, m))
  unfolding get_or_create_aggregate_by_key
  get_or_create_old i short found = rw short (ground (arith, found))

abbrev Idem : ℕ → ℕ → Bool → String → Memory → Type 0
Idem t id created key m =
    let m' = (get_or_create_aggregate_by_key t key m).1 in
    (lookup key m'.aggregates ≡ some id)
    × ((created ≡ true) ↔ (lookup key m.aggregates ≡ none))
    × (get_or_create_aggregate_by_key t key m' ≡ (ok (false, id), m'))

get_or_create-Idem_new :
    (t id : ℕ) (created : Bool) (key : String) (m : Memory)
    → ltb max_key_length (len key) ≡ false
    → lookup key m.aggregates ≡ none
    → (get_or_create_aggregate_by_key t key m).0 ≡ ok (created, id)
    → Idem t id created key m
unfolding enter_with_key
get_or_create-Idem_new t id created key m short free h =
    let e = get_or_create_new t key m short free in
    let next : m.count_aggregates + 1 ≡ id = ground arith in
    let new : created ≡ true = ground arith in
    let m' : Memory = enter_with_key t key m in
    let leads = lookup-insert_self key (m.count_aggregates + 1) m.aggregates in
    let typed = has_type-typed t (m.count_aggregates + 1) key m' (lookup-insert_self _ t _) in
    rw (e, ← next)
      (
        leads,
        ((λ _. free), (λ _. new)),
        get_or_create_old t key m' (m.count_aggregates + 1) short leads ∙ rw typed,
      )

get_or_create-Idem_old :
    (t id i : ℕ) (created : Bool) (key : String) (m : Memory)
    → ltb max_key_length (len key) ≡ false
    → lookup key m.aggregates ≡ some i
    → has_type m i t ≡ true
    → (get_or_create_aggregate_by_key t key m).0 ≡ ok (created, id)
    → Idem t id created key m
get_or_create-Idem_old t id i created key m short found fits h =
    let e : get_or_create_aggregate_by_key t key m ≡ (ok (false, i), m) =
      get_or_create_old t key m i short found ∙ rw fits in
    let same : i ≡ id = ground arith in
    let old : created ≡ false = ground arith in rw (e, ← same) (found, ((λ c. cc), (λ c. cc)), e)

-- Once GetOrCreateAggregateByKey has returned an id for a key, the key leads to it; it was
-- created exactly if the key led nowhere before; and the same call returns that id again, says
-- that it created nothing, and changes nothing.
pub get_or_create_aggregate_by_key_idem :
    (t id : ℕ) (created : Bool) (key : String) (m : Memory)
    → (get_or_create_aggregate_by_key t key m).0 ≡ ok (created, id)
    → let m' = (get_or_create_aggregate_by_key t key m).1 in
      (lookup key m'.aggregates ≡ some id)
      × ((created ≡ true) ↔ (lookup key m.aggregates ≡ none))
      × (get_or_create_aggregate_by_key t key m' ≡ (ok (false, id), m'))
get_or_create_aggregate_by_key_idem t id created key m h =
    elim (Bool-cases (ltb max_key_length (len key))) [
      | inl long ↦ absurd (let e = get_or_create_long t key m long in cc)
      | inr short ↦ elim (Option-cases (lookup key m.aggregates)) [
        | inl free ↦ get_or_create-Idem_new t id created key m short free h
        | inr (i, found) ↦ elim (Bool-cases (has_type m i t)) [
          | inl fits ↦ get_or_create-Idem_old t id i created key m short found fits h
          | inr other ↦
              absurd (let e = get_or_create_old t key m i short found in ground (arith, e))
        ]
      ]
    ]
