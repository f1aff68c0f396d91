-- ===== src/Memory/Aggregates/Keys.antt =====
-- Natural keys and the aggregates that they lead to.
use Prim.Native.String.{len}
use evercore.Base.{
  ℕ, ◌+◌, ◌≤◌, ◌<◌, String, not, Option, none, some, ◌≡◌, ◌≢◌, sym, ap, subst, ◌∙◌, inl, inr, arith,
  ltb, nat_eq, string_eq, Eq-cases, Option-cases, Bool-cases,
}
use evercore.Base.Dict.{
  lookup, insert, delete, lookup-insert_self, lookup-insert_ne, lookup-delete_self,
  lookup-delete_ne,
}
use evercore.Memory.State.{Memory}
use evercore.Memory.Aggregates.{
  max_key_length, new_aggregate, new_aggregate_with_key, enter_with_key,
  change_aggregate_natural_key, has_type, get_or_create_aggregate_by_key,
}

-- A key leads to an aggregate that has that key; aggregates are numbered from 1 to the count and
-- have a type.
pub record KeysValid (m : Memory) : Type 0 where
  pub keyed :
      (k : String) (i : ℕ)
      → lookup k m.aggregates ≡ some i
      → lookup i m.aggregate_inv ≡ some (some k)
  pub numbered :
      (i : ℕ) (k : Option String)
      → lookup i m.aggregate_inv ≡ some k
      → (0 < i) × (i ≤ m.count_aggregates)
  pub typed :
      (i : ℕ) (k : Option String)
      → lookup i m.aggregate_inv ≡ some k
      → (t : ℕ) × (lookup i m.aggregate_to_type_id ≡ some t)

module _ (m : Memory) (v : KeysValid m) (t : ℕ) where
  fresh_ne :
      (i : ℕ) (k : Option String) → lookup i m.aggregate_inv ≡ some k → m.count_aggregates + 1 ≢ i
  fresh_ne i k h = let b = v.numbered i k h in omega arith

  numbered_insert :
      (k' : Option String) (i : ℕ) (k : Option String)
      → lookup i (insert (m.count_aggregates + 1) k' m.aggregate_inv) ≡ some k
      → (0 < i) × (i ≤ m.count_aggregates + 1)
  numbered_insert k' i k h = elim (Eq-cases (m.count_aggregates + 1) i) [
    | inl same ↦ omega arith
    | inr other ↦
        let b = v.numbered i k (sym (lookup-insert_ne _ i k' m.aggregate_inv other) ∙ h) in
        omega arith
  ]

  typed_insert :
      (k' : Option String) (i : ℕ) (k : Option String)
      → lookup i (insert (m.count_aggregates + 1) k' m.aggregate_inv) ≡ some k
      → (u : ℕ) × (lookup i (insert (m.count_aggregates + 1) t m.aggregate_to_type_id) ≡ some u)
  typed_insert k' i k h = elim (Eq-cases (m.count_aggregates + 1) i) [
    | inl same ↦ (
      t,
      subst (λ j. lookup j (insert (m.count_aggregates + 1) t m.aggregate_to_type_id) ≡ some t) same
          (lookup-insert_self _ t m.aggregate_to_type_id),
    )
    | inr other ↦
        let (u, e) = v.typed i k (sym (lookup-insert_ne _ i k' m.aggregate_inv other) ∙ h) in
        (u, lookup-insert_ne _ i t m.aggregate_to_type_id other ∙ e)
  ]

  pub new_aggregate-KeysValid : KeysValid (new_aggregate t m).1
  unfolding new_aggregate
  new_aggregate-KeysValid = record {
    keyed = λ k i h.
        let old = v.keyed k i h in
        lookup-insert_ne _ i none m.aggregate_inv (fresh_ne i (some k) old) ∙ old;
    numbered = numbered_insert none;
    typed = typed_insert none;
  }

  enter_keyed :
      (key k : String) (i : ℕ)
      → lookup k (insert key (m.count_aggregates + 1) m.aggregates) ≡ some i
      → lookup i (insert (m.count_aggregates + 1) (some key) m.aggregate_inv) ≡ some (some k)
  enter_keyed key k i h = elim (Eq-cases key k) [
    | inl same ↦
        let e : lookup k (insert key (m.count_aggregates + 1) m.aggregates)
            ≡ some (m.count_aggregates + 1) =
          subst
            (λ x.
              lookup x (insert key (m.count_aggregates + 1) m.aggregates)
              ≡ some (m.count_aggregates + 1))
            same (lookup-insert_self key _ m.aggregates) in
        let id : m.count_aggregates + 1 ≡ i = cc in
        subst
          (λ j.
            lookup j (insert (m.count_aggregates + 1) (some key) m.aggregate_inv) ≡ some (some k))
          id
          (subst
            (λ x.
              lookup (m.count_aggregates + 1)
                (insert (m.count_aggregates + 1) (some key) m.aggregate_inv)
              ≡ some (some x))
            same (lookup-insert_self _ (some key) m.aggregate_inv))
    | inr other ↦
        let old = v.keyed k i (sym (lookup-insert_ne key k _ m.aggregates other) ∙ h) in
        lookup-insert_ne _ i (some key) m.aggregate_inv (fresh_ne i (some k) old) ∙ old
  ]

  enter-KeysValid : (key : String) → KeysValid (enter_with_key t key m)
  unfolding enter_with_key
  enter-KeysValid key = record {
    keyed = enter_keyed key;
    numbered = numbered_insert (some key);
    typed = typed_insert (some key);
  }

  pub new_aggregate_with_key-KeysValid :
      (key : String) → KeysValid (new_aggregate_with_key t key m).1
  unfolding new_aggregate_with_key
  new_aggregate_with_key-KeysValid key = elim (Bool-cases (ltb max_key_length (len key))) [
    | inl long ↦ rw long v
    | inr short ↦ rw short (elim (Option-cases (lookup key m.aggregates)) [
      | inl free ↦ rw free (enter-KeysValid key)
      | inr (i, taken) ↦ rw taken v
    ])
  ]

  pub get_or_create_aggregate_by_key-KeysValid :
      (key : String) → KeysValid (get_or_create_aggregate_by_key t key m).1
  unfolding get_or_create_aggregate_by_key
  get_or_create_aggregate_by_key-KeysValid key = elim (Bool-cases (ltb max_key_length (len key))) [
    | inl long ↦ rw long v
    | inr short ↦ rw short (elim (Option-cases (lookup key m.aggregates)) [
      | inl free ↦ rw free (enter-KeysValid key)
      | inr (i, taken) ↦ rw taken (elim (Bool-cases (not (has_type m i t))) [
        | inl mismatch ↦ rw mismatch v
        | inr fits ↦ rw fits v
      ])
    ])
  ]

module _ (m : Memory) (v : KeysValid m) (id : ℕ) (old new : String)
    (had : lookup id m.aggregate_inv ≡ some (some old)) where
  change_inv :
      (i : ℕ) (k : Option String)
      → id ≢ i
      → lookup i m.aggregate_inv ≡ some k
      → lookup i (insert id (some new) (delete id m.aggregate_inv)) ≡ some k
  change_inv i k other h =
      lookup-insert_ne id i (some new) _ other ∙ lookup-delete_ne id i m.aggregate_inv other ∙ h

  change_keyed :
      (k : String) (i : ℕ)
      → lookup k (insert new id (delete old m.aggregates)) ≡ some i
      → lookup i (insert id (some new) (delete id m.aggregate_inv)) ≡ some (some k)
  change_keyed k i h = elim (Eq-cases new k) [
    | inl same ↦
        let e : lookup k (insert new id (delete old m.aggregates)) ≡ some id =
          subst (λ x. lookup x (insert new id (delete old m.aggregates)) ≡ some id) same
            (lookup-insert_self new id _) in
        let it : id ≡ i = cc in
        subst (λ j. lookup j (insert id (some new) (delete id m.aggregate_inv)) ≡ some (some k)) it
          (subst (λ x. lookup id (insert id (some new) (delete id m.aggregate_inv)) ≡ some (some x))
            same (lookup-insert_self id (some new) _))
    | inr other ↦
        let kept = sym (lookup-insert_ne new k id _ other) ∙ h in
        elim (Eq-cases old k) [
          | inl gone ↦ absurd (lost k i gone kept)
          | inr apart ↦
              let at = v.keyed k i (sym (lookup-delete_ne old k m.aggregates apart) ∙ kept) in
              change_inv i (some k) (λ same. apart (own k i same at)) at
        ]
  ]
    where
      lost : (k : String) (i : ℕ) → old ≡ k → lookup k (delete old m.aggregates) ≡ some i → ⊥
      lost k i gone kept =
          let e : lookup k (delete old m.aggregates) ≡ none =
            subst (λ x. lookup x (delete old m.aggregates) ≡ none) gone
              (lookup-delete_self old m.aggregates) in
          cc

      own : (k : String) (i : ℕ) → id ≡ i → lookup i m.aggregate_inv ≡ some (some k) → old ≡ k
      own k i same at =
          let e : lookup i m.aggregate_inv ≡ some (some old) =
            subst (λ j. lookup j m.aggregate_inv ≡ some (some old)) same had in
          cc

  change_known :
      (i : ℕ) (k : Option String)
      → lookup i (insert id (some new) (delete id m.aggregate_inv)) ≡ some k
      → (k' : Option String) × (lookup i m.aggregate_inv ≡ some k')
  change_known i k h = elim (Eq-cases id i) [
    | inl same ↦ (some old, subst (λ j. lookup j m.aggregate_inv ≡ some (some old)) same had)
    | inr other ↦ (
      k,
      sym (lookup-delete_ne id i m.aggregate_inv other)
          ∙ sym (lookup-insert_ne id i (some new) _ other)
          ∙ h,
    )
  ]

pub change_aggregate_natural_key-KeysValid :
    (m : Memory) (id : ℕ) (key : String)
    → KeysValid m
    → KeysValid (change_aggregate_natural_key id key m).1
unfolding change_aggregate_natural_key
change_aggregate_natural_key-KeysValid m id key v =
    elim (Bool-cases (ltb max_key_length (len key))) [
      | inl long ↦ rw long v
      | inr short ↦ rw short (elim (Option-cases (lookup id m.aggregate_inv)) [
        | inl missing ↦ rw missing v
        | inr (o, found) ↦ elim (Option-cases o) [
          | inl keyless ↦ rw (found ∙ ap some keyless) v
          | inr (old, keyed) ↦
              let had : lookup id m.aggregate_inv ≡ some (some old) = found ∙ ap some keyed in
              rw had (record {
                keyed = change_keyed m v id old key had;
                numbered = λ i k h.
                    let (k', at) = change_known m v id old key had i k h in v.numbered i k' at;
                typed = λ i k h.
                    let (k', at) = change_known m v id old key had i k h in v.typed i k' at;
              })
        ]
      ])
    ]
