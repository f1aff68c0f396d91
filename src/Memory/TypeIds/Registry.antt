-- ===== src/Memory/TypeIds/Registry.antt =====
-- A table of names and ids, and its inverse, as both kinds of type ids keep them.
pub mod Naming
use evercore.Base.{
  ℕ, ◌+◌, ◌≤◌, ◌<◌, String, Option, none, some, ◌≡◌, ◌≢◌, ◌↔◌, refl, sym, subst, ◌∙◌, inl, inr,
  arith, nat_eq, string_eq, Eq-cases, Option-cases,
}
use evercore.Base.Dict.{Dict, lookup, insert, lookup-insert_self, lookup-insert_ne}
use evercore.Base.Outcome.{ok}
use evercore.Memory.State.{Memory}
use evercore.Memory.TypeIds.{get_event_type_id, get_aggregate_type_id}

-- The tables are inverse to one another, and ids run from 1 to the count.
pub record IsRegistry (names : Dict String ℕ) (inv : Dict ℕ String) (count : ℕ) : Type 0 where
  pub forward : (n : String) (i : ℕ) → lookup n names ≡ some i → lookup i inv ≡ some n
  pub backward : (i : ℕ) (n : String) → lookup i inv ≡ some n → lookup n names ≡ some i
  pub bounded : (n : String) (i : ℕ) → lookup n names ≡ some i → (0 < i) × (i ≤ count)

module _ (names : Dict String ℕ) (inv : Dict ℕ String) (count : ℕ) (name : String)
    (r : IsRegistry names inv count) (fresh : lookup name names ≡ none) where
  register_forward :
      (n : String) (i : ℕ)
      → lookup n (insert name (count + 1) names) ≡ some i
      → lookup i (insert (count + 1) name inv) ≡ some n
  register_forward n i h = elim (Eq-cases name n) [
    | inl same ↦
        let e : lookup n (insert name (count + 1) names) ≡ some (count + 1) =
          subst (λ x. lookup x (insert name (count + 1) names) ≡ some (count + 1)) same
            (lookup-insert_self name (count + 1) names) in
        let id : count + 1 ≡ i = cc in
        subst (λ j. lookup j (insert (count + 1) name inv) ≡ some n) id
          (subst (λ x. lookup (count + 1) (insert (count + 1) name inv) ≡ some x) same
            (lookup-insert_self (count + 1) name inv))
    | inr other ↦
        let old : lookup n names ≡ some i =
          sym (lookup-insert_ne name n (count + 1) names other) ∙ h in
        let b = r.bounded n i old in
        lookup-insert_ne (count + 1) i name inv (omega arith) ∙ r.forward n i old
  ]

  register_bounded :
      (n : String) (i : ℕ)
      → lookup n (insert name (count + 1) names) ≡ some i
      → (0 < i) × (i ≤ count + 1)
  register_bounded n i h = elim (Eq-cases name n) [
    | inl same ↦
        let e : lookup n (insert name (count + 1) names) ≡ some (count + 1) =
          subst (λ x. lookup x (insert name (count + 1) names) ≡ some (count + 1)) same
            (lookup-insert_self name (count + 1) names) in
        let id : count + 1 ≡ i = cc in omega arith
    | inr other ↦
        let old : lookup n names ≡ some i =
          sym (lookup-insert_ne name n (count + 1) names other) ∙ h in
        let b = r.bounded n i old in omega arith
  ]

  register_backward :
      (i : ℕ) (n : String)
      → lookup i (insert (count + 1) name inv) ≡ some n
      → lookup n (insert name (count + 1) names) ≡ some i
  register_backward i n h = elim (Eq-cases (count + 1) i) [
    | inl same ↦
        let e : lookup i (insert (count + 1) name inv) ≡ some name =
          subst (λ x. lookup x (insert (count + 1) name inv) ≡ some name) same
            (lookup-insert_self (count + 1) name inv) in
        let it : name ≡ n = cc in
        subst (λ x. lookup x (insert name (count + 1) names) ≡ some i) it
          (subst (λ j. lookup name (insert name (count + 1) names) ≡ some j) same
            (lookup-insert_self name (count + 1) names))
    | inr other ↦
        let old : lookup i inv ≡ some n = sym (lookup-insert_ne (count + 1) i name inv other) ∙ h in
        let back = r.backward i n old in
        lookup-insert_ne name n (count + 1) names (λ same. absurd (clash n i same back)) ∙ back
  ]
    where
      clash : (n : String) (i : ℕ) → name ≡ n → lookup n names ≡ some i → ⊥
      clash n i same back =
          let lost : lookup n names ≡ none = subst (λ x. lookup x names ≡ none) same fresh in cc

  pub register-IsRegistry :
      IsRegistry (insert name (count + 1) names) (insert (count + 1) name inv) (count + 1)
  register-IsRegistry = record {
    forward = register_forward;
    backward = register_backward;
    bounded = register_bounded;
  }

abbrev pub EventTypesValid : Memory → Type 0
EventTypesValid m = IsRegistry m.event_types m.event_types_inv m.count_event_types

abbrev pub AggregateTypesValid : Memory → Type 0
AggregateTypesValid m = IsRegistry m.aggregate_types m.aggregate_types_inv m.count_aggregate_type

pub get_event_type_id-Valid :
    (name : String) (m : Memory) → EventTypesValid m → EventTypesValid (get_event_type_id name m).1
unfolding get_event_type_id
get_event_type_id-Valid name m r = elim (Option-cases (lookup name m.event_types)) [
  | inl e ↦ rw (e, get_event_type_id) (register-IsRegistry _ _ _ name r e)
  | inr (i, e) ↦ rw (e, get_event_type_id) r
]

pub get_aggregate_type_id-Valid :
    (name : String) (m : Memory)
    → AggregateTypesValid m
    → AggregateTypesValid (get_aggregate_type_id name m).1
unfolding get_aggregate_type_id
get_aggregate_type_id-Valid name m r = elim (Option-cases (lookup name m.aggregate_types)) [
  | inl e ↦ rw (e, get_aggregate_type_id) (register-IsRegistry _ _ _ name r e)
  | inr (i, e) ↦ rw (e, get_aggregate_type_id) r
]

pub get_event_type_id-other :
    (name : String) (m : Memory)
    → AggregateTypesValid m
    → AggregateTypesValid (get_event_type_id name m).1
unfolding get_event_type_id
get_event_type_id-other name m r = elim (Option-cases (lookup name m.event_types)) [
  | inl e ↦ rw (e, get_event_type_id) r
  | inr (i, e) ↦ rw (e, get_event_type_id) r
]

pub get_aggregate_type_id-other :
    (name : String) (m : Memory)
    → EventTypesValid m
    → EventTypesValid (get_aggregate_type_id name m).1
unfolding get_aggregate_type_id
get_aggregate_type_id-other name m r = elim (Option-cases (lookup name m.aggregate_types)) [
  | inl e ↦ rw (e, get_aggregate_type_id) r
  | inr (i, e) ↦ rw (e, get_aggregate_type_id) r
]
