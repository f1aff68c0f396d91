-- ===== src/Memory/TypeIds/Registry/Naming.antt =====
-- Ids name types: what two calls of `GetEventTypeId` return.
use evercore.Base.{
  ℕ, ◌+◌, String, none, some, ◌≡◌, ◌↔◌, subst, ◌∙◌, inl, inr, nat_eq, string_eq, Option-cases,
}
use evercore.Base.Dict.{lookup, lookup-insert_self, lookup-insert_ne}
use evercore.Base.Outcome.{ok}
use evercore.Memory.State.{Memory}
use evercore.Memory.TypeIds.{get_event_type_id}
use evercore.Memory.TypeIds.Registry.{EventTypesValid, get_event_type_id-Valid}

-- The id that a call returns, which it also leaves in both tables.
pub resolve :
    (name : String) (m : Memory)
    → EventTypesValid m
    → (i : ℕ) × ((get_event_type_id name m).0 ≡ ok i)
      × (lookup name (get_event_type_id name m).1.event_types ≡ some i)
unfolding get_event_type_id
resolve name m r = elim (Option-cases (lookup name m.event_types)) [
  | inl e ↦ (
    m.count_event_types + 1,
    rw (e, get_event_type_id),
    rw (e, get_event_type_id) (lookup-insert_self name _ _),
  )
  | inr (i, e) ↦ (i, rw (e, get_event_type_id), rw (e, get_event_type_id) e)
]

-- A name that has an id keeps it.
pub keeps :
    (name other : String) (m : Memory) (i : ℕ)
    → lookup name m.event_types ≡ some i
    → lookup name (get_event_type_id other m).1.event_types ≡ some i
unfolding get_event_type_id
keeps name other m i h = elim (Option-cases (lookup other m.event_types)) [
  | inl e ↦
      rw (e, get_event_type_id) (lookup-insert_ne other name _ _ (λ same. absurd (lost same e)) ∙ h)
  | inr (j, e) ↦ rw (e, get_event_type_id) h
]
  where
    lost : other ≡ name → lookup other m.event_types ≡ none → ⊥
    lost same e =
        let gone : lookup name m.event_types ≡ none =
          subst (λ x. lookup x m.event_types ≡ none) same e in
        cc

-- On an engine whose event type tables are valid, two names are given the same id exactly when
-- they are the same name, and each id leads back to its name, also after the other was
-- registered.
pub get_event_type_id-distinct :
    (a b : String) (m : Memory)
    → EventTypesValid m
    → let first = get_event_type_id a m in
      let second = get_event_type_id b first.1 in
      (i : ℕ) × (j : ℕ) × (first.0 ≡ ok i)
      × (second.0 ≡ ok j)
      × ((i ≡ j) ↔ (a ≡ b))
      × (lookup i second.1.event_types_inv ≡ some a)
      × (lookup j second.1.event_types_inv ≡ some b)
get_event_type_id-distinct a b m r =
    let (i, first, at) = resolve a m r in
    let r1 = get_event_type_id-Valid a m r in
    let (j, second, bt) = resolve b (get_event_type_id a m).1 r1 in
    let r2 = get_event_type_id-Valid b (get_event_type_id a m).1 r1 in
    let at2 = keeps a b (get_event_type_id a m).1 i at in
    let back_a = r2.forward a i at2 in
    let back_b = r2.forward b j bt in
    (i, j, first, second, (same_name r2 at2 bt, same_id at2 bt), back_a, back_b)
  where
    same_name :
        {i j : ℕ}
        → EventTypesValid (get_event_type_id b (get_event_type_id a m).1).1
        → lookup a (get_event_type_id b (get_event_type_id a m).1).1.event_types ≡ some i
        → lookup b (get_event_type_id b (get_event_type_id a m).1).1.event_types ≡ some j
        → i ≡ j
        → a ≡ b
    same_name {i} {j} r2 at bt same =
        let x = r2.forward a i at in
        let y = r2.forward b j bt in
        let z =
          subst
            (λ k.
              lookup k (get_event_type_id b (get_event_type_id a m).1).1.event_types_inv ≡ some a)
            same x in
        cc

    same_id :
        {i j : ℕ}
        → lookup a (get_event_type_id b (get_event_type_id a m).1).1.event_types ≡ some i
        → lookup b (get_event_type_id b (get_event_type_id a m).1).1.event_types ≡ some j
        → a ≡ b
        → i ≡ j
    same_id {i} at bt same =
        let z =
          subst
            (λ k. lookup k (get_event_type_id b (get_event_type_id a m).1).1.event_types ≡ some i)
            same at in
        cc
