-- ===== src/Generator/Located/Entries.antt =====
-- The entries of a kind, as directives are entered.
use evercore.Base.{
  ℕ, ◌<◌, String, some, ◌==◌, ◌≡◌, ◌⊎◌, string_eq, refl, ◌∙◌, subst, inl, inr, Bool-cases, Eq-cases,
  if◌then◌else◌,
}
use evercore.Base.Dict.{Dict, lookup, insert, lookup-insert_self, lookup-insert_ne}
use evercore.Generator.Directives.{
  Directive, LocatedDirectives, done, aggregate, event, state_event, validate_directive,
}
use evercore.Generator.Files.{enter}

-- The map of a kind of directives.
abbrev pub entries : String → LocatedDirectives → Dict String Directive
entries kind located =
    if kind == aggregate
    then located.aggregates
    else if kind == state_event
    then located.state_events
    else located.events

-- The struct has an entry of the kind, from the line at this index or a later one.
abbrev pub Entered : String → String → ℕ → LocatedDirectives → Type 0
Entered kind name index located =
    (d : Directive) × (lookup name (entries kind located) ≡ some d) × (index < d.line)

insert-Entered :
    (name : String) (index : ℕ) (d : Directive) (m : Dict String Directive)
    → index < d.line
    → ((d' : Directive) × (lookup name m ≡ some d') × (index < d'.line))
    → (d' : Directive) × (lookup name (insert d.struct d m) ≡ some d') × (index < d'.line)
insert-Entered name index d m after (d', there, before) = elim (Eq-cases d.struct name) [
  | inl same ↦ (
    d,
    subst (λ n. lookup n (insert d.struct d m) ≡ some d) same (lookup-insert_self d.struct d m),
    after,
  )
  | inr other ↦ (d', lookup-insert_ne d.struct name d m other ∙ there, before)
]

-- What a directive does to the map of a kind.
entries-enter :
    (kind directive : String) (d : Directive) (located : LocatedDirectives)
    → (entries kind (enter directive d located) ≡ insert d.struct d (entries kind located))
      ⊎ (entries kind (enter directive d located) ≡ entries kind located)
unfolding enter
entries-enter kind directive d located = elim (Bool-cases (directive == aggregate)) [
  | inl a ↦ elim (Bool-cases (kind == aggregate)) [
    | inl ka ↦ rw (a, ka) (inl refl)
    | inr ka ↦ rw (a, ka) (inr refl)
  ]
  | inr a ↦ elim (Bool-cases (directive == state_event)) [
    | inl s ↦ elim (Bool-cases (kind == aggregate)) [
      | inl ka ↦ rw (a, s, ka) (inr refl)
      | inr ka ↦ elim (Bool-cases (kind == state_event)) [
        | inl ks ↦ rw (a, s, ka, ks) (inl refl)
        | inr ks ↦ rw (a, s, ka, ks) (inr refl)
      ]
    ]
    | inr s ↦ elim (Bool-cases (directive == event)) [
      | inr e ↦ rw (a, s, e) (inr refl)
      | inl e ↦ elim (Bool-cases (kind == aggregate)) [
        | inl ka ↦ rw (a, s, e, ka) (inr refl)
        | inr ka ↦ elim (Bool-cases (kind == state_event)) [
          | inl ks ↦ rw (a, s, e, ka, ks) (inr refl)
          | inr ks ↦ rw (a, s, e, ka, ks) (inl refl)
        ]
      ]
    ]
  ]
]

-- A directive of a valid kind is entered in the map of its kind.
pub entries-enter_valid :
    (kind file_path : String) (line : ℕ) (d : Directive) (located : LocatedDirectives)
    → validate_directive kind file_path line ≡ done tt
    → entries kind (enter kind d located) ≡ insert d.struct d (entries kind located)
unfolding enter validate_directive
entries-enter_valid kind file_path line d located valid = elim (Bool-cases (kind == aggregate)) [
  | inl a ↦ rw a refl
  | inr a ↦ elim (Bool-cases (kind == state_event)) [
    | inl s ↦ rw (a, s) refl
    | inr s ↦ elim (Bool-cases (kind == event)) [
      | inl e ↦ rw (a, s, e) refl
      | inr e ↦ absurd (let no = rw (a, s, e) at valid in cc)
    ]
  ]
]

-- A later directive leaves an entry, or takes its place.
pub enter-Entered :
    (kind name directive : String) (index : ℕ) (d : Directive) (located : LocatedDirectives)
    → index < d.line
    → Entered kind name index located
    → Entered kind name index (enter directive d located)
enter-Entered kind name directive index d located after h =
    elim (entries-enter kind directive d located) [
      | inl same ↦ rw same (insert-Entered name index d (entries kind located) after h)
      | inr same ↦ rw same h
    ]
