-- ===== src/Sql/Transactions/Loads/Gains.antt =====
-- What asking for the id of an event type does to the tables of a transaction.
use mathlib.Core.List.{append_assoc, append-nil}
use evercore.Base.{
  ℕ, ◌+◌, String, false, List, [], ◌∷◌, ◌++◌, some, ◌≡◌, refl, sym, ap, ◌∙◌, ◌==◌, nat_eq,
  string_eq, Bool-cases, Option-cases, inl, inr,
}
use evercore.Base.Preserves.{OnSuccess, OnSuccess-within}
use evercore.Types.{IdNamePair}
use evercore.Sql.Errors.{storing, is_no_rows}
use evercore.Sql.Tables.Rows.{Tables, any, max_id}
use evercore.Sql.Tables.Streams.{
  name_of_id, id_of_name, add_name, add_event_type, get_event_type_id_by_name,
}
use evercore.Sql.Tables.Database.{Database, in_transaction, queries}
use evercore.Sql.Engine.Streams.{get_event_type_id}
use evercore.Sql.Valid.{Apart, same_pair_id}
use evercore.Sql.Valid.Apart.{Apart-append, max_id-fresh}
use evercore.Sql.Transactions.Appends.{OnSuccess-storing}
use evercore.Sql.Transactions.Loads.Names.{name_of_id-new, name_of_id-id_of_name}

-- More tables: the same events, and more event types.
abbrev pub Extends : Tables → Tables → Type 0
Extends u u' =
    (u'.events ≡ u.events) × (more : List IdNamePair) × (u'.event_types ≡ u.event_types ++ more)

pub Extends-refl : (u : Tables) → Extends u u
Extends-refl u = (refl, [], sym (append-nil u.event_types))

pub Extends-trans : (u u' u'' : Tables) → Extends u u' → Extends u' u'' → Extends u u''
Extends-trans u u' u'' (e, more, types) (e', more', types') = (
  e' ∙ e,
  more ++ more',
  types' ∙ ap (λ l. l ++ more') types ∙ append_assoc u.event_types more more',
)

module _ (t : Tables) where
  -- A new name in the tables of the transaction.
  abbrev pub Added : Tables → String → Tables → ℕ → Type 0
  Added u name u' id =
      Extends u u' × Apart same_pair_id u'.event_types × (name_of_id id u'.event_types ≡ some name)

  add_event_type-Added :
      (u : Tables) (name : String)
      → Apart same_pair_id u.event_types
      → OnSuccess (λ id u'. Added u name u' id) (add_event_type name u)
  unfolding add_event_type add_name
  add_event_type-Added u name apart = elim (Bool-cases (any (λ p. p.name == name) u.event_types)) [
    | inl taken ↦ rw taken tt
    | inr free ↦
        let id = max_id (λ p. p.id) u.event_types + 1 in
        let fresh : any (λ p. p.id == id) u.event_types ≡ false =
          max_id-fresh (λ p. p.id) u.event_types in
        rw free (
          (refl, record { id = id; name = name } ∷ [], refl),
          Apart-append same_pair_id u.event_types _ fresh apart,
          name_of_id-new id name u.event_types fresh,
        )
  ]

  abbrev pub Gained : Tables → String → ℕ → Database → Type 0
  Gained u name id db = (u' : Tables) × (db ≡ in_transaction t u') × Added u name u' id

  adding-Gained :
      (u : Tables) (name : String)
      → Apart same_pair_id u.event_types
      → OnSuccess (Gained u name) (
          storing "failed to add event type"
            ((queries (some tt)).add_event_type name)
            (in_transaction t u))
  adding-Gained u name apart =
      OnSuccess-storing (Gained u name) "failed to add event type"
        ((queries (some tt)).add_event_type name (in_transaction t u))
        (OnSuccess-within (λ id u'. Added u name u' id) (Gained u name) (λ u'. in_transaction t u')
          (add_event_type name u) (λ id u' added. (u', refl, added))
          (add_event_type-Added u name apart))

  pub get_event_type_id-Gained :
      (u : Tables) (name : String)
      → Apart same_pair_id u.event_types
      → OnSuccess (Gained u name) (get_event_type_id (queries (some tt)) name (in_transaction t u))
  unfolding get_event_type_id get_event_type_id_by_name is_no_rows
  get_event_type_id-Gained u name apart = elim (Option-cases (id_of_name name u.event_types)) [
    | inl new ↦ rw new (adding-Gained u name apart)
    | inr (id, known) ↦ elim (Bool-cases (id == 0)) [
      | inl zero_id ↦ rw known (rw zero_id (adding-Gained u name apart))
      | inr found ↦ rw known (
          rw found (
            u,
            refl,
            (Extends-refl u, apart, name_of_id-id_of_name name id u.event_types apart known),
          ))
    ]
  ]
