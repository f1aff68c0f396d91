-- ===== src/Sql/Valid/Keys.antt =====
-- Natural keys stay apart when the key of an aggregate changes.
use evercore.Base.{
  ℕ, String, Bool, true, false, not, ◌&&◌, List, [], ◌∷◌, some, ◌==◌, ◌≡◌, nat_eq, string_eq, All,
  refl, sym, ap, ◌∙◌, inl, inr, arith, Bool-cases, Option-cases, ==_ne,
}
use evercore.Sql.Tables.Rows.{AggregateRow, any, update}
use evercore.Sql.Tables.Streams.{has_key, key_taken}
use evercore.Sql.Valid.{Apart, same_aggregate, same_key}

module _ (id : ℕ) (key : String) where
  abbrev pub is_it : AggregateRow → Bool
  is_it a = a.id == id

  abbrev pub keyed : AggregateRow → AggregateRow
  keyed a = record a { natural_key = some key }

  -- The rows beside the aggregate are not it.
  others_are_not :
      (a : AggregateRow) (rows : List AggregateRow)
      → a.id ≡ id
      → All (λ o. same_aggregate a o ≡ false) rows
      → update is_it keyed rows ≡ rows
  others_are_not a [] e all = refl
  others_are_not a (o ∷ rows) e (ne, all) =
      let miss : is_it o ≡ false = ground (arith, ne, e) in
      rw miss (ap (λ r. o ∷ r) (others_are_not a rows e all))

  -- The rows beside a row do not have the key, unless they are the aggregate's.
  key_taken-tail :
      (o : AggregateRow) (rows : List AggregateRow)
      → key_taken id key (o ∷ rows) ≡ false
      → key_taken id key rows ≡ false
  key_taken-tail o rows free = elim (Bool-cases (not (is_it o) && has_key key o)) [
    | inl hit ↦ absurd (let met : key_taken id key (o ∷ rows) ≡ true = rw hit refl in cc)
    | inr miss ↦
        let later : key_taken id key (o ∷ rows) ≡ key_taken id key rows = rw miss refl in
        sym later ∙ free
  ]

  key_taken-head :
      (o : AggregateRow) (rows : List AggregateRow)
      → key_taken id key (o ∷ rows) ≡ false
      → is_it o ≡ false
      → has_key key o ≡ false
  key_taken-head o rows free other = elim (Bool-cases (has_key key o)) [
    | inl hit ↦ absurd (let met : key_taken id key (o ∷ rows) ≡ true = rw (other, hit) refl in cc)
    | inr miss ↦ miss
  ]

  -- A row without the key is not in conflict with a row that gets it.
  unlike_keyed : (a o : AggregateRow) → has_key key o ≡ false → same_key (keyed a) o ≡ false
  unlike_keyed a o none_of = elim (Option-cases o.natural_key) [
    | inl no_key ↦ rw no_key refl
    | inr (k, has) ↦
        let ne : (k == key) ≡ false =
          sym (let same : has_key key o ≡ (k == key) = rw has refl in same) ∙ none_of in
        rw has (==_ne key k (λ q. absurd (let eq = (string_eq.same_iff k key).1 (sym q) in cc)))
  ]

  key_free :
      (a : AggregateRow) (rows : List AggregateRow)
      → a.id ≡ id
      → All (λ o. same_aggregate a o ≡ false) rows
      → key_taken id key rows ≡ false
      → All (λ o. same_key (keyed a) o ≡ false) rows
  key_free a [] e all free = tt
  key_free a (o ∷ rows) e (ne, all) free =
      let miss : is_it o ≡ false = ground (arith, ne, e) in
      (
        unlike_keyed a o (key_taken-head o rows free miss),
        key_free a rows e all (key_taken-tail o rows free),
      )

  -- A row that does not have the key stays apart from those of an update.
  update-unlike :
      (a : AggregateRow) (rows : List AggregateRow)
      → has_key key a ≡ false
      → All (λ o. same_key a o ≡ false) rows
      → All (λ o. same_key a o ≡ false) (update is_it keyed rows)
  update-unlike a [] none_of all = tt
  update-unlike a (o ∷ rows) none_of (ne, all) = elim (Bool-cases (is_it o)) [
    | inl hit ↦ rw hit (none_of, update-unlike a rows none_of all)
    | inr miss ↦ rw miss (ne, update-unlike a rows none_of all)
  ]

  pub update-Apart :
      (rows : List AggregateRow)
      → key_taken id key rows ≡ false
      → Apart same_aggregate rows
      → Apart same_key rows
      → Apart same_key (update is_it keyed rows)
  update-Apart [] free ids keys = tt
  update-Apart (a ∷ rows) free (alone, ids) (unlike, keys) =
      let rest = update-Apart rows (key_taken-tail a rows free) ids keys in
      elim (Bool-cases (is_it a)) [
        | inl hit ↦
            let it : a.id ≡ id = (nat_eq.same_iff a.id id).0 hit in
            let same = others_are_not a rows it alone in
            rw hit (rw same (key_free a rows it alone (key_taken-tail a rows free), keys))
        | inr miss ↦ rw miss (update-unlike a rows (key_taken-head a rows free miss) unlike, rest)
      ]

  -- Without the aggregate nothing is updated.
  pub update-none :
      (rows : List AggregateRow) → any is_it rows ≡ false → update is_it keyed rows ≡ rows
  update-none [] absent = refl
  update-none (a ∷ rows) absent = elim (Bool-cases (is_it a)) [
    | inl hit ↦ absurd (let met : any is_it (a ∷ rows) ≡ true = rw hit refl in cc)
    | inr miss ↦
        let later : any is_it (a ∷ rows) ≡ any is_it rows = rw miss refl in
        rw miss (ap (λ r. a ∷ r) (update-none rows (sym later ∙ absent)))
  ]
