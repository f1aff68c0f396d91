-- ===== src/Sql/Keys.antt =====
-- The length of natural keys in the tables of a SQL engine.
use Prim.Native.String.{len}
use evercore.Base.{
  ℕ, ◌≤◌, String, true, false, ◌&&◌, List, [], ◌∷◌, none, some, ltb, ◌==◌, ◌≡◌, nat_eq, string_eq,
  All, inl, inr, arith, Bool-cases, Option-cases, All-append,
}
use evercore.Base.Outcome.{M, ok}
use evercore.Base.Preserves.{resume-Preserves}
use evercore.Sql.Errors.{is_no_rows, storing}
use evercore.Sql.Tables.Rows.{Tables, AggregateRow, any, update, find}
use evercore.Sql.Tables.Streams as Tables
use evercore.Sql.Tables.Streams.{has_key, key_taken}
use evercore.Sql.Tables.Database.{Database, at_rest, queries}
use evercore.Sql.Engine.Streams.{
  max_key_length, new_aggregate_with_key, change_aggregate_natural_key,
  get_or_create_aggregate_by_key,
}

abbrev pub Fits : AggregateRow → Type 0
Fits a = elim a.natural_key [ none ↦ Unit | some key ↦ len key ≤ 64 ]

abbrev pub AllFit : List AggregateRow → Type 0
AllFit = All Fits

update-AllFit :
    (id : ℕ) (key : String) (rows : List AggregateRow)
    → len key ≤ 64
    → AllFit rows
    → AllFit (update (λ a. a.id == id) (λ a. record a { natural_key = some key }) rows)
update-AllFit id key [] short fit = tt
update-AllFit id key (a ∷ rows) short (f, fs) = elim (Bool-cases (a.id == id)) [
  | inl hit ↦ rw hit (short, update-AllFit id key rows short fs)
  | inr miss ↦ rw miss (f, update-AllFit id key rows short fs)
]

module _ (t : Tables) (fit : AllFit t.aggregates) (key : String) (id : ℕ) where
  entered :
      len key ≤ max_key_length
      → AllFit (Tables.add_aggregate_with_natural_key id key t).1.aggregates
  unfolding Tables.add_aggregate_with_natural_key
  entered short = elim (Bool-cases (any (has_key key) t.aggregates)) [
    | inl taken ↦ rw taken fit
    | inr free ↦ rw free (All-append Fits t.aggregates _ fit (short, tt))
  ]

  changed : len key ≤ 64 → AllFit (Tables.change_aggregate_natural_key key id t).1.aggregates
  unfolding Tables.change_aggregate_natural_key
  changed short =
      elim (Bool-cases (any (λ a. a.id == id) t.aggregates && key_taken id key t.aggregates)) [
        | inl taken ↦ rw taken fit
        | inr free ↦ rw free (update-AllFit id key t.aggregates short fit)
      ]

  got :
      ltb max_key_length (len key) ≡ false
      → len key ≤ 64
      → AllFit
          (get_or_create_aggregate_by_key (queries none) id key (at_rest t)).1.committed.aggregates
  unfolding get_or_create_aggregate_by_key Tables.get_aggregate_id_by_natural_key is_no_rows
  got short h =
      elim (Option-cases (find (λ a. a.aggregate_type_id == id && has_key key a) t.aggregates)) [
        | inl absent ↦
            let stored : Database → Type 0 = λ db. AllFit db.committed.aggregates in
            let create : M Database ℕ =
              storing "failed to create aggregate with key"
                ((queries none).add_aggregate_with_natural_key id key) in
            rw (short, absent)
              (resume-Preserves stored (create (at_rest t)) (λ i s. (ok (true, i), s)) (entered h)
                (λ i s f. f))
        | inr (row, found) ↦ rw (short, found) fit
      ]

  -- Where every natural key in the tables of a SQL database at rest has at most 64 bytes, so it
  -- is after each of the engine's calls that store a key: the creation of an aggregate with a
  -- key, the one where there is none yet, and the change of a key.
  pub keys_fit :
      AllFit (new_aggregate_with_key (queries none) id key (at_rest t)).1.committed.aggregates
      × AllFit
          (get_or_create_aggregate_by_key (queries none) id key (at_rest t)).1.committed.aggregates
      × AllFit
          (change_aggregate_natural_key (queries none) id key (at_rest t)).1.committed.aggregates
  unfolding new_aggregate_with_key get_or_create_aggregate_by_key change_aggregate_natural_key
      Tables.get_aggregate_id_by_natural_key is_no_rows
  keys_fit = elim (Bool-cases (ltb max_key_length (len key))) [
    | inl long ↦ (rw long fit, rw long fit, rw long fit)
    | inr short ↦
        let h : len key ≤ 64 = ground arith in
        (rw short (entered h), got short h, rw short (changed h))
  ]
