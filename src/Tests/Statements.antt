-- ===== src/Tests/Statements.antt =====
-- Statements on empty tables.
use evercore.Base.{List, [], ◌∷◌, none}
use evercore.Sql.Tables.Rows.{no_tables}
use evercore.Sql.Valid.{
  IsValid, Change, change_all, adds_aggregate_type, adds_event_type, adds_aggregate,
  adds_aggregate_with_key, changes_key, upserts, claims,
}
use evercore.Sql.Valid.Changes.{change_all-IsValid}

-- Two of them are refused: a key that another aggregate has, and a known type.
abbrev statements : List Change
statements =
    adds_aggregate_type "order"
    ∷ adds_event_type "placed"
    ∷ adds_aggregate_with_key 1 "k"
    ∷ adds_aggregate 1
    ∷ changes_key "k2" 1
    ∷ changes_key "k" 2
    ∷ changes_key "k2" 2
    ∷ upserts "jobs" none none none "beginning" 0 none
    ∷ claims "w1" 10 "jobs" 5
    ∷ adds_event_type "placed"
    ∷ []

change_all-IsValid_example : IsValid (change_all statements no_tables)
change_all-IsValid_example = change_all-IsValid statements
