-- ===== src/Sql/Reads/Pending.antt =====
-- `GetEventsForSubscription` of the SQL engines against the pending events of a subscription.
use evercore.Base.{
  ℕ, ◌+◌, ◌≤◌, ◌<◌, String, Bool, true, false, not, ◌&&◌, List, [], ◌∷◌, ◌++◌, Option, none, some,
  map, keep_if, All, ltb, ◌==◌, with_default, nat_eq, string_eq, ◌≡◌, refl, ap, ◌∙◌, inl, inr,
  arith, Bool-cases, Option-cases,
}
use evercore.Base.Dict.{lookup}
use evercore.Types.{StorageEngineEvent, Subscription}
use evercore.Memory.State.{Memory}
use evercore.Memory.Events.{
  serialized, has_event_types, other_aggregate_type, other_key, other_event_type, event_type_set,
}
use evercore.Memory.Events.Pending.{pending_from, fits}
use evercore.Sql.Queries.{EventLogRow, Condition}
use evercore.Sql.Engine.Subscriptions.{
  conditions, type_condition, key_condition, event_type_condition, scanned,
}
use evercore.Sql.Tables.Rows.{Tables, EventRow, place, order_by}
use evercore.Sql.Tables.Subscriptions.{
  event_log, event_log_row, meets, meets_all, aggregate_type_of,
}
use evercore.Sql.Reads.{row_of, Logged, Known, Represents, unreferenced}

module _ (t : Tables) (m : Memory) (v : Represents t m) where
  -- The row of the view for an event.
  abbrev view_row : ℕ → (e : StorageEngineEvent) → Known t m e → EventLogRow
  view_row id e k = record {
    id = id;
    aggregate_id = e.aggregate_id;
    natural_key = (k.row).natural_key;
    sequence = e.sequence;
    aggregate_type_id = (k.row).aggregate_type_id;
    aggregate_type = k.aggregate_type;
    event_type_id = e.event_type_id;
    event_type = k.event_type;
    event_time = e.event_time;
    state = e.state;
  }

  event_log_row-Known :
      (id : ℕ) (e : StorageEngineEvent) (k : Known t m e)
      → event_log_row t (row_of id e) ≡ view_row id e k ∷ []
  unfolding event_log_row aggregate_type_of
  event_log_row-Known id e k = rw (k.found, k.event_type_named) (rw k.aggregate_type_named)

  meets_all-append :
      (row : EventLogRow) (cs ds : List Condition)
      → meets_all t row (cs ++ ds) ≡ meets_all t row cs && meets_all t row ds
  unfolding meets_all
  meets_all-append row [] ds = refl
  meets_all-append row (c ∷ cs) ds = ground (arith, meets_all-append row cs ds)

  by_type-meets :
      (o : Option ℕ) (id : ℕ) (e : StorageEngineEvent) (k : Known t m e)
      → meets_all t (view_row id e k) (type_condition o)
        ≡ not (elim o [
          | none ↦ false
          | some ty ↦ not (with_default (lookup e.aggregate_id m.aggregate_to_type_id) 0 == ty)
        ])
  unfolding meets_all meets type_condition
  by_type-meets none id e k = refl
  by_type-meets (some ty) id e k = rw k.typed (ground arith)

  by_key-meets :
      (o : Option String) (id : ℕ) (e : StorageEngineEvent) (k : Known t m e)
      → meets_all t (view_row id e k) (key_condition o)
        ≡ not (elim o [
          | none ↦ false
          | some wanted ↦ elim (lookup e.aggregate_id m.aggregate_inv) [
            | none ↦ true
            | some none ↦ true
            | some (some key) ↦ not (key == wanted)
          ]
        ])
  unfolding meets_all meets key_condition
  by_key-meets none id e k = refl
  by_key-meets (some wanted) id e k = rw k.keyed (ground arith)

  by_event_type-meets :
      (sub : Subscription) (id : ℕ) (e : StorageEngineEvent) (k : Known t m e) (multi : Bool)
      → meets_all t (view_row id e k) (event_type_condition multi sub)
        ≡ not (other_event_type m sub multi e)
  unfolding meets_all meets event_type_condition other_event_type event_type_set
  by_event_type-meets sub id e k true = rw (v.among sub.id e.event_type_id) (ground arith)
  by_event_type-meets sub id e k false = elim (Option-cases sub.event_type_id) [
    | inl no_type ↦ rw no_type
    | inr (ty, one) ↦ rw one (ground arith)
  ]

  -- The conditions hold of a row exactly if the event fits the subscription.
  meets_all-fits :
      (sub : Subscription) (id : ℕ) (e : StorageEngineEvent) (k : Known t m e)
      → meets_all t (view_row id e k) (conditions (has_event_types m sub) sub) ≡ fits m sub e
  unfolding conditions fits other_aggregate_type other_key
  meets_all-fits sub id e k =
      let row = view_row id e k in
      meets_all-append row (type_condition sub.aggregate_type_id) _
      ∙ ap (λ b. meets_all t row (type_condition sub.aggregate_type_id) && b)
          (meets_all-append row (key_condition sub.aggregate_key) _)
      ∙ rw
          (
            by_type-meets sub.aggregate_type_id id e k,
            by_key-meets sub.aggregate_key id e k,
            by_event_type-meets sub id e k (has_event_types m sub),
          )
          (ground arith)

  scanned-view_row :
      (id : ℕ) (e : StorageEngineEvent) (k : Known t m e)
      → scanned (view_row id e k) ≡ unreferenced (serialized m id e)
  unfolding serialized
  scanned-view_row id e k = rw k.same_name

  abbrev pub passes : Subscription → ℕ → EventLogRow → Bool
  passes sub cursor r = ltb cursor r.id && meets_all t r (conditions (has_event_types m sub) sub)

  passes-fits :
      (sub : Subscription) (cursor id : ℕ) (e : StorageEngineEvent) (k : Known t m e)
      → passes sub cursor (view_row id e k) ≡ ltb cursor id && fits m sub e
  passes-fits sub cursor id e k = ap (λ b. ltb cursor id && b) (meets_all-fits sub id e k)

  event_log-cons :
      (idx : ℕ) (e : StorageEngineEvent) (r : EventRow) (rs : List EventRow) (k : Known t m e)
      → r ≡ row_of (idx + 1) e
      → event_log t (r ∷ rs) ≡ view_row (idx + 1) e k ∷ event_log t rs
  unfolding event_log
  event_log-cons idx e r rs k same =
      ap (λ x. event_log_row t x ++ event_log t rs) same
      ∙ ap (λ l. l ++ event_log t rs) (event_log_row-Known (idx + 1) e k)

  -- The rows that pass are those of the pending events.
  pub rows-pending :
      (sub : Subscription) (cursor idx : ℕ) (es : List StorageEngineEvent) (rs : List EventRow)
      → Logged idx es rs
      → All (Known t m) es
      → map scanned (keep_if (passes sub cursor) (event_log t rs))
        ≡ map unreferenced (pending_from m sub cursor idx es)
  unfolding event_log pending_from
  rows-pending sub cursor idx [] [] same known = refl
  rows-pending sub cursor idx (e ∷ es) (r ∷ rs) (same, rest) (k, ks) =
      let ih = rows-pending sub cursor (idx + 1) es rs rest ks in
      let head = scanned-view_row (idx + 1) e k in
      ap (λ l. map scanned (keep_if (passes sub cursor) l)) (event_log-cons idx e r rs k same)
      ∙ elim (Bool-cases (ltb cursor (idx + 1) && fits m sub e)) [
        | inl keep ↦ rw (passes-fits sub cursor (idx + 1) e k) (
            rw keep (
              ap (λ x. x ∷ map scanned (keep_if (passes sub cursor) (event_log t rs))) head
              ∙ ap (λ l. unreferenced (serialized m (idx + 1) e) ∷ l) ih))
        | inr skip ↦ rw (passes-fits sub cursor (idx + 1) e k) (rw skip ih)
      ]
  rows-pending sub cursor idx [] (r ∷ rs) wrong known = absurd wrong
  rows-pending sub cursor idx (e ∷ es) [] wrong known = absurd wrong

  -- The rows of the view come in the order of their ids.
  abbrev pub Beyond : ℕ → List EventLogRow → Type 0
  Beyond lo = All (λ r. lo < r.id)

  Beyond-less : (lo hi : ℕ) (rows : List EventLogRow) → lo ≤ hi → Beyond hi rows → Beyond lo rows
  Beyond-less lo hi [] h b = tt
  Beyond-less lo hi (r ∷ rows) h (b, bs) = (omega arith, Beyond-less lo hi rows h bs)

  place-Beyond :
      (r : EventLogRow) (rows : List EventLogRow)
      → Beyond r.id rows
      → place (λ x. x.id) r rows ≡ r ∷ rows
  place-Beyond r [] b = refl
  place-Beyond r (x ∷ rows) (b, bs) = ground arith

  pub rows-ordered :
      (sub : Subscription) (cursor idx : ℕ) (es : List StorageEngineEvent) (rs : List EventRow)
      → Logged idx es rs
      → All (Known t m) es
      → let rows = keep_if (passes sub cursor) (event_log t rs) in
        Beyond idx rows × (order_by (λ x. x.id) rows ≡ rows)
  unfolding event_log
  rows-ordered sub cursor idx [] [] same known = (tt, refl)
  rows-ordered sub cursor idx [] (r ∷ rs) wrong known = absurd wrong
  rows-ordered sub cursor idx (e ∷ es) [] wrong known = absurd wrong
  rows-ordered sub cursor idx (e ∷ es) (r ∷ rs) (same, rest) (k, ks) =
      let (beyond, sorted) = rows-ordered sub cursor (idx + 1) es rs rest ks in
      let row = view_row (idx + 1) e k in
      rw (event_log-cons idx e r rs k same) (elim (Bool-cases (passes sub cursor row)) [
        | inl keep ↦ rw keep (
          (omega arith, Beyond-less idx (idx + 1) _ (omega arith) beyond),
          ap (place (λ x. x.id) row) sorted ∙ place-Beyond row _ beyond,
        )
        | inr skip ↦ rw skip (Beyond-less idx (idx + 1) _ (omega arith) beyond, sorted)
      ])
