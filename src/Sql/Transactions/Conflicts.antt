-- ===== src/Sql/Transactions/Conflicts.antt =====
-- Optimistic concurrency: a save at a sequence that is taken.
use evercore.Base.{
  ℕ, suc, List, [], ◌∷◌, ◌++◌, Bool, true, false, some, ◌≡◌, ◌≢◌, refl, sym, ap, subst, ◌∙◌, inl,
  inr, Bool-cases,
}
use evercore.Base.Outcome.{M, ok}
use evercore.Types.{SerializedEvent, StorageEngineEvent}
use evercore.Sql.Tables.Rows.{Tables, EventRow, any}
use evercore.Sql.Tables.Streams.{at_sequence}
use evercore.Sql.Tables.Database.{Database, at_rest, in_transaction, connection}
use evercore.Sql.Engine.Interface.{sqlite_engine}
use evercore.Sql.Transactions.{StoreInside}
use evercore.Sql.Transactions.Atomic.{with_context-Atomic}
use evercore.Sql.Transactions.Appends.{Stamped, Appended, Holding, with_context-appends}
use evercore.Store.State.{EventStore}
use evercore.Store.Types.{storage_event}
use evercore.Context.State.{Context}
use evercore.Context.Run.{with_context, run_in}

any-append_false :
    {A : Type 0} (p : A → Bool) (xs ys : List A) → any p (xs ++ ys) ≡ false → any p xs ≡ false
any-append_false p [] ys h = refl
any-append_false p (x ∷ xs) ys h = elim (Bool-cases (p x)) [
  | inl hit ↦ absurd (let never : any p (x ∷ xs ++ ys) ≡ true = rw hit in cc)
  | inr miss ↦
      let later : any p (x ∷ xs ++ ys) ≡ any p (xs ++ ys) = rw miss in
      rw miss (any-append_false p xs ys (sym later ∙ h))
]

-- What is appended was at a free sequence, also before the records that precede it.
Appended-free :
    (clock : ℕ → ℕ) (before : List SerializedEvent) (e : SerializedEvent)
    (after : List SerializedEvent) (rs : List StorageEngineEvent) (rows all : List EventRow)
    → Stamped clock (before ++ e ∷ after) rs
    → Appended rows rs all
    → any (at_sequence e.aggregate_id e.sequence) rows ≡ false
unfolding storage_event
Appended-free clock [] e after [] rows all wrong more = absurd wrong
Appended-free clock [] e after (r ∷ rs) rows all (same, _) (free, _) =
    subst (λ x. any (at_sequence x.aggregate_id x.sequence) rows ≡ false) same free
Appended-free clock (b ∷ before) e after [] rows all wrong more = absurd wrong
Appended-free clock (b ∷ before) e after (r ∷ rs) rows all (_, stamped) (_, more) =
    any-append_false (at_sequence e.aggregate_id e.sequence) rows _
      (Appended-free (λ i. clock (suc i)) before e after rs _ all stamped more)

module _ (t : Tables) (clock : ℕ → ℕ) where
  -- Over a SQL database at rest, a run of WithContext whose callback leaves its transaction open
  -- with the events as they were, and has captured an event at a sequence of an aggregate that a
  -- committed event already has, does not succeed, and the committed tables are as before.
  pub with_context-conflict :
      (exec : M (Context Database (Unit {0})) (Unit {0})) (s : EventStore Database)
      (before : List SerializedEvent) (e : SerializedEvent) (after : List SerializedEvent)
      → s.storage_engine ≡ at_rest t
      → let ran = (run_in (some tt) exec (record s { storage_engine = in_transaction t t })).1 in
        StoreInside t (Holding t.events) ran.store
        → ran.captured_events ≡ before ++ e ∷ after
        → any (at_sequence e.aggregate_id e.sequence) t.events ≡ true
        → let r = with_context (sqlite_engine connection) clock exec s in
          (r.0 ≢ ok tt) × (r.1.storage_engine ≡ at_rest t)
  with_context-conflict exec s before e after at (u, left, held) captured taken =
      let r = with_context (sqlite_engine connection) clock exec s in
      elim (with_context-Atomic clock t exec s at (u, left, tt)) [
        | inl (failed, _, kept) ↦ (failed, kept)
        | inr (t', saved, done, _, _, _, ended) ↦
            let done : r ≡ (ok tt, r.1) = ap (λ o. (o, r.1)) done in
            let (t'', rs, _, stamped, appended) =
              with_context-appends t clock exec s r.1 at (u, left, held) done in
            let free =
              Appended-free clock before e after rs t.events t''.events
                (subst (λ l. Stamped clock l rs) captured stamped) appended in
            absurd (let same : true ≡ false = sym taken ∙ free in cc)
      ]
