-- ===== src/Sql/Transactions/Atomic.antt =====
-- `WithContext` over a SQL engine: the transaction is committed as a whole or not at all.
use evercore.Base.{ℕ, some, ◌≡◌, ◌≢◌, ◌⊎◌, refl, ap, inl, inr}
use evercore.Base.Outcome.{M, Outcome, ok, err, panic}
use evercore.Sql.Tables.Rows.{Tables}
use evercore.Sql.Tables.Database.{
  Database, at_rest, in_transaction, connection, begin, commit, rollback,
}
use evercore.Sql.Engine.Interface.{sqlite_engine}
use evercore.Sql.Transactions.{Open, save_state-Open}
use evercore.Store.State.{EventStore, engine_call}
use evercore.Store.Types.{save_state}
use evercore.Context.State.{Context}
use evercore.Context.Run.{with_context, finish, run_in}

-- `SaveState` of what a context has captured, inside the transaction.
abbrev pub saving : (ℕ → ℕ) → Context Database (Unit {0}) → Outcome (Unit {0}) × EventStore Database
saving clock ctx =
    save_state (sqlite_engine connection) clock (some tt) ctx.captured_events ctx.snapshots
      ctx.store

-- How a run ends: with an error or a panic and the committed tables as they were, or with what was
-- saved inside its transaction as the committed tables.
abbrev pub Atomic :
    (ℕ → ℕ)
    → Tables
    → Outcome (Unit {0}) × Context Database (Unit {0})
    → Outcome (Unit {0}) × EventStore Database
    → Type 0
Atomic clock t c r =
    ((r.0 ≢ ok tt)
      × ((c.0 ≢ ok tt) ⊎ ((saving clock c.1).0 ≢ ok tt))
      × (r.1.storage_engine ≡ at_rest t))
    ⊎ ((t' : Tables) × (saved : EventStore Database) × (r.0 ≡ ok tt)
        × (c.0 ≡ ok tt)
        × (saving clock c.1 ≡ (ok tt, saved))
        × (saved.storage_engine ≡ in_transaction t t')
        × (r.1.storage_engine ≡ at_rest t'))

module _ (clock : ℕ → ℕ) (t : Tables) where
  abbrev ended :
      Outcome (Unit {0}) × Context Database (Unit {0}) → Outcome (Unit {0}) × EventStore Database
  ended c =
      let r =
        finish (sqlite_engine connection) "failed to save state in WithContext"
          "failed to commit transaction in WithContext" clock tt c in
      (r.0, (engine_call (rollback tt) r.1).1)

  closing :
      (ctx : Context Database (Unit {0})) (v : Outcome (Unit {0}) × EventStore Database)
      → saving clock ctx ≡ v
      → Open t v.1.storage_engine
      → Atomic clock t (ok tt, ctx) (ended (ok tt, ctx))
  unfolding finish commit rollback
  closing ctx (ok a, st) e (t', o, _) = inr (t', st, rw (e, o), refl, e, o, rw (e, o))
  closing ctx (err x, st) e (t', o, _) =
      inl (rw e (λ h. cc), inr (rw e (λ h. cc)), rw (e, o) (ap (λ d. at_rest d.committed) o))
  closing ctx (panic x, st) e (t', o, _) =
      inl (rw e (λ h. cc), inr (rw e (λ h. cc)), rw (e, o) (ap (λ d. at_rest d.committed) o))

  ending :
      (c : Outcome (Unit {0}) × Context Database (Unit {0}))
      → Open t c.1.store.storage_engine
      → Atomic clock t c (ended c)
  unfolding finish rollback
  ending (ok a, ctx) o =
      closing ctx _ refl (save_state-Open t clock ctx.captured_events ctx.snapshots ctx.store o)
  ending (err x, ctx) (t', o, _) =
      inl (λ h. cc, inl (λ h. cc), rw o (ap (λ d. at_rest d.committed) o))
  ending (panic x, ctx) (t', o, _) =
      inl (λ h. cc, inl (λ h. cc), rw o (ap (λ d. at_rest d.committed) o))

  -- Over a SQL database at rest, a run of WithContext, of a callback that leaves its transaction
  -- open, ends in one of two ways: with an error or a panic, and the committed tables are as
  -- before; or without, and the committed tables are those in which SaveState, called on what the
  -- callback left, put everything that was captured. No transaction stays open.
  pub with_context-Atomic :
      (exec : M (Context Database (Unit {0})) (Unit {0})) (s : EventStore Database)
      → s.storage_engine ≡ at_rest t
      → let begun = record s { storage_engine = in_transaction t t } in
        Open t (run_in (some tt) exec begun).1.store.storage_engine
        → Atomic clock t
            (run_in (some tt) exec begun)
            (with_context (sqlite_engine connection) clock exec s)
  unfolding with_context begin
  with_context-Atomic exec s at left =
      rw at (ending (run_in (some tt) exec (record s { storage_engine = in_transaction t t })) left)
