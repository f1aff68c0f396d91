-- ===== src/Store/State.antt =====
-- The fields of `EventStore`, with the state of its engine, and calls of the engine.
use evercore.Base.{ℕ, String, []}
use evercore.Base.Dict.{Dict}
use evercore.Base.Outcome.{M}

pub record EventStore (S : Type 0) : Type 0 where
  pub storage_engine : S
  pub event_type_lookup : Dict String ℕ
  pub aggregate_type_lookup : Dict String ℕ

abbrev pub new_event_store : {S : Type 0} → S → EventStore S
new_event_store s = record {
  storage_engine = s;
  event_type_lookup = [];
  aggregate_type_lookup = [];
}

-- A call of the engine from a method of the store.
abbrev pub engine_call : {S A : Type 0} → M S A → M (EventStore S) A
engine_call m store = let r = m store.storage_engine in (r.0, record store { storage_engine = r.1 })
