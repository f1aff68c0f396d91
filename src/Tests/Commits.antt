-- ===== src/Tests/Commits.antt =====
-- Runs of callbacks on a store.
use evercore.Base.{ℕ, ◌+◌, List, [], ◌∷◌, some, ◌≡◌, refl}
use evercore.Base.Dict.{lookup}
use evercore.Base.Outcome.{M, ok}
use evercore.Types.{IdNamePair}
use evercore.Memory.State.{Memory, new_memory_storage_engine}
use evercore.Memory.Engine.{memory_engine}
use evercore.Memory.Valid.{Request, event_type, serve_all, serve_all-IsValid}
use evercore.Store.State.{EventStore, new_event_store}
use evercore.Store.Types.Saving.{StoreValid}
use evercore.Context.State.{Context, new_context, publish}
use evercore.Context.Run.{with_context, in_context, run_in}
use evercore.Context.Run.Commits.{Ends, with_context-Ends, in_context-Ends}
use evercore.Tests.{read_event}

abbrev in_order : List IdNamePair → List IdNamePair
in_order ps = ps

abbrev clock : ℕ → ℕ
clock i = i + 60

abbrev registered : List Request
registered = event_type "paid" ∷ []

abbrev fresh : EventStore Memory
fresh = new_event_store (serve_all registered new_memory_storage_engine)

fresh-Valid : StoreValid fresh
unfolding lookup
fresh-Valid = record {
  registered = (serve_all-IsValid registered).event_types_valid;
  cached = λ n i h. absurd (cc);
}

abbrev placing : M (Context Memory (Unit {0})) (Unit {0})
placing = publish (read_event 0 1 1 0 "x" "r")

abbrev after : Context Memory (Unit {0})
after = record (new_context (some tt) fresh) { captured_events = read_event 0 1 1 0 "x" "r" ∷ [] }

placed : run_in (some tt) placing fresh ≡ (ok tt, after)
unfolding publish
placed = refl

with_context-Ends_example :
    (s' : EventStore Memory) × (with_context (memory_engine in_order) clock placing fresh
      ≡ (ok tt, s'))
    × StoreValid s'
    × Ends clock after (ok tt) s'
with_context-Ends_example =
    with_context-Ends in_order clock fresh after placing (ok tt) placed fresh-Valid

in_context-Ends_example :
    (s' : EventStore Memory) × (in_context (memory_engine in_order) clock placing fresh
      ≡ (ok tt, s'))
    × StoreValid s'
    × Ends clock after (ok tt) s'
in_context-Ends_example =
    in_context-Ends in_order clock fresh after placing (ok tt) placed fresh-Valid
