-- ===== src/Tests/Runs.antt =====
-- Runs of subscriptions and leases.
use evercore.Base.{
  ℕ, some, String, false, true, List, [], ◌∷◌, none, ◌≡◌, ◌≢◌, ◌==◌, refl, arith, string_eq,
  ==_refl,
}
use evercore.Base.Dict.{lookup, insert}
use evercore.Base.Outcome.{ok}
use evercore.Types.{IdNamePair, Subscription, SerializedEvent}
use evercore.Memory.State.{Memory, new_memory_storage_engine}
use evercore.Memory.Engine.{memory_engine}
use evercore.Memory.Events.Pending.{pending, pending_from}
use evercore.Memory.Leases.{upsert_subscription, claim_subscription}
use evercore.Memory.Leases.Exclusion.{Call, upserts, claims, renews, releases, advances, step, run}
use evercore.Memory.Leases.Exclusion.Claims.{claim-excludes}
use evercore.Memory.Valid.{Request, subscription, serve_all, serve_all-IsValid}
use evercore.Store.State.{EventStore}
use evercore.Subscriptions.Setup.{Environment, Options}
use evercore.Subscriptions.Durable.{rounds}
use evercore.Subscriptions.Durable.Reader.{IsQuiet, record_events}
use evercore.Subscriptions.Durable.Delivery.{Owns, rounds-deliver}
use evercore.Subscriptions.Ephemeral as Ephemeral
use evercore.Subscriptions.Ephemeral.{ephemeral}
use evercore.Subscriptions.Ephemeral.Delivery.{left, rounds-batches}
use evercore.Tests.{shop, placed, read_event}

abbrev quiet_world : Environment Memory
quiet_world = record {
  claimed_at = 0;
  now = λ i. i;
  is_done = λ i. false;
  is_done_waiting = λ i. false;
  others = λ i s. s;
  host_owner = "h-1";
}

quiet : IsQuiet quiet_world
quiet = record { not_done = λ i. refl; not_done_waiting = λ i. refl; no_others = λ i s. refl }

abbrev options : Options
options = record { batch_size = 2; poll_interval = 5; lease = 100; owner = "w1" }

abbrev as_listed : List IdNamePair → List IdNamePair
as_listed ps = ps

abbrev store : EventStore Memory
store = record { storage_engine = shop; aggregate_type_lookup = []; event_type_lookup = [] }

owned : Owns "placed" "w1" 0 shop placed
unfolding lookup
owned = record {
  held = record { named = refl; stored = refl; known = refl };
  active = refl;
  owned = refl;
}

abbrev first_batch : List SerializedEvent
first_batch = read_event 1 1 1 10 "a" "r" ∷ read_event 2 2 1 20 "b" "" ∷ []

rounds-deliver_example :
    (s' : EventStore Memory) × (sub' : Subscription) × (rounds
        (memory_engine as_listed)
        quiet_world
        "placed"
        options
        record_events
        1
        0
        (store, [])
      ≡ (ok tt, (s', first_batch)))
    × Owns "placed" "w1" 0 s'.storage_engine sub'
    × (pending s'.storage_engine sub' ≡ read_event 4 2 2 40 "d" "" ∷ [])
unfolding pending_from lookup
rounds-deliver_example =
    rounds-deliver as_listed quiet_world "placed" options quiet 1 0 0 store placed [] owned

-- Two workers and one subscription.
abbrev made : List Request
made = subscription (upserts "jobs" none none none "beginning" 0 none) ∷ []

abbrev idle_engine : Memory
idle_engine = serve_all made new_memory_storage_engine

abbrev rival_calls : List Call
rival_calls =
    claims "jobs" "w2" 15 20 ∷ renews "jobs" "w2" 15 22 ∷ releases "jobs" "w2" ∷ advances 1 4 ∷ []

unlike : (a b : String) → (a == b) ≡ false → a ≢ b
unlike a b h e = ground (arith, ==_refl a)

claimed : (claim_subscription "jobs" "w1" 15 10 idle_engine).0 ≡ ok true
unfolding serve_all claim_subscription lookup insert step upsert_subscription
claimed = refl

claim-excludes_example :
    let m' = run rival_calls (claim_subscription "jobs" "w1" 15 10 idle_engine).1 in
    claim_subscription "jobs" "w3" 15 25 m' ≡ (ok false, m')
claim-excludes_example =
    claim-excludes idle_engine "jobs" "w1" "w3" 15 15 10 25 rival_calls
      (serve_all-IsValid made).subscriptions_valid.allocated claimed
      (omega arith, (unlike "w2" "w1" refl, (unlike "w2" "w1" refl, (tt, tt)))) (omega arith)

rounds-batches_example :
    (last' : ℕ) × (Ephemeral.rounds
        (memory_engine as_listed)
        quiet_world
        2
        record_events
        none
        (some 1)
        none
        none
        1
        0
        0
        (store, [])
      ≡ (ok last', (store, first_batch)))
    × (left as_listed quiet_world 2 none (some 1) none quiet store last'
        ≡ read_event 4 2 2 40 "d" "" ∷ [])
unfolding pending_from lookup ephemeral
rounds-batches_example =
    rounds-batches as_listed quiet_world 2 none (some 1) none quiet 1 0 0 store []
