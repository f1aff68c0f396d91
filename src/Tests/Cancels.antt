-- ===== src/Tests/Cancels.antt =====
-- Runs that the caller cancels.
use evercore.Base.{leb, List, [], ◌∷◌, none, refl}
use evercore.Base.Dict.{lookup}
use evercore.Types.{IdNamePair}
use evercore.Memory.State.{Memory, new_memory_storage_engine}
use evercore.Memory.Engine.{memory_engine}
use evercore.Memory.Leases.{claim_subscription}
use evercore.Store.State.{EventStore}
use evercore.Subscriptions.Setup.{Environment, Options}
use evercore.Subscriptions.Durable.{claim_and_run, run_subscription}
use evercore.Subscriptions.Durable.Reader.{record_events}
use evercore.Subscriptions.Durable.Stops.{HasEnded, run_subscription-HasEnded}
use evercore.Subscriptions.Durable.Stops.Release.{IsReleased, claim_and_run-IsReleased}
use evercore.Tests.{shop}

-- The context is done from the round at 2 on.
abbrev cancelled_world : Environment Memory
cancelled_world = record {
  claimed_at = 1000;
  now = λ i. i;
  is_done = λ i. leb 2 i;
  is_done_waiting = λ i. leb 2 i;
  others = λ i s. s;
  host_owner = "h-1";
}

abbrev listed : List IdNamePair → List IdNamePair
listed ps = ps

abbrev by_twos : Options
by_twos = record { batch_size = 2; poll_interval = 5; lease = 100; owner = "w1" }

abbrev empty_store : EventStore Memory
empty_store = record {
  storage_engine = new_memory_storage_engine;
  aggregate_type_lookup = [];
  event_type_lookup = [];
}

abbrev shop_store : EventStore Memory
shop_store = record { storage_engine = shop; aggregate_type_lookup = []; event_type_lookup = [] }

run_subscription-HasEnded_example : HasEnded (
    run_subscription
      (memory_engine listed)
      cancelled_world
      "jobs"
      (record {
        aggregate_type = "order";
        event_types = "placed" ∷ "paid" ∷ [];
        aggregate_key = none;
      })
      (record { kind = "beginning"; event_id = 0; timestamp = 0 })
      by_twos
      record_events
      3
      (empty_store, []))
run_subscription-HasEnded_example =
    run_subscription-HasEnded (memory_engine listed) cancelled_world record_events "jobs"
      (record {
        aggregate_type = "order";
        event_types = "placed" ∷ "paid" ∷ [];
        aggregate_key = none;
      })
      (record { kind = "beginning"; event_id = 0; timestamp = 0 }) by_twos 2 (empty_store, []) refl

claim_and_run-IsReleased_example :
    let r =
      claim_and_run
        (memory_engine listed)
        cancelled_world
        "placed"
        by_twos
        record_events
        3
        (shop_store, []) in
    HasEnded r × IsReleased "placed" "w1" r.1.0.storage_engine
unfolding lookup claim_subscription
claim_and_run-IsReleased_example =
    claim_and_run-IsReleased listed cancelled_world record_events "placed" by_twos 2
      (shop_store, []) refl refl
