-- ===== src/Tests/Logs.antt =====
-- Reads of a subscription.
use evercore.Base.{ℕ, ◌⊎◌, refl, arith, All, [], ◌∷◌, ◌≡◌}
use evercore.Base.Dict.{lookup}
use evercore.Base.Outcome.{ok}
use evercore.Memory.Events.{get_events_for_subscription}
use evercore.Memory.Events.Pending.{pending_from, get_events_for_subscription-pending}
use evercore.Memory.Engine.{memory_engine}
use evercore.Memory.Events.First.{IsEarly, StandsAfter}
use evercore.Store.State.{new_event_store}
use evercore.Subscriptions.Setup.{StartFrom}
use evercore.Subscriptions.Ephemeral.{first_position}
use evercore.Subscriptions.Ephemeral.Starts.{first_position-timestamp}
use evercore.Tests.{shop, placed, log, read_event}

get_events_for_subscription-pending_example :
    get_events_for_subscription placed 2 shop
    ≡ (ok (read_event 1 1 1 10 "a" "r" ∷ read_event 2 2 1 20 "b" "" ∷ []), shop)
unfolding pending_from lookup
get_events_for_subscription-pending_example = get_events_for_subscription-pending placed 2 shop

abbrev since : StartFrom
since = record { kind = "timestamp"; event_id = 0; timestamp = 25 }

first_position-timestamp_example :
    (p : ℕ) × (first_position (memory_engine (λ ps. ps)) since (new_event_store shop)
      ≡ (ok p, new_event_store shop))
    × (StandsAfter 25 p log ⊎ (All (IsEarly 25) log × (p ≡ 0)))
first_position-timestamp_example =
    first_position-timestamp (λ ps. ps) since (new_event_store shop) refl (omega arith)
