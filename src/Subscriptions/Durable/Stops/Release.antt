-- ===== src/Subscriptions/Durable/Stops/Release.antt =====
-- What the deferred `ReleaseSubscription` leaves of the runner's lease.
use evercore.Base.{ℕ, suc, String, true, List, some, ◌≡◌, ◌≢◌, arith, string_eq, ==_refl, nat_eq}
use evercore.Base.Dict.{lookup-insert_self}
use evercore.Base.Outcome.{Outcome, ok, err, panic}
use evercore.Types.{IdNamePair, Subscription}
use evercore.Memory.State.{Memory}
use evercore.Memory.Engine.{memory_engine}
use evercore.Memory.Leases.{by_name, is_owner, release_subscription, claim_subscription}
use evercore.Store.State.{EventStore}
use evercore.Subscriptions.Setup.{Options, Environment, Handler}
use evercore.Subscriptions.Durable.{claim_and_run, run_claimed, releasing}
use evercore.Subscriptions.Durable.Stops.{HasEnded, run_claimed-HasEnded, releasing-HasEnded}

-- The name does not lead to a subscription that the owner holds.
abbrev pub IsReleased : String → String → Memory → Type 0
IsReleased name owner m =
    (p : ℕ) (sub : Subscription) → by_name m name ≡ some (p, sub) → sub.lease_owner ≢ some owner

release-IsReleased :
    (name owner : String) (m : Memory) → IsReleased name owner (release_subscription name owner m).1
unfolding release_subscription by_name is_owner
release-IsReleased name owner m p sub found held = grind (arith, ==_refl owner, lookup-insert_self)

module _ (order : List IdNamePair → List IdNamePair) {H : Type 0} (env : Environment Memory)
    (handler : Handler Memory H) where
  releasing-IsReleased :
      (name : String) (opts : Options) (r : Outcome (Unit {0}) × (EventStore Memory × H))
      → HasEnded r
      → IsReleased name opts.owner
          ((releasing (memory_engine order) env name opts handler r).1).0.storage_engine
  unfolding releasing
  releasing-IsReleased name opts (ok a, s) h = absurd h
  releasing-IsReleased name opts (err e, s) h =
      release-IsReleased name opts.owner s.0.storage_engine
  releasing-IsReleased name opts (panic e, s) h =
      release-IsReleased name opts.owner s.0.storage_engine

  -- Over the in-memory engine, with any handler and any environment: where the runner's claim
  -- succeeds and the caller's context is done at the head of round n, the runner has returned
  -- within n + 1 rounds, with an error or a panic, and its subscription's name no longer leads to
  -- a subscription that it holds.
  pub claim_and_run-IsReleased :
      (name : String) (opts : Options) (n : ℕ) (s : EventStore Memory × H)
      → env.is_done n ≡ true
      → (claim_subscription name opts.owner opts.lease env.claimed_at s.0.storage_engine).0
        ≡ ok true
      → let r = claim_and_run (memory_engine order) env name opts handler (suc n) s in
        HasEnded r × IsReleased name opts.owner r.1.0.storage_engine
  unfolding claim_and_run
  claim_and_run-IsReleased name opts n s done claimed = rw claimed (
      let s' : EventStore Memory × H = (
        record s.0 {
          storage_engine =
              (claim_subscription name opts.owner opts.lease env.claimed_at s.0.storage_engine).1;
        },
        s.1,
      ) in
      let r = run_claimed (memory_engine order) env name opts handler (suc n) s' in
      let ended : HasEnded r =
        run_claimed-HasEnded (memory_engine order) env handler name opts n s' done in
      (
        releasing-HasEnded (memory_engine order) env handler name opts r ended,
        releasing-IsReleased name opts r ended,
      ))
