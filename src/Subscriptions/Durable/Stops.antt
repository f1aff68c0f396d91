-- ===== src/Subscriptions/Durable/Stops.antt =====
-- `RunSubscription` returns once the caller's context is done.
pub mod Release
use evercore.Base.{
  ℕ, zero, suc, ◌+◌, String, Bool, true, false, List, [], ◌∷◌, Option, ◌≡◌, ◌≢◌, refl, sym, ap,
  subst, ◌∙◌, if◌then◌else◌, Bool-cases, inl, inr, arith,
}
use evercore.Base.Outcome.{
  M, Outcome, ok, err, panic, ◌>>=◌, ◌>>◌, fail, wrap, subscription_already_owned, wrapping, pure,
  resume,
}
use evercore.Types.{Subscription}
use evercore.Engine.{StorageEngine}
use evercore.Store.State.{EventStore, engine_call}
use evercore.Subscriptions.Setup.{
  SubscriptionFilter, StartFrom, Options, Environment, Handler, on_store, resolve_aggregate_type,
  with_defaults,
}
use evercore.Subscriptions.Durable.{
  init_cursor_if_new, resolve_filter, add_event_types, round, rounds, interlude, run_claimed,
  claim_and_run, releasing, run_subscription,
}

-- The call has returned an error or panicked.
abbrev pub HasEnded : {A S : Type 0} → Outcome A × S → Type 0
HasEnded (ok a, s) = ⊥
HasEnded (err e, s) = Unit
HasEnded (panic m, s) = Unit

-- A call ends if what follows its first part does.
resume-HasEnded :
    {S A B : Type 0} (r : Outcome A × S) (f : A → M S B)
    → ((a : A) (s : S) → HasEnded (f a s))
    → HasEnded (resume r f)
resume-HasEnded (ok a, s) f k = k a s
resume-HasEnded (err e, s) f k = tt
resume-HasEnded (panic m, s) f k = tt

bind-HasEnded :
    {S A B : Type 0} (x : M S A) (f : A → M S B)
    → ((a : A) (s : S) → HasEnded (f a s))
    → (s : S) → HasEnded (resume (x s) f)
bind-HasEnded x f k s = resume-HasEnded (x s) f k

-- A call ends if its first part does.
HasEnded-resume :
    {S A B : Type 0} (r : Outcome A × S) (f : A → M S B) → HasEnded r → HasEnded (resume r f)
HasEnded-resume (ok a, s) f h = absurd h
HasEnded-resume (err e, s) f h = tt
HasEnded-resume (panic m, s) f h = tt

module _ {S Tx H : Type 0} (engine : StorageEngine S Tx) (env : Environment S)
    (handler : Handler S H) where
  -- A round at whose head the caller's context is done.
  round-HasEnded :
      (name : String) (opts : Options) (i : ℕ) (s : EventStore S × H)
      → env.is_done i ≡ true
      → HasEnded (round engine env name opts handler i s)
  unfolding round
  round-HasEnded name opts i s done = rw done tt

  rounds-HasEnded :
      (name : String) (opts : Options) (n i : ℕ) (s : EventStore S × H)
      → env.is_done (i + n) ≡ true
      → HasEnded (rounds engine env name opts handler (suc n) i s)
  unfolding rounds interlude
  rounds-HasEnded name opts zero i s done =
      let now : env.is_done i ≡ true =
        subst (λ k. env.is_done k ≡ true) (let same : i + 0 ≡ i = omega arith in same) done in
      let s' = (interlude engine env name opts handler i s).1 in
      HasEnded-resume (round engine env name opts handler i s')
        (λ _. rounds engine env name opts handler zero (suc i)) (round-HasEnded name opts i s' now)
  rounds-HasEnded name opts (suc n) i s done =
      let later : env.is_done (suc i + n) ≡ true =
        subst (λ k. env.is_done k ≡ true) (let same : i + suc n ≡ suc i + n = omega arith in same)
          done in
      let s' = (interlude engine env name opts handler i s).1 in
      resume-HasEnded (round engine env name opts handler i s')
        (λ _. rounds engine env name opts handler (suc n) (suc i))
        (λ _ s''. rounds-HasEnded name opts n (suc i) s'' later)

  run_claimed-HasEnded :
      (name : String) (opts : Options) (n : ℕ) (s : EventStore S × H)
      → env.is_done n ≡ true
      → HasEnded (run_claimed engine env name opts handler (suc n) s)
  unfolding run_claimed
  run_claimed-HasEnded name opts n s done =
      bind-HasEnded
        (wrapping "load subscription"
          (on_store (engine_call (engine.get_subscription_by_name name))))
        (λ sub. do
          on_store (init_cursor_if_new engine sub)
          rounds engine env name opts handler (suc n) 0)
        (λ sub.
          bind-HasEnded (on_store (init_cursor_if_new engine sub))
            (λ _. rounds engine env name opts handler (suc n) 0)
            (λ _ s'. rounds-HasEnded name opts n 0 s' (
              subst (λ k. env.is_done k ≡ true) (let same : n ≡ 0 + n = omega arith in same) done)))
        s

  releasing-HasEnded :
      (name : String) (opts : Options) (r : Outcome (Unit {0}) × (EventStore S × H))
      → HasEnded r
      → HasEnded (releasing engine env name opts handler r)
  unfolding releasing
  releasing-HasEnded name opts (ok a, s) h = h
  releasing-HasEnded name opts (err e, s) h = tt
  releasing-HasEnded name opts (panic m, s) h = tt

  if-HasEnded :
      (name : String) (opts : Options) (n : ℕ) (claimed : Bool) (s : EventStore S × H)
      → env.is_done n ≡ true
      → HasEnded (
          (if claimed
              then (λ s'.
                  releasing engine env name opts handler
                    (run_claimed engine env name opts handler (suc n) s'))
              else fail {A = Unit {0}} (wrap name subscription_already_owned))
            s)
  if-HasEnded name opts n true s done =
      releasing-HasEnded name opts _ (run_claimed-HasEnded name opts n s done)
  if-HasEnded name opts n false s done = tt

  claim_and_run-HasEnded :
      (name : String) (opts : Options) (n : ℕ) (s : EventStore S × H)
      → env.is_done n ≡ true
      → HasEnded (claim_and_run engine env name opts handler (suc n) s)
  unfolding claim_and_run
  claim_and_run-HasEnded name opts n s done =
      bind-HasEnded
        (wrapping "claim subscription" (
          on_store
            (engine_call (engine.claim_subscription name opts.owner opts.lease env.claimed_at))))
        _ (λ claimed s'. if-HasEnded name opts n claimed s' done) s

  -- A run of RunSubscription, over any engine and with any handler, filter and environment, whose
  -- context is done at the head of round n, has returned within n + 1 rounds, with an error or a
  -- panic.
  pub run_subscription-HasEnded :
      (name : String) (filter : SubscriptionFilter) (start : StartFrom) (opts : Options) (n : ℕ)
      (s : EventStore S × H)
      → env.is_done n ≡ true
      → HasEnded (run_subscription engine env name filter start opts handler (suc n) s)
  unfolding run_subscription
  run_subscription-HasEnded name filter start opts n s done =
      bind-HasEnded (on_store (resolve_aggregate_type engine filter.aggregate_type)) _
        (λ agg_type. bind-HasEnded (on_store (resolve_filter engine filter.event_types)) _ (λ types.
          bind-HasEnded _ _ (λ sub_id.
            bind-HasEnded (on_store (add_event_types engine sub_id types.1)) _
              (λ _ s'. claim_and_run-HasEnded name (with_defaults env.host_owner opts) n s' done))))
        s
