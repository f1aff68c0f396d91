-- ===== src/Tests/Claims.antt =====
-- Claims of the shop's subscription, and natural keys, in its tables.
use evercore.Base.{
  String, List, [], ◌∷◌, none, true, false, ◌≡◌, ◌≢◌, ◌==◌, string_eq, refl, arith, ==_refl,
}
use evercore.Base.Outcome.{ok}
use evercore.Memory.Leases.Exclusion.{Call, claims, renews, releases, advances, activates}
use evercore.Sql.Tables.Subscriptions.{update_lease_if_free}
use evercore.Sql.Tables.Database.{at_rest, queries}
use evercore.Sql.Engine.Subscriptions.{claim_subscription}
use evercore.Sql.Leases.{run}
use evercore.Sql.Engine.Streams.{
  new_aggregate_with_key, get_or_create_aggregate_by_key, change_aggregate_natural_key,
}
use evercore.Sql.Keys.{AllFit, keys_fit}
use evercore.Sql.Leases.Exclusion.{claim-excludes_sql}
use evercore.Tests.Databases.{shelves}

abbrev rivals : List Call
rivals =
    claims "placed" "w2" 15 120
    ∷ renews "placed" "w2" 15 121
    ∷ releases "placed" "w2"
    ∷ advances 1 4
    ∷ activates 1 true
    ∷ []

differ : (a b : String) → (a == b) ≡ false → a ≢ b
differ a b h e = ground (arith, ==_refl a)

claimed : (claim_subscription (queries none) "placed" "w1" 30 101 (at_rest shelves)).0 ≡ ok true
unfolding claim_subscription update_lease_if_free
claimed = refl

claim-excludes_sql_example :
    let db =
      run rivals (claim_subscription (queries none) "placed" "w1" 30 101 (at_rest shelves)).1 in
    claim_subscription (queries none) "placed" "w3" 15 130 db ≡ (ok false, db)
claim-excludes_sql_example =
    claim-excludes_sql shelves "placed" "w1" "w3" 30 15 101 130 rivals (tt, tt) claimed
      (omega arith, (differ "w2" "w1" refl, (differ "w2" "w1" refl, (tt, (tt, tt))))) (omega arith)

keys_fit_example :
    AllFit (new_aggregate_with_key (queries none) 1 "k" (at_rest shelves)).1.committed.aggregates
    × AllFit
        (get_or_create_aggregate_by_key
          (queries none)
          1
          "k"
          (at_rest shelves)).1.committed.aggregates
    × AllFit
        (change_aggregate_natural_key (queries none) 1 "k" (at_rest shelves)).1.committed.aggregates
keys_fit_example = keys_fit shelves (tt, (tt, tt)) "k" 1
