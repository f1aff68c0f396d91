-- ===== src/Memory/Aggregates/Rename.antt =====
-- `ChangeAggregateNaturalKey`: what it moves, and what it does not check.
use Prim.Native.String.{len}
use evercore.Base.{
  ℕ, ◌+◌, ◌≤◌, String, false, none, some, ◌≡◌, ◌≢◌, refl, sym, ◌∙◌, arith, ltb, nat_eq, string_eq,
}
use evercore.Base.Dict.{
  lookup, lookup-insert_self, lookup-insert_ne, lookup-delete_self, lookup-delete_ne,
}
use evercore.Base.Outcome.{ok, panic}
use evercore.Memory.State.{Memory}
use evercore.Memory.Aggregates.{max_key_length, change_aggregate_natural_key, new_aggregate}

module _ (m : Memory) (id : ℕ) (old new : String)
    (had : lookup id m.aggregate_inv ≡ some (some old)) (fits : len new ≤ max_key_length) where
  -- For an aggregate that has a key and a different new key that fits, the change succeeds: the
  -- new key then leads to the aggregate and the aggregate names it, the old key leads nowhere,
  -- and every other key and aggregate is as before, whoever had the new key.
  pub change_aggregate_natural_key-moves :
      old ≢ new
      → let r = change_aggregate_natural_key id new m in
        (r.0 ≡ ok tt)
        × (lookup new r.1.aggregates ≡ some id)
        × (lookup id r.1.aggregate_inv ≡ some (some new))
        × (lookup old r.1.aggregates ≡ none)
        × ((k : String) → old ≢ k → new ≢ k → lookup k r.1.aggregates ≡ lookup k m.aggregates)
        × ((i : ℕ) → id ≢ i → lookup i r.1.aggregate_inv ≡ lookup i m.aggregate_inv)
  unfolding change_aggregate_natural_key
  change_aggregate_natural_key-moves apart =
      let short : ltb max_key_length (len new) ≡ false = ground arith in
      rw short (
        rw had (
          refl,
          lookup-insert_self new id _,
          lookup-insert_self id (some new) _,
          lookup-insert_ne new old id _ (λ e. apart (sym e)) ∙ lookup-delete_self old m.aggregates,
          (λ k o n. lookup-insert_ne new k id _ n ∙ lookup-delete_ne old k m.aggregates o),
          (λ i h. lookup-insert_ne id i (some new) _ h ∙ lookup-delete_ne id i m.aggregate_inv h),
        ))

-- An aggregate that was just created without a key cannot be given one that fits: the call
-- panics.
pub change_aggregate_natural_key-keyless :
    (t : ℕ) (key : String) (m : Memory)
    → len key ≤ max_key_length
    → let m' = (new_aggregate t m).1 in
      change_aggregate_natural_key (m.count_aggregates + 1) key m'
      ≡ (panic "nil pointer dereference", m')
unfolding change_aggregate_natural_key new_aggregate
change_aggregate_natural_key-keyless t key m h =
    let short : ltb max_key_length (len key) ≡ false = ground arith in
    rw short (rw (lookup-insert_self (m.count_aggregates + 1) none m.aggregate_inv))
