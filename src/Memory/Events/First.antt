-- ===== src/Memory/Events/First.antt =====
-- `GetFirstEventIdFromTimestamp`: the first event that is not before a time.
use evercore.Base.{
  ℕ, suc, ◌+◌, ◌≤◌, ◌<◌, ◌||◌, List, [], ◌∷◌, ◌≡◌, ◌⊎◌, refl, ◌∙◌, inl, inr, arith, take, drop, All,
  ltb, ◌==◌, nat_eq, Bool-cases,
}
use evercore.Base.Outcome.{ok}
use evercore.Types.{StorageEngineEvent}
use evercore.Memory.State.{Memory}
use evercore.Memory.Events.{first_from, get_first_event_id_from_timestamp}

abbrev pub IsEarly : ℕ → StorageEngineEvent → Type 0
IsEarly ts e = e.event_time < ts

-- The first event that is not early stands after this many that are.
abbrev pub StandsAfter : ℕ → ℕ → List StorageEngineEvent → Type 0
StandsAfter ts k log =
    (e : StorageEngineEvent) × (rest : List StorageEngineEvent) × (drop k log ≡ e ∷ rest)
    × (ts ≤ e.event_time)
    × All (IsEarly ts) (take k log)

module _ (ts : ℕ) where
  first_from-StandsAfter :
      (idx : ℕ) (log : List StorageEngineEvent)
      → (All (IsEarly ts) log × (first_from ts idx log ≡ 0))
        ⊎ ((k : ℕ) × (first_from ts idx log ≡ suc (idx + k)) × StandsAfter ts k log)
  unfolding first_from
  first_from-StandsAfter idx [] = inl (tt, refl)
  first_from-StandsAfter idx (e ∷ es) =
      elim (Bool-cases (ltb ts e.event_time || e.event_time == ts)) [
        | inl now ↦ inr (0, rw now (omega arith), (e, es, refl, ground arith, tt))
        | inr later ↦
            let early : e.event_time < ts = ground arith in
            elim (first_from-StandsAfter (idx + 1) es) [
              | inl (all, none_there) ↦ inl ((early, all), rw later none_there)
              | inr (k, found, (e', rest, at, late, all)) ↦
                  inr (suc k, rw later (found ∙ omega arith), (e', rest, at, late, (early, all)))
            ]
      ]

  -- What the engine's call returns: no id if every event is before the time, else the id of the
  -- first that is not.
  pub get_first_event_id_from_timestamp-StandsAfter :
      (m : Memory)
      → (All (IsEarly ts) m.captured_events × (get_first_event_id_from_timestamp ts m ≡ (ok 0, m)))
        ⊎ ((k : ℕ) × (get_first_event_id_from_timestamp ts m ≡ (ok (suc k), m))
            × StandsAfter ts k m.captured_events)
  unfolding get_first_event_id_from_timestamp
  get_first_event_id_from_timestamp-StandsAfter m =
      elim (first_from-StandsAfter 0 m.captured_events) [
        | inl (all, e) ↦ inl (all, rw e)
        | inr (k, e, found) ↦ inr (k, rw e (let z : 0 + k ≡ k = omega arith in rw z), found)
      ]
