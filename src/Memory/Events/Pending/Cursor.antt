-- ===== src/Memory/Events/Pending/Cursor.antt =====
-- How the pending events of a subscription change as its cursor moves.
use evercore.Base.{
  List-cases, ℕ, zero, suc, ◌+◌, ◌≤◌, ◌<◌, true, false, ◌&&◌, List, [], ◌∷◌, Option, ltb, nat_eq,
  string_eq, ◌≡◌, refl, ◌∙◌, ◌≢◌, inl, inr, take, drop, Bool-cases, arith,
}
use evercore.Types.{SerializedEvent, StorageEngineEvent, Subscription}
use evercore.Memory.State.{Memory}
use evercore.Subscriptions.Setup.{last_id}
use evercore.Memory.Events.{serialized}
use evercore.Memory.Events.Pending.{fits, pending_from}
use evercore.Memory.Leases.{put}

module _ (store : Memory) (sub : Subscription) where
  pending_from-below :
      (c d idx : ℕ) (es : List StorageEngineEvent)
      → c ≤ idx
      → d ≤ idx
      → pending_from store sub c idx es ≡ pending_from store sub d idx es
  unfolding pending_from
  pending_from-below c d idx [] hc hd = refl
  pending_from-below c d idx (e ∷ es) hc hd =
      ground (arith, pending_from-below c d (idx + 1) es (omega arith) (omega arith))

  pending_from-keep :
      (c idx : ℕ) (e : StorageEngineEvent) (es : List StorageEngineEvent)
      → (ltb c (idx + 1) && fits store sub e) ≡ true
      → pending_from store sub c idx (e ∷ es)
        ≡ serialized store (idx + 1) e ∷ pending_from store sub c (idx + 1) es
  unfolding pending_from
  pending_from-keep c idx e es h = rw h

  pending_from-skip :
      (c idx : ℕ) (e : StorageEngineEvent) (es : List StorageEngineEvent)
      → (ltb c (idx + 1) && fits store sub e) ≡ false
      → pending_from store sub c idx (e ∷ es) ≡ pending_from store sub c (idx + 1) es
  unfolding pending_from
  pending_from-skip c idx e es h = rw h

  last_id-cons :
      (x : SerializedEvent) (k : ℕ) (q : List SerializedEvent)
      → q ≢ []
      → last_id (x ∷ take (suc k) q) ≡ last_id (take (suc k) q)
  unfolding last_id
  last_id-cons x k [] h = absurd (h refl)
  last_id-cons x k (y ∷ q) h = refl

  last_id-keep : (idx : ℕ) (e : StorageEngineEvent) → last_id (serialized store idx e ∷ []) ≡ idx
  unfolding last_id serialized
  last_id-keep idx e = refl

  last_id-kept :
      (idx k : ℕ) (e : StorageEngineEvent) (q : List SerializedEvent)
      → ((j : ℕ) → q ≢ [] → idx + 1 < last_id (take (suc j) q))
      → idx < last_id (serialized store (idx + 1) e ∷ take k q)
  last_id-kept idx zero e q ih = omega (arith, last_id-keep (idx + 1) e)
  last_id-kept idx (suc k) e q ih = elim (List-cases q) [
    | inl none_left ↦ rw none_left (omega (arith, last_id-keep (idx + 1) e))
    | inr more ↦
        rw (last_id-cons (serialized store (idx + 1) e) k q more) (omega (arith, ih k more))
  ]

  -- The end of a batch lies beyond the events that were skipped for it.
  last_id-pending_from :
      (c idx k : ℕ) (es : List StorageEngineEvent)
      → pending_from store sub c idx es ≢ []
      → idx < last_id (take (suc k) (pending_from store sub c idx es))
  last_id-pending_from c idx k [] h = absurd (h (unfold pending_from in refl))
  last_id-pending_from c idx k (e ∷ es) h =
      let later = λ (j : ℕ). last_id-pending_from c (idx + 1) j es in
      elim (Bool-cases (ltb c (idx + 1) && fits store sub e)) [
        | inr skip ↦
            let eq = pending_from-skip c idx e es skip in
            let rest = later k (λ n. h (eq ∙ n)) in rw eq (omega arith)
        | inl keep ↦
            rw (pending_from-keep c idx e es keep)
              (last_id-kept idx k e (pending_from store sub c (idx + 1) es) later)
      ]

  -- So the end of a batch lies beyond the cursor.
  pub cursor-last_id :
      (c idx k : ℕ) (es : List StorageEngineEvent)
      → pending_from store sub c idx es ≢ []
      → c < last_id (take (suc k) (pending_from store sub c idx es))
  cursor-last_id c idx k [] h = absurd (h (unfold pending_from in refl))
  cursor-last_id c idx k (e ∷ es) h = elim (Bool-cases (ltb c (idx + 1) && fits store sub e)) [
    | inr skip ↦
        let eq = pending_from-skip c idx e es skip in
        rw eq (cursor-last_id c (idx + 1) k es (λ n. h (eq ∙ n)))
    | inl keep ↦
        let beyond = last_id-pending_from c idx k (e ∷ es) h in
        let before : c < idx + 1 = ground arith in omega arith
  ]

  pending_from-passed :
      (d idx : ℕ) (e : StorageEngineEvent) (es : List StorageEngineEvent)
      → idx + 1 ≤ d
      → pending_from store sub d idx (e ∷ es) ≡ pending_from store sub d (idx + 1) es
  pending_from-passed d idx e es h = pending_from-skip d idx e es (ground arith)

  drop-kept_one :
      (c idx : ℕ) (e : StorageEngineEvent) (es : List StorageEngineEvent)
      → c ≤ idx + 1
      → pending_from store sub (last_id (serialized store (idx + 1) e ∷ [])) idx (e ∷ es)
        ≡ pending_from store sub c (idx + 1) es
  drop-kept_one c idx e es h = rw (last_id-keep (idx + 1) e) (
      pending_from-passed (idx + 1) idx e es (omega arith)
      ∙ pending_from-below (idx + 1) c (idx + 1) es (omega arith) h)

  drop-kept :
      (c idx k : ℕ) (e : StorageEngineEvent) (es : List StorageEngineEvent)
      → let q = pending_from store sub c (idx + 1) es in
        c ≤ idx + 1
        → ((j : ℕ)
            → q ≢ []
            → pending_from store sub (last_id (take (suc j) q)) (idx + 1) es ≡ drop (suc j) q)
        → pending_from store sub (last_id (serialized store (idx + 1) e ∷ take k q)) idx (e ∷ es)
          ≡ drop k q
  drop-kept c idx zero e es h ih = drop-kept_one c idx e es h
  drop-kept c idx (suc k) e es h ih = elim (List-cases (pending_from store sub c (idx + 1) es)) [
    | inl done ↦ rw done (drop-kept_one c idx e es h ∙ done)
    | inr more ↦
        let beyond = last_id-pending_from c (idx + 1) k es more in
        rw (last_id-cons (serialized store (idx + 1) e) k _ more)
          (pending_from-passed _ idx e es (omega arith) ∙ ih k more)
  ]

  -- Where something is pending, a cursor moved to the last id of a batch that is not empty has
  -- exactly the events after that batch pending: none is skipped and none is read twice.
  pub pending_from-drop :
      (c idx k : ℕ) (es : List StorageEngineEvent)
      → pending_from store sub c idx es ≢ []
      → pending_from store sub (last_id (take (suc k) (pending_from store sub c idx es))) idx es
        ≡ drop (suc k) (pending_from store sub c idx es)
  pending_from-drop c idx k [] h = absurd (h (unfold pending_from in refl))
  pending_from-drop c idx k (e ∷ es) h =
      let later = λ (j : ℕ). pending_from-drop c (idx + 1) j es in
      elim (Bool-cases (ltb c (idx + 1) && fits store sub e)) [
        | inr skip ↦
            let eq = pending_from-skip c idx e es skip in
            let some_left : pending_from store sub c (idx + 1) es ≢ [] = λ n. h (eq ∙ n) in
            let beyond = last_id-pending_from c (idx + 1) k es some_left in
            rw eq (pending_from-passed _ idx e es (omega arith) ∙ later k some_left)
        | inl keep ↦
            rw (pending_from-keep c idx e es keep) (drop-kept c idx k e es (ground arith) later)
      ]

-- What is pending depends on the store's log and tables and on the filter, and on nothing else.
pub pending_from-put :
    (store : Memory) (sub s : Subscription) (p c cursor idx : ℕ) (expires : Option ℕ)
    (es : List StorageEngineEvent)
    → pending_from
        (put p s store)
        (record sub { last_event_id = c; lease_expires_at = expires })
        cursor
        idx
        es
      ≡ pending_from store sub cursor idx es
unfolding pending_from fits
pending_from-put store sub s p c cursor idx expires [] = refl
pending_from-put store sub s p c cursor idx expires (e ∷ es) =
    rw (pending_from-put store sub s p c cursor (idx + 1) expires es)

-- Where a subscription's own cursor stands does not matter to what is pending after another.
pub pending_from-filter :
    (store : Memory) (sub : Subscription) (c cursor idx : ℕ) (es : List StorageEngineEvent)
    → pending_from store (record sub { last_event_id = c }) cursor idx es
      ≡ pending_from store sub cursor idx es
unfolding pending_from fits
pending_from-filter store sub c cursor idx [] = refl
pending_from-filter store sub c cursor idx (e ∷ es) =
    rw (pending_from-filter store sub c cursor (idx + 1) es)
