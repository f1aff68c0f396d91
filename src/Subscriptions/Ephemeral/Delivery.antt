-- ===== src/Subscriptions/Ephemeral/Delivery.antt =====
-- What an ephemeral runner delivers over the in-memory engine while nobody else acts.
use mathlib.Core.List.{append-nil, append_assoc}
use native.Mathlib.Nat.{zero-mul}
use evercore.Base.{
  ℕ, zero, suc, ◌-◌, ◌*◌, max, String, List, [], ◌∷◌, ◌++◌, Option, none, ◌≡◌, refl, ◌≢◌, ap, ◌∙◌,
  arith, take, drop, inl, inr, List-cases, take-ne-nil, drop-nil, take-nil, take-rounds,
  drop-rounds,
}
use evercore.Base.Outcome.{ok}
use evercore.Types.{IdNamePair, SerializedEvent}
use evercore.Memory.State.{Memory}
use evercore.Memory.Engine.{memory_engine}
use evercore.Memory.Events.Pending.Cursor.{pending_from-drop, pending_from-filter}
use evercore.Memory.Events.Pending.{pending, get_events_for_subscription-pending}
use evercore.Store.State.{EventStore}
use evercore.Subscriptions.Setup.{Environment, last_id}
use evercore.Subscriptions.Ephemeral.{
  round, rounds, handle, deliver, deliverable, interlude, ephemeral,
}
use evercore.Subscriptions.Durable.Reader.{IsQuiet, record_events}

module _ (order : List IdNamePair → List IdNamePair) (env : Environment Memory) (batch_size : ℕ)
    (agg_type event_type : Option ℕ) (key : Option String) (quiet : IsQuiet env) where
  -- What the runner has still to read from a position.
  abbrev pub left : EventStore Memory → ℕ → List SerializedEvent
  left s last = pending s.storage_engine (ephemeral agg_type event_type key last)

  round_lem :
      (i last : ℕ) (s : EventStore Memory) (seen : List SerializedEvent)
      → round
          (memory_engine order)
          env
          batch_size
          record_events
          agg_type
          event_type
          key
          none
          i
          last
          (s, seen)
        ≡ handle
            (memory_engine order)
            env
            batch_size
            record_events
            agg_type
            event_type
            key
            none
            i
            last
            (take (max 1 batch_size) (left s last))
            (s, seen)
  unfolding round
  round_lem i last s seen = ground (
    arith,
    quiet.not_done i,
    get_events_for_subscription-pending (ephemeral agg_type event_type key last) batch_size
        s.storage_engine,
  )

  handle_lem :
      (i last : ℕ) (events : List SerializedEvent) (s : EventStore Memory)
      (seen : List SerializedEvent)
      → events ≢ []
      → handle
          (memory_engine order)
          env
          batch_size
          record_events
          agg_type
          event_type
          key
          none
          i
          last
          events
          (s, seen)
        ≡ (ok (last_id events), (s, seen ++ events))
  unfolding handle deliver deliverable
  handle_lem i last [] s seen h = absurd (h refl)
  handle_lem i last (e ∷ es) s seen h = refl

  idle_lem :
      (i last : ℕ) (s : EventStore Memory) (seen : List SerializedEvent)
      → handle
          (memory_engine order)
          env
          batch_size
          record_events
          agg_type
          event_type
          key
          none
          i
          last
          []
          (s, seen)
        ≡ (ok last, (s, seen))
  unfolding handle
  idle_lem i last s seen = rw (quiet.not_done_waiting i)

  -- A round delivers the next batch, and moves on by it.
  round-batch :
      (i last : ℕ) (s : EventStore Memory) (seen : List SerializedEvent)
      → (last' : ℕ) × (round
            (memory_engine order)
            env
            batch_size
            record_events
            agg_type
            event_type
            key
            none
            i
            last
            (s, seen)
          ≡ (ok last', (s, seen ++ take (max 1 batch_size) (left s last))))
        × (left s last' ≡ drop (max 1 batch_size) (left s last))
  unfolding ephemeral
  round-batch i last s seen = elim (List-cases (left s last)) [
    | inl done ↦ (
      last,
      rw (round_lem i last s seen, done, take-nil (max 1 batch_size), append-nil)
          (idle_lem i last s seen),
      rw (done, drop-nil (max 1 batch_size)),
    )
    | inr more ↦
        let e : max 1 batch_size ≡ suc (max 1 batch_size - 1) = omega arith in
        (
          last_id (take (max 1 batch_size) (left s last)),
          rw (round_lem i last s seen, e)
              (handle_lem i last _ s seen (take-ne-nil (max 1 batch_size - 1) _ more)),
          rw e (
              pending_from-filter s.storage_engine (ephemeral agg_type event_type key last) _ _ 0 _
              ∙ pending_from-drop s.storage_engine (ephemeral agg_type event_type key last) last 0
                  (max 1 batch_size - 1) _ more),
        )
  ]

  -- An ephemeral runner of no or one event type, over the in-memory engine, which nobody cancels
  -- and beside which nobody writes, is still running after n rounds; a handler that keeps what it
  -- is given then has the first n batches of what was to be read from the first position, in log
  -- order and each event once, and exactly the rest is to be read from the position reached.
  pub rounds-batches :
      (n i last : ℕ) (s : EventStore Memory) (seen : List SerializedEvent)
      → let reached = n * max 1 batch_size in
        (last' : ℕ) × (rounds
            (memory_engine order)
            env
            batch_size
            record_events
            agg_type
            event_type
            key
            none
            n
            i
            last
            (s, seen)
          ≡ (ok last', (s, seen ++ take reached (left s last))))
        × (left s last' ≡ drop reached (left s last))
  unfolding rounds interlude
  rounds-batches zero i last s seen = (last, rw (zero-mul, append-nil), rw zero-mul)
  rounds-batches (suc n) i last s seen =
      let b = max 1 batch_size in
      let (last1, ran, left1) = round-batch i last s seen in
      let (last2, ran2, left2) = rounds-batches n (suc i) last1 s (seen ++ take b (left s last)) in
      let all : (seen ++ take b (left s last)) ++ take (n * b) (left s last1)
          ≡ seen ++ take (suc n * b) (left s last) =
        rw left1 (append_assoc seen _ _ ∙ ap (λ l. seen ++ l) (take-rounds n b (left s last))) in
      (
        last2,
        rw (quiet.no_others i s.storage_engine) (rw ran (ran2 ∙ ap (λ l. (ok last2, (s, l))) all)),
        left2 ∙ rw left1 (drop-rounds n b (left s last)),
      )
