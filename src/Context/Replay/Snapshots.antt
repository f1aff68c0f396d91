-- ===== src/Context/Replay/Snapshots.antt =====
-- Replaying a stream from a snapshot against replaying it from its start.
use evercore.Base.{ℕ, String, Option, List, [], ◌∷◌, ◌++◌, some, none, ◌≡◌, refl, sym, ◌∙◌}
use evercore.Base.Outcome.{M, Outcome, ok, err, panic, resume, wrapping}
use evercore.Types.{SerializedEvent, Snapshot}
use evercore.Aggregate.{Aggregate}
use evercore.Context.Replay.{replay, apply_snapshot_if, apply_state}

resume_assoc :
    {S A B C : Type 0} (r : Outcome A × S) (f : A → M S B) (h : B → M S C)
    → resume (resume r f) h ≡ resume r (λ a s. resume (f a s) h)
resume_assoc (ok a, s) f h = refl
resume_assoc (err e, s) f h = refl
resume_assoc (panic m, s) f h = refl

resume_ext :
    {S A B : Type 0} (r : Outcome A × S) (f h : A → M S B)
    → ((a : A) (s : S) → f a s ≡ h a s)
    → resume r f ≡ resume r h
resume_ext (ok a, s) f h same = same a s
resume_ext (err e, s) f h same = refl
resume_ext (panic m, s) f h same = refl

module _ {E G : Type 0} (agg : Aggregate E G) (decode_event : SerializedEvent → Outcome E) where
  -- What one event does to the object.
  applied : SerializedEvent → E → M G (Unit {0})
  applied event decoded =
      wrapping "failed to apply event state in applyState"
        (agg.apply_event_state decoded event.event_time event.reference)

  replay-append :
      (first rest : List SerializedEvent) (start : ℕ) (g : G)
      → replay agg decode_event (first ++ rest) start g
        ≡ resume (replay agg decode_event first start g) (replay agg decode_event rest)
  unfolding replay applied
  replay-append [] rest start g = refl
  replay-append (event ∷ first) rest start g =
      resume_ext _ _ _ (λ decoded s.
        resume_ext _ _ _ (λ _ s'. replay-append first rest event.sequence s')
        ∙ sym (resume_assoc (applied event decoded s) _ _))
      ∙ sym (
          resume_assoc
            (wrapping "failed to decode event in applyState" (λ s. (decode_event event, s)) g) _ _)

  -- If replaying the older events of a stream leads to an object and a snapshot restores that
  -- same object, at the sequence of the last of them, then applying the snapshot with the later
  -- events ends as applying the whole stream does, in its outcome and in the object, errors and
  -- panics included.
  pub apply_state-snapshot :
      (id : ℕ) (key : Option String) (snapshot : Snapshot) (older newer : List SerializedEvent)
      (g g' : G)
      → replay agg decode_event older 0 g ≡ (ok snapshot.sequence, g')
      → agg.apply_snapshot snapshot g ≡ (ok tt, g')
      → apply_state agg decode_event
          (record {
            aggregate_id = id;
            natural_key = key;
            snapshot = some snapshot;
            events = newer;
          })
          g
        ≡ apply_state agg decode_event
            (record {
              aggregate_id = id;
              natural_key = key;
              snapshot = none;
              events = older ++ newer;
            })
            g
  unfolding apply_state apply_snapshot_if
  apply_state-snapshot id key snapshot older newer g g' replayed restored =
      rw (restored, replay-append older newer 0 g, replayed)
