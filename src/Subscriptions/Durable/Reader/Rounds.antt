-- ===== src/Subscriptions/Durable/Reader/Rounds.antt =====
-- The rounds of a durable runner over any engine that reads its subscription.
use mathlib.Core.List.{append-nil, append_assoc}
use native.Mathlib.Nat.{zero-mul}
use evercore.Base.{
  ℕ, zero, suc, ◌*◌, String, true, List, [], ◌∷◌, ◌++◌, ◌≡◌, refl, ◌≢◌, sym, ap, subst, ◌∙◌, arith,
  take, drop, inl, inr, List-cases, take-ne-nil, drop-nil, take-nil, take-rounds, drop-rounds, ltb,
}
use evercore.Base.Outcome.{ok}
use evercore.Types.{SerializedEvent, Subscription}
use evercore.Engine.{StorageEngine}
use evercore.Store.State.{EventStore}
use evercore.Subscriptions.Setup.{Environment, Options, last_id}
use evercore.Subscriptions.Durable.{round, rounds, handle, idle, process, renew, advance, interlude}
use evercore.Subscriptions.Durable.Reader.{Reader, IsQuiet, record_events}

module _ {S Tx : Type 0} (engine : StorageEngine S Tx) (env : Environment S) (name : String)
    (opts : Options) (quiet : IsQuiet env) (Owned : S → Subscription → Type 0)
    (pending : S → Subscription → List SerializedEvent) (batch : ℕ → ℕ)
    (reader : Reader engine name opts.owner Owned pending batch) where
  -- What a round achieves: the batch that it delivers, and what is left.
  abbrev Delivers : EventStore S → Subscription → List SerializedEvent → ℕ → ℕ → Type 0
  Delivers s sub seen i k =
      let left = pending s.storage_engine sub in
      (s' : EventStore S) × (sub' : Subscription) × (round engine env name opts record_events i
          (s, seen)
        ≡ (ok tt, (s', seen ++ take k left)))
      × Owned s'.storage_engine sub'
      × (pending s'.storage_engine sub' ≡ drop k left)

  -- A round reads the subscription as it is, and handles the first of what is pending.
  round_lem :
      (i : ℕ) (s : EventStore S) (sub : Subscription) (seen : List SerializedEvent)
      → Owned s.storage_engine sub
      → round engine env name opts record_events i (s, seen)
        ≡ handle engine env name opts record_events i sub
            (take (batch opts.batch_size) (pending s.storage_engine sub))
            (s, seen)
  unfolding round
  round_lem i s sub seen o = ground (
    arith,
    quiet.not_done i,
    reader.loads s.storage_engine sub o,
    reader.active s.storage_engine sub o,
    reader.reads s.storage_engine sub opts.batch_size o,
  )

  round-Delivers_none :
      (i : ℕ) (s : EventStore S) (sub : Subscription) (seen : List SerializedEvent)
      → Owned s.storage_engine sub
      → pending s.storage_engine sub ≡ []
      → Delivers s sub seen i (batch opts.batch_size)
  unfolding handle idle renew
  round-Delivers_none i s sub seen o done =
      let (s', b, ran, o', same) = reader.renews s.storage_engine sub opts.lease (env.now i) o in
      (
        record s { storage_engine = s' },
        _,
        rw (round_lem i s sub seen o, done)
            (rw (take-nil (batch opts.batch_size), append-nil)
              (rw ran (rw (quiet.not_done_waiting i) refl))),
        o',
        same
            ∙ done
            ∙ sym (ap (drop (batch opts.batch_size)) done ∙ drop-nil (batch opts.batch_size)),
      )

  handle-process :
      (i : ℕ) (sub : Subscription) (events : List SerializedEvent)
      → events ≢ []
      → handle engine env name opts record_events i sub events
        ≡ process engine env name opts record_events i sub events
  unfolding handle
  handle-process i sub [] h = absurd (h refl)
  handle-process i sub (e ∷ es) h = refl

  round-Delivers_some :
      (i k : ℕ) (s : EventStore S) (sub : Subscription) (seen : List SerializedEvent)
      → Owned s.storage_engine sub
      → pending s.storage_engine sub ≢ []
      → batch opts.batch_size ≡ suc k
      → Delivers s sub seen i (suc k)
  unfolding process advance renew
  round-Delivers_some i k s sub seen o more e =
      let m = s.storage_engine in
      let (m', beyond, moved, o', left) = reader.advances m sub k o more in
      let (m'', b, ran, o'', same) = reader.renews m' _ opts.lease (env.now i) o' in
      (
        record s { storage_engine = m'' },
        _,
        rw (round_lem i s sub seen o, e)
            (ap (λ f. f (s, seen)) (handle-process i sub _ (take-ne-nil k _ more))
              ∙ (let past : ltb sub.last_event_id (last_id (take (suc k) (pending m sub))) ≡ true =
                    ground arith in
                  rw past (rw moved (rw ran refl)))),
        o'',
        same ∙ left,
      )

  round-Delivers :
      (i k : ℕ) (s : EventStore S) (sub : Subscription) (seen : List SerializedEvent)
      → batch opts.batch_size ≡ suc k
      → Owned s.storage_engine sub
      → Delivers s sub seen i (suc k)
  round-Delivers i k s sub seen e o = elim (List-cases (pending s.storage_engine sub)) [
    | inl done ↦ subst (Delivers s sub seen i) e (round-Delivers_none i s sub seen o done)
    | inr more ↦ round-Delivers_some i k s sub seen o more e
  ]

  -- After n rounds the first n batches have been delivered, and the rest is pending.
  pub rounds_lem :
      (k : ℕ)
      → batch opts.batch_size ≡ suc k
      → (n i : ℕ) (s : EventStore S) (sub : Subscription) (seen : List SerializedEvent)
      → Owned s.storage_engine sub
      → let left = pending s.storage_engine sub in
        (s' : EventStore S) × (sub' : Subscription) × (rounds engine env name opts record_events n i
            (s, seen)
          ≡ (ok tt, (s', seen ++ take (n * suc k) left)))
        × Owned s'.storage_engine sub'
        × (pending s'.storage_engine sub' ≡ drop (n * suc k) left)
  unfolding rounds interlude
  rounds_lem k e zero i s sub seen o = (s, sub, rw (zero-mul, append-nil), o, rw zero-mul)
  rounds_lem k e (suc n) i s sub seen o =
      let b = suc k in
      let left = pending s.storage_engine sub in
      let (s1, sub1, ran, o1, left1) = round-Delivers i k s sub seen e o in
      let (s2, sub2, ran2, o2, left2) = rounds_lem k e n (suc i) s1 sub1 (seen ++ take b left) o1 in
      let all : (seen ++ take b left) ++ take (n * b) (pending s1.storage_engine sub1)
          ≡ seen ++ take (suc n * b) left =
        rw left1 (append_assoc seen _ _ ∙ ap (λ l. seen ++ l) (take-rounds n b left)) in
      (
        s2,
        sub2,
        rw (quiet.no_others i s.storage_engine) (rw ran (ran2 ∙ ap (λ l. (ok tt, (s2, l))) all)),
        o2,
        left2 ∙ rw left1 (drop-rounds n b left),
      )
