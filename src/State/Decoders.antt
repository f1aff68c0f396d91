-- ===== src/State/Decoders.antt =====
-- The registry of event decoders. A decoder returns no state for an event that it does not know.
use mathlib.Core.List.{append-nil, append_assoc}
use evercore.Base.{
  Bool, true, false, List, [], ◌∷◌, ◌++◌, Option, none, some, ◌≡◌, refl, sym, ◌∙◌, ◌==◌,
  if◌then◌else◌, length, nat_eq, arith,
}
use evercore.Base.Outcome.{Outcome, ok, err, panic, no_decoder}
use evercore.Types.{SerializedEvent}

abbrev pub EventDecoder : Type 0 → Type 0
EventDecoder E = SerializedEvent → Outcome (Option E)

module _ {E : Type 0} where
  -- `eventDecoders` after a call.
  unfoldable pub register_event_decoder :
      List (EventDecoder E) → List (EventDecoder E) → List (EventDecoder E)
  register_event_decoder event_decoders [] = event_decoders
  register_event_decoder event_decoders (decoder ∷ decoders) =
      register_event_decoder (event_decoders ++ decoder ∷ []) decoders

  decode_loop : List (EventDecoder E) → SerializedEvent → Outcome E
  decode_loop [] ev = err (no_decoder ev.event_type)
  decode_loop (decoder ∷ decoders) ev =
      let rest = decode_loop decoders ev in
      elim (decoder ev) [
        | ok none ↦ rest
        | ok (some state) ↦ ok state
        | err e ↦ err e
        | panic m ↦ panic m
      ]

  -- The method of `StateAggregate`.
  unfoldable pub decode_event_method : List (EventDecoder E) → SerializedEvent → Outcome E
  unfolding decode_loop
  decode_event_method event_decoders ev =
      if length event_decoders == 0
      then panic "No EventDecoders set"
      else decode_loop event_decoders ev

  decode_state_loop : (E → Bool) → List (EventDecoder E) → SerializedEvent → Outcome (Bool × E)
  decode_state_loop is_state_event [] ev = err (no_decoder ev.event_type)
  decode_state_loop is_state_event (decoder ∷ decoders) ev =
      let rest = decode_state_loop is_state_event decoders ev in
      elim (decoder ev) [
        | ok none ↦ rest
        | ok (some state) ↦ if is_state_event state then ok (true, state) else ok (false, state)
        | err e ↦ err e
        | panic m ↦ panic m
      ]

  -- The function, which also says whether the state is one of a `StateEvent`.
  unfoldable pub decode_event :
      (E → Bool) → List (EventDecoder E) → SerializedEvent → Outcome (Bool × E)
  unfolding decode_state_loop
  decode_event is_state_event event_decoders ev =
      if length event_decoders == 0
      then panic "No EventDecoders set"
      else decode_state_loop is_state_event event_decoders ev

  loop-append :
      (first more : List (EventDecoder E)) (ev : SerializedEvent) (state : E)
      → decode_loop first ev ≡ ok state
      → decode_loop (first ++ more) ev ≡ ok state
  unfolding decode_loop
  loop-append [] more ev state h = absurd (cc)
  loop-append (decoder ∷ first) more ev state h = ground (arith, loop-append first more ev state)

  register_event_decoder-append :
      (event_decoders decoders : List (EventDecoder E))
      → register_event_decoder event_decoders decoders ≡ event_decoders ++ decoders
  unfolding register_event_decoder
  register_event_decoder-append event_decoders [] = sym (append-nil event_decoders)
  register_event_decoder-append event_decoders (decoder ∷ decoders) =
      register_event_decoder-append (event_decoders ++ decoder ∷ []) decoders
      ∙ append_assoc event_decoders (decoder ∷ []) decoders

  state_loop-decode :
      (is_state_event : E → Bool) (decoders : List (EventDecoder E)) (ev : SerializedEvent)
      (state : E)
      → decode_loop decoders ev ≡ ok state
      → decode_state_loop is_state_event decoders ev ≡ ok (is_state_event state, state)
  unfolding decode_loop decode_state_loop
  state_loop-decode is_state_event [] ev state h = absurd (cc)
  state_loop-decode is_state_event (decoder ∷ decoders) ev state h =
      ground (arith, state_loop-decode is_state_event decoders ev state)

  method-nil : (ev : SerializedEvent) → decode_event_method [] ev ≡ panic "No EventDecoders set"
  unfolding decode_event_method
  method-nil ev = refl

  method-cons :
      (d : EventDecoder E) (ds : List (EventDecoder E)) (ev : SerializedEvent)
      → decode_event_method (d ∷ ds) ev ≡ decode_loop (d ∷ ds) ev
  unfolding decode_event_method
  method-cons d ds ev = let e : (length (d ∷ ds) == 0) ≡ false = ground arith in rw e

  event-cons :
      (is_state_event : E → Bool) (d : EventDecoder E) (ds : List (EventDecoder E))
      (ev : SerializedEvent)
      → decode_event is_state_event (d ∷ ds) ev ≡ decode_state_loop is_state_event (d ∷ ds) ev
  unfolding decode_event
  event-cons is_state_event d ds ev = let e : (length (d ∷ ds) == 0) ≡ false = ground arith in rw e

  -- An event that the registered decoders decode is decoded to the same state by the method and
  -- by the function, which also says rightly whether it is that of a StateEvent, and both still
  -- do so after any further decoders were registered.
  pub decode_event-register :
      (is_state_event : E → Bool) (event_decoders more : List (EventDecoder E))
      (ev : SerializedEvent) (state : E)
      → decode_event_method event_decoders ev ≡ ok state
      → let registered = register_event_decoder event_decoders more in
        (decode_event is_state_event event_decoders ev ≡ ok (is_state_event state, state))
        × (decode_event_method registered ev ≡ ok state)
        × (decode_event is_state_event registered ev ≡ ok (is_state_event state, state))
  decode_event-register is_state_event [] more ev state h = absurd (let e = method-nil ev in cc)
  decode_event-register is_state_event (d ∷ ds) more ev state h =
      let first = sym (method-cons d ds ev) ∙ h in
      let decoded = loop-append (d ∷ ds) more ev state first in
      rw (register_event_decoder-append (d ∷ ds) more) (
        event-cons is_state_event d ds ev
            ∙ state_loop-decode is_state_event (d ∷ ds) ev state first,
        method-cons d (ds ++ more) ev ∙ decoded,
        event-cons is_state_event d (ds ++ more) ev
            ∙ state_loop-decode is_state_event (d ∷ ds ++ more) ev state decoded,
      )
