-- ===== src/Knoll/Freeze/Safety.antt =====
-- What the freeze controller of hdv-foundation/knoll/freeze.ts guarantees over every sequence of
-- calls: what can end a freeze, and what can release a quarantined packet.
use hdv_orchestrator.Common.{
  Bool, true, false, none, some, List, [], ◌∷◌, ◌++◌, ◌≡◌, refl, ◌∙◌, ap, arith, All, sym,
}
use mathlib.Core.List.{append_assoc, append-nil}
use hdv_orchestrator.Json.{Json}
use hdv_orchestrator.Knoll.Freeze.{
  SystemFreezeController, QuarantineRecord, Event, trigger, sovereign, hold, present, lift,
  privileged_clear, lifecycle_reset, handle, run, is_frozen,
}

module _ (recognizes : Json → Bool) where
  -- The call presents no token that the recognizer accepts, and is no unconditional clear: neither
  -- an unfreezing by a verified override nor `clearFreeze` nor `reset`.
  abbrev pub IsRefused : Event → Type 0
  IsRefused (present token) = recognizes token ≡ false
  IsRefused (lift reason) = ⊥
  IsRefused privileged_clear = ⊥
  IsRefused lifecycle_reset = ⊥
  IsRefused _ = Unit

  handle_frozen :
      (event : Event) (c : SystemFreezeController)
      → c.state.frozen ≡ true
      → IsRefused event
      → (handle recognizes event c).state ≡ c.state
  unfolding handle
  handle_frozen (trigger reason score packet_id now) c h r = ground arith
  handle_frozen (sovereign none now) c h r = ground arith
  handle_frozen (sovereign (some reason) now) c h r = ground arith
  handle_frozen (hold packet reason score now) c h r = refl
  handle_frozen (present token) c h r = ground arith
  handle_frozen (lift reason) c h r = absurd r
  handle_frozen privileged_clear c h r = absurd r
  handle_frozen lifecycle_reset c h r = absurd r

  -- Over every sequence of calls in which no recognized token is presented and none of the
  -- unconditional clears is called (the `unfreeze` that a verified override drives, `clearFreeze`,
  -- `reset`), a frozen system stays frozen, and keeps the reason, score, packet and time of the first
  -- cause.
  pub frozen_stays :
      (events : List Event) (c : SystemFreezeController)
      → is_frozen c ≡ true
      → All IsRefused events
      → (run recognizes events c).state ≡ c.state
  unfolding run is_frozen
  frozen_stays [] c h r = refl
  frozen_stays (event ∷ events) c h r =
      let same = handle_frozen event c h r.0 in
      frozen_stays events (handle recognizes event c) (ap (λ s. s.frozen) same ∙ h) r.1 ∙ same

  -- The call is not `reset`.
  abbrev IsNoReset : Event → Type 0
  IsNoReset lifecycle_reset = ⊥
  IsNoReset _ = Unit

  handle_keeps :
      (event : Event) (c : SystemFreezeController)
      → IsNoReset event
      → (held : List QuarantineRecord) × ((handle recognizes event c).quarantine
          ≡ c.quarantine ++ held)
  unfolding handle
  handle_keeps (trigger reason score packet_id now) c k = ([], rw append-nil (ground arith))
  handle_keeps (sovereign none now) c k = ([], rw append-nil (ground arith))
  handle_keeps (sovereign (some reason) now) c k = ([], rw append-nil (ground arith))
  handle_keeps (hold packet reason score now) c k = (_, refl)
  handle_keeps (present token) c k = ([], rw append-nil (ground arith))
  handle_keeps (lift reason) c k = ([], rw append-nil refl)
  handle_keeps privileged_clear c k = ([], rw append-nil refl)
  handle_keeps lifecycle_reset c k = absurd k

  -- The quarantine only grows: what it held before any calls but `reset`, the lifting of a freeze
  -- included, it holds afterwards, in the same order.
  quarantine_grows :
      (events : List Event) (c : SystemFreezeController)
      → All IsNoReset events
      → (held : List QuarantineRecord) × ((run recognizes events c).quarantine
          ≡ c.quarantine ++ held)
  unfolding run
  quarantine_grows [] c k = ([], sym (append-nil _))
  quarantine_grows (event ∷ events) c k =
      let (first, e) = handle_keeps event c k.0 in
      let (later, f) = quarantine_grows events (handle recognizes event c) k.1 in
      (first ++ later, f ∙ ap (λ q. q ++ later) e ∙ append_assoc c.quarantine first later)
