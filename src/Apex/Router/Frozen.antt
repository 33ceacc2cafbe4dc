-- ===== src/Apex/Router/Frozen.antt =====
-- The dispatch of hdv-foundation/apex/router.ts while KNOLL has the system frozen.
use hdv_orchestrator.Common.{
  Bool, true, false, Option, none, some, List, [], ◌∷◌, inl, inr, ◌≡◌, refl, Bool-cases, String,
  All, ap, ◌∙◌,
}
use hdv_orchestrator.Json.{Json}
use hdv_orchestrator.Config.Routing.{blocked}
use hdv_orchestrator.Knoll.Freeze.{is_frozen}
use hdv_orchestrator.Knoll.Validator.{Scorers}
use hdv_orchestrator.Apex.Packet.{is_routing_packet}
use hdv_orchestrator.Apex.Router.{
  settle, refuse_shape, ApexRouter, Dispatch, DispatchResult, DispatchEvent, gated_dispatch, emit,
  dispatch, dispatch_all,
}

module _ {S L W : Type 0} where
  emit_knoll :
      (observer : Option (DispatchEvent → W → W)) (call : Dispatch) (result : DispatchResult)
      (router : ApexRouter S L W)
      → (emit observer call result router).knoll ≡ router.knoll
  unfolding emit
  emit_knoll none call result router = refl
  emit_knoll (some observer) call result router = refl

module _ {S L W : Type 0} (digest : Json → String) (scorers : Scorers S L)
    (recognizes : Json → Bool) where
  gated_while_frozen :
      (call : Dispatch) (router : ApexRouter S L W)
      → is_frozen router.knoll.freeze ≡ true
      → recognizes call.holloway_token ≡ false
      → ((gated_dispatch digest scorers recognizes call router).0.status ≡ blocked)
        × ((gated_dispatch digest scorers recognizes call router).1.knoll ≡ router.knoll)
  unfolding gated_dispatch settle refuse_shape
  gated_while_frozen call router frozen unknown =
      elim (Bool-cases (is_routing_packet call.packet)) [
        | inl shape ↦ rw (shape, frozen, unknown) (refl, refl)
        | inr refused ↦ rw refused (refl, refl)
      ]

  -- While the system is frozen and no call presents a recognized token, every dispatch of a sequence
  -- is blocked, and KNOLL, its audit and its freeze are after it what they were before.
  pub frozen_blocks :
      (calls : List Dispatch) (router : ApexRouter S L W)
      → is_frozen router.knoll.freeze ≡ true
      → All (λ call. recognizes call.holloway_token ≡ false) calls
      → All
          (λ result. result.status ≡ blocked)
          (dispatch_all digest scorers recognizes calls router).0
        × ((dispatch_all digest scorers recognizes calls router).1.knoll ≡ router.knoll)
  unfolding dispatch_all dispatch
  frozen_blocks [] router frozen unknown = (tt, refl)
  frozen_blocks (call ∷ calls) router frozen unknown =
      let (stopped, kept) = gated_while_frozen call router frozen unknown.0 in
      let outcome = gated_dispatch digest scorers recognizes call router in
      let same = emit_knoll router.observer call outcome.0 outcome.1 ∙ kept in
      let rest =
        frozen_blocks calls (dispatch digest scorers recognizes call router).1
          (ap (λ k. is_frozen k.freeze) same ∙ frozen) unknown.1 in
      ((stopped, rest.0), rest.1 ∙ same)
