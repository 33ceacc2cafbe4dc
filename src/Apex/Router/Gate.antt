-- ===== src/Apex/Router/Gate.antt =====
-- What the gated dispatch of hdv-foundation/apex/router.ts lets reach a handler.
use hdv_orchestrator.Common.{
  Bool, true, false, not, ◌&&◌, none, inl, inr, ◌≡◌, ◌⊎◌, refl, Bool-cases, arith,
}
use hdv_orchestrator.Json.{Json}
use hdv_orchestrator.Common.{String}
use hdv_orchestrator.Config.Routing.{AgentRole, role_name, blocked}
use hdv_orchestrator.Knoll.Freeze.{is_frozen}
use hdv_orchestrator.Knoll.Structure.{as_routing_packet}
use hdv_orchestrator.Knoll.Laws.Edges.{is_legal_edge, legal_edge}
use hdv_orchestrator.Knoll.Validator.{Scorers, intercept}
use hdv_orchestrator.Knoll.Validator.Established.{IsCleared, intercept-IsCleared}
use hdv_orchestrator.Apex.Packet.{is_routing_packet}
use hdv_orchestrator.Apex.Router.{
  settle, refuse_shape, ApexRouter, Dispatch, DispatchResult, gated_dispatch, ask_knoll,
}

running_of :
    (frozen recognized : Bool)
    → (frozen && not recognized) ≡ false
    → (frozen ≡ false) ⊎ (recognized ≡ true)
running_of frozen recognized h = ground arith

module _ {S L W : Type 0} (digest : Json → String) (scorers : Scorers S L)
    (recognizes : Json → Bool) where
  -- What holds of a call whose packet may reach a handler: its packet has the shape of one, the
  -- system runs or the call presents a recognized token, KNOLL's tests are passed, and the edge is
  -- a legal one.
  pub record IsPassed (call : Dispatch) (router : ApexRouter S L W) : Type 0 where
    pub shape : is_routing_packet call.packet ≡ true
    pub running : (is_frozen router.knoll.freeze ≡ false) ⊎ (recognizes call.holloway_token ≡ true)
    pub cleared : IsCleared digest scorers call.readings none call.packet router.knoll
    pub edge :
        (s d : AgentRole) × ((as_routing_packet call.packet).header.source ≡ role_name s)
        × ((as_routing_packet call.packet).header.destination ≡ role_name d)
        × (is_legal_edge s d ≡ true)

  -- The call is blocked and no handler has run, or the packet may reach a handler.
  abbrev pub IsGated : Dispatch → ApexRouter S L W → DispatchResult × ApexRouter S L W → Type 0
  IsGated call router outcome =
      ((outcome.0.status ≡ blocked) × (outcome.1.world ≡ router.world)) ⊎ IsPassed call router

  ask_knoll-IsGated :
      (call : Dispatch) (router : ApexRouter S L W)
      → is_routing_packet call.packet ≡ true
      → (is_frozen router.knoll.freeze ≡ false) ⊎ (recognizes call.holloway_token ≡ true)
      → IsGated call router (ask_knoll digest scorers call (as_routing_packet call.packet) router)
  unfolding ask_knoll settle
  ask_knoll-IsGated call router shape running =
      elim (Bool-cases
        (intercept digest scorers call.readings none call.packet router.knoll).0.is_allowed) [
          | inl allows ↦
              let cleared =
                intercept-IsCleared digest scorers call.readings none call.packet router.knoll
                  allows in
              inr (record {
                shape = shape;
                running = running;
                cleared = cleared;
                edge = legal_edge (as_routing_packet call.packet) none cleared.laws;
              })
          | inr denies ↦ inl (rw denies (refl, refl))
        ]

  -- Whatever is dispatched, either it is blocked and no handler has run, or the packet has the
  -- shape of one, the system is not frozen or a recognized token is presented, every test of KNOLL
  -- is passed (structure, hash, rate, laws, behavioral and learned scorer), and the packet goes from
  -- a role to a role along a legal edge.
  pub gated_dispatch-IsGated :
      (call : Dispatch) (router : ApexRouter S L W)
      → IsGated call router (gated_dispatch digest scorers recognizes call router)
  unfolding gated_dispatch settle refuse_shape
  gated_dispatch-IsGated call router =
      let stopped = is_frozen router.knoll.freeze && not (recognizes call.holloway_token) in
      elim (Bool-cases (is_routing_packet call.packet)) [
        | inr refused ↦ inl (rw refused (refl, refl))
        | inl shape ↦ elim (Bool-cases stopped) [
          | inl stop ↦ inl (rw (shape, stop) (refl, refl))
          | inr goes ↦ rw (shape, goes) (ask_knoll-IsGated call router shape (running_of _ _ goes))
        ]
      ]
