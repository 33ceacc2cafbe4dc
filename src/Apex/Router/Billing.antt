-- ===== src/Apex/Router/Billing.antt =====
-- What the dispatch of hdv-foundation/apex/router.ts writes to the ledger.
use hdv_orchestrator.Common.{
  ℕ, ◌+◌, Bool, not, ◌&&◌, Option, none, some, List, [], ◌∷◌, ◌++◌, inl, inr, ◌≡◌, ◌⊎◌, refl,
  Bool-cases, arith, String, string_eq, ap, ◌∙◌,
}
use hdv_orchestrator.Json.{Json}
use hdv_orchestrator.JsMap.{lookup}
use hdv_orchestrator.Config.Routing.{RoutingPacket, success, KnollValidationResponse}
use hdv_orchestrator.Persistence.Records.{RequestLogRecord}
use hdv_orchestrator.Knoll.Freeze.{is_frozen}
use hdv_orchestrator.Knoll.Validator.{Scorers, intercept}
use hdv_orchestrator.Apex.Packet.{is_routing_packet}
use hdv_orchestrator.Apex.Ledger.{round2, entry_of, log_request, sum_costs}
use hdv_orchestrator.Apex.Ledger.Rows.{
  sum_costs-append, IsRounded, round2-IsRounded, IsRounded-unique,
}
use hdv_orchestrator.Apex.Router.{
  settle, refuse_shape, ApexRouter, AgentHandler, HandlerOutcome, returned, threw, Dispatch,
  DispatchResult, DispatchEvent, settle_outcome, deliver, ask_knoll, gated_dispatch, emit, dispatch,
  dispatch_all,
}

-- `rows.reduce` over the costs that the callers are told, each rounded.
charged : List DispatchResult → ℕ
charged [] = 0
charged (result ∷ results) = round2 result.cost_usd + charged results

module _ {S L W : Type 0} where
  -- The ledger has one row more, which agrees with the result on the packet and the status and has
  -- the rounded cost, and only a success costs anything.
  abbrev pub IsBilled : List RequestLogRecord → DispatchResult × ApexRouter S L W → Type 0
  IsBilled before outcome =
      (row : RequestLogRecord) × (outcome.1.ledger.rows ≡ before ++ row ∷ [])
      × (row.packet_id ≡ outcome.0.packet_id)
      × (row.status ≡ outcome.0.status)
      × IsRounded outcome.0.cost_usd row.cost_usd
      × ((outcome.0.status ≡ success) ⊎ (outcome.0.cost_usd ≡ 0))

  settle_outcome-IsBilled :
      (call : Dispatch) (rp : RoutingPacket) (verdict : KnollValidationResponse)
      (outcome : HandlerOutcome) (world : W) (router : ApexRouter S L W)
      → IsBilled router.ledger.rows (settle_outcome call rp verdict (outcome, world) router)
  unfolding settle_outcome settle log_request entry_of
  settle_outcome-IsBilled call rp verdict (returned response) world router =
      (_, refl, refl, refl, round2-IsRounded _, inl refl)
  settle_outcome-IsBilled call rp verdict (threw message) world router =
      (_, refl, refl, refl, round2-IsRounded 0, inr refl)

  deliver-IsBilled :
      (handler : Option (AgentHandler W)) (call : Dispatch) (rp : RoutingPacket)
      (verdict : KnollValidationResponse) (router : ApexRouter S L W)
      → IsBilled router.ledger.rows (deliver handler call rp verdict router)
  unfolding deliver settle log_request entry_of
  deliver-IsBilled none call rp verdict router = (_, refl, refl, refl, round2-IsRounded 0, inr refl)
  deliver-IsBilled (some handler) call rp verdict router =
      settle_outcome-IsBilled call rp verdict (handler rp router.world).0
        (handler rp router.world).1 router

  emit_ledger :
      (observer : Option (DispatchEvent → W → W)) (call : Dispatch) (result : DispatchResult)
      (router : ApexRouter S L W)
      → (emit observer call result router).ledger ≡ router.ledger
  unfolding emit
  emit_ledger none call result router = refl
  emit_ledger (some observer) call result router = refl

module _ {S L W : Type 0} (digest : Json → String) (scorers : Scorers S L) where
  ask_knoll-IsBilled :
      (call : Dispatch) (rp : RoutingPacket) (router : ApexRouter S L W)
      → IsBilled router.ledger.rows (ask_knoll digest scorers call rp router)
  unfolding ask_knoll settle log_request entry_of
  ask_knoll-IsBilled call rp router =
      let outcome = intercept digest scorers call.readings none call.packet router.knoll in
      elim (Bool-cases outcome.0.is_allowed) [
        | inl allows ↦ rw allows (
            deliver-IsBilled (lookup rp.header.destination router.handlers) call rp outcome.0
              (record router { knoll = outcome.1 }))
        | inr denies ↦ rw denies (_, refl, refl, refl, round2-IsRounded 0, inr refl)
      ]

module _ {S L W : Type 0} (digest : Json → String) (scorers : Scorers S L)
    (recognizes : Json → Bool) where
  gated_dispatch-IsBilled :
      (call : Dispatch) (router : ApexRouter S L W)
      → IsBilled router.ledger.rows (gated_dispatch digest scorers recognizes call router)
  unfolding gated_dispatch settle refuse_shape log_request entry_of
  gated_dispatch-IsBilled call router =
      let stopped = is_frozen router.knoll.freeze && not (recognizes call.holloway_token) in
      elim (Bool-cases (is_routing_packet call.packet)) [
        | inr refused ↦ rw refused (_, refl, refl, refl, round2-IsRounded 0, inr refl)
        | inl shape ↦ elim (Bool-cases stopped) [
          | inl stop ↦ rw (shape, stop) (_, refl, refl, refl, round2-IsRounded 0, inr refl)
          | inr goes ↦ rw (shape, goes) (ask_knoll-IsBilled digest scorers call _ router)
        ]
      ]

  pub dispatch-IsBilled :
      (call : Dispatch) (router : ApexRouter S L W)
      → IsBilled router.ledger.rows (dispatch digest scorers recognizes call router)
  unfolding dispatch
  dispatch-IsBilled call router =
      let (row, rows, id, status, cost, free) = gated_dispatch-IsBilled call router in
      let result = (gated_dispatch digest scorers recognizes call router).0 in
      let after = (gated_dispatch digest scorers recognizes call router).1 in
      let same = ap (λ l. l.rows) (emit_ledger router.observer call result after) in
      (row, same ∙ rows, id, status, cost, free)

  -- Over any sequence of dispatches, the costs of the ledger's rows grow by exactly what the results
  -- say that they cost, each rounded.
  dispatch_all-sum_costs :
      (calls : List Dispatch) (router : ApexRouter S L W)
      → sum_costs (dispatch_all digest scorers recognizes calls router).1.ledger.rows
        ≡ sum_costs router.ledger.rows
          + charged (dispatch_all digest scorers recognizes calls router).0
  unfolding dispatch_all sum_costs charged
  dispatch_all-sum_costs [] router = omega arith
  dispatch_all-sum_costs (call ∷ calls) router =
      let (row, rows, id, status, cost, free) = dispatch-IsBilled call router in
      let after = (dispatch digest scorers recognizes call router).1 in
      omega (
        arith,
        dispatch_all-sum_costs calls after,
        ap sum_costs rows,
        sum_costs-append router.ledger.rows (row ∷ []),
        IsRounded-unique _ row.cost_usd cost,
      )
