-- ===== src/Apex/Router.antt =====
-- hdv-foundation/apex/router.ts, `ApexRouter`. A handler is a function of the packet and of a state
-- `W`, which stands for all that handlers and the observer read and change outside the router; it
-- returns or throws. It does not call the router that runs it. KNOLL is given no context here, as
-- in the source.
pub mod Gate
pub mod Billing
pub mod Frozen
use hdv_orchestrator.Common.{
  or_else, ℕ, String, Bool, true, false, not, ◌&&◌, Option, none, some, List, [], ◌∷◌,
  if◌then◌else◌, string_eq,
}
use hdv_orchestrator.Json.{Json, undefined, null}
use hdv_orchestrator.JsMap.{Entries, lookup, insert}
use hdv_orchestrator.Text.Decimal.{template, join, slice_to}
use hdv_orchestrator.Config.Routing.{
  RoutingPacket, RoutingStatus, success, blocked, failed, KnollValidationResponse,
}
use hdv_orchestrator.Knoll.Freeze.{FreezeState, is_frozen}
use hdv_orchestrator.Knoll.Structure.{as_routing_packet, deny}
use hdv_orchestrator.Knoll.Validator.{Knoll, Scorers, Readings, intercept}
use hdv_orchestrator.Persistence.Records.{SecurityAuditRecord}
use hdv_orchestrator.Apex.Packet.{is_routing_packet}
use hdv_orchestrator.Apex.Ledger.{InMemoryLedger, LogRequestInput, log_request}

-- `void` and `null` are `undefined`; an error that is no `Error` carries its text.
pub data HandlerOutcome : Type 0 where
  returned : (response : Json) → HandlerOutcome
  threw : (message : String) → HandlerOutcome

abbrev pub AgentHandler : Type 0 → Type 0
AgentHandler W = RoutingPacket → W → HandlerOutcome × W

pub record DispatchResult : Type 0 where
  pub status : RoutingStatus
  pub packet_id : String
  pub knoll : KnollValidationResponse
  pub response : Json
  pub error : Option String
  pub cost_usd : ℕ

pub record DispatchEvent : Type 0 where
  pub packet_id : String
  pub source : String
  pub destination : String
  pub status : RoutingStatus
  pub duration_ms : ℕ
  pub cost_usd : ℕ
  pub knoll : KnollValidationResponse

pub record ApexRouter (S L W : Type 0) : Type 0 where
  pub knoll : Knoll S L
  pub ledger : InMemoryLedger
  pub handlers : Entries String (AgentHandler W)
  pub default_cost_usd : ℕ
  pub observer : Option (DispatchEvent → W → W)
  pub world : W

-- One call of `dispatch`, and what the clocks give during it.
pub record Dispatch : Type 0 where
  pub packet : Json
  pub cost_usd : Option ℕ
  pub holloway_token : Json
  pub readings : Readings
  pub ledger_at : ℕ
  pub duration_ms : ℕ

unfoldable pub signature : RoutingPacket → KnollValidationResponse → String
unfolding slice_to
signature packet verdict = template (
    slice_to 14 packet.security.knoll_token
    ∷ ":"
    ∷ (if verdict.is_allowed then "ALLOW" else "DENY")
    ∷ ":"
    ∷ join "," verdict.enforced_constraints
    ∷ [])

abbrev pub not_a_packet : KnollValidationResponse
not_a_packet = deny "packet is not a RoutingPacket — refused before KNOLL" ("STRUCTURE" ∷ [])

abbrev cause_of : FreezeState → String
cause_of s = elim s.reason [ none ↦ "behavioral anomaly" | some reason ↦ reason ]

abbrev pub while_frozen : FreezeState → KnollValidationResponse
while_frozen s =
    deny (template ("system frozen by KNOLL — new routes refused (cause: " ∷ cause_of s ∷ ")" ∷ []))
      ("SYSTEM_FREEZE" ∷ [])

-- `response ?? undefined`
abbrev response_of : Json → Json
response_of null = undefined
response_of v = v

abbrev result_of :
    RoutingStatus → String → KnollValidationResponse → Json → Option String → ℕ → DispatchResult
result_of status packet_id verdict response error cost = record {
  status = status;
  packet_id = packet_id;
  knoll = verdict;
  response = response;
  error = error;
  cost_usd = cost;
}

module _ {S L W : Type 0} where
  unfoldable pub register : String → AgentHandler W → ApexRouter S L W → ApexRouter S L W
  register role handler router = record router { handlers = insert role handler router.handlers }

  -- The row of the ledger, and the result that goes with it.
  unfoldable pub settle :
      Dispatch
      → RoutingPacket
      → RoutingStatus
      → KnollValidationResponse
      → Json
      → Option String
      → ℕ
      → ApexRouter S L W
      → DispatchResult × ApexRouter S L W
  unfolding log_request signature
  settle call rp status verdict response error cost router =
      let logged =
        log_request call.ledger_at
          (record {
            packet_id = rp.header.packet_id;
            source = rp.header.source;
            destination = rp.header.destination;
            status = status;
            cost_usd = some cost;
            knoll_signature = signature rp verdict;
            timestamp = none;
          })
          router.ledger in
      (
        result_of status rp.header.packet_id verdict response error cost,
        record router { ledger = logged.1 },
      )

  unfoldable pub refuse_shape : Dispatch → ApexRouter S L W → DispatchResult × ApexRouter S L W
  unfolding log_request
  refuse_shape call router =
      let logged =
        log_request call.ledger_at
          (record {
            packet_id = "unknown-packet";
            source = "APEX";
            destination = "APEX";
            status = blocked;
            cost_usd = some 0;
            knoll_signature = "no-token";
            timestamp = none;
          })
          router.ledger in
      (
        result_of blocked "unknown-packet" not_a_packet undefined none 0,
        record router { ledger = logged.1 },
      )

  unfoldable pub settle_outcome :
      Dispatch
      → RoutingPacket
      → KnollValidationResponse
      → HandlerOutcome × W
      → ApexRouter S L W
      → DispatchResult × ApexRouter S L W
  unfolding settle
  settle_outcome call rp verdict (returned response, world) router =
      settle call rp success verdict (response_of response) none
        (or_else call.cost_usd router.default_cost_usd) (record router { world = world })
  settle_outcome call rp verdict (threw message, world) router =
      settle call rp failed verdict undefined (some message) 0 (record router { world = world })

  -- The call of the handler, if there is one, for a packet that KNOLL has allowed.
  unfoldable pub deliver :
      Option (AgentHandler W)
      → Dispatch
      → RoutingPacket
      → KnollValidationResponse
      → ApexRouter S L W
      → DispatchResult × ApexRouter S L W
  unfolding settle settle_outcome
  deliver none call rp verdict router =
      settle call rp failed verdict undefined
        (some (template ("no handler registered for destination " ∷ rp.header.destination ∷ []))) 0
        router
  deliver (some handler) call rp verdict router =
      settle_outcome call rp verdict (handler rp router.world) router

  -- `emit`: what the observer throws is swallowed.
  unfoldable pub emit :
      Option (DispatchEvent → W → W)
      → Dispatch
      → DispatchResult
      → ApexRouter S L W
      → ApexRouter S L W
  emit none call result router = router
  emit (some observer) call result router =
      let rp = as_routing_packet call.packet in
      let valid = is_routing_packet call.packet in
      record router {
        world =
            observer
              (record {
                packet_id = result.packet_id;
                source = if valid then rp.header.source else "APEX";
                destination = if valid then rp.header.destination else "APEX";
                status = result.status;
                duration_ms = call.duration_ms;
                cost_usd = result.cost_usd;
                knoll = result.knoll;
              })
              router.world;
      }

module _ {S L W : Type 0} (digest : Json → String) (scorers : Scorers S L) where
  unfoldable pub ask_knoll :
      Dispatch → RoutingPacket → ApexRouter S L W → DispatchResult × ApexRouter S L W
  unfolding deliver settle
  ask_knoll call rp router =
      let (verdict, knoll) = intercept digest scorers call.readings none call.packet router.knoll in
      let asked = record router { knoll = knoll } in
      if verdict.is_allowed
      then deliver (lookup rp.header.destination router.handlers) call rp verdict asked
      else settle call rp blocked verdict undefined none 0 asked

module _ {S L W : Type 0} (digest : Json → String) (scorers : Scorers S L)
    (recognizes : Json → Bool) where
  unfoldable pub gated_dispatch : Dispatch → ApexRouter S L W → DispatchResult × ApexRouter S L W
  unfolding refuse_shape ask_knoll settle
  gated_dispatch call router =
      let rp = as_routing_packet call.packet in
      if is_routing_packet call.packet
      then (if is_frozen router.knoll.freeze && not (recognizes call.holloway_token)
          then settle call rp blocked (while_frozen router.knoll.freeze.state) undefined none 0
              router
          else ask_knoll digest scorers call rp router)
      else refuse_shape call router

  unfoldable pub dispatch : Dispatch → ApexRouter S L W → DispatchResult × ApexRouter S L W
  unfolding gated_dispatch emit
  dispatch call router =
      let (result, after) = gated_dispatch call router in
      (result, emit router.observer call result after)

  -- Dispatches one after the other, and their results.
  unfoldable pub dispatch_all :
      List Dispatch → ApexRouter S L W → List DispatchResult × ApexRouter S L W
  unfolding dispatch
  dispatch_all [] router = ([], router)
  dispatch_all (call ∷ calls) router =
      let (result, after) = dispatch call router in
      let (results, last) = dispatch_all calls after in (result ∷ results, last)

-- `auditTrail`
abbrev pub audit_trail : {S L W : Type 0} → ApexRouter S L W → List SecurityAuditRecord
audit_trail router = router.knoll.audit.entries
