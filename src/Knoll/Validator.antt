-- ===== src/Knoll/Validator.antt =====
-- hdv-foundation/knoll/validator.ts, `Knoll`. The scorers are the interface `Scorers`; the hash of a
-- packet, the recognizer and the readings of clocks and of `randomUUID` are arguments.
pub mod Verdicts
pub mod Additive
pub mod Isolation
pub mod Established
use hdv_orchestrator.Common.{
  ℕ, zero, suc, ◌+◌, ◌≤◌, String, Bool, true, false, ◌&&◌, Option, none, some, List, [], ◌∷◌, ◌++◌,
  ◌==◌, string_eq, if◌then◌else◌, leb, ltb, length,
}
use hdv_orchestrator.Json.{
  Json, undefined, null, boolean, number, string, array, object, prop, truthy, is_string, is_number,
  is_object_type, is_text,
}
use hdv_orchestrator.JsMap.{Entries, lookup, insert}
use hdv_orchestrator.Text.Decimal.{template, decimal}
use hdv_orchestrator.Config.Routing.{
  RoutingPacket, Header, Payload, Security, KnollValidationResponse, PacketPriority, critical,
  standard, background,
}
use hdv_orchestrator.Config.Hash.{compute_packet_hash}
use hdv_orchestrator.Persistence.Records.{allowed, blocked, AuditOutcome}
use hdv_orchestrator.Knoll.Audit.{SecurityAuditLog, Stamp, write}
use hdv_orchestrator.Knoll.Freeze.{SystemFreezeController, trigger_freeze, quarantine_packet}
use hdv_orchestrator.Knoll.Structure.{deny, check_structure, as_routing_packet, safe_packet_id}
use hdv_orchestrator.Knoll.Rate.{RateBucket, check_bucket}
use hdv_orchestrator.Knoll.Laws.{KnollLawContext, LawVerdict, virtual_laws, first_failure}

-- What a scorer's verdict shows of itself: the score in ten-thousandths, and the texts of score and
-- threshold as a template literal prints them.
pub record BehavioralScore : Type 0 where
  pub score : ℕ
  pub score_text : String
  pub threshold_text : String
  pub is_anomalous : Bool
  pub flagged : Bool

-- `verdict` of the learned scorer: `deny` and the score.
pub record LearnedVerdict : Type 0 where
  pub deny : Bool
  pub probability_text : String
  pub threshold_text : String
  pub is_anomalous : Bool
  pub flagged : Bool

pub record Scorers (S L : Type 0) : Type 0 where
  pub score : RoutingPacket → S → BehavioralScore × S
  pub verdict : RoutingPacket → L → LearnedVerdict × L

-- What the clocks and the id generator give during one call.
pub record Readings : Type 0 where
  pub rate_at : ℕ
  pub freeze_at : ℕ
  pub quarantine_at : ℕ
  pub stamp : Stamp

pub record Knoll (S L : Type 0) : Type 0 where
  pub audit : SecurityAuditLog
  pub scorer : Option S
  pub learned_scorer : Option L
  pub freeze : SystemFreezeController
  pub rate_limit : ℕ
  pub rate_window_ms : ℕ
  pub buckets : Entries String RateBucket

-- `LAW_1` to `LAW_8`
abbrev law_names : List String
law_names = "LAW_1" ∷ "LAW_2" ∷ "LAW_3" ∷ "LAW_4" ∷ "LAW_5" ∷ "LAW_6" ∷ "LAW_7" ∷ "LAW_8" ∷ []

module _ {S L : Type 0} where
  unfoldable pub check_rate : String → ℕ → Knoll S L → KnollValidationResponse × Knoll S L
  unfolding check_bucket
  check_rate source t k =
      let (response, bucket) =
        check_bucket source k.rate_limit k.rate_window_ms t (lookup source k.buckets) in
      (response, record k { buckets = insert source bucket k.buckets })

  -- `this.audit.record(id, outcome, reasoning)`, and the response.
  unfoldable pub conclude :
      Readings
      → String
      → AuditOutcome
      → Option String
      → KnollValidationResponse
      → Knoll S L
      → KnollValidationResponse × Knoll S L
  conclude r packet_id outcome reasoning response k =
      (response, record k { audit = write r.stamp packet_id outcome reasoning k.audit })

  refuse :
      Readings
      → RoutingPacket
      → String
      → List String
      → Knoll S L
      → KnollValidationResponse × Knoll S L
  unfolding conclude
  refuse r rp reasoning constraints k =
      conclude r rp.header.packet_id blocked (some reasoning) (deny reasoning constraints) k

  -- The end of `intercept`, with the note and the constraints gathered so far.
  unfoldable pub approve :
      Readings
      → RoutingPacket
      → String
      → List String
      → Knoll S L
      → KnollValidationResponse × Knoll S L
  unfolding conclude
  approve r rp note constraints k =
      conclude r rp.header.packet_id allowed (some note)
        (record {
          is_allowed = true;
          reasoning = some note;
          enforced_constraints = law_names ++ constraints;
        })
        k

abbrev pub behavioral_reason : BehavioralScore → String
behavioral_reason b =
    template ("behavioral anomaly score " ∷ b.score_text ∷ " >= " ∷ b.threshold_text ∷ [])

abbrev satisfied : String
satisfied = "all virtual laws satisfied"

abbrev behavioral_note : BehavioralScore → String
behavioral_note b =
    if b.flagged
    then template (satisfied ∷ "; flagged (anomaly " ∷ b.score_text ∷ ")" ∷ [])
    else satisfied

abbrev learned_reason : LearnedVerdict → String
learned_reason v = template (
    "learned behavioral anomaly " ∷ v.probability_text ∷ " >= " ∷ v.threshold_text ∷ " (enforce)"
    ∷ [])

abbrev learned_note : String → LearnedVerdict → String
learned_note note v =
    if v.is_anomalous
    then template (note ∷ " [learned shadow anomaly " ∷ v.probability_text ∷ "]" ∷ [])
    else if v.flagged
    then template (note ∷ " [learned flagged " ∷ v.probability_text ∷ "]" ∷ [])
    else note

-- An anomaly: the freeze is tripped and the packet quarantined.
unfoldable pub isolate :
    Readings → RoutingPacket → BehavioralScore → SystemFreezeController → SystemFreezeController
isolate r rp b freeze =
    quarantine_packet rp (some (behavioral_reason b)) (some b.score) r.quarantine_at
      (trigger_freeze (behavioral_reason b) b.score (some rp.header.packet_id) r.freeze_at freeze)

module _ {S L : Type 0} (digest : Json → String) (scorers : Scorers S L) where
  -- `if (this.learnedScorer) { … }`, and the approval after it.
  learned_gate_with :
      Option L
      → Readings
      → RoutingPacket
      → String
      → List String
      → Knoll S L
      → KnollValidationResponse × Knoll S L
  unfolding refuse approve
  learned_gate_with none r rp note constraints k = approve r rp note constraints k
  learned_gate_with (some l) r rp note constraints k =
      let (v, l') = scorers.verdict rp l in
      let k' = record k { learned_scorer = some l' } in
      if v.deny
      then refuse r rp (learned_reason v) ("LEARNED_BEHAVIORAL_SCORE" ∷ []) k'
      else approve r rp (learned_note note v) (constraints ++ "LEARNED_BEHAVIORAL_SCORE" ∷ []) k'

  unfoldable pub learned_gate :
      Readings
      → RoutingPacket
      → String
      → List String
      → Knoll S L
      → KnollValidationResponse × Knoll S L
  unfolding learned_gate_with
  learned_gate r rp note constraints k = learned_gate_with k.learned_scorer r rp note constraints k

  -- `if (this.scorer) { … }`, and what follows it.
  behavioral_gate_with :
      Option S → Readings → RoutingPacket → Knoll S L → KnollValidationResponse × Knoll S L
  unfolding refuse learned_gate isolate
  behavioral_gate_with none r rp k = learned_gate r rp satisfied [] k
  behavioral_gate_with (some s) r rp k =
      let (b, s') = scorers.score rp s in
      let k' = record k { scorer = some s' } in
      if b.is_anomalous
      then refuse r rp (behavioral_reason b) ("BEHAVIORAL_SCORE" ∷ [])
          (record k' { freeze = isolate r rp b k'.freeze })
      else learned_gate r rp (behavioral_note b) ("BEHAVIORAL_SCORE" ∷ []) k'

  unfoldable pub behavioral_gate :
      Readings → RoutingPacket → Knoll S L → KnollValidationResponse × Knoll S L
  unfolding behavioral_gate_with
  behavioral_gate r rp k = behavioral_gate_with k.scorer r rp k

  -- The loop over the laws, and what follows it.
  law_gate_with :
      Option LawVerdict → Readings → RoutingPacket → Knoll S L → KnollValidationResponse × Knoll S L
  unfolding conclude behavioral_gate
  law_gate_with none r rp k = behavioral_gate r rp k
  law_gate_with (some verdict) r rp k =
      conclude r rp.header.packet_id blocked verdict.reasoning
        (record {
          is_allowed = false;
          reasoning = verdict.reasoning;
          enforced_constraints = verdict.law ∷ [];
        })
        k

  unfoldable pub law_gate :
      Readings → KnollLawContext → RoutingPacket → Knoll S L → KnollValidationResponse × Knoll S L
  unfolding law_gate_with
  law_gate r context rp k = law_gate_with (first_failure virtual_laws rp context) r rp k

  unfoldable pub rate_gate :
      Readings → KnollLawContext → RoutingPacket → Knoll S L → KnollValidationResponse × Knoll S L
  unfolding check_rate conclude law_gate
  rate_gate r context rp k =
      let (rate, k') = check_rate rp.header.source r.rate_at k in
      if rate.is_allowed
      then law_gate r context rp k'
      else conclude r rp.header.packet_id blocked rate.reasoning rate k'

  unfoldable pub hash_gate :
      Readings → KnollLawContext → RoutingPacket → Knoll S L → KnollValidationResponse × Knoll S L
  unfolding rate_gate refuse
  hash_gate r context rp k =
      if compute_packet_hash digest rp.header rp.payload == rp.security.hash
      then rate_gate r context rp k
      else refuse r rp "SHA-256 hash mismatch — packet tampered or malformed"
          ("HASH_INTEGRITY" ∷ []) k

  unfoldable pub intercept :
      Readings → KnollLawContext → Json → Knoll S L → KnollValidationResponse × Knoll S L
  unfolding check_structure conclude hash_gate
  intercept r context packet k =
      let structural = check_structure packet in
      if structural.is_allowed
      then hash_gate r context (as_routing_packet packet) k
      else conclude r (safe_packet_id packet) blocked structural.reasoning structural k
