-- ===== src/Knoll/Validator/Isolation.antt =====
-- When `intercept` of hdv-foundation/knoll/validator.ts freezes the system.
use text.Mathlib.TextEquality.{eq_iff}
use hdv_orchestrator.Common.{
  String, true, false, Option, none, some, List, [], ◌∷◌, ◌++◌, ◌==◌, string_eq, ◌≡◌, refl, ◌∙◌,
  sym, Bool-cases, inl, inr, ◌⊎◌,
}
use mathlib.Core.Bool.{false≢true}
use hdv_orchestrator.Json.{Json}
use hdv_orchestrator.JsMap.{lookup}
use hdv_orchestrator.Knoll.Rate.{check_bucket}
use hdv_orchestrator.Config.Routing.{RoutingPacket, KnollValidationResponse}
use hdv_orchestrator.Config.Hash.{compute_packet_hash}
use hdv_orchestrator.Knoll.Freeze.{
  SystemFreezeController, QuarantineRecord, is_frozen, trigger_freeze, quarantine_packet,
}
use hdv_orchestrator.Knoll.Laws.{KnollLawContext, LawVerdict, virtual_laws, first_failure}
use hdv_orchestrator.Knoll.Structure.{check_structure, as_routing_packet}
use hdv_orchestrator.Knoll.Validator.{
  Knoll, Scorers, Readings, check_rate, learned_gate, learned_gate_with, behavioral_gate,
  behavioral_gate_with, BehavioralScore, behavioral_reason, law_gate, law_gate_with, rate_gate,
  hash_gate, intercept, isolate,
}

-- The record that quarantine keeps of an anomalous packet.
abbrev held_record : Readings → RoutingPacket → BehavioralScore → QuarantineRecord
held_record r rp b = record {
  packet_id = rp.header.packet_id;
  packet = rp;
  reason = behavioral_reason b;
  score = some b.score;
  quarantined_at = r.quarantine_at;
}

isolate_effect :
    (r : Readings) (rp : RoutingPacket) (b : BehavioralScore) (c : SystemFreezeController)
    → (is_frozen (isolate r rp b c) ≡ true)
      × ((isolate r rp b c).quarantine ≡ c.quarantine ++ held_record r rp b ∷ [])
unfolding isolate is_frozen quarantine_packet trigger_freeze
isolate_effect r rp b c = elim (Bool-cases c.state.frozen) [
  | inl h ↦ (rw (h, trigger_freeze) refl, rw (h, trigger_freeze) refl)
  | inr h ↦ (rw (h, trigger_freeze) refl, rw (h, trigger_freeze) refl)
]

module _ {S L : Type 0} (digest : Json → String) (scorers : Scorers S L) (r : Readings)
    (context : KnollLawContext) where
  -- The behavioral scorer is there and calls the packet anomalous.
  abbrev pub IsFlagged : RoutingPacket → Option S → Type 0
  IsFlagged rp none = ⊥
  IsFlagged rp (some s) = (scorers.score rp s).0.is_anomalous ≡ true

  abbrev IsWithinRate : RoutingPacket → Knoll S L → Type 0
  IsWithinRate rp k =
      (check_bucket rp.header.source k.rate_limit k.rate_window_ms r.rate_at
        (lookup rp.header.source k.buckets)).0.is_allowed
      ≡ true

  -- The packet passes the tests of structure, hash, rate and laws, and is anomalous to the scorer.
  abbrev pub IsAnomaly : Json → Knoll S L → Type 0
  IsAnomaly packet k =
      ((check_structure packet).is_allowed ≡ true)
      × ((compute_packet_hash digest (as_routing_packet packet).header
              (as_routing_packet packet).payload
            ≡ (as_routing_packet packet).security.hash)
          × (IsWithinRate (as_routing_packet packet) k
              × ((first_failure virtual_laws (as_routing_packet packet) context ≡ none)
                  × IsFlagged (as_routing_packet packet) k.scorer)))

  -- There is no anomaly and the controller is as it was, or there is one, the packet has been denied
  -- for it, the system is frozen and the packet is the last one in quarantine.
  abbrev pub FreezesOnlyAnomalies :
      Type 0 → RoutingPacket → SystemFreezeController → KnollValidationResponse × Knoll S L → Type 0
  FreezesOnlyAnomalies Anomaly rp before outcome =
      ((¬ Anomaly) × (outcome.1.freeze ≡ before))
      ⊎ (Anomaly
          × (outcome.0.is_allowed ≡ false)
          × (outcome.0.enforced_constraints ≡ "BEHAVIORAL_SCORE" ∷ [])
          × (is_frozen outcome.1.freeze ≡ true)
          × ((held : QuarantineRecord) × (outcome.1.freeze.quarantine
                ≡ before.quarantine ++ held ∷ [])
              × (held.packet ≡ rp)))

  -- A test before the others is passed: there is an anomaly exactly if there is one for the others.
  further :
      {Test Rest : Type 0} (rp : RoutingPacket) (before : SystemFreezeController)
      (outcome : KnollValidationResponse × Knoll S L)
      → Test
      → FreezesOnlyAnomalies Rest rp before outcome
      → FreezesOnlyAnomalies (Test × Rest) rp before outcome
  further rp before outcome passed (inl (quiet, same)) = inl (λ a. quiet a.1, same)
  further rp before outcome passed (inr (a, denied, why, frozen, held)) =
      inr ((passed, a), denied, why, frozen, held)

  learned_keeps :
      (l : Option L) (rp : RoutingPacket) (note : String) (constraints : List String)
      (k : Knoll S L)
      → (learned_gate_with digest scorers l r rp note constraints k).1.freeze ≡ k.freeze
  unfolding learned_gate_with
  learned_keeps none rp note constraints k = refl
  learned_keeps (some l) rp note constraints k = elim (Bool-cases (scorers.verdict rp l).0.deny) [
    | inl d ↦ rw d refl
    | inr d ↦ rw d refl
  ]

  behavioral_isolates :
      (s : Option S) (rp : RoutingPacket) (k : Knoll S L)
      → FreezesOnlyAnomalies
          (IsFlagged rp s)
          rp
          k.freeze
          (behavioral_gate_with digest scorers s r rp k)
  unfolding behavioral_gate_with learned_gate
  behavioral_isolates none rp k = inl (λ a. a, learned_keeps k.learned_scorer rp _ [] k)
  behavioral_isolates (some s) rp k = elim (Bool-cases (scorers.score rp s).0.is_anomalous) [
    | inl d ↦
        let effect = isolate_effect r rp (scorers.score rp s).0 k.freeze in
        rw d (
          inr
            (refl, refl, refl, effect.0, (held_record r rp (scorers.score rp s).0, effect.1, refl)))
    | inr d ↦ rw d (inl (λ a. false≢true a, learned_keeps k.learned_scorer rp _ _ _))
  ]

  none_not : {verdict : LawVerdict} → ¬ (some verdict ≡ none)
  none_not h = cc

  laws_isolate :
      (failure : Option LawVerdict) (rp : RoutingPacket) (k : Knoll S L)
      → FreezesOnlyAnomalies
          ((failure ≡ none) × IsFlagged rp k.scorer)
          rp
          k.freeze
          (law_gate_with digest scorers failure r rp k)
  unfolding law_gate_with behavioral_gate
  laws_isolate none rp k =
      further rp k.freeze (behavioral_gate_with digest scorers k.scorer r rp k) refl
        (behavioral_isolates k.scorer rp k)
  laws_isolate (some verdict) rp k = inl (λ a. none_not a.0, refl)

  rate_isolates :
      (rp : RoutingPacket) (k : Knoll S L)
      → FreezesOnlyAnomalies
          (IsWithinRate rp k
            × ((first_failure virtual_laws rp context ≡ none) × IsFlagged rp k.scorer))
          rp
          k.freeze
          (rate_gate digest scorers r context rp k)
  unfolding rate_gate law_gate
  rate_isolates rp k = elim (Bool-cases (check_rate rp.header.source r.rate_at k).0.is_allowed) [
    | inl d ↦ rw d (
        further rp k.freeze
          (law_gate digest scorers r context rp (check_rate rp.header.source r.rate_at k).1) refl
          (laws_isolate (first_failure virtual_laws rp context) rp _))
    | inr d ↦ rw d (inl (λ a. false≢true a.0, refl))
  ]

  hash_isolates :
      (rp : RoutingPacket) (k : Knoll S L)
      → FreezesOnlyAnomalies
          ((compute_packet_hash digest rp.header rp.payload ≡ rp.security.hash)
            × (IsWithinRate rp k
                × ((first_failure virtual_laws rp context ≡ none) × IsFlagged rp k.scorer)))
          rp
          k.freeze
          (hash_gate digest scorers r context rp k)
  unfolding hash_gate
  hash_isolates rp k =
      elim (Bool-cases (compute_packet_hash digest rp.header rp.payload == rp.security.hash)) [
        | inl d ↦ rw d (
            further rp k.freeze (rate_gate digest scorers r context rp k) ((eq_iff _ _).0 d)
              (rate_isolates rp k))
        | inr d ↦ rw d (inl (λ a. false≢true (sym d ∙ (eq_iff _ _).1 a.0), refl))
      ]

  -- A call of `intercept` leaves the freeze controller as it was, unless the packet passes the tests
  -- of structure, hash, rate and laws and the behavioral scorer calls it anomalous: then, and only
  -- then, it is denied for that, the system is frozen afterwards, and that packet is quarantined
  -- behind the earlier ones.
  pub intercept-FreezesOnlyAnomalies :
      (packet : Json) (k : Knoll S L)
      → FreezesOnlyAnomalies
          (IsAnomaly packet k)
          (as_routing_packet packet)
          k.freeze
          (intercept digest scorers r context packet k)
  unfolding intercept hash_gate
  intercept-FreezesOnlyAnomalies packet k = elim (Bool-cases (check_structure packet).is_allowed) [
    | inr refused ↦ rw refused (inl (λ a. false≢true a.0, refl))
    | inl adheres ↦ rw adheres (
        further (as_routing_packet packet) k.freeze
          (hash_gate digest scorers r context (as_routing_packet packet) k) refl
          (hash_isolates (as_routing_packet packet) k))
  ]
