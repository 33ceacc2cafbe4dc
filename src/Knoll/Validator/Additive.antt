-- ===== src/Knoll/Validator/Additive.antt =====
-- The learned scorer of hdv-foundation/knoll/validator.ts can only add a denial.
use mathlib.Core.Bool.{false≢true}
use hdv_orchestrator.Common.{
  String, false, Option, none, some, ◌==◌, string_eq, ◌≡◌, refl, Bool-cases, inl, inr, sym,
}
use hdv_orchestrator.Json.{Json}
use hdv_orchestrator.JsMap.{lookup}
use hdv_orchestrator.Config.Routing.{RoutingPacket, KnollValidationResponse}
use hdv_orchestrator.Config.Hash.{compute_packet_hash}
use hdv_orchestrator.Knoll.Laws.{KnollLawContext, LawVerdict, virtual_laws, first_failure}
use hdv_orchestrator.Knoll.Structure.{check_structure, as_routing_packet}
use hdv_orchestrator.Knoll.Rate.{check_bucket}
use hdv_orchestrator.Knoll.Validator.{
  Knoll, Scorers, Readings, learned_gate, behavioral_gate, behavioral_gate_with, law_gate,
  law_gate_with, rate_gate, hash_gate, intercept,
}

module _ {S L : Type 0} where
  abbrev pub without_learned : Knoll S L → Knoll S L
  without_learned k = record k { learned_scorer = none }

module _ {S L : Type 0} (digest : Json → String) (scorers : Scorers S L) (r : Readings)
    (context : KnollLawContext) where
  -- Two outcomes agree on the verdict and on the freeze controller.
  abbrev pub Agrees :
      KnollValidationResponse × Knoll S L → KnollValidationResponse × Knoll S L → Type 0
  Agrees a b = (a.0 ≡ b.0) × (a.1.freeze ≡ b.1.freeze)

  behavioral-Agrees :
      (s : Option S) (rp : RoutingPacket) (k : Knoll S L)
      → (behavioral_gate_with digest scorers s r rp (without_learned k)).0.is_allowed ≡ false
      → Agrees
          (behavioral_gate_with digest scorers s r rp k)
          (behavioral_gate_with digest scorers s r rp (without_learned k))
  unfolding behavioral_gate_with learned_gate
  behavioral-Agrees none rp k h = absurd (false≢true (sym h))
  behavioral-Agrees (some s) rp k h = elim (Bool-cases (scorers.score rp s).0.is_anomalous) [
    | inl d ↦ rw d (refl, refl)
    | inr d ↦ absurd (false≢true (sym (rw d at h)))
  ]

  laws_agree :
      (failure : Option LawVerdict) (rp : RoutingPacket) (k : Knoll S L)
      → (law_gate_with digest scorers failure r rp (without_learned k)).0.is_allowed ≡ false
      → Agrees
          (law_gate_with digest scorers failure r rp k)
          (law_gate_with digest scorers failure r rp (without_learned k))
  unfolding law_gate_with behavioral_gate
  laws_agree none rp k h = behavioral-Agrees k.scorer rp k h
  laws_agree (some verdict) rp k h = (refl, refl)

  rate-Agrees :
      (rp : RoutingPacket) (k : Knoll S L)
      → (rate_gate digest scorers r context rp (without_learned k)).0.is_allowed ≡ false
      → Agrees
          (rate_gate digest scorers r context rp k)
          (rate_gate digest scorers r context rp (without_learned k))
  unfolding rate_gate law_gate
  rate-Agrees rp k h =
      let verdict =
        check_bucket rp.header.source k.rate_limit k.rate_window_ms r.rate_at
          (lookup rp.header.source k.buckets) in
      elim (Bool-cases verdict.0.is_allowed) [
        | inl d ↦ rw d (laws_agree (first_failure virtual_laws rp context) rp _ (rw d at h))
        | inr d ↦ rw d (refl, refl)
      ]

  hash-Agrees :
      (rp : RoutingPacket) (k : Knoll S L)
      → (hash_gate digest scorers r context rp (without_learned k)).0.is_allowed ≡ false
      → Agrees
          (hash_gate digest scorers r context rp k)
          (hash_gate digest scorers r context rp (without_learned k))
  unfolding hash_gate
  hash-Agrees rp k h =
      elim (Bool-cases (compute_packet_hash digest rp.header rp.payload == rp.security.hash)) [
        | inl d ↦ rw d (rate-Agrees rp k (rw d at h))
        | inr d ↦ rw d (refl, refl)
      ]

  -- What KNOLL denies without its learned scorer it denies with it too, with the same response and
  -- the same effect on the freeze controller: the learned scorer overrules no denial.
  pub learned_overrules_no_denial :
      (packet : Json) (k : Knoll S L)
      → (intercept digest scorers r context packet (without_learned k)).0.is_allowed ≡ false
      → Agrees
          (intercept digest scorers r context packet k)
          (intercept digest scorers r context packet (without_learned k))
  unfolding intercept
  learned_overrules_no_denial packet k h = elim (Bool-cases (check_structure packet).is_allowed) [
    | inr refused ↦ rw refused (refl, refl)
    | inl adheres ↦ rw adheres (hash-Agrees (as_routing_packet packet) k (rw adheres at h))
  ]
