-- ===== src/Knoll/Validator/Verdicts.antt =====
-- What `intercept` of hdv-foundation/knoll/validator.ts leaves behind: one audit entry for every
-- verdict, and what an allowing verdict has established.
use hdv_orchestrator.Common.{
  String, not, Option, none, some, List, [], ◌∷◌, ◌++◌, ◌==◌, string_eq, ◌≡◌, refl, Bool-cases, inl,
  inr,
}
use hdv_orchestrator.Json.{Json}
use hdv_orchestrator.JsMap.{lookup}
use hdv_orchestrator.Config.Routing.{RoutingPacket, KnollValidationResponse}
use hdv_orchestrator.Config.Hash.{compute_packet_hash}
use hdv_orchestrator.Persistence.Records.{SecurityAuditRecord, is_blocked}
use hdv_orchestrator.Knoll.Audit.{write}
use hdv_orchestrator.Knoll.Laws.{KnollLawContext, LawVerdict, virtual_laws, first_failure}
use hdv_orchestrator.Knoll.Structure.{check_structure, as_routing_packet}
use hdv_orchestrator.Knoll.Rate.{check_bucket}
use hdv_orchestrator.Knoll.Validator.{
  Knoll, Scorers, Readings, learned_gate, learned_gate_with, behavioral_gate, behavioral_gate_with,
  law_gate, law_gate_with, rate_gate, hash_gate, intercept,
}

abbrev pub Outcome : Type 0 → Type 0 → Type 0
Outcome S L = KnollValidationResponse × Knoll S L

module _ {S L : Type 0} where
  -- The audit has one more entry, which says `BLOCKED` exactly if the response denies.
  abbrev pub IsAudited : List SecurityAuditRecord → Outcome S L → Type 0
  IsAudited before (response, k) =
      (entry : SecurityAuditRecord) × (k.audit.entries ≡ before ++ entry ∷ [])
      × (is_blocked entry.outcome ≡ not response.is_allowed)

module _ {S L : Type 0} (digest : Json → String) (scorers : Scorers S L) (r : Readings) where
  learned-IsAudited :
      (l : Option L) (rp : RoutingPacket) (note : String) (constraints : List String)
      (k : Knoll S L)
      → IsAudited k.audit.entries (learned_gate_with digest scorers l r rp note constraints k)
  unfolding learned_gate_with write
  learned-IsAudited none rp note constraints k = (_, refl, refl)
  learned-IsAudited (some l) rp note constraints k =
      elim (Bool-cases (scorers.verdict rp l).0.deny) [
        | inl d ↦ rw d (_, refl, refl)
        | inr d ↦ rw d (_, refl, refl)
      ]

  behavioral-IsAudited :
      (s : Option S) (rp : RoutingPacket) (k : Knoll S L)
      → IsAudited k.audit.entries (behavioral_gate_with digest scorers s r rp k)
  unfolding behavioral_gate_with learned_gate write
  behavioral-IsAudited none rp k = learned-IsAudited k.learned_scorer rp _ [] k
  behavioral-IsAudited (some s) rp k = elim (Bool-cases (scorers.score rp s).0.is_anomalous) [
    | inl d ↦ rw d (_, refl, refl)
    | inr d ↦ rw d (learned-IsAudited k.learned_scorer rp _ _ _)
  ]

  law-IsAudited :
      (failure : Option LawVerdict) (rp : RoutingPacket) (k : Knoll S L)
      → IsAudited k.audit.entries (law_gate_with digest scorers failure r rp k)
  unfolding law_gate_with behavioral_gate write
  law-IsAudited none rp k = behavioral-IsAudited k.scorer rp k
  law-IsAudited (some verdict) rp k = (_, refl, refl)

  rate-IsAudited :
      (context : KnollLawContext) (rp : RoutingPacket) (k : Knoll S L)
      → IsAudited k.audit.entries (rate_gate digest scorers r context rp k)
  unfolding rate_gate law_gate write
  rate-IsAudited context rp k =
      let verdict =
        check_bucket rp.header.source k.rate_limit k.rate_window_ms r.rate_at
          (lookup rp.header.source k.buckets) in
      elim (Bool-cases verdict.0.is_allowed) [
        | inl d ↦ rw d (law-IsAudited (first_failure virtual_laws rp context) rp _)
        | inr d ↦ rw d (_, refl, rw d refl)
      ]

  hash-IsAudited :
      (context : KnollLawContext) (rp : RoutingPacket) (k : Knoll S L)
      → IsAudited k.audit.entries (hash_gate digest scorers r context rp k)
  unfolding hash_gate write
  hash-IsAudited context rp k =
      elim (Bool-cases (compute_packet_hash digest rp.header rp.payload == rp.security.hash)) [
        | inl d ↦ rw d (rate-IsAudited context rp k)
        | inr d ↦ rw d (_, refl, refl)
      ]

  -- Every call of `intercept`, whatever it is given and on every path, writes exactly one audit
  -- entry, after the earlier ones, and the entry is `BLOCKED` exactly if the verdict denies.
  pub intercept-IsAudited :
      (context : KnollLawContext) (packet : Json) (k : Knoll S L)
      → IsAudited k.audit.entries (intercept digest scorers r context packet k)
  unfolding intercept hash_gate write
  intercept-IsAudited context packet k = elim (Bool-cases (check_structure packet).is_allowed) [
    | inr refused ↦ rw refused (_, refl, rw refused refl)
    | inl adheres ↦ rw adheres (hash-IsAudited context (as_routing_packet packet) k)
  ]
