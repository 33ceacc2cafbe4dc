-- ===== src/Knoll/Validator/Established.antt =====
-- What has been established when `intercept` of hdv-foundation/knoll/validator.ts allows a packet.
use text.Mathlib.TextEquality.{eq_iff}
use mathlib.Core.Bool.{false≢true}
use hdv_orchestrator.Common.{
  String, true, false, Option, none, some, List, ◌==◌, string_eq, ◌≡◌, refl, Bool-cases, inl, inr,
  ◌∙◌, sym,
}
use hdv_orchestrator.Json.{Json}
use hdv_orchestrator.JsMap.{lookup}
use hdv_orchestrator.Config.Routing.{RoutingPacket}
use hdv_orchestrator.Config.Hash.{compute_packet_hash}
use hdv_orchestrator.Knoll.Laws.{KnollLawContext, LawVerdict, virtual_laws, first_failure}
use hdv_orchestrator.Knoll.Structure.{check_structure, as_routing_packet}
use hdv_orchestrator.Knoll.Rate.{check_bucket}
use hdv_orchestrator.Knoll.Validator.{
  Knoll, Scorers, Readings, learned_gate, learned_gate_with, behavioral_gate, behavioral_gate_with,
  law_gate, law_gate_with, rate_gate, hash_gate, intercept,
}

module _ {S L : Type 0} (digest : Json → String) (scorers : Scorers S L) (r : Readings)
    (context : KnollLawContext) where
  -- The behavioral scorer, where there is one, does not call the packet anomalous.
  abbrev pub IsNormal : RoutingPacket → Option S → Type 0
  IsNormal rp none = Unit
  IsNormal rp (some s) = (scorers.score rp s).0.is_anomalous ≡ false

  -- The learned scorer, where there is one, does not deny the packet.
  abbrev pub IsUndenied : RoutingPacket → Option L → Type 0
  IsUndenied rp none = Unit
  IsUndenied rp (some l) = (scorers.verdict rp l).0.deny ≡ false

  -- The tests that the packet has passed: all those of `intercept`.
  pub record IsCleared (packet : Json) (k : Knoll S L) : Type 0 where
    pub structure : (check_structure packet).is_allowed ≡ true
    pub hash :
        compute_packet_hash digest
          (as_routing_packet packet).header
          (as_routing_packet packet).payload
        ≡ (as_routing_packet packet).security.hash
    pub rate :
        (check_bucket
          (as_routing_packet packet).header.source
          k.rate_limit
          k.rate_window_ms
          r.rate_at
          (lookup (as_routing_packet packet).header.source k.buckets)).0.is_allowed
        ≡ true
    pub laws : first_failure virtual_laws (as_routing_packet packet) context ≡ none
    pub behavioral : IsNormal (as_routing_packet packet) k.scorer
    pub learned : IsUndenied (as_routing_packet packet) k.learned_scorer

  learned_cleared :
      (l : Option L) (rp : RoutingPacket) (note : String) (constraints : List String)
      (k : Knoll S L)
      → (learned_gate_with digest scorers l r rp note constraints k).0.is_allowed ≡ true
      → IsUndenied rp l
  unfolding learned_gate_with
  learned_cleared none rp note constraints k h = tt
  learned_cleared (some l) rp note constraints k h =
      elim (Bool-cases (scorers.verdict rp l).0.deny) [
        | inl d ↦ absurd (false≢true (rw d at h))
        | inr d ↦ d
      ]

  behavioral_cleared :
      (s : Option S) (rp : RoutingPacket) (k : Knoll S L)
      → (behavioral_gate_with digest scorers s r rp k).0.is_allowed ≡ true
      → IsNormal rp s × IsUndenied rp k.learned_scorer
  unfolding behavioral_gate_with learned_gate
  behavioral_cleared none rp k h = (tt, learned_cleared k.learned_scorer rp _ _ k h)
  behavioral_cleared (some s) rp k h = elim (Bool-cases (scorers.score rp s).0.is_anomalous) [
    | inl d ↦ absurd (false≢true (rw d at h))
    | inr d ↦ (d, learned_cleared k.learned_scorer rp _ _ _ (rw d at h))
  ]

  laws_cleared :
      (failure : Option LawVerdict) (rp : RoutingPacket) (k : Knoll S L)
      → (law_gate_with digest scorers failure r rp k).0.is_allowed ≡ true
      → (failure ≡ none) × IsNormal rp k.scorer × IsUndenied rp k.learned_scorer
  unfolding law_gate_with behavioral_gate
  laws_cleared none rp k h =
      let (normal, undenied) = behavioral_cleared k.scorer rp k h in (refl, normal, undenied)
  laws_cleared (some verdict) rp k h = cc

  rate_cleared :
      (rp : RoutingPacket) (k : Knoll S L)
      → (rate_gate digest scorers r context rp k).0.is_allowed ≡ true
      → ((check_bucket rp.header.source k.rate_limit k.rate_window_ms r.rate_at
            (lookup rp.header.source k.buckets)).0.is_allowed
          ≡ true)
        × ((first_failure virtual_laws rp context ≡ none)
            × IsNormal rp k.scorer
            × IsUndenied rp k.learned_scorer)
  unfolding rate_gate law_gate
  rate_cleared rp k h =
      let verdict =
        check_bucket rp.header.source k.rate_limit k.rate_window_ms r.rate_at
          (lookup rp.header.source k.buckets) in
      elim (Bool-cases verdict.0.is_allowed) [
        | inl d ↦ (d, laws_cleared (first_failure virtual_laws rp context) rp _ (rw d at h))
        | inr d ↦ cc (rw d at h)
      ]

  hash_cleared :
      (rp : RoutingPacket) (k : Knoll S L)
      → (hash_gate digest scorers r context rp k).0.is_allowed ≡ true
      → (compute_packet_hash digest rp.header rp.payload ≡ rp.security.hash)
        × ((rate_gate digest scorers r context rp k).0.is_allowed ≡ true)
  unfolding hash_gate
  hash_cleared rp k h =
      elim (Bool-cases (compute_packet_hash digest rp.header rp.payload == rp.security.hash)) [
        | inl d ↦ ((eq_iff _ _).0 d, rw d at h)
        | inr d ↦ absurd (false≢true (rw d at h))
      ]

  -- A packet that KNOLL allows is shaped like a packet, hashes to the hash that it carries, is within
  -- its source's rate limit, is failed by none of the eight virtual laws, is not anomalous to the
  -- behavioral scorer and is not denied by the learned one, where there are such scorers.
  pub intercept-IsCleared :
      (packet : Json) (k : Knoll S L)
      → (intercept digest scorers r context packet k).0.is_allowed ≡ true
      → IsCleared packet k
  unfolding intercept hash_gate
  intercept-IsCleared packet k h = elim (Bool-cases (check_structure packet).is_allowed) [
    | inr refused ↦ absurd (false≢true (sym refused ∙ rw (refused, intercept) at h))
    | inl adheres ↦
        let (hash, rest) = hash_cleared (as_routing_packet packet) k (rw adheres at h) in
        let (rate, laws) = rate_cleared (as_routing_packet packet) k rest in
        record {
          structure = adheres;
          hash = hash;
          rate = rate;
          laws = laws.0;
          behavioral = laws.1;
          learned = laws.2;
        }
  ]
