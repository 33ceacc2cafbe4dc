-- ===== src/Tests/Gate.antt =====
-- KNOLL's gate on concrete packets.
use hdv_orchestrator.Common.{String, true, none, some, [], ◌∷◌, ◌≡◌, ◌≢◌, refl, arith}
use text.Mathlib.TextEquality.{eq_iff}
use hdv_orchestrator.Json.{null, string, object, end, field}
use hdv_orchestrator.Json.Sorting.{in_object, swap}
use hdv_orchestrator.Config.Routing.{AgentRole, role_name, Header}
use hdv_orchestrator.Config.Hash.{compute_packet_hash, compute_packet_hash-Reorders}
use hdv_orchestrator.Knoll.Laws.Edges.{is_legal_edge, legal_edge}
use hdv_orchestrator.Knoll.Rate.Bound.{passed, passed_of_window}
use hdv_orchestrator.Knoll.Structure.{as_routing_packet}
use hdv_orchestrator.Knoll.Freeze.{
  SystemFreezeController, default_is_holloway_token, run, trigger, present, is_frozen,
}
use hdv_orchestrator.Knoll.Freeze.Safety.{frozen_stays}
use hdv_orchestrator.Knoll.Validator.{intercept}
use hdv_orchestrator.Knoll.Validator.Verdicts.{IsAudited, intercept-IsAudited}
use hdv_orchestrator.Knoll.Validator.Established.{IsCleared, intercept-IsCleared}
use hdv_orchestrator.Knoll.Validator.Isolation.{
  IsAnomaly, FreezesOnlyAnomalies, intercept-FreezesOnlyAnomalies,
}
use hdv_orchestrator.Knoll.Validator.Additive.{Agrees, without_learned, learned_overrules_no_denial}
use hdv_orchestrator.Tests.Packets.{
  running_gate, digest, scorers, readings, knoll, query, odd, forged, novel,
}

verdicts :
    ((intercept digest scorers readings none query knoll).0.is_allowed ≡ true)
    × ((intercept digest scorers readings none odd knoll).0.enforced_constraints
        ≡ "BEHAVIORAL_SCORE" ∷ [])
    × ((intercept digest scorers readings none forged knoll).0.enforced_constraints
        ≡ "NO_KNOLL_FORGERY" ∷ [])
    × ((intercept digest scorers readings none novel knoll).0.enforced_constraints
        ≡ "LEARNED_BEHAVIORAL_SCORE" ∷ [])
    × ((intercept digest scorers readings (some "t2") query knoll).0.enforced_constraints
        ≡ "NO_CROSS_TENANT" ∷ [])
    × ((intercept digest scorers readings none null knoll).0.enforced_constraints
        ≡ "STRUCTURE" ∷ [])
unfolding running_gate
verdicts = (refl, refl, refl, refl, refl, refl)

intercept-IsCleared_example : IsCleared digest scorers readings none query knoll
unfolding running_gate
intercept-IsCleared_example = intercept-IsCleared digest scorers readings none query knoll refl

intercept-IsAudited_example : IsAudited [] (intercept digest scorers readings none odd knoll)
intercept-IsAudited_example = intercept-IsAudited digest scorers readings none odd knoll

intercept-FreezesOnlyAnomalies_example :
    FreezesOnlyAnomalies digest scorers readings none
      (IsAnomaly digest scorers readings none odd knoll)
      (as_routing_packet odd)
      knoll.freeze
      (intercept digest scorers readings none odd knoll)
intercept-FreezesOnlyAnomalies_example =
    intercept-FreezesOnlyAnomalies digest scorers readings none odd knoll

learned_overrules_no_denial_example :
    Agrees digest scorers readings none
      (intercept digest scorers readings none odd knoll)
      (intercept digest scorers readings none odd (without_learned knoll))
unfolding running_gate
learned_overrules_no_denial_example =
    learned_overrules_no_denial digest scorers readings none odd knoll refl

legal_edge_example :
    (s d : AgentRole) × ((as_routing_packet query).header.source ≡ role_name s)
    × ((as_routing_packet query).header.destination ≡ role_name d)
    × (is_legal_edge s d ≡ true)
unfolding running_gate
legal_edge_example = legal_edge (as_routing_packet query) none refl

not_empty : ◌≢◌ {A = String} "t1" ""
not_empty = ground (arith, eq_iff "t1" "")

passed_of_window_example : passed "DREAM" 2 1000 (5 ∷ 6 ∷ 7 ∷ 8 ∷ []) none ≡ 2
passed_of_window_example = passed_of_window "DREAM" 2 1000 5 (6 ∷ 7 ∷ 8 ∷ []) (omega arith)

abbrev a_header : Header
a_header = (as_routing_packet query).header

a_not_b : ◌≢◌ {A = String} "a" "b"
a_not_b = ground (arith, eq_iff "a" "b")

compute_packet_hash-Reorders_example :
    compute_packet_hash digest a_header
      (record { intent = "x"; content = object (field "a" null (field "b" null end)) })
    ≡ compute_packet_hash digest a_header
        (record { intent = "x"; content = object (field "b" null (field "a" null end)) })
compute_packet_hash-Reorders_example =
    compute_packet_hash-Reorders digest a_header "x" (object (field "a" null (field "b" null end)))
      (object (field "b" null (field "a" null end)))
      (in_object (swap "a" "b" null null end a_not_b))

abbrev frozen : SystemFreezeController
frozen = record {
  state = record {
    frozen = true;
    reason = some "anomaly";
    score = some 4000;
    packet_id = some "pkt_1";
    frozen_at = some 8;
  };
  quarantine = [];
}

frozen_stays_example :
    (run default_is_holloway_token
      (trigger "later" 9000 none 9 ∷ present (string "holloway_short") ∷ [])
      frozen).state
    ≡ frozen.state
unfolding is_frozen default_is_holloway_token
frozen_stays_example =
    frozen_stays default_is_holloway_token
      (trigger "later" 9000 none 9 ∷ present (string "holloway_short") ∷ []) frozen refl
      (tt, (refl, tt))
