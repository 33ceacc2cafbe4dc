-- ===== src/Tests/Packets.antt =====
-- The packets, the scorer and the readings of clocks that the tests share.
use hdv_orchestrator.Common.{String, false, some, [], ◌==◌, string_eq, if◌then◌else◌}
use hdv_orchestrator.Json.{Json, undefined, number, string, object, end, field}
use hdv_orchestrator.Config.Hash.{canonicalize, compute_packet_hash, is_well_formed_knoll_token}
use hdv_orchestrator.Config.Duty.{
  primary_triad_role, forbidden, role_duty, as_duty_class, duty_for_intent_kind,
}
use hdv_orchestrator.Json.Sorting.{sort_value}
use hdv_orchestrator.Knoll.Audit.{write}
use hdv_orchestrator.Knoll.Freeze.{running, trigger_freeze, quarantine_packet}
use hdv_orchestrator.Knoll.Laws.{
  first_failure, law_token_well_formed, law_valid_endpoints, law_no_direct_dream_vision,
  law_no_knoll_forgery, law_hope_cannot_command, law_no_malicious_intent, law_no_cross_tenant,
  law_primary_triad_duty, requested_duty, collect_strings,
}
use hdv_orchestrator.Knoll.Laws.Patterns.{first_pattern}
use hdv_orchestrator.Knoll.Structure.{check_structure, as_routing_packet, safe_packet_id}
use hdv_orchestrator.Knoll.Rate.{check_bucket}
use hdv_orchestrator.Knoll.Validator.{Knoll, Scorers, Readings, intercept, isolate}

-- What a run of `intercept` computes with.
unfoldable pub running_laws : Unit {0}
unfolding first_failure law_token_well_formed law_valid_endpoints law_no_direct_dream_vision
    law_no_knoll_forgery law_hope_cannot_command law_no_malicious_intent law_no_cross_tenant
    law_primary_triad_duty requested_duty collect_strings first_pattern primary_triad_role forbidden
    role_duty as_duty_class duty_for_intent_kind is_well_formed_knoll_token
running_laws = tt

unfoldable pub running_gate : Unit {0}
unfolding running_laws intercept check_structure as_routing_packet safe_packet_id check_bucket
    compute_packet_hash canonicalize sort_value isolate trigger_freeze quarantine_packet write
running_gate = tt

abbrev pub envelope : String → String → String → Json → Json → Json
envelope source destination intent content tenant = object (
    field "header"
      (object (
        field "packetId" (string "pkt_1") (
          field "timestamp" (number 5) (
            field "source" (string source) (
              field "destination" (string destination)
                (field "priority" (string "STANDARD") (field "tenantId" tenant end)))))))
      (field "payload" (object (field "intent" (string intent) (field "data" content end))) (
        field "security"
          (object (
            field "knoll_token" (string "knoll_0123456789abcdef0123456789abcdef")
              (field "hash" (string "digest") end)))
          end)))

abbrev pub digest : Json → String
digest v = "digest"

-- A scorer that takes the intent "odd" for an anomaly, and a learned one that denies "novel".
abbrev pub scorers : Scorers (Unit {0}) (Unit {0})
scorers = record {
  score = λ p s. (
    record {
      score = if p.payload.intent == "odd" then 4000 else 100;
      score_text = if p.payload.intent == "odd" then "0.4" else "0.01";
      threshold_text = "0.34";
      is_anomalous = p.payload.intent == "odd";
      flagged = false;
    },
    s,
  );
  verdict = λ p l. (
    record {
      deny = p.payload.intent == "novel";
      probability_text = "0.9";
      threshold_text = "0.5";
      is_anomalous = p.payload.intent == "novel";
      flagged = false;
    },
    l,
  );
}

abbrev pub readings : Readings
readings = record {
  rate_at = 7;
  freeze_at = 8;
  quarantine_at = 9;
  stamp = record { id = "a1"; at = 10 };
}

abbrev pub knoll : Knoll (Unit {0}) (Unit {0})
knoll = record {
  audit = record { entries = []; repository = some [] };
  scorer = some tt;
  learned_scorer = some tt;
  freeze = record { state = running; quarantine = [] };
  rate_limit = 100;
  rate_window_ms = 1000;
  buckets = [];
}

abbrev pub query : Json
query =
    envelope "APEX" "HOPE" "status" (object (field "duty" (string "GOVERNANCE") end)) (string "t1")

abbrev pub odd : Json
odd = envelope "APEX" "HOPE" "odd" (object end) undefined

abbrev pub forged : Json
forged = envelope "KNOLL" "HOPE" "status" (object end) undefined

abbrev pub novel : Json
novel = envelope "APEX" "HOPE" "novel" (object end) undefined
