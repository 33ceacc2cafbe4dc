-- ===== src/Tests/Dispatches.antt =====
-- Dispatches through APEX on concrete packets.
use hdv_orchestrator.Common.{ℕ, ◌+◌, true, none, some, [], ◌∷◌, ◌≡◌, refl, All}
use hdv_orchestrator.Json.{Json, null, undefined, string}
use hdv_orchestrator.Config.Routing.{blocked, success}
use hdv_orchestrator.Config.Hash.{is_well_formed_knoll_token}
use hdv_orchestrator.Knoll.Freeze.{default_is_holloway_token, is_frozen}
use hdv_orchestrator.Knoll.Structure.{check_structure}
use hdv_orchestrator.Apex.Packet.{
  CreatePacketInput, Minting, create_packet, mint, is_routing_packet,
}
use hdv_orchestrator.Apex.Packet.Routable.{
  IsMinted, create_packet-IsMinted, is_routing_packet-check_structure,
}
use hdv_orchestrator.Apex.Ledger.{entry_of, round2, log_request, LogRequestInput}
use hdv_orchestrator.Apex.Router.{
  ApexRouter, Dispatch, returned, gated_dispatch, dispatch_all, deliver, settle, settle_outcome,
  ask_knoll,
}
use hdv_orchestrator.Apex.Router.Gate.{IsGated, gated_dispatch-IsGated}
use hdv_orchestrator.Apex.Router.Frozen.{frozen_blocks}
use hdv_orchestrator.Tests.Packets.{running_gate, digest, scorers, readings, knoll, query, odd}

-- HOPE answers and counts its calls.
abbrev router : ApexRouter (Unit {0}) (Unit {0}) ℕ
router = record {
  knoll = knoll;
  ledger = record { rows = []; seq = 0; repository = some [] };
  handlers = ("HOPE", λ packet calls. (returned null, calls + 1)) ∷ [];
  default_cost_usd = 10000500;
  observer = none;
  world = 0;
}

abbrev call : Json → Dispatch
call packet = record {
  packet = packet;
  cost_usd = none;
  holloway_token = undefined;
  readings = readings;
  ledger_at = 11;
  duration_ms = 1;
}

abbrev frozen_router : ApexRouter (Unit {0}) (Unit {0}) ℕ
frozen_router = record router {
  knoll = record knoll {
    freeze = record {
      state = record {
        frozen = true;
        reason = some "anomaly";
        score = some 4000;
        packet_id = some "pkt_1";
        frozen_at = some 8;
      };
      quarantine = [];
    };
  };
}

-- The query is delivered and billed; the odd packet freezes the system, which then refuses.
runs :
    ((gated_dispatch digest scorers default_is_holloway_token (call query) router).0.status
      ≡ success)
    × ((gated_dispatch digest scorers default_is_holloway_token (call query) router).1.world ≡ 1)
    × ((gated_dispatch digest scorers default_is_holloway_token (call query) router).0.cost_usd
        ≡ 10000500)
    × ((gated_dispatch digest scorers default_is_holloway_token (call odd) router).0.status
        ≡ blocked)
    × ((gated_dispatch digest scorers default_is_holloway_token
          (call query)
          (gated_dispatch digest scorers default_is_holloway_token
            (call odd)
            router).1).0.knoll.enforced_constraints
        ≡ "SYSTEM_FREEZE" ∷ [])
unfolding running_gate gated_dispatch ask_knoll deliver settle settle_outcome is_routing_packet
    is_frozen default_is_holloway_token
runs = (refl, refl, refl, refl, refl)

gated_dispatch-IsGated_example :
    IsGated digest scorers default_is_holloway_token
      (call query)
      router
      (gated_dispatch digest scorers default_is_holloway_token (call query) router)
gated_dispatch-IsGated_example =
    gated_dispatch-IsGated digest scorers default_is_holloway_token (call query) router

frozen_blocks_example :
    All
      (λ result. result.status ≡ blocked)
      (dispatch_all digest scorers default_is_holloway_token
        (call query ∷ call odd ∷ [])
        frozen_router).0
    × ((dispatch_all digest scorers default_is_holloway_token
          (call query ∷ call odd ∷ [])
          frozen_router).1.knoll
        ≡ frozen_router.knoll)
unfolding default_is_holloway_token is_frozen
frozen_blocks_example =
    frozen_blocks digest scorers default_is_holloway_token (call query ∷ call odd ∷ [])
      frozen_router refl (refl, (refl, tt))

abbrev input : CreatePacketInput
input = record {
  source = "APEX";
  destination = "HOPE";
  intent = string "status";
  content = undefined;
  priority = none;
  knoll_token = some "knoll_0123456789abcdef0123456789abcdef";
  timestamp = some 5;
  tenant_id = undefined;
}

abbrev minting : Minting
minting = record { packet_uuid = "1-2"; token_uuid = "3-4"; now = 6 }

create_packet-IsMinted_example :
    IsMinted digest input
      (mint digest minting input "status" "knoll_0123456789abcdef0123456789abcdef")
unfolding create_packet is_well_formed_knoll_token
create_packet-IsMinted_example =
    create_packet-IsMinted digest minting input
      (mint digest minting input "status" "knoll_0123456789abcdef0123456789abcdef") refl

is_routing_packet-check_structure_example :
    is_routing_packet query ≡ (check_structure query).is_allowed
is_routing_packet-check_structure_example = is_routing_packet-check_structure query

abbrev row : LogRequestInput
row = record {
  packet_id = "pkt_1";
  source = "APEX";
  destination = "HOPE";
  status = success;
  cost_usd = some 10000500;
  knoll_signature = "s";
  timestamp = none;
}

-- The row has the nearest millionth, and the upper one of two.
rounded : (log_request 5 row router.ledger).0.cost_usd ≡ 10001000
unfolding log_request entry_of round2
rounded = refl
