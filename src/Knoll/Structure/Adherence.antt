-- ===== src/Knoll/Structure/Adherence.antt =====
-- The structural check of hdv-foundation/knoll/validator.ts and the cast after it: every field that
-- the check tests is there and has its type. `header.tenantId`, which it does not test, is left out.
use hdv_orchestrator.Common.{true, ◌≡◌, string_eq}
use hdv_orchestrator.Json.{Json, string, number, prop, is_object_type}
use hdv_orchestrator.Config.Routing.{RoutingPacket, priority_name}

-- The fields of a value and of the packet that it is taken for are the same, `tenantId` aside.
pub record Adheres (v : Json) (p : RoutingPacket) : Type 0 where
  pub packet_id : prop "packetId" (prop "header" v) ≡ string p.header.packet_id
  pub timestamp : prop "timestamp" (prop "header" v) ≡ number p.header.timestamp
  pub source : prop "source" (prop "header" v) ≡ string p.header.source
  pub destination : prop "destination" (prop "header" v) ≡ string p.header.destination
  pub priority : prop "priority" (prop "header" v) ≡ string (priority_name p.header.priority)
  pub intent : prop "intent" (prop "payload" v) ≡ string p.payload.intent
  pub content :
      (prop "data" (prop "payload" v) ≡ p.payload.content)
      × (is_object_type p.payload.content ≡ true)
  pub knoll_token : prop "knoll_token" (prop "security" v) ≡ string p.security.knoll_token
  pub hash : prop "hash" (prop "security" v) ≡ string p.security.hash
