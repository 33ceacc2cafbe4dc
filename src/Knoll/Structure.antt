-- ===== src/Knoll/Structure.antt =====
-- hdv-foundation/knoll/validator.ts, `checkStructure` and `safePacketId`: what KNOLL tests of a value
-- before it takes it for a packet, and the packet that it then takes it for.
pub mod Adherence
use hdv_orchestrator.Common.{
  ℕ, String, Bool, true, false, ◌&&◌, Option, none, some, List, [], ◌∷◌, ◌==◌, string_eq,
  if◌then◌else◌,
}
use hdv_orchestrator.Json.{Json, string, number, prop, truthy, is_string, is_number, is_object_type}
use hdv_orchestrator.Config.Routing.{
  RoutingPacket, Header, Payload, Security, KnollValidationResponse, PacketPriority, critical,
  standard, background,
}

abbrev pub deny : String → List String → KnollValidationResponse
deny reasoning constraints = record {
  is_allowed = false;
  reasoning = some reasoning;
  enforced_constraints = constraints;
}

abbrev pub allow : KnollValidationResponse
allow = record { is_allowed = true; reasoning = none; enforced_constraints = [] }

-- `p.header.priority`, if it is one of the three.
abbrev pub priority_of : Json → Option PacketPriority
priority_of (string s) =
    if s == "CRITICAL"
    then some critical
    else if s == "STANDARD"
    then some standard
    else if s == "BACKGROUND"
    then some background
    else none
priority_of v = none

abbrev pub is_some {ℓ} : {A : Type ℓ} → Option A → Bool
is_some none = false
is_some (some a) = true

unfoldable pub valid_header : Json → Bool
valid_header header =
    truthy header
    && is_string (prop "packetId" header)
    && is_number (prop "timestamp" header)
    && is_string (prop "source" header)
    && is_string (prop "destination" header)
    && is_some (priority_of (prop "priority" header))

unfoldable pub valid_payload : Json → Bool
valid_payload payload =
    truthy payload
    && is_string (prop "intent" payload)
    && truthy (prop "data" payload)
    && is_object_type (prop "data" payload)

unfoldable pub valid_security : Json → Bool
valid_security security =
    truthy security && is_string (prop "knoll_token" security) && is_string (prop "hash" security)

abbrev pub not_an_object : KnollValidationResponse
not_an_object = deny "packet is not an object" ("STRUCTURE" ∷ [])

abbrev pub not_adhering : KnollValidationResponse
not_adhering =
    deny "packet does not strictly adhere to the RoutingPacket interface — system compromised"
      ("STRUCTURE" ∷ [])

unfoldable pub check_structure : Json → KnollValidationResponse
unfolding valid_header valid_payload valid_security
check_structure packet =
    if truthy packet && is_object_type packet
    then (if valid_header (prop "header" packet)
          && valid_payload (prop "payload" packet)
          && valid_security (prop "security" packet)
        then allow
        else not_adhering)
    else not_an_object

abbrev pub text_or_empty : Json → String
text_or_empty (string s) = s
text_or_empty v = ""

abbrev pub number_or_zero : Json → ℕ
number_or_zero (number n) = n
number_or_zero v = 0

abbrev pub priority_or_standard : Option PacketPriority → PacketPriority
priority_or_standard none = standard
priority_or_standard (some p) = p

-- The cast `packet as RoutingPacket`: the fields as they are read. The defaults stand where the
-- structural check has refused the packet.
unfoldable pub as_routing_packet : Json → RoutingPacket
as_routing_packet packet =
    let header = prop "header" packet in
    let payload = prop "payload" packet in
    let security = prop "security" packet in
    record {
      header = record {
        packet_id = text_or_empty (prop "packetId" header);
        timestamp = number_or_zero (prop "timestamp" header);
        source = text_or_empty (prop "source" header);
        destination = text_or_empty (prop "destination" header);
        priority = priority_or_standard (priority_of (prop "priority" header));
        tenant_id = prop "tenantId" header;
      };
      payload = record {
        intent = text_or_empty (prop "intent" payload);
        content = prop "data" payload;
      };
      security = record {
        knoll_token = text_or_empty (prop "knoll_token" security);
        hash = text_or_empty (prop "hash" security);
      };
    }

abbrev id_of : Json → String
id_of (string s) = if s == "" then "unknown-packet" else s
id_of v = "unknown-packet"

unfoldable pub safe_packet_id : Json → String
safe_packet_id packet = id_of (prop "packetId" (prop "header" packet))
