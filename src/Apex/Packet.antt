-- ===== src/Apex/Packet.antt =====
-- hdv-foundation/apex/packet.ts. An error that is thrown is the value `refused`; the two ids and the
-- clock that a call reads are the argument `Minting`.
pub mod Routable
use Prim.Native.String
use Prim.Native.Char.{code}
use Prim.Native.String.{◌++◌ as text_append}
use hdv_orchestrator.Common.{
  or_else, ℕ, String, Bool, true, false, ◌&&◌, ◌||◌, Option, none, some, List, [], ◌∷◌, ◌==◌,
  string_eq, nat_beq, if◌then◌else◌, some_by,
}
use hdv_orchestrator.Json.{
  Json, undefined, null, number, string, object, Fields, end, field, prop, truthy, is_string,
  is_number, is_object_type, is_text,
}
use hdv_orchestrator.Text.Decimal.{template}
use hdv_orchestrator.Config.Routing.{
  RoutingPacket, PacketPriority, standard, Header, Payload, all_roles, role_name, priority_name,
}
use hdv_orchestrator.Config.Hash.{compute_packet_hash, is_well_formed_knoll_token}

pub record CreatePacketInput : Type 0 where
  pub source : String
  pub destination : String
  pub intent : Json
  pub content : Json
  pub priority : Option PacketPriority
  pub knoll_token : Option String
  pub timestamp : Option ℕ
  pub tenant_id : Json

-- The two uuids and the time that a call may read.
pub record Minting : Type 0 where
  pub packet_uuid : String
  pub token_uuid : String
  pub now : ℕ

pub data Created : Type 0 where
  refused : (message : String) → Created
  minted : (packet : RoutingPacket) → Created

unfoldable pub new_packet_id : String → String
new_packet_id uuid = text_append "pkt_" uuid

-- `uuid.replace(/-/g, '')`
unfoldable pub without_dashes : String → String
without_dashes String.[] = ""
without_dashes (String.◌∷◌ c s) =
    let rest = without_dashes s in if nat_beq (code c) b'-' then rest else String.◌∷◌ c rest

unfoldable pub new_knoll_token : String → String
unfolding without_dashes
new_knoll_token uuid = text_append "knoll_" (without_dashes uuid)

-- `Object.values(AgentRole).includes(role)`
unfoldable pub is_role_text : String → Bool
is_role_text s = some_by (λ r. role_name r == s) all_roles

-- The intent, if it is a text that is not empty.
unfoldable pub intent_of : Json → Option String
intent_of (string s) = if s == "" then none else some s
intent_of v = none

-- `v ?? {}`
unfoldable pub or_empty : Json → Json
or_empty undefined = object end
or_empty null = object end
or_empty v = v

abbrev header_of : Minting → CreatePacketInput → Header
header_of m input = record {
  packet_id = new_packet_id m.packet_uuid;
  timestamp = or_else input.timestamp m.now;
  source = input.source;
  destination = input.destination;
  priority = or_else input.priority standard;
  tenant_id = input.tenant_id;
}

-- The packet that the checked parts make.
unfoldable pub mint :
    (Json → String) → Minting → CreatePacketInput → String → String → RoutingPacket
mint digest m input intent token =
    let payload : Payload = record { intent = intent; content = or_empty input.content } in
    record {
      header = header_of m input;
      payload = payload;
      security = record {
        knoll_token = token;
        hash = compute_packet_hash digest (header_of m input) payload;
      };
    }

unfoldable pub create_with : Option String → (Json → String) → Minting → CreatePacketInput → Created
unfolding mint new_knoll_token
create_with none digest m input = refused "createPacket: intent must be a non-empty string"
create_with (some intent) digest m input =
    let token = or_else input.knoll_token (new_knoll_token m.token_uuid) in
    if is_well_formed_knoll_token token
    then minted (mint digest m input intent token)
    else refused "createPacket: provided knollToken is malformed"

unfoldable pub create_packet : (Json → String) → Minting → CreatePacketInput → Created
unfolding create_with is_role_text intent_of
create_packet digest m input =
    if is_role_text input.source
    then (if is_role_text input.destination
        then create_with (intent_of input.intent) digest m input
        else refused (
            template ("createPacket: invalid destination role \"" ∷ input.destination ∷ "\"" ∷ [])))
    else refused (template ("createPacket: invalid source role \"" ∷ input.source ∷ "\"" ∷ []))

unfoldable pub is_routing_packet : Json → Bool
is_routing_packet value =
    let header = prop "header" value in
    let payload = prop "payload" value in
    let security = prop "security" value in
    truthy value
    && is_object_type value
    && truthy header
    && is_string (prop "packetId" header)
    && is_number (prop "timestamp" header)
    && is_string (prop "source" header)
    && is_string (prop "destination" header)
    && (is_text "CRITICAL" (prop "priority" header)
        || is_text "STANDARD" (prop "priority" header)
        || is_text "BACKGROUND" (prop "priority" header))
    && truthy payload
    && is_string (prop "intent" payload)
    && truthy (prop "data" payload)
    && is_object_type (prop "data" payload)
    && truthy security
    && is_string (prop "knoll_token" security)
    && is_string (prop "hash" security)

unfoldable pub verify_packet_hash : (Json → String) → RoutingPacket → Bool
verify_packet_hash digest packet =
    compute_packet_hash digest packet.header packet.payload == packet.security.hash

-- The object that a packet is, as a value of unknown type.
unfoldable pub packet_value : RoutingPacket → Json
packet_value packet = object (
    field "header"
      (object (
        field "packetId" (string packet.header.packet_id) (
          field "timestamp" (number packet.header.timestamp) (
            field "source" (string packet.header.source) (
              field "destination" (string packet.header.destination) (
                field "priority" (string (priority_name packet.header.priority))
                  (field "tenantId" packet.header.tenant_id end)))))))
      (field "payload"
        (object
          (field "intent" (string packet.payload.intent) (field "data" packet.payload.content end)))
        (field "security"
          (object (
            field "knoll_token" (string packet.security.knoll_token)
              (field "hash" (string packet.security.hash) end)))
          end)))
