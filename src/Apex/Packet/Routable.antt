-- ===== src/Apex/Packet/Routable.antt =====
-- The packets that `createPacket` of hdv-foundation/apex/packet.ts mints, and the two tests of
-- shape, `isRoutingPacket` of APEX and `checkStructure` of KNOLL.
use mathlib.Core.Path.{subst}
use hdv_orchestrator.Common.{
  String, Bool, true, false, ◌&&◌, ◌||◌, Option, none, some, ◌==◌, ==_refl, string_eq, ◌≡◌, refl,
  Bool-cases, inl, inr, or_else, sym, ◌∙◌, ap, arith, if◌then◌else◌,
}
use hdv_orchestrator.Json.{
  Json, undefined, null, boolean, number, string, array, object, prop, truthy, is_object_type,
  is_text, is_string, is_number,
}
use hdv_orchestrator.Config.Routing.{
  priority_name, RoutingPacket, PacketPriority, critical, standard, background,
  KnollValidationResponse,
}
use hdv_orchestrator.Config.Hash.{is_well_formed_knoll_token}
use hdv_orchestrator.Knoll.Structure.{
  allow, not_adhering, not_an_object, check_structure, as_routing_packet, priority_of,
  priority_or_standard, is_some, valid_header, valid_payload, valid_security,
}
use hdv_orchestrator.Apex.Packet.{
  new_knoll_token, CreatePacketInput, Minting, minted, create_packet, create_with, mint,
  is_role_text, intent_of, is_routing_packet, verify_packet_hash, packet_value,
}

priority_test :
    (v : Json)
    → (is_text "CRITICAL" v || is_text "STANDARD" v || is_text "BACKGROUND" v)
      ≡ is_some (priority_of v)
priority_test (string s) = ground arith
priority_test undefined = refl
priority_test null = refl
priority_test (boolean b) = refl
priority_test (number n) = refl
priority_test (array xs) = refl
priority_test (object fs) = refl

abbrev checks :
    Bool
    → Bool
    → Bool
    → Bool
    → KnollValidationResponse
    → KnollValidationResponse
    → KnollValidationResponse
    → Bool
checks v h p s a b c = (if v then (if h && p && s then a else b) else c).is_allowed

checked :
    (v h p s : Bool) (a b c : KnollValidationResponse)
    → a.is_allowed ≡ true
    → b.is_allowed ≡ false
    → c.is_allowed ≡ false
    → checks v h p s a b c ≡ (v && h && p && s)
checked v h p s a b c ha hb hc = ground arith

grouped :
    (v w h₁ h₂ h₃ h₄ h₅ h₆ p₁ p₂ p₃ p₄ s₁ s₂ s₃ : Bool)
    → ((v && w) && (h₁ && h₂ && h₃ && h₄ && h₅ && h₆) && (p₁ && p₂ && p₃ && p₄) && (s₁ && s₂ && s₃))
      ≡ (v && w && h₁ && h₂ && h₃ && h₄ && h₅ && h₆ && p₁ && p₂ && p₃ && p₄ && s₁ && s₂ && s₃)
grouped v w h₁ h₂ h₃ h₄ h₅ h₆ p₁ p₂ p₃ p₄ s₁ s₂ s₃ = ground arith

-- On every value, APEX's test of the shape of a packet agrees with KNOLL's.
pub is_routing_packet-check_structure :
    (value : Json) → is_routing_packet value ≡ (check_structure value).is_allowed
unfolding is_routing_packet check_structure valid_header valid_payload valid_security
is_routing_packet-check_structure value =
    let header = prop "header" value in
    let payload = prop "payload" value in
    let security = prop "security" value in
    rw (priority_test (prop "priority" header)) (
      sym (
        checked (truthy value && is_object_type value) (valid_header header) (valid_payload payload)
          (valid_security security) allow not_adhering not_an_object refl refl refl
        ∙ grouped (truthy value) (is_object_type value) (truthy header)
            (is_string (prop "packetId" header)) (is_number (prop "timestamp" header))
            (is_string (prop "source" header)) (is_string (prop "destination" header))
            (is_some (priority_of (prop "priority" header))) (truthy payload)
            (is_string (prop "intent" payload)) (truthy (prop "data" payload))
            (is_object_type (prop "data" payload)) (truthy security)
            (is_string (prop "knoll_token" security)) (is_string (prop "hash" security))))

-- What a minted packet is: its parts are those that were asked for, it hashes to its hash, its end
-- points are names of roles, its token is well formed, and reading it back as a value gives it.
pub record IsMinted (digest : Json → String) (input : CreatePacketInput) (p : RoutingPacket)
    : Type 0 where
  pub ends : (p.header.source ≡ input.source) × (p.header.destination ≡ input.destination)
  pub roles : (is_role_text p.header.source ≡ true) × (is_role_text p.header.destination ≡ true)
  pub intent : input.intent ≡ string p.payload.intent
  pub token : is_well_formed_knoll_token p.security.knoll_token ≡ true
  pub hash : verify_packet_hash digest p ≡ true
  pub read_back : as_routing_packet (packet_value p) ≡ p

intent_of-some : (v : Json) (intent : String) → intent_of v ≡ some intent → v ≡ string intent
unfolding intent_of
intent_of-some (string s) intent h = elim (Bool-cases (s == "")) [
  | inl e ↦ cc (rw e at h)
  | inr e ↦ cc (rw e at h)
]
intent_of-some v intent h = cc

priority_back :
    (p : PacketPriority) → priority_or_standard (priority_of (string (priority_name p))) ≡ p
priority_back critical = refl
priority_back standard = refl
priority_back background = refl

abbrev with_priority : RoutingPacket → PacketPriority → RoutingPacket
with_priority p priority = record p { header = record p.header { priority = priority } }

read_back_packet : (p : RoutingPacket) → as_routing_packet (packet_value p) ≡ p
unfolding as_routing_packet packet_value
read_back_packet p = ap (with_priority p) (priority_back p.header.priority)

mint-IsMinted :
    (digest : Json → String) (m : Minting) (input : CreatePacketInput) (intent token : String)
    → is_role_text input.source ≡ true
    → is_role_text input.destination ≡ true
    → input.intent ≡ string intent
    → is_well_formed_knoll_token token ≡ true
    → IsMinted digest input (mint digest m input intent token)
unfolding mint verify_packet_hash
mint-IsMinted digest m input intent token s d i t = record {
  ends = (refl, refl);
  roles = (s, d);
  intent = i;
  token = t;
  hash = ==_refl {V = String} _;
  read_back = read_back_packet _;
}

minted_inj : {p q : RoutingPacket} → minted p ≡ minted q → p ≡ q
minted_inj h = cc

create_with-IsMinted :
    (intent : Option String) (digest : Json → String) (m : Minting) (input : CreatePacketInput)
    (p : RoutingPacket)
    → intent_of input.intent ≡ intent
    → is_role_text input.source ≡ true
    → is_role_text input.destination ≡ true
    → create_with intent digest m input ≡ minted p
    → IsMinted digest input p
unfolding create_with
create_with-IsMinted none digest m input p i s d h = cc
create_with-IsMinted (some intent) digest m input p i s d h =
    let token = or_else input.knoll_token (new_knoll_token m.token_uuid) in
    elim (Bool-cases (is_well_formed_knoll_token token)) [
      | inr bad ↦ cc (rw bad at h)
      | inl good ↦ subst (IsMinted digest input) (minted_inj (rw good at h)) (
          mint-IsMinted digest m input intent token s d (intent_of-some input.intent intent i) good)
    ]

-- A packet that `createPacket` returns goes between the roles that were asked for, carries the
-- intent, a well-formed token and its own hash, and reading it as a value of unknown type gives it
-- back.
pub create_packet-IsMinted :
    (digest : Json → String) (m : Minting) (input : CreatePacketInput) (p : RoutingPacket)
    → create_packet digest m input ≡ minted p
    → IsMinted digest input p
unfolding create_packet
create_packet-IsMinted digest m input p h = elim (Bool-cases (is_role_text input.source)) [
  | inr s ↦ cc (rw s at h)
  | inl s ↦ elim (Bool-cases (is_role_text input.destination)) [
    | inr d ↦ cc (rw (s, d) at h)
    | inl d ↦
        create_with-IsMinted (intent_of input.intent) digest m input p refl s d (rw (s, d) at h)
  ]
]
