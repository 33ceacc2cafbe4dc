-- ===== src/Config/Routing.antt =====
-- hdv-foundation/config/routing_schema.ts. The end points of a packet are the texts that it
-- carries: only a law of KNOLL says that they are names of roles. `tenantId` is checked by no
-- structural test, so it is any value.
use hdv_orchestrator.Common.{
  ℕ, String, Bool, true, Option, List, [], ◌∷◌, StrictEq, nat_beq, ◌≡◌, ◌↔◌, ap, arith, string_eq,
}
use hdv_orchestrator.Json.{Json}

pub data AgentRole : Type 0 where
  hope dream vision knoll apex : AgentRole

-- The values of the enum.
abbrev pub role_name : AgentRole → String
role_name hope = "HOPE"
role_name dream = "DREAM"
role_name vision = "VISION"
role_name knoll = "KNOLL"
role_name apex = "APEX"

-- `Object.values(AgentRole)`
abbrev pub all_roles : List AgentRole
all_roles = hope ∷ dream ∷ vision ∷ knoll ∷ apex ∷ []

abbrev pub role_number : AgentRole → ℕ
role_number hope = 0
role_number dream = 1
role_number vision = 2
role_number knoll = 3
role_number apex = 4

role_number_inj : (a b : AgentRole) → role_number a ≡ role_number b → a ≡ b
role_number_inj a b h = ground arith

abbrev pub role_beq : AgentRole → AgentRole → Bool
role_beq a b = nat_beq (role_number a) (role_number b)

pub role_beq_iff : (a b : AgentRole) → (role_beq a b ≡ true) ↔ (a ≡ b)
role_beq_iff a b = (λ h. role_number_inj a b (ground arith), λ h. ground (arith, ap role_number h))

instance abbrev pub role_eq : StrictEq AgentRole
role_eq = record { same = role_beq; same_iff = role_beq_iff }

pub data PacketPriority : Type 0 where
  critical standard background : PacketPriority

abbrev pub priority_name : PacketPriority → String
priority_name critical = "CRITICAL"
priority_name standard = "STANDARD"
priority_name background = "BACKGROUND"

pub data RoutingStatus : Type 0 where
  success blocked failed : RoutingStatus

pub record Header : Type 0 where
  pub packet_id : String
  pub timestamp : ℕ
  pub source : String
  pub destination : String
  pub priority : PacketPriority
  pub tenant_id : Json

pub record Payload : Type 0 where
  pub intent : String
  pub content : Json

pub record Security : Type 0 where
  pub knoll_token : String
  pub hash : String

pub record RoutingPacket : Type 0 where
  pub header : Header
  pub payload : Payload
  pub security : Security

pub record KnollValidationResponse : Type 0 where
  pub is_allowed : Bool
  pub reasoning : Option String
  pub enforced_constraints : List String
