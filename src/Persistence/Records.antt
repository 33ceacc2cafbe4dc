-- ===== src/Persistence/Records.antt =====
-- hdv-foundation/persistence/repositories.ts, the record shapes. Time stamps are in milliseconds;
-- the cost of a request is in billionths of a dollar, other amounts are in millionths,
-- and confidences in thousandths.
use hdv_orchestrator.Common.{ℕ, String, Bool, true, false, Option, List}
use hdv_orchestrator.Config.Routing.{AgentRole, RoutingStatus}

pub record RequestLogRecord : Type 0 where
  pub id : String
  pub packet_id : String
  pub timestamp : ℕ
  pub source : String
  pub destination : String
  pub status : RoutingStatus
  pub cost_usd : ℕ
  pub knoll_signature : String

pub data NodeStatus : Type 0 where
  active idle terminated : NodeStatus

pub record NodeIdentityRecord : Type 0 where
  pub node_id : String
  pub role : AgentRole
  pub status : NodeStatus
  pub last_seen : ℕ
  pub is_ephemeral : Bool

pub data AuditOutcome : Type 0 where
  allowed blocked : AuditOutcome

pub record SecurityAuditRecord : Type 0 where
  pub id : String
  pub packet_id : String
  pub outcome : AuditOutcome
  pub reasoning : Option String
  pub timestamp : ℕ

pub record IntentDocumentRecord : Type 0 where
  pub id : String
  pub utterance : String
  pub kind : String
  pub entities : List String
  pub goals : List String
  pub constraints : List String
  pub suggested_destination : AgentRole
  pub confidence : ℕ
  pub documented_at : ℕ
  pub clarification_needed : Bool

pub record UserRecord : Type 0 where
  pub id : String
  pub email : String
  pub password_hash : String
  pub created_at : ℕ

pub record SessionRecord : Type 0 where
  pub token : String
  pub user_id : String
  pub created_at : ℕ
  pub expires_at : ℕ

pub record CompanionMemoryRecord : Type 0 where
  pub companion_id : String
  pub affection_level : ℕ
  pub summary : String
  pub turn_count : ℕ
  pub updated_at : ℕ

pub data VerificationStatus : Type 0 where
  unverified pending verified : VerificationStatus

pub record CreatorProfileRecord : Type 0 where
  pub user_id : String
  pub display_name : String
  pub bio : Option String
  pub verification_status : VerificationStatus
  pub created_at : ℕ
  pub stripe_account_id : Option String
  pub stripe_verification_session_id : Option String
  pub verification_status_cache : Option VerificationStatus

pub record CreatorPersonaRecord : Type 0 where
  pub id : String
  pub creator_user_id : String
  pub persona_id : String
  pub display_name : String
  pub description : Option String
  pub reference_photo_urls : List String
  pub scan_urls : List String
  pub created_at : ℕ

pub data LikenessEventType : Type 0 where
  chat_turn portrait_generated scene_generated : LikenessEventType

pub record LikenessUsageEventRecord : Type 0 where
  pub id : String
  pub creator_user_id : String
  pub persona_id : String
  pub event_type : LikenessEventType
  pub accrued_usd : ℕ
  pub created_at : ℕ

abbrev pub same_node_status : NodeStatus → NodeStatus → Bool
same_node_status active active = true
same_node_status idle idle = true
same_node_status terminated terminated = true
same_node_status _ _ = false

abbrev pub same_routing_status : RoutingStatus → RoutingStatus → Bool
same_routing_status RoutingStatus.success RoutingStatus.success = true
same_routing_status RoutingStatus.blocked RoutingStatus.blocked = true
same_routing_status RoutingStatus.failed RoutingStatus.failed = true
same_routing_status _ _ = false

abbrev pub is_blocked : AuditOutcome → Bool
is_blocked allowed = false
is_blocked blocked = true
