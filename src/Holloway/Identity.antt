-- ===== src/Holloway/Identity.antt =====
-- hdv-foundation/holloway/types.ts and prime_hope.ts: who is sovereign. Values that a caller hands in
-- (readers, tokens) are of unknown type, as the guards of the code read them.
use hdv_orchestrator.Common.{ℕ, String, Bool, false, ◌&&◌, string_eq}
use hdv_orchestrator.Json.{
  Json, string, object, field, end, prop, is_string, is_text, is_object_type,
}

pub data HollowayRole : Type 0 where
  acting_prime former_prime : HollowayRole

abbrev pub role_name : HollowayRole → String
role_name acting_prime = "ACTING_PRIME"
role_name former_prime = "FORMER_PRIME"

-- `ActingPrimeHolloway`, whose role is fixed.
pub record ActingPrime : Type 0 where
  pub id : String
  pub name : String
  pub since : ℕ

-- `FormerPrimeHolloway`, whose role is fixed.
pub record FormerPrime : Type 0 where
  pub id : String
  pub name : String
  pub since : ℕ
  pub stepped_down_at : ℕ

-- Who is a live sovereign, as the ledger and the overrides ask it.
pub record PrimeRegistry : Type 0 where
  pub is_acting_prime : String → Bool
  pub is_former_prime : String → Bool

abbrev pub prime_hope_token : String
prime_hope_token = "PRIME_HOPE"

unfoldable pub is_prime_hope_token : Json → Bool
is_prime_hope_token v = is_text prime_hope_token v

-- `typeof value === 'object' && value !== null`
abbrev pub is_present_object : Json → Bool
is_present_object Json.null = false
is_present_object v = is_object_type v

unfoldable pub is_prime_hope_identity : Json → Bool
is_prime_hope_identity v = is_present_object v && is_text "PRIME_HOPE" (prop "kind" v)

unfoldable pub is_sovereign_identity : Json → Bool
is_sovereign_identity v =
    is_present_object v && is_string (prop "id" v) && is_string (prop "role" v)

unfoldable pub prime_hope : String → String → Json
prime_hope id name =
    object
      (field "kind" (string "PRIME_HOPE") (field "id" (string id) (field "name" (string name) end)))
