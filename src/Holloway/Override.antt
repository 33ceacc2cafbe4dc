-- ===== src/Holloway/Override.antt =====
-- hdv-foundation/holloway/override.ts: override tokens, and their application to whatever can be
-- frozen. `digest` stands for SHA-256 over the JSON text of a value. A token's authority and action
-- are texts, since the code checks them at run time.
pub mod Guard
use hdv_orchestrator.Common.{
  ℕ, String, Bool, true, false, not, ◌&&◌, ◌||◌, Option, none, some, List, [], ◌∷◌, ◌==◌, string_eq,
  if◌then◌else◌,
}
use hdv_orchestrator.Json.{Json, string, number, object, field, end}
use hdv_orchestrator.Text.Decimal.{template}
use hdv_orchestrator.Holloway.Identity.{HollowayRole, role_name, PrimeRegistry}

pub record TokenFields : Type 0 where
  pub issued_by : String
  pub authority : String
  pub action : String
  pub reason : String
  pub issued_at : ℕ

pub record HollowayOverrideToken : Type 0 where
  pub fields : TokenFields
  pub signature : String

-- What a sovereign can freeze: the operations that the target brings along.
pub record FreezeControllable (S : Type 0) : Type 0 where
  pub freeze : String → S → S
  pub unfreeze : String → S → S

-- `InvalidOverrideToken` with its reason, or the target afterwards.
pub data Override (S : Type 0) : Type 0 where
  refused : (reason : String) → Override S
  applied : (target : S) → Override S

unfoldable pub canonicalize_token : TokenFields → Json
canonicalize_token f = object (
    field "issuedBy" (string f.issued_by) (
      field "authority" (string f.authority) (
        field "action" (string f.action)
          (field "reason" (string f.reason) (field "issuedAt" (number f.issued_at) end)))))

unfoldable pub sign_override_token : (Json → String) → TokenFields → String
unfolding canonicalize_token
sign_override_token digest f = digest (canonicalize_token f)

unfoldable pub mint_override_token :
    (Json → String) → String → HollowayRole → String → String → ℕ → HollowayOverrideToken
unfolding sign_override_token
mint_override_token digest id role action reason issued_at =
    let f : TokenFields = record {
      issued_by = id;
      authority = role_name role;
      action = action;
      reason = reason;
      issued_at = issued_at;
    } in
    record { fields = f; signature = sign_override_token digest f }

unfoldable pub verify_override_token : (Json → String) → HollowayOverrideToken → Bool
unfolding sign_override_token
verify_override_token digest t = sign_override_token digest t.fields == t.signature

abbrev pub is_sovereign_authority : String → Bool
is_sovereign_authority authority = authority == "ACTING_PRIME" || authority == "FORMER_PRIME"

-- The issuer is a live sovereign in the role that the token claims.
abbrev pub is_live : Option PrimeRegistry → TokenFields → Bool
is_live none f = true
is_live (some registry) f =
    (f.authority == "ACTING_PRIME" && registry.is_acting_prime f.issued_by)
    || (f.authority == "FORMER_PRIME" && registry.is_former_prime f.issued_by)

abbrev pub act : {S : Type 0} → FreezeControllable S → TokenFields → S → S
act target f s =
    if f.action == "FREEZE" then target.freeze f.reason s else target.unfreeze f.reason s

unfoldable pub apply_holloway_override :
    {S : Type 0}
    → (Json → String)
    → FreezeControllable S
    → HollowayOverrideToken
    → Option PrimeRegistry
    → S
    → Override S
unfolding verify_override_token
apply_holloway_override digest target t registry s =
    if not (verify_override_token digest t)
    then refused "signature mismatch"
    else if not (is_sovereign_authority t.fields.authority)
    then refused (template ("non-sovereign authority '" ∷ t.fields.authority ∷ "'" ∷ []))
    else if not (is_live registry t.fields)
    then refused (template ("'" ∷ t.fields.issued_by ∷ "' is not a live sovereign" ∷ []))
    else applied (act target t.fields s)
