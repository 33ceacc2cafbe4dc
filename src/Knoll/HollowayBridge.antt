-- ===== src/Knoll/HollowayBridge.antt =====
-- hdv-foundation/knoll/holloway_bridge.ts: override tokens before KNOLL's freeze controller. `parse`
-- stands for JSON.parse, which answers nothing where it throws; `digest` for SHA-256 over the JSON
-- text of a value.
pub mod Recognized
use hdv_orchestrator.Common.{
  ℕ, String, Bool, true, false, not, ◌&&◌, ◌||◌, Option, none, some, List, [], ◌∷◌, ◌==◌, string_eq,
  if◌then◌else◌,
}
use hdv_orchestrator.Json.{Json, string, number, object, field, end, prop, as_string, is_text}
use hdv_orchestrator.Text.Decimal.{template, slice_to}
use hdv_orchestrator.Text.Trim.{trim}
use hdv_orchestrator.Knoll.Freeze.{
  SystemFreezeController, sovereign_freeze, clear_freeze, default_is_holloway_token, reset,
}
use hdv_orchestrator.Holloway.Identity.{PrimeRegistry}
use hdv_orchestrator.Holloway.Ledger.{DesignatedLedger, override, event_input, record_event}
use hdv_orchestrator.Holloway.Override.{
  TokenFields, HollowayOverrideToken, FreezeControllable, Override, refused, applied,
  verify_override_token, is_sovereign_authority, is_live, apply_holloway_override,
}

-- `asFreezeControllable(ctrl)` of knoll/freeze.ts, at the time that the controller's clock says.
unfoldable pub as_freeze_controllable : ℕ → FreezeControllable SystemFreezeController
unfolding sovereign_freeze clear_freeze
as_freeze_controllable now = record {
  freeze = λ reason c. sovereign_freeze (some reason) now c;
  unfreeze = λ reason c. clear_freeze c;
}

abbrev pub as_number : Json → Option ℕ
as_number (number n) = some n
as_number v = none

-- The five fields that a token is read from, each of its type.
abbrev pub token_of : Json → Json → Json → Json → Json → Json → Option HollowayOverrideToken
token_of (string issued_by) (string authority) (string action) (string reason) (number issued_at)
      (string signature) =
    if (authority == "ACTING_PRIME" || authority == "FORMER_PRIME")
      && (action == "FREEZE" || action == "UNFREEZE")
    then some (record {
      fields = record {
        issued_by = issued_by;
        authority = authority;
        action = action;
        reason = reason;
        issued_at = issued_at;
      };
      signature = signature;
    })
    else none
token_of a b c d e f = none

unfoldable pub as_holloway_override_token : Json → Option HollowayOverrideToken
as_holloway_override_token v =
    token_of (prop "issuedBy" v) (prop "authority" v) (prop "action" v) (prop "reason" v)
      (prop "issuedAt" v) (prop "signature" v)

abbrev pub and_then :
    Option Json → (Json → Option HollowayOverrideToken) → Option HollowayOverrideToken
and_then none k = none
and_then (some v) k = k v

unfoldable pub parse_override_token : (String → Option Json) → Json → Option HollowayOverrideToken
unfolding as_holloway_override_token trim slice_to
parse_override_token parse (string s) =
    if slice_to 1 (trim s) == "{"
    then and_then (parse (trim s)) as_holloway_override_token
    else none
parse_override_token parse v = as_holloway_override_token v

abbrev pub is_recognized :
    (Json → String) → Option PrimeRegistry → Option HollowayOverrideToken → Bool
is_recognized digest registry none = false
is_recognized digest registry (some t) =
    verify_override_token digest t
    && is_sovereign_authority t.fields.authority
    && is_live registry t.fields

-- `createSovereignTokenRecognizer(registry)`
unfoldable pub sovereign_token_recognizer :
    (Json → String) → (String → Option Json) → Option PrimeRegistry → Json → Bool
unfolding parse_override_token verify_override_token default_is_holloway_token
sovereign_token_recognizer digest parse registry token =
    default_is_holloway_token token
    || is_recognized digest registry (parse_override_token parse token)

abbrev pub after_override :
    (Json → String)
    → (String → String)
    → ℕ
    → HollowayOverrideToken
    → Option DesignatedLedger
    → Override SystemFreezeController
    → Override SystemFreezeController × Option DesignatedLedger
after_override digest sha256 now t none outcome = (outcome, none)
after_override digest sha256 now t (some ledger) (refused reason) = (refused reason, some ledger)
after_override digest sha256 now t (some ledger) (applied c) = (
  applied c,
  some
      (record_event digest sha256 now
        (event_input override t.fields.issued_by
          (template ("sovereign " ∷ t.fields.action ∷ " via Holloway override" ∷ []))
          (object (
            field "action" (string t.fields.action) (
              field "reason" (string t.fields.reason) (
                field "issuedAt" (number t.fields.issued_at)
                  (field "authority" (string t.fields.authority) end))))))
        ledger).1,
)

-- A refused token throws before the ledger is written.
unfoldable pub apply_sovereign_freeze_override :
    (Json → String)
    → (String → String)
    → ℕ
    → HollowayOverrideToken
    → Option PrimeRegistry
    → SystemFreezeController
    → Option DesignatedLedger
    → Override SystemFreezeController × Option DesignatedLedger
unfolding apply_holloway_override as_freeze_controllable record_event
apply_sovereign_freeze_override digest sha256 now t registry c ledger =
    after_override digest sha256 now t ledger
      (apply_holloway_override digest (as_freeze_controllable now) t registry c)
