-- ===== src/Tests/Sovereigns.antt =====
-- The sovereign layer on concrete calls.
use text.Mathlib.TextEquality.{eq_iff}
use Prim.Native.String.{◌++◌ as text_append}
use hdv_orchestrator.Common.{
  String, true, Option, none, some, List, [], ◌∷◌, map, length, ◌≡◌, ◌≢◌, ◌⊎◌, ◌↔◌, refl, arith,
  ◌==◌, string_eq, false,
}
use hdv_orchestrator.Json.{Json, string, object, Fields, field, end, to_text}
use hdv_orchestrator.Text.Decimal.{decimal, padded, template}
use hdv_orchestrator.Knoll.Freeze.{
  SystemFreezeController, running, default_is_holloway_token, trigger_freeze, sovereign_freeze,
  clear_freeze,
}
use hdv_orchestrator.Knoll.HollowayBridge.{
  as_freeze_controllable, parse_override_token, sovereign_token_recognizer,
}
use hdv_orchestrator.Knoll.HollowayBridge.Recognized.{IsApplied, recognizer_iff}
use hdv_orchestrator.Holloway.Identity.{
  HollowayRole, ActingPrime, FormerPrime, acting_prime, former_prime,
}
use hdv_orchestrator.Holloway.Ledger.{
  LedgerRecord, RecordInput, LedgerLink, override, valid, altered, granted, empty_ledger,
  hash_ledger_record, canonicalize_record, record_of, record_event, record_all, verify, read,
}
use hdv_orchestrator.Holloway.Ledger.Chain.{records_from, record_all_verified, altered_found}
use hdv_orchestrator.Holloway.Ledger.Access.{IsReader, read_iff}
use hdv_orchestrator.Holloway.Override.{Override, refused, applied}
use hdv_orchestrator.Holloway.Override.Guard.{attempt, minted_override}
use hdv_orchestrator.Holloway.Sovereign.{
  SovereignAuthority, Directive, Call, issuing, countermanding, succession, new_authority,
  registry_of, is_acting_prime, is_former_prime, get_directive, succeed, run, perform, IssueOptions,
  directive_of, directive_id, vetoed, issue_directive, countermand, countermand_found, veto,
  log_directive,
}
use hdv_orchestrator.Holloway.Sovereign.Registry.{run_keeps_primes}
use hdv_orchestrator.Holloway.Sovereign.Veto.{
  IsNumbered, IsKept, run-IsKept, perform-IsNumbered, new_authority-IsNumbered,
}

-- A digest and a hash that keep the text that they are given.
fields_text : Fields → String
fields_text end = ""
fields_text (field k v fs) = text_append (to_text v) (text_append "," (fields_text fs))

unfoldable written : Json → String
unfolding fields_text
written (object fs) = fields_text fs
written v = to_text v

abbrev marked : String → String
marked s = text_append "#" s

abbrev ada : ActingPrime
ada = record { id = "ada"; name = "Ada"; since = 1 }

abbrev grace : ActingPrime
grace = record { id = "grace"; name = "Grace"; since = 9 }

abbrev old_prime : FormerPrime
old_prime = record { id = "kurt"; name = "Kurt"; since = 0; stepped_down_at = 1 }

abbrev authority : SovereignAuthority
authority = new_authority ada (old_prime ∷ [])

abbrev input : RecordInput
input = record {
  kind = override;
  summary = "cleared";
  actor_id = "ada";
  data_of = none;
  timestamp = none;
}

record_all_verified_example :
    (map
        (λ l. l.content)
        (record_all written marked ((5, input) ∷ (6, input) ∷ []) empty_ledger).links
      ≡ records_from 0 ((5, input) ∷ (6, input) ∷ []))
    × (verify written marked (record_all written marked ((5, input) ∷ (6, input) ∷ []) empty_ledger)
        ≡ valid
            (length (record_all written marked ((5, input) ∷ (6, input) ∷ []) empty_ledger).links))
record_all_verified_example = record_all_verified written marked ((5, input) ∷ (6, input) ∷ [])

abbrev sealed : LedgerLink
sealed = (record_event written marked 5 input empty_ledger).0

abbrev forged : LedgerRecord
forged = record {
  id = "dal_00000001";
  kind = override;
  summary = "nothing";
  actor_id = "ada";
  data_of = object end;
  timestamp = 5;
}

differs : (s t : String) → (s == t) ≡ false → s ≢ t
differs s t other same = ground (arith, eq_iff s t)

hash_differs :
    hash_ledger_record written marked forged ≢ hash_ledger_record written marked sealed.content
unfolding hash_ledger_record canonicalize_record written to_text decimal record_event record_of
    padded
hash_differs =
    differs (hash_ledger_record written marked forged)
      (hash_ledger_record written marked sealed.content) refl

altered_found_example :
    verify written marked (record { links = record sealed { content = forged } ∷ []; seq = 1 })
    ≡ altered 1 0
unfolding record_all
altered_found_example =
    altered_found written marked ((5, input) ∷ []) [] sealed [] forged 1 refl hash_differs

abbrev ada_reader : Json
ada_reader = object (field "id" (string "ada") (field "role" (string "ACTING_PRIME") end))

read_iff_example :
    (read (some (registry_of authority)) ada_reader empty_ledger ≡ granted [])
    ↔ IsReader (registry_of authority) ada_reader
read_iff_example = read_iff (registry_of authority) ada_reader empty_ledger

abbrev no_flags : IssueOptions
no_flags = record { data_of = none; anomalous = none; critical = none; timestamp = none }

abbrev calls : List Call
calls =
    countermanding 4 "kurt" "dir_00000001" "unsafe"
    ∷ succession 5 grace none
    ∷ countermanding 6 "ada" "dir_00000001" "again"
    ∷ []

run_keeps_primes_example :
    (is_former_prime authority "kurt" ≡ true
      → is_former_prime (run written marked calls authority) "kurt" ≡ true)
    × (is_acting_prime authority "kurt" ≡ true
        → (is_acting_prime (run written marked calls authority) "kurt" ≡ true)
          ⊎ (is_former_prime (run written marked calls authority) "kurt" ≡ true))
run_keeps_primes_example = run_keeps_primes written marked calls "kurt" authority

abbrev issued : SovereignAuthority
issued = (issue_directive written marked 3 "advance" no_flags authority).1

abbrev directive : Directive
directive = (issue_directive written marked 3 "advance" no_flags authority).0

issued-IsNumbered : IsNumbered issued
unfolding perform
issued-IsNumbered =
    perform-IsNumbered written marked (issuing 3 "advance" no_flags) authority
      (new_authority-IsNumbered ada (old_prime ∷ []))

run-IsKept_example : IsKept "dir_00000001" directive (run written marked calls issued)
unfolding issue_directive get_directive new_authority directive_of directive_id padded decimal
run-IsKept_example =
    run-IsKept written marked calls issued "dir_00000001" directive issued-IsNumbered refl

-- The first countermand stands.
countermanded_once :
    get_directive "dir_00000001" (run written marked calls issued)
    ≡ some (vetoed 4 "kurt" "unsafe" directive)
unfolding run perform countermand countermand_found veto succeed issue_directive get_directive
    new_authority directive_of directive_id padded decimal log_directive record_event
countermanded_once = refl

successor_differs : ◌≢◌ {A = String} "grace" "ada"
successor_differs = ground (arith, eq_iff "grace" "ada")

abbrev controller : SystemFreezeController
controller = record { state = running; quarantine = [] }

-- The override that ada mints and applies at the time 7.
abbrev try_override : SovereignAuthority → HollowayRole → String → Override SystemFreezeController
try_override a role action =
    attempt written (as_freeze_controllable 7) a "ada" role action "because" 7 controller

abbrev succeeded : SovereignAuthority
succeeded = succeed written marked 8 grace none authority

minted_override_example :
    (try_override authority acting_prime "FREEZE"
      ≡ applied (trigger_freeze "because" 10000 none 7 controller))
    × (try_override authority acting_prime "UNFREEZE" ≡ applied controller)
    × (try_override succeeded acting_prime "FREEZE"
        ≡ refused (template ("'" ∷ "ada" ∷ "' is not a live sovereign" ∷ [])))
    × (try_override succeeded former_prime "FREEZE"
        ≡ applied (trigger_freeze "because" 10000 none 7 controller))
    × (try_override succeeded former_prime "UNFREEZE" ≡ applied controller)
unfolding new_authority sovereign_freeze clear_freeze as_freeze_controllable trigger_freeze
minted_override_example =
    minted_override SystemFreezeController written marked (as_freeze_controllable 7) authority 8
      grace none "FREEZE" "because" 7 controller successor_differs

abbrev no_parse : String → Option Json
no_parse s = none

not_legacy : default_is_holloway_token ada_reader ≡ false
unfolding default_is_holloway_token
not_legacy = refl

recognizer_iff_example : (sovereign_token_recognizer written no_parse none ada_reader ≡ true) ↔ (
    (t : _) × (parse_override_token no_parse ada_reader ≡ some t)
    × IsApplied written none 7 controller t)
recognizer_iff_example = recognizer_iff written no_parse none 7 controller ada_reader not_legacy
