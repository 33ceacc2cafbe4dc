-- ===== src/Holloway/Sovereign.antt =====
-- hdv-foundation/holloway/sovereign.ts, `SovereignAuthority`: directives, countermands and succession,
-- with the ledger that the authority keeps. `Date.now()` is an argument of each operation.
pub mod Registry
pub mod Veto
use hdv_orchestrator.Common.{
  ℕ, suc, String, Bool, true, false, Option, none, some, List, [], ◌∷◌, ◌++◌, map, ◌==◌, string_eq,
  if◌then◌else◌, or_else,
}
use hdv_orchestrator.Json.{Json, string, object, field, end}
use hdv_orchestrator.JsMap.{Entries, lookup, insert, contains, values}
use hdv_orchestrator.Text.Decimal.{padded, template}
use hdv_orchestrator.Holloway.Identity.{ActingPrime, FormerPrime, PrimeRegistry}
use hdv_orchestrator.Holloway.Ledger.{
  DesignatedLedger, override, anomalous_command, critical_oob_decision, LedgerRecordKind,
  event_input, record_event, empty_ledger,
}

pub data DirectiveStatus : Type 0 where
  active countermanded : DirectiveStatus

pub record Directive : Type 0 where
  pub id : String
  pub issued_by : String
  pub command : String
  pub data_of : Json
  pub issued_at : ℕ
  pub anomalous : Bool
  pub critical : Bool
  pub status : DirectiveStatus
  pub countermanded_by : Option String
  pub countermanded_at : Option ℕ
  pub countermand_reason : Option String

pub record IssueOptions : Type 0 where
  pub data_of : Option Json
  pub anomalous : Option Bool
  pub critical : Option Bool
  pub timestamp : Option ℕ

pub record SovereignAuthority : Type 0 where
  pub acting : ActingPrime
  pub formers : Entries String FormerPrime
  pub directives_by_id : Entries String Directive
  pub order : List String
  pub seq : ℕ
  pub ledger : DesignatedLedger

add_formers : List FormerPrime → Entries String FormerPrime → Entries String FormerPrime
add_formers [] m = m
add_formers (f ∷ fs) m = add_formers fs (insert f.id f m)

-- The constructor, with a ledger of its own.
unfoldable pub new_authority : ActingPrime → List FormerPrime → SovereignAuthority
unfolding add_formers
new_authority acting formers = record {
  acting = acting;
  formers = add_formers formers [];
  directives_by_id = [];
  order = [];
  seq = 0;
  ledger = empty_ledger;
}

unfoldable pub is_acting_prime : SovereignAuthority → String → Bool
is_acting_prime a id = a.acting.id == id

unfoldable pub is_former_prime : SovereignAuthority → String → Bool
is_former_prime a id = contains id a.formers

-- The authority as the registry that its ledger and the overrides ask.
abbrev pub registry_of : SovereignAuthority → PrimeRegistry
registry_of a = record { is_acting_prime = is_acting_prime a; is_former_prime = is_former_prime a }

unfoldable pub get_directive : String → SovereignAuthority → Option Directive
get_directive id a = lookup id a.directives_by_id

abbrev pub has_status : DirectiveStatus → Bool
has_status active = true
has_status countermanded = false

unfoldable pub is_active : String → SovereignAuthority → Bool
unfolding get_directive
is_active id a = elim (get_directive id a) [ none ↦ false | some d ↦ has_status d.status ]

-- `order.map((id) => directivesById.get(id)!)`
unfoldable pub directives : SovereignAuthority → List (Option Directive)
directives a = map (λ id. lookup id a.directives_by_id) a.order

-- `dir_${n.toString().padStart(8, '0')}`
unfoldable pub directive_id : ℕ → String
directive_id n = template ("dir_" ∷ padded 8 n ∷ [])

-- What a countermand answers; the two errors are thrown.
pub data Countermand : Type 0 where
  unauthorized : (former_id : String) → Countermand
  unknown : (directive_id : String) → Countermand
  answered : (directive : Directive) → Countermand

unfoldable pub directive_of : ℕ → String → IssueOptions → SovereignAuthority → Directive
unfolding directive_id
directive_of now command options a = record {
  id = directive_id (suc a.seq);
  issued_by = a.acting.id;
  command = command;
  data_of = or_else options.data_of (object end);
  issued_at = or_else options.timestamp now;
  anomalous = or_else options.anomalous false;
  critical = or_else options.critical false;
  status = active;
  countermanded_by = none;
  countermanded_at = none;
  countermand_reason = none;
}

abbrev pub vetoed : ℕ → String → String → Directive → Directive
vetoed now former_id reason d = record d {
  status = countermanded;
  countermanded_by = some former_id;
  countermanded_at = some now;
  countermand_reason = some reason;
}

abbrev pub directive_detail : Directive → Json
directive_detail d = object (field "directiveId" (string d.id) (field "data" d.data_of end))

-- A call of the authority that may change it.
pub data Call : Type 0 where
  issuing : (now : ℕ) (command : String) (options : IssueOptions) → Call
  countermanding : (now : ℕ) (former_id id reason : String) → Call
  succession : (now : ℕ) (successor : ActingPrime) (stepped_down_at : Option ℕ) → Call

-- The Acting Prime as a Former Prime.
abbrev pub outgoing_of : SovereignAuthority → ℕ → Option ℕ → FormerPrime
outgoing_of a now stepped_down_at = record {
  id = a.acting.id;
  name = a.acting.name;
  since = a.acting.since;
  stepped_down_at = or_else stepped_down_at now;
}

module _ (digest : Json → String) (sha256 : String → String) where
  abbrev pub log_event :
      ℕ → LedgerRecordKind → String → String → Json → DesignatedLedger → DesignatedLedger
  log_event now kind actor_id summary detail ledger =
      (record_event digest sha256 now (event_input kind actor_id summary detail) ledger).1

  -- A flagged directive goes to the ledger, a critical one first.
  unfoldable pub log_directive : ℕ → Directive → DesignatedLedger → DesignatedLedger
  log_directive now d ledger =
      let noted =
        if d.critical
        then log_event now critical_oob_decision d.issued_by
            (template ("critical directive: " ∷ d.command ∷ [])) (directive_detail d) ledger
        else ledger in
      if d.anomalous
      then log_event now anomalous_command d.issued_by
          (template ("anomalous directive: " ∷ d.command ∷ [])) (directive_detail d) noted
      else noted

  unfoldable pub issue_directive :
      ℕ → String → IssueOptions → SovereignAuthority → Directive × SovereignAuthority
  unfolding log_directive directive_of
  issue_directive now command options a =
      let d = directive_of now command options a in
      (
        d,
        record a {
          seq = suc a.seq;
          directives_by_id = insert d.id d a.directives_by_id;
          order = a.order ++ d.id ∷ [];
          ledger = log_directive now d a.ledger;
        },
      )

  unfoldable pub veto :
      ℕ → String → String → String → Directive → SovereignAuthority → SovereignAuthority
  veto now former_id id reason d a = record a {
    directives_by_id = insert id (vetoed now former_id reason d) a.directives_by_id;
    ledger =
        log_event now override former_id
          (template ("Former Prime countermanded directive '" ∷ id ∷ "'" ∷ []))
          (object (
            field "directiveId" (string id) (
              field "issuedBy" (string d.issued_by)
                (field "command" (string d.command) (field "reason" (string reason) end)))))
          a.ledger;
  }

  -- Past the test of the former prime, by the directive that was found.
  unfoldable pub countermand_found :
      ℕ
      → String
      → String
      → String
      → Option Directive
      → SovereignAuthority
      → Countermand × SovereignAuthority
  unfolding veto
  countermand_found now former_id id reason none a = (unknown id, a)
  countermand_found now former_id id reason (some d) a =
      if has_status d.status
      then (answered (vetoed now former_id reason d), veto now former_id id reason d a)
      else (answered d, a)

  unfoldable pub countermand :
      ℕ → String → String → String → SovereignAuthority → Countermand × SovereignAuthority
  unfolding countermand_found
  countermand now former_id id reason a =
      if contains former_id a.formers
      then countermand_found now former_id id reason (lookup id a.directives_by_id) a
      else (unauthorized former_id, a)

  unfoldable pub succeed : ℕ → ActingPrime → Option ℕ → SovereignAuthority → SovereignAuthority
  succeed now successor stepped_down_at a = record a {
    formers = insert a.acting.id (outgoing_of a now stepped_down_at) a.formers;
    acting = successor;
    ledger =
        log_event now critical_oob_decision successor.id "sovereign succession"
          (object (field "from" (string a.acting.id) (field "to" (string successor.id) end)))
          a.ledger;
  }

  unfoldable pub perform : Call → SovereignAuthority → SovereignAuthority
  unfolding issue_directive countermand succeed
  perform (issuing now command options) a = (issue_directive now command options a).1
  perform (countermanding now former_id id reason) a = (countermand now former_id id reason a).1
  perform (succession now successor stepped_down_at) a = succeed now successor stepped_down_at a

  unfoldable pub run : List Call → SovereignAuthority → SovereignAuthority
  run [] a = a
  run (c ∷ cs) a = run cs (perform c a)
