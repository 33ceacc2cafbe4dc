-- ===== src/Knoll/Laws.antt =====
-- hdv-foundation/knoll/laws.ts: the virtual laws, in the order in which KNOLL runs them.
pub mod Patterns
pub mod Edges
use hdv_orchestrator.Common.{
  ℕ, String, Bool, true, false, ◌&&◌, ◌||◌, Option, none, some, List, [], ◌∷◌, ◌++◌, ◌==◌,
  string_eq, map, if◌then◌else◌, some_by,
}
use hdv_orchestrator.Json.{
  Json, Items, Fields, undefined, null, boolean, number, string, array, object, nil, cons, end,
  field, prop, truthy, is_text, to_text, as_string,
}
use hdv_orchestrator.Text.{codes}
use hdv_orchestrator.Text.Decimal.{template}
use hdv_orchestrator.Config.Routing.{AgentRole, all_roles, role_name, RoutingPacket}
use hdv_orchestrator.Config.Duty.{
  DutyClass, primary_triad_role, role_duty, forbidden, duty_for_intent_kind, as_duty_class,
  duty_name, includes, PrimaryTriadRole,
}
use hdv_orchestrator.Config.Hash.{is_well_formed_knoll_token}
use hdv_orchestrator.Knoll.Laws.Patterns.{first_pattern}

pub record LawVerdict : Type 0 where
  pub passed : Bool
  pub law : String
  pub reasoning : Option String

-- `sourceTenantId`, which may be missing.
abbrev pub KnollLawContext : Type 0
KnollLawContext = Option String

abbrev pass : String → LawVerdict
pass law = record { passed = true; law = law; reasoning = none }

abbrev fail : String → String → LawVerdict
fail law reasoning = record { passed = false; law = law; reasoning = some reasoning }

unfoldable pub law_token_well_formed : RoutingPacket → KnollLawContext → LawVerdict
law_token_well_formed packet context =
    if is_well_formed_knoll_token packet.security.knoll_token
    then pass "TOKEN_WELL_FORMED"
    else fail "TOKEN_WELL_FORMED" "knoll_token missing or malformed"

-- `Object.values(AgentRole).includes(name)`
abbrev pub is_role : String → Bool
is_role name = some_by (λ r. role_name r == name) all_roles

unfoldable pub law_valid_endpoints : RoutingPacket → KnollLawContext → LawVerdict
law_valid_endpoints packet context =
    let source = packet.header.source in
    let destination = packet.header.destination in
    if is_role source && is_role destination
    then (if source == destination
        then fail "VALID_ENDPOINTS" (
            template
              ("self-addressed packet (" ∷ source ∷ " -> " ∷ destination ∷ ") is illegal" ∷ []))
        else pass "VALID_ENDPOINTS")
    else fail "VALID_ENDPOINTS" "unknown source or destination role"

abbrev direct_traffic : String → String → String
direct_traffic a b =
    template ("direct " ∷ a ∷ " -> " ∷ b ∷ " traffic is forbidden; must be mediated by APEX" ∷ [])

unfoldable pub law_no_direct_dream_vision : RoutingPacket → KnollLawContext → LawVerdict
law_no_direct_dream_vision packet context =
    let source = packet.header.source in
    let destination = packet.header.destination in
    if source == "DREAM" && destination == "VISION"
    then fail "NO_DIRECT_DREAM_VISION" (direct_traffic "DREAM" "VISION")
    else if source == "VISION" && destination == "DREAM"
    then fail "NO_DIRECT_DREAM_VISION" (direct_traffic "VISION" "DREAM")
    else pass "NO_DIRECT_DREAM_VISION"

unfoldable pub law_no_knoll_forgery : RoutingPacket → KnollLawContext → LawVerdict
law_no_knoll_forgery packet context =
    if packet.header.source == "KNOLL"
    then fail "NO_KNOLL_FORGERY"
        "KNOLL is monitor-only and never originates packets; source=KNOLL is a forgery"
    else pass "NO_KNOLL_FORGERY"

unfoldable pub law_hope_cannot_command : RoutingPacket → KnollLawContext → LawVerdict
law_hope_cannot_command packet context =
    let destination = packet.header.destination in
    if packet.header.source == "HOPE" && (destination == "VISION" || destination == "DREAM")
    then fail "HOPE_CANNOT_COMMAND" (
        template (
          "HOPE cannot directly target " ∷ destination ∷ "; HOPE routes intent through APEX only"
          ∷ []))
    else pass "HOPE_CANNOT_COMMAND"

-- `collectStrings`: every string in a value, at any depth.
unfoldable mutual
  pub collect_strings : Json → List String
  collect_strings (string s) = s ∷ []
  collect_strings (array xs) = collect_items xs
  collect_strings (object fs) = collect_fields fs
  collect_strings undefined = []
  collect_strings null = []
  collect_strings (boolean b) = []
  collect_strings (number n) = []

  pub collect_items : Items → List String
  collect_items nil = []
  collect_items (cons v vs) = collect_strings v ++ collect_items vs

  pub collect_fields : Fields → List String
  collect_fields end = []
  collect_fields (field k v fs) = collect_strings v ++ collect_fields fs

-- `join(' \n ')`, by characters
abbrev pub join_lines : List String → List ℕ
join_lines [] = []
join_lines (s ∷ []) = codes s
join_lines (s ∷ t ∷ ss) = codes s ++ 32 ∷ 10 ∷ 32 ∷ join_lines (t ∷ ss)

unfoldable pub law_no_malicious_intent : RoutingPacket → KnollLawContext → LawVerdict
unfolding collect_strings
law_no_malicious_intent packet context =
    elim (first_pattern
      (join_lines (packet.payload.intent ∷ collect_strings packet.payload.content))) [
        | none ↦ pass "NO_MALICIOUS_INTENT"
        | some pattern ↦
            fail "NO_MALICIOUS_INTENT"
              (template ("blocked by malicious-intent heuristic: " ∷ pattern ∷ []))
      ]

cross_tenant : Json → String → LawVerdict
unfolding to_text
cross_tenant packet_tenant source_tenant = fail "NO_CROSS_TENANT" (
    template (
      "cross-tenant traffic denied: source tenant \""
      ∷ source_tenant
      ∷ "\" may not address packet tenant \""
      ∷ to_text packet_tenant
      ∷ "\""
      ∷ []))

unfoldable pub law_no_cross_tenant : RoutingPacket → KnollLawContext → LawVerdict
unfolding cross_tenant
law_no_cross_tenant packet none = pass "NO_CROSS_TENANT"
law_no_cross_tenant packet (some source_tenant) =
    if truthy packet.header.tenant_id
    then (if source_tenant == ""
        then pass "NO_CROSS_TENANT"
        else if is_text source_tenant packet.header.tenant_id
        then pass "NO_CROSS_TENANT"
        else cross_tenant packet.header.tenant_id source_tenant)
    else pass "NO_CROSS_TENANT"

-- `a ?? b`
abbrev or_else {ℓ} : {A : Type ℓ} → Option A → Option A → Option A
or_else none b = b
or_else (some a) b = some a

unfoldable pub requested_duty : RoutingPacket → Option DutyClass
requested_duty packet = or_else (as_duty_class (prop "duty" packet.payload.content)) (
    or_else (as_duty_class (prop "requestedDuty" packet.payload.content))
      (duty_for_intent_kind (as_string (prop "kind" packet.payload.content))))

duty_violation : String → PrimaryTriadRole → DutyClass → LawVerdict
unfolding role_duty
duty_violation destination role duty = fail "PRIMARY_TRIAD_DUTY" (
    template (
      "duty violation: "
      ∷ destination
      ∷ " is 100% "
      ∷ duty_name (role_duty role)
      ∷ " and is forbidden "
      ∷ duty_name duty
      ∷ " (authority flows Hope -> Vision -> Dream)"
      ∷ []))

unfoldable pub law_primary_triad_duty : RoutingPacket → KnollLawContext → LawVerdict
unfolding duty_violation
law_primary_triad_duty packet context = elim (primary_triad_role packet.header.destination) [
  | none ↦ pass "PRIMARY_TRIAD_DUTY"
  | some role ↦ elim (requested_duty packet) [
    | none ↦ pass "PRIMARY_TRIAD_DUTY"
    | some duty ↦
        if includes (forbidden role) duty
        then duty_violation packet.header.destination role duty
        else pass "PRIMARY_TRIAD_DUTY"
  ]
]

abbrev pub KnollLaw : Type 0
KnollLaw = RoutingPacket → KnollLawContext → LawVerdict

abbrev pub virtual_laws : List KnollLaw
virtual_laws =
    law_token_well_formed ∷ law_valid_endpoints ∷ law_no_direct_dream_vision ∷ law_no_knoll_forgery
    ∷ law_hope_cannot_command ∷ law_no_malicious_intent ∷ law_no_cross_tenant
    ∷ law_primary_triad_duty ∷ []

-- The loop of `intercept` over the laws: the verdict of the first law that fails.
unfoldable pub first_failure : List KnollLaw → RoutingPacket → KnollLawContext → Option LawVerdict
first_failure [] packet context = none
first_failure (law ∷ laws) packet context =
    let verdict = law packet context in
    let rest = first_failure laws packet context in if verdict.passed then rest else some verdict
