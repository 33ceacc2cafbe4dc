-- ===== src/Knoll/Laws/Edges.antt =====
-- What a packet that passes the virtual laws of hdv-foundation/knoll/laws.ts may ask of whom.
use text.Mathlib.TextEquality.{eq_iff}
use mathlib.Core.Path.{subst}
use mathlib.Core.Bool.{false≢true}
use hdv_orchestrator.Common.{
  ap, String, Bool, true, false, none, some, List, [], ◌∷◌, ◌==◌, string_eq, ◌≡◌, ◌≢◌, sym, arith,
  All, Bool-cases, inl, inr,
}
use hdv_orchestrator.Json.{Json, string, truthy, is_text}
use hdv_orchestrator.Config.Routing.{
  AgentRole, hope, dream, vision, knoll, apex, role_name, RoutingPacket,
}
use hdv_orchestrator.Config.Duty.{
  DutyClass, PrimaryTriadRole, primary_triad_role, role_duty, forbidden, includes,
}
use hdv_orchestrator.Knoll.Laws.{
  KnollLaw, KnollLawContext, is_role, virtual_laws, first_failure, law_valid_endpoints,
  law_no_direct_dream_vision, law_no_knoll_forgery, law_hope_cannot_command, law_no_cross_tenant,
  law_primary_triad_duty, requested_duty,
}

-- The routes that the constitution allows: everybody but KNOLL speaks, nobody to itself; HOPE
-- reaches VISION and DREAM through APEX only, and VISION and DREAM do not reach one another.
pub is_legal_edge : AgentRole → AgentRole → Bool
is_legal_edge apex apex = false
is_legal_edge apex _ = true
is_legal_edge knoll _ = false
is_legal_edge hope knoll = true
is_legal_edge hope apex = true
is_legal_edge hope _ = false
is_legal_edge dream hope = true
is_legal_edge dream knoll = true
is_legal_edge dream apex = true
is_legal_edge dream _ = false
is_legal_edge vision hope = true
is_legal_edge vision knoll = true
is_legal_edge vision apex = true
is_legal_edge vision _ = false

first_failure-All :
    (laws : List KnollLaw) (packet : RoutingPacket) (context : KnollLawContext)
    → first_failure laws packet context ≡ none
    → All (λ law. (law packet context).passed ≡ true) laws
unfolding first_failure
first_failure-All [] packet context h = tt
first_failure-All (law ∷ laws) packet context h = elim (Bool-cases (law packet context).passed) [
  | inl passed ↦ (passed, first_failure-All laws packet context (ground arith))
  | inr failed ↦ ground arith
]

role_of_name : (name : String) → is_role name ≡ true → (r : AgentRole) × (name ≡ role_name r)
role_of_name name h = elim (Bool-cases ("HOPE" == name)) [
  | inl e ↦ (hope, sym ((eq_iff "HOPE" name).0 e))
  | inr h₁ ↦ elim (Bool-cases ("DREAM" == name)) [
    | inl e ↦ (dream, sym ((eq_iff "DREAM" name).0 e))
    | inr h₂ ↦ elim (Bool-cases ("VISION" == name)) [
      | inl e ↦ (vision, sym ((eq_iff "VISION" name).0 e))
      | inr h₃ ↦ elim (Bool-cases ("KNOLL" == name)) [
        | inl e ↦ (knoll, sym ((eq_iff "KNOLL" name).0 e))
        | inr h₄ ↦ (apex, sym ((eq_iff "APEX" name).0 (ground arith)))
      ]
    ]
  ]
]

abbrev with_ends : RoutingPacket → String → String → RoutingPacket
with_ends packet source destination = record packet {
  header = record packet.header { source = source; destination = destination };
}

edge_of_passes :
    (s d : AgentRole) (packet : RoutingPacket) (context : KnollLawContext)
    → let p = with_ends packet (role_name s) (role_name d) in
      (law_valid_endpoints p context).passed ≡ true
      → (law_no_direct_dream_vision p context).passed ≡ true
      → (law_no_knoll_forgery p context).passed ≡ true
      → (law_hope_cannot_command p context).passed ≡ true
      → is_legal_edge s d ≡ true
unfolding law_valid_endpoints law_no_direct_dream_vision law_no_knoll_forgery
    law_hope_cannot_command is_legal_edge
edge_of_passes hope hope packet context h₂ h₃ h₄ h₅ = cc
edge_of_passes hope d packet context h₂ h₃ h₄ h₅ = cc
edge_of_passes dream hope packet context h₂ h₃ h₄ h₅ = cc
edge_of_passes dream d packet context h₂ h₃ h₄ h₅ = cc
edge_of_passes vision hope packet context h₂ h₃ h₄ h₅ = cc
edge_of_passes vision d packet context h₂ h₃ h₄ h₅ = cc
edge_of_passes knoll hope packet context h₂ h₃ h₄ h₅ = cc
edge_of_passes knoll d packet context h₂ h₃ h₄ h₅ = cc
edge_of_passes apex hope packet context h₂ h₃ h₄ h₅ = cc
edge_of_passes apex d packet context h₂ h₃ h₄ h₅ = cc

ends_are_roles :
    (packet : RoutingPacket) (context : KnollLawContext)
    → (law_valid_endpoints packet context).passed ≡ true
    → (is_role packet.header.source ≡ true) × (is_role packet.header.destination ≡ true)
unfolding law_valid_endpoints
ends_are_roles packet context h = elim (Bool-cases (is_role packet.header.source)) [
  | inl s ↦ elim (Bool-cases (is_role packet.header.destination)) [
    | inl d ↦ (s, d)
    | inr d ↦ absurd (false≢true (rw (s, d) at h))
  ]
  | inr s ↦ absurd (false≢true (rw s at h))
]

-- A packet that no law fails goes from a role to a role along a legal edge.
pub legal_edge :
    (packet : RoutingPacket) (context : KnollLawContext)
    → first_failure virtual_laws packet context ≡ none
    → (s d : AgentRole) × (packet.header.source ≡ role_name s)
      × (packet.header.destination ≡ role_name d)
      × (is_legal_edge s d ≡ true)
legal_edge packet context h =
    let laws = (first_failure-All virtual_laws packet context h).1 in
    let (from_role, to_role) = ends_are_roles packet context laws.0 in
    let (s, source) = role_of_name packet.header.source from_role in
    let (d, destination) = role_of_name packet.header.destination to_role in
    let same : packet ≡ with_ends packet (role_name s) (role_name d) =
      λ i. with_ends packet (source i) (destination i) in
    (
      s,
      d,
      source,
      destination,
      edge_of_passes s d packet context
          (subst (λ p. (law_valid_endpoints p context).passed ≡ true) same laws.0)
          (subst (λ p. (law_no_direct_dream_vision p context).passed ≡ true) same laws.1.0)
          (subst (λ p. (law_no_knoll_forgery p context).passed ≡ true) same laws.1.1.0)
          (subst (λ p. (law_hope_cannot_command p context).passed ≡ true) same laws.1.1.1.0),
    )

own_of_allowed :
    (r : PrimaryTriadRole) (d : DutyClass) → includes (forbidden r) d ≡ false → d ≡ role_duty r
unfolding forbidden role_duty
own_of_allowed r d h = ground arith

own_of_passes :
    (packet : RoutingPacket) (context : KnollLawContext) {r : PrimaryTriadRole} {d : DutyClass}
    → (law_primary_triad_duty packet context).passed ≡ true
    → primary_triad_role packet.header.destination ≡ some r
    → requested_duty packet ≡ some d
    → d ≡ role_duty r
unfolding law_primary_triad_duty
own_of_passes packet context {r} {d} h at asked = own_of_allowed r d (ground arith)

-- A packet that no law fails asks a role of the primary triad for no duty but the role's own.
own_duty :
    (packet : RoutingPacket) (context : KnollLawContext) {r : PrimaryTriadRole} {d : DutyClass}
    → first_failure virtual_laws packet context ≡ none
    → primary_triad_role packet.header.destination ≡ some r
    → requested_duty packet ≡ some d
    → d ≡ role_duty r
own_duty packet context h at asked =
    own_of_passes packet context (first_failure-All virtual_laws packet context h).1.1.1.1.1.1.1.0
      at asked

tenant_of_text : (tenant : String) (v : Json) → is_text tenant v ≡ true → v ≡ string tenant
tenant_of_text tenant (string s) h = ap string ((eq_iff s tenant).0 h)
tenant_of_text tenant v h = cc

tenant_of_passes :
    (packet : RoutingPacket) (tenant : String)
    → (law_no_cross_tenant packet (some tenant)).passed ≡ true
    → tenant ≢ ""
    → truthy packet.header.tenant_id ≡ true
    → is_text tenant packet.header.tenant_id ≡ true
unfolding law_no_cross_tenant
tenant_of_passes packet tenant h known named = ground (arith, eq_iff tenant "")

-- Where the caller's tenant is known and the packet names one, a packet that no law fails names
-- the caller's tenant.
own_tenant :
    (packet : RoutingPacket) (tenant : String)
    → first_failure virtual_laws packet (some tenant) ≡ none
    → tenant ≢ ""
    → truthy packet.header.tenant_id ≡ true
    → packet.header.tenant_id ≡ string tenant
own_tenant packet tenant h known named = tenant_of_text tenant packet.header.tenant_id (
    tenant_of_passes packet tenant
      (first_failure-All virtual_laws packet (some tenant) h).1.1.1.1.1.1.0 known named)
