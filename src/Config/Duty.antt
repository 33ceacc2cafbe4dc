-- ===== src/Config/Duty.antt =====
-- hdv-foundation/config/duty.ts
use hdv_orchestrator.Common.{
  ℕ, ◌+◌, String, Bool, true, false, Option, none, some, List, [], ◌∷◌, ◌≡◌, arith, ◌==◌, string_eq,
  if◌then◌else◌,
}
use hdv_orchestrator.Json.{Json, string}

pub data DutyClass : Type 0 where
  governance execution creation : DutyClass

pub data PrimaryTriadRole : Type 0 where
  hope vision dream : PrimaryTriadRole

-- `isPrimaryTriadRole`, with the role that the type guard narrows to.
unfoldable pub primary_triad_role : String → Option PrimaryTriadRole
primary_triad_role name =
    if name == "HOPE"
    then some hope
    else if name == "VISION"
    then some vision
    else if name == "DREAM"
    then some dream
    else none

unfoldable pub role_duty : PrimaryTriadRole → DutyClass
role_duty hope = governance
role_duty vision = execution
role_duty dream = creation

unfoldable pub role_duty_percent : PrimaryTriadRole → DutyClass → ℕ
role_duty_percent hope governance = 100
role_duty_percent vision execution = 100
role_duty_percent dream creation = 100
role_duty_percent _ _ = 0

unfoldable pub forbidden : PrimaryTriadRole → List DutyClass
forbidden hope = execution ∷ creation ∷ []
forbidden vision = governance ∷ creation ∷ []
forbidden dream = governance ∷ execution ∷ []

unfoldable pub duty_for_intent_kind : Option String → Option DutyClass
duty_for_intent_kind none = none
duty_for_intent_kind (some kind) =
    if kind == "EXECUTE"
    then some execution
    else if kind == "SIMULATE"
    then some creation
    else if kind == "QUERY"
    then some governance
    else if kind == "CLARIFY"
    then some governance
    else if kind == "DOCUMENT"
    then some governance
    else none

unfoldable pub as_duty_class : Json → Option DutyClass
as_duty_class (string s) =
    if s == "GOVERNANCE"
    then some governance
    else if s == "EXECUTION"
    then some execution
    else if s == "CREATION"
    then some creation
    else none
as_duty_class v = none

abbrev pub duty_name : DutyClass → String
duty_name governance = "GOVERNANCE"
duty_name execution = "EXECUTION"
duty_name creation = "CREATION"

abbrev pub same_duty : DutyClass → DutyClass → Bool
same_duty governance governance = true
same_duty execution execution = true
same_duty creation creation = true
same_duty _ _ = false

-- `duties.includes(d)`
abbrev pub includes : List DutyClass → DutyClass → Bool
includes [] d = false
includes (e ∷ es) d = let rest = includes es d in if same_duty e d then true else rest

-- Every triad role gives all of its hundred per cent to one duty, and what it is forbidden is
-- exactly what it gives nothing to.
duty_separation :
    (r : PrimaryTriadRole) (d : DutyClass)
    → (role_duty_percent r governance + role_duty_percent r execution + role_duty_percent r creation
        ≡ 100)
      × (role_duty_percent r (role_duty r) ≡ 100)
      × (includes (forbidden r) d ≡ (if same_duty d (role_duty r) then false else true))
unfolding role_duty role_duty_percent forbidden
duty_separation r d = (ground arith, ground arith, ground arith)
