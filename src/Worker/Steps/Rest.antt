-- ===== src/Worker/Steps/Rest.antt =====
-- packages/worker/src/engine/dag.ts: that every execution can be brought to rest.
use hdv_orchestrator.Common.{
  ℕ, zero, suc, ◌≤◌, String, Bool, true, false, Option, none, some, List, [], ◌∷◌, length, ◌≡◌, ◌⊎◌,
  inl, inr, refl, arith, Option-cases, string_eq, All,
}
use hdv_orchestrator.Json.{Json}
use hdv_orchestrator.JsMap.{lookup}
use hdv_orchestrator.Worker.Graph.{Graph, RawNode}
use hdv_orchestrator.Worker.Engine.{Engine, Phase, resolved, rejected}
use hdv_orchestrator.Worker.Steps.{Choice, run, start, NodeLog}
use hdv_orchestrator.Worker.Steps.Trail.{rank, Trail, stops}
use hdv_orchestrator.Worker.Steps.Known.{IsKnown, Trail-IsKnown, prepare-IsKnown}
use hdv_orchestrator.Worker.Steps.Trail.Goes.{step-Goes, start-Trail}
use hdv_orchestrator.Worker.Steps.Ends.{weight, Trail-weight}
use hdv_orchestrator.Worker.Steps.Forward.{IsForward, Trail-IsForward, prepare-IsForward}
use hdv_orchestrator.Worker.Steps.Progress.{CanGo, can_go}

-- No call, or one that is resolved or rejected.
abbrev pub is_over : Option Phase → Bool
is_over none = true
is_over (some resolved) = true
is_over (some (rejected message)) = true
is_over p = false

-- Every node that was launched has a call that is resolved or rejected.
abbrev pub AtRest : List RawNode → Engine → Type 0
AtRest ns e = All (λ n. is_over (lookup n.id e.phases) ≡ true) ns

over-rank : (p : Phase) → rank (some p) ≡ 0 → is_over (some p) ≡ true
unfolding rank
over-rank resolved h = refl
over-rank (rejected message) h = refl
over-rank p h = absurd (omega arith)

module _ (g : Graph) (resolve : Json → Json) (trigger_data : Json) where
  over_or_goes :
      (e : Engine)
      → IsKnown g e.phases e.launches
      → IsForward e
      → (id : String) → (is_over (lookup id e.phases) ≡ true) ⊎ CanGo g resolve trigger_data e
  over_or_goes e known forward id = elim (Option-cases (lookup id e.phases)) [
    | inl missing ↦ inl (rw missing refl)
    | inr (p, at) ↦
        (elim (can_go g resolve trigger_data e known forward (length e.launches) id p at
          (omega arith)) [ inl over ↦ inl (rw at (over-rank p over)) | inr go ↦ inr go ])
  ]

  rest_or_goes :
      (e : Engine)
      → IsKnown g e.phases e.launches
      → IsForward e
      → (ns : List RawNode) → AtRest ns e ⊎ CanGo g resolve trigger_data e
  rest_or_goes e known forward [] = inl tt
  rest_or_goes e known forward (n ∷ ns) = elim (over_or_goes e known forward n.id) [
    | inl over ↦ (elim (rest_or_goes e known forward ns) [
      | inl rest ↦ inl (over, rest)
      | inr go ↦ inr go
    ])
    | inr go ↦ inr go
  ]

  -- By induction on the phases that are left.
  rests_from :
      (n : ℕ) (e : Engine)
      → IsKnown g e.phases e.launches
      → IsForward e
      → weight g.nodes e.phases ≤ n
      → (cs : List Choice) × (f : Engine) × (run g resolve trigger_data cs e ≡ some f)
        × AtRest g.nodes f
  unfolding run
  rests_from zero e known forward low = elim (rest_or_goes e known forward g.nodes) [
    | inl rest ↦ ([], e, refl, rest)
    | inr (c, mid, went) ↦
        let t : Trail g 1 e mid =
          step-Goes g resolve trigger_data c e mid known went zero mid (stops mid) in
        absurd (omega (arith, Trail-weight g t known))
  ]
  rests_from (suc n) e known forward low = elim (rest_or_goes e known forward g.nodes) [
    | inl rest ↦ ([], e, refl, rest)
    | inr (c, mid, went) ↦
        let t : Trail g 1 e mid =
          step-Goes g resolve trigger_data c e mid known went zero mid (stops mid) in
        let lighter = Trail-weight g t known in
        let (cs, f, later, rest) =
          rests_from n mid (Trail-IsKnown g t known) (Trail-IsForward g t known forward)
            (omega arith) in
        (c ∷ cs, f, rw went later, rest)
  ]

-- On any graph and from any checkpoint: whatever schedule was run so far, there are further steps
-- after which every call that was made is resolved or rejected, so no execution is ever stuck with
-- two calls that wait for each other.
pub run_rests :
    (g : Graph) (resolve : Json → Json) (trigger_data : Json) (ls : List NodeLog)
    → (cs : List Choice) (e : Engine) → run g resolve trigger_data cs (start g resolve ls) ≡ some e
    → (more : List Choice) × (f : Engine) × (run g resolve trigger_data more e ≡ some f)
      × AtRest g.nodes f
run_rests g resolve trigger_data ls cs e taken =
    let t = start-Trail g resolve trigger_data ls cs e taken in
    let known = prepare-IsKnown g ls in
    rests_from g resolve trigger_data (weight g.nodes e.phases) e (Trail-IsKnown g t known)
      (Trail-IsForward g t known (prepare-IsForward g ls)) (omega arith)
