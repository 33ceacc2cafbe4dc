-- ===== src/Worker/Steps/Forward.antt =====
-- packages/worker/src/engine/dag.ts: which calls a call waits for.
use hdv_orchestrator.Common.{
  ℕ, ◌<◌, String, false, none, some, List, [], ◌∷◌, ◌==◌, ◌≡◌, inl, inr, refl, ◌∙◌, sym, ap, arith,
  Bool-cases, string_eq, All-map,
}
use hdv_orchestrator.JsMap.{lookup}
use hdv_orchestrator.JsMap.Laws.{lookup-insert}
use hdv_orchestrator.Worker.Graph.{Graph}
use hdv_orchestrator.Worker.Engine.{Engine, Phase, gathering, busy, includes, set_phase}
use hdv_orchestrator.Worker.Steps.{NodeLog, prepare}
use hdv_orchestrator.Worker.Steps.Trail.{
  Trail, stops, advances, begins, finishes, recovers, fails, skips, launches_node, launches_nothing,
  calls_of, depth, HasPhase, AreLater,
}
use hdv_orchestrator.Worker.Steps.Known.{IsKnown, launch-IsKnown, advance-IsKnown, widen-IsKnown}
use hdv_orchestrator.Worker.Steps.Placed.{insert-HasPhase, depth-cons}
use hdv_orchestrator.Worker.Steps.Started.{prepare-keeps}

-- Every call waits only for calls that were launched after it.
abbrev pub IsForward : Engine → Type 0
IsForward e = (id : String) (p : Phase) → lookup id e.phases ≡ some p → AreLater id e (calls_of p)

-- A new phase of a call leaves the others later.
set_phase-AreLater :
    (id j : String) (q : Phase) (e : Engine) (calls : List String)
    → AreLater j e calls
    → AreLater j (set_phase id q e) calls
set_phase-AreLater id j q e calls h =
    All-map (λ c. HasPhase c e × (depth j e.launches < depth c e.launches))
      (λ c. HasPhase c (set_phase id q e) × (depth j e.launches < depth c e.launches)) calls
      (λ c k. (insert-HasPhase id c q e.phases (inl k.0), k.1)) h

set_phase-IsForward :
    (id : String) (q : Phase) (e : Engine)
    → AreLater id e (calls_of q)
    → IsForward e
    → IsForward (set_phase id q e)
set_phase-IsForward id q e later forward j p at = elim (Bool-cases (id == j)) [
  | inl same ↦
      let now : some q ≡ some p = rw (lookup-insert id j q e.phases, same) at at in
      let k : q ≡ p = cc in
      rw (← (string_eq.same_iff id j).0 same, ← k) (set_phase-AreLater id id q e (calls_of q) later)
  | inr other ↦
      set_phase-AreLater id j q e (calls_of p)
        (forward j p (rw (lookup-insert id j q e.phases, other) at at))
]

-- A launch leaves the others later.
mark-IsForward :
    (g : Graph) (id : String) (e : Engine)
    → includes id e.launches ≡ false
    → IsKnown g e.phases e.launches
    → IsForward e
    → IsForward (record e { launches = id ∷ e.launches })
mark-IsForward g id e new known forward j p at =
    let old = known j p at in
    All-map (λ c. HasPhase c e × (depth j e.launches < depth c e.launches))
      (λ c. HasPhase c e × (depth j (id ∷ e.launches) < depth c (id ∷ e.launches))) (calls_of p)
      (λ c k.
        let mine = depth-cons id j e.launches new old.1 in
        let its = depth-cons id c e.launches new (known c k.0.0 k.0.1).1 in (k.0, omega arith))
      (forward j p at)

pub Trail-IsForward :
    (g : Graph) {n : ℕ} {e f : Engine} (t : Trail g n e f)
    → IsKnown g e.phases e.launches
    → IsForward e
    → IsForward f
Trail-IsForward g (stops e) known forward = forward
Trail-IsForward g {e} (advances id p q at less later t) known forward =
    Trail-IsForward g t (advance-IsKnown g id p q e at known)
      (set_phase-IsForward id q e later forward)
Trail-IsForward g {e} (begins id inputs input at t) known forward =
    Trail-IsForward g t (advance-IsKnown g id (gathering inputs) (busy input) e at known)
      (set_phase-IsForward id (busy input) e tt forward)
Trail-IsForward g (finishes id output t) known forward = Trail-IsForward g t known forward
Trail-IsForward g (recovers id output t) known forward = Trail-IsForward g t known forward
Trail-IsForward g (fails id t) known forward = Trail-IsForward g t known forward
Trail-IsForward g (skips id t) known forward = Trail-IsForward g t known forward
Trail-IsForward g {e} (launches_node id node inputs new here ready t) known forward =
    Trail-IsForward g t (launch-IsKnown g id node (gathering inputs) e here known) (
      set_phase-IsForward id (gathering inputs) (record e { launches = id ∷ e.launches }) tt
        (mark-IsForward g id e new known forward))
Trail-IsForward g {e} (launches_nothing id new t) known forward =
    Trail-IsForward g t (widen-IsKnown g id e known) (mark-IsForward g id e new known forward)

none_not : (p : Phase) → ¬ (none ≡ some p)
none_not p h = cc

pub prepare-IsForward : (g : Graph) (ls : List NodeLog) → IsForward (prepare g ls)
prepare-IsForward g ls =
    let empty : (prepare g ls).phases ≡ [] =
      prepare-keeps g (λ e. e.phases ≡ []) (λ id e h. h) (λ l e h. h) ls refl in
    λ id p at. absurd (none_not p (sym (ap (lookup id) empty) ∙ at))
