-- ===== src/Worker/Steps/Launches.antt =====
-- packages/worker/src/engine/dag.ts: how often a node begins.
use mathlib.Core.Path.{subst}
use hdv_orchestrator.Common.{
  ℕ, suc, ◌<◌, ◌≤◌, String, some, List, [], ◌∷◌, ◌==◌, ltb, if◌then◌else◌, ◌≡◌, ap, arith,
  Bool-cases, inl, inr, string_eq,
}
use hdv_orchestrator.Json.{Json}
use hdv_orchestrator.JsMap.{Entries, lookup, insert}
use hdv_orchestrator.JsMap.Laws.{lookup-insert}
use hdv_orchestrator.Worker.Graph.{Graph}
use hdv_orchestrator.Worker.Engine.{Engine, Phase, gathering, busy, Event, began}
use hdv_orchestrator.Worker.Steps.{Choice, run, start, NodeLog, prepare}
use hdv_orchestrator.Worker.Steps.Trail.{
  rank, Trail, stops, advances, begins, finishes, recovers, fails, skips, launches_node,
  launches_nothing,
}
use hdv_orchestrator.Worker.Steps.Known.{
  IsKnown, launch-IsKnown, advance-IsKnown, widen-IsKnown, fresh_phase, prepare-IsKnown,
}
use hdv_orchestrator.Worker.Steps.Started.{prepare-keeps}
use hdv_orchestrator.Worker.Steps.Trail.Goes.{start-Trail}

-- How often a node began, by the log.
unfoldable pub times_begun : String → List Event → ℕ
times_begun id [] = 0
times_begun id (began j ∷ vs) = let rest = times_begun id vs in if j == id then suc rest else rest
times_begun id (v ∷ vs) = times_begun id vs

-- 1 for a call that is past its first phase, otherwise 0.
abbrev past : ℕ → ℕ
past r = if ltb r 6 then 1 else 0

-- A node began at most once, and not before its call is past its first phase.
abbrev pub IsBegunOnce : Engine → Type 0
IsBegunOnce e = (id : String) → times_begun id e.log ≤ past (rank (lookup id e.phases))

insert-IsBegunOnce :
    (id : String) (q : Phase) (m : Entries String Phase) (count : String → ℕ)
    → past (rank (lookup id m)) ≤ past (rank (some q))
    → ((j : String) → count j ≤ past (rank (lookup j m)))
    → (j : String) → count j ≤ past (rank (lookup j (insert id q m)))
insert-IsBegunOnce id q m count grow once j = elim (Bool-cases (id == j)) [
  | inl same ↦
      let e : past (rank (lookup id m)) ≡ past (rank (lookup j m)) =
        ap (λ i. past (rank (lookup i m))) ((string_eq.same_iff id j).0 same) in
      rw (lookup-insert id j q m, same) (omega (arith, once j))
  | inr other ↦ rw (lookup-insert id j q m, other) (once j)
]

past_mono : (a b : ℕ) → b < a → past a ≤ past b
past_mono a b h = ground arith

begin-IsBegunOnce :
    (id : String) (inputs : List Json) (input : Json) (e : Engine)
    → lookup id e.phases ≡ some (gathering inputs)
    → IsBegunOnce e
    → (j : String)
    → times_begun j (began id ∷ e.log) ≤ past (rank (lookup j (insert id (busy input) e.phases)))
unfolding times_begun rank
begin-IsBegunOnce id inputs input e at once j = elim (Bool-cases (id == j)) [
  | inl same ↦
      let k = (string_eq.same_iff id j).0 same in
      let zero_before : times_begun j e.log ≤ 0 =
        subst (λ i. times_begun i e.log ≤ 0) k
          (subst (λ o. times_begun id e.log ≤ past (rank o)) at (once id)) in
      rw (lookup-insert id j (busy input) e.phases, same) (omega arith)
  | inr other ↦ rw (lookup-insert id j (busy input) e.phases, other) (once j)
]

Trail-IsBegunOnce :
    (g : Graph) {n : ℕ} {e f : Engine} (t : Trail g n e f)
    → IsKnown g e.phases e.launches
    → IsBegunOnce e
    → IsBegunOnce f
unfolding times_begun rank
Trail-IsBegunOnce g (stops e) known once = once
Trail-IsBegunOnce g {e} (advances id p q at less later t) known once =
    Trail-IsBegunOnce g t (advance-IsKnown g id p q e at known) (
      insert-IsBegunOnce id q e.phases (λ j. times_begun j e.log)
        (rw at (past_mono (rank (some p)) (rank (some q)) less)) once)
Trail-IsBegunOnce g {e} (begins id inputs input at t) known once =
    Trail-IsBegunOnce g t (advance-IsKnown g id (gathering inputs) (busy input) e at known)
      (begin-IsBegunOnce id inputs input e at once)
Trail-IsBegunOnce g (finishes id output t) known once = Trail-IsBegunOnce g t known once
Trail-IsBegunOnce g (recovers id output t) known once = Trail-IsBegunOnce g t known once
Trail-IsBegunOnce g (fails id t) known once = Trail-IsBegunOnce g t known once
Trail-IsBegunOnce g (skips id t) known once = Trail-IsBegunOnce g t known once
Trail-IsBegunOnce g {e} (launches_node id node inputs new here ready t) known once =
    Trail-IsBegunOnce g t (launch-IsKnown g id node (gathering inputs) e here known) (
      insert-IsBegunOnce id (gathering inputs) e.phases (λ j. times_begun j e.log)
        (rw (fresh_phase g id e new known) (omega arith)) once)
Trail-IsBegunOnce g {e} (launches_nothing id new t) known once =
    Trail-IsBegunOnce g t (widen-IsKnown g id e known) once

prepare-IsBegunOnce : (g : Graph) (ls : List NodeLog) → IsBegunOnce (prepare g ls)
unfolding times_begun
prepare-IsBegunOnce g ls =
    prepare-keeps g IsBegunOnce (λ id e h. h) (λ l e once. once) ls (λ id. omega arith)

-- Whatever the choices of a schedule, on any graph and from any checkpoint: if the schedule can be
-- run from the start of an execution, then no node has begun more than once.
pub run_once :
    (g : Graph) (resolve : Json → Json) (trigger_data : Json) (ls : List NodeLog)
    → (cs : List Choice) (f : Engine) (id : String)
    → run g resolve trigger_data cs (start g resolve ls) ≡ some f
    → times_begun id f.log ≤ 1
run_once g resolve trigger_data ls cs f id taken =
    let trail = start-Trail g resolve trigger_data ls cs f taken in
    let once = (Trail-IsBegunOnce g trail (prepare-IsKnown g ls) (prepare-IsBegunOnce g ls)) id in
    ground (arith, once)
