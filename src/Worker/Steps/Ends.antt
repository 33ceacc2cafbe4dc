-- ===== src/Worker/Steps/Ends.antt =====
-- packages/worker/src/engine/dag.ts: how long an execution can go on.
use hdv_orchestrator.Common.{
  ℕ, ◌+◌, ◌*◌, ◌<◌, ◌≤◌, String, true, some, List, [], ◌∷◌, length, ◌==◌, some_by, ◌≡◌, refl, ◌∙◌,
  ap, arith, Bool-cases, inl, inr, string_eq,
}
use hdv_orchestrator.Json.{Json}
use hdv_orchestrator.JsMap.{Entries, lookup, insert}
use hdv_orchestrator.JsMap.Laws.{lookup-insert, lookup-insert_self}
use hdv_orchestrator.Worker.Graph.{Graph, RawNode, is_node}
use hdv_orchestrator.Worker.Engine.{Engine, Phase, gathering, busy}
use hdv_orchestrator.Worker.Steps.{Choice, run, start, NodeLog, prepare}
use hdv_orchestrator.Worker.Steps.Trail.{
  rank, Trail, stops, advances, begins, finishes, recovers, fails, skips, launches_node,
  launches_nothing,
}
use hdv_orchestrator.Worker.Steps.Started.{prepare-keeps}
use hdv_orchestrator.Worker.Steps.Trail.Goes.{start-Trail}
use hdv_orchestrator.Worker.Steps.Known.{
  IsKnown, launch-IsKnown, advance-IsKnown, fresh_phase, widen-IsKnown, prepare-IsKnown,
}

-- The phases that the calls of all nodes still have before them at most.
unfoldable pub weight : List RawNode → Entries String Phase → ℕ
weight [] m = 0
weight (n ∷ ns) m = rank (lookup n.id m) + weight ns m

rank-insert_le :
    (id j : String) (q : Phase) (m : Entries String Phase)
    → rank (some q) ≤ rank (lookup id m)
    → rank (lookup j (insert id q m)) ≤ rank (lookup j m)
rank-insert_le id j q m h = elim (Bool-cases (id == j)) [
  | inl same ↦
      rw (lookup-insert id j q m, same)
        (let e : rank (lookup id m) ≡ rank (lookup j m) =
            ap (λ i. rank (lookup i m)) ((string_eq.same_iff id j).0 same) in
          omega arith)
  | inr other ↦ rw (lookup-insert id j q m, other) (omega arith)
]

weight-insert_le :
    (id : String) (q : Phase) (ns : List RawNode) (m : Entries String Phase)
    → rank (some q) ≤ rank (lookup id m)
    → weight ns (insert id q m) ≤ weight ns m
unfolding weight
weight-insert_le id q [] m h = omega arith
weight-insert_le id q (n ∷ ns) m h =
    omega (arith, weight-insert_le id q ns m h, rank-insert_le id n.id q m h)

weight-insert_lt :
    (id : String) (q : Phase) (ns : List RawNode) (m : Entries String Phase)
    → some_by (λ n. n.id == id) ns ≡ true
    → rank (some q) < rank (lookup id m)
    → weight ns (insert id q m) < weight ns m
unfolding weight
weight-insert_lt id q [] m here h = cc
weight-insert_lt id q (n ∷ ns) m here h = elim (Bool-cases (n.id == id)) [
  | inl same ↦
      let e = (string_eq.same_iff n.id id).0 same in
      let drop : rank (lookup n.id (insert id q m)) < rank (lookup n.id m) =
        rw (e, lookup-insert_self id q m) h in
      omega (arith, drop, weight-insert_le id q ns m (omega arith))
  | inr other ↦
      omega (
        arith,
        weight-insert_lt id q ns m (ground arith) h,
        rank-insert_le id n.id q m (omega arith),
      )
]

-- Every phase of a call costs one unit of the weight.
pub Trail-weight :
    (g : Graph) {n : ℕ} {e f : Engine} (t : Trail g n e f)
    → IsKnown g e.phases e.launches
    → weight g.nodes f.phases + n ≤ weight g.nodes e.phases
unfolding rank is_node
Trail-weight g (stops e) known = omega arith
Trail-weight g {e} (advances id p q at less later t) known = omega (
  arith,
  Trail-weight g t (advance-IsKnown g id p q e at known),
  weight-insert_lt id q g.nodes e.phases (known id p at).0 (rw at less),
)
Trail-weight g {e} (begins id inputs input at t) known = omega (
  arith,
  Trail-weight g t (advance-IsKnown g id (gathering inputs) (busy input) e at known),
  weight-insert_lt id (busy input) g.nodes e.phases (known id (gathering inputs) at).0
      (rw at (omega arith)),
)
Trail-weight g (finishes id output t) known = Trail-weight g t known
Trail-weight g (recovers id output t) known = Trail-weight g t known
Trail-weight g (fails id t) known = Trail-weight g t known
Trail-weight g (skips id t) known = Trail-weight g t known
Trail-weight g {e} (launches_node id node inputs new here ready t) known = omega (
  arith,
  Trail-weight g t (launch-IsKnown g id node (gathering inputs) e here known),
  weight-insert_le id (gathering inputs) g.nodes e.phases
      (rw (fresh_phase g id e new known) (omega arith)),
)
Trail-weight g {e} (launches_nothing id new t) known = Trail-weight g t (widen-IsKnown g id e known)

weight-empty : (ns : List RawNode) → weight ns [] ≡ 7 * length ns
unfolding weight rank
weight-empty [] = omega arith
weight-empty (n ∷ ns) = omega (arith, weight-empty ns)

phases-prepare : (g : Graph) (ls : List NodeLog) → (prepare g ls).phases ≡ []
phases-prepare g ls = prepare-keeps g (λ e. e.phases ≡ []) (λ id e h. h) (λ l e h. h) ls refl

-- Whatever `executeNode` answers or throws and whichever services fail: an execution of a graph takes
-- at most seven steps for each of its nodes, cycles of edges included.
pub run_ends :
    (g : Graph) (resolve : Json → Json) (trigger_data : Json) (ls : List NodeLog)
    → (cs : List Choice) (f : Engine) → run g resolve trigger_data cs (start g resolve ls) ≡ some f
    → length cs ≤ 7 * length g.nodes
run_ends g resolve trigger_data ls cs f taken =
    let trail = start-Trail g resolve trigger_data ls cs f taken in
    let full : weight g.nodes (prepare g ls).phases ≡ 7 * length g.nodes =
      ap (weight g.nodes) (phases-prepare g ls) ∙ weight-empty g.nodes in
    omega (arith, Trail-weight g trail (prepare-IsKnown g ls))
