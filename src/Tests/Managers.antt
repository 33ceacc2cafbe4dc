-- ===== src/Tests/Managers.antt =====
-- Managers that are activated, used and released.
use hdv_orchestrator.Common.{false, List, [], ◌∷◌, ◌≡◌, refl, length}
use hdv_orchestrator.Text.Decimal.{padded}
use hdv_orchestrator.Config.Routing.{hope}
use hdv_orchestrator.Nodes.Managers.{
  Orchestrator, refused, Call, activating, materializing, releasing, run, create_agent_matrix,
  active_node_count, active_manager_count, materialize_node,
}
use hdv_orchestrator.Nodes.Managers.Bounds.{IsBounded, run-IsBounded}

abbrev always_on : Orchestrator
unfolding create_agent_matrix
always_on = record {
  role = hope;
  is_ephemeral = false;
  managers = create_agent_matrix hope false;
  activations = [];
}

abbrev calls : List Call
calls = activating 2 ∷ materializing 1 63 ∷ materializing 1 64 ∷ []

manager_runs :
    (length always_on.managers ≡ 64)
    × (active_manager_count (run calls always_on) ≡ 2)
    × (active_node_count (run calls always_on) ≡ 1)
unfolding run always_on padded active_manager_count active_node_count
manager_runs = (refl, refl, refl)

-- A manager of an always-on agent that has been released cannot be used again, although it has been
-- activated again: it stays idle.
released_for_good :
    (materialize_node 1 5 (run (activating 2 ∷ releasing 1 ∷ activating 2 ∷ []) always_on)).0
    ≡ refused "SubManagerOrchestrator: manager HOPE-mgr-01 is not ACTIVE"
unfolding run always_on padded materialize_node
released_for_good = refl

run-IsBounded_example : IsBounded (run calls always_on)
unfolding always_on
run-IsBounded_example = run-IsBounded calls always_on tt
