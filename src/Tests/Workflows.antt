-- ===== src/Tests/Workflows.antt =====
-- Executions of workflows on concrete graphs.
use hdv_orchestrator.Common.{
  String, Option, none, some, List, [], ◌∷◌, length, or_else, ◌*◌, ◌≡◌, ◌≤◌, refl, arith,
}
use hdv_orchestrator.Json.{Json, string, object, end, field}
use hdv_orchestrator.Worker.Graph.{
  Graph, RawNode, RawEdge, node_type, find_node, is_node, children_of, parents_of, edge_between,
  has_error_edge, error_children, handle_of,
}
use hdv_orchestrator.Worker.Engine.{
  Engine, launched, began, finished, passed_over, failed, recovered, pending, input_of, with_error,
  is_ready, cascade, cascade_skip, gather, launch, launch_all,
}
use hdv_orchestrator.Worker.Engine.Cascade.{cascade_skip_fuel}
use hdv_orchestrator.Worker.Steps.{
  Choice, begin, route, join, recover, fail, finish, run, start, step, NodeLog, prepare, blank,
  or_default, verdict_of, active_handle, candidate, route_one, route_each, recover_each, fail_with,
  begin_at, finish_at, fail_at, route_at, join_at, recover_at, after_route, after_recover,
  is_spilled, pending_all, restore_one, restore, roots,
}
use hdv_orchestrator.Worker.Steps.Launches.{times_begun, run_once}
use hdv_orchestrator.Worker.Steps.Precedence.{IsOrdered, run-IsOrdered}
use hdv_orchestrator.Worker.Steps.Ends.{run_ends}
use hdv_orchestrator.Worker.Steps.Rest.{AtRest, run_rests}
use hdv_orchestrator.Worker.Steps.Restored.{restored_idle}

abbrev node_of : String → String → RawNode
node_of id kind = record { id = id; kind = string kind; content = object end }

abbrev edge_of : String → String → Option String → RawEdge
edge_of source target handle = record {
  source = source;
  target = target;
  source_handle = handle;
  label = none;
}

-- A test with a branch for each answer, and a handler of its errors.
abbrev branching : Graph
branching = record {
  nodes =
      node_of "test" "ifBranch"
      ∷ node_of "yes" "set"
      ∷ node_of "no" "set"
      ∷ node_of "after" "set"
      ∷ node_of "oops" "set"
      ∷ [];
  edges =
      edge_of "test" "yes" (some "true")
      ∷ edge_of "test" "no" (some "false")
      ∷ edge_of "no" "after" none
      ∷ edge_of "yes" "oops" (some "error")
      ∷ [];
}

abbrev kept : Json → Json
kept v = v

abbrev data_in : Json
data_in = object end

abbrev answer : String → Json
answer branch = object (field "_branch" (string branch) end)

-- The test answers "true", "yes" throws, its error branch runs.
abbrev schedule : List Choice
schedule =
    begin "test"
    ∷ finish "test" (answer "true")
    ∷ route "test"
    ∷ begin "yes"
    ∷ fail "yes" "down"
    ∷ recover "yes"
    ∷ begin "oops"
    ∷ finish "oops" data_in
    ∷ route "oops"
    ∷ join "oops"
    ∷ join "yes"
    ∷ join "test"
    ∷ []

abbrev result : Engine
result = or_else (run branching kept data_in schedule (start branching kept [])) blank

result_log :
    result.log
    ≡ finished "oops"
      ∷ began "oops"
      ∷ launched "oops"
      ∷ recovered "yes"
      ∷ failed "yes"
      ∷ began "yes"
      ∷ launched "yes"
      ∷ passed_over "after"
      ∷ passed_over "no"
      ∷ finished "test"
      ∷ began "test"
      ∷ launched "test"
      ∷ []
unfolding run start step begin_at finish_at fail_at route_at join_at recover_at after_route
    after_recover fail_with route_each route_one recover_each candidate verdict_of active_handle
    or_default prepare restore pending_all roots launch_all launch gather cascade cascade_skip
    is_ready input_of with_error node_type find_node is_node children_of parents_of edge_between
    has_error_edge error_children handle_of
result_log = refl

taken : run branching kept data_in schedule (start branching kept []) ≡ some result
unfolding run start step begin_at finish_at fail_at route_at join_at recover_at after_route
    after_recover fail_with route_each route_one recover_each candidate verdict_of active_handle
    or_default prepare restore pending_all roots launch_all launch gather cascade cascade_skip
    is_ready input_of with_error node_type find_node is_node children_of parents_of edge_between
    has_error_edge error_children handle_of
taken = refl

run_once_example : times_begun "yes" result.log ≤ 1
run_once_example = run_once branching kept data_in [] schedule result "yes" taken

run-IsOrdered_example : IsOrdered branching result.log
run-IsOrdered_example = run-IsOrdered branching kept data_in [] schedule result taken

run_ends_example : length schedule ≤ 7 * length branching.nodes
run_ends_example = run_ends branching kept data_in [] schedule result taken

-- The steps taken before the error branch of "yes" has run.
abbrev early : List Choice
early = begin "test" ∷ finish "test" (answer "true") ∷ route "test" ∷ begin "yes" ∷ []

abbrev halfway : Engine
halfway = or_else (run branching kept data_in early (start branching kept [])) blank

taken_early : run branching kept data_in early (start branching kept []) ≡ some halfway
unfolding run start step begin_at finish_at fail_at route_at join_at recover_at after_route
    after_recover fail_with route_each route_one recover_each candidate verdict_of active_handle
    or_default prepare restore pending_all roots launch_all launch gather cascade cascade_skip
    is_ready input_of with_error node_type find_node is_node children_of parents_of edge_between
    has_error_edge error_children handle_of
taken_early = refl

run_rests_example :
    (more : List Choice) × (f : Engine) × (run branching kept data_in more halfway ≡ some f)
    × AtRest branching.nodes f
run_rests_example = run_rests branching kept data_in [] early halfway taken_early

-- A cycle behind the test, skipped as a whole.
abbrev cyclic : Graph
cyclic = record {
  nodes = node_of "a" "set" ∷ node_of "b" "set" ∷ [];
  edges = edge_of "a" "b" none ∷ edge_of "b" "a" none ∷ [];
}

abbrev waiting : Engine
waiting = record {
  status = ("a", pending) ∷ ("b", pending) ∷ [];
  outputs = [];
  launches = [];
  phases = [];
  log = [];
}

cascade_skip_fuel_example : cascade_skip cyclic 9 "a" waiting ≡ cascade cyclic "a" waiting
cascade_skip_fuel_example = cascade_skip_fuel cyclic 9 "a" waiting (omega arith)

cascade_skips : (cascade cyclic "a" waiting).log ≡ passed_over "b" ∷ passed_over "a" ∷ []
unfolding cascade cascade_skip children_of
cascade_skips = refl

-- A wait with a node behind it, and the log entry that its first execution leaves.
abbrev delayed : Graph
delayed = record {
  nodes = node_of "wait" "wait" ∷ node_of "mail" "email" ∷ [];
  edges = edge_of "wait" "mail" none ∷ [];
}

abbrev wait_log : NodeLog
wait_log = record { node_id = "wait"; output = data_in }

restored_idle_example :
    (start delayed kept (wait_log ∷ []) ≡ prepare delayed (wait_log ∷ []))
    × (step delayed kept data_in (begin "mail") (start delayed kept (wait_log ∷ [])) ≡ none)
unfolding prepare restore restore_one pending_all roots parents_of is_spilled
restored_idle_example = restored_idle delayed kept data_in (wait_log ∷ []) (begin "mail") (refl, tt)
