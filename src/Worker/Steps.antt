-- ===== src/Worker/Steps.antt =====
-- packages/worker/src/engine/dag.ts: the steps of the calls of `processNode`, the routing after a
-- success and after an error, and the start of an execution, with or without a checkpoint.
pub mod Trail
pub mod Known
pub mod Placed
pub mod Launches
pub mod Precedence
pub mod Ends
pub mod Forward
pub mod Progress
pub mod Rest
pub mod Restored
pub mod Started
use hdv_orchestrator.Common.{
  ℕ, String, Bool, true, false, not, ◌&&◌, ◌||◌, Option, none, some, List, [], ◌∷◌, ◌++◌, map,
  filter_by, every_by, ◌==◌, string_eq, if◌then◌else◌, or_else,
}
use hdv_orchestrator.Json.{
  Json, undefined, null, boolean, string, prop, truthy, is_object_type, is_text,
}
use hdv_orchestrator.JsMap.{Entries, lookup, insert}
use hdv_orchestrator.Worker.Graph.{
  Graph, RawNode, RawEdge, node_type, find_node, is_node, children_of, parents_of, edge_between,
  has_error_edge, error_children, handle_of, is_error_edge,
}
use hdv_orchestrator.Worker.Engine.{
  Engine, NodeStatus, pending, running, done, skipped, erred, Phase, gathering, busy, routing,
  awaiting, holding, failing, recovering, resolved, rejected, Event, restored, began, finished,
  failed, recovered, includes, set_status, set_phase, note, input_of, is_extensible, with_error,
  apply_each, is_ready, cascade, launch_all,
}

pub data Choice : Type 0 where
  begin hold settle route join recover : (id : String) → Choice
  crash fail : (id message : String) → Choice
  finish : (id : String) (output : Json) → Choice
  bubble : (id child : String) → Choice

-- What a child is, seen from its parent: left alone, skipped with all behind it, or a candidate.
pub data Verdict : Type 0 where
  ignore prune consider : Verdict

-- `v ?? s`
unfoldable pub or_default : Json → String → Json
or_default undefined s = string s
or_default null s = string s
or_default v s = v

-- The handle that the output of a branching node activates.
unfoldable pub active_handle : String → Json → Option Json
unfolding or_default
active_handle kind output =
    if kind == "ifBranch"
    then some (or_default (prop "_branch" output) "true")
    else if kind == "switch"
    then some (or_default (prop "_switch" output) "default")
    else none

unfoldable pub verdict_of : Option Json → Option RawEdge → Verdict
unfolding handle_of
verdict_of none none = consider
verdict_of none (some e) = if is_error_edge e then ignore else consider
verdict_of (some handle) edge =
    if handle_of edge == "error"
    then ignore
    else if is_text (handle_of edge) handle
    then consider
    else prune

-- The calls to make so far; `none` after the TypeError of `isReady` on an id that no node has.
abbrev pub Next : Type 0
Next = Option (List String)

abbrev pub type_error : String
type_error = "Cannot read properties of undefined (reading 'every')"

module _ (g : Graph) where
  unfoldable pub candidate : String → List String → Engine → Next
  candidate c next e =
      if includes c e.launches
      then some next
      else if is_node g c
      then (if is_ready g c e then some (next ++ c ∷ []) else some next)
      else none

  -- One round of the loop over the children.
  unfoldable pub route_one : Option Json → String → String → Next × Engine → Next × Engine
  route_one active id c (none, e) = (none, e)
  route_one active id c (some next, e) = elim (verdict_of active (edge_between g id c)) [
    | ignore ↦ (some next, e)
    | prune ↦ (some next, cascade g c e)
    | consider ↦ (candidate c next e, e)
  ]

  unfoldable pub route_each : Option Json → String → List String → Next × Engine → Next × Engine
  unfolding route_one
  route_each active id [] s = s
  route_each active id (c ∷ cs) s = route_each active id cs (route_one active id c s)

  -- The error children to launch.
  unfoldable pub recover_each : List String → Next → Engine → Next
  recover_each [] next e = next
  recover_each (c ∷ cs) none e = none
  recover_each (c ∷ cs) (some next) e = recover_each cs (candidate c next e) e

-- A call fails inside the `try`: the status is set at once, the notices follow.
unfoldable pub fail_with : String → Json → String → Engine → Engine
fail_with id input message e =
    note (failed id) (set_phase id (failing input message) (set_status id erred e))

abbrev pub and_then : Option Engine → (Engine → Option Engine) → Option Engine
and_then none k = none
and_then (some e) k = k e

abbrev pub is_resolved : Option Phase → Bool
is_resolved (some resolved) = true
is_resolved p = false

abbrev pub rejection_of : Option Phase → Option String
rejection_of (some (rejected message)) = some message
rejection_of p = none

module _ (g : Graph) (resolve : Json → Json) (trigger_data : Json) where
  unfoldable pub begin_at : String → Option Phase → Engine → Option Engine
  begin_at id (some (gathering inputs)) e =
      let input = input_of trigger_data inputs in
      if is_extensible input
      then some (note (began id) (set_phase id (busy input) (set_status id running e)))
      else none
  begin_at id p e = none

  -- What throws outside the `try`, or in the `catch`, rejects the call.
  unfoldable pub crash_at : String → String → Option Phase → Engine → Option Engine
  crash_at id message (some (gathering inputs)) e = some (set_phase id (rejected message) e)
  crash_at id message (some (busy input)) e = some (set_phase id (rejected message) e)
  crash_at id message (some holding) e = some (set_phase id (rejected message) e)
  crash_at id message (some (failing input cause)) e = some (set_phase id (rejected message) e)
  crash_at id message p e = none

  abbrev pub complete : String → Json → Phase → Engine → Engine
  complete id output phase e =
      note (finished id) (
        set_phase id phase (set_status id done (record e { outputs = insert id output e.outputs })))

  unfoldable pub finish_at : String → Json → Option Phase → Engine → Option Engine
  finish_at id output (some (busy input)) e = some (complete id output (routing input) e)
  finish_at id output p e = none

  unfoldable pub hold_at : String → Option Phase → Engine → Option Engine
  hold_at id (some (busy input)) e = some (complete id input holding e)
  hold_at id p e = none

  unfoldable pub settle_at : String → Option Phase → Engine → Option Engine
  settle_at id (some holding) e = some (set_phase id resolved e)
  settle_at id p e = none

  unfoldable pub fail_at : String → String → Option Phase → Engine → Option Engine
  unfolding fail_with
  fail_at id message (some (busy input)) e = some (fail_with id input message e)
  fail_at id message (some (routing input)) e = some (fail_with id input message e)
  fail_at id message p e = none

  unfoldable pub after_route : String → Json → Next × Engine → Engine
  unfolding fail_with
  after_route id input (none, e) = fail_with id input type_error e
  after_route id input (some next, e) =
      set_phase id (awaiting input next) (launch_all g resolve next e)

  abbrev pub kind_of : Option RawNode → String
  kind_of none = "unknown"
  kind_of (some node) = node_type node

  unfoldable pub route_at : String → Option Phase → Engine → Option Engine
  unfolding after_route route_each active_handle
  route_at id (some (routing input)) e =
      let active =
        active_handle (kind_of (find_node g id)) (or_else (lookup id e.outputs) undefined) in
      some (after_route id input (route_each g active id (children_of g id) (some [], e)))
  route_at id p e = none

  unfoldable pub join_at : String → Option Phase → Engine → Option Engine
  join_at id (some (awaiting input calls)) e =
      if every_by (λ c. is_resolved (lookup c e.phases)) calls
      then some (set_phase id resolved e)
      else none
  join_at id (some (recovering calls)) e =
      if every_by (λ c. is_resolved (lookup c e.phases)) calls
      then some (set_phase id resolved e)
      else none
  join_at id p e = none

  unfoldable pub bubble_at : String → String → Option String → Option Phase → Engine → Option Engine
  unfolding fail_with
  bubble_at id child (some message) (some (awaiting input calls)) e =
      if includes child calls then some (fail_with id input message e) else none
  bubble_at id child (some message) (some (recovering calls)) e =
      if includes child calls then some (set_phase id (rejected message) e) else none
  bubble_at id child cause p e = none

  unfoldable pub after_recover : String → Next → Engine → Engine
  after_recover id none e = set_phase id (rejected type_error) e
  after_recover id (some next) e = set_phase id (recovering next) (launch_all g resolve next e)

  unfoldable pub recover_at : String → Option Phase → Engine → Option Engine
  unfolding after_recover recover_each with_error
  recover_at id (some (failing input message)) e =
      let eased = note (recovered id) (
        set_status id done
          (record e { outputs = insert id (with_error input message) e.outputs })) in
      if has_error_edge g id
      then some (after_recover id (recover_each g (error_children g id) (some []) eased) eased)
      else some (set_phase id (rejected message) e)
  recover_at id p e = none

  unfoldable pub step : Choice → Engine → Option Engine
  unfolding begin_at crash_at finish_at hold_at settle_at fail_at route_at join_at bubble_at
      recover_at
  step (begin id) e = begin_at id (lookup id e.phases) e
  step (crash id message) e = crash_at id message (lookup id e.phases) e
  step (finish id output) e = finish_at id output (lookup id e.phases) e
  step (hold id) e = hold_at id (lookup id e.phases) e
  step (settle id) e = settle_at id (lookup id e.phases) e
  step (fail id message) e = fail_at id message (lookup id e.phases) e
  step (route id) e = route_at id (lookup id e.phases) e
  step (join id) e = join_at id (lookup id e.phases) e
  step (bubble id child) e =
      bubble_at id child (rejection_of (lookup child e.phases)) (lookup id e.phases) e
  step (recover id) e = recover_at id (lookup id e.phases) e

  -- A schedule: every choice is a step that can be taken.
  unfoldable pub run : List Choice → Engine → Option Engine
  run [] e = some e
  run (c ∷ cs) e = and_then (step c e) (run cs)

-- A log entry of an earlier execution, read back from the database.
pub record NodeLog : Type 0 where
  pub node_id : String
  pub output : Json

-- `out && typeof out === "object" && out._spilled === true`
abbrev pub is_true : Json → Bool
is_true (boolean b) = b
is_true v = false

unfoldable pub is_spilled : Json → Bool
is_spilled out = truthy out && is_object_type out && is_true (prop "_spilled" out)

unfoldable pub pending_all : List RawNode → Engine → Engine
pending_all [] e = e
pending_all (n ∷ ns) e = pending_all ns (set_status n.id pending e)

unfoldable pub restore_one : NodeLog → Engine → Engine
restore_one l e = if is_spilled l.output then e else elim (lookup l.node_id e.status) [
  | none ↦ e
  | some s ↦ note (restored l.node_id) (record e {
    outputs = insert l.node_id l.output e.outputs;
    status = insert l.node_id done e.status;
    launches = l.node_id ∷ e.launches;
  })
]

unfoldable pub restore : List NodeLog → Engine → Engine
unfolding restore_one
restore [] e = e
restore (l ∷ ls) e = restore ls (restore_one l e)

abbrev pub blank : Engine
blank = record { status = []; outputs = []; launches = []; phases = []; log = [] }

module _ (g : Graph) where
  abbrev pub is_empty : List String → Bool
  is_empty [] = true
  is_empty (x ∷ xs) = false

  -- `nodes.filter((n) => parents[n.id].length === 0)`, by their ids.
  unfoldable pub roots : List String
  roots = map (λ n. n.id) (filter_by (λ n. is_empty (parents_of g n.id)) g.nodes)

  -- The engine before the roots are launched.
  unfoldable pub prepare : List NodeLog → Engine
  unfolding restore pending_all
  prepare logs = restore logs (pending_all g.nodes blank)

  unfoldable pub start : (Json → Json) → List NodeLog → Engine
  unfolding prepare roots
  start resolve logs = launch_all g resolve roots (prepare logs)
