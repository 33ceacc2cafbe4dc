-- ===== src/Nodes/Managers.antt =====
-- hdv-foundation/nodes/matrix.ts, `createAgentMatrix` and `SubManagerOrchestrator`. An error that is
-- thrown is the value `refused`. A manager is named by its index, which the code looks up in the
-- list of managers; the activations are a map by the manager's id.
pub mod Bounds
use hdv_orchestrator.Common.{
  ℕ, zero, suc, ◌+◌, String, Bool, true, false, Option, none, some, List, [], ◌∷◌, ◌++◌, map, leb,
  ltb, get_elem?, length, filter_by, string_eq, if◌then◌else◌,
}
use Prim.Native.Nat.{min}
use hdv_orchestrator.JsMap.{Entries, lookup, insert, values}
use hdv_orchestrator.Text.Decimal.{template, decimal}
use hdv_orchestrator.Config.Routing.{AgentRole}
use hdv_orchestrator.Persistence.Records.{NodeStatus, active, idle, terminated, same_node_status}
use hdv_orchestrator.Nodes.Matrix.{
  NodeIdentity, create_node, manager_id_of, managers_per_agent, nodes_per_manager,
}

pub record SubManager : Type 0 where
  pub id : String
  pub role : AgentRole
  pub index : ℕ
  pub is_ephemeral : Bool
  pub node_count : ℕ

-- The managers from an index on, as many as the first number says.
unfoldable pub managers_from : ℕ → ℕ → AgentRole → Bool → List SubManager
unfolding manager_id_of
managers_from zero i role is_ephemeral = []
managers_from (suc n) i role is_ephemeral =
    record {
      id = manager_id_of role i;
      role = role;
      index = i;
      is_ephemeral = is_ephemeral;
      node_count = nodes_per_manager;
    }
    ∷ managers_from n (suc i) role is_ephemeral

-- The `managers` of `createAgentMatrix`.
unfoldable pub create_agent_matrix : AgentRole → Bool → List SubManager
unfolding managers_from
create_agent_matrix role is_ephemeral = managers_from managers_per_agent 0 role is_ephemeral

pub record ManagerActivation : Type 0 where
  pub manager : SubManager
  pub status : NodeStatus
  pub active_nodes : List NodeIdentity

pub record Orchestrator : Type 0 where
  pub role : AgentRole
  pub is_ephemeral : Bool
  pub managers : List SubManager
  pub activations : Entries String ManagerActivation

pub data Materialized : Type 0 where
  refused : (message : String) → Materialized
  made : (node : NodeIdentity) → Materialized

abbrev fresh : SubManager → ManagerActivation
fresh manager = record { manager = manager; status = active; active_nodes = [] }

-- The activation that stands after a manager has been activated: a new one, unless there is one that
-- is not terminated.
unfoldable pub activation_of : Option ManagerActivation → SubManager → ManagerActivation
activation_of none manager = fresh manager
activation_of (some a) manager = if same_node_status a.status terminated then fresh manager else a

unfoldable pub activate : SubManager → Orchestrator → ManagerActivation × Orchestrator
unfolding activation_of
activate manager o =
    let activation = activation_of (lookup manager.id o.activations) manager in
    (activation, record o { activations = insert manager.id activation o.activations })

unfoldable pub activate_each :
    ℕ → List SubManager → Orchestrator → List ManagerActivation × Orchestrator
unfolding activate
activate_each zero managers o = ([], o)
activate_each (suc n) [] o = ([], o)
activate_each (suc n) (manager ∷ managers) o =
    let (activation, next) = activate manager o in
    let (rest, last) = activate_each n managers next in (activation ∷ rest, last)

unfoldable pub activate_managers : ℕ → Orchestrator → List ManagerActivation × Orchestrator
unfolding activate_each
activate_managers count o = activate_each (min count managers_per_agent) o.managers o

-- The end of `materializeNode`, for an activation that is active.
unfoldable pub materialize_under :
    SubManager → ManagerActivation → ℕ → ℕ → Orchestrator → Materialized × Orchestrator
unfolding create_node
materialize_under manager a manager_index node_index o =
    let node = record (create_node o.role manager_index node_index o.is_ephemeral) {
      status = active;
    } in
    if leb nodes_per_manager node_index
    then (
      refused (
          template (
            "SubManagerOrchestrator: nodeIndex "
            ∷ decimal node_index
            ∷ " out of range (0.."
            ∷ decimal 63
            ∷ ")"
            ∷ [])),
      o,
    )
    else if leb nodes_per_manager (length a.active_nodes)
    then (
      refused (
          template
            ("SubManagerOrchestrator: manager " ∷ manager.id ∷ " at node capacity (64)" ∷ [])),
      o,
    )
    else (
      made node,
      record o {
        activations =
            insert manager.id (record a { active_nodes = a.active_nodes ++ node ∷ [] })
              o.activations;
      },
    )

abbrev not_active : SubManager → Materialized
not_active manager =
    refused (template ("SubManagerOrchestrator: manager " ∷ manager.id ∷ " is not ACTIVE" ∷ []))

unfoldable pub materialize_in :
    Option ManagerActivation → SubManager → ℕ → ℕ → Orchestrator → Materialized × Orchestrator
unfolding materialize_under
materialize_in none manager manager_index node_index o = (not_active manager, o)
materialize_in (some a) manager manager_index node_index o =
    if same_node_status a.status active
    then materialize_under manager a manager_index node_index o
    else (not_active manager, o)

unfoldable pub materialize_for :
    Option SubManager → ℕ → ℕ → Orchestrator → Materialized × Orchestrator
unfolding materialize_in
materialize_for none manager_index node_index o = (
  refused (template ("SubManagerOrchestrator: no manager at index " ∷ decimal manager_index ∷ [])),
  o,
)
materialize_for (some manager) manager_index node_index o =
    materialize_in (lookup manager.id o.activations) manager manager_index node_index o

unfoldable pub materialize_node : ℕ → ℕ → Orchestrator → Materialized × Orchestrator
unfolding materialize_for
materialize_node manager_index node_index o =
    materialize_for (get_elem? o.managers manager_index) manager_index node_index o

abbrev let_go : Bool → ManagerActivation → ManagerActivation
let_go is_ephemeral a = record a {
  status = if is_ephemeral then terminated else idle;
  active_nodes = [];
}

unfoldable pub release_in :
    Option ManagerActivation → SubManager → Orchestrator → Option ManagerActivation × Orchestrator
release_in none manager o = (none, o)
release_in (some a) manager o =
    let left = let_go o.is_ephemeral a in
    (some left, record o { activations = insert manager.id left o.activations })

unfoldable pub release_for :
    Option SubManager → Orchestrator → Option ManagerActivation × Orchestrator
unfolding release_in
release_for none o = (none, o)
release_for (some manager) o = release_in (lookup manager.id o.activations) manager o

unfoldable pub release_manager : ℕ → Orchestrator → Option ManagerActivation × Orchestrator
unfolding release_for
release_manager manager_index o = release_for (get_elem? o.managers manager_index) o

unfoldable pub active_manager_count : Orchestrator → ℕ
active_manager_count o =
    length (filter_by (λ a. same_node_status a.status active) (values o.activations))

-- The lengths of the nodes of the activations, added up.
unfoldable pub sum_nodes : List ManagerActivation → ℕ
sum_nodes [] = 0
sum_nodes (a ∷ as') = length a.active_nodes + sum_nodes as'

unfoldable pub active_node_count : Orchestrator → ℕ
unfolding sum_nodes
active_node_count o = sum_nodes (values o.activations)

-- A call of the orchestrator.
pub data Call : Type 0 where
  activating : (count : ℕ) → Call
  materializing : (manager_index node_index : ℕ) → Call
  releasing : (manager_index : ℕ) → Call

unfoldable pub perform : Call → Orchestrator → Orchestrator
unfolding activate_managers materialize_node release_manager
perform (activating count) o = (activate_managers count o).1
perform (materializing i n) o = (materialize_node i n o).1
perform (releasing i) o = (release_manager i o).1

unfoldable pub run : List Call → Orchestrator → Orchestrator
unfolding perform
run [] o = o
run (call ∷ calls) o = run calls (perform call o)
