-- ===== src/Nodes/Matrix.antt =====
-- hdv-foundation/nodes/matrix.ts and constants.ts: the sizes of the matrix, and a node on demand.
use hdv_orchestrator.Common.{ℕ, ◌*◌, String, Bool, [], ◌∷◌, if◌then◌else◌}
use hdv_orchestrator.Text.Decimal.{template, padded}
use hdv_orchestrator.Config.Routing.{AgentRole, role_name}
use hdv_orchestrator.Persistence.Records.{NodeStatus, active, idle}

abbrev pub managers_per_agent : ℕ
managers_per_agent = 64

abbrev pub nodes_per_manager : ℕ
nodes_per_manager = 64

abbrev pub total_nodes : ℕ
total_nodes = managers_per_agent * nodes_per_manager * 5

abbrev pub personas_per_node : ℕ
personas_per_node = 100

pub record NodeIdentity : Type 0 where
  pub node_id : String
  pub role : AgentRole
  pub manager_id : String
  pub status : NodeStatus
  pub is_ephemeral : Bool
  pub persona_capacity : ℕ

unfoldable pub manager_id_of : AgentRole → ℕ → String
manager_id_of role manager_index = template (role_name role ∷ "-mgr-" ∷ padded 2 manager_index ∷ [])

unfoldable pub node_id_of : AgentRole → ℕ → ℕ → String
node_id_of role manager_index node_index =
    template
      (role_name role ∷ "-mgr-" ∷ padded 2 manager_index ∷ "-node-" ∷ padded 2 node_index ∷ [])

unfoldable pub create_node : AgentRole → ℕ → ℕ → Bool → NodeIdentity
unfolding node_id_of manager_id_of
create_node role manager_index node_index is_ephemeral = record {
  node_id = node_id_of role manager_index node_index;
  role = role;
  manager_id = manager_id_of role manager_index;
  status = if is_ephemeral then idle else active;
  is_ephemeral = is_ephemeral;
  persona_capacity = personas_per_node;
}
