-- ===== src/Nodes/Fleet.antt =====
-- hdv-foundation/nodes/lifecycle.ts, `NodeFleet`. The times that `mirror` reads are arguments; a node
-- that a caller holds is the value it had when it was handed out.
pub mod Counts
use hdv_orchestrator.Common.{
  ℕ, String, Bool, true, Option, none, some, List, [], ◌∷◌, or_else, filter_by, length, string_eq,
  if◌then◌else◌,
}
use hdv_orchestrator.JsMap.{Entries, lookup, insert, erase, keys, values, size}
use hdv_orchestrator.Config.Routing.{AgentRole}
use hdv_orchestrator.Persistence.Records.{
  NodeIdentityRecord, NodeStatus, active, idle, terminated, same_node_status,
}
use hdv_orchestrator.Persistence.NodeIdentity as Identities
use hdv_orchestrator.Nodes.Matrix.{NodeIdentity, create_node, node_id_of, total_nodes}

pub record NodeFleet : Type 0 where
  pub live : Entries String NodeIdentity
  pub repository : Option (Entries String NodeIdentityRecord)

-- `capacity`
abbrev pub capacity : NodeFleet → ℕ
capacity fleet = total_nodes

abbrev record_of : ℕ → NodeIdentity → NodeIdentityRecord
record_of now node = record {
  node_id = node.node_id;
  role = node.role;
  status = node.status;
  last_seen = now;
  is_ephemeral = node.is_ephemeral;
}

abbrev mirrored :
    NodeIdentityRecord
    → Option (Entries String NodeIdentityRecord)
    → Option (Entries String NodeIdentityRecord)
mirrored row none = none
mirrored row (some rows) = some (Identities.upsert row rows)

unfoldable pub mirror : ℕ → NodeIdentity → NodeFleet → NodeFleet
mirror now node fleet = record fleet { repository = mirrored (record_of now node) fleet.repository }

-- The node under the id is made if it is not live, and is live and active afterwards.
unfoldable pub materialize : ℕ → AgentRole → ℕ → ℕ → Bool → NodeFleet → NodeIdentity × NodeFleet
unfolding mirror create_node
materialize now role manager_index node_index is_ephemeral fleet =
    let id = node_id_of role manager_index node_index in
    let found =
      or_else (lookup id fleet.live) (create_node role manager_index node_index is_ephemeral) in
    let node = record found { status = active } in
    (node, mirror now node (record fleet { live = insert id node fleet.live }))

-- What `release` does to a node that is live: an ephemeral one leaves the fleet.
unfoldable pub release_node : ℕ → String → NodeIdentity → NodeFleet → NodeFleet
unfolding mirror
release_node now id node fleet =
    if node.is_ephemeral
    then record (mirror now (record node { status = terminated }) fleet) {
      live = erase id fleet.live;
    }
    else mirror now (record node { status = idle })
        (record fleet { live = insert id (record node { status = idle }) fleet.live })

abbrev released : NodeIdentity → NodeIdentity
released node = record node { status = if node.is_ephemeral then terminated else idle }

unfoldable pub release : ℕ → String → NodeFleet → Option NodeIdentity × NodeFleet
unfolding release_node
release now id fleet = elim (lookup id fleet.live) [
  | none ↦ (none, fleet)
  | some node ↦ (some (released node), release_node now id node fleet)
]

unfoldable pub release_each : ℕ → List String → NodeFleet → NodeFleet
unfolding release
release_each now [] fleet = fleet
release_each now (id ∷ ids) fleet = release_each now ids (release now id fleet).1

unfoldable pub release_all : ℕ → NodeFleet → NodeFleet
unfolding release_each
release_all now fleet = release_each now (keys fleet.live) fleet

unfoldable pub live_count : NodeFleet → ℕ
live_count fleet = size fleet.live

unfoldable pub count_of : NodeStatus → NodeFleet → ℕ
count_of status fleet =
    length (filter_by (λ n. same_node_status n.status status) (values fleet.live))

unfoldable pub active_count : NodeFleet → ℕ
unfolding count_of
active_count fleet = count_of active fleet

unfoldable pub idle_count : NodeFleet → ℕ
unfolding count_of
idle_count fleet = count_of idle fleet

-- `snapshot`
abbrev pub snapshot : NodeFleet → List NodeIdentity
snapshot fleet = values fleet.live

-- A call of the fleet.
pub data Call : Type 0 where
  materializing :
      (now : ℕ) (role : AgentRole) (manager_index node_index : ℕ) (is_ephemeral : Bool) → Call
  releasing : (now : ℕ) (id : String) → Call
  releasing_all : (now : ℕ) → Call

unfoldable pub perform : Call → NodeFleet → NodeFleet
unfolding materialize release release_all
perform (materializing now role m n is_ephemeral) fleet =
    (materialize now role m n is_ephemeral fleet).1
perform (releasing now id) fleet = (release now id fleet).1
perform (releasing_all now) fleet = release_all now fleet

unfoldable pub run : List Call → NodeFleet → NodeFleet
unfolding perform
run [] fleet = fleet
run (call ∷ calls) fleet = run calls (perform call fleet)
