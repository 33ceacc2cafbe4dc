-- ===== src/Worker/Engine.antt =====
-- packages/worker/src/engine/dag.ts, `executeWorkflow`, as a machine whose steps are what runs between
-- two `await`s. A step is chosen by the environment (`Choice`): it says which call of `processNode`
-- goes on, what `executeNode` answered or threw, and where Redis, Prisma or the disk failed.
-- `resolve` stands for `resolvePayload`. Left out: `$nodeOutputs`, which is added to an input, and
-- the entry that a wait adds to the queue.
pub mod Cascade
use hdv_orchestrator.Common.{
  ℕ, zero, suc, String, Bool, true, false, not, ◌&&◌, ◌||◌, Option, none, some, List, [], ◌∷◌, map,
  filter_by, every_by, ◌==◌, string_eq, if◌then◌else◌, length, or_else,
}
use hdv_orchestrator.Json.{
  Json, undefined, null, string, array, object, Items, nil, cons, Fields, end, field, prop,
  as_string,
}
use hdv_orchestrator.JsMap.{Entries, lookup, insert}
use hdv_orchestrator.Text.Decimal.{decimal}
use hdv_orchestrator.Worker.Graph.{
  Graph, RawNode, node_type, find_node, is_node, children_of, parents_of, edge_between,
  has_error_edge, error_children, handle_of, is_error_edge,
}

pub data NodeStatus : Type 0 where
  pending running done skipped erred : NodeStatus

abbrev pub is_pending : Option NodeStatus → Bool
is_pending (some pending) = true
is_pending s = false

abbrev pub is_done : Option NodeStatus → Bool
is_done (some done) = true
is_done s = false

-- Done or skipped.
abbrev pub is_settled : Option NodeStatus → Bool
is_settled (some done) = true
is_settled (some skipped) = true
is_settled s = false

-- Where a call of `processNode` waits. `gathering`: for its parents' outputs; `busy`: for the node's
-- own work; `routing`: for the notices of its success; `awaiting`: for the children that it launched;
-- `holding`: for the notices of a wait; `failing`: for the notices of its error; `recovering`: for the
-- children on its error edges.
pub data Phase : Type 0 where
  gathering : (inputs : List Json) → Phase
  busy routing : (input : Json) → Phase
  awaiting : (input : Json) (calls : List String) → Phase
  holding : Phase
  failing : (input : Json) (message : String) → Phase
  recovering : (calls : List String) → Phase
  resolved : Phase
  rejected : (message : String) → Phase

pub data Event : Type 0 where
  restored launched began finished passed_over failed recovered : (id : String) → Event

pub record Engine : Type 0 where
  pub status : Entries String NodeStatus
  pub outputs : Entries String Json
  pub launches : List String
  pub phases : Entries String Phase
  pub log : List Event

abbrev pub includes : String → List String → Bool
includes s [] = false
includes s (t ∷ ts) = t == s || includes s ts

abbrev pub set_status : String → NodeStatus → Engine → Engine
set_status id s e = record e { status = insert id s e.status }

abbrev pub set_phase : String → Phase → Engine → Engine
set_phase id p e = record e { phases = insert id p e.phases }

abbrev pub note : Event → Engine → Engine
note v e = record e { log = v ∷ e.log }

-- `items: filtered`
items_of : List Json → Items
items_of [] = nil
items_of (v ∷ vs) = cons v (items_of vs)

-- `o !== undefined`
abbrev is_defined : Json → Bool
is_defined undefined = false
is_defined v = true

-- `$input`, from the outputs of the parents that are done.
unfoldable pub input_of : Json → List Json → Json
unfolding items_of
input_of trigger_data [] = trigger_data
input_of trigger_data (v ∷ []) = v
input_of trigger_data (v ∷ w ∷ vs) = object (field "items" (array (items_of (v ∷ w ∷ vs))) end)

-- Whether a property can be set on the input: it is an object or an array.
abbrev pub is_extensible : Json → Bool
is_extensible (object fs) = true
is_extensible (array xs) = true
is_extensible v = false

set_field : String → Json → Fields → Fields
set_field k v end = field k v end
set_field k v (field j w fs) =
    let rest = set_field k v fs in if j == k then field k v fs else field j w rest

indexed : ℕ → Items → Fields
indexed i nil = end
indexed i (cons v vs) = field (decimal i) v (indexed (suc i) vs)

-- `{ ...$input, _error: message }`
unfoldable pub with_error : Json → String → Json
unfolding set_field indexed
with_error (object fs) message = object (set_field "_error" (string message) fs)
with_error (array xs) message = object (set_field "_error" (string message) (indexed 0 xs))
with_error v message = object (field "_error" (string message) end)

abbrev pub apply_each : (String → Engine → Engine) → List String → Engine → Engine
apply_each f [] e = e
apply_each f (c ∷ cs) e = apply_each f cs (f c e)

module _ (g : Graph) where
  -- `isReady`, of the id of a node.
  unfoldable pub is_ready : String → Engine → Bool
  is_ready id e = every_by (λ p. is_settled (lookup p e.status)) (parents_of g id)

  -- `cascadeSkip`. The fuel bounds the depth, which is below the number of pending nodes.
  unfoldable pub cascade_skip : ℕ → String → Engine → Engine
  cascade_skip zero id e = e
  cascade_skip (suc f) id e =
      let rest =
        apply_each (cascade_skip f) (children_of g id)
          (note (passed_over id) (set_status id skipped e)) in
      if is_pending (lookup id e.status) then rest else e

  unfoldable pub cascade : String → Engine → Engine
  unfolding cascade_skip
  cascade id e = cascade_skip (suc (length e.status)) id e

module _ (g : Graph) (resolve : Json → Json) where
  -- The outputs of the parents that are done, less `undefined`.
  unfoldable pub gather : String → Engine → List Json
  gather id e =
      let dones = filter_by (λ p. is_done (lookup p e.status)) (parents_of g id) in
      filter_by is_defined (map (λ p. resolve (or_else (lookup p e.outputs) undefined)) dones)

  -- `processNode` up to its first `await`.
  unfoldable pub launch : String → Engine → Engine
  unfolding gather
  launch id e = if includes id e.launches then e else elim (find_node g id) [
    | none ↦ record e { launches = id ∷ e.launches }
    | some node ↦
        note (launched id)
          (set_phase id (gathering (gather id e)) (record e { launches = id ∷ e.launches }))
  ]

  unfoldable pub launch_all : List String → Engine → Engine
  unfolding launch
  launch_all ids e = apply_each launch ids e
