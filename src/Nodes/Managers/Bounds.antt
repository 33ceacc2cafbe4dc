-- ===== src/Nodes/Managers/Bounds.antt =====
-- What the orchestrator of hdv-foundation/nodes/matrix.ts keeps: no manager holds more nodes than it
-- may, and what becomes of a manager that an always-on agent has released.
use hdv_orchestrator.Common.{
  ℕ, zero, suc, ◌≤◌, String, false, Option, none, some, List, [], ◌∷◌, ◌++◌, All, leb, get_elem?,
  length, length-append, inl, inr, ◌≡◌, refl, arith, Bool-cases, string_eq,
}
use hdv_orchestrator.JsMap.{lookup}
use hdv_orchestrator.JsMap.Laws.{All-insert, All-lookup}
use hdv_orchestrator.Persistence.Records.{active, terminated, same_node_status}
use hdv_orchestrator.Nodes.Matrix.{nodes_per_manager, NodeIdentity}
use hdv_orchestrator.Nodes.Managers.{
  SubManager, ManagerActivation, Orchestrator, Call, activating, materializing, releasing, perform,
  run, activate, activate_each, activate_managers, activation_of, materialize_under, materialize_in,
  materialize_for, materialize_node, release_in, release_for, release_manager,
}

-- An activation holds as many nodes as a manager may, at most.
abbrev IsWithin : String × ManagerActivation → Type 0
IsWithin (id, a) = length a.active_nodes ≤ nodes_per_manager

abbrev pub IsBounded : Orchestrator → Type 0
IsBounded o = All IsWithin o.activations

activation_of-IsWithin :
    (found : Option ManagerActivation) (manager : SubManager)
    → ((a : ManagerActivation) → found ≡ some a → IsWithin (manager.id, a))
    → IsWithin (manager.id, activation_of found manager)
unfolding activation_of
activation_of-IsWithin none manager h = omega arith
activation_of-IsWithin (some a) manager h =
    elim (Bool-cases (same_node_status a.status terminated)) [
      | inl over ↦ rw over (omega arith)
      | inr kept ↦ rw kept (h a refl)
    ]

activate-IsBounded :
    (manager : SubManager) (o : Orchestrator) → IsBounded o → IsBounded (activate manager o).1
unfolding activate
activate-IsBounded manager o h = All-insert IsWithin manager.id _ o.activations h (
    activation_of-IsWithin (lookup manager.id o.activations) manager
      (λ a at. All-lookup IsWithin manager.id o.activations h at))

activate_each-IsBounded :
    (n : ℕ) (managers : List SubManager) (o : Orchestrator)
    → IsBounded o
    → IsBounded (activate_each n managers o).1
unfolding activate_each
activate_each-IsBounded zero managers o h = h
activate_each-IsBounded (suc n) [] o h = h
activate_each-IsBounded (suc n) (manager ∷ managers) o h =
    activate_each-IsBounded n managers (activate manager o).1 (activate-IsBounded manager o h)

room_for :
    (node : NodeIdentity) (nodes : List NodeIdentity)
    → leb nodes_per_manager (length nodes) ≡ false
    → length (nodes ++ node ∷ []) ≤ nodes_per_manager
room_for node nodes room = ground (arith, length-append nodes (node ∷ []))

materialize_under-IsBounded :
    (manager : SubManager) (a : ManagerActivation) (i n : ℕ) (o : Orchestrator)
    → IsBounded o
    → IsBounded (materialize_under manager a i n o).1
unfolding materialize_under
materialize_under-IsBounded manager a i n o h = elim (Bool-cases (leb nodes_per_manager n)) [
  | inl out ↦ rw out h
  | inr ranged ↦ elim (Bool-cases (leb nodes_per_manager (length a.active_nodes))) [
    | inl full ↦ rw (ranged, full) h
    | inr room ↦
        rw (ranged, room)
          (All-insert IsWithin manager.id _ o.activations h (room_for _ a.active_nodes room))
  ]
]

materialize_in-IsBounded :
    (found : Option ManagerActivation) (manager : SubManager) (i n : ℕ) (o : Orchestrator)
    → IsBounded o
    → IsBounded (materialize_in found manager i n o).1
unfolding materialize_in
materialize_in-IsBounded none manager i n o h = h
materialize_in-IsBounded (some a) manager i n o h =
    elim (Bool-cases (same_node_status a.status active)) [
      | inl on ↦ rw on (materialize_under-IsBounded manager a i n o h)
      | inr off ↦ rw off h
    ]

materialize_for-IsBounded :
    (manager : Option SubManager) (i n : ℕ) (o : Orchestrator)
    → IsBounded o
    → IsBounded (materialize_for manager i n o).1
unfolding materialize_for
materialize_for-IsBounded none i n o h = h
materialize_for-IsBounded (some manager) i n o h =
    materialize_in-IsBounded (lookup manager.id o.activations) manager i n o h

release_in-IsBounded :
    (found : Option ManagerActivation) (manager : SubManager) (o : Orchestrator)
    → IsBounded o
    → IsBounded (release_in found manager o).1
unfolding release_in
release_in-IsBounded none manager o h = h
release_in-IsBounded (some a) manager o h =
    All-insert IsWithin manager.id _ o.activations h (omega arith)

release_for-IsBounded :
    (manager : Option SubManager) (o : Orchestrator)
    → IsBounded o
    → IsBounded (release_for manager o).1
unfolding release_for
release_for-IsBounded none o h = h
release_for-IsBounded (some manager) o h =
    release_in-IsBounded (lookup manager.id o.activations) manager o h

perform-IsBounded : (call : Call) (o : Orchestrator) → IsBounded o → IsBounded (perform call o)
unfolding perform activate_managers materialize_node release_manager
perform-IsBounded (activating count) o h = activate_each-IsBounded _ o.managers o h
perform-IsBounded (materializing i n) o h =
    materialize_for-IsBounded (get_elem? o.managers i) i n o h
perform-IsBounded (releasing i) o h = release_for-IsBounded (get_elem? o.managers i) o h

-- Whatever is activated, materialized and released in whatever order, an orchestrator in which no
-- manager holds more than 64 nodes stays so.
pub run-IsBounded : (calls : List Call) (o : Orchestrator) → IsBounded o → IsBounded (run calls o)
unfolding run
run-IsBounded [] o h = h
run-IsBounded (call ∷ calls) o h = run-IsBounded calls (perform call o) (perform-IsBounded call o h)
