-- ===== src/Nodes/Fleet/Counts.antt =====
-- The counts of the fleet of hdv-foundation/nodes/lifecycle.ts.
use hdv_orchestrator.Common.{
  ℕ, ◌+◌, String, List, [], ◌∷◌, All, filter_by, length, inl, inr, ◌≡◌, ◌⊎◌, refl, arith,
  Bool-cases, Option-cases, string_eq,
}
use hdv_orchestrator.JsMap.{Entries, lookup, keys, values}
use hdv_orchestrator.JsMap.Laws.{All-insert, All-erase}
use hdv_orchestrator.Persistence.Records.{active, idle, same_node_status}
use hdv_orchestrator.Nodes.Matrix.{NodeIdentity, node_id_of}
use hdv_orchestrator.Nodes.Fleet.{
  NodeFleet, Call, materializing, releasing, releasing_all, materialize, release, release_node,
  release_each, release_all, perform, run, live_count, active_count, idle_count, mirror, count_of,
}

-- A live node is active or idle.
abbrev IsLive : String × NodeIdentity → Type 0
IsLive (id, node) = (node.status ≡ active) ⊎ (node.status ≡ idle)

-- Every node of the fleet is active or idle.
abbrev pub IsWarm : NodeFleet → Type 0
IsWarm fleet = All IsLive fleet.live

release-IsWarm :
    (now : ℕ) (id : String) (fleet : NodeFleet) → IsWarm fleet → IsWarm (release now id fleet).1
unfolding release release_node mirror
release-IsWarm now id fleet h = elim (Option-cases (lookup id fleet.live)) [
  | inl missing ↦ rw (missing, release) h
  | inr (node, here) ↦
      rw (here, release)
        (elim (Bool-cases node.is_ephemeral) [
          | inl gone ↦ rw gone (All-erase IsLive id fleet.live h)
          | inr kept ↦ rw kept (All-insert IsLive id _ fleet.live h (inr refl))
        ])
]

release_each-IsWarm :
    (now : ℕ) (ids : List String) (fleet : NodeFleet)
    → IsWarm fleet
    → IsWarm (release_each now ids fleet)
unfolding release_each
release_each-IsWarm now [] fleet h = h
release_each-IsWarm now (id ∷ ids) fleet h =
    release_each-IsWarm now ids (release now id fleet).1 (release-IsWarm now id fleet h)

perform-IsWarm : (call : Call) (fleet : NodeFleet) → IsWarm fleet → IsWarm (perform call fleet)
unfolding perform materialize release_all mirror
perform-IsWarm (materializing now role m n is_ephemeral) fleet h =
    let id = node_id_of role m n in
    All-insert IsLive id (materialize now role m n is_ephemeral fleet).0 fleet.live h (inl refl)
perform-IsWarm (releasing now id) fleet h = release-IsWarm now id fleet h
perform-IsWarm (releasing_all now) fleet h = release_each-IsWarm now (keys fleet.live) fleet h

run-IsWarm : (calls : List Call) (fleet : NodeFleet) → IsWarm fleet → IsWarm (run calls fleet)
unfolding run
run-IsWarm [] fleet h = h
run-IsWarm (call ∷ calls) fleet h =
    run-IsWarm calls (perform call fleet) (perform-IsWarm call fleet h)

counts_of_warm :
    (m : Entries String NodeIdentity)
    → All IsLive m
    → length (filter_by (λ n. same_node_status n.status active) (values m))
        + length (filter_by (λ n. same_node_status n.status idle) (values m))
      ≡ length m
counts_of_warm [] h = omega arith
counts_of_warm ((id, node) ∷ m) (inl s, h) = rw s (omega (arith, counts_of_warm m h))
counts_of_warm ((id, node) ∷ m) (inr s, h) = rw s (omega (arith, counts_of_warm m h))

-- Whatever is materialized and released in whatever order, if the fleet began with active and idle
-- nodes only, then the active and the idle nodes together are the live ones.
pub run_counts :
    (calls : List Call) (fleet : NodeFleet)
    → IsWarm fleet
    → active_count (run calls fleet) + idle_count (run calls fleet) ≡ live_count (run calls fleet)
unfolding active_count idle_count live_count count_of
run_counts calls fleet h = counts_of_warm (run calls fleet).live (run-IsWarm calls fleet h)
