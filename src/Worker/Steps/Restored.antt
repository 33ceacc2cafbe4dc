-- ===== src/Worker/Steps/Restored.antt =====
-- packages/worker/src/engine/dag.ts: an execution whose checkpoint restores every root, as the one has
-- that a wait adds to the queue.
use hdv_orchestrator.Common.{String, true, none, List, [], ◌∷◌, ◌≡◌, refl, All}
use hdv_orchestrator.Json.{Json}
use hdv_orchestrator.Worker.Graph.{Graph}
use hdv_orchestrator.Worker.Engine.{Engine, includes, launch, launch_all}
use hdv_orchestrator.Worker.Steps.{
  Choice, begin, hold, settle, route, join, recover, crash, fail, finish, bubble, start, step,
  NodeLog, prepare, roots, begin_at, crash_at, finish_at, hold_at, settle_at, fail_at, route_at,
  join_at, bubble_at, recover_at,
}
use hdv_orchestrator.Worker.Steps.Started.{prepare-keeps}

-- Every root is among the launched before anything was launched.
abbrev pub AreRestored : Graph → List NodeLog → Type 0
AreRestored g ls = All (λ id. includes id (prepare g ls).launches ≡ true) (roots g)

launch_all-known :
    (g : Graph) (resolve : Json → Json) (ids : List String) (e : Engine)
    → All (λ id. includes id e.launches ≡ true) ids
    → launch_all g resolve ids e ≡ e
unfolding launch_all launch
launch_all-known g resolve [] e h = refl
launch_all-known g resolve (id ∷ ids) e h = rw h.0 (launch_all-known g resolve ids e h.1)

idle :
    (g : Graph) (resolve : Json → Json) (trigger_data : Json) (c : Choice) (e : Engine)
    → e.phases ≡ []
    → step g resolve trigger_data c e ≡ none
unfolding step begin_at crash_at finish_at hold_at settle_at fail_at route_at join_at bubble_at
    recover_at
idle g r d (begin id) e h = rw h refl
idle g r d (hold id) e h = rw h refl
idle g r d (settle id) e h = rw h refl
idle g r d (route id) e h = rw h refl
idle g r d (join id) e h = rw h refl
idle g r d (recover id) e h = rw h refl
idle g r d (crash id message) e h = rw h refl
idle g r d (fail id message) e h = rw h refl
idle g r d (finish id output) e h = rw h refl
idle g r d (bubble id child) e h = rw h refl

-- If the checkpoint restores every root, then the execution is over when it starts: it launches
-- nothing, its log has only what was restored, and there is no step that it can take.
pub restored_idle :
    (g : Graph) (resolve : Json → Json) (trigger_data : Json) (ls : List NodeLog) (c : Choice)
    → AreRestored g ls
    → (start g resolve ls ≡ prepare g ls)
      × (step g resolve trigger_data c (start g resolve ls) ≡ none)
unfolding start
restored_idle g resolve trigger_data ls c h =
    let same = launch_all-known g resolve (roots g) (prepare g ls) h in
    let empty : (prepare g ls).phases ≡ [] =
      prepare-keeps g (λ e. e.phases ≡ []) (λ id e k. k) (λ l e k. k) ls refl in
    (same, rw same (idle g resolve trigger_data c (prepare g ls) empty))
