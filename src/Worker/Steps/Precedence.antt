-- ===== src/Worker/Steps/Precedence.antt =====
-- packages/worker/src/engine/dag.ts: in which order the nodes of a graph are launched.
use hdv_orchestrator.Common.{
  ℕ, String, Bool, true, false, some, List, [], ◌∷◌, ◌==◌, some_by, every_by, ◌≡◌, refl, ◌∙◌, sym,
  ap, arith, Bool-cases, inl, inr, string_eq, All, ==_refl,
}
use hdv_orchestrator.Json.{Json}
use hdv_orchestrator.JsMap.{Entries, lookup, insert}
use hdv_orchestrator.JsMap.Laws.{lookup-insert}
use hdv_orchestrator.Worker.Graph.{Graph, parents_of}
use hdv_orchestrator.Worker.Engine.{
  Engine, NodeStatus, pending, running, done, skipped, erred, Event, restored, launched, began,
  finished, passed_over, failed, recovered, is_settled, is_ready,
}
use hdv_orchestrator.Worker.Steps.{Choice, run, start, NodeLog, prepare}
use hdv_orchestrator.Worker.Steps.Trail.{
  Trail, stops, advances, begins, finishes, recovers, fails, skips, launches_node, launches_nothing,
}
use hdv_orchestrator.Worker.Steps.Started.{prepare-keeps}
use hdv_orchestrator.Worker.Steps.Trail.Goes.{start-Trail}

-- An event after which a node is done or skipped.
abbrev settles : String → Event → Bool
settles p (restored j) = j == p
settles p (finished j) = j == p
settles p (recovered j) = j == p
settles p (passed_over j) = j == p
settles p v = false

abbrev was_settled : String → List Event → Bool
was_settled p vs = some_by (settles p) vs

-- Newest first: each node was launched after every one of its parents was settled.
abbrev pub IsOrdered : Graph → List Event → Type 0
IsOrdered g [] = Unit
IsOrdered g (launched id ∷ vs) =
    All (λ p. was_settled p vs ≡ true) (parents_of g id) × IsOrdered g vs
IsOrdered g (v ∷ vs) = IsOrdered g vs

-- What is done or skipped has an event that says so.
abbrev IsWitnessed : Entries String NodeStatus → List Event → Type 0
IsWitnessed s vs = (p : String) → is_settled (lookup p s) ≡ true → was_settled p vs ≡ true

insert-IsWitnessed :
    (id : String) (new : NodeStatus) (v : Event) (s : Entries String NodeStatus) (vs : List Event)
    → (is_settled (some new) ≡ true → settles id v ≡ true)
    → IsWitnessed s vs
    → IsWitnessed (insert id new s) (v ∷ vs)
insert-IsWitnessed id new v s vs says h p settled = elim (Bool-cases (id == p)) [
  | inl same ↦
      let k = (string_eq.same_iff id p).0 same in
      let now : settles p v ≡ true =
        ap (λ i. settles i v) (sym k) ∙ says (rw (lookup-insert id p new s, same) at settled) in
      rw now refl
  | inr other ↦
      let before : is_settled (lookup p s) ≡ true =
        rw (lookup-insert id p new s, other) at settled in
      let old = h p before in ground arith
]

note-IsWitnessed :
    (v : Event) (s : Entries String NodeStatus) (vs : List Event)
    → IsWitnessed s vs
    → IsWitnessed s (v ∷ vs)
note-IsWitnessed v s vs h p settled = let old = h p settled in ground arith

parents_settled :
    (s : Entries String NodeStatus) (vs : List Event) (ps : List String)
    → IsWitnessed s vs
    → every_by (λ p. is_settled (lookup p s)) ps ≡ true
    → All (λ p. was_settled p vs ≡ true) ps
parents_settled s vs [] h ready = tt
parents_settled s vs (p ∷ ps) h ready = elim (Bool-cases (is_settled (lookup p s))) [
  | inl here ↦ (h p here, parents_settled s vs ps h (ground arith))
  | inr early ↦ absurd (ground arith)
]

Trail-IsOrdered :
    (g : Graph) {n : ℕ} {e f : Engine} (t : Trail g n e f)
    → IsWitnessed e.status e.log
    → IsOrdered g e.log
    → IsOrdered g f.log
unfolding is_ready
Trail-IsOrdered g (stops e) h o = o
Trail-IsOrdered g {e} (advances id p q at less later t) h o = Trail-IsOrdered g t h o
Trail-IsOrdered g {e} (begins id inputs input at t) h o =
    Trail-IsOrdered g t (insert-IsWitnessed id running (began id) e.status e.log (λ k. cc) h) o
Trail-IsOrdered g {e} (finishes id output t) h o =
    Trail-IsOrdered g t
      (insert-IsWitnessed id done (finished id) e.status e.log (λ k. ==_refl id) h) o
Trail-IsOrdered g {e} (recovers id output t) h o =
    Trail-IsOrdered g t
      (insert-IsWitnessed id done (recovered id) e.status e.log (λ k. ==_refl id) h) o
Trail-IsOrdered g {e} (fails id t) h o =
    Trail-IsOrdered g t (insert-IsWitnessed id erred (failed id) e.status e.log (λ k. cc) h) o
Trail-IsOrdered g {e} (skips id t) h o =
    Trail-IsOrdered g t
      (insert-IsWitnessed id skipped (passed_over id) e.status e.log (λ k. ==_refl id) h) o
Trail-IsOrdered g {e} (launches_node id node inputs new here ready t) h o =
    Trail-IsOrdered g t (note-IsWitnessed (launched id) e.status e.log h)
      (parents_settled e.status e.log (parents_of g id) h ready, o)
Trail-IsOrdered g (launches_nothing id new t) h o = Trail-IsOrdered g t h o

pending_open : ¬ (is_settled (some pending) ≡ true)
pending_open h = cc

prepare-IsWitnessed :
    (g : Graph) (ls : List NodeLog) → IsWitnessed (prepare g ls).status (prepare g ls).log
prepare-IsWitnessed g ls =
    prepare-keeps g (λ e. IsWitnessed e.status e.log)
      (λ id e h p settled. elim (Bool-cases (id == p)) [
        | inl same ↦
            absurd (pending_open (rw (lookup-insert id p pending e.status, same) at settled))
        | inr other ↦ h p (rw (lookup-insert id p pending e.status, other) at settled)
      ])
      (λ l e h.
        insert-IsWitnessed l.node_id done (restored l.node_id) e.status e.log
          (λ k. ==_refl l.node_id) h)
      ls (λ p settled. cc)

prepare-IsOrdered : (g : Graph) (ls : List NodeLog) → IsOrdered g (prepare g ls).log
prepare-IsOrdered g ls = prepare-keeps g (λ e. IsOrdered g e.log) (λ id e o. o) (λ l e o. o) ls tt

-- Whatever the choices of a schedule, on any graph and from any checkpoint: whenever a node was
-- launched, each of its parents had finished, failed into its error branch, been skipped or been
-- restored from the checkpoint by then.
pub run-IsOrdered :
    (g : Graph) (resolve : Json → Json) (trigger_data : Json) (ls : List NodeLog)
    → (cs : List Choice) (f : Engine) → run g resolve trigger_data cs (start g resolve ls) ≡ some f
    → IsOrdered g f.log
run-IsOrdered g resolve trigger_data ls cs f taken =
    Trail-IsOrdered g (start-Trail g resolve trigger_data ls cs f taken) (prepare-IsWitnessed g ls)
      (prepare-IsOrdered g ls)
