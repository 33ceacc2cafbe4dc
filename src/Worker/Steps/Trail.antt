-- ===== src/Worker/Steps/Trail.antt =====
-- packages/worker/src/engine/dag.ts: the steps of an execution, taken apart into the small changes of
-- its state that they are made of. A trail counts the times that a call goes on to its next phase.
pub mod Goes
use mathlib.Core.Path.{subst}
use hdv_orchestrator.Common.{
  ℕ, zero, suc, ◌<◌, ◌≤◌, String, Bool, true, false, Option, none, some, List, [], ◌∷◌, ◌++◌, ◌==◌,
  every_by, length, if◌then◌else◌, ◌≡◌, ◌⊎◌, refl, ◌∙◌, sym, ap, arith, Bool-cases, Option-cases,
  inl, inr, All, All-append, All-map, string_eq,
}
use hdv_orchestrator.Json.{Json, undefined}
use hdv_orchestrator.JsMap.{Entries, lookup, insert}
use hdv_orchestrator.JsMap.Laws.{lookup-insert}
use hdv_orchestrator.Worker.Graph.{
  Graph, RawNode, RawEdge, find_node, is_node, children_of, parents_of, edge_between,
  error_children, has_error_edge,
}
use hdv_orchestrator.Worker.Engine.{
  Engine, NodeStatus, running, done, skipped, erred, Phase, gathering, busy, routing, awaiting,
  holding, failing, recovering, resolved, rejected, Event, launched, began, finished, passed_over,
  failed, recovered, includes, set_status, set_phase, note, is_pending, is_settled, input_of,
  is_extensible, with_error, apply_each, is_ready, cascade_skip, cascade, launch, launch_all,
}
use hdv_orchestrator.Worker.Steps.{
  Choice, begin, hold, settle, route, join, recover, crash, fail, finish, bubble, Verdict, ignore,
  prune, consider, verdict_of, Next, candidate, route_one, route_each, recover_each, fail_with,
  active_handle, is_resolved, rejection_of, begin_at, crash_at, finish_at, hold_at, settle_at,
  fail_at, after_route, kind_of, route_at, join_at, bubble_at, after_recover, recover_at, step, run,
}

-- How many phases a call still has before it at most.
unfoldable pub rank : Option Phase → ℕ
rank none = 7
rank (some (gathering inputs)) = 6
rank (some (busy input)) = 5
rank (some (routing input)) = 4
rank (some (awaiting input calls)) = 3
rank (some holding) = 3
rank (some (failing input message)) = 2
rank (some (recovering calls)) = 1
rank (some resolved) = 0
rank (some (rejected message)) = 0

-- The calls that a call waits for.
abbrev pub calls_of : Phase → List String
calls_of (awaiting input calls) = calls
calls_of (recovering calls) = calls
calls_of p = []

-- How many calls were launched before that of a node.
unfoldable pub depth : String → List String → ℕ
depth id [] = 0
depth id (x ∷ xs) = let rest = depth id xs in if x == id then length xs else rest

abbrev pub HasPhase : String → Engine → Type 0
HasPhase c e = (p : Phase) × (lookup c e.phases ≡ some p)

-- Every one of the calls was launched, and after that of the node.
abbrev pub AreLater : String → Engine → List String → Type 0
AreLater id e calls = All (λ c. HasPhase c e × (depth id e.launches < depth c e.launches)) calls

pub data Trail (g : Graph) : ℕ → Engine → Engine → Type 0 where
  stops : (e : Engine) → Trail g zero e e
  advances :
      {n : ℕ} {e after : Engine} (id : String) (p q : Phase)
      → lookup id e.phases ≡ some p
      → rank (some q) < rank (some p)
      → AreLater id e (calls_of q)
      → Trail g n (set_phase id q e) after
      → Trail g (suc n) e after
  begins :
      {n : ℕ} {e after : Engine} (id : String) (inputs : List Json) (input : Json)
      → lookup id e.phases ≡ some (gathering inputs)
      → Trail g n (note (began id) (set_phase id (busy input) (set_status id running e))) after
      → Trail g (suc n) e after
  finishes :
      {n : ℕ} {e after : Engine} (id : String) (output : Json)
      → Trail g n
          (note
            (finished id)
            (set_status id done (record e { outputs = insert id output e.outputs })))
          after
      → Trail g n e after
  recovers :
      {n : ℕ} {e after : Engine} (id : String) (output : Json)
      → Trail g n
          (note
            (recovered id)
            (set_status id done (record e { outputs = insert id output e.outputs })))
          after
      → Trail g n e after
  fails :
      {n : ℕ} {e after : Engine} (id : String)
      → Trail g n (note (failed id) (set_status id erred e)) after
      → Trail g n e after
  skips :
      {n : ℕ} {e after : Engine} (id : String)
      → Trail g n (note (passed_over id) (set_status id skipped e)) after
      → Trail g n e after
  launches_node :
      {n : ℕ} {e after : Engine} (id : String) (node : RawNode) (inputs : List Json)
      → includes id e.launches ≡ false
      → find_node g id ≡ some node
      → is_ready g id e ≡ true
      → Trail g n
          (note
            (launched id)
            (set_phase id (gathering inputs) (record e { launches = id ∷ e.launches })))
          after
      → Trail g n e after
  launches_nothing :
      {n : ℕ} {e after : Engine} (id : String)
      → includes id e.launches ≡ false
      → Trail g n (record e { launches = id ∷ e.launches }) after
      → Trail g n e after

-- The second state comes after the first with no call gone on.
abbrev pub Quiet : Graph → Engine → Engine → Type 0
Quiet g e f = (n : ℕ) (after : Engine) → Trail g n f after → Trail g n e after

pub apply_each-keeps {ℓ} :
    (P : Engine → Type ℓ) (h : String → Engine → Engine)
    → ((c : String) (e : Engine) → P e → P (h c e))
    → (cs : List String) (e : Engine) → P e
    → P (apply_each h cs e)
apply_each-keeps P h keep [] e p = p
apply_each-keeps P h keep (c ∷ cs) e p = apply_each-keeps P h keep cs (h c e) (keep c e p)

every_by_mono {ℓ} :
    {A : Type ℓ} (p q : A → Bool)
    → ((x : A) → p x ≡ true → q x ≡ true)
    → (xs : List A) → every_by p xs ≡ true
    → every_by q xs ≡ true
every_by_mono p q f [] h = refl
every_by_mono p q f (x ∷ xs) h = ground (arith, f x, every_by_mono p q f xs)

-- `cascade_skip` keeps what a single skip of a pending node keeps.
pub cascade_skip-keeps {ℓ} :
    (g : Graph) (P : Engine → Type ℓ)
    → ((id : String) (e : Engine)
        → is_pending (lookup id e.status) ≡ true
        → P e
        → P (note (passed_over id) (set_status id skipped e)))
    → (f : ℕ) (id : String) (e : Engine) → P e
    → P (cascade_skip g f id e)
unfolding cascade_skip
cascade_skip-keeps g P keep zero id e p = p
cascade_skip-keeps g P keep (suc f) id e p = elim (Bool-cases (is_pending (lookup id e.status))) [
  | inl here ↦ rw here (
      apply_each-keeps P (cascade_skip g f) (cascade_skip-keeps g P keep f) (children_of g id)
        (note (passed_over id) (set_status id skipped e)) (keep id e here p))
  | inr gone ↦ rw gone p
]

cascade-keeps {ℓ} :
    (g : Graph) (P : Engine → Type ℓ)
    → ((id : String) (e : Engine)
        → is_pending (lookup id e.status) ≡ true
        → P e
        → P (note (passed_over id) (set_status id skipped e)))
    → (id : String) (e : Engine) → P e
    → P (cascade g id e)
unfolding cascade
cascade-keeps g P keep id e p = cascade_skip-keeps g P keep (suc (length e.status)) id e p

cascade-Quiet : (g : Graph) (id : String) (e : Engine) → Quiet g e (cascade g id e)
cascade-Quiet g id e =
    cascade-keeps g (Quiet g e) (λ c f pending k n after t. k n after (skips c t)) id e
      (λ n after t. t)

pub launches-cascade :
    (g : Graph) (id : String) (e : Engine) → (cascade g id e).launches ≡ e.launches
launches-cascade g id e =
    cascade-keeps g (λ f. f.launches ≡ e.launches) (λ c f pending k. k) id e refl

pub phases-cascade : (g : Graph) (id : String) (e : Engine) → (cascade g id e).phases ≡ e.phases
phases-cascade g id e = cascade-keeps g (λ f. f.phases ≡ e.phases) (λ c f pending k. k) id e refl

-- What is settled stays so when a pending node is skipped.
settled-skip :
    (id p : String) (s : Entries String NodeStatus)
    → is_settled (lookup p s) ≡ true
    → is_settled (lookup p (insert id skipped s)) ≡ true
settled-skip id p s h = elim (Bool-cases (id == p)) [
  | inl same ↦ rw (lookup-insert id p skipped s, same) refl
  | inr other ↦ rw (lookup-insert id p skipped s, other) h
]

is_ready-cascade :
    (g : Graph) (c id : String) (e : Engine)
    → is_ready g c e ≡ true
    → is_ready g c (cascade g id e) ≡ true
unfolding is_ready
is_ready-cascade g c id e h =
    cascade-keeps g (λ f. is_ready g c f ≡ true)
      (λ d f pending k.
        every_by_mono (λ p. is_settled (lookup p f.status))
          (λ p. is_settled (lookup p (insert d skipped f.status))) (λ p. settled-skip d p f.status)
          (parents_of g c) k)
      id e h

-- Readiness is read off the statuses alone.
is_ready-status :
    (g : Graph) (c : String) (e f : Engine)
    → f.status ≡ e.status
    → is_ready g c e ≡ true
    → is_ready g c f ≡ true
unfolding is_ready
is_ready-status g c e f same h =
    ap (λ s. every_by (λ p. is_settled (lookup p s)) (parents_of g c)) same ∙ h

-- Every id of a list is ready.
abbrev pub AreReady : Graph → Engine → List String → Type 0
AreReady g e ids = All (λ c. is_ready g c e ≡ true) ids

-- Nodes that are ready and not launched yet.
abbrev pub IsCandidate : Graph → Engine → String → Type 0
IsCandidate g e c = (is_ready g c e ≡ true) × (includes c e.launches ≡ false) × (is_node g c ≡ true)

abbrev pub AreCandidates : Graph → Engine → Next → Type 0
AreCandidates g e none = Unit
AreCandidates g e (some next) = All (IsCandidate g e) next

status-launch :
    (g : Graph) (resolve : Json → Json) (id : String) (e : Engine)
    → (launch g resolve id e).status ≡ e.status
unfolding launch
status-launch g resolve id e = elim (Bool-cases (includes id e.launches)) [
  | inl known ↦ rw known refl
  | inr new ↦ rw new (elim (Option-cases (find_node g id)) [
    | inl missing ↦ rw missing refl
    | inr (node, here) ↦ rw here refl
  ])
]

launch-Quiet :
    (g : Graph) (resolve : Json → Json) (id : String) (e : Engine)
    → is_ready g id e ≡ true
    → Quiet g e (launch g resolve id e)
unfolding launch
launch-Quiet g resolve id e h n after = elim (Bool-cases (includes id e.launches)) [
  | inl known ↦ rw known (λ t. t)
  | inr new ↦ rw new (elim (Option-cases (find_node g id)) [
    | inl missing ↦ rw missing (λ t. launches_nothing id new t)
    | inr (node, here) ↦ rw here (λ t. launches_node id node _ new here h t)
  ])
]

pub launch_all-Quiet :
    (g : Graph) (resolve : Json → Json) (ids : List String) (e : Engine)
    → AreReady g e ids
    → Quiet g e (launch_all g resolve ids e)
unfolding launch_all
launch_all-Quiet g resolve [] e h n after t = t
launch_all-Quiet g resolve (c ∷ cs) e h n after t =
    let launched_one = launch g resolve c e in
    let rest =
      All-map (λ d. is_ready g d e ≡ true) (λ d. is_ready g d launched_one ≡ true) cs
        (λ d. is_ready-status g d e launched_one (status-launch g resolve c e)) h.1 in
    launch-Quiet g resolve c e h.0 n after
      (launch_all-Quiet g resolve cs launched_one rest n after t)

candidate-AreCandidates :
    (g : Graph) (c : String) (next : List String) (e : Engine)
    → All (IsCandidate g e) next
    → AreCandidates g e (candidate g c next e)
unfolding candidate
candidate-AreCandidates g c next e h = elim (Bool-cases (includes c e.launches)) [
  | inl known ↦ rw known h
  | inr new ↦ rw new (elim (Bool-cases (is_node g c)) [
    | inl node ↦ rw node (elim (Bool-cases (is_ready g c e)) [
      | inl ready ↦ rw ready (All-append (IsCandidate g e) next (c ∷ []) h ((ready, new, node), tt))
      | inr early ↦ rw early h
    ])
    | inr dangling ↦ rw dangling tt
  ])
]

cascade-IsCandidate :
    (g : Graph) (id c : String) (e : Engine) → IsCandidate g e c → IsCandidate g (cascade g id e) c
cascade-IsCandidate g id c e (ready, new, node) =
    (is_ready-cascade g c id e ready, ap (includes c) (launches-cascade g id e) ∙ new, node)

-- What the routing of a list of children leaves: candidates, the phases and launches, and a quiet
-- change.
abbrev pub Routed : Graph → Engine → Next × Engine → Type 0
Routed g e s =
    AreCandidates g s.1 s.0 × (s.1.phases ≡ e.phases) × (s.1.launches ≡ e.launches) × Quiet g e s.1

Verdict-cases : (v : Verdict) → (v ≡ ignore) ⊎ ((v ≡ prune) ⊎ (v ≡ consider))
Verdict-cases ignore = inl refl
Verdict-cases prune = inr (inl refl)
Verdict-cases consider = inr (inr refl)

route_one-Routed :
    (g : Graph) (active : Option Json) (id c : String) (e : Engine) (s : Next × Engine)
    → Routed g e s
    → Routed g e (route_one g active id c s)
unfolding route_one
route_one-Routed g active id c e (none, f) r = r
route_one-Routed g active id c e (some next, f) (ready, same, alike, quiet) =
    elim (Verdict-cases (verdict_of active (edge_between g id c))) [
      | inl h ↦ rw (h, route_one) (ready, same, alike, quiet)
      | inr (inl h) ↦
          rw (h, route_one)
            (
              All-map (IsCandidate g f) (IsCandidate g (cascade g c f)) next
                  (λ d. cascade-IsCandidate g c d f) ready,
              phases-cascade g c f ∙ same,
              launches-cascade g c f ∙ alike,
              λ n after t. quiet n after (cascade-Quiet g c f n after t),
            )
      | inr (inr h) ↦
          rw (h, route_one) (candidate-AreCandidates g c next f ready, same, alike, quiet)
    ]

pub route_each-Routed :
    (g : Graph) (active : Option Json) (id : String) (cs : List String) (e : Engine)
    → (s : Next × Engine) → Routed g e s
    → Routed g e (route_each g active id cs s)
unfolding route_each
route_each-Routed g active id [] e s r = r
route_each-Routed g active id (c ∷ cs) e s r =
    route_each-Routed g active id cs e (route_one g active id c s)
      (route_one-Routed g active id c e s r)

pub recover_each-AreCandidates :
    (g : Graph) (cs : List String) (next : Next) (e : Engine)
    → AreCandidates g e next
    → AreCandidates g e (recover_each g cs next e)
unfolding recover_each
recover_each-AreCandidates g [] next e r = r
recover_each-AreCandidates g (c ∷ cs) none e r = tt
recover_each-AreCandidates g (c ∷ cs) (some next) e r =
    recover_each-AreCandidates g cs (candidate g c next e) e (candidate-AreCandidates g c next e r)
