-- ===== src/Worker/Steps/Trail/Goes.antt =====
-- packages/worker/src/engine/dag.ts: every step of an execution is a trail on which a call goes on.
use mathlib.Core.Path.{subst}
use hdv_orchestrator.Common.{
  ℕ, zero, suc, ◌<◌, String, Bool, true, false, Option, none, some, List, [], ◌∷◌, length,
  if◌then◌else◌, ◌≡◌, refl, ◌∙◌, ap, arith, length, or_else, All-map, string_eq,
}
use hdv_orchestrator.Json.{Json, undefined}
use hdv_orchestrator.JsMap.{lookup, insert}
use hdv_orchestrator.Worker.Graph.{Graph, find_node, children_of, error_children, has_error_edge}
use hdv_orchestrator.Worker.Engine.{
  Engine, done, Phase, gathering, busy, routing, awaiting, holding, failing, recovering, resolved,
  rejected, recovered, includes, set_status, note, input_of, is_extensible, with_error, is_ready,
}
use hdv_orchestrator.Worker.Steps.{
  Choice, begin, hold, settle, route, join, recover, crash, fail, finish, bubble, Next, route_each,
  recover_each, fail_with, active_handle, type_error, begin_at, crash_at, finish_at, hold_at,
  settle_at, fail_at, after_route, kind_of, route_at, join_at, bubble_at, after_recover, recover_at,
  step, run, and_then,
}
use hdv_orchestrator.Worker.Steps.Trail.{
  rank, Trail, stops, advances, begins, finishes, recovers, fails, AreCandidates, Routed,
  launch_all-Quiet, IsCandidate, route_each-Routed, recover_each-AreCandidates,
}
use hdv_orchestrator.Worker.Steps.{NodeLog, start, prepare, roots}
use hdv_orchestrator.Worker.Steps.Known.{IsKnown, Trail-IsKnown, prepare-IsKnown}
use hdv_orchestrator.Worker.Steps.Placed.{launch_all-AreLater, launch_all-keeps}
use hdv_orchestrator.Worker.Steps.Started.{roots-AreReady}

-- A step as a trail: at least one call went on.
abbrev pub Goes : Graph → Engine → Engine → Type 0
Goes g e f = (n : ℕ) (after : Engine) → Trail g n f after → Trail g (suc n) e after

fail_with-Goes :
    (g : Graph) (id : String) (input : Json) (message : String) (p : Phase) (e : Engine)
    → lookup id e.phases ≡ some p
    → 2 < rank (some p)
    → Goes g e (fail_with id input message e)
unfolding fail_with rank
fail_with-Goes g id input message p e at above n after t =
    advances id p (failing input message) at above tt (fails id t)

some_same {ℓ} : {A : Type ℓ} {x y : A} → some x ≡ some y → x ≡ y
some_same h = cc

-- A guarded step that was taken passed its guard.
guarded {ℓ κ} :
    {A : Type ℓ} (Q : A → Type κ) (b : Bool) (x y : A)
    → (b ≡ true → Q x)
    → (if b then some x else none) ≡ some y
    → Q y
guarded Q true x y h taken = subst Q (some_same taken) (h refl)
guarded Q false x y h taken = cc

chosen {ℓ κ} :
    {A : Type ℓ} (Q : A → Type κ) (b : Bool) (x y z : A)
    → (b ≡ true → Q x)
    → (b ≡ false → Q y)
    → (if b then some x else some y) ≡ some z
    → Q z
chosen Q true x y z h k taken = subst Q (some_same taken) (h refl)
chosen Q false x y z h k taken = subst Q (some_same taken) (k refl)

took {ℓ κ} : {A : Type ℓ} (Q : A → Type κ) (x y : A) → Q x → some x ≡ some y → Q y
took Q x y h taken = subst Q (some_same taken) h

after_recover-Goes :
    (g : Graph) (resolve : Json → Json) (trigger_data : Json) (id : String) (e : Engine)
    → (input : Json) (message : String) → lookup id e.phases ≡ some (failing input message)
    → IsKnown g e.phases e.launches
    → (next : Next) → AreCandidates g e next
    → Goes g e (after_recover g resolve trigger_data id next e)
unfolding after_recover rank
after_recover-Goes g resolve trigger_data id e input message at known none ready n after t =
    advances id (failing input message) (rejected type_error) at (omega arith) tt t
after_recover-Goes g resolve trigger_data id e input message at known (some next) ready n after t =
    let here = (known id (failing input message) at).1 in
    let all = launch_all-keeps g resolve next e id here in
    launch_all-Quiet g resolve next e
      (All-map (IsCandidate g e) (λ c. is_ready g c e ≡ true) next (λ c k. k.0) ready) (suc n) after
      (advances id (failing input message) (recovering next) (all.1 ∙ at) (omega arith)
        (launch_all-AreLater g resolve id next e here ready) t)

module _ (g : Graph) (resolve : Json → Json) (trigger_data : Json) (id : String)
    (e f : Engine) where
  begin_at-Goes :
      (p : Option Phase)
      → lookup id e.phases ≡ p
      → begin_at g resolve trigger_data id p e ≡ some f
      → Goes g e f
  unfolding begin_at
  begin_at-Goes (some (gathering inputs)) at taken =
      guarded (Goes g e) (is_extensible (input_of trigger_data inputs)) _ f
        (λ _ n after t. begins id inputs (input_of trigger_data inputs) at t) taken
  begin_at-Goes p at taken = cc

  crash_at-Goes :
      (message : String) (p : Option Phase)
      → lookup id e.phases ≡ p
      → crash_at g resolve trigger_data id message p e ≡ some f
      → Goes g e f
  unfolding crash_at rank
  crash_at-Goes message (some (gathering inputs)) at taken =
      took (Goes g e) _ f (λ n after t. advances id _ (rejected message) at (omega arith) tt t)
        taken
  crash_at-Goes message (some (busy input)) at taken =
      took (Goes g e) _ f (λ n after t. advances id _ (rejected message) at (omega arith) tt t)
        taken
  crash_at-Goes message (some holding) at taken =
      took (Goes g e) _ f (λ n after t. advances id _ (rejected message) at (omega arith) tt t)
        taken
  crash_at-Goes message (some (failing input cause)) at taken =
      took (Goes g e) _ f (λ n after t. advances id _ (rejected message) at (omega arith) tt t)
        taken
  crash_at-Goes message p at taken = cc

  finish_at-Goes :
      (output : Json) (p : Option Phase)
      → lookup id e.phases ≡ p
      → finish_at g resolve trigger_data id output p e ≡ some f
      → Goes g e f
  unfolding finish_at rank
  finish_at-Goes output (some (busy input)) at taken =
      took (Goes g e) _ f
        (λ n after t. advances id _ (routing input) at (omega arith) tt (finishes id output t))
        taken
  finish_at-Goes output p at taken = cc

  hold_at-Goes :
      (p : Option Phase)
      → lookup id e.phases ≡ p
      → hold_at g resolve trigger_data id p e ≡ some f
      → Goes g e f
  unfolding hold_at rank
  hold_at-Goes (some (busy input)) at taken =
      took (Goes g e) _ f
        (λ n after t. advances id _ holding at (omega arith) tt (finishes id input t)) taken
  hold_at-Goes p at taken = cc

  settle_at-Goes :
      (p : Option Phase)
      → lookup id e.phases ≡ p
      → settle_at g resolve trigger_data id p e ≡ some f
      → Goes g e f
  unfolding settle_at rank
  settle_at-Goes (some holding) at taken =
      took (Goes g e) _ f (λ n after t. advances id _ resolved at (omega arith) tt t) taken
  settle_at-Goes p at taken = cc

  fail_at-Goes :
      (message : String) (p : Option Phase)
      → lookup id e.phases ≡ p
      → fail_at g resolve trigger_data id message p e ≡ some f
      → Goes g e f
  unfolding fail_at rank
  fail_at-Goes message (some (busy input)) at taken =
      took (Goes g e) _ f (fail_with-Goes g id input message _ e at (omega arith)) taken
  fail_at-Goes message (some (routing input)) at taken =
      took (Goes g e) _ f (fail_with-Goes g id input message _ e at (omega arith)) taken
  fail_at-Goes message p at taken = cc

  join_at-Goes :
      (p : Option Phase)
      → lookup id e.phases ≡ p
      → join_at g resolve trigger_data id p e ≡ some f
      → Goes g e f
  unfolding join_at rank
  join_at-Goes (some (awaiting input calls)) at taken =
      guarded (Goes g e) _ _ f (λ _ n after t. advances id _ resolved at (omega arith) tt t) taken
  join_at-Goes (some (recovering calls)) at taken =
      guarded (Goes g e) _ _ f (λ _ n after t. advances id _ resolved at (omega arith) tt t) taken
  join_at-Goes p at taken = cc

  bubble_at-Goes :
      (child : String) (cause : Option String) (p : Option Phase)
      → lookup id e.phases ≡ p
      → bubble_at g resolve trigger_data id child cause p e ≡ some f
      → Goes g e f
  unfolding bubble_at rank
  bubble_at-Goes child (some message) (some (awaiting input calls)) at taken =
      guarded (Goes g e) _ _ f (λ _. fail_with-Goes g id input message _ e at (omega arith)) taken
  bubble_at-Goes child (some message) (some (recovering calls)) at taken =
      guarded (Goes g e) _ _ f
        (λ _ n after t. advances id _ (rejected message) at (omega arith) tt t) taken
  bubble_at-Goes child cause p at taken = cc

  after_route-Goes :
      (input : Json)
      → lookup id e.phases ≡ some (routing input)
      → IsKnown g e.phases e.launches
      → (s : Next × Engine) → Routed g e s
      → Goes g e (after_route g resolve trigger_data id input s)
  unfolding after_route rank
  after_route-Goes input at known (none, h) (ready, same, alike, quiet) n after t =
      quiet (suc n) after (
        fail_with-Goes g id input type_error (routing input) h (ap (λ m. lookup id m) same ∙ at)
          (omega arith) n after t)
  after_route-Goes input at known (some next, h) (ready, same, alike, quiet) n after t =
      let here : includes id h.launches ≡ true =
        ap (includes id) alike ∙ (known id (routing input) at).1 in
      let all = launch_all-keeps g resolve next h id here in
      quiet (suc n) after (
        launch_all-Quiet g resolve next h
          (All-map (IsCandidate g h) (λ c. is_ready g c h ≡ true) next (λ c k. k.0) ready) (suc n)
          after
          (advances id (routing input) (awaiting input next)
            (all.1 ∙ ap (λ m. lookup id m) same ∙ at) (omega arith)
            (launch_all-AreLater g resolve id next h here ready) t))

  route_at-Goes :
      IsKnown g e.phases e.launches
      → (p : Option Phase) → lookup id e.phases ≡ p
      → route_at g resolve trigger_data id p e ≡ some f
      → Goes g e f
  unfolding route_at
  route_at-Goes known (some (routing input)) at taken =
      let active =
        active_handle (kind_of g resolve trigger_data (find_node g id))
          (or_else (lookup id e.outputs) undefined) in
      let routed = route_each g active id (children_of g id) (some [], e) in
      took (Goes g e) _ f
        (after_route-Goes input at known routed (
          route_each-Routed g active id (children_of g id) e (some [], e)
            (tt, refl, refl, λ n after t. t)))
        taken
  route_at-Goes known p at taken = cc

  recover_at-Goes :
      IsKnown g e.phases e.launches
      → (p : Option Phase) → lookup id e.phases ≡ p
      → recover_at g resolve trigger_data id p e ≡ some f
      → Goes g e f
  unfolding recover_at rank
  recover_at-Goes known (some (failing input message)) at taken =
      let output = with_error input message in
      let eased : Engine =
        note (recovered id)
          (set_status id done (record e { outputs = insert id output e.outputs })) in
      let next = recover_each g (error_children g id) (some []) eased in
      chosen (Goes g e) (has_error_edge g id) _ _ f
        (λ _ n after t. recovers id output (
          after_recover-Goes g resolve trigger_data id eased input message at known next
            (recover_each-AreCandidates g (error_children g id) (some []) eased tt) n after t))
        (λ _ n after t.
          advances id (failing input message) (rejected message) at (omega arith) tt t)
        taken
  recover_at-Goes known p at taken = cc

-- Whatever the choice, a step is a trail on which a call goes on.
pub step-Goes :
    (g : Graph) (resolve : Json → Json) (trigger_data : Json) (c : Choice) (e f : Engine)
    → IsKnown g e.phases e.launches
    → step g resolve trigger_data c e ≡ some f
    → Goes g e f
unfolding step
step-Goes g r d (begin id) e f known taken = begin_at-Goes g r d id e f _ refl taken
step-Goes g r d (hold id) e f known taken = hold_at-Goes g r d id e f _ refl taken
step-Goes g r d (settle id) e f known taken = settle_at-Goes g r d id e f _ refl taken
step-Goes g r d (route id) e f known taken = route_at-Goes g r d id e f known _ refl taken
step-Goes g r d (join id) e f known taken = join_at-Goes g r d id e f _ refl taken
step-Goes g r d (recover id) e f known taken = recover_at-Goes g r d id e f known _ refl taken
step-Goes g r d (crash id message) e f known taken = crash_at-Goes g r d id e f message _ refl taken
step-Goes g r d (fail id message) e f known taken = fail_at-Goes g r d id e f message _ refl taken
step-Goes g r d (finish id output) e f known taken = finish_at-Goes g r d id e f output _ refl taken
step-Goes g r d (bubble id child) e f known taken = bubble_at-Goes g r d id e f child _ _ refl taken

and_then-cases :
    (o : Option Engine) (k : Engine → Option Engine) (f : Engine)
    → and_then o k ≡ some f
    → (mid : Engine) × (o ≡ some mid) × (k mid ≡ some f)
and_then-cases none k f taken = cc
and_then-cases (some mid) k f taken = (mid, refl, taken)

-- A run that was made is a trail with a phase for every choice of its schedule.
run-Trail :
    (g : Graph) (resolve : Json → Json) (trigger_data : Json) (cs : List Choice) (e f : Engine)
    → IsKnown g e.phases e.launches
    → run g resolve trigger_data cs e ≡ some f
    → Trail g (length cs) e f
unfolding run
run-Trail g r d [] e f known taken = subst (Trail g zero e) (some_same taken) (stops e)
run-Trail g r d (c ∷ cs) e f known taken =
    let (mid, went, later) = and_then-cases (step g r d c e) (run g r d cs) f taken in
    let one = step-Goes g r d c e mid known went in
    one (length cs) f
      (run-Trail g r d cs mid f (Trail-IsKnown g (one zero mid (stops mid)) known) later)

-- What a schedule makes of a start is what a trail makes of the prepared state.
pub start-Trail :
    (g : Graph) (resolve : Json → Json) (trigger_data : Json) (ls : List NodeLog)
    → (cs : List Choice) (f : Engine) → run g resolve trigger_data cs (start g resolve ls) ≡ some f
    → Trail g (length cs) (prepare g ls) f
unfolding start
start-Trail g resolve trigger_data ls cs f taken =
    let quiet =
      launch_all-Quiet g resolve (roots g) (prepare g ls) (roots-AreReady g (prepare g ls)) in
    let first = quiet zero (start g resolve ls) (stops (start g resolve ls)) in
    let started = Trail-IsKnown g first (prepare-IsKnown g ls) in
    quiet (length cs) f (run-Trail g resolve trigger_data cs (start g resolve ls) f started taken)
