-- ===== src/Worker/Steps/Progress.antt =====
-- packages/worker/src/engine/dag.ts: that an execution never gets stuck and can be brought to rest.
use hdv_orchestrator.Common.{
  ℕ, zero, suc, ◌+◌, ◌≤◌, String, Bool, true, false, some, List, [], ◌∷◌, length, ◌==◌, every_by,
  ◌≡◌, ◌⊎◌, inl, inr, refl, arith, Bool-cases, string_eq, All, ==_refl,
}
use hdv_orchestrator.Json.{Json, undefined}
use hdv_orchestrator.JsMap.{Entries, lookup}
use hdv_orchestrator.Worker.Graph.{Graph, has_error_edge}
use hdv_orchestrator.Worker.Engine.{
  Engine, Phase, gathering, busy, routing, awaiting, holding, failing, recovering, resolved,
  rejected, includes, input_of, is_extensible,
}
use hdv_orchestrator.Worker.Steps.{
  Choice, begin, settle, route, join, recover, crash, finish, bubble, step, is_resolved, begin_at,
  crash_at, finish_at, settle_at, route_at, join_at, bubble_at, recover_at,
}
use hdv_orchestrator.Worker.Steps.Trail.{rank, depth}
use hdv_orchestrator.Worker.Steps.Known.{IsKnown}
use hdv_orchestrator.Worker.Steps.Placed.{depth_lt}
use hdv_orchestrator.Worker.Steps.Forward.{IsForward}

-- A step that can be taken.
abbrev pub CanGo : Graph → (Json → Json) → Json → Engine → Type 0
CanGo g resolve trigger_data e =
    (c : Choice) × (f : Engine) × (step g resolve trigger_data c e ≡ some f)

goes_by :
    (g : Graph) (resolve : Json → Json) (trigger_data : Json) (e : Engine) (c : Choice)
    → (f : Engine) × (step g resolve trigger_data c e ≡ some f)
    → CanGo g resolve trigger_data e
goes_by g resolve trigger_data e c h = (c, h.0, h.1)

-- A list of calls of which one fails a test.
first_not {ℓ} :
    (test : String → Bool) (P : String → Type ℓ) (calls : List String)
    → every_by test calls ≡ false
    → All P calls
    → (c : String) × (includes c calls ≡ true) × (test c ≡ false) × P c
first_not test P [] h all = cc
first_not test P (c ∷ cs) h all = elim (Bool-cases (test c)) [
  | inl good ↦
      let (d, inside, bad, p) = first_not test P cs (rw good at h) all.1 in
      (
        d,
        (elim (Bool-cases (c == d)) [ inl same ↦ rw same refl | inr other ↦ rw other inside ]),
        bad,
        p,
      )
  | inr bad ↦ (c, rw (==_refl c) refl, bad, all.0)
]

-- A call that is over and not resolved is rejected.
open_not : ¬ (true ≡ false)
open_not h = cc

rejected_only :
    (c : String) (m : Entries String Phase) (p : Phase)
    → lookup c m ≡ some p
    → rank (some p) ≡ 0
    → is_resolved (lookup c m) ≡ false
    → (message : String) × (lookup c m ≡ some (rejected message))
unfolding rank
rejected_only c m resolved at over open_call = absurd (open_not (rw at at open_call))
rejected_only c m (rejected message) at over open_call = (message, at)
rejected_only c m (gathering inputs) at over open_call = absurd (omega arith)
rejected_only c m p at over open_call = absurd (omega arith)

module _ (g : Graph) (resolve : Json → Json) (trigger_data : Json) (e : Engine) where
  -- The call of a child's parent goes on when the child is rejected.
  await_bubble :
      (id c message : String) (input : Json) (calls : List String)
      → lookup id e.phases ≡ some (awaiting input calls)
      → includes c calls ≡ true
      → lookup c e.phases ≡ some (rejected message)
      → CanGo g resolve trigger_data e
  unfolding step bubble_at
  await_bubble id c message input calls at inside failed_child =
      goes_by g resolve trigger_data e (bubble id c) (rw (at, failed_child, inside) (_, refl))

  recover_bubble :
      (id c message : String) (calls : List String)
      → lookup id e.phases ≡ some (recovering calls)
      → includes c calls ≡ true
      → lookup c e.phases ≡ some (rejected message)
      → CanGo g resolve trigger_data e
  unfolding step bubble_at
  recover_bubble id c message calls at inside failed_child =
      goes_by g resolve trigger_data e (bubble id c) (rw (at, failed_child, inside) (_, refl))

  begin_or_crash :
      (id : String) (inputs : List Json)
      → lookup id e.phases ≡ some (gathering inputs)
      → CanGo g resolve trigger_data e
  unfolding step begin_at crash_at
  begin_or_crash id inputs at = elim (Bool-cases (is_extensible (input_of trigger_data inputs))) [
    | inl good ↦ goes_by g resolve trigger_data e (begin id) (rw (at, good) (_, refl))
    | inr bad ↦ goes_by g resolve trigger_data e (crash id "") (rw at (_, refl))
  ]

  recover_or_reject :
      (id : String) (input : Json) (message : String)
      → lookup id e.phases ≡ some (failing input message)
      → CanGo g resolve trigger_data e
  unfolding step recover_at
  recover_or_reject id input message at = elim (Bool-cases (has_error_edge g id)) [
    | inl edge ↦ goes_by g resolve trigger_data e (recover id) (rw (at, edge) (_, refl))
    | inr final ↦ goes_by g resolve trigger_data e (recover id) (rw (at, final) (_, refl))
  ]

  join_all :
      (id : String) (p : Phase) (input : Json) (calls : List String)
      → (p ≡ awaiting input calls) ⊎ (p ≡ recovering calls)
      → lookup id e.phases ≡ some p
      → every_by (λ c. is_resolved (lookup c e.phases)) calls ≡ true
      → CanGo g resolve trigger_data e
  unfolding step join_at
  join_all id p input calls (inl same) at all =
      goes_by g resolve trigger_data e (join id) (rw (at, same, all) (_, refl))
  join_all id p input calls (inr same) at all =
      goes_by g resolve trigger_data e (join id) (rw (at, same, all) (_, refl))

  -- Whatever has a call is over, or some step can be taken: by induction on the calls launched after
  -- it.
  pub can_go :
      IsKnown g e.phases e.launches
      → IsForward e
      → (n : ℕ) (id : String) (p : Phase) → lookup id e.phases ≡ some p
      → length e.launches ≤ n + depth id e.launches
      → (rank (some p) ≡ 0) ⊎ CanGo g resolve trigger_data e
  unfolding rank step finish_at route_at settle_at
  can_go known forward zero id p at low =
      absurd (omega (arith, depth_lt id e.launches (known id p at).1))
  can_go known forward (suc n) id (gathering inputs) at low = inr (begin_or_crash id inputs at)
  can_go known forward (suc n) id (busy input) at low =
      inr (goes_by g resolve trigger_data e (finish id undefined) (rw at (_, refl)))
  can_go known forward (suc n) id (routing input) at low =
      inr (goes_by g resolve trigger_data e (route id) (rw at (_, refl)))
  can_go known forward (suc n) id (awaiting input calls) at low =
      elim (Bool-cases (every_by (λ c. is_resolved (lookup c e.phases)) calls)) [
        | inl all ↦ inr (join_all id (awaiting input calls) input calls (inl refl) at all)
        | inr some_open ↦
            let (c, inside, open_call, ((q, here), deeper)) =
              first_not (λ c. is_resolved (lookup c e.phases)) _ calls some_open
                (forward id (awaiting input calls) at) in
            elim (can_go known forward n c q here (omega arith)) [
              | inl over ↦
                  let (message, failed_child) = rejected_only c e.phases q here over open_call in
                  inr (await_bubble id c message input calls at inside failed_child)
              | inr go ↦ inr go
            ]
      ]
  can_go known forward (suc n) id holding at low =
      inr (goes_by g resolve trigger_data e (settle id) (rw at (_, refl)))
  can_go known forward (suc n) id (failing input message) at low =
      inr (recover_or_reject id input message at)
  can_go known forward (suc n) id (recovering calls) at low =
      elim (Bool-cases (every_by (λ c. is_resolved (lookup c e.phases)) calls)) [
        | inl all ↦ inr (join_all id (recovering calls) undefined calls (inr refl) at all)
        | inr some_open ↦
            let (c, inside, open_call, ((q, here), deeper)) =
              first_not (λ c. is_resolved (lookup c e.phases)) _ calls some_open
                (forward id (recovering calls) at) in
            elim (can_go known forward n c q here (omega arith)) [
              | inl over ↦
                  let (message, failed_child) = rejected_only c e.phases q here over open_call in
                  inr (recover_bubble id c message calls at inside failed_child)
              | inr go ↦ inr go
            ]
      ]
  can_go known forward (suc n) id resolved at low = inl refl
  can_go known forward (suc n) id (rejected message) at low = inl refl
