-- ===== src/Worker/Steps/Placed.antt =====
-- packages/worker/src/engine/dag.ts: where a launch puts a call in the order of launches.
use hdv_orchestrator.Common.{
  ℕ, ◌<◌, ◌≤◌, String, true, false, none, some, List, [], ◌∷◌, length, ◌==◌, ◌≡◌, ◌⊎◌, inl, inr,
  refl, ◌∙◌, ap, arith, Bool-cases, Option-cases, string_eq, All, All-map, ==_refl,
}
use hdv_orchestrator.Json.{Json}
use hdv_orchestrator.JsMap.{Entries, lookup, insert}
use hdv_orchestrator.JsMap.Laws.{lookup-insert}
use hdv_orchestrator.Worker.Graph.{Graph, find_node, is_node}
use hdv_orchestrator.Worker.Engine.{
  Engine, Phase, gathering, includes, launch, launch_all, gather, note, set_phase, launched,
}
use hdv_orchestrator.Worker.Steps.Trail.{depth, HasPhase, apply_each-keeps, AreLater, IsCandidate}
use hdv_orchestrator.Worker.Steps.Known.{find_node-is_node, includes-cons}

-- A launched call at or above a place.
abbrev pub IsPlaced : ℕ → String → Engine → Type 0
IsPlaced base c e = HasPhase c e × (includes c e.launches ≡ true) × (base ≤ depth c e.launches)

-- A node that is not launched yet and would be placed at or above the place.
abbrev IsAhead : Graph → ℕ → String → Engine → Type 0
IsAhead g base c e =
    (includes c e.launches ≡ false) × (is_node g c ≡ true) × (base ≤ length e.launches)

abbrev IsDue : Graph → ℕ → String → Engine → Type 0
IsDue g base c e = IsPlaced base c e ⊎ IsAhead g base c e

-- The three things that a launch does: nothing, a mark on an unknown id, a new call.
abbrev LaunchCases : Graph → (Json → Json) → String → Engine → Type 0
LaunchCases g resolve id e =
    ((includes id e.launches ≡ true) × (launch g resolve id e ≡ e))
    ⊎ ((includes id e.launches ≡ false)
        × (((find_node g id ≡ none)
              × (launch g resolve id e ≡ record e { launches = id ∷ e.launches }))
            ⊎ ((inputs : List Json) × (launch g resolve id e
                  ≡ note (launched id) (
                      set_phase id (gathering inputs) (record e { launches = id ∷ e.launches }))))))

launch-cases :
    (g : Graph) (resolve : Json → Json) (id : String) (e : Engine) → LaunchCases g resolve id e
unfolding launch
launch-cases g resolve id e = elim (Bool-cases (includes id e.launches)) [
  | inl known ↦ inl (known, rw known refl)
  | inr new ↦ inr (
    new,
    elim (Option-cases (find_node g id)) [
      | inl missing ↦ inl (missing, rw (new, missing) refl)
      | inr (node, here) ↦ inr (gather g resolve id e, rw (new, here) refl)
    ],
  )
]

depth_top : (id c : String) (ls : List String) → (id == c) ≡ true → depth c (id ∷ ls) ≡ length ls
unfolding depth
depth_top id c ls here = rw here refl

pub depth-cons :
    (id c : String) (ls : List String)
    → includes id ls ≡ false
    → includes c ls ≡ true
    → depth c (id ∷ ls) ≡ depth c ls
unfolding depth
depth-cons id c ls new old = elim (Bool-cases (id == c)) [
  | inl same ↦
      let k : includes id ls ≡ includes c ls =
        ap (λ i. includes i ls) ((string_eq.same_iff id c).0 same) in
      cc
  | inr other ↦ rw other refl
]

same_not : ¬ (true ≡ false)
same_not h = cc

pub insert-HasPhase :
    (id c : String) (q : Phase) (m : Entries String Phase)
    → ((p : Phase) × (lookup c m ≡ some p)) ⊎ (id ≡ c)
    → (p : Phase) × (lookup c (insert id q m) ≡ some p)
insert-HasPhase id c q m h = elim (Bool-cases (id == c)) [
  | inl same ↦ (q, rw (lookup-insert id c q m, same) refl)
  | inr other ↦ (elim h [
    | inl (p, at) ↦ (p, rw (lookup-insert id c q m, other) at)
    | inr equal ↦ absurd (same_not (rw (equal, ==_refl c) at other))
  ])
]

launch-IsPlaced :
    (g : Graph) (resolve : Json → Json) (id : String) (base : ℕ) (c : String) (e : Engine)
    → IsPlaced base c e
    → IsPlaced base c (launch g resolve id e)
launch-IsPlaced g resolve id base c e (phase, old, high) = elim (launch-cases g resolve id e) [
  | inl (known, same) ↦ rw same (phase, old, high)
  | inr (new, inl (missing, same)) ↦
      rw same
        (phase, includes-cons id c e.launches old, rw (depth-cons id c e.launches new old) high)
  | inr (new, inr (inputs, same)) ↦ rw same (
    insert-HasPhase id c (gathering inputs) e.phases (inl phase),
    includes-cons id c e.launches old,
    rw (depth-cons id c e.launches new old) high,
  )
]

-- A launch places the call that it makes and keeps the due ones due.
launch-IsDue :
    (g : Graph) (resolve : Json → Json) (id : String) (base : ℕ) (c : String) (e : Engine)
    → IsDue g base c e
    → IsDue g base c (launch g resolve id e)
launch-IsDue g resolve id base c e (inl placed) = inl (launch-IsPlaced g resolve id base c e placed)
launch-IsDue g resolve id base c e (inr (fresh, node, high)) = elim (launch-cases g resolve id e) [
  | inl (known, same) ↦ rw same (inr (fresh, node, high))
  | inr (new, inl (missing, same)) ↦ elim (Bool-cases (id == c)) [
    | inl here ↦
        let (found, at) = find_node-is_node g c node in
        let k : find_node g id ≡ find_node g c =
          ap (find_node g) ((string_eq.same_iff id c).0 here) in
        cc
    | inr other ↦ rw same (inr (rw other fresh, node, omega arith))
  ]
  | inr (new, inr (inputs, same)) ↦ elim (Bool-cases (id == c)) [
    | inl here ↦
        let k = (string_eq.same_iff id c).0 here in
        rw same (
          inl (
            insert-HasPhase id c (gathering inputs) e.phases (inr k),
            rw here refl,
            rw (depth_top id c e.launches here) high,
          ))
    | inr other ↦ rw same (inr (rw other fresh, node, omega arith))
  ]
]

-- After its launch an id is among the launched.
launched_not :
    (g : Graph) (resolve : Json → Json) (c : String) (e : Engine)
    → ¬ (includes c (launch g resolve c e).launches ≡ false)
launched_not g resolve c e fresh = elim (launch-cases g resolve c e) [
  | inl (known, same) ↦ let k = rw same at fresh in cc
  | inr (new, inl (missing, same)) ↦ same_not (rw (same, ==_refl c) at fresh)
  | inr (new, inr (inputs, same)) ↦ same_not (rw (same, ==_refl c) at fresh)
]

launch_self-IsPlaced :
    (g : Graph) (resolve : Json → Json) (base : ℕ) (c : String) (e : Engine)
    → IsDue g base c e
    → IsPlaced base c (launch g resolve c e)
launch_self-IsPlaced g resolve base c e due = elim (launch-IsDue g resolve c base c e due) [
  | inl placed ↦ placed
  | inr (fresh, node, high) ↦ absurd (launched_not g resolve c e fresh)
]

-- All the due calls of a list are placed once all are launched.
pub launch_all-IsPlaced :
    (g : Graph) (resolve : Json → Json) (base : ℕ) (cs : List String) (e : Engine)
    → All (λ c. IsDue g base c e) cs
    → All (λ c. IsPlaced base c (launch_all g resolve cs e)) cs
unfolding launch_all
launch_all-IsPlaced g resolve base [] e due = tt
launch_all-IsPlaced g resolve base (c ∷ cs) e due = (
  apply_each-keeps (IsPlaced base c) (launch g resolve)
      (λ d x. launch-IsPlaced g resolve d base c x) cs (launch g resolve c e)
      (launch_self-IsPlaced g resolve base c e due.0),
  launch_all-IsPlaced g resolve base cs (launch g resolve c e) (
      All-map (λ d. IsDue g base d e) (λ d. IsDue g base d (launch g resolve c e)) cs
        (λ d. launch-IsDue g resolve c base d e) due.1),
)

-- A call that was launched before keeps its phase and its place.
launch-keeps :
    (g : Graph) (resolve : Json → Json) (c : String) (e : Engine) (id : String)
    → includes id e.launches ≡ true
    → (includes id (launch g resolve c e).launches ≡ true)
      × (lookup id (launch g resolve c e).phases ≡ lookup id e.phases)
      × (depth id (launch g resolve c e).launches ≡ depth id e.launches)
launch-keeps g resolve c e id old = elim (launch-cases g resolve c e) [
  | inl (known, same) ↦ rw same (old, refl, refl)
  | inr (new, inl (missing, same)) ↦
      rw same (includes-cons c id e.launches old, refl, depth-cons c id e.launches new old)
  | inr (new, inr (inputs, same)) ↦ elim (Bool-cases (c == id)) [
    | inl here ↦
        let k : includes c e.launches ≡ includes id e.launches =
          ap (λ i. includes i e.launches) ((string_eq.same_iff c id).0 here) in
        cc
    | inr other ↦ rw same (
      includes-cons c id e.launches old,
      rw (lookup-insert c id (gathering inputs) e.phases, other) refl,
      depth-cons c id e.launches new old,
    )
  ]
]

pub launch_all-keeps :
    (g : Graph) (resolve : Json → Json) (cs : List String) (e : Engine) (id : String)
    → includes id e.launches ≡ true
    → (includes id (launch_all g resolve cs e).launches ≡ true)
      × (lookup id (launch_all g resolve cs e).phases ≡ lookup id e.phases)
      × (depth id (launch_all g resolve cs e).launches ≡ depth id e.launches)
unfolding launch_all
launch_all-keeps g resolve [] e id old = (old, refl, refl)
launch_all-keeps g resolve (c ∷ cs) e id old =
    let one = launch-keeps g resolve c e id old in
    let rest = launch_all-keeps g resolve cs (launch g resolve c e) id one.0 in
    (rest.0, rest.1 ∙ one.1, rest.2 ∙ one.2)

pub depth_lt : (id : String) (ls : List String) → includes id ls ≡ true → depth id ls < length ls
unfolding depth
depth_lt id [] h = cc
depth_lt id (x ∷ xs) h = elim (Bool-cases (x == id)) [
  | inl same ↦ rw same (omega arith)
  | inr other ↦ rw other (omega (arith, depth_lt id xs (rw other at h)))
]

-- Candidates that a launched node calls end up after it.
pub launch_all-AreLater :
    (g : Graph) (resolve : Json → Json) (id : String) (next : List String) (e : Engine)
    → includes id e.launches ≡ true
    → All (IsCandidate g e) next
    → AreLater id (launch_all g resolve next e) next
launch_all-AreLater g resolve id next e old fresh =
    let after = launch_all g resolve next e in
    let base = length e.launches in
    let mine = launch_all-keeps g resolve next e id old in
    let low = depth_lt id e.launches old in
    All-map (λ c. IsPlaced base c after)
      (λ c. HasPhase c after × (depth id after.launches < depth c after.launches)) next
      (λ c placed. let high = placed.2 in (placed.0, omega arith))
      (launch_all-IsPlaced g resolve base next e (
        All-map (IsCandidate g e) (λ c. IsDue g base c e) next
          (λ c candidate. inr (candidate.1, candidate.2, omega arith)) fresh))
