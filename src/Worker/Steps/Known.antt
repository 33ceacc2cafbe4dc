-- ===== src/Worker/Steps/Known.antt =====
-- packages/worker/src/engine/dag.ts: which calls of `processNode` there are.
use mathlib.Core.Path.{subst}
use hdv_orchestrator.Common.{
  ℕ, String, Bool, true, false, none, some, List, [], ◌∷◌, ◌==◌, some_by, find_by, ◌≡◌, refl, arith,
  Bool-cases, Option-cases, inl, inr, string_eq, ==_refl,
}
use hdv_orchestrator.JsMap.{Entries, lookup, insert}
use hdv_orchestrator.JsMap.Laws.{lookup-insert}
use hdv_orchestrator.Worker.Graph.{Graph, RawNode, find_node, is_node}
use hdv_orchestrator.Worker.Engine.{Engine, Phase, gathering, busy, includes}
use hdv_orchestrator.Worker.Steps.{NodeLog, prepare}
use hdv_orchestrator.Worker.Steps.Trail.{
  Trail, stops, advances, begins, finishes, recovers, fails, skips, launches_node, launches_nothing,
}
use hdv_orchestrator.Worker.Steps.Started.{prepare-keeps}

some_by-find_by {ℓ} :
    {A : Type ℓ} (p : A → Bool) (xs : List A) (x : A) → find_by p xs ≡ some x → some_by p xs ≡ true
some_by-find_by p [] x h = cc
some_by-find_by p (y ∷ ys) x h = ground (arith, some_by-find_by p ys x)

is_node-find_node :
    (g : Graph) (id : String) (node : RawNode) → find_node g id ≡ some node → is_node g id ≡ true
unfolding find_node is_node
is_node-find_node g id node h = some_by-find_by (λ n. n.id == id) g.nodes node h

find_by-some_by {ℓ} :
    {A : Type ℓ} (p : A → Bool) (xs : List A)
    → some_by p xs ≡ true
    → (x : A) × (find_by p xs ≡ some x)
find_by-some_by p [] h = cc
find_by-some_by p (y ∷ ys) h = elim (Bool-cases (p y)) [
  | inl here ↦ (y, rw here refl)
  | inr later ↦ let rest = find_by-some_by p ys (rw later at h) in (rest.0, rw later rest.1)
]

pub find_node-is_node :
    (g : Graph) (id : String)
    → is_node g id ≡ true
    → (node : RawNode) × (find_node g id ≡ some node)
unfolding find_node is_node
find_node-is_node g id h = find_by-some_by (λ n. n.id == id) g.nodes h

-- Whatever has a phase is a node and was launched.
abbrev pub IsKnown : Graph → Entries String Phase → List String → Type 0
IsKnown g m ids =
    (id : String) (p : Phase)
    → lookup id m ≡ some p
    → (is_node g id ≡ true) × (includes id ids ≡ true)

pub insert-IsKnown :
    (g : Graph) (id : String) (q : Phase) (m : Entries String Phase) (ids more : List String)
    → (is_node g id ≡ true) × (includes id more ≡ true)
    → ((j : String) → includes j ids ≡ true → includes j more ≡ true)
    → IsKnown g m ids
    → IsKnown g (insert id q m) more
insert-IsKnown g id q m ids more here grow known j p at = elim (Bool-cases (id == j)) [
  | inl same ↦
      subst (λ i. (is_node g i ≡ true) × (includes i more ≡ true))
        ((string_eq.same_iff id j).0 same) here
  | inr other ↦
      let at_before : lookup j m ≡ some p = ground (arith, lookup-insert id j q m) in
      let before = known j p at_before in (before.0, grow j before.1)
]

pub includes-cons :
    (id j : String) (ids : List String) → includes j ids ≡ true → includes j (id ∷ ids) ≡ true
includes-cons id j ids h = ground arith

-- The calls stay known along a trail, and a launched node had no call before.
pub launch-IsKnown :
    (g : Graph) (id : String) (node : RawNode) (q : Phase) (e : Engine)
    → find_node g id ≡ some node
    → IsKnown g e.phases e.launches
    → IsKnown g (insert id q e.phases) (id ∷ e.launches)
launch-IsKnown g id node q e here known =
    insert-IsKnown g id q e.phases e.launches (id ∷ e.launches)
      (is_node-find_node g id node here, rw (==_refl id) refl) (λ j. includes-cons id j e.launches)
      known

pub widen-IsKnown :
    (g : Graph) (id : String) (e : Engine)
    → IsKnown g e.phases e.launches
    → IsKnown g e.phases (id ∷ e.launches)
widen-IsKnown g id e known j p at = let k = known j p at in (k.0, includes-cons id j e.launches k.1)

pub advance-IsKnown :
    (g : Graph) (id : String) (p q : Phase) (e : Engine)
    → lookup id e.phases ≡ some p
    → IsKnown g e.phases e.launches
    → IsKnown g (insert id q e.phases) e.launches
advance-IsKnown g id p q e at known =
    insert-IsKnown g id q e.phases e.launches e.launches (known id p at) (λ j h. h) known

pub fresh_phase :
    (g : Graph) (id : String) (e : Engine)
    → includes id e.launches ≡ false
    → IsKnown g e.phases e.launches
    → lookup id e.phases ≡ none
fresh_phase g id e new known = elim (Option-cases (lookup id e.phases)) [
  | inl missing ↦ missing
  | inr (p, at) ↦ let old = (known id p at).1 in cc
]

pub Trail-IsKnown :
    (g : Graph) {n : ℕ} {e f : Engine} (t : Trail g n e f)
    → IsKnown g e.phases e.launches
    → IsKnown g f.phases f.launches
Trail-IsKnown g (stops e) known = known
Trail-IsKnown g {e} (advances id p q at less later t) known =
    Trail-IsKnown g t (advance-IsKnown g id p q e at known)
Trail-IsKnown g {e} (begins id inputs input at t) known =
    Trail-IsKnown g t (advance-IsKnown g id (gathering inputs) (busy input) e at known)
Trail-IsKnown g (finishes id output t) known = Trail-IsKnown g t known
Trail-IsKnown g (recovers id output t) known = Trail-IsKnown g t known
Trail-IsKnown g (fails id t) known = Trail-IsKnown g t known
Trail-IsKnown g (skips id t) known = Trail-IsKnown g t known
Trail-IsKnown g {e} (launches_node id node inputs new here ready t) known =
    Trail-IsKnown g t (launch-IsKnown g id node (gathering inputs) e here known)
Trail-IsKnown g {e} (launches_nothing id new t) known =
    Trail-IsKnown g t (widen-IsKnown g id e known)

-- The prepared state has no calls and has begun nothing.
pub prepare-IsKnown :
    (g : Graph) (ls : List NodeLog) → IsKnown g (prepare g ls).phases (prepare g ls).launches
prepare-IsKnown g ls =
    prepare-keeps g (λ e. IsKnown g e.phases e.launches) (λ id e h. h)
      (λ l e known. widen-IsKnown g l.node_id e known) ls (λ id p at. cc)
