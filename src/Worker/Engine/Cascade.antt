-- ===== src/Worker/Engine/Cascade.antt =====
-- packages/worker/src/engine/dag.ts: the fuel of `cascadeSkip` on any graph, cycles included.
use hdv_orchestrator.Common.{
  ℕ, zero, suc, ◌<◌, ◌≤◌, String, true, some, List, [], ◌∷◌, length, ◌==◌, if◌then◌else◌, ◌≡◌, refl,
  ◌∙◌, ap, arith, Bool-cases, inl, inr, string_eq,
}
use hdv_orchestrator.JsMap.{Entries, lookup, insert}
use hdv_orchestrator.Worker.Graph.{Graph, children_of}
use hdv_orchestrator.Worker.Engine.{
  Engine, NodeStatus, skipped, passed_over, is_pending, set_status, note, apply_each, cascade_skip,
  cascade,
}

unfoldable pending_count : Entries String NodeStatus → ℕ
pending_count [] = 0
pending_count ((id, s) ∷ m) =
    let rest = pending_count m in if is_pending (some s) then suc rest else rest

pending_count_le : (m : Entries String NodeStatus) → pending_count m ≤ length m
unfolding pending_count
pending_count_le [] = omega arith
pending_count_le ((id, s) ∷ m) = ground (arith, pending_count_le m)

pending_count-skip :
    (id : String) (m : Entries String NodeStatus)
    → is_pending (lookup id m) ≡ true
    → pending_count (insert id skipped m) < pending_count m
unfolding pending_count
pending_count-skip id [] h = cc
pending_count-skip id ((j, s) ∷ m) h = elim (Bool-cases (j == id)) [
  | inl same ↦ let now : is_pending (some s) ≡ true = ground arith in rw (same, now) (omega arith)
  | inr other ↦ let later = pending_count-skip id m (ground arith) in ground arith
]

abbrev open_count : Engine → ℕ
open_count e = pending_count e.status

-- Two functions that agree below a bound and never add a pending node agree on a list of calls.
apply_each-agree :
    (bound : ℕ) (h k : String → Engine → Engine)
    → ((c : String) (e : Engine)
        → open_count e < bound
        → (h c e ≡ k c e) × (open_count (h c e) ≤ open_count e))
    → (cs : List String) (e : Engine) → open_count e < bound
    → (apply_each h cs e ≡ apply_each k cs e) × (open_count (apply_each h cs e) ≤ open_count e)
apply_each-agree bound h k same [] e low = (refl, omega arith)
apply_each-agree bound h k same (c ∷ cs) e low =
    let one = same c e low in
    let rest = apply_each-agree bound h k same cs (h c e) (omega arith) in
    (rest.0 ∙ ap (apply_each k cs) one.0, omega arith)

cascade_skip-agree :
    (g : Graph) (f f' : ℕ) (id : String) (e : Engine)
    → open_count e < f
    → open_count e < f'
    → (cascade_skip g f id e ≡ cascade_skip g f' id e)
      × (open_count (cascade_skip g f id e) ≤ open_count e)
unfolding cascade_skip
cascade_skip-agree g zero f' id e low low' = absurd (omega arith)
cascade_skip-agree g (suc f) zero id e low low' = absurd (omega arith)
cascade_skip-agree g (suc f) (suc f') id e low low' =
    elim (Bool-cases (is_pending (lookup id e.status))) [
      | inl here ↦
          let fewer = pending_count-skip id e.status here in
          let bound = pending_count e.status in
          let rest =
            apply_each-agree bound (cascade_skip g f) (cascade_skip g f')
              (λ c x lower. cascade_skip-agree g f f' c x (omega arith) (omega arith))
              (children_of g id) (note (passed_over id) (set_status id skipped e)) fewer in
          rw here (rest.0, omega (arith, rest.1))
      | inr gone ↦ rw gone (refl, omega arith)
    ]

-- On every graph, cycles included: any fuel above the number of nodes with a status gives the result
-- of `cascade`, so the recursion that skips a branch ends and its fuel never cuts it short.
pub cascade_skip_fuel :
    (g : Graph) (f : ℕ) (id : String) (e : Engine)
    → length e.status < f
    → cascade_skip g f id e ≡ cascade g id e
unfolding cascade
cascade_skip_fuel g f id e h =
    let few = pending_count_le e.status in
    (cascade_skip-agree g f (suc (length e.status)) id e (omega arith) (omega arith)).0
