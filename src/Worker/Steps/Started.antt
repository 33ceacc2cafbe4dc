-- ===== src/Worker/Steps/Started.antt =====
-- packages/worker/src/engine/dag.ts: the state that an execution starts from, with what a checkpoint
-- restores, and its first launches.
use hdv_orchestrator.Common.{
  String, true, List, [], ◌∷◌, map, filter_by, every_by, ◌≡◌, refl, Bool-cases, Option-cases, inl,
  inr, string_eq,
}
use hdv_orchestrator.JsMap.{lookup, insert}
use hdv_orchestrator.Worker.Graph.{Graph, RawNode, parents_of}
use hdv_orchestrator.Worker.Engine.{
  Engine, pending, done, restored, set_status, note, is_settled, is_ready,
}
use hdv_orchestrator.Worker.Steps.{
  NodeLog, is_spilled, pending_all, restore_one, restore, blank, is_empty, roots, prepare,
}
use hdv_orchestrator.Worker.Steps.Trail.{AreReady}

pub restore-keeps {ℓ} :
    (P : Engine → Type ℓ)
    → ((l : NodeLog) (e : Engine)
        → P e
        → P (
            note (restored l.node_id) (record e {
              outputs = insert l.node_id l.output e.outputs;
              status = insert l.node_id done e.status;
              launches = l.node_id ∷ e.launches;
            })))
    → (ls : List NodeLog) (e : Engine) → P e
    → P (restore ls e)
unfolding restore restore_one
restore-keeps P keep [] e h = h
restore-keeps P keep (l ∷ ls) e h = elim (Bool-cases (is_spilled l.output)) [
  | inl spilled ↦ rw spilled (restore-keeps P keep ls e h)
  | inr whole ↦ rw whole (elim (Option-cases (lookup l.node_id e.status)) [
    | inl missing ↦ rw missing (restore-keeps P keep ls e h)
    | inr (s, here) ↦ rw here (restore-keeps P keep ls _ (keep l e h))
  ])
]

pub prepare-keeps {ℓ} :
    (g : Graph) (P : Engine → Type ℓ)
    → ((id : String) (e : Engine) → P e → P (set_status id pending e))
    → ((l : NodeLog) (e : Engine)
        → P e
        → P (
            note (restored l.node_id) (record e {
              outputs = insert l.node_id l.output e.outputs;
              status = insert l.node_id done e.status;
              launches = l.node_id ∷ e.launches;
            })))
    → (ls : List NodeLog) → P blank
    → P (prepare g ls)
unfolding prepare pending_all
prepare-keeps g P wait keep ls h =
    restore-keeps P keep ls (pending_all g.nodes blank) (go g.nodes blank h)
  where
    go : (ns : List RawNode) (e : Engine) → P e → P (pending_all ns e)
    go [] e h = h
    go (n ∷ ns) e h = go ns (set_status n.id pending e) (wait n.id e h)

root-is_ready :
    (g : Graph) (id : String) (e : Engine)
    → is_empty g (parents_of g id) ≡ true
    → is_ready g id e ≡ true
unfolding is_ready
root-is_ready g id e h = go (parents_of g id) h
  where
    go :
        (ps : List String)
        → is_empty g ps ≡ true
        → every_by (λ p. is_settled (lookup p e.status)) ps ≡ true
    go [] h = refl
    go (p ∷ ps) h = cc

pub roots-AreReady : (g : Graph) (e : Engine) → AreReady g e (roots g)
unfolding roots
roots-AreReady g e = go g.nodes
  where
    go :
        (ns : List RawNode)
        → AreReady g e (map (λ n. n.id) (filter_by (λ n. is_empty g (parents_of g n.id)) ns))
    go [] = tt
    go (n ∷ ns) = elim (Bool-cases (is_empty g (parents_of g n.id))) [
      | inl root ↦ rw root (root-is_ready g n.id e root, go ns)
      | inr below ↦ rw below (go ns)
    ]
