-- ===== src/Worker/Graph.antt =====
-- packages/worker/src/engine/dag.ts: the nodes and edges of a workflow and what is read off them. The
-- tables `children` and `parents` are the functions that look them up: a list for every id of a node,
-- in the order of the edges, and nothing for any other id.
use hdv_orchestrator.Common.{
  String, Bool, false, ◌&&◌, ◌||◌, Option, none, some, List, map, filter_by, find_by, some_by, ◌==◌,
  string_eq, if◌then◌else◌, or_else,
}
use hdv_orchestrator.Json.{Json, prop, truthy, to_text, string}

pub record RawNode : Type 0 where
  pub id : String
  pub kind : Json
  pub content : Json

pub record RawEdge : Type 0 where
  pub source : String
  pub target : String
  pub source_handle : Option String
  pub label : Option String

pub record Graph : Type 0 where
  pub nodes : List RawNode
  pub edges : List RawEdge

-- `String(node.data?.nodeType || node.type || "unknown")`
unfoldable pub node_type : RawNode → String
unfolding to_text
node_type node =
    let given = prop "nodeType" node.content in
    to_text
      (if truthy given then given else if truthy node.kind then node.kind else string "unknown")

-- An option of text is a certain text.
abbrev pub is_just : String → Option String → Bool
is_just s none = false
is_just s (some t) = t == s

abbrev pub is_error_edge : RawEdge → Bool
is_error_edge e = is_just "error" e.source_handle || is_just "error" e.label

-- `edge?.sourceHandle ?? edge?.label ?? "true"`
unfoldable pub handle_of : Option RawEdge → String
handle_of none = "true"
handle_of (some e) = or_else e.source_handle (or_else e.label "true")

module _ (g : Graph) where
  unfoldable pub find_node : String → Option RawNode
  find_node id = find_by (λ n. n.id == id) g.nodes

  unfoldable pub is_node : String → Bool
  is_node id = some_by (λ n. n.id == id) g.nodes

  unfoldable pub children_of : String → List String
  children_of id = map (λ e. e.target) (filter_by (λ e. e.source == id) g.edges)

  unfoldable pub parents_of : String → List String
  parents_of id = map (λ e. e.source) (filter_by (λ e. e.target == id) g.edges)

  -- The first edge between two nodes, which stands for all of them.
  unfoldable pub edge_between : String → String → Option RawEdge
  edge_between source target = find_by (λ e. e.source == source && e.target == target) g.edges

  unfoldable pub has_error_edge : String → Bool
  has_error_edge id = some_by (λ e. e.source == id && is_error_edge e) g.edges

  -- The targets of the error edges of a node.
  unfoldable pub error_children : String → List String
  error_children id =
      map (λ e. e.target) (filter_by (λ e. e.source == id && is_error_edge e) g.edges)
