-- ===== src/Mindmap.antt =====
-- Mind maps: crates/surreal-memory/src/mindmap.rs. The metadata of a node is its JSON text.
pub mod Depth
mod WellFormed
mod Examples
use surreal_memory_server.Common.{
  ℕ, zero, suc, String, Bool, true, false, ◌&&◌, not, Option, none, some, List, [], ◌∷◌, ◌+◌, any,
  keep, length, map, eqb, ◌==◌, if◌then◌else◌, Result, ok, err,
}

pub data MapType : Type 0 where
  radial concept argument tree temporal : MapType

unfoldable pub as_str : MapType → String
as_str radial = "radial"
as_str concept = "concept"
as_str argument = "argument"
as_str tree = "tree"
as_str temporal = "temporal"

-- The error is the text that is no type.
unfoldable pub parse_str : String → Result MapType String
parse_str raw =
    if raw == "radial"
    then ok radial
    else if raw == "concept"
    then ok concept
    else if raw == "argument"
    then ok argument
    else if raw == "tree"
    then ok tree
    else if raw == "temporal"
    then ok temporal
    else err raw

pub record MindMapNode : Type 0 where
  pub id : String
  pub label : String
  pub parent_id : Option String
  pub node_type : Option String
  pub color : Option String
  pub metadata : Option String

pub record MindMapEdge : Type 0 where
  pub from_id : String
  pub to_id : String
  pub label : Option String
  pub directed : Bool

pub record MindMap : Type 0 where
  pub id : Option String
  pub name : String
  pub description : Option String
  pub map_type : MapType
  pub agent_id : Option String
  pub user_id : Option String
  pub task_stream_id : Option String
  pub tags : List String
  pub nodes : List MindMapNode
  pub edges : List MindMapEdge
  pub created_at : ℕ
  pub updated_at : ℕ

-- A map with a root node.
unfoldable pub new :
    String → MapType → String → Option String → Option String → Option String → ℕ → MindMap
new name map_type root_label description agent_id user_id now = record {
  id = none;
  name = name;
  description = description;
  map_type = map_type;
  agent_id = agent_id;
  user_id = user_id;
  task_stream_id = none;
  tags = [];
  nodes =
      record {
        id = "root";
        label = root_label;
        parent_id = none;
        node_type = none;
        color = some "#4a90e2";
        metadata = none;
      }
      ∷ [];
  edges = [];
  created_at = now;
  updated_at = now;
}

pub data MapError : Type 0 where
  duplicate_id : String → MapError
  unknown_parent : String → String → MapError
  unknown_from : String → MapError
  unknown_to : String → MapError
  roots_found : ℕ → MapError

abbrev pub contains : List String → String → Bool
contains seen id = any (λ s. s == id) seen

abbrev pub ids : List MindMapNode → List String
ids nodes = map (λ n. n.id) nodes

unfoldable pub duplicate : List String → List MindMapNode → Option MapError
duplicate seen [] = none
duplicate seen (n ∷ rest) =
    if contains seen n.id then some (duplicate_id n.id) else duplicate (n.id ∷ seen) rest

unfoldable pub parent_known : List String → Option String → Bool
parent_known seen none = true
parent_known seen (some p) = contains seen p

abbrev pub or_root : Option String → String
or_root none = ""
or_root (some p) = p

unfoldable pub bad_parent : List String → List MindMapNode → Option MapError
unfolding parent_known
bad_parent seen [] = none
bad_parent seen (n ∷ rest) =
    if parent_known seen n.parent_id
    then bad_parent seen rest
    else some (unknown_parent n.id (or_root n.parent_id))

unfoldable pub bad_edge : List String → List MindMapEdge → Option MapError
bad_edge seen [] = none
bad_edge seen (e ∷ rest) =
    if not (contains seen e.from_id)
    then some (unknown_from e.from_id)
    else if not (contains seen e.to_id)
    then some (unknown_to e.to_id)
    else bad_edge seen rest

abbrev pub is_none : Option String → Bool
is_none none = true
is_none (some p) = false

abbrev pub is_root : MindMapNode → Bool
is_root n = is_none n.parent_id

unfoldable pub needs_root : MapType → Bool
needs_root radial = true
needs_root tree = true
needs_root _ = false

unfoldable pub bad_roots : MapType → List MindMapNode → Option MapError
unfolding needs_root
bad_roots t nodes =
    let roots = length (keep (λ n. is_root n) nodes) in
    if needs_root t && not (eqb roots 1) then some (roots_found roots) else none

-- The first of two checks that fails.
abbrev pub or_else : Option MapError → Option MapError → Option MapError
or_else (some e) next = some e
or_else none next = next

abbrev pub to_result : Option MapError → Result (Unit {0}) MapError
to_result none = ok tt
to_result (some e) = err e

unfoldable pub validate : MindMap → Result (Unit {0}) MapError
unfolding duplicate bad_parent bad_edge bad_roots
validate m =
    let seen = ids m.nodes in
    to_result (
      or_else (duplicate [] m.nodes) (
        or_else (bad_parent seen m.nodes)
          (or_else (bad_edge seen m.edges) (bad_roots m.map_type m.nodes))))

unfoldable pub find_node : String → List MindMapNode → Option MindMapNode
find_node id [] = none
find_node id (n ∷ rest) = if n.id == id then some n else find_node id rest

-- The hops that are left before the cap, and the node that is current.
unfoldable pub depth_from : ℕ → String → List MindMapNode → ℕ
unfolding find_node
depth_from zero current nodes = 0
depth_from (suc left) current nodes = elim (find_node current nodes) [
  | none ↦ 0
  | some n ↦ elim n.parent_id [ none ↦ 0 | some parent ↦ suc (depth_from left parent nodes) ]
]

unfoldable pub depth_of : MindMap → String → ℕ
unfolding depth_from
depth_of m id = depth_from (length m.nodes) id m.nodes
