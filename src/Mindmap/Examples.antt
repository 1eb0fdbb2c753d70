-- ===== src/Mindmap/Examples.antt =====
-- Runs on mind maps, and the theorem on their validation at a tree.
use surreal_memory_server.Common.{
  String, true, Option, none, some, [], ◌∷◌, ok, err, ◌≡◌, refl, ◌↔◌,
}
use surreal_memory_server.Mindmap.{
  tree, MindMapNode, MindMap, unknown_parent, roots_found, new, validate, depth_of,
}
use surreal_memory_server.Mindmap.WellFormed.{IsWellFormed, validate_iff}

abbrev node : String → Option String → MindMapNode
node id parent = record {
  id = id;
  label = id;
  parent_id = parent;
  node_type = none;
  color = none;
  metadata = none;
}

abbrev plan : MindMap
plan = record (new "plan" tree "root" none none none 0) {
  nodes = node "root" none ∷ node "a" (some "root") ∷ node "b" (some "a") ∷ [];
  edges = record { from_id = "a"; to_id = "b"; label = none; directed = true } ∷ [];
}

plan_valid : validate plan ≡ ok tt
unfolding validate new
plan_valid = refl

orphan :
    validate (record plan { nodes = node "root" none ∷ node "a" (some "c") ∷ [] })
    ≡ err (unknown_parent "a" "c")
unfolding validate new
orphan = refl

two_roots :
    validate (record plan { nodes = node "a" none ∷ node "b" none ∷ [] }) ≡ err (roots_found 2)
unfolding validate new
two_roots = refl

depth_run : depth_of plan "b" ≡ 2
unfolding depth_of new
depth_run = refl

validate_iff_example : (validate plan ≡ ok tt) ↔ IsWellFormed plan
validate_iff_example = validate_iff plan
