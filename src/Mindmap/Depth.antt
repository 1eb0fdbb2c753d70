-- ===== src/Mindmap/Depth.antt =====
-- The depth that is computed is the length of the chain of parents.
use surreal_memory_server.Common.{
  ℕ, zero, suc, String, none, some, List, length, ◌≡◌, refl, ap, ◌≤◌, arith,
}
use surreal_memory_server.Mindmap.{MindMapNode, MindMap, find_node, depth_from, depth_of}

-- A chain of so many hops from a node to one without a parent.
pub data Chain (nodes : List MindMapNode) : String → ℕ → Type 0 where
  root :
      {id : String} {n : MindMapNode}
      → find_node id nodes ≡ some n
      → n.parent_id ≡ none
      → Chain nodes id 0
  hop :
      {id parent : String} {n : MindMapNode} {k : ℕ}
      → find_node id nodes ≡ some n
      → n.parent_id ≡ some parent
      → Chain nodes parent k
      → Chain nodes id (suc k)

depth_from-Chain :
    (nodes : List MindMapNode) (left k : ℕ) (id : String)
    → Chain nodes id k
    → k ≤ left
    → depth_from left id nodes ≡ k
unfolding depth_from
depth_from-Chain nodes zero k id (root at top) h = refl
depth_from-Chain nodes zero k id (hop at up c) h = absurd (omega arith)
depth_from-Chain nodes (suc left) k id (root at top) h = rw (at, depth_from, top) refl
depth_from-Chain nodes (suc left) k id (hop at up c) h =
    rw (at, depth_from, up) (ap suc (depth_from-Chain nodes left _ _ c (omega arith)))

-- The depth of a node from which a chain of parents leads to a node without one, in at most as many
-- hops as there are nodes, is the length of that chain.
pub depth_of-Chain :
    (m : MindMap) (id : String) (k : ℕ)
    → Chain m.nodes id k
    → k ≤ length m.nodes
    → depth_of m id ≡ k
unfolding depth_of
depth_of-Chain m id k c h = depth_from-Chain m.nodes (length m.nodes) k id c h
