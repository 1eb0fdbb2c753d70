-- ===== src/Mindmap/WellFormed.antt =====
-- `validate` of crates/surreal-memory/src/mindmap.rs accepts exactly the well-formed maps.
use surreal_memory_server.Common.{
  ℕ, suc, String, true, false, not, Option, none, some, List, [], ◌∷◌, All, keep, length, eqb, ◌==◌,
  eq_iff, if◌then◌else◌, ok, ◌≡◌, ◌≢◌, refl, sym, ap, ◌⊎◌, inl, inr, ◌↔◌, Bool-cases, arith,
}
use surreal_memory_server.Mindmap.{
  MapType, radial, concept, argument, tree, temporal, MindMapNode, MindMapEdge, MindMap, MapError,
  contains, ids, duplicate, parent_known, bad_parent, bad_edge, is_root, bad_roots, or_else,
  to_result, validate, duplicate_id, unknown_parent, unknown_from, unknown_to, roots_found, is_none,
  or_root,
}

-- A node has the id.
abbrev pub HasNode : String → List MindMapNode → Type 0
HasNode id [] = ⊥
HasNode id (n ∷ rest) = (n.id ≡ id) ⊎ HasNode id rest

-- No two nodes have the same id.
abbrev pub HasDistinctIds : List MindMapNode → Type 0
HasDistinctIds [] = Unit
HasDistinctIds (n ∷ rest) = ¬ HasNode n.id rest × HasDistinctIds rest

abbrev pub HasParent : List MindMapNode → Option String → Type 0
HasParent nodes none = Unit
HasParent nodes (some p) = HasNode p nodes

-- Exactly one node has no parent.
abbrev pub HasOneRoot : List MindMapNode → Type 0
HasOneRoot [] = ⊥
HasOneRoot (n ∷ rest) =
    ((n.parent_id ≡ none) × All (λ r. r.parent_id ≢ none) rest)
    ⊎ ((n.parent_id ≢ none) × HasOneRoot rest)

abbrev pub HasRoots : MapType → List MindMapNode → Type 0
HasRoots radial nodes = HasOneRoot nodes
HasRoots tree nodes = HasOneRoot nodes
HasRoots _ nodes = Unit

abbrev pub IsWellFormed : MindMap → Type 0
IsWellFormed m =
    HasDistinctIds m.nodes
    × All (λ n. HasParent m.nodes n.parent_id) m.nodes
    × All (λ e. HasNode e.from_id m.nodes × HasNode e.to_id m.nodes) m.edges
    × HasRoots m.map_type m.nodes

contains_iff :
    (id : String) (nodes : List MindMapNode) → (contains (ids nodes) id ≡ true) ↔ HasNode id nodes
contains_iff id [] = (λ h. cc (h), λ h. absurd h)
contains_iff id (n ∷ rest) = elim (Bool-cases (n.id == id)) [
  | inl here ↦ (λ h. inl ((eq_iff n.id id).0 here), λ h. rw here refl)
  | inr other ↦ (
    λ h. inr ((contains_iff id rest).0 (rw other at h)),
    λ h. elim h [
      | inl same ↦ rw ((eq_iff n.id id).1 same) refl
      | inr later ↦ rw other ((contains_iff id rest).1 later)
    ],
  )
]

-- The ids of the nodes are new to `seen`, and distinct.
abbrev New : List String → List MindMapNode → Type 0
New seen nodes = All (λ n. contains seen n.id ≡ false) nodes × HasDistinctIds nodes

apart :
    (id : String) (seen : List String) (nodes : List MindMapNode)
    → All (λ n. contains (id ∷ seen) n.id ≡ false) nodes
    → All (λ n. contains seen n.id ≡ false) nodes × ¬ HasNode id nodes
apart id seen [] all = (tt, λ h. h)
apart id seen (n ∷ rest) (first, all) =
    let (seen_rest, no_node) = apart id seen rest all in
    (
      (ground arith, seen_rest),
      λ h. elim h [
        | inl same ↦ let hit : (id == n.id) ≡ true = (eq_iff id n.id).1 (sym same) in ground arith
        | inr later ↦ no_node later
      ],
    )

together :
    (id : String) (seen : List String) (nodes : List MindMapNode)
    → All (λ n. contains seen n.id ≡ false) nodes
    → ¬ HasNode id nodes
    → All (λ n. contains (id ∷ seen) n.id ≡ false) nodes
together id seen [] all no_node = tt
together id seen (n ∷ rest) (first, all) no_node = elim (Bool-cases (id == n.id)) [
  | inl same ↦ absurd (no_node (inl (sym ((eq_iff id n.id).0 same))))
  | inr other ↦ (rw other first, together id seen rest all (λ h. no_node (inr h)))
]

duplicate_iff :
    (seen : List String) (nodes : List MindMapNode) → (duplicate seen nodes ≡ none) ↔ New seen nodes
unfolding duplicate
duplicate_iff seen [] = (λ h. (tt, tt), λ h. refl)
duplicate_iff seen (n ∷ rest) = elim (Bool-cases (contains seen n.id)) [
  | inl again ↦ (
    λ h. let clash : some (duplicate_id n.id) ≡ none = rw again at h in absurd (cc (clash)),
    λ h. absurd (cc (again, h.0.0)),
  )
  | inr new_id ↦ (
    λ h.
        let (all, distinct) = (duplicate_iff (n.id ∷ seen) rest).0 (rw new_id at h) in
        let (others, no_node) = apart n.id seen rest all in ((new_id, others), (no_node, distinct)),
    λ h.
        rw new_id
          ((duplicate_iff (n.id ∷ seen) rest).1 (together n.id seen rest h.0.1 h.1.0, h.1.1)),
  )
]

parent_known_iff :
    (nodes : List MindMapNode) (parent : Option String)
    → (parent_known (ids nodes) parent ≡ true) ↔ HasParent nodes parent
unfolding parent_known
parent_known_iff nodes none = (λ h. tt, λ h. refl)
parent_known_iff nodes (some p) = contains_iff p nodes

bad_parent_iff :
    (nodes rows : List MindMapNode)
    → (bad_parent (ids nodes) rows ≡ none) ↔ All (λ n. HasParent nodes n.parent_id) rows
unfolding bad_parent
bad_parent_iff nodes [] = (λ h. tt, λ h. refl)
bad_parent_iff nodes (n ∷ rest) = elim (Bool-cases (parent_known (ids nodes) n.parent_id)) [
  | inl known ↦ (
    λ h. (
      (parent_known_iff nodes n.parent_id).0 known,
      (bad_parent_iff nodes rest).0 (rw known at h),
    ),
    λ h. rw known ((bad_parent_iff nodes rest).1 h.1),
  )
  | inr unknown ↦ (
    λ h.
        let clash : some (unknown_parent n.id (or_root n.parent_id)) ≡ none = rw unknown at h in
        absurd (cc (clash)),
    λ h. absurd (cc (unknown, (parent_known_iff nodes n.parent_id).1 h.0)),
  )
]

bad_edge_iff :
    (nodes : List MindMapNode) (edges : List MindMapEdge)
    → (bad_edge (ids nodes) edges ≡ none)
      ↔ All (λ e. HasNode e.from_id nodes × HasNode e.to_id nodes) edges
unfolding bad_edge
bad_edge_iff nodes [] = (λ h. tt, λ h. refl)
bad_edge_iff nodes (e ∷ rest) = elim (Bool-cases (contains (ids nodes) e.from_id)) [
  | inr no_from ↦ (
    λ h. let clash : some (unknown_from e.from_id) ≡ none = rw no_from at h in absurd (cc (clash)),
    λ h. absurd (cc (no_from, (contains_iff e.from_id nodes).1 h.0.0)),
  )
  | inl from_there ↦ elim (Bool-cases (contains (ids nodes) e.to_id)) [
    | inr no_to ↦ (
      λ h.
          let clash : some (unknown_to e.to_id) ≡ none = rw (from_there, no_to) at h in
          absurd (cc (clash)),
      λ h. absurd (cc (no_to, (contains_iff e.to_id nodes).1 h.0.1)),
    )
    | inl to_there ↦ (
      λ h. (
        ((contains_iff e.from_id nodes).0 from_there, (contains_iff e.to_id nodes).0 to_there),
        (bad_edge_iff nodes rest).0 (rw (from_there, to_there) at h),
      ),
      λ h. rw (from_there, to_there) ((bad_edge_iff nodes rest).1 h.1),
    )
  ]
]

roots : List MindMapNode → ℕ
roots nodes = length (keep (λ n. is_root n) nodes)

is_none_iff : (p : Option String) → (is_none p ≡ true) ↔ (p ≡ none)
is_none_iff none = (λ h. refl, λ h. refl)
is_none_iff (some p) = (λ h. absurd (cc (h)), λ h. absurd (cc (h)))

no_root_iff : (nodes : List MindMapNode) → (roots nodes ≡ 0) ↔ All (λ r. r.parent_id ≢ none) nodes
unfolding roots
no_root_iff [] = (λ h. tt, λ h. refl)
no_root_iff (n ∷ rest) = elim (Bool-cases (is_root n)) [
  | inl top ↦ (
    λ h. let clash : suc (roots rest) ≡ 0 = rw top at h in absurd (omega arith),
    λ h. absurd (h.0 ((is_none_iff n.parent_id).0 top)),
  )
  | inr below ↦ (
    λ h. (
      λ e. absurd (cc (below, (is_none_iff n.parent_id).1 e)),
      (no_root_iff rest).0 (rw below at h),
    ),
    λ h. rw below ((no_root_iff rest).1 h.1),
  )
]

one_root_iff : (nodes : List MindMapNode) → (roots nodes ≡ 1) ↔ HasOneRoot nodes
unfolding roots
one_root_iff [] = (λ h. absurd (omega arith), λ h. absurd h)
one_root_iff (n ∷ rest) = elim (Bool-cases (is_root n)) [
  | inl top ↦ (
    λ h.
        let one : suc (roots rest) ≡ 1 = rw top at h in
        inl ((is_none_iff n.parent_id).0 top, (no_root_iff rest).0 (omega arith)),
    λ h. elim h [
      | inl first ↦ rw top (ap suc ((no_root_iff rest).1 first.1))
      | inr later ↦ absurd (later.0 ((is_none_iff n.parent_id).0 top))
    ],
  )
  | inr below ↦ (
    λ h. inr (
      λ e. absurd (cc (below, (is_none_iff n.parent_id).1 e)),
      (one_root_iff rest).0 (rw below at h),
    ),
    λ h. elim h [
      | inl first ↦ absurd (cc (below, (is_none_iff n.parent_id).1 first.0))
      | inr later ↦ rw below ((one_root_iff rest).1 later.1)
    ],
  )
]

checked_iff : (k : ℕ) → ((if not (eqb k 1) then some (roots_found k) else none) ≡ none) ↔ (k ≡ 1)
checked_iff k = (λ h. ground arith, λ h. ground arith)

bad_roots_iff :
    (t : MapType) (nodes : List MindMapNode) → (bad_roots t nodes ≡ none) ↔ HasRoots t nodes
unfolding bad_roots roots
bad_roots_iff radial nodes = (
  λ h. (one_root_iff nodes).0 ((checked_iff (roots nodes)).0 h),
  λ h. (checked_iff (roots nodes)).1 ((one_root_iff nodes).1 h),
)
bad_roots_iff tree nodes = (
  λ h. (one_root_iff nodes).0 ((checked_iff (roots nodes)).0 h),
  λ h. (checked_iff (roots nodes)).1 ((one_root_iff nodes).1 h),
)
bad_roots_iff concept nodes = (λ h. tt, λ h. refl)
bad_roots_iff argument nodes = (λ h. tt, λ h. refl)
bad_roots_iff temporal nodes = (λ h. tt, λ h. refl)

or_else_iff : (a b : Option MapError) → (or_else a b ≡ none) ↔ ((a ≡ none) × (b ≡ none))
or_else_iff none b = (λ h. (refl, h), λ h. h.1)
or_else_iff (some e) b = (λ h. absurd (cc (h)), λ h. absurd (cc (h.0)))

to_result_iff : (a : Option MapError) → (to_result a ≡ ok tt) ↔ (a ≡ none)
to_result_iff none = (λ h. refl, λ h. refl)
to_result_iff (some e) = (λ h. absurd (cc (h)), λ h. absurd (cc (h)))

-- A map is accepted exactly if its nodes have distinct ids, every parent is a node, both ends of
-- every edge are nodes, and a radial map or a tree has exactly one node without a parent.
pub validate_iff : (m : MindMap) → (validate m ≡ ok tt) ↔ IsWellFormed m
unfolding validate
validate_iff m = (
  λ h.
      let seen = ids m.nodes in
      let (d, rest) = (or_else_iff (duplicate [] m.nodes) _).0 ((to_result_iff _).0 h) in
      let (p, rest') = (or_else_iff (bad_parent seen m.nodes) _).0 rest in
      let (e, r) = (or_else_iff (bad_edge seen m.edges) _).0 rest' in
      (
        ((duplicate_iff [] m.nodes).0 d).1,
        (bad_parent_iff m.nodes m.nodes).0 p,
        (bad_edge_iff m.nodes m.edges).0 e,
        (bad_roots_iff m.map_type m.nodes).0 r,
      ),
  λ h. (to_result_iff _).1 (
      (or_else_iff _ _).1 (
        (duplicate_iff [] m.nodes).1 (none_seen m.nodes, h.0),
        (or_else_iff _ _).1 (
          (bad_parent_iff m.nodes m.nodes).1 h.1,
          (or_else_iff _ _).1
              ((bad_edge_iff m.nodes m.edges).1 h.2, (bad_roots_iff m.map_type m.nodes).1 h.3),
        ),
      )),
)
  where
    none_seen : (nodes : List MindMapNode) → All (λ n. contains [] n.id ≡ false) nodes
    none_seen [] = tt
    none_seen (n ∷ rest) = (refl, none_seen rest)
