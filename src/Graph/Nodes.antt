-- ===== src/Graph/Nodes.antt =====
-- The nodes of the dependency graph of src/scheduler/dependencies.rs by their ids.
use reactor_rs.Common.{◌≡◌, ◌∙◌, refl, true, none, some, List, [], ◌∷◌, if◌then◌else◌, arith}
use reactor_rs.Ids.{TriggerId, Range, GlobalReactionId, id_eq}
use reactor_rs.Common.Ord.{nat_ord}
use reactor_rs.VecMap.{get}
use reactor_rs.Graph.Levels.{has_target}
use reactor_rs.Graph.{
  DiGraph, DepGraph, GraphIx, GraphId, GraphNode, NodeKind, EdgeWeight, trigger, reaction,
  graph_id_eq, map_get, map_insert, record_node, connect,
}

graph_id_eq_same : (a b c : GraphId) → graph_id_eq a b ≡ true → graph_id_eq a c ≡ graph_id_eq b c
unfolding graph_id_eq id_eq
graph_id_eq_same (trigger a) (trigger b) (trigger c) h = ground arith
graph_id_eq_same (trigger a) (trigger b) (reaction c) h = refl
graph_id_eq_same (trigger a) (reaction b) c h = absurd (ground (arith, h))
graph_id_eq_same (reaction a) (reaction b) (reaction c) h = ground arith
graph_id_eq_same (reaction a) (reaction b) (trigger c) h = refl
graph_id_eq_same (reaction a) (trigger b) c h = absurd (ground (arith, h))

graph_id_eq_sym : (a b : GraphId) → graph_id_eq a b ≡ graph_id_eq b a
unfolding graph_id_eq id_eq
graph_id_eq_sym (trigger a) (trigger b) = ground arith
graph_id_eq_sym (trigger a) (reaction b) = refl
graph_id_eq_sym (reaction a) (trigger b) = refl
graph_id_eq_sym (reaction a) (reaction b) = ground arith

pub map_get-map_insert :
    {V : Type 0} (m : List (GraphId × V)) (id : GraphId) (v : V) (other : GraphId)
    → map_get (map_insert m id v) other ≡ (if graph_id_eq id other then some v else map_get m other)
unfolding map_get map_insert
map_get-map_insert [] id v other = refl
map_get-map_insert ((j, w) ∷ m) id v other = ground (
  arith,
  map_get-map_insert m id v other,
  graph_id_eq_same j id other,
  graph_id_eq_same id other j,
  graph_id_eq_sym id j,
  graph_id_eq_sym other j,
)

map_get_same :
    {V : Type 0} (m : List (GraphId × V)) (a b : GraphId)
    → graph_id_eq a b ≡ true
    → map_get m a ≡ map_get m b
unfolding map_get
map_get_same [] a b h = refl
map_get_same ((j, w) ∷ m) a b h = ground (
  arith,
  map_get_same m a b h,
  graph_id_eq_same a b j h,
  graph_id_eq_sym a j,
  graph_id_eq_sym b j,
)

-- A key that is not there hides no other.
pub map_get-map_insert_known :
    {V : Type 0} (m : List (GraphId × V)) (id : GraphId) (v w : V) (other : GraphId)
    → map_get m id ≡ none
    → map_get m other ≡ some w
    → map_get (map_insert m id v) other ≡ some w
map_get-map_insert_known m id v w other h k =
    map_get-map_insert m id v other ∙ ground (arith, h, k, map_get_same m id other)

-- What petgraph documents of nodes and edges: an edge is there once it is added, and no addition
-- removes an edge or changes the weight of a node.
pub record KeepsEdges (P : DiGraph) : Type 0 where
  pub edge_added :
      (g : P.Graph) (a b : GraphIx) (w : EdgeWeight)
      → has_target (P.outgoing (P.add_edge g a b w) a) b ≡ true
  pub edge_keeps :
      (g : P.Graph) (a b : GraphIx) (w : EdgeWeight) (i j : GraphIx)
      → has_target (P.outgoing g i) j ≡ true
      → has_target (P.outgoing (P.add_edge g a b w) i) j ≡ true
  pub node_keeps :
      (g : P.Graph) (n : GraphNode) (i j : GraphIx)
      → has_target (P.outgoing g i) j ≡ true
      → has_target (P.outgoing (P.add_node g n).0 i) j ≡ true
  pub edge_weighs :
      (g : P.Graph) (a b : GraphIx) (w : EdgeWeight) (i : GraphIx) (n : GraphNode)
      → P.node_weight g i ≡ some n
      → P.node_weight (P.add_edge g a b w) i ≡ some n
  pub node_weighs :
      (g : P.Graph) (m : GraphNode) (i : GraphIx) (n : GraphNode)
      → P.node_weight g i ≡ some n
      → P.node_weight (P.add_node g m).0 i ≡ some n

module _ (P : DiGraph) where
  -- Known nodes with their weights, edges and ranges stay.
  pub record Extends (g g' : DepGraph P) : Type 0 where
    pub nodes :
        (id : GraphId) (i : GraphIx)
        → map_get g.ix_by_id id ≡ some i
        → map_get g'.ix_by_id id ≡ some i
    pub edges :
        (i j : GraphIx)
        → has_target (P.outgoing g.dataflow i) j ≡ true
        → has_target (P.outgoing g'.dataflow i) j ≡ true
    pub weights :
        (i : GraphIx) (n : GraphNode)
        → P.node_weight g.dataflow i ≡ some n
        → P.node_weight g'.dataflow i ≡ some n
    pub ranges :
        (id : TriggerId) (r : Range)
        → get g.multiport_ranges id ≡ some r
        → get g'.multiport_ranges id ≡ some r

  pub Extends-refl : (g : DepGraph P) → Extends g g
  Extends-refl g = record {
    nodes = λ id i h. h;
    edges = λ i j h. h;
    weights = λ i n h. h;
    ranges = λ id r h. h;
  }

  pub Extends-trans : (a b c : DepGraph P) → Extends a b → Extends b c → Extends a c
  Extends-trans a b c e f = record {
    nodes = λ id i h. f.nodes id i (e.nodes id i h);
    edges = λ i j h. f.edges i j (e.edges i j h);
    weights = λ i n h. f.weights i n (e.weights i n h);
    ranges = λ id r h. f.ranges id r (e.ranges id r h);
  }

  -- The graph with one more node.
  abbrev pub added_ix : DepGraph P → GraphId → NodeKind → GraphIx
  added_ix g id kind = (P.add_node g.dataflow (record { kind = kind; id = id })).1

  abbrev pub node_added : DepGraph P → GraphId → NodeKind → DepGraph P
  node_added g id kind = record g {
    dataflow = (P.add_node g.dataflow (record { kind = kind; id = id })).0;
    ix_by_id = map_insert g.ix_by_id id (added_ix g id kind);
  }

  pub record_node_new :
      (g : DepGraph P) (id : GraphId) (kind : NodeKind)
      → map_get g.ix_by_id id ≡ none
      → record_node P g id kind ≡ some (added_ix g id kind, node_added g id kind)
  unfolding record_node
  record_node_new g id kind h = ground arith

  -- Known nodes are connected, and no node is added.
  pub connect_known :
      (g : DepGraph P) (a b : GraphId) (w : EdgeWeight) (i j : GraphIx)
      → map_get g.ix_by_id a ≡ some i
      → map_get g.ix_by_id b ≡ some j
      → connect P g a b w ≡ some (record g { dataflow = P.add_edge g.dataflow i j w })
  unfolding connect
  connect_known g a b w i j h k = ground arith

  pub node_added-Extends :
      (g : DepGraph P) (id : GraphId) (kind : NodeKind)
      → KeepsEdges P
      → map_get g.ix_by_id id ≡ none
      → Extends g (node_added g id kind)
  node_added-Extends g id kind laws new = record {
    nodes = λ other i h. map_get-map_insert_known g.ix_by_id id _ i other new h;
    edges = λ i j h. laws.node_keeps g.dataflow _ i j h;
    weights = λ i n h. laws.node_weighs g.dataflow _ i n h;
    ranges = λ id r h. h;
  }

  pub edge_added-Extends :
      (g : DepGraph P) (a b : GraphIx) (w : EdgeWeight)
      → KeepsEdges P
      → Extends g (record g { dataflow = P.add_edge g.dataflow a b w })
  edge_added-Extends g a b w laws = record {
    nodes = λ id i h. h;
    edges = λ i j h. laws.edge_keeps g.dataflow a b w i j h;
    weights = λ i n h. laws.edge_weighs g.dataflow a b w i n h;
    ranges = λ id r h. h;
  }

  -- The first reaction has priority: an edge leads from its node to that of the second.
  abbrev pub HasPriority : DepGraph P → GlobalReactionId → GlobalReactionId → Type 0
  HasPriority g n m =
      (i : GraphIx) × (j : GraphIx) × (map_get g.ix_by_id (reaction n) ≡ some i)
      × (map_get g.ix_by_id (reaction m) ≡ some j)
      × (has_target (P.outgoing g.dataflow i) j ≡ true)

  pub HasPriority-Extends :
      (g g' : DepGraph P) (n m : GlobalReactionId)
      → Extends g g'
      → HasPriority g n m
      → HasPriority g' n m
  HasPriority-Extends g g' n m e (i, j, h, k, edge) =
      (i, j, e.nodes (reaction n) i h, e.nodes (reaction m) j k, e.edges i j edge)
