-- ===== src/Graph.antt =====
-- `DepGraph` of src/scheduler/dependencies.rs: the dependency graph, built during assembly.
-- petgraph's `DiGraph` and its `toposort` are a parameter. A `none` of an operation is a panic.
pub mod Numbering
pub mod Levels
pub mod Dependencies
pub mod Plans
pub mod Nodes
use reactor_rs.Common.{
  ℕ, zero, suc, ◌==◌, ◌≡◌, Bool, true, false, ◌||◌, ◌&&◌, Option, none, some, List, [], ◌∷◌,
  if◌then◌else◌, ltb, not,
}
use reactor_rs.Common.Ord.{nat_ord}
use reactor_rs.Ids.{
  TriggerId, GlobalReactionId, id_eq, startup, shutdown, Range, iter_next_range, next_range,
  iter_range,
}
use reactor_rs.VecMap.{VecMap, get, insert, new}
use mathlib.Core.Option

pub data NodeKind : Type 0 where
  special multiport_upstream port action timer reaction_node : NodeKind

pub data GraphId : Type 0 where
  trigger : TriggerId → GraphId
  reaction : GlobalReactionId → GraphId

pub record GraphNode : Type 0 where
  pub kind : NodeKind
  pub id : GraphId

pub data EdgeWeight : Type 0 where
  default use_edge : EdgeWeight

abbrev pub GraphIx : Type 0
GraphIx = ℕ

-- The part of petgraph that the source calls: a directed graph with node and edge weights, the
-- targets and weights of the edges that leave a node, and a topological sort, which may fail.
pub record DiGraph : Type 1 where
  pub Graph : Type 0
  pub empty : Graph
  pub add_node : Graph → GraphNode → Graph × GraphIx
  pub add_edge : Graph → GraphIx → GraphIx → EdgeWeight → Graph
  pub node_indices : Graph → List GraphIx
  pub node_weight : Graph → GraphIx → Option GraphNode
  pub outgoing : Graph → GraphIx → List (GraphIx × EdgeWeight)
  pub toposort : Graph → Option (List GraphIx)

unfoldable pub graph_id_eq : GraphId → GraphId → Bool
graph_id_eq (trigger a) (trigger b) = a == b
graph_id_eq (reaction a) (reaction b) = id_eq a b
graph_id_eq (trigger a) (reaction b) = false
graph_id_eq (reaction a) (trigger b) = false

-- A `HashMap` with keys `GraphId`.
unfoldable pub map_get : {V : Type 0} → List (GraphId × V) → GraphId → Option V
map_get [] id = none
map_get ((j, v) ∷ m) id = if graph_id_eq j id then some v else map_get m id

unfoldable pub map_insert : {V : Type 0} → List (GraphId × V) → GraphId → V → List (GraphId × V)
map_insert [] id w = (id, w) ∷ []
map_insert ((j, v) ∷ m) id w = if graph_id_eq j id then (id, w) ∷ m else (j, v) ∷ map_insert m id w

module _ (P : DiGraph) where
  pub record DepGraph : Type 0 where
    pub dataflow : P.Graph
    pub ix_by_id : List (GraphId × GraphIx)
    pub multiport_containment : List (GraphId × TriggerId)
    pub multiport_ranges : VecMap TriggerId Range

  -- `record`; an id that is there already is a panic.
  unfoldable pub record_node : DepGraph → GraphId → NodeKind → Option (GraphIx × DepGraph)
  record_node g id kind = elim (map_get g.ix_by_id id) [
    | some _ ↦ none
    | none ↦
        let (dataflow, ix) = P.add_node g.dataflow (record { kind = kind; id = id }) in
        some (ix, record g { dataflow = dataflow; ix_by_id = map_insert g.ix_by_id id ix })
  ]

  unfoldable pub record_special : DepGraph → TriggerId → DepGraph
  record_special g id =
      let (dataflow, ix) = P.add_node g.dataflow (record { kind = special; id = trigger id }) in
      record g { dataflow = dataflow; ix_by_id = map_insert g.ix_by_id (trigger id) ix }

  unfoldable pub graph_new : DepGraph
  unfolding record_special new
  graph_new =
      let ich : DepGraph = record {
        dataflow = P.empty;
        ix_by_id = [];
        multiport_containment = [];
        multiport_ranges = new;
      } in
      record_special (record_special ich startup) shutdown

  abbrev pub drop_ix : Option (GraphIx × DepGraph) → Option DepGraph
  drop_ix r = Option.map (λ p. p.1) r

  unfoldable pub record_port : DepGraph → TriggerId → Option DepGraph
  unfolding record_node
  record_port g id = drop_ix (record_node g (trigger id) port)

  unfoldable pub record_laction : DepGraph → TriggerId → Option DepGraph
  unfolding record_node
  record_laction g id = drop_ix (record_node g (trigger id) action)

  unfoldable pub record_paction : DepGraph → TriggerId → Option DepGraph
  unfolding record_node
  record_paction g id = drop_ix (record_node g (trigger id) action)

  unfoldable pub record_timer : DepGraph → TriggerId → Option DepGraph
  unfolding record_node
  record_timer g id = drop_ix (record_node g (trigger id) timer)

  unfoldable pub record_reaction : DepGraph → GlobalReactionId → Option DepGraph
  unfolding record_node
  record_reaction g id = drop_ix (record_node g (reaction id) reaction_node)

  unfoldable pub contain_channels :
      List (GraphId × TriggerId) → List TriggerId → TriggerId → List (GraphId × TriggerId)
  contain_channels m [] id = m
  contain_channels m (c ∷ cs) id = contain_channels (map_insert m (trigger c) id) cs id

  -- The inner `none` is the error `IdOverflow`.
  unfoldable pub record_port_bank : DepGraph → TriggerId → ℕ → Option (Option DepGraph)
  record_port_bank g id len =
      if ltb 0 len
      then elim (record_node g (trigger id) multiport_upstream) [
        | none ↦ none
        | some (_, g') ↦ elim (iter_next_range id len) [
          | none ↦ some none
          | some channels ↦ elim (next_range id len) [
            | none ↦ none
            | some r ↦ some (
                some (record g' {
                  multiport_containment = contain_channels g'.multiport_containment channels id;
                  multiport_ranges = (insert g'.multiport_ranges id r).0;
                }))
          ]
        ]
      ]
      else none

  -- `get_ix` panics on an id that was not recorded.
  unfoldable pub get_ix : DepGraph → GraphId → Option GraphIx
  get_ix g id = map_get g.ix_by_id id

  unfoldable pub connect : DepGraph → GraphId → GraphId → EdgeWeight → Option DepGraph
  unfolding get_ix
  connect g a b w = elim (get_ix g a) [
    | none ↦ none
    | some i ↦ elim (get_ix g b) [
      | none ↦ none
      | some j ↦ some (record g { dataflow = P.add_edge g.dataflow i j w })
    ]
  ]

  unfoldable pub record_port_bank_component : DepGraph → TriggerId → TriggerId → Option DepGraph
  record_port_bank_component g bank_id channel_id = elim (record_port g channel_id) [
    | none ↦ none
    | some g' ↦ connect g' (trigger bank_id) (trigger channel_id) default
  ]

  unfoldable pub reaction_priority :
      DepGraph → GlobalReactionId → GlobalReactionId → Option DepGraph
  reaction_priority g n m = connect g (reaction n) (reaction m) default

  unfoldable pub port_bind : DepGraph → TriggerId → TriggerId → Option DepGraph
  port_bind g p1 p2 = connect g (trigger p1) (trigger p2) default

  unfoldable pub reaction_effects : DepGraph → GlobalReactionId → TriggerId → Option DepGraph
  reaction_effects g r t = connect g (reaction r) (trigger t) default

  abbrev pub is_multiport : NodeKind → Bool
  is_multiport multiport_upstream = true
  is_multiport _ = false

  unfoldable pub connect_channels :
      DepGraph → List TriggerId → GraphIx → EdgeWeight → Option DepGraph
  unfolding get_ix
  connect_channels g [] reaction_ix w = some g
  connect_channels g (c ∷ cs) reaction_ix w = elim (get_ix g (trigger c)) [
    | none ↦ none
    | some i ↦
        connect_channels (record g { dataflow = P.add_edge g.dataflow i reaction_ix w }) cs
          reaction_ix w
  ]

  -- A dependency on a whole multiport is one on each of its channels.
  unfoldable pub trigger_to_reaction_edge :
      DepGraph → TriggerId → GlobalReactionId → EdgeWeight → Option DepGraph
  unfolding get_ix
  trigger_to_reaction_edge g t r w = elim (get_ix g (trigger t)) [
    | none ↦ none
    | some trigger_ix ↦ elim (get_ix g (reaction r)) [
      | none ↦ none
      | some reaction_ix ↦ elim (P.node_weight g.dataflow trigger_ix) [
        | none ↦ none
        | some node ↦
            if is_multiport node.kind
            then elim (get g.multiport_ranges t) [
              | none ↦ none
              | some channels ↦ connect_channels g (iter_range channels) reaction_ix w
            ]
            else some (record g { dataflow = P.add_edge g.dataflow trigger_ix reaction_ix w })
      ]
    ]
  ]

  unfoldable pub triggers_reaction : DepGraph → TriggerId → GlobalReactionId → Option DepGraph
  triggers_reaction g t r = trigger_to_reaction_edge g t r default

  unfoldable pub reaction_uses : DepGraph → GlobalReactionId → TriggerId → Option DepGraph
  reaction_uses g r t = trigger_to_reaction_edge g t r use_edge
