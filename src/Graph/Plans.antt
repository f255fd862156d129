-- ===== src/Graph/Plans.antt =====
-- The plans that `DataflowInfo::new` of src/scheduler/dependencies.rs collects for the triggers,
-- over the levels that `ReactionLevelInfo` keeps. A `none` is a panic, or no fuel left.
pub mod Paths
pub mod Additions
pub mod Collected
use reactor_rs.Common.{
  ℕ, zero, suc, Option, none, some, List, [], ◌∷◌, insert_at, ltb, length, if◌then◌else◌,
}
use reactor_rs.Ids.{TriggerId, GlobalReactionId}
use reactor_rs.Plan.{LevelIx, ExecutableReactions, insert}
use reactor_rs.Queue.{DataflowInfo}
use reactor_rs.Graph.{
  DiGraph, DepGraph, GraphIx, GraphId, GraphNode, NodeKind, port, reaction_node, EdgeWeight,
  default, use_edge, trigger, reaction,
}
use reactor_rs.Graph.Numbering.{ReactionLevels, number_reactions_by_level}
use mathlib.Core.Option

unfoldable pub augment :
    ReactionLevels → ExecutableReactions → GlobalReactionId → Option ExecutableReactions
augment level_numbers collection id = Option.map (λ ix. insert collection id ix) (level_numbers id)

-- The case of a reaction: only an edge that is not a use is a trigger dependency.
unfoldable pub collect_reaction :
    ReactionLevels → ExecutableReactions → GraphId → EdgeWeight → Option ExecutableReactions
unfolding augment
collect_reaction levels plan (reaction id) default = augment levels plan id
collect_reaction levels plan (reaction id) use_edge = some plan
collect_reaction levels plan (trigger _) w = none

-- The `for downstream`, with the recursive call as an argument.
module _ (P : DiGraph) (g : P.Graph) (levels : ReactionLevels) where
  unfoldable pub collect_edges :
      (GraphIx → ExecutableReactions → Option ExecutableReactions)
      → List (GraphIx × EdgeWeight)
      → ExecutableReactions
      → Option ExecutableReactions
  collect_edges rec [] plan = some plan
  collect_edges rec ((target, w) ∷ edges) plan = elim (P.node_weight g target) [
    | none ↦ none
    | some node ↦ elim node.kind [
      | port ↦ elim (rec target plan) [ some plan' ↦ collect_edges rec edges plan' | none ↦ none ]
      | reaction_node ↦ elim (collect_reaction levels plan node.id w) [
        | some plan' ↦ collect_edges rec edges plan'
        | none ↦ none
      ]
      | _ ↦ none
    ]
  ]

  -- The fuel bounds the length of a path through ports.
  unfoldable pub collect_reactions_rec :
      ℕ → GraphIx → ExecutableReactions → Option ExecutableReactions
  collect_reactions_rec zero ix plan = none
  collect_reactions_rec (suc fuel) ix plan =
      collect_edges (λ ix' p. collect_reactions_rec fuel ix' p) (P.outgoing g ix) plan

  -- `IndexVec::insert`, which shifts what follows and panics past the end.
  unfoldable pub insert_plan : DataflowInfo → TriggerId → ExecutableReactions → Option DataflowInfo
  insert_plan result id plan =
      if ltb (length result) id then none else some (insert_at result id plan)

  -- The loop over the node indices.
  unfoldable pub collect_nodes : ℕ → List GraphIx → DataflowInfo → Option DataflowInfo
  unfolding insert_plan
  collect_nodes fuel [] result = some result
  collect_nodes fuel (ix ∷ ixs) result = elim (P.node_weight g ix) [
    | none ↦ none
    | some node ↦ elim node.id [
      | reaction _ ↦ collect_nodes fuel ixs result
      | trigger id ↦ elim (collect_reactions_rec fuel ix []) [
        | none ↦ none
        | some reactions ↦ elim (insert_plan result id reactions) [
          | none ↦ none
          | some result' ↦ collect_nodes fuel ixs result'
        ]
      ]
    ]
  ]

  -- A path is shorter than there are nodes.
  unfoldable pub collect_trigger_to_plan : Option DataflowInfo
  collect_trigger_to_plan = collect_nodes (suc (length (P.node_indices g))) (P.node_indices g) []

-- `DataflowInfo::new`. The outer `none` is the error of the numbering.
unfoldable pub dataflow_new : (P : DiGraph) → DepGraph P → Option (Option DataflowInfo)
unfolding collect_trigger_to_plan
dataflow_new P g = elim (number_reactions_by_level P g) [
  | none ↦ none
  | some none ↦ some none
  | some (some levels) ↦ some (collect_trigger_to_plan P g.dataflow levels)
]
