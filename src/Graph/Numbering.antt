-- ===== src/Graph/Numbering.antt =====
-- `number_reactions_by_level` of src/scheduler/dependencies.rs. The `HashMap`s are functions, which
-- are only read at a key.
use reactor_rs.Common.{◌==◌, Option, none, some, List, [], ◌∷◌, if◌then◌else◌, ltb}
use reactor_rs.Ids.{GlobalReactionId, id_eq}
use reactor_rs.Plan.{LevelIx, next_level}
use reactor_rs.Graph.{DiGraph, DepGraph, GraphIx, GraphId, EdgeWeight, trigger, reaction}
use mathlib.Core.Option

abbrev pub LevelMap : Type 0
LevelMap = GraphIx → Option LevelIx

-- `levels.entry(ix).or_insert(LevelIx::ZERO)`, read.
abbrev pub level_of : LevelMap → GraphIx → LevelIx
level_of levels ix = Option.get_or (levels ix) 0

abbrev pub set_level : LevelMap → GraphIx → LevelIx → LevelMap
set_level levels ix l j = if j == ix then some l else levels j

abbrev pub max_ix : LevelIx → LevelIx → LevelIx
max_ix a b = if ltb a b then b else a

-- The loop over the successors.
unfoldable pub raise_successors : LevelMap → LevelIx → List (GraphIx × EdgeWeight) → LevelMap
raise_successors levels cur [] = levels
raise_successors levels cur ((succ_ix, w) ∷ edges) =
    raise_successors (set_level levels succ_ix (max_ix (next_level cur) (level_of levels succ_ix)))
      cur edges

abbrev pub ReactionLevels : Type 0
ReactionLevels = GlobalReactionId → Option LevelIx

-- The body of the second loop: only reactions are entered.
unfoldable pub note_level : GraphId → LevelIx → ReactionLevels → ReactionLevels
note_level (reaction id) l m q = if id_eq id q then some l else m q
note_level (trigger _) l m q = m q

module _ (P : DiGraph) (g : DepGraph P) where
  unfoldable pub visit : LevelMap → GraphIx → LevelMap
  visit levels ix =
      let cur = level_of levels ix in
      raise_successors (set_level levels ix cur) cur (P.outgoing g.dataflow ix)

  unfoldable pub assign_levels : LevelMap → List GraphIx → LevelMap
  assign_levels levels [] = levels
  assign_levels levels (ix ∷ order) = assign_levels (visit levels ix) order

  -- The second loop. A node without a weight is a panic.
  unfoldable pub reaction_levels : LevelMap → ReactionLevels → List GraphIx → Option ReactionLevels
  unfolding note_level
  reaction_levels levels m [] = some m
  reaction_levels levels m (ix ∷ order) = elim (P.node_weight g.dataflow ix) [
    | none ↦ none
    | some node ↦ reaction_levels levels (note_level node.id (level_of levels ix) m) order
  ]

  -- The outer `none` is the error `CyclicDependencyGraph`.
  unfoldable pub number_reactions_by_level : Option (Option ReactionLevels)
  number_reactions_by_level = elim (P.toposort g.dataflow) [
    | none ↦ none
    | some toposorted ↦
        some (reaction_levels (assign_levels (λ _. none) toposorted) (λ _. none) toposorted)
  ]
