-- ===== src/Graph/Dependencies.antt =====
-- Reactions of src/scheduler/dependencies.rs that depend on one another get ascending levels.
use reactor_rs.Common.{
  ◌==◌, ◌≡◌, ◌<◌, ◌⊎◌, refl, subst, ap, true, Option, none, some, List, [], ◌∷◌, arith, length, All,
  Bool-cases, Option-cases, inl, inr, ==_iff,
}
use reactor_rs.Ids.{GlobalReactionId, id_eq, full_mod}
use reactor_rs.Plan.{LevelIx}
use reactor_rs.Graph.{DiGraph, DepGraph, GraphIx, GraphId, GraphNode, trigger, reaction}
use reactor_rs.Graph.Numbering.{
  LevelMap, level_of, assign_levels, reaction_levels, note_level, ReactionLevels,
  number_reactions_by_level,
}
use reactor_rs.Graph.Levels.{mem_ix, has_target, IsTopological, out, assign_edge, target_after}

module _ (P : DiGraph) (g : DepGraph P) where
  -- A path of one edge or more.
  pub data Depends (u : GraphIx) : GraphIx → Type 0 where
    edge : {v : GraphIx} → has_target (P.outgoing g.dataflow u) v ≡ true → Depends u v
    further :
        {v w : GraphIx} → Depends u v → has_target (P.outgoing g.dataflow v) w ≡ true → Depends u w

  -- The reaction that a node stands for.
  abbrev pub reaction_at : GraphIx → Option GlobalReactionId
  reaction_at ix = elim (P.node_weight g.dataflow ix) [
    | some node ↦ elim node.id [ reaction id ↦ some id | trigger _ ↦ none ]
    | none ↦ none
  ]

  -- Every node of the order is in the graph.
  abbrev pub AllWeighted : List GraphIx → Type 0
  AllWeighted order =
      All (λ ix. (node : GraphNode) × (P.node_weight g.dataflow ix ≡ some node)) order

  -- The reaction stands at one node only.
  abbrev pub StandsOnlyAt : GlobalReactionId → GraphIx → Type 0
  StandsOnlyAt n u =
      (i : GraphIx) (q : GlobalReactionId) → reaction_at i ≡ some q → id_eq q n ≡ true → i ≡ u

  edge_after :
      (order : List GraphIx) (u v : GraphIx)
      → IsTopological (out P g) order
      → mem_ix u order ≡ true
      → has_target (P.outgoing g.dataflow u) v ≡ true
      → mem_ix v order ≡ true
  unfolding mem_ix
  edge_after [] u v t m e = ground arith
  edge_after (x ∷ order) u v t m e =
      ground (arith, edge_after order u v t.2, target_after (out P g u) order v, ==_iff x u)

  Depends-lt :
      (order : List GraphIx) (u : GraphIx) {v : GraphIx}
      → IsTopological (out P g) order
      → length order < full_mod
      → mem_ix u order ≡ true
      → Depends u v
      → (mem_ix v order ≡ true)
        × (level_of (assign_levels P g (λ _. none) order) u
            < level_of (assign_levels P g (λ _. none) order) v)
  Depends-lt order u {v} t fits m (edge e) = (
    edge_after order u v t m e,
    assign_edge P g (λ _. none) order 0 u v t (λ w. omega arith) (omega arith) m e,
  )
  Depends-lt order u {v} t fits m (further {v = x} d e) =
      let (mx, lt) = Depends-lt order u t fits m d in
      (
        edge_after order x v t mx e,
        omega (
          arith,
          lt,
          assign_edge P g (λ _. none) order 0 x v t (λ w. omega arith) (omega arith) mx e,
        ),
      )

  reaction_levels_total :
      (levels : LevelMap) (m : ReactionLevels) (order : List GraphIx)
      → AllWeighted order
      → (r : ReactionLevels) × (reaction_levels P g levels m order ≡ some r)
  unfolding reaction_levels
  reaction_levels_total levels m [] a = (m, refl)
  reaction_levels_total levels m (ix ∷ order) ((node, e), a) =
      rw (e, reaction_levels)
        (reaction_levels_total levels (note_level node.id (level_of levels ix) m) order a)

  -- What is entered for a reaction that stands at one node only.
  module _ (levels : LevelMap) (n : GlobalReactionId) (u : GraphIx) (only : StandsOnlyAt n u) where
    note_other :
        (m : ReactionLevels) (ix : GraphIx) (node : GraphNode)
        → P.node_weight g.dataflow ix ≡ some node
        → m n ≡ some (level_of levels u)
        → note_level node.id (level_of levels ix) m n ≡ some (level_of levels u)
    unfolding note_level
    note_other m ix node e h = noted node.id refl
      where
        noted :
            (id : GraphId)
            → node.id ≡ id
            → note_level id (level_of levels ix) m n ≡ some (level_of levels u)
        noted (trigger t) f = h
        noted (reaction q) f = ground (arith, only ix q)

    note_self :
        (m : ReactionLevels) (ix : GraphIx) (node : GraphNode)
        → P.node_weight g.dataflow ix ≡ some node
        → (ix == u) ≡ true
        → reaction_at u ≡ some n
        → note_level node.id (level_of levels ix) m n ≡ some (level_of levels u)
    unfolding note_level id_eq
    note_self m ix node e same at = noted node.id refl
      where
        noted :
            (id : GraphId)
            → node.id ≡ id
            → note_level id (level_of levels ix) m n ≡ some (level_of levels u)
        noted (trigger t) f = ground (arith, at, e)
        noted (reaction q) f = ground (arith, at, e)

    reaction_levels_keep :
        (m r : ReactionLevels) (order : List GraphIx)
        → m n ≡ some (level_of levels u)
        → reaction_levels P g levels m order ≡ some r
        → r n ≡ some (level_of levels u)
    unfolding reaction_levels
    reaction_levels_keep m r [] h e = ground arith
    reaction_levels_keep m r (ix ∷ order) h e = elim (Option-cases (P.node_weight g.dataflow ix)) [
      | inl absent ↦ ground arith
      | inr (node, f) ↦
          reaction_levels_keep (note_level node.id (level_of levels ix) m) r order
            (note_other m ix node f h) (ground arith)
    ]

    reaction_levels_at :
        (m r : ReactionLevels) (order : List GraphIx)
        → mem_ix u order ≡ true
        → reaction_at u ≡ some n
        → reaction_levels P g levels m order ≡ some r
        → r n ≡ some (level_of levels u)
    unfolding reaction_levels mem_ix
    reaction_levels_at m r [] h at e = ground arith
    reaction_levels_at m r (ix ∷ order) h at e = elim (Option-cases (P.node_weight g.dataflow ix)) [
      | inl absent ↦ ground arith
      | inr (node, f) ↦ elim (Bool-cases (ix == u)) [
        | inl same ↦
            reaction_levels_keep (note_level node.id (level_of levels ix) m) r order
              (note_self m ix node f same at) (ground arith)
        | inr other ↦
            reaction_levels_at (note_level node.id (level_of levels ix) m) r order (ground arith) at
              (ground arith)
      ]
    ]

  abbrev IsBelow : GraphIx → GraphIx → LevelIx → LevelIx → Type 0
  IsBelow u v a b = ((u ≡ v) × (a ≡ b)) ⊎ (a < b)

  below_lem :
      (order : List GraphIx) (u v : GraphIx)
      → IsTopological (out P g) order
      → length order < full_mod
      → mem_ix u order ≡ true
      → (u ≡ v) ⊎ Depends u v
      → (mem_ix v order ≡ true)
        × IsBelow u v
            (level_of (assign_levels P g (λ _. none) order) u)
            (level_of (assign_levels P g (λ _. none) order) v)
  below_lem order u v t fits inside (inl same) = (
    subst (λ x. mem_ix x order ≡ true) same inside,
    inl (same, ap (λ x. level_of (assign_levels P g (λ _. none) order) x) same),
  )
  below_lem order u v t fits inside (inr d) =
      let (inside', less) = Depends-lt order u t fits inside d in (inside', inr less)

  -- If petgraph's sort orders the graph, every node of which has a weight, the numbering does not
  -- panic and finds no cycle. Every reaction that stands at one node of the order gets a level,
  -- whether or not it depends on another: take the same reaction twice, `u ≡ v`. A reaction on a
  -- path to another gets the lower level of the two. (There are fewer nodes than a u32 has values.)
  pub number_reactions_by_level_lem :
      (order : List GraphIx) (n m : GlobalReactionId) (u v : GraphIx)
      → P.toposort g.dataflow ≡ some order
      → IsTopological (out P g) order
      → AllWeighted order
      → length order < full_mod
      → mem_ix u order ≡ true
      → reaction_at u ≡ some n
      → reaction_at v ≡ some m
      → StandsOnlyAt n u
      → StandsOnlyAt m v
      → (u ≡ v) ⊎ Depends u v
      → (levels : ReactionLevels) × (a b : LevelIx) × (number_reactions_by_level P g
          ≡ some (some levels))
        × (levels n ≡ some a)
        × (levels m ≡ some b)
        × (((u ≡ v) × (a ≡ b)) ⊎ (a < b))
  unfolding number_reactions_by_level
  number_reactions_by_level_lem order n m u v sorted t weighted fits inside at_u at_v only_u only_v
        d =
      let assigned = assign_levels P g (λ _. none) order in
      let (levels, done) = reaction_levels_total assigned (λ _. none) order weighted in
      let (inside', below) = below_lem order u v t fits inside d in
      (
        levels,
        level_of assigned u,
        level_of assigned v,
        ground (arith, sorted, done),
        reaction_levels_at assigned n u only_u (λ _. none) levels order inside at_u done,
        reaction_levels_at assigned m v only_v (λ _. none) levels order inside' at_v done,
        below,
      )

  -- If petgraph finds a cycle, the numbering is refused.
  pub number_reactions_by_level_cyclic :
      P.toposort g.dataflow ≡ none → number_reactions_by_level P g ≡ none
  unfolding number_reactions_by_level
  number_reactions_by_level_cyclic e = ground arith
