-- ===== src/Examples/Graphs.antt =====
-- Runs of the dependency graph of src/scheduler/dependencies.rs over a small graph, and of the
-- registry of src/scheduler/debug.rs.
use reactor_rs.Common.{
  suc, zero, ◌<◌, ◌≡◌, refl, Bool, true, ◌&&◌, none, some, List, [], ◌∷◌, ◌++◌, length, get_elem?,
  if◌then◌else◌, ltb, ◌==◌, arith, All, ◌⊎◌, ◌↔◌, inl, inr,
}
use reactor_rs.Ids.{id_eq, raw, range, GlobalReactionId}
use reactor_rs.Plan.{LevelIx}
use reactor_rs.Graph.{
  DiGraph, DepGraph, GraphIx, GraphNode, EdgeWeight, default, trigger, reaction, port,
  reaction_node,
}
use reactor_rs.Graph.Numbering.{ReactionLevels, number_reactions_by_level}
use reactor_rs.Graph.Levels.{mem_ix, has_target, IsTopological, out}
use reactor_rs.Graph.Dependencies.{
  Depends, edge, further, AllWeighted, StandsOnlyAt, number_reactions_by_level_lem,
}
use reactor_rs.Plan.{ExecutableReactions}
use reactor_rs.Plan.Has.{has, IsPlan}
use reactor_rs.Graph.Plans.{collect_reactions_rec}
use reactor_rs.Graph.Plans.Collected.{IsPort, IsTarget, Reached, collect_reactions_rec_lem}
use reactor_rs.Debug.{DebugInfoRegistry, raw_id_of_trigger, get_reactor_lower_bound}
use reactor_rs.Debug.Ranges.{raw_id_of_trigger_lem}
use reactor_rs.Examples.Maps.{one, two}

-- A graph as its nodes and edges.
abbrev pub Edges : Type 0
Edges = List (GraphIx × GraphIx × EdgeWeight)

abbrev pub leaving : Edges → GraphIx → List (GraphIx × EdgeWeight)
leaving [] u = []
leaving ((a, b, w) ∷ edges) u = if a == u then (b, w) ∷ leaving edges u else leaving edges u

abbrev pub ascending : Edges → Bool
ascending [] = true
ascending ((a, b, w) ∷ edges) = ltb a b && ascending edges

-- The nodes sort in the order in which they were added, if every edge goes from an earlier one.
abbrev pub small : DiGraph
small = record {
  Graph = List GraphNode × Edges;
  empty = ([], []);
  add_node = λ g n. ((g.0 ++ (n ∷ []), g.1), length g.0);
  add_edge = λ g a b w. (g.0, (a, b, w) ∷ g.1);
  node_indices = λ g. range 0 (length g.0);
  node_weight = λ g i. get_elem? g.0 i;
  outgoing = λ g u. leaving g.1 u;
  toposort = λ g. if ascending g.1 then some (range 0 (length g.0)) else none;
}

-- A reaction that sets a port, which triggers another reaction.
abbrev chain_graph : DepGraph small
chain_graph = record {
  dataflow = (
    record { kind = reaction_node; id = reaction one }
        ∷ record { kind = port; id = trigger 2 }
        ∷ record { kind = reaction_node; id = reaction two }
        ∷ [],
    (1, 2, default) ∷ (0, 1, default) ∷ [],
  );
  ix_by_id = (reaction one, 0) ∷ (trigger 2, 1) ∷ (reaction two, 2) ∷ [];
  multiport_containment = [];
  multiport_ranges = [];
}

abbrev order : List GraphIx
order = 0 ∷ 1 ∷ 2 ∷ []

order-IsTopological : IsTopological (out small chain_graph) order
unfolding mem_ix
order-IsTopological = (refl, (refl, tt), (refl, (refl, tt), (refl, tt, tt)))

order_weighted : AllWeighted small chain_graph order
order_weighted = ((_, refl), ((_, refl), ((_, refl), tt)))

first_only : StandsOnlyAt small chain_graph one 0
unfolding id_eq raw
first_only zero q e h = refl
first_only (suc zero) q e h = ground arith
first_only (suc (suc zero)) q e h = ground arith
first_only (suc (suc (suc i))) q e h = ground arith

last_only : StandsOnlyAt small chain_graph two 2
unfolding id_eq raw
last_only zero q e h = ground arith
last_only (suc zero) q e h = ground arith
last_only (suc (suc zero)) q e h = refl
last_only (suc (suc (suc i))) q e h = ground arith

first_in : mem_ix 0 order ≡ true
unfolding mem_ix
first_in = refl

first_to_last : Depends small chain_graph 0 2
unfolding has_target
first_to_last = further {v = 1} (edge refl) refl

number_reactions_by_level_lem_example :
    (levels : ReactionLevels) × (a b : LevelIx) × (number_reactions_by_level small chain_graph
      ≡ some (some levels))
    × (levels one ≡ some a)
    × (levels two ≡ some b)
    × (((◌≡◌ {A = GraphIx} 0 2) × (a ≡ b)) ⊎ (a < b))
number_reactions_by_level_lem_example =
    number_reactions_by_level_lem small chain_graph order one two 0 2 refl order-IsTopological
      order_weighted (omega arith) first_in refl refl first_only last_only (inr first_to_last)

abbrev two_at_one : ReactionLevels
two_at_one q = if id_eq q two then some 1 else none

two_known : two_at_one two ≡ some 1
unfolding id_eq raw
two_known = refl

IsPort-edges :
    (v : GraphIx)
    → IsPort small chain_graph.dataflow two_at_one v
    → All
        (λ e.
          IsTarget small chain_graph.dataflow two_at_one
            (λ t. IsPort small chain_graph.dataflow two_at_one t × (0 < 0))
            e)
        (small.outgoing chain_graph.dataflow v)
IsPort-edges zero (node, at, kind) = absurd (ground (arith, at, kind))
IsPort-edges (suc zero) p = ((_, refl, inr (refl, two, refl, 1, two_known)), tt)
IsPort-edges (suc (suc zero)) (node, at, kind) = absurd (ground (arith, at, kind))
IsPort-edges (suc (suc (suc v))) (node, at, kind) = absurd (ground (arith, at))

collect_reactions_rec_lem_example :
    (result : ExecutableReactions) × (collect_reactions_rec small chain_graph.dataflow two_at_one 2
        0 []
      ≡ some result)
    × IsPlan result
    × ((l : LevelIx) (q : GlobalReactionId)
        → (has result l q ≡ true) ↔ (
            (has [] l q ≡ true)
            ⊎ Reached small chain_graph.dataflow two_at_one
                (small.outgoing chain_graph.dataflow 0)
                l
                q))
collect_reactions_rec_lem_example =
    collect_reactions_rec_lem small chain_graph.dataflow two_at_one (λ _. 0) 1 0 [] IsPort-edges
      ((_, refl, inl (refl, ((_, refl, refl), omega arith))), tt)
      (record { sorted = tt; distinct = tt })

-- Three reactors, with two, three and two components.
abbrev three_reactors : DebugInfoRegistry
three_reactors = record {
  reactor_infos = 3;
  reactor_bound = 4 ∷ 7 ∷ 9 ∷ [];
  trigger_infos = 9;
  reactor_container = [];
  main_reactor = some 0;
  reaction_labels = [];
}

second_starts : get_reactor_lower_bound three_reactors 1 ≡ some 4
unfolding get_reactor_lower_bound
second_starts = refl

raw_id_of_trigger_lem_example : raw_id_of_trigger three_reactors 5 ≡ some (1, 1)
raw_id_of_trigger_lem_example =
    raw_id_of_trigger_lem three_reactors 1 4 7 5 (omega arith, (omega arith, (omega arith, tt)))
      second_starts refl (omega arith) (omega arith)
