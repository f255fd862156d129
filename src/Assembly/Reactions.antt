-- ===== src/Assembly/Reactions.antt =====
-- `new_reactions` of src/scheduler/assembly_impl.rs: the ids of a reactor's reactions, their nodes
-- and the edges of their priorities.
use reactor_rs.Common.{
  ℕ, zero, suc, ◌+◌, ◌≤◌, ◌<◌, ◌≡◌, refl, ◌∙◌, Bool, false, none, some, Option, List, [], ◌∷◌,
  arith, if◌then◌else◌, ltb, Bool-cases, inl, inr,
}
use reactor_rs.Ids.{TriggerId, GlobalReactionId, IsInRange, half_mod, id_eq, raw}
use reactor_rs.Graph.{
  DiGraph, DepGraph, GraphIx, trigger, reaction, reaction_node, map_get, graph_id_eq, default,
  drop_ix, record_reaction, reaction_priority,
}
use reactor_rs.Graph.Nodes.{
  map_get-map_insert, added_ix, node_added, record_node_new, connect_known, KeepsEdges, Extends,
  Extends-trans, node_added-Extends, edge_added-Extends, HasPriority,
}
use reactor_rs.Debug.{ReactorId, DebugInfoRegistry, has_label}
use reactor_rs.Assembly.{RootAssembler}
use reactor_rs.Assembly.Reactors.{record_label, record_priority}
use reactor_rs.Debug
use reactor_rs.Graph

abbrev pub reaction_id : ReactorId → ℕ → GlobalReactionId
reaction_id my_id i = record { container = my_id; local = i }

-- The ids of a reactor's reactions from `i` on.
abbrev pub reaction_ids : ReactorId → ℕ → ℕ → List GlobalReactionId
reaction_ids my_id i zero = []
reaction_ids my_id i (suc n) = reaction_id my_id i ∷ reaction_ids my_id (i + 1) n

module _ (P : DiGraph) (T R : Type 0) where
  -- Reactions of a reactor, from one on, that stand for nothing yet.
  pub record IsVacant (my_id : ReactorId) (i : ℕ) (root : RootAssembler P T R) : Type 0 where
    pub no_label :
        (j : ℕ)
        → i ≤ j
        → j < half_mod
        → has_label root.debug_info.reaction_labels (reaction_id my_id j) ≡ false
    pub no_node :
        (j : ℕ)
        → i ≤ j
        → j < half_mod
        → map_get root.graph.ix_by_id (reaction (reaction_id my_id j)) ≡ none

  -- Reactions are declared, and what concerns triggers and other reactors is left alone.
  pub record Declares (my_id : ReactorId) (root root' : RootAssembler P T R) : Type 0 where
    pub same_rest : root' ≡ record root {
      graph = record root.graph {
        dataflow = root'.graph.dataflow;
        ix_by_id = root'.graph.ix_by_id;
      };
      debug_info = record root.debug_info { reaction_labels = root'.debug_info.reaction_labels };
    }
    pub same_triggers :
        (id : TriggerId)
        → map_get root'.graph.ix_by_id (trigger id) ≡ map_get root.graph.ix_by_id (trigger id)
    pub same_nodes :
        (r : GlobalReactionId)
        → IsInRange r
        → my_id < r.container
        → map_get root'.graph.ix_by_id (reaction r) ≡ map_get root.graph.ix_by_id (reaction r)
    pub same_labels :
        (r : GlobalReactionId)
        → IsInRange r
        → my_id < r.container
        → has_label root'.debug_info.reaction_labels r ≡ has_label root.debug_info.reaction_labels r
    pub extends : Extends P root.graph root'.graph

  -- The reaction before is a node.
  abbrev pub IsKnown : DepGraph P → Option GlobalReactionId → Type 0
  IsKnown g none = Unit
  IsKnown g (some r) = (ix : GraphIx) × (map_get g.ix_by_id (reaction r) ≡ some ix)

  -- One round of the loop.
  module _ (laws : KeepsEdges P) (root : RootAssembler P T R) (my_id : ReactorId) (k i : ℕ)
      (named : Bool) (vacant : IsVacant my_id i root) (small_id : my_id < half_mod)
      (small : i < half_mod) where
    abbrev pub noded : DepGraph P
    noded = node_added P root.graph (reaction (reaction_id my_id i)) reaction_node

    abbrev pub here : GraphIx
    here = added_ix P root.graph (reaction (reaction_id my_id i)) reaction_node

    abbrev pub labels : List GlobalReactionId
    labels =
        if named
        then reaction_id my_id i ∷ root.debug_info.reaction_labels
        else root.debug_info.reaction_labels

    abbrev pub declared : P.Graph → RootAssembler P T R
    declared dataflow = record root {
      graph = record noded { dataflow = dataflow };
      debug_info = record root.debug_info { reaction_labels = labels };
    }

    pub record_label_new :
        record_label root.debug_info (reaction_id my_id i) named
        ≡ some (record root.debug_info { reaction_labels = labels })
    unfolding Debug.record_reaction
    record_label_new = ground (arith, vacant.no_label i (omega arith) small)

    pub record_node_lem : Graph.record_reaction P root.graph (reaction_id my_id i) ≡ some noded
    unfolding Graph.record_reaction
    record_node_lem = ground (
      arith,
      record_node_new P root.graph (reaction (reaction_id my_id i)) reaction_node
          (vacant.no_node i (omega arith) small),
    )

    pub here_lem : map_get noded.ix_by_id (reaction (reaction_id my_id i)) ≡ some here
    unfolding graph_id_eq id_eq
    here_lem =
        map_get-map_insert root.graph.ix_by_id (reaction (reaction_id my_id i)) here
          (reaction (reaction_id my_id i))
        ∙ ground arith

    pub declared-IsVacant : (dataflow : P.Graph) → IsVacant my_id (i + 1) (declared dataflow)
    unfolding graph_id_eq id_eq raw has_label
    declared-IsVacant dataflow = record {
      no_label = λ j h s. ground (arith, vacant.no_label j (omega arith) s);
      no_node = λ j h s.
          map_get-map_insert root.graph.ix_by_id (reaction (reaction_id my_id i)) here
            (reaction (reaction_id my_id j))
          ∙ ground (arith, vacant.no_node j (omega arith) s);
    }

    module _ (dataflow : P.Graph) (extends : Extends P root.graph (declared dataflow).graph) where
      pub declared-Declares : Declares my_id root (declared dataflow)
      unfolding graph_id_eq id_eq raw has_label
      declared-Declares = record {
        same_rest = refl;
        same_triggers = λ id.
            map_get-map_insert root.graph.ix_by_id (reaction (reaction_id my_id i)) here
              (trigger id);
        same_nodes = λ r h other.
            map_get-map_insert root.graph.ix_by_id (reaction (reaction_id my_id i)) here
              (reaction r)
            ∙ ground arith;
        same_labels = λ r h other. ground arith;
        extends = extends;
      }

    node-Extends : Extends P root.graph noded
    node-Extends =
        node_added-Extends P root.graph (reaction (reaction_id my_id i)) reaction_node laws
          (vacant.no_node i (omega arith) small)

    -- The edge from the reaction before, if this one is not synthetic.
    pub record Round (prev : Option GlobalReactionId) (dataflow : P.Graph) : Type 0 where
      pub result :
          record_priority P noded (ltb i k) prev (reaction_id my_id i)
          ≡ some (record noded { dataflow = dataflow })
      pub extends : Extends P root.graph (record noded { dataflow = dataflow })
      pub priority :
          (p : GlobalReactionId)
          → prev ≡ some p
          → i < k
          → HasPriority P (record noded { dataflow = dataflow }) p (reaction_id my_id i)

    without_edge :
        (prev : Option GlobalReactionId)
        → record_priority P noded (ltb i k) prev (reaction_id my_id i) ≡ some noded
        → ((p : GlobalReactionId) → prev ≡ some p → i < k → ⊥)
        → Round prev noded.dataflow
    without_edge prev e never = record {
      result = e;
      extends = node-Extends;
      priority = λ p h l. absurd (never p h l);
    }

    pub round :
        (prev : Option GlobalReactionId)
        → IsKnown root.graph prev
        → (dataflow : P.Graph) × Round prev dataflow
    unfolding reaction_priority
    round none known = (noded.dataflow, without_edge none (ground arith) (λ p h l. cc))
    round (some p) (ix, at) = elim (Bool-cases (ltb i k)) [
      | inl prior ↦
          let at' = node-Extends.nodes (reaction p) ix at in
          let dataflow = P.add_edge noded.dataflow ix here default in
          let joined =
            connect_known P noded (reaction p) (reaction (reaction_id my_id i)) default ix here at'
              here_lem in
          (
            dataflow,
            record {
              result = rw (prior, record_priority) joined;
              extends =
                  Extends-trans P root.graph noded (record noded { dataflow = dataflow })
                    node-Extends (edge_added-Extends P noded ix here default laws);
              priority = λ q h l. (
                ix,
                here,
                ground (arith, h, at'),
                here_lem,
                laws.edge_added noded.dataflow ix here default,
              );
            },
          )
      | inr last ↦
          (noded.dataflow, without_edge (some p) (ground (arith, last)) (λ q h l. ground arith))
    ]
