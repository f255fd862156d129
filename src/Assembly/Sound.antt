-- ===== src/Assembly/Sound.antt =====
-- What holds of the assemblers' shared state of src/scheduler/assembly_impl.rs all along: ids that
-- are not handed out yet stand for nothing.
use reactor_rs.Common.{ℕ, ◌+◌, ◌≤◌, ◌<◌, ◌≡◌, refl, ap, ◌∙◌, false, none, length, arith}
use reactor_rs.Common.Ord.{nat_ord}
use reactor_rs.Ids.{TriggerId, GlobalReactionId, IsInRange, full_mod, get_and_incr, next}
use reactor_rs.VecMap.{get, new, find_k}
use reactor_rs.VecMap.Sorted.{IsSorted}
use reactor_rs.Ports.{Store}
use reactor_rs.Graph.{
  DiGraph, DepGraph, GraphIx, trigger, reaction, map_get, map_insert, graph_id_eq, graph_new,
  record_special,
}
use reactor_rs.Graph.Nodes.{map_get-map_insert, Extends, Extends-refl, Extends-trans}
use reactor_rs.Debug.{ReactorId, DebugInfoRegistry, has_label, record_trigger, registry_new}
use reactor_rs.Assembly.{done, RootAssembler, root_default}
use reactor_rs.Assembly.Components.{next_comp_id}

module _ (P : DiGraph) (T R : Type 0) where
  pub record IsSound (root : RootAssembler P T R) : Type 0 where
    pub counted : root.debug_info.trigger_infos ≡ root.cur_trigger
    pub started : 2 ≤ root.cur_trigger
    pub unused :
        (id : TriggerId) → root.cur_trigger ≤ id → map_get root.graph.ix_by_id (trigger id) ≡ none
    pub ranges_sorted : IsSorted root.graph.multiport_ranges
    pub unranged :
        (id : TriggerId) → root.cur_trigger ≤ id → get root.graph.multiport_ranges id ≡ none

  -- What holds of the reactors that are assembled so far, `count` of them.
  pub record IsNumbered (count : ℕ) (root : RootAssembler P T R) : Type 0 where
    pub numbered : root.debug_info.reactor_infos ≡ count
    pub bounded : length root.debug_info.reactor_bound ≡ count
    pub unlabelled :
        (r : GlobalReactionId)
        → IsInRange r
        → count ≤ r.container
        → has_label root.debug_info.reaction_labels r ≡ false
    pub unknown :
        (r : GlobalReactionId)
        → IsInRange r
        → count ≤ r.container
        → map_get root.graph.ix_by_id (reaction r) ≡ none
    pub containers_sorted : IsSorted root.debug_info.reactor_container
    pub uncontained : (r : ReactorId) → count ≤ r → get root.debug_info.reactor_container r ≡ none

  -- The creation of components leaves alone what concerns reactors.
  pub record Grows (root root' : RootAssembler P T R) : Type 0 where
    pub same_reactors : root'.reactors ≡ root.reactors
    pub same_reactor_id : root'.reactor_id ≡ root.reactor_id
    pub same_registry :
        root'.debug_info ≡ record root.debug_info { trigger_infos = root'.debug_info.trigger_infos }
    pub later : root.cur_trigger ≤ root'.cur_trigger
    pub extends : Extends P root.graph root'.graph
    pub same_reactions :
        (r : GlobalReactionId)
        → map_get root'.graph.ix_by_id (reaction r) ≡ map_get root.graph.ix_by_id (reaction r)

  pub Grows-refl : (root : RootAssembler P T R) → Grows root root
  Grows-refl root = record {
    same_reactors = refl;
    same_reactor_id = refl;
    same_registry = refl;
    later = omega arith;
    extends = Extends-refl P root.graph;
    same_reactions = λ r. refl;
  }

  pub Grows-trans :
      (root root' root'' : RootAssembler P T R)
      → Grows root root'
      → Grows root' root''
      → Grows root root''
  Grows-trans root root' root'' g h = record {
    same_reactors = h.same_reactors ∙ g.same_reactors;
    same_reactor_id = h.same_reactor_id ∙ g.same_reactor_id;
    same_registry =
        h.same_registry
        ∙ ap
            (λ (d : DebugInfoRegistry). record d {
              trigger_infos = root''.debug_info.trigger_infos;
            })
            g.same_registry;
    later = omega (arith, g.later, h.later);
    extends = Extends-trans P root.graph root'.graph root''.graph g.extends h.extends;
    same_reactions = λ r. h.same_reactions r ∙ g.same_reactions r;
  }

  -- The state after an id was handed out.
  abbrev pub advanced : RootAssembler P T R → RootAssembler P T R
  advanced root = record root {
    cur_trigger = root.cur_trigger + 1;
    debug_info = record root.debug_info { trigger_infos = root.debug_info.trigger_infos + 1 };
  }

  pub next_comp_id_lem :
      (root : RootAssembler P T R)
      → IsSound root
      → root.cur_trigger + 1 < full_mod
      → next_comp_id P T R root ≡ done (root.cur_trigger, advanced root)
  unfolding next_comp_id get_and_incr next record_trigger
  next_comp_id_lem root s fits = ground (arith, s.counted)

  -- Recording a component under the new id keeps the state sound.
  module _ (root : RootAssembler P T R) (s : IsSound root) (ix : GraphIx) (graph : DepGraph P)
      (ports : Store T)
      (nodes : graph.ix_by_id ≡ map_insert root.graph.ix_by_id (trigger root.cur_trigger) ix)
      (ranges : IsSorted graph.multiport_ranges)
      (later_ranges : (id : TriggerId)
        → root.cur_trigger < id
        → get graph.multiport_ranges id ≡ get root.graph.multiport_ranges id) where
    abbrev pub grown : RootAssembler P T R
    grown = record (advanced root) { graph = graph; ports = ports }

    pub grown-IsSound : IsSound grown
    unfolding graph_id_eq
    grown-IsSound = record {
      counted = omega (arith, s.counted);
      started = omega (arith, s.started);
      unused = λ id h.
          ap (λ m. map_get m (trigger id)) nodes
          ∙ map_get-map_insert root.graph.ix_by_id (trigger root.cur_trigger) ix (trigger id)
          ∙ ground (arith, s.unused id);
      ranges_sorted = ranges;
      unranged = λ id h. later_ranges id (omega arith) ∙ s.unranged id (omega arith);
    }

    module _ (extends : Extends P root.graph graph) where
      pub grown-Grows : Grows root grown
      unfolding graph_id_eq
      grown-Grows = record {
        same_reactors = refl;
        same_reactor_id = refl;
        same_registry = refl;
        later = omega arith;
        extends = extends;
        same_reactions = λ r.
            ap (λ m. map_get m (reaction r)) nodes
            ∙ map_get-map_insert root.graph.ix_by_id (trigger root.cur_trigger) ix (reaction r);
      }

  -- The state at the start: ids 0 and 1 are startup and shutdown.
  pub root_default-IsSound : IsSound (root_default P T R)
  unfolding root_default graph_new record_special map_get map_insert graph_id_eq registry_new get
      new find_k
  root_default-IsSound = record {
    counted = refl;
    started = omega arith;
    unused = λ id h. ground arith;
    ranges_sorted = tt;
    unranged = λ id h. refl;
  }

  pub root_default-IsNumbered : IsNumbered 0 (root_default P T R)
  unfolding root_default graph_new record_special map_get map_insert graph_id_eq registry_new
      has_label get new find_k
  root_default-IsNumbered = record {
    numbered = refl;
    bounded = refl;
    unlabelled = λ r h k. refl;
    unknown = λ r h k. refl;
    containers_sorted = tt;
    uncontained = λ r h. refl;
  }
