-- ===== src/Assembly/Creation.antt =====
-- What the component creators of src/scheduler/assembly_impl.rs do to the shared state: each takes
-- the next id, and the channels of a multiport get the ids that the graph keeps for it.
use reactor_rs.Common.{◌+◌, ◌<◌, ◌≡◌, refl, ◌∙◌, false, some, Option, arith}
use reactor_rs.Common.Ord.{nat_ord}
use reactor_rs.Ids.{TriggerId, full_mod}
use reactor_rs.Tag.{Duration}
use reactor_rs.Actions.{new_impl}
use reactor_rs.Ports.{Port, PortKind, Store, port_new, free}
use reactor_rs.Graph.{
  DiGraph, DepGraph, GraphIx, NodeKind, default, trigger, map_get, graph_id_eq, port, action, timer,
  record_port, record_laction, record_paction, record_timer, record_port_bank_component,
}
use reactor_rs.Graph.Nodes.{
  KeepsEdges, Extends, Extends-trans, node_added-Extends, edge_added-Extends, map_get-map_insert,
  added_ix, node_added, record_node_new, connect_known,
}
use reactor_rs.Assembly.{done, RootAssembler}
use reactor_rs.Assembly.Components.{
  new_port_impl, new_port_bank_component, new_logical_action, new_physical_action, new_timer,
}
use reactor_rs.Assembly.Sound.{
  IsSound, Grows, advanced, next_comp_id_lem, grown-IsSound, grown-Grows,
}

module _ (P : DiGraph) (T R : Type 0) where
  -- What the creation of channels keeps.
  pub record Created (root root' : RootAssembler P T R) : Type 0 where
    pub sound : IsSound P T R root'
    pub grows : Grows P T R root root'
    pub ranges : root'.graph.multiport_ranges ≡ root.graph.multiport_ranges

  module _ (root : RootAssembler P T R) (s : IsSound P T R root)
      (fits : root.cur_trigger + 1 < full_mod) where
    abbrev pub with_node : NodeKind → Store T → RootAssembler P T R
    with_node kind ports = record (advanced P T R root) {
      graph = node_added P root.graph (trigger root.cur_trigger) kind;
      ports = ports;
    }

    with_node-IsSound : (kind : NodeKind) (ports : Store T) → IsSound P T R (with_node kind ports)
    with_node-IsSound kind ports =
        grown-IsSound P T R root s _ (node_added P root.graph (trigger root.cur_trigger) kind) ports
          refl s.ranges_sorted (λ id h. refl)

    -- Nodes and edges stay.
    pub with_node-Grows :
        (kind : NodeKind) (ports : Store T) → KeepsEdges P → Grows P T R root (with_node kind ports)
    with_node-Grows kind ports laws =
        grown-Grows P T R root s _ (node_added P root.graph (trigger root.cur_trigger) kind) ports
          refl s.ranges_sorted (λ id h. refl)
          (node_added-Extends P root.graph (trigger root.cur_trigger) kind laws
            (s.unused root.cur_trigger (omega arith)))

    abbrev pub next_port : PortKind → Port
    next_port kind = record {
      id = root.cur_trigger;
      kind = kind;
      bind_status = free;
      slot = root.ports.fresh;
    }

    -- If ids are left, the creator of a port, of an action and of a timer takes the next id for it,
    -- makes it a node of its kind and counts it in the debug info; nothing else changes, and ids
    -- that are left still stand for nothing.
    pub creators_lem :
        (kind : PortKind) (min_delay : Option Duration) (offset period : Duration)
        → (new_port_impl P T R root kind
            ≡ done (next_port kind, with_node port (port_new root.ports root.cur_trigger kind).1))
          × (new_logical_action P T R root min_delay
              ≡ done (new_impl root.cur_trigger min_delay, with_node action root.ports))
          × (new_physical_action P T R root min_delay
              ≡ done (
                record { action = new_impl root.cur_trigger min_delay; poisoned = false },
                with_node action root.ports,
              ))
          × (new_timer P T R root offset period
              ≡ done (
                record { id = root.cur_trigger; offset = offset; period = period },
                with_node timer root.ports,
              ))
          × ((k : NodeKind) (ports : Store T) → IsSound P T R (with_node k ports))
    unfolding new_port_impl record_port port_new new_logical_action record_laction
        new_physical_action record_paction new_timer record_timer new_impl
    creators_lem kind min_delay offset period =
        let next = next_comp_id_lem P T R root s fits in
        let new = s.unused root.cur_trigger (omega arith) in
        let recorded =
          λ (k : NodeKind). record_node_new P root.graph (trigger root.cur_trigger) k new in
        (
          ground (arith, next, recorded port),
          ground (arith, next, recorded action),
          ground (arith, next, recorded action),
          ground (arith, next, recorded timer),
          with_node-IsSound,
        )

    -- A channel becomes a node that its multiport leads to.
    module _ (laws : KeepsEdges P) (kind : PortKind) (bank_id : TriggerId) (i : GraphIx)
        (bank : map_get root.graph.ix_by_id (trigger bank_id) ≡ some i) where
      abbrev pub channel_graph : DepGraph P
      channel_graph =
          let noded = node_added P root.graph (trigger root.cur_trigger) port in
          record noded {
            dataflow =
                P.add_edge noded.dataflow i (added_ix P root.graph (trigger root.cur_trigger) port)
                  default;
          }

      abbrev pub channel_root : RootAssembler P T R
      channel_root = record (advanced P T R root) {
        graph = channel_graph;
        ports = (port_new root.ports root.cur_trigger kind).1;
      }

      pub bank_kept :
          map_get
            (node_added P root.graph (trigger root.cur_trigger) port).ix_by_id
            (trigger bank_id)
          ≡ some i
      unfolding graph_id_eq
      bank_kept =
          let new = s.unused root.cur_trigger (omega arith) in
          map_get-map_insert root.graph.ix_by_id (trigger root.cur_trigger) _ (trigger bank_id)
          ∙ ground (arith, bank, new)

      self_node :
          map_get
            (node_added P root.graph (trigger root.cur_trigger) port).ix_by_id
            (trigger root.cur_trigger)
          ≡ some (added_ix P root.graph (trigger root.cur_trigger) port)
      unfolding graph_id_eq
      self_node =
          map_get-map_insert root.graph.ix_by_id (trigger root.cur_trigger) _
            (trigger root.cur_trigger)
          ∙ ground arith

      channel-Extends : Extends P root.graph channel_graph
      channel-Extends =
          let id = trigger root.cur_trigger in
          Extends-trans P root.graph (node_added P root.graph id port) channel_graph
            (node_added-Extends P root.graph id port laws (s.unused root.cur_trigger (omega arith)))
            (edge_added-Extends P (node_added P root.graph id port) i
              (added_ix P root.graph id port) default laws)

      pub new_port_bank_component_lem :
          (new_port_bank_component P T R root kind bank_id ≡ done (next_port kind, channel_root))
          × Created root channel_root
      unfolding new_port_bank_component record_port_bank_component record_port port_new
      new_port_bank_component_lem = (
        ground (
          arith,
          next_comp_id_lem P T R root s fits,
          record_node_new P root.graph (trigger root.cur_trigger) port
              (s.unused root.cur_trigger (omega arith)),
          connect_known P (node_added P root.graph (trigger root.cur_trigger) port)
              (trigger bank_id) (trigger root.cur_trigger) default i
              (added_ix P root.graph (trigger root.cur_trigger) port) bank_kept self_node,
        ),
        record {
          sound =
              grown-IsSound P T R root s _ channel_graph
                (port_new root.ports root.cur_trigger kind).1 refl s.ranges_sorted (λ id h. refl);
          grows =
              grown-Grows P T R root s _ channel_graph (port_new root.ports root.cur_trigger kind).1
                refl s.ranges_sorted (λ id h. refl) channel-Extends;
          ranges = refl;
        },
      )
