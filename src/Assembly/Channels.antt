-- ===== src/Assembly/Channels.antt =====
-- `new_multiport` of src/scheduler/assembly_impl.rs and the ids of its channels.
use reactor_rs.Common.{
  ℕ, zero, suc, ◌+◌, ◌<◌, ◌≡◌, refl, sym, ap, ◌∙◌, some, Option, List, [], ◌∷◌, map, arith,
}
use reactor_rs.Common.Ord.{nat_ord}
use reactor_rs.Ids.{TriggerId, Range, range, iter_range, iter_next_range, next_range, full_mod}
use reactor_rs.Ids.Laws.{next_range-iter_next_range}
use reactor_rs.VecMap.{get, insert}
use reactor_rs.VecMap.Laws.{insert_refines, update}
use reactor_rs.Ports.{Port, PortKind}
use reactor_rs.Graph.{
  DiGraph, GraphIx, trigger, map_get, graph_id_eq, multiport_upstream, record_port_bank,
  contain_channels,
}
use reactor_rs.Graph.Nodes.{
  KeepsEdges, Extends, node_added-Extends, map_get-map_insert, added_ix, node_added,
  record_node_new,
}
use reactor_rs.Assembly.{done, RootAssembler}
use reactor_rs.Assembly.Components.{new_channels, new_multiport}
use reactor_rs.Assembly.Sound.{
  IsSound, Grows, Grows-refl, Grows-trans, advanced, next_comp_id_lem, grown-IsSound, grown-Grows,
}
use reactor_rs.Assembly.Creation.{
  Created, bank_kept, next_port, new_port_bank_component_lem, channel_root,
}

module _ (P : DiGraph) (T R : Type 0) (laws : KeepsEdges P) where
  abbrev pub ids : List Port → List TriggerId
  ids ports = map (λ (p : Port). p.id) ports

  new_channels_lem :
      (root : RootAssembler P T R) (kind : PortKind) (bank_id : TriggerId) (i : GraphIx) (len : ℕ)
      → IsSound P T R root
      → root.cur_trigger + len < full_mod
      → map_get root.graph.ix_by_id (trigger bank_id) ≡ some i
      → (ports : List Port) × (root' : RootAssembler P T R) × (new_channels P T R root kind bank_id
            len
          ≡ done (ports, root'))
        × (ids ports ≡ range root.cur_trigger len)
        × Created P T R root root'
  unfolding new_channels
  new_channels_lem root kind bank_id i zero s fits bank =
      ([], root, refl, refl, record { sound = s; grows = Grows-refl P T R root; ranges = refl })
  new_channels_lem root kind bank_id i (suc len) s fits bank =
      let one_fits : root.cur_trigger + 1 < full_mod = omega arith in
      let after = channel_root P T R root s one_fits laws kind bank_id i bank in
      let (made, created) =
        new_port_bank_component_lem P T R root s one_fits laws kind bank_id i bank in
      let still : map_get after.graph.ix_by_id (trigger bank_id) ≡ some i =
        bank_kept P T R root s one_fits laws kind bank_id i bank in
      let (ports, root', rest, same_ids, channels) =
        new_channels_lem after kind bank_id i len created.sound (omega arith) still in
      (
        next_port P T R root s one_fits kind ∷ ports,
        root',
        ground (arith, made, rest),
        ap (λ l. root.cur_trigger ∷ l) same_ids,
        record {
          sound = channels.sound;
          grows = Grows-trans P T R root after root' created.grows channels.grows;
          ranges = channels.ranges;
        },
      )

  module _ (root : RootAssembler P T R) (kind : PortKind) (len : ℕ) (s : IsSound P T R root)
      (some_channel : 0 < len) (fits : root.cur_trigger + 1 + len < full_mod) where
    -- The state once the multiport is recorded, with the range of its channels.
    abbrev banked : Range → RootAssembler P T R
    banked r =
        let noded = node_added P root.graph (trigger root.cur_trigger) multiport_upstream in
        record (advanced P T R root) {
          graph = record noded {
            multiport_containment =
                contain_channels P noded.multiport_containment (range (root.cur_trigger + 1) len)
                  root.cur_trigger;
            multiport_ranges = (insert noded.multiport_ranges root.cur_trigger r).0;
          };
        }

    record_port_bank_new :
        (r : Range)
        → iter_next_range root.cur_trigger len ≡ some (range (root.cur_trigger + 1) len)
        → next_range root.cur_trigger len ≡ some r
        → record_port_bank P root.graph root.cur_trigger len ≡ some (some (banked r).graph)
    unfolding record_port_bank
    record_port_bank_new r channels kept = ground (
      arith,
      channels,
      kept,
      record_node_new P root.graph (trigger root.cur_trigger) multiport_upstream
          (s.unused root.cur_trigger (omega arith)),
    )

    bank_node :
        (r : Range)
        → map_get (banked r).graph.ix_by_id (trigger root.cur_trigger)
          ≡ some (added_ix P root.graph (trigger root.cur_trigger) multiport_upstream)
    unfolding graph_id_eq
    bank_node r =
        map_get-map_insert root.graph.ix_by_id (trigger root.cur_trigger) _
          (trigger root.cur_trigger)
        ∙ ground arith

    banked-Extends :
        (r : Range)
        → get (insert root.graph.multiport_ranges root.cur_trigger r).0
          ≡ update (get root.graph.multiport_ranges) root.cur_trigger (some r)
        → Extends P root.graph (banked r).graph
    banked-Extends r reads =
        let node =
          node_added-Extends P root.graph (trigger root.cur_trigger) multiport_upstream laws
            (s.unused root.cur_trigger (omega arith)) in
        record {
          nodes = node.nodes;
          edges = node.edges;
          weights = node.weights;
          ranges = λ id q h.
              ap (λ (f : TriggerId → Option Range). f id) reads ∙ ground (arith, h, s.unranged id);
        }

    -- If ids are left for it, a multiport with channels gets the next id, and its channels the ids
    -- after it, one each; the range that the graph keeps for the multiport holds exactly the ids of
    -- its channels. What concerns reactors is left alone, and ids that are left still stand for
    -- nothing.
    pub new_multiport_lem :
        (ports : List Port) × (root' : RootAssembler P T R) × (r : Range) × (new_multiport P T R
            root kind len
          ≡ done (record { ports = ports; id = root.cur_trigger }, root'))
        × (ids ports ≡ range (root.cur_trigger + 1) len)
        × (get root'.graph.multiport_ranges root.cur_trigger ≡ some r)
        × (iter_range r ≡ ids ports)
        × IsSound P T R root'
        × Grows P T R root root'
    unfolding new_multiport
    new_multiport_lem =
        let (channels, r, kept, holds) =
          next_range-iter_next_range root.cur_trigger len (omega arith)
            (omega (arith, s.started)) in
        let (sorted, old, reads) =
          insert_refines root.graph.multiport_ranges root.cur_trigger r s.ranges_sorted in
        let graph = (banked r).graph in
        let later : (id : TriggerId)
            → root.cur_trigger < id
            → get graph.multiport_ranges id ≡ get root.graph.multiport_ranges id =
          λ id h. ap (λ (f : TriggerId → Option Range). f id) reads ∙ ground (arith, h) in
        let sound = grown-IsSound P T R root s _ graph root.ports refl sorted later in
        let (ports, root', made, same_ids, created) =
          new_channels_lem (banked r) kind root.cur_trigger _ len sound (omega arith)
            (bank_node r) in
        (
          ports,
          root',
          r,
          ground (
            arith,
            next_comp_id_lem P T R root s (omega arith),
            record_port_bank_new r channels kept,
            made,
          ),
          same_ids,
          ap (λ m. get m root.cur_trigger) created.ranges
              ∙ ap (λ (f : TriggerId → Option Range). f root.cur_trigger) reads
              ∙ ground arith,
          holds ∙ sym same_ids,
          created.sound,
          Grows-trans P T R root (banked r) root'
              (grown-Grows P T R root s _ graph root.ports refl sorted later
                (banked-Extends r reads))
              created.grows,
        )
