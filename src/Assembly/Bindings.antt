-- ===== src/Assembly/Bindings.antt =====
-- What `bind_ports_iterated` of src/scheduler/assembly_impl.rs does to what ports read.
use reactor_rs.Common.{
  ℕ, ◌+◌, ◌%◌, ◌==◌, ◌≡◌, refl, false, some, List, [], ◌∷◌, if◌then◌else◌, length, get_elem?, All,
  arith,
}
use reactor_rs.Ports.{Port, Store, bound, free, has_downstream, forward_to, port_get}
use reactor_rs.Ports.Binding.{old_downstreams, holds_slot, forward_to_binds}
use reactor_rs.Graph.{DiGraph, GraphIx, trigger, map_get, connect, default, port_bind}
use reactor_rs.Assembly.{done, RootAssembler}
use reactor_rs.Assembly.Connections.{bind_ports}

abbrev pub as_bound : Port → Port
as_bound p = record p { bind_status = bound }

-- Ports with slots of their own.
abbrev pub AreDistinct : List Port → Type 0
AreDistinct [] = Unit
AreDistinct (p ∷ ps) = All (λ q. (q.slot == p.slot) ≡ false) ps × AreDistinct ps

module _ {T : Type 0} where
  -- A port that can be bound to any of some: it is not bound, has no downstream port, and does not
  -- share its cell with one of them.
  pub record IsUnbound (h : Store T) (ups : List Port) (down : Port) : Type 0 where
    pub status : down.bind_status ≡ free
    pub alone : (h.cell (h.slot down.slot)).downstreams ≡ []
    pub apart : All (λ up. (h.slot down.slot == h.slot up.slot) ≡ false) ups

  -- From round `i` on, each port shares the cell of its upstream port and reads what that held.
  abbrev pub Shares : (h h' : Store T) (ups : List Port) (i : ℕ) → List Port → Type 0
  Shares h h' ups i [] = Unit
  Shares h h' ups i (down ∷ downs) =
      ((up : Port) × (get_elem? ups (i % length ups) ≡ some up)
        × (h'.slot down.slot ≡ h'.slot up.slot)
        × (port_get h' down ≡ port_get h up))
      × Shares h h' ups (i + 1) downs

  -- What one binding leaves: slots but the downstream's, all values, and the other cells.
  pub record Bound (h h' : Store T) (up down : Port) : Type 0 where
    pub slots : (s : ℕ) → h'.slot s ≡ (if s == down.slot then h.slot up.slot else h.slot s)
    pub values : (c : ℕ) → (h'.cell c).value ≡ (h.cell c).value
    pub others :
        (c : ℕ) → (c == h.slot up.slot) ≡ false → (h'.cell c).downstreams ≡ (h.cell c).downstreams

  module _ (h : Store T) (up down : Port) (status : down.bind_status ≡ free)
      (alone : (h.cell (h.slot down.slot)).downstreams ≡ [])
      (apart : (h.slot down.slot == h.slot up.slot) ≡ false) where
    no_downstreams : old_downstreams h up down ≡ []
    no_downstreams = ground (arith, apart, alone)

    acyclic : has_downstream (old_downstreams h up down) up.id ≡ false
    unfolding has_downstream
    acyclic = rw no_downstreams refl

    other_cells :
        (c : ℕ)
        → (c == h.slot up.slot) ≡ false
        → ((forward_to h up down).2.cell c).downstreams ≡ (h.cell c).downstreams
    unfolding forward_to
    other_cells c e = ground (arith, e, status, acyclic)

    forward_to-Bound : Bound h (forward_to h up down).2 up down
    unfolding holds_slot
    forward_to-Bound = record {
      slots = λ s. ground (arith, no_downstreams, (forward_to_binds h up down status acyclic).2 s);
      values = (forward_to_binds h up down status acyclic).3;
      others = other_cells;
    }

module _ (P : DiGraph) (T R : Type 0) where
  -- The port is a node of the dependency graph.
  abbrev pub IsRecorded : RootAssembler P T R → Port → Type 0
  IsRecorded root port = (ix : GraphIx) × (map_get root.graph.ix_by_id (trigger port.id) ≡ some ix)

  -- One binding succeeds and keeps the nodes.
  pub record Binds (root root' : RootAssembler P T R) (up down : Port) : Type 0 where
    pub result : bind_ports P T R root up down ≡ done (as_bound down, root')
    pub changes : Bound root.ports root'.ports up down
    pub nodes : root'.graph.ix_by_id ≡ root.graph.ix_by_id

  module _ (root : RootAssembler P T R) (up down : Port) (status : down.bind_status ≡ free)
      (alone : (root.ports.cell (root.ports.slot down.slot)).downstreams ≡ [])
      (apart : (root.ports.slot down.slot == root.ports.slot up.slot) ≡ false) (i j : GraphIx)
      (up_ix : map_get root.graph.ix_by_id (trigger up.id) ≡ some i)
      (down_ix : map_get root.graph.ix_by_id (trigger down.id) ≡ some j) where
    abbrev pub bound_root : RootAssembler P T R
    bound_root = record root {
      ports = (forward_to root.ports up down).2;
      graph = record root.graph { dataflow = P.add_edge root.graph.dataflow i j default };
    }

    pub bind_ports_Binds : Binds root bound_root up down
    unfolding bind_ports port_bind connect
    bind_ports_Binds =
        let binds =
          forward_to_binds root.ports up down status
            (acyclic root.ports up down status alone apart) in
        record {
          result = ground (arith, binds.0, binds.1, up_ix, down_ix);
          changes = forward_to-Bound root.ports up down status alone apart;
          nodes = refl;
        }
