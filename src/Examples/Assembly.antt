-- ===== src/Examples/Assembly.antt =====
-- Runs of the assembly of src/scheduler/assembly_impl.rs over a small graph.
use reactor_rs.Common.{
  get_elem?, ◌++◌, zero, suc, ℕ, ◌+◌, ◌<◌, ◌==◌, ◌≡◌, refl, true, false, some, none, List, [], ◌∷◌,
  if◌then◌else◌, arith, map,
}
use reactor_rs.Common.Ord.{nat_ord}
use reactor_rs.Ids.{Range, range, iter_range}
use reactor_rs.VecMap.{get}
use reactor_rs.Ports.{Port, input, output, free, port_new, Store}
use reactor_rs.Actions.{new_impl}
use reactor_rs.Graph.{GraphNode, trigger, NodeKind, port, action, timer, map_get, graph_id_eq}
use reactor_rs.Graph.Nodes.{KeepsEdges}
use reactor_rs.Graph.Levels.{has_target}
use reactor_rs.Assembly.{RootAssembler, root_default, done}
use reactor_rs.Assembly.Components.{
  new_port_impl, new_multiport, new_logical_action, new_physical_action, new_timer,
}
use reactor_rs.Assembly.Connections.{bind_ports_iterated}
use reactor_rs.Assembly.Bindings.{Shares, as_bound}
use reactor_rs.Assembly.Multibind.{bind_ports_iterated_lem}
use reactor_rs.Assembly.Sound.{IsSound, Grows, root_default-IsSound, root_default-IsNumbered}
use reactor_rs.Assembly.Creation.{creators_lem, next_port, with_node}
use reactor_rs.Assembly.Channels.{ids, new_multiport_lem}
use reactor_rs.Assembly.Reactors.{AssemblyCtx, new_reactions}
use reactor_rs.Assembly.Reactions.{reaction_id, reaction_ids, IsVacant, Declares}
use reactor_rs.Assembly.Priorities.{AreNodes, HavePriorities, new_reactions-HasPriority}
use reactor_rs.Examples.Graphs.{small}

abbrev Root : Type 0
Root = RootAssembler small ℕ ℕ

abbrev root : Root
root = root_default small ℕ ℕ

get_elem?_before :
    (nodes : List GraphNode) (m : GraphNode) (i : ℕ) (n : GraphNode)
    → get_elem? nodes i ≡ some n
    → get_elem? (nodes ++ (m ∷ [])) i ≡ some n
get_elem?_before [] m i n h = absurd (ground (arith, h))
get_elem?_before (x ∷ nodes) m zero n h = h
get_elem?_before (x ∷ nodes) m (suc i) n h = get_elem?_before nodes m i n h

pub small-KeepsEdges : KeepsEdges small
unfolding has_target
small-KeepsEdges = record {
  edge_added = λ g a b w. ground arith;
  edge_keeps = λ g a b w i j h. ground arith;
  node_keeps = λ g n i j h. h;
  edge_weighs = λ g a b w i n h. h;
  node_weighs = λ g m i n h. get_elem?_before g.0 m i n h;
}

first_id : root.cur_trigger ≡ 2
unfolding root_default
first_id = refl

sound : IsSound small ℕ ℕ root
sound = root_default-IsSound small ℕ ℕ

fits : root.cur_trigger + 1 < 4294967296
fits = omega (arith, first_id)

creators_lem_example :
    (new_port_impl small ℕ ℕ root input
      ≡ done (
        next_port small ℕ ℕ root sound fits input,
        with_node small ℕ ℕ root sound fits port (port_new root.ports root.cur_trigger input).1,
      ))
    × (new_logical_action small ℕ ℕ root none
        ≡ done
            (new_impl root.cur_trigger none, with_node small ℕ ℕ root sound fits action root.ports))
    × (new_physical_action small ℕ ℕ root none
        ≡ done (
          record { action = new_impl root.cur_trigger none; poisoned = false },
          with_node small ℕ ℕ root sound fits action root.ports,
        ))
    × (new_timer small ℕ ℕ root 5 7
        ≡ done (
          record { id = root.cur_trigger; offset = 5; period = 7 },
          with_node small ℕ ℕ root sound fits timer root.ports,
        ))
    × ((k : NodeKind) (ports : Store ℕ)
        → IsSound small ℕ ℕ (with_node small ℕ ℕ root sound fits k ports))
creators_lem_example = creators_lem small ℕ ℕ root sound fits input none 5 7

new_multiport_lem_example :
    (ports : List Port) × (root' : Root) × (r : Range) × (new_multiport small ℕ ℕ root output 3
      ≡ done (record { ports = ports; id = root.cur_trigger }, root'))
    × (ids small ℕ ℕ small-KeepsEdges ports ≡ range (root.cur_trigger + 1) 3)
    × (get root'.graph.multiport_ranges root.cur_trigger ≡ some r)
    × (iter_range r ≡ ids small ℕ ℕ small-KeepsEdges ports)
    × IsSound small ℕ ℕ root'
    × Grows small ℕ ℕ root root'
new_multiport_lem_example =
    new_multiport_lem small ℕ ℕ small-KeepsEdges root output 3 sound (omega arith)
      (omega (arith, first_id))

vacant : IsVacant small ℕ ℕ 0 0 root
vacant = record {
  no_label = λ j h k.
      (root_default-IsNumbered small ℕ ℕ).unlabelled (reaction_id 0 j) (omega arith, k)
        (omega arith);
  no_node = λ j h k.
      (root_default-IsNumbered small ℕ ℕ).unknown (reaction_id 0 j) (omega arith, k) (omega arith);
}

abbrev ctx : AssemblyCtx small ℕ ℕ
ctx = record { globals = root; cur_local = 3; debug = false; children_ids = [] }

new_reactions-HasPriority_example :
    (root' : Root) × (new_reactions small ℕ ℕ ctx 0 2 (true ∷ false ∷ true ∷ [])
      ≡ done (reaction_ids 0 0 3, record ctx { globals = root'; cur_local = 3 + 3 }))
    × Declares small ℕ ℕ 0 root root'
    × AreNodes small ℕ ℕ root'.graph (reaction_ids 0 0 3)
    × HavePriorities small ℕ ℕ root'.graph (reaction_ids 0 0 2)
new_reactions-HasPriority_example =
    new_reactions-HasPriority small ℕ ℕ small-KeepsEdges 0 2 (omega arith) ctx
      (true ∷ false ∷ true ∷ []) vacant (omega arith) (omega arith)

-- Two ports that are set, and three that are bound to them in turn.
abbrev port_of : ℕ → Port
port_of i = record { id = i; kind = input; bind_status = free; slot = i }

abbrev wires : Root
wires = record root {
  graph = record root.graph {
    ix_by_id =
        (trigger 2, 2) ∷ (trigger 3, 3) ∷ (trigger 4, 4) ∷ (trigger 5, 5) ∷ (trigger 6, 6) ∷ [];
  };
  ports = record {
    slot = λ i. i;
    cell = λ i. record { value = if i == 3 then some 8 else none; downstreams = [] };
    fresh = 7;
  };
}

abbrev sources : List Port
sources = port_of 2 ∷ port_of 3 ∷ []

abbrev sinks : List Port
sinks = port_of 4 ∷ port_of 5 ∷ port_of 6 ∷ []

bind_ports_iterated_lem_example :
    (root' : Root) × (bind_ports_iterated small ℕ ℕ wires sources sinks
      ≡ done (map as_bound sinks, root'))
    × Shares wires.ports root'.ports sources 0 sinks
    × ((c : ℕ) → (root'.ports.cell c).value ≡ (wires.ports.cell c).value)
unfolding map_get graph_id_eq
bind_ports_iterated_lem_example =
    bind_ports_iterated_lem small ℕ ℕ sources wires sinks (omega arith) ((2, refl), ((3, refl), tt))
      ((4, refl), ((5, refl), ((6, refl), tt))) ((refl, (refl, tt)), ((refl, tt), (tt, tt)))
      (
        record { status = refl; alone = refl; apart = (refl, (refl, tt)) },
        (
          record { status = refl; alone = refl; apart = (refl, (refl, tt)) },
          (record { status = refl; alone = refl; apart = (refl, (refl, tt)) }, tt),
        ),
      )
