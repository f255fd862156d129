-- ===== src/Assembly/Connections.antt =====
-- `DependencyDeclarator` of src/scheduler/assembly_impl.rs: dependencies between components and
-- reactions, and the binding of ports. A binding returns the downstream ports, which it changes.
use reactor_rs.Common.{ℕ, ◌+◌, ◌%◌, List, [], ◌∷◌, length, get_elem?}
use reactor_rs.Ids.{TriggerId, GlobalReactionId}
use reactor_rs.Timers.{Timer}
use reactor_rs.Ports.{Port, Multiport, Outcome, bind_ok, bind_err, forward_to}
use reactor_rs.Graph.{DiGraph, port_bind, triggers_reaction, reaction_uses, reaction_effects}
use reactor_rs.Assembly.{
  AssemblyResult, done, failed, panicked, bind_error, ◌>>=◌, or_panic, RootAssembler,
}

-- A binding that fails is the error of the declaration.
abbrev pub checked : Outcome → AssemblyResult (Unit {0})
checked bind_ok = done tt
checked (bind_err e) = failed (bind_error e)

module _ (P : DiGraph) (T R : Type 0) where
  unfoldable pub declare_triggers :
      RootAssembler P T R → TriggerId → GlobalReactionId → AssemblyResult (RootAssembler P T R)
  declare_triggers root trigger reaction = do
    graph ← or_panic (triggers_reaction P root.graph trigger reaction)
    done (record root { graph = graph })

  unfoldable pub effects_instantaneous :
      RootAssembler P T R → GlobalReactionId → TriggerId → AssemblyResult (RootAssembler P T R)
  effects_instantaneous root reaction trigger = do
    graph ← or_panic (reaction_effects P root.graph reaction trigger)
    done (record root { graph = graph })

  unfoldable pub effects_port :
      RootAssembler P T R → GlobalReactionId → Port → AssemblyResult (RootAssembler P T R)
  effects_port root reaction port = effects_instantaneous root reaction port.id

  unfoldable pub effects_multiport :
      RootAssembler P T R → GlobalReactionId → Multiport → AssemblyResult (RootAssembler P T R)
  effects_multiport root reaction port = effects_instantaneous root reaction port.id

  unfoldable pub effects_timer :
      RootAssembler P T R → GlobalReactionId → Timer → AssemblyResult (RootAssembler P T R)
  effects_timer root reaction timer = effects_instantaneous root reaction timer.id

  unfoldable pub declare_uses :
      RootAssembler P T R → GlobalReactionId → TriggerId → AssemblyResult (RootAssembler P T R)
  declare_uses root reaction trigger = do
    graph ← or_panic (reaction_uses P root.graph reaction trigger)
    done (record root { graph = graph })

  unfoldable pub bind_ports :
      RootAssembler P T R → Port → Port → AssemblyResult (Port × RootAssembler P T R)
  bind_ports root upstream downstream = do
    let (outcome, bound, ports) = forward_to root.ports upstream downstream
    _ ← checked outcome
    graph ← or_panic (port_bind P root.graph upstream.id downstream.id)
    done (bound, record root { ports = ports; graph = graph })

  -- As far as both sides go.
  unfoldable pub bind_ports_zip :
      RootAssembler P T R → List Port → List Port → AssemblyResult (List Port × RootAssembler P T R)
  bind_ports_zip root [] downs = done (downs, root)
  bind_ports_zip root (up ∷ ups) [] = done ([], root)
  bind_ports_zip root (up ∷ ups) (down ∷ downs) = do
    (bound, root') ← bind_ports root up down
    (rest, root'') ← bind_ports_zip root' ups downs
    done (bound ∷ rest, root'')

  -- The loop from round `i` on; the remainder by zero and an index out of bounds are panics.
  unfoldable pub bind_from :
      RootAssembler P T R
      → (upstream : List Port) → (i : ℕ) → List Port
      → AssemblyResult (List Port × RootAssembler P T R)
  bind_from root upstream i [] = done ([], root)
  bind_from root upstream i (down ∷ downs) = do
    up ← or_panic (get_elem? upstream (i % length upstream))
    (bound, root') ← bind_ports root up down
    (rest, root'') ← bind_from root' upstream (i + 1) downs
    done (bound ∷ rest, root'')

  -- The `assert!` comes first.
  unfoldable pub bind_ports_iterated :
      RootAssembler P T R
      → (upstream downstream : List Port) → AssemblyResult (List Port × RootAssembler P T R)
  bind_ports_iterated root [] downstream = panicked
  bind_ports_iterated root (up ∷ ups) downstream = bind_from root (up ∷ ups) 0 downstream
