-- ===== src/Assembly/Components.antt =====
-- `ComponentCreator` of src/scheduler/assembly_impl.rs: it takes the next trigger id for each
-- component, and records the component in the dependency graph. Names are left out.
use reactor_rs.Common.{ℕ, zero, suc, Option, none, some, List, [], ◌∷◌, false}
use reactor_rs.Ids.{TriggerId, get_and_incr}
use reactor_rs.Tag.{Duration}
use reactor_rs.Actions.{Action, PhysicalActionRef, new_impl}
use reactor_rs.Timers.{Timer}
use reactor_rs.Ports.{Port, PortKind, Multiport, port_new}
use reactor_rs.Graph.{
  DiGraph, record_port, record_port_bank, record_port_bank_component, record_laction,
  record_paction, record_timer,
}
use reactor_rs.Debug.{record_trigger}
use reactor_rs.Assembly.{AssemblyResult, done, failed, id_overflow, ◌>>=◌, or_panic, RootAssembler}

module _ (P : DiGraph) (T R : Type 0) where
  abbrev pub Created : Type 0 → Type 0
  Created C = AssemblyResult (C × RootAssembler P T R)

  -- Running out of ids is a panic.
  unfoldable pub next_comp_id : RootAssembler P T R → Created TriggerId
  next_comp_id root = do
    (id, cur_trigger) ← or_panic (get_and_incr root.cur_trigger)
    debug_info ← or_panic (record_trigger root.debug_info id)
    done (id, record root { cur_trigger = cur_trigger; debug_info = debug_info })

  unfoldable pub new_port_impl : RootAssembler P T R → PortKind → Created Port
  new_port_impl root kind = do
    (id, root') ← next_comp_id root
    graph ← or_panic (record_port P root'.graph id)
    let (port, ports) = port_new root'.ports id kind
    done (port, record root' { graph = graph; ports = ports })

  unfoldable pub new_port_bank_component : RootAssembler P T R → PortKind → TriggerId → Created Port
  new_port_bank_component root kind bank_id = do
    (channel_id, root') ← next_comp_id root
    graph ← or_panic (record_port_bank_component P root'.graph bank_id channel_id)
    let (port, ports) = port_new root'.ports channel_id kind
    done (port, record root' { graph = graph; ports = ports })

  -- The channels, one after the other.
  unfoldable pub new_channels : RootAssembler P T R → PortKind → TriggerId → ℕ → Created (List Port)
  new_channels root kind bank_id zero = done ([], root)
  new_channels root kind bank_id (suc len) = do
    (port, root') ← new_port_bank_component root kind bank_id
    (ports, root'') ← new_channels root' kind bank_id len
    done (port ∷ ports, root'')

  unfoldable pub new_multiport : RootAssembler P T R → PortKind → ℕ → Created Multiport
  new_multiport root kind len = do
    (bank_id, root') ← next_comp_id root
    recorded ← or_panic (record_port_bank P root'.graph bank_id len)
    graph ← elim recorded [ some graph ↦ done graph | none ↦ failed id_overflow ]
    (ports, root'') ← new_channels (record root' { graph = graph }) kind bank_id len
    done (record { ports = ports; id = bank_id }, root'')

  unfoldable pub new_logical_action : RootAssembler P T R → Option Duration → Created (Action T)
  unfolding new_impl
  new_logical_action root min_delay = do
    (id, root') ← next_comp_id root
    graph ← or_panic (record_laction P root'.graph id)
    done (new_impl id min_delay, record root' { graph = graph })

  unfoldable pub new_physical_action :
      RootAssembler P T R → Option Duration → Created (PhysicalActionRef T)
  unfolding new_impl
  new_physical_action root min_delay = do
    (id, root') ← next_comp_id root
    graph ← or_panic (record_paction P root'.graph id)
    let action = new_impl id min_delay
    done (record { action = action; poisoned = false }, record root' { graph = graph })

  unfoldable pub new_timer : RootAssembler P T R → (offset period : Duration) → Created Timer
  new_timer root offset period = do
    (id, root') ← next_comp_id root
    graph ← or_panic (record_timer P root'.graph id)
    done (record { id = id; offset = offset; period = period }, record root' { graph = graph })
