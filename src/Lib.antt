-- ===== src/Lib.antt =====
-- The runtime of reactor programs (src/), as definitions that run and theorems about them.
--
-- A program is assembled into a dependency graph of ports, actions, timers and reactions, from
-- which each reaction gets a level. The scheduler keeps a queue of events by tag, a time and a
-- microstep. It takes the earliest event, waits for its time, and runs a wave: the reactions
-- planned for the tag, level by level, which may add reactions at later levels, set ports and
-- schedule events for later tags. Then values of that tag are cleaned up. Threads send events
-- asynchronously over a channel.
--
-- Which file models which part:
--
--   - Common: helpers that are shared. Common.Ord is the order of keys, a parameter of the map.
--   - VecMap: the sorted map of src/util/vecmap.rs; find_k_loop is the loop of find_k, scan_after
--     that of next_mapping and probe_from that of entry_from_ref.
--   - Ids: src/ids.rs and the ids of src/triggers.rs; Ids.Print is the text form of an id.
--   - Level and Plan: Level and ExecutableReactions of src/scheduler/dependencies.rs; absorb_loop
--     is the loop of absorb_after.
--   - Graph: DepGraph of the same file, with its numbering by level in Graph.Numbering, and the
--     plans of triggers, with ReactionLevelInfo, in Graph.Plans.
--   - Tag and Queue: src/scheduler/events.rs and src/time.rs.
--   - Actions, Timers and Ports: src/actions.rs, src/timers.rs and src/ports.rs.
--   - Context: src/scheduler/context.rs.
--   - Scheduler: src/scheduler/scheduler_impl.rs; in Scheduler.EventLoop loop_turn is one turn of
--     launch_event_loop, loop_turns its loop, and start and stop are startup and shutdown;
--     wave_loop is the loop of process_tag; Scheduler.Parallel is the module parallel_rt_impl.
--   - Debug: the ids in DebugInfoRegistry of src/scheduler/debug.rs.
--   - Assembly: src/scheduler/assembly_impl.rs; Assembly.Components is ComponentCreator,
--     Assembly.Connections DependencyDeclarator, Assembly.Reactors AssemblyCtx and Assembly.Banks
--     the iterators of the macro unsafe_iter_bank, of which iter_from is the loop;
--     Assembly.Programs is the code generated for a program, of reactors around their children;
--     new_channels, bind_from, declare_reactions and assemble_bank are loops of new_multiport,
--     bind_ports_iterated, new_reactions and with_child_bank.
--   - Durations: src/util/mod.rs.
--   - Examples: tests, and applications of the theorems.
--
-- Numbers are natural numbers with the wrap-around of u32 written out where the code adds;
-- durations and instants are unbounded nanoseconds. A none of an operation is a panic, debug
-- assertions included, unless its comment says otherwise. A Vec is a list, a HashMap a list or a
-- function of its keys, and the Rc cells of ports are a store of slots and cells.
--
-- Fuel: the loop of find_k has one round more than there are entries, and each round shrinks the
-- range. absorb_after visits another source level in each round. The interleaved iterator of a
-- bank is given one round more than the bank has ports. A wave is given one round more than u32
-- has values, since its levels ascend. Collecting a plan is given one round more than there are
-- nodes, and a path through ports that have no cycle is shorter; other loops are recursive on
-- what they go through.
--
-- Parameters: petgraph's graph and its topological sort, with what its documentation says of
-- them; the reactors (ReactorBehavior of src/lib.rs), which act on a context through its
-- operations only; the generated code that assembles a reactor (ReactorInitializer of
-- src/assembly.rs); which characters Unicode counts as numeric and as white space; the readings
-- of the clock and the arrivals of the channel, as inputs of a turn of the event loop.
--
-- Not modelled: formatting of debug output, and names, the thread pool of the feature
-- parallel-runtime, of which any way to split a batch is covered, the macros after!, tag! and
-- assert_tag_is!.
pub mod Common
pub mod VecMap
pub mod Ids
pub mod Level
pub mod Plan
pub mod Tag
pub mod Queue
pub mod Actions
pub mod Timers
pub mod Ports
pub mod Graph
pub mod Context
pub mod Scheduler
pub mod Debug
pub mod Assembly
pub mod Durations
pub mod Examples
