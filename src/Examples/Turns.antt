-- ===== src/Examples/Turns.antt =====
-- A run of the event loop of src/scheduler/scheduler_impl.rs that gets to a pending event.
use reactor_rs.Common.{false, some, [], ◌∷◌}
use reactor_rs.Common.Ord.{nat_ord}
use reactor_rs.Plan.{borrowed}
use reactor_rs.Queue.{EventQueue}
use reactor_rs.Scheduler.{SyncScheduler}
use reactor_rs.Examples.Maps.{low}
use reactor_rs.Examples.Events.{at}
use reactor_rs.Examples.Schedulers.{stopper, waiting}

abbrev soon : EventQueue
soon = record { tag = at 5 1; reactions = some (borrowed low); terminate = false } ∷ []

abbrev near : SyncScheduler stopper
near = record waiting { latest_processed_tag = some (at 5 0); event_queue = soon }
