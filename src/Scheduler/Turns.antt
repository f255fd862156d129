-- ===== src/Scheduler/Turns.antt =====
-- A turn of the event loop of src/scheduler/scheduler_impl.rs: the tags that are processed ascend.
use reactor_rs.Common.{◌≡◌, ◌⊎◌}
use reactor_rs.Common.Ord.{nat_ord}
use reactor_rs.Tag.{EventTag}
use reactor_rs.Queue.{EventQueue}
use reactor_rs.Scheduler.{Behavior, Run, done, panicked, SyncScheduler}
use reactor_rs.Scheduler.Waves.{IsOrderly}
use reactor_rs.Scheduler.Tags.{IsPending, Keeps}

module _ (B : Behavior) (orderly : IsOrderly B) where
  -- The events that were flushed, or a panic.
  abbrev IsFlushed : SyncScheduler B → EventTag → Run (SyncScheduler B) → Type 0
  IsFlushed sched l r =
      ((queue : EventQueue) × (r ≡ done (record sched { event_queue = queue }))
        × IsPending l queue
        × Keeps sched.event_queue queue)
      ⊎ (r ≡ panicked)
