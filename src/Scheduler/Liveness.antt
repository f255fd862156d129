-- ===== src/Scheduler/Liveness.antt =====
-- The event loop of src/scheduler/scheduler_impl.rs gets to every event that is pending.
use reactor_rs.Common.{ℕ, ◌+◌, ◌*◌, ◌<◌, ◌≡◌, ◌⊎◌, lt, none, some, List, ◌++◌, All}
use reactor_rs.Common.Ord.{nat_ord}
use reactor_rs.Ids.{full_mod}
use reactor_rs.Tag.{EventTag, tag_cmp}
use reactor_rs.Scheduler.{Behavior, Run, done, panicked, out_of_fuel, SyncScheduler}
use reactor_rs.Scheduler.EventLoop.{LoopState, running, finished, Turn, loop_turns}
use reactor_rs.Scheduler.Waves.{IsOrderly}

-- How many tags there are before a tag.
abbrev pub rank : EventTag → ℕ
rank t = t.offset_from_t0 * full_mod + t.microstep

-- A turn that no event interrupts, and whose new events are for later than a tag.
abbrev pub IsQuiet : EventTag → Turn → Type 0
IsQuiet u turn =
    All (λ evt. (tag_cmp u evt.tag ≡ lt) × (evt.tag.microstep < full_mod)) turn.flushed
    × (turn.received ≡ none)

module _ (B : Behavior) (orderly : IsOrderly B) where
  -- The tag is processed, or the loop has ended at an earlier one.
  abbrev pub IsServed : EventTag → Run (LoopState (SyncScheduler B)) → Type 0
  IsServed u out_of_fuel = ⊥
  IsServed u panicked = Unit
  IsServed u (done (running s)) = s.latest_processed_tag ≡ some u
  IsServed u (done (finished s)) =
      (t : EventTag) × (s.latest_processed_tag ≡ some t)
      × (s.shutdown_time ≡ some t)
      × ((u ≡ t) ⊎ (tag_cmp t u ≡ lt))

  -- After some of the turns it is.
  abbrev pub Reaches : SyncScheduler B → List Turn → EventTag → Type 0
  Reaches sched turns u =
      (first : List Turn) × (rest : List Turn) × (turns ≡ first ++ rest)
      × IsServed u (loop_turns B sched first)
