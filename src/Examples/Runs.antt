-- ===== src/Examples/Runs.antt =====
-- Runs of a turn of the event loop of src/scheduler/scheduler_impl.rs.
use reactor_rs.Common.{◌≡◌, refl, Option, none, some, []}
use reactor_rs.Tag.{EventTag, to_logical_time, successor, to_duration}
use reactor_rs.VecMap.{next_mapping, min_entry}
use reactor_rs.Plan
use reactor_rs.Queue
use reactor_rs.Plan.{next_level, max_level, first_batch, next_batch, merge_plans_after, merge_both}
use reactor_rs.Queue.{
  make_executable, reactions_triggered_by, push, push_at, search_tag, take_earliest, terminate_at,
  physical_trigger,
}
use reactor_rs.Context.{ctx_new, request_stop, push_future, make_successor_tag}
use reactor_rs.Scheduler.{
  Run, done, panicked, SyncScheduler, process_tag, run_tag, wave_loop, wave_step, run_batch,
  execute_reaction, first_of, batch_after, end_tag, push_events, cleanup_all,
}
use reactor_rs.Scheduler.EventLoop.{
  Turn, LoopState, running, loop_turn, flush, push_physical, push_event, handle_event,
  is_after_shutdown, catch_up_physical_time, run_event,
}
use reactor_rs.Examples.Events.{at}
use reactor_rs.Examples.Schedulers.{stopper, waiting, quiet}

-- The tag that a run has processed last, if it goes on.
abbrev went_on : Run (LoopState (SyncScheduler stopper)) → Option (Option EventTag)
went_on (done (running s)) = some s.latest_processed_tag
went_on _ = none

-- A turn flushes the event of a trigger and processes the earliest event of the queue.
turn_runs : went_on (loop_turn stopper waiting quiet) ≡ some (some (at 5 0))
unfolding loop_turn flush push_physical push_event make_executable reactions_triggered_by push
    push_at search_tag take_earliest handle_event is_after_shutdown catch_up_physical_time
    to_logical_time run_event process_tag run_tag wave_loop wave_step run_batch execute_reaction
    ctx_new merge_plans_after next_level request_stop push_future make_successor_tag to_duration
    terminate_at physical_trigger successor max_level first_of first_batch min_entry batch_after
    next_batch next_mapping end_tag push_events cleanup_all Queue.absorb Plan.merge_cows
turn_runs = refl

-- An asynchronous event for later wakes the sleep at time 101, before the event's time 105, and the
-- event is processed all the same.
abbrev woken : Turn
woken = record {
  flushed = [];
  now = 101;
  received = some (physical_trigger (at 7 0) 3);
  end_time = 300;
}

woken_early : went_on (loop_turn stopper waiting woken) ≡ some (some (at 5 0))
unfolding loop_turn flush push_physical push_event make_executable reactions_triggered_by push
    push_at search_tag take_earliest handle_event is_after_shutdown catch_up_physical_time
    to_logical_time run_event process_tag run_tag wave_loop wave_step run_batch execute_reaction
    ctx_new merge_plans_after next_level request_stop push_future make_successor_tag to_duration
    terminate_at physical_trigger successor max_level first_of first_batch min_entry batch_after
    next_batch next_mapping end_tag push_events cleanup_all Queue.absorb Plan.merge_cows
woken_early = refl

-- An asynchronous event for the tag of the event that it interrupts is pending after that tag was
-- processed, and the next turn fails the debug assertion on the order of tags.
abbrev interrupted : Turn
interrupted = record woken { received = some (physical_trigger (at 5 0) 3) }

abbrev two_turns : Run (LoopState (SyncScheduler stopper)) → Run (LoopState (SyncScheduler stopper))
two_turns (done (running s)) = loop_turn stopper s (record quiet { flushed = [] })
two_turns r = r

same_tag_twice : two_turns (loop_turn stopper waiting interrupted) ≡ panicked
unfolding loop_turn flush push_physical push_event make_executable reactions_triggered_by push
    push_at search_tag take_earliest handle_event is_after_shutdown catch_up_physical_time
    to_logical_time run_event process_tag run_tag wave_loop wave_step run_batch execute_reaction
    ctx_new merge_plans_after next_level request_stop push_future make_successor_tag to_duration
    terminate_at physical_trigger successor max_level first_of first_batch min_entry batch_after
    next_batch next_mapping end_tag push_events cleanup_all Queue.absorb Plan.merge_cows
same_tag_twice = refl
