-- ===== src/Scheduler/EventLoop.antt =====
-- The event loop of src/scheduler/scheduler_impl.rs. Clock readings and what arrives from the
-- channel are inputs of a turn of the loop.
use reactor_rs.Common.{
  Bool, true, false, ◌||◌, Option, none, some, List, [], ◌∷◌, if◌then◌else◌, ltb, leb,
}
use reactor_rs.Ids.{startup, shutdown}
use reactor_rs.Tag.{EventTag, Instant, origin, tag_lt, tag_eq, to_logical_time, now_tag}
use reactor_rs.Plan.{borrowed, ReactionPlan, merge_cows}
use reactor_rs.Queue.{
  Event, PhysicalEvent, make_executable, reactions_triggered_by, take_earliest, push,
}
use mathlib.Core.Option
use reactor_rs.Scheduler.{
  Behavior, Run, done, panicked, and_then, or_panic, SyncScheduler, process_tag,
}

-- What the loop reads from outside in one turn: the events that `try_iter` flushes, the time at
-- which it looks at the clock, what `recv_timeout` or `recv` returns, and the time at its end.
pub record Turn : Type 0 where
  pub flushed : List PhysicalEvent
  pub now : Instant
  pub received : Option PhysicalEvent
  pub end_time : Instant

-- Whether the loop goes on.
pub data LoopState (S : Type 0) : Type 0 where
  running : S → LoopState S
  finished : S → LoopState S

-- `Err` of an event that interrupts the sleep is `some`.
unfoldable pub catch_up_physical_time : Turn → Instant → Option PhysicalEvent
catch_up_physical_time turn target = if ltb turn.now target then turn.received else none

abbrev pub is_shutdown_at : Option EventTag → EventTag → Bool
is_shutdown_at none tag = false
is_shutdown_at (some t) tag = tag_eq t tag

module _ (B : Behavior) where
  -- The `debug_assert!` that there are reactors comes first.
  unfoldable pub start : SyncScheduler B → Run (SyncScheduler B)
  start sched = elim (sched.reactors) [
    | [] ↦ panicked
    | r ∷ rs ↦
        and_then (or_panic (reactions_triggered_by sched.dataflow startup))
          (λ reactions. process_tag B sched false origin (some (borrowed reactions)))
  ]

  unfoldable pub stop : SyncScheduler B → EventTag → ReactionPlan → Run (SyncScheduler B)
  stop sched shutdown_tag reactions =
      and_then (or_panic (reactions_triggered_by sched.dataflow shutdown)) (λ default_plan.
        and_then (or_panic (merge_cows reactions (some (borrowed default_plan)))) (λ plan.
          and_then
            (process_tag B (record sched { shutdown_time = some shutdown_tag }) true shutdown_tag
              plan)
            (λ s. done (record s { was_terminated = true }))))

  unfoldable pub is_after_shutdown : SyncScheduler B → EventTag → Bool
  is_after_shutdown sched t = elim (sched.shutdown_time) [
    | some shutdown_t ↦ tag_lt shutdown_t t
    | none ↦ false
  ]

  unfoldable pub receive_event : SyncScheduler B → Turn → Option PhysicalEvent
  receive_event sched turn = elim (sched.shutdown_time) [
    | some shutdown_t ↦
        if leb turn.now (to_logical_time shutdown_t sched.initial_time) then turn.received else none
    | none ↦ turn.received
  ]

  unfoldable pub push_event : SyncScheduler B → Event → Run (SyncScheduler B)
  push_event sched evt =
      or_panic (Option.map (λ q. record sched { event_queue = q }) (push sched.event_queue evt))

  unfoldable pub push_physical : SyncScheduler B → PhysicalEvent → Run (SyncScheduler B)
  unfolding push_event
  push_physical sched evt =
      and_then (or_panic (make_executable evt sched.dataflow)) (λ e. push_event sched e)

  -- The `for evt in self.rx.try_iter()`.
  unfoldable pub flush : SyncScheduler B → List PhysicalEvent → Run (SyncScheduler B)
  flush sched [] = done sched
  flush sched (evt ∷ evts) = and_then (push_physical sched evt) (λ s. flush s evts)

  -- What follows the loop.
  unfoldable pub after_loop : SyncScheduler B → Turn → Run (LoopState (SyncScheduler B))
  unfolding stop
  after_loop sched turn =
      and_then
        (stop sched (Option.get_or sched.shutdown_time (now_tag turn.end_time sched.initial_time))
          none)
        (λ s. done (finished s))

  -- From "at this point we're at the correct time" on.
  unfoldable pub run_event : SyncScheduler B → Event → Run (LoopState (SyncScheduler B))
  unfolding stop
  run_event sched evt =
      if evt.terminate || is_shutdown_at sched.shutdown_time evt.tag
      then and_then (stop sched evt.tag evt.reactions) (λ s. done (finished s))
      else and_then (process_tag B sched false evt.tag evt.reactions) (λ s. done (running s))

  -- The event that was taken, which an asynchronous event may interrupt.
  unfoldable pub handle_event : SyncScheduler B → Turn → Event → Run (LoopState (SyncScheduler B))
  handle_event sched turn evt =
      if is_after_shutdown sched evt.tag
      then after_loop sched turn
      else elim (catch_up_physical_time turn (to_logical_time evt.tag sched.initial_time)) [
        | none ↦ run_event sched evt
        | some async_evt ↦
            and_then (or_panic (make_executable async_evt sched.dataflow)) (λ async_event.
              if tag_lt async_event.tag evt.tag
              then and_then (push_event sched evt)
                  (λ s. and_then (push_event s async_event) (λ s'. done (running s')))
              else and_then (push_event sched async_event) (λ s. run_event s evt))
      ]

  -- No event is ready.
  unfoldable pub wait_for_event : SyncScheduler B → Turn → Run (LoopState (SyncScheduler B))
  wait_for_event sched turn = elim (receive_event sched turn) [
    | some evt ↦ and_then (push_physical sched evt) (λ s. done (running s))
    | none ↦ after_loop sched turn
  ]

  -- One turn of the `loop` of `launch_event_loop`, with what follows the loop if it ends.
  unfoldable pub loop_turn : SyncScheduler B → Turn → Run (LoopState (SyncScheduler B))
  unfolding flush handle_event wait_for_event
  loop_turn sched turn = and_then (flush sched turn.flushed) (λ s.
      let (taken, rest) = take_earliest s.event_queue in
      elim taken [
        | some evt ↦ handle_event (record s { event_queue = rest }) turn evt
        | none ↦ wait_for_event (record s { event_queue = rest }) turn
      ])

  -- The `loop` of `launch_event_loop`, for the turns that are given.
  unfoldable pub loop_turns : SyncScheduler B → List Turn → Run (LoopState (SyncScheduler B))
  loop_turns sched [] = done (running sched)
  loop_turns sched (turn ∷ turns) =
      and_then (loop_turn sched turn)
        (λ state. elim state [ running s ↦ loop_turns s turns | finished s ↦ done (finished s) ])

  unfoldable pub launch_event_loop : SyncScheduler B → List Turn → Run (LoopState (SyncScheduler B))
  launch_event_loop sched turns = and_then (start sched) (λ s. loop_turns s turns)
