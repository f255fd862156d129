-- ===== src/Scheduler/Endings.antt =====
-- What the event loop of src/scheduler/scheduler_impl.rs ends in when it processes its event or
-- stops.
use reactor_rs.Common.{
  ◌<◌, ◌⊎◌, ◌≡◌, refl, sym, subst, ◌∙◌, lt, Bool, true, false, ◌||◌, none, some, All, All-get_elem?,
  get_elem?, arith, Bool-cases, Option-cases, inl, inr,
}
use reactor_rs.Ids.{GlobalReactionId, shutdown, full_mod}
use reactor_rs.Common.Ord.{nat_ord}
use reactor_rs.Tag.{EventTag, tag_cmp, tag_lt, now_tag}
use reactor_rs.Plan.{LevelIx, borrowed, ReactionPlan, merge_cows}
use reactor_rs.Queue.Laws.{pending}
use reactor_rs.Queue.{Event, EventQueue, DataflowInfo, reactions_triggered_by}
use reactor_rs.Scheduler.{
  Behavior, Run, done, panicked, out_of_fuel, and_then, SyncScheduler, process_tag, is_in_order,
}
use reactor_rs.Scheduler.EventLoop.{
  LoopState, running, finished, Turn, stop, after_loop, run_event, is_shutdown_at,
}
use reactor_rs.Scheduler.Bounds.{IsMachinePlan, merge_machine_plans}
use reactor_rs.Scheduler.Waves.{IsMachineEvent, IsOrderly}
use reactor_rs.Scheduler.Tags.{IsPending, Keeps, IsTagResult, process_tag_lem}
use mathlib.Core.Option

-- The plans of the data flow are well formed.
abbrev pub IsMachineFlow : DataflowInfo → Type 0
IsMachineFlow dataflow = All (λ plan. IsMachinePlan (some (borrowed plan))) dataflow

-- Everything that is pending is for a tag or for later.
abbrev pub NoneBefore : EventQueue → EventTag → Type 0
NoneBefore queue t =
    (u : EventTag) (level : LevelIx) (id : GlobalReactionId)
    → pending queue u level id ≡ true
    → (u ≡ t) ⊎ (tag_cmp t u ≡ lt)

-- What was pending is for a tag, or is for later and pending still.
abbrev pub NoneLost : EventQueue → EventTag → EventQueue → Type 0
NoneLost queue t after =
    (u : EventTag) (level : LevelIx) (id : GlobalReactionId)
    → pending queue u level id ≡ true
    → (u ≡ t) ⊎ ((tag_cmp t u ≡ lt) × (pending after u level id ≡ true))

NoneLost-NoneBefore :
    (queue : EventQueue) (t : EventTag) (after : EventQueue)
    → NoneLost queue t after
    → NoneBefore queue t
NoneLost-NoneBefore queue t after lost u level id h = elim (lost u level id h) [
  | inl here ↦ inl here
  | inr (k, left) ↦ inr k
]

module _ (B : Behavior) (orderly : IsOrderly B) where
  -- What a turn ends in when the latest tag was `l`: the loop goes on, or has ended, having
  -- processed a later tag, with the events of the queue for later still. Of what was pending
  -- nothing was for an earlier tag, and while the loop goes on nothing is lost and the data flow is
  -- as before.
  abbrev pub IsTurnResult :
      DataflowInfo → EventQueue → EventTag → Run (LoopState (SyncScheduler B)) → Type 0
  IsTurnResult dataflow queue l out_of_fuel = ⊥
  IsTurnResult dataflow queue l panicked = Unit
  IsTurnResult dataflow queue l (done (running s)) =
      (t : EventTag) × (tag_cmp l t ≡ lt)
      × (t.microstep < full_mod)
      × (s.latest_processed_tag ≡ some t)
      × (s.dataflow ≡ dataflow)
      × IsPending t s.event_queue
      × NoneLost queue t s.event_queue
  IsTurnResult dataflow queue l (done (finished s)) =
      (t : EventTag) × (tag_cmp l t ≡ lt)
      × (s.latest_processed_tag ≡ some t)
      × (s.shutdown_time ≡ some t)
      × (s.was_terminated ≡ true)
      × NoneBefore queue t

  pub IsTurnResult-Keeps :
      (dataflow : DataflowInfo) (queue queue' : EventQueue) (l : EventTag)
      (r : Run (LoopState (SyncScheduler B)))
      → Keeps queue queue'
      → IsTurnResult dataflow queue' l r
      → IsTurnResult dataflow queue l r
  IsTurnResult-Keeps dataflow queue queue' l out_of_fuel keeps p = p
  IsTurnResult-Keeps dataflow queue queue' l panicked keeps p = tt
  IsTurnResult-Keeps dataflow queue queue' l (done (running s)) keeps
        (t, ahead, fits, at, same, later, lost) =
      (t, ahead, fits, at, same, later, λ u level id h. lost u level id (keeps u level id h))
  IsTurnResult-Keeps dataflow queue queue' l (done (finished s)) keeps
        (t, ahead, at, shut, ended, before) =
      (t, ahead, at, shut, ended, λ u level id h. before u level id (keeps u level id h))

  pub tag_lt_cmp : (a b : EventTag) → tag_lt a b ≡ true → tag_cmp a b ≡ lt
  tag_lt_cmp a b h = ground arith

  running_result :
      (queue : EventQueue) (sched : SyncScheduler B) (l tag : EventTag) (r : Run (SyncScheduler B))
      → tag_cmp l tag ≡ lt
      → tag.microstep < full_mod
      → NoneLost queue tag sched.event_queue
      → IsTagResult B orderly sched tag r
      → IsTurnResult sched.dataflow queue l (and_then r (λ s. done (running s)))
  running_result queue sched l tag out_of_fuel ahead fits lost p = p
  running_result queue sched l tag panicked ahead fits lost p = tt
  running_result queue sched l tag (done s) ahead fits lost (at, later, _, same, keeps) = (
    tag,
    ahead,
    fits,
    at,
    same,
    later,
    λ u level id h. elim (lost u level id h) [
      | inl here ↦ inl here
      | inr (k, left) ↦ inr (k, keeps u level id left)
    ],
  )

  -- What `stop` and the loop make of the last tag that is processed.
  abbrev and_finish : Run (SyncScheduler B) → Run (LoopState (SyncScheduler B))
  and_finish r =
      let ended : Run (SyncScheduler B) =
        and_then r (λ s. done (record s { was_terminated = true })) in
      and_then ended (λ s. done (finished s))

  finished_result :
      (queue : EventQueue) (sched : SyncScheduler B) (l tag : EventTag) (r : Run (SyncScheduler B))
      → tag_cmp l tag ≡ lt
      → sched.shutdown_time ≡ some tag
      → NoneBefore queue tag
      → IsTagResult B orderly sched tag r
      → IsTurnResult sched.dataflow queue l (and_finish r)
  finished_result queue sched l tag out_of_fuel ahead e before p = p
  finished_result queue sched l tag panicked ahead e before p = tt
  finished_result queue sched l tag (done s) ahead e before (at, later, shut, _, _) =
      (tag, ahead, at, shut ∙ e, refl, before)

  process_tag_late :
      (sched : SyncScheduler B) (is_shutdown : Bool) (tag : EventTag) (reactions : ReactionPlan)
      → is_in_order sched.latest_processed_tag tag ≡ false
      → process_tag B sched is_shutdown tag reactions ≡ panicked
  unfolding process_tag
  process_tag_late sched is_shutdown tag reactions late = ground (arith, late)

  run_result :
      (queue : EventQueue) (sched : SyncScheduler B) (l tag : EventTag) (reactions : ReactionPlan)
      → sched.latest_processed_tag ≡ some l
      → IsPending tag sched.event_queue
      → IsMachinePlan reactions
      → tag.microstep < full_mod
      → NoneLost queue tag sched.event_queue
      → IsTurnResult sched.dataflow queue l
          (and_then (process_tag B sched false tag reactions) (λ s. done (running s)))
  run_result queue sched l tag reactions at p good fits lost =
      elim (Bool-cases (is_in_order sched.latest_processed_tag tag)) [
        | inl ahead ↦
            running_result queue sched l tag (process_tag B sched false tag reactions)
              (tag_lt_cmp l tag (ground (arith, ahead, at))) fits lost
              (process_tag_lem B orderly sched false tag reactions ahead p good)
        | inr late ↦
            let e : process_tag B sched false tag reactions ≡ panicked =
              process_tag_late sched false tag reactions late in
            subst (λ r. IsTurnResult sched.dataflow queue l (and_then r (λ s. done (running s))))
              (sym e) tt
      ]

  -- The end of `stop`, on the merged plan.
  abbrev stop_with : SyncScheduler B → EventTag → ReactionPlan → Run (SyncScheduler B)
  stop_with sched tag plan =
      and_then (process_tag B (record sched { shutdown_time = some tag }) true tag plan)
        (λ s. done (record s { was_terminated = true }))

  stop_with_result :
      (queue : EventQueue) (sched : SyncScheduler B) (l tag : EventTag) (plan : ReactionPlan)
      → sched.latest_processed_tag ≡ some l
      → IsPending tag sched.event_queue
      → IsMachinePlan plan
      → NoneBefore queue tag
      → IsTurnResult sched.dataflow queue l
          (and_then (stop_with sched tag plan) (λ s. done (finished s)))
  stop_with_result queue sched l tag plan at p good before =
      let sched' : SyncScheduler B = record sched { shutdown_time = some tag } in
      elim (Bool-cases (is_in_order sched.latest_processed_tag tag)) [
        | inl ahead ↦
            finished_result queue sched' l tag (process_tag B sched' true tag plan)
              (tag_lt_cmp l tag (ground (arith, ahead, at))) refl before
              (process_tag_lem B orderly sched' true tag plan ahead p good)
        | inr late ↦
            let e : process_tag B sched' true tag plan ≡ panicked =
              process_tag_late sched' true tag plan late in
            subst (λ r. IsTurnResult sched.dataflow queue l (and_finish r)) (sym e) tt
      ]

  stop_result :
      (queue : EventQueue) (sched : SyncScheduler B) (l tag : EventTag) (reactions : ReactionPlan)
      → sched.latest_processed_tag ≡ some l
      → IsPending tag sched.event_queue
      → IsMachinePlan reactions
      → IsMachineFlow sched.dataflow
      → NoneBefore queue tag
      → IsTurnResult sched.dataflow queue l
          (and_then (stop B sched tag reactions) (λ s. done (finished s)))
  unfolding stop merge_cows reactions_triggered_by
  stop_result queue sched l tag reactions at p good flow before =
      elim (Option-cases (get_elem? sched.dataflow shutdown)) [
        | inl gone ↦ rw (gone, stop) tt
        | inr (plan, here) ↦
            let fine =
              All-get_elem? (λ q. IsMachinePlan (some (borrowed q))) sched.dataflow shutdown plan
                flow here in
            let (merged, merges, good', _) =
              merge_machine_plans reactions (some (borrowed plan)) 0 good fine in
            let e : stop B sched tag reactions ≡ stop_with sched tag merged =
              rw (here, stop, merges) refl in
            subst (λ r. IsTurnResult sched.dataflow queue l (and_then r (λ s. done (finished s))))
              (sym e) (stop_with_result queue sched l tag merged at p good' before)
      ]

  pub run_event_result :
      (queue : EventQueue) (sched : SyncScheduler B) (l : EventTag) (evt : Event)
      → sched.latest_processed_tag ≡ some l
      → IsPending evt.tag sched.event_queue
      → IsMachineEvent evt
      → IsMachineFlow sched.dataflow
      → NoneLost queue evt.tag sched.event_queue
      → IsTurnResult sched.dataflow queue l (run_event B sched evt)
  unfolding run_event
  run_event_result queue sched l evt at p good flow lost =
      elim (Bool-cases (evt.terminate || is_shutdown_at sched.shutdown_time evt.tag)) [
        | inl last ↦
            rw (last, run_event)
              (stop_result queue sched l evt.tag evt.reactions at p good.0 flow
                (NoneLost-NoneBefore queue evt.tag sched.event_queue lost))
        | inr more ↦
            rw (more, run_event)
              (run_result queue sched l evt.tag evt.reactions at p good.0 good.1 lost)
      ]

  pub after_loop_result :
      (queue : EventQueue) (sched : SyncScheduler B) (l : EventTag) (turn : Turn)
      → sched.latest_processed_tag ≡ some l
      → IsPending
          (Option.get_or sched.shutdown_time (now_tag turn.end_time sched.initial_time))
          sched.event_queue
      → IsMachineFlow sched.dataflow
      → NoneBefore queue
          (Option.get_or sched.shutdown_time (now_tag turn.end_time sched.initial_time))
      → IsTurnResult sched.dataflow queue l (after_loop B sched turn)
  unfolding after_loop
  after_loop_result queue sched l turn at p flow before =
      stop_result queue sched l _ none at p tt flow before
