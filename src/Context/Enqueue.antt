-- ===== src/Context/Enqueue.antt =====
-- What the operations of a `ReactionCtx` of src/scheduler/context.rs plan for now and for later.
use reactor_rs.Common.{
  ℕ, ◌+◌, ◌<◌, ◌≡◌, ◌⊎◌, inl, refl, lt, true, ◌||◌, ◌&&◌, Option, none, some, ◌++◌, if◌then◌else◌,
  leb, arith,
}
use reactor_rs.Ids.{GlobalReactionId, full_mod}
use reactor_rs.Tag.{EventTag, Duration, Offset, tag_cmp, tag_lt, tag_eq, successor, to_duration}
use reactor_rs.Tag.Order.{successor_later}
use reactor_rs.Plan.{
  LevelIx, ExecutableReactions, Cow, borrowed, owned, deref, ReactionPlan, next_level,
}
use reactor_rs.Plan.Has.{has, IsPlan, absorb_after_lem}
use reactor_rs.Plan.Merge.{runs, IsReactionPlan, merge_cows_lem}
use reactor_rs.Queue.{execute, reactions_triggered_by}
use reactor_rs.Actions.{Action, schedule_future_value, is_present, get_value}
use reactor_rs.Actions.Values.{IsAction, schedule_future_value_lem}
use reactor_rs.Timers.{Timer, FiresAt, is_periodic, next_tag}
use reactor_rs.Context.{
  ReactionCtx, Insides, merge, absorb, enqueue_now, todo_with, enqueue_later, push_future,
  reschedule_timer, enqueue_trigger, schedule_logical,
}

planned :
    (old : ReactionPlan) (new : Cow ExecutableReactions) (min : LevelIx)
    → IsReactionPlan old
    → IsPlan (deref new)
    → (todo : ReactionPlan) × (todo_with old new min ≡ some todo)
      × IsReactionPlan todo
      × ((level : LevelIx) (id : GlobalReactionId)
          → (leb min level && runs todo level id)
            ≡ (leb min level && (runs old level id || has (deref new) level id)))
unfolding todo_with runs
planned none new min p q = (some new, refl, q, λ level id. refl)
planned (some old) new min p q =
    let (r, done, kept, same) = absorb_after_lem (deref old) (deref new) min p q in
    (some (owned r), rw done, kept, λ level id. ground (arith, same level id))

-- What is enqueued for now does not panic. From the level after the current one on, exactly the
-- reactions that were planned and the enqueued ones are planned; nothing else of the context
-- changes.
pub enqueue_now_lem :
    (ctx : ReactionCtx) (downstream : Cow ExecutableReactions)
    → IsReactionPlan ctx.insides.todo_now
    → IsPlan (deref downstream)
    → (todo : ReactionPlan) × (enqueue_now ctx downstream
        ≡ some (record ctx { insides = record (ctx.insides) { todo_now = todo } }))
      × IsReactionPlan todo
      × ((level : LevelIx) (id : GlobalReactionId)
          → (leb (next_level ctx.cur_level) level && runs todo level id) ≡ (
              leb (next_level ctx.cur_level) level
              && (runs ctx.insides.todo_now level id || has (deref downstream) level id)))
unfolding enqueue_now
enqueue_now_lem ctx downstream good plan =
    let (todo, done, kept, same) =
      planned ctx.insides.todo_now downstream (next_level ctx.cur_level) good plan in
    (todo, rw done, kept, same)

-- Merging what two forked contexts gathered does not panic: their plans run, at every level, what
-- either ran, and their events come one after the other.
pub merge_lem :
    (self other : Insides)
    → IsReactionPlan self.todo_now
    → IsReactionPlan other.todo_now
    → (merged : Insides) × (merge self other ≡ some merged)
      × IsReactionPlan merged.todo_now
      × (merged.future_events ≡ self.future_events ++ other.future_events)
      × ((level : LevelIx) (id : GlobalReactionId)
          → runs merged.todo_now level id
            ≡ (runs self.todo_now level id || runs other.todo_now level id))
unfolding merge absorb
merge_lem self other p q =
    let (plan, done, kept, same) = merge_cows_lem self.todo_now other.todo_now p q in
    (
      record { todo_now = plan; future_events = self.future_events ++ other.future_events },
      rw done,
      kept,
      refl,
      same,
    )

tag_lt-true : (a b : EventTag) → tag_cmp a b ≡ lt → tag_lt a b ≡ true
tag_lt-true a b h = ground arith

-- The tag of an enqueued event, which reacts to a trigger.
abbrev pub EnqueuedAt : ReactionCtx → ExecutableReactions → EventTag → ReactionCtx
EnqueuedAt ctx plan tag = push_future ctx (execute tag (borrowed plan))

enqueue_trigger_at :
    (ctx : ReactionCtx) (id : ℕ) (plan : ExecutableReactions) (d : Duration)
    → reactions_triggered_by ctx.dataflow id ≡ some plan
    → ctx.tag.microstep < full_mod
    → (0 < d) ⊎ (ctx.tag.microstep + 1 < full_mod)
    → enqueue_trigger ctx id (successor ctx.tag d)
      ≡ some (EnqueuedAt ctx plan (successor ctx.tag d))
unfolding enqueue_trigger enqueue_later
enqueue_trigger_at ctx id plan d found range ahead =
    let later : tag_cmp ctx.tag (successor ctx.tag d) ≡ lt =
      (successor_later ctx.tag d range).1 ahead in
    ground (arith, found, later)

-- A periodic timer that is triggered at the current tag is rescheduled, without a panic, by one
-- event that runs its reactions at a later tag, at which it is triggered again.
pub reschedule_timer_lem :
    (ctx : ReactionCtx) (timer : Timer) (plan : ExecutableReactions)
    → reactions_triggered_by ctx.dataflow timer.id ≡ some plan
    → ctx.tag.microstep < full_mod
    → 0 < timer.period
    → FiresAt timer ctx.tag
    → (tag : EventTag) × (reschedule_timer ctx timer ≡ some (EnqueuedAt ctx plan tag))
      × FiresAt timer tag
      × (tag_cmp ctx.tag tag ≡ lt)
unfolding reschedule_timer is_periodic next_tag
reschedule_timer_lem ctx timer plan found range period fires =
    let enqueued = enqueue_trigger_at ctx timer.id plan timer.period found range (inl period) in
    let later : tag_cmp ctx.tag (successor ctx.tag timer.period) ≡ lt =
      (successor_later ctx.tag timer.period range).1 (inl period) in
    (
      successor ctx.tag timer.period,
      ground (arith, enqueued),
      FiresAt.again fires (ground arith),
      later,
    )

-- Scheduling a logical action, if the delay is positive or the microstep can go up, does not panic.
-- At a tag later than the current one it makes the action present with the value and enqueues one
-- event, which runs the action's reactions; at every other tag the action reads as before.
pub schedule_logical_lem :
    {T : Type 0} (ctx : ReactionCtx) (action : Action T) (value : Option T) (offset : Offset)
    (plan : ExecutableReactions)
    → reactions_triggered_by ctx.dataflow action.id ≡ some plan
    → IsAction action
    → ctx.tag.microstep < full_mod
    → (0 < action.min_delay + to_duration offset) ⊎ (ctx.tag.microstep + 1 < full_mod)
    → (eta : EventTag) × (after : Action T) × (schedule_logical ctx action value offset
        ≡ some (EnqueuedAt ctx plan eta, after))
      × (tag_cmp ctx.tag eta ≡ lt)
      × IsAction after
      × ((now : EventTag)
          → (is_present after now ≡ (tag_eq now eta || is_present action now))
            × (get_value after now ≡ (if tag_eq now eta then value else get_value action now)))
unfolding schedule_logical
schedule_logical_lem ctx action value offset plan found good range ahead =
    let d = action.min_delay + to_duration offset in
    let eta = successor ctx.tag d in
    let enqueued = enqueue_trigger_at ctx action.id plan d found range ahead in
    let (kept, reads) = schedule_future_value_lem action eta value good in
    (
      eta,
      schedule_future_value action eta value,
      rw enqueued,
      (successor_later ctx.tag d range).1 ahead,
      kept,
      reads,
    )
