-- ===== src/Examples/Contexts.antt =====
-- Runs of what a reaction and a thread do through their contexts.
use reactor_rs.Common.{
  ℕ, ◌<◌, ◌≡◌, refl, lt, inr, true, false, ◌&&◌, ◌||◌, none, some, [], ◌∷◌, leb, not, if◌then◌else◌,
  arith,
}
use reactor_rs.Ids.{GlobalReactionId, full_mod}
use reactor_rs.Tag.{EventTag, asap, successor, tag_cmp, tag_eq}
use reactor_rs.Plan.{LevelIx, ReactionPlan, borrowed, owned, next_level}
use reactor_rs.Plan.Has.{has}
use reactor_rs.Plan.Merge.{runs, IsReactionPlan}
use reactor_rs.Queue.{physical_trigger, reactions_triggered_by}
use reactor_rs.Timers.{first_tag}
use reactor_rs.Actions.{Action, PhysicalActionRef, is_present, get_value}
use reactor_rs.Actions.Values.{IsAction}
use reactor_rs.Context.{
  ReactionCtx, Insides, Channel, sent_ok, send_error, enqueue_now, merge, schedule_logical,
  schedule_physical_with_v,
}
use reactor_rs.Context.Enqueue.{EnqueuedAt, enqueue_now_lem, merge_lem, schedule_logical_lem}
use reactor_rs.Context.Async.{physical_tag, schedule_physical_delivers, schedule_physical_fails}
use reactor_rs.Examples.Maps.{low, high, low-IsPlan, high-IsPlan}
use reactor_rs.Examples.Events.{at, early, ticker, counter}
use reactor_rs.Examples.Schedulers.{flow, ctx_at}

first_range : (first_tag ticker).microstep < full_mod
unfolding first_tag successor
first_range = omega arith

abbrev busy : ReactionCtx
busy = ctx_at (at 5 0) (some (owned low))

enqueue_now_lem_example :
    (todo : ReactionPlan) × (enqueue_now busy (borrowed high)
      ≡ some (record busy { insides = record { todo_now = todo; future_events = [] } }))
    × IsReactionPlan todo
    × ((level : LevelIx) (id : GlobalReactionId)
        → (leb (next_level 1) level && runs todo level id)
          ≡ (leb (next_level 1) level && (runs (some (owned low)) level id || has high level id)))
enqueue_now_lem_example = enqueue_now_lem busy (borrowed high) low-IsPlan high-IsPlan

abbrev other_insides : Insides
other_insides = record { todo_now = some (borrowed high); future_events = early ∷ [] }

merge_lem_example :
    (merged : Insides) × (merge busy.insides other_insides ≡ some merged)
    × IsReactionPlan merged.todo_now
    × (merged.future_events ≡ early ∷ [])
    × ((level : LevelIx) (id : GlobalReactionId)
        → runs merged.todo_now level id
          ≡ (runs busy.insides.todo_now level id || runs other_insides.todo_now level id))
merge_lem_example = merge_lem busy.insides other_insides low-IsPlan high-IsPlan

high_found : reactions_triggered_by flow 3 ≡ some high
unfolding reactions_triggered_by
high_found = refl

low_found : reactions_triggered_by flow 4 ≡ some low
unfolding reactions_triggered_by
low_found = refl

schedule_logical_lem_example :
    (eta : EventTag) × (after : Action ℕ) × (schedule_logical busy counter (some 8) asap
      ≡ some (EnqueuedAt busy low eta, after))
    × (tag_cmp (at 5 0) eta ≡ lt)
    × IsAction after
    × ((now : EventTag)
        → (is_present after now ≡ (tag_eq now eta || is_present counter now))
          × (get_value after now ≡ (if tag_eq now eta then some 8 else get_value counter now)))
schedule_logical_lem_example =
    schedule_logical_lem busy counter (some 8) asap low low_found ((refl, tt), (tt, tt))
      (omega arith) (inr (omega arith))

abbrev open_channel : Channel
open_channel = record { sent = []; connected = true }

abbrev shut_channel : Channel
shut_channel = record { sent = []; connected = false }

abbrev shared : PhysicalActionRef ℕ
shared = record { action = counter; poisoned = false }

abbrev tag_sent : EventTag
tag_sent = physical_tag 110 100 asap

schedule_physical_delivers_example :
    let result = schedule_physical_with_v 110 100 open_channel shared (some 8) asap in
    (result.0.0 ≡ sent_ok)
    × (result.0.1.sent ≡ physical_trigger tag_sent 4 ∷ [])
    × ((t : EventTag)
        → (is_present result.1.action t ≡ (tag_eq t tag_sent || is_present counter t))
          × (get_value result.1.action t
              ≡ (if tag_eq t tag_sent then some 8 else get_value counter t)))
schedule_physical_delivers_example =
    schedule_physical_delivers 110 100 open_channel shared (some 8) asap ((refl, tt), (tt, tt)) refl
      refl

schedule_physical_fails_example :
    let result = schedule_physical_with_v 110 100 shut_channel shared (some 8) asap in
    (result.0.0 ≡ send_error (some 8))
    × (result.0.1 ≡ shut_channel)
    × ((t : EventTag)
        → (is_present result.1.action t ≡ (not (tag_eq t tag_sent) && is_present counter t))
          × (get_value result.1.action t
              ≡ (if tag_eq t tag_sent then none else get_value counter t)))
schedule_physical_fails_example =
    schedule_physical_fails 110 100 shut_channel shared (some 8) asap ((refl, tt), (tt, tt)) refl
      refl
