-- ===== src/Context.antt =====
-- src/scheduler/context.rs: what a reaction does to the scheduler through its `ReactionCtx`, what a
-- thread does through an `AsyncCtx`, and the clean-up after a tag. A `none` is a panic, that of a
-- `debug_assert!` included. The receiver and the debug information of a context are left out, and
-- with them `check_set_port_is_legal`, a check of debug builds; a clock reading is an argument.
pub mod Enqueue
pub mod Async
use reactor_rs.Common.{
  ℕ, ◌+◌, ◌-◌, ◌==◌, Bool, true, false, not, Option, none, some, List, [], ◌∷◌, ◌++◌, if◌then◌else◌,
}
use reactor_rs.Ids.{TriggerId, GlobalReactionId}
use reactor_rs.Tag.{
  EventTag, Duration, Instant, Offset, tag_lt, successor, absolute, to_logical_time, to_duration,
}
use reactor_rs.Plan.{
  LevelIx, ExecutableReactions, Cow, borrowed, owned, deref, ReactionPlan, next_level, absorb_after,
  merge_cows,
}
use reactor_rs.Queue.{
  Event, execute, terminate_at, PhysicalEvent, physical_trigger, physical_terminate_at,
  DataflowInfo, reactions_triggered_by,
}
use reactor_rs.Actions.{Action, PhysicalActionRef, schedule_future_value, forget_value, use_mut_p}
use reactor_rs.Timers.{Timer, is_periodic}
use reactor_rs.Ports.{Port, Store, set_impl, clear_value}
use mathlib.Core.Option

-- `RContextForwardableStuff`.
pub record Insides : Type 0 where
  pub todo_now : ReactionPlan
  pub future_events : List Event

pub record ReactionCtx : Type 0 where
  pub insides : Insides
  pub tag : EventTag
  pub cur_level : LevelIx
  pub current_reaction : Option GlobalReactionId
  pub initial_time : Instant
  pub dataflow : DataflowInfo
  pub was_terminated : Bool

abbrev pub no_insides : Insides
no_insides = record { todo_now = none; future_events = [] }

unfoldable pub ctx_new : EventTag → Instant → ReactionPlan → DataflowInfo → Bool → ReactionCtx
ctx_new tag initial_time todo dataflow was_terminated = record {
  insides = record { todo_now = todo; future_events = [] };
  tag = tag;
  cur_level = 0;
  current_reaction = none;
  initial_time = initial_time;
  dataflow = dataflow;
  was_terminated = was_terminated;
}

unfoldable pub fork : ReactionCtx → ReactionCtx
fork ctx = record ctx { insides = no_insides }

unfoldable pub absorb : Insides → Insides → Option Insides
absorb self other =
    Option.map
      (λ plan. record {
        todo_now = plan;
        future_events = self.future_events ++ other.future_events;
      })
      (merge_cows self.todo_now other.todo_now)

unfoldable pub merge : Insides → Insides → Option Insides
unfolding absorb
merge self other = absorb self other

unfoldable pub get_logical_time : ReactionCtx → Instant
get_logical_time ctx = to_logical_time ctx.tag ctx.initial_time

unfoldable pub get_elapsed_logical_time : ReactionCtx → Duration
unfolding get_logical_time
get_elapsed_logical_time ctx = get_logical_time ctx - ctx.initial_time

unfoldable pub make_successor_tag : ReactionCtx → Duration → EventTag
make_successor_tag ctx offset_from_now = successor ctx.tag offset_from_now

unfoldable pub push_future : ReactionCtx → Event → ReactionCtx
push_future ctx evt = record ctx {
  insides = record (ctx.insides) { future_events = ctx.insides.future_events ++ (evt ∷ []) };
}

unfoldable pub enqueue_later : ReactionCtx → ExecutableReactions → EventTag → Option ReactionCtx
unfolding push_future
enqueue_later ctx downstream tag =
    if tag_lt ctx.tag tag then some (push_future ctx (execute tag (borrowed downstream))) else none

-- What `enqueue_now` makes of `todo_now`.
unfoldable pub todo_with : ReactionPlan → Cow ExecutableReactions → LevelIx → Option ReactionPlan
todo_with (some do_next) downstream level =
    Option.map (λ r. some (owned r)) (absorb_after (deref do_next) (deref downstream) level)
todo_with none downstream level = some (some downstream)

unfoldable pub enqueue_now : ReactionCtx → Cow ExecutableReactions → Option ReactionCtx
unfolding todo_with
enqueue_now ctx downstream =
    Option.map (λ todo. record ctx { insides = record (ctx.insides) { todo_now = todo } })
      (todo_with ctx.insides.todo_now downstream (next_level ctx.cur_level))

unfoldable pub request_stop : ReactionCtx → Offset → ReactionCtx
unfolding push_future make_successor_tag
request_stop ctx offset =
    push_future ctx (terminate_at (make_successor_tag ctx (to_duration offset)))

-- The reactions of a trigger are enqueued at a tag.
unfoldable pub enqueue_trigger : ReactionCtx → TriggerId → EventTag → Option ReactionCtx
enqueue_trigger ctx id tag = elim (reactions_triggered_by ctx.dataflow id) [
  | none ↦ none
  | some downstream ↦ enqueue_later ctx downstream tag
]

unfoldable pub reschedule_timer : ReactionCtx → Timer → Option ReactionCtx
unfolding enqueue_trigger make_successor_tag
reschedule_timer ctx timer =
    if is_periodic timer
    then enqueue_trigger ctx timer.id (make_successor_tag ctx timer.period)
    else some ctx

unfoldable pub bootstrap_timer : ReactionCtx → Timer → Option ReactionCtx
unfolding make_successor_tag
bootstrap_timer ctx timer = elim (reactions_triggered_by ctx.dataflow timer.id) [
  | none ↦ none
  | some downstream ↦
      if timer.offset == 0
      then enqueue_now ctx (borrowed downstream)
      else enqueue_later ctx downstream (make_successor_tag ctx timer.offset)
]

module _ {T : Type 0} where
  unfoldable pub set : ReactionCtx → Store T → Port → T → Option (ReactionCtx × Store T)
  set ctx h port value = elim (set_impl h port (some value)) [
    | none ↦ none
    | some h' ↦ elim (reactions_triggered_by ctx.dataflow port.id) [
      | none ↦ none
      | some downstream ↦ Option.map (λ ctx'. (ctx', h')) (enqueue_now ctx (borrowed downstream))
    ]
  ]

  unfoldable pub set_opt : ReactionCtx → Store T → Port → Option T → Option (ReactionCtx × Store T)
  unfolding set
  set_opt ctx h port (some v) = set ctx h port v
  set_opt ctx h port none = some (ctx, h)

  -- `schedule_with_v` of a `LogicalAction`.
  unfoldable pub schedule_logical :
      ReactionCtx → Action T → Option T → Offset → Option (ReactionCtx × Action T)
  unfolding make_successor_tag enqueue_trigger
  schedule_logical ctx action value offset =
      let eta = make_successor_tag ctx (action.min_delay + to_duration offset) in
      Option.map (λ ctx'. (ctx', schedule_future_value action eta value))
        (enqueue_trigger ctx action.id eta)

  -- `schedule_with_v` of a `PhysicalActionRef`, at the time that the clock shows. On a poisoned
  -- lock nothing happens.
  unfoldable pub schedule_physical :
      Instant
      → ReactionCtx
      → PhysicalActionRef T
      → Option T
      → Offset
      → Option (ReactionCtx × PhysicalActionRef T)
  unfolding enqueue_trigger
  schedule_physical now ctx r value offset =
      let tag = absolute ctx.initial_time (now + to_duration offset) in
      if r.poisoned
      then some (ctx, r)
      else Option.map
          (λ ctx'. (ctx', record r { action = schedule_future_value r.action tag value }))
          (enqueue_trigger ctx r.action.id tag)

-- The channel to the scheduler: what was sent, and whether the receiver is still there.
pub record Channel : Type 0 where
  pub sent : List PhysicalEvent
  pub connected : Bool

-- crossbeam's `Sender::send` on an unbounded channel: it fails if the receiver is gone.
unfoldable pub send : Channel → PhysicalEvent → Bool × Channel
send tx evt =
    if tx.connected then (true, record tx { sent = tx.sent ++ (evt ∷ []) }) else (false, tx)

-- `Result<(), SendError<V>>`.
pub data SendResult (V : Type 0) : Type 0 where
  sent_ok : SendResult V
  send_error : V → SendResult V

unfoldable pub async_request_stop :
    Instant → Instant → Channel → Offset → SendResult (Unit {0}) × Channel
unfolding send
async_request_stop now initial_time tx offset =
    let tag = absolute initial_time (now + to_duration offset) in
    let (delivered, tx') = send tx (physical_terminate_at tag) in
    (if delivered then sent_ok else send_error tt, tx')

module _ {T : Type 0} where
  -- The closure of `schedule_physical_with_v`, on the action that the lock guards.
  unfoldable pub schedule_and_send :
      EventTag → Channel → Action T → Option T → (SendResult (Option T) × Channel) × Action T
  schedule_and_send tag tx action value =
      let scheduled = schedule_future_value action tag value in
      let (delivered, tx') = send tx (physical_trigger tag action.id) in
      if delivered
      then ((sent_ok, tx'), scheduled)
      else let (kept, forgotten) = forget_value scheduled tag in ((send_error forgotten, tx'), kept)

  unfoldable pub schedule_physical_with_v :
      Instant
      → Instant
      → Channel
      → PhysicalActionRef T
      → Option T
      → Offset
      → (SendResult (Option T) × Channel) × PhysicalActionRef T
  unfolding schedule_and_send use_mut_p
  schedule_physical_with_v now initial_time tx r value offset =
      let tag = absolute initial_time (now + to_duration offset) in
      let (result, r') = use_mut_p r value (λ action v. schedule_and_send tag tx action v) in
      elim result [ some out ↦ (out, r') | none ↦ ((send_error value, tx), r') ]

  unfoldable pub cleanup_port : Store T → Port → Option (Store T)
  cleanup_port h port = clear_value h port

  unfoldable pub cleanup_logical_action : EventTag → Action T → Action T
  cleanup_logical_action tag action = (forget_value action tag).0

  unfoldable pub cleanup_physical_action : EventTag → PhysicalActionRef T → PhysicalActionRef T
  cleanup_physical_action tag r =
      if r.poisoned then r else record r { action = (forget_value r.action tag).0 }
