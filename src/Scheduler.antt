-- ===== src/Scheduler.antt =====
-- src/scheduler/scheduler_impl.rs: the state of the scheduler, and the processing of a tag; the
-- event loop is the child EventLoop. The reactors, which are generated or written by the user, are
-- a parameter. Batches run one reaction after another, as without the feature `parallel-runtime`.
pub mod EventLoop
pub mod Parallel
pub mod Bounds
pub mod Waves
pub mod Tags
pub mod Endings
pub mod Turns
pub mod Liveness
use reactor_rs.Common.{
  ℕ, zero, suc, ◌+◌, ◌==◌, Bool, true, false, ◌||◌, Option, none, some, List, [], ◌∷◌,
  if◌then◌else◌, ltb, leb, get_elem?, set,
}
use reactor_rs.Ids.{GlobalReactionId, startup, shutdown, full_mod}
use reactor_rs.Tag.{
  EventTag, Duration, Instant, origin, tag_lt, tag_eq, successor, to_logical_time, now_tag,
}
use reactor_rs.VecMap.{KeyRef}
use reactor_rs.Level.{Level}
use reactor_rs.Plan.{
  LevelIx, ExecutableReactions, Cow, borrowed, deref, ReactionPlan, next_level, first_batch,
  next_batch, merge_plans_after, merge_cows,
}
use reactor_rs.Queue.{
  Event, EventQueue, PhysicalEvent, DataflowInfo, make_executable, reactions_triggered_by,
  take_earliest, push,
}
use reactor_rs.Context.{ReactionCtx, Insides, ctx_new}
use mathlib.Core.Option

-- `ReactorBehavior` of src/assembly.rs. A `none` is a panic of the reactor.
pub record Behavior : Type 1 where
  pub Reactor : Type 0
  pub reactor_id : Reactor → ℕ
  pub react : Reactor → ReactionCtx → ℕ → Option (Reactor × ReactionCtx)
  pub cleanup_tag : Reactor → EventTag → Option Reactor

-- What running code comes to. The loop that may have no fuel left is that of a wave.
pub data Run (A : Type 0) : Type 0 where
  done : A → Run A
  panicked : Run A
  out_of_fuel : Run A

abbrev pub and_then : {A B : Type 0} → Run A → (A → Run B) → Run B
and_then (done a) f = f a
and_then panicked f = panicked
and_then out_of_fuel f = out_of_fuel

abbrev pub or_panic : {A : Type 0} → Option A → Run A
or_panic (some a) = done a
or_panic none = panicked

pub record SchedulerOptions : Type 0 where
  pub timeout : Option Duration

unfoldable pub batch_after : ReactionPlan → KeyRef LevelIx → Option (KeyRef LevelIx × Level)
batch_after none level_no = none
batch_after (some todo) level_no = next_batch (deref todo) level_no

-- The events of a context are pushed one after the other.
unfoldable pub push_events : EventQueue → List Event → Option EventQueue
push_events queue [] = some queue
push_events queue (evt ∷ evts) = elim (push queue evt) [
  | some queue' ↦ push_events queue' evts
  | none ↦ none
]

unfoldable pub first_of : ReactionPlan → Option (KeyRef LevelIx × Level)
first_of none = none
first_of (some todo) = first_batch (deref todo)

-- Levels ascend and are u32s, so this is enough fuel.
abbrev pub wave_fuel : ℕ
wave_fuel = full_mod + 1

-- The `debug_assert!` on the latest tag.
abbrev pub is_in_order : Option EventTag → EventTag → Bool
is_in_order none tag = true
is_in_order (some latest) tag = tag_lt latest tag

module _ (B : Behavior) where
  pub record SyncScheduler : Type 0 where
    pub latest_processed_tag : Option EventTag
    pub dataflow : DataflowInfo
    pub reactors : List B.Reactor
    pub event_queue : EventQueue
    pub initial_time : Instant
    pub shutdown_time : Option EventTag
    pub was_terminated : Bool

  unfoldable pub scheduler_new :
      SchedulerOptions → DataflowInfo → List B.Reactor → Instant → SyncScheduler
  scheduler_new options dataflow reactors initial_time = record {
    latest_processed_tag = none;
    dataflow = dataflow;
    reactors = reactors;
    event_queue = [];
    initial_time = initial_time;
    shutdown_time = Option.map (λ timeout. successor origin timeout) options.timeout;
    was_terminated = false;
  }

  -- `execute` of `ReactionCtx`, with its `debug_assert_eq!`.
  unfoldable pub execute_reaction :
      ReactionCtx → B.Reactor → GlobalReactionId → Option (B.Reactor × ReactionCtx)
  execute_reaction ctx reactor id =
      if B.reactor_id reactor == id.container
      then Option.map (λ r. (r.0, record (r.1) { current_reaction = none }))
          (B.react reactor (record ctx { current_reaction = some id }) id.local)
      else none

  -- The `for reaction_id in batch`.
  unfoldable pub run_batch :
      ReactionCtx → List B.Reactor → Level → Option (ReactionCtx × List B.Reactor)
  run_batch ctx reactors [] = some (ctx, reactors)
  run_batch ctx reactors (id ∷ batch) = elim (get_elem? reactors id.container) [
    | none ↦ none
    | some reactor ↦ elim (execute_reaction ctx reactor id) [
      | none ↦ none
      | some (reactor', ctx') ↦ run_batch ctx' (set reactors id.container reactor') batch
    ]
  ]

  -- The body of the `while let` of `process_tag`, but for its last line.
  unfoldable pub wave_step :
      ReactionCtx
      → List B.Reactor
      → ReactionPlan
      → KeyRef LevelIx
      → Level
      → Option (ReactionCtx × List B.Reactor × ReactionPlan)
  wave_step ctx reactors reactions level_no batch =
      elim (run_batch (record ctx { cur_level = level_no.key }) reactors batch) [
        | none ↦ none
        | some (ctx', reactors') ↦
            Option.map
              (λ plan. (
                record ctx' { insides = record (ctx'.insides) { todo_now = none } },
                reactors',
                plan,
              ))
              (merge_plans_after reactions ctx'.insides.todo_now (next_level level_no.key))
      ]

  -- The `while let` of `process_tag`.
  unfoldable pub wave_loop :
      ℕ
      → ReactionCtx
      → List B.Reactor
      → ReactionPlan
      → Option (KeyRef LevelIx × Level)
      → Run (ReactionCtx × List B.Reactor)
  wave_loop zero ctx reactors reactions next = out_of_fuel
  wave_loop (suc fuel) ctx reactors reactions none = done (ctx, reactors)
  wave_loop (suc fuel) ctx reactors reactions (some (level_no, batch)) =
      elim (wave_step ctx reactors reactions level_no batch) [
        | none ↦ panicked
        | some (ctx', reactors', plan) ↦
            wave_loop fuel ctx' reactors' plan (batch_after plan level_no)
      ]

  unfoldable pub cleanup_all : List B.Reactor → EventTag → Option (List B.Reactor)
  cleanup_all [] tag = some []
  cleanup_all (r ∷ rs) tag = elim (B.cleanup_tag r tag) [
    | none ↦ none
    | some r' ↦ Option.map (λ rs'. r' ∷ rs') (cleanup_all rs tag)
  ]

  -- What follows the wave: the queue and the clean-up.
  unfoldable pub end_tag :
      SyncScheduler → EventTag → ReactionCtx × List B.Reactor → Option SyncScheduler
  end_tag sched tag (ctx, reactors) =
      elim (push_events sched.event_queue ctx.insides.future_events) [
        | none ↦ none
        | some queue ↦
            Option.map (λ rs. record sched { event_queue = queue; reactors = rs })
              (cleanup_all reactors tag)
      ]

  unfoldable pub run_tag : SyncScheduler → Bool → EventTag → ReactionPlan → Run SyncScheduler
  run_tag sched is_shutdown tag reactions = elim (first_of reactions) [
    | none ↦ done sched
    | some next ↦
        and_then
          (wave_loop wave_fuel (ctx_new tag sched.initial_time none sched.dataflow is_shutdown)
            sched.reactors reactions (some next))
          (λ wave. or_panic (end_tag sched tag wave))
  ]

  unfoldable pub process_tag : SyncScheduler → Bool → EventTag → ReactionPlan → Run SyncScheduler
  unfolding run_tag
  process_tag sched is_shutdown tag reactions =
      if is_in_order sched.latest_processed_tag tag
      then run_tag (record sched { latest_processed_tag = some tag }) is_shutdown tag reactions
      else panicked
