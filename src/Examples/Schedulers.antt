-- ===== src/Examples/Schedulers.antt =====
-- Runs of the scheduler over a small program: one reactor, which asks to stop.
use reactor_rs.Common.{
  ℕ, suc, ◌<◌, ◌≡◌, refl, subst, lt, true, false, ◌++◌, none, some, List, [], ◌∷◌, All, arith,
}
use reactor_rs.Ids.{full_mod}
use reactor_rs.Common.Ord.{nat_ord}
use reactor_rs.Tag.{EventTag, after, origin, successor, tag_cmp, to_duration}
use reactor_rs.Plan.{ExecutableReactions, LevelIx, ReactionPlan, borrowed}
use reactor_rs.VecMap.{KeyRef}
use reactor_rs.Queue.{Event, terminate_at, physical_trigger}
use reactor_rs.Context.{ReactionCtx, request_stop, push_future, make_successor_tag}
use reactor_rs.Scheduler.{Behavior, SyncScheduler}
use reactor_rs.Scheduler.EventLoop.{Turn}
use reactor_rs.Scheduler.Bounds.{IsMachinePlan}
use reactor_rs.Scheduler.Waves.{IsFuture, IsGathered, IsOrderly}
use reactor_rs.Scheduler.Endings.{IsMachineFlow}
use reactor_rs.Examples.Maps.{low, high, low-IsPlan, high-IsPlan}
use reactor_rs.Examples.Events.{at, two_events}

-- A reactor counts its reactions; each asks to stop five nanoseconds later.
abbrev pub stopper : Behavior
stopper = record {
  Reactor = ℕ × ℕ;
  reactor_id = λ r. r.0;
  react = λ r ctx id. some ((r.0, suc r.1), request_stop ctx (after 5));
  cleanup_tag = λ r tag. some r;
}

later_by_five : (t : EventTag) → tag_cmp t (successor t 5) ≡ lt
unfolding successor
later_by_five t = ground arith

five_fits : (t : EventTag) → (successor t 5).microstep < full_mod
unfolding successor
five_fits t = ground arith

All-append :
    (tag : EventTag) (evts : List Event) (e : Event)
    → All (λ e. IsFuture tag e) evts
    → IsFuture tag e
    → All (λ e. IsFuture tag e) (evts ++ (e ∷ []))
All-append tag [] e a f = (f, tt)
All-append tag (x ∷ evts) e a f = (a.0, All-append tag evts e a.1 f)

pub stopper_orderly : IsOrderly stopper
unfolding request_stop push_future make_successor_tag to_duration terminate_at
stopper_orderly = record {
  keeps_tag = λ r ctx id r' ctx' e.
      let same : request_stop ctx (after 5) ≡ ctx' = ground (arith, e) in
      subst (λ c. c.tag ≡ ctx.tag) same refl;
  gathers = λ r ctx id r' ctx' g e.
      let same : request_stop ctx (after 5) ≡ ctx' = ground (arith, e) in
      subst (λ c. IsGathered ctx.tag c.insides) same
        (
          g.0,
          All-append ctx.tag ctx.insides.future_events (terminate_at (successor ctx.tag 5)) g.1
              (later_by_five ctx.tag, (tt, five_fits ctx.tag)),
        );
}

pub flushed_later :
    (tag_cmp origin (physical_trigger (at 7 0) 3).tag ≡ lt)
    × ((physical_trigger (at 7 0) 3).tag.microstep < full_mod)
unfolding physical_trigger
flushed_later = (refl, omega arith)

abbrev pub flow : List ExecutableReactions
flow = low ∷ high ∷ low ∷ high ∷ low ∷ []

pub low_machine : IsMachinePlan (some (borrowed low))
low_machine = (low-IsPlan, (omega arith, (omega arith, tt)))

high_machine : IsMachinePlan (some (borrowed high))
high_machine = (high-IsPlan, (omega arith, (omega arith, tt)))

pub flow_machine : IsMachineFlow flow
flow_machine = (low_machine, (high_machine, (low_machine, (high_machine, (low_machine, tt)))))

abbrev pub ctx_at : EventTag → ReactionPlan → ReactionCtx
ctx_at tag todo = record {
  insides = record { todo_now = todo; future_events = [] };
  tag = tag;
  cur_level = 1;
  current_reaction = none;
  initial_time = 100;
  dataflow = flow;
  was_terminated = false;
}

abbrev level_one : KeyRef LevelIx
level_one = record { key = 1; min_idx = 0 }

abbrev pub reactors : List (ℕ × ℕ)
reactors = (0, 0) ∷ (1, 0) ∷ (2, 0) ∷ []

abbrev pub waiting : SyncScheduler stopper
waiting = record {
  latest_processed_tag = some origin;
  dataflow = flow;
  reactors = reactors;
  event_queue = two_events;
  initial_time = 100;
  shutdown_time = none;
  was_terminated = false;
}

abbrev pub quiet : Turn
quiet = record {
  flushed = physical_trigger (at 7 0) 3 ∷ [];
  now = 200;
  received = none;
  end_time = 300;
}

abbrev level_three : KeyRef LevelIx
level_three = record { key = 3; min_idx = 1 }

abbrev pub idle_ctx : ReactionCtx
idle_ctx = ctx_at (at 5 0) none

abbrev stepped_ctx : ReactionCtx
stepped_ctx = record idle_ctx {
  insides = record {
    todo_now = none;
    future_events = record { tag = at 10 0; reactions = none; terminate = true } ∷ [];
  };
  cur_level = 3;
}

abbrev stepped_reactors : List (ℕ × ℕ)
stepped_reactors = (0, 0) ∷ (1, 1) ∷ (2, 0) ∷ []
