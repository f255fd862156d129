-- ===== src/Examples/Batches.antt =====
-- A batch of src/scheduler/scheduler_impl.rs that is split into two chunks.
use reactor_rs.Common.{ℕ, ◌≡◌, refl, true, none, some, List, [], ◌∷◌}
use reactor_rs.Tag.{successor, to_duration}
use reactor_rs.Plan.{merge_plans_after, merge_cows}
use reactor_rs.Queue.{terminate_at}
use reactor_rs.Context.{
  ReactionCtx, Insides, fork, merge, absorb, request_stop, push_future, make_successor_tag,
}
use reactor_rs.Scheduler.{run_batch, execute_reaction}
use reactor_rs.Scheduler.Parallel.{Split, chunk, both, run_chunk, run_split, process_batch}
use reactor_rs.Examples.Maps.{one, two}
use reactor_rs.Examples.Events.{at}
use reactor_rs.Examples.Schedulers.{stopper, idle_ctx, reactors}

abbrev split : Split
split = both (chunk (one ∷ [])) (chunk (two ∷ []))

abbrev joined_ctx : ReactionCtx
joined_ctx = record idle_ctx {
  insides = record {
    todo_now = none;
    future_events =
        record { tag = at 10 0; reactions = none; terminate = true }
        ∷ record { tag = at 10 0; reactions = none; terminate = true }
        ∷ [];
  };
}

abbrev joined_reactors : List (ℕ × ℕ)
joined_reactors = (0, 0) ∷ (1, 1) ∷ (2, 1) ∷ []

split_runs : process_batch stopper idle_ctx reactors split ≡ some (joined_ctx, joined_reactors)
unfolding process_batch run_split run_chunk run_batch execute_reaction fork merge absorb merge_cows
    merge_plans_after request_stop push_future make_successor_tag to_duration terminate_at successor
split_runs = refl

abbrev part : Insides
part = record {
  todo_now = none;
  future_events = record { tag = at 10 0; reactions = none; terminate = true } ∷ [];
}
