-- ===== src/Scheduler/Parallel/Gathering.antt =====
-- What the chunks of a batch of src/scheduler/scheduler_impl.rs gather together.
use reactor_rs.Common.{◌≡◌, Bool, false, ◌||◌, Option, none, some, List, [], ◌∷◌, ◌++◌}
use reactor_rs.Ids.{GlobalReactionId}
use reactor_rs.Tag.{EventTag}
use reactor_rs.Level.{Level}
use reactor_rs.Plan.{LevelIx}
use reactor_rs.Plan.Merge.{runs}
use reactor_rs.Queue.{Event}
use reactor_rs.Context.{ReactionCtx, Insides, fork}
use reactor_rs.Scheduler.{Behavior, run_batch}
use reactor_rs.Scheduler.Waves.{IsGathered, IsOrderly}
use reactor_rs.Scheduler.Parallel.{Split, chunk, both}

-- Two parts joined.
abbrev IsJoined : Insides → Insides → Insides → Type 0
IsJoined self other merged =
    (merged.future_events ≡ self.future_events ++ other.future_events)
    × ((level : LevelIx) (id : GlobalReactionId)
        → runs merged.todo_now level id
          ≡ (runs self.todo_now level id || runs other.todo_now level id))

-- The events of the parts, one part after the other.
abbrev pub events_of : List Insides → List Event
events_of [] = []
events_of (part ∷ parts) = part.future_events ++ events_of parts

-- Whether one of the parts runs a reaction at a level.
abbrev pub any_runs : List Insides → LevelIx → GlobalReactionId → Bool
any_runs [] level id = false
any_runs (part ∷ parts) level id = runs part.todo_now level id || any_runs parts level id

-- The chunks that a split comes to, in order.
abbrev pub chunks : Split → List Level
chunks (chunk batch) = batch ∷ []
chunks (both l r) = chunks l ++ chunks r

-- Parts joined: their events in order, and at every level what one of them runs.
abbrev pub Collects : List Insides → Insides → Type 0
Collects parts gathered =
    (gathered.future_events ≡ events_of parts)
    × ((level : LevelIx) (id : GlobalReactionId)
        → runs gathered.todo_now level id ≡ any_runs parts level id)

module _ (B : Behavior) where
  -- Every chunk runs on its own, in a fork of the context, on the reactors that the one before it
  -- leaves: what each of them gathers.
  unfoldable pub run_each :
      ReactionCtx → List B.Reactor → List Level → Option (List Insides × List B.Reactor)
  run_each ctx rs [] = some ([], rs)
  run_each ctx rs (batch ∷ batches) = elim (run_batch B (fork ctx) rs batch) [
    | none ↦ none
    | some (c, rs') ↦ elim (run_each ctx rs' batches) [
      | none ↦ none
      | some (parts, rs'') ↦ some (c.insides ∷ parts, rs'')
    ]
  ]

module _ (B : Behavior) (orderly : IsOrderly B) where
  -- What is gathered for a tag, of parts.
  abbrev IsCollected : EventTag → List Insides → Insides → Type 0
  IsCollected tag parts gathered = IsGathered tag gathered × Collects parts gathered
