-- ===== src/Scheduler/Parallel.antt =====
-- `parallel_rt_impl` of src/scheduler/scheduler_impl.rs: a batch that a thread pool splits into
-- chunks. How it is split is an argument. The reactions of a batch are on different reactors, so
-- the chunks run here one after the other.
pub mod Gathering
use reactor_rs.Common.{Option, none, some, List}
use reactor_rs.Level.{Level}
use reactor_rs.Context.{ReactionCtx, Insides, no_insides, fork, merge, absorb}
use reactor_rs.Scheduler.{Behavior, run_batch}
use mathlib.Core.Option

-- The chunks of a batch, and how what they gather is joined.
pub data Split : Type 0 where
  chunk : Level → Split
  both : Split → Split → Split

-- What two parts gathered, merged.
abbrev pub join : {A : Type 0} → Insides → Option (Insides × A) → Option (Insides × A)
join self none = none
join self (some (other, a)) = Option.map (λ merged. (merged, a)) (merge self other)

module _ (B : Behavior) where
  -- A chunk runs in a fork of the context.
  unfoldable pub run_chunk :
      ReactionCtx → List B.Reactor → Level → Option (Insides × List B.Reactor)
  run_chunk ctx reactors batch = elim (run_batch B (fork ctx) reactors batch) [
    | none ↦ none
    | some (ctx', reactors') ↦ join no_insides (some (ctx'.insides, reactors'))
  ]

  unfoldable pub run_split :
      ReactionCtx → List B.Reactor → Split → Option (Insides × List B.Reactor)
  unfolding run_chunk
  run_split ctx reactors (chunk batch) = run_chunk ctx reactors batch
  run_split ctx reactors (both l r) = elim (run_split ctx reactors l) [
    | none ↦ none
    | some (self, reactors') ↦ join self (run_split ctx reactors' r)
  ]

  unfoldable pub process_batch :
      ReactionCtx → List B.Reactor → Split → Option (ReactionCtx × List B.Reactor)
  unfolding run_split
  process_batch ctx reactors split = elim (run_split ctx reactors split) [
    | none ↦ none
    | some (gathered, reactors') ↦
        Option.map (λ insides. (record ctx { insides = insides }, reactors'))
          (absorb ctx.insides gathered)
  ]
