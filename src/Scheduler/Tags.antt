-- ===== src/Scheduler/Tags.antt =====
-- `process_tag` of src/scheduler/scheduler_impl.rs: it ends, and leaves a queue of later events.
use reactor_rs.Common.{
  ◌<◌, ◌≡◌, refl, sym, subst, Bool, true, none, some, List, [], ◌∷◌, All, All-get_elem?, All-set,
  All-insert_at, get_elem?, set, insert_at, arith, Bool-cases, Option-cases, inl, inr,
}
use reactor_rs.Common.Ord.{nat_ord}
use reactor_rs.Tag.{EventTag, tag_eq}
use reactor_rs.VecMap.{Found, ok, err, min_entry}
use reactor_rs.Plan.{LevelIx, ExecutableReactions, deref, ReactionPlan, first_batch, merge_cows}
use reactor_rs.Queue.{Event, EventQueue, absorb, search_tag, push_at, push}
use reactor_rs.Queue.Laws.{Later, IsQueue, push_at_lem, pending}
use reactor_rs.Ids.{GlobalReactionId, full_mod}
use reactor_rs.Context.{ReactionCtx, ctx_new}
use reactor_rs.Scheduler.{
  Behavior, Run, done, panicked, out_of_fuel, and_then, or_panic, SyncScheduler, wave_loop,
  wave_fuel, first_of, push_events, cleanup_all, end_tag, run_tag, process_tag, is_in_order,
}
use reactor_rs.Scheduler.Bounds.{IsMachinePlan, LevelsInRange, merge_machine_plans, reaction_plan}
use reactor_rs.Scheduler.Waves.{
  IsMachineEvent, IsFuture, IsOrderly, IsFueled, IsWaveResult, wave_loop_ends,
}

-- Events with levels and microsteps that fit a u32.
abbrev AllMachine : EventQueue → Type 0
AllMachine queue = All (λ e. IsMachineEvent e) queue

-- A queue of events for later than a tag.
abbrev pub IsPending : EventTag → EventQueue → Type 0
IsPending tag queue = IsQueue queue × AllMachine queue × Later tag queue

-- What is pending stays pending.
abbrev pub Keeps : EventQueue → EventQueue → Type 0
Keeps queue after =
    (t : EventTag) (level : LevelIx) (id : GlobalReactionId)
    → pending queue t level id ≡ true
    → pending after t level id ≡ true

absorb_machine :
    (e evt absorbed : Event)
    → IsMachineEvent e
    → IsMachineEvent evt
    → absorb e evt ≡ some absorbed
    → IsMachineEvent absorbed
unfolding absorb merge_cows
absorb_machine e evt absorbed p q h =
    let (merged, merges, good, _) = merge_machine_plans e.reactions evt.reactions 0 p.0 q.0 in
    elim (Bool-cases (tag_eq e.tag evt.tag)) [
      | inr apart ↦ absurd (ground (arith, apart, h))
      | inl same ↦
          let left : merged ≡ absorbed.reactions = ground (arith, same, merges, h) in
          let at : e.tag ≡ absorbed.tag = ground (arith, same, merges, h) in
          (subst (λ p. IsMachinePlan p) left good, subst (λ t. t.microstep < full_mod) at p.1)
    ]

push_at_machine :
    (queue after : EventQueue) (evt : Event) (r : Found)
    → AllMachine queue
    → IsMachineEvent evt
    → push_at queue evt r ≡ some after
    → AllMachine after
unfolding push_at
push_at_machine queue after evt (err i) a p h =
    let same : insert_at queue i evt ≡ after = ground (arith, h) in
    subst (λ q. AllMachine q) same (All-insert_at (λ e. IsMachineEvent e) queue i evt a p)
push_at_machine queue after evt (ok i) a p h = elim (Option-cases (get_elem? queue i)) [
  | inl gone ↦ absurd (ground (arith, gone, h))
  | inr (e, here) ↦ elim (Option-cases (absorb e evt)) [
    | inl failed ↦ absurd (ground (arith, here, failed, h))
    | inr (e', ok_absorbed) ↦
        let same : set queue i e' ≡ after = ground (arith, here, ok_absorbed, h) in
        subst (λ q. AllMachine q) same
          (All-set (λ e. IsMachineEvent e) queue i e' a
            (absorb_machine e evt e' (All-get_elem? (λ e. IsMachineEvent e) queue i e a here) p
              ok_absorbed))
  ]
]

pub push-IsPending :
    (tag : EventTag) (queue : EventQueue) (evt : Event)
    → IsPending tag queue
    → IsFuture tag evt
    → (after : EventQueue) × (push queue evt ≡ some after) × IsPending tag after × Keeps queue after
unfolding push
push-IsPending tag queue evt (good, machine, later) (ahead, plan) =
    let (after, pushed, kept, ahead_of, pends, _) =
      push_at_lem queue evt good (reaction_plan evt.reactions plan.0) in
    (
      after,
      pushed,
      (
        kept,
        push_at_machine queue after evt (search_tag queue evt.tag) machine plan pushed,
        ahead_of tag ahead later,
      ),
      λ t level id h. ground (arith, pends t level id, h),
    )

push_events-IsPending :
    (tag : EventTag) (queue : EventQueue) (evts : List Event)
    → IsPending tag queue
    → All (λ evt. IsFuture tag evt) evts
    → (after : EventQueue) × (push_events queue evts ≡ some after)
      × IsPending tag after
      × Keeps queue after
unfolding push_events
push_events-IsPending tag queue [] p a = (queue, refl, p, λ t level id h. h)
push_events-IsPending tag queue (evt ∷ evts) p a =
    let (mid, pushed, q, keeps) = push-IsPending tag queue evt p a.0 in
    let (after, rest, r, keeps') = push_events-IsPending tag mid evts q a.1 in
    (after, ground (arith, pushed, rest), r, λ t level id h. keeps' t level id (keeps t level id h))

module _ (B : Behavior) (orderly : IsOrderly B) where
  -- What a scheduler that has processed a tag looks like: the tag is the latest, every event that
  -- is pending is for later, the shutdown time and the data flow are as before, and what was
  -- pending is.
  abbrev pub IsAfter : SyncScheduler B → EventTag → SyncScheduler B → Type 0
  IsAfter sched tag s =
      (s.latest_processed_tag ≡ some tag)
      × IsPending tag s.event_queue
      × (s.shutdown_time ≡ sched.shutdown_time)
      × (s.dataflow ≡ sched.dataflow)
      × Keeps sched.event_queue s.event_queue

  -- A panic, of a reactor or of the scheduler, is the other outcome.
  abbrev pub IsTagResult : SyncScheduler B → EventTag → Run (SyncScheduler B) → Type 0
  IsTagResult sched tag out_of_fuel = ⊥
  IsTagResult sched tag panicked = Unit
  IsTagResult sched tag (done s) = IsAfter sched tag s

  end_tag_result :
      (sched : SyncScheduler B) (tag : EventTag) (wave : Run (ReactionCtx × List B.Reactor))
      → sched.latest_processed_tag ≡ some tag
      → IsPending tag sched.event_queue
      → IsWaveResult B orderly tag wave
      → IsTagResult sched tag (and_then wave (λ w. or_panic (end_tag B sched tag w)))
  unfolding end_tag
  end_tag_result sched tag out_of_fuel at p w = w
  end_tag_result sched tag panicked at p w = tt
  end_tag_result sched tag (done (ctx, rs)) at p (same, gathered) =
      let (after, pushed, q, keeps) =
        push_events-IsPending tag sched.event_queue ctx.insides.future_events p gathered.1 in
      elim (Option-cases (cleanup_all B rs tag)) [
        | inl failed ↦
            let e : end_tag B sched tag (ctx, rs) ≡ none = ground (arith, pushed, failed) in
            subst (λ o. IsTagResult sched tag (or_panic o)) (sym e) tt
        | inr (rs', cleaned) ↦
            let s : SyncScheduler B = record sched { event_queue = after; reactors = rs' } in
            let e : end_tag B sched tag (ctx, rs) ≡ some s = ground (arith, pushed, cleaned) in
            subst (λ o. IsTagResult sched tag (or_panic o)) (sym e) (at, q, refl, refl, keeps)
      ]

  first-IsFueled :
      (plan : ExecutableReactions)
      → LevelsInRange plan
      → IsFueled B orderly wave_fuel (first_batch plan)
  unfolding first_batch min_entry
  first-IsFueled [] r = omega arith
  first-IsFueled ((k, l) ∷ plan) r = (r.0, omega arith)

  first_of-IsFueled :
      (plan : ReactionPlan) → IsMachinePlan plan → IsFueled B orderly wave_fuel (first_of plan)
  unfolding first_of
  first_of-IsFueled none p = omega arith
  first_of-IsFueled (some plan) p = first-IsFueled (deref plan) p.1

  run_tag_result :
      (sched : SyncScheduler B) (is_shutdown : Bool) (tag : EventTag) (reactions : ReactionPlan)
      → sched.latest_processed_tag ≡ some tag
      → IsPending tag sched.event_queue
      → IsMachinePlan reactions
      → IsTagResult sched tag (run_tag B sched is_shutdown tag reactions)
  unfolding run_tag ctx_new
  run_tag_result sched is_shutdown tag reactions at p good =
      elim (Option-cases (first_of reactions)) [
        | inl idle ↦ rw (idle, run_tag) (at, p, refl, refl, λ t level id h. h)
        | inr (next, here) ↦
            let ctx = ctx_new tag sched.initial_time none sched.dataflow is_shutdown in
            let fuel =
              subst (λ n. IsFueled B orderly wave_fuel n) here (first_of-IsFueled reactions good) in
            rw (here, run_tag)
              (end_tag_result sched tag
                (wave_loop B wave_fuel ctx sched.reactors reactions (some next)) at p
                (wave_loop_ends B orderly wave_fuel tag ctx sched.reactors reactions (some next)
                  refl (tt, tt) good fuel))
      ]

  pub process_tag_lem :
      (sched : SyncScheduler B) (is_shutdown : Bool) (tag : EventTag) (reactions : ReactionPlan)
      → is_in_order sched.latest_processed_tag tag ≡ true
      → IsPending tag sched.event_queue
      → IsMachinePlan reactions
      → IsTagResult sched tag (process_tag B sched is_shutdown tag reactions)
  unfolding process_tag
  process_tag_lem sched is_shutdown tag reactions ahead p good =
      rw (ahead, process_tag)
        (run_tag_result (record sched { latest_processed_tag = some tag }) is_shutdown tag reactions
          refl p good)
