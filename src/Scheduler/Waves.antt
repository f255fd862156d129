-- ===== src/Scheduler/Waves.antt =====
-- The wave of `process_tag` in src/scheduler/scheduler_impl.rs: it ends, and it runs the batches of
-- ascending levels.
use reactor_rs.Common.{
  ℕ, zero, suc, ◌+◌, ◌==◌, ◌<◌, ◌≡◌, refl, sym, ◌∙◌, subst, lt, ◌||◌, ◌&&◌, Option, none, some,
  List, [], ◌∷◌, leb, All, get_elem?, set, arith, Bool-cases, Option-cases, inl, inr,
}
use reactor_rs.Ids.{GlobalReactionId, full_mod}
use reactor_rs.Tag.{EventTag, tag_cmp}
use reactor_rs.VecMap.{KeyRef}
use reactor_rs.Level.{Level}
use reactor_rs.Plan.{LevelIx, ReactionPlan, next_level}
use reactor_rs.Plan.Merge.{runs}
use reactor_rs.Queue.{Event}
use reactor_rs.Context.{ReactionCtx, Insides}
use reactor_rs.Scheduler.{
  Behavior, Run, done, panicked, out_of_fuel, execute_reaction, run_batch, wave_step, wave_loop,
  batch_after,
}
use reactor_rs.Scheduler.Bounds.{IsMachinePlan, merge_machine_plans, IsNextBatch, batch_after_lem}

-- What a u32 bounds: the levels of an event's plan and the microstep of its tag.
abbrev pub IsMachineEvent : Event → Type 0
IsMachineEvent evt = IsMachinePlan evt.reactions × (evt.tag.microstep < full_mod)

-- An event for later than a tag.
abbrev pub IsFuture : EventTag → Event → Type 0
IsFuture tag evt = (tag_cmp tag evt.tag ≡ lt) × IsMachineEvent evt

-- What reactions at a tag may gather.
abbrev pub IsGathered : EventTag → Insides → Type 0
IsGathered tag insides =
    IsMachinePlan insides.todo_now × All (λ evt. IsFuture tag evt) insides.future_events

-- Reactors act on a context through its operations only, which do not change the tag, enqueue
-- well-formed plans and schedule for later.
pub record IsOrderly (B : Behavior) : Type 0 where
  pub keeps_tag :
      (r : B.Reactor) (ctx : ReactionCtx) (id : ℕ) (r' : B.Reactor) (ctx' : ReactionCtx)
      → B.react r ctx id ≡ some (r', ctx')
      → ctx'.tag ≡ ctx.tag
  pub gathers :
      (r : B.Reactor) (ctx : ReactionCtx) (id : ℕ) (r' : B.Reactor) (ctx' : ReactionCtx)
      → IsGathered ctx.tag ctx.insides
      → B.react r ctx id ≡ some (r', ctx')
      → IsGathered ctx.tag ctx'.insides

module _ (B : Behavior) (orderly : IsOrderly B) where
  abbrev Kept : EventTag → ReactionCtx → Type 0
  Kept tag ctx = (ctx.tag ≡ tag) × IsGathered tag ctx.insides

  execute_reaction_keeps :
      (tag : EventTag) (ctx ctx' : ReactionCtx) (r r' : B.Reactor) (id : GlobalReactionId)
      → Kept tag ctx
      → execute_reaction B ctx r id ≡ some (r', ctx')
      → Kept tag ctx'
  unfolding execute_reaction
  execute_reaction_keeps tag ctx ctx' r r' id kept e =
      let ctx0 = record ctx { current_reaction = some id } in
      elim (Bool-cases (B.reactor_id r == id.container)) [
        | inr wrong ↦ absurd (ground (arith, wrong, e))
        | inl right ↦ elim (Option-cases (B.react r ctx0 id.local)) [
          | inl failed ↦ absurd (ground (arith, right, failed, e))
          | inr ((r1, ctx1), ran) ↦
              let same : record ctx1 { current_reaction = none } ≡ ctx' =
                ground (arith, right, ran, e) in
              let at_tag = subst (λ t. IsGathered t ctx.insides) (sym kept.0) kept.1 in
              let gathered = orderly.gathers r ctx0 id.local r1 ctx1 at_tag ran in
              subst (λ c. Kept tag c) same
                (
                  orderly.keeps_tag r ctx0 id.local r1 ctx1 ran ∙ kept.0,
                  subst (λ t. IsGathered t ctx1.insides) kept.0 gathered,
                )
        ]
      ]

  pub run_batch_keeps :
      (tag : EventTag) (batch : Level) (ctx ctx' : ReactionCtx) (rs rs' : List B.Reactor)
      → Kept tag ctx
      → run_batch B ctx rs batch ≡ some (ctx', rs')
      → Kept tag ctx'
  unfolding run_batch
  run_batch_keeps tag [] ctx ctx' rs rs' kept e =
      let same : ctx ≡ ctx' = ground (arith, e) in subst (λ c. Kept tag c) same kept
  run_batch_keeps tag (id ∷ batch) ctx ctx' rs rs' kept e =
      elim (Option-cases (get_elem? rs id.container)) [
        | inl gone ↦ absurd (ground (arith, gone, e))
        | inr (r, here) ↦ elim (Option-cases (execute_reaction B ctx r id)) [
          | inl failed ↦ absurd (ground (arith, here, failed, e))
          | inr ((r', ctx1), ran) ↦
              run_batch_keeps tag batch ctx1 ctx' (set rs id.container r') rs'
                (execute_reaction_keeps tag ctx ctx1 r r' id kept ran)
                (ground (arith, here, ran, e))
        ]
      ]

  -- Above a level, a plan runs what either of two runs.
  abbrev UnionAbove : ReactionPlan → ReactionPlan → KeyRef LevelIx → ReactionPlan → Type 0
  UnionAbove plan todo level_no plan' =
      (level : LevelIx) (id : GlobalReactionId)
      → (leb (next_level level_no.key) level && runs plan' level id)
        ≡ (leb (next_level level_no.key) level && (runs plan level id || runs todo level id))

  -- What a round of a wave ends in.
  abbrev Stepped :
      EventTag → ReactionPlan → KeyRef LevelIx → ReactionPlan → ReactionCtx → ReactionPlan → Type 0
  Stepped tag plan level_no todo ctx' plan' =
      Kept tag ctx'
      × (ctx'.insides.todo_now ≡ none)
      × IsMachinePlan plan'
      × UnionAbove plan todo level_no plan'

  pub wave_step_lem :
      (tag : EventTag) (ctx ctx' : ReactionCtx) (rs rs' : List B.Reactor)
      (plan plan' : ReactionPlan) (level_no : KeyRef LevelIx) (batch : Level)
      → ctx.tag ≡ tag
      → IsGathered tag ctx.insides
      → IsMachinePlan plan
      → wave_step B ctx rs plan level_no batch ≡ some (ctx', rs', plan')
      → (ran : ReactionCtx) × (run_batch B (record ctx { cur_level = level_no.key }) rs batch
          ≡ some (ran, rs'))
        × Stepped tag plan level_no ran.insides.todo_now ctx' plan'
        × IsNextBatch plan' level_no.key (batch_after plan' level_no)
  unfolding wave_step
  wave_step_lem tag ctx ctx' rs rs' plan plan' level_no batch at gathered good e =
      let ctx0 = record ctx { cur_level = level_no.key } in
      elim (Option-cases (run_batch B ctx0 rs batch)) [
        | inl failed ↦ absurd (ground (arith, failed, e))
        | inr ((ran, rs1), ok) ↦
            let kept = run_batch_keeps tag batch ctx0 ran rs rs1 (at, gathered) ok in
            let (merged, merges, good', same) =
              merge_machine_plans plan ran.insides.todo_now (next_level level_no.key) good
                kept.1.0 in
            let left = record ran { insides = record (ran.insides) { todo_now = none } } in
            let left_ctx : left ≡ ctx' = ground (arith, ok, merges, e) in
            let left_reactors : rs1 ≡ rs' = ground (arith, ok, merges, e) in
            let left_plan : merged ≡ plan' = ground (arith, ok, merges, e) in
            (
              ran,
              ground (arith, ok, left_reactors),
              (
                subst (λ c. Kept tag c) left_ctx (kept.0, (tt, kept.1.1)),
                subst (λ c. c.insides.todo_now ≡ none) left_ctx refl,
                subst (λ p. IsMachinePlan p) left_plan good',
                subst (λ p. UnionAbove plan ran.insides.todo_now level_no p) left_plan same,
              ),
              batch_after_lem plan' level_no (subst (λ p. IsMachinePlan p) left_plan good'),
            )
      ]

  -- Enough fuel for a wave whose next batch is at this level.
  abbrev pub IsFueled : ℕ → Option (KeyRef LevelIx × Level) → Type 0
  IsFueled fuel none = 0 < fuel
  IsFueled fuel (some (r, batch)) = (r.key < full_mod) × (full_mod < r.key + fuel)

  -- What a wave ends in: a panic, of a reactor or of the scheduler, or what the reactions gathered
  -- for later.
  abbrev pub IsWaveResult : EventTag → Run (ReactionCtx × List B.Reactor) → Type 0
  IsWaveResult tag out_of_fuel = ⊥
  IsWaveResult tag panicked = Unit
  IsWaveResult tag (done (ctx, rs)) = (ctx.tag ≡ tag) × IsGathered tag ctx.insides

  next-IsFueled :
      (fuel : ℕ) (level : LevelIx) (plan : ReactionPlan) (next : Option (KeyRef LevelIx × Level))
      → level < full_mod
      → full_mod < level + suc fuel
      → IsNextBatch plan level next
      → IsFueled fuel next
  next-IsFueled fuel level plan none h f n = omega arith
  next-IsFueled fuel level plan (some (r, batch)) h f n = (n.1, omega (arith, n.0))

  pub wave_loop_ends :
      (fuel : ℕ) (tag : EventTag) (ctx : ReactionCtx) (rs : List B.Reactor) (plan : ReactionPlan)
      (next : Option (KeyRef LevelIx × Level))
      → ctx.tag ≡ tag
      → IsGathered tag ctx.insides
      → IsMachinePlan plan
      → IsFueled fuel next
      → IsWaveResult tag (wave_loop B fuel ctx rs plan next)
  unfolding wave_loop
  wave_loop_ends zero tag ctx rs plan none at gathered good f = absurd (omega arith)
  wave_loop_ends zero tag ctx rs plan (some (r, batch)) at gathered good f =
      absurd (omega (arith, f.0, f.1))
  wave_loop_ends (suc fuel) tag ctx rs plan none at gathered good f = (at, gathered)
  wave_loop_ends (suc fuel) tag ctx rs plan (some (r, batch)) at gathered good f =
      elim (Option-cases (wave_step B ctx rs plan r batch)) [
        | inl failed ↦ rw (failed, wave_loop) tt
        | inr ((ctx', rs', plan'), stepped) ↦
            let (_, _, (kept, _, good', _), next') =
              wave_step_lem tag ctx ctx' rs rs' plan plan' r batch at gathered good stepped in
            rw (stepped, wave_loop)
              (wave_loop_ends fuel tag ctx' rs' plan' (batch_after plan' r) kept.0 kept.1 good'
                (next-IsFueled fuel r.key plan' (batch_after plan' r) f.0 f.1 next'))
      ]
