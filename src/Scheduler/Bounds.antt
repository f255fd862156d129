-- ===== src/Scheduler/Bounds.antt =====
-- Levels of the plans of src/scheduler/dependencies.rs stay u32s, and the batches of a plan ascend.
use reactor_rs.Common.{
  ℕ, zero, suc, ◌<◌, ◌≡◌, refl, subst, false, ◌||◌, ◌&&◌, Option, none, some, [], ◌∷◌, ltb, leb,
  arith, Bool-cases, inl, inr,
}
use reactor_rs.Common.Ord.{nat_ord}
use reactor_rs.Ids.{GlobalReactionId, full_mod}
use reactor_rs.Level.{Level, contains}
use reactor_rs.VecMap.{KeyRef, key_at, next_mapping}
use reactor_rs.VecMap.Reference.{alter}
use reactor_rs.VecMap.Walk.{suffix, Successor, next_mapping-Successor}
use reactor_rs.Plan.{
  ExecutableReactions, LevelIx, Cow, borrowed, owned, deref, ReactionPlan, max_level, next_batch,
  absorb_after, merge_both, merge_plans_after,
}
use reactor_rs.Plan.Absorb.{merge_from, absorb_level, absorb_after-merge_from}
use reactor_rs.Plan.Has.{IsPlan, has-found_in}
use reactor_rs.Plan.Merge.{runs, IsReactionPlan, merge_plans_after_lem}
use reactor_rs.Scheduler.{batch_after}
use mathlib.Core.Option

-- What the machine type of a level guarantees.
abbrev pub LevelsInRange : ExecutableReactions → Type 0
LevelsInRange [] = Unit
LevelsInRange ((k, l) ∷ m) = (k < full_mod) × LevelsInRange m

-- A well-formed plan of machine levels, or none.
abbrev pub IsMachinePlan : ReactionPlan → Type 0
IsMachinePlan none = Unit
IsMachinePlan (some plan) = IsPlan (deref plan) × LevelsInRange (deref plan)

pub reaction_plan : (plan : ReactionPlan) → IsMachinePlan plan → IsReactionPlan plan
reaction_plan none p = tt
reaction_plan (some plan) p = p.0

alter_in :
    (m : ExecutableReactions) (key : LevelIx) (f : Option Level → Level)
    → LevelsInRange m
    → key < full_mod
    → LevelsInRange (alter m key f)
unfolding alter
alter_in [] key f r h = (h, tt)
alter_in ((k, l) ∷ m) key f r h = ground (arith, alter_in m key f r.1 h)

suffix_in :
    (m : ExecutableReactions) (key : LevelIx) → LevelsInRange m → LevelsInRange (suffix m key)
suffix_in [] key r = tt
suffix_in ((k, l) ∷ m) key r = ground (arith, suffix_in m key r.1)

merge_from_in :
    (dst src : ExecutableReactions)
    → LevelsInRange dst
    → LevelsInRange src
    → LevelsInRange (merge_from dst src)
unfolding merge_from
merge_from_in dst [] r s = r
merge_from_in dst ((k, l) ∷ src) r s =
    merge_from_in (alter dst k (absorb_level l)) src (alter_in dst k (absorb_level l) r s.0) s.1

-- A merged plan is in range, if it is `r`.
abbrev MergedIn : Option ReactionPlan → Type 0
MergedIn none = Unit
MergedIn (some none) = Unit
MergedIn (some (some plan)) = LevelsInRange (deref plan)

absorbed_in :
    (x y : ExecutableReactions) (min : LevelIx)
    → IsPlan x
    → IsPlan y
    → LevelsInRange x
    → LevelsInRange y
    → MergedIn (Option.map (λ r. some (owned r)) (absorb_after x y min))
absorbed_in x y min p q r s =
    rw (absorb_after-merge_from x y min p.sorted q.sorted)
      (merge_from_in x (suffix y min) r (suffix_in y min s))

merge_both_in :
    (x y : Cow ExecutableReactions) (min : LevelIx)
    → IsMachinePlan (some x)
    → IsMachinePlan (some y)
    → MergedIn (merge_both x y min)
unfolding merge_both
merge_both_in (owned x) y min p q = absorbed_in x (deref y) min p.0 q.0 p.1 q.1
merge_both_in (borrowed x) (owned y) min p q = absorbed_in y x min q.0 p.0 q.1 p.1
merge_both_in (borrowed x) (borrowed y) min p q =
    elim (Bool-cases (ltb (max_level y) (max_level x))) [
      | inl less ↦ rw less (absorbed_in y x min q.0 p.0 q.1 p.1)
      | inr more ↦ rw more (absorbed_in x y min p.0 q.0 p.1 q.1)
    ]

levels_of : (plan : ReactionPlan) → IsMachinePlan plan → MergedIn (some plan)
levels_of none p = tt
levels_of (some plan) p = p.1

merge_plans_after_in :
    (x y : ReactionPlan) (min : LevelIx)
    → IsMachinePlan x
    → IsMachinePlan y
    → MergedIn (merge_plans_after x y min)
unfolding merge_plans_after
merge_plans_after_in none y min p q = levels_of y q
merge_plans_after_in (some x) none min p q = p.1
merge_plans_after_in (some x) (some y) min p q = elim (Bool-cases (ltb (max_level (deref x)) min)) [
  | inl low ↦ rw low q.1
  | inr high ↦ rw high (elim (Bool-cases (ltb (max_level (deref y)) min)) [
    | inl low ↦ rw low p.1
    | inr both ↦ rw both (merge_both_in x y min p q)
  ])
]

in_machine : (plan : ReactionPlan) → IsReactionPlan plan → MergedIn (some plan) → IsMachinePlan plan
in_machine none p r = tt
in_machine (some plan) p r = (p, r)

-- `merge_plans_after` on plans of machine levels.
pub merge_machine_plans :
    (x y : ReactionPlan) (min : LevelIx)
    → IsMachinePlan x
    → IsMachinePlan y
    → (merged : ReactionPlan) × (merge_plans_after x y min ≡ some merged)
      × IsMachinePlan merged
      × ((level : LevelIx) (id : GlobalReactionId)
          → (leb min level && runs merged level id)
            ≡ (leb min level && (runs x level id || runs y level id)))
merge_machine_plans x y min p q =
    let (merged, done, fine, same) =
      merge_plans_after_lem x y min (reaction_plan x p) (reaction_plan y q) in
    let within : MergedIn (some merged) =
      subst (λ r. MergedIn r) done (merge_plans_after_in x y min p q) in
    (merged, done, in_machine merged fine within, same)

key_at_in :
    (m : ExecutableReactions) (i : ℕ) (k : LevelIx)
    → LevelsInRange m
    → key_at m i ≡ some k
    → k < full_mod
key_at_in [] i k r e = ground arith
key_at_in ((j, l) ∷ m) zero k r e = ground arith
key_at_in ((j, l) ∷ m) (suc i) k r e = key_at_in m i k r.1 e

-- What the next batch after a level is: the reactions planned at the least level above it.
abbrev pub IsNextBatch : ReactionPlan → LevelIx → Option (KeyRef LevelIx × Level) → Type 0
IsNextBatch plan level none =
    (l : LevelIx) (id : GlobalReactionId) → (ltb level l && runs plan l id) ≡ false
IsNextBatch plan level (some (r, batch)) =
    (level < r.key)
    × (r.key < full_mod)
    × ((id : GlobalReactionId) → contains batch id ≡ runs plan r.key id)
    × ((l : LevelIx) (id : GlobalReactionId)
        → (ltb level l && ltb l r.key && runs plan l id) ≡ false)

module _ (plan : ExecutableReactions) (level : LevelIx) (good : IsPlan plan)
    (range : LevelsInRange plan) where
  next_of :
      (c : Cow ExecutableReactions) (next : Option (KeyRef LevelIx × Level))
      → deref c ≡ plan
      → Successor plan 0 level next
      → IsNextBatch (some c) level next
  unfolding runs
  next_of c none e s = λ l id. rw e (ground (arith, has-found_in plan l id good.sorted, s l))
  next_of c (some (r, batch)) e (i, _, here, above, reads, gap) = (
    ground arith,
    key_at_in plan i r.key range here,
    λ id. rw e (ground (arith, has-found_in plan r.key id good.sorted, reads)),
    λ l id. rw e (ground (arith, has-found_in plan l id good.sorted, gap l)),
  )

-- The batch that follows a level in a plan is that of the least level above; there is none only if
-- the plan runs nothing above.
pub batch_after_lem :
    (plan : ReactionPlan) (level_no : KeyRef LevelIx)
    → IsMachinePlan plan
    → IsNextBatch plan level_no.key (batch_after plan level_no)
unfolding batch_after next_batch runs
batch_after_lem none level_no p = λ l id. ground arith
batch_after_lem (some plan) level_no (good, range) =
    next_of (deref plan) level_no.key good range plan (next_mapping (deref plan) level_no) refl
      (next_mapping-Successor (deref plan) level_no good.sorted)
