-- ===== src/Plan/Merge.antt =====
-- `merge_plans_after` and `merge_cows` of src/scheduler/dependencies.rs are unions of plans.
use reactor_rs.Common.{
  ◌≡◌, ◌≤◌, ◌<◌, refl, Option, none, some, [], ◌∷◌, Bool, true, false, ◌&&◌, ◌||◌, arith, ltb, leb,
  Bool-cases, inl, inr, tests,
}
use reactor_rs.Common.Ord.{nat_ord}
use reactor_rs.Ids.{GlobalReactionId}
use reactor_rs.Level.{Level}
use reactor_rs.VecMap.Sorted.{IsSorted}
use reactor_rs.VecMap.Reference.{lookup}
use reactor_rs.Plan.{
  ExecutableReactions, LevelIx, Cow, borrowed, owned, deref, ReactionPlan, max_level, merge_both,
  merge_plans_after, merge_cows, absorb_after,
}
use reactor_rs.Plan.Has.{has, IsPlan, has-found_in, absorb_after_lem}
use mathlib.Core.Option

-- A plan of the scheduler: perhaps absent, owned or borrowed.
unfoldable pub runs : ReactionPlan → LevelIx → GlobalReactionId → Bool
runs none level id = false
runs (some plan) level id = has (deref plan) level id

abbrev pub IsReactionPlan : ReactionPlan → Type 0
IsReactionPlan none = Unit
IsReactionPlan (some plan) = IsPlan (deref plan)

last_above :
    (j : LevelIx) (l' : Level) (m : ExecutableReactions)
    → IsSorted ((j, l') ∷ m)
    → j ≤ max_level ((j, l') ∷ m)
unfolding max_level
last_above j l' [] s = omega arith
last_above j l' ((i, l'') ∷ m) s = ground (arith, last_above i l'' m s.1)

lookup_beyond :
    (m : ExecutableReactions) (level : LevelIx)
    → IsSorted m
    → max_level m < level
    → lookup m level ≡ none
unfolding lookup max_level
lookup_beyond [] level s h = refl
lookup_beyond ((k, l) ∷ []) level s h = ground arith
lookup_beyond ((k, l) ∷ (j, l') ∷ m) level s h =
    ground (arith, lookup_beyond ((j, l') ∷ m) level s.1, last_above j l' m s.1)

-- A plan whose greatest level is below a level runs nothing there.
pub has_beyond :
    (m : ExecutableReactions) (min level : LevelIx) (id : GlobalReactionId)
    → IsPlan m
    → ltb (max_level m) min ≡ true
    → leb min level ≡ true
    → has m level id ≡ false
has_beyond m min level id p h k =
    ground (arith, has-found_in m level id p.sorted, lookup_beyond m level p.sorted (omega tests))

abbrev IsUnion : ReactionPlan → ReactionPlan → LevelIx → Option ReactionPlan → Type 0
IsUnion x y min result =
    (merged : ReactionPlan) × (result ≡ some merged)
    × IsReactionPlan merged
    × ((level : LevelIx) (id : GlobalReactionId)
        → (leb min level && runs merged level id)
          ≡ (leb min level && (runs x level id || runs y level id)))

module _ (x y : ExecutableReactions) (min : LevelIx) (p : IsPlan x) (q : IsPlan y) where
  absorbed :
      (a b : Cow ExecutableReactions)
      → deref a ≡ x
      → deref b ≡ y
      → IsUnion (some a) (some b) min (Option.map (λ r. some (owned r)) (absorb_after x y min))
  unfolding runs
  absorbed a b e f =
      let (merged, done, good, same) = absorb_after_lem x y min p q in
      (some (owned merged), rw done, good, λ level id. ground (arith, same level id))

  absorbed_swapped :
      (a b : Cow ExecutableReactions)
      → deref a ≡ x
      → deref b ≡ y
      → IsUnion (some b) (some a) min (Option.map (λ r. some (owned r)) (absorb_after x y min))
  unfolding runs
  absorbed_swapped a b e f =
      let (merged, done, good, same) = absorb_after_lem x y min p q in
      (some (owned merged), rw done, good, λ level id. ground (arith, same level id))

merge_both_lem :
    (x y : Cow ExecutableReactions) (min : LevelIx)
    → IsPlan (deref x)
    → IsPlan (deref y)
    → IsUnion (some x) (some y) min (merge_both x y min)
unfolding merge_both
merge_both_lem (owned x) y min p q = absorbed x (deref y) min p q (owned x) y refl refl
merge_both_lem (borrowed x) (owned y) min p q =
    absorbed_swapped y x min q p (owned y) (borrowed x) refl refl
merge_both_lem (borrowed x) (borrowed y) min p q =
    elim (Bool-cases (ltb (max_level y) (max_level x))) [
      | inl less ↦ rw less (absorbed_swapped y x min q p (borrowed y) (borrowed x) refl refl)
      | inr more ↦ rw more (absorbed x y min p q (borrowed x) (borrowed y) refl refl)
    ]

-- Merging two well-formed plans, absent, owned or borrowed, does not panic and ends in a
-- well-formed plan, which from the given level on runs at each level what either of the two runs
-- there.
pub merge_plans_after_lem :
    (x y : ReactionPlan) (min : LevelIx)
    → IsReactionPlan x
    → IsReactionPlan y
    → (merged : ReactionPlan) × (merge_plans_after x y min ≡ some merged)
      × IsReactionPlan merged
      × ((level : LevelIx) (id : GlobalReactionId)
          → (leb min level && runs merged level id)
            ≡ (leb min level && (runs x level id || runs y level id)))
unfolding merge_plans_after runs
merge_plans_after_lem none y min p q = (y, refl, q, λ level id. ground arith)
merge_plans_after_lem (some x) none min p q = (some x, refl, p, λ level id. ground arith)
merge_plans_after_lem (some x) (some y) min p q =
    elim (Bool-cases (ltb (max_level (deref x)) min)) [
      | inl low ↦
          rw low
            (some y, refl, q, λ level id. ground (arith, has_beyond (deref x) min level id p low))
      | inr high ↦ rw high (elim (Bool-cases (ltb (max_level (deref y)) min)) [
        | inl low ↦
            rw low
              (some x, refl, p, λ level id. ground (arith, has_beyond (deref y) min level id q low))
        | inr both ↦ rw both (merge_both_lem x y min p q)
      ])
    ]

-- `merge_cows` of well-formed plans runs at every level what either of the two runs there.
pub merge_cows_lem :
    (x y : ReactionPlan)
    → IsReactionPlan x
    → IsReactionPlan y
    → (merged : ReactionPlan) × (merge_cows x y ≡ some merged)
      × IsReactionPlan merged
      × ((level : LevelIx) (id : GlobalReactionId)
          → runs merged level id ≡ (runs x level id || runs y level id))
unfolding merge_cows
merge_cows_lem x y p q =
    let (merged, done, good, same) = merge_plans_after_lem x y 0 p q in
    (merged, done, good, λ level id. ground (arith, same level id))
