-- ===== src/Plan.antt =====
-- `ExecutableReactions` of src/scheduler/dependencies.rs: the reactions to run at a tag, by level.
-- The `Cow` round a level has no effect but on copying and is left out; that round a plan is kept,
-- since merging looks at it. An outer `none` is a panic.
pub mod Absorb
pub mod Has
pub mod Merge
use reactor_rs.Common.{
  ℕ, zero, suc, ◌+◌, ◌%◌, Bool, true, false, Option, none, some, List, [], ◌∷◌, length, ltb,
  if◌then◌else◌,
}
use reactor_rs.Common.Ord.{nat_ord}
use reactor_rs.Ids.{GlobalReactionId, full_mod}
use reactor_rs.Level.{Level, with_capacity, is_empty, extend}
use reactor_rs.Level
use reactor_rs.VecMap.{
  VecMap, KeyRef, Entry, vacant, occupied, keyref, entry, entry_from_ref, vacant_insert,
  occupied_get, occupied_replace, find_random_mapping_after, next_mapping, min_entry, max_key,
}
use mathlib.Core.Option

-- `LevelIx`, by its number.
abbrev pub LevelIx : Type 0
LevelIx = ℕ

-- `self.0 + 1` on u32, as a release build computes it.
unfoldable pub next_level : LevelIx → LevelIx
next_level l = (l + 1) % full_mod

abbrev pub ExecutableReactions : Type 0
ExecutableReactions = VecMap LevelIx Level

pub data Cow (A : Type 0) : Type 0 where
  borrowed : A → Cow A
  owned : A → Cow A

abbrev pub deref : {A : Type 0} → Cow A → A
deref (borrowed a) = a
deref (owned a) = a

abbrev pub ReactionPlan : Type 0
ReactionPlan = Option (Cow ExecutableReactions)

unfoldable pub batches : ExecutableReactions → List (LevelIx × Level)
batches plan = plan

unfoldable pub first_batch : ExecutableReactions → Option (KeyRef LevelIx × Level)
unfolding min_entry
first_batch plan = min_entry plan

unfoldable pub next_batch : ExecutableReactions → KeyRef LevelIx → Option (KeyRef LevelIx × Level)
next_batch plan min_level_exclusive = next_mapping plan min_level_exclusive

unfoldable pub max_level : ExecutableReactions → LevelIx
unfolding max_key
max_level plan = Option.get_or (max_key plan) 0

-- The body of the `match dst_entry`.
unfoldable pub absorb_entry : ExecutableReactions → Entry LevelIx → Level → ExecutableReactions
unfolding vacant_insert occupied_get occupied_replace
absorb_entry dst (vacant key index) src_level = vacant_insert dst key index src_level
absorb_entry dst (occupied key index) src_level = elim (occupied_get dst index) [
  | some level ↦
      if is_empty level
      then occupied_replace dst index src_level
      else occupied_replace dst index (extend level src_level)
  | none ↦ dst
]

-- With a hint, linear probing from where the last round left off; else binary search.
unfoldable pub find_dst :
    ExecutableReactions → Option (KeyRef LevelIx) → LevelIx → Option (Entry LevelIx)
find_dst dst (some hint) key = entry_from_ref dst hint key
find_dst dst none key = some (entry dst key)

-- The `while let` of `absorb_after`.
unfoldable pub absorb_loop :
    ℕ
    → (src dst : ExecutableReactions) → Option (KeyRef LevelIx × Level)
    → Option (KeyRef LevelIx)
    → Option ExecutableReactions
absorb_loop zero src dst next_src hint = none
absorb_loop (suc fuel) src dst none hint = some dst
absorb_loop (suc fuel) src dst (some (src_ix, src_level)) hint =
    elim (find_dst dst hint src_ix.key) [
      | none ↦ none
      | some dst_entry ↦
          absorb_loop fuel src (absorb_entry dst dst_entry src_level) (next_mapping src src_ix)
            (some (keyref dst_entry))
    ]

-- Each round visits another entry of `src`.
unfoldable pub absorb_after : (dst src : ExecutableReactions) → LevelIx → Option ExecutableReactions
absorb_after dst src min_level = elim (find_random_mapping_after src min_level) [
  | none ↦ none
  | some next_src ↦ absorb_loop (suc (length src)) src dst next_src none
]

-- `insert`, through the entry of the level.
unfoldable pub insert_entry :
    ExecutableReactions → Entry LevelIx → GlobalReactionId → ExecutableReactions
unfolding vacant_insert occupied_get occupied_replace with_capacity Level.insert
insert_entry plan (vacant key index) reaction =
    vacant_insert plan key index (Level.insert (with_capacity 1) reaction)
insert_entry plan (occupied key index) reaction = elim (occupied_get plan index) [
  | some level ↦ occupied_replace plan index (Level.insert level reaction)
  | none ↦ plan
]

unfoldable pub insert : ExecutableReactions → GlobalReactionId → LevelIx → ExecutableReactions
unfolding insert_entry
insert plan reaction level_ix = insert_entry plan (entry plan level_ix) reaction

-- The last two arms of `merge_plans_after`. `to_mut` makes a borrowed plan an owned copy.
unfoldable pub merge_both :
    Cow ExecutableReactions → Cow ExecutableReactions → LevelIx → Option ReactionPlan
merge_both (owned x) y min_level =
    Option.map (λ r. some (owned r)) (absorb_after x (deref y) min_level)
merge_both (borrowed x) (owned y) min_level =
    Option.map (λ r. some (owned r)) (absorb_after y x min_level)
merge_both (borrowed x) (borrowed y) min_level =
    if ltb (max_level y) (max_level x)
    then Option.map (λ r. some (owned r)) (absorb_after y x min_level)
    else Option.map (λ r. some (owned r)) (absorb_after x y min_level)

unfoldable pub merge_plans_after : ReactionPlan → ReactionPlan → LevelIx → Option ReactionPlan
unfolding merge_both
merge_plans_after none y min_level = some y
merge_plans_after (some x) none min_level = some (some x)
merge_plans_after (some x) (some y) min_level =
    if ltb (max_level (deref x)) min_level
    then some (some y)
    else if ltb (max_level (deref y)) min_level
    then some (some x)
    else merge_both x y min_level

unfoldable pub merge_cows : ReactionPlan → ReactionPlan → Option ReactionPlan
unfolding merge_plans_after
merge_cows x y = merge_plans_after x y 0
