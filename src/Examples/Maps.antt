-- ===== src/Examples/Maps.antt =====
-- Runs of src/util/vecmap.rs and of the sets and plans of src/scheduler/dependencies.rs.
use reactor_rs.Common.{ℕ, ◌≡◌, refl, true, ◌||◌, ◌&&◌, none, some, [], ◌∷◌, leb, arith}
use reactor_rs.Common.Ord.{nat_ord}
use reactor_rs.Ids
use reactor_rs.Ids.{GlobalReactionId, id_eq}
use reactor_rs.VecMap
use reactor_rs.VecMap.{
  VecMap, KeyRef, ok, err, entry, get, contains_key, insert, remove, find_k, find_k_loop,
  find_random_mapping_after, next_mapping, entry_from_ref, write, insert_internal,
}
use reactor_rs.VecMap.Sorted.{IsSorted}
use reactor_rs.VecMap.Laws.{update, insert_refines, remove_refines}
use reactor_rs.VecMap.Entries.{entry_from_ref-entry}
use reactor_rs.VecMap.Walk.{Successor, next_mapping-Successor}
use reactor_rs.Level.{Level, contains, vec_insert, vec_extend, extend}
use reactor_rs.Level
use reactor_rs.Level.Members.{Distinct}
use reactor_rs.Level.Sets.{IsAscending, vec_id_sets_agree}
use reactor_rs.Plan.{
  ExecutableReactions, LevelIx, ReactionPlan, owned, borrowed, absorb_after, merge_plans_after,
}
use reactor_rs.Plan.Has.{has, IsPlan, absorb_after_lem}
use reactor_rs.Plan.Merge.{runs, IsReactionPlan, merge_plans_after_lem}

abbrev sample : VecMap ℕ ℕ
sample = (1, 10) ∷ (4, 40) ∷ (7, 70) ∷ []

sample-IsSorted : IsSorted sample
sample-IsSorted = ((refl, (refl, tt)), ((refl, tt), (tt, tt)))

find_found : (find_k sample 7 ≡ ok 2) × (find_k sample 5 ≡ err 2)
unfolding find_k
find_found = (refl, refl)

insert_middle : insert sample 5 50 ≡ ((1, 10) ∷ (4, 40) ∷ (5, 50) ∷ (7, 70) ∷ [], none)
unfolding insert find_k write insert_internal
insert_middle = refl

insert_refines_example :
    IsSorted (insert sample 4 44).0
    × ((insert sample 4 44).1 ≡ get sample 4)
    × (get (insert sample 4 44).0 ≡ update (get sample) 4 (some 44))
insert_refines_example = insert_refines sample 4 44 sample-IsSorted

remove_refines_example :
    IsSorted (remove sample 4).0
    × ((remove sample 4).1 ≡ get sample 4)
    × (get (remove sample 4).0 ≡ update (get sample) 4 none)
remove_refines_example = remove_refines sample 4 sample-IsSorted

abbrev hint : KeyRef ℕ
hint = record { key = 4; min_idx = 1 }

hint_valid : VecMap.is_valid_keyref sample hint ≡ true
unfolding VecMap.is_valid_keyref
hint_valid = refl

entry_from_ref-entry_example : entry_from_ref sample hint 6 ≡ some (entry sample 6)
entry_from_ref-entry_example = entry_from_ref-entry sample hint 6 sample-IsSorted hint_valid refl

next_mapping-Successor_example : Successor sample 0 4 (next_mapping sample hint)
next_mapping-Successor_example = next_mapping-Successor sample hint sample-IsSorted

abbrev pub one : GlobalReactionId
one = record { container = 1; local = 0 }

abbrev pub two : GlobalReactionId
two = record { container = 2; local = 1 }

abbrev pub three : GlobalReactionId
three = record { container = 3; local = 0 }

abbrev pub both : Level
both = one ∷ two ∷ []

both-Distinct : Distinct both
unfolding contains id_eq Ids.raw
both-Distinct = (refl, (refl, tt))

one-Distinct : Distinct (one ∷ [])
unfolding contains
one-Distinct = (refl, tt)

abbrev pub low : ExecutableReactions
low = (1, both) ∷ (3, one ∷ []) ∷ []

abbrev pub high : ExecutableReactions
high = (2, one ∷ []) ∷ (3, both) ∷ []

pub low-IsPlan : IsPlan low
low-IsPlan = record {
  sorted = ((refl, tt), (tt, tt));
  distinct = (both-Distinct, (one-Distinct, tt));
}

pub high-IsPlan : IsPlan high
high-IsPlan = record {
  sorted = ((refl, tt), (tt, tt));
  distinct = (one-Distinct, (both-Distinct, tt));
}

absorb_after_lem_example :
    (merged : ExecutableReactions) × (absorb_after low high 3 ≡ some merged)
    × IsPlan merged
    × ((level : LevelIx) (id : GlobalReactionId)
        → has merged level id ≡ (has low level id || leb 3 level && has high level id))
absorb_after_lem_example = absorb_after_lem low high 3 low-IsPlan high-IsPlan

merge_plans_after_lem_example :
    (merged : ReactionPlan) × (merge_plans_after (some (owned low)) (some (borrowed high)) 2
      ≡ some merged)
    × IsReactionPlan merged
    × ((level : LevelIx) (id : GlobalReactionId)
        → (leb 2 level && runs merged level id) ≡ (
            leb 2 level
            && (runs (some (owned low)) level id || runs (some (borrowed high)) level id)))
merge_plans_after_lem_example =
    merge_plans_after_lem (some (owned low)) (some (borrowed high)) 2 low-IsPlan high-IsPlan

both-IsAscending : IsAscending both
unfolding Ids.raw
both-IsAscending = ((omega arith, tt), (tt, tt))

vec_id_sets_agree_example :
    IsAscending (vec_insert both three)
    × IsAscending (vec_extend both (three ∷ []))
    × ((q : GlobalReactionId)
        → contains (vec_insert both three) q ≡ contains (Level.insert both three) q)
    × ((q : GlobalReactionId)
        → contains (vec_extend both (three ∷ [])) q ≡ contains (extend both (three ∷ [])) q)
vec_id_sets_agree_example =
    vec_id_sets_agree both both three (three ∷ []) both-IsAscending (λ q. refl)
