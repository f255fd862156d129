-- ===== src/Level.antt =====
-- `Level` of src/scheduler/dependencies.rs: a set of reaction ids. The default build keeps a
-- `HashSet`, here its members in some order; with `vec-id-sets` it is a sorted vector.
pub mod Members
pub mod Sets
use reactor_rs.Common.{
  ℕ, lt, eq, gt, Bool, true, false, ◌||◌, List, [], ◌∷◌, ◌++◌, if◌then◌else◌, length,
}
use reactor_rs.Ids.{GlobalReactionId, id_eq, id_cmp}

abbrev pub Level : Type 0
Level = List GlobalReactionId

unfoldable pub contains : Level → GlobalReactionId → Bool
contains [] id = false
contains (j ∷ l) id = id_eq j id || contains l id

unfoldable pub with_capacity : ℕ → Level
with_capacity cap = []

unfoldable pub is_empty : Level → Bool
is_empty [] = true
is_empty (_ ∷ _) = false

unfoldable pub len : Level → ℕ
len l = length l

-- `HashSet::insert`.
unfoldable pub insert : Level → GlobalReactionId → Level
unfolding contains
insert l id = if contains l id then l else id ∷ l

-- `HashSet::extend`.
unfoldable pub extend : Level → List GlobalReactionId → Level
unfolding insert
extend l [] = l
extend l (id ∷ ids) = extend (insert l id) ids

-- `binary_search` and `Vec::insert` at the place it returns.
unfoldable pub vec_insert : Level → GlobalReactionId → Level
vec_insert [] id = id ∷ []
vec_insert (j ∷ l) id = elim (id_cmp j id) [
  | lt ↦ j ∷ vec_insert l id
  | eq ↦ j ∷ l
  | gt ↦ id ∷ j ∷ l
]

-- `slice::sort`, which is stable: an item goes behind its equals.
unfoldable pub sort_insert : GlobalReactionId → Level → Level
sort_insert id [] = id ∷ []
sort_insert id (j ∷ l) = elim (id_cmp id j) [ gt ↦ j ∷ sort_insert id l | _ ↦ id ∷ j ∷ l ]

unfoldable pub sort : Level → Level
unfolding sort_insert
sort [] = []
sort (id ∷ l) = sort_insert id (sort l)

-- `Vec::dedup`: of a run of equal items the first stays.
unfoldable pub dedup_after : GlobalReactionId → Level → Level
dedup_after j [] = []
dedup_after j (id ∷ l) =
    let rest = dedup_after j l in
    let kept = id ∷ dedup_after id l in if id_eq j id then rest else kept

unfoldable pub dedup : Level → Level
unfolding dedup_after
dedup [] = []
dedup (id ∷ l) = id ∷ dedup_after id l

unfoldable pub vec_extend : Level → List GlobalReactionId → Level
unfolding sort dedup
vec_extend l ids = dedup (sort (l ++ ids))
