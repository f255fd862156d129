-- ===== src/Level/Sets.antt =====
-- `Level` of src/scheduler/dependencies.rs with the feature `vec-id-sets`: a strictly ascending
-- vector, with the same members as the hash set of the default build.
use reactor_rs.Common.{ℕ, ◌≡◌, refl, ◌≤◌, ◌<◌, false, ◌||◌, List, [], ◌∷◌, ◌++◌, arith}
use reactor_rs.Ids.{GlobalReactionId, raw, id_eq, id_cmp}
use reactor_rs.Level.{
  Level, contains, insert, extend, vec_insert, sort_insert, sort, dedup_after, dedup, vec_extend,
}
use reactor_rs.Level.Members.{contains-insert, contains-extend, contains-append}

abbrev Beyond : ℕ → Level → Type 0
Beyond b [] = Unit
Beyond b (j ∷ l) = (b < raw j) × Beyond b l

-- Raw values strictly ascend.
abbrev pub IsAscending : Level → Type 0
IsAscending [] = Unit
IsAscending (j ∷ l) = Beyond (raw j) l × IsAscending l

Beyond-le : (a b : ℕ) (l : Level) → a ≤ b → Beyond b l → Beyond a l
Beyond-le a b [] h u = tt
Beyond-le a b (j ∷ l) h u = (omega arith, Beyond-le a b l h u.1)

Beyond-contains : (l : Level) (q : GlobalReactionId) → Beyond (raw q) l → contains l q ≡ false
unfolding contains id_eq
Beyond-contains [] q u = refl
Beyond-contains (j ∷ l) q u = ground (arith, Beyond-contains l q u.1)

Beyond-vec_insert :
    (b : ℕ) (l : Level) (id : GlobalReactionId)
    → b < raw id
    → Beyond b l
    → Beyond b (vec_insert l id)
unfolding vec_insert
Beyond-vec_insert b [] id h u = (h, tt)
Beyond-vec_insert b (j ∷ l) id h u = ground (arith, Beyond-vec_insert b l id h u.1)

vec_insert-IsAscending :
    (l : Level) (id : GlobalReactionId) → IsAscending l → IsAscending (vec_insert l id)
unfolding vec_insert id_cmp
vec_insert-IsAscending [] id s = (tt, tt)
vec_insert-IsAscending (j ∷ l) id s = ground (
  arith,
  vec_insert-IsAscending l id s.1,
  Beyond-vec_insert (raw j) l id,
  Beyond-le (raw id) (raw j) l,
)

contains-vec_insert :
    (l : Level) (id q : GlobalReactionId)
    → contains (vec_insert l id) q ≡ (id_eq id q || contains l q)
unfolding vec_insert contains id_eq id_cmp
contains-vec_insert [] id q = refl
contains-vec_insert (j ∷ l) id q = ground (arith, contains-vec_insert l id q)

-- Raw values ascend, perhaps with repetitions.
abbrev AtLeast : ℕ → Level → Type 0
AtLeast b [] = Unit
AtLeast b (j ∷ l) = (b ≤ raw j) × AtLeast b l

abbrev IsWeak : Level → Type 0
IsWeak [] = Unit
IsWeak (j ∷ l) = AtLeast (raw j) l × IsWeak l

AtLeast-le : (a b : ℕ) (l : Level) → a ≤ b → AtLeast b l → AtLeast a l
AtLeast-le a b [] h u = tt
AtLeast-le a b (j ∷ l) h u = (omega arith, AtLeast-le a b l h u.1)

AtLeast-sort_insert :
    (b : ℕ) (id : GlobalReactionId) (l : Level)
    → b ≤ raw id
    → AtLeast b l
    → AtLeast b (sort_insert id l)
unfolding sort_insert
AtLeast-sort_insert b id [] h u = (h, tt)
AtLeast-sort_insert b id (j ∷ l) h u = ground (arith, AtLeast-sort_insert b id l h u.1)

sort_insert-IsWeak : (id : GlobalReactionId) (l : Level) → IsWeak l → IsWeak (sort_insert id l)
unfolding sort_insert id_cmp
sort_insert-IsWeak id [] s = (tt, tt)
sort_insert-IsWeak id (j ∷ l) s = ground (
  arith,
  sort_insert-IsWeak id l s.1,
  AtLeast-sort_insert (raw j) id l,
  AtLeast-le (raw id) (raw j) l,
)

sort-IsWeak : (l : Level) → IsWeak (sort l)
unfolding sort
sort-IsWeak [] = tt
sort-IsWeak (id ∷ l) = sort_insert-IsWeak id (sort l) (sort-IsWeak l)

contains-sort_insert :
    (id : GlobalReactionId) (l : Level) (q : GlobalReactionId)
    → contains (sort_insert id l) q ≡ (id_eq id q || contains l q)
unfolding sort_insert contains
contains-sort_insert id [] q = refl
contains-sort_insert id (j ∷ l) q = ground (arith, contains-sort_insert id l q)

contains-sort : (l : Level) (q : GlobalReactionId) → contains (sort l) q ≡ contains l q
unfolding sort contains
contains-sort [] q = refl
contains-sort (id ∷ l) q = ground (arith, contains-sort_insert id (sort l) q, contains-sort l q)

dedup_after-Beyond :
    (j : GlobalReactionId) (l : Level)
    → AtLeast (raw j) l
    → IsWeak l
    → Beyond (raw j) (dedup_after j l) × IsAscending (dedup_after j l)
unfolding dedup_after id_eq
dedup_after-Beyond j [] a s = (tt, tt)
dedup_after-Beyond j (id ∷ l) a s = ground (
  arith,
  dedup_after-Beyond j l a.1 s.1,
  dedup_after-Beyond id l s.0 s.1,
  Beyond-le (raw j) (raw id) (dedup_after id l),
)

contains-dedup_after :
    (j : GlobalReactionId) (l : Level) (q : GlobalReactionId)
    → (id_eq j q || contains (dedup_after j l) q) ≡ (id_eq j q || contains l q)
unfolding dedup_after contains id_eq
contains-dedup_after j [] q = refl
contains-dedup_after j (id ∷ l) q =
    ground (arith, contains-dedup_after j l q, contains-dedup_after id l q)

dedup-IsAscending : (l : Level) → IsWeak l → IsAscending (dedup l)
unfolding dedup
dedup-IsAscending [] s = tt
dedup-IsAscending (id ∷ l) s = dedup_after-Beyond id l s.0 s.1

contains-dedup : (l : Level) (q : GlobalReactionId) → contains (dedup l) q ≡ contains l q
unfolding dedup contains
contains-dedup [] q = refl
contains-dedup (id ∷ l) q = contains-dedup_after id l q

-- With `vec-id-sets` the vector stays strictly ascending, and its members are at each step those of
-- the hash set of the default build.
pub vec_id_sets_agree :
    (l h : Level) (id : GlobalReactionId) (ids : List GlobalReactionId)
    → IsAscending l
    → ((q : GlobalReactionId) → contains l q ≡ contains h q)
    → IsAscending (vec_insert l id)
      × IsAscending (vec_extend l ids)
      × ((q : GlobalReactionId) → contains (vec_insert l id) q ≡ contains (insert h id) q)
      × ((q : GlobalReactionId) → contains (vec_extend l ids) q ≡ contains (extend h ids) q)
unfolding vec_extend
vec_id_sets_agree l h id ids s same = (
  vec_insert-IsAscending l id s,
  dedup-IsAscending (sort (l ++ ids)) (sort-IsWeak (l ++ ids)),
  λ q. ground (arith, contains-vec_insert l id q, contains-insert h id q, same q),
  λ q. ground (
    arith,
    contains-dedup (sort (l ++ ids)) q,
    contains-sort (l ++ ids) q,
    contains-append l ids q,
    contains-extend h ids q,
    same q,
  ),
)
