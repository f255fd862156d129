-- ===== src/Plan/Has.antt =====
-- Which reactions a plan of src/scheduler/dependencies.rs holds at a level, under `insert` and
-- `absorb_after`, and the invariant that both keep.
use reactor_rs.Common.{
  ◌≡◌, refl, gt, Option, none, some, [], ◌∷◌, Bool, false, ◌&&◌, ◌||◌, arith, compare, leb, ==_iff,
  ◌==◌,
}
use reactor_rs.Common.Ord.{nat_ord}
use reactor_rs.Ids.{GlobalReactionId, id_eq}
use reactor_rs.Level.{Level, contains, is_empty, extend}
use reactor_rs.Level
use reactor_rs.Level.Members.{
  Distinct, contains-insert, contains-extend, extend-Distinct, is_empty-contains, insert-Distinct,
}
use reactor_rs.VecMap.{get, entry, Entry, vacant, occupied}
use reactor_rs.VecMap.Sorted.{IsSorted, Above}
use reactor_rs.VecMap.Reference.{lookup, alter, get-lookup}
use reactor_rs.VecMap.Laws.{lookup-alter, alter-IsSorted, lookup-Above}
use reactor_rs.VecMap.Entries.{settle, settle-entry}
use reactor_rs.VecMap.Walk.{suffix}
use reactor_rs.Plan.{ExecutableReactions, LevelIx, insert, insert_entry, absorb_after}
use reactor_rs.Plan.Absorb.{merge_from, absorb_level, absorb_after-merge_from, suffix-IsSorted}

-- Membership in the level found, if any.
abbrev pub in_level : Option Level → GlobalReactionId → Bool
in_level none id = false
in_level (some l) id = contains l id

-- Whether the plan runs the reaction at the level.
unfoldable pub has : ExecutableReactions → LevelIx → GlobalReactionId → Bool
has plan level id = in_level (get plan level) id

abbrev LevelsDistinct : ExecutableReactions → Type 0
LevelsDistinct [] = Unit
LevelsDistinct ((k, l) ∷ m) = Distinct l × LevelsDistinct m

-- Levels strictly ascend, and none holds a reaction twice.
pub record IsPlan (plan : ExecutableReactions) : Type 0 where
  pub sorted : IsSorted plan
  pub distinct : LevelsDistinct plan

abbrev found_in : ExecutableReactions → LevelIx → GlobalReactionId → Bool
found_in plan level id = in_level (lookup plan level) id

pub has-found_in :
    (plan : ExecutableReactions) (level : LevelIx) (id : GlobalReactionId)
    → IsSorted plan
    → has plan level id ≡ found_in plan level id
unfolding has
has-found_in plan level id s = ground (arith, get-lookup plan level s)

in_level-absorb_level :
    (l : Level) (old : Option Level) (id : GlobalReactionId)
    → contains (absorb_level l old) id ≡ (in_level old id || contains l id)
in_level-absorb_level l none id = refl
in_level-absorb_level l (some old) id =
    ground (arith, contains-extend old l id, is_empty-contains old id)

found_in-alter :
    (m : ExecutableReactions) (k : LevelIx) (l : Level) (level : LevelIx) (id : GlobalReactionId)
    → IsSorted m
    → found_in (alter m k (absorb_level l)) level id
      ≡ (found_in m level id || level == k && contains l id)
found_in-alter m k l level id s = ground (
  arith,
  lookup-alter m k (absorb_level l) level s,
  in_level-absorb_level l (lookup m k) id,
  ==_iff level k,
)

found_in-cons :
    (k : LevelIx) (l : Level) (m : ExecutableReactions) (level : LevelIx) (id : GlobalReactionId)
    → Above k m
    → found_in ((k, l) ∷ m) level id ≡ (level == k && contains l id || found_in m level id)
unfolding lookup
found_in-cons k l m level id a =
    ground (arith, lookup-Above m k a, ==_iff level k, lookup_low k m level a)
  where
    lookup_low :
        (k : LevelIx) (m : ExecutableReactions) (level : LevelIx)
        → Above k m
        → compare k level ≡ gt
        → lookup m level ≡ none
    lookup_low k [] level a h = refl
    lookup_low k ((j, v) ∷ m) level a h = ground arith

found_in-merge_from :
    (dst src : ExecutableReactions) (level : LevelIx) (id : GlobalReactionId)
    → IsSorted dst
    → IsSorted src
    → found_in (merge_from dst src) level id ≡ (found_in dst level id || found_in src level id)
unfolding merge_from lookup
found_in-merge_from dst [] level id s t = ground arith
found_in-merge_from dst ((k, l) ∷ src) level id s t = ground (
  arith,
  found_in-merge_from (alter dst k (absorb_level l)) src level id
      (alter-IsSorted dst k (absorb_level l) s) t.1,
  found_in-alter dst k l level id s,
  found_in-cons k l src level id t.0,
)

found_in-suffix :
    (m : ExecutableReactions) (min level : LevelIx) (id : GlobalReactionId)
    → IsSorted m
    → found_in (suffix m min) level id ≡ (leb min level && found_in m level id)
unfolding lookup
found_in-suffix [] min level id s = ground arith
found_in-suffix ((k, l) ∷ m) min level id s =
    ground (arith, found_in-suffix m min level id s.1, lookup-Above m k s.0)

alter-LevelsDistinct :
    (m : ExecutableReactions) (k : LevelIx) (f : Option Level → Level)
    → Distinct (f none)
    → ((old : Level) → Distinct old → Distinct (f (some old)))
    → LevelsDistinct m
    → LevelsDistinct (alter m k f)
unfolding alter
alter-LevelsDistinct [] k f d e t = (d, tt)
alter-LevelsDistinct ((j, v) ∷ m) k f d e t =
    ground (arith, alter-LevelsDistinct m k f d e t.1, e v t.0)

absorb_level-Distinct :
    (l old : Level) → Distinct l → Distinct old → Distinct (absorb_level l (some old))
absorb_level-Distinct l old d e = ground (arith, extend-Distinct old l e)

merge_from-IsPlan :
    (dst src : ExecutableReactions) → IsPlan dst → IsPlan src → IsPlan (merge_from dst src)
unfolding merge_from
merge_from-IsPlan dst [] p q = p
merge_from-IsPlan dst ((k, l) ∷ src) p q =
    merge_from-IsPlan (alter dst k (absorb_level l)) src
      (record {
        sorted = alter-IsSorted dst k (absorb_level l) p.sorted;
        distinct =
            alter-LevelsDistinct dst k (absorb_level l) q.distinct.0
              (λ old d. absorb_level-Distinct l old q.distinct.0 d) p.distinct;
      })
      (record { sorted = q.sorted.1; distinct = q.distinct.1 })

suffix-LevelsDistinct :
    (m : ExecutableReactions) (key : LevelIx) → LevelsDistinct m → LevelsDistinct (suffix m key)
suffix-LevelsDistinct [] key d = tt
suffix-LevelsDistinct ((k, v) ∷ m) key d = ground (arith, suffix-LevelsDistinct m key d.1)

-- `absorb_after` of a well-formed plan into another does not panic and ends in a well-formed plan.
-- At every level it holds what `dst` held and, from the given level on, what `src` holds too.
pub absorb_after_lem :
    (dst src : ExecutableReactions) (min : LevelIx)
    → IsPlan dst
    → IsPlan src
    → (merged : ExecutableReactions) × (absorb_after dst src min ≡ some merged)
      × IsPlan merged
      × ((level : LevelIx) (id : GlobalReactionId)
          → has merged level id ≡ (has dst level id || leb min level && has src level id))
absorb_after_lem dst src min p q =
    let taken = suffix src min in
    let merged = merge_from dst taken in
    let good : IsPlan merged = merge_from-IsPlan dst taken p (record {
      sorted = suffix-IsSorted src min q.sorted;
      distinct = suffix-LevelsDistinct src min q.distinct;
    }) in
    (
      merged,
      absorb_after-merge_from dst src min p.sorted q.sorted,
      good,
      λ level id. ground (
        arith,
        has-found_in merged level id good.sorted,
        has-found_in dst level id p.sorted,
        has-found_in src level id q.sorted,
        found_in-merge_from dst taken level id p.sorted (suffix-IsSorted src min q.sorted),
        found_in-suffix src min level id q.sorted,
      ),
    )

-- What a level becomes when a reaction is inserted.
abbrev insert_level : GlobalReactionId → Option Level → Level
insert_level id none = id ∷ []
insert_level id (some old) = Level.insert old id

in_level-insert_level :
    (id : GlobalReactionId) (old : Option Level) (q : GlobalReactionId)
    → contains (insert_level id old) q ≡ (in_level old q || id_eq id q)
unfolding contains
in_level-insert_level id none q = ground arith
in_level-insert_level id (some old) q = ground (arith, contains-insert old id q)

insert_entry-settle :
    (plan : ExecutableReactions) (e : Entry LevelIx) (id : GlobalReactionId)
    → insert_entry plan e id ≡ settle plan e (insert_level id)
unfolding insert_entry settle
insert_entry-settle plan (vacant key i) id = refl
insert_entry-settle plan (occupied key i) id = ground arith

-- `insert` adds the reaction at its level and changes nothing else; it keeps a plan well formed.
pub insert_lem :
    (plan : ExecutableReactions) (id : GlobalReactionId) (level : LevelIx)
    → IsPlan plan
    → IsPlan (insert plan id level)
      × ((l : LevelIx) (q : GlobalReactionId)
          → has (insert plan id level) l q ≡ (has plan l q || l == level && id_eq id q))
unfolding insert
insert_lem plan id level p =
    rw
      (
        insert_entry-settle plan (entry plan level) id,
        settle-entry plan level (insert_level id) p.sorted,
      )
      (
        good,
        λ l q. ground (
          arith,
          has-found_in (alter plan level (insert_level id)) l q good.sorted,
          has-found_in plan l q p.sorted,
          lookup-alter plan level (insert_level id) l p.sorted,
          in_level-insert_level id (lookup plan level) q,
          ==_iff l level,
        ),
      )
  where
    good : IsPlan (alter plan level (insert_level id))
    good = record {
      sorted = alter-IsSorted plan level (insert_level id) p.sorted;
      distinct =
          alter-LevelsDistinct plan level (insert_level id) (refl, tt)
            (λ old d. insert-Distinct old id d) p.distinct;
    }
