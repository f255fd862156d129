-- ===== src/Plan/Absorb.antt =====
-- `absorb_after` of src/scheduler/dependencies.rs as a fold over the levels that it takes.
use reactor_rs.Common.{
  ℕ, zero, suc, ◌+◌, ◌≡◌, ◌<◌, refl, Option, none, some, [], ◌∷◌, true, arith, drop, length,
  if◌then◌else◌,
}
use reactor_rs.Common.Ord.{nat_ord, key_le}
use reactor_rs.Level.{Level, is_empty, extend}
use reactor_rs.VecMap.{KeyRef, Entry, vacant, occupied, keyref, key_at, entry, is_valid_keyref}
use reactor_rs.VecMap.Sorted.{IsSorted}
use reactor_rs.VecMap.Search.{locate}
use reactor_rs.VecMap.Reference.{alter}
use reactor_rs.VecMap.Laws.{alter-IsSorted}
use reactor_rs.VecMap.Entries.{settle, settle-entry, entry-locate, entry_from_ref-entry, place}
use reactor_rs.VecMap.Walk.{
  first, suffix, index_of, index_of-shift, drop-locate, drop_suc, next_mapping-drop,
  find_random_mapping_after-first,
}
use reactor_rs.Plan.{
  ExecutableReactions, LevelIx, absorb_entry, absorb_loop, absorb_after, find_dst,
}

-- What a level becomes when `l` is absorbed.
abbrev pub absorb_level : Level → Option Level → Level
absorb_level l none = l
absorb_level l (some old) = if is_empty old then l else extend old l

unfoldable pub merge_from : ExecutableReactions → ExecutableReactions → ExecutableReactions
merge_from dst [] = dst
merge_from dst ((k, l) ∷ rest) = merge_from (alter dst k (absorb_level l)) rest

absorb_entry-settle :
    (dst : ExecutableReactions) (e : Entry LevelIx) (l : Level)
    → absorb_entry dst e l ≡ settle dst e (absorb_level l)
unfolding absorb_entry settle
absorb_entry-settle dst (vacant key i) l = refl
absorb_entry-settle dst (occupied key i) l = ground arith

-- The entry of the last round is a valid hint after the write.
key_at-alter :
    (m : ExecutableReactions) (key : LevelIx) (f : Option Level → Level)
    → key_at (alter m key f) (index_of (locate m key)) ≡ some key
unfolding alter locate
key_at-alter [] key f = refl
key_at-alter ((k, v) ∷ m) key f =
    ground (arith, key_at-alter m key f, index_of-shift (locate m key))

keyref-place :
    (key : LevelIx) (m : ExecutableReactions)
    → keyref (place key (locate m key)) ≡ record { key = key; min_idx = index_of (locate m key) }
unfolding keyref
keyref-place key m = ground arith

-- The hint, if any, is valid and not above the next key.
abbrev HintFits : ExecutableReactions → Option (KeyRef LevelIx) → ExecutableReactions → Type 0
HintFits dst none rest = Unit
HintFits dst (some r) [] = Unit
HintFits dst (some r) ((k, l) ∷ rest) = (is_valid_keyref dst r ≡ true) × (key_le r.key k ≡ true)

find_dst-entry :
    (dst : ExecutableReactions) (hint : Option (KeyRef LevelIx)) (k : LevelIx) (l : Level)
    (rest : ExecutableReactions)
    → IsSorted dst
    → HintFits dst hint ((k, l) ∷ rest)
    → find_dst dst hint k ≡ some (entry dst k)
unfolding find_dst
find_dst-entry dst none k l rest s h = refl
find_dst-entry dst (some r) k l rest s h = entry_from_ref-entry dst r k s h.0 h.1

HintFits-next :
    (dst : ExecutableReactions) (k : LevelIx) (l : Level) (rest : ExecutableReactions)
    → IsSorted dst
    → IsSorted {V = Level} ((k, l) ∷ rest)
    → HintFits (alter dst k (absorb_level l)) (some (keyref (entry dst k))) rest
unfolding is_valid_keyref
HintFits-next dst k l [] s t = tt
HintFits-next dst k l ((j, l') ∷ rest) s t =
    rw (entry-locate dst k s, keyref-place k dst)
      (ground (arith, key_at-alter dst k (absorb_level l)))

module _ (src : ExecutableReactions) (sorted : IsSorted src) where
  absorb_loop-merge_from :
      (fuel : ℕ) (dst rest : ExecutableReactions) (i : ℕ) (hint : Option (KeyRef LevelIx))
      → IsSorted dst
      → IsSorted rest
      → drop i src ≡ rest
      → HintFits dst hint rest
      → length rest < fuel
      → absorb_loop fuel src dst (first rest i) hint ≡ some (merge_from dst rest)
  unfolding absorb_loop merge_from
  absorb_loop-merge_from zero dst rest i hint s t d h f = absurd (omega arith)
  absorb_loop-merge_from (suc fuel) dst [] i hint s t d h f = refl
  absorb_loop-merge_from (suc fuel) dst ((k, l) ∷ rest) i hint s t d h f =
      rw
        (
          absorb_loop,
          find_dst-entry dst hint k l rest s h,
          absorb_entry-settle dst (entry dst k) l,
          settle-entry dst k (absorb_level l) s,
          next_mapping-drop src i k l rest sorted d,
        )
        (absorb_loop-merge_from fuel (alter dst k (absorb_level l)) rest (i + 1) _
          (alter-IsSorted dst k (absorb_level l) s) t.1 (drop_suc src i (k, l) rest d).1
          (HintFits-next dst k l rest s t) (omega arith))

length-suffix : (m : ExecutableReactions) (key : LevelIx) → length (suffix m key) < suc (length m)
length-suffix [] key = omega arith
length-suffix ((k, v) ∷ m) key = ground (arith, length-suffix m key)

pub suffix-IsSorted :
    (m : ExecutableReactions) (key : LevelIx) → IsSorted m → IsSorted (suffix m key)
suffix-IsSorted [] key s = tt
suffix-IsSorted ((k, v) ∷ m) key s = ground (arith, suffix-IsSorted m key s.1)

-- On sorted plans `absorb_after` does not panic and ends: it writes the levels of `src` from the
-- given one on into `dst`, one after another.
pub absorb_after-merge_from :
    (dst src : ExecutableReactions) (min_level : LevelIx)
    → IsSorted dst
    → IsSorted src
    → absorb_after dst src min_level ≡ some (merge_from dst (suffix src min_level))
unfolding absorb_after
absorb_after-merge_from dst src min_level s t =
    rw (find_random_mapping_after-first src min_level t, absorb_after)
      (absorb_loop-merge_from src t (suc (length src)) dst (suffix src min_level)
        (index_of (locate src min_level)) none s (suffix-IsSorted src min_level t)
        (drop-locate src min_level) tt (length-suffix src min_level))
