-- ===== src/Level/Members.antt =====
-- What the operations of `Level` in src/scheduler/dependencies.rs do to its members, for the hash
-- set of the default build.
use reactor_rs.Common.{◌≡◌, refl, true, false, ◌||◌, List, [], ◌∷◌, ◌++◌, arith}
use reactor_rs.Ids.{GlobalReactionId, id_eq}
use reactor_rs.Level.{Level, contains, is_empty, insert, extend}

pub contains_same :
    (l : Level) (id q : GlobalReactionId) → id_eq id q ≡ true → contains l id ≡ contains l q
unfolding contains id_eq
contains_same [] id q e = refl
contains_same (j ∷ l) id q e = ground (arith, contains_same l id q e)

pub contains-insert :
    (l : Level) (id q : GlobalReactionId) → contains (insert l id) q ≡ (id_eq id q || contains l q)
unfolding insert contains
contains-insert l id q = ground (arith, contains_same l id q)

pub contains-append :
    (l ids : Level) (q : GlobalReactionId)
    → contains (l ++ ids) q ≡ (contains l q || contains ids q)
unfolding contains
contains-append [] ids q = refl
contains-append (j ∷ l) ids q = ground (arith, contains-append l ids q)

pub contains-extend :
    (l : Level) (ids : List GlobalReactionId) (q : GlobalReactionId)
    → contains (extend l ids) q ≡ (contains l q || contains ids q)
unfolding extend contains
contains-extend l [] q = ground arith
contains-extend l (id ∷ ids) q =
    ground (arith, contains-extend (insert l id) ids q, contains-insert l id q)

-- No id stands twice.
abbrev pub Distinct : Level → Type 0
Distinct [] = Unit
Distinct (j ∷ l) = (contains l j ≡ false) × Distinct l

pub insert-Distinct : (l : Level) (id : GlobalReactionId) → Distinct l → Distinct (insert l id)
unfolding insert
insert-Distinct l id d = ground arith

pub extend-Distinct :
    (l : Level) (ids : List GlobalReactionId) → Distinct l → Distinct (extend l ids)
unfolding extend
extend-Distinct l [] d = d
extend-Distinct l (id ∷ ids) d = extend-Distinct (insert l id) ids (insert-Distinct l id d)

-- Adding one id or many to a set without duplicates leaves it without duplicates, and its members
-- are the old ones and the added.
pub Level-set :
    (l : Level) (id : GlobalReactionId) (ids : List GlobalReactionId)
    → Distinct l
    → Distinct (insert l id)
      × Distinct (extend l ids)
      × ((q : GlobalReactionId) → contains (insert l id) q ≡ (id_eq id q || contains l q))
      × ((q : GlobalReactionId) → contains (extend l ids) q ≡ (contains l q || contains ids q))
Level-set l id ids d =
    (insert-Distinct l id d, extend-Distinct l ids d, contains-insert l id, contains-extend l ids)

pub is_empty-contains :
    (l : Level) (q : GlobalReactionId) → is_empty l ≡ true → contains l q ≡ false
unfolding is_empty contains
is_empty-contains [] q e = refl
is_empty-contains (j ∷ l) q e = ground arith
