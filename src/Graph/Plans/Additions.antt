-- ===== src/Graph/Plans/Additions.antt =====
-- Adding reactions to a plan, as `augment` of src/scheduler/dependencies.rs does.
use reactor_rs.Common.{
  ◌≡◌, ◌⊎◌, ◌↔◌, ◌==◌, inl, inr, refl, sym, ap, ◌∙◌, Bool, true, ◌||◌, ◌&&◌, some, arith,
  Bool-cases, ==_iff,
}
use reactor_rs.Ids.{GlobalReactionId, id_eq}
use reactor_rs.Plan.{LevelIx, ExecutableReactions, insert}
use reactor_rs.Plan.Has.{has, IsPlan, insert_lem}
use reactor_rs.Graph.Numbering.{ReactionLevels}
use reactor_rs.Graph.Plans.{augment}

-- Whether a plan holds what another holds and what a predicate says.
abbrev pub Adds :
    ExecutableReactions → ExecutableReactions → (LevelIx → GlobalReactionId → Type 0) → Type 0
Adds plan result X =
    IsPlan result
    × ((l : LevelIx) (q : GlobalReactionId)
        → (has result l q ≡ true) ↔ ((has plan l q ≡ true) ⊎ X l q))

pub Adds-both :
    (plan mid result : ExecutableReactions) (X Y Z : LevelIx → GlobalReactionId → Type 0)
    → Adds plan mid X
    → Adds mid result Y
    → ((l : LevelIx) (q : GlobalReactionId) → Z l q ↔ (X l q ⊎ Y l q))
    → Adds plan result Z
Adds-both plan mid result X Y Z a b z = (b.0, λ l q. (forth l q, back l q))
  where
    forth :
        (l : LevelIx) (q : GlobalReactionId) → has result l q ≡ true → (has plan l q ≡ true) ⊎ Z l q
    forth l q h = elim ((b.1 l q).0 h) [
      | inr y ↦ inr ((z l q).1 (inr y))
      | inl m ↦ elim ((a.1 l q).0 m) [ inl p ↦ inl p | inr x ↦ inr ((z l q).1 (inl x)) ]
    ]

    back :
        (l : LevelIx) (q : GlobalReactionId) → (has plan l q ≡ true) ⊎ Z l q → has result l q ≡ true
    back l q (inl p) = (b.1 l q).1 (inl ((a.1 l q).1 (inl p)))
    back l q (inr c) = elim ((z l q).0 c) [
      | inl x ↦ (b.1 l q).1 (inl ((a.1 l q).1 (inr x)))
      | inr y ↦ (b.1 l q).1 (inr y)
    ]

pub Adds-same :
    (plan result : ExecutableReactions) (X Z : LevelIx → GlobalReactionId → Type 0)
    → Adds plan result X
    → ((l : LevelIx) (q : GlobalReactionId) → Z l q ↔ X l q)
    → Adds plan result Z
Adds-same plan result X Z a z = (a.0, λ l q. (forth l q, back l q))
  where
    forth :
        (l : LevelIx) (q : GlobalReactionId) → has result l q ≡ true → (has plan l q ≡ true) ⊎ Z l q
    forth l q h = elim ((a.1 l q).0 h) [ inl p ↦ inl p | inr x ↦ inr ((z l q).1 x) ]

    back :
        (l : LevelIx) (q : GlobalReactionId) → (has plan l q ≡ true) ⊎ Z l q → has result l q ≡ true
    back l q (inl p) = (a.1 l q).1 (inl p)
    back l q (inr c) = (a.1 l q).1 (inr ((z l q).0 c))

-- The reaction itself, at its level.
abbrev pub Itself : ReactionLevels → GlobalReactionId → LevelIx → GlobalReactionId → Type 0
Itself levels n l q = (id_eq n q ≡ true) × (levels n ≡ some l)

Itself-iff :
    (levels : ReactionLevels) (n : GlobalReactionId) (k l : LevelIx) (q : GlobalReactionId)
    (after before : Bool)
    → levels n ≡ some k
    → after ≡ (before || l == k && id_eq n q)
    → (after ≡ true) ↔ ((before ≡ true) ⊎ Itself levels n l q)
Itself-iff levels n k l q after before known e = (forth, back)
  where
    at_level : (levels n ≡ some l) → (l == k) ≡ true
    at_level h = ground (arith, known, h)

    forth : after ≡ true → (before ≡ true) ⊎ Itself levels n l q
    forth h = elim (Bool-cases before) [
      | inl b ↦ inl b
      | inr b ↦
          let same : l ≡ k = (==_iff l k).0 (ground (arith, e, h, b)) in
          inr (ground (arith, e, h, b), known ∙ ap (λ x. some x) (sym same))
    ]

    back : (before ≡ true) ⊎ Itself levels n l q → after ≡ true
    back (inl b) = ground (arith, e, b)
    back (inr (i, h)) = ground (arith, e, i, at_level h)

pub augment_lem :
    (levels : ReactionLevels) (plan : ExecutableReactions) (n : GlobalReactionId) (k : LevelIx)
    → levels n ≡ some k
    → IsPlan plan
    → (result : ExecutableReactions) × (augment levels plan n ≡ some result)
      × Adds plan result (Itself levels n)
unfolding augment
augment_lem levels plan n k known p =
    let (kept, same) = insert_lem plan n k p in
    (
      insert plan n k,
      rw known refl,
      (
        kept,
        λ l q.
            Itself-iff levels n k l q (has (insert plan n k) l q) (has plan l q) known (same l q),
      ),
    )
