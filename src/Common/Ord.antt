-- ===== src/Common/Ord.antt =====
-- `K: Ord`, with what the trait documents of `cmp`: a total order whose `Equal` is equality.
use Prim.Native.Nat.{ℕ, compare, Ordering}
use Prim.Native.Nat.Ordering.{lt, eq, gt}
use mathlib.Core.Path.{◌≡◌}
use mathlib.Core.Bool.{Bool, true, false}
use native.Mathlib.Omega.{arith}

pub record Ord {ℓ} (K : Type ℓ) : Type ℓ where
  pub cmp : K → K → Ordering
  pub cmp_self : (a : K) → cmp a a ≡ eq
  pub same_of_eq : (a b : K) → cmp a b ≡ eq → a ≡ b
  pub flip_gt : (a b : K) → cmp a b ≡ gt → cmp b a ≡ lt
  pub flip_lt : (a b : K) → cmp a b ≡ lt → cmp b a ≡ gt
  pub chain : (a b c : K) → cmp a b ≡ lt → cmp b c ≡ lt → cmp a c ≡ lt

-- `a < b`, as a proposition and as the source's Boolean tests.
infix 50 ◌⊏◌
abbrev pub ◌⊏◌ {ℓ} : {K : Type ℓ} ⦃o : Ord K⦄ → K → K → Type 0
◌⊏◌ ⦃o⦄ a b = o.cmp a b ≡ lt

abbrev pub key_lt {ℓ} : {K : Type ℓ} ⦃o : Ord K⦄ → K → K → Bool
key_lt ⦃o⦄ a b = elim (o.cmp a b) [ lt ↦ true | _ ↦ false ]

abbrev pub key_le {ℓ} : {K : Type ℓ} ⦃o : Ord K⦄ → K → K → Bool
key_le ⦃o⦄ a b = elim (o.cmp a b) [ gt ↦ false | _ ↦ true ]

pub compare_self : (a : ℕ) → compare a a ≡ eq
compare_self a = ground arith

pub compare_same : (a b : ℕ) → compare a b ≡ eq → a ≡ b
compare_same a b h = ground arith

pub compare-gt : (a b : ℕ) → compare a b ≡ gt → compare b a ≡ lt
compare-gt a b h = ground arith

pub compare-lt : (a b : ℕ) → compare a b ≡ lt → compare b a ≡ gt
compare-lt a b h = ground arith

pub compare_chain : (a b c : ℕ) → compare a b ≡ lt → compare b c ≡ lt → compare a c ≡ lt
compare_chain a b c h k = ground arith

instance abbrev pub nat_ord : Ord ℕ
nat_ord = record {
  cmp = compare;
  cmp_self = compare_self;
  same_of_eq = compare_same;
  flip_gt = compare-gt;
  flip_lt = compare-lt;
  chain = compare_chain;
}
