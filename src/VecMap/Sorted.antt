-- ===== src/VecMap/Sorted.antt =====
-- The order of the entries of src/util/vecmap.rs, and what it says of the key at an index.
use reactor_rs.Common.{ℕ, zero, suc, ◌<◌, ◌≡◌, refl, some, [], ◌∷◌, length, arith}
use reactor_rs.Common.Ord.{Ord, ◌⊏◌}
use reactor_rs.VecMap.{VecMap, key_at}

module _ {ℓ κ} {K : Type ℓ} {V : Type κ} ⦃o : Ord K⦄ where
  -- Every key of the map comes after `k`.
  abbrev pub Above : K → VecMap K V → Type 0
  Above k [] = Unit
  Above k ((j, v) ∷ m) = (k ⊏ j) × Above k m

  -- Keys strictly ascend.
  abbrev pub IsSorted : VecMap K V → Type 0
  IsSorted [] = Unit
  IsSorted ((k, v) ∷ m) = Above k m × IsSorted m

  pub Above-trans : (j k : K) (m : VecMap K V) → j ⊏ k → Above k m → Above j m
  Above-trans j k [] h a = tt
  Above-trans j k ((i, v) ∷ m) h a = (o.chain j k i h a.0, Above-trans j k m h a.1)

  pub Above-key_at :
      (k : K) (m : VecMap K V) (i : ℕ) {j : K} → Above k m → key_at m i ≡ some j → k ⊏ j
  Above-key_at k [] i a e = ground arith
  Above-key_at k ((j, v) ∷ m) zero a e = ground arith
  Above-key_at k ((j, v) ∷ m) (suc i) a e = Above-key_at k m i a.1 e

  -- Keys at ascending indices ascend.
  pub IsSorted-key_at :
      (m : VecMap K V) (i j : ℕ) {k l : K}
      → IsSorted m
      → i < j
      → key_at m i ≡ some k
      → key_at m j ≡ some l
      → k ⊏ l
  IsSorted-key_at [] i j s h e f = ground arith
  IsSorted-key_at ((k, v) ∷ m) i zero s h e f = absurd (omega arith)
  IsSorted-key_at ((k, v) ∷ m) zero (suc j) s h e f = ground (arith, Above-key_at k m j s.0 f)
  IsSorted-key_at ((k, v) ∷ m) (suc i) (suc j) s h e f = IsSorted-key_at m i j s.1 (omega arith) e f

module _ {ℓ κ} {K : Type ℓ} {V : Type κ} where
  pub key_at_total : (m : VecMap K V) (i : ℕ) → i < length m → (k : K) × (key_at m i ≡ some k)
  key_at_total [] i h = absurd (omega arith)
  key_at_total ((k, v) ∷ m) zero h = (k, refl)
  key_at_total ((k, v) ∷ m) (suc i) h = key_at_total m i (omega arith)

  pub key_at-lt : (m : VecMap K V) (i : ℕ) {k : K} → key_at m i ≡ some k → i < length m
  key_at-lt [] i e = ground arith
  key_at-lt ((k, v) ∷ m) zero e = omega arith
  key_at-lt ((k, v) ∷ m) (suc i) e = omega (arith, key_at-lt m i e)
