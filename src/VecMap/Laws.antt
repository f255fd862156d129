-- ===== src/VecMap/Laws.antt =====
-- src/util/vecmap.rs: a sorted map as a function from keys, and that each operation keeps the
-- order.
use reactor_rs.Common.{◌≡◌, refl, eq, Option, none, some, [], ◌∷◌, arith, is_some, fun_ext, sym}
use reactor_rs.Common.Ord.{Ord, ◌⊏◌}
use reactor_rs.VecMap.{VecMap, get, contains_key, insert, remove}
use reactor_rs.VecMap.Sorted.{IsSorted, Above, Above-trans}
use reactor_rs.VecMap.Reference.{
  lookup, alter, erase, get-lookup, contains_key-lookup, insert-alter, remove-erase,
}

module _ {ℓ κ} {K : Type ℓ} {V : Type κ} ⦃o : Ord K⦄ where
  -- A function, changed at one key.
  abbrev pub update : (K → Option V) → K → Option V → K → Option V
  update f key w j = elim (o.cmp j key) [ eq ↦ w | _ ↦ f j ]

  pub lookup-Above : (m : VecMap K V) (k : K) → Above k m → lookup m k ≡ none
  unfolding lookup
  lookup-Above [] k a = refl
  lookup-Above ((j, v) ∷ m) k a = ground (arith, o.flip_lt k j a.0)

  pub lookup_before : (m : VecMap K V) (j k : K) → Above k m → j ⊏ k → lookup m j ≡ none
  lookup_before m j k a h = lookup-Above m j (Above-trans j k m h a)

  pub lookup-alter :
      (m : VecMap K V) (key : K) (f : Option V → V) (j : K)
      → IsSorted m
      → lookup (alter m key f) j ≡ update (lookup m) key (some (f (lookup m key))) j
  unfolding lookup alter
  lookup-alter [] key f j s = ground (
    arith,
    o.flip_gt key j,
    o.flip_lt key j,
    o.same_of_eq key j,
    o.cmp_self j,
    o.flip_lt j key,
    o.flip_gt j key,
    o.same_of_eq j key,
  )
  lookup-alter ((k, v) ∷ m) key f j s = ground (
    arith,
    lookup-alter m key f j s.1,
    o.same_of_eq k key,
    o.same_of_eq j key,
    o.same_of_eq key j,
    o.same_of_eq k j,
    o.cmp_self j,
    o.flip_gt j key,
    o.flip_lt j key,
    o.flip_gt key j,
    o.flip_lt key j,
    o.flip_gt k key,
    o.flip_lt k j,
    o.chain key k j,
    lookup-Above m k s.0,
  )

  pub lookup-erase :
      (m : VecMap K V) (key j : K)
      → IsSorted m
      → lookup (erase m key) j ≡ update (lookup m) key none j
  unfolding lookup erase
  lookup-erase [] key j s = ground arith
  lookup-erase ((k, v) ∷ m) key j s = ground (
    arith,
    lookup-erase m key j s.1,
    o.same_of_eq k key,
    o.same_of_eq j key,
    o.same_of_eq k j,
    o.cmp_self j,
    o.flip_gt j key,
    o.flip_lt j key,
    o.flip_gt k key,
    o.flip_lt k j,
    lookup-Above m k s.0,
    lookup_before m j k s.0,
    o.flip_gt k j,
  )

  Above-alter :
      (b : K) (m : VecMap K V) (key : K) (f : Option V → V)
      → Above b m
      → b ⊏ key
      → Above b (alter m key f)
  unfolding alter
  Above-alter b [] key f a h = (h, tt)
  Above-alter b ((k, v) ∷ m) key f a h = ground (arith, Above-alter b m key f a.1)

  Above-erase : (b : K) (m : VecMap K V) (key : K) → Above b m → Above b (erase m key)
  unfolding erase
  Above-erase b [] key a = tt
  Above-erase b ((k, v) ∷ m) key a = ground (arith, Above-erase b m key a.1)

  pub alter-IsSorted :
      (m : VecMap K V) (key : K) (f : Option V → V) → IsSorted m → IsSorted (alter m key f)
  unfolding alter
  alter-IsSorted [] key f s = (tt, tt)
  alter-IsSorted ((k, v) ∷ m) key f s = ground (
    arith,
    alter-IsSorted m key f s.1,
    Above-alter k m key f s.0,
    o.flip_gt k key,
    Above-trans key k m,
  )

  pub erase-IsSorted : (m : VecMap K V) (key : K) → IsSorted m → IsSorted (erase m key)
  unfolding erase
  erase-IsSorted [] key s = tt
  erase-IsSorted ((k, v) ∷ m) key s =
      ground (arith, erase-IsSorted m key s.1, Above-erase k m key s.0)

  -- On a sorted map `insert` keeps the order, returns the value that the key had, and makes the map
  -- read as before but for the key, which reads the new value.
  pub insert_refines :
      (m : VecMap K V) (key : K) (value : V)
      → IsSorted m
      → IsSorted (insert m key value).0
        × ((insert m key value).1 ≡ get m key)
        × (get (insert m key value).0 ≡ update (get m) key (some value))
  insert_refines m key value s =
      let sorted' = alter-IsSorted m key (λ _. value) s in
      rw (insert-alter m key s value) (
        sorted',
        sym (get-lookup m key s),
        fun_ext λ j. cc (
          get-lookup (alter m key (λ _. value)) j sorted',
          lookup-alter m key (λ _. value) j s,
          get-lookup m j s,
        ),
      )

  -- On a sorted map `remove` keeps the order, returns the value that the key had, and makes the map
  -- read as before but for the key, which is gone.
  pub remove_refines :
      (m : VecMap K V) (key : K)
      → IsSorted m
      → IsSorted (remove m key).0
        × ((remove m key).1 ≡ get m key)
        × (get (remove m key).0 ≡ update (get m) key none)
  remove_refines m key s =
      let sorted' = erase-IsSorted m key s in
      rw (remove-erase m key s) (
        sorted',
        sym (get-lookup m key s),
        fun_ext λ j.
            ground
              (arith, get-lookup (erase m key) j sorted', lookup-erase m key j s, get-lookup m j s),
      )

  -- On a sorted map `contains_key` holds exactly of the keys that `get` finds.
  pub contains_key-get :
      (m : VecMap K V) (key : K) → IsSorted m → contains_key m key ≡ is_some (get m key)
  contains_key-get m key s = cc (contains_key-lookup m key s, get-lookup m key s)
