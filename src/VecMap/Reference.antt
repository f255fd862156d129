-- ===== src/VecMap/Reference.antt =====
-- The operations of src/util/vecmap.rs on a sorted map, as recursions from the front.
use reactor_rs.Common.{
  is_some, ℕ, zero, suc, ◌≡◌, refl, lt, eq, gt, Option, none, some, [], ◌∷◌, Bool, true, false,
  arith, ap, ◌∙◌, insert_at, remove_at, get_elem?,
}
use reactor_rs.Common.Ord.{Ord}
use reactor_rs.VecMap.{
  VecMap, Found, ok, err, write, insert_internal, get, contains_key, insert, remove,
}
use reactor_rs.VecMap.Sorted.{IsSorted}
use reactor_rs.VecMap.Search.{shift, locate, find_k-locate}
use mathlib.Core.Option

abbrev pub is_found : Found → Bool
is_found (ok _) = true
is_found (err _) = false

pub is_found-shift : (r : Found) → is_found (shift r) ≡ is_found r
is_found-shift (ok i) = refl
is_found-shift (err i) = refl

module _ {ℓ κ} {K : Type ℓ} {V : Type κ} ⦃o : Ord K⦄ where
  unfoldable pub lookup : VecMap K V → K → Option V
  lookup [] key = none
  lookup ((k, v) ∷ m) key = elim (o.cmp k key) [ lt ↦ lookup m key | eq ↦ some v | gt ↦ none ]

  -- Writes `w`, computed from the value that was there.
  unfoldable pub alter : VecMap K V → K → (Option V → V) → VecMap K V
  alter [] key f = (key, f none) ∷ []
  alter ((k, v) ∷ m) key f = elim (o.cmp k key) [
    | lt ↦ (k, v) ∷ alter m key f
    | eq ↦ (k, f (some v)) ∷ m
    | gt ↦ (key, f none) ∷ (k, v) ∷ m
  ]

  unfoldable pub erase : VecMap K V → K → VecMap K V
  erase [] key = []
  erase ((k, v) ∷ m) key = elim (o.cmp k key) [
    | lt ↦ (k, v) ∷ erase m key
    | eq ↦ m
    | gt ↦ (k, v) ∷ m
  ]

  -- Acting on the place that the search returns.
  abbrev pub value_found : VecMap K V → Found → Option V
  value_found m (ok i) = Option.map (λ e. e.1) (get_elem? m i)
  value_found m (err i) = none

  abbrev pub alter_found : VecMap K V → K → (Option V → V) → Found → VecMap K V
  alter_found m key f (ok i) = elim (get_elem? m i) [ some e ↦ write m i (f (some e.1)) | none ↦ m ]
  alter_found m key f (err i) = insert_at m i (key, f none)

  abbrev pub erase_found : VecMap K V → Found → VecMap K V
  erase_found m (ok i) = remove_at m i
  erase_found m (err i) = m

  value_found-shift :
      (k : K) (v : V) (m : VecMap K V) (r : Found)
      → value_found ((k, v) ∷ m) (shift r) ≡ value_found m r
  value_found-shift k v m (ok i) = refl
  value_found-shift k v m (err i) = refl

  alter_found-shift :
      (k : K) (v : V) (m : VecMap K V) (key : K) (f : Option V → V) (r : Found)
      → alter_found ((k, v) ∷ m) key f (shift r) ≡ (k, v) ∷ alter_found m key f r
  unfolding write
  alter_found-shift k v m key f (ok i) = ground arith
  alter_found-shift k v m key f (err i) = refl

  erase_found-shift :
      (k : K) (v : V) (m : VecMap K V) (r : Found)
      → erase_found ((k, v) ∷ m) (shift r) ≡ (k, v) ∷ erase_found m r
  erase_found-shift k v m (ok i) = refl
  erase_found-shift k v m (err i) = refl

  pub lookup-locate : (m : VecMap K V) (key : K) → lookup m key ≡ value_found m (locate m key)
  unfolding lookup locate
  lookup-locate [] key = refl
  lookup-locate ((k, v) ∷ m) key =
      ground (arith, lookup-locate m key, value_found-shift k v m (locate m key))

  pub alter-locate :
      (m : VecMap K V) (key : K) (f : Option V → V)
      → alter m key f ≡ alter_found m key f (locate m key)
  unfolding alter locate write
  alter-locate [] key f = refl
  alter-locate ((k, v) ∷ m) key f =
      ground (arith, alter-locate m key f, alter_found-shift k v m key f (locate m key))

  pub erase-locate : (m : VecMap K V) (key : K) → erase m key ≡ erase_found m (locate m key)
  unfolding erase locate
  erase-locate [] key = refl
  erase-locate ((k, v) ∷ m) key =
      ground (arith, erase-locate m key, erase_found-shift k v m (locate m key))

  pub write_outside : (m : VecMap K V) (i : ℕ) (w : V) → get_elem? m i ≡ none → write m i w ≡ m
  unfolding write
  write_outside [] i w e = refl
  write_outside ((k, v) ∷ m) zero w e = ground arith
  write_outside ((k, v) ∷ m) (suc i) w e = ground (arith, write_outside m i w e)

  alter_found-ok :
      (m : VecMap K V) (key : K) (i : ℕ) (w : V) → alter_found m key (λ _. w) (ok i) ≡ write m i w
  alter_found-ok m key i w = ground (arith, write_outside m i w)

  is_found-locate : (m : VecMap K V) (key : K) → is_found (locate m key) ≡ is_some (lookup m key)
  unfolding locate lookup
  is_found-locate [] key = refl
  is_found-locate ((k, v) ∷ m) key =
      ground (arith, is_found-locate m key, is_found-shift (locate m key))

  abbrev insert_found : VecMap K V → K → V → Found → VecMap K V × Option V
  insert_found m key value r = elim r [
    | ok i ↦ (write m i value, value_found m (ok i))
    | err i ↦ (insert_internal m i key value, none)
  ]

  insert_found_lem :
      (m : VecMap K V) (key : K) (value : V) (r : Found)
      → insert_found m key value r ≡ (alter_found m key (λ _. value) r, value_found m r)
  unfolding insert_internal
  insert_found_lem m key value (ok i) = ground (arith, alter_found-ok m key i value)
  insert_found_lem m key value (err i) = refl

  module _ (m : VecMap K V) (key : K) (sorted : IsSorted m) where
    pub get-lookup : get m key ≡ lookup m key
    unfolding get
    get-lookup = ground (arith, lookup-locate m key, find_k-locate m key sorted)

    pub contains_key-lookup : contains_key m key ≡ is_some (lookup m key)
    unfolding contains_key
    contains_key-lookup = ground (arith, is_found-locate m key, find_k-locate m key sorted)

    pub insert-alter : (value : V) → insert m key value ≡ (alter m key (λ _. value), lookup m key)
    unfolding insert
    insert-alter value =
        ap (insert_found m key value) (find_k-locate m key sorted)
        ∙ insert_found_lem m key value (locate m key)
        ∙ cc (lookup-locate m key, alter-locate m key (λ _. value))

    pub remove-erase : remove m key ≡ (erase m key, lookup m key)
    unfolding remove
    remove-erase =
        ground (arith, lookup-locate m key, erase-locate m key, find_k-locate m key sorted)
