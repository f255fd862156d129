-- ===== src/VecMap/Walk.antt =====
-- Walks over the entries of src/util/vecmap.rs: `find_random_mapping_after` and `next_mapping`.
use reactor_rs.Common.{
  ℕ, zero, suc, ◌+◌, ◌≡◌, refl, ap, subst, lt, Option, none, some, [], ◌∷◌, true, false, arith,
  drop, get_elem?, Bool-cases, Option-cases, inl, inr,
}
use reactor_rs.Common.Ord.{Ord, ◌⊏◌, key_le, key_lt}
use reactor_rs.VecMap.{
  VecMap, Found, ok, err, KeyRef, key_at, find_random_mapping_after, next_mapping, scan_after,
  find_k,
}
use reactor_rs.VecMap.Sorted.{IsSorted, Above, Above-key_at}
use reactor_rs.VecMap.Reference.{lookup, is_found, is_found-shift}
use reactor_rs.VecMap.Laws.{lookup-Above}
use reactor_rs.VecMap.Search.{shift, locate, find_k-locate}

module _ {ℓ κ} {K : Type ℓ} {V : Type κ} where
  -- The first of the entries that start at index `n`.
  abbrev pub first : VecMap K V → ℕ → Option (KeyRef K × V)
  first [] n = none
  first ((k, v) ∷ m) n = some (record { key = k; min_idx = n }, v)

abbrev pub index_of : Found → ℕ
index_of (ok i) = i
index_of (err i) = i

pub index_of-shift : (r : Found) → index_of (shift r) ≡ suc (index_of r)
index_of-shift (ok i) = refl
index_of-shift (err i) = refl

module _ {ℓ κ} {K : Type ℓ} {V : Type κ} ⦃o : Ord K⦄ where
  -- The entries whose keys are not below `key`.
  abbrev pub suffix : VecMap K V → K → VecMap K V
  suffix [] key = []
  suffix ((k, v) ∷ m) key = elim (o.cmp k key) [ lt ↦ suffix m key | _ ↦ (k, v) ∷ m ]

  pub drop-locate : (m : VecMap K V) (key : K) → drop (index_of (locate m key)) m ≡ suffix m key
  unfolding locate
  drop-locate [] key = refl
  drop-locate ((k, v) ∷ m) key = ground (arith, drop-locate m key, index_of-shift (locate m key))

  lookup_head : (k : K) (v : V) (m : VecMap K V) → lookup ((k, v) ∷ m) k ≡ some v
  unfolding lookup
  lookup_head k v m = ground (arith, o.cmp_self k)

  lookup_below_head :
      (k : K) (v : V) (m : VecMap K V) (j : K) → Above k m → j ⊏ k → lookup ((k, v) ∷ m) j ≡ none
  unfolding lookup
  lookup_below_head k v m j a h = ground (arith, o.flip_lt j k)

  pub scan_after-Above : (m : VecMap K V) (n : ℕ) (k : K) → Above k m → scan_after m n k ≡ first m n
  unfolding scan_after
  scan_after-Above [] n k a = refl
  scan_after-Above ((j, v) ∷ m) n k a = ground arith

  -- The entries up to an index whose key is not above `key` are passed over.
  scan_after-drop :
      (m : VecMap K V) (i n : ℕ) (key : K) {k : K}
      → IsSorted m
      → key_at m i ≡ some k
      → key_le k key ≡ true
      → scan_after (drop i m) (n + i) key ≡ scan_after m n key
  unfolding scan_after
  scan_after-drop [] i n key s e c = ground arith
  scan_after-drop ((j, v) ∷ m) zero n key s e c = ground arith
  scan_after-drop ((j, v) ∷ m) (suc i) n key {k = k} s e c = ground (
    arith,
    scan_after-drop m i (n + 1) key s.1 e c,
    Above-key_at j m i s.0 e,
    o.chain j k key,
    o.same_of_eq k key,
    o.flip_lt j key,
  )

  -- Whatever the hint, and whichever map made it, `next_mapping` on a sorted map searches as from
  -- the front.
  pub next_mapping-scan_after :
      (m : VecMap K V) (r : KeyRef K) → IsSorted m → next_mapping m r ≡ scan_after m 0 r.key
  unfolding next_mapping
  next_mapping-scan_after m r s = elim (Option-cases (key_at m r.min_idx)) [
    | inl e ↦ ground arith
    | inr (k, e) ↦ ground (arith, scan_after-drop m r.min_idx 0 r.key s e)
  ]

  -- What a search above `key` may return on a map whose first index is `n`: the first entry above
  -- it, at its index, or nothing if there is none.
  abbrev pub Successor : VecMap K V → ℕ → K → Option (KeyRef K × V) → Type (ℓ ⊔ κ)
  Successor m n key none = (j : K) → key ⊏ j → lookup m j ≡ none
  Successor m n key (some (r, v)) =
      (i : ℕ) × (r.min_idx ≡ n + i)
      × (key_at m i ≡ some r.key)
      × (key ⊏ r.key)
      × (lookup m r.key ≡ some v)
      × ((j : K) → key ⊏ j → j ⊏ r.key → lookup m j ≡ none)

  lookup_past :
      (k : K) (v : V) (m : VecMap K V) (key j : K)
      → key_lt key k ≡ false
      → key ⊏ j
      → lookup ((k, v) ∷ m) j ≡ lookup m j
  unfolding lookup
  lookup_past k v m key j h c = ground (arith, o.chain k key j, o.same_of_eq key k, o.flip_gt key k)

  Successor-cons :
      (k : K) (v : V) (m : VecMap K V) (n : ℕ) (key : K) (r : Option (KeyRef K × V))
      → key_lt key k ≡ false
      → Successor m (n + 1) key r
      → Successor ((k, v) ∷ m) n key r
  Successor-cons k v m n key none h s = λ j c. rw (lookup_past k v m key j h c) (s j c)
  Successor-cons k v m n key (some (r, w)) h (i, at, here, above, reads, gap) = (
    suc i,
    omega arith,
    here,
    above,
    rw (lookup_past k v m key r.key h above) reads,
    λ j c d. rw (lookup_past k v m key j h c) (gap j c d),
  )

  scan_after-Successor :
      (m : VecMap K V) (n : ℕ) (key : K) → IsSorted m → Successor m n key (scan_after m n key)
  unfolding scan_after
  scan_after-Successor [] n key s = λ j c. nothing j
    where
      nothing : (j : K) → lookup {V = V} [] j ≡ none
      nothing j = lookup-Above [] j tt
  scan_after-Successor ((k, v) ∷ m) n key s = elim (Bool-cases (key_lt key k)) [
    | inl above ↦ rw above (
      0,
      omega arith,
      refl,
      ground arith,
      lookup_head k v m,
      λ j c d. lookup_below_head k v m j s.0 d,
    )
    | inr past ↦ rw past (
        Successor-cons k v m n key (scan_after m (n + 1) key) past
          (scan_after-Successor m (n + 1) key s.1))
  ]

  -- On a sorted map, and with any hint, `next_mapping` returns the entry of the least key above the
  -- hint's key, with its index; it returns nothing only if no key of the map is above.
  pub next_mapping-Successor :
      (m : VecMap K V) (r : KeyRef K) → IsSorted m → Successor m 0 r.key (next_mapping m r)
  next_mapping-Successor m r s =
      rw (next_mapping-scan_after m r s) (scan_after-Successor m 0 r.key s)

  IsSorted-drop : (m : VecMap K V) (i : ℕ) → IsSorted m → IsSorted (drop i m)
  IsSorted-drop m zero s = s
  IsSorted-drop [] (suc i) s = tt
  IsSorted-drop ((k, v) ∷ m) (suc i) s = IsSorted-drop m i s.1

  pub drop_suc :
      (m : VecMap K V) (i : ℕ) (e : K × V) (rest : VecMap K V)
      → drop i m ≡ e ∷ rest
      → (get_elem? m i ≡ some e) × (drop (i + 1) m ≡ rest)
  drop_suc [] zero e rest h = ground arith
  drop_suc [] (suc i) e rest h = ground arith
  drop_suc (f ∷ m) zero e rest h = ground arith
  drop_suc (f ∷ m) (suc i) e rest h = ground (arith, drop_suc m i e rest h)

  -- From the entry at an index of a sorted map, `next_mapping` steps to the entry behind it.
  pub next_mapping-drop :
      (m : VecMap K V) (i : ℕ) (k : K) (v : V) (rest : VecMap K V)
      → IsSorted m
      → drop i m ≡ (k, v) ∷ rest
      → next_mapping m (record { key = k; min_idx = i }) ≡ first rest (i + 1)
  unfolding next_mapping scan_after
  next_mapping-drop m i k v rest s e =
      let (here, _) = drop_suc m i (k, v) rest e in
      let sorted = subst IsSorted e (IsSorted-drop m i s) in
      ground (arith, o.cmp_self k, scan_after-Above rest (i + 1) k sorted.0)

  drop_nil : (m : VecMap K V) (i : ℕ) → drop i m ≡ [] → get_elem? m i ≡ none
  drop_nil [] i h = refl
  drop_nil (f ∷ m) zero h = ground arith
  drop_nil (f ∷ m) (suc i) h = drop_nil m i h

  suffix_head :
      (m : VecMap K V) (key k : K) (v : V) (rest : VecMap K V)
      → suffix m key ≡ (k, v) ∷ rest
      → key_le key k ≡ true
  suffix_head [] key k v rest e = ground arith
  suffix_head ((j, w) ∷ m) key k v rest e =
      ground (arith, suffix_head m key k v rest, o.flip_gt j key, o.same_of_eq j key, o.cmp_self j)

  suffix_found : (m : VecMap K V) (key : K) → is_found (locate m key) ≡ true → suffix m key ≡ [] → ⊥
  unfolding locate
  suffix_found [] key e f = cc
  suffix_found ((k, v) ∷ m) key e f =
      ground (arith, suffix_found m key, is_found-shift (locate m key))

  find_random_found :
      (m : VecMap K V) (key : K) (r : Found) (xs : VecMap K V)
      → find_k m key ≡ r
      → locate m key ≡ r
      → suffix m key ≡ xs
      → find_random_mapping_after m key ≡ some (first xs (index_of r))
  unfolding find_random_mapping_after
  find_random_found m key (ok i) [] f l e = absurd (suffix_found m key (ap is_found l) e)
  find_random_found m key (err i) [] f l e = ground (arith, drop_nil m i, drop-locate m key)
  find_random_found m key (ok i) ((k, v) ∷ rest) f l e =
      ground (arith, drop_suc m i (k, v) rest, drop-locate m key)
  find_random_found m key (err i) ((k, v) ∷ rest) f l e =
      ground (arith, drop_suc m i (k, v) rest, drop-locate m key, suffix_head m key k v rest e)

  -- On a sorted map `find_random_mapping_after` does not panic and returns the first of the entries
  -- whose keys are not below the given one.
  pub find_random_mapping_after-first :
      (m : VecMap K V) (key : K)
      → IsSorted m
      → find_random_mapping_after m key ≡ some (first (suffix m key) (index_of (locate m key)))
  find_random_mapping_after-first m key s =
      find_random_found m key (locate m key) (suffix m key) (find_k-locate m key s) refl refl
