-- ===== src/VecMap/Entries.antt =====
-- `entry` and `entry_from_ref` of src/util/vecmap.rs, and writes through the entry they return.
use reactor_rs.Common.{
  ℕ, zero, suc, ◌+◌, ◌≤◌, ◌≡◌, ◌≢◌, refl, ap, gt, Option, none, some, [], ◌∷◌, true, arith, drop,
  Option-cases, inl, inr,
}
use reactor_rs.Common.Ord.{Ord, key_le}
use reactor_rs.VecMap.{
  VecMap, Found, ok, err, KeyRef, Entry, vacant, occupied, key_at, vacant_insert, occupied_get,
  occupied_replace, entry, entry_from_ref, is_valid_keyref, probe_from,
}
use reactor_rs.VecMap.Sorted.{IsSorted, Above-key_at}
use reactor_rs.VecMap.Search.{shift, locate, find_k-locate}
use reactor_rs.VecMap.Reference.{alter, alter_found, alter-locate}

module _ {ℓ κ} {K : Type ℓ} {V : Type κ} where
  -- A write through an entry: a vacant one is filled, an occupied one replaced.
  unfoldable pub settle : VecMap K V → Entry K → (Option V → V) → VecMap K V
  unfolding vacant_insert occupied_replace occupied_get
  settle m (vacant key i) f = vacant_insert m key i (f none)
  settle m (occupied key i) f = elim (occupied_get m i) [
    | some old ↦ occupied_replace m i (f (some old))
    | none ↦ m
  ]

abbrev pub place {ℓ} : {K : Type ℓ} → K → Found → Entry K
place key (ok i) = occupied key i
place key (err i) = vacant key i

-- The same place, in a map with `n` more entries in front.
abbrev pub raise : ℕ → Found → Found
raise n (ok i) = ok (n + i)
raise n (err i) = err (n + i)

raise-shift : (n : ℕ) (r : Found) → raise n (shift r) ≡ raise (n + 1) r
raise-shift n (ok i) = ap ok (omega arith)
raise-shift n (err i) = ap err (omega arith)

raise_zero : (r : Found) → raise 0 r ≡ r
raise_zero (ok i) = ap ok (omega arith)
raise_zero (err i) = ap err (omega arith)

key_le_chain {ℓ} :
    {K : Type ℓ} ⦃o : Ord K⦄ (a b c : K) → key_le a b ≡ true → key_le b c ≡ true → o.cmp a c ≢ gt
key_le_chain ⦃o⦄ a b c h k = ground (arith, o.chain a b c, o.same_of_eq a b, o.same_of_eq b c)

module _ {ℓ κ} {K : Type ℓ} {V : Type κ} ⦃o : Ord K⦄ where
  pub entry-locate :
      (m : VecMap K V) (key : K) → IsSorted m → entry m key ≡ place key (locate m key)
  unfolding entry
  entry-locate m key s = ground (arith, find_k-locate m key s)

  settle-place :
      (m : VecMap K V) (key : K) (f : Option V → V) (r : Found)
      → settle m (place key r) f ≡ alter_found m key f r
  unfolding settle
  settle-place m key f (ok i) = ground arith
  settle-place m key f (err i) = refl

  -- A write through the entry that `entry` returns for a key of a sorted map is the write of a
  -- search from the front, at that key.
  pub settle-entry :
      (m : VecMap K V) (key : K) (f : Option V → V)
      → IsSorted m
      → settle m (entry m key) f ≡ alter m key f
  settle-entry m key f s =
      rw (entry-locate m key s, alter-locate m key f) (settle-place m key f (locate m key))

  probe_from-locate :
      (m : VecMap K V) (n : ℕ) (key : K)
      → 1 ≤ n
      → probe_from m n key ≡ some (place key (raise n (locate m key)))
  unfolding probe_from locate
  probe_from-locate [] n key h = ap (λ i. some (vacant key i)) (omega arith)
  probe_from-locate ((k, v) ∷ m) n key h =
      ground (arith, probe_from-locate m (n + 1) key (omega arith), raise-shift n (locate m key))

  -- The entries that a valid hint skips come before its key.
  probe_from-drop :
      (m : VecMap K V) (i n : ℕ) (key : K) {k : K}
      → IsSorted m
      → key_at m i ≡ some k
      → o.cmp k key ≢ gt
      → probe_from (drop i m) (n + i) key ≡ some (place key (raise n (locate m key)))
  unfolding probe_from locate
  probe_from-drop [] i n key s e c = ground arith
  probe_from-drop ((j, v) ∷ m) zero n key s e c =
      ground (arith, probe_from-locate m (n + 1) key (omega arith), raise-shift n (locate m key))
  probe_from-drop ((j, v) ∷ m) (suc i) n key {k = k} s e c = ground (
    arith,
    probe_from-drop m i (n + 1) key s.1 e c,
    raise-shift n (locate m key),
    Above-key_at j m i s.0 e,
    o.chain j k key,
    o.same_of_eq k key,
  )

  -- With a hint that is valid in a sorted map and whose key is at most the key, `entry_from_ref`
  -- does not panic and returns the entry that `entry` returns.
  pub entry_from_ref-entry :
      (m : VecMap K V) (hint : KeyRef K) (key : K)
      → IsSorted m
      → is_valid_keyref m hint ≡ true
      → key_le hint.key key ≡ true
      → entry_from_ref m hint key ≡ some (entry m key)
  unfolding entry_from_ref
  entry_from_ref-entry m hint key s valid le = elim (Option-cases (key_at m hint.min_idx)) [
    | inl e ↦ ground arith
    | inr (k, e) ↦ ground (
      arith,
      probe_from-drop m hint.min_idx 0 key s e,
      key_le_chain k hint.key key,
      raise_zero (locate m key),
      entry-locate m key s,
    )
  ]
