-- ===== src/VecMap/Search.antt =====
-- `find_k` of src/util/vecmap.rs: it ends for every map, and on a sorted one it agrees with a
-- search from the front.
use reactor_rs.Common.{
  ℕ, zero, suc, ◌+◌, ◌-◌, ◌/◌, ◌<◌, ◌≤◌, ◌≡◌, refl, inl, inr, lt, eq, gt, some, [], ◌∷◌, length,
  ltb, arith, tests, ap, sym, Compared, compared, Bool-cases, ltb_false→le,
}
use native.Mathlib.Decide.{dec_lt}
use reactor_rs.Common.Ord.{Ord, ◌⊏◌}
use reactor_rs.VecMap.{VecMap, Found, ok, err, key_at, find_k_loop, find_k}
use reactor_rs.VecMap.Sorted.{IsSorted, Above-key_at, IsSorted-key_at, key_at_total, key_at-lt}

abbrev pub shift : Found → Found
shift (ok i) = ok (suc i)
shift (err i) = err (suc i)

module _ {ℓ κ} {K : Type ℓ} {V : Type κ} ⦃o : Ord K⦄ where
  -- The search from the front.
  unfoldable pub locate : VecMap K V → K → Found
  locate [] key = err 0
  locate ((k, v) ∷ m) key = elim (o.cmp k key) [
    | lt ↦ shift (locate m key)
    | eq ↦ ok 0
    | gt ↦ err 0
  ]

  pub locate-ok :
      (m : VecMap K V) (key : K) (i : ℕ) {k : K}
      → IsSorted m
      → key_at m i ≡ some k
      → o.cmp k key ≡ eq
      → locate m key ≡ ok i
  unfolding locate
  locate-ok [] key i s e c = ground arith
  locate-ok ((k, v) ∷ m) key zero s e c = ground arith
  locate-ok ((j, v) ∷ m) key (suc i) {k = k} s e c =
      ground (arith, locate-ok m key i s.1 e c, Above-key_at j m i s.0 e, o.same_of_eq k key)

  locate-err :
      (m : VecMap K V) (key : K) (i : ℕ)
      → i ≤ length m
      → ((j : ℕ) (k : K) → j < i → key_at m j ≡ some k → k ⊏ key)
      → ((j : ℕ) (k : K) → i ≤ j → key_at m j ≡ some k → o.cmp k key ≡ gt)
      → locate m key ≡ err i
  unfolding locate
  locate-err [] key i b lo hi = ground arith
  locate-err ((k, v) ∷ m) key zero b lo hi = ground (arith, hi 0 k)
  locate-err ((k, v) ∷ m) key (suc i) b lo hi = ground (
    arith,
    lo 0 k,
    locate-err m key i (omega arith) (λ j l h. lo (suc j) l (omega arith))
        (λ j l h. hi (suc j) l (omega arith)),
  )

  module _ (m : VecMap K V) (key : K) where
    -- What the loop has established of the entries outside its range.
    record Narrowed (left right size : ℕ) : Type ℓ where
      ordered : left ≤ right
      inside : right ≤ length m
      sized : size ≡ right - left
      below : (j : ℕ) (k : K) → j < left → key_at m j ≡ some k → k ⊏ key
      above : (j : ℕ) (k : K) → right ≤ j → key_at m j ≡ some k → o.cmp k key ≡ gt

    Narrowed-start : Narrowed 0 (length m) (length m)
    Narrowed-start = record {
      ordered = omega arith;
      inside = omega arith;
      sized = omega arith;
      below = λ j k h. absurd (omega arith);
      above = λ j k h e. absurd (omega (arith, key_at-lt m j e));
    }

    module _ (sorted : IsSorted m) (left right mid : ℕ) {size : ℕ} {k : K}
        (inv : Narrowed left right size) (room : mid < right) (here : key_at m mid ≡ some k) where
      -- By the order, one comparison settles one side of the range.
      settle_up : k ⊏ key → (j : ℕ) (l : K) → j < mid + 1 → key_at m j ≡ some l → l ⊏ key
      settle_up c j l h e = elim (dec_lt j mid) [
        | yes p ↦ o.chain l k key (IsSorted-key_at m j mid sorted p e here) c
        | no p ↦ let q : mid ≡ j = omega arith in ground arith
      ]

      settle_down :
          o.cmp k key ≡ gt → (j : ℕ) (l : K) → mid ≤ j → key_at m j ≡ some l → o.cmp l key ≡ gt
      settle_down c j l h e = elim (dec_lt mid j) [
        | yes p ↦
            o.flip_lt key l
              (o.chain key k l (o.flip_gt k key c) (IsSorted-key_at m mid j sorted p here e))
        | no p ↦ let q : mid ≡ j = omega arith in ground arith
      ]

      Narrowed-up : left ≤ mid → k ⊏ key → Narrowed (mid + 1) right (right - (mid + 1))
      Narrowed-up le c = record {
        ordered = omega arith;
        inside = inv.inside;
        sized = refl;
        below = settle_up c;
        above = inv.above;
      }

      Narrowed-down : left ≤ mid → o.cmp k key ≡ gt → Narrowed left mid (mid - left)
      Narrowed-down le c = record {
        ordered = le;
        inside = omega (arith, inv.inside);
        sized = refl;
        below = inv.below;
        above = settle_down c;
      }

    find_k_loop-locate :
        (fuel left right size : ℕ)
        → IsSorted m
        → Narrowed left right size
        → right - left < fuel
        → find_k_loop fuel m key left right size ≡ some (locate m key)
    unfolding find_k_loop
    find_k_loop-locate zero left right size s inv f = absurd (omega arith)
    find_k_loop-locate (suc fuel) left right size s inv f = elim (Bool-cases (ltb left right)) [
      | inl open_range ↦
          let room : left + size / 2 < right = omega (tests, inv.sized, open_range) in
          let (k, here) = key_at_total m (left + size / 2) (omega (arith, inv.inside, room)) in
          rw (open_range, here, find_k_loop)
            (elim (compared (o.cmp k key)) [
              | Compared.is_lt c ↦
                  rw (c, find_k_loop)
                    (find_k_loop-locate fuel _ right _ s
                      (Narrowed-up s left right _ inv room here (omega arith) c)
                      (omega (arith, room)))
              | Compared.is_eq c ↦ rw (c, find_k_loop, locate-ok m key _ s here c)
              | Compared.is_gt c ↦
                  rw (c, find_k_loop)
                    (find_k_loop-locate fuel left _ _ s
                      (Narrowed-down s left right _ inv room here (omega arith) c)
                      (omega (arith, room)))
            ])
      | inr closed ↦
          let met : right ≤ left = ltb_false→le left right closed in
          rw (closed, find_k_loop)
            (ap some (
              sym (
                locate-err m key left (omega (arith, inv.ordered, inv.inside)) inv.below
                  (λ j k h. inv.above j k (omega arith)))))
    ]

    -- No index of the loop is out of bounds and the fuel is enough, whatever the order of the keys.
    find_k_loop_total :
        (fuel left right size : ℕ)
        → right ≤ length m
        → size ≡ right - left
        → right - left < fuel
        → (r : Found) × (find_k_loop fuel m key left right size ≡ some r)
    unfolding find_k_loop
    find_k_loop_total zero left right size b e f = absurd (omega arith)
    find_k_loop_total (suc fuel) left right size b e f = elim (Bool-cases (ltb left right)) [
      | inl open_range ↦
          let room : left + size / 2 < right = omega (tests, open_range) in
          let (k, here) = key_at_total m (left + size / 2) (omega (arith, room)) in
          rw (open_range, here, find_k_loop)
            (elim (compared (o.cmp k key)) [
              | Compared.is_lt c ↦
                  rw (c, find_k_loop)
                    (find_k_loop_total fuel _ right _ b refl (omega (arith, room)))
              | Compared.is_eq c ↦ rw (c, find_k_loop) (ok (left + size / 2), refl)
              | Compared.is_gt c ↦
                  rw (c, find_k_loop)
                    (find_k_loop_total fuel left _ _ (omega (arith, room)) refl
                      (omega (arith, room)))
            ])
      | inr closed ↦ rw (closed, find_k_loop) (err left, refl)
    ]

  -- The loop of `find_k` ends, with no index out of bounds, on every map: its result is `find_k`.
  pub find_k_loop-find_k :
      (m : VecMap K V) (key : K)
      → find_k_loop (length m + 1) m key 0 (length m) (length m) ≡ some (find_k m key)
  unfolding find_k
  find_k_loop-find_k m key =
      let (r, e) =
        find_k_loop_total m key (length m + 1) 0 (length m) (length m) (omega arith) (omega arith)
          (omega arith) in
      rw e

  -- On a sorted map the binary search finds what a search from the front finds.
  pub find_k-locate : (m : VecMap K V) (key : K) → IsSorted m → find_k m key ≡ locate m key
  unfolding find_k
  find_k-locate m key s = rw (
      find_k_loop-locate m key (length m + 1) 0 (length m) (length m) s (Narrowed-start m key)
        (omega arith))
