-- ===== src/Assembly/Banks/Interleaving.antt =====
-- The interleaved ports of a bank, src/scheduler/assembly_impl.rs: one index after the other.
use reactor_rs.Common.{
  ℕ, zero, suc, ◌+◌, ◌*◌, ◌<◌, ◌≤◌, ◌≡◌, refl, sym, ap, subst, ◌∙◌, Option, none, some, List, [],
  ◌∷◌, ◌++◌, All, length, length-append, get_elem?, arith, Option-cases, inl, inr,
}
use reactor_rs.Common.Ord.{nat_ord}
use reactor_rs.Assembly.Banks.{Cursor, iter_index, next_pair, port_of, iter_from, iter_interleaved}

abbrev at : ℕ → ℕ → Cursor
at i j = record { bank_idx = i; multiport_idx = j }

module _ (b m i j : ℕ) where
  next_within : i < b → next_pair b m (at i j) ≡ (some (i, j), at (i + 1) j)
  unfolding next_pair
  next_within h = ground (arith, h)

  next_wraps : b ≤ i → j + 1 < m → next_pair b m (at i j) ≡ (some (0, j + 1), at 1 (j + 1))
  unfolding next_pair
  next_wraps h k = ground (arith, h, k)

  next_ends : b ≤ i → m ≤ j + 1 → next_pair b m (at i j) ≡ (none, at 0 (j + 1))
  unfolding next_pair
  next_ends h k = ground (arith, h, k)

module _ {A : Type 0} where
  -- The ports at an index and at those after it, `count` indices in all.
  pub columns : List (List A) → (idx count : ℕ) → Option (List A)
  columns bank idx zero = some []
  columns bank idx (suc count) = elim (iter_index bank idx) [
    | none ↦ none
    | some xs ↦ elim (columns bank (idx + 1) count) [ some ys ↦ some (xs ++ ys) | none ↦ none ]
  ]

  get_elem?_front :
      (front rest : List (List A)) (row : List A)
      → get_elem? (front ++ (row ∷ rest)) (length front) ≡ some row
  get_elem?_front [] rest row = refl
  get_elem?_front (x ∷ front) rest row = get_elem?_front front rest row

  append_nil : (front : List (List A)) → front ++ [] ≡ front
  append_nil [] = refl
  append_nil (x ∷ front) = ap (λ xs. x ∷ xs) (append_nil front)

  front_shift :
      (front rest : List (List A)) (row : List A)
      → (front ++ (row ∷ [])) ++ rest ≡ front ++ (row ∷ rest)
  front_shift [] rest row = refl
  front_shift (x ∷ front) rest row = ap (λ xs. x ∷ xs) (front_shift front rest row)

  -- The index is within every multiport.
  iter_index_within :
      (bank : List (List A)) (m idx : ℕ)
      → idx < m
      → All (λ (p : List A). length p ≡ m) bank
      → (xs : List A) × (iter_index bank idx ≡ some xs) × (length xs ≡ length bank)
  unfolding iter_index
  iter_index_within [] m idx h a = ([], refl, refl)
  iter_index_within (row ∷ bank) m idx h a =
      let (x, here) = within row idx (omega (arith, a.0)) in
      let (xs, rest, long) = iter_index_within bank m idx h a.1 in
      (x ∷ xs, ground (arith, here, rest), ground (arith, long))
    where
      within : (row : List A) (i : ℕ) → i < length row → (x : A) × (get_elem? row i ≡ some x)
      within [] i k = absurd (omega arith)
      within (y ∷ row) zero k = (y, refl)
      within (y ∷ row) (suc i) k = within row i (omega arith)

  columns_within :
      (bank : List (List A)) (m idx count : ℕ)
      → idx + count ≡ m
      → All (λ (p : List A). length p ≡ m) bank
      → (xs : List A) × (columns bank idx count ≡ some xs) × (length xs ≡ count * length bank)
  unfolding columns
  columns_within bank m idx zero e a = ([], refl, omega arith)
  columns_within bank m idx (suc count) e a =
      let (xs, here, long) = iter_index_within bank m idx (omega arith) a in
      let (ys, rest, longs) = columns_within bank m (idx + 1) count (omega arith) a in
      (xs ++ ys, ground (arith, here, rest), length-append xs ys ∙ omega (arith, long, longs))

  port_at :
      (first : List A) (tail front rest : List (List A)) (row : List A) (j : ℕ) (x : A)
      → front ++ (row ∷ rest) ≡ (first ∷ tail)
      → get_elem? row j ≡ some x
      → port_of (first ∷ tail) (length front, j) ≡ some x
  unfolding port_of
  port_at first tail front rest row j x parts at_j =
      subst (λ b. port_of b (length front, j) ≡ some x) parts
        (ground (arith, get_elem?_front front rest row, at_j))

  shorter :
      (first : List A) (tail front rest : List (List A)) (row : List A)
      → front ++ (row ∷ rest) ≡ (first ∷ tail)
      → length front < length (first ∷ tail)
  shorter first tail front rest row parts =
      omega (arith, ap (λ (b : List (List A)). length b) parts, length-append front (row ∷ rest))

  iter_step :
      (fuel : ℕ) (bank : List (List A)) (b m i j : ℕ) (c c' : Cursor) (x : A) (zs : List A)
      → next_pair b m c ≡ (some (i, j), c')
      → port_of bank (i, j) ≡ some x
      → iter_from fuel bank b m c' ≡ some zs
      → iter_from (suc fuel) bank b m c ≡ some (x ∷ zs)
  unfolding iter_from
  iter_step fuel bank b m i j c c' x zs next here later = ground (arith, next, here, later)

  iter_end :
      (fuel : ℕ) (bank : List (List A)) (b m : ℕ) (c c' : Cursor)
      → next_pair b m c ≡ (none, c')
      → iter_from (suc fuel) bank b m c ≡ some []
  unfolding iter_from
  iter_end fuel bank b m c c' next = ground (arith, next)

  -- From a cursor on: the rest of the bank at its index, then the later indices.
  iter_from_lem :
      (fuel : ℕ) (first : List A) (tail front rest : List (List A)) (m j r : ℕ) (xs ys : List A)
      → front ++ rest ≡ (first ∷ tail)
      → iter_index rest j ≡ some xs
      → columns (first ∷ tail) (j + 1) r ≡ some ys
      → j + suc r ≡ m
      → length (xs ++ ys) < fuel
      → iter_from fuel (first ∷ tail) (length (first ∷ tail)) m (at (length front) j)
        ≡ some (xs ++ ys)
  unfolding iter_index columns
  iter_from_lem zero first tail front rest m j r xs ys parts here later e enough =
      absurd (omega arith)
  iter_from_lem (suc fuel) first tail front (row ∷ rest) m j r xs ys parts here later e enough =
      elim (Option-cases (get_elem? row j)) [
        | inl out ↦ absurd (ground (arith, out, here))
        | inr (x, at_j) ↦ elim (Option-cases (iter_index rest j)) [
          | inl out ↦ absurd (ground (arith, at_j, out, here))
          | inr (xs', others) ↦
              let all : (x ∷ xs') ≡ xs = ground (arith, at_j, others, here) in
              let port : port_of (first ∷ tail) (length front, j) ≡ some x =
                port_at first tail front rest row j x parts at_j in
              let longer : length (front ++ (row ∷ [])) ≡ length front + 1 =
                length-append front (row ∷ []) in
              let go =
                iter_from_lem fuel first tail (front ++ (row ∷ [])) rest m j r xs' ys
                  (front_shift front rest row ∙ parts) others later e
                  (ground (arith, enough, ap (λ zs. length (zs ++ ys)) all)) in
              subst
                (λ zs.
                  iter_from (suc fuel) (first ∷ tail) (length (first ∷ tail)) m
                    (at (length front) j)
                  ≡ some (zs ++ ys))
                all
                (iter_step fuel (first ∷ tail) (length (first ∷ tail)) m (length front) j
                  (at (length front) j) (at (length front + 1) j) x (xs' ++ ys)
                  (next_within (length (first ∷ tail)) m (length front) j
                    (shorter first tail front rest row parts))
                  port
                  (subst
                    (λ i.
                      iter_from fuel (first ∷ tail) (length (first ∷ tail)) m (at i j)
                      ≡ some (xs' ++ ys))
                    longer go))
        ]
      ]
  iter_from_lem (suc fuel) first tail front [] m j zero xs ys parts here later e enough =
      let whole : front ≡ (first ∷ tail) = sym (append_nil front) ∙ parts in
      let empty : xs ≡ [] = ground (arith, here) in
      let last : ys ≡ [] = ground (arith, later) in
      rw empty (
        rw last (
          iter_end fuel (first ∷ tail) (length (first ∷ tail)) m (at (length front) j)
            (at 0 (j + 1))
            (next_ends (length (first ∷ tail)) m (length front) j
              (omega (arith, ap (λ (b : List (List A)). length b) whole)) (omega (arith, e)))))
  iter_from_lem (suc fuel) first tail front [] m j (suc r) xs ys parts here later e enough =
      let whole : front ≡ (first ∷ tail) = sym (append_nil front) ∙ parts in
      let empty : xs ≡ [] = ground (arith, here) in
      elim (Option-cases (get_elem? first (j + 1))) [
        | inl out ↦ absurd (ground (arith, out, later))
        | inr (z, at_j) ↦ elim (Option-cases (iter_index tail (j + 1))) [
          | inl out ↦ absurd (ground (arith, at_j, out, later))
          | inr (zs, others) ↦ elim (Option-cases (columns (first ∷ tail) (j + 1 + 1) r)) [
            | inl out ↦ absurd (ground (arith, at_j, others, out, later))
            | inr (ws, next) ↦
                let all : (z ∷ (zs ++ ws)) ≡ ys = ground (arith, at_j, others, next, later) in
                let port : port_of (first ∷ tail) (0, j + 1) ≡ some z =
                  port_at first tail [] tail first (j + 1) z refl at_j in
                rw empty (
                  subst
                    (λ zs'.
                      iter_from (suc fuel) (first ∷ tail) (length (first ∷ tail)) m
                        (at (length front) j)
                      ≡ some zs')
                    all
                    (iter_step fuel (first ∷ tail) (length (first ∷ tail)) m 0 (j + 1)
                      (at (length front) j) (at 1 (j + 1)) z (zs ++ ws)
                      (next_wraps (length (first ∷ tail)) m (length front) j
                        (omega (arith, ap (λ (b : List (List A)). length b) whole))
                        (omega (arith, e)))
                      port
                      (iter_from_lem fuel first tail (first ∷ []) tail m (j + 1) r zs ws refl others
                        next (omega (arith, e))
                        (ground (arith, enough, ap (λ (l : List A). length l) all, empty)))))
          ]
        ]
      ]

  -- If the multiports of a bank have the same length, and are not empty, the interleaved iterator
  -- does not panic and passes every port: those that the iterator at an index passes, for one index
  -- after the other.
  pub iter_interleaved_lem :
      (ports : List A) (bank : List (List A))
      → 0 < length ports
      → All (λ (p : List A). length p ≡ length ports) bank
      → (all : List A) × (iter_interleaved (ports ∷ bank) ≡ some all)
        × (columns (ports ∷ bank) 0 (length ports) ≡ some all)
        × (length all ≡ length ports * length (ports ∷ bank))
  unfolding iter_interleaved columns
  iter_interleaved_lem [] bank h a = absurd (omega arith)
  iter_interleaved_lem (x ∷ ports) bank h a =
      let m = length (x ∷ ports) in
      let (xs, here, wide) = iter_index_within ((x ∷ ports) ∷ bank) m 0 h (refl, a) in
      let (ys, later, long) =
        columns_within ((x ∷ ports) ∷ bank) m 1 (length ports) (omega arith) (refl, a) in
      let count : length (xs ++ ys) ≡ m * length ((x ∷ ports) ∷ bank) =
        length-append xs ys ∙ omega (arith, wide, long) in
      (
        xs ++ ys,
        iter_from_lem (m * length ((x ∷ ports) ∷ bank) + 1) (x ∷ ports) bank [] ((x ∷ ports) ∷ bank)
            m 0 (length ports) xs ys refl here later (omega arith) (omega (arith, count)),
        ground (arith, here, later),
        count,
      )
