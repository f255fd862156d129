-- ===== src/Assembly/Registration.antt =====
-- The table of reactors that `register_reactor` of src/scheduler/assembly_impl.rs fills.
use reactor_rs.Common.{
  ℕ, zero, suc, ◌+◌, ◌-◌, ◌≤◌, ◌<◌, ◌==◌, ◌≡◌, refl, ap, ◌∙◌, none, some, Option, List, [], ◌∷◌,
  ◌++◌, length, length-append, get_elem?, set, leb, arith, if◌then◌else◌, Bool-cases, inl, inr,
}
use reactor_rs.Graph.{DiGraph}
use reactor_rs.Debug.{ReactorId}
use reactor_rs.Assembly.{done, RootAssembler, nones, resize_with_none, expect_all, register_reactor}

-- The reactor at an index, if there is one.
abbrev pub registered : {R : Type 0} → List (Option R) → ℕ → Option R
registered xs i = elim (get_elem? xs i) [ some o ↦ o | none ↦ none ]

length-nones : (R : Type 0) (n : ℕ) → length (nones {A = R} n) ≡ n
length-nones R zero = refl
length-nones R (suc n) = ap (λ k. suc k) (length-nones R n)

module _ {R : Type 0} where
  registered-nones : (n i : ℕ) → registered {R = R} (nones n) i ≡ none
  registered-nones zero i = refl
  registered-nones (suc n) zero = refl
  registered-nones (suc n) (suc i) = registered-nones n i

  registered-append :
      (xs : List (Option R)) (n i : ℕ) → registered (xs ++ nones n) i ≡ registered xs i
  registered-append [] n i = registered-nones n i
  registered-append (x ∷ xs) n zero = refl
  registered-append (x ∷ xs) n (suc i) = registered-append xs n i

  length-set : (xs : List (Option R)) (i : ℕ) (x : Option R) → length (set xs i x) ≡ length xs
  length-set [] i x = refl
  length-set (y ∷ xs) zero x = refl
  length-set (y ∷ xs) (suc i) x = ap (λ k. suc k) (length-set xs i x)

  registered-set :
      (xs : List (Option R)) (i j : ℕ) (x : R)
      → i < length xs
      → registered (set xs i (some x)) j ≡ (if j == i then some x else registered xs j)
  registered-set [] i j x h = absurd (omega arith)
  registered-set (y ∷ xs) zero zero x h = ground arith
  registered-set (y ∷ xs) zero (suc j) x h = ground arith
  registered-set (y ∷ xs) (suc i) zero x h = ground arith
  registered-set (y ∷ xs) (suc i) (suc j) x h =
      ground (arith, registered-set xs i j x (omega arith))

  open_slot :
      (xs : List (Option R)) (i : ℕ)
      → i < length xs
      → registered xs i ≡ none
      → get_elem? xs i ≡ some none
  open_slot [] i h e = absurd (omega arith)
  open_slot (y ∷ xs) zero h e = ground (arith, e)
  open_slot (y ∷ xs) (suc i) h e = open_slot xs i (omega arith) e

module _ (P : DiGraph) (T R : Type 0) (id_of : R → ReactorId) (root : RootAssembler P T R)
    (r : R) where
  -- The table once it has a place for the reactor.
  abbrev roomy : List (Option R)
  roomy =
      if leb (length root.reactors) (id_of r)
      then resize_with_none root.reactors (id_of r + 1)
      else root.reactors

  roomy-registered : (i : ℕ) → registered roomy i ≡ registered root.reactors i
  unfolding resize_with_none
  roomy-registered i = elim (Bool-cases (leb (length root.reactors) (id_of r))) [
    | inl short ↦ rw short (registered-append root.reactors (id_of r + 1 - length root.reactors) i)
    | inr long ↦ rw long refl
  ]

  has_room : id_of r < length roomy
  unfolding resize_with_none
  has_room = elim (Bool-cases (leb (length root.reactors) (id_of r))) [
    | inl short ↦
        let more = id_of r + 1 - length root.reactors in
        let long = length-append root.reactors (nones more) in
        let added = length-nones R more in rw short (ground (arith, short, long, added))
    | inr long ↦ rw long (ground (arith, long))
  ]

  roomy_short : (n : ℕ) → length root.reactors ≤ n → id_of r < n → length roomy ≤ n
  unfolding resize_with_none
  roomy_short n bound below = elim (Bool-cases (leb (length root.reactors) (id_of r))) [
    | inl short ↦
        let more = id_of r + 1 - length root.reactors in
        let long = length-append root.reactors (nones more) in
        let added = length-nones R more in rw short (ground (arith, short, long, added, below))
    | inr long ↦ rw long bound
  ]

  -- The table with the reactor in its place.
  abbrev pub table_with : List (Option R)
  table_with = set roomy (id_of r) (some r)

  -- The table grows as far as it must.
  pub length-table_with :
      (id_of r < length table_with)
      × ((n : ℕ) → length root.reactors ≤ n → id_of r < n → length table_with ≤ n)
  unfolding resize_with_none
  length-table_with = (
    rw (length-set roomy (id_of r) (some r)) has_room,
    λ n short below. rw (length-set roomy (id_of r) (some r)) (roomy_short n short below),
  )

  -- A reactor whose place is open is registered there, and the other places stay.
  pub register_reactor_lem :
      registered root.reactors (id_of r) ≡ none
      → (register_reactor P T R id_of root r ≡ done (record root { reactors = table_with }))
        × ((i : ℕ)
            → registered table_with i
              ≡ (if i == id_of r then some r else registered root.reactors i))
  unfolding register_reactor
  register_reactor_lem vacant = (
    let slot = open_slot roomy (id_of r) has_room (roomy-registered (id_of r) ∙ vacant) in
        ground (arith, slot),
    λ i. registered-set roomy (id_of r) i r has_room ∙ ground (arith, roomy-registered i),
  )

at_cons :
    {R : Type 0} (ys : List R) (x : R) (id_of : R → ReactorId) (first n : ℕ)
    → id_of x ≡ first
    → ((i : ℕ) → i < n → (y : R) × (get_elem? ys i ≡ some y) × (id_of y ≡ first + 1 + i))
    → (i : ℕ) → i < suc n
    → (y : R) × (get_elem? (x ∷ ys) i ≡ some y) × (id_of y ≡ first + i)
at_cons ys x id_of first n own at zero h = (x, refl, omega (arith, own))
at_cons ys x id_of first n own at (suc i) h =
    let (y, e, its) = at i (omega arith) in (y, e, omega (arith, its))

-- A table without a gap is taken whole, in order.
pub expect_all_lem :
    {R : Type 0} (xs : List (Option R)) (id_of : R → ReactorId) (first : ℕ)
    → ((i : ℕ) → i < length xs → (x : R) × (registered xs i ≡ some x) × (id_of x ≡ first + i))
    → (ys : List R) × (expect_all xs ≡ some ys)
      × (length ys ≡ length xs)
      × ((i : ℕ) → i < length xs → (x : R) × (get_elem? ys i ≡ some x) × (id_of x ≡ first + i))
unfolding expect_all
expect_all_lem [] id_of first full = ([], refl, refl, λ i h. absurd (omega arith))
expect_all_lem (none ∷ xs) id_of first full = absurd (ground (arith, (full 0 (omega arith)).1))
expect_all_lem (some x ∷ xs) id_of first full =
    let (ys, taken, long, at) =
      expect_all_lem xs id_of (first + 1)
        (λ i h. let (y, e, own) = full (suc i) (omega arith) in (y, e, omega (arith, own))) in
    let (y, here, own) = full 0 (omega arith) in
    let same : id_of x ≡ first = ground (arith, here, own) in
    (
      x ∷ ys,
      ground (arith, taken),
      ground (arith, long),
      at_cons ys x id_of first (length xs) same at,
    )
