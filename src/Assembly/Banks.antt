-- ===== src/Assembly/Banks.antt =====
-- The macro `unsafe_iter_bank` of src/scheduler/assembly_impl.rs, over the values that the field of
-- the reactors of a bank has. A `none` is an index out of bounds.
pub mod Interleaving
use reactor_rs.Common.{
  ℕ, zero, suc, ◌+◌, ◌*◌, Option, none, some, List, [], ◌∷◌, ◌++◌, length, leb, ltb, get_elem?,
  if◌then◌else◌,
}

-- A multiport of each reactor, at a single index.
unfoldable pub iter_index : {A : Type 0} → List (List A) → (idx : ℕ) → Option (List A)
iter_index [] idx = some []
iter_index (ports ∷ bank) idx = elim (get_elem? ports idx) [
  | none ↦ none
  | some port ↦ elim (iter_index bank idx) [ some rest ↦ some (port ∷ rest) | none ↦ none ]
]

-- The multiports one after the other.
unfoldable pub iter_all : {A : Type 0} → List (List A) → List A
iter_all [] = []
iter_all (ports ∷ bank) = ports ++ iter_all bank

-- What the closure of `from_fn` captures.
pub record Cursor : Type 0 where
  pub bank_idx : ℕ
  pub multiport_idx : ℕ

-- A call of the closure. After the last pair the cursor is past the multiports.
unfoldable pub next_pair : (bank_len multiport_len : ℕ) → Cursor → Option (ℕ × ℕ) × Cursor
next_pair bank_len multiport_len cursor =
    let moved : Cursor =
      if leb bank_len cursor.bank_idx
      then record { bank_idx = 0; multiport_idx = cursor.multiport_idx + 1 }
      else cursor in
    if leb bank_len cursor.bank_idx
    then (if leb multiport_len moved.multiport_idx then (none, moved) else (
      some (moved.bank_idx, moved.multiport_idx),
      record moved { bank_idx = moved.bank_idx + 1 },
    ))
    else (
      some (moved.bank_idx, moved.multiport_idx),
      record moved { bank_idx = moved.bank_idx + 1 },
    )

-- `&mut (&mut *__ptr.add(i)).$field_name[j]`.
unfoldable pub port_of : {A : Type 0} → List (List A) → ℕ × ℕ → Option A
port_of bank (i, j) = elim (get_elem? bank i) [ some ports ↦ get_elem? ports j | none ↦ none ]

-- The ports until the closure returns no pair. A `none` is no fuel, too.
unfoldable pub iter_from :
    {A : Type 0}
    → (fuel : ℕ) → List (List A)
    → (bank_len multiport_len : ℕ) → Cursor
    → Option (List A)
iter_from zero bank bank_len multiport_len cursor = none
iter_from (suc fuel) bank bank_len multiport_len cursor =
    let (pair, cursor') = next_pair bank_len multiport_len cursor in
    elim pair [
      | none ↦ some []
      | some (i, j) ↦ elim (port_of bank (i, j)) [
        | none ↦ none
        | some port ↦ elim (iter_from fuel bank bank_len multiport_len cursor') [
          | none ↦ none
          | some ports ↦ some (port ∷ ports)
        ]
      ]
    ]

-- Interleaved: the first ports of all multiports, then the second ones. The length is that of the
-- first multiport. There is fuel for as many pairs as the bank has ports, and a round more.
unfoldable pub iter_interleaved : {A : Type 0} → List (List A) → Option (List A)
unfolding iter_from
iter_interleaved [] = none
iter_interleaved (ports ∷ bank) =
    iter_from (length ports * length (ports ∷ bank) + 1) (ports ∷ bank) (length (ports ∷ bank))
      (length ports) (record { bank_idx = 0; multiport_idx = 0 })
