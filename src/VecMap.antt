-- ===== src/VecMap.antt =====
-- src/util/vecmap.rs: the sparse map over a vector of entries that is kept sorted by key.
-- A map is its vector. An `Entry` borrows its map in the source; here the map is passed beside it.
pub mod Sorted
pub mod Search
pub mod Reference
pub mod Laws
pub mod Entries
pub mod Walk
use reactor_rs.Common.{
  ℕ, zero, suc, ◌+◌, ◌-◌, ◌/◌, lt, eq, gt, Bool, true, false, Option, none, some, List, [], ◌∷◌,
  length, get_elem?, insert_at, remove_at, drop, ltb, leb, if◌then◌else◌,
}
use reactor_rs.Common.Ord.{Ord, key_le, key_lt}
use mathlib.Core.Option

abbrev pub VecMap {ℓ κ} : Type ℓ → Type κ → Type (ℓ ⊔ κ)
VecMap K V = List (K × V)

-- `Result<usize, usize>` of `find_k`: where the key is, or where it belongs.
pub data Found : Type 0 where
  ok : ℕ → Found
  err : ℕ → Found

pub record KeyRef {ℓ} (K : Type ℓ) : Type ℓ where
  pub key : K
  pub min_idx : ℕ

-- An entry, less the borrowed map.
pub data Entry {ℓ} (K : Type ℓ) : Type ℓ where
  vacant : (key : K) (index : ℕ) → Entry K
  occupied : (key : K) (index : ℕ) → Entry K

module _ {ℓ} {K : Type ℓ} where
  unfoldable pub from_key : K → KeyRef K
  from_key key = record { key = key; min_idx = 0 }

  unfoldable pub keyref : Entry K → KeyRef K
  keyref (vacant key index) = record { key = key; min_idx = index }
  keyref (occupied key index) = record { key = key; min_idx = index }

module _ {ℓ κ} {K : Type ℓ} {V : Type κ} where
  unfoldable pub new : VecMap K V
  new = []

  -- `self.v[i].0`, with the bounds check of the index.
  abbrev pub key_at : VecMap K V → ℕ → Option K
  key_at v i = Option.map (λ e. e.0) (get_elem? v i)

  -- A write of the value at an index.
  unfoldable pub write : VecMap K V → ℕ → V → VecMap K V
  write [] i w = []
  write ((k, v) ∷ m) zero w = (k, w) ∷ m
  write ((k, v) ∷ m) (suc i) w = (k, v) ∷ write m i w

  unfoldable pub insert_internal : VecMap K V → ℕ → K → V → VecMap K V
  insert_internal v idx key value = insert_at v idx (key, value)

  unfoldable pub min_entry : VecMap K V → Option (KeyRef K × V)
  min_entry [] = none
  min_entry ((key, value) ∷ m) = some (record { key = key; min_idx = 0 }, value)

  unfoldable pub max_key : VecMap K V → Option K
  max_key [] = none
  max_key ((key, value) ∷ []) = some key
  max_key (e ∷ f ∷ m) = max_key (f ∷ m)

  unfoldable pub vacant_insert : VecMap K V → (key : K) (index : ℕ) → V → VecMap K V
  unfolding insert_internal
  vacant_insert m key index value = insert_internal m index key value

  unfoldable pub occupied_replace : VecMap K V → (index : ℕ) → V → VecMap K V
  unfolding write
  occupied_replace m index value = write m index value

  unfoldable pub occupied_get : VecMap K V → (index : ℕ) → Option V
  occupied_get m index = Option.map (λ e. e.1) (get_elem? m index)

module _ {ℓ κ} {K : Type ℓ} {V : Type κ} ⦃o : Ord K⦄ where
  -- The `while left < right` of `find_k`. No result: an index out of bounds, or no fuel left.
  unfoldable pub find_k_loop : ℕ → VecMap K V → K → (left right size : ℕ) → Option Found
  find_k_loop zero v key left right size = none
  find_k_loop (suc fuel) v key left right size = elim (ltb left right) [
    | false ↦ some (err left)
    | true ↦ elim (key_at v (left + size / 2)) [
      | none ↦ none
      | some k ↦ elim (o.cmp k key) [
        | lt ↦ find_k_loop fuel v key (left + size / 2 + 1) right (right - (left + size / 2 + 1))
        | gt ↦ find_k_loop fuel v key left (left + size / 2) (left + size / 2 - left)
        | eq ↦ some (ok (left + size / 2))
      ]
    ]
  ]

  -- Each round shrinks the range, so one more round than entries is enough fuel; the default
  -- stands for no outcome of the loop.
  unfoldable pub find_k : VecMap K V → K → Found
  unfolding find_k_loop
  find_k v key = Option.get_or (find_k_loop (length v + 1) v key 0 (length v) (length v)) (err 0)

  unfoldable pub entry : VecMap K V → K → Entry K
  entry m key = elim (find_k m key) [ ok index ↦ occupied key index | err index ↦ vacant key index ]

  unfoldable pub get : VecMap K V → K → Option V
  get m key = elim (find_k m key) [
    | ok index ↦ Option.map (λ e. e.1) (get_elem? m index)
    | err _ ↦ none
  ]

  unfoldable pub contains_key : VecMap K V → K → Bool
  contains_key m key = elim (find_k m key) [ ok _ ↦ true | err _ ↦ false ]

  -- The new map, and the value that was replaced.
  unfoldable pub insert : VecMap K V → K → V → VecMap K V × Option V
  unfolding write insert_internal
  insert m key value = elim (find_k m key) [
    | ok index ↦ (write m index value, Option.map (λ e. e.1) (get_elem? m index))
    | err index ↦ (insert_internal m index key value, none)
  ]

  unfoldable pub remove : VecMap K V → K → VecMap K V × Option V
  remove m key = elim (find_k m key) [
    | ok index ↦ (remove_at m index, Option.map (λ e. e.1) (get_elem? m index))
    | err _ ↦ (m, none)
  ]

  -- The `assert!` on the key of the entry found is the inner test: no outer result is a panic.
  unfoldable pub find_random_mapping_after : VecMap K V → K → Option (Option (KeyRef K × V))
  find_random_mapping_after m min_key = elim (find_k m min_key) [
    | ok index ↦ elim (get_elem? m index) [
      | some (key, value) ↦ some (some (record { key = key; min_idx = index }, value))
      | none ↦ none
    ]
    | err index ↦ elim (get_elem? m index) [
      | some (key, value) ↦
          if key_le min_key key
          then some (some (record { key = key; min_idx = index }, value))
          else none
      | none ↦ some none
    ]
  ]

  unfoldable pub is_valid_keyref : VecMap K V → KeyRef K → Bool
  is_valid_keyref m r = elim (key_at m r.min_idx) [ some k ↦ key_le k r.key | none ↦ false ]

  -- The `for idx in from..len` of `next_mapping`, over the entries from `idx` on.
  unfoldable pub scan_after : VecMap K V → (idx : ℕ) → K → Option (KeyRef K × V)
  scan_after [] idx key = none
  scan_after ((k, v) ∷ rest) idx key =
      if key_lt key k
      then some (record { key = k; min_idx = idx }, v)
      else scan_after rest (idx + 1) key

  unfoldable pub next_mapping : VecMap K V → KeyRef K → Option (KeyRef K × V)
  unfolding is_valid_keyref scan_after
  next_mapping m r =
      let from = if is_valid_keyref m r then r.min_idx else 0 in scan_after (drop from m) from r.key

  -- The `for i in min_idx..len` of `entry_from_ref`. No result: the `assert!(i >= 1)` fails.
  unfoldable pub probe_from : VecMap K V → (i : ℕ) → K → Option (Entry K)
  probe_from [] i key = some (vacant key i)
  probe_from ((k, v) ∷ rest) i key = elim (o.cmp k key) [
    | eq ↦ some (occupied key i)
    | gt ↦ if leb 1 i then some (vacant key i) else none
    | lt ↦ probe_from rest (i + 1) key
  ]

  -- The `debug_assert!` of a debug build comes first. The loop's end is `len`, which a hint past
  -- the end does not change.
  unfoldable pub entry_from_ref : VecMap K V → KeyRef K → K → Option (Entry K)
  unfolding is_valid_keyref probe_from
  entry_from_ref m hint key =
      if is_valid_keyref m hint then probe_from (drop hint.min_idx m) hint.min_idx key else none
