-- ===== src/Ids/Laws.antt =====
-- The packed ids of src/ids.rs and the ranges of ids of src/triggers.rs.
use reactor_rs.Common.{ℕ, ◌+◌, ◌-◌, ◌<◌, ◌≡◌, ◌↔◌, subst, ap, sym, ◌∙◌, true, some, arith}
use reactor_rs.Ids.{
  GlobalId, IsInRange, full_mod, raw, from_raw, id_eq, TriggerId, next, upper_end, range,
  iter_next_range, Range, next_range, iter_range,
}

from_raw-raw : (id : GlobalId) → IsInRange id → from_raw (raw id) ≡ id
unfolding raw from_raw
from_raw-raw id r = ground arith

raw-from_raw : (u : ℕ) → raw (from_raw u) ≡ u
unfolding raw from_raw
raw-from_raw u = ground arith

raw_injective : (a b : GlobalId) → IsInRange a → IsInRange b → raw a ≡ raw b → a ≡ b
raw_injective a b r s h = sym (from_raw-raw a r) ∙ ap (λ u. from_raw u) h ∙ from_raw-raw b s

-- Ids whose parts fit their machine types are packed without loss: unpacking gives the id back, the
-- packed id is a u32, and comparing packed ids tells whether the ids are equal.
pub raw-IsInRange :
    (a b : GlobalId)
    → IsInRange a
    → IsInRange b
    → (from_raw (raw a) ≡ a) × (raw a < full_mod) × ((id_eq a b ≡ true) ↔ (a ≡ b))
unfolding raw id_eq
raw-IsInRange a b r s = (
  from_raw-raw a r,
  omega (arith, r.1, r.0),
  (
    λ e. raw_injective a b r s (ground (arith, e)),
    λ e. subst (λ c. id_eq a c ≡ true) e (ground arith),
  ),
)

upper_end_lem :
    (id : TriggerId) (len : ℕ) → id + 1 + len < full_mod → upper_end id len ≡ some (id + 1 + len)
unfolding upper_end
upper_end_lem id len fits = ground arith

count_lem : (id len : ℕ) → range (id + 1) (id + 1 + len - (id + 1)) ≡ range (id + 1) len
count_lem id len = ap (λ n. range (id + 1) n) (omega arith)

-- If the ids fit a u32, the ids that are given to the `len` channels of a multiport are the `len`
-- ones after its own, and the range that is kept for the multiport holds exactly these.
pub next_range-iter_next_range :
    (id : TriggerId) (len : ℕ)
    → id + 1 + len < full_mod
    → 0 < id
    → (iter_next_range id len ≡ some (range (id + 1) len))
      × (r : Range) × (next_range id len ≡ some r)
      × (iter_range r ≡ range (id + 1) len)
unfolding iter_next_range next_range next iter_range
next_range-iter_next_range id len fits regular =
    let upper = upper_end_lem id len fits in
    let kept : Range = record { start = id + 1; end = id + 1 + len } in
    (
      rw (upper, iter_next_range) (ap (λ l. some l) (count_lem id len)),
      kept,
      ground (arith, upper),
      count_lem id len,
    )
