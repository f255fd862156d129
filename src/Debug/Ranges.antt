-- ===== src/Debug/Ranges.antt =====
-- The reactor of a component, as src/scheduler/debug.rs finds it from the ranges of ids.
use reactor_rs.Common.{
  ℕ, zero, suc, ◌-◌, ◌<◌, ◌≤◌, ◌≡◌, ◌⊎◌, inl, inr, refl, ap, gt, compare, Option, none, some, List,
  [], ◌∷◌, get_elem?, compared, Compared, arith,
}
use reactor_rs.Common.Ord.{compare_same}
use reactor_rs.Ids.{TriggerId, first_regular}
use reactor_rs.VecMap.{Found, ok, err}
use reactor_rs.VecMap.Search.{shift}
use reactor_rs.Debug.{
  ReactorId, DebugInfoRegistry, get_reactor_lower_bound, search_bound, raw_id_of_regular,
  raw_id_of_trigger,
}

gt_lt : (a b : ℕ) → compare a b ≡ gt → b < a
gt_lt a b h = ground arith

-- Bounds strictly ascend from one on.
abbrev pub IsBounds : TriggerId → List TriggerId → Type 0
IsBounds lo [] = Unit
IsBounds lo (b ∷ bounds) = (lo < b) × IsBounds b bounds

-- The lower bound of a reactor, after a first one.
abbrev lower_from : TriggerId → List TriggerId → ReactorId → Option TriggerId
lower_from lo bounds zero = some lo
lower_from lo [] (suc r) = none
lower_from lo (b ∷ bounds) (suc r) = lower_from b bounds r

lower_from_above :
    (lo lower : TriggerId) (bounds : List TriggerId) (r : ReactorId)
    → IsBounds lo bounds
    → lower_from lo bounds r ≡ some lower
    → lo ≤ lower
lower_from_above lo lower bounds zero s e = ground (arith, e)
lower_from_above lo lower [] (suc r) s e = absurd (ground (arith, e))
lower_from_above lo lower (b ∷ bounds) (suc r) s e =
    omega (arith, s.0, lower_from_above b lower bounds r s.1 e)

-- Where an id of the range of a reactor is found.
abbrev IsLocated : ReactorId → TriggerId → TriggerId → Found → Type 0
IsLocated r lower id found =
    (found ≡ err r) ⊎ ((p : ℕ) × (r ≡ suc p) × (lower ≡ id) × (found ≡ ok p))

IsLocated-shift :
    (r : ReactorId) (lower id : TriggerId) (found : Found)
    → IsLocated r lower id found
    → IsLocated (suc r) lower id (shift found)
IsLocated-shift r lower id found (inl e) = inl (ap (λ f. shift f) e)
IsLocated-shift r lower id found (inr (p, e, same, f)) =
    inr (suc p, ap (λ n. suc n) e, same, ap (λ f. shift f) f)

-- Only the first reactor has the first bound.
first_reactor :
    (lo lower : TriggerId) (bounds : List TriggerId) (r : ReactorId)
    → IsBounds lo bounds
    → lower_from lo bounds r ≡ some lower
    → lower ≤ lo
    → r ≡ 0
first_reactor lo lower bounds zero s e h = refl
first_reactor lo lower [] (suc r) s e h = absurd (ground (arith, e))
first_reactor lo lower (b ∷ bounds) (suc r) s e h =
    absurd (omega (arith, s.0, lower_from_above b lower bounds r s.1 e))

search_bound_lem :
    (lo lower upper id : TriggerId) (bounds : List TriggerId) (r : ReactorId)
    → IsBounds lo bounds
    → lower_from lo bounds r ≡ some lower
    → get_elem? bounds r ≡ some upper
    → lower ≤ id
    → id < upper
    → IsLocated r lower id (search_bound bounds id)
unfolding search_bound
search_bound_lem lo lower upper id [] r s e f h k = absurd (ground (arith, f))
search_bound_lem lo lower upper id (b ∷ bounds) zero s e f h k = inl (ground (arith, f, k))
search_bound_lem lo lower upper id (b ∷ bounds) (suc r) s e f h k =
    let above = lower_from_above b lower bounds r s.1 e in
    elim (compared (compare b id)) [
      | Compared.is_lt c ↦
          rw (c, search_bound)
            (IsLocated-shift r lower id (search_bound bounds id)
              (search_bound_lem b lower upper id bounds r s.1 e f h k))
      | Compared.is_eq c ↦
          let same : b ≡ id = compare_same b id c in
          let first = first_reactor b lower bounds r s.1 e (omega arith) in
          rw (c, search_bound) (inr (0, ap (λ n. suc n) first, omega arith, refl))
      | Compared.is_gt c ↦ absurd (omega (arith, gt_lt b id c))
    ]

lower_from-bound :
    (reg : DebugInfoRegistry) (r : ReactorId) (lower upper : TriggerId)
    → get_reactor_lower_bound reg r ≡ some lower
    → get_elem? reg.reactor_bound r ≡ some upper
    → lower_from first_regular reg.reactor_bound r ≡ some lower
unfolding get_reactor_lower_bound
lower_from-bound reg zero lower upper e f = e
lower_from-bound reg (suc r) lower upper e f =
    later first_regular reg.reactor_bound r lower upper e f
  where
    later :
        (lo : TriggerId) (bounds : List TriggerId) (r : ReactorId) (lower upper : TriggerId)
        → get_elem? bounds r ≡ some lower
        → get_elem? bounds (suc r) ≡ some upper
        → lower_from lo bounds (suc r) ≡ some lower
    later lo [] r lower upper e f = absurd (ground (arith, e))
    later lo (b ∷ bounds) zero lower upper e f = e
    later lo (b ∷ bounds) (suc r) lower upper e f = later b bounds r lower upper e f

-- If every reactor has a component, so that the bounds strictly ascend, then an id in the range of
-- a reactor is the reactor's, with its distance from the start of the range.
pub raw_id_of_trigger_lem :
    (reg : DebugInfoRegistry) (r : ReactorId) (lower upper id : TriggerId)
    → IsBounds first_regular reg.reactor_bound
    → get_reactor_lower_bound reg r ≡ some lower
    → get_elem? reg.reactor_bound r ≡ some upper
    → lower ≤ id
    → id < upper
    → raw_id_of_trigger reg id ≡ some (r, id - lower)
unfolding raw_id_of_trigger raw_id_of_regular
raw_id_of_trigger_lem reg r lower upper id s e f h k =
    let start = lower_from-bound reg r lower upper e f in
    let regular = lower_from_above first_regular lower reg.reactor_bound r s start in
    elim (search_bound_lem first_regular lower upper id reg.reactor_bound r s start f h k) [
      | inl found ↦ ground (arith, found, e, regular)
      | inr (p, next, same, found) ↦ ground (arith, found, next, same, regular)
    ]
