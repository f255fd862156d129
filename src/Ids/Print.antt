-- ===== src/Ids/Print.antt =====
-- `Display` and `FromStr` of the global ids of src/ids.rs.
use reactor_rs.Common.{
  ℕ, ◌≡◌, refl, true, false, Option, none, some, [], ◌∷◌, ◌++◌, if◌then◌else◌, ltb, ◌==◌, arith,
}
use reactor_rs.Common.Decimal.{
  Text, IsDigits, to_text, to_text-IsDigits, number, refused, parse_uint, parse_uint-to_text,
}
use reactor_rs.Ids.{GlobalId, half_mod}

unfoldable pub display : GlobalId → Text
display id = to_text id.container ++ (b'/' ∷ to_text id.local)

-- At the first occurrence.
unfoldable pub split_once : ℕ → Text → Option (Text × Text)
split_once sep [] = none
split_once sep (c ∷ s) = elim (c == sep) [
  | true ↦ some ([], s)
  | false ↦ elim (split_once sep s) [ some (a, b) ↦ some (c ∷ a, b) | none ↦ none ]
]

pub data IdError : Type 0 where
  invalid_reactor_id invalid_local_id expected_format : IdError

pub data ParsedId : Type 0 where
  ok : GlobalId → ParsedId
  err : IdError → ParsedId

unfoldable pub from_str : Text → ParsedId
unfolding split_once
from_str s = elim (split_once b'/' s) [
  | none ↦ err expected_format
  | some (container, local) ↦ elim (parse_uint half_mod container) [
    | refused _ ↦ err invalid_reactor_id
    | number c ↦ elim (parse_uint half_mod local) [
      | refused _ ↦ err invalid_local_id
      | number l ↦ ok (record { container = c; local = l })
    ]
  ]
]

split_once-digits :
    (s rest : Text) → IsDigits s → split_once b'/' (s ++ (b'/' ∷ rest)) ≡ some (s, rest)
unfolding split_once
split_once-digits [] rest d = refl
split_once-digits (c ∷ s) rest d = ground (arith, d.0, split_once-digits s rest d.1)

no_slash : (s : Text) → IsDigits s → split_once b'/' s ≡ none
unfolding split_once
no_slash [] d = refl
no_slash (c ∷ s) d = ground (arith, d.0, no_slash s d.1)

-- Two numbers with a slash between them are read as the id with these parts if both fit; else the
-- first that does not fit is the error. A number alone is an error.
pub from_str-display :
    (id : GlobalId) (n : ℕ)
    → (from_str (display id) ≡ (
        if ltb id.container half_mod
        then if ltb id.local half_mod then ok id else err invalid_local_id
        else err invalid_reactor_id))
      × (from_str (to_text n) ≡ err expected_format)
unfolding from_str display
from_str-display id n =
    let parts =
      split_once-digits (to_text id.container) (to_text id.local) (to_text-IsDigits id.container) in
    (
      rw (parts, from_str)
          (ground (
            arith,
            parse_uint-to_text half_mod id.container (omega arith),
            parse_uint-to_text half_mod id.local (omega arith),
          )),
      rw (no_slash (to_text n) (to_text-IsDigits n), from_str) refl,
    )
