-- ===== src/Examples/Durations.antt =====
-- Durations and ids from text: src/util/mod.rs and src/ids.rs at concrete texts.
use reactor_rs.Common.{◌*◌, ◌≡◌, refl, ◌&&◌, ◌||◌, some, none, [], ◌++◌, leb, ◌==◌, arith}
use reactor_rs.Common.Decimal.{codes, is_digit, to_text, parse_uint, parse_digits}
use reactor_rs.Common.Decimal.{pos_overflow}
use reactor_rs.Durations.{
  CharClass, try_parse_duration, split_numeric, trim, trim_start, trim_end, ok, err, unknown_unit,
  bad_number, unit_required, empty_string, panicked, min, to_duration, delay, try_from,
}
use reactor_rs.Durations.Parsing.{try_parse_duration-to_text, try_parse_duration_refuses}
use reactor_rs.Durations.Units.{delay-to_duration}
use reactor_rs.Ids.Print.{
  from_str, display, split_once, from_str-display, expected_format, invalid_local_id,
}
use reactor_rs.Ids.Print

-- The classes of the ASCII characters.
abbrev ascii : CharClass
ascii = record {
  is_numeric = is_digit;
  is_whitespace = λ c. c == 32 || (leb 9 c && leb c 13);
  ascii_numeric = λ c h. refl;
  ascii_whitespace = λ c h. refl;
}

parses :
    (try_parse_duration ascii (codes "3 ms") ≡ ok 3000000)
    × (try_parse_duration ascii (codes "30nsec") ≡ ok 30)
    × (try_parse_duration ascii (codes "0") ≡ ok 0)
    × (try_parse_duration ascii (codes "") ≡ err empty_string)
    × (try_parse_duration ascii (codes "30") ≡ err unit_required)
    × (try_parse_duration ascii (codes "400000000000000000 min") ≡ panicked)
unfolding try_parse_duration split_numeric trim trim_start trim_end try_from to_duration parse_uint
    parse_digits
parses = (refl, refl, refl, refl, refl, refl)

min_found : try_from (codes "min") ≡ some min
unfolding try_from
min_found = refl

minutes_found : try_from (codes "minutes") ≡ some min
unfolding try_from
minutes_found = refl

no_week : try_from (codes "week") ≡ none
unfolding try_from
no_week = refl

try_parse_duration-to_text_example :
    try_parse_duration ascii (to_text 3 ++ (codes " " ++ (codes "min" ++ [])))
    ≡ ok (3 * 60000000000)
try_parse_duration-to_text_example =
    try_parse_duration-to_text ascii min 3 (codes " ") (codes "min") [] (omega arith) (refl, tt)
      min_found tt

try_parse_duration_refuses_example :
    (try_parse_duration ascii (to_text 3 ++ ([] ++ (codes "week" ++ codes " ")))
      ≡ err (unknown_unit (codes "week")))
    × (try_parse_duration ascii
          (to_text 30000000000000000000000 ++ ([] ++ (codes "ns" ++ codes " ")))
        ≡ err (bad_number pos_overflow))
    × (try_parse_duration ascii (to_text 3) ≡ err unit_required)
    × (try_parse_duration ascii (to_text 30000000000000000000000) ≡ err unit_required)
try_parse_duration_refuses_example =
    try_parse_duration_refuses ascii 3 30000000000000000000000 [] (codes "week") (codes "ns")
      (codes " ") (omega arith) (omega arith) tt (tt, (refl, (refl, (refl, (refl, tt))))) no_week
      (tt, (refl, (refl, tt))) (refl, tt)

delay-to_duration_example : delay (codes "minutes") 3 ≡ some (to_duration min 3)
delay-to_duration_example = delay-to_duration (codes "minutes") min 3 minutes_found

from_str-display_example :
    (from_str (display (record { container = 3; local = 70000 })) ≡ Print.err invalid_local_id)
    × (from_str (to_text 5) ≡ Print.err expected_format)
from_str-display_example = from_str-display (record { container = 3; local = 70000 }) 5
