-- ===== src/Durations.antt =====
-- src/util/mod.rs: durations from text, and the macro `delay!`. A duration is its nanoseconds. A
-- `none` of `to_duration` and of `delay` is an overflow of u64, which panics in a debug build.
pub mod Parsing
pub mod Units
use reactor_rs.Common.{
  ℕ, ◌+◌, ◌*◌, ◌<◌, ◌≤◌, ◌≡◌, Bool, true, false, ◌&&◌, ◌||◌, not, Option, none, some, List, [], ◌∷◌,
  if◌then◌else◌, ltb, leb, ◌==◌,
}
use reactor_rs.Common.Decimal.{
  Text, codes, text_eq, is_digit, Parsed, number, refused, IntError, parse_uint,
}
use reactor_rs.Tag.{Duration}
use mathlib.Core.Option

abbrev pub u64_mod : ℕ
u64_mod = 18446744073709551616

-- Multiplication in u64.
abbrev pub checked_mul : ℕ → ℕ → Option ℕ
checked_mul a b = if ltb (a * b) u64_mod then some (a * b) else none

abbrev pub from_nanos : ℕ → Duration
from_nanos n = n

abbrev pub from_micros : ℕ → Duration
from_micros n = n * 1000

abbrev pub from_millis : ℕ → Duration
from_millis n = n * 1000000

abbrev pub from_secs : ℕ → Duration
from_secs n = n * 1000000000

pub data TimeUnit : Type 0 where
  nano micro milli sec min hour day : TimeUnit

-- The arms of the match in `try_from`.
abbrev pub unit_names : List (Text × TimeUnit)
unit_names =
    (codes "day", day)
    ∷ (codes "days", day)
    ∷ (codes "h", hour)
    ∷ (codes "hour", hour)
    ∷ (codes "hours", hour)
    ∷ (codes "min", min)
    ∷ (codes "minute", min)
    ∷ (codes "minutes", min)
    ∷ (codes "s", sec)
    ∷ (codes "sec", sec)
    ∷ (codes "secs", sec)
    ∷ (codes "ms", milli)
    ∷ (codes "msec", milli)
    ∷ (codes "msecs", milli)
    ∷ (codes "us", micro)
    ∷ (codes "usec", micro)
    ∷ (codes "usecs", micro)
    ∷ (codes "ns", nano)
    ∷ (codes "nsec", nano)
    ∷ (codes "nsecs", nano)
    ∷ []

abbrev pub find_name : {A : Type 0} → List (Text × A) → Text → Option A
find_name [] name = none
find_name ((other, a) ∷ names) name = if text_eq other name then some a else find_name names name

unfoldable pub try_from : Text → Option TimeUnit
try_from value = find_name unit_names value

unfoldable pub to_duration : TimeUnit → ℕ → Option Duration
to_duration nano magnitude = some (from_nanos magnitude)
to_duration micro magnitude = some (from_micros magnitude)
to_duration milli magnitude = some (from_millis magnitude)
to_duration sec magnitude = some (from_secs magnitude)
to_duration min magnitude = Option.map (λ n. from_secs n) (checked_mul 60 magnitude)
to_duration hour magnitude = Option.map (λ n. from_secs n) (checked_mul (60 * 60) magnitude)
to_duration day magnitude = Option.map (λ n. from_secs n) (checked_mul (60 * 60 * 24) magnitude)

-- The expansion of `delay!` with a unit. A rule that passes on to another one is its call.
unfoldable pub delay_hours : ℕ → Option Duration
delay_hours amount = Option.map (λ n. from_secs n) (checked_mul 3600 amount)

unfoldable pub delay_days : ℕ → Option Duration
unfolding delay_hours
delay_days amount = elim (checked_mul 24 amount) [ some n ↦ delay_hours n | none ↦ none ]

unfoldable pub delay_weeks : ℕ → Option Duration
unfolding delay_days
delay_weeks amount = elim (checked_mul 7 amount) [ some n ↦ delay_days n | none ↦ none ]

unfoldable pub delay_minutes : ℕ → Option Duration
delay_minutes amount = Option.map (λ n. from_secs n) (checked_mul 60 amount)

abbrev pub delay_rules : List (Text × (ℕ → Option Duration))
delay_rules =
    (codes "ns", λ n. some (from_nanos n))
    ∷ (codes "nsec", λ n. some (from_nanos n))
    ∷ (codes "nsecs", λ n. some (from_nanos n))
    ∷ (codes "us", λ n. some (from_micros n))
    ∷ (codes "usec", λ n. some (from_micros n))
    ∷ (codes "usecs", λ n. some (from_micros n))
    ∷ (codes "ms", λ n. some (from_millis n))
    ∷ (codes "msec", λ n. some (from_millis n))
    ∷ (codes "msecs", λ n. some (from_millis n))
    ∷ (codes "s", λ n. some (from_secs n))
    ∷ (codes "sec", λ n. some (from_secs n))
    ∷ (codes "secs", λ n. some (from_secs n))
    ∷ (codes "second", λ n. some (from_secs n))
    ∷ (codes "seconds", λ n. some (from_secs n))
    ∷ (codes "min", delay_minutes)
    ∷ (codes "mins", delay_minutes)
    ∷ (codes "minute", delay_minutes)
    ∷ (codes "minutes", delay_minutes)
    ∷ (codes "h", delay_hours)
    ∷ (codes "hour", delay_hours)
    ∷ (codes "hours", delay_hours)
    ∷ (codes "d", delay_days)
    ∷ (codes "day", delay_days)
    ∷ (codes "days", delay_days)
    ∷ (codes "week", delay_weeks)
    ∷ (codes "weeks", delay_weeks)
    ∷ []

-- The outer `none` is the compile error of an unknown unit.
unfoldable pub delay : Text → ℕ → Option (Option Duration)
delay unit amount = Option.map (λ rule. rule amount) (find_name delay_rules unit)

-- What the standard library says of characters: `is_numeric` and `is_whitespace` are Unicode's, and
-- among the ASCII ones they hold of the digits, and of blanks and the controls from 9 to 13.
pub record CharClass : Type 0 where
  pub is_numeric : ℕ → Bool
  pub is_whitespace : ℕ → Bool
  pub ascii_numeric : (c : ℕ) → c < 128 → is_numeric c ≡ is_digit c
  pub ascii_whitespace : (c : ℕ) → c < 128 → is_whitespace c ≡ (c == 32 || (leb 9 c && leb c 13))

pub data DurationError : Type 0 where
  bad_number : IntError → DurationError
  unknown_unit : Text → DurationError
  unit_required empty_string : DurationError

pub data ParsedDuration : Type 0 where
  ok : Duration → ParsedDuration
  err : DurationError → ParsedDuration
  panicked : ParsedDuration

abbrev pub or_panic : Option Duration → ParsedDuration
or_panic none = panicked
or_panic (some d) = ok d

module _ (C : CharClass) where
  open C use {is_numeric, is_whitespace}

  -- `t[0..num_end]` and `t[num_end..]`.
  unfoldable pub split_numeric : Text → Text × Text
  split_numeric [] = ([], [])
  split_numeric (c ∷ s) =
      if is_numeric c then (c ∷ (split_numeric s).0, (split_numeric s).1) else ([], c ∷ s)

  unfoldable pub trim_start : Text → Text
  trim_start [] = []
  trim_start (c ∷ s) = if is_whitespace c then trim_start s else c ∷ s

  abbrev trim_last : Bool → ℕ → Text → Text
  trim_last true c [] = []
  trim_last false c [] = c ∷ []
  trim_last blank c (d ∷ s) = c ∷ d ∷ s

  unfoldable pub trim_end : Text → Text
  trim_end [] = []
  trim_end (c ∷ s) = trim_last (is_whitespace c) c (trim_end s)

  unfoldable pub trim : Text → Text
  trim s = trim_end (trim_start s)

  -- What follows once the number is read.
  unfoldable pub with_magnitude : ℕ → Text → ParsedDuration
  with_magnitude magnitude unit = elim (try_from unit) [
    | some u ↦ or_panic (to_duration u magnitude)
    | none ↦ err (unknown_unit unit)
  ]

  unfoldable pub without_unit : Text → ParsedDuration
  without_unit t =
      if text_eq t (codes "0")
      then ok (from_secs 0)
      else if text_eq t []
      then err empty_string
      else err unit_required

  unfoldable pub try_parse_duration : Text → ParsedDuration
  unfolding without_unit with_magnitude
  try_parse_duration t = elim (split_numeric t).1 [
    | [] ↦ without_unit t
    | c ∷ s ↦ elim (parse_uint u64_mod (split_numeric t).0) [
      | number magnitude ↦ with_magnitude magnitude (trim (c ∷ s))
      | refused e ↦ err (bad_number e)
    ]
  ]
