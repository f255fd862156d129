-- ===== src/Durations/Parsing.antt =====
-- What `try_parse_duration` of src/util/mod.rs makes of a number, blanks and the name of a unit.
use reactor_rs.Common.{
  ℕ, ◌*◌, ◌<◌, ◌≤◌, ◌≡◌, refl, sym, ap, ◌∙◌, true, false, ◌&&◌, ◌||◌, Bool, none, some, [], ◌∷◌,
  ◌++◌, if◌then◌else◌, ltb, leb, ◌==◌, arith, All,
}
use reactor_rs.Common.Decimal.{
  Text, is_digit, IsDigits, IsNonEmpty, to_text, text_eq-to_text, to_text-IsDigits,
  to_text-IsNonEmpty, pos_overflow, parse_uint-to_text,
}
use reactor_rs.Durations.{
  CharClass, TimeUnit, u64_mod, unit_names, try_from, ok, err, panicked, bad_number, unknown_unit,
  unit_required, split_numeric, trim_start, trim_end, trim, with_magnitude, without_unit,
  try_parse_duration,
}
use reactor_rs.Durations.Units.{nanos, factor, to_duration_lem, find_name-All}

abbrev pub is_letter : ℕ → Bool
is_letter c = leb b'a' c && leb c b'z'

abbrev pub is_blank : ℕ → Bool
is_blank c = c == 32 || (leb 9 c && leb c 13)

abbrev pub IsBlank : Text → Type 0
IsBlank s = All (λ c. is_blank c ≡ true) s

abbrev pub IsWord : Text → Type 0
IsWord s = IsNonEmpty s × All (λ c. is_letter c ≡ true) s

abbrev is_word : Text → Bool
is_word [] = false
is_word (c ∷ []) = is_letter c
is_word (c ∷ d ∷ s) = is_letter c && is_word (d ∷ s)

is_word→IsWord : (s : Text) → is_word s ≡ true → IsWord s
is_word→IsWord [] h = absurd (ground (arith, h))
is_word→IsWord (c ∷ []) h = (tt, (h, tt))
is_word→IsWord (c ∷ d ∷ s) h =
    let rest = is_word→IsWord (d ∷ s) (ground (arith, h)) in (tt, (ground (arith, h), rest.1))

-- The names of units are words.
unit_names_are_words : All (λ e. is_word e.0 ≡ true) unit_names
unit_names_are_words = ground arith

pub try_from-IsWord : (unit : Text) (u : TimeUnit) → try_from unit ≡ some u → IsWord unit
unfolding try_from
try_from-IsWord unit u e =
    is_word→IsWord unit
      (find_name-All (λ name v. is_word name ≡ true) unit_names unit u unit_names_are_words e)

module _ (C : CharClass) where
  open C use {is_numeric, is_whitespace, ascii_numeric, ascii_whitespace}

  digit_numeric : (c : ℕ) → is_digit c ≡ true → is_numeric c ≡ true
  digit_numeric c h = ground (arith, h, ascii_numeric c)

  letter_plain : (c : ℕ) → is_letter c ≡ true → (is_numeric c ≡ false) × (is_whitespace c ≡ false)
  letter_plain c h = (ground (arith, h, ascii_numeric c), ground (arith, h, ascii_whitespace c))

  blank_plain : (c : ℕ) → is_blank c ≡ true → (is_numeric c ≡ false) × (is_whitespace c ≡ true)
  blank_plain c h = (ground (arith, h, ascii_numeric c), ground (arith, h, ascii_whitespace c))

  split_numeric-append :
      (s : Text) (c : ℕ) (rest : Text)
      → IsDigits s
      → is_numeric c ≡ false
      → split_numeric C (s ++ (c ∷ rest)) ≡ (s, c ∷ rest)
  unfolding split_numeric
  split_numeric-append [] c rest d h = ground arith
  split_numeric-append (x ∷ s) c rest d h =
      ground (arith, digit_numeric x d.0, split_numeric-append s c rest d.1 h)

  split_numeric-digits : (s : Text) → IsDigits s → split_numeric C s ≡ (s, [])
  unfolding split_numeric
  split_numeric-digits [] d = refl
  split_numeric-digits (x ∷ s) d = ground (arith, digit_numeric x d.0, split_numeric-digits s d.1)

  trim_start-blank : (ws s : Text) → IsBlank ws → trim_start C (ws ++ s) ≡ trim_start C s
  unfolding trim_start
  trim_start-blank [] s b = refl
  trim_start-blank (w ∷ ws) s b = ground (arith, (blank_plain w b.0).1, trim_start-blank ws s b.1)

  trim_end-blank : (ws : Text) → IsBlank ws → trim_end C ws ≡ []
  unfolding trim_end
  trim_end-blank [] b = refl
  trim_end-blank (w ∷ ws) b = ground (arith, (blank_plain w b.0).1, trim_end-blank ws b.1)

  trim_end-append :
      (s ws : Text) → All (λ c. is_letter c ≡ true) s → IsBlank ws → trim_end C (s ++ ws) ≡ s
  unfolding trim_end
  trim_end-append [] ws l b = trim_end-blank ws b
  trim_end-append (c ∷ []) ws l b =
      ground (arith, (letter_plain c l.0).1, trim_end-append [] ws tt b)
  trim_end-append (c ∷ d ∷ s) ws l b =
      ground (arith, (letter_plain c l.0).1, trim_end-append (d ∷ s) ws l.1 b)

  trim_lem :
      (before name after : Text)
      → IsBlank before
      → IsWord name
      → IsBlank after
      → trim C (before ++ (name ++ after)) ≡ name
  unfolding trim trim_start
  trim_lem before [] after b w a = absurd w.0
  trim_lem before (c ∷ name) after b w a = ground (
    arith,
    trim_start-blank before ((c ∷ name) ++ after) b,
    (letter_plain c w.1.0).1,
    trim_end-append (c ∷ name) after w.1 a,
  )

  -- The number is split from what follows it, if that is not empty.
  split_lem :
      (digits before name after : Text)
      → IsDigits digits
      → IsBlank before
      → IsWord name
      → (c : ℕ) × (rest : Text) × (before ++ (name ++ after) ≡ c ∷ rest)
        × (split_numeric C (digits ++ (before ++ (name ++ after))) ≡ (digits, c ∷ rest))
  split_lem digits [] [] after d b w = absurd w.0
  split_lem digits [] (c ∷ name) after d b w =
      (c, name ++ after, refl, split_numeric-append digits c _ d (letter_plain c w.1.0).0)
  split_lem digits (c ∷ before) name after d b w =
      (c, before ++ (name ++ after), refl, split_numeric-append digits c _ d (blank_plain c b.0).0)

  parsed_lem :
      (magnitude : ℕ) (before name after : Text)
      → IsBlank before
      → IsWord name
      → IsBlank after
      → try_parse_duration C (to_text magnitude ++ (before ++ (name ++ after))) ≡ (
          if ltb magnitude u64_mod
          then with_magnitude C magnitude name
          else err (bad_number pos_overflow))
  unfolding try_parse_duration
  parsed_lem magnitude before name after b w a =
      let (c, rest, same, split) =
        split_lem (to_text magnitude) before name after (to_text-IsDigits magnitude) b w in
      let trimmed : trim C (c ∷ rest) ≡ name =
        ap (λ s. trim C s) (sym same) ∙ trim_lem before name after b w a in
      let read = parse_uint-to_text u64_mod magnitude (omega arith) in
      rw (split, try_parse_duration) (ground (arith, read, trimmed))

  alone_lem :
      (magnitude : ℕ)
      → try_parse_duration C (to_text magnitude)
        ≡ (if magnitude == 0 then ok 0 else err unit_required)
  unfolding try_parse_duration without_unit
  alone_lem magnitude = ground (
    arith,
    split_numeric-digits (to_text magnitude) (to_text-IsDigits magnitude),
    to_text-IsNonEmpty magnitude,
    text_eq-to_text magnitude,
  )

  -- A number of u64, blanks and the name of a unit, with blanks behind, are parsed as the number
  -- times the unit, unless the number of seconds, which is computed in u64 for minutes, hours and
  -- days, overflows: then the parser panics (in a debug build).
  pub try_parse_duration-to_text :
      (u : TimeUnit) (magnitude : ℕ) (before name after : Text)
      → magnitude < u64_mod
      → IsBlank before
      → try_from name ≡ some u
      → IsBlank after
      → try_parse_duration C (to_text magnitude ++ (before ++ (name ++ after)))
        ≡ (if ltb (factor u * magnitude) u64_mod then ok (magnitude * nanos u) else panicked)
  unfolding with_magnitude
  try_parse_duration-to_text u magnitude before name after fits b e a =
      parsed_lem magnitude before name after b (try_from-IsWord name u e) a
      ∙ ground (arith, e, to_duration_lem u magnitude)

  -- A word that is no unit is an error behind a number of u64, and a number that does not fit u64
  -- is an error whatever word is behind it, a unit or not; a number alone is an error too, unless
  -- it is zero.
  pub try_parse_duration_refuses :
      (magnitude large : ℕ) (before name word after : Text)
      → magnitude < u64_mod
      → u64_mod ≤ large
      → IsBlank before
      → IsWord name
      → try_from name ≡ none
      → IsWord word
      → IsBlank after
      → (try_parse_duration C (to_text magnitude ++ (before ++ (name ++ after)))
          ≡ err (unknown_unit name))
        × (try_parse_duration C (to_text large ++ (before ++ (word ++ after)))
            ≡ err (bad_number pos_overflow))
        × (try_parse_duration C (to_text magnitude)
            ≡ (if magnitude == 0 then ok 0 else err unit_required))
        × (try_parse_duration C (to_text large) ≡ err unit_required)
  unfolding with_magnitude
  try_parse_duration_refuses magnitude large before name word after fits over b n e w a = (
    parsed_lem magnitude before name after b n a ∙ ground (arith, e, fits),
    parsed_lem large before word after b w a ∙ ground (arith, over),
    alone_lem magnitude,
    alone_lem large ∙ ground (arith, over),
  )
