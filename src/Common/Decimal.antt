-- ===== src/Common/Decimal.antt =====
-- Text as code points, and numbers in it: `Display` of an unsigned integer and its `from_str`, as
-- the standard library documents them.
use Prim.Native.Nat.{ℕ, zero, suc, ◌+◌, ◌-◌, ◌*◌, ◌/◌, ◌%◌, ◌<◌, ◌≤◌}
use Prim.Native.Char.{code}
use Prim.Native.String.{String}
use mathlib.Core.Path.{◌≡◌, refl, ap, sym, ◌∙◌}
use mathlib.Core.Logic.{inl, inr}
use mathlib.Core.Bool.{Bool, true, false, ◌&&◌}
use mathlib.Core.List.{List, [], ◌∷◌}
use native.Mathlib.Omega.{arith}
use reactor_rs.Common.Tests.{ltb, leb, ◌==◌, if◌then◌else◌, Bool-cases}
use reactor_rs.Common.Lists.{All}

abbrev pub Text : Type 0
Text = List ℕ

abbrev pub codes : String → Text
codes String.[] = []
codes (String.◌∷◌ c s) = code c ∷ codes s

abbrev pub text_eq : Text → Text → Bool
text_eq [] [] = true
text_eq (a ∷ s) (b ∷ t) = a == b && text_eq s t
text_eq [] (b ∷ t) = false
text_eq (a ∷ s) [] = false

abbrev pub is_digit : ℕ → Bool
is_digit c = leb b'0' c && leb c b'9'

-- Digits are put before what follows; a round for each digit, with a number below the fuel.
unfoldable pub digits_before : ℕ → ℕ → Text → Text
digits_before zero n out = out
digits_before (suc fuel) n out =
    let more = digits_before fuel (n / 10) ((b'0' + n % 10) ∷ out) in
    if ltb n 10 then (b'0' + n % 10) ∷ out else more

unfoldable pub to_text : ℕ → Text
to_text n = digits_before (suc n) n []

pub data IntError : Type 0 where
  empty invalid_digit pos_overflow : IntError

pub data Parsed : Type 0 where
  number : ℕ → Parsed
  refused : IntError → Parsed

-- The type holds the numbers below `bound`.
unfoldable pub parse_digits : (bound acc : ℕ) → Text → Parsed
parse_digits bound acc [] = number acc
parse_digits bound acc (c ∷ s) =
    let acc' = acc * 10 + (c - b'0') in
    let rest = parse_digits bound acc' s in
    if is_digit c
    then if ltb acc' bound then rest else refused pos_overflow
    else refused invalid_digit

abbrev parse_signed : ℕ → Text → Parsed
parse_signed bound [] = refused invalid_digit
parse_signed bound (c ∷ s) = parse_digits bound 0 (c ∷ s)

-- A plus sign may stand first.
unfoldable pub parse_uint : ℕ → Text → Parsed
unfolding parse_digits
parse_uint bound [] = refused empty
parse_uint bound (c ∷ s) = if c == b'+' then parse_signed bound s else parse_digits bound 0 (c ∷ s)

abbrev pub IsDigits : Text → Type 0
IsDigits s = All (λ c. is_digit c ≡ true) s

abbrev pub IsNonEmpty : Text → Type 0
IsNonEmpty [] = ⊥
IsNonEmpty (c ∷ s) = Unit

digits_before-IsDigits :
    (fuel n : ℕ) (out : Text) → IsDigits out → IsDigits (digits_before fuel n out)
unfolding digits_before
digits_before-IsDigits zero n out h = h
digits_before-IsDigits (suc fuel) n out h =
    let last : is_digit (b'0' + n % 10) ≡ true = ground arith in
    ground (arith, last, h, digits_before-IsDigits fuel (n / 10) ((b'0' + n % 10) ∷ out) (last, h))

digits_before-IsNonEmpty :
    (fuel n : ℕ) (out : Text) → IsNonEmpty out → IsNonEmpty (digits_before fuel n out)
unfolding digits_before
digits_before-IsNonEmpty zero n out h = h
digits_before-IsNonEmpty (suc fuel) n out h =
    ground (arith, digits_before-IsNonEmpty fuel (n / 10) ((b'0' + n % 10) ∷ out) tt)

pub to_text-IsDigits : (n : ℕ) → IsDigits (to_text n)
unfolding to_text
to_text-IsDigits n = digits_before-IsDigits (suc n) n [] tt

pub to_text-IsNonEmpty : (n : ℕ) → IsNonEmpty (to_text n)
unfolding to_text digits_before
to_text-IsNonEmpty n = ground (arith, digits_before-IsNonEmpty n (n / 10) ((b'0' + n % 10) ∷ []) tt)

parse_last :
    (bound n : ℕ) (out : Text)
    → n < bound
    → parse_digits bound (n / 10) ((b'0' + n % 10) ∷ out) ≡ parse_digits bound n out
unfolding parse_digits
parse_last bound n out h = ground arith

parse_digits-digits_before :
    (bound fuel n : ℕ) (out : Text)
    → n < fuel
    → n < bound
    → parse_digits bound 0 (digits_before fuel n out) ≡ parse_digits bound n out
unfolding digits_before
parse_digits-digits_before bound zero n out h k = absurd (omega arith)
parse_digits-digits_before bound (suc fuel) n out h k = ground (
  arith,
  parse_last bound n out k,
  parse_digits-digits_before bound fuel (n / 10) ((b'0' + n % 10) ∷ out),
)

parse_uint-parse_digits :
    (bound : ℕ) (s : Text) → IsDigits s → IsNonEmpty s → parse_uint bound s ≡ parse_digits bound 0 s
unfolding parse_uint
parse_uint-parse_digits bound [] d k = absurd k
parse_uint-parse_digits bound (c ∷ s) d k = ground (arith, d.0)

parse_overflow :
    (bound n : ℕ) (out : Text)
    → n / 10 < bound
    → bound ≤ n
    → parse_digits bound (n / 10) ((b'0' + n % 10) ∷ out) ≡ refused pos_overflow
unfolding parse_digits
parse_overflow bound n out h k = ground arith

parse_digits-digits_before_overflow :
    (bound fuel n : ℕ) (out : Text)
    → n < fuel
    → 0 < bound
    → bound ≤ n
    → parse_digits bound 0 (digits_before fuel n out) ≡ refused pos_overflow
unfolding digits_before
parse_digits-digits_before_overflow bound zero n out h p k = absurd (omega arith)
parse_digits-digits_before_overflow bound (suc fuel) n out h p k = ground (
  arith,
  parse_overflow bound n out,
  parse_digits-digits_before bound fuel (n / 10) ((b'0' + n % 10) ∷ out),
  parse_digits-digits_before_overflow bound fuel (n / 10) ((b'0' + n % 10) ∷ out),
)

-- A number that the type holds is read back from its print, and a greater one overflows.
pub parse_uint-to_text :
    (bound n : ℕ)
    → 0 < bound
    → parse_uint bound (to_text n) ≡ (if ltb n bound then number n else refused pos_overflow)
unfolding to_text parse_digits
parse_uint-to_text bound n p =
    parse_uint-parse_digits bound (to_text n) (to_text-IsDigits n) (to_text-IsNonEmpty n)
    ∙ ground (
      arith,
      parse_digits-digits_before bound (suc n) n [],
      parse_digits-digits_before_overflow bound (suc n) n [],
    )

pub text_eq→eq : (s t : Text) → text_eq s t ≡ true → s ≡ t
text_eq→eq [] [] h = refl
text_eq→eq [] (b ∷ t) h = absurd (ground (arith, h))
text_eq→eq (a ∷ s) [] h = absurd (ground (arith, h))
text_eq→eq (a ∷ s) (b ∷ t) h = ground (arith, h, text_eq→eq s t)

pub to_text_injective : (m n : ℕ) → to_text m ≡ to_text n → m ≡ n
to_text_injective m n h =
    let bound = suc (m + n) in
    let same : parse_uint bound (to_text m) ≡ parse_uint bound (to_text n) =
      ap (λ s. parse_uint bound s) h in
    ground (
      arith,
      same,
      parse_uint-to_text bound m (omega arith),
      parse_uint-to_text bound n (omega arith),
    )

-- Only zero is printed as a single zero.
pub text_eq-to_text : (n : ℕ) → text_eq (to_text n) (codes "0") ≡ (n == 0)
unfolding to_text digits_before
text_eq-to_text n = elim (Bool-cases (text_eq (to_text n) (codes "0"))) [
  | inl same ↦
      let zero_text : to_text 0 ≡ codes "0" = refl in
      let none_left = to_text_injective n 0 (text_eq→eq _ _ same ∙ sym zero_text) in
      rw same (ground (arith, none_left))
  | inr different ↦ rw different (ground (arith, different))
]
