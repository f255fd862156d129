-- ===== src/Durations/Units.antt =====
-- The units of src/util/mod.rs: what a unit is worth, and that the parser and the macro agree.
use reactor_rs.Common.{
  ℕ, ◌*◌, ◌<◌, ◌≡◌, refl, ap, Option, none, some, List, [], ◌∷◌, if◌then◌else◌, ltb, arith, All,
  Bool-cases, inl, inr, subst,
}
use reactor_rs.Common.Decimal.{Text, text_eq, text_eq→eq}
use reactor_rs.Tag.{Duration}
use reactor_rs.Durations.{
  TimeUnit, nano, micro, milli, sec, min, hour, day, u64_mod, unit_names, find_name, try_from,
  to_duration, delay, delay_hours, delay_days, delay_minutes,
}

-- Nanoseconds in a unit, and the number of seconds that a unit above the second is multiplied out
-- to.
abbrev pub nanos : TimeUnit → ℕ
nanos nano = 1
nanos micro = 1000
nanos milli = 1000000
nanos sec = 1000000000
nanos min = 60000000000
nanos hour = 3600000000000
nanos day = 86400000000000

abbrev pub factor : TimeUnit → ℕ
factor min = 60
factor hour = 3600
factor day = 86400
factor nano = 1
factor micro = 1
factor milli = 1
factor sec = 1

-- A magnitude of u64 has its value in every unit, unless the seconds overflow u64.
pub to_duration_lem :
    (u : TimeUnit) (magnitude : ℕ)
    → magnitude < u64_mod
    → to_duration u magnitude
      ≡ (if ltb (factor u * magnitude) u64_mod then some (magnitude * nanos u) else none)
unfolding to_duration
to_duration_lem nano magnitude h = ground arith
to_duration_lem micro magnitude h = ground arith
to_duration_lem milli magnitude h = ground arith
to_duration_lem sec magnitude h = ground arith
to_duration_lem min magnitude h = ground arith
to_duration_lem hour magnitude h = ground arith
to_duration_lem day magnitude h = ground arith

-- What holds of every entry of a table holds of what is found.
pub find_name-All :
    {A : Type 0} (P : Text → A → Type 0) (names : List (Text × A)) (name : Text) (a : A)
    → All (λ e. P e.0 e.1) names
    → find_name names name ≡ some a
    → P name a
find_name-All P [] name a h e = absurd (ground (arith, e))
find_name-All P ((other, b) ∷ names) name a h e = elim (Bool-cases (text_eq other name)) [
  | inl same ↦
      let value : b ≡ a = ground (arith, e, same) in
      subst (λ n. P n a) (text_eq→eq other name same) (subst (λ c. P other c) value h.0)
  | inr different ↦ find_name-All P names name a h.1 (ground (arith, e, different))
]

hours_lem : (amount : ℕ) → delay_hours amount ≡ to_duration hour amount
unfolding delay_hours to_duration
hours_lem amount = refl

days_lem : (amount : ℕ) → delay_days amount ≡ to_duration day amount
unfolding delay_days to_duration
days_lem amount = ground arith

delay_agrees : All (λ e. (m : ℕ) → delay e.0 m ≡ some (to_duration e.1 m)) unit_names
unfolding delay to_duration delay_minutes
delay_agrees =
    let worth_days = λ (m : ℕ). ap (λ (d : Option Duration). some d) (days_lem m) in
    let worth_hours = λ (m : ℕ). ap (λ (d : Option Duration). some d) (hours_lem m) in
    (
      worth_days,
      (
        worth_days,
        (
          worth_hours,
          (
            worth_hours,
            (
              worth_hours,
              (
                λ m. refl,
                (
                  λ m. refl,
                  (
                    λ m. refl,
                    (
                      λ m. refl,
                      (
                        λ m. refl,
                        (
                          λ m. refl,
                          (
                            λ m. refl,
                            (
                              λ m. refl,
                              (
                                λ m. refl,
                                (
                                  λ m. refl,
                                  (
                                    λ m. refl,
                                    (λ m. refl, (λ m. refl, (λ m. refl, (λ m. refl, tt)))),
                                  ),
                                ),
                              ),
                            ),
                          ),
                        ),
                      ),
                    ),
                  ),
                ),
              ),
            ),
          ),
        ),
      ),
    )

-- Every unit that `try_from` knows is one of the macro `delay!`, with the same value and the same
-- overflow at every amount.
pub delay-to_duration :
    (unit : Text) (u : TimeUnit) (amount : ℕ)
    → try_from unit ≡ some u
    → delay unit amount ≡ some (to_duration u amount)
unfolding try_from
delay-to_duration unit u amount e =
    find_name-All (λ name v. (m : ℕ) → delay name m ≡ some (to_duration v m)) unit_names unit u
      delay_agrees e amount
