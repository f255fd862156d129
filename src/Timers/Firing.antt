-- ===== src/Timers/Firing.antt =====
-- `Timer::is_present` of src/timers.rs against the tags at which the timer is triggered.
use reactor_rs.Common.{
  ℕ, zero, suc, ◌+◌, ◌-◌, ◌*◌, ◌/◌, ◌<◌, ◌≡◌, true, false, some, arith, subst, sym, ◌↔◌, Bool-cases,
  inl, inr,
}
use native.Mathlib.Nat.{div-add-mod', mul-mod_left}
use reactor_rs.Tag.{EventTag, successor}
use reactor_rs.Timers.{Timer, is_periodic, is_present, first_tag, next_tag, FiresAt, first, again}

-- A firing is at the offset plus a number of periods, at the first microstep.
abbrev Multiple : Timer → EventTag → Type 0
Multiple timer tag =
    (n : ℕ) × (tag.offset_from_t0 ≡ timer.offset + n * timer.period) × (tag.microstep ≡ 0)

FiresAt-Multiple : (timer : Timer) {tag : EventTag} → FiresAt timer tag → Multiple timer tag
unfolding first_tag next_tag successor is_periodic
FiresAt-Multiple timer first = (0, ground arith, ground arith)
FiresAt-Multiple timer (again {tag = t} f e) =
    let (n, at, micro) = FiresAt-Multiple timer f in (suc n, ground arith, ground arith)

abbrev multiple_tag : Timer → ℕ → EventTag
multiple_tag timer n = record { offset_from_t0 = timer.offset + n * timer.period; microstep = 0 }

first_tag-multiple : (timer : Timer) → first_tag timer ≡ multiple_tag timer 0
unfolding first_tag successor
first_tag-multiple timer = ground arith

next_tag-multiple :
    (timer : Timer) (n : ℕ)
    → is_periodic timer ≡ true
    → next_tag timer (multiple_tag timer n) ≡ some (multiple_tag timer (suc n))
unfolding next_tag successor is_periodic
next_tag-multiple timer n h = ground arith

still-multiple :
    (timer : Timer) (n : ℕ)
    → is_periodic timer ≡ false
    → multiple_tag timer n ≡ multiple_tag timer (suc n)
unfolding is_periodic
still-multiple timer n h = ground arith

multiple-FiresAt : (timer : Timer) (n : ℕ) → FiresAt timer (multiple_tag timer n)
multiple-FiresAt timer zero = subst (FiresAt timer) (first_tag-multiple timer) first
multiple-FiresAt timer (suc n) = elim (Bool-cases (is_periodic timer)) [
  | inl h ↦ again (multiple-FiresAt timer n) (next_tag-multiple timer n h)
  | inr h ↦ subst (FiresAt timer) (still-multiple timer n h) (multiple-FiresAt timer n)
]

Multiple-is_present :
    (timer : Timer) (tag : EventTag) → Multiple timer tag → is_present timer tag ≡ true
unfolding is_present
Multiple-is_present timer tag (n, at, micro) = grind (arith, mul-mod_left n timer.period)

is_present-Multiple :
    (timer : Timer) (tag : EventTag)
    → is_present timer tag ≡ true
    → tag.microstep ≡ 0
    → tag ≡ multiple_tag timer ((tag.offset_from_t0 - timer.offset) / timer.period)
unfolding is_present
is_present-Multiple timer tag h m =
    ground (arith, div-add-mod' (tag.offset_from_t0 - timer.offset) timer.period)

-- At the first microstep of an instant `is_present` is true exactly of the tags at which the timer
-- is triggered: after its offset, and then every period if that is not zero.
pub is_present-FiresAt :
    (timer : Timer) (tag : EventTag)
    → tag.microstep ≡ 0
    → (is_present timer tag ≡ true) ↔ FiresAt timer tag
is_present-FiresAt timer tag m = (
  λ h. subst (FiresAt timer) (sym (is_present-Multiple timer tag h m)) (multiple-FiresAt timer _),
  λ f. Multiple-is_present timer tag (FiresAt-Multiple timer f),
)

same_offset :
    (timer : Timer) (tag : EventTag) (microstep : ℕ)
    → is_present timer tag ≡ true
    → is_present timer (record tag { microstep = microstep }) ≡ true
unfolding is_present
same_offset timer tag microstep h = h

-- Where a timer is triggered, `is_present` is true at every later microstep of that instant too,
-- though the timer is triggered at none of them.
pub is_present_later_microstep :
    (timer : Timer) (tag : EventTag) (microstep : ℕ)
    → FiresAt timer tag
    → 0 < microstep
    → (is_present timer (record tag { microstep = microstep }) ≡ true)
      × (¬ FiresAt timer (record tag { microstep = microstep }))
is_present_later_microstep timer tag microstep f later =
    (present, λ g. absurd (omega (arith, (FiresAt-Multiple timer g).2)))
  where
    present : is_present timer (record tag { microstep = microstep }) ≡ true
    present =
        same_offset timer tag microstep (Multiple-is_present timer tag (FiresAt-Multiple timer f))
