-- ===== src/Tag.antt =====
-- `EventTag` of src/scheduler/events.rs, `MicroStep` of src/time.rs and `Offset` of
-- src/scheduler/context.rs. A `Duration` and an `Instant` are their nanoseconds, unbounded: the
-- library's are bounded at 2^64 seconds.
pub mod Order
use reactor_rs.Common.{
  ℕ, ◌+◌, ◌-◌, ◌%◌, ◌<◌, ◌==◌, ◌≡◌, Ordering, lt, eq, gt, compare, Bool, true, false, if◌then◌else◌,
  ltb,
}
use reactor_rs.Ids.{full_mod}

abbrev pub Duration : Type 0
Duration = ℕ

abbrev pub Instant : Type 0
Instant = ℕ

-- `MicroStep`, by its u32; `+ 1` as a release build computes it.
abbrev pub MicroStep : Type 0
MicroStep = ℕ

unfoldable pub microstep_add : MicroStep → ℕ → MicroStep
microstep_add m rhs = (m + rhs) % full_mod

pub record EventTag : Type 0 where
  pub offset_from_t0 : Duration
  pub microstep : MicroStep

abbrev pub origin : EventTag
origin = record { offset_from_t0 = 0; microstep = 0 }

-- The derived `Ord`: lexicographic, in the order of the fields.
abbrev pub tag_cmp : EventTag → EventTag → Ordering
tag_cmp a b = elim (compare a.offset_from_t0 b.offset_from_t0) [
  | eq ↦ compare a.microstep b.microstep
  | lt ↦ lt
  | gt ↦ gt
]

abbrev pub tag_lt : EventTag → EventTag → Bool
tag_lt a b = elim (tag_cmp a b) [ lt ↦ true | _ ↦ false ]

abbrev pub tag_eq : EventTag → EventTag → Bool
tag_eq a b = elim (tag_cmp a b) [ eq ↦ true | _ ↦ false ]

unfoldable pub to_logical_time : EventTag → Instant → Instant
to_logical_time tag t0 = t0 + tag.offset_from_t0

unfoldable pub duration_since_start : EventTag → Duration
duration_since_start tag = tag.offset_from_t0

-- `instant - t0`, which saturates at zero.
unfoldable pub absolute : Instant → Instant → EventTag
absolute t0 instant = record { offset_from_t0 = instant - t0; microstep = 0 }

unfoldable pub tag_offset : Duration → ℕ → EventTag
tag_offset offset microstep = record { offset_from_t0 = offset; microstep = microstep }

unfoldable pub next_microstep : EventTag → EventTag
unfolding microstep_add
next_microstep tag = record tag { microstep = microstep_add tag.microstep 1 }

unfoldable pub successor : EventTag → Duration → EventTag
unfolding next_microstep
successor tag offset =
    if offset == 0
    then next_microstep tag
    else record { offset_from_t0 = tag.offset_from_t0 + offset; microstep = 0 }

-- `EventTag::now`, at the physical time that the clock shows.
unfoldable pub now_tag : Instant → Instant → EventTag
unfolding absolute
now_tag clock t0 = absolute t0 clock

pub data Offset : Type 0 where
  after : Duration → Offset
  asap : Offset

unfoldable pub to_duration : Offset → Duration
to_duration (after d) = d
to_duration asap = 0
