-- ===== src/Timers.antt =====
-- src/timers.rs, with the tags at which `bootstrap_timer` and `reschedule_timer` of
-- src/scheduler/context.rs trigger a timer.
pub mod Firing
use reactor_rs.Common.{
  ℕ, ◌+◌, ◌-◌, ◌%◌, ◌≡◌, Bool, true, false, ◌||◌, Option, none, some, not, if◌then◌else◌, ◌==◌, ltb,
}
use reactor_rs.Ids.{TriggerId}
use reactor_rs.Tag.{EventTag, Duration, origin, successor, duration_since_start}

pub record Timer : Type 0 where
  pub id : TriggerId
  pub offset : Duration
  pub period : Duration

unfoldable pub is_periodic : Timer → Bool
is_periodic timer = not (timer.period == 0)

unfoldable pub is_present : Timer → EventTag → Bool
unfolding duration_since_start is_periodic
is_present timer now =
    let elapsed = duration_since_start now in
    if elapsed == timer.offset
    then true
    else if ltb elapsed timer.offset || not (is_periodic timer)
    then false
    else (elapsed - timer.offset) % timer.period == 0

unfoldable pub get_value : Timer → EventTag → Option (Unit {0})
get_value timer now = if is_present timer now then some tt else none

-- The tag of the first triggering: at startup, or after the offset.
unfoldable pub first_tag : Timer → EventTag
first_tag timer = if timer.offset == 0 then origin else successor origin timer.offset

-- The tag of the next triggering, if the timer is periodic.
unfoldable pub next_tag : Timer → EventTag → Option EventTag
next_tag timer tag = if is_periodic timer then some (successor tag timer.period) else none

-- The tags at which the timer is triggered.
pub data FiresAt (timer : Timer) : EventTag → Type 0 where
  first : FiresAt timer (first_tag timer)
  again :
      {tag tag' : EventTag}
      → FiresAt timer tag
      → next_tag timer tag ≡ some tag'
      → FiresAt timer tag'
