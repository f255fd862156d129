-- ===== src/Context/Async.antt =====
-- What a thread that schedules a physical action through the `AsyncCtx` of
-- src/scheduler/context.rs does to the action and to the channel of the scheduler.
use reactor_rs.Common.{
  ◌+◌, ◌≡◌, true, false, ◌||◌, ◌&&◌, not, Option, none, [], ◌∷◌, ◌++◌, if◌then◌else◌, arith,
}
use reactor_rs.Tag.{EventTag, Instant, Offset, tag_eq, absolute, to_duration}
use reactor_rs.Queue.{physical_trigger}
use reactor_rs.Actions.{PhysicalActionRef, schedule_future_value, is_present, get_value, use_mut_p}
use reactor_rs.Actions.Values.{IsAction, schedule_future_value_lem, forget_value_lem}
use reactor_rs.Tag.Order.{tag_cmp_self}
use reactor_rs.Context.{
  Channel, SendResult, sent_ok, send_error, send, schedule_and_send, schedule_physical_with_v,
}

-- The tag at which a physical action is scheduled.
abbrev pub physical_tag : Instant → Instant → Offset → EventTag
physical_tag now initial_time offset = absolute initial_time (now + to_duration offset)

module _ {T : Type 0} (now initial_time : Instant) (tx : Channel) (r : PhysicalActionRef T)
    (value : Option T) (offset : Offset) (good : IsAction r.action) where
  abbrev tag : EventTag
  tag = physical_tag now initial_time offset

  abbrev result : (SendResult (Option T) × Channel) × PhysicalActionRef T
  result = schedule_physical_with_v now initial_time tx r value offset

  -- If the lock of the action is not poisoned and the scheduler still receives, one event for the
  -- action is sent, and the action is present with the value at the event's tag and reads as before
  -- at every other.
  pub schedule_physical_delivers :
      r.poisoned ≡ false
      → tx.connected ≡ true
      → (result.0.0 ≡ sent_ok)
        × (result.0.1.sent ≡ tx.sent ++ (physical_trigger tag r.action.id ∷ []))
        × ((t : EventTag)
            → (is_present result.1.action t ≡ (tag_eq t tag || is_present r.action t))
              × (get_value result.1.action t
                  ≡ (if tag_eq t tag then value else get_value r.action t)))
  unfolding schedule_physical_with_v schedule_and_send use_mut_p send
  schedule_physical_delivers healthy up =
      let (_, reads) = schedule_future_value_lem r.action tag value good in
      (
        rw (healthy, up),
        rw (healthy, up),
        λ t. (rw (healthy, up) (reads t).0, rw (healthy, up) (reads t).1),
      )

  -- If the lock of the action is not poisoned and the scheduler is gone, nothing is sent and the
  -- error returns the value; the action is absent at the tag and reads as before at every other.
  pub schedule_physical_fails :
      r.poisoned ≡ false
      → tx.connected ≡ false
      → (result.0.0 ≡ send_error value)
        × (result.0.1 ≡ tx)
        × ((t : EventTag)
            → (is_present result.1.action t ≡ (not (tag_eq t tag) && is_present r.action t))
              × (get_value result.1.action t
                  ≡ (if tag_eq t tag then none else get_value r.action t)))
  unfolding schedule_physical_with_v schedule_and_send use_mut_p send
  schedule_physical_fails healthy down =
      let (kept, reads) = schedule_future_value_lem r.action tag value good in
      let (_, old, left) = forget_value_lem (schedule_future_value r.action tag value) tag kept in
      (
        rw (healthy, down) (ground (arith, old, (reads tag).1, tag_cmp_self tag)),
        rw (healthy, down),
        λ t. (
          rw (healthy, down) (ground (arith, (left t).0, (reads t).0)),
          rw (healthy, down) (ground (arith, (left t).1, (reads t).1)),
        ),
      )
