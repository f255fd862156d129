-- ===== src/Examples/Events.antt =====
-- Runs of the tags, events, actions, timers and ports of the runtime.
use reactor_rs.Common.{
  ℕ, ◌+◌, ◌<◌, ◌≡◌, ◌≢◌, ◌↔◌, ◌⊎◌, refl, lt, true, false, ◌||◌, ◌&&◌, not, none, some, [], ◌∷◌,
  if◌then◌else◌, ◌==◌, arith,
}
use reactor_rs.Ids.{
  GlobalReactionId, full_mod, raw, from_raw, id_eq, range, Range, next_range, iter_next_range,
  iter_range,
}
use reactor_rs.Ids.Laws.{raw-IsInRange, next_range-iter_next_range}
use reactor_rs.Tag.{EventTag, tag_cmp, tag_eq, successor}
use reactor_rs.Tag.Order.{successor_later}
use reactor_rs.Plan.{LevelIx, owned}
use reactor_rs.Plan.Merge.{runs, IsReactionPlan}
use reactor_rs.Queue.{Event, EventQueue, push, take_earliest}
use reactor_rs.Queue.Laws.{Later, IsQueue, pending, terminates, push_lem, take_earliest_lem}
use reactor_rs.Actions.{Action, reverse}
use reactor_rs.Timers
use reactor_rs.Timers.{Timer, FiresAt, first_tag}
use reactor_rs.Timers.Firing.{is_present-FiresAt}
use reactor_rs.Ports.{
  Port, Store, PortKind, free, bound, bind_ok, bind_err, cyclic_dependency, forward_to,
  has_downstream, add_downstream,
}
use reactor_rs.Ports.Binding.{old_downstreams, holds_slot, forward_to_refuses, forward_to_binds}
use reactor_rs.Ports.Chains.{
  Four, four_ports, inside_out, read_after, bind_ab, bind_bc, bind_cd, inside_out_loses_last,
}
use reactor_rs.Examples.Maps.{low, high, low-IsPlan, high-IsPlan}

abbrev pub at : ℕ → ℕ → EventTag
at offset microstep = record { offset_from_t0 = offset; microstep = microstep }

successor_later_example :
    (tag_cmp (at 5 2) (successor (at 5 2) 0) ≡ lt) ↔ ((0 < 0) ⊎ ((at 5 2).microstep + 1 < full_mod))
successor_later_example = successor_later (at 5 2) 0 (omega arith)

abbrev pub early : Event
early = record { tag = at 5 0; reactions = some (owned low); terminate = false }

abbrev late : Event
late = record { tag = at 9 0; reactions = none; terminate = true }

abbrev middle : Event
middle = record { tag = at 5 1; reactions = some (owned high); terminate = false }

abbrev pub two_events : EventQueue
two_events = early ∷ late ∷ []

pub two_events-IsQueue : IsQueue two_events
two_events-IsQueue = ((refl, tt), low-IsPlan, (tt, tt, tt))

push_lem_example :
    (after : EventQueue) × (push two_events middle ≡ some after)
    × IsQueue after
    × ((tag : EventTag) (level : LevelIx) (id : GlobalReactionId)
        → pending after tag level id ≡ (
            pending two_events tag level id
            || tag_eq middle.tag tag && runs middle.reactions level id))
    × ((tag : EventTag)
        → terminates after tag
          ≡ (terminates two_events tag || tag_eq middle.tag tag && middle.terminate))
push_lem_example = push_lem two_events middle two_events-IsQueue high-IsPlan

taken : take_earliest two_events ≡ (some early, late ∷ [])
unfolding take_earliest
taken = refl

take_earliest_lem_example :
    IsQueue (late ∷ [])
    × Later early.tag (late ∷ [])
    × IsReactionPlan early.reactions
    × ((tag : EventTag) (level : LevelIx) (id : GlobalReactionId)
        → pending two_events tag level id ≡ (
            tag_eq early.tag tag && runs early.reactions level id
            || pending (late ∷ []) tag level id))
    × ((level : LevelIx) (id : GlobalReactionId) → pending (late ∷ []) early.tag level id ≡ false)
take_earliest_lem_example = take_earliest_lem two_events (late ∷ []) early two_events-IsQueue taken

abbrev pub counter : Action ℕ
counter = record {
  min_delay = 0;
  id = 4;
  values = (reverse (at 9 0), some 90) ∷ (reverse (at 5 0), some 50) ∷ [];
}

abbrev pub ticker : Timer
ticker = record { id = 3; offset = 10; period = 4 }

is_present-FiresAt_example : (Timers.is_present ticker (at 18 0) ≡ true) ↔ FiresAt ticker (at 18 0)
is_present-FiresAt_example = is_present-FiresAt ticker (at 18 0) refl

abbrev store : Store ℕ
store = record {
  slot = λ i. i;
  cell = λ i. record { value = some i; downstreams = if i == 1 then (12, 2) ∷ [] else [] };
  fresh = 3;
}

abbrev port_at : ℕ → Port
port_at slot = record { id = slot + 10; kind = PortKind.input; bind_status = free; slot = slot }

abbrev bound_port : Port
bound_port = record (port_at 1) { bind_status = bound }

cyclic : has_downstream (old_downstreams store (port_at 2) (port_at 1)) 12 ≡ true
unfolding has_downstream
cyclic = refl

forward_to_refuses_example :
    (forward_to store (port_at 2) (port_at 1) ≡ (
      bind_err (cyclic_dependency 12 11),
      record (port_at 1) { bind_status = bound },
      record store { cell = (forward_to store (port_at 2) (port_at 1)).2.cell },
    ))
    × ((c : ℕ)
        → (forward_to store (port_at 2) (port_at 1)).2.cell c ≡ (
            if false || not (c == 2) then store.cell c else record (store.cell c) {
              downstreams = add_downstream (store.cell c).downstreams 11 1;
            }))
forward_to_refuses_example = forward_to_refuses store (port_at 2) (port_at 1) cyclic

open_below : has_downstream (old_downstreams store (port_at 0) (port_at 1)) (port_at 0).id ≡ false
unfolding has_downstream
open_below = refl

leaf_held : holds_slot (old_downstreams store (port_at 0) (port_at 1)) 2 ≡ true
unfolding holds_slot
leaf_held = refl

forward_to_binds_example :
    ((forward_to store (port_at 0) (port_at 1)).0 ≡ bind_ok)
    × ((forward_to store (port_at 0) (port_at 1)).1 ≡ bound_port)
    × ((s : ℕ)
        → (forward_to store (port_at 0) (port_at 1)).2.slot s ≡ (
            if s == 1 || holds_slot (old_downstreams store (port_at 0) (port_at 1)) s
            then 0
            else s))
    × ((c : ℕ) → ((forward_to store (port_at 0) (port_at 1)).2.cell c).value ≡ (store.cell c).value)
forward_to_binds_example = forward_to_binds store (port_at 0) (port_at 1) refl open_below

abbrev four : Four ℕ
four = four_ports 2 3 4 5 PortKind.input

abbrev apart :
    ◌≢◌ {A = ℕ} 2 3
    × ◌≢◌ {A = ℕ} 2 4
    × ◌≢◌ {A = ℕ} 2 5
    × ◌≢◌ {A = ℕ} 3 4
    × ◌≢◌ {A = ℕ} 3 5
    × ◌≢◌ {A = ℕ} 4 5
apart = (omega arith, omega arith, omega arith, omega arith, omega arith, omega arith)

inside_out_loses_last_example :
    let f = inside_out four in
    ((bind_cd four).0 ≡ bind_ok)
    × ((bind_bc (bind_cd four).1).0 ≡ bind_ok)
    × ((bind_ab (bind_bc (bind_cd four).1).1).0 ≡ bind_ok)
    × (read_after f.store f.a 8 f.b ≡ some (some 8))
    × (read_after f.store f.a 8 f.c ≡ some (some 8))
    × (read_after f.store f.a 8 f.d ≡ some none)
inside_out_loses_last_example = inside_out_loses_last 2 3 4 5 PortKind.input 8 apart

abbrev first_id : GlobalReactionId
first_id = record { container = 3; local = 2 }

abbrev second_id : GlobalReactionId
second_id = record { container = 2; local = 3 }

raw-IsInRange_example :
    (from_raw (raw first_id) ≡ first_id)
    × (raw first_id < full_mod)
    × ((id_eq first_id second_id ≡ true) ↔ (first_id ≡ second_id))
raw-IsInRange_example =
    raw-IsInRange first_id second_id (omega arith, omega arith) (omega arith, omega arith)

next_range-iter_next_range_example :
    (iter_next_range 4 3 ≡ some (range (4 + 1) 3))
    × (r : Range) × (next_range 4 3 ≡ some r)
    × (iter_range r ≡ range (4 + 1) 3)
next_range-iter_next_range_example = next_range-iter_next_range 4 3 (omega arith) (omega arith)
