-- ===== src/Queue.antt =====
-- `Event` and `EventQueue` of src/scheduler/events.rs. A `none` is a panic.
pub mod Laws
use reactor_rs.Common.{
  ℕ, zero, suc, lt, eq, gt, Bool, true, false, ◌||◌, Option, none, some, List, [], ◌∷◌,
  if◌then◌else◌, get_elem?, insert_at, set,
}
use reactor_rs.Ids.{TriggerId}
use reactor_rs.Tag.{EventTag, tag_cmp, tag_eq}
use reactor_rs.Plan.{ExecutableReactions, ReactionPlan, Cow, borrowed, merge_cows}
use reactor_rs.VecMap.{Found, ok, err}
use reactor_rs.VecMap.Search.{shift}
use mathlib.Core.Option

pub record Event : Type 0 where
  pub tag : EventTag
  pub reactions : ReactionPlan
  pub terminate : Bool

unfoldable pub execute : EventTag → Cow ExecutableReactions → Event
execute tag reactions = record { tag = tag; reactions = some reactions; terminate = false }

unfoldable pub terminate_at : EventTag → Event
terminate_at tag = record { tag = tag; reactions = none; terminate = true }

-- The `debug_assert_eq!` of a debug build comes first.
unfoldable pub absorb : Event → Event → Option Event
absorb self other =
    if tag_eq self.tag other.tag
    then Option.map
        (λ plan. record {
          tag = self.tag;
          reactions = plan;
          terminate = self.terminate || other.terminate;
        })
        (merge_cows self.reactions other.reactions)
    else none

pub record PhysicalEvent : Type 0 where
  pub tag : EventTag
  pub trigger_id : Option TriggerId
  pub terminate : Bool

unfoldable pub physical_trigger : EventTag → TriggerId → PhysicalEvent
physical_trigger tag trigger = record { tag = tag; trigger_id = some trigger; terminate = false }

unfoldable pub physical_terminate_at : EventTag → PhysicalEvent
physical_terminate_at tag = record { tag = tag; trigger_id = none; terminate = true }

-- `DataflowInfo`, as its vector of plans, indexed by trigger; `none` is the index out of bounds.
abbrev pub DataflowInfo : Type 0
DataflowInfo = List ExecutableReactions

unfoldable pub reactions_triggered_by : DataflowInfo → TriggerId → Option ExecutableReactions
reactions_triggered_by dataflow trigger = get_elem? dataflow trigger

unfoldable pub make_executable : PhysicalEvent → DataflowInfo → Option Event
unfolding reactions_triggered_by
make_executable evt dataflow = elim evt.trigger_id [
  | none ↦ some (record { tag = evt.tag; reactions = none; terminate = evt.terminate })
  | some id ↦
      Option.map
        (λ plan. record {
          tag = evt.tag;
          reactions = some (borrowed plan);
          terminate = evt.terminate;
        })
        (reactions_triggered_by dataflow id)
]

abbrev pub EventQueue : Type 0
EventQueue = List Event

-- The first event, and the queue without it.
unfoldable pub take_earliest : EventQueue → Option Event × EventQueue
take_earliest [] = (none, [])
take_earliest (evt ∷ queue) = (some evt, queue)

-- `binary_search_by_key` of the standard library, by what it documents on a sorted sequence: the
-- index of the tag, or the index where it can be inserted.
unfoldable pub search_tag : EventQueue → EventTag → Found
search_tag [] tag = err 0
search_tag (e ∷ queue) tag = elim (tag_cmp e.tag tag) [
  | lt ↦ shift (search_tag queue tag)
  | eq ↦ ok 0
  | gt ↦ err 0
]

unfoldable pub push_at : EventQueue → Event → Found → Option EventQueue
push_at queue evt (ok idx) = elim (get_elem? queue idx) [
  | some e ↦ Option.map (λ e'. set queue idx e') (absorb e evt)
  | none ↦ none
]
push_at queue evt (err idx) = some (insert_at queue idx evt)

unfoldable pub push : EventQueue → Event → Option EventQueue
push queue evt = push_at queue evt (search_tag queue evt.tag)
