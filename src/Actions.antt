-- ===== src/Actions.antt =====
-- src/actions.rs: actions, which keep the values scheduled for future tags. The mutex of a
-- `PhysicalActionRef` is its flag that says whether a holder panicked; a `none` of a `use_…` is the
-- `Err` of a poisoned lock.
pub mod Values
use reactor_rs.Common.{ℕ, Bool, true, false, Option, none, some, if◌then◌else◌}
use reactor_rs.Ids.{TriggerId}
use reactor_rs.Tag.{EventTag, Duration}
use reactor_rs.Tag.Order.{Reverse, rev_ord}
use reactor_rs.VecMap.{
  VecMap, Entry, vacant, occupied, entry, vacant_insert, occupied_replace, new, remove, get,
  contains_key,
}
use mathlib.Core.Option

pub record Action (T : Type 0) : Type 0 where
  pub min_delay : Duration
  pub id : TriggerId
  pub values : VecMap Reverse (Option T)

abbrev pub reverse : EventTag → Reverse
reverse tag = record { tag = tag }

-- `flatten` of an option of an option.
abbrev pub flatten : {T : Type 0} → Option (Option T) → Option T
flatten none = none
flatten (some o) = o

module _ {T : Type 0} where
  unfoldable pub new_impl : TriggerId → Option Duration → Action T
  unfolding new
  new_impl id min_delay = record { min_delay = Option.get_or min_delay 0; id = id; values = new }

  -- The two arms of `schedule_future_value`.
  unfoldable pub store_value :
      VecMap Reverse (Option T) → Entry Reverse → Option T → VecMap Reverse (Option T)
  unfolding vacant_insert occupied_replace
  store_value m (vacant key index) value = vacant_insert m key index value
  store_value m (occupied key index) value = occupied_replace m index value

  unfoldable pub schedule_future_value : Action T → EventTag → Option T → Action T
  schedule_future_value a time value = record a {
    values = store_value a.values (entry a.values (reverse time)) value;
  }

  -- The action, and the value that is forgotten.
  unfoldable pub forget_value : Action T → EventTag → Action T × Option T
  forget_value a time =
      let (values, old) = remove a.values (reverse time) in
      (record a { values = values }, flatten old)

  unfoldable pub is_present : Action T → EventTag → Bool
  is_present a now = contains_key a.values (reverse now)

  unfoldable pub get_value : Action T → EventTag → Option T
  get_value a now = flatten (get a.values (reverse now))

  unfoldable pub use_value_ref : {O : Type 0} → Action T → EventTag → (Option T → O) → O
  use_value_ref a now action = action (flatten (get a.values (reverse now)))

pub record PhysicalActionRef (T : Type 0) : Type 0 where
  pub action : Action T
  pub poisoned : Bool

module _ {T : Type 0} where
  unfoldable pub use_mut_p :
      {O P : Type 0}
      → PhysicalActionRef T
      → P
      → (Action T → P → O × Action T)
      → Option O × PhysicalActionRef T
  use_mut_p r p f =
      if r.poisoned
      then (none, r)
      else let (result, action) = f r.action p in (some result, record r { action = action })

  unfoldable pub use_value : {O : Type 0} → PhysicalActionRef T → (Action T → O) → Option O
  use_value r f = if r.poisoned then none else some (f r.action)
