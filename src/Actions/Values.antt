-- ===== src/Actions/Values.antt =====
-- The values of an action of src/actions.rs, tag by tag.
use reactor_rs.Common.{◌≡◌, ◌∙◌, refl, ◌||◌, ◌&&◌, Option, none, if◌then◌else◌, arith, not}
use reactor_rs.Tag.{EventTag, tag_eq}
use reactor_rs.Tag.Order.{Reverse, rev_ord, tag_cmp_self, tag_cmp-lt, tag_cmp-gt, tag_cmp_same}
use reactor_rs.VecMap.{VecMap, Entry, vacant, occupied, entry}
use reactor_rs.VecMap.Sorted.{IsSorted}
use reactor_rs.VecMap.Reference.{
  alter, get-lookup, contains_key-lookup, remove-erase, erase, write_outside,
}
use reactor_rs.VecMap.Laws.{lookup-alter, lookup-erase, alter-IsSorted, erase-IsSorted}
use reactor_rs.VecMap.Entries.{settle, settle-entry}
use reactor_rs.Actions.{
  Action, reverse, store_value, schedule_future_value, forget_value, is_present, get_value,
}

module _ {T : Type 0} where
  abbrev pub IsAction : Action T → Type 0
  IsAction a = IsSorted a.values

  store_value-settle :
      (m : VecMap Reverse (Option T)) (e : Entry Reverse) (v : Option T)
      → store_value m e v ≡ settle m e (λ _. v)
  unfolding store_value settle
  store_value-settle m (vacant key i) v = refl
  store_value-settle m (occupied key i) v = ground (arith, write_outside m i v)

  values_after :
      (a : Action T) (time : EventTag) (v : Option T)
      → IsAction a
      → (schedule_future_value a time v).values ≡ alter a.values (reverse time) (λ _. v)
  unfolding schedule_future_value
  values_after a time v s =
      store_value-settle a.values (entry a.values (reverse time)) v
      ∙ settle-entry a.values (reverse time) (λ _. v) s

  -- Scheduling a value makes the action present at that tag, with that value, an absent one
  -- included, and overwrites what was scheduled there; every other tag reads as before.
  pub schedule_future_value_lem :
      (a : Action T) (time : EventTag) (v : Option T)
      → IsAction a
      → IsAction (schedule_future_value a time v)
        × ((now : EventTag)
            → (is_present (schedule_future_value a time v) now
                ≡ (tag_eq now time || is_present a now))
              × (get_value (schedule_future_value a time v) now
                  ≡ (if tag_eq now time then v else get_value a now)))
  unfolding is_present get_value
  schedule_future_value_lem a time v s =
      let after = schedule_future_value a time v in
      let values = values_after a time v s in
      let kept = alter-IsSorted a.values (reverse time) (λ _. v) s in
      let good : IsAction after = rw values kept in
      (
        good,
        λ now. (
          ground (
            arith,
            values,
            contains_key-lookup after.values (reverse now) good,
            contains_key-lookup a.values (reverse now) s,
            lookup-alter a.values (reverse time) (λ _. v) (reverse now) s,
            tag_cmp-lt now time,
            tag_cmp-gt now time,
            tag_cmp_same time now,
            tag_cmp_self now,
          ),
          ground (
            arith,
            values,
            get-lookup after.values (reverse now) good,
            get-lookup a.values (reverse now) s,
            lookup-alter a.values (reverse time) (λ _. v) (reverse now) s,
            tag_cmp-lt now time,
            tag_cmp-gt now time,
            tag_cmp_same time now,
            tag_cmp_self now,
          ),
        ),
      )

  -- Forgetting a tag returns the value that was scheduled there, makes the action absent at that
  -- tag and leaves every other tag as it was.
  pub forget_value_lem :
      (a : Action T) (time : EventTag)
      → IsAction a
      → IsAction (forget_value a time).0
        × ((forget_value a time).1 ≡ get_value a time)
        × ((now : EventTag)
            → (is_present (forget_value a time).0 now ≡ (not (tag_eq now time) && is_present a now))
              × (get_value (forget_value a time).0 now
                  ≡ (if tag_eq now time then none else get_value a now)))
  unfolding is_present get_value forget_value
  forget_value_lem a time s =
      let kept = erase-IsSorted a.values (reverse time) s in
      rw (remove-erase a.values (reverse time) s) (
        kept,
        ground (arith, get-lookup a.values (reverse time) s),
        λ now. (
          ground (
            arith,
            contains_key-lookup (erase a.values (reverse time)) (reverse now) kept,
            contains_key-lookup a.values (reverse now) s,
            lookup-erase a.values (reverse time) (reverse now) s,
            tag_cmp-lt now time,
            tag_cmp-gt now time,
            tag_cmp_same time now,
            tag_cmp_self now,
          ),
          ground (
            arith,
            get-lookup (erase a.values (reverse time)) (reverse now) kept,
            get-lookup a.values (reverse now) s,
            lookup-erase a.values (reverse time) (reverse now) s,
            tag_cmp-lt now time,
            tag_cmp-gt now time,
            tag_cmp_same time now,
            tag_cmp_self now,
          ),
        ),
      )
