-- ===== src/Queue/Laws.antt =====
-- The event queue of src/scheduler/events.rs as a map from tags to what is to run there.
use reactor_rs.Common.{
  ◌≡◌, refl, subst, lt, eq, gt, Bool, true, false, Bool-cases, inl, inr, ◌||◌, ◌&&◌, Option, some,
  [], ◌∷◌, arith, compared, Compared,
}
use reactor_rs.Ids.{GlobalReactionId}
use reactor_rs.Tag.{EventTag, tag_cmp, tag_eq}
use reactor_rs.Tag.Order.{tag_cmp_same, tag_cmp-gt, tag_cmp-lt, tag_cmp_chain}
use reactor_rs.Plan.{LevelIx}
use reactor_rs.Plan.Merge.{runs, IsReactionPlan, merge_cows_lem}
use reactor_rs.VecMap.{Found, ok, err}
use reactor_rs.VecMap.Search.{shift}
use reactor_rs.Queue.{Event, EventQueue, absorb, search_tag, push_at, push, take_earliest}
use mathlib.Core.Option

-- Every event of the queue comes after the tag.
abbrev pub Later : EventTag → EventQueue → Type 0
Later tag [] = Unit
Later tag (e ∷ queue) = (tag_cmp tag e.tag ≡ lt) × Later tag queue

-- Tags strictly ascend, and plans are well formed.
abbrev pub IsQueue : EventQueue → Type 0
IsQueue [] = Unit
IsQueue (e ∷ queue) = Later e.tag queue × IsReactionPlan e.reactions × IsQueue queue

-- Whether the queue runs a reaction, at a level, at a tag.
unfoldable pub pending : EventQueue → EventTag → LevelIx → GlobalReactionId → Bool
pending [] tag level id = false
pending (e ∷ queue) tag level id =
    tag_eq e.tag tag && runs e.reactions level id || pending queue tag level id

-- Whether the queue ends the program at a tag.
unfoldable pub terminates : EventQueue → EventTag → Bool
terminates [] tag = false
terminates (e ∷ queue) tag = tag_eq e.tag tag && e.terminate || terminates queue tag

-- What `push` makes of a queue.
abbrev pub Pushed : EventQueue → Event → Option EventQueue → Type 0
Pushed queue evt result =
    (after : EventQueue) × (result ≡ some after)
    × IsQueue after
    × ((b : EventTag) → tag_cmp b evt.tag ≡ lt → Later b queue → Later b after)
    × ((tag : EventTag) (level : LevelIx) (id : GlobalReactionId)
        → pending after tag level id
          ≡ (pending queue tag level id || tag_eq evt.tag tag && runs evt.reactions level id))
    × ((tag : EventTag)
        → terminates after tag ≡ (terminates queue tag || tag_eq evt.tag tag && evt.terminate))

push_at-shift :
    (e : Event) (queue : EventQueue) (evt : Event) (r : Found)
    → push_at (e ∷ queue) evt (shift r) ≡ Option.map (λ q. e ∷ q) (push_at queue evt r)
unfolding push_at
push_at-shift e queue evt (ok i) = ground arith
push_at-shift e queue evt (err i) = refl

pub Later-chain :
    (a b : EventTag) (queue : EventQueue) → tag_cmp a b ≡ lt → Later b queue → Later a queue
Later-chain a b [] h l = tt
Later-chain a b (e ∷ queue) h l = (tag_cmp_chain a b e.tag h l.0, Later-chain a b queue h l.1)

module _ (e : Event) (queue : EventQueue) (evt : Event) (good : IsQueue (e ∷ queue))
    (plan : IsReactionPlan evt.reactions) where
  push_past :
      (result : Option EventQueue)
      → tag_cmp e.tag evt.tag ≡ lt
      → Pushed queue evt result
      → Pushed (e ∷ queue) evt (Option.map (λ q. e ∷ q) result)
  unfolding pending terminates
  push_past result c (after, done, kept, later, pends, ends) = (
    e ∷ after,
    rw done,
    (later e.tag c good.0, good.1, kept),
    λ b h l. (l.0, later b h l.1),
    λ tag level id. ground (arith, pends tag level id),
    λ tag. ground (arith, ends tag),
  )

  push_same : tag_cmp e.tag evt.tag ≡ eq → Pushed (e ∷ queue) evt (push_at (e ∷ queue) evt (ok 0))
  unfolding push_at absorb pending terminates
  push_same c =
      let (merged, done, kept, same) = merge_cows_lem e.reactions evt.reactions good.1 plan in
      let both : Event = record {
        tag = e.tag;
        reactions = merged;
        terminate = e.terminate || evt.terminate;
      } in
      let one : e.tag ≡ evt.tag = tag_cmp_same e.tag evt.tag c in
      (
        both ∷ queue,
        ground (arith, done),
        (good.0, kept, good.2),
        λ b h l. l,
        λ tag level id. rw (← one) (ground (arith, same level id)),
        λ tag. rw (← one) (ground arith),
      )

  push_before :
      tag_cmp e.tag evt.tag ≡ gt → Pushed (e ∷ queue) evt (push_at (e ∷ queue) evt (err 0))
  unfolding push_at pending terminates
  push_before c =
      let h = tag_cmp-gt e.tag evt.tag c in
      (
        evt ∷ e ∷ queue,
        refl,
        ((h, Later-chain evt.tag e.tag queue h good.0), plan, good),
        λ b h' l. (h', l),
        λ tag level id. ground arith,
        λ tag. ground arith,
      )

push_first : (evt : Event) → IsReactionPlan evt.reactions → Pushed [] evt (push_at [] evt (err 0))
unfolding push_at pending terminates
push_first evt plan = (
  evt ∷ [],
  refl,
  (tt, plan, tt),
  λ b h l. (h, tt),
  λ tag level id. ground arith,
  λ tag. ground arith,
)

pub push_at_lem :
    (queue : EventQueue) (evt : Event)
    → IsQueue queue
    → IsReactionPlan evt.reactions
    → Pushed queue evt (push_at queue evt (search_tag queue evt.tag))
unfolding search_tag
push_at_lem [] evt good plan = push_first evt plan
push_at_lem (e ∷ queue) evt good plan = elim (compared (tag_cmp e.tag evt.tag)) [
  | Compared.is_lt c ↦
      rw (c, search_tag, push_at-shift e queue evt (search_tag queue evt.tag))
        (push_past e queue evt good plan _ c (push_at_lem queue evt good.2 plan))
  | Compared.is_eq c ↦ rw (c, search_tag) (push_same e queue evt good plan c)
  | Compared.is_gt c ↦ rw (c, search_tag) (push_before e queue evt good plan c)
]

-- `push` into a queue whose tags strictly ascend does not panic and keeps them ascending, and the
-- plans well formed. At every tag it runs what ran there and, at the event's tag, the event's
-- reactions too; it ends the program where it was to end and where the event says so.
pub push_lem :
    (queue : EventQueue) (evt : Event)
    → IsQueue queue
    → IsReactionPlan evt.reactions
    → (after : EventQueue) × (push queue evt ≡ some after)
      × IsQueue after
      × ((tag : EventTag) (level : LevelIx) (id : GlobalReactionId)
          → pending after tag level id
            ≡ (pending queue tag level id || tag_eq evt.tag tag && runs evt.reactions level id))
      × ((tag : EventTag)
          → terminates after tag ≡ (terminates queue tag || tag_eq evt.tag tag && evt.terminate))
unfolding push
push_lem queue evt good plan =
    let (after, done, kept, _, pends, ends) = push_at_lem queue evt good plan in
    (after, done, kept, pends, ends)

pending-Later :
    (tag : EventTag) (queue : EventQueue) (level : LevelIx) (id : GlobalReactionId)
    → Later tag queue
    → pending queue tag level id ≡ false
unfolding pending
pending-Later tag [] level id l = refl
pending-Later tag (e ∷ queue) level id l =
    ground (arith, pending-Later tag queue level id l.1, tag_cmp-lt tag e.tag l.0)

-- What is pending is later than a tag that the whole queue is later than.
pub pending_ahead :
    (tag : EventTag) (queue : EventQueue) (t : EventTag) (level : LevelIx) (id : GlobalReactionId)
    → Later tag queue
    → pending queue t level id ≡ true
    → tag_cmp tag t ≡ lt
unfolding pending
pending_ahead tag [] t level id l h = absurd (ground (arith, h))
pending_ahead tag (e ∷ queue) t level id l h = elim (Bool-cases (tag_eq e.tag t)) [
  | inl here ↦ subst (λ u. tag_cmp tag u ≡ lt) (tag_cmp_same e.tag t (ground (arith, here))) l.0
  | inr other ↦ pending_ahead tag queue t level id l.1 (ground (arith, other, h))
]

abbrev Taken : EventQueue → Event → EventQueue → Type 0
Taken queue evt rest =
    IsQueue rest
    × Later evt.tag rest
    × IsReactionPlan evt.reactions
    × ((tag : EventTag) (level : LevelIx) (id : GlobalReactionId)
        → pending queue tag level id
          ≡ (tag_eq evt.tag tag && runs evt.reactions level id || pending rest tag level id))
    × ((level : LevelIx) (id : GlobalReactionId) → pending rest evt.tag level id ≡ false)

Taken-head : (evt : Event) (rest : EventQueue) → IsQueue (evt ∷ rest) → Taken (evt ∷ rest) evt rest
unfolding pending
Taken-head evt rest good = (
  good.2,
  good.0,
  good.1,
  λ tag level id. refl,
  λ level id. pending-Later evt.tag rest level id good.0,
)

-- `take_earliest` returns the event with the least tag of the queue: every other event is strictly
-- later, the rest is again a queue, what was pending is what the event runs at its tag and what the
-- rest holds, and the rest runs nothing more at that tag.
pub take_earliest_lem :
    (queue rest : EventQueue) (evt : Event)
    → IsQueue queue
    → take_earliest queue ≡ (some evt, rest)
    → IsQueue rest
      × Later evt.tag rest
      × IsReactionPlan evt.reactions
      × ((tag : EventTag) (level : LevelIx) (id : GlobalReactionId)
          → pending queue tag level id
            ≡ (tag_eq evt.tag tag && runs evt.reactions level id || pending rest tag level id))
      × ((level : LevelIx) (id : GlobalReactionId) → pending rest evt.tag level id ≡ false)
unfolding take_earliest
take_earliest_lem [] rest evt good e = ground arith
take_earliest_lem (f ∷ queue) rest evt good e =
    let same : f ≡ evt = ground arith in
    let left : queue ≡ rest = ground arith in
    subst (λ x. Taken (f ∷ queue) x rest) same
      (subst (λ r. Taken (f ∷ queue) f r) left (Taken-head f queue good))
