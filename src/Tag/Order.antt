-- ===== src/Tag/Order.antt =====
-- The order of the tags of src/scheduler/events.rs, and how `successor` moves in it.
use reactor_rs.Common.{
  ◌+◌, ◌<◌, ◌≤◌, ◌≡◌, ◌⊎◌, ◌↔◌, Ordering, lt, eq, gt, arith, if◌then◌else◌, ◌==◌, ◌%◌,
}
use reactor_rs.Common.Ord.{Ord}
use reactor_rs.Ids.{full_mod}
use reactor_rs.Tag.{EventTag, Duration, Instant, tag_cmp, successor, to_logical_time, absolute}

pub tag_cmp_self : (a : EventTag) → tag_cmp a a ≡ eq
tag_cmp_self a = ground arith

pub tag_cmp_same : (a b : EventTag) → tag_cmp a b ≡ eq → a ≡ b
tag_cmp_same a b h = ground arith

pub tag_cmp-gt : (a b : EventTag) → tag_cmp a b ≡ gt → tag_cmp b a ≡ lt
tag_cmp-gt a b h = ground arith

pub tag_cmp-lt : (a b : EventTag) → tag_cmp a b ≡ lt → tag_cmp b a ≡ gt
tag_cmp-lt a b h = ground arith

pub tag_cmp_chain : (a b c : EventTag) → tag_cmp a b ≡ lt → tag_cmp b c ≡ lt → tag_cmp a c ≡ lt
tag_cmp_chain a b c h k = ground arith

instance abbrev pub tag_ord : Ord EventTag
tag_ord = record {
  cmp = tag_cmp;
  cmp_self = tag_cmp_self;
  same_of_eq = tag_cmp_same;
  flip_gt = tag_cmp-gt;
  flip_lt = tag_cmp-lt;
  chain = tag_cmp_chain;
}

-- `Reverse<EventTag>`: the later tag comes first.
pub record Reverse : Type 0 where
  pub tag : EventTag

abbrev pub rev_cmp : Reverse → Reverse → Ordering
rev_cmp a b = tag_cmp b.tag a.tag

pub rev_cmp_self : (a : Reverse) → rev_cmp a a ≡ eq
rev_cmp_self a = ground arith

pub rev_cmp_same : (a b : Reverse) → rev_cmp a b ≡ eq → a ≡ b
rev_cmp_same a b h = ground arith

pub rev_cmp-gt : (a b : Reverse) → rev_cmp a b ≡ gt → rev_cmp b a ≡ lt
rev_cmp-gt a b h = tag_cmp-gt b.tag a.tag h

pub rev_cmp-lt : (a b : Reverse) → rev_cmp a b ≡ lt → rev_cmp b a ≡ gt
rev_cmp-lt a b h = tag_cmp-lt b.tag a.tag h

pub rev_cmp_chain : (a b c : Reverse) → rev_cmp a b ≡ lt → rev_cmp b c ≡ lt → rev_cmp a c ≡ lt
rev_cmp_chain a b c h k = tag_cmp_chain c.tag b.tag a.tag k h

instance abbrev pub rev_ord : Ord Reverse
rev_ord = record {
  cmp = rev_cmp;
  cmp_self = rev_cmp_self;
  same_of_eq = rev_cmp_same;
  flip_gt = rev_cmp-gt;
  flip_lt = rev_cmp-lt;
  chain = rev_cmp_chain;
}

-- `successor` is strictly later than the tag exactly if the offset is positive or the microstep is
-- below the greatest u32; at that microstep a zero offset wraps to an earlier tag.
pub successor_later :
    (t : EventTag) (d : Duration)
    → t.microstep < full_mod
    → (tag_cmp t (successor t d) ≡ lt) ↔ ((0 < d) ⊎ (t.microstep + 1 < full_mod))
unfolding successor
successor_later t d h = ground arith

-- A successor lies at the tag's logical time plus the offset: at the next microstep if that is
-- zero, else at the first.
pub successor_time :
    (t : EventTag) (d : Duration) (t0 : Instant)
    → (to_logical_time (successor t d) t0 ≡ to_logical_time t t0 + d)
      × ((successor t d).microstep ≡ (if d == 0 then (t.microstep + 1) % full_mod else 0))
unfolding successor to_logical_time
successor_time t d t0 = (ground arith, ground arith)

-- From the start time on, `absolute` is the tag of the first microstep at that instant.
pub to_logical_time-absolute :
    (t0 instant : Instant) → t0 ≤ instant → to_logical_time (absolute t0 instant) t0 ≡ instant
unfolding to_logical_time absolute
to_logical_time-absolute t0 instant h = omega arith
