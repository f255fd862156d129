-- ===== src/Ids.antt =====
-- src/ids.rs and the ids of src/triggers.rs, in the default build: `HalfUsize` is u16 and `MyUsize`
-- is u32. A value of a machine type is a number; `% 2 ^ w` and the checked operations are written
-- out.
pub mod Laws
pub mod Print
use reactor_rs.Common.{
  ℕ, suc, zero, ◌+◌, ◌-◌, ◌*◌, ◌/◌, ◌%◌, ◌<◌, Ordering, compare, Bool, Option, none, some, List, [],
  ◌∷◌, ltb, ◌==◌, if◌then◌else◌,
}

-- The widths of `ReactorIdImpl` and `ReactionIdImpl`, and of `GlobalIdImpl` and `TriggerIdImpl`.
abbrev pub half_mod : ℕ
half_mod = 65536

abbrev pub full_mod : ℕ
full_mod = 4294967296

pub record GlobalId : Type 0 where
  pub container : ℕ
  pub local : ℕ

abbrev pub LocalReactionId : Type 0
LocalReactionId = ℕ

abbrev pub GlobalReactionId : Type 0
GlobalReactionId = GlobalId

-- What the machine types of the two fields guarantee.
abbrev pub IsInRange : GlobalId → Type 0
IsInRange id = (id.container < half_mod) × (id.local < half_mod)

-- `transmute` to `GlobalIdImpl`, with the fields in the order of their declaration on a
-- little-endian machine.
unfoldable pub raw : GlobalId → ℕ
raw id = id.container + id.local * half_mod

unfoldable pub from_raw : ℕ → GlobalId
from_raw u = record { container = u % half_mod; local = u / half_mod }

unfoldable pub id_eq : GlobalId → GlobalId → Bool
unfolding raw
id_eq a b = raw a == raw b

unfoldable pub id_cmp : GlobalId → GlobalId → Ordering
unfolding raw
id_cmp a b = compare (raw a) (raw b)

-- `TriggerId`, by its number.
abbrev pub TriggerId : Type 0
TriggerId = ℕ

abbrev pub startup : TriggerId
startup = 0

abbrev pub shutdown : TriggerId
shutdown = 1

abbrev pub first_regular : TriggerId
first_regular = 2

-- `u32::checked_add`.
abbrev pub checked_add : ℕ → ℕ → Option ℕ
checked_add a b = if ltb (a + b) full_mod then some (a + b) else none

-- `next`; `none` is `Err(())`.
unfoldable pub next : TriggerId → Option TriggerId
next id = checked_add id 1

-- The id that is handed out, and the new counter.
unfoldable pub get_and_incr : TriggerId → Option (TriggerId × TriggerId)
unfolding next
get_and_incr id = elim (next id) [ some id' ↦ some (id, id') | none ↦ none ]

-- The numbers from `a` on, `n` of them: a Rust range `a..a + n`.
abbrev pub range : ℕ → ℕ → List ℕ
range a zero = []
range a (suc n) = a ∷ range (a + 1) n

-- The upper end `1 + (len as u32)`, added with a check; the inner sum wraps in a release build.
unfoldable pub upper_end : TriggerId → ℕ → Option ℕ
upper_end id len = checked_add id ((1 + len % full_mod) % full_mod)

unfoldable pub iter_next_range : TriggerId → ℕ → Option (List TriggerId)
unfolding upper_end
iter_next_range id len = elim (upper_end id len) [
  | some upper ↦ some (range (id + 1) (upper - (id + 1)))
  | none ↦ none
]

pub record Range : Type 0 where
  pub start : TriggerId
  pub end : TriggerId

-- The outer `none` is `Err(())`. `Self::new(upper)` asserts `upper > 1`.
unfoldable pub next_range : TriggerId → ℕ → Option Range
unfolding upper_end next
next_range id len = elim (upper_end id len) [
  | some upper ↦ elim (next id) [
    | some start ↦ if ltb 1 upper then some (record { start = start; end = upper }) else none
    | none ↦ none
  ]
  | none ↦ none
]

unfoldable pub iter_range : Range → List TriggerId
iter_range r = range r.start (r.end - r.start)
