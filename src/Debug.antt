-- ===== src/Debug.antt =====
-- The ids that `DebugInfoRegistry` of src/scheduler/debug.rs keeps: which reactor a component
-- belongs to, and which reactor contains another. Names and labels are left out but for their
-- number. A `none` is a panic.
pub mod Ranges
use reactor_rs.Common.{
  ℕ, zero, suc, ◌+◌, ◌-◌, ◌==◌, lt, eq, gt, compare, Bool, true, false, ◌||◌, ◌&&◌, Option, none,
  some, List, [], ◌∷◌, ◌++◌, if◌then◌else◌, get_elem?, length, leb, is_some,
}
use reactor_rs.Common.Ord.{nat_ord}
use reactor_rs.Ids.{TriggerId, GlobalReactionId, id_eq, startup, shutdown, first_regular}
use reactor_rs.VecMap.{VecMap, Found, ok, err, new, insert, get}
use reactor_rs.VecMap.Search.{shift}
use mathlib.Core.Option

abbrev pub ReactorId : Type 0
ReactorId = ℕ

-- The numbers of reactors and of triggers stand for the two tables of names; a label is its id.
pub record DebugInfoRegistry : Type 0 where
  pub reactor_infos : ℕ
  pub reactor_bound : List TriggerId
  pub trigger_infos : ℕ
  pub reactor_container : VecMap ReactorId ReactorId
  pub main_reactor : Option ReactorId
  pub reaction_labels : List GlobalReactionId

unfoldable pub registry_new : DebugInfoRegistry
unfolding new
registry_new = record {
  reactor_infos = 0;
  reactor_bound = [];
  trigger_infos = 2;
  reactor_container = new;
  main_reactor = none;
  reaction_labels = [];
}

unfoldable pub is_main : DebugInfoRegistry → ReactorId → Option Bool
is_main reg id = Option.map (λ main. main == id) reg.main_reactor

-- The `debug_assert!` of a debug build comes first; it asks for the main reactor only if it must.
unfoldable pub get_container : DebugInfoRegistry → ReactorId → Option (Option ReactorId)
get_container reg id = elim (get reg.reactor_container id) [
  | some container ↦ some (some container)
  | none ↦ elim (is_main reg id) [ some true ↦ some none | _ ↦ none ]
]

-- `checked_sub(1)`, and the bound of the reactor before.
unfoldable pub get_reactor_lower_bound : DebugInfoRegistry → ReactorId → Option TriggerId
get_reactor_lower_bound reg zero = some first_regular
get_reactor_lower_bound reg (suc ix) = get_elem? reg.reactor_bound ix

-- `binary_search` of the standard library, by what it documents on an ascending sequence.
unfoldable pub search_bound : List TriggerId → TriggerId → Found
search_bound [] id = err 0
search_bound (b ∷ bounds) id = elim (compare b id) [
  | lt ↦ shift (search_bound bounds id)
  | eq ↦ ok 0
  | gt ↦ err 0
]

abbrev pub last_bound : List TriggerId → Option TriggerId
last_bound [] = none
last_bound (b ∷ []) = some b
last_bound (b ∷ c ∷ bounds) = last_bound (c ∷ bounds)

-- Startup and shutdown are numbered after the components of the last reactor.
unfoldable pub raw_id_of_special : DebugInfoRegistry → TriggerId → Option (ReactorId × ℕ)
raw_id_of_special reg id = elim reg.reactor_infos [
  | zero ↦ none
  | suc last_reactor ↦ elim (last_bound reg.reactor_bound) [
    | none ↦ none
    | some max_idx ↦
        Option.map (λ lower. (last_reactor, max_idx - lower + id))
          (get_reactor_lower_bound reg last_reactor)
  ]
]

unfoldable pub raw_id_of_regular : DebugInfoRegistry → TriggerId → Option (ReactorId × ℕ)
raw_id_of_regular reg id = elim (search_bound reg.reactor_bound id) [
  | ok rid ↦ some (rid + 1, 0)
  | err rid ↦ Option.map (λ lower. (rid, id - lower)) (get_reactor_lower_bound reg rid)
]

abbrev pub is_special : TriggerId → Bool
is_special id = id == startup || id == shutdown

unfoldable pub raw_id_of_trigger : DebugInfoRegistry → TriggerId → Option (ReactorId × ℕ)
raw_id_of_trigger reg id =
    if is_special id then raw_id_of_special reg id else raw_id_of_regular reg id

unfoldable pub get_trigger_container : DebugInfoRegistry → TriggerId → Option (Option ReactorId)
get_trigger_container reg id =
    if is_special id then some none else Option.map (λ raw. some raw.0) (raw_id_of_trigger reg id)

unfoldable pub record_trigger : DebugInfoRegistry → TriggerId → Option DebugInfoRegistry
record_trigger reg id =
    if reg.trigger_infos == id
    then some (record reg { trigger_infos = reg.trigger_infos + 1 })
    else none

unfoldable pub has_label : List GlobalReactionId → GlobalReactionId → Bool
has_label [] id = false
has_label (j ∷ labels) id = id_eq j id || has_label labels id

unfoldable pub record_reaction : DebugInfoRegistry → GlobalReactionId → Option DebugInfoRegistry
record_reaction reg id =
    if has_label reg.reaction_labels id
    then none
    else some (record reg { reaction_labels = id ∷ reg.reaction_labels })

unfoldable pub record_reactor : DebugInfoRegistry → ReactorId → Option DebugInfoRegistry
record_reactor reg id =
    if reg.reactor_infos == id
    then some (record reg { reactor_infos = reg.reactor_infos + 1 })
    else none

unfoldable pub record_main_reactor : DebugInfoRegistry → ReactorId → Option DebugInfoRegistry
record_main_reactor reg id =
    if is_some reg.main_reactor then none else some (record reg { main_reactor = some id })

unfoldable pub record_reactor_container :
    DebugInfoRegistry → (parent child : ReactorId) → Option DebugInfoRegistry
record_reactor_container reg parent child =
    let (containers, old) = insert reg.reactor_container child parent in
    if is_some old then none else some (record reg { reactor_container = containers })

unfoldable pub set_id_range :
    DebugInfoRegistry → ReactorId → (start end : TriggerId) → Option DebugInfoRegistry
set_id_range reg id start end =
    if leb start end && leb first_regular start && length reg.reactor_bound == id
    then some (record reg { reactor_bound = reg.reactor_bound ++ (end ∷ []) })
    else none
