-- ===== src/Ports.antt =====
-- src/ports.rs: ports that share a value cell when they are bound. The two levels of `Rc` are a
-- store: a port has a slot, `upstream_binding`, the slot holds the address of a cell, and binding a
-- port writes slots. A `none` of an operation is a panic.
pub mod Binding
pub mod Chains
use reactor_rs.Common.{
  ℕ, zero, suc, ◌+◌, ◌==◌, Bool, true, false, ◌||◌, Option, none, some, List, [], ◌∷◌,
  if◌then◌else◌, is_some, map,
}
use reactor_rs.Ids.{TriggerId}

abbrev pub PortId : Type 0
PortId = TriggerId

-- src/assembly.rs
pub data PortKind : Type 0 where
  input output child_input_reference child_output_reference : PortKind

pub data BindStatus : Type 0 where
  free bound : BindStatus

abbrev pub is_bound : BindStatus → Bool
is_bound bound = true
is_bound free = false

pub record Port : Type 0 where
  pub id : PortId
  pub kind : PortKind
  pub bind_status : BindStatus
  pub slot : ℕ

pub record PortCell (T : Type 0) : Type 0 where
  pub value : Option T
  pub downstreams : List (PortId × ℕ)

-- Slots and cells by address, and the first address of neither.
pub record Store (T : Type 0) : Type 0 where
  pub slot : ℕ → ℕ
  pub cell : ℕ → PortCell T
  pub fresh : ℕ

abbrev pub update : {A : Type 0} → (ℕ → A) → ℕ → A → ℕ → A
update f i a j = if j == i then a else f j

-- `HashMap::insert` and `contains_key` on a cell's downstreams.
unfoldable pub add_downstream : List (PortId × ℕ) → PortId → ℕ → List (PortId × ℕ)
add_downstream [] id slot = (id, slot) ∷ []
add_downstream ((j, s) ∷ ds) id slot =
    if j == id then (id, slot) ∷ ds else (j, s) ∷ add_downstream ds id slot

unfoldable pub has_downstream : List (PortId × ℕ) → PortId → Bool
has_downstream [] id = false
has_downstream ((j, s) ∷ ds) id = j == id || has_downstream ds id

pub data BindError : Type 0 where
  cyclic_dependency : (upstream downstream : PortId) → BindError
  cannot_bind : (upstream downstream : PortId) → BindError

pub data Outcome : Type 0 where
  bind_ok : Outcome
  bind_err : BindError → Outcome

-- Every direct downstream is made to point to the new cell.
unfoldable pub set_upstream : (ℕ → ℕ) → List (PortId × ℕ) → ℕ → ℕ → ℕ
set_upstream slot [] new_binding = slot
set_upstream slot ((j, s) ∷ ds) new_binding =
    set_upstream (update slot s new_binding) ds new_binding

module _ {T : Type 0} where
  -- The store of a program with no port yet.
  unfoldable pub empty_store : Store T
  empty_store = record {
    slot = λ i. i;
    cell = λ _. record { value = none; downstreams = [] };
    fresh = 0;
  }

  -- A slot and a cell are allocated at one new address.
  unfoldable pub port_new : Store T → PortId → PortKind → Port × Store T
  port_new h id kind = (
    record { id = id; kind = kind; bind_status = free; slot = h.fresh },
    record {
      slot = update h.slot h.fresh h.fresh;
      cell = update h.cell h.fresh (record { value = none; downstreams = [] });
      fresh = h.fresh + 1;
    },
  )

  unfoldable pub port_get : Store T → Port → Option T
  port_get h p = (h.cell (h.slot p.slot)).value

  unfoldable pub is_present_now : Store T → Port → Bool
  unfolding port_get
  is_present_now h p = is_some (port_get h p)

  unfoldable pub use_ref : {R : Type 0} → Store T → Port → (Option T → R) → R
  use_ref h p f = f (h.cell (h.slot p.slot)).value

  -- The `debug_assert_ne!` of a debug build comes first.
  unfoldable pub set_impl : Store T → Port → Option T → Option (Store T)
  set_impl h p new_value =
      if is_bound p.bind_status
      then none
      else some (record h {
        cell =
            update h.cell (h.slot p.slot) (record (h.cell (h.slot p.slot)) { value = new_value });
      })

  unfoldable pub clear_value : Store T → Port → Option (Store T)
  unfolding set_impl
  clear_value h p = if is_bound p.bind_status then some h else set_impl h p none

  unfoldable pub check_cycle : PortCell T → PortId → PortId → Outcome
  check_cycle c upstream downstream =
      if has_downstream c.downstreams upstream
      then bind_err (cyclic_dependency upstream downstream)
      else bind_ok

  -- The downstream port is returned, with its new status; on a cycle the store keeps the insertion.
  unfoldable pub forward_to : Store T → Port → Port → Outcome × Port × Store T
  unfolding check_cycle
  forward_to h up down =
      if is_bound down.bind_status
      then (bind_err (cannot_bind up.id down.id), down, h)
      else let my_class = h.slot up.slot in
        let down' = record down { bind_status = bound } in
        let cell' = update h.cell my_class (record (h.cell my_class) {
          downstreams = add_downstream (h.cell my_class).downstreams down.id down.slot;
        }) in
        let down_cell = cell' (h.slot down.slot) in
        elim (check_cycle down_cell up.id down.id) [
          | bind_err e ↦ (bind_err e, down', record h { cell = cell' })
          | bind_ok ↦ (
            bind_ok,
            down',
            record h {
              slot = update (set_upstream h.slot down_cell.downstreams my_class) down.slot my_class;
              cell = cell';
            },
          )
        ]

-- The channels of a multiport, which are ports of their own.
pub record Multiport : Type 0 where
  pub ports : List Port
  pub id : TriggerId

module _ {T : Type 0} where
  -- `iterate_set` and `iterate_values`.
  unfoldable pub iterate_set : Store T → List Port → List Port
  unfolding is_present_now
  iterate_set h [] = []
  iterate_set h (p ∷ ps) = if is_present_now h p then p ∷ iterate_set h ps else iterate_set h ps

  unfoldable pub iterate_values : Store T → List Port → List T
  iterate_values h [] = []
  iterate_values h (p ∷ ps) = elim (port_get h p) [
    | some v ↦ v ∷ iterate_values h ps
    | none ↦ iterate_values h ps
  ]

  -- `enumerate_values`, from an index on.
  unfoldable pub enumerate_values : Store T → ℕ → List Port → List (ℕ × T)
  enumerate_values h i [] = []
  enumerate_values h i (p ∷ ps) = elim (port_get h p) [
    | some v ↦ (i, v) ∷ enumerate_values h (i + 1) ps
    | none ↦ enumerate_values h (i + 1) ps
  ]

  -- `cleanup_multiport` of src/scheduler/context.rs.
  unfoldable pub cleanup_multiport : Store T → List Port → Option (Store T)
  cleanup_multiport h [] = some h
  cleanup_multiport h (p ∷ ps) = elim (clear_value h p) [
    | some h' ↦ cleanup_multiport h' ps
    | none ↦ none
  ]
