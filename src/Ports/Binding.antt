-- ===== src/Ports/Binding.antt =====
-- What binding two ports of src/ports.rs does to what ports read.
use reactor_rs.Common.{
  ℕ, ◌==◌, ◌≡◌, inl, inr, refl, Bool, true, false, ◌||◌, not, Bool-cases, Option, some, List, [],
  ◌∷◌, if◌then◌else◌, arith,
}
use reactor_rs.Ports.{
  Port, Store, free, bound, is_bound, bind_ok, bind_err, update, add_downstream, has_downstream,
  set_upstream, forward_to, port_get, set_impl, PortId, cannot_bind, cyclic_dependency,
}

-- Whether a slot is among the downstreams.
unfoldable pub holds_slot : List (PortId × ℕ) → ℕ → Bool
holds_slot [] s = false
holds_slot ((j, t) ∷ ds) s = t == s || holds_slot ds s

set_upstream_lem :
    (slot : ℕ → ℕ) (ds : List (PortId × ℕ)) (c s : ℕ)
    → set_upstream slot ds c s ≡ (if holds_slot ds s then c else slot s)
unfolding set_upstream holds_slot
set_upstream_lem slot [] c s = refl
set_upstream_lem slot ((j, t) ∷ ds) c s = ground (arith, set_upstream_lem (update slot t c) ds c s)

module _ {T : Type 0} (h : Store T) (up down : Port) where
  -- The cell of the downstream port after its id is inserted at the upstream's.
  abbrev pub old_downstreams : List (PortId × ℕ)
  old_downstreams =
      if h.slot down.slot == h.slot up.slot
      then add_downstream (h.cell (h.slot up.slot)).downstreams down.id down.slot
      else (h.cell (h.slot down.slot)).downstreams

  -- A port that is bound is refused as bound, and nothing changes. An unbound port that has the
  -- upstream port among its downstreams is refused as a cycle; it is marked bound all the same, and
  -- listed in the upstream's cell, but no slot and no other cell changes.
  pub forward_to_refuses :
      (is_bound down.bind_status || has_downstream old_downstreams up.id) ≡ true
      → (forward_to h up down ≡ (
          if is_bound down.bind_status then (bind_err (cannot_bind up.id down.id), down, h) else (
            bind_err (cyclic_dependency up.id down.id),
            record down { bind_status = bound },
            record h { cell = (forward_to h up down).2.cell },
          )))
        × ((c : ℕ)
            → (forward_to h up down).2.cell c ≡ (
                if is_bound down.bind_status || not (c == h.slot up.slot)
                then h.cell c
                else record (h.cell c) {
                  downstreams = add_downstream (h.cell c).downstreams down.id down.slot;
                }))
  unfolding forward_to
  forward_to_refuses refused = elim (Bool-cases (is_bound down.bind_status)) [
    | inl full ↦ (ground (arith, full), λ c. ground (arith, full))
    | inr open_port ↦ (ground (arith, open_port, refused), λ c. ground (arith, open_port, refused))
  ]

  module _ (open_port : down.bind_status ≡ free)
      (acyclic : has_downstream old_downstreams up.id ≡ false) where
    -- Binding an unbound port that does not have the upstream port among its downstreams succeeds
    -- and marks it bound. Its slot and those of its direct downstreams get the upstream's cell,
    -- every other slot keeps its cell, and the value of no cell changes.
    pub forward_to_binds :
        ((forward_to h up down).0 ≡ bind_ok)
        × ((forward_to h up down).1 ≡ record down { bind_status = bound })
        × ((s : ℕ)
            → (forward_to h up down).2.slot s ≡ (
                if s == down.slot || holds_slot old_downstreams s
                then h.slot up.slot
                else h.slot s))
        × ((c : ℕ) → ((forward_to h up down).2.cell c).value ≡ (h.cell c).value)
    unfolding forward_to
    forward_to_binds = (
      ground arith,
      ground arith,
      λ s. ground (arith, set_upstream_lem h.slot old_downstreams (h.slot up.slot) s),
      λ c. ground arith,
    )

    reads_up : (forward_to h up down).2.slot up.slot ≡ h.slot up.slot
    reads_up = ground (arith, forward_to_binds.2 up.slot)

    reads_down : (forward_to h up down).2.slot down.slot ≡ h.slot up.slot
    reads_down = ground (arith, forward_to_binds.2 down.slot)

    -- After a binding both ports read what the upstream port read, and a value that is then set on
    -- the upstream port, if it is not bound itself, is read through both and through the downstream
    -- port's direct downstreams.
    pub set_impl-forward_to :
        (v : Option T) (leaf : Port)
        → up.bind_status ≡ free
        → (leaf.slot == down.slot || holds_slot old_downstreams leaf.slot) ≡ true
        → (port_get (forward_to h up down).2 down ≡ port_get h up)
          × (h' : Store T) × (set_impl (forward_to h up down).2 up v ≡ some h')
          × (port_get h' up ≡ v)
          × (port_get h' leaf ≡ v)
    unfolding port_get set_impl
    set_impl-forward_to v leaf f e =
        let after = (forward_to h up down).2 in
        (
          ground (arith, reads_down, forward_to_binds.3 (h.slot up.slot)),
          record after {
            cell =
                update after.cell (after.slot up.slot)
                  (record (after.cell (after.slot up.slot)) { value = v });
          },
          ground arith,
          ground arith,
          ground (arith, reads_up, forward_to_binds.2 leaf.slot),
        )
