-- ===== src/Ports/Chains.antt =====
-- Chains of four ports of src/ports.rs, bound from the outside in and from the inside out.
use reactor_rs.Common.{◌≡◌, ◌≢◌, Option, none, some, arith}
use reactor_rs.Ports.{
  Port, Store, Outcome, bind_ok, add_downstream, has_downstream, set_upstream, forward_to, port_get,
  set_impl, port_new, empty_store, PortId, PortKind,
}

-- Four ports of a new program, the outermost first.
pub record Four (T : Type 0) : Type 0 where
  pub a : Port
  pub b : Port
  pub c : Port
  pub d : Port
  pub store : Store T

module _ {T : Type 0} where
  unfoldable pub four_ports : (i j k l : PortId) → PortKind → Four T
  unfolding port_new empty_store
  four_ports i j k l kind =
      let (a, h1) = port_new empty_store i kind in
      let (b, h2) = port_new h1 j kind in
      let (c, h3) = port_new h2 k kind in
      let (d, h4) = port_new h3 l kind in record { a = a; b = b; c = c; d = d; store = h4 }

  -- The bindings a → b, b → c and c → d, each on the ports that the ones before left.
  unfoldable pub bind_ab : Four T → Outcome × Four T
  bind_ab f = let (r, b, h) = forward_to f.store f.a f.b in (r, record f { b = b; store = h })

  unfoldable pub bind_bc : Four T → Outcome × Four T
  bind_bc f = let (r, c, h) = forward_to f.store f.b f.c in (r, record f { c = c; store = h })

  unfoldable pub bind_cd : Four T → Outcome × Four T
  bind_cd f = let (r, d, h) = forward_to f.store f.c f.d in (r, record f { d = d; store = h })

  unfoldable pub inside_out : Four T → Four T
  unfolding bind_ab bind_bc bind_cd
  inside_out f = (bind_ab (bind_bc (bind_cd f).1).1).1

  unfoldable pub outside_in : Four T → Four T
  unfolding bind_ab bind_bc bind_cd
  outside_in f = (bind_cd (bind_bc (bind_ab f).1).1).1

  -- What a port reads after a value is set on another.
  unfoldable pub read_after : Store T → Port → T → Port → Option (Option T)
  unfolding set_impl port_get
  read_after h p v q = elim (set_impl h p (some v)) [ some h' ↦ some (port_get h' q) | none ↦ none ]

  module _ (i j k l : PortId) (kind : PortKind) (v : T)
      (distinct : (i ≢ j) × (i ≢ k) × (i ≢ l) × (j ≢ k) × (j ≢ l) × (k ≢ l)) where
    abbrev outer : Four T
    outer = outside_in (four_ports i j k l kind)

    abbrev inner : Four T
    inner = inside_out (four_ports i j k l kind)

    -- Bound from the outside in, the four ports of a chain all read a value set on the first.
    pub outside_in_reads :
        (read_after outer.store outer.a v outer.a ≡ some (some v))
        × (read_after outer.store outer.a v outer.b ≡ some (some v))
        × (read_after outer.store outer.a v outer.c ≡ some (some v))
        × (read_after outer.store outer.a v outer.d ≡ some (some v))
    unfolding outside_in four_ports forward_to read_after has_downstream add_downstream set_upstream
    outside_in_reads = (ground arith, ground arith, ground arith, ground arith)

    -- Bound from the inside out, as nested reactors are assembled, the same three bindings all
    -- succeed, but the last port of the chain does not read what is set on the first.
    pub inside_out_loses_last :
        ((bind_cd (four_ports i j k l kind)).0 ≡ bind_ok)
        × ((bind_bc (bind_cd (four_ports i j k l kind)).1).0 ≡ bind_ok)
        × ((bind_ab (bind_bc (bind_cd (four_ports i j k l kind)).1).1).0 ≡ bind_ok)
        × (read_after inner.store inner.a v inner.b ≡ some (some v))
        × (read_after inner.store inner.a v inner.c ≡ some (some v))
        × (read_after inner.store inner.a v inner.d ≡ some none)
    unfolding inside_out four_ports forward_to read_after has_downstream add_downstream set_upstream
    inside_out_loses_last =
        (ground arith, ground arith, ground arith, ground arith, ground arith, ground arith)
