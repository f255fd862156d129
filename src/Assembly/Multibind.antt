-- ===== src/Assembly/Multibind.antt =====
-- The loop of `bind_ports_iterated` of src/scheduler/assembly_impl.rs, round by round.
use reactor_rs.Common.{
  ℕ, ◌+◌, ◌%◌, ◌<◌, ◌==◌, ◌≡◌, refl, sym, ap, ◌∙◌, Bool, false, ◌||◌, some, List, [], ◌∷◌, length,
  get_elem?, get_elem?_total, All, All-get_elem?, All-map, arith, map,
}
use reactor_rs.Ports.{Port, Store, port_get}
use reactor_rs.Graph.{DiGraph, trigger, map_get}
use reactor_rs.Assembly.{done, RootAssembler}
use reactor_rs.Assembly.Connections.{bind_from, bind_ports_iterated}
use reactor_rs.Assembly.Bindings.{
  as_bound, IsUnbound, AreDistinct, Shares, Bound, IsRecorded, Binds, bind_ports_Binds, bound_root,
}
use native.Mathlib.Nat.{mod-lt}

abbrev slot_among : List Port → ℕ → Bool
slot_among [] s = false
slot_among (p ∷ ps) s = p.slot == s || slot_among ps s

distinct_slot :
    (ps : List Port) (p : Port)
    → All (λ q. (q.slot == p.slot) ≡ false) ps
    → slot_among ps p.slot ≡ false
distinct_slot [] p a = refl
distinct_slot (q ∷ ps) p a = ground (arith, a.0, distinct_slot ps p a.1)

module _ {T : Type 0} (ups : List Port) where
  -- An upstream port is none of the ports that are to be bound.
  upstream_slot :
      (h : Store T) (downs : List Port) (i : ℕ) (up : Port)
      → All (λ down. IsUnbound h ups down) downs
      → get_elem? ups i ≡ some up
      → slot_among downs up.slot ≡ false
  upstream_slot h [] i up a e = refl
  upstream_slot h (down ∷ downs) i up a e =
      let apart =
        All-get_elem? (λ u. (h.slot down.slot == h.slot u.slot) ≡ false) ups i up a.0.apart e in
      ground (arith, apart, upstream_slot h downs i up a.1 e)

  module _ (h h' : Store T) (up down : Port) (i : ℕ) (step : Bound h h' up down)
      (at : get_elem? ups i ≡ some up) (unbound : IsUnbound h ups down) where
    same_upstream :
        (u : Port) → (h.slot down.slot == h.slot u.slot) ≡ false → h'.slot u.slot ≡ h.slot u.slot
    same_upstream u apart = ground (arith, apart, step.slots u.slot)

    same_reads :
        (u : Port) → (h.slot down.slot == h.slot u.slot) ≡ false → port_get h' u ≡ port_get h u
    unfolding port_get
    same_reads u apart =
        ap (λ c. (h'.cell c).value) (same_upstream u apart) ∙ step.values (h.slot u.slot)

    IsUnbound-bind :
        (other : Port)
        → (other.slot == down.slot) ≡ false
        → IsUnbound h ups other
        → IsUnbound h' ups other
    IsUnbound-bind other differs u =
        let same : h'.slot other.slot ≡ h.slot other.slot =
          ground (arith, differs, step.slots other.slot) in
        let apart =
          All-get_elem? (λ v. (h.slot other.slot == h.slot v.slot) ≡ false) ups i up u.apart at in
        record {
          status = u.status;
          alone =
              ap (λ c. (h'.cell c).downstreams) same
              ∙ step.others (h.slot other.slot) apart
              ∙ u.alone;
          apart =
              All-map (λ v. (h.slot other.slot == h.slot v.slot) ≡ false)
                (λ v. (h.slot down.slot == h.slot v.slot) ≡ false)
                (λ v. (h'.slot other.slot == h'.slot v.slot) ≡ false) ups
                (λ v mine its. ground (arith, mine, same, same_upstream v its)) u.apart
                unbound.apart;
        }

    Shares-bind :
        (h'' : Store T) (j : ℕ) (downs : List Port)
        → Shares h' h'' ups j downs
        → Shares h h'' ups j downs
    Shares-bind h'' j [] s = tt
    Shares-bind h'' j (d ∷ downs) ((u, e, joined, reads), s) =
        let apart =
          All-get_elem? (λ v. (h.slot down.slot == h.slot v.slot) ≡ false) ups (j % length ups) u
            unbound.apart e in
        ((u, e, joined, reads ∙ same_reads u apart), Shares-bind h'' (j + 1) downs s)

-- What a run of the loop leaves.
module _ (P : DiGraph) (T R : Type 0) (ups : List Port) where
  record Bindings (root root' : RootAssembler P T R) (i : ℕ) (downs : List Port) : Type 0 where
    result : bind_from P T R root ups i downs ≡ done (map as_bound downs, root')
    shares : Shares root.ports root'.ports ups i downs
    frame : (s : ℕ) → slot_among downs s ≡ false → root'.ports.slot s ≡ root.ports.slot s
    values : (c : ℕ) → (root'.ports.cell c).value ≡ (root.ports.cell c).value

  abbrev AllRecorded : RootAssembler P T R → List Port → Type 0
  AllRecorded root ps = All (λ p. IsRecorded P T R root p) ps

  AllRecorded-bind :
      (root root' : RootAssembler P T R) (ps : List Port)
      → root'.graph.ix_by_id ≡ root.graph.ix_by_id
      → AllRecorded root ps
      → AllRecorded root' ps
  AllRecorded-bind root root' [] e a = tt
  AllRecorded-bind root root' (p ∷ ps) e ((ix, at), a) =
      ((ix, ap (λ m. map_get m (trigger p.id)) e ∙ at), AllRecorded-bind root root' ps e a)

  -- The first round, and what the others leave.
  module _ (root after root' : RootAssembler P T R) (up down : Port) (i : ℕ) (downs : List Port)
      (step : Binds P T R root after up down) (at : get_elem? ups (i % length ups) ≡ some up)
      (rest : Bindings after root' (i + 1) downs)
      (own_slot : All (λ q. (q.slot == down.slot) ≡ false) downs)
      (unbound : IsUnbound root.ports ups down)
      (others : All (λ q. IsUnbound root.ports ups q) downs) where
    apart_now : (root.ports.slot down.slot == root.ports.slot up.slot) ≡ false
    apart_now =
        All-get_elem? (λ v. (root.ports.slot down.slot == root.ports.slot v.slot) ≡ false) ups
          (i % length ups) up unbound.apart at

    down_slot : root'.ports.slot down.slot ≡ root.ports.slot up.slot
    down_slot =
        rest.frame down.slot (distinct_slot downs down own_slot)
        ∙ ground (arith, step.changes.slots down.slot)

    up_slot : root'.ports.slot up.slot ≡ root.ports.slot up.slot
    up_slot =
        rest.frame up.slot (upstream_slot ups root.ports downs (i % length ups) up others at)
        ∙ same_upstream ups root.ports after.ports up down (i % length ups) step.changes at unbound
            up apart_now

    down_reads : port_get root'.ports down ≡ port_get root.ports up
    unfolding port_get
    down_reads =
        ap (λ c. (root'.ports.cell c).value) down_slot
        ∙ rest.values (root.ports.slot up.slot)
        ∙ step.changes.values (root.ports.slot up.slot)

    Bindings-cons : Bindings root root' i (down ∷ downs)
    unfolding bind_from
    Bindings-cons = record {
      result = ground (arith, at, step.result, rest.result);
      shares = (
        (up, at, down_slot ∙ sym up_slot, down_reads),
        Shares-bind ups root.ports after.ports up down (i % length ups) step.changes at unbound
            root'.ports (i + 1) downs rest.shares,
      );
      frame = λ s e. ground (arith, e, rest.frame s, step.changes.slots s);
      values = λ c. rest.values c ∙ step.changes.values c;
    }

  bind_from_lem :
      (root : RootAssembler P T R) (i : ℕ) (downs : List Port)
      → 0 < length ups
      → AllRecorded root ups
      → AllRecorded root downs
      → AreDistinct downs
      → All (λ down. IsUnbound root.ports ups down) downs
      → (root' : RootAssembler P T R) × Bindings root root' i downs
  unfolding bind_from
  bind_from_lem root i [] some_up u r d a =
      (root, record { result = refl; shares = tt; frame = λ s e. refl; values = λ c. refl })
  bind_from_lem root i (down ∷ downs) some_up u ((j, down_ix), r) d (unbound, a) =
      let (up, at) = get_elem?_total ups (i % length ups) (mod-lt i some_up) in
      let (k, up_ix) = All-get_elem? (λ p. IsRecorded P T R root p) ups (i % length ups) up u at in
      let apart =
        All-get_elem? (λ v. (root.ports.slot down.slot == root.ports.slot v.slot) ≡ false) ups
          (i % length ups) up unbound.apart at in
      let step : Binds P T R root _ up down =
        bind_ports_Binds P T R root up down unbound.status unbound.alone apart k j up_ix down_ix in
      let after =
        bound_root P T R root up down unbound.status unbound.alone apart k j up_ix down_ix in
      let unbound_after =
        All-map (λ q. (q.slot == down.slot) ≡ false) (λ q. IsUnbound root.ports ups q)
          (λ q. IsUnbound after.ports ups q) downs
          (IsUnbound-bind ups root.ports after.ports up down (i % length ups) step.changes at
            unbound)
          d.0 a in
      let (root', rest) =
        bind_from_lem after (i + 1) downs some_up (AllRecorded-bind root after ups step.nodes u)
          (AllRecorded-bind root after downs step.nodes r) d.1 unbound_after in
      (root', Bindings-cons root after root' up down i downs step at rest d.0 unbound a)

  -- If the upstream ports are not none, and every downstream port is unbound, has no downstream
  -- port and has a slot and a cell that no other of the ports has, then all are bound, in turn to
  -- each upstream port: each shares from then on the cell of its own, and reads what that one held.
  -- All ports are nodes of the graph.
  pub bind_ports_iterated_lem :
      (root : RootAssembler P T R) (downs : List Port)
      → 0 < length ups
      → AllRecorded root ups
      → AllRecorded root downs
      → AreDistinct downs
      → All (λ down. IsUnbound root.ports ups down) downs
      → (root' : RootAssembler P T R) × (bind_ports_iterated P T R root ups downs
          ≡ done (map as_bound downs, root'))
        × Shares root.ports root'.ports ups 0 downs
        × ((c : ℕ) → (root'.ports.cell c).value ≡ (root.ports.cell c).value)
  unfolding bind_ports_iterated
  bind_ports_iterated_lem root downs some_up u r d a =
      let (root', bindings) = bind_from_lem root 0 downs some_up u r d a in
      (root', iterated ups some_up ∙ bindings.result, bindings.shares, bindings.values)
    where
      iterated :
          (ports : List Port)
          → 0 < length ports
          → bind_ports_iterated P T R root ports downs ≡ bind_from P T R root ports 0 downs
      iterated [] h = absurd (omega arith)
      iterated (up ∷ ports) h = refl
