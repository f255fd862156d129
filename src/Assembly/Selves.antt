-- ===== src/Assembly/Selves.antt =====
-- `assemble_self` of src/scheduler/assembly_impl.rs: a reactor whose children wait for it.
use reactor_rs.Common.{
  ℕ, ◌+◌, ◌&&◌, ◌≤◌, ◌<◌, ◌==◌, ◌≡◌, refl, ◌∙◌, Bool, true, false, List, [], length, arith, ltb,
}
use reactor_rs.Common.Ord.{nat_ord}
use reactor_rs.Ids.{GlobalReactionId, half_mod, full_mod}
use reactor_rs.Graph.{DiGraph}
use reactor_rs.Graph.Nodes.{KeepsEdges, Extends, Extends-trans}
use reactor_rs.Debug.{ReactorId, DebugInfoRegistry, record_reactor, set_id_range}
use reactor_rs.Assembly.{
  AssemblyResult, done, ◌>>=◌, or_panic, Ensures, Ensures-bind, RootAssembler,
}
use reactor_rs.Assembly.Reactors.{
  AssemblyIntermediate, AssemblyCtx, assemble_self, new_reactions, reactor_get_and_incr,
}
use reactor_rs.Assembly.Reactions.{reaction_ids}
use reactor_rs.Assembly.Priorities.{new_reactions_lem}
use reactor_rs.Assembly.Sound.{IsSound, Grows}
use reactor_rs.Assembly.Containers.{Contained, record_containers_lem}
use reactor_rs.Assembly.Outcomes.{
  counted_registry, children_loose, before, before-IsSound, ranged, set_id_range_lem,
  ranged-IsVacant, final-Assembled,
}
use reactor_rs.Assembly.Contracts.{Connects, IsGenerated, IsReady, Assembled, AreWaiting, IsBuilder}

module _ (P : DiGraph) (T R : Type 0) (laws : KeepsEdges P) (id_of : R → ReactorId)
    (Known : RootAssembler P T R → R → Type 0)
    (known_later : (root root' : RootAssembler P T R) (r : R)
      → Extends P root.graph root'.graph
      → Known root r
      → Known root' r)
    {C : Type 0} (Changed : C → Type 0) (world : RootAssembler P T R) (c k max : ℕ)
    (names : List Bool)
    (create_self : RootAssembler P T R → ReactorId → AssemblyResult (R × RootAssembler P T R))
    (declare_dependencies : RootAssembler P T R
      → R
      → List GlobalReactionId
      → AssemblyResult (R × C × RootAssembler P T R))
    (generated : IsGenerated P T R id_of Known Changed world c create_self declare_dependencies)
    (all : length names ≡ max) (enough : k ≤ max) (small : max + max < half_mod) where
  module _ (ctx : AssemblyCtx P T R) (later : Extends P world.graph ctx.globals.graph)
      (ready : IsReady P T R id_of Known ctx.globals) (fresh : ctx.debug ≡ true)
      (start : ctx.cur_local ≡ max)
      (waiting : AreWaiting P T R id_of Known ctx.globals ctx.children_ids)
      (fits : ctx.globals.reactor_id + 1 < half_mod)
      (ids_fit : ctx.globals.cur_trigger + c < full_mod) where
    abbrev me : ReactorId
    me = ctx.globals.reactor_id

    -- What follows the creation of the reactor.
    abbrev after_creation : R × RootAssembler P T R → AssemblyIntermediate P T R C
    after_creation p = do
      ranged ← or_panic (set_id_range p.1.debug_info me ctx.globals.cur_trigger p.1.cur_trigger)
      let ctx' = record ctx {
        globals = record p.1 { debug_info = ranged };
        debug = false;
        children_ids = [];
      }
      (reactions, ctx'') ← new_reactions P T R ctx' me k names
      (ich', changed, root') ← declare_dependencies ctx''.globals p.0 reactions
      done (record ctx'' { globals = root' }, ich', changed)

    module _ (registry : DebugInfoRegistry)
        (contained : Contained
          (counted_registry P T R id_of Known c ctx ready waiting fits)
          registry
          me
          ctx.children_ids) where
      creation_lem : assemble_self P T R ctx max create_self k names declare_dependencies ≡ (
          create_self (before P T R id_of Known c ctx ready waiting fits registry contained) me
          >>= after_creation)
      unfolding assemble_self reactor_get_and_incr record_reactor
      creation_lem =
          let complete : (length names == max && ctx.debug) ≡ true = ground (arith, all, fresh) in
          let left : ltb (me + 1) half_mod ≡ true = ground (arith, fits) in
          let next : (ctx.globals.debug_info.reactor_infos == me) ≡ true =
            ground (arith, ready.numbers.numbered) in
          rw complete (rw left (rw next (rw contained.result refl)))

      after_creation_lem :
          (p : R × RootAssembler P T R)
          → (id_of p.0 ≡ me)
            × Known p.1 p.0
            × IsSound P T R p.1
            × Grows P T R (before P T R id_of Known c ctx ready waiting fits registry contained) p.1
            × (p.1.cur_trigger ≤ ctx.globals.cur_trigger + c)
          → Ensures
              (λ q.
                Assembled P T R id_of Known 1 c ctx.children_ids ctx.globals q.0.globals q.1
                × Changed q.2)
              (after_creation p)
      after_creation_lem (ich, root) (own, known, sound, grows, few) =
          let now =
            ranged P T R id_of Known c ctx ready waiting fits registry contained ich root own known
              sound grows few in
          let ctx' : AssemblyCtx P T R = record ctx {
            globals = now;
            debug = false;
            children_ids = [];
          } in
          let (reacting, made, declared, nodes, ordered) =
            new_reactions_lem P T R laws me k (omega arith) ctx' names
              (ranged-IsVacant P T R id_of Known c ctx ready waiting fits registry contained ich
                root own known sound grows few)
              (omega (arith, all)) (omega (arith, all, start)) in
          let in_world =
            Extends-trans P world.graph root.graph reacting.graph
              (Extends-trans P world.graph ctx.globals.graph root.graph later grows.extends)
              declared.extends in
          let declares =
            generated.declares reacting ich (reaction_ids me 0 (length names)) in_world
              (known_later root reacting ich declared.extends known) nodes in
          rw
            (set_id_range_lem P T R id_of Known c ctx ready waiting fits registry contained ich root
              own known sound grows few)
            (rw made (
              Ensures-bind
                (λ p.
                  (id_of p.0 ≡ id_of ich)
                  × Known p.2 p.0
                  × Changed p.1
                  × Connects P T R id_of Known reacting p.2)
                (λ q.
                  Assembled P T R id_of Known 1 c ctx.children_ids ctx.globals q.0.globals q.1
                  × Changed q.2)
                (declare_dependencies reacting ich (reaction_ids me 0 (length names))) _ declares
                (λ p h. (
                  final-Assembled P T R id_of Known c ctx ready waiting fits registry contained ich
                      root own known sound grows few reacting p.2 declared h.3 p.0 (h.0 ∙ own) h.1,
                  h.2,
                ))))

  -- `assemble_self` is a builder of one reactor.
  pub assemble_self-IsBuilder :
      IsBuilder P T R id_of Known Changed world 1 c max
        (λ ctx. assemble_self P T R ctx max create_self k names declare_dependencies)
  assemble_self-IsBuilder ctx later ready fresh start waiting fits ids_fit =
      let (registry, contained) =
        record_containers_lem (counted_registry P T R id_of Known c ctx ready waiting fits)
          ctx.globals.reactor_id ctx.children_ids ready.numbers.containers_sorted
          (children_loose P T R id_of Known c ctx ready waiting fits) waiting.apart in
      let before_creation = before P T R id_of Known c ctx ready waiting fits registry contained in
      rw (creation_lem ctx later ready fresh start waiting fits ids_fit registry contained) (
        Ensures-bind _ _ (create_self before_creation ctx.globals.reactor_id) _
          (generated.creates before_creation ctx.globals.reactor_id
            (before-IsSound P T R id_of Known c ctx ready waiting fits registry contained) ids_fit)
          (after_creation_lem ctx later ready fresh start waiting fits ids_fit registry contained))
