-- ===== src/Assembly/Builders.antt =====
-- `with_child` and `assemble` of src/scheduler/assembly_impl.rs: what they make of a child and of
-- what is around it.
use reactor_rs.Common.{ℕ, ◌+◌, ◌<◌, ◌≡◌, refl, sym, subst, ◌∙◌, true, [], ◌∷◌, ◌++◌, arith}
use reactor_rs.Ids.{half_mod, full_mod}
use reactor_rs.Graph.{DiGraph}
use reactor_rs.Graph.Nodes.{Extends, Extends-refl, Extends-trans}
use reactor_rs.Common.Ord.{nat_ord}
use reactor_rs.Debug.{ReactorId}
use reactor_rs.Assembly.{done, ◌>>=◌, Ensures, Ensures-bind, RootAssembler, register_reactor}
use reactor_rs.Assembly.Reactors.{
  AssemblyCtx, AssemblyIntermediate, ReactorInitializer, ctx_new, assemble, assemble_sub,
  with_child,
}
use reactor_rs.Assembly.Registration.{register_reactor_lem}
use reactor_rs.Assembly.Children.{AreWaiting-append, open_for_child, child_Assembled}
use reactor_rs.Assembly.Contracts.{IsReady, Assembled, AreWaiting, IsBuilder, IsInitializer}

module _ (P : DiGraph) (T R : Type 0) (id_of : R → ReactorId)
    (Known : RootAssembler P T R → R → Type 0)
    (known_later : (root root' : RootAssembler P T R) (r : R)
      → Extends P root.graph root'.graph
      → Known root r
      → Known root' r) where
  pub assemble-IsInitializer :
      {C : Type 0} (Changed : C → Type 0) (n c max : ℕ)
      (build : AssemblyCtx P T R → AssemblyIntermediate P T R C)
      → ((root : RootAssembler P T R) → IsBuilder P T R id_of Known Changed root n c max build)
      → IsInitializer P T R id_of Known n c
          (record { max_reaction_id = max; assemble_reactor = λ ctx. assemble P T R ctx build })
  unfolding assemble ctx_new
  assemble-IsInitializer Changed n c max build builds root ready fits ids_fit =
      Ensures-bind _ (λ p. Assembled P T R id_of Known n c [] root p.0 p.1)
        (build (ctx_new P T R root max)) _
        (builds root (ctx_new P T R root max) (Extends-refl P root.graph) ready refl refl
          (record { loose_children = tt; apart = tt }) fits ids_fit)
        (λ p h. h.0)

  -- The context once a child is assembled.
  record Sub (m d : ℕ) (ctx : AssemblyCtx P T R) (q : R × AssemblyCtx P T R) : Type 0 where
    assembled : Assembled P T R id_of Known m d [] ctx.globals q.1.globals q.0
    listed : q.1.children_ids ≡ ctx.children_ids ++ (id_of q.0 ∷ [])
    fresh : q.1.debug ≡ true
    same_local : q.1.cur_local ≡ ctx.cur_local

  assemble_sub-fresh :
      (sub : ReactorInitializer P T R) (ctx : AssemblyCtx P T R)
      → ctx.debug ≡ true
      → assemble_sub P T R id_of ctx sub ≡ (
          sub.assemble_reactor (ctx_new P T R ctx.globals sub.max_reaction_id) >>= λ x.
          done (
            x.1,
            record ctx { globals = x.0; children_ids = ctx.children_ids ++ (id_of x.1 ∷ []) },
          ))
  unfolding assemble_sub
  assemble_sub-fresh sub ctx fresh = rw fresh refl

  assemble_sub_lem :
      (m d : ℕ) (sub : ReactorInitializer P T R) (ctx : AssemblyCtx P T R)
      → IsInitializer P T R id_of Known m d sub
      → IsReady P T R id_of Known ctx.globals
      → ctx.debug ≡ true
      → ctx.globals.reactor_id + m < half_mod
      → ctx.globals.cur_trigger + d < full_mod
      → Ensures (λ q. Sub m d ctx q) (assemble_sub P T R id_of ctx sub)
  assemble_sub_lem m d sub ctx child ready fresh fits ids_fit =
      rw (assemble_sub-fresh sub ctx fresh) (
        Ensures-bind _ (λ q. Sub m d ctx q)
          (sub.assemble_reactor (ctx_new P T R ctx.globals sub.max_reaction_id)) _
          (child ctx.globals ready fits ids_fit)
          (λ p h. record { assembled = h; listed = refl; fresh = fresh; same_local = refl }))

  waiting_after :
      (m d : ℕ) (ctx : AssemblyCtx P T R) (q : R × AssemblyCtx P T R)
      → AreWaiting P T R id_of Known ctx.globals ctx.children_ids
      → Sub m d ctx q
      → AreWaiting P T R id_of Known q.1.globals q.1.children_ids
  waiting_after m d ctx q waiting h =
      subst (λ children. AreWaiting P T R id_of Known q.1.globals children) (sym h.listed)
        (AreWaiting-append P T R id_of Known known_later ctx.globals q.1.globals (id_of q.0)
          ctx.children_ids waiting h.assembled.more (omega (arith, h.assembled.last))
          h.assembled.loose (λ i k. h.assembled.containers_kept i k refl))

  -- A child of `m` reactors, and what is built around it.
  module _ {C : Type 0} (Changed : C → Type 0) (world : RootAssembler P T R) (m d n c max : ℕ)
      (sub : ReactorInitializer P T R)
      (action : AssemblyCtx P T R → R → AssemblyIntermediate P T R (R × C))
      (child : IsInitializer P T R id_of Known m d sub)
      (acts : (root : RootAssembler P T R) (r : R)
        → Extends P world.graph root.graph
        → Known root r
        → IsBuilder P T R id_of Known
            (λ q. (id_of q.0 ≡ id_of r) × Changed q.1)
            root
            n
            c
            max
            (λ ctx. action ctx r)) where
    register_lem :
        (ctx : AssemblyCtx P T R) (q : R × AssemblyCtx P T R) (p : AssemblyCtx P T R × R × (R × C))
        → Sub m d ctx q
        → AreWaiting P T R id_of Known ctx.globals ctx.children_ids
        → Assembled P T R id_of Known n c q.1.children_ids q.1.globals p.0.globals p.1
          × ((id_of p.2.0 ≡ id_of q.0) × Changed p.2.1)
        → Ensures
            (λ (o : AssemblyCtx P T R × R × C).
              Assembled P T R id_of Known
                (m + n)
                (d + c)
                ctx.children_ids
                ctx.globals
                o.0.globals
                o.1
              × Changed o.2)
            (register_reactor P T R id_of p.0.globals p.2.0 >>= λ globals.
              done (record p.0 { globals = globals }, p.1, p.2.1))
    register_lem ctx q p h waiting (built, (same, changed)) =
        let second =
          subst (λ children. Assembled P T R id_of Known n c children q.1.globals p.0.globals p.1)
            h.listed built in
        let vacant =
          open_for_child P T R id_of Known known_later m d n c ctx.children_ids ctx.globals
            q.1.globals p.0.globals q.0 p.2.0 p.1 h.assembled second same waiting in
        rw (register_reactor_lem P T R id_of p.0.globals p.2.0 vacant).0 (
          child_Assembled P T R id_of Known known_later m d n c ctx.children_ids ctx.globals
              q.1.globals p.0.globals q.0 p.2.0 p.1 h.assembled second same waiting,
          changed,
        )

    pub with_child-IsBuilder :
        IsBuilder P T R id_of Known Changed world
          (m + n)
          (d + c)
          max
          (λ ctx. with_child P T R id_of ctx sub action)
    unfolding with_child
    with_child-IsBuilder ctx later ready fresh start waiting fits ids_fit =
        Ensures-bind (λ q. Sub m d ctx q) _ (assemble_sub P T R id_of ctx sub) _
          (assemble_sub_lem m d sub ctx child ready fresh (omega arith) (omega arith))
          (λ q h.
            Ensures-bind _ _ (action q.1 q.0) _
              (acts q.1.globals q.0
                (Extends-trans P world.graph ctx.globals.graph q.1.globals.graph later
                  h.assembled.extends)
                h.assembled.known q.1 (Extends-refl P q.1.globals.graph) h.assembled.ready h.fresh
                (h.same_local ∙ start) (waiting_after m d ctx q waiting h)
                (omega (arith, h.assembled.count)) (omega (arith, h.assembled.ids)))
              (λ p b. register_lem ctx q p h waiting b))
