-- ===== src/Assembly/Programs.antt =====
-- The code that is generated for the reactors of a program, as src/scheduler/assembly_impl.rs runs
-- it: each reactor assembles its children around itself.
use reactor_rs.Common.{ℕ, ◌+◌, ◌≤◌, ◌<◌, ◌≡◌, Bool, List, length}
use reactor_rs.Common.Ord.{nat_ord}
use reactor_rs.Ids.{GlobalReactionId, half_mod}
use reactor_rs.Graph.{DiGraph}
use reactor_rs.Graph.Nodes.{Extends}
use reactor_rs.Debug.{ReactorId}
use reactor_rs.Assembly.{AssemblyResult, RootAssembler}
use reactor_rs.Assembly.Reactors.{
  AssemblyCtx, AssemblyIntermediate, ReactorInitializer, assemble, assemble_self, with_child,
}
use reactor_rs.Assembly.Contracts.{IsGenerated}

module _ (P : DiGraph) (T R : Type 0) (id_of : R → ReactorId)
    (Known : RootAssembler P T R → R → Type 0) where
  -- Code around a reactor, in a world: the reactor itself, or a child and what is around it.
  pub data Builds
      : (C : Type 0)
        → (C → Type 0)
        → RootAssembler P T R
        → (n c max : ℕ) → (AssemblyCtx P T R → AssemblyIntermediate P T R C)
        → Type 1 where
    itself :
        {C : Type 0} {Changed : C → Type 0} {world : RootAssembler P T R} {n c max : ℕ}
        {build : AssemblyCtx P T R → AssemblyIntermediate P T R C} (k : ℕ) (names : List Bool)
        (create_self : RootAssembler P T R → ReactorId → AssemblyResult (R × RootAssembler P T R))
        (declare_dependencies : RootAssembler P T R
          → R
          → List GlobalReactionId
          → AssemblyResult (R × C × RootAssembler P T R))
        → IsGenerated P T R id_of Known Changed world c create_self declare_dependencies
        → length names ≡ max
        → k ≤ max
        → max + max < half_mod
        → n ≡ 1
        → ((ctx : AssemblyCtx P T R)
            → build ctx ≡ assemble_self P T R ctx max create_self k names declare_dependencies)
        → Builds C Changed world n c max build
    around :
        {C : Type 0} {Changed : C → Type 0} {world : RootAssembler P T R} {n c max : ℕ}
        {build : AssemblyCtx P T R → AssemblyIntermediate P T R C} (m d n' c' : ℕ)
        (sub : ReactorInitializer P T R)
        (action : AssemblyCtx P T R → R → AssemblyIntermediate P T R (R × C)) (D : Type 0)
        (Own : D → Type 0) (build_sub : AssemblyCtx P T R → AssemblyIntermediate P T R D)
        → ((root : RootAssembler P T R) → Builds D Own root m d sub.max_reaction_id build_sub)
        → ((ctx : AssemblyCtx P T R) → sub.assemble_reactor ctx ≡ assemble P T R ctx build_sub)
        → ((root : RootAssembler P T R) (r : R)
            → Extends P world.graph root.graph
            → Known root r
            → Builds
                (R × C)
                (λ q. (id_of q.0 ≡ id_of r) × Changed q.1)
                root
                n'
                c'
                max
                (λ ctx. action ctx r))
        → n ≡ m + n'
        → c ≡ d + c'
        → ((ctx : AssemblyCtx P T R) → build ctx ≡ with_child P T R id_of ctx sub action)
        → Builds C Changed world n c max build

  -- A reactor with its descendants, `n` of them with it, and at most `c` components.
  pub record Program (n c : ℕ) (init : ReactorInitializer P T R) : Type 1 where
    pub Changes : Type 0
    pub Changed : Changes → Type 0
    pub build : AssemblyCtx P T R → AssemblyIntermediate P T R Changes
    pub builds :
        (world : RootAssembler P T R) → Builds Changes Changed world n c init.max_reaction_id build
    pub runs : (ctx : AssemblyCtx P T R) → init.assemble_reactor ctx ≡ assemble P T R ctx build
