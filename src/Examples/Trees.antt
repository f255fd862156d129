-- ===== src/Examples/Trees.antt =====
-- Trees of two reactors, as src/scheduler/assembly_impl.rs assembles them over a small graph: a
-- reactor with a child, each with an action and two reactions.
use reactor_rs.Common.{ℕ, ◌≡◌, refl, true, none, List, [], ◌∷◌, arith}
use reactor_rs.Common.Ord.{nat_ord}
use reactor_rs.Ids.{GlobalReactionId}
use reactor_rs.Ports.{input}
use reactor_rs.Graph.{action}
use reactor_rs.Graph.Nodes.{Extends-refl}
use reactor_rs.Debug.{ReactorId}
use reactor_rs.Assembly.{AssemblyResult, done, ◌>>=◌, RootAssembler}
use reactor_rs.Assembly.Components.{new_logical_action}
use reactor_rs.Assembly.Creation.{creators_lem, with_node-Grows}
use reactor_rs.Assembly.Reactors.{
  AssemblyCtx, AssemblyIntermediate, ReactorInitializer, assemble, assemble_self, with_child,
}
use reactor_rs.Assembly.Contracts.{IsGenerated}
use reactor_rs.Assembly.Programs.{Builds, Program}
use reactor_rs.Examples.Graphs.{small}
use reactor_rs.Examples.Assembly.{small-KeepsEdges}

abbrev Root : Type 0
Root = RootAssembler small ℕ ℕ

abbrev own_id : ℕ → ReactorId
own_id r = r

abbrev Known : Root → ℕ → Type 0
Known root r = Unit

abbrev create : Root → ReactorId → AssemblyResult (ℕ × Root)
create root id = do (tick, root') ← new_logical_action small ℕ ℕ root none; done (id, root')

abbrev declare : {C : Type 0} → C → Root → ℕ → List GlobalReactionId → AssemblyResult (ℕ × C × Root)
declare c root r reactions = done (r, c, root)

declare-IsGenerated :
    {C : Type 0} (Changed : C → Type 0) (world : Root) (c : C)
    → Changed c
    → IsGenerated small ℕ ℕ own_id Known Changed world 1 create (declare c)
declare-IsGenerated Changed world c h = record {
  creates = λ root id sound fits.
      let (a, b, d, e, f) = creators_lem small ℕ ℕ root sound fits input none 0 0 in
      rw b (
        refl,
        tt,
        f action root.ports,
        with_node-Grows small ℕ ℕ root sound fits action root.ports small-KeepsEdges,
        omega arith,
      );
  declares = λ root r reactions later known nodes.
      (refl, tt, h, record { same_rest = refl; connected = Extends-refl small root.graph });
}

-- A reactor that is assembled when its children are.
abbrev itself : {C : Type 0} → C → AssemblyCtx small ℕ ℕ → AssemblyIntermediate small ℕ ℕ C
itself c ctx = assemble_self small ℕ ℕ ctx 2 create 1 (true ∷ true ∷ []) (declare c)

itself-Builds :
    {C : Type 0} (Changed : C → Type 0) (world : Root) (c : C)
    → Changed c
    → Builds small ℕ ℕ own_id Known C Changed world 1 1 2 (itself c)
itself-Builds Changed world c h =
    Builds.itself 1 (true ∷ true ∷ []) create (declare c) (declare-IsGenerated Changed world c h)
      refl (omega arith) (omega arith) refl (λ ctx. refl)

abbrev leaf : ReactorInitializer small ℕ ℕ
leaf = record {
  max_reaction_id = 2;
  assemble_reactor = λ ctx. assemble small ℕ ℕ ctx (itself {C = ℕ} 0);
}

abbrev around : AssemblyCtx small ℕ ℕ → AssemblyIntermediate small ℕ ℕ ℕ
around ctx = with_child small ℕ ℕ own_id ctx leaf (λ ctx' sub. itself {C = ℕ × ℕ} (sub, 0) ctx')

abbrev main : ReactorInitializer small ℕ ℕ
main = record { max_reaction_id = 2; assemble_reactor = λ ctx. assemble small ℕ ℕ ctx around }

abbrev program : Program small ℕ ℕ own_id Known 2 2 main
program = record {
  Changes = ℕ;
  Changed = λ c. Unit;
  build = around;
  builds = λ world.
      Builds.around 1 1 1 1 leaf (λ ctx sub. itself {C = ℕ × ℕ} (sub, 0) ctx) ℕ (λ c. Unit)
        (itself 0) (λ root. itself-Builds (λ (c : ℕ). Unit) root 0 tt) (λ ctx. refl)
        (λ root r later known.
          itself-Builds (λ (q : ℕ × ℕ). (q.0 ≡ r) × Unit) root (r, 0) (refl, tt))
        refl refl (λ ctx. refl);
  runs = λ ctx. refl;
}
