-- ===== src/Assembly/Contracts.antt =====
-- What the generated code of a reactor keeps to while src/scheduler/assembly_impl.rs assembles it,
-- and what the assembly of a reactor with its descendants then leaves.
use reactor_rs.Common.{
  ℕ, ◌+◌, ◌≤◌, ◌<◌, ◌==◌, ◌≡◌, Bool, true, false, ◌||◌, none, some, List, [], ◌∷◌, All, length,
}
use reactor_rs.Common.Ord.{nat_ord}
use reactor_rs.Ids.{GlobalReactionId, half_mod, full_mod}
use reactor_rs.VecMap.{get}
use reactor_rs.Graph.{DiGraph, GraphIx, reaction, map_get}
use reactor_rs.Graph.Nodes.{Extends}
use reactor_rs.Debug.{ReactorId}
use reactor_rs.Assembly.{AssemblyResult, Ensures, RootAssembler}
use reactor_rs.Assembly.Reactors.{AssemblyCtx, AssemblyIntermediate, ReactorInitializer, ctx_new}
use reactor_rs.Assembly.Sound.{IsSound, IsNumbered, Grows}
use reactor_rs.Assembly.Registration.{registered}

abbrev pub is_child : ReactorId → List ReactorId → Bool
is_child i [] = false
is_child i (c ∷ cs) = c == i || is_child i cs

abbrev pub AreApart : List ReactorId → Type 0
AreApart [] = Unit
AreApart (c ∷ cs) = (is_child c cs ≡ false) × AreApart cs

-- `Known` says that the components of a reactor are nodes of the graph, or whatever else of it the
-- generated code relies on.
module _ (P : DiGraph) (T R : Type 0) (id_of : R → ReactorId)
    (Known : RootAssembler P T R → R → Type 0) where
  -- Declarations add edges and bind ports.
  pub record Connects (root root' : RootAssembler P T R) : Type 0 where
    pub same_rest : root' ≡ record root {
      graph = record root.graph { dataflow = root'.graph.dataflow };
      ports = root'.ports;
    }
    pub connected : Extends P root.graph root'.graph

  -- The two functions of a reactor: `create_self` makes `c` components at most and the reactor with
  -- the id it is given, and `declare_dependencies` keeps the ids of the reactors that it changes.
  pub record IsGenerated {C : Type 0} (Changed : C → Type 0) (world : RootAssembler P T R) (c : ℕ)
      (create_self : RootAssembler P T R → ReactorId → AssemblyResult (R × RootAssembler P T R))
      (declare_dependencies : RootAssembler P T R
        → R
        → List GlobalReactionId
        → AssemblyResult (R × C × RootAssembler P T R))
      : Type 0 where
    pub creates :
        (root : RootAssembler P T R) (id : ReactorId)
        → IsSound P T R root
        → root.cur_trigger + c < full_mod
        → Ensures
            (λ p.
              (id_of p.0 ≡ id)
              × Known p.1 p.0
              × IsSound P T R p.1
              × Grows P T R root p.1
              × (p.1.cur_trigger ≤ root.cur_trigger + c))
            (create_self root id)
    pub declares :
        (root : RootAssembler P T R) (r : R) (reactions : List GlobalReactionId)
        → Extends P world.graph root.graph
        → Known root r
        → All
            (λ id. (ix : GraphIx) × (map_get root.graph.ix_by_id (reaction id) ≡ some ix))
            reactions
        → Ensures
            (λ p. (id_of p.0 ≡ id_of r) × Known p.2 p.0 × Changed p.1 × Connects root p.2)
            (declare_dependencies root r reactions)

  -- The state between reactors: no place is taken for an id that is left.
  pub record IsReady (root : RootAssembler P T R) : Type 0 where
    pub sound : IsSound P T R root
    pub numbers : IsNumbered P T R root.reactor_id root
    pub short : length root.reactors ≤ root.reactor_id
    pub vacant : (i : ReactorId) → root.reactor_id ≤ i → registered root.reactors i ≡ none

  -- `n` reactors and at most `c` components more, all reactors of them registered at their ids but
  -- the last, which is the result. A child that waits for its parent may get it; nothing else
  -- changes for the reactors before.
  pub record Assembled (n c : ℕ) (children : List ReactorId) (root root' : RootAssembler P T R)
      (r : R) : Type 0 where
    pub ready : IsReady root'
    pub count : root'.reactor_id ≡ root.reactor_id + n
    pub ids : root'.cur_trigger ≤ root.cur_trigger + c
    pub last : root'.reactor_id ≡ id_of r + 1
    pub more : root.reactor_id ≤ id_of r
    pub open_place : registered root'.reactors (id_of r) ≡ none
    pub placed :
        (i : ReactorId)
        → root.reactor_id ≤ i
        → i < id_of r
        → (x : R) × (registered root'.reactors i ≡ some x) × (id_of x ≡ i)
    pub kept :
        (i : ReactorId)
        → i < root.reactor_id
        → registered root'.reactors i ≡ registered root.reactors i
    pub loose : get root'.debug_info.reactor_container (id_of r) ≡ none
    pub containers_kept :
        (i : ReactorId)
        → i < root.reactor_id
        → is_child i children ≡ false
        → get root'.debug_info.reactor_container i ≡ get root.debug_info.reactor_container i
    pub adopted :
        (i : ReactorId)
        → is_child i children ≡ true
        → get root'.debug_info.reactor_container i ≡ some (id_of r)
    pub contained :
        (i : ReactorId)
        → root.reactor_id ≤ i
        → i < id_of r
        → (p : ReactorId) × (get root'.debug_info.reactor_container i ≡ some p)
          × (i < p)
          × (p ≤ id_of r)
    pub extends : Extends P root.graph root'.graph
    pub main_kept : root'.debug_info.main_reactor ≡ root.debug_info.main_reactor
    pub known : Known root' r

  -- Children that wait for their parent.
  pub record AreWaiting (root : RootAssembler P T R) (children : List ReactorId) : Type 0 where
    pub loose_children :
        All (λ c. (c < root.reactor_id) × (get root.debug_info.reactor_container c ≡ none)) children
    pub apart : AreApart children

  -- Code that assembles a reactor with `n - 1` descendants and `c` components, in a world that it
  -- may rely on.
  abbrev pub IsBuilder :
      {C : Type 0}
      → (Changed : C → Type 0) → (world : RootAssembler P T R) → (n c max_reaction_id : ℕ)
      → (AssemblyCtx P T R → AssemblyIntermediate P T R C)
      → Type 0
  IsBuilder Changed world n c max_reaction_id build =
      (ctx : AssemblyCtx P T R)
      → Extends P world.graph ctx.globals.graph
      → IsReady ctx.globals
      → ctx.debug ≡ true
      → ctx.cur_local ≡ max_reaction_id
      → AreWaiting ctx.globals ctx.children_ids
      → ctx.globals.reactor_id + n < half_mod
      → ctx.globals.cur_trigger + c < full_mod
      → Ensures (λ p. Assembled n c ctx.children_ids ctx.globals p.0.globals p.1 × Changed p.2)
          (build ctx)

  abbrev pub IsInitializer : (n c : ℕ) → ReactorInitializer P T R → Type 0
  IsInitializer n c init =
      (root : RootAssembler P T R)
      → IsReady root
      → root.reactor_id + n < half_mod
      → root.cur_trigger + c < full_mod
      → Ensures (λ p. Assembled n c [] root p.0 p.1)
          (init.assemble_reactor (ctx_new P T R root init.max_reaction_id))
