-- ===== src/Assembly/Reactors.antt =====
-- `AssemblyCtx` of src/scheduler/assembly_impl.rs: how a reactor is assembled after its children.
-- The code that is generated for a reactor, `ReactorInitializer::assemble` of src/assembly.rs and
-- the functions that it passes on, is a parameter. Names are left out.
use reactor_rs.Common.{
  ℕ, zero, suc, ◌+◌, ◌==◌, ◌&&◌, Bool, true, false, Option, none, some, List, [], ◌∷◌, ◌++◌,
  if◌then◌else◌, length, leb, ltb,
}
use reactor_rs.Ids.{GlobalReactionId, LocalReactionId, half_mod}
use reactor_rs.Graph.{DiGraph, DepGraph, reaction_priority}
use reactor_rs.Debug.{
  ReactorId, DebugInfoRegistry, record_reactor, record_reactor_container, record_main_reactor,
  set_id_range,
}
use reactor_rs.Assembly.{
  AssemblyResult, done, panicked, ◌>>=◌, or_panic, or_panic_any, RootAssembler, root_default,
  register_reactor, register_bank, expect_all,
}
use reactor_rs.Graph
use reactor_rs.Debug

-- `plus` and `get_and_incr` of an id of 16 bits, with the overflow checks of a debug build.
unfoldable pub id_plus : LocalReactionId → ℕ → Option LocalReactionId
id_plus id u = if ltb (id + u) half_mod then some (id + u) else none

unfoldable pub reactor_get_and_incr : ReactorId → Option (ReactorId × ReactorId)
reactor_get_and_incr id = if ltb (id + 1) half_mod then some (id, id + 1) else none

unfoldable pub record_containers :
    DebugInfoRegistry → ReactorId → List ReactorId → Option DebugInfoRegistry
record_containers reg id [] = some reg
record_containers reg id (child ∷ children) = elim (record_reactor_container reg id child) [
  | some reg' ↦ record_containers reg' id children
  | none ↦ none
]

-- A reaction whose name is given has a label.
abbrev pub record_label : DebugInfoRegistry → GlobalReactionId → Bool → Option DebugInfoRegistry
record_label reg r true = Debug.record_reaction reg r
record_label reg r false = some reg

abbrev pub record_priority :
    (P : DiGraph)
    → DepGraph P
    → Bool
    → Option GlobalReactionId
    → GlobalReactionId
    → Option (DepGraph P)
record_priority P g true (some prev) r = reaction_priority P g prev r
record_priority P g _ _ r = some g

module _ (P : DiGraph) (T R : Type 0) where
  -- `debug` says whether the debug info is still to be recorded.
  pub record AssemblyCtx : Type 0 where
    pub globals : RootAssembler P T R
    pub cur_local : LocalReactionId
    pub debug : Bool
    pub children_ids : List ReactorId

  -- A closure of the generated code may also change reactors around it, which it returns in `C`.
  abbrev pub AssemblyIntermediate : Type 0 → Type 0
  AssemblyIntermediate C = AssemblyResult (AssemblyCtx × R × C)

  abbrev pub FinishedReactor : Type 0
  FinishedReactor = RootAssembler P T R × R

  -- The generated part of a reactor.
  pub record ReactorInitializer : Type 0 where
    pub max_reaction_id : LocalReactionId
    pub assemble_reactor : AssemblyCtx → AssemblyResult FinishedReactor

  unfoldable pub ctx_new : RootAssembler P T R → LocalReactionId → AssemblyCtx
  ctx_new globals max_reaction_id = record {
    globals = globals;
    cur_local = max_reaction_id;
    debug = true;
    children_ids = [];
  }

  unfoldable pub assemble :
      {C : Type 0}
      → AssemblyCtx
      → (AssemblyCtx → AssemblyIntermediate C)
      → AssemblyResult FinishedReactor
  assemble ctx build_reactor_tree = do
    (ctx', reactor, _) ← build_reactor_tree ctx
    done (ctx'.globals, reactor)

  -- The loop of `new_reactions` from reaction `i` on; `names` says which reactions have a name.
  unfoldable pub declare_reactions :
      RootAssembler P T R
      → (my_id : ReactorId) → (num_non_synthetic i : ℕ) → (prev : Option GlobalReactionId)
      → (names : List Bool) → AssemblyResult (List GlobalReactionId × RootAssembler P T R)
  declare_reactions root my_id num_non_synthetic i prev [] = done ([], root)
  declare_reactions root my_id num_non_synthetic i prev (named ∷ names) = do
    let r : GlobalReactionId = record { container = my_id; local = i }
    debug_info ← or_panic (record_label root.debug_info r named)
    graph ← or_panic (Graph.record_reaction P root.graph r)
    graph' ← or_panic (record_priority P graph (ltb i num_non_synthetic) prev r)
    let root' = record root { graph = graph'; debug_info = debug_info }
    (result, root'') ← declare_reactions root' my_id num_non_synthetic (i + 1) (some r) names
    done (r ∷ result, root'')

  unfoldable pub new_reactions :
      AssemblyCtx
      → (my_id : ReactorId) → (num_non_synthetic : ℕ) → (names : List Bool)
      → AssemblyResult (List GlobalReactionId × AssemblyCtx)
  new_reactions ctx my_id num_non_synthetic names =
      if leb num_non_synthetic (length names)
      then (do
        (result, globals) ← declare_reactions ctx.globals my_id num_non_synthetic 0 none names
        cur_local ← or_panic (id_plus ctx.cur_local (length names))
        done (result, record ctx { globals = globals; cur_local = cur_local }))
      else panicked

  -- `create_self` is given the id of the reactor, and the declarations the ids of its reactions. A
  -- second call, after which the debug info is gone, is a panic.
  unfoldable pub assemble_self :
      {C : Type 0}
      → AssemblyCtx
      → (max_reaction_id : LocalReactionId)
      → (create_self : RootAssembler P T R → ReactorId → AssemblyResult (R × RootAssembler P T R))
      → (num_non_synthetic : ℕ) → (names : List Bool)
      → (declare_dependencies : RootAssembler P T R
          → R
          → List GlobalReactionId
          → AssemblyResult (R × C × RootAssembler P T R))
      → AssemblyIntermediate C
  assemble_self ctx max_reaction_id create_self num_non_synthetic names declare_dependencies =
      if (length names == max_reaction_id) && ctx.debug
      then (do
        (id, reactor_id) ← or_panic (reactor_get_and_incr ctx.globals.reactor_id)
        recorded ← or_panic (record_reactor ctx.globals.debug_info id)
        contained ← or_panic (record_containers recorded id ctx.children_ids)
        let first_trigger_id = ctx.globals.cur_trigger
        (ich, root) ←
            create_self (record ctx.globals { reactor_id = reactor_id; debug_info = contained }) id
        ranged ← or_panic (set_id_range root.debug_info id first_trigger_id root.cur_trigger)
        let ctx' = record ctx {
          globals = record root { debug_info = ranged };
          debug = false;
          children_ids = [];
        }
        (reactions, ctx'') ← new_reactions ctx' id num_non_synthetic names
        (ich', changed, root') ← declare_dependencies ctx''.globals ich reactions
        done (record ctx'' { globals = root' }, ich', changed))
      else panicked

  module _ (id_of : R → ReactorId) where
    -- The context goes on with the child in its list.
    unfoldable pub assemble_sub :
        AssemblyCtx → ReactorInitializer → AssemblyResult (R × AssemblyCtx)
    unfolding ctx_new
    assemble_sub ctx sub =
        if ctx.debug
        then (do
          (globals, subinst) ← sub.assemble_reactor (ctx_new ctx.globals sub.max_reaction_id)
          done (
            subinst,
            record ctx {
              globals = globals;
              children_ids = ctx.children_ids ++ (id_of subinst ∷ []);
            },
          ))
        else panicked

    -- `action` changes the child, whose ports it binds; the child is registered after it.
    unfoldable pub with_child :
        {C : Type 0}
        → AssemblyCtx
        → ReactorInitializer
        → (action : AssemblyCtx → R → AssemblyIntermediate (R × C)) → AssemblyIntermediate C
    with_child ctx sub action = do
      (subinst, ctx') ← assemble_sub ctx sub
      (ich, s, (subinst', changed)) ← action ctx' subinst
      globals ← register_reactor P T R id_of ich.globals subinst'
      done (record ich { globals = globals }, s, changed)

    -- The items of a bank from index `i` on, `width` of them.
    unfoldable pub assemble_bank :
        AssemblyCtx
        → (arg_maker : ℕ → ReactorInitializer) → (i width : ℕ)
        → AssemblyResult (List R × AssemblyCtx)
    assemble_bank ctx arg_maker i zero = done ([], ctx)
    assemble_bank ctx arg_maker i (suc width) = do
      (subinst, ctx') ← assemble_sub ctx (arg_maker i)
      (bank, ctx'') ← assemble_bank ctx' arg_maker (i + 1) width
      done (subinst ∷ bank, ctx'')

    unfoldable pub with_child_bank :
        {C : Type 0}
        → AssemblyCtx
        → (bank_width : ℕ) → (arg_maker : ℕ → ReactorInitializer)
        → (action : AssemblyCtx → List R → AssemblyIntermediate (List R × C))
        → AssemblyIntermediate C
    with_child_bank ctx bank_width arg_maker action = do
      (bank, ctx') ← assemble_bank ctx arg_maker 0 bank_width
      (ich, r, (bank', changed)) ← action ctx' bank
      globals ← register_bank P T R id_of ich.globals bank'
      done (record ich { globals = globals }, r, changed)

    -- An error of the assembly is a panic here.
    unfoldable pub assemble_tree :
        ReactorInitializer → AssemblyResult (List R × DepGraph P × DebugInfoRegistry)
    unfolding root_default ctx_new
    assemble_tree main = do
      (root, main_reactor) ←
          or_panic_any (main.assemble_reactor (ctx_new (root_default P T R) main.max_reaction_id))
      debug_info ← or_panic (record_main_reactor root.debug_info (id_of main_reactor))
      root' ← register_reactor P T R id_of (record root { debug_info = debug_info }) main_reactor
      reactors ← or_panic (expect_all root'.reactors)
      done (reactors, root'.graph, root'.debug_info)
