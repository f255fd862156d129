-- ===== src/Assembly/Priorities.antt =====
-- The loop of `new_reactions` of src/scheduler/assembly_impl.rs, and the priorities of reactions.
use reactor_rs.Common.{
  All, ℕ, zero, suc, ◌+◌, ◌≤◌, ◌<◌, ◌==◌, ◌≡◌, refl, ap, subst, ◌∙◌, Bool, none, some, Option, List,
  [], ◌∷◌, length, arith, Bool-cases, inl, inr,
}
use reactor_rs.Ids.{GlobalReactionId, half_mod}
use reactor_rs.Graph.{DiGraph, DepGraph, GraphIx, reaction, map_get}
use reactor_rs.Graph.Nodes.{
  KeepsEdges, Extends-refl, Extends-trans, HasPriority, HasPriority-Extends,
}
use reactor_rs.Debug.{ReactorId}
use reactor_rs.Assembly.{done, RootAssembler}
use reactor_rs.Assembly.Reactors.{AssemblyCtx, declare_reactions, new_reactions, id_plus}
use reactor_rs.Assembly.Reactions.{
  reaction_id, reaction_ids, IsVacant, Declares, IsKnown, declared, here, here_lem, round,
  record_label_new, record_node_lem, declared-IsVacant, declared-Declares,
}

module _ (P : DiGraph) (T R : Type 0) where
  -- The reactions are nodes of the graph.
  abbrev pub AreNodes : DepGraph P → List GlobalReactionId → Type 0
  AreNodes g reactions =
      All (λ id. (ix : GraphIx) × (map_get g.ix_by_id (reaction id) ≡ some ix)) reactions

  -- Each of the reactions has priority over the next.
  abbrev pub HavePriorities : DepGraph P → List GlobalReactionId → Type 0
  HavePriorities g [] = Unit
  HavePriorities g (r ∷ []) = Unit
  HavePriorities g (r ∷ next ∷ reactions) =
      HasPriority P g r next × HavePriorities g (next ∷ reactions)

  priorities_lem :
      (g : DepGraph P) (my_id : ReactorId) (i n : ℕ)
      → ((j : ℕ)
          → i ≤ j
          → j + 1 < i + n
          → HasPriority P g (reaction_id my_id j) (reaction_id my_id (j + 1)))
      → HavePriorities g (reaction_ids my_id i n)
  priorities_lem g my_id i zero h = tt
  priorities_lem g my_id i (suc zero) h = tt
  priorities_lem g my_id i (suc (suc n)) h = (
    h i (omega arith) (omega arith),
    priorities_lem g my_id (i + 1) (suc n) (λ j l k. h j (omega arith) (omega arith)),
  )

  Declares-refl : (my_id : ReactorId) (root : RootAssembler P T R) → Declares P T R my_id root root
  Declares-refl my_id root = record {
    same_rest = refl;
    same_triggers = λ id. refl;
    same_nodes = λ r h k. refl;
    same_labels = λ r h k. refl;
    extends = Extends-refl P root.graph;
  }

  Declares-trans :
      (my_id : ReactorId) (a b c : RootAssembler P T R)
      → Declares P T R my_id a b
      → Declares P T R my_id b c
      → Declares P T R my_id a c
  Declares-trans my_id a b c d e = record {
    same_rest =
        e.same_rest
        ∙ ap
            (λ (x : RootAssembler P T R). record x {
              graph = record x.graph { dataflow = c.graph.dataflow; ix_by_id = c.graph.ix_by_id };
              debug_info = record x.debug_info { reaction_labels = c.debug_info.reaction_labels };
            })
            d.same_rest;
    same_triggers = λ id. e.same_triggers id ∙ d.same_triggers id;
    same_nodes = λ r h k. e.same_nodes r h k ∙ d.same_nodes r h k;
    same_labels = λ r h k. e.same_labels r h k ∙ d.same_labels r h k;
    extends = Extends-trans P a.graph b.graph c.graph d.extends e.extends;
  }

  module _ (laws : KeepsEdges P) (my_id : ReactorId) (k : ℕ) (small_id : my_id < half_mod) where
    -- What the loop leaves from reaction `i` on, `n` of them.
    record Declared (i n : ℕ) (prev : Option GlobalReactionId) (names : List Bool)
        (root root' : RootAssembler P T R) : Type 0 where
      result :
          declare_reactions P T R root my_id k i prev names ≡ done (reaction_ids my_id i n, root')
      declares : Declares P T R my_id root root'
      nodes : AreNodes root'.graph (reaction_ids my_id i n)
      first :
          (p : GlobalReactionId)
          → prev ≡ some p
          → i < k
          → 0 < n
          → HasPriority P root'.graph p (reaction_id my_id i)
      others :
          (j : ℕ)
          → i ≤ j
          → j + 1 < k
          → j + 1 < i + n
          → HasPriority P root'.graph (reaction_id my_id j) (reaction_id my_id (j + 1))

    declare_reactions_lem :
        (root : RootAssembler P T R) (i : ℕ) (prev : Option GlobalReactionId) (names : List Bool)
        → IsVacant P T R my_id i root
        → IsKnown P T R root.graph prev
        → i + length names ≤ half_mod
        → (root' : RootAssembler P T R) × Declared i (length names) prev names root root'
    unfolding declare_reactions
    declare_reactions_lem root i prev [] vacant known fits = (
      root,
      record {
        result = refl;
        declares = Declares-refl my_id root;
        nodes = tt;
        first = λ p h l n. absurd (omega arith);
        others = λ j h l n. absurd (omega arith);
      },
    )
    declare_reactions_lem root i prev (named ∷ names) vacant known fits =
        let small : i < half_mod = omega arith in
        let (dataflow, now) =
          round P T R laws root my_id k i named vacant small_id small prev known in
        let after = declared P T R laws root my_id k i named vacant small_id small dataflow in
        let step =
          declared-Declares P T R laws root my_id k i named vacant small_id small dataflow
            now.extends in
        let node = here_lem P T R laws root my_id k i named vacant small_id small in
        let (root', rest) =
          declare_reactions_lem after (i + 1) (some (reaction_id my_id i)) names
            (declared-IsVacant P T R laws root my_id k i named vacant small_id small dataflow)
            (here P T R laws root my_id k i named vacant small_id small, node) (omega arith) in
        (
          root',
          record {
            result = ground (
              arith,
              record_label_new P T R laws root my_id k i named vacant small_id small,
              record_node_lem P T R laws root my_id k i named vacant small_id small,
              now.result,
              rest.result,
            );
            declares = Declares-trans my_id root after root' step rest.declares;
            nodes = (
              (_, rest.declares.extends.nodes (reaction (reaction_id my_id i)) _ node),
              rest.nodes,
            );
            first = λ p h l n.
                HasPriority-Extends P after.graph root'.graph p (reaction_id my_id i)
                  rest.declares.extends (now.priority p h l);
            others = λ j h l n. elim (Bool-cases (i == j)) [
              | inl same ↦
                  let is_here : i ≡ j = ground (arith, same) in
                  subst
                    (λ m.
                      HasPriority P root'.graph (reaction_id my_id m) (reaction_id my_id (m + 1)))
                    is_here (rest.first (reaction_id my_id i) refl (omega arith) (omega arith))
              | inr other ↦ rest.others j (ground (arith, other)) l (omega arith)
            ];
          },
        )

    -- `new_reactions` runs the loop, if the local id does not overflow.
    module _ (ctx : AssemblyCtx P T R) (names : List Bool)
        (vacant : IsVacant P T R my_id 0 ctx.globals) (enough : k ≤ length names)
        (fits : ctx.cur_local + length names < half_mod) where
      pub new_reactions_lem :
          (root' : RootAssembler P T R) × (new_reactions P T R ctx my_id k names
            ≡ done (
              reaction_ids my_id 0 (length names),
              record ctx { globals = root'; cur_local = ctx.cur_local + length names },
            ))
          × Declares P T R my_id ctx.globals root'
          × AreNodes root'.graph (reaction_ids my_id 0 (length names))
          × ((j : ℕ)
              → j + 1 < k
              → HasPriority P root'.graph (reaction_id my_id j) (reaction_id my_id (j + 1)))
      unfolding new_reactions id_plus
      new_reactions_lem =
          let (root', loop) =
            declare_reactions_lem ctx.globals 0 none names vacant tt (omega arith) in
          (
            root',
            ground (arith, loop.result, enough, fits),
            loop.declares,
            loop.nodes,
            λ j h. loop.others j (omega arith) h (omega arith),
          )

      -- The reactions of a reactor get its id and the numbers from zero on, in order. Each is a
      -- node of the graph then, the synthetic ones included, and an edge leads from each reaction
      -- that is not synthetic to the next one that is not; other nodes and edges stay. The
      -- reactions are new, and the local ids do not overflow.
      pub new_reactions-HasPriority :
          (root' : RootAssembler P T R) × (new_reactions P T R ctx my_id k names
            ≡ done (
              reaction_ids my_id 0 (length names),
              record ctx { globals = root'; cur_local = ctx.cur_local + length names },
            ))
          × Declares P T R my_id ctx.globals root'
          × AreNodes root'.graph (reaction_ids my_id 0 (length names))
          × HavePriorities root'.graph (reaction_ids my_id 0 k)
      new_reactions-HasPriority =
          let (root', result, declares, nodes, ordered) = new_reactions_lem in
          (
            root',
            result,
            declares,
            nodes,
            priorities_lem root'.graph my_id 0 k (λ j l h. ordered j (omega arith)),
          )
