-- ===== src/Graph/Levels.antt =====
-- The levels that `number_reactions_by_level` of src/scheduler/dependencies.rs assigns respect
-- every dependency of the graph.
use reactor_rs.Common.{
  ◌+◌, ◌==◌, ◌≡◌, ◌<◌, ◌≤◌, refl, Bool, true, false, ◌||◌, List, [], ◌∷◌, arith, length, All,
  Bool-cases, inl, inr,
}
use reactor_rs.Ids.{full_mod}
use reactor_rs.Plan.{LevelIx, next_level}
use reactor_rs.Graph.{DiGraph, DepGraph, GraphIx, EdgeWeight}
use reactor_rs.Graph.Numbering.{
  LevelMap, level_of, set_level, max_ix, raise_successors, visit, assign_levels,
}

unfoldable pub mem_ix : GraphIx → List GraphIx → Bool
mem_ix u [] = false
mem_ix u (v ∷ vs) = v == u || mem_ix u vs

unfoldable pub has_target : List (GraphIx × EdgeWeight) → GraphIx → Bool
has_target [] v = false
has_target ((u, w) ∷ edges) v = u == v || has_target edges v

-- No node stands twice, and each stands before the targets of its edges.
abbrev pub IsTopological : (GraphIx → List (GraphIx × EdgeWeight)) → List GraphIx → Type 0
IsTopological out [] = Unit
IsTopological out (u ∷ rest) =
    (mem_ix u rest ≡ false) × All (λ e. mem_ix e.0 rest ≡ true) (out u) × IsTopological out rest

raise_other :
    (levels : LevelMap) (cur : LevelIx) (edges : List (GraphIx × EdgeWeight)) (w : GraphIx)
    → has_target edges w ≡ false
    → level_of (raise_successors levels cur edges) w ≡ level_of levels w
unfolding raise_successors has_target
raise_other levels cur [] w h = refl
raise_other levels cur ((u, x) ∷ edges) w h = ground (
  arith,
  raise_other (set_level levels u (max_ix (next_level cur) (level_of levels u))) cur edges w,
)

raise_mono :
    (levels : LevelMap) (cur : LevelIx) (edges : List (GraphIx × EdgeWeight)) (w : GraphIx)
    → level_of levels w ≤ level_of (raise_successors levels cur edges) w
unfolding raise_successors
raise_mono levels cur [] w = omega arith
raise_mono levels cur ((u, x) ∷ edges) w = ground (
  arith,
  raise_mono (set_level levels u (max_ix (next_level cur) (level_of levels u))) cur edges w,
)

raise_target :
    (levels : LevelMap) (cur : LevelIx) (edges : List (GraphIx × EdgeWeight)) (w : GraphIx)
    → has_target edges w ≡ true
    → next_level cur ≤ level_of (raise_successors levels cur edges) w
unfolding raise_successors has_target
raise_target levels cur [] w h = ground arith
raise_target levels cur ((u, x) ∷ edges) w h =
    let levels' = set_level levels u (max_ix (next_level cur) (level_of levels u)) in
    ground (arith, raise_target levels' cur edges w, raise_mono levels' cur edges w)

raise_bound :
    (levels : LevelMap) (cur n : LevelIx) (edges : List (GraphIx × EdgeWeight))
    → next_level cur ≤ n
    → ((w : GraphIx) → level_of levels w ≤ n)
    → (w : GraphIx) → level_of (raise_successors levels cur edges) w ≤ n
unfolding raise_successors
raise_bound levels cur n [] h b w = b w
raise_bound levels cur n ((u, x) ∷ edges) h b w =
    raise_bound (set_level levels u (max_ix (next_level cur) (level_of levels u))) cur n edges h
      (λ j. ground (arith, b j, b u)) w

pub target_after :
    (edges : List (GraphIx × EdgeWeight)) (rest : List GraphIx) (w : GraphIx)
    → All (λ e. mem_ix e.0 rest ≡ true) edges
    → has_target edges w ≡ true
    → mem_ix w rest ≡ true
unfolding has_target
target_after [] rest w a h = ground arith
target_after ((u, x) ∷ edges) rest w a h = ground (arith, target_after edges rest w a.1)

module _ (P : DiGraph) (g : DepGraph P) where
  abbrev pub out : GraphIx → List (GraphIx × EdgeWeight)
  out u = P.outgoing g.dataflow u

  visit_same :
      (levels : LevelMap) (u w : GraphIx)
      → has_target (out u) w ≡ false
      → level_of (visit P g levels u) w ≡ level_of levels w
  unfolding visit
  visit_same levels u w h =
      ground
        (arith, raise_other (set_level levels u (level_of levels u)) (level_of levels u) (out u) w)

  visit_mono :
      (levels : LevelMap) (u w : GraphIx) → level_of levels w ≤ level_of (visit P g levels u) w
  unfolding visit
  visit_mono levels u w =
      ground
        (arith, raise_mono (set_level levels u (level_of levels u)) (level_of levels u) (out u) w)

  visit_target :
      (levels : LevelMap) (u w : GraphIx)
      → has_target (out u) w ≡ true
      → next_level (level_of levels u) ≤ level_of (visit P g levels u) w
  unfolding visit
  visit_target levels u w h =
      raise_target (set_level levels u (level_of levels u)) (level_of levels u) (out u) w h

  visit_bound :
      (levels : LevelMap) (u : GraphIx) (n : LevelIx)
      → n + 1 < full_mod
      → ((w : GraphIx) → level_of levels w ≤ n)
      → (w : GraphIx) → level_of (visit P g levels u) w ≤ n + 1
  unfolding visit next_level
  visit_bound levels u n fits b w =
      raise_bound (set_level levels u (level_of levels u)) (level_of levels u) (n + 1) (out u)
        (omega (arith, b u)) (λ j. ground (arith, b j, b u)) w

  assign_mono :
      (levels : LevelMap) (order : List GraphIx) (w : GraphIx)
      → level_of levels w ≤ level_of (assign_levels P g levels order) w
  unfolding assign_levels
  assign_mono levels [] w = omega arith
  assign_mono levels (u ∷ order) w =
      omega (arith, visit_mono levels u w, assign_mono (visit P g levels u) order w)

  not_target :
      (u : GraphIx) (rest : List GraphIx) (w : GraphIx)
      → All (λ e. mem_ix e.0 rest ≡ true) (out u)
      → mem_ix w rest ≡ false
      → has_target (out u) w ≡ false
  not_target u rest w a h = ground (arith, target_after (out u) rest w a)

  assign_other :
      (levels : LevelMap) (order : List GraphIx) (w : GraphIx)
      → IsTopological out order
      → mem_ix w order ≡ false
      → level_of (assign_levels P g levels order) w ≡ level_of levels w
  unfolding assign_levels mem_ix
  assign_other levels [] w t h = refl
  assign_other levels (u ∷ order) w t h = ground (
    arith,
    assign_other (visit P g levels u) order w t.2,
    visit_same levels u w,
    not_target u order w t.1,
  )

  pub assign_edge :
      (levels : LevelMap) (order : List GraphIx) (n : LevelIx) (u v : GraphIx)
      → IsTopological out order
      → ((w : GraphIx) → level_of levels w ≤ n)
      → n + length order < full_mod
      → mem_ix u order ≡ true
      → has_target (out u) v ≡ true
      → level_of (assign_levels P g levels order) u < level_of (assign_levels P g levels order) v
  unfolding assign_levels mem_ix next_level
  assign_edge levels [] n u v t b fits m e = ground arith
  assign_edge levels (x ∷ order) n u v t b fits m e = elim (Bool-cases (x == u)) [
    | inl same ↦ ground (
      arith,
      b u,
      visit_target levels u v e,
      visit_same levels u u,
      not_target u order u,
      assign_other (visit P g levels u) order u t.2,
      assign_mono (visit P g levels u) order v,
    )
    | inr other ↦
        assign_edge (visit P g levels x) order (n + 1) u v t.2
          (visit_bound levels x n (omega arith) b) (omega arith) (ground arith) e
  ]
