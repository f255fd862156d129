-- ===== src/Graph/Plans/Collected.antt =====
-- Which reactions the plan of a trigger of src/scheduler/dependencies.rs holds.
use reactor_rs.Common.{
  ℕ, zero, suc, ◌<◌, ◌≡◌, ◌⊎◌, ◌↔◌, inl, inr, refl, subst, sym, Bool, true, Option, some, List, [],
  ◌∷◌, All, arith,
}
use reactor_rs.Ids.{GlobalReactionId}
use reactor_rs.Plan.{LevelIx, ExecutableReactions}
use reactor_rs.Plan.Has.{has, IsPlan}
use reactor_rs.Graph.{
  DiGraph, GraphIx, GraphNode, port, reaction_node, EdgeWeight, default, use_edge, reaction,
}
use reactor_rs.Graph.Numbering.{ReactionLevels}
use reactor_rs.Graph.Plans.{collect_reaction, collect_edges, collect_reactions_rec}
use reactor_rs.Graph.Plans.Paths.{Triggers, port_inv, reaction_inv}
use reactor_rs.Graph.Plans.Additions.{Adds, Adds-both, Adds-same, Itself, augment_lem}

module _ (P : DiGraph) (g : P.Graph) (levels : ReactionLevels) where
  -- The reaction is reached over one of the edges, and this is its level.
  abbrev pub Reached : List (GraphIx × EdgeWeight) → LevelIx → GlobalReactionId → Type 0
  Reached edges l q = (n : GlobalReactionId) × Triggers P g edges n × Itself levels n l q

  -- The target of an edge is a port, of which something holds, or a reaction with a level.
  abbrev pub IsTarget : (GraphIx → Type 0) → GraphIx × EdgeWeight → Type 0
  IsTarget Q (v, w) =
      (node : GraphNode) × (P.node_weight g v ≡ some node)
      × (((node.kind ≡ port) × Q v)
          ⊎ ((node.kind ≡ reaction_node)
              × (n : GlobalReactionId) × (node.id ≡ reaction n)
              × (k : LevelIx) × (levels n ≡ some k)))

  no_edge : (n : GlobalReactionId) → Triggers P g [] n → ⊥
  no_edge n t = elim t [ ]

  no_edge_reaches :
      (l : LevelIx) (q : GlobalReactionId) (b : Bool) → (b ≡ true) ↔ ((b ≡ true) ⊎ Reached [] l q)
  no_edge_reaches l q b = (λ h. inl h, back)
    where
      back : (b ≡ true) ⊎ Reached [] l q → b ≡ true
      back (inl h) = h
      back (inr (n, t, _)) = absurd (no_edge n t)

  port_reaches :
      (v : GraphIx) (w : EdgeWeight) (node : GraphNode) (edges : List (GraphIx × EdgeWeight))
      (l : LevelIx) (q : GlobalReactionId)
      → P.node_weight g v ≡ some node
      → node.kind ≡ port
      → Reached ((v, w) ∷ edges) l q ↔ (Reached (P.outgoing g v) l q ⊎ Reached edges l q)
  port_reaches v w node edges l q at kind = (forth, back)
    where
      forth : Reached ((v, w) ∷ edges) l q → Reached (P.outgoing g v) l q ⊎ Reached edges l q
      forth (n, t, i) = elim (port_inv P g v w node edges n at kind t) [
        | inl far ↦ inl (n, far, i)
        | inr rest ↦ inr (n, rest, i)
      ]

      back : Reached (P.outgoing g v) l q ⊎ Reached edges l q → Reached ((v, w) ∷ edges) l q
      back (inl (n, far, i)) = (n, Triggers.through at kind far, i)
      back (inr (n, rest, i)) = (n, Triggers.skip rest, i)

  reaction_reaches :
      (v : GraphIx) (node : GraphNode) (edges : List (GraphIx × EdgeWeight)) (m : GlobalReactionId)
      (l : LevelIx) (q : GlobalReactionId)
      → P.node_weight g v ≡ some node
      → node.kind ≡ reaction_node
      → node.id ≡ reaction m
      → Reached ((v, default) ∷ edges) l q ↔ (Itself levels m l q ⊎ Reached edges l q)
  reaction_reaches v node edges m l q at kind id = (forth, back)
    where
      forth : Reached ((v, default) ∷ edges) l q → Itself levels m l q ⊎ Reached edges l q
      forth (n, t, i) = elim (reaction_inv P g v default node edges m n at kind id t) [
        | inl (_, same) ↦ inl (subst (λ x. Itself levels x l q) (sym same) i)
        | inr rest ↦ inr (n, rest, i)
      ]

      back : Itself levels m l q ⊎ Reached edges l q → Reached ((v, default) ∷ edges) l q
      back (inl i) = (m, Triggers.direct at kind id, i)
      back (inr (n, rest, i)) = (n, Triggers.skip rest, i)

  use_reaches :
      (v : GraphIx) (node : GraphNode) (edges : List (GraphIx × EdgeWeight)) (m : GlobalReactionId)
      (l : LevelIx) (q : GlobalReactionId)
      → P.node_weight g v ≡ some node
      → node.kind ≡ reaction_node
      → node.id ≡ reaction m
      → Reached ((v, use_edge) ∷ edges) l q ↔ Reached edges l q
  use_reaches v node edges m l q at kind id = (forth, λ (n, rest, i). (n, Triggers.skip rest, i))
    where
      forth : Reached ((v, use_edge) ∷ edges) l q → Reached edges l q
      forth (n, t, i) = elim (reaction_inv P g v use_edge node edges m n at kind id t) [
        | inl (used, _) ↦ absurd (ground (arith, used))
        | inr rest ↦ (n, rest, i)
      ]

  -- What collecting from a port does.
  abbrev Collects : (GraphIx → ExecutableReactions → Option ExecutableReactions) → GraphIx → Type 0
  Collects rec v =
      (plan : ExecutableReactions)
      → IsPlan plan
      → (result : ExecutableReactions) × (rec v plan ≡ some result)
        × Adds plan result (Reached (P.outgoing g v))

  collect_edges_lem :
      (rec : GraphIx → ExecutableReactions → Option ExecutableReactions)
      (edges : List (GraphIx × EdgeWeight)) (plan : ExecutableReactions)
      → All (λ e. IsTarget (λ v. Collects rec v) e) edges
      → IsPlan plan
      → (result : ExecutableReactions) × (collect_edges P g levels rec edges plan ≡ some result)
        × Adds plan result (Reached edges)
  unfolding collect_edges collect_reaction
  collect_edges_lem rec [] plan a p = (plan, refl, (p, λ l q. no_edge_reaches l q (has plan l q)))
  collect_edges_lem rec ((v, w) ∷ edges) plan ((node, at, inl (kind, collects)), a) p =
      let (mid, collected, adds) = collects plan p in
      let (result, rest, adds') = collect_edges_lem rec edges mid a adds.0 in
      (
        result,
        ground (arith, at, kind, collected, rest),
        Adds-both plan mid result (Reached (P.outgoing g v)) (Reached edges)
            (Reached ((v, w) ∷ edges)) adds adds' (λ l q. port_reaches v w node edges l q at kind),
      )
  collect_edges_lem rec ((v, default) ∷ edges) plan ((node, at, inr (kind, n, id, k, known)), a) p =
      let (mid, augmented, adds) = augment_lem levels plan n k known p in
      let (result, rest, adds') = collect_edges_lem rec edges mid a adds.0 in
      (
        result,
        ground (arith, at, kind, id, augmented, rest),
        Adds-both plan mid result (Itself levels n) (Reached edges) (Reached ((v, default) ∷ edges))
            adds adds' (λ l q. reaction_reaches v node edges n l q at kind id),
      )
  collect_edges_lem rec ((v, use_edge) ∷ edges) plan ((node, at, inr (kind, n, id, k, known)), a)
        p =
      let (result, rest, adds) = collect_edges_lem rec edges plan a p in
      (
        result,
        ground (arith, at, kind, id, rest),
        Adds-same plan result (Reached edges) (Reached ((v, use_edge) ∷ edges)) adds
            (λ l q. use_reaches v node edges n l q at kind id),
      )

  IsTarget-map :
      (Q R : GraphIx → Type 0) (edges : List (GraphIx × EdgeWeight))
      → ((v : GraphIx) → Q v → R v)
      → All (λ e. IsTarget Q e) edges
      → All (λ e. IsTarget R e) edges
  IsTarget-map Q R [] f a = tt
  IsTarget-map Q R ((v, w) ∷ edges) f ((node, at, inl (kind, x)), a) =
      ((node, at, inl (kind, f v x)), IsTarget-map Q R edges f a)
  IsTarget-map Q R ((v, w) ∷ edges) f ((node, at, inr x), a) =
      ((node, at, inr x), IsTarget-map Q R edges f a)

  abbrev pub IsPort : GraphIx → Type 0
  IsPort v = (node : GraphNode) × (P.node_weight g v ≡ some node) × (node.kind ≡ port)

  Collects-deep :
      (rank : GraphIx → ℕ)
      → ((v : GraphIx)
          → IsPort v
          → All (λ e. IsTarget (λ t. IsPort t × (rank t < rank v)) e) (P.outgoing g v))
      → (fuel : ℕ) (v : GraphIx) → IsPort v
      → rank v < fuel
      → Collects (λ ix p. collect_reactions_rec P g levels fuel ix p) v
  unfolding collect_reactions_rec
  Collects-deep rank good zero v is below = absurd (omega arith)
  Collects-deep rank good (suc fuel) v is below = λ plan p.
      collect_edges_lem (λ ix p'. collect_reactions_rec P g levels fuel ix p') (P.outgoing g v) plan
        (IsTarget-map (λ t. IsPort t × (rank t < rank v)) _ (P.outgoing g v)
          (λ t x. Collects-deep rank good fuel t x.0 (omega (arith, x.1, below))) (good v is))
        p

  -- If ports are bound without a cycle, so that a rank goes down along bindings, and the edges of a
  -- port lead to ports and to reactions with levels, then collecting from a node whose edges do so
  -- too, with more fuel than any rank there, does not panic. It keeps the plan well formed and adds
  -- to it, at their levels, exactly the reactions that a path through ports reaches whose last edge
  -- triggers.
  pub collect_reactions_rec_lem :
      (rank : GraphIx → ℕ) (fuel : ℕ) (u : GraphIx) (plan : ExecutableReactions)
      → ((v : GraphIx)
          → IsPort v
          → All (λ e. IsTarget (λ t. IsPort t × (rank t < rank v)) e) (P.outgoing g v))
      → All (λ e. IsTarget (λ t. IsPort t × (rank t < fuel)) e) (P.outgoing g u)
      → IsPlan plan
      → (result : ExecutableReactions) × (collect_reactions_rec P g levels (suc fuel) u plan
          ≡ some result)
        × IsPlan result
        × ((l : LevelIx) (q : GlobalReactionId)
            → (has result l q ≡ true) ↔ ((has plan l q ≡ true) ⊎ Reached (P.outgoing g u) l q))
  unfolding collect_reactions_rec
  collect_reactions_rec_lem rank fuel u plan good ready p =
      let (result, collected, (kept, same)) =
        collect_edges_lem (λ ix p'. collect_reactions_rec P g levels fuel ix p') (P.outgoing g u)
          plan
          (IsTarget-map (λ t. IsPort t × (rank t < fuel)) _ (P.outgoing g u)
            (λ v x. Collects-deep rank good fuel v x.0 x.1) ready)
          p in
      (result, collected, kept, same)
