-- ===== src/Graph/Plans/Paths.antt =====
-- Paths through ports, over which `collect_reactions_rec` of src/scheduler/dependencies.rs goes.
use reactor_rs.Common.{◌≡◌, ◌⊎◌, inl, inr, refl, sym, ap, ◌∙◌, some, List, ◌∷◌, arith}
use reactor_rs.Ids.{GlobalReactionId}
use reactor_rs.Graph.{
  DiGraph, GraphIx, GraphNode, port, reaction_node, EdgeWeight, default, reaction,
}

module _ (P : DiGraph) (g : P.Graph) where
  -- A path through ports leads from one of the edges to the reaction, and its last edge triggers.
  pub data Triggers : List (GraphIx × EdgeWeight) → GlobalReactionId → Type 0 where
    direct :
        {v : GraphIx} {edges : List (GraphIx × EdgeWeight)} {node : GraphNode}
        {n : GlobalReactionId}
        → P.node_weight g v ≡ some node
        → node.kind ≡ reaction_node
        → node.id ≡ reaction n
        → Triggers ((v, default) ∷ edges) n
    through :
        {v : GraphIx} {w : EdgeWeight} {edges : List (GraphIx × EdgeWeight)} {node : GraphNode}
        {n : GlobalReactionId}
        → P.node_weight g v ≡ some node
        → node.kind ≡ port
        → Triggers (P.outgoing g v) n
        → Triggers ((v, w) ∷ edges) n
    skip :
        {e : GraphIx × EdgeWeight} {edges : List (GraphIx × EdgeWeight)} {n : GlobalReactionId}
        → Triggers edges n
        → Triggers (e ∷ edges) n

  same_node :
      (v : GraphIx) (node node' : GraphNode)
      → P.node_weight g v ≡ some node
      → P.node_weight g v ≡ some node'
      → node ≡ node'
  same_node v node node' h k = ground (arith, h, k)

  kinds_differ :
      (v : GraphIx) (node node' : GraphNode)
      → P.node_weight g v ≡ some node
      → node.kind ≡ port
      → P.node_weight g v ≡ some node'
      → node'.kind ≡ reaction_node
      → ⊥
  kinds_differ v node node' h k h' k' =
      port_reaction (sym k ∙ ap (λ x. x.kind) (same_node v node node' h h') ∙ k')
    where
      port_reaction : port ≡ reaction_node → ⊥
      port_reaction e = absurd (ground (arith, e))

  pub port_inv :
      (v : GraphIx) (w : EdgeWeight) (node : GraphNode) (edges : List (GraphIx × EdgeWeight))
      (n : GlobalReactionId)
      → P.node_weight g v ≡ some node
      → node.kind ≡ port
      → Triggers ((v, w) ∷ edges) n
      → Triggers (P.outgoing g v) n ⊎ Triggers edges n
  port_inv v w node edges n at kind (direct {node = node'} h k i) =
      absurd (kinds_differ v node node' at kind h k)
  port_inv v w node edges n at kind (through h k t) = inl t
  port_inv v w node edges n at kind (skip t) = inr t

  pub reaction_inv :
      (v : GraphIx) (w : EdgeWeight) (node : GraphNode) (edges : List (GraphIx × EdgeWeight))
      (m n : GlobalReactionId)
      → P.node_weight g v ≡ some node
      → node.kind ≡ reaction_node
      → node.id ≡ reaction m
      → Triggers ((v, w) ∷ edges) n
      → ((w ≡ default) × (m ≡ n)) ⊎ Triggers edges n
  reaction_inv v w node edges m n at kind id (direct {node = node'} h k i) =
      let same : reaction m ≡ reaction n =
        sym id ∙ ap (λ x. x.id) (same_node v node node' at h) ∙ i in
      inl (refl, ground (arith, same))
  reaction_inv v w node edges m n at kind id (through {node = node'} h k t) =
      absurd (kinds_differ v node' node h k at kind)
  reaction_inv v w node edges m n at kind id (skip t) = inr t
