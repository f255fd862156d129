-- ===== src/Assembly/Trees.antt =====
-- `assemble_tree` of src/scheduler/assembly_impl.rs: what the runtime gets.
use reactor_rs.Common.{
  ◌⊎◌, ℕ, ◌+◌, ◌≤◌, ◌<◌, ◌==◌, ◌≡◌, refl, ap, ◌∙◌, none, some, Option, List, [], arith, Bool-cases,
  inl, inr, length, get_elem?,
}
use reactor_rs.Ids.{half_mod, full_mod}
use reactor_rs.Graph.{DiGraph, DepGraph}
use reactor_rs.Common.Ord.{nat_ord}
use reactor_rs.VecMap.{get}
use reactor_rs.Debug.{ReactorId, DebugInfoRegistry, record_main_reactor, registry_new}
use reactor_rs.Assembly.{
  AssemblyError, AssemblyResult, done, failed, panicked, or_panic_any, ◌>>=◌, or_panic, Ensures,
  RootAssembler, root_default, register_reactor, expect_all,
}
use reactor_rs.Assembly.Reactors.{ReactorInitializer, ctx_new, assemble_tree}
use reactor_rs.Assembly.Sound.{root_default-IsSound, root_default-IsNumbered}
use reactor_rs.Assembly.Registration.{
  registered, register_reactor_lem, table_with, length-table_with, expect_all_lem,
}
use reactor_rs.Assembly.Contracts.{IsReady, Assembled, IsInitializer}

-- The reactor at an id of `n`, and its container.
abbrev pub IsPlaced :
    (P : DiGraph) (R : Type 0) (id_of : R → ReactorId) (n : ℕ)
    → ReactorId
    → List R × DepGraph P × DebugInfoRegistry
    → Type 0
IsPlaced P R id_of n i p =
    (length p.0 ≡ n)
    × ((x : R) × (get_elem? p.0 i ≡ some x) × (id_of x ≡ i))
    × ((m : ReactorId) × (p.2.main_reactor ≡ some m)
        × (m + 1 ≡ n)
        × (((get p.2.reactor_container i ≡ none) × (i ≡ m))
            ⊎ ((q : ReactorId) × (get p.2.reactor_container i ≡ some q) × (i < q) × (q ≤ m))))

-- Either the assembly of the main reactor returns an error, which is a panic, or the reactor at the
-- id is placed.
abbrev pub IsOutcome :
    {A : Type 0} (P : DiGraph) (R : Type 0) (id_of : R → ReactorId) (n : ℕ)
    → ReactorId
    → AssemblyResult A
    → AssemblyResult (List R × DepGraph P × DebugInfoRegistry)
    → Type 0
IsOutcome P R id_of n i assembled tree =
    ((e : AssemblyError) × (assembled ≡ failed e) × (tree ≡ panicked))
    ⊎ ((p : List R × DepGraph P × DebugInfoRegistry) × (tree ≡ done p) × IsPlaced P R id_of n i p)

module _ (P : DiGraph) (T R : Type 0) (id_of : R → ReactorId)
    (Known : RootAssembler P T R → R → Type 0) where
  root_default-IsReady : IsReady P T R id_of Known (root_default P T R)
  unfolding root_default
  root_default-IsReady = record {
    sound = root_default-IsSound P T R;
    numbers = root_default-IsNumbered P T R;
    short = omega arith;
    vacant = λ i h. refl;
  }

  -- What the runtime gets.
  module _ (main : ReactorInitializer P T R) (n d : ℕ)
      (assembles : IsInitializer P T R id_of Known n d main) (fits : n < half_mod)
      (ids_fit : 2 + d < full_mod) where
    abbrev start : RootAssembler P T R
    start = root_default P T R

    abbrev after_main :
        RootAssembler P T R × R → AssemblyResult (List R × DepGraph P × DebugInfoRegistry)
    after_main p = do
      debug_info ← or_panic (record_main_reactor p.0.debug_info (id_of p.1))
      root' ← register_reactor P T R id_of (record p.0 { debug_info = debug_info }) p.1
      reactors ← or_panic (expect_all root'.reactors)
      done (reactors, root'.graph, root'.debug_info)

    module _ (root : RootAssembler P T R) (r : R)
        (built : Assembled P T R id_of Known n d [] start root r) where
      abbrev registry : DebugInfoRegistry
      registry = record root.debug_info { main_reactor = some (id_of r) }

      abbrev with_main : RootAssembler P T R
      with_main = record root { debug_info = registry }

      no_main : root.debug_info.main_reactor ≡ none
      unfolding root_default registry_new
      no_main = built.main_kept

      all_count : id_of r + 1 ≡ n
      unfolding root_default
      all_count = omega (arith, built.last, built.count)

      abbrev full : List (Option R)
      full = table_with P T R id_of with_main r

      length-full : length full ≡ n
      length-full =
          let (long, short) = length-table_with P T R id_of with_main r in
          omega (
            arith,
            long,
            all_count,
            short n (omega (arith, built.ready.short, built.last, all_count))
                (omega (arith, all_count)),
          )

      full_at : (i : ReactorId) → i < n → (x : R) × (registered full i ≡ some x) × (id_of x ≡ i)
      unfolding root_default
      full_at i h =
          let at = (register_reactor_lem P T R id_of with_main r built.open_place).1 i in
          elim (Bool-cases (i == id_of r)) [
            | inl here ↦ (r, at ∙ ground (arith, here), ground (arith, here))
            | inr other ↦
                let (x, e, own) =
                  built.placed i (omega arith) (ground (arith, other, h, all_count)) in
                (x, at ∙ ground (arith, other, e), own)
          ]

      container_lem :
          (i : ReactorId)
          → i < n
          → ((get registry.reactor_container i ≡ none) × (i ≡ id_of r))
            ⊎ ((q : ReactorId) × (get registry.reactor_container i ≡ some q)
                × (i < q)
                × (q ≤ id_of r))
      unfolding root_default
      container_lem i h = elim (Bool-cases (i == id_of r)) [
        | inl here ↦
            let same : i ≡ id_of r = ground (arith, here) in
            inl (ap (λ j. get registry.reactor_container j) same ∙ built.loose, same)
        | inr other ↦ inr (built.contained i (omega arith) (ground (arith, other, h, all_count)))
      ]

      after_main_lem :
          (i : ReactorId)
          → i < n
          → (p : List R × DepGraph P × DebugInfoRegistry) × (after_main (root, r) ≡ done p)
            × IsPlaced P R id_of n i p
      unfolding record_main_reactor
      after_main_lem i h =
          let (reactors, taken, long, at) = expect_all_lem full id_of 0 (λ j k.
            let (x, e, own) = full_at j (omega (arith, length-full)) in
            (x, e, omega (arith, own))) in
          let (y, e, own) = at i (omega (arith, length-full)) in
          (
            (reactors, with_main.graph, with_main.debug_info),
            rw no_main (
                rw (register_reactor_lem P T R id_of with_main r built.open_place).0
                  (rw taken refl)),
            (
              omega (arith, long, length-full),
              (y, e, omega (arith, own)),
              (id_of r, refl, all_count, container_lem i h),
            ),
          )

    -- What `assemble_tree` makes of the assembly of the main reactor.
    outcome_lem :
        (i : ReactorId) (r : AssemblyResult (RootAssembler P T R × R))
        → i < n
        → Ensures (λ p. Assembled P T R id_of Known n d [] start p.0 p.1) r
        → IsOutcome P R id_of n i r (or_panic_any r >>= after_main)
    outcome_lem i (done (root, r)) h built =
        let (p, runs, placed) = after_main_lem root r built i h in inr (p, runs, placed)
    outcome_lem i (failed e) h built = inl (e, refl, refl)
    outcome_lem i panicked h built = absurd built

    pub placed_lem :
        (i : ReactorId)
        → i < n
        → IsOutcome P R id_of n i
            (main.assemble_reactor (ctx_new P T R (root_default P T R) main.max_reaction_id))
            (assemble_tree P T R id_of main)
    unfolding assemble_tree root_default
    placed_lem i h =
        outcome_lem i (main.assemble_reactor (ctx_new P T R start main.max_reaction_id)) h
          (assembles start root_default-IsReady (omega arith) (omega arith))
