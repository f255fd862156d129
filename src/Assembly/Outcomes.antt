-- ===== src/Assembly/Outcomes.antt =====
-- `assemble_self` of src/scheduler/assembly_impl.rs: the state at each of its steps, and what it
-- leaves.
use reactor_rs.Common.{
  ℕ, ◌+◌, ◌≤◌, ◌<◌, ◌≡◌, sym, ap, subst, ◌∙◌, false, none, some, Option, List, [], ◌∷◌, ◌++◌,
  length, length-append, All, All-map, arith, if◌then◌else◌,
}
use reactor_rs.Common.Ord.{nat_ord}
use reactor_rs.Ids.{GlobalReactionId, half_mod}
use reactor_rs.VecMap.{VecMap, get}
use reactor_rs.VecMap.Sorted.{IsSorted}
use reactor_rs.Graph.{DiGraph, reaction, trigger, map_get}
use reactor_rs.Graph.Nodes.{Extends-trans}
use reactor_rs.Debug.{ReactorId, DebugInfoRegistry, set_id_range, has_label}
use reactor_rs.Assembly.{RootAssembler}
use reactor_rs.Assembly.Reactors.{AssemblyCtx}
use reactor_rs.Assembly.Reactions.{reaction_id, IsVacant, Declares}
use reactor_rs.Assembly.Sound.{IsSound, IsNumbered, Grows}
use reactor_rs.Assembly.Registration.{registered}
use reactor_rs.Assembly.Containers.{Contained, late_is_child}
use reactor_rs.Assembly.Contracts.{is_child, Connects, IsReady, Assembled, AreWaiting}

module _ (P : DiGraph) (T R : Type 0) (id_of : R → ReactorId)
    (Known : RootAssembler P T R → R → Type 0) (c : ℕ) (ctx : AssemblyCtx P T R)
    (ready : IsReady P T R id_of Known ctx.globals)
    (waiting : AreWaiting P T R id_of Known ctx.globals ctx.children_ids)
    (fits : ctx.globals.reactor_id + 1 < half_mod) where
  abbrev pub me : ReactorId
  me = ctx.globals.reactor_id

  abbrev pub counted_registry : DebugInfoRegistry
  counted_registry = record ctx.globals.debug_info {
    reactor_infos = ctx.globals.debug_info.reactor_infos + 1;
  }

  late : (r : ReactorId) → me ≤ r → is_child r ctx.children_ids ≡ false
  late r h =
      late_is_child (λ d. get ctx.globals.debug_info.reactor_container d ≡ none) me r
        ctx.children_ids waiting.loose_children h

  pub children_loose :
      All (λ d. get ctx.globals.debug_info.reactor_container d ≡ none) ctx.children_ids
  children_loose =
      All-map (λ d. (d < me) × (get ctx.globals.debug_info.reactor_container d ≡ none))
        (λ d. (d < me) × (get ctx.globals.debug_info.reactor_container d ≡ none))
        (λ d. get ctx.globals.debug_info.reactor_container d ≡ none) ctx.children_ids (λ d p q. p.1)
        waiting.loose_children waiting.loose_children

  -- The registry once the reactor and its children are recorded, given to the creation.
  module _ (registry : DebugInfoRegistry)
      (contained : Contained counted_registry registry me ctx.children_ids) where
    abbrev pub before : RootAssembler P T R
    before = record ctx.globals { reactor_id = me + 1; debug_info = registry }

    pub before-IsSound : IsSound P T R before
    before-IsSound = record {
      counted =
          ap (λ (d : DebugInfoRegistry). d.trigger_infos) contained.only ∙ ready.sound.counted;
      started = ready.sound.started;
      unused = ready.sound.unused;
      ranges_sorted = ready.sound.ranges_sorted;
      unranged = ready.sound.unranged;
    }

    -- What creation leaves, with the range of the reactor's ids.
    module _ (ich : R) (root : RootAssembler P T R) (own : id_of ich ≡ me) (known : Known root ich)
        (sound : IsSound P T R root) (grows : Grows P T R before root)
        (few : root.cur_trigger ≤ before.cur_trigger + c) where
      abbrev pub ranged : RootAssembler P T R
      ranged = record root {
        debug_info = record root.debug_info {
          reactor_bound = root.debug_info.reactor_bound ++ (root.cur_trigger ∷ []);
        };
      }

      registry_eq :
          root.debug_info ≡ record registry { trigger_infos = root.debug_info.trigger_infos }
      registry_eq = grows.same_registry

      bounds_eq : root.debug_info.reactor_bound ≡ ctx.globals.debug_info.reactor_bound
      bounds_eq =
          ap (λ (d : DebugInfoRegistry). d.reactor_bound) registry_eq
          ∙ ap (λ (d : DebugInfoRegistry). d.reactor_bound) contained.only

      labels_eq : root.debug_info.reaction_labels ≡ ctx.globals.debug_info.reaction_labels
      labels_eq =
          ap (λ (d : DebugInfoRegistry). d.reaction_labels) registry_eq
          ∙ ap (λ (d : DebugInfoRegistry). d.reaction_labels) contained.only

      pub set_id_range_lem :
          set_id_range root.debug_info me ctx.globals.cur_trigger root.cur_trigger
          ≡ some ranged.debug_info
      unfolding set_id_range
      set_id_range_lem = ground (
        arith,
        ap (λ (b : List ℕ). length b) bounds_eq,
        ready.numbers.bounded,
        grows.later,
        ready.sound.started,
      )

      pub ranged-IsVacant : IsVacant P T R me 0 ranged
      ranged-IsVacant = record {
        no_label = λ j h s.
            rw labels_eq
              (ready.numbers.unlabelled (reaction_id me j) (omega arith, s) (omega arith));
        no_node = λ j h s.
            grows.same_reactions (reaction_id me j)
            ∙ ready.numbers.unknown (reaction_id me j) (omega arith, s) (omega arith);
      }

      -- What the declarations leave.
      module _ (reacting final : RootAssembler P T R) (declared : Declares P T R me ranged reacting)
          (connects : Connects P T R id_of Known reacting final) where
        debug_eq :
            final.debug_info
            ≡ record ranged.debug_info { reaction_labels = reacting.debug_info.reaction_labels }
        debug_eq =
            ap (λ (x : RootAssembler P T R). x.debug_info) connects.same_rest
            ∙ ap (λ (x : RootAssembler P T R). x.debug_info) declared.same_rest

        nodes_eq : final.graph.ix_by_id ≡ reacting.graph.ix_by_id
        nodes_eq = ap (λ (x : RootAssembler P T R). x.graph.ix_by_id) connects.same_rest

        ranges_eq : final.graph.multiport_ranges ≡ root.graph.multiport_ranges
        ranges_eq =
            ap (λ (x : RootAssembler P T R). x.graph.multiport_ranges) connects.same_rest
            ∙ ap (λ (x : RootAssembler P T R). x.graph.multiport_ranges) declared.same_rest

        trigger_eq : final.cur_trigger ≡ root.cur_trigger
        trigger_eq =
            ap (λ (x : RootAssembler P T R). x.cur_trigger) connects.same_rest
            ∙ ap (λ (x : RootAssembler P T R). x.cur_trigger) declared.same_rest

        reactor_eq : final.reactor_id ≡ me + 1
        reactor_eq =
            ap (λ (x : RootAssembler P T R). x.reactor_id) connects.same_rest
            ∙ ap (λ (x : RootAssembler P T R). x.reactor_id) declared.same_rest
            ∙ grows.same_reactor_id

        reactors_eq : final.reactors ≡ ctx.globals.reactors
        reactors_eq =
            ap (λ (x : RootAssembler P T R). x.reactors) connects.same_rest
            ∙ ap (λ (x : RootAssembler P T R). x.reactors) declared.same_rest
            ∙ grows.same_reactors

        containers_eq : final.debug_info.reactor_container ≡ registry.reactor_container
        containers_eq =
            ap (λ (d : DebugInfoRegistry). d.reactor_container) debug_eq
            ∙ ap (λ (d : DebugInfoRegistry). d.reactor_container) registry_eq

        container_at :
            (i : ReactorId)
            → get final.debug_info.reactor_container i ≡ (
                if is_child i ctx.children_ids
                then some me
                else get ctx.globals.debug_info.reactor_container i)
        container_at i =
            ap (λ (m : VecMap ReactorId ReactorId). get m i) containers_eq ∙ contained.reads i

        final-IsSound : IsSound P T R final
        final-IsSound = record {
          counted =
              ap (λ (d : DebugInfoRegistry). d.trigger_infos) debug_eq
              ∙ sound.counted
              ∙ sym trigger_eq;
          started = omega (arith, trigger_eq, sound.started);
          unused = λ id h.
              ap (λ m. map_get m (trigger id)) nodes_eq
              ∙ declared.same_triggers id
              ∙ sound.unused id (omega (arith, trigger_eq));
          ranges_sorted = subst (λ m. IsSorted m) (sym ranges_eq) sound.ranges_sorted;
          unranged =
              λ id h. ap (λ m. get m id) ranges_eq ∙ sound.unranged id (omega (arith, trigger_eq));
        }

        final-IsNumbered : IsNumbered P T R final.reactor_id final
        final-IsNumbered = record {
          numbered =
              ap (λ (d : DebugInfoRegistry). d.reactor_infos) debug_eq
              ∙ ap (λ (d : DebugInfoRegistry). d.reactor_infos) registry_eq
              ∙ ap (λ (d : DebugInfoRegistry). d.reactor_infos) contained.only
              ∙ ap (λ (n : ℕ). n + 1) ready.numbers.numbered
              ∙ sym reactor_eq;
          bounded =
              ap (λ (d : DebugInfoRegistry). length d.reactor_bound) debug_eq
              ∙ length-append root.debug_info.reactor_bound (root.cur_trigger ∷ [])
              ∙ omega (
                arith,
                ap (λ (b : List ℕ). length b) bounds_eq,
                ready.numbers.bounded,
                reactor_eq,
              );
          unlabelled = λ r h above.
              ap (λ (d : DebugInfoRegistry). has_label d.reaction_labels r) debug_eq
              ∙ declared.same_labels r h (omega (arith, reactor_eq))
              ∙ ap (λ (l : List GlobalReactionId). has_label l r) labels_eq
              ∙ ready.numbers.unlabelled r h (omega (arith, reactor_eq));
          unknown = λ r h above.
              ap (λ m. map_get m (reaction r)) nodes_eq
              ∙ declared.same_nodes r h (omega (arith, reactor_eq))
              ∙ grows.same_reactions r
              ∙ ready.numbers.unknown r h (omega (arith, reactor_eq));
          containers_sorted = subst (λ m. IsSorted m) (sym containers_eq) contained.sorted;
          uncontained = λ r above.
              container_at r
              ∙ ground (
                arith,
                late r (omega (arith, reactor_eq)),
                ready.numbers.uncontained r (omega (arith, reactor_eq)),
              );
        }

        final-IsReady : IsReady P T R id_of Known final
        final-IsReady = record {
          sound = final-IsSound;
          numbers = final-IsNumbered;
          short = omega (
            arith,
            ap (λ (xs : List (Option R)). length xs) reactors_eq,
            ready.short,
            reactor_eq,
          );
          vacant = λ i h.
              ap (λ (xs : List (Option R)). registered xs i) reactors_eq
              ∙ ready.vacant i (omega (arith, reactor_eq));
        }

        pub final-Assembled :
            (result : R)
            → id_of result ≡ me
            → Known final result
            → Assembled P T R id_of Known 1 c ctx.children_ids ctx.globals final result
        final-Assembled result same knows = record {
          ready = final-IsReady;
          count = reactor_eq;
          ids = omega (arith, trigger_eq, few);
          last = omega (arith, reactor_eq, same);
          more = omega (arith, same);
          open_place =
              ap (λ (xs : List (Option R)). registered xs (id_of result)) reactors_eq
              ∙ ready.vacant (id_of result) (omega (arith, same));
          placed = λ i h k. absurd (omega (arith, same));
          kept = λ i h. ap (λ (xs : List (Option R)). registered xs i) reactors_eq;
          loose =
              container_at (id_of result)
              ∙ ground (
                arith,
                late (id_of result) (omega (arith, same)),
                ready.numbers.uncontained (id_of result) (omega (arith, same)),
              );
          containers_kept = λ i h other. container_at i ∙ ground (arith, other);
          adopted = λ i h. container_at i ∙ ground (arith, h, same);
          contained = λ i h k. absurd (omega (arith, same));
          extends = Extends-trans P ctx.globals.graph root.graph final.graph grows.extends (
              Extends-trans P root.graph reacting.graph final.graph declared.extends
                connects.connected);
          main_kept =
              ap (λ (d : DebugInfoRegistry). d.main_reactor) debug_eq
              ∙ ap (λ (d : DebugInfoRegistry). d.main_reactor) registry_eq
              ∙ ap (λ (d : DebugInfoRegistry). d.main_reactor) contained.only;
          known = knows;
        }
