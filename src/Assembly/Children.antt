-- ===== src/Assembly/Children.antt =====
-- `with_child` of src/scheduler/assembly_impl.rs: a child is assembled before its parent, and
-- registered after it.
use reactor_rs.Common.{
  ℕ, ◌+◌, ◌≤◌, ◌<◌, ◌==◌, ◌≡◌, refl, ap, ◌∙◌, true, false, ◌||◌, none, some, Option, List, [], ◌∷◌,
  ◌++◌, arith, if◌then◌else◌, Bool-cases, inl, inr, ltb,
}
use reactor_rs.Common.Ord.{nat_ord}
use reactor_rs.VecMap.{get}
use reactor_rs.Graph.{DiGraph}
use reactor_rs.Graph.Nodes.{Extends, Extends-refl, Extends-trans}
use reactor_rs.Debug.{ReactorId}
use reactor_rs.Assembly.{RootAssembler}
use reactor_rs.Assembly.Registration.{
  registered, register_reactor_lem, table_with, length-table_with,
}
use reactor_rs.Assembly.Containers.{late_is_child}
use reactor_rs.Assembly.Contracts.{is_child, IsReady, Assembled, AreWaiting}

is_child-append :
    (i x : ReactorId) (children : List ReactorId)
    → is_child i (children ++ (x ∷ [])) ≡ (is_child i children || x == i)
is_child-append i x [] = ground arith
is_child-append i x (c ∷ children) = ground (arith, is_child-append i x children)

module _ (P : DiGraph) (T R : Type 0) (id_of : R → ReactorId)
    (Known : RootAssembler P T R → R → Type 0)
    (known_later : (root root' : RootAssembler P T R) (r : R)
      → Extends P root.graph root'.graph
      → Known root r
      → Known root' r) where
  -- A reactor that waits is added to those that wait.
  pub AreWaiting-append :
      (root root' : RootAssembler P T R) (x : ReactorId) (children : List ReactorId)
      → AreWaiting P T R id_of Known root children
      → root.reactor_id ≤ x
      → x < root'.reactor_id
      → get root'.debug_info.reactor_container x ≡ none
      → ((i : ReactorId)
          → i < root.reactor_id
          → get root'.debug_info.reactor_container i ≡ get root.debug_info.reactor_container i)
      → AreWaiting P T R id_of Known root' (children ++ (x ∷ []))
  AreWaiting-append root root' x [] w above below loose kept = record {
    loose_children = ((below, loose), tt);
    apart = (refl, tt);
  }
  AreWaiting-append root root' x (c ∷ children) w above below loose kept =
      let rest =
        AreWaiting-append root root' x children
          (record { loose_children = w.loose_children.1; apart = w.apart.1 }) above below loose
          kept in
      let mine = w.loose_children.0 in
      record {
        loose_children =
            ((omega (arith, mine.0, above, below), kept c mine.0 ∙ mine.1), rest.loose_children);
        apart =
            (is_child-append c x children ∙ ground (arith, w.apart.0, mine.0, above), rest.apart);
      }

  -- What holds once the child and its parent are assembled, and the child is registered.
  module _ (m d n c : ℕ) (children : List ReactorId) (root middle root' : RootAssembler P T R)
      (sub sub' s : R) (first : Assembled P T R id_of Known m d [] root middle sub)
      (second : Assembled P T R id_of Known n c (children ++ (id_of sub ∷ [])) middle root' s)
      (same : id_of sub' ≡ id_of sub) (waiting : AreWaiting P T R id_of Known root children) where
    abbrev pub table : List (Option R)
    table = table_with P T R id_of root' sub'

    pub open_for_child : registered root'.reactors (id_of sub') ≡ none
    open_for_child =
        ap (λ i. registered root'.reactors i) same
        ∙ second.kept (id_of sub) (omega (arith, first.last))
        ∙ first.open_place

    table_at :
        (i : ReactorId)
        → registered table i ≡ (if i == id_of sub then some sub' else registered root'.reactors i)
    table_at i =
        (register_reactor_lem P T R id_of root' sub' open_for_child).1 i ∙ ground (arith, same)

    table_other :
        (i : ReactorId)
        → (i == id_of sub) ≡ false
        → registered table i ≡ registered root'.reactors i
    table_other i other = table_at i ∙ ground (arith, other)

    abbrev pub final : RootAssembler P T R
    final = record root' { reactors = table }

    table_placed :
        (i : ReactorId)
        → root.reactor_id ≤ i
        → i < id_of s
        → (x : R) × (registered table i ≡ some x) × (id_of x ≡ i)
    table_placed i h k = elim (Bool-cases (i == id_of sub)) [
      | inl here ↦ (sub', table_at i ∙ ground (arith, here), ground (arith, here, same))
      | inr other ↦ elim (Bool-cases (ltb i (id_of sub))) [
        | inl earlier ↦
            let (x, e, own) = first.placed i h (ground (arith, earlier)) in
            (x, table_other i other ∙ second.kept i (ground (arith, earlier, first.last)) ∙ e, own)
        | inr later ↦
            let (x, e, own) = second.placed i (ground (arith, later, other, first.last)) k in
            (x, table_other i other ∙ e, own)
      ]
    ]

    not_listed :
        (i : ReactorId)
        → root.reactor_id ≤ i
        → (i == id_of sub) ≡ false
        → is_child i (children ++ (id_of sub ∷ [])) ≡ false
    not_listed i h other =
        let late =
          late_is_child (λ d. get root.debug_info.reactor_container d ≡ none) root.reactor_id i
            children waiting.loose_children h in
        is_child-append i (id_of sub) children ∙ ground (arith, other, late)

    contained_lem :
        (i : ReactorId)
        → root.reactor_id ≤ i
        → i < id_of s
        → (p : ReactorId) × (get root'.debug_info.reactor_container i ≡ some p)
          × (i < p)
          × (p ≤ id_of s)
    contained_lem i h k = elim (Bool-cases (i == id_of sub)) [
      | inl here ↦
          let listed : is_child i (children ++ (id_of sub ∷ [])) ≡ true =
            is_child-append i (id_of sub) children ∙ ground (arith, here) in
          (id_of s, second.adopted i listed, k, omega arith)
      | inr other ↦ elim (Bool-cases (ltb i (id_of sub))) [
        | inl earlier ↦
            let (p, e, above, below) = first.contained i h (ground (arith, earlier)) in
            (
              p,
              second.containers_kept i (ground (arith, earlier, first.last)) (not_listed i h other)
                  ∙ e,
              above,
              omega (arith, below, first.last, second.more),
            )
        | inr later ↦ second.contained i (ground (arith, later, other, first.last)) k
      ]
    ]

    final-IsReady : IsReady P T R id_of Known final
    final-IsReady = record {
      sound = record {
        counted = second.ready.sound.counted;
        started = second.ready.sound.started;
        unused = second.ready.sound.unused;
        ranges_sorted = second.ready.sound.ranges_sorted;
        unranged = second.ready.sound.unranged;
      };
      numbers = record {
        numbered = second.ready.numbers.numbered;
        bounded = second.ready.numbers.bounded;
        unlabelled = second.ready.numbers.unlabelled;
        unknown = second.ready.numbers.unknown;
        containers_sorted = second.ready.numbers.containers_sorted;
        uncontained = second.ready.numbers.uncontained;
      };
      short =
          (length-table_with P T R id_of root' sub').1 root'.reactor_id second.ready.short
            (omega (arith, same, first.last, second.count));
      vacant = λ i h.
          table_other i (ground (arith, h, first.last, second.count)) ∙ second.ready.vacant i h;
    }

    pub child_Assembled : Assembled P T R id_of Known (m + n) (d + c) children root final s
    child_Assembled = record {
      ready = final-IsReady;
      count = omega (arith, first.count, second.count);
      ids = omega (arith, first.ids, second.ids);
      last = second.last;
      more = omega (arith, first.more, second.more, first.last);
      open_place =
          table_other (id_of s) (ground (arith, first.last, second.more)) ∙ second.open_place;
      placed = table_placed;
      kept = λ i h.
          table_other i (ground (arith, h, first.more))
          ∙ second.kept i (omega (arith, h, first.more, first.last))
          ∙ first.kept i h;
      loose = second.loose;
      containers_kept = λ i h other.
          second.containers_kept i (omega (arith, h, first.more, first.last))
            (is_child-append i (id_of sub) children ∙ ground (arith, other, h, first.more))
          ∙ first.containers_kept i h refl;
      adopted =
          λ i h. second.adopted i (is_child-append i (id_of sub) children ∙ ground (arith, h));
      contained = contained_lem;
      extends = Extends-trans P root.graph middle.graph root'.graph first.extends second.extends;
      main_kept = second.main_kept ∙ first.main_kept;
      known = known_later root' final s (Extends-refl P root'.graph) second.known;
    }
