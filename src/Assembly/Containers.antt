-- ===== src/Assembly/Containers.antt =====
-- The containers that `assemble_self` of src/scheduler/assembly_impl.rs records for children.
use reactor_rs.Common.{
  ◌≤◌, ◌<◌, ◌≡◌, refl, ap, ◌∙◌, false, none, some, Option, List, [], ◌∷◌, All, arith, if◌then◌else◌,
}
use reactor_rs.Common.Ord.{nat_ord}
use reactor_rs.VecMap.{VecMap, get, insert}
use reactor_rs.VecMap.Laws.{insert_refines, update}
use reactor_rs.VecMap.Sorted.{IsSorted}
use reactor_rs.Debug.{ReactorId, DebugInfoRegistry, record_reactor_container}
use reactor_rs.Assembly.Reactors.{record_containers}
use reactor_rs.Assembly.Contracts.{is_child, AreApart}

-- Every child gets its parent as its container.
pub record Contained (reg reg' : DebugInfoRegistry) (id : ReactorId) (children : List ReactorId)
    : Type 0 where
  pub result : record_containers reg id children ≡ some reg'
  pub only : reg' ≡ record reg { reactor_container = reg'.reactor_container }
  pub sorted : IsSorted reg'.reactor_container
  pub reads :
      (i : ReactorId)
      → get reg'.reactor_container i
        ≡ (if is_child i children then some id else get reg.reactor_container i)

still_loose :
    (m m' : VecMap ReactorId ReactorId) (c id : ReactorId)
    → get m' ≡ update (get m) c (some id)
    → (children : List ReactorId) → All (λ d. get m d ≡ none) children
    → is_child c children ≡ false
    → All (λ d. get m' d ≡ none) children
still_loose m m' c id now [] a apart = tt
still_loose m m' c id now (d ∷ children) a apart = (
  ap (λ (f : ReactorId → Option ReactorId). f d) now ∙ ground (arith, a.0, apart),
  still_loose m m' c id now children a.1 (ground (arith, apart)),
)

pub record_containers_lem :
    (reg : DebugInfoRegistry) (id : ReactorId) (children : List ReactorId)
    → IsSorted reg.reactor_container
    → All (λ c. get reg.reactor_container c ≡ none) children
    → AreApart children
    → (reg' : DebugInfoRegistry) × Contained reg reg' id children
unfolding record_containers record_reactor_container
record_containers_lem reg id [] s a d =
    (reg, record { result = refl; only = refl; sorted = s; reads = λ i. refl })
record_containers_lem reg id (c ∷ children) s a d =
    let (sorted, old, now) = insert_refines reg.reactor_container c id s in
    let after : DebugInfoRegistry = record reg {
      reactor_container = (insert reg.reactor_container c id).0;
    } in
    let (reg', rest) =
      record_containers_lem after id children sorted
        (still_loose reg.reactor_container after.reactor_container c id now children a.1 d.0) d.1 in
    (
      reg',
      record {
        result = ground (arith, old, a.0, rest.result);
        only = rest.only;
        sorted = rest.sorted;
        reads = λ i.
            rest.reads i
            ∙ ap
                (λ (f : ReactorId → Option ReactorId).
                  (if is_child i children then some id else f i))
                now
            ∙ ground (arith, a.0);
      },
    )

-- An id that is not handed out yet is no child's.
pub late_is_child :
    (P : ReactorId → Type 0) (n r : ReactorId) (children : List ReactorId)
    → All (λ c. (c < n) × P c) children
    → n ≤ r
    → is_child r children ≡ false
late_is_child P n r [] a h = refl
late_is_child P n r (c ∷ children) a h =
    ground (arith, a.0.0, h, late_is_child P n r children a.1 h)
