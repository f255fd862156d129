-- ===== src/Assembly.antt =====
-- `RootAssembler` of src/scheduler/assembly_impl.rs, with the errors of src/assembly.rs: what all
-- assemblers of a program share, and the registration of reactors. The cells of ports, which Rust
-- shares through `Rc`, are a store that is part of it.
pub mod Components
pub mod Connections
pub mod Reactors
pub mod Bindings
pub mod Multibind
pub mod Sound
pub mod Creation
pub mod Channels
pub mod Reactions
pub mod Priorities
pub mod Registration
pub mod Contracts
pub mod Containers
pub mod Outcomes
pub mod Selves
pub mod Children
pub mod Builders
pub mod Trees
pub mod Programs
pub mod Banks
use reactor_rs.Common.{
  ℕ, zero, suc, ◌+◌, ◌-◌, Option, none, some, List, [], ◌∷◌, ◌++◌, if◌then◌else◌, length, get_elem?,
  set, leb,
}
use reactor_rs.Ids.{TriggerId, first_regular}
use reactor_rs.Ports.{BindError, Store, empty_store}
use reactor_rs.Graph.{DiGraph, DepGraph, graph_new}
use reactor_rs.Debug.{ReactorId, DebugInfoRegistry, registry_new}

-- The first constructor holds `CyclicDependency` and `CannotBind`.
pub data AssemblyError : Type 0 where
  bind_error : BindError → AssemblyError
  cyclic_dependency_graph id_overflow : AssemblyError

-- The outcome of a step: a value, an `Err`, or a panic.
pub data AssemblyResult {ℓ} (A : Type ℓ) : Type ℓ where
  done : A → AssemblyResult A
  failed : AssemblyError → AssemblyResult A
  panicked : AssemblyResult A

infixl 5 ◌>>=◌
abbrev pub ◌>>=◌ {ℓ κ} :
    {A : Type ℓ} {B : Type κ} → AssemblyResult A → (A → AssemblyResult B) → AssemblyResult B
done a >>= f = f a
failed e >>= f = failed e
panicked >>= f = panicked

-- A `none` of the other components is a panic.
abbrev pub or_panic {ℓ} : {A : Type ℓ} → Option A → AssemblyResult A
or_panic none = panicked
or_panic (some a) = done a

-- `panic_any` of an error that reaches `assemble_tree`.
abbrev pub or_panic_any {ℓ} : {A : Type ℓ} → AssemblyResult A → AssemblyResult A
or_panic_any (done a) = done a
or_panic_any (failed e) = panicked
or_panic_any panicked = panicked

-- What holds of the value, if there is one; an error may be returned, and nothing panics.
abbrev pub Ensures {ℓ} : {A : Type ℓ} → (A → Type 0) → AssemblyResult A → Type 0
Ensures P (done a) = P a
Ensures P (failed _) = Unit
Ensures P panicked = ⊥

pub Ensures-bind {ℓ κ} :
    {A : Type ℓ} {B : Type κ} (Q : A → Type 0) (S : B → Type 0) (m : AssemblyResult A)
    (f : A → AssemblyResult B)
    → Ensures Q m
    → ((a : A) → Q a → Ensures S (f a))
    → Ensures S (m >>= f)
Ensures-bind Q S (done a) f q h = h a q
Ensures-bind Q S (failed e) f q h = tt
Ensures-bind Q S panicked f q h = absurd q

abbrev pub nones : {A : Type 0} → ℕ → List (Option A)
nones zero = []
nones (suc n) = none ∷ nones n

-- `resize_with(new_len, || None)`, for a length that does not shrink.
unfoldable pub resize_with_none : {A : Type 0} → List (Option A) → ℕ → List (Option A)
resize_with_none xs new_len = xs ++ nones (new_len - length xs)

-- `map(|r| r.expect(…)).collect()`.
unfoldable pub expect_all : {A : Type 0} → List (Option A) → Option (List A)
expect_all [] = some []
expect_all (none ∷ xs) = none
expect_all (some x ∷ xs) = elim (expect_all xs) [ some ys ↦ some (x ∷ ys) | none ↦ none ]

-- `T` is the type of the values of ports and actions, `R` that of reactors.
module _ (P : DiGraph) (T R : Type 0) where
  pub record RootAssembler : Type 0 where
    pub reactors : List (Option R)
    pub graph : DepGraph P
    pub debug_info : DebugInfoRegistry
    pub reactor_id : ReactorId
    pub cur_trigger : TriggerId
    pub ports : Store T

  unfoldable pub root_default : RootAssembler
  unfolding graph_new registry_new empty_store
  root_default = record {
    reactors = [];
    graph = graph_new P;
    debug_info = registry_new;
    reactor_id = 0;
    cur_trigger = first_regular;
    ports = empty_store;
  }

  module _ (id_of : R → ReactorId) where
    -- Grows the table up to the id of the child; the `debug_assert!` refuses an id that is taken.
    unfoldable pub register_reactor : RootAssembler → R → AssemblyResult RootAssembler
    unfolding resize_with_none
    register_reactor root child =
        let reactors =
          if leb (length root.reactors) (id_of child)
          then resize_with_none root.reactors (id_of child + 1)
          else root.reactors in
        elim (get_elem? reactors (id_of child)) [
          | some none ↦ done (record root { reactors = set reactors (id_of child) (some child) })
          | _ ↦ panicked
        ]

    unfoldable pub register_bank : RootAssembler → List R → AssemblyResult RootAssembler
    register_bank root [] = done root
    register_bank root (child ∷ bank) = do
      root' ← register_reactor root child
      register_bank root' bank
