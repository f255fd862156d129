-- ===== src/Examples/Banks.antt =====
-- The iterators of src/scheduler/assembly_impl.rs over a bank of two multiports.
use reactor_rs.Common.{ℕ, ◌*◌, ◌≡◌, refl, some, List, [], ◌∷◌, length, arith}
use reactor_rs.Common.Ord.{nat_ord}
use reactor_rs.Assembly.Banks.{
  iter_index, iter_all, next_pair, port_of, iter_from, iter_interleaved,
}
use reactor_rs.Assembly.Banks.Interleaving.{columns, iter_interleaved_lem}

abbrev upper : List ℕ
upper = 1 ∷ 2 ∷ 3 ∷ []

abbrev lower : List ℕ
lower = 4 ∷ 5 ∷ 6 ∷ []

abbrev both : List (List ℕ)
both = upper ∷ lower ∷ []

second_ports : iter_index both 1 ≡ some (2 ∷ 5 ∷ [])
unfolding iter_index
second_ports = refl

every_port : iter_all both ≡ 1 ∷ 2 ∷ 3 ∷ 4 ∷ 5 ∷ 6 ∷ []
unfolding iter_all
every_port = refl

interleaved_ports : iter_interleaved both ≡ some (1 ∷ 4 ∷ 2 ∷ 5 ∷ 3 ∷ 6 ∷ [])
unfolding iter_interleaved iter_from next_pair port_of
interleaved_ports = refl

iter_interleaved_lem_example :
    (all : List ℕ) × (iter_interleaved both ≡ some all)
    × (columns both 0 3 ≡ some all)
    × (length all ≡ 3 * length both)
iter_interleaved_lem_example = iter_interleaved_lem upper (lower ∷ []) (omega arith) (refl, tt)
