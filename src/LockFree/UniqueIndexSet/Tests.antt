-- ===== src/LockFree/UniqueIndexSet/Tests.antt =====
-- The laws of the index set at a set of capacity 3 whose index 0 is taken.
use iceoryx_in_rust.Prelude.{◌≡◌, refl, true, List, [], ◌∷◌, arith}
use iceoryx_in_rust.LockFree.UniqueIndexSet.{UniqueIndexSet, new_with_reduced_capacity, created}
use iceoryx_in_rust.LockFree.UniqueIndexSet.FreeList.{
  Represents, upto, new_with_reduced_capacity-Represents,
}
use iceoryx_in_rust.LockFree.UniqueIndexSet.Clients.{Op, take_index, give_back}

abbrev two_free : UniqueIndexSet
two_free = record {
  next_free = 4 ∷ 2 ∷ 3 ∷ 4 ∷ [];
  capacity = 3;
  head = 4294967297;
  is_memory_initialized = true;
}

two_free-Represents : Represents two_free (1 ∷ 2 ∷ [])
two_free-Represents = record {
  room = omega arith;
  ready = refl;
  small = omega arith;
  word = omega arith;
  chain = (refl, omega arith, (refl, omega arith, (omega arith, omega arith)));
  unique = ((omega arith, tt), (tt, tt));
}

new_with_reduced_capacity-Represents_example :
    (s : UniqueIndexSet) × (new_with_reduced_capacity 8 3 ≡ created s) × Represents s (upto 0 3)
new_with_reduced_capacity-Represents_example =
    new_with_reduced_capacity-Represents 8 3 (omega arith) (omega arith) (omega arith)

-- Two indices are taken, the first of the two is given back, and one more is taken.
abbrev ops : List Op
ops = take_index ∷ take_index ∷ give_back 1 ∷ take_index ∷ []
