-- ===== src/LockFree/Container/Tests.antt =====
-- A container of two places.
use iceoryx_in_rust.Prelude.{
  ℕ, ◌+◌, ◌*◌, ◌^◌, ◌≡◌, refl, Bool, true, false, none, some, List, [], ◌∷◌, arith, get_or,
}
use iceoryx_in_rust.Outcome.{done, ◌>>=◌}
use iceoryx_in_rust.LockFree.UniqueIndexSet.FreeList.{take_first}
use iceoryx_in_rust.LockFree.Container.{
  Container, ContainerState, init, new_uninit, add_acquire, add_write, add_activate, update_state,
  get_state, for_each,
}
use iceoryx_in_rust.LockFree.Container.Entries.{listed}
use iceoryx_in_rust.LockFree.Container.Refine.{Represents, put_first}
use iceoryx_in_rust.LockFree.Container.History.{snapshot_current}
use iceoryx_in_rust.LockFree.Container.Calls.{
  Op, add_value, remove_index, refresh, calls, spec_calls, Allowed, fresh,
}
use iceoryx_in_rust.LockFree.Container.Missed.{missed_add}

abbrev script : List (Op ℕ)
script = add_value 7 ∷ refresh ∷ add_value 9 ∷ remove_index 0 ∷ add_value 5 ∷ add_value 6 ∷ []

script-Allowed : Allowed script (fresh 2)
unfolding Allowed take_first put_first
script-Allowed = (tt, (tt, (tt, ((7, refl), (tt, (tt, tt))))))

script_shows : listed 0 (spec_calls script (fresh 2)).1 ≡ ((0, 5) ∷ (1, 9) ∷ [])
unfolding spec_calls take_first put_first
script_shows = refl

snapshot_current_example :
    (x y : Container ℕ × ContainerState ℕ) × (init (new_uninit 2) true true ≡ done (true, x.0))
    × (get_state x.0 ≡ done x.1)
    × (calls script x ≡ done y)
    × (r : Bool × ContainerState ℕ) × (update_state y.0 y.1 ≡ done r)
    × (for_each r.1 ≡ done (listed 0 (spec_calls script (fresh 2)).1))
snapshot_current_example = snapshot_current 2 script (omega arith) (omega arith) script-Allowed

-- The place 0 is taken, the place 1 is free.
abbrev one_taken : Container ℕ
one_taken = record {
  active_index = true ∷ false ∷ [];
  data_cells = some 7 ∷ none ∷ [];
  capacity = 2;
  is_memory_initialized = true;
  index_set = record {
    next_free = 3 ∷ 2 ∷ 3 ∷ [];
    capacity = 2;
    head = 1 * 2 ^ 32 + 1;
    is_memory_initialized = true;
  };
}

one_taken-Represents : Represents one_taken (1 ∷ []) (some 7 ∷ none ∷ [])
one_taken-Represents = record {
  set_holds = record {
    room = omega arith;
    ready = refl;
    small = omega arith;
    word = omega arith;
    chain = (refl, omega arith, (omega arith, omega arith));
    unique = (tt, tt);
  };
  ready = refl;
  filled = tt;
  same = refl;
  long = refl;
  matches = refl;
  vacant = (refl, tt);
}

abbrev seen_before : ContainerState ℕ
seen_before = record {
  current_index_set_head = 1 * 2 ^ 32 + 1;
  data_cells = some (0, 7) ∷ none ∷ [];
  active_index = true ∷ false ∷ [];
}

missed_add_example :
    (c' c'' : Container ℕ) × (st' : ContainerState ℕ) × (add_acquire 1 one_taken
      ≡ done (some 1, c'))
    × (update_state c' seen_before ≡ done (true, st'))
    × ((add_write c' 1 9 >>= λ w. add_activate w 1) ≡ done c'')
    × (for_each st' ≡ done ((0, 7) ∷ []))
    × (get_or c''.active_index 1 false ≡ true)
    × (update_state c'' st' ≡ done (false, st'))
missed_add_example =
    missed_add one_taken seen_before 1 [] (some 7 ∷ none ∷ []) 9 0 one_taken-Represents refl
      (omega arith) refl
