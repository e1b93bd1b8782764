-- ===== src/LockFree/Container/History.antt =====
-- A container and one state of it that is renewed now and then: calls one after the other.
use iceoryx_in_rust.Prelude.{
  ℕ, ◌+◌, ◌<◌, ◌^◌, ◌≡◌, inl, inr, refl, sym, ◌∙◌, subst, Bool, true, false, none, List, [], ◌∷◌,
  arith, length, replicate, length-replicate,
}
use iceoryx_in_rust.Outcome.{done}
use iceoryx_in_rust.LockFree.Container.{
  Container, ContainerState, init, new_uninit, update_state, empty_state, get_state, for_each,
  verify_memory_initialization,
}
use iceoryx_in_rust.LockFree.Container.Entries.{
  listed, Filled-replicate, entries-replicate, Vacant-replicate, for_each_from-replicate,
}
use iceoryx_in_rust.LockFree.Container.Refine.{Represents}
use iceoryx_in_rust.LockFree.UniqueIndexSet.FreeList.{upto, init-Represents, init-head}
use iceoryx_in_rust.LockFree.Container.Calls.{
  Op, add_value, remove_index, refresh, call, calls, Spec, spec_call, spec_calls, OpAllowed,
  Allowed, fresh, Inv, update_state-Current, added-Inv, removed-Inv, refreshed-Inv,
}

module _ {A : Type 0} where
  module _ (capacity : ℕ) where
    call-Inv :
        (steps : ℕ) (op : Op A) (x : Container A × ContainerState A) (spec : Spec A)
        → steps + 1 < 2 ^ 32
        → OpAllowed op spec
        → Inv capacity steps x spec
        → (y : Container A × ContainerState A) × (call op x ≡ done y)
          × Inv capacity (steps + 1) y (spec_call op spec)
    call-Inv steps (add_value v) (c, st) (free, cells) small may inv =
        added-Inv capacity steps small c st free cells v inv
    call-Inv steps (remove_index i) (c, st) (free, cells) small (v, there) inv =
        removed-Inv capacity steps small c st free cells i v there inv
    call-Inv steps refresh (c, st) spec small may inv =
        refreshed-Inv capacity steps small c st spec inv

    calls-Inv :
        (steps : ℕ) (ops : List (Op A)) (x : Container A × ContainerState A) (spec : Spec A)
        → steps + length ops < 2 ^ 32
        → Allowed ops spec
        → Inv capacity steps x spec
        → (y : Container A × ContainerState A) × (calls ops x ≡ done y)
          × Inv capacity (steps + length ops) y (spec_calls ops spec)
    unfolding calls spec_calls Allowed
    calls-Inv steps [] x spec small may inv =
        (x, refl, subst (λ n. Inv capacity n x spec) (omega arith) inv)
    calls-Inv steps (op ∷ ops) x spec small may inv =
        let (y, e, inv') = call-Inv steps op x spec (omega (arith, small)) may.0 inv in
        let (z, f, inv'') =
          calls-Inv (steps + 1) ops y (spec_call op spec) (omega (arith, small)) may.1 inv' in
        (
          z,
          rw e f,
          subst (λ n. Inv capacity n z (spec_calls ops (spec_call op spec))) (omega arith) inv'',
        )

    -- A new container with granted memory, and its first state.
    start-Inv :
        capacity + 1 < 2 ^ 32
        → (x : Container A × ContainerState A) × (init (new_uninit capacity) true true
            ≡ done (true, x.0))
          × (get_state x.0 ≡ done x.1)
          × Inv capacity 0 x (fresh capacity)
    unfolding init new_uninit get_state verify_memory_initialization for_each
    start-Inv small =
        let (s, e, h, same) = init-Represents capacity small in
        let c : Container A = record {
          active_index = replicate capacity false;
          data_cells = replicate capacity none;
          capacity = capacity;
          is_memory_initialized = true;
          index_set = s;
        } in
        let holds : Represents c (upto 0 capacity) (replicate capacity none) = record {
          set_holds = h;
          ready = refl;
          filled = Filled-replicate A capacity;
          same = entries-replicate capacity;
          long = length-replicate capacity false;
          matches = same;
          vacant = Vacant-replicate A capacity (upto 0 capacity);
        } in
        let (r, f, now) =
          update_state-Current c (empty_state capacity) (upto 0 capacity) (replicate capacity none)
            holds (length-replicate capacity none) (λ _. for_each_from-replicate 0 capacity) in
        (
          (c, r.1),
          rw e refl,
          rw f refl,
          record {
            holds = holds;
            size = refl;
            counter = omega (arith, init-head capacity s e);
            slots = now.slots;
            seen = inr (now.same, now.shows);
          },
        )

    -- On a new container with a capacity below `2 ^ 32 - 1`, and a state taken from it at the start,
    -- fewer than `2 ^ 32` calls of `add`, `remove_raw_index` of an index in use and `update_state`, one
    -- after the other, all return, and an `update_state` after them makes the state show exactly the
    -- values that were added and not removed, each with its index, in the order of the indices.
    pub snapshot_current :
        (ops : List (Op A))
        → capacity + 1 < 2 ^ 32
        → length ops < 2 ^ 32
        → Allowed ops (fresh capacity)
        → (x y : Container A × ContainerState A) × (init (new_uninit capacity) true true
            ≡ done (true, x.0))
          × (get_state x.0 ≡ done x.1)
          × (calls ops x ≡ done y)
          × (r : Bool × ContainerState A) × (update_state y.0 y.1 ≡ done r)
          × (for_each r.1 ≡ done (listed 0 (spec_calls ops (fresh capacity)).1))
    snapshot_current ops small few may =
        let (x, e, f, inv) = start-Inv small in
        let (y, g, inv') = calls-Inv 0 ops x (fresh capacity) (omega (arith, few)) may inv in
        let spec = spec_calls ops (fresh capacity) in
        let (r, k, now) =
          update_state-Current y.0 y.1 spec.0 spec.1 inv'.holds (inv'.slots ∙ sym inv'.size)
            (λ same. elim inv'.seen [
              | inl late ↦ absurd (omega (arith, late, same))
              | inr (_, shows) ↦ shows
            ]) in
        (x, y, e, f, g, r, k, now.shows)
