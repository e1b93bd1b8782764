-- ===== src/LockFree/Container/Missed.antt =====
-- A state that is renewed in the middle of an `add` misses the value that is added.
use iceoryx_in_rust.Prelude.{
  ℕ, suc, ◌+◌, ◌%◌, ◌<◌, ◌^◌, ◌≡◌, refl, sym, ap, ◌∙◌, true, false, Option, some, List, ◌∷◌, arith,
  length, get_or, get_or-set_self, eq→==, ne→==, lt→ltb, subst,
}
use iceoryx_in_rust.Outcome.{done, ◌>>=◌}
use iceoryx_in_rust.LockFree.Container.{
  Container, ContainerState, add_acquire, add_write, add_activate, update_state, for_each,
  verify_memory_initialization,
}
use iceoryx_in_rust.LockFree.Container.Entries.{copied, listed}
use iceoryx_in_rust.LockFree.Container.Refine.{Represents, added, length-cells}
use iceoryx_in_rust.LockFree.UniqueIndexSet.FreeList.{acquired, acquire-acquired}

module _ {A : Type 0} where
  abbrev acquired_only : Container A → ℕ → Container A
  acquired_only c x = record c { index_set = acquired c.index_set x }

  -- If a state is renewed when a call of `add` has acquired the index `x` but not yet written the
  -- value, and then the call ends, the state shows the values without the new one, the entry `x` is
  -- active in the container, and `update_state` reports that nothing has changed and leaves the state.
  pub missed_add :
      (c : Container A) (st : ContainerState A) (x : ℕ) (xs : List ℕ) (cells : List (Option A))
      (v : A) (fuel : ℕ)
      → Represents c (x ∷ xs) cells
      → length st.data_cells ≡ c.capacity
      → c.index_set.head % 2 ^ 32 + 1 < 2 ^ 32
      → st.current_index_set_head ≡ c.index_set.head
      → (c' c'' : Container A) × (st' : ContainerState A) × (add_acquire (suc fuel) c
          ≡ done (some x, c'))
        × (update_state c' st ≡ done (true, st'))
        × ((add_write c' x v >>= λ w. add_activate w x) ≡ done c'')
        × (for_each st' ≡ done (listed 0 cells))
        × (get_or c''.active_index x false ≡ true)
        × (update_state c'' st' ≡ done (false, st'))
  unfolding add_acquire add_write add_activate update_state for_each verify_memory_initialization
  missed_add c st x xs cells v fuel h slots small same =
      let inside : x < c.capacity = subst (λ n. x < n) h.matches h.set_holds.chain.1 in
      let (es, e, f, l) =
        copied 0 c.active_index c.data_cells st.data_cells h.filled (slots ∙ sym h.long) in
      let c' : Container A = acquired_only c x in
      let st' : ContainerState A = record {
        current_index_set_head = c'.index_set.head;
        data_cells = es;
        active_index = c.active_index;
      } in
      (
        c',
        added c x v,
        st',
        rw (h.ready, acquire-acquired c.index_set fuel x xs h.set_holds) refl,
        rw
            (
              ne→== st.current_index_set_head c'.index_set.head
                  (λ k. omega (arith, k, same, small)),
              e,
            )
            refl,
        rw
            (
              lt→ltb x (length c.data_cells)
                  (omega (arith, inside, (length-cells c cells fuel (x ∷ xs) h).1)),
              lt→ltb x (length c.active_index) (omega (arith, inside, h.long)),
            )
            refl,
        f ∙ ap (λ ys. done (listed 0 ys)) h.same,
        get_or-set_self c.active_index x true false (omega (arith, inside, h.long)),
        rw (eq→== c'.index_set.head c'.index_set.head refl) refl,
      )
