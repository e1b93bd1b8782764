-- ===== src/LockFree/Container/Calls.antt =====
-- A container and one state of it: what each call does, and what holds between two calls.
use iceoryx_in_rust.Prelude.{
  ℕ, ◌+◌, ◌*◌, ◌%◌, ◌<◌, ◌≤◌, ◌^◌, ◌≡◌, ◌⊎◌, inl, inr, refl, sym, ◌∙◌, ap, Bool, true, false,
  Option, none, some, List, [], ◌∷◌, arith, length, get_or, set, replicate, ℕ_discrete, eq→==,
  ne→==,
}
use iceoryx_in_rust.Outcome.{Outcome, done, ◌>>=◌}
use iceoryx_in_rust.LockFree.Container.{
  Container, ContainerState, add, remove_raw_index, update_state, for_each,
}
use iceoryx_in_rust.LockFree.Container.Entries.{listed, copied, occupied-inside, occupied-NotIn}
use iceoryx_in_rust.LockFree.Container.Refine.{
  Represents, put_first, added, removed, add-none, add-added, added-Represents, remove-removed,
  removed-Represents, length-cells,
}
use iceoryx_in_rust.LockFree.UniqueIndexSet.FreeList.{take_first, upto}

pub data Op (A : Type 0) : Type 0 where
  add_value : A → Op A
  remove_index : ℕ → Op A
  refresh : Op A

-- The free indices and the values.
abbrev pub Spec : Type 0 → Type 0
Spec A = List ℕ × List (Option A)

module _ {A : Type 0} where
  -- One call, with fuel for one round of the loops.
  pub call : Op A → Container A × ContainerState A → Outcome (Container A × ContainerState A)
  call (add_value v) (c, st) = add 1 c v >>= λ r. done (r.1, st)
  call (remove_index i) (c, st) = remove_raw_index 1 c i >>= λ c'. done (c', st)
  call refresh (c, st) = update_state c st >>= λ r. done (c, r.1)

  unfoldable pub calls :
      List (Op A) → Container A × ContainerState A → Outcome (Container A × ContainerState A)
  unfolding call
  calls [] x = done x
  calls (op ∷ ops) x = call op x >>= calls ops

  -- What each call does to them.
  abbrev pub spec_call : Op A → Spec A → Spec A
  spec_call (add_value v) (free, cells) = ((take_first free).1, put_first free cells v)
  spec_call (remove_index i) (free, cells) = (i ∷ free, set cells i none)
  spec_call refresh spec = spec

  unfoldable pub spec_calls : List (Op A) → Spec A → Spec A
  spec_calls [] spec = spec
  spec_calls (op ∷ ops) spec = spec_calls ops (spec_call op spec)

  -- An index is removed only while it holds a value.
  abbrev pub OpAllowed : Op A → Spec A → Type 0
  OpAllowed (remove_index i) (free, cells) = (v : A) × (get_or cells i none ≡ some v)
  OpAllowed _ _ = Unit

  unfoldable pub Allowed : List (Op A) → Spec A → Type 0
  Allowed [] spec = Unit
  Allowed (op ∷ ops) spec = OpAllowed op spec × Allowed ops (spec_call op spec)

  abbrev pub fresh : ℕ → Spec A
  fresh capacity = (upto 0 capacity, replicate capacity none)

  -- A state either shows the values, or the counter in the head has moved on since.
  abbrev pub Seen : Container A → ContainerState A → List (Option A) → Type 0
  Seen c st cells =
      (st.current_index_set_head % 2 ^ 32 < c.index_set.head % 2 ^ 32)
      ⊎ ((st.current_index_set_head ≡ c.index_set.head) × (for_each st ≡ done (listed 0 cells)))

  pub record Inv (capacity steps : ℕ) (x : Container A × ContainerState A) (spec : Spec A)
      : Type 0 where
    pub holds : Represents x.0 spec.0 spec.1
    pub size : x.0.capacity ≡ capacity
    pub counter : x.0.index_set.head % 2 ^ 32 ≤ steps
    pub slots : length x.1.data_cells ≡ capacity
    pub seen : Seen x.0 x.1 spec.1

  -- A state after `update_state`: it has the head of the container, and it shows the values.
  pub record Current (c : Container A) (cells : List (Option A)) (st : ContainerState A)
      : Type 0 where
    pub same : st.current_index_set_head ≡ c.index_set.head
    pub shows : for_each st ≡ done (listed 0 cells)
    pub slots : length st.data_cells ≡ c.capacity

  pub update_state-Current :
      (c : Container A) (st : ContainerState A) (free : List ℕ) (cells : List (Option A))
      → Represents c free cells
      → length st.data_cells ≡ c.capacity
      → (st.current_index_set_head ≡ c.index_set.head → for_each st ≡ done (listed 0 cells))
      → (r : Bool × ContainerState A) × (update_state c st ≡ done r) × Current c cells r.1
  unfolding update_state for_each
  update_state-Current c st free cells h slots shows =
      elim (ℕ_discrete st.current_index_set_head c.index_set.head) [
        | yes same ↦ (
          (false, st),
          rw (eq→== st.current_index_set_head c.index_set.head same) refl,
          record { same = same; shows = shows same; slots = slots },
        )
        | no other ↦
            let (es, e, f, l) =
              copied 0 c.active_index c.data_cells st.data_cells h.filled (slots ∙ sym h.long) in
            (
              (
                true,
                record {
                  current_index_set_head = c.index_set.head;
                  data_cells = es;
                  active_index = c.active_index;
                },
              ),
              rw (ne→== st.current_index_set_head c.index_set.head other, e) refl,
              record {
                same = refl;
                shows = f ∙ ap (λ xs. done (listed 0 xs)) h.same;
                slots = l ∙ h.long;
              },
            )
      ]

  -- After a step of the counter the state is behind.
  behind :
      (c : Container A) (st : ContainerState A) (cells : List (Option A)) (steps next : ℕ)
      → steps + 1 < 2 ^ 32
      → c.index_set.head % 2 ^ 32 ≤ steps
      → Seen c st cells
      → (st.current_index_set_head % 2 ^ 32
          < (next * 2 ^ 32 + (c.index_set.head % 2 ^ 32 + 1) % 2 ^ 32) % 2 ^ 32)
        × ((next * 2 ^ 32 + (c.index_set.head % 2 ^ 32 + 1) % 2 ^ 32) % 2 ^ 32 ≤ steps + 1)
  behind c st cells steps next small counter (inl before) = (omega (arith, before), omega arith)
  behind c st cells steps next small counter (inr (same, _)) = (omega (arith, same), omega arith)

  module _ (capacity steps : ℕ) (small : steps + 1 < 2 ^ 32) (c : Container A)
      (st : ContainerState A) where
    pub added-Inv :
        (free : List ℕ) (cells : List (Option A)) (v : A)
        → Inv capacity steps (c, st) (free, cells)
        → (x : Container A × ContainerState A) × (call (add_value v) (c, st) ≡ done x)
          × Inv capacity (steps + 1) x (spec_call (add_value v) (free, cells))
    unfolding call take_first put_first
    added-Inv [] cells v inv = (
      (c, st),
      rw (add-none c cells 0 v inv.holds) refl,
      record {
        holds = inv.holds;
        size = inv.size;
        counter = omega (arith, inv.counter);
        slots = inv.slots;
        seen = inv.seen;
      },
    )
    added-Inv (x ∷ xs) cells v inv =
        let (late, count) =
          behind c st cells steps (get_or c.index_set.next_free x 0) small inv.counter inv.seen in
        (
          (added c x v, st),
          rw (add-added c cells 0 x xs v inv.holds) refl,
          record {
            holds = added-Represents c cells 0 x xs v inv.holds;
            size = inv.size;
            counter = count;
            slots = inv.slots;
            seen = inl late;
          },
        )

    pub removed-Inv :
        (free : List ℕ) (cells : List (Option A)) (i : ℕ) (v : A)
        → get_or cells i none ≡ some v
        → Inv capacity steps (c, st) (free, cells)
        → (x : Container A × ContainerState A) × (call (remove_index i) (c, st) ≡ done x)
          × Inv capacity (steps + 1) x (i ∷ free, set cells i none)
    unfolding call
    removed-Inv free cells i v there inv =
        let h = inv.holds in
        let inside : i < c.capacity =
          omega (arith, occupied-inside cells i v there, (length-cells c cells 0 free h).0) in
        let (late, count) = behind c st cells steps i small inv.counter inv.seen in
        (
          (removed c i, st),
          rw (remove-removed c cells 0 free i h inside) refl,
          record {
            holds =
                removed-Represents c cells 0 free i h inside
                  (occupied-NotIn cells free i v there h.vacant);
            size = inv.size;
            counter = count;
            slots = inv.slots;
            seen = inl late;
          },
        )

    pub refreshed-Inv :
        (spec : Spec A)
        → Inv capacity steps (c, st) spec
        → (x : Container A × ContainerState A) × (call refresh (c, st) ≡ done x)
          × Inv capacity (steps + 1) x spec
    unfolding call
    refreshed-Inv (free, cells) inv =
        let (r, e, now) =
          update_state-Current c st free cells inv.holds (inv.slots ∙ sym inv.size) (λ same.
            elim inv.seen [
              | inl late ↦ absurd (omega (arith, late, same))
              | inr (_, shows) ↦ shows
            ]) in
        (
          (c, r.1),
          rw e refl,
          record {
            holds = inv.holds;
            size = inv.size;
            counter = omega (arith, inv.counter);
            slots = now.slots ∙ inv.size;
            seen = inr (now.same, now.shows);
          },
        )
