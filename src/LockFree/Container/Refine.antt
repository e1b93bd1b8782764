-- ===== src/LockFree/Container/Refine.antt =====
-- The operations of a container against a list of values with a place for each index and a list of
-- free indices.
use iceoryx_in_rust.Prelude.{
  ℕ, suc, ◌<◌, ◌≡◌, refl, sym, ◌∙◌, ap, true, false, Option, none, some, List, [], ◌∷◌, arith,
  length, get_or, set, get_or-set_self, subst, length-set, lt→ltb,
}
use iceoryx_in_rust.Outcome.{done}
use iceoryx_in_rust.LockFree.Container.{
  Container, add, add_acquire, add_at, add_write, add_activate, drop_index, remove_raw_index,
  verify_memory_initialization,
}
use iceoryx_in_rust.LockFree.Container.Entries.{
  entries, Filled, length-entries, activate, deactivate, Vacant, Vacant-set, Vacant-clear,
  occupied-inside, occupied-NotIn,
}
use iceoryx_in_rust.LockFree.UniqueIndexSet.FreeList
use iceoryx_in_rust.LockFree.UniqueIndexSet.FreeList.{
  NotIn, Unique, take_first, acquired, released, acquire-acquired, acquire-none,
  acquired-Represents, release-released, released-Represents, upto,
}

module _ {A : Type 0} where
  pub record Represents (c : Container A) (free : List ℕ) (cells : List (Option A)) : Type 0 where
    pub set_holds : FreeList.Represents c.index_set free
    pub ready : c.is_memory_initialized ≡ true
    pub filled : Filled c.active_index c.data_cells
    pub same : entries c.active_index c.data_cells ≡ cells
    pub long : length c.active_index ≡ c.capacity
    pub matches : c.index_set.capacity ≡ c.capacity
    pub vacant : Vacant cells free

  -- What `add` leaves on the list of values.
  unfoldable pub put_first : List ℕ → List (Option A) → A → List (Option A)
  put_first [] cells v = cells
  put_first (x ∷ xs) cells v = set cells x (some v)

  -- What `add` and `remove_raw_index` leave in the container.
  abbrev pub added : Container A → ℕ → A → Container A
  added c x v = record c {
    index_set = acquired c.index_set x;
    data_cells = set c.data_cells x (some v);
    active_index = set c.active_index x true;
  }

  abbrev pub removed : Container A → ℕ → Container A
  removed c i = record c {
    active_index = set c.active_index i false;
    index_set = released c.index_set i;
  }

  module _ (c : Container A) (cells : List (Option A)) (fuel : ℕ) where
    pub length-cells :
        (free : List ℕ)
        → Represents c free cells
        → (length cells ≡ c.capacity) × (length c.data_cells ≡ c.capacity)
    length-cells free h =
        let (e, f) = length-entries c.active_index c.data_cells h.filled in
        (ap length (sym h.same) ∙ e ∙ h.long, f ∙ h.long)

    pub add-added :
        (x : ℕ) (xs : List ℕ) (v : A)
        → Represents c (x ∷ xs) cells
        → add (suc fuel) c v ≡ done (some x, added c x v)
    unfolding add add_acquire add_at add_write add_activate verify_memory_initialization
    add-added x xs v h =
        let inside : x < c.capacity = subst (λ n. x < n) h.matches h.set_holds.chain.1 in
        rw (
          h.ready,
          acquire-acquired c.index_set fuel x xs h.set_holds,
          lt→ltb x (length c.data_cells) (omega (arith, inside, (length-cells (x ∷ xs) h).1)),
          lt→ltb x (length c.active_index) (omega (arith, inside, h.long)),
        )

    pub added-Represents :
        (x : ℕ) (xs : List ℕ) (v : A)
        → Represents c (x ∷ xs) cells
        → Represents (added c x v) xs (set cells x (some v))
    added-Represents x xs v h =
        let (f, e) = activate c.active_index c.data_cells x v h.filled in
        record {
          set_holds = acquired-Represents c.index_set x xs h.set_holds;
          ready = h.ready;
          filled = f;
          same = e ∙ ap (λ ys. set ys x (some v)) h.same;
          long = length-set c.active_index x true ∙ h.long;
          matches = h.matches;
          vacant = Vacant-set cells xs x v h.set_holds.unique.0 h.vacant.1;
        }

    pub add-none : (v : A) → Represents c [] cells → add (suc fuel) c v ≡ done (none, c)
    unfolding add add_acquire add_at verify_memory_initialization
    add-none v h = rw (h.ready, acquire-none c.index_set fuel h.set_holds)

    -- On a container in range, `add` returns the first free index, the value is stored at this index
    -- and at no other, and the index is no longer free; with no free index it returns `None` and the
    -- container is as before.
    pub add-Refines :
        (free : List ℕ) (v : A)
        → Represents c free cells
        → (c' : Container A) × (add (suc fuel) c v ≡ done ((take_first free).0, c'))
          × Represents c' (take_first free).1 (put_first free cells v)
          × (c'.capacity ≡ c.capacity)
    unfolding take_first put_first
    add-Refines [] v h = (c, add-none v h, h, refl)
    add-Refines (x ∷ xs) v h = (added c x v, add-added x xs v h, added-Represents x xs v h, refl)

    pub remove-removed :
        (free : List ℕ) (i : ℕ)
        → Represents c free cells
        → i < c.capacity
        → remove_raw_index (suc fuel) c i ≡ done (removed c i)
    unfolding remove_raw_index drop_index verify_memory_initialization
    remove-removed free i h inside = rw (
      h.ready,
      lt→ltb i (length c.active_index) (omega (arith, inside, h.long)),
      release-released c.index_set fuel i free h.set_holds
          (omega (arith, inside, h.matches, h.set_holds.room)),
    )

    pub removed-Represents :
        (free : List ℕ) (i : ℕ)
        → Represents c free cells
        → i < c.capacity
        → NotIn i free
        → Represents (removed c i) (i ∷ free) (set cells i none)
    removed-Represents free i h inside out =
        let (f, e) = deactivate c.active_index c.data_cells i h.filled in
        let room : i < length cells = omega (arith, inside, (length-cells free h).0) in
        record {
          set_holds =
              released-Represents c.index_set i free h.set_holds (omega (arith, inside, h.matches))
                out;
          ready = h.ready;
          filled = f;
          same = e ∙ ap (λ ys. set ys i none) h.same;
          long = length-set c.active_index i false ∙ h.long;
          matches = h.matches;
          vacant =
              (get_or-set_self cells i none none room, Vacant-clear cells free i room h.vacant);
        }

    -- Removing an index that holds a value takes the value out, changes no other, and makes the index
    -- the next one that `add` hands out.
    pub remove_raw_index-Refines :
        (free : List ℕ) (i : ℕ) (v : A)
        → Represents c free cells
        → get_or cells i none ≡ some v
        → (c' : Container A) × (remove_raw_index (suc fuel) c i ≡ done c')
          × Represents c' (i ∷ free) (set cells i none)
          × (c'.capacity ≡ c.capacity)
    remove_raw_index-Refines free i v h there =
        let inside : i < c.capacity =
          omega (arith, occupied-inside cells i v there, (length-cells free h).0) in
        (
          removed c i,
          remove-removed free i h inside,
          removed-Represents free i h inside (occupied-NotIn cells free i v there h.vacant),
          refl,
        )
