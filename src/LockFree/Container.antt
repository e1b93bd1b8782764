-- ===== src/LockFree/Container.antt =====
-- elkodon_bb/lock_free/src/mpmc/container.rs: values at unique indices, and snapshots of them that
-- are renewed when the head of the index set has moved on. The calls come one after the other, so
-- the copy of an entry is not repeated; only `add` is given in its three parts.
pub mod Entries
pub mod Refine
pub mod Calls
pub mod History
pub mod Missed
mod Tests
use iceoryx_in_rust.Prelude.{
  ℕ, zero, suc, ◌+◌, ◌-◌, ◌*◌, Bool, true, false, not, Option, none, some, List, [], ◌∷◌, ◌==◌,
  if◌then◌else◌, replicate, get_elem?,
}
use iceoryx_in_rust.Outcome.{
  Outcome, done, panic, fault, ◌>>=◌, ◌>>◌, panic_if, raw_write, assume_init,
}
use iceoryx_in_rust.LockFree.UniqueIndexSet
use iceoryx_in_rust.LockFree.UniqueIndexSet.{UniqueIndexSet, acquire_raw_index, release_raw_index}

pub record Container (A : Type 0) : Type 0 where
  pub active_index : List Bool
  pub data_cells : List (Option A)
  pub capacity : ℕ
  pub is_memory_initialized : Bool
  pub index_set : UniqueIndexSet

pub record ContainerState (A : Type 0) : Type 0 where
  pub current_index_set_head : ℕ
  pub data_cells : List (Option (ℕ × A))
  pub active_index : List Bool

module _ {A : Type 0} where
  pub new_uninit : ℕ → Container A
  new_uninit capacity = record {
    active_index = [];
    data_cells = [];
    capacity = capacity;
    is_memory_initialized = false;
    index_set = UniqueIndexSet.new_uninit capacity;
  }

  -- Whether the allocator grants the memory of the index set and that of the two arrays are
  -- arguments; an error is passed on as `false`.
  pub init : Container A → Bool → Bool → Outcome (Bool × Container A)
  init c granted_set granted_arrays =
      panic_if c.is_memory_initialized
      >> (UniqueIndexSet.init c.index_set granted_set >>= λ r.
          (if r.0
            then (if granted_arrays
                then done (
                  true,
                  record c {
                    index_set = r.1;
                    active_index = replicate c.capacity false;
                    data_cells = replicate c.capacity none;
                    is_memory_initialized = true;
                  },
                )
                else done (false, record c { index_set = r.1 }))
            else done (false, record c { index_set = r.1 })))

  pub verify_memory_initialization : Container A → Outcome (Unit {0})
  verify_memory_initialization c = panic_if (not c.is_memory_initialized)

  -- The three parts of `add`: the index is acquired, the value is written, the entry is activated.
  pub add_acquire : ℕ → Container A → Outcome (Option ℕ × Container A)
  unfolding verify_memory_initialization
  add_acquire fuel c =
      verify_memory_initialization c
      >> (acquire_raw_index fuel c.index_set >>= λ r. done (r.0, record c { index_set = r.1 }))

  pub add_write : Container A → ℕ → A → Outcome (Container A)
  add_write c index value =
      raw_write c.data_cells index (some value) >>= λ cells. done (record c { data_cells = cells })

  pub add_activate : Container A → ℕ → Outcome (Container A)
  add_activate c index =
      raw_write c.active_index index true >>= λ active. done (record c { active_index = active })

  pub add_at : Option ℕ → Container A → A → Outcome (Option ℕ × Container A)
  unfolding add_write add_activate
  add_at none c value = done (none, c)
  add_at (some index) c value =
      add_write c index value >>= λ c'. (add_activate c' index >>= λ c''. done (some index, c''))

  pub add : ℕ → Container A → A → Outcome (Option ℕ × Container A)
  unfolding add_acquire add_at
  add fuel c value = add_acquire fuel c >>= λ r. add_at r.0 r.1 value

  -- What the callback of `add` and the drop of the `UniqueIndex` do together.
  pub drop_index : ℕ → Container A → ℕ → Outcome (Container A)
  drop_index fuel c index = raw_write c.active_index index false >>= λ active.
      (release_raw_index fuel c.index_set index >>= λ s.
      done (record c { active_index = active; index_set = s }))

  pub remove_raw_index : ℕ → Container A → ℕ → Outcome (Container A)
  unfolding verify_memory_initialization drop_index
  remove_raw_index fuel c index = verify_memory_initialization c >> drop_index fuel c index

  -- One entry of `update_state`.
  pub copy_entry : ℕ → Bool → Option A → Option (ℕ × A) → Outcome (Option (ℕ × A))
  copy_entry i true value old = assume_init value >>= λ v. done (some (i, v))
  copy_entry i false value old = done old

  pub copy_entries :
      ℕ → List Bool → List (Option A) → List (Option (ℕ × A)) → Outcome (List (Option (ℕ × A)))
  unfolding copy_entry
  copy_entries i [] values olds = done []
  copy_entries i (active ∷ actives) (value ∷ values) (old ∷ olds) =
      copy_entry i active value old >>= λ e.
      (copy_entries (i + 1) actives values olds >>= λ es. done (e ∷ es))
  copy_entries i (active ∷ actives) _ _ = fault

  pub update_state : Container A → ContainerState A → Outcome (Bool × ContainerState A)
  unfolding copy_entries
  update_state c st =
      if st.current_index_set_head == c.index_set.head
      then done (false, st)
      else (copy_entries 0 c.active_index c.data_cells st.data_cells >>= λ cells. done (
        true,
        record {
          current_index_set_head = c.index_set.head;
          data_cells = cells;
          active_index = c.active_index;
        },
      ))

  abbrev pub empty_state : ℕ → ContainerState A
  empty_state capacity = record {
    current_index_set_head = 0;
    data_cells = replicate capacity none;
    active_index = replicate capacity false;
  }

  pub get_state : Container A → Outcome (ContainerState A)
  unfolding verify_memory_initialization update_state
  get_state c =
      verify_memory_initialization c >> (update_state c (empty_state c.capacity) >>= λ r. done r.1)

  -- The calls of the callback, in their order.
  pub for_each_from : List Bool → List (Option (ℕ × A)) → Outcome (List (ℕ × A))
  for_each_from [] datas = done []
  for_each_from (true ∷ actives) (d ∷ datas) =
      assume_init d >>= λ e. (for_each_from actives datas >>= λ es. done (e ∷ es))
  for_each_from (false ∷ actives) (d ∷ datas) = for_each_from actives datas
  for_each_from (active ∷ actives) [] = panic

  pub for_each : ContainerState A → Outcome (List (ℕ × A))
  unfolding for_each_from
  for_each st = for_each_from st.active_index st.data_cells

-- `const_memory_size`, with the sizes and alignments of `u32` and of `T`.
pub const_memory_size : ℕ → ℕ → ℕ → ℕ
const_memory_size size alignment capacity =
    4 * (capacity + 1) + (1 + size) * capacity + 4 - 1 + alignment - 1
