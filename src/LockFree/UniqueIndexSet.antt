-- ===== src/LockFree/UniqueIndexSet.antt =====
-- elkodon_bb/lock_free/src/mpmc/unique_index_set.rs: the set of free indices. The word `head` packs
-- the first free index and a counter; `next_free` leads from each free index to the next one. The
-- calls are modelled one after the other; the retry loop runs on fuel.
pub mod FreeList
pub mod Clients
pub mod Threads
mod Tests
use iceoryx_in_rust.Prelude.{
  ℕ, zero, suc, ◌+◌, ◌-◌, ◌*◌, ◌/◌, ◌%◌, ◌^◌, Bool, true, false, not, Option, none, some, List, [],
  ◌∷◌, ◌++◌, ltb, leb, ◌==◌, if◌then◌else◌, length, get_or, set,
}
use iceoryx_in_rust.Prelude.Word.{add_u32, as_u32}
use iceoryx_in_rust.Outcome.{Outcome, done, panic, fault, ◌>>=◌, ◌>>◌, panic_if, raw_write}

pub record UniqueIndexSet : Type 0 where
  pub next_free : List ℕ
  pub capacity : ℕ
  pub head : ℕ
  pub is_memory_initialized : Bool

pub extract_head_and_aba : ℕ → ℕ × ℕ
extract_head_and_aba value = (value / 2 ^ 32 % 2 ^ 32, value % 2 ^ 32)

-- The low half of the shifted head is zero, so that `|` adds the counter.
pub pack_from_head_and_aba : ℕ → ℕ → ℕ
pack_from_head_and_aba head aba = head * 2 ^ 32 + aba

-- The `n` cells that hold `i + 1` at the place `i`, from `first` on.
abbrev pub links : ℕ → ℕ → List ℕ
links first zero = []
links first (suc n) = first ∷ links (first + 1) n

unfoldable pub new_uninit : ℕ → UniqueIndexSet
new_uninit capacity = record {
  next_free = [];
  capacity = as_u32 capacity;
  head = 0;
  is_memory_initialized = false;
}

-- Whether the allocator grants the memory is an argument; its error is passed on as `false`.
pub init : UniqueIndexSet → Bool → Outcome (Bool × UniqueIndexSet)
init s granted =
    panic_if s.is_memory_initialized
    >> (if granted
        then done
            (true, record s { next_free = links 1 (s.capacity + 1); is_memory_initialized = true })
        else done (false, s))

pub verify_init : UniqueIndexSet → Outcome (Unit {0})
verify_init s = panic_if (not s.is_memory_initialized)

-- `*self.get_next_free_index(index)`, unchecked.
pub next_free_index : UniqueIndexSet → ℕ → Outcome ℕ
next_free_index s index =
    if ltb index (length s.next_free) then done (get_or s.next_free index 0) else fault

-- The loop of `acquire_raw_index`, whose local is the word that was last seen. It returns the index
-- and the set whose head was exchanged. No fuel left is no result.
pub acquire_loop : ℕ → UniqueIndexSet → ℕ → Outcome (Option (ℕ × UniqueIndexSet))
unfolding extract_head_and_aba pack_from_head_and_aba next_free_index
acquire_loop zero s old = fault
acquire_loop (suc fuel) s old =
    let (old_head, old_aba) = extract_head_and_aba old in
    let retry = acquire_loop fuel s s.head in
    if leb s.capacity old_head
    then done none
    else (next_free_index s old_head >>= λ new_head.
        (if s.head == old
          then done (
              some
                (old_head, record s { head = pack_from_head_and_aba new_head (add_u32 old_aba 1) }))
          else retry))

-- The link of an index that is taken leads nowhere: `capacity + 1`.
pub detach : Option (ℕ × UniqueIndexSet) → UniqueIndexSet → Outcome (Option ℕ × UniqueIndexSet)
detach none s = done (none, s)
detach (some (index, taken)) s = raw_write taken.next_free index (taken.capacity + 1) >>= λ cells.
    done (some index, record taken { next_free = cells })

pub acquire_raw_index : ℕ → UniqueIndexSet → Outcome (Option ℕ × UniqueIndexSet)
unfolding acquire_loop detach verify_init
acquire_raw_index fuel s = verify_init s >> (acquire_loop fuel s s.head >>= λ r. detach r s)

pub release_loop : ℕ → UniqueIndexSet → ℕ → ℕ → Outcome UniqueIndexSet
unfolding extract_head_and_aba pack_from_head_and_aba
release_loop zero s index old = fault
release_loop (suc fuel) s index old =
    let (old_head, old_aba) = extract_head_and_aba old in
    raw_write s.next_free index old_head >>= λ cells.
    (let linked = record s { next_free = cells } in
      let retry = release_loop fuel linked index linked.head in
      if linked.head == old
      then done (record linked { head = pack_from_head_and_aba index (add_u32 old_aba 1) })
      else retry)

pub release_raw_index : ℕ → UniqueIndexSet → ℕ → Outcome UniqueIndexSet
unfolding release_loop verify_init
release_raw_index fuel s index = verify_init s >> release_loop fuel s index s.head

-- `UniqueIndexCreationError`
pub data CreationError : Type 0 where
  provided_capacity_greater_than_max_capacity : CreationError
  provided_capacity_is_zero : CreationError

pub data Creation : Type 0 where
  created : UniqueIndexSet → Creation
  failed : CreationError → Creation

-- `FixedSizeUniqueIndexSet<CAPACITY>`: `CAPACITY` links, and one more behind them.
pub new_with_reduced_capacity : ℕ → ℕ → Creation
new_with_reduced_capacity max_capacity capacity =
    if ltb max_capacity capacity
    then failed provided_capacity_greater_than_max_capacity
    else if capacity == 0
    then failed provided_capacity_is_zero
    else created (record {
      next_free = links 1 max_capacity ++ ((capacity + 1) ∷ []);
      capacity = as_u32 capacity;
      head = 0;
      is_memory_initialized = true;
    })

-- `const_memory_size`, with the size and alignment of `u32`.
pub const_memory_size : ℕ → ℕ
const_memory_size capacity = 4 * (capacity + 1) + 4 - 1
