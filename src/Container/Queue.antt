-- ===== src/Container/Queue.antt =====
-- elkodon_bb/container/src/queue.rs: the bounded FIFO `Queue`, its relocatable form and
-- `FixedSizeQueue`, which passes every call on. A cell is `MaybeUninit<T>`: `none` is memory that
-- holds no value, and `assume_init` on it is a fault.
pub mod Fifo
pub mod Refine
mod Tests
use iceoryx_in_rust.Prelude.{
  ℕ, zero, suc, ◌+◌, ◌-◌, ◌*◌, ◌%◌, Bool, true, false, not, Option, none, some, List, [], ◌∷◌, ltb,
  leb, ◌==◌, if◌then◌else◌, get_or, set, replicate,
}
use iceoryx_in_rust.Prelude.Word.{add_usize, sub_usize}
use iceoryx_in_rust.Outcome.{
  Outcome, done, panic, fault, ◌>>=◌, ◌>>◌, panic_if, raw_write, assume_init,
}

pub record Queue (A : Type 0) : Type 0 where
  pub cells : List (Option A)
  pub start : ℕ
  pub len : ℕ
  pub capacity : ℕ
  pub is_initialized : Bool

module _ {A : Type 0} where
  -- The data pointer leads to `cells`, freshly allocated for `Queue::new`.
  pub new : ℕ → Queue A
  new capacity = record {
    cells = replicate capacity none;
    start = 0;
    len = 0;
    capacity = capacity;
    is_initialized = true;
  }

  pub new_uninit : ℕ → Queue A
  new_uninit capacity = record {
    cells = [];
    start = 0;
    len = 0;
    capacity = capacity;
    is_initialized = false;
  }

  -- What the allocator returns is an argument; `none` is its error, which is passed on.
  pub init : Queue A → Option (List (Option A)) → Outcome (Bool × Queue A)
  init q allocation = panic_if q.is_initialized >> elim allocation [
    | none ↦ done (false, q)
    | some cells ↦ done (true, record q { cells = cells; is_initialized = true })
  ]

  pub verify_init : Queue A → Outcome (Unit {0})
  verify_init q = panic_if (not q.is_initialized)

  pub is_empty : Queue A → Bool
  is_empty q = q.len == 0

  pub is_full : Queue A → Bool
  is_full q = q.len == q.capacity

  -- `position % self.capacity`; a remainder by zero panics.
  pub index_of : Queue A → ℕ → Outcome ℕ
  index_of q position = if q.capacity == 0 then panic else done (position % q.capacity)

  pub get_unchecked : Queue A → ℕ → Outcome A
  unfolding index_of assume_init
  get_unchecked q index = do
    i ← index_of q (add_usize (sub_usize q.start q.len) index)
    assume_init (get_or q.cells i none)

  pub get : Queue A → ℕ → Outcome A
  unfolding get_unchecked
  get q index = panic_if (leb q.len index) >> get_unchecked q index

  pub pop : Queue A → Outcome (Option A × Queue A)
  unfolding is_empty verify_init index_of assume_init
  pop q =
      if is_empty q
      then done (none, q)
      else (verify_init q
          >> (index_of q (sub_usize q.start q.len) >>= λ i.
              (assume_init (get_or q.cells i none) >>= λ a.
              done (some a, record q { cells = set q.cells i none; len = q.len - 1 }))))

  pub unchecked_push : Queue A → A → Outcome (Queue A)
  unfolding index_of
  unchecked_push q value = index_of q q.start >>= λ i.
      (raw_write q.cells i (some value) >>= λ cells.
      done (record q { cells = cells; start = add_usize q.start 1; len = add_usize q.len 1 }))

  pub push : Queue A → A → Outcome (Bool × Queue A)
  unfolding verify_init
  push q value =
      if q.len == q.capacity
      then done (false, q)
      else (verify_init q >> (unchecked_push q value >>= λ r. done (true, r)))

  pub push_with_overflow : Queue A → A → Outcome (Option A × Queue A)
  unfolding verify_init
  push_with_overflow q value = do
    r ← if q.len == q.capacity then pop q else done (none, q)
    verify_init r.1
    pushed ← unchecked_push r.1 value
    done (r.0, pushed)

  -- `while self.pop().is_some() {}`; with no fuel left the loop is cut off, which is no result.
  pub clear_loop : ℕ → Queue A → Outcome (Queue A)
  clear_loop zero q = fault
  clear_loop (suc fuel) q =
      let next = λ (r : Queue A). clear_loop fuel r in
      pop q >>= λ r. elim r.0 [ none ↦ done r.1 | some _ ↦ next r.1 ]

  pub clear : Queue A → Outcome (Queue A)
  unfolding clear_loop
  clear q = clear_loop (q.len + 1) q

-- `const_memory_size` for a type of the given size and alignment.
pub const_memory_size : ℕ → ℕ → ℕ → ℕ
const_memory_size size align capacity = size * capacity + align - 1
