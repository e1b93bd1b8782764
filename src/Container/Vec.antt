-- ===== src/Container/Vec.antt =====
-- elkodon_bb/container/src/vec.rs: the vector `Vec` of fixed capacity and `FixedSizeVec`, which
-- passes every call on. A cell is `MaybeUninit<T>`.
pub mod Bounded
pub mod Refine
mod Tests
use iceoryx_in_rust.Prelude.{
  ℕ, zero, suc, ◌+◌, ◌-◌, ◌*◌, Bool, true, false, not, Option, none, some, List, [], ◌∷◌, ltb, leb,
  ◌==◌, if◌then◌else◌, get_or, set, replicate,
}
use iceoryx_in_rust.Outcome.{
  Outcome, done, panic, fault, ◌>>=◌, ◌>>◌, panic_if, raw_write, assume_init,
}

pub record Vec (A : Type 0) : Type 0 where
  pub cells : List (Option A)
  pub capacity : ℕ
  pub len : ℕ
  pub is_initialized : Bool

module _ {A : Type 0} where
  -- The data pointer leads to `capacity` cells behind the struct.
  pub new : ℕ → Vec A
  new capacity = record {
    cells = replicate capacity none;
    capacity = capacity;
    len = 0;
    is_initialized = true;
  }

  pub new_uninit : ℕ → Vec A
  new_uninit capacity = record { cells = []; capacity = capacity; len = 0; is_initialized = false }

  -- What the allocator returns is an argument; `none` is its error, which is passed on.
  pub init : Vec A → Option (List (Option A)) → Outcome (Bool × Vec A)
  init v allocation = panic_if v.is_initialized >> elim allocation [
    | none ↦ done (false, v)
    | some cells ↦ done (true, record v { cells = cells; is_initialized = true })
  ]

  pub verify_init : Vec A → Outcome (Unit {0})
  verify_init v = panic_if (not v.is_initialized)

  pub is_empty : Vec A → Bool
  is_empty v = v.len == 0

  pub is_full : Vec A → Bool
  is_full v = v.len == v.capacity

  pub push_unchecked : Vec A → A → Outcome (Vec A)
  push_unchecked v value = raw_write v.cells v.len (some value) >>= λ cells.
      done (record v { cells = cells; len = v.len + 1 })

  pub push : Vec A → A → Outcome (Bool × Vec A)
  unfolding is_full verify_init
  push v value =
      if is_full v
      then done (false, v)
      else (verify_init v >> (push_unchecked v value >>= λ r. done (true, r)))

  -- `for _ in self.len..self.capacity`, by the rounds left. Cloning has no effect on the vector.
  pub fill_rounds : ℕ → Vec A → A → Outcome (Vec A)
  fill_rounds zero v value = done v
  fill_rounds (suc n) v value = push_unchecked v value >>= λ r. fill_rounds n r value

  pub fill : Vec A → A → Outcome (Vec A)
  fill v value = fill_rounds (v.capacity - v.len) v value

  -- `offset(len - 1)` is in front of the memory if the vector is empty.
  pub pop_unchecked : Vec A → Outcome (A × Vec A)
  pop_unchecked v =
      if v.len == 0
      then fault
      else (assume_init (get_or v.cells (v.len - 1) none) >>= λ a.
          done (a, record v { cells = set v.cells (v.len - 1) none; len = v.len - 1 }))

  pub pop : Vec A → Outcome (Option A × Vec A)
  unfolding is_empty verify_init
  pop v =
      if is_empty v
      then done (none, v)
      else (verify_init v >> (pop_unchecked v >>= λ r. done (some r.0, r.1)))

  -- `for _ in 0..self.len`, by the rounds left.
  pub clear_rounds : ℕ → Vec A → Outcome (Vec A)
  clear_rounds zero v = done v
  clear_rounds (suc n) v = pop_unchecked v >>= λ r. clear_rounds n r.1

  pub clear : Vec A → Outcome (Vec A)
  clear v = clear_rounds v.len v

  pub get_unchecked : Vec A → ℕ → Outcome A
  unfolding assume_init
  get_unchecked v index = assume_init (get_or v.cells index none)

  pub get : Vec A → ℕ → Outcome (Option A)
  unfolding verify_init get_unchecked
  get v index =
      if leb v.len index
      then done none
      else (verify_init v >> (get_unchecked v index >>= λ a. done (some a)))

  -- A write through the reference that `get_mut` returns; `false` is its `None`.
  pub write_mut : Vec A → ℕ → A → Outcome (Bool × Vec A)
  unfolding verify_init
  write_mut v index value =
      if leb v.len index
      then done (false, v)
      else (verify_init v
          >> (raw_write v.cells index (some value) >>= λ cells.
              done (true, record v { cells = cells })))

-- `const_memory_size` for a type of the given size and alignment.
pub const_memory_size : ℕ → ℕ → ℕ → ℕ
const_memory_size size align capacity = size * capacity + align - 1
