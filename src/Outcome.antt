-- ===== src/Outcome.antt =====
-- What a Rust call comes to when it may not return: a value, a panic (`fatal_panic!`, `panic!`, an
-- array index out of range), or undefined behaviour (a raw pointer access out of range).
use iceoryx_in_rust.Prelude.{
  Option, some, none, ℕ, ◌+◌, Bool, true, false, ◌&&◌, List, ◌++◌, leb, ltb, if◌then◌else◌, length,
  get_or, set, take, drop,
}

pub data Outcome {ℓ} (A : Type ℓ) : Type ℓ where
  done : A → Outcome A
  panic : Outcome A
  fault : Outcome A

infixl 5 ◌>>=◌ ◌>>◌
abbrev pub ◌>>=◌ {ℓ κ} : {A : Type ℓ} {B : Type κ} → Outcome A → (A → Outcome B) → Outcome B
done a >>= f = f a
panic >>= f = panic
fault >>= f = fault

abbrev pub ◌>>◌ {ℓ} : {B : Type ℓ} → Outcome (Unit {0}) → Outcome B → Outcome B
m >> k = m >>= λ _. k

-- `fatal_panic!` under a condition.
abbrev pub panic_if : Bool → Outcome (Unit {0})
panic_if true = panic
panic_if false = done tt

-- `array[i]`, checked; `read_at` reads it and `write_at` writes it.
abbrev pub check_index : List ℕ → ℕ → Outcome (Unit {0})
check_index xs i = if ltb i (length xs) then done tt else panic

abbrev pub read_at : List ℕ → ℕ → Outcome ℕ
read_at xs i = if ltb i (length xs) then done (get_or xs i 0) else panic

abbrev pub write_at : List ℕ → ℕ → ℕ → Outcome (List ℕ)
write_at xs i v = if ltb i (length xs) then done (set xs i v) else panic

-- `std::ptr::copy` of `n` cells inside one array: unchecked, so out of range it is a fault.
abbrev pub copy_within : List ℕ → ℕ → ℕ → ℕ → Outcome (List ℕ)
copy_within xs src dst n =
    if leb (src + n) (length xs) && leb (dst + n) (length xs)
    then done (take dst xs ++ (take n (drop src xs) ++ drop (dst + n) xs))
    else fault

-- A write through a raw pointer into memory that holds these cells.
abbrev pub raw_write {ℓ} : {A : Type ℓ} → List A → ℕ → A → Outcome (List A)
raw_write xs i v = if ltb i (length xs) then done (set xs i v) else fault

-- `MaybeUninit::assume_init`: `none` is memory that holds no value.
unfoldable pub assume_init {ℓ} : {A : Type ℓ} → Option A → Outcome A
assume_init none = fault
assume_init (some a) = done a
