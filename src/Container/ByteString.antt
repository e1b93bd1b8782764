-- ===== src/Container/ByteString.antt =====
-- elkodon_bb/container/src/byte_string.rs: `FixedSizeByteString<CAPACITY>`, byte by byte. `cells`
-- is the array `data`, and `terminator` the byte that follows it in the `repr(C)` struct. A method
-- on `&mut self` returns the string as it leaves it.
pub mod Memory
pub mod Text
pub mod Insert
pub mod Remove
pub mod Search
pub mod Strip
pub mod Retain
pub mod Create
pub mod CStr
pub mod Escape
mod Tests
use iceoryx_in_rust.Prelude.{
  ℕ, zero, suc, ◌+◌, ◌-◌, ◌/◌, ◌%◌, Bool, true, false, Option, none, some, List, [], ◌∷◌, ◌++◌, ltb,
  leb, ◌==◌, ◌&&◌, if◌then◌else◌, length, get_or, set, take, drop,
}
use iceoryx_in_rust.Prelude.Word.{add_usize, sub_usize}
use iceoryx_in_rust.Outcome.{
  Outcome, done, panic, fault, ◌>>=◌, ◌>>◌, panic_if, check_index, read_at, write_at, copy_within,
}

pub record ByteString : Type 0 where
  pub cap : ℕ
  pub len : ℕ
  pub cells : List ℕ
  pub terminator : ℕ

-- `FixedSizeByteStringModificationError`, with the `Ok(())` of the calls that return it.
pub data Status : Type 0 where
  ok : Status
  insert_would_exceed_capacity : Status

-- The bytes from `data[0]` on, those of the terminator included.
abbrev pub memory : ByteString → List ℕ
memory s = s.cells ++ (s.terminator ∷ [])

abbrev pub as_bytes : ByteString → List ℕ
as_bytes s = take s.len (memory s)

abbrev pub as_bytes_with_nul : ByteString → List ℕ
as_bytes_with_nul s = take (s.len + 1) (memory s)

pub is_empty : ByteString → Bool
is_empty s = s.len == 0

pub is_full : ByteString → Bool
is_full s = s.len == s.cap

-- `PartialEq`: the slices are compared, whatever the capacities.
pub eq_bytes : List ℕ → List ℕ → Bool
eq_bytes [] [] = true
eq_bytes (x ∷ xs) (y ∷ ys) = (x == y) && eq_bytes xs ys
eq_bytes _ _ = false

pub eq : ByteString → ByteString → Bool
unfolding eq_bytes
eq s t = eq_bytes (as_bytes s) (as_bytes t)

-- `uninit` stands for what the uninitialised array happens to hold.
pub new : ℕ → List ℕ → Outcome ByteString
new cap uninit = do
  cells ← write_at uninit 0 0
  done (record { cap = cap; len = 0; cells = cells; terminator = 0 })

-- The loop of `insert_bytes_unchecked`: byte `i` goes to `data[idx + i]`.
pub write_all : List ℕ → ℕ → List ℕ → Outcome (List ℕ)
write_all cells idx [] = done cells
write_all cells idx (b ∷ bytes) =
    write_at cells idx b >>= λ written. write_all written (idx + 1) bytes

-- `if self.len < CAPACITY { self.data[self.len].write(0) }`
pub terminate : ByteString → Outcome ByteString
terminate s =
    if ltb s.len s.cap
    then (write_at s.cells s.len 0 >>= λ cells. done (record s { cells = cells }))
    else done s

pub insert_bytes_unchecked : ByteString → ℕ → List ℕ → Outcome ByteString
unfolding write_all terminate
insert_bytes_unchecked s idx bytes = do
  check_index s.cells idx
  moved ← copy_within s.cells idx (idx + length bytes) (sub_usize s.len idx)
  written ← write_all moved idx bytes
  terminate (record s { len = add_usize s.len (length bytes); cells = written })

pub insert_bytes : ByteString → ℕ → List ℕ → Outcome (Status × ByteString)
insert_bytes s idx bytes =
    if ltb s.len idx
    then panic
    else if ltb s.cap (add_usize s.len (length bytes))
    then done (insert_would_exceed_capacity, s)
    else (insert_bytes_unchecked s idx bytes >>= λ t. done (ok, t))

pub insert : ByteString → ℕ → ℕ → Outcome (Status × ByteString)
insert s idx byte = insert_bytes s idx (byte ∷ [])

pub push_bytes : ByteString → List ℕ → Outcome (Status × ByteString)
push_bytes s bytes = insert_bytes s s.len bytes

pub push : ByteString → ℕ → Outcome (Status × ByteString)
push s byte = insert s s.len byte

pub remove_range_impl : ByteString → ℕ → ℕ → Outcome ByteString
remove_range_impl s idx n = do
  check_index s.cells (add_usize idx n)
  check_index s.cells idx
  moved ← copy_within s.cells (add_usize idx n) idx (sub_usize s.len (add_usize idx n))
  let len = sub_usize s.len n
  cleared ← write_at moved len 0
  done (record s { len = len; cells = cleared })

pub remove : ByteString → ℕ → Outcome (ℕ × ByteString)
remove s idx = do
  panic_if (ltb s.len idx)
  byte ← read_at s.cells idx
  t ← remove_range_impl s idx 1
  done (byte, t)

pub remove_range : ByteString → ℕ → ℕ → Outcome ByteString
remove_range s idx n = panic_if (ltb s.len (add_usize idx n)) >> remove_range_impl s idx n

pub pop : ByteString → Outcome (Option ℕ × ByteString)
unfolding is_empty
pop s = if is_empty s then done (none, s) else (remove s (s.len - 1) >>= λ r. done (some r.0, r.1))

-- The loop of `retain_impl`, from the last byte to the first; `f` keeps no state.
pub retain_down : (ℕ → Bool) → ℕ → ByteString → Outcome ByteString
retain_down f zero s = done s
retain_down f (suc idx) s = do
  byte ← read_at s.cells idx
  t ← if f byte then (remove s idx >>= λ r. done r.1) else done s
  retain_down f idx t

pub retain : (ℕ → Bool) → ByteString → Outcome ByteString
unfolding retain_down
retain f s = retain_down f s.len s

pub clear : ByteString → Outcome ByteString
clear s = write_at s.cells 0 0 >>= λ cells. done (record s { len = 0; cells = cells })

pub truncate : ByteString → ℕ → Outcome ByteString
unfolding terminate
truncate s new_len = if ltb s.len new_len then done s else terminate (record s { len = new_len })

-- The inner loop of `find` and `rfind`: do `bytes` stand at `i`? It stops at the first mismatch.
pub matches_at : List ℕ → ℕ → List ℕ → Bool
matches_at cells i [] = true
matches_at cells i (b ∷ bytes) = (get_or cells i 0 == b) && matches_at cells (i + 1) bytes

-- The loop of `find` over `i..i + rounds`.
pub find_from : List ℕ → List ℕ → ℕ → ℕ → Option ℕ
unfolding matches_at
find_from cells bytes i zero = none
find_from cells bytes i (suc rounds) =
    let rest = find_from cells bytes (i + 1) rounds in
    if matches_at cells i bytes then some i else rest

pub find : ByteString → List ℕ → Option ℕ
unfolding find_from
find s bytes =
    if ltb s.len (length bytes) then none else find_from s.cells bytes 0 (s.len - length bytes + 1)

-- The loop of `rfind` over `(0..rounds).rev()`.
pub rfind_down : List ℕ → List ℕ → ℕ → Option ℕ
unfolding matches_at
rfind_down cells bytes zero = none
rfind_down cells bytes (suc i) =
    let rest = rfind_down cells bytes i in if matches_at cells i bytes then some i else rest

pub rfind : ByteString → List ℕ → Option ℕ
unfolding rfind_down
rfind s bytes =
    if ltb s.len (length bytes) then none else rfind_down s.cells bytes (s.len - length bytes + 1)

pub strip_prefix : ByteString → List ℕ → Outcome (Bool × ByteString)
strip_prefix s bytes = elim (find s bytes) [
  | some zero ↦ remove_range s 0 (length bytes) >>= λ t. done (true, t)
  | _ ↦ done (false, s)
]

pub strip_found : ByteString → List ℕ → Option ℕ → Outcome (Bool × ByteString)
strip_found s bytes none = done (false, s)
strip_found s bytes (some v) =
    if v == (s.len - length bytes)
    then (remove_range s (s.len - length bytes) (length bytes) >>= λ t. done (true, t))
    else done (false, s)

pub strip_suffix : ByteString → List ℕ → Outcome (Bool × ByteString)
unfolding strip_found
strip_suffix s bytes =
    if ltb s.len (length bytes) then done (false, s) else strip_found s bytes (rfind s bytes)

-- `strlen` of a pointer to `memory`; a read past the end of the memory is a fault.
pub strlen : List ℕ → Outcome ℕ
strlen [] = fault
strlen (c ∷ memory) =
    let rest = strlen memory in if c == 0 then done 0 else (rest >>= λ n. done (n + 1))

-- `none` is `InsertWouldExceedCapacity`.
accepted : Status × ByteString → Option ByteString
accepted (ok, s) = some s
accepted (insert_would_exceed_capacity, s) = none

pub from_bytes : ℕ → List ℕ → List ℕ → Outcome (Option ByteString)
unfolding accepted
from_bytes cap uninit bytes = do s ← new cap uninit; r ← push_bytes s bytes; done (accepted r)

-- `From<&[u8; BYTE_CAPACITY]>`; the `unwrap` panics on an error.
pub unwrap : Status × ByteString → Outcome ByteString
unwrap (ok, s) = done s
unwrap (insert_would_exceed_capacity, s) = panic

pub from : ℕ → List ℕ → List ℕ → Outcome ByteString
unfolding unwrap
from cap uninit bytes = do
  panic_if (ltb cap (length bytes))
  s ← new cap uninit
  r ← push_bytes s bytes
  unwrap r

-- The two raw copies of `new_unchecked`: the bytes, then a zero behind them, which is the
-- terminator if they fill the array.
pub fill : ByteString → List ℕ → ByteString
fill s bytes =
    if ltb (length bytes) s.cap
    then record s {
      len = length bytes;
      cells = set (bytes ++ drop (length bytes) s.cells) (length bytes) 0;
    }
    else record s {
      len = length bytes;
      cells = bytes ++ drop (length bytes) s.cells;
      terminator = 0;
    }

pub new_unchecked : ℕ → List ℕ → List ℕ → Outcome ByteString
unfolding fill
new_unchecked cap uninit bytes = do
  panic_if (ltb cap (length bytes))
  s ← new cap uninit
  done (fill s bytes)

-- `none` is `InsertWouldExceedCapacity`. The bytes are copied without their `\0`.
pub from_c_str : ℕ → List ℕ → List ℕ → Outcome (Option ByteString)
from_c_str cap uninit memory = do
  n ← strlen memory
  let copy = λ (s : ByteString). record s { len = n; cells = take n memory ++ drop n s.cells }
  if ltb cap n then done none else (new cap uninit >>= λ s. done (some (copy s)))

pub hex_digit : ℕ → ℕ
hex_digit n = if ltb n 10 then b'0' + n else b'a' + (n - 10)

-- One byte of `as_escaped_string`.
pub escape : ℕ → List ℕ
unfolding hex_digit
escape c =
    if c == 0x09
    then b'\\' ∷ b't' ∷ []
    else if c == 0x0d
    then b'\\' ∷ b'r' ∷ []
    else if c == 0x0a
    then b'\\' ∷ b'n' ∷ []
    else if leb 0x20 c && leb c 0x7e
    then c ∷ []
    else b'\\' ∷ b'x' ∷ hex_digit (c / 16) ∷ hex_digit (c % 16) ∷ []

pub as_escaped_string : List ℕ → List ℕ
unfolding escape
as_escaped_string [] = []
as_escaped_string (c ∷ bytes) = escape c ++ as_escaped_string bytes
