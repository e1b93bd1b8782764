-- ===== src/SharedMemoryDirectory/ReferenceCounter.antt =====
-- elkodon_cal/src/shared_memory_directory/reference_counter.rs: a count of references and three flags
-- in one word of 64 bits. Each call returns the word that it leaves.
pub mod Word
pub mod Flags
use iceoryx_in_rust.Prelude.{
  ℕ, ◌+◌, ◌*◌, ◌/◌, ◌%◌, ◌^◌, Bool, true, false, not, ◌==◌, ltb, ◌&&◌, ◌||◌, if◌then◌else◌,
}
use iceoryx_in_rust.Prelude.Word.{add_usize, sub_usize}

pub record ReferenceCounterDetails : Type 0 where
  pub reference_counter : ℕ
  pub is_initialized : Bool
  pub is_persistent : Bool
  pub to_be_removed : Bool

-- `value << by`
abbrev pub shift_left : ℕ → ℕ → ℕ
shift_left value by = value * 2 ^ by % 2 ^ 64

-- `value >> by`
abbrev pub shift_right : ℕ → ℕ → ℕ
shift_right value by = value / 2 ^ by

abbrev pub bit : Bool → ℕ
bit b = if b then 1 else 0

pub details : ℕ → ReferenceCounterDetails
details value = record {
  reference_counter = shift_right (shift_left value 3) 3;
  to_be_removed = shift_right (shift_left value 2) 63 == 1;
  is_initialized = shift_right (shift_left value 1) 63 == 1;
  is_persistent = shift_right value 63 == 1;
}

-- The four operands of `|` have no bit in common, so it is their sum.
pub compact_value : ReferenceCounterDetails → ℕ
compact_value d =
    shift_left (bit d.is_persistent) 63
    + shift_left (bit d.is_initialized) 62
    + shift_left (bit d.to_be_removed) 61
    + shift_right (shift_left d.reference_counter 3) 3

pub with_count : ReferenceCounterDetails → ℕ → ℕ
unfolding compact_value
with_count d n = compact_value (record d { reference_counter = n })

pub increment_ref_counter : ℕ → ℕ × ℕ
unfolding details with_count
increment_ref_counter value =
    (value, with_count (details value) (add_usize (details value).reference_counter 1))

pub is_available : ℕ → Bool
unfolding details
is_available value =
    not (details value).to_be_removed
    && (details value).is_initialized
    && (ltb 0 (details value).reference_counter || (details value).is_persistent)

pub exists : ℕ → Bool
unfolding details
exists value =
    not (details value).to_be_removed
    && (ltb 0 (details value).reference_counter || (details value).is_persistent)

pub increment_ref_counter_when_initialized : ℕ → Bool × ℕ
unfolding is_available increment_ref_counter
increment_ref_counter_when_initialized value =
    if is_available value then (true, (increment_ref_counter value).1) else (false, value)

pub increment_ref_counter_when_exist : ℕ → Bool × ℕ
unfolding exists increment_ref_counter
increment_ref_counter_when_exist value =
    if exists value then (true, (increment_ref_counter value).1) else (false, value)

pub decrement_ref_counter : ℕ → Bool × ℕ
unfolding details with_count
decrement_ref_counter value =
    let count = sub_usize (details value).reference_counter 1 in
    ((count == 0) && not (details value).is_persistent, with_count (details value) count)

abbrev pub same_flag : Bool → Bool → Bool
same_flag true b = b
same_flag false b = not b

pub set_initialized_bit : Bool → ℕ → ℕ
unfolding details compact_value
set_initialized_bit is_set value =
    if same_flag (details value).is_initialized is_set
    then value
    else compact_value (record (details value) { is_initialized = is_set })

pub set_persistency_bit : Bool → ℕ → ℕ
unfolding details compact_value
set_persistency_bit is_set value =
    if same_flag (details value).is_persistent is_set
    then value
    else compact_value (record (details value) { is_persistent = is_set })

pub to_be_removed : ℕ → ℕ
unfolding details compact_value
to_be_removed value =
    if (details value).to_be_removed
    then value
    else compact_value (record (details value) { to_be_removed = true })
