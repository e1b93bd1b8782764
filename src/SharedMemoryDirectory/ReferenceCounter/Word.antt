-- ===== src/SharedMemoryDirectory/ReferenceCounter/Word.antt =====
-- The word and its four parts.
use iceoryx_in_rust.Prelude.{
  ℕ, ◌+◌, ◌-◌, ◌*◌, ◌/◌, ◌%◌, ◌^◌, ◌≤◌, ◌<◌, ◌≡◌, refl, ap, Bool, true, false, not, arith, ◌==◌,
  ltb, ◌&&◌, ◌||◌, eq→==, ne→==,
}
use iceoryx_in_rust.Prelude.Word.{add_usize, sub_usize}
use iceoryx_in_rust.SharedMemoryDirectory.ReferenceCounter.{
  ReferenceCounterDetails, bit, details, compact_value, with_count, increment_ref_counter,
  increment_ref_counter_when_initialized, decrement_ref_counter, is_available,
}

pub bit_le : (b : Bool) → bit b ≤ 1
bit_le true = omega arith
bit_le false = omega arith

flag-bit : (b : Bool) (n : ℕ) → n ≡ bit b → (n == 1) ≡ b
flag-bit true n e = eq→== n 1 e
flag-bit false n e = ne→== n 1 (λ one. omega (arith, e, one))

-- Packing details with a count below `2 ^ 61` and unpacking the word gives them back.
pub details-compact_value :
    (d : ReferenceCounterDetails) → d.reference_counter < 2 ^ 61 → details (compact_value d) ≡ d
unfolding details compact_value
details-compact_value d small =
    let p = bit d.is_persistent in
    let i = bit d.is_initialized in
    let r = bit d.to_be_removed in
    let n = d.reference_counter in
    let word : ℕ = p * 2 ^ 63 + i * 2 ^ 62 + r * 2 ^ 61 + n in
    let packed : compact_value d ≡ word =
      omega
        (arith, bit_le d.is_persistent, bit_le d.is_initialized, bit_le d.to_be_removed, small) in
    rw
      (
        packed,
        flag-bit d.is_persistent (word / 2 ^ 63)
            (omega (arith, bit_le d.is_initialized, bit_le d.to_be_removed, small)),
        flag-bit d.is_initialized (word * 2 % 2 ^ 64 / 2 ^ 63)
            (omega (arith, bit_le d.is_initialized, bit_le d.to_be_removed, small)),
        flag-bit d.to_be_removed (word * 2 ^ 2 % 2 ^ 64 / 2 ^ 63)
            (omega (arith, bit_le d.to_be_removed, small)),
        count word n (omega arith) small,
      )
      refl
  where
    count : (word n : ℕ) → word % 2 ^ 61 ≡ n → n < 2 ^ 61 → word * 2 ^ 3 % 2 ^ 64 / 2 ^ 3 ≡ n
    count word n e small = omega (arith, e)

-- The flag of a bit as a number.
bit-flag : (n : ℕ) → n ≤ 1 → bit (n == 1) ≡ n
bit-flag n h = ground arith

-- Unpacking a word and packing the details gives the word back, with another count in the lowest 61 bits.
pub with_count_lem :
    (value n : ℕ)
    → value < 2 ^ 64
    → n < 2 ^ 61
    → with_count (details value) n ≡ value / 2 ^ 61 * 2 ^ 61 + n
unfolding details compact_value with_count
with_count_lem value n word small =
    rw
      (
        bit-flag (value / 2 ^ 63) (omega (arith, word)),
        bit-flag (value * 2 % 2 ^ 64 / 2 ^ 63) (omega (arith, word)),
        bit-flag (value * 2 ^ 2 % 2 ^ 64 / 2 ^ 63) (omega (arith, word)),
      )
      (omega (arith, word, small))

pub reference_counter_lem : (value : ℕ) → (details value).reference_counter ≡ value % 2 ^ 61
unfolding details
reference_counter_lem value = omega arith

-- A count that has room is incremented by adding one to the word, and one that is not zero is
-- decremented by taking one away.
pub increment_lem :
    (value : ℕ)
    → value < 2 ^ 64
    → value % 2 ^ 61 + 1 < 2 ^ 61
    → increment_ref_counter value ≡ (value, value + 1)
unfolding increment_ref_counter
increment_lem value word room =
    let e : add_usize (details value).reference_counter 1 ≡ value % 2 ^ 61 + 1 =
      omega (arith, reference_counter_lem value) in
    rw (e, with_count_lem value (value % 2 ^ 61 + 1) word room)
      (ap (λ n. (value, n)) (omega (arith, room)))

pub decrement_lem :
    (value : ℕ)
    → value < 2 ^ 64
    → 0 < value % 2 ^ 61
    → decrement_ref_counter value
      ≡ ((value % 2 ^ 61 - 1 == 0) && not (details value).is_persistent, value - 1)
unfolding decrement_ref_counter
decrement_lem value word some_left =
    let e : sub_usize (details value).reference_counter 1 ≡ value % 2 ^ 61 - 1 =
      omega (arith, reference_counter_lem value, some_left) in
    rw (e, with_count_lem value (value % 2 ^ 61 - 1) word (omega arith))
      (ap (λ n. ((value % 2 ^ 61 - 1 == 0) && not (details value).is_persistent, n))
        (omega (arith, some_left)))

-- Adding to the count leaves the flags.
pub persistent-add :
    (value : ℕ)
    → value < 2 ^ 64
    → value % 2 ^ 61 + 1 < 2 ^ 61
    → (details (value + 1)).is_persistent ≡ (details value).is_persistent
unfolding details
persistent-add value word room = ap (λ n. n == 1) (omega (arith, word, room))

-- `increment_ref_counter_when_initialized` on a word that is available, and on one that is not.
pub when_available :
    (value : ℕ)
    → value < 2 ^ 64
    → value % 2 ^ 61 + 1 < 2 ^ 61
    → is_available value ≡ true
    → increment_ref_counter_when_initialized value ≡ (true, value + 1)
unfolding increment_ref_counter_when_initialized
when_available value word room e = rw e (ap (λ r. (true, r.1)) (increment_lem value word room))

pub when_not_available :
    (value : ℕ)
    → is_available value ≡ false
    → increment_ref_counter_when_initialized value ≡ (false, value)
unfolding increment_ref_counter_when_initialized
when_not_available value e = rw e refl

-- An increment is undone by a decrement, and then the entry is removed only if it was neither in use nor
-- persistent.
pub decrement-increment :
    (value : ℕ)
    → value < 2 ^ 64
    → value % 2 ^ 61 + 1 < 2 ^ 61
    → decrement_ref_counter (value + 1)
      ≡ ((value % 2 ^ 61 == 0) && not (details value).is_persistent, value)
decrement-increment value word room =
    let e : (value + 1) % 2 ^ 61 - 1 ≡ value % 2 ^ 61 = omega (arith, room) in
    let f : value + 1 - 1 ≡ value = omega arith in
    rw (e, f, persistent-add value word room) at
      (decrement_lem (value + 1) (omega (arith, word, room)) (omega (arith, room)))

pub kept :
    (n m : ℕ) (a b p : Bool)
    → n ≡ m
    → (a && b && (ltb 0 n || p)) ≡ true
    → ((m == 0) && not p) ≡ false
kept n m true true true e h = ground arith
kept n m true true false e h = ground arith
kept n m false b p e h = absurd (ground arith)
kept n m true false p e h = absurd (ground arith)

-- An available entry that gets a reference and loses it again is not removed.
pub available_kept :
    (value : ℕ)
    → is_available value ≡ true
    → ((value % 2 ^ 61 == 0) && not (details value).is_persistent) ≡ false
unfolding is_available
available_kept value e =
    kept (details value).reference_counter (value % 2 ^ 61) (not (details value).to_be_removed)
      (details value).is_initialized (details value).is_persistent (reference_counter_lem value) e

pub count_small : (value : ℕ) → (details value).reference_counter < 2 ^ 61
count_small value = omega (arith, reference_counter_lem value)
