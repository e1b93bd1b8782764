-- ===== src/SharedMemoryDirectory/ReferenceCounter/Flags.antt =====
-- The flags: an entry that is taken away, that exists, and that is new.
use iceoryx_in_rust.Prelude.{
  if◌then◌else◌, sym, ℕ, ◌+◌, ◌%◌, ◌^◌, ◌<◌, ◌≡◌, refl, ◌∙◌, ap, Bool, true, false, not, arith,
  ◌==◌, ltb, ◌&&◌, ◌||◌,
}
use iceoryx_in_rust.Prelude.Word.{sub_usize}
use iceoryx_in_rust.SharedMemoryDirectory.ReferenceCounter.{
  same_flag, ReferenceCounterDetails, details, compact_value, with_count, increment_ref_counter,
  increment_ref_counter_when_exist, decrement_ref_counter, is_available, exists,
  set_initialized_bit, set_persistency_bit, to_be_removed,
}
use iceoryx_in_rust.SharedMemoryDirectory.ReferenceCounter.Word.{
  bit_le, details-compact_value, with_count_lem, reference_counter_lem, increment_lem, kept,
  count_small,
}

-- The calls as functions of the details.
abbrev decremented : ReferenceCounterDetails → Bool × ℕ
decremented d = (
  (sub_usize d.reference_counter 1 == 0) && not d.is_persistent,
  compact_value (record d { reference_counter = sub_usize d.reference_counter 1 }),
)

decrement_details : (value : ℕ) → decrement_ref_counter value ≡ decremented (details value)
unfolding decrement_ref_counter
decrement_details value = refl

abbrev flags : ℕ → Bool → Bool → Bool → ReferenceCounterDetails
flags n i p r = record {
  reference_counter = n;
  is_initialized = i;
  is_persistent = p;
  to_be_removed = r;
}

with_count-details :
    (value n : ℕ)
    → compact_value (record (details value) { reference_counter = n })
      ≡ with_count (details value) n
unfolding with_count
with_count-details value n = refl

compact-details : (value : ℕ) → value < 2 ^ 64 → compact_value (details value) ≡ value
compact-details value word =
    ap (λ n. compact_value (record (details value) { reference_counter = n }))
      (reference_counter_lem value)
    ∙ with_count-details value (value % 2 ^ 61)
    ∙ with_count_lem value (value % 2 ^ 61) word (omega arith)
    ∙ omega arith

compact_small : (d : ReferenceCounterDetails) → compact_value d < 2 ^ 64
unfolding compact_value
compact_small d =
    omega (arith, bit_le d.is_persistent, bit_le d.is_initialized, bit_le d.to_be_removed)

-- Whether a flag is set already or not, it is set afterwards, and the other parts are as before.
removed_flag :
    (n : ℕ) (i p r : Bool) (value : ℕ)
    → compact_value (flags n i p r) ≡ value
    → (if r then value else compact_value (flags n i p true)) ≡ compact_value (flags n i p true)
removed_flag n i p true value e = sym e
removed_flag n i p false value e = refl

remove_details :
    (value : ℕ)
    → value < 2 ^ 64
    → to_be_removed value ≡ compact_value (record (details value) { to_be_removed = true })
unfolding to_be_removed
remove_details value word =
    let d = details value in
    removed_flag d.reference_counter d.is_initialized d.is_persistent d.to_be_removed value
      (compact-details value word)

persistent_flag :
    (n : ℕ) (i p r : Bool) (value : ℕ)
    → compact_value (flags n i p r) ≡ value
    → (if same_flag p false then value else compact_value (flags n i false r))
      ≡ compact_value (flags n i false r)
persistent_flag n i true r value e = refl
persistent_flag n i false r value e = sym e

persistency_details :
    (value : ℕ)
    → value < 2 ^ 64
    → set_persistency_bit false value
      ≡ compact_value (record (details value) { is_persistent = false })
unfolding set_persistency_bit
persistency_details value word =
    let d = details value in
    persistent_flag d.reference_counter d.is_initialized d.is_persistent d.to_be_removed value
      (compact-details value word)

removed_not_available :
    (value : ℕ) → (details value).to_be_removed ≡ true → is_available value ≡ false
unfolding is_available
removed_not_available value e = rw e refl

-- A word with one reference more that is made not persistent and to be removed, and then loses the
-- reference, is not available; it is to be taken away if there was no other reference.
pub hidden :
    (value : ℕ)
    → value < 2 ^ 64
    → value % 2 ^ 61 + 1 < 2 ^ 61
    → (word : ℕ) × (decrement_ref_counter (to_be_removed (set_persistency_bit false (value + 1)))
        ≡ (value % 2 ^ 61 == 0, word))
      × (is_available word ≡ false)
hidden value word room =
    let d = details (value + 1) in
    let d' : ReferenceCounterDetails = record d { is_persistent = false } in
    let d'' : ReferenceCounterDetails = record d' { to_be_removed = true } in
    let some_left : d.reference_counter ≡ value % 2 ^ 61 + 1 =
      omega (arith, reference_counter_lem (value + 1), room) in
    let e : sub_usize d.reference_counter 1 ≡ value % 2 ^ 61 = omega (arith, some_left) in
    let last : ReferenceCounterDetails = record d'' { reference_counter = value % 2 ^ 61 } in
    let unpacked : details (compact_value last) ≡ last = details-compact_value last (omega arith) in
    (
      compact_value last,
      ap (λ v. decrement_ref_counter (to_be_removed v))
            (persistency_details (value + 1) (omega (arith, word, room)))
          ∙ ap decrement_ref_counter (
              remove_details (compact_value d') (compact_small d')
              ∙ ap
                  (λ (k : ReferenceCounterDetails).
                    compact_value (record k { to_be_removed = true }))
                  (details-compact_value d' (count_small (value + 1))))
          ∙ decrement_details (compact_value d'')
          ∙ ap decremented (details-compact_value d'' (count_small (value + 1)))
          ∙ ap (λ n. ((n == 0) && true, compact_value (record d'' { reference_counter = n }))) e
          ∙ ap (λ b. (b, compact_value last)) (and_true (value % 2 ^ 61 == 0)),
      removed_not_available (compact_value last)
          (ap (λ (k : ReferenceCounterDetails). k.to_be_removed) unpacked),
    )
  where
    and_true : (b : Bool) → (b && true) ≡ b
    and_true true = refl
    and_true false = refl

pub nothing_available : is_available 0 ≡ false
unfolding is_available details
nothing_available = refl

-- `increment_ref_counter_when_exist` likewise.
pub when_exists :
    (value : ℕ)
    → value < 2 ^ 64
    → value % 2 ^ 61 + 1 < 2 ^ 61
    → exists value ≡ true
    → increment_ref_counter_when_exist value ≡ (true, value + 1)
unfolding increment_ref_counter_when_exist
when_exists value word room e = rw e (ap (λ r. (true, r.1)) (increment_lem value word room))

pub when_not_exists :
    (value : ℕ) → exists value ≡ false → increment_ref_counter_when_exist value ≡ (false, value)
unfolding increment_ref_counter_when_exist
when_not_exists value e = rw e refl

pub existing_kept :
    (value : ℕ)
    → exists value ≡ true
    → ((value % 2 ^ 61 == 0) && not (details value).is_persistent) ≡ false
unfolding exists
existing_kept value e =
    kept (details value).reference_counter (value % 2 ^ 61) true true (details value).is_persistent
      (reference_counter_lem value)
      (and_right (not (details value).to_be_removed)
        (ltb 0 (details value).reference_counter || (details value).is_persistent) e)
  where
    and_right : (a b : Bool) → (a && b) ≡ true → b ≡ true
    and_right true b e = e
    and_right false b e = absurd (cc)

-- The word of a new entry: one reference, not yet initialised.
abbrev pub first_word : Bool → ℕ
first_word true = 2 ^ 63 + 1
first_word false = 1

pub first_word_lem : (p : Bool) → (increment_ref_counter (set_persistency_bit p 0)).1 ≡ first_word p
unfolding increment_ref_counter set_persistency_bit with_count details compact_value
first_word_lem true = refl
first_word_lem false = refl

pub first_available : (p : Bool) → is_available (set_initialized_bit true (first_word p)) ≡ true
unfolding is_available set_initialized_bit details compact_value
first_available true = refl
first_available false = refl

pub nothing_exists : exists 0 ≡ false
unfolding exists details
nothing_exists = refl

-- One reference to an entry that is initialised.
pub one_reference : exists (2 ^ 62 + 1) ≡ true
unfolding exists details
one_reference = refl
