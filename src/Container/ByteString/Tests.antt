-- ===== src/Container/ByteString/Tests.antt =====
-- The laws of `FixedSizeByteString` at the string `abc` of capacity 8, and runs at fixed inputs.
use iceoryx_in_rust.Prelude.{ℕ, ◌≡◌, ◌≢◌, get_or, refl, some, List, [], ◌∷◌, arith, ◌==◌, take}
use iceoryx_in_rust.Outcome.{done, panic}
use iceoryx_in_rust.Container.ByteString.{
  ByteString, memory, Status, ok, as_bytes, eq, insert_bytes, remove, remove_range, pop, find,
  rfind, retain, truncate, strip_prefix, strip_suffix, from_bytes, from_c_str, as_escaped_string,
}
use iceoryx_in_rust.Container.ByteString.Memory.{IsSized, IsValid, Leaves}
use iceoryx_in_rust.Container.ByteString.Text
use iceoryx_in_rust.Container.ByteString.Text.{Refines, void, Makes, discard}
use iceoryx_in_rust.Container.ByteString.Insert.{insert_bytes-Refines}
use iceoryx_in_rust.Container.ByteString.Remove.{
  remove_range-Refines, remove-Refines, pop-Refines, truncate-Leaves,
}
use iceoryx_in_rust.Container.ByteString.Retain.{retain-Leaves}
use iceoryx_in_rust.Container.ByteString.Create.{IsArray}
use iceoryx_in_rust.Container.ByteString.CStr.{from_c_str-not-IsValid}

abbrev abc : ByteString
abc = record { cap = 8; len = 3; cells = 97 ∷ 98 ∷ 99 ∷ 0 ∷ 7 ∷ 7 ∷ 7 ∷ 7 ∷ []; terminator = 0 }

abbrev full : ByteString
full = record { cap = 3; len = 3; cells = 97 ∷ 98 ∷ 99 ∷ []; terminator = 0 }

abbrev uninit : List ℕ
uninit = 7 ∷ 7 ∷ 7 ∷ 7 ∷ []

abc-IsValid : IsValid abc
abc-IsValid = record {
  sized = record {
    room = refl;
    positive = omega arith;
    small = omega arith;
    fits = omega arith;
    zero_at_end = refl;
  };
  nul = refl;
}

uninit-IsArray : IsArray 4 uninit
uninit-IsArray = record { room = refl; positive = omega arith; small = omega arith }

insert_bytes-Refines_example :
    Refines abc
      (insert_bytes abc 1 (120 ∷ 121 ∷ []))
      (Text.insert_bytes 8 (as_bytes abc) 1 (120 ∷ 121 ∷ []))
insert_bytes-Refines_example = insert_bytes-Refines abc 1 (120 ∷ 121 ∷ []) abc-IsValid (omega arith)

remove_range-Refines_example :
    Refines abc (void (remove_range abc 0 2)) (Text.remove_range 8 (as_bytes abc) 0 2)
remove_range-Refines_example = remove_range-Refines abc 0 2 abc-IsValid (omega arith)

remove-Refines_example : Refines abc (remove abc 1) (Text.remove 8 (as_bytes abc) 1)
remove-Refines_example = remove-Refines abc 1 abc-IsValid

pop-Refines_example : Refines abc (pop abc) (Text.pop 8 (as_bytes abc))
pop-Refines_example = pop-Refines abc abc-IsValid

truncate-Leaves_example : Leaves abc (take 2 (as_bytes abc)) (truncate abc 2)
truncate-Leaves_example = truncate-Leaves abc 2 abc-IsValid

retain-Leaves_example :
    Leaves abc (discard (λ c. c == 98) (as_bytes abc)) (retain (λ c. c == 98) abc)
retain-Leaves_example = retain-Leaves (λ c. c == 98) abc abc-IsValid (omega arith)

from_c_str-not-IsValid_example :
    (t : ByteString) × (from_c_str 4 uninit (97 ∷ 98 ∷ 0 ∷ []) ≡ done (some t))
    × IsSized t
    × (as_bytes t ≡ 97 ∷ 98 ∷ [])
    × (t.len ≡ 2)
    × (get_or (memory t) t.len 1 ≢ 0)
    × (¬ IsValid t)
from_c_str-not-IsValid_example =
    from_c_str-not-IsValid 4 uninit (97 ∷ 98 ∷ []) [] uninit-IsArray
      (omega arith, (omega arith, tt)) (omega arith) (omega arith) (omega arith)

-- Taking the last byte of a full string panics.
pop-full : pop full ≡ panic
unfolding pop remove iceoryx_in_rust.Container.ByteString.remove_range_impl
pop-full = refl
