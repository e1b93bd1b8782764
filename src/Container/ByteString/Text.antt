-- ===== src/Container/ByteString/Text.antt =====
-- The abstract view of `FixedSizeByteString`: a text of at most `cap` bytes. Every call is described
-- on the text alone; the array, its terminator and its length field do not occur.
use iceoryx_in_rust.Prelude.{
  true, false, ℕ, ◌+◌, ◌-◌, ◌≡◌, Bool, Option, none, some, List, [], ◌∷◌, ◌++◌, ltb, leb, ◌==◌,
  if◌then◌else◌, length, get_or, take, drop,
}
use iceoryx_in_rust.Outcome.{Outcome, done, panic, fault, ◌>>=◌}
use iceoryx_in_rust.Container.ByteString.{
  ByteString, Status, ok, insert_would_exceed_capacity, as_bytes, eq_bytes,
}
use iceoryx_in_rust.Container.ByteString.Memory.{IsValid}

abbrev pub Text : Type 0
Text = List ℕ

-- A call on a string does what the text says: it returns the same value and leaves a valid string
-- of the same capacity that holds the text, it panics where the text does, and it has undefined
-- behaviour only where the text says `fault`.
abbrev pub Refines :
    {A : Type 0} → ByteString → Outcome (A × ByteString) → Outcome (A × Text) → Type 0
Refines s (done (a, t)) (done (b, xs)) = (a ≡ b) × IsValid t × (t.cap ≡ s.cap) × (as_bytes t ≡ xs)
Refines s panic panic = Unit
Refines s fault fault = Unit
Refines s _ _ = ⊥

-- An index behind the text panics; so does an insertion of nothing at the end of a full text.
unfoldable pub insert_bytes : ℕ → Text → ℕ → List ℕ → Outcome (Status × Text)
insert_bytes cap xs idx bytes =
    if ltb (length xs) idx
    then panic
    else if ltb cap (length xs + length bytes)
    then done (insert_would_exceed_capacity, xs)
    else if idx == cap
    then panic
    else done (ok, take idx xs ++ (bytes ++ drop idx xs))

-- A call that returns nothing.
abbrev pub void : Outcome ByteString → Outcome (Unit {0} × ByteString)
void r = r >>= λ t. done (tt, t)

-- Taking the last byte of a full text panics, and so does taking a byte behind the text. Right
-- behind the text the call has undefined behaviour.
unfoldable pub remove : ℕ → Text → ℕ → Outcome (ℕ × Text)
remove cap xs idx =
    if ltb (length xs) idx
    then panic
    else if leb cap (idx + 1)
    then panic
    else if idx == length xs
    then fault
    else done (get_or xs idx 0, take idx xs ++ drop (idx + 1) xs)

-- A range that ends at the capacity panics, and so does an empty range of a full text.
unfoldable pub remove_range : ℕ → Text → ℕ → ℕ → Outcome (Unit {0} × Text)
remove_range cap xs idx n =
    if ltb (length xs) (idx + n)
    then panic
    else if idx + n == cap
    then panic
    else if length xs - n == cap
    then panic
    else done (tt, take idx xs ++ drop (idx + n) xs)

unfoldable pub pop : ℕ → Text → Outcome (Option ℕ × Text)
pop cap xs =
    if length xs == 0
    then done (none, xs)
    else if length xs == cap
    then panic
    else done (some (get_or xs (length xs - 1) 0), take (length xs - 1) xs)

-- The text without the bytes that `f` accepts.
abbrev pub discard : (ℕ → Bool) → Text → Text
discard f [] = []
discard f (x ∷ xs) = if f x then discard f xs else x ∷ discard f xs

-- Do the bytes stand at the start of the text?
unfoldable pub starts_with : Text → List ℕ → Bool
starts_with xs bytes = eq_bytes (take (length bytes) xs) bytes

unfoldable pub ends_with : Text → List ℕ → Bool
ends_with xs bytes =
    if ltb (length xs) (length bytes)
    then false
    else eq_bytes (drop (length xs - length bytes) xs) bytes

-- What is cut off is cut off as by `remove_range`.
abbrev pub mark {ℓ} : {A : Type ℓ} → Outcome (Unit {0} × A) → Outcome (Bool × A)
mark (done r) = done (true, r.1)
mark panic = panic
mark fault = fault

unfoldable pub strip_prefix : ℕ → Text → List ℕ → Outcome (Bool × Text)
strip_prefix cap xs bytes =
    if starts_with xs bytes then mark (remove_range cap xs 0 (length bytes)) else done (false, xs)

unfoldable pub strip_suffix : ℕ → Text → List ℕ → Outcome (Bool × Text)
strip_suffix cap xs bytes =
    if ends_with xs bytes
    then mark (remove_range cap xs (length xs - length bytes) (length bytes))
    else done (false, xs)

-- A call that makes a string of capacity `cap` makes a valid one that holds the text, or returns the
-- error, or panics, where the text does.
abbrev pub Makes : ℕ → Outcome (Option ByteString) → Outcome (Option Text) → Type 0
Makes cap (done (some t)) (done (some xs)) = IsValid t × (t.cap ≡ cap) × (as_bytes t ≡ xs)
Makes cap (done none) (done none) = Unit
Makes cap panic panic = Unit
Makes cap fault fault = Unit
Makes cap _ _ = ⊥

unfoldable pub from_bytes : ℕ → List ℕ → Outcome (Option Text)
from_bytes cap bytes = if ltb cap (length bytes) then done none else done (some bytes)

unfoldable pub from : ℕ → List ℕ → Outcome (Option Text)
from cap bytes = if ltb cap (length bytes) then panic else done (some bytes)

-- The call cannot return an error.
abbrev pub infallible : Outcome ByteString → Outcome (Option ByteString)
infallible r = r >>= λ t. done (some t)
