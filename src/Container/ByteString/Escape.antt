-- ===== src/Container/ByteString/Escape.antt =====
-- `as_escaped_string`: what it builds is text.
use iceoryx_in_rust.Prelude.{
  ℕ, ◌*◌, ◌/◌, ◌%◌, ◌≤◌, ◌<◌, List, [], ◌∷◌, ◌++◌, arith, length, length-append,
}
use iceoryx_in_rust.Container.ByteString.{escape, hex_digit, as_escaped_string}

abbrev pub All : (ℕ → Type 0) → List ℕ → Type 0
All P [] = Unit
All P (x ∷ xs) = P x × All P xs

All-append : (P : ℕ → Type 0) (xs ys : List ℕ) → All P xs → All P ys → All P (xs ++ ys)
All-append P [] ys h k = k
All-append P (x ∷ xs) ys h k = (h.0, All-append P xs ys h.1 k)

abbrev pub IsByte : ℕ → Type 0
IsByte c = c < 256

-- From the space to the tilde.
abbrev pub IsPrintable : ℕ → Type 0
IsPrintable c = (0x20 ≤ c) × (c ≤ 0x7e)

hex_digit-IsPrintable : (n : ℕ) → n < 16 → IsPrintable (hex_digit n)
unfolding hex_digit
hex_digit-IsPrintable n h = ground arith

escape-IsPrintable : (c : ℕ) → IsByte c → All IsPrintable (escape c) × (length (escape c) ≤ 4)
unfolding escape
escape-IsPrintable c h = ground (
  arith,
  hex_digit-IsPrintable (c / 16) (omega arith),
  hex_digit-IsPrintable (c % 16) (omega arith),
)

-- Of any bytes the escaped form is printable ASCII, so the check for UTF-8 that follows cannot fail,
-- and at most four times as long.
pub as_escaped_string-IsPrintable :
    (bytes : List ℕ)
    → All IsByte bytes
    → All IsPrintable (as_escaped_string bytes)
      × (length (as_escaped_string bytes) ≤ 4 * length bytes)
unfolding as_escaped_string
as_escaped_string-IsPrintable [] h = (tt, omega arith)
as_escaped_string-IsPrintable (c ∷ bytes) h =
    let head = escape-IsPrintable c h.0 in
    let rest = as_escaped_string-IsPrintable bytes h.1 in
    (
      All-append IsPrintable (escape c) (as_escaped_string bytes) head.0 rest.0,
      omega (arith, length-append (escape c) (as_escaped_string bytes), head.1, rest.1),
    )
