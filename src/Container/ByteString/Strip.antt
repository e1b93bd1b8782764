-- ===== src/Container/ByteString/Strip.antt =====
-- `strip_prefix` and `strip_suffix` against the text.
use iceoryx_in_rust.Prelude.{
  ℕ, zero, suc, ◌+◌, ◌-◌, ◌^◌, ◌≤◌, ◌<◌, ◌≡◌, ◌≢◌, refl, sym, ap, List, Option, some, none, Bool,
  true, false, arith, length, take, drop, dec_lt, lt→ltb, le→ltb, Bool-cases, inl, inr, eq→==,
  ne→==, ◌==◌, if◌then◌else◌, length-take, take-length, length-drop,
}
use iceoryx_in_rust.Outcome.{Outcome, done, panic, fault, ◌>>=◌}
use iceoryx_in_rust.Container.ByteString.{
  ByteString, as_bytes, eq_bytes, matches_at, find_from, find, rfind_down, rfind, strip_prefix,
  strip_found, strip_suffix, remove_range,
}
use iceoryx_in_rust.Container.ByteString.Memory.{IsValid, length-as_bytes}
use iceoryx_in_rust.Container.ByteString.Text
use iceoryx_in_rust.Container.ByteString.Text.{Refines, void, mark, starts_with, ends_with}
use iceoryx_in_rust.Container.ByteString.Remove.{remove_range-Refines}
use iceoryx_in_rust.Container.ByteString.Search.{eq_bytes_sound, matches_at-text}

eq_bytes-length : (xs ys : List ℕ) → length xs ≢ length ys → eq_bytes xs ys ≡ false
eq_bytes-length xs ys h = elim (Bool-cases (eq_bytes xs ys)) [
  | inl e ↦ absurd (h (ap length (eq_bytes_sound xs ys e)))
  | inr e ↦ e
]

-- Does the search point at the start?
abbrev at_start : Option ℕ → Bool
at_start (some zero) = true
at_start _ = false

find_from_later :
    (cells bytes : List ℕ) (i rounds : ℕ) → at_start (find_from cells bytes (suc i) rounds) ≡ false
unfolding find_from
find_from_later cells bytes i zero = refl
find_from_later cells bytes i (suc rounds) = elim (Bool-cases (matches_at cells (suc i) bytes)) [
  | inl e ↦ rw e
  | inr e ↦
      let f : suc i + 1 ≡ suc (suc i) = omega arith in
      rw (e, f) (find_from_later cells bytes (suc i) rounds)
]

at_start-find :
    (s : ByteString) (bytes : List ℕ)
    → IsValid s
    → at_start (find s bytes) ≡ starts_with (as_bytes s) bytes
unfolding find find_from starts_with
at_start-find s bytes v = elim (dec_lt s.len (length bytes)) [
  | yes h ↦ rw (lt→ltb s.len (length bytes) h) (
      sym (
        eq_bytes-length _ bytes
          (omega (arith, length-take (length bytes) (as_bytes s), length-as_bytes s v.sized))))
  | no h ↦
      let e : s.len - length bytes + 1 ≡ suc (s.len - length bytes) = omega arith in
      rw (le→ltb s.len (length bytes) (omega arith), e, ← matches_at-text s bytes v 0 (omega arith))
        (elim (Bool-cases (matches_at s.cells 0 bytes)) [
          | inl f ↦ rw f
          | inr f ↦ rw f (
              let g : 0 + 1 ≡ suc 0 = refl in
              rw g (find_from_later s.cells bytes 0 (s.len - length bytes)))
        ])
]

strip_prefix-at_start :
    (s : ByteString) (bytes : List ℕ)
    → strip_prefix s bytes ≡ (
        if at_start (find s bytes)
        then (remove_range s 0 (length bytes) >>= λ t. done (true, t))
        else done (false, s))
unfolding strip_prefix
strip_prefix-at_start s bytes = go (find s bytes)
  where
    go :
        (o : Option ℕ)
        → elim o as (λ _. Outcome (Bool × ByteString)) [
          | some zero ↦ remove_range s 0 (length bytes) >>= λ t. done (true, t)
          | _ ↦ done (false, s)
        ]
          ≡ (if at_start o
              then (remove_range s 0 (length bytes) >>= λ t. done (true, t))
              else done (false, s))
    go none = refl
    go (some zero) = refl
    go (some (suc i)) = refl

mark-Refines :
    (s : ByteString) (r : Outcome ByteString) (x : Outcome (Unit {0} × Text.Text))
    → Refines s (void r) x
    → Refines s (r >>= λ t. done (true, t)) (mark x)
mark-Refines s (done t) (done y) h = (refl, h.1, h.2, h.3)
mark-Refines s (done t) panic h = h
mark-Refines s (done t) fault h = h
mark-Refines s panic (done y) h = h
mark-Refines s panic panic h = h
mark-Refines s panic fault h = h
mark-Refines s fault (done y) h = h
mark-Refines s fault panic h = h
mark-Refines s fault fault h = h

-- On a valid string `strip_prefix` returns whether the text starts with the bytes. If so it cuts
-- them off as `remove_range` does, and else it keeps the text.
pub strip_prefix-Refines :
    (s : ByteString) (bytes : List ℕ)
    → IsValid s
    → length bytes < 2 ^ 63
    → Refines s (strip_prefix s bytes) (Text.strip_prefix s.cap (as_bytes s) bytes)
unfolding Text.strip_prefix
strip_prefix-Refines s bytes v slice =
    rw (strip_prefix-at_start, at_start-find s bytes v)
      (elim (Bool-cases (starts_with (as_bytes s) bytes)) [
        | inl e ↦
            rw e (mark-Refines s _ _ (remove_range-Refines s 0 (length bytes) v (omega arith)))
        | inr e ↦ rw e (refl, v, refl, refl)
      ])

-- Does the search point at `pos`?
abbrev points_at : ℕ → Option ℕ → Bool
points_at pos none = false
points_at pos (some k) = k == pos

rfind_down_below :
    (cells bytes : List ℕ) (rounds pos : ℕ)
    → rounds ≤ pos
    → points_at pos (rfind_down cells bytes rounds) ≡ false
unfolding rfind_down
rfind_down_below cells bytes zero pos h = refl
rfind_down_below cells bytes (suc i) pos h = elim (Bool-cases (matches_at cells i bytes)) [
  | inl e ↦ rw e (ne→== i pos (omega arith))
  | inr e ↦ rw e (rfind_down_below cells bytes i pos (omega arith))
]

points_at-rfind :
    (s : ByteString) (bytes : List ℕ)
    → IsValid s
    → length bytes ≤ s.len
    → points_at (s.len - length bytes) (rfind s bytes) ≡ ends_with (as_bytes s) bytes
unfolding rfind rfind_down ends_with
points_at-rfind s bytes v h =
    let pos = s.len - length bytes in
    let n : length (as_bytes s) ≡ s.len = length-as_bytes s v.sized in
    let e : pos + 1 ≡ suc pos = omega arith in
    let whole : take (length bytes) (drop pos (as_bytes s)) ≡ drop pos (as_bytes s) =
      take-length (length bytes) (drop pos (as_bytes s))
        (omega (arith, n, length-drop pos (as_bytes s))) in
    rw (n, le→ltb s.len (length bytes) h, e, ← whole, ← matches_at-text s bytes v pos (omega arith))
      (elim (Bool-cases (matches_at s.cells pos bytes)) [
        | inl f ↦ rw f (eq→== pos pos refl)
        | inr f ↦ rw f (rfind_down_below s.cells bytes pos pos (omega arith))
      ])

strip_found-points_at :
    (s : ByteString) (bytes : List ℕ) (o : Option ℕ)
    → strip_found s bytes o ≡ (
        if points_at (s.len - length bytes) o
        then (remove_range s (s.len - length bytes) (length bytes) >>= λ t. done (true, t))
        else done (false, s))
unfolding strip_found
strip_found-points_at s bytes none = refl
strip_found-points_at s bytes (some k) = refl

not_longer :
    (s : ByteString) (bytes : List ℕ)
    → IsValid s
    → s.len < length bytes
    → ends_with (as_bytes s) bytes ≡ false
unfolding ends_with
not_longer s bytes v h = rw (length-as_bytes s v.sized, lt→ltb s.len (length bytes) h)

-- On a valid string `strip_suffix` returns whether the text ends with the bytes. If so it cuts them
-- off as `remove_range` does, and else it keeps the text.
pub strip_suffix-Refines :
    (s : ByteString) (bytes : List ℕ)
    → IsValid s
    → Refines s (strip_suffix s bytes) (Text.strip_suffix s.cap (as_bytes s) bytes)
unfolding strip_suffix Text.strip_suffix
strip_suffix-Refines s bytes v = elim (dec_lt s.len (length bytes)) [
  | yes h ↦ rw (lt→ltb s.len (length bytes) h, not_longer s bytes v h) (refl, v, refl, refl)
  | no h ↦
      rw
        (
          le→ltb s.len (length bytes) (omega arith),
          strip_found-points_at,
          points_at-rfind s bytes v (omega arith),
          length-as_bytes s v.sized,
        )
        (elim (Bool-cases (ends_with (as_bytes s) bytes)) [
          | inl e ↦ rw e (
              mark-Refines s _ _
                (remove_range-Refines s (s.len - length bytes) (length bytes) v (omega arith)))
          | inr e ↦ rw e (refl, v, refl, refl)
        ])
]
