-- ===== src/Container/ByteString/Search.antt =====
-- `find` and `rfind`: the first and the last place at which bytes occur in the text, and `==`.
use iceoryx_in_rust.Prelude.{
  ℕ, zero, suc, ◌+◌, ◌-◌, ◌≤◌, ◌<◌, ◌≡◌, refl, sym, ◌∙◌, ap, List, [], ◌∷◌, Option, some, none, ◌↔◌,
  true, false, arith, length, take, drop, take-take, take-drop, drop_cons, dec_lt, ℕ_discrete,
  lt→ltb, le→ltb, Bool-cases, inl, inr,
}
use iceoryx_in_rust.Container.ByteString.{
  ByteString, as_bytes, eq_bytes, eq, matches_at, find_from, find, rfind_down, rfind,
}
use iceoryx_in_rust.Container.ByteString.Memory.{IsValid, as_bytes-take, length-as_bytes}

pub eq_bytes_sound : (xs ys : List ℕ) → eq_bytes xs ys ≡ true → xs ≡ ys
unfolding eq_bytes
eq_bytes_sound [] [] h = refl
eq_bytes_sound [] (y ∷ ys) h = cc
eq_bytes_sound (x ∷ xs) [] h = cc
eq_bytes_sound (x ∷ xs) (y ∷ ys) h = elim (Bool-cases (eq_bytes xs ys)) [
  | inl e ↦ let f : xs ≡ ys = eq_bytes_sound xs ys e in ground arith
  | inr e ↦ ground arith
]

pub eq_bytes_refl : (xs : List ℕ) → eq_bytes xs xs ≡ true
unfolding eq_bytes
eq_bytes_refl [] = refl
eq_bytes_refl (x ∷ xs) = ground (arith, eq_bytes_refl xs)

-- Two strings are equal, whatever their capacities, exactly when they hold the same text.
pub eq_iff : (s t : ByteString) → (eq s t ≡ true) ↔ (as_bytes s ≡ as_bytes t)
unfolding eq
eq_iff s t = (eq_bytes_sound (as_bytes s) (as_bytes t), λ e. rw e (eq_bytes_refl (as_bytes t)))

-- The inner loop compares with the bytes that stand there.
matches_at-eq_bytes :
    (cells : List ℕ) (i : ℕ) (bytes : List ℕ)
    → i + length bytes ≤ length cells
    → matches_at cells i bytes ≡ eq_bytes (take (length bytes) (drop i cells)) bytes
unfolding matches_at eq_bytes
matches_at-eq_bytes cells i [] h = refl
matches_at-eq_bytes cells i (b ∷ bytes) h =
    let e : i + 1 ≡ suc i = omega arith in
    rw (drop_cons i cells 0 (omega arith), matches_at-eq_bytes cells (i + 1) bytes (omega arith), e)

-- `bytes` stand at `i` in the text.
abbrev pub OccursAt : List ℕ → List ℕ → ℕ → Type 0
OccursAt xs bytes i = (i + length bytes ≤ length xs) × (take (length bytes) (drop i xs) ≡ bytes)

-- A slice inside the text is a slice of the array.
pub slice-as_bytes :
    (s : ByteString) (n i : ℕ)
    → IsValid s
    → i + n ≤ s.len
    → take n (drop i (as_bytes s)) ≡ take n (drop i s.cells)
slice-as_bytes s n i v h = rw (as_bytes-take s v.sized) (
    take-drop n i (n + i) (take s.len s.cells) refl
    ∙ ap (drop i) (take-take (n + i) s.len s.cells (omega arith))
    ∙ sym (take-drop n i (n + i) s.cells refl))

module _ (s : ByteString) (bytes : List ℕ) (v : IsValid s) where
  pub matches_at-text :
      (i : ℕ)
      → i + length bytes ≤ s.len
      → matches_at s.cells i bytes ≡ eq_bytes (take (length bytes) (drop i (as_bytes s))) bytes
  matches_at-text i h =
      matches_at-eq_bytes s.cells i bytes (omega arith)
      ∙ ap (λ xs. eq_bytes xs bytes) (sym (slice-as_bytes s (length bytes) i v h))

  occurs :
      (i : ℕ)
      → i + length bytes ≤ s.len
      → matches_at s.cells i bytes ≡ true
      → OccursAt (as_bytes s) bytes i
  occurs i h e = (
    omega (arith, length-as_bytes s v.sized),
    eq_bytes_sound _ bytes (sym (matches_at-text i h) ∙ e),
  )

  not_occurs : (i : ℕ) → matches_at s.cells i bytes ≡ false → ¬ OccursAt (as_bytes s) bytes i
  not_occurs i e o =
      let m = matches_at-text i (omega (arith, length-as_bytes s v.sized)) in
      let t : eq_bytes (take (length bytes) (drop i (as_bytes s))) bytes ≡ true =
        rw o.1 (eq_bytes_refl bytes) in
      cc

-- What the loop of `find` says of the places `i..i + rounds`.
abbrev FoundUp : List ℕ → List ℕ → ℕ → ℕ → Option ℕ → Type 0
FoundUp cells bytes i rounds none =
    (j : ℕ) → i ≤ j → j < i + rounds → matches_at cells j bytes ≡ false
FoundUp cells bytes i rounds (some k) =
    (i ≤ k)
    × (k < i + rounds)
    × (matches_at cells k bytes ≡ true)
    × ((j : ℕ) → i ≤ j → j < k → matches_at cells j bytes ≡ false)

FoundUp-step :
    (cells bytes : List ℕ) (i rounds : ℕ) (o : Option ℕ)
    → matches_at cells i bytes ≡ false
    → FoundUp cells bytes (i + 1) rounds o
    → FoundUp cells bytes i (suc rounds) o
FoundUp-step cells bytes i rounds none e h = λ j p q. elim (ℕ_discrete i j) [
  | yes here ↦ rw (← here) e
  | no later ↦ h j (omega arith) (omega arith)
]
FoundUp-step cells bytes i rounds (some k) e h = (
  omega (arith, h.0),
  omega (arith, h.1),
  h.2,
  λ j p q. elim (ℕ_discrete i j) [ yes here ↦ rw (← here) e | no later ↦ h.3 j (omega arith) q ],
)

find_from-FoundUp :
    (cells bytes : List ℕ) (i rounds : ℕ)
    → FoundUp cells bytes i rounds (find_from cells bytes i rounds)
unfolding find_from
find_from-FoundUp cells bytes i zero = λ j p q. absurd (omega arith)
find_from-FoundUp cells bytes i (suc rounds) = elim (Bool-cases (matches_at cells i bytes)) [
  | inl e ↦ rw e (omega arith, omega arith, e, λ j p q. absurd (omega arith))
  | inr e ↦
      rw e (FoundUp-step cells bytes i rounds _ e (find_from-FoundUp cells bytes (i + 1) rounds))
]

-- The result is the first place of `bytes` in the text, or there is no place.
abbrev pub IsFirst : List ℕ → List ℕ → Option ℕ → Type 0
IsFirst xs bytes none = (j : ℕ) → ¬ OccursAt xs bytes j
IsFirst xs bytes (some k) = OccursAt xs bytes k × ((j : ℕ) → ¬ ((j < k) × OccursAt xs bytes j))

-- The result is the last place of `bytes` in the text, or there is no place.
abbrev pub IsLast : List ℕ → List ℕ → Option ℕ → Type 0
IsLast xs bytes none = (j : ℕ) → ¬ OccursAt xs bytes j
IsLast xs bytes (some k) = OccursAt xs bytes k × ((j : ℕ) → ¬ ((k < j) × OccursAt xs bytes j))

FoundUp-IsFirst :
    (s : ByteString) (bytes : List ℕ) (v : IsValid s)
    → length bytes ≤ s.len
    → (o : Option ℕ) → FoundUp s.cells bytes 0 (s.len - length bytes + 1) o
    → IsFirst (as_bytes s) bytes o
FoundUp-IsFirst s bytes v h none f = λ j o.
    not_occurs s bytes v j (f j (omega arith) (omega (arith, o.0, length-as_bytes s v.sized))) o
FoundUp-IsFirst s bytes v h (some k) f = (
  occurs s bytes v k (omega (arith, f.1)) f.2,
  λ j o. not_occurs s bytes v j (f.3 j (omega arith) o.0) o.1,
)

-- On a valid string `find` returns the first place at which the bytes occur in the text, and `None`
-- exactly if there is none.
pub find-IsFirst :
    (s : ByteString) (bytes : List ℕ) → IsValid s → IsFirst (as_bytes s) bytes (find s bytes)
unfolding find
find-IsFirst s bytes v = elim (dec_lt s.len (length bytes)) [
  | yes h ↦
      rw (lt→ltb s.len (length bytes) h)
        (λ j o. absurd (omega (arith, o.0, length-as_bytes s v.sized)))
  | no h ↦ rw (le→ltb s.len (length bytes) (omega arith)) (
      FoundUp-IsFirst s bytes v (omega arith) _
        (find_from-FoundUp s.cells bytes 0 (s.len - length bytes + 1)))
]

-- What the loop of `rfind` says of the places below `rounds`.
abbrev FoundDown : List ℕ → List ℕ → ℕ → Option ℕ → Type 0
FoundDown cells bytes rounds none = (j : ℕ) → j < rounds → matches_at cells j bytes ≡ false
FoundDown cells bytes rounds (some k) =
    (k < rounds)
    × (matches_at cells k bytes ≡ true)
    × ((j : ℕ) → k < j → j < rounds → matches_at cells j bytes ≡ false)

FoundDown-step :
    (cells bytes : List ℕ) (i : ℕ) (o : Option ℕ)
    → matches_at cells i bytes ≡ false
    → FoundDown cells bytes i o
    → FoundDown cells bytes (suc i) o
FoundDown-step cells bytes i none e h =
    λ j q. elim (ℕ_discrete i j) [ yes here ↦ rw (← here) e | no later ↦ h j (omega arith) ]
FoundDown-step cells bytes i (some k) e h = (
  omega (arith, h.0),
  h.1,
  λ j p q. elim (ℕ_discrete i j) [ yes here ↦ rw (← here) e | no later ↦ h.2 j p (omega arith) ],
)

rfind_down-FoundDown :
    (cells bytes : List ℕ) (rounds : ℕ)
    → FoundDown cells bytes rounds (rfind_down cells bytes rounds)
unfolding rfind_down
rfind_down-FoundDown cells bytes zero = λ j q. absurd (omega arith)
rfind_down-FoundDown cells bytes (suc i) = elim (Bool-cases (matches_at cells i bytes)) [
  | inl e ↦ rw e (omega arith, e, λ j p q. absurd (omega arith))
  | inr e ↦ rw e (FoundDown-step cells bytes i _ e (rfind_down-FoundDown cells bytes i))
]

FoundDown-IsLast :
    (s : ByteString) (bytes : List ℕ) (v : IsValid s)
    → length bytes ≤ s.len
    → (o : Option ℕ) → FoundDown s.cells bytes (s.len - length bytes + 1) o
    → IsLast (as_bytes s) bytes o
FoundDown-IsLast s bytes v h none f =
    λ j o. not_occurs s bytes v j (f j (omega (arith, o.0, length-as_bytes s v.sized))) o
FoundDown-IsLast s bytes v h (some k) f = (
  occurs s bytes v k (omega (arith, f.0)) f.1,
  λ j o. not_occurs s bytes v j (f.2 j o.0 (omega (arith, o.1.0, length-as_bytes s v.sized))) o.1,
)

-- On a valid string `rfind` returns the last place at which the bytes occur in the text, and `None`
-- exactly if there is none.
pub rfind-IsLast :
    (s : ByteString) (bytes : List ℕ) → IsValid s → IsLast (as_bytes s) bytes (rfind s bytes)
unfolding rfind
rfind-IsLast s bytes v = elim (dec_lt s.len (length bytes)) [
  | yes h ↦
      rw (lt→ltb s.len (length bytes) h)
        (λ j o. absurd (omega (arith, o.0, length-as_bytes s v.sized)))
  | no h ↦ rw (le→ltb s.len (length bytes) (omega arith)) (
      FoundDown-IsLast s bytes v (omega arith) _
        (rfind_down-FoundDown s.cells bytes (s.len - length bytes + 1)))
]
