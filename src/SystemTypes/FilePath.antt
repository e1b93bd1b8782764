-- ===== src/SystemTypes/FilePath.antt =====
-- elkodon_bb/system_types/src/file_path.rs: a path to a file, and its two parts.
use iceoryx_in_rust.Prelude.{
  ℕ, zero, suc, ◌+◌, ◌-◌, ◌≤◌, ◌<◌, ◌≡◌, ◌≢◌, ◌⊎◌, inl, inr, refl, sym, ◌∙◌, ap, Bool, true, Option,
  none, some, List, [], ◌∷◌, ◌++◌, arith, ◌==◌, leb, ◌||◌, ◌&&◌, if◌then◌else◌, length, get_or,
  take, drop, take-append-drop, eq→==, ne→==, ℕ_discrete, length-take, length-drop, get_or-take,
  get_or-drop, subst,
}
use iceoryx_in_rust.Container.SemanticString.{Accessor}
use iceoryx_in_rust.SystemTypes.{any_byte}
use iceoryx_in_rust.SystemTypes.Paths.{path_separator, is_invalid_character}

pub ends_badly : List ℕ → Bool
ends_badly value =
    (get_or value (length value - 1) 0 == path_separator)
    || (leb 2 (length value)
        && (get_or value (length value - 2) 0 == path_separator)
        && (get_or value (length value - 1) 0 == b'.'))
    || (leb 3 (length value)
        && (get_or value (length value - 3) 0 == path_separator)
        && (get_or value (length value - 2) 0 == b'.')
        && (get_or value (length value - 1) 0 == b'.'))

pub is_invalid_content : List ℕ → Bool
unfolding ends_badly
is_invalid_content [] = true
is_invalid_content (a ∷ []) = (a == b'.') || ends_badly (a ∷ [])
is_invalid_content (a ∷ b ∷ []) = ((a == b'.') && (b == b'.')) || ends_badly (a ∷ b ∷ [])
is_invalid_content value = ends_badly value

abbrev pub file_path : Accessor
file_path = record {
  is_invalid_content = is_invalid_content;
  does_contain_invalid_characters = any_byte is_invalid_character;
}

-- The loop of `rfind`, with `pos + 1` rounds left.
unfoldable pub rfind_down : List ℕ → ℕ → ℕ → Option ℕ
rfind_down bytes byte zero = none
rfind_down bytes byte (suc pos) =
    let rest = rfind_down bytes byte pos in if get_or bytes pos 0 == byte then some pos else rest

unfoldable pub rfind : List ℕ → ℕ → Option ℕ
unfolding rfind_down
rfind bytes byte = rfind_down bytes byte (length bytes)

unfoldable pub after_separator : List ℕ → Option ℕ → List ℕ
after_separator bytes none = bytes
after_separator bytes (some pos) = drop (pos + 1) bytes

unfoldable pub upto_separator : List ℕ → Option ℕ → List ℕ
upto_separator bytes none = []
upto_separator bytes (some pos) = take (pos + 1) bytes

unfoldable pub file_name_of : List ℕ → List ℕ
unfolding rfind after_separator
file_name_of bytes = after_separator bytes (rfind bytes path_separator)

unfoldable pub path_of : List ℕ → List ℕ
unfolding rfind upto_separator
path_of bytes = upto_separator bytes (rfind bytes path_separator)

-- The byte does not occur from a position on.
abbrev AbsentFrom : List ℕ → ℕ → ℕ → Type 0
AbsentFrom bytes byte pos = (j : ℕ) → pos ≤ j → j < length bytes → get_or bytes j 0 ≢ byte

rfind_down_lem :
    (bytes : List ℕ) (byte n : ℕ)
    → n ≤ length bytes
    → AbsentFrom bytes byte n
    → ((rfind_down bytes byte n ≡ none) × AbsentFrom bytes byte 0)
      ⊎ ((pos : ℕ) × (rfind_down bytes byte n ≡ some pos)
          × (pos < length bytes)
          × (get_or bytes pos 0 ≡ byte)
          × AbsentFrom bytes byte (pos + 1))
unfolding rfind_down
rfind_down_lem bytes byte zero fits absent = inl (refl, absent)
rfind_down_lem bytes byte (suc pos) fits absent = elim (ℕ_discrete (get_or bytes pos 0) byte) [
  | yes found ↦ inr (
    pos,
    rw (eq→== (get_or bytes pos 0) byte found) refl,
    omega (arith, fits),
    found,
    λ j above below. absent j (omega (arith, above)) below,
  )
  | no other ↦ rw (ne→== (get_or bytes pos 0) byte other) (
      rfind_down_lem bytes byte pos (omega (arith, fits)) (λ j above below.
        elim (ℕ_discrete j pos) [
          | yes same ↦ subst (λ k. get_or bytes k 0 ≢ byte) (sym same) other
          | no later ↦ absent j (omega (arith, above, later)) below
        ]))
]

-- The path part of a text followed by its file part is the text; there is no separator in the file part,
-- and the path part is empty or ends with a separator.
pub split_path :
    (bytes : List ℕ)
    → (path_of bytes ++ file_name_of bytes ≡ bytes)
      × ((j : ℕ)
          → j < length (file_name_of bytes)
          → get_or (file_name_of bytes) j 0 ≢ path_separator)
      × ((path_of bytes ≡ [])
          ⊎ (get_or (path_of bytes) (length (path_of bytes) - 1) 0 ≡ path_separator))
unfolding path_of file_name_of rfind after_separator upto_separator
split_path bytes =
    elim (rfind_down_lem bytes path_separator (length bytes) (omega arith)
      (λ j above below. absurd (omega (arith, above, below)))) [
        | inl (e, absent) ↦ rw e (refl, (λ j below. absent j (omega arith) below), inl refl)
        | inr (pos, e, inside, found, absent) ↦ rw e (
          take-append-drop (pos + 1) bytes,
          (λ j below f.
              absent (pos + 1 + j) (omega arith) (omega (arith, below, length-drop (pos + 1) bytes))
                (sym (get_or-drop (pos + 1) j (pos + 1 + j) bytes 0 refl) ∙ f)),
          inr (
              ap (λ k. get_or (take (pos + 1) bytes) (k - 1) 0) (length_front pos inside)
              ∙ ap (λ k. get_or (take (pos + 1) bytes) k 0) (omega arith)
              ∙ get_or-take (pos + 1) pos bytes 0 (omega arith)
              ∙ found),
        )
      ]
  where
    length_front : (pos : ℕ) → pos < length bytes → length (take (pos + 1) bytes) ≡ pos + 1
    length_front pos inside = omega (arith, length-take (pos + 1) bytes, inside)
