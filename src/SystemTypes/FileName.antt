-- ===== src/SystemTypes/FileName.antt =====
-- elkodon_bb/system_types/src/file_name.rs: the rules of a file name.
use iceoryx_in_rust.Prelude.{ℕ, ◌≡◌, refl, Bool, true, false, List, [], ◌∷◌, ◌==◌, leb, ◌||◌, ◌&&◌}
use iceoryx_in_rust.Container.SemanticString.{Accessor}
use iceoryx_in_rust.SystemTypes.{any_byte}

abbrev pub filename_length : ℕ
filename_length = 255

-- The empty name, `.` and `..`.
pub is_invalid_content : List ℕ → Bool
is_invalid_content [] = true
is_invalid_content (a ∷ []) = a == b'.'
is_invalid_content (a ∷ b ∷ []) = (a == b'.') && (b == b'.')
is_invalid_content _ = false

pub is_invalid_character : ℕ → Bool
is_invalid_character c =
    leb c 31
    || (c == b'/')
    || (c == b':')
    || (c == b'\\')
    || (c == b'<')
    || (c == b'>')
    || (c == 34)
    || (c == b'|')
    || (c == b'?')
    || (c == b'*')

abbrev pub file_name : Accessor
file_name = record {
  is_invalid_content = is_invalid_content;
  does_contain_invalid_characters = any_byte is_invalid_character;
}

pub good_name : is_invalid_content (97 ∷ 46 ∷ 98 ∷ []) ≡ false
unfolding is_invalid_content
good_name = refl

pub good_characters : any_byte is_invalid_character (97 ∷ 46 ∷ 98 ∷ []) ≡ false
unfolding any_byte is_invalid_character
good_characters = refl
