-- ===== src/SystemTypes/UserName.antt =====
-- elkodon_bb/system_types/src/user_name.rs, and group_name.rs with the same rules.
use iceoryx_in_rust.Prelude.{ℕ, Bool, true, not, List, [], ◌∷◌, ◌==◌, leb, ◌||◌, ◌&&◌}
use iceoryx_in_rust.Container.SemanticString.{Accessor}
use iceoryx_in_rust.SystemTypes.{any_byte}

abbrev pub is_digit : ℕ → Bool
is_digit c = leb b'0' c && leb c b'9'

pub is_invalid_content : List ℕ → Bool
is_invalid_content [] = true
is_invalid_content (c ∷ cs) = (c == b'-') || is_digit c

pub is_invalid_character : ℕ → Bool
is_invalid_character c = not ((leb b'a' c && leb c b'z') || is_digit c || (c == b'-'))

abbrev pub user_name : Accessor
user_name = record {
  is_invalid_content = is_invalid_content;
  does_contain_invalid_characters = any_byte is_invalid_character;
}
