-- ===== src/SystemTypes/Paths.antt =====
-- elkodon_bb/system_types/src/path.rs: a path to a directory.
use iceoryx_in_rust.Prelude.{
  ℕ, ◌-◌, Bool, false, not, List, ◌==◌, leb, ◌||◌, ◌&&◌, get_or, if◌then◌else◌,
}
use iceoryx_in_rust.Outcome.{Outcome, done, ◌>>=◌}
use iceoryx_in_rust.Container.ByteString.{ByteString, as_bytes}
use iceoryx_in_rust.Container.SemanticString.{
  Accessor, Reply, fine, err, exceeds_maximum_length, push, push_bytes,
}
use iceoryx_in_rust.SystemTypes.{any_byte}

abbrev pub path_separator : ℕ
path_separator = b'/'

pub is_invalid_character : ℕ → Bool
is_invalid_character c =
    leb c 31 || (c == b'<') || (c == b'>') || (c == 34) || (c == b'|') || (c == b'?') || (c == b'*')

abbrev pub path : Accessor
path = record {
  is_invalid_content = λ _. false;
  does_contain_invalid_characters = any_byte is_invalid_character;
}

-- Does the path need a separator before another entry?
pub needs_separator : ByteString → Bool
needs_separator s = not (s.len == 0) && not (get_or (as_bytes s) (s.len - 1) 0 == path_separator)

-- Every error of the calls inside is reported as this one.
pub then_entry : List ℕ → Reply (Unit {0}) × ByteString → Outcome (Reply (Unit {0}) × ByteString)
then_entry entry (err _, s) = done (err exceeds_maximum_length, s)
then_entry entry (fine _, s) = push_bytes path s entry >>= λ r. done (report r.0, r.1)
  where
    report : Reply (Unit {0}) → Reply (Unit {0})
    report (fine _) = fine tt
    report (err _) = err exceeds_maximum_length

pub add_path_entry : ByteString → List ℕ → Outcome (Reply (Unit {0}) × ByteString)
unfolding needs_separator then_entry
add_path_entry s entry =
    if needs_separator s
    then (push path s path_separator >>= then_entry entry)
    else then_entry entry (fine tt, s)
