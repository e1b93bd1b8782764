-- ===== src/SystemTypes/Tests.antt =====
-- The file name `a.b`, and a path.
use iceoryx_in_rust.Prelude.{
  ◌≢◌, ◌-◌, get_or, ℕ, ◌<◌, ◌≡◌, ◌⊎◌, refl, true, List, [], ◌∷◌, ◌++◌, arith, length, replicate,
  length-replicate, false,
}
use iceoryx_in_rust.Outcome.{done}
use iceoryx_in_rust.Container.ByteString.{ByteString, as_bytes}
use iceoryx_in_rust.Container.ByteString.Memory.{IsValid}
use iceoryx_in_rust.Container.SemanticString.{
  invalid_character, invalid_name, fine, err, insert_bytes, remove_range,
}
use iceoryx_in_rust.Container.SemanticString.Rules.{
  Obeys, semantic_insert_bytes-Keeps, semantic_remove_range-Keeps,
}
use iceoryx_in_rust.SystemTypes.{any_byte}
use iceoryx_in_rust.SystemTypes.Pointwise.{any_byte-IsPointwise}
use iceoryx_in_rust.SystemTypes.Paths.{path_separator}
use iceoryx_in_rust.SystemTypes.FilePath.{
  path_of, file_name_of, split_path, rfind, rfind_down, after_separator, upto_separator,
}
use iceoryx_in_rust.SystemTypes.FileName.{
  file_name, is_invalid_content, is_invalid_character, good_name, good_characters,
}

abbrev a_b : ByteString
a_b = record { cap = 255; len = 3; cells = 97 ∷ 46 ∷ 98 ∷ replicate 252 0; terminator = 0 }

a_b-IsValid : IsValid a_b
a_b-IsValid = record {
  sized = record {
    room = omega (arith, length-replicate {A = ℕ} 252 0);
    positive = omega arith;
    small = omega arith;
    fits = omega arith;
    zero_at_end = refl;
  };
  nul = refl;
}

a_b-Obeys : Obeys file_name a_b
a_b-Obeys = (a_b-IsValid, good_name, good_characters)

semantic_remove_range-Keeps_example :
    ((t : ByteString) × (remove_range file_name a_b 0 2 ≡ done (fine tt, t))
      × Obeys file_name t
      × (as_bytes t ≡ 98 ∷ []))
    ⊎ ((is_invalid_content (98 ∷ []) ≡ true)
        × (remove_range file_name a_b 0 2 ≡ done (err invalid_name, a_b)))
semantic_remove_range-Keeps_example =
    semantic_remove_range-Keeps file_name a_b 0 2
      (any_byte-IsPointwise is_invalid_character is_invalid_content) a_b-Obeys (omega arith)
      (omega arith)

semantic_insert_bytes-Keeps_example :
    ((any_byte is_invalid_character (47 ∷ []) ≡ true)
      × (insert_bytes file_name a_b 1 (47 ∷ []) ≡ done (err invalid_character, a_b)))
    ⊎ ((any_byte is_invalid_character (47 ∷ []) ≡ false)
        × (is_invalid_content (97 ∷ 47 ∷ 46 ∷ 98 ∷ []) ≡ true)
        × (t : ByteString) × (insert_bytes file_name a_b 1 (47 ∷ []) ≡ done (err invalid_name, t))
        × Obeys file_name t
        × (as_bytes t ≡ as_bytes a_b))
    ⊎ ((any_byte is_invalid_character (47 ∷ []) ≡ false)
        × (is_invalid_content (97 ∷ 47 ∷ 46 ∷ 98 ∷ []) ≡ false)
        × (t : ByteString) × (insert_bytes file_name a_b 1 (47 ∷ []) ≡ done (fine tt, t))
        × Obeys file_name t
        × (as_bytes t ≡ 97 ∷ 47 ∷ 46 ∷ 98 ∷ []))
semantic_insert_bytes-Keeps_example =
    semantic_insert_bytes-Keeps file_name a_b 1 (47 ∷ [])
      (any_byte-IsPointwise is_invalid_character is_invalid_content) a_b-Obeys (omega arith)
      (omega arith)

-- The path `/a/b`.
abbrev deep : List ℕ
deep = 47 ∷ 97 ∷ 47 ∷ 98 ∷ []

deep_parts : (path_of deep ≡ 47 ∷ 97 ∷ 47 ∷ []) × (file_name_of deep ≡ 98 ∷ [])
unfolding path_of file_name_of rfind rfind_down after_separator upto_separator
deep_parts = (refl, refl)

split_path_example :
    (path_of deep ++ file_name_of deep ≡ deep)
    × ((j : ℕ) → j < length (file_name_of deep) → get_or (file_name_of deep) j 0 ≢ path_separator)
    × ((path_of deep ≡ []) ⊎ (get_or (path_of deep) (length (path_of deep) - 1) 0 ≡ path_separator))
split_path_example = split_path deep
