-- ===== src/Container/SemanticString/Rules.antt =====
-- Every call keeps the rules, and one that fails leaves the text.
use iceoryx_in_rust.Prelude.{
  ℕ, ◌+◌, ◌≤◌, ◌<◌, ◌≡◌, ◌⊎◌, inl, inr, refl, sym, subst, Bool, true, false, List, ◌++◌, length,
  take, drop,
}
use iceoryx_in_rust.Outcome.{done}
use iceoryx_in_rust.Container.ByteString.{ByteString, as_bytes}
use iceoryx_in_rust.Container.ByteString.Memory.{IsValid}
use iceoryx_in_rust.Container.SemanticString.{
  invalid_character, invalid_name, Accessor, fine, err, after_insert, insert_bytes, remove_range,
}
use iceoryx_in_rust.Container.SemanticString.Undo.{with_bytes, cut_out, put_in, undone}

module _ (rules : Accessor) where
  -- A valid string whose content obeys the rules.
  abbrev pub Obeys : ByteString → Type 0
  Obeys s =
      IsValid s
      × (rules.is_invalid_content (as_bytes s) ≡ false)
      × (rules.does_contain_invalid_characters (as_bytes s) ≡ false)

  -- The rules on characters are about each character alone: what two texts obey their parts put
  -- together obey.
  pub record IsPointwise : Type 0 where
    pub together :
        (xs ys : List ℕ)
        → rules.does_contain_invalid_characters xs ≡ false
        → rules.does_contain_invalid_characters ys ≡ false
        → rules.does_contain_invalid_characters (xs ++ ys) ≡ false
    pub front :
        (n : ℕ) (xs : List ℕ)
        → rules.does_contain_invalid_characters xs ≡ false
        → rules.does_contain_invalid_characters (take n xs) ≡ false
    pub rear :
        (n : ℕ) (xs : List ℕ)
        → rules.does_contain_invalid_characters xs ≡ false
        → rules.does_contain_invalid_characters (drop n xs) ≡ false

  Bool-cases : (b : Bool) → (b ≡ true) ⊎ (b ≡ false)
  Bool-cases true = inl refl
  Bool-cases false = inr refl

  -- On a string that obeys the rules and is not full, with a range inside the text, where the rules on
  -- characters are about each character alone: `remove_range` either cuts the range out and what is left
  -- obeys the rules, or what would be left is invalid, and then it returns `InvalidName` and the string is as it was.
  pub semantic_remove_range-Keeps :
      (s : ByteString) (idx n : ℕ)
      → IsPointwise
      → Obeys s
      → idx + n ≤ s.len
      → s.len < s.cap
      → ((t : ByteString) × (remove_range rules s idx n ≡ done (fine tt, t))
          × Obeys t
          × (as_bytes t ≡ take idx (as_bytes s) ++ drop (idx + n) (as_bytes s)))
        ⊎ ((rules.is_invalid_content (take idx (as_bytes s) ++ drop (idx + n) (as_bytes s)) ≡ true)
            × (remove_range rules s idx n ≡ done (err invalid_name, s)))
  unfolding remove_range
  semantic_remove_range-Keeps s idx n pointwise (valid, content, characters) inside open_end =
      let (t, e, t_valid, same) = cut_out s idx n valid inside open_end in
      elim (Bool-cases (rules.is_invalid_content (as_bytes t))) [
        | inl bad ↦
            inr (subst (λ xs. rules.is_invalid_content xs ≡ true) same bad, rw (e, bad) refl)
        | inr good ↦ inl (
          t,
          rw (e, good) refl,
          (
            t_valid,
            good,
            subst (λ xs. rules.does_contain_invalid_characters xs ≡ false) (sym same)
                (pointwise.together (take idx (as_bytes s)) (drop (idx + n) (as_bytes s))
                  (pointwise.front idx (as_bytes s) characters)
                  (pointwise.rear (idx + n) (as_bytes s) characters)),
          ),
          same,
        )
      ]

  -- On a string that obeys the rules, with an index inside the text and bytes that leave the string with
  -- room for one more, where the rules on characters are about each character alone: if the bytes have
  -- an invalid character, `insert_bytes` returns `InvalidCharacter` and the string is as it was; if they
  -- have none and the text with the bytes is invalid, it returns `InvalidName` and the string holds the
  -- text it held and obeys the rules; if neither holds, it succeeds and the string holds the text with
  -- the bytes and obeys the rules.
  pub semantic_insert_bytes-Keeps :
      (s : ByteString) (idx : ℕ) (bytes : List ℕ)
      → IsPointwise
      → Obeys s
      → idx ≤ s.len
      → s.len + length bytes < s.cap
      → ((rules.does_contain_invalid_characters bytes ≡ true)
          × (insert_bytes rules s idx bytes ≡ done (err invalid_character, s)))
        ⊎ ((rules.does_contain_invalid_characters bytes ≡ false)
            × (rules.is_invalid_content (with_bytes s idx bytes) ≡ true)
            × (t : ByteString) × (insert_bytes rules s idx bytes ≡ done (err invalid_name, t))
            × Obeys t
            × (as_bytes t ≡ as_bytes s))
        ⊎ ((rules.does_contain_invalid_characters bytes ≡ false)
            × (rules.is_invalid_content (with_bytes s idx bytes) ≡ false)
            × (t : ByteString) × (insert_bytes rules s idx bytes ≡ done (fine tt, t))
            × Obeys t
            × (as_bytes t ≡ with_bytes s idx bytes))
  unfolding insert_bytes after_insert
  semantic_insert_bytes-Keeps s idx bytes pointwise (valid, content, characters) inside open_end =
      elim (Bool-cases (rules.does_contain_invalid_characters bytes)) [
        | inl bad ↦ inl (bad, rw bad refl)
        | inr clean ↦
            let (t, e, t_valid, t_cap, same) = put_in s idx bytes valid inside open_end in
            elim (Bool-cases (rules.is_invalid_content (as_bytes t))) [
              | inl bad ↦
                  let (u, f, u_valid, back) =
                    undone s t idx bytes valid t_valid t_cap inside open_end same in
                  inr (
                    inl (
                      clean,
                      subst (λ xs. rules.is_invalid_content xs ≡ true) same bad,
                      u,
                      rw (clean, e, bad, f) refl,
                      (
                        u_valid,
                        subst (λ xs. rules.is_invalid_content xs ≡ false) (sym back) content,
                        subst (λ xs. rules.does_contain_invalid_characters xs ≡ false) (sym back)
                            characters,
                      ),
                      back,
                    ))
              | inr good ↦ inr (
                  inr (
                    clean,
                    subst (λ xs. rules.is_invalid_content xs ≡ false) same good,
                    t,
                    rw (clean, e, good) refl,
                    (
                      t_valid,
                      good,
                      subst (λ xs. rules.does_contain_invalid_characters xs ≡ false) (sym same)
                          (pointwise.together (take idx (as_bytes s))
                            (bytes ++ drop idx (as_bytes s))
                            (pointwise.front idx (as_bytes s) characters)
                            (pointwise.together bytes (drop idx (as_bytes s)) clean
                              (pointwise.rear idx (as_bytes s) characters))),
                    ),
                    same,
                  ))
            ]
      ]
