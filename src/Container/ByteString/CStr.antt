-- ===== src/Container/ByteString/CStr.antt =====
-- The constructors that copy raw memory: `new_unchecked` and `from_c_str`.
use iceoryx_in_rust.Prelude.{
  ℕ, suc, ◌+◌, ◌-◌, ◌≤◌, ◌<◌, ◌≡◌, ◌≢◌, refl, sym, ◌∙◌, List, [], ◌∷◌, ◌++◌, append-nil, Option,
  some, none, arith, length, take, drop, set, get_or, dec_lt, lt→ltb, le→ltb, ne→==, length-set,
  length-append, length-drop, take-append_right, get_or-append_right, get_or-append_left,
  get_or-drop, get_or-set_ne,
}
use iceoryx_in_rust.Outcome.{Outcome, done}
use iceoryx_in_rust.Container.ByteString.{
  ByteString, memory, as_bytes, fill, new_unchecked, strlen, from_c_str,
}
use iceoryx_in_rust.Container.ByteString.Memory.{
  IsSized, IsValid, as_bytes-take, terminated, terminated-as_bytes, nul_at_end,
}
use iceoryx_in_rust.Container.ByteString.Text
use iceoryx_in_rust.Container.ByteString.Text.{Makes, infallible}
use iceoryx_in_rust.Container.ByteString.Create.{IsArray, fresh, new-fresh}

-- A fresh array after `xs` has been copied to its start.
module _ (cap : ℕ) (uninit xs : List ℕ) (a : IsArray cap uninit) (h : length xs ≤ cap) where
  abbrev pub loaded : ByteString
  loaded = record {
    cap = cap;
    len = length xs;
    cells = xs ++ drop (length xs) (set uninit 0 0);
    terminator = 0;
  }

  pub loaded-IsSized : IsSized loaded
  loaded-IsSized = record {
    room = omega (
      arith,
      a.room,
      length-append xs (drop (length xs) (set uninit 0 0)),
      length-drop (length xs) (set uninit 0 0),
      length-set uninit 0 0,
    );
    positive = a.positive;
    small = a.small;
    fits = h;
    zero_at_end = refl;
  }

  pub take-loaded : take (length xs) (xs ++ drop (length xs) (set uninit 0 0)) ≡ xs
  take-loaded = take-append_right 0 (length xs) xs _ (omega arith) ∙ append-nil xs

  pub as_bytes-loaded : as_bytes loaded ≡ xs
  as_bytes-loaded = as_bytes-take loaded loaded-IsSized ∙ take-loaded

  fill-Makes : Makes cap (done (some (fill (fresh cap uninit a) xs))) (done (some xs))
  unfolding fill
  fill-Makes = elim (dec_lt (length xs) cap) [
    | yes less ↦ rw (lt→ltb (length xs) cap less) (
      terminated loaded loaded-IsSized less,
      refl,
      terminated-as_bytes loaded loaded-IsSized less ∙ take-loaded,
    )
    | no full ↦ rw (le→ltb (length xs) cap (omega arith)) (
      record { sized = loaded-IsSized; nul = nul_at_end loaded loaded-IsSized (omega arith) },
      refl,
      as_bytes-loaded,
    )
  ]

-- Into an array of any contents, `new_unchecked` puts exactly the bytes and a `\0` behind them, and
-- panics if they are more than the capacity, as `From<&[u8; N]>` does.
pub new_unchecked-Makes :
    (cap : ℕ) (uninit bytes : List ℕ)
    → IsArray cap uninit
    → Makes cap (infallible (new_unchecked cap uninit bytes)) (Text.from cap bytes)
unfolding new_unchecked Text.from
new_unchecked-Makes cap uninit bytes a = elim (dec_lt cap (length bytes)) [
  | yes h ↦ rw (lt→ltb cap (length bytes) h) tt
  | no h ↦
      rw (le→ltb cap (length bytes) (omega arith), new-fresh cap uninit a)
        (fill-Makes cap uninit bytes a (omega arith))
]

-- No byte of the text is `\0`.
abbrev pub HasNoNul : List ℕ → Type 0
HasNoNul [] = Unit
HasNoNul (c ∷ cs) = (c ≢ 0) × HasNoNul cs

-- `strlen` finds the end of the text before a `\0`, whatever stands behind it.
pub strlen-text : (xs rest : List ℕ) → HasNoNul xs → strlen (xs ++ (0 ∷ rest)) ≡ done (length xs)
unfolding strlen
strlen-text [] rest h = refl
strlen-text (c ∷ xs) rest h =
    let e : length xs + 1 ≡ suc (length xs) = omega arith in
    rw (ne→== c 0 h.0, strlen-text xs rest h.1, e)

-- A call makes a string of the right size that holds the text, or returns the error, where the text
-- says so. The byte behind the contents is left open.
abbrev pub Copies : ℕ → Outcome (Option ByteString) → Outcome (Option Text.Text) → Type 0
Copies cap (done (some t)) (done (some xs)) = IsSized t × (t.cap ≡ cap) × (as_bytes t ≡ xs)
Copies cap (done none) (done none) = Unit
Copies cap _ _ = ⊥

module _ (cap : ℕ) (uninit text rest : List ℕ) (a : IsArray cap uninit)
    (no_nul : HasNoNul text) where
  from_c_str-loaded :
      (h : length text ≤ cap)
      → from_c_str cap uninit (text ++ (0 ∷ rest)) ≡ done (some (loaded cap uninit text a h))
  unfolding from_c_str
  from_c_str-loaded h =
      let prefix : take (length text) (text ++ (0 ∷ rest)) ≡ text =
        take-append_right 0 (length text) text _ (omega arith) ∙ append-nil text in
      rw (strlen-text text rest no_nul, le→ltb cap (length text) h, new-fresh cap uninit a, prefix)

  -- From a pointer to a text and its `\0`, `from_c_str` makes a string that holds exactly the text,
  -- and returns the error if it is longer than the capacity.
  pub from_c_str-Copies :
      Copies cap (from_c_str cap uninit (text ++ (0 ∷ rest))) (Text.from_bytes cap text)
  unfolding from_c_str Text.from_bytes
  from_c_str-Copies = elim (dec_lt cap (length text)) [
    | yes h ↦ rw (strlen-text text rest no_nul, lt→ltb cap (length text) h) tt
    | no h ↦
        rw (from_c_str-loaded (omega arith), le→ltb cap (length text) (omega arith))
          (
            loaded-IsSized cap uninit text a (omega arith),
            refl,
            as_bytes-loaded cap uninit text a (omega arith),
          )
  ]

  -- If a nonempty text is shorter than the capacity, and the uninitialised array holds no `\0` at the
  -- place behind it, then `from_c_str` returns a string that holds the text and has the right length and
  -- sizes, but the byte behind its contents is not `\0`, so the string is not valid.
  pub from_c_str-not-IsValid :
      0 < length text
      → length text < cap
      → get_or uninit (length text) 1 ≢ 0
      → (t : ByteString) × (from_c_str cap uninit (text ++ (0 ∷ rest)) ≡ done (some t))
        × IsSized t
        × (as_bytes t ≡ text)
        × (t.len ≡ length text)
        × (get_or (memory t) t.len 1 ≢ 0)
        × (¬ IsValid t)
  from_c_str-not-IsValid some_text less stale = (
    loaded cap uninit text a (omega arith),
    from_c_str-loaded (omega arith),
    loaded-IsSized cap uninit text a (omega arith),
    as_bytes-loaded cap uninit text a (omega arith),
    refl,
    (λ e. stale (sym behind ∙ e)),
    (λ v. stale (sym behind ∙ v.nul)),
  )
    where
      behind :
          get_or (memory (loaded cap uninit text a (omega arith))) (length text) 1
          ≡ get_or uninit (length text) 1
      behind =
          get_or-append_left (text ++ drop (length text) (set uninit 0 0)) (0 ∷ []) (length text) 1
            (omega (arith, (loaded-IsSized cap uninit text a (omega arith)).room))
          ∙ get_or-append_right text _ (length text) 1 (omega arith)
          ∙ get_or-drop (length text) (length text - length text) (length text) (set uninit 0 0) 1
              (omega arith)
          ∙ get_or-set_ne uninit 0 (length text) 0 1 (omega arith)
