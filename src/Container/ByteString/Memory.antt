-- ===== src/Container/ByteString/Memory.antt =====
-- The representation invariant of `FixedSizeByteString`, and what its views show under it.
use iceoryx_in_rust.Prelude.{
  ℕ, suc, ◌+◌, ◌-◌, ◌^◌, ◌≤◌, ◌<◌, ◌≡◌, refl, ◌∙◌, ap, List, [], ◌∷◌, ◌++◌, arith, length, get_or,
  set, take, length-append, length-set, length-take, lt→ltb, dec_lt, le→ltb, take-append_left,
  take-set, take-suc, get_or-set_self, get_or-append_left, get_or-append_right,
}
use iceoryx_in_rust.Outcome.{Outcome, done}
use iceoryx_in_rust.Container.ByteString.{
  ByteString, memory, as_bytes, as_bytes_with_nul, terminate,
}

-- The sizes are right: an array is at most `isize::MAX` bytes long.
pub record IsSized (s : ByteString) : Type 0 where
  pub room : length s.cells ≡ s.cap
  pub positive : 0 < s.cap
  pub small : s.cap < 2 ^ 63
  pub fits : s.len ≤ s.cap
  pub zero_at_end : s.terminator ≡ 0

-- Moreover the byte behind the contents is `\0`.
pub record IsValid (s : ByteString) : Type 0 where
  pub sized : IsSized s
  pub nul : get_or (memory s) s.len 1 ≡ 0

pub as_bytes-take : (s : ByteString) → IsSized s → as_bytes s ≡ take s.len s.cells
as_bytes-take s v = take-append_left s.len s.cells _ (omega arith)

pub length-as_bytes : (s : ByteString) → IsSized s → length (as_bytes s) ≡ s.len
length-as_bytes s v = rw (as_bytes-take s v) (omega (arith, length-take s.len s.cells))

-- `as_bytes_with_nul` is the contents and a `\0`.
pub as_bytes_with_nul_lem :
    (s : ByteString) → IsValid s → as_bytes_with_nul s ≡ as_bytes s ++ (0 ∷ [])
as_bytes_with_nul_lem s v =
    let e : s.len + 1 ≡ suc s.len = omega arith in
    rw e (
      take-suc s.len (memory s) 1 (omega (arith, length-append s.cells (s.terminator ∷ [])))
      ∙ ap (λ b. take s.len (memory s) ++ (b ∷ [])) v.nul)

-- A call that returns a valid string of the same capacity with the contents `xs`.
abbrev pub Leaves : ByteString → List ℕ → Outcome ByteString → Type 0
Leaves s xs r = (t : ByteString) × (r ≡ done t) × IsValid t × (t.cap ≡ s.cap) × (as_bytes t ≡ xs)

-- With the array full the byte behind the contents is the terminator.
pub nul_at_end : (s : ByteString) → IsSized s → s.cap ≤ s.len → get_or (memory s) s.len 1 ≡ 0
nul_at_end s v h =
    get_or-append_right s.cells (s.terminator ∷ []) s.len 1 (omega arith)
    ∙ (let e : s.len - length s.cells ≡ 0 = omega arith in rw e v.zero_at_end)

-- A `\0` written behind the contents.
nul_written :
    (s : ByteString) (xs : List ℕ)
    → s.len < length xs
    → get_or (set xs s.len 0 ++ (s.terminator ∷ [])) s.len 1 ≡ 0
nul_written s xs h =
    get_or-append_left (set xs s.len 0) (s.terminator ∷ []) s.len 1
      (omega (arith, length-set xs s.len 0))
    ∙ get_or-set_self xs s.len 0 1 h

pub terminated :
    (s : ByteString)
    → IsSized s
    → s.len < s.cap
    → IsValid (record s { cells = set s.cells s.len 0 })
terminated s v h = record {
  sized = omega (arith, length-set s.cells s.len 0);
  nul = nul_written s s.cells (omega arith);
}

pub terminated-as_bytes :
    (s : ByteString)
    → IsSized s
    → s.len < s.cap
    → as_bytes (record s { cells = set s.cells s.len 0 }) ≡ take s.len s.cells
terminated-as_bytes s v h =
    as_bytes-take (record s { cells = set s.cells s.len 0 }) (terminated s v h).sized
    ∙ take-set s.len s.len 0 s.cells (omega arith)

-- `terminate` makes any sized string valid, and keeps its contents.
pub terminate-Leaves : (s : ByteString) → IsSized s → Leaves s (take s.len s.cells) (terminate s)
unfolding terminate
terminate-Leaves s v = elim (dec_lt s.len s.cap) [
  | yes more ↦ (
    record s { cells = set s.cells s.len 0 },
    rw (lt→ltb _ _ more, lt→ltb s.len (length s.cells) (omega arith)),
    terminated s v more,
    refl,
    terminated-as_bytes s v more,
  )
  | no full ↦ (
    s,
    rw (le→ltb s.len s.cap (omega arith)),
    record { sized = v; nul = nul_at_end s v (omega arith) },
    refl,
    as_bytes-take s v,
  )
]
