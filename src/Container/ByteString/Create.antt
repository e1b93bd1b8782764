-- ===== src/Container/ByteString/Create.antt =====
-- The constructors from bytes.
use iceoryx_in_rust.Prelude.{
  ℕ, ◌+◌, ◌^◌, ◌<◌, ◌≡◌, refl, subst, List, [], append-nil, some, none, Bool, true, false, arith,
  length, set, dec_lt, lt→ltb, le→ltb, ltb, ne→==, if◌then◌else◌,
}
use iceoryx_in_rust.Outcome.{Outcome, done, panic, fault, ◌>>=◌}
use iceoryx_in_rust.Container.ByteString.{
  ByteString, Status, ok, new, push_bytes, insert_bytes, from_bytes, accepted, from, unwrap,
}
use iceoryx_in_rust.Container.ByteString.Memory.{IsSized, IsValid, terminated}
use iceoryx_in_rust.Container.ByteString.Text
use iceoryx_in_rust.Container.ByteString.Text.{Refines, Makes, infallible}
use iceoryx_in_rust.Container.ByteString.Insert.{insert_bytes-Refines}

-- A capacity that a Rust array can have, and the uninitialised array.
pub record IsArray (cap : ℕ) (uninit : List ℕ) : Type 0 where
  pub room : length uninit ≡ cap
  pub positive : 0 < cap
  pub small : cap < 2 ^ 63

module _ (cap : ℕ) (uninit : List ℕ) (a : IsArray cap uninit) where
  abbrev pub fresh : ByteString
  fresh = record { cap = cap; len = 0; cells = set uninit 0 0; terminator = 0 }

  pub new-fresh : new cap uninit ≡ done fresh
  unfolding new
  new-fresh = rw (lt→ltb 0 (length uninit) (omega arith))

  uninit-IsSized : IsSized (record { cap = cap; len = 0; cells = uninit; terminator = 0 })
  uninit-IsSized = record {
    room = a.room;
    positive = a.positive;
    small = a.small;
    fits = omega arith;
    zero_at_end = refl;
  }

  pub fresh-IsValid : IsValid fresh
  fresh-IsValid =
      terminated (record { cap = cap; len = 0; cells = uninit; terminator = 0 }) uninit-IsSized
        a.positive

  -- `push_bytes` on the fresh string cannot meet the end of the array.
  push_fresh :
      (bytes : List ℕ)
      → length bytes < 2 ^ 63
      → Refines fresh (push_bytes fresh bytes) (
          if ltb cap (length bytes)
          then done (Status.insert_would_exceed_capacity, [])
          else done (ok, bytes))
  unfolding push_bytes Text.insert_bytes
  push_fresh bytes slice =
      let h = insert_bytes-Refines fresh 0 bytes fresh-IsValid slice in
      subst (Refines fresh (insert_bytes fresh 0 bytes)) text h
    where
      text : Text.insert_bytes cap [] 0 bytes ≡ (
          if ltb cap (length bytes)
          then done (Status.insert_would_exceed_capacity, [])
          else done (ok, bytes))
      text =
          let e : 0 + length bytes ≡ length bytes = omega arith in
          rw (e, ne→== 0 cap (omega arith), append-nil bytes)

accepted-Makes :
    (s : ByteString) (r : Outcome (Status × ByteString)) (full : Bool) (bytes : List ℕ)
    → Refines s r
        (if full then done (Status.insert_would_exceed_capacity, []) else done (ok, bytes))
    → Makes s.cap (r >>= λ x. done (accepted x)) (if full then done none else done (some bytes))
unfolding accepted
accepted-Makes s (done (ok, t)) false bytes h = (h.1, h.2, h.3)
accepted-Makes s (done (ok, t)) true bytes h = cc
accepted-Makes s (done (Status.insert_would_exceed_capacity, t)) true bytes h = tt
accepted-Makes s (done (Status.insert_would_exceed_capacity, t)) false bytes h = cc
accepted-Makes s panic true bytes h = h
accepted-Makes s panic false bytes h = h
accepted-Makes s fault true bytes h = h
accepted-Makes s fault false bytes h = h

unwrap-Makes :
    (s : ByteString) (r : Outcome (Status × ByteString)) (bytes : List ℕ)
    → Refines s r (done (ok, bytes))
    → Makes s.cap (infallible (r >>= unwrap)) (done (some bytes))
unfolding unwrap
unwrap-Makes s (done (ok, t)) bytes h = (h.1, h.2, h.3)
unwrap-Makes s (done (Status.insert_would_exceed_capacity, t)) bytes h = cc
unwrap-Makes s panic bytes h = h
unwrap-Makes s fault bytes h = h

-- Into an array of any contents, `from_bytes` puts exactly the bytes, and returns the error if they
-- are more than the capacity.
pub from_bytes-Makes :
    (cap : ℕ) (uninit bytes : List ℕ)
    → IsArray cap uninit
    → length bytes < 2 ^ 63
    → Makes cap (from_bytes cap uninit bytes) (Text.from_bytes cap bytes)
unfolding from_bytes Text.from_bytes
from_bytes-Makes cap uninit bytes a slice = rw (new-fresh cap uninit a) (
    accepted-Makes (fresh cap uninit a) _ (ltb cap (length bytes)) bytes
      (push_fresh cap uninit a bytes slice))

-- `From<&[u8; N]>` puts exactly the bytes, and panics if they are more than the capacity.
pub from-Makes :
    (cap : ℕ) (uninit bytes : List ℕ)
    → IsArray cap uninit
    → length bytes < 2 ^ 63
    → Makes cap (infallible (from cap uninit bytes)) (Text.from cap bytes)
unfolding from Text.from
from-Makes cap uninit bytes a slice = elim (dec_lt cap (length bytes)) [
  | yes h ↦ rw (lt→ltb cap (length bytes) h) tt
  | no h ↦
      let e : ltb cap (length bytes) ≡ false = le→ltb cap (length bytes) (omega arith) in
      let p = push_fresh cap uninit a bytes slice in
      rw (e, new-fresh cap uninit a) (unwrap-Makes (fresh cap uninit a) _ bytes (rw e at p))
]
