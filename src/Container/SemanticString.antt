-- ===== src/Container/SemanticString.antt =====
-- elkodon_bb/container/src/semantic_string.rs: a byte string whose content obeys the rules of its
-- type. A change that would break them is an error, and is undone or never made.
pub mod Undo
pub mod Rules
use iceoryx_in_rust.Prelude.{
  ℕ, zero, suc, ◌+◌, ◌-◌, Bool, true, false, Option, none, some, List, [], ◌∷◌, ◌==◌, if◌then◌else◌,
  length, take,
}
use iceoryx_in_rust.Outcome.{Outcome, done, panic, ◌>>=◌}
use iceoryx_in_rust.Container.ByteString
use iceoryx_in_rust.Container.ByteString.{
  ByteString, Status, insert_would_exceed_capacity, as_bytes,
}

pub data SemanticStringError : Type 0 where
  invalid_character invalid_name exceeds_maximum_length : SemanticStringError

-- `SemanticStringAccessor`: the rules of a type.
pub record Accessor : Type 0 where
  pub is_invalid_content : List ℕ → Bool
  pub does_contain_invalid_characters : List ℕ → Bool

pub data Reply (A : Type 0) : Type 0 where
  fine : A → Reply A
  err : SemanticStringError → Reply A

abbrev pub map_reply : {A B : Type 0} → (A → B) → Reply A → Reply B
map_reply f (fine a) = fine (f a)
map_reply f (err e) = err e

module _ (rules : Accessor) where
  -- `insert_bytes` after the bytes were put into the string, or did not fit.
  pub after_insert : ℕ → ℕ → Status × ByteString → Outcome (Reply (Unit {0}) × ByteString)
  after_insert idx n (insert_would_exceed_capacity, t) = done (err exceeds_maximum_length, t)
  after_insert idx n (_, t) =
      if rules.is_invalid_content (as_bytes t)
      then (ByteString.remove_range t idx n >>= λ u. done (err invalid_name, u))
      else done (fine tt, t)

  pub insert_bytes : ByteString → ℕ → List ℕ → Outcome (Reply (Unit {0}) × ByteString)
  unfolding after_insert
  insert_bytes s idx bytes =
      if rules.does_contain_invalid_characters bytes
      then done (err invalid_character, s)
      else (ByteString.insert_bytes s idx bytes >>= after_insert idx (length bytes))

  pub insert : ByteString → ℕ → ℕ → Outcome (Reply (Unit {0}) × ByteString)
  unfolding insert_bytes
  insert s idx byte = insert_bytes s idx (byte ∷ [])

  pub push_bytes : ByteString → List ℕ → Outcome (Reply (Unit {0}) × ByteString)
  unfolding insert_bytes
  push_bytes s bytes = insert_bytes s s.len bytes

  pub push : ByteString → ℕ → Outcome (Reply (Unit {0}) × ByteString)
  unfolding insert
  push s byte = insert s s.len byte

  -- `uninit` stands for what the uninitialised array happens to hold.
  pub new : ℕ → List ℕ → List ℕ → Outcome (Reply ByteString)
  unfolding push_bytes
  new cap uninit value = ByteString.new cap uninit >>= λ s.
      (push_bytes s value >>= λ r. done (map_reply (λ _. r.1) r.0))

  -- `memory` is what the pointer leads to.
  pub from_c_str : ℕ → List ℕ → List ℕ → Outcome (Reply ByteString)
  unfolding new
  from_c_str cap uninit memory = ByteString.strlen memory >>= λ n. new cap uninit (take n memory)

  -- The byte is put back if its removal broke the rules; the `unwrap` panics if that failed.
  pub put_back : Status × ByteString → Outcome (Reply ℕ × ByteString)
  put_back (insert_would_exceed_capacity, t) = panic
  put_back (_, t) = done (err invalid_name, t)

  pub remove : ByteString → ℕ → Outcome (Reply ℕ × ByteString)
  unfolding put_back
  remove s idx = ByteString.remove s idx >>= λ r.
      (if rules.is_invalid_content (as_bytes r.1)
        then (ByteString.insert r.1 idx r.0 >>= put_back)
        else done (fine r.0, r.1))

  pub pop : ByteString → Outcome (Reply (Option ℕ) × ByteString)
  unfolding remove
  pop s =
      if s.len == 0
      then done (fine none, s)
      else (remove s (s.len - 1) >>= λ r. done (map_reply some r.0, r.1))

  pub remove_range : ByteString → ℕ → ℕ → Outcome (Reply (Unit {0}) × ByteString)
  remove_range s idx n = ByteString.remove_range s idx n >>= λ temp.
      (if rules.is_invalid_content (as_bytes temp)
        then done (err invalid_name, s)
        else (ByteString.remove_range s idx n >>= λ t. done (fine tt, t)))

  -- `f` keeps no state.
  pub retain : ByteString → (ℕ → Bool) → Outcome (Reply (Unit {0}) × ByteString)
  retain s f = ByteString.retain f s >>= λ temp.
      (if rules.is_invalid_content (as_bytes temp)
        then done (err invalid_name, s)
        else (ByteString.retain f s >>= λ t. done (fine tt, t)))

  pub truncate : ByteString → ℕ → Outcome (Reply (Unit {0}) × ByteString)
  truncate s new_len = ByteString.truncate s new_len >>= λ temp.
      (if rules.is_invalid_content (as_bytes temp)
        then done (err invalid_name, s)
        else (ByteString.truncate s new_len >>= λ t. done (fine tt, t)))

  -- The message of the error holds the bytes in a string of 123 bytes.
  pub strip_failed : List ℕ → List ℕ → ByteString → Outcome (Reply Bool × ByteString)
  strip_failed uninit bytes s = ByteString.new 123 uninit >>= λ prefix.
      (ByteString.insert_bytes_unchecked prefix 0 bytes >>= λ _. done (err invalid_name, s))

  pub strip_prefix : List ℕ → ByteString → List ℕ → Outcome (Reply Bool × ByteString)
  unfolding strip_failed
  strip_prefix uninit s bytes = ByteString.strip_prefix s bytes >>= λ temp.
      (if temp.0
        then (if rules.is_invalid_content (as_bytes temp.1)
            then strip_failed uninit bytes s
            else (ByteString.strip_prefix s bytes >>= λ t. done (fine true, t.1)))
        else done (fine false, s))

  pub strip_suffix : List ℕ → ByteString → List ℕ → Outcome (Reply Bool × ByteString)
  unfolding strip_failed
  strip_suffix uninit s bytes = ByteString.strip_suffix s bytes >>= λ temp.
      (if temp.0
        then (if rules.is_invalid_content (as_bytes temp.1)
            then strip_failed uninit bytes s
            else (ByteString.strip_suffix s bytes >>= λ t. done (fine true, t.1)))
        else done (fine false, s))
