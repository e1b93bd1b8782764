-- ===== src/Container/ByteString/Insert.antt =====
-- `insert_bytes` and the calls that go through it: what each branch does.
use iceoryx_in_rust.Prelude.{
  ℕ, suc, ◌+◌, ◌-◌, ◌^◌, ◌≤◌, ◌<◌, ◌≡◌, refl, sym, ◌∙◌, ap, ap₂, List, [], ◌∷◌, ◌++◌, append_assoc,
  append-nil, arith, length, set, take, drop, length-append, length-set, length-take, length-drop,
  lt→ltb, le→ltb, dec_lt, le→leb, take-append_left, take-append_right, drop-append_right, take-take,
  take-append-drop, take-set_self, drop-set, take-drop, ℕ_discrete, eq→==, ne→==,
}
use iceoryx_in_rust.Prelude.Word.{add_usize, sub_usize}
use iceoryx_in_rust.Outcome.{done, panic}
use iceoryx_in_rust.Container.ByteString.{
  ByteString, as_bytes, write_all, terminate, insert_bytes_unchecked, insert_bytes,
}
use iceoryx_in_rust.Container.ByteString.Text
use iceoryx_in_rust.Container.ByteString.Text.{Refines}
use iceoryx_in_rust.Container.ByteString.Memory.{
  IsSized, IsValid, Leaves, terminate-Leaves, as_bytes-take, length-as_bytes,
}

pub write_all_lem :
    (cells : List ℕ) (idx : ℕ) (bytes : List ℕ)
    → idx + length bytes ≤ length cells
    → write_all cells idx bytes
      ≡ done (take idx cells ++ (bytes ++ drop (idx + length bytes) cells))
unfolding write_all
write_all_lem cells idx [] h =
    let e : idx + 0 ≡ idx = omega arith in rw (e, take-append-drop idx cells)
write_all_lem cells idx (b ∷ bytes) h =
    let e : idx + suc (length bytes) ≡ idx + 1 + length bytes = omega arith in
    let f : idx + 1 ≡ suc idx = omega arith in
    rw (lt→ltb idx (length cells) (omega arith)) (
      write_all_lem (set cells idx b) (idx + 1) bytes (omega (arith, length-set cells idx b))
      ∙ ap done (
          ap₂ ◌++◌ (rw f (take-set_self idx b cells (omega arith)))
            (ap (◌++◌ bytes) (rw e (drop-set (idx + 1 + length bytes) idx b cells (omega arith))))
          ∙ append_assoc (take idx cells) (b ∷ []) _))

-- Room for `n` cells is made at `idx`, by moving the `m` cells there.
module _ (cells : List ℕ) (idx n m : ℕ) (h : idx + n + m ≤ length cells) where
  abbrev moved : List ℕ
  moved = take (idx + n) cells ++ (take m (drop idx cells) ++ drop (idx + n + m) cells)

  take-moved : take idx moved ≡ take idx cells
  take-moved =
      take-append_left idx (take (idx + n) cells) _ (omega (arith, length-take (idx + n) cells))
      ∙ take-take idx (idx + n) cells (omega arith)

  drop-moved : drop (idx + n) moved ≡ take m (drop idx cells) ++ drop (idx + n + m) cells
  drop-moved =
      drop-append_right 0 (idx + n) (take (idx + n) cells) _
        (omega (arith, length-take (idx + n) cells))

  length-moved : length moved ≡ length cells
  length-moved = omega (
    arith,
    length-append (take (idx + n) cells) (take m (drop idx cells) ++ drop (idx + n + m) cells),
    length-append (take m (drop idx cells)) (drop (idx + n + m) cells),
    length-take (idx + n) cells,
    length-take m (drop idx cells),
    length-drop idx cells,
    length-drop (idx + n + m) cells,
  )

-- The array after the loop, with the rest of it behind the inserted text.
abbrev spliced : List ℕ → ℕ → List ℕ → ℕ → List ℕ
spliced cells idx bytes m =
    take idx cells ++ (bytes ++ (take m (drop idx cells) ++ drop (idx + length bytes + m) cells))

module _ (cells : List ℕ) (idx : ℕ) (bytes : List ℕ) (m : ℕ)
    (h : idx + length bytes + m ≤ length cells) where
  write_all-moved :
      write_all (moved cells idx (length bytes) m h) idx bytes ≡ done (spliced cells idx bytes m)
  write_all-moved =
      write_all_lem (moved cells idx (length bytes) m h) idx bytes
        (omega (arith, length-moved cells idx (length bytes) m h))
      ∙ ap done (
          ap₂ ◌++◌ (take-moved cells idx (length bytes) m h)
            (ap (◌++◌ bytes) (drop-moved cells idx (length bytes) m h)))

  length-spliced : length (spliced cells idx bytes m) ≡ length cells
  length-spliced = omega (
    arith,
    length-append (take idx cells)
        (bytes ++ (take m (drop idx cells) ++ drop (idx + length bytes + m) cells)),
    length-append bytes (take m (drop idx cells) ++ drop (idx + length bytes + m) cells),
    length-append (take m (drop idx cells)) (drop (idx + length bytes + m) cells),
    length-take idx cells,
    length-take m (drop idx cells),
    length-drop idx cells,
    length-drop (idx + length bytes + m) cells,
  )

  take-spliced :
      (k : ℕ)
      → k ≡ idx + length bytes + m
      → take k (spliced cells idx bytes m) ≡ take idx cells ++ (bytes ++ take m (drop idx cells))
  take-spliced k e =
      take-append_right (length bytes + m) k (take idx cells) _
        (omega (arith, length-take idx cells))
      ∙ ap (◌++◌ (take idx cells)) (
          take-append_right m (length bytes + m) bytes _ refl
          ∙ ap (◌++◌ bytes) (
              take-append_right 0 m (take m (drop idx cells)) _
                (omega (arith, length-take m (drop idx cells), length-drop idx cells))
              ∙ append-nil _))

-- The string that `insert_bytes_unchecked` hands to its last step.
abbrev inserted : ByteString → ℕ → List ℕ → ByteString
inserted s idx bytes = record s {
  len = s.len + length bytes;
  cells = spliced s.cells idx bytes (s.len - idx);
}

module _ (s : ByteString) (idx : ℕ) (bytes : List ℕ) (v : IsSized s) (below : idx ≤ s.len)
    (inside : idx < s.cap) (fits : s.len + length bytes ≤ s.cap) where
  insert_bytes_unchecked-terminate :
      insert_bytes_unchecked s idx bytes ≡ terminate (inserted s idx bytes)
  unfolding insert_bytes_unchecked
  insert_bytes_unchecked-terminate =
      let e : sub_usize s.len idx ≡ s.len - idx = omega arith in
      let f : add_usize s.len (length bytes) ≡ s.len + length bytes = omega arith in
      rw (
        lt→ltb idx (length s.cells) (omega arith),
        e,
        f,
        le→leb (idx + (s.len - idx)) (length s.cells) (omega arith),
        le→leb (idx + length bytes + (s.len - idx)) (length s.cells) (omega arith),
        write_all-moved s.cells idx bytes (s.len - idx) (omega arith),
      )

  inserted-IsSized : IsSized (inserted s idx bytes)
  inserted-IsSized = record {
    room = omega (arith, length-spliced s.cells idx bytes (s.len - idx) (omega arith));
    positive = v.positive;
    small = v.small;
    fits = fits;
    zero_at_end = v.zero_at_end;
  }

  take-inserted :
      take (s.len + length bytes) (spliced s.cells idx bytes (s.len - idx))
      ≡ take idx (as_bytes s) ++ (bytes ++ drop idx (as_bytes s))
  take-inserted =
      take-spliced s.cells idx bytes (s.len - idx) (omega arith) (s.len + length bytes)
        (omega arith)
      ∙ rw (as_bytes-take s v) (
          ap₂ (λ x y. x ++ (bytes ++ y)) (sym (take-take idx s.len s.cells below))
            (take-drop (s.len - idx) idx s.len s.cells (omega arith)))

  pub insert_bytes_unchecked-Leaves :
      Leaves s
        (take idx (as_bytes s) ++ (bytes ++ drop idx (as_bytes s)))
        (insert_bytes_unchecked s idx bytes)
  insert_bytes_unchecked-Leaves =
      let (t, e, t_valid, t_cap, t_bytes) =
        terminate-Leaves (inserted s idx bytes) inserted-IsSized in
      (t, insert_bytes_unchecked-terminate ∙ e, t_valid, t_cap, t_bytes ∙ take-inserted)

-- `&self.data[idx]` is out of range at the capacity.
insert_bytes_unchecked_at_end :
    (s : ByteString) (idx : ℕ) (bytes : List ℕ)
    → IsSized s
    → s.cap ≤ idx
    → insert_bytes_unchecked s idx bytes ≡ panic
unfolding insert_bytes_unchecked
insert_bytes_unchecked_at_end s idx bytes v h = rw (le→ltb idx (length s.cells) (omega arith))

-- On a valid string and a slice of bytes `insert_bytes` is the insertion into the text: it panics
-- on an index behind the text, returns the error and keeps the text if the bytes do not fit,
-- panics if the index is the capacity, and else puts the bytes at the index. The string stays
-- valid, and no memory outside the array is touched.
pub insert_bytes-Refines :
    (s : ByteString) (idx : ℕ) (bytes : List ℕ)
    → IsValid s
    → length bytes < 2 ^ 63
    → Refines s (insert_bytes s idx bytes) (Text.insert_bytes s.cap (as_bytes s) idx bytes)
unfolding insert_bytes Text.insert_bytes
insert_bytes-Refines s idx bytes v slice =
    let f : add_usize s.len (length bytes) ≡ s.len + length bytes = omega arith in
    let n : length (as_bytes s) ≡ s.len = length-as_bytes s v.sized in
    let put = insert_bytes_unchecked-Leaves s idx bytes v.sized in
    rw (n, f)
      (elim (dec_lt s.len idx) [
        | yes h ↦ rw (lt→ltb s.len idx h) tt
        | no h ↦ rw (le→ltb s.len idx (omega arith)) (elim (dec_lt s.cap (s.len + length bytes)) [
          | yes k ↦ rw (lt→ltb s.cap (s.len + length bytes) k) (refl, v, refl, refl)
          | no k ↦
              rw (le→ltb s.cap (s.len + length bytes) (omega arith)) (elim (ℕ_discrete idx s.cap) [
                | yes e ↦
                    rw
                      (
                        eq→== idx s.cap e,
                        insert_bytes_unchecked_at_end s idx bytes v.sized (omega arith),
                      )
                      tt
                | no ne ↦
                    let (t, e, t_valid, t_cap, t_bytes) =
                      put (omega arith) (omega arith) (omega arith) in
                    rw (ne→== idx s.cap ne, e) (refl, t_valid, t_cap, t_bytes)
              ])
        ])
      ])
