-- ===== src/Container/ByteString/Remove.antt =====
-- `remove`, `remove_range`, `pop`, `clear` and `truncate` against the text.
use iceoryx_in_rust.Prelude.{
  ℕ, ◌+◌, ◌-◌, ◌^◌, ◌≤◌, ◌<◌, ◌≡◌, refl, sym, ◌∙◌, ap, ap₂, List, [], ◌++◌, append-nil, arith,
  length, get_or, set, take, drop, length-append, length-take, length-drop, lt→ltb, le→ltb, le→leb,
  lt→leb, dec_lt, ℕ_discrete, eq→==, ne→==, take-append_right, take-take, take-drop, drop-length,
  take-length, get_or-take,
}
use iceoryx_in_rust.Prelude.Word.{add_usize, sub_usize}
use iceoryx_in_rust.Outcome.{done, panic, fault}
use iceoryx_in_rust.Container.ByteString.{
  ByteString, as_bytes, remove_range_impl, remove, remove_range, pop, is_empty, clear, truncate,
}
use iceoryx_in_rust.Container.ByteString.Text
use iceoryx_in_rust.Container.ByteString.Text.{Refines, void}
use iceoryx_in_rust.Container.ByteString.Memory.{
  IsSized, IsValid, Leaves, terminate-Leaves, terminated, terminated-as_bytes, as_bytes-take,
  length-as_bytes,
}

-- The array after the `m` cells at `end` have moved down to `idx`.
abbrev closed : List ℕ → ℕ → ℕ → ℕ → List ℕ
closed cells idx end m = take idx cells ++ (take m (drop end cells) ++ drop (idx + m) cells)

module _ (cells : List ℕ) (idx end m : ℕ) (h : idx ≤ end) (k : end + m ≤ length cells) where
  length-closed : length (closed cells idx end m) ≡ length cells
  length-closed = omega (
    arith,
    length-append (take idx cells) (take m (drop end cells) ++ drop (idx + m) cells),
    length-append (take m (drop end cells)) (drop (idx + m) cells),
    length-take idx cells,
    length-take m (drop end cells),
    length-drop end cells,
    length-drop (idx + m) cells,
  )

  take-closed :
      (n : ℕ)
      → n ≡ idx + m
      → take n (closed cells idx end m) ≡ take idx cells ++ take m (drop end cells)
  take-closed n e =
      take-append_right m n (take idx cells) _ (omega (arith, length-take idx cells))
      ∙ ap (◌++◌ (take idx cells)) (
          take-append_right 0 m (take m (drop end cells)) _
            (omega (arith, length-take m (drop end cells), length-drop end cells))
          ∙ append-nil _)

-- The string before the last write of `remove_range_impl`.
abbrev shortened : ByteString → ℕ → ℕ → ByteString
shortened s idx n = record s {
  len = s.len - n;
  cells = closed s.cells idx (idx + n) (s.len - (idx + n));
}

module _ (s : ByteString) (idx n : ℕ) (v : IsSized s) (below : idx + n ≤ s.len)
    (inside : idx + n < s.cap) (shorter : s.len - n < s.cap) where
  shortened-IsSized : IsSized (shortened s idx n)
  shortened-IsSized = record {
    room = omega (
      arith,
      length-closed s.cells idx (idx + n) (s.len - (idx + n)) (omega arith) (omega arith),
    );
    positive = v.positive;
    small = v.small;
    fits = omega arith;
    zero_at_end = v.zero_at_end;
  }

  remove_range_impl-done :
      remove_range_impl s idx n
      ≡ done (record (shortened s idx n) {
        cells = set (closed s.cells idx (idx + n) (s.len - (idx + n))) (s.len - n) 0;
      })
  unfolding remove_range_impl
  remove_range_impl-done =
      let e : add_usize idx n ≡ idx + n = omega arith in
      let f : sub_usize s.len (idx + n) ≡ s.len - (idx + n) = omega arith in
      let g : sub_usize s.len n ≡ s.len - n = omega arith in
      rw (
        e,
        f,
        g,
        lt→ltb (idx + n) (length s.cells) (omega arith),
        lt→ltb idx (length s.cells) (omega arith),
        le→leb (idx + n + (s.len - (idx + n))) (length s.cells) (omega arith),
        le→leb (idx + (s.len - (idx + n))) (length s.cells) (omega arith),
        lt→ltb (s.len - n) (length (closed s.cells idx (idx + n) (s.len - (idx + n)))) (
            omega (
              arith,
              length-closed s.cells idx (idx + n) (s.len - (idx + n)) (omega arith) (omega arith),
            )),
      )

  pub remove_range_impl-Leaves :
      Leaves s (take idx (as_bytes s) ++ drop (idx + n) (as_bytes s)) (remove_range_impl s idx n)
  remove_range_impl-Leaves = (
    _,
    remove_range_impl-done,
    terminated (shortened s idx n) shortened-IsSized (omega arith),
    refl,
    terminated-as_bytes (shortened s idx n) shortened-IsSized (omega arith)
        ∙ take-closed s.cells idx (idx + n) (s.len - (idx + n)) (omega arith) (omega arith)
            (s.len - n) (omega arith)
        ∙ rw (as_bytes-take s v) (
            ap₂ ◌++◌ (sym (take-take idx s.len s.cells (omega arith)))
              (take-drop (s.len - (idx + n)) (idx + n) s.len s.cells (omega arith))),
  )

-- `&self.data[idx + len]` is out of range at the capacity.
remove_range_impl_at_end :
    (s : ByteString) (idx n : ℕ)
    → IsSized s
    → idx + n < 2 ^ 64
    → s.cap ≤ idx + n
    → remove_range_impl s idx n ≡ panic
unfolding remove_range_impl
remove_range_impl_at_end s idx n v small h =
    let e : add_usize idx n ≡ idx + n = omega arith in
    rw (e, le→ltb (idx + n) (length s.cells) (omega arith))

-- Nothing is removed from a full string: `self.data[self.len]` is out of range.
remove_range_impl_of_full :
    (s : ByteString) (idx n : ℕ)
    → IsSized s
    → idx + n ≤ s.len
    → idx + n < s.cap
    → s.len - n ≡ s.cap
    → remove_range_impl s idx n ≡ panic
unfolding remove_range_impl
remove_range_impl_of_full s idx n v below inside full =
    let e : add_usize idx n ≡ idx + n = omega arith in
    let f : sub_usize s.len (idx + n) ≡ s.len - (idx + n) = omega arith in
    let g : sub_usize s.len n ≡ s.len - n = omega arith in
    rw (
      e,
      f,
      g,
      lt→ltb (idx + n) (length s.cells) (omega arith),
      lt→ltb idx (length s.cells) (omega arith),
      le→leb (idx + n + (s.len - (idx + n))) (length s.cells) (omega arith),
      le→leb (idx + (s.len - (idx + n))) (length s.cells) (omega arith),
      le→ltb (s.len - n) (length (closed s.cells idx (idx + n) (s.len - (idx + n)))) (
          omega (
            arith,
            length-closed s.cells idx (idx + n) (s.len - (idx + n)) (omega arith) (omega arith),
          )),
    )

-- On a valid string, with a range whose end does not wrap, `remove_range` cuts the range out of the
-- text. It panics if the range ends behind the text, if it ends at the capacity, and if it is empty
-- and the string full.
pub remove_range-Refines :
    (s : ByteString) (idx n : ℕ)
    → IsValid s
    → idx + n < 2 ^ 64
    → Refines s (void (remove_range s idx n)) (Text.remove_range s.cap (as_bytes s) idx n)
unfolding remove_range Text.remove_range
remove_range-Refines s idx n v small =
    let e : add_usize idx n ≡ idx + n = omega arith in
    rw (e, length-as_bytes s v.sized)
      (elim (dec_lt s.len (idx + n)) [
        | yes h ↦ rw (lt→ltb s.len (idx + n) h) tt
        | no h ↦ rw (le→ltb s.len (idx + n) (omega arith)) (elim (ℕ_discrete (idx + n) s.cap) [
          | yes f ↦
              rw
                (
                  eq→== (idx + n) s.cap f,
                  remove_range_impl_at_end s idx n v.sized small (omega arith),
                )
                tt
          | no ne ↦ rw (ne→== (idx + n) s.cap ne) (elim (ℕ_discrete (s.len - n) s.cap) [
            | yes full ↦
                rw
                  (
                    eq→== (s.len - n) s.cap full,
                    remove_range_impl_of_full s idx n v.sized (omega arith) (omega arith) full,
                  )
                  tt
            | no less ↦
                let (t, f, t_valid, t_cap, t_bytes) =
                  remove_range_impl-Leaves s idx n v.sized (omega arith) (omega arith)
                    (omega arith) in
                rw (ne→== (s.len - n) s.cap less, f) (refl, t_valid, t_cap, t_bytes)
          ])
        ])
      ])

-- Right behind the text `self.len - (idx + 1)` wraps around.
remove_behind_text :
    (s : ByteString) (idx : ℕ)
    → IsSized s
    → idx ≡ s.len
    → idx + 1 < s.cap
    → remove_range_impl s idx 1 ≡ fault
unfolding remove_range_impl
remove_behind_text s idx v e h =
    let f : add_usize idx 1 ≡ idx + 1 = omega arith in
    let g : sub_usize s.len (idx + 1) ≡ 2 ^ 64 - 1 = omega arith in
    rw (
      f,
      g,
      lt→ltb (idx + 1) (length s.cells) (omega arith),
      lt→ltb idx (length s.cells) (omega arith),
      lt→leb (idx + 1 + (2 ^ 64 - 1)) (length s.cells) (omega arith),
    )

-- The array ends where the byte would be, or right behind it.
pub remove_at_end :
    (s : ByteString) (idx : ℕ) → IsSized s → idx ≤ s.len → s.cap ≤ idx + 1 → remove s idx ≡ panic
unfolding remove
remove_at_end s idx v below h = rw (le→ltb s.len idx below) (elim (dec_lt idx (length s.cells)) [
  | yes k ↦ rw (lt→ltb idx (length s.cells) k, remove_range_impl_at_end s idx 1 v (omega arith) h)
  | no k ↦ rw (le→ltb idx (length s.cells) (omega arith))
])

-- The byte inside the text that `remove` returns, and what it leaves.
pub remove_inside :
    (s : ByteString) (idx : ℕ)
    → IsSized s
    → idx < s.len
    → idx + 1 < s.cap
    → (t : ByteString) × (remove s idx ≡ done (get_or (as_bytes s) idx 0, t))
      × IsValid t
      × (t.cap ≡ s.cap)
      × (as_bytes t ≡ take idx (as_bytes s) ++ drop (idx + 1) (as_bytes s))
unfolding remove
remove_inside s idx v below h =
    let (t, e, t_valid, t_cap, t_bytes) =
      remove_range_impl-Leaves s idx 1 v (omega arith) h (omega arith) in
    let byte : get_or s.cells idx 0 ≡ get_or (as_bytes s) idx 0 =
      rw (as_bytes-take s v) (sym (get_or-take s.len idx s.cells 0 below)) in
    (
      t,
      rw (le→ltb s.len idx (omega arith), lt→ltb idx (length s.cells) (omega arith), e, byte),
      t_valid,
      t_cap,
      t_bytes,
    )

remove_right_behind :
    (s : ByteString) (idx : ℕ) → IsSized s → idx ≡ s.len → idx + 1 < s.cap → remove s idx ≡ fault
unfolding remove
remove_right_behind s idx v e h = rw (
  le→ltb s.len idx (omega arith),
  lt→ltb idx (length s.cells) (omega arith),
  remove_behind_text s idx v e h,
)

remove_behind : (s : ByteString) (idx : ℕ) → s.len < idx → remove s idx ≡ panic
unfolding remove
remove_behind s idx h = rw (lt→ltb s.len idx h)

-- On a valid string `remove` returns the byte at the index and cuts it out of the text. It panics
-- on an index behind the text and at the end of the array, and has undefined behaviour on the
-- index right behind the text elsewhere.
pub remove-Refines :
    (s : ByteString) (idx : ℕ)
    → IsValid s
    → Refines s (remove s idx) (Text.remove s.cap (as_bytes s) idx)
unfolding Text.remove
remove-Refines s idx v = rw (length-as_bytes s v.sized) (elim (dec_lt s.len idx) [
  | yes h ↦ rw (lt→ltb s.len idx h, remove_behind s idx h) tt
  | no h ↦ rw (le→ltb s.len idx (omega arith)) (elim (dec_lt (idx + 1) s.cap) [
    | no f ↦
        rw
          (
            le→leb s.cap (idx + 1) (omega arith),
            remove_at_end s idx v.sized (omega arith) (omega arith),
          )
          tt
    | yes k ↦ rw (lt→leb s.cap (idx + 1) k) (elim (ℕ_discrete idx s.len) [
      | yes e ↦ rw (eq→== idx s.len e, remove_right_behind s idx v.sized e k) tt
      | no ne ↦
          let (t, f, t_valid, t_cap, t_bytes) = remove_inside s idx v.sized (omega arith) k in
          rw (ne→== idx s.len ne, f) (refl, t_valid, t_cap, t_bytes)
    ])
  ])
])

-- On a valid string `pop` returns `None` and keeps an empty text, and returns the last byte of any
-- other and cuts it off, but a full string panics.
pub pop-Refines : (s : ByteString) → IsValid s → Refines s (pop s) (Text.pop s.cap (as_bytes s))
unfolding pop is_empty Text.pop
pop-Refines s v = rw (length-as_bytes s v.sized) (elim (ℕ_discrete s.len 0) [
  | yes e ↦ rw (eq→== s.len 0 e) (refl, v, refl, refl)
  | no ne ↦ rw (ne→== s.len 0 ne) (elim (ℕ_discrete s.len s.cap) [
    | yes full ↦
        rw (eq→== s.len s.cap full, remove_at_end s (s.len - 1) v.sized (omega arith) (omega arith))
          tt
    | no less ↦
        let (t, f, t_valid, t_cap, t_bytes) =
          remove_inside s (s.len - 1) v.sized (omega arith) (omega arith) in
        let nothing : drop (s.len - 1 + 1) (as_bytes s) ≡ [] =
          drop-length (s.len - 1 + 1) (as_bytes s) (omega (arith, length-as_bytes s v.sized)) in
        rw (ne→== s.len s.cap less, f)
          (refl, t_valid, t_cap, t_bytes ∙ rw nothing (append-nil (take (s.len - 1) (as_bytes s))))
  ])
])

-- On a valid string `truncate` leaves the first `new_len` bytes of the text, all if it has fewer.
pub truncate-Leaves :
    (s : ByteString) (new_len : ℕ)
    → IsValid s
    → Leaves s (take new_len (as_bytes s)) (truncate s new_len)
unfolding truncate
truncate-Leaves s new_len v = elim (dec_lt s.len new_len) [
  | yes h ↦ (
    s,
    rw (lt→ltb s.len new_len h),
    v,
    refl,
    sym (take-length new_len (as_bytes s) (omega (arith, length-as_bytes s v.sized))),
  )
  | no h ↦
      let (t, e, t_valid, t_cap, t_bytes) =
        terminate-Leaves (record s { len = new_len }) (cut (omega arith)) in
      (
        t,
        rw (le→ltb s.len new_len (omega arith)) e,
        t_valid,
        t_cap,
        t_bytes
            ∙ rw (as_bytes-take s v.sized) (sym (take-take new_len s.len s.cells (omega arith))),
      )
]
  where
    cut : new_len ≤ s.len → IsSized (record s { len = new_len })
    cut h = record {
      room = v.sized.room;
      positive = v.sized.positive;
      small = v.sized.small;
      fits = omega arith;
      zero_at_end = v.sized.zero_at_end;
    }

-- On a valid string `clear` leaves the empty text.
pub clear-Leaves : (s : ByteString) → IsValid s → Leaves s [] (clear s)
unfolding clear
clear-Leaves s v = (
  record s { len = 0; cells = set s.cells 0 0 },
  rw (lt→ltb 0 (length s.cells) (omega arith)),
  terminated (record s { len = 0 }) empty (omega arith),
  refl,
  refl,
)
  where
    empty : IsSized (record s { len = 0 })
    empty = record {
      room = v.sized.room;
      positive = v.sized.positive;
      small = v.sized.small;
      fits = omega arith;
      zero_at_end = v.sized.zero_at_end;
    }
