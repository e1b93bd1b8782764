-- ===== src/Container/ByteString/Retain.antt =====
-- `retain`: which bytes stay.
use iceoryx_in_rust.Prelude.{
  ℕ, zero, suc, ◌+◌, ◌≤◌, ◌<◌, ◌≡◌, refl, sym, ◌∙◌, ap, List, [], ◌∷◌, ◌++◌, append-nil,
  append_assoc, Bool, true, false, arith, length, take, drop, get_or, take-suc, take-append_left,
  take-length, drop_cons, drop-append_right, drop-length, length-take, length-drop, length-append,
  lt→ltb, Bool-cases, inl, inr, get_or-take,
}
use iceoryx_in_rust.Container.ByteString.{ByteString, as_bytes, retain_down, retain}
use iceoryx_in_rust.Container.ByteString.Memory.{IsValid, Leaves, as_bytes-take, length-as_bytes}
use iceoryx_in_rust.Container.ByteString.Text.{discard}
use iceoryx_in_rust.Container.ByteString.Remove.{remove_inside}

discard-append :
    (f : ℕ → Bool) (xs ys : List ℕ) → discard f (xs ++ ys) ≡ discard f xs ++ discard f ys
discard-append f [] ys = refl
discard-append f (x ∷ xs) ys = elim (Bool-cases (f x)) [
  | inl e ↦ rw e (discard-append f xs ys)
  | inr e ↦ rw e (ap (◌∷◌ x) (discard-append f xs ys))
]

module _ (f : ℕ → Bool) (xs : List ℕ) (idx : ℕ) (h : idx < length xs) where
  -- What is left of the text once the places from `idx` on are done.
  discard-drop :
      f (get_or xs idx 0) ≡ true
      → discard f (take (suc idx) xs) ++ drop (suc idx) xs
        ≡ discard f (take idx xs) ++ drop (suc idx) xs
  discard-drop e =
      rw (take-suc idx xs 0 h, discard-append f (take idx xs) (get_or xs idx 0 ∷ []), e)
        (ap (λ ys. ys ++ drop (suc idx) xs) (append-nil _))

  discard-keep :
      f (get_or xs idx 0) ≡ false
      → discard f (take (suc idx) xs) ++ drop (suc idx) xs ≡ discard f (take idx xs) ++ drop idx xs
  discard-keep e =
      rw
        (
          take-suc idx xs 0 h,
          discard-append f (take idx xs) (get_or xs idx 0 ∷ []),
          e,
          drop_cons idx xs 0 h,
        )
        (append_assoc (discard f (take idx xs)) (get_or xs idx 0 ∷ []) (drop (suc idx) xs))

  take-removed : take idx (take idx xs ++ drop (suc idx) xs) ≡ take idx xs
  take-removed =
      take-append_left idx (take idx xs) _ (omega (arith, length-take idx xs))
      ∙ take-length idx (take idx xs) (omega (arith, length-take idx xs))

  drop-removed : drop idx (take idx xs ++ drop (suc idx) xs) ≡ drop (suc idx) xs
  drop-removed = drop-append_right 0 idx (take idx xs) _ (omega (arith, length-take idx xs))

  length-removed : length (take idx xs ++ drop (suc idx) xs) + 1 ≡ length xs
  length-removed = omega (
    arith,
    length-append (take idx xs) (drop (suc idx) xs),
    length-take idx xs,
    length-drop (suc idx) xs,
  )

retain_down-Leaves :
    (f : ℕ → Bool) (idx : ℕ) (s : ByteString)
    → IsValid s
    → s.len < s.cap
    → idx ≤ s.len
    → Leaves s (discard f (take idx (as_bytes s)) ++ drop idx (as_bytes s)) (retain_down f idx s)
unfolding retain_down
retain_down-Leaves f zero s v room h = (s, refl, v, refl, refl)
retain_down-Leaves f (suc idx) s v room h =
    let n : length (as_bytes s) ≡ s.len = length-as_bytes s v.sized in
    let byte : get_or s.cells idx 0 ≡ get_or (as_bytes s) idx 0 =
      rw (as_bytes-take s v.sized) (sym (get_or-take s.len idx s.cells 0 h)) in
    rw (lt→ltb idx (length s.cells) (omega arith), byte)
      (elim (Bool-cases (f (get_or (as_bytes s) idx 0))) [
        | inl e ↦
            let (t, g, t_valid, t_cap, t_bytes) = remove_inside s idx v.sized h (omega arith) in
            let next : idx + 1 ≡ suc idx = omega arith in
            let t_text : as_bytes t ≡ take idx (as_bytes s) ++ drop (suc idx) (as_bytes s) =
              t_bytes ∙ rw next refl in
            let t_len : t.len + 1 ≡ s.len = omega (
              arith,
              length-as_bytes t t_valid.sized,
              ap length t_text,
              length-removed f (as_bytes s) idx (omega arith),
            ) in
            let (u, k, u_valid, u_cap, u_bytes) =
              retain_down-Leaves f idx t t_valid (omega arith) (omega arith) in
            (
              u,
              rw (e, g) k,
              u_valid,
              u_cap ∙ t_cap,
              u_bytes
                  ∙ rw
                      (
                        t_text,
                        take-removed f (as_bytes s) idx (omega arith),
                        drop-removed f (as_bytes s) idx (omega arith),
                      )
                      (sym (discard-drop f (as_bytes s) idx (omega arith) e)),
            )
        | inr e ↦
            let (u, k, u_valid, u_cap, u_bytes) = retain_down-Leaves f idx s v room (omega arith) in
            (
              u,
              rw e k,
              u_valid,
              u_cap,
              u_bytes ∙ sym (discard-keep f (as_bytes s) idx (omega arith) e),
            )
      ])

-- On a valid string that is not full, and a test `f` without state, `retain` removes exactly the
-- bytes that `f` accepts, keeps the order of the others, and leaves a valid string.
pub retain-Leaves :
    (f : ℕ → Bool) (s : ByteString)
    → IsValid s
    → s.len < s.cap
    → Leaves s (discard f (as_bytes s)) (retain f s)
unfolding retain
retain-Leaves f s v room =
    let (t, e, t_valid, t_cap, t_bytes) = retain_down-Leaves f s.len s v room (omega arith) in
    let n : length (as_bytes s) ≡ s.len = length-as_bytes s v.sized in
    (
      t,
      e,
      t_valid,
      t_cap,
      t_bytes
          ∙ rw
              (
                take-length s.len (as_bytes s) (omega arith),
                drop-length s.len (as_bytes s) (omega arith),
              )
              (append-nil (discard f (as_bytes s))),
    )
