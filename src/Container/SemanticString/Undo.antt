-- ===== src/Container/SemanticString/Undo.antt =====
-- What the calls of the byte string leave when they succeed, and that cutting bytes out again undoes
-- their insertion.
use iceoryx_in_rust.Prelude.{
  ℕ, zero, suc, ◌+◌, ◌-◌, ◌≤◌, ◌<◌, ◌≡◌, refl, sym, ◌∙◌, ap, subst, List, [], ◌∷◌, ◌++◌, arith,
  length, take, drop, drop-append_right, length-append, length-take, length-drop, le→ltb, ne→==,
}
use iceoryx_in_rust.Outcome.{Outcome, done, panic, fault}
use iceoryx_in_rust.Container.ByteString
use iceoryx_in_rust.Container.ByteString.{
  ByteString, Status, ok, insert_would_exceed_capacity, as_bytes,
}
use iceoryx_in_rust.Container.ByteString.Memory.{IsValid, length-as_bytes}
use iceoryx_in_rust.Container.ByteString.Text
use iceoryx_in_rust.Container.ByteString.Text.{Text, Refines, void}
use iceoryx_in_rust.Container.ByteString.Insert.{insert_bytes-Refines}
use iceoryx_in_rust.Container.ByteString.Remove.{remove_range-Refines}

range_fits :
    (s : ByteString) (idx n : ℕ)
    → IsValid s
    → idx + n ≤ s.len
    → s.len < s.cap
    → Text.remove_range s.cap (as_bytes s) idx n
      ≡ done (tt, take idx (as_bytes s) ++ drop (idx + n) (as_bytes s))
unfolding Text.remove_range
range_fits s idx n valid inside open_end =
    let k : length (as_bytes s) ≡ s.len = length-as_bytes s valid.sized in
    rw
      (
        k,
        le→ltb s.len (idx + n) inside,
        ne→== (idx + n) s.cap (λ e. omega (arith, e, inside, open_end)),
        ne→== (s.len - n) s.cap (λ e. omega (arith, e, open_end)),
      )
      refl

bytes_fit :
    (s : ByteString) (idx : ℕ) (bytes : List ℕ)
    → IsValid s
    → idx ≤ s.len
    → s.len + length bytes < s.cap
    → Text.insert_bytes s.cap (as_bytes s) idx bytes
      ≡ done (ok, take idx (as_bytes s) ++ (bytes ++ drop idx (as_bytes s)))
unfolding Text.insert_bytes
bytes_fit s idx bytes valid inside open_end =
    let k : length (as_bytes s) ≡ s.len = length-as_bytes s valid.sized in
    rw
      (
        k,
        le→ltb s.len idx inside,
        le→ltb s.cap (s.len + length bytes) (omega (arith, open_end)),
        ne→== idx s.cap (λ e. omega (arith, e, inside, open_end)),
      )
      refl

-- What `remove_range` of a byte string leaves here, and what `insert_bytes` does.
pub cut_out :
    (s : ByteString) (idx n : ℕ)
    → IsValid s
    → idx + n ≤ s.len
    → s.len < s.cap
    → (t : ByteString) × (ByteString.remove_range s idx n ≡ done t)
      × IsValid t
      × (as_bytes t ≡ take idx (as_bytes s) ++ drop (idx + n) (as_bytes s))
cut_out s idx n valid inside open_end = cut (ByteString.remove_range s idx n) (
    subst (Refines s (void (ByteString.remove_range s idx n)))
      (range_fits s idx n valid inside open_end)
      (remove_range-Refines s idx n valid
        (omega (arith, inside, valid.sized.fits, valid.sized.small))))
  where
    cut :
        (m : Outcome ByteString)
        → Refines s (void m) (done (tt, take idx (as_bytes s) ++ drop (idx + n) (as_bytes s)))
        → (t : ByteString) × (m ≡ done t)
          × IsValid t
          × (as_bytes t ≡ take idx (as_bytes s) ++ drop (idx + n) (as_bytes s))
    cut (done t) (_, fit, _, same) = (t, refl, fit, same)
    cut panic r = absurd r
    cut fault r = absurd r

abbrev pub with_bytes : ByteString → ℕ → List ℕ → List ℕ
with_bytes s idx bytes = take idx (as_bytes s) ++ (bytes ++ drop idx (as_bytes s))

pub put_in :
    (s : ByteString) (idx : ℕ) (bytes : List ℕ)
    → IsValid s
    → idx ≤ s.len
    → s.len + length bytes < s.cap
    → (t : ByteString) × (ByteString.insert_bytes s idx bytes ≡ done (ok, t))
      × IsValid t
      × (t.cap ≡ s.cap)
      × (as_bytes t ≡ with_bytes s idx bytes)
put_in s idx bytes valid inside open_end = put (ByteString.insert_bytes s idx bytes) (
    subst (Refines s (ByteString.insert_bytes s idx bytes))
      (bytes_fit s idx bytes valid inside open_end)
      (insert_bytes-Refines s idx bytes valid (omega (arith, open_end, valid.sized.small))))
  where
    put :
        (m : Outcome (Status × ByteString))
        → Refines s m (done (ok, with_bytes s idx bytes))
        → (t : ByteString) × (m ≡ done (ok, t))
          × IsValid t
          × (t.cap ≡ s.cap)
          × (as_bytes t ≡ with_bytes s idx bytes)
    put (done (status, t)) (e, fit, same_cap, same) =
        (t, ap (λ k. done (k, t)) e, fit, same_cap, same)
    put panic r = absurd r
    put fault r = absurd r

-- Cutting the bytes out again.
cut-put :
    (xs bytes : List ℕ) (idx : ℕ)
    → idx ≤ length xs
    → take idx (take idx xs ++ (bytes ++ drop idx xs))
        ++ drop (idx + length bytes) (take idx xs ++ (bytes ++ drop idx xs))
      ≡ xs
cut-put xs bytes zero h = drop-append_right 0 (0 + length bytes) bytes xs (omega arith)
cut-put [] bytes (suc idx) h = absurd (omega arith)
cut-put (x ∷ xs) bytes (suc idx) h =
    let ys = take idx xs ++ (bytes ++ drop idx xs) in
    let k : suc idx + length bytes ≡ suc (idx + length bytes) = omega arith in
    ap (λ m. x ∷ (take idx ys ++ drop m (x ∷ ys))) k
    ∙ ap (λ zs. x ∷ zs) (cut-put xs bytes idx (omega arith))

pub undone :
    (s t : ByteString) (idx : ℕ) (bytes : List ℕ)
    → IsValid s
    → IsValid t
    → t.cap ≡ s.cap
    → idx ≤ s.len
    → s.len + length bytes < s.cap
    → as_bytes t ≡ with_bytes s idx bytes
    → (u : ByteString) × (ByteString.remove_range t idx (length bytes) ≡ done u)
      × IsValid u
      × (as_bytes u ≡ as_bytes s)
undone s t idx bytes valid t_valid t_cap inside open_end same =
    let k : length (as_bytes s) ≡ s.len = length-as_bytes s valid.sized in
    let l : t.len ≡ s.len + length bytes =
      sym (length-as_bytes t t_valid.sized)
      ∙ ap length same
      ∙ omega (
        arith,
        inside,
        k,
        length-append (take idx (as_bytes s)) (bytes ++ drop idx (as_bytes s)),
        length-append bytes (drop idx (as_bytes s)),
        length-take idx (as_bytes s),
        length-drop idx (as_bytes s),
      ) in
    let (u, e, u_valid, text) =
      cut_out t idx (length bytes) t_valid (omega (arith, l, inside))
        (omega (arith, l, t_cap, open_end)) in
    (
      u,
      e,
      u_valid,
      text
          ∙ ap (λ ys. take idx ys ++ drop (idx + length bytes) ys) same
          ∙ cut-put (as_bytes s) bytes idx (omega (arith, inside, k)),
    )
