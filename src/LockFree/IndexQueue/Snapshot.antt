-- ===== src/LockFree/IndexQueue/Snapshot.antt =====
-- `acquire_read_and_write_position`: the two positions that it returns belonged together.
use iceoryx_in_rust.Prelude.{
  ℕ, zero, suc, ◌+◌, ◌≤◌, ◌≡◌, refl, ◌∙◌, ap, Bool, true, Option, none, some, arith, ◌==◌, eq→==,
  ◌&&◌, Bool-cases, inl, inr,
}
use iceoryx_in_rust.LockFree.IndexQueue.{IndexQueue, acquire_read_and_write_position}

-- Positions only ever grow.
abbrev pub IsMonotone : (ℕ → ℕ) → Type 0
IsMonotone f = (t : ℕ) → f t ≤ f (t + 1)

abbrev fst_or : Option (ℕ × ℕ) → ℕ
fst_or none = 0
fst_or (some (w, r)) = w

abbrev snd_or : Option (ℕ × ℕ) → ℕ
snd_or none = 0
snd_or (some (w, r)) = r

-- Did the round that begins at `t` see the same positions twice?
abbrev stable : (ℕ → IndexQueue) → ℕ → Bool
stable at_time t =
    ((at_time t).write_position == (at_time (t + 2)).write_position)
    && ((at_time (t + 1)).read_position == (at_time (t + 3)).read_position)

-- A write position that is the same before and after is the same between.
between :
    (at_time : ℕ → IndexQueue) (t : ℕ)
    → IsMonotone (λ u. (at_time u).write_position)
    → stable at_time t ≡ true
    → (at_time (t + 1)).write_position ≡ (at_time t).write_position
between at_time t grows e =
    let p : (at_time (t + 1)).write_position ≤ (at_time (t + 1 + 1)).write_position =
      grows (t + 1) in
    let f : t + 1 + 1 ≡ t + 2 = omega arith in ground (arith, grows t, rw f at p)

-- If the write position only grows, then what the loop returns, after however many rounds, are the
-- two positions that the queue had at one moment since the loop began.
pub acquire_read_and_write_position_sound :
    (at_time : ℕ → IndexQueue) (fuel t w r : ℕ)
    → IsMonotone (λ u. (at_time u).write_position)
    → acquire_read_and_write_position at_time fuel t ≡ some (w, r)
    → (u : ℕ) × (t ≤ u) × ((at_time u).write_position ≡ w) × ((at_time u).read_position ≡ r)
unfolding acquire_read_and_write_position
acquire_read_and_write_position_sound at_time zero t w r grows e = absurd (ground arith)
acquire_read_and_write_position_sound at_time (suc fuel) t w r grows e =
    elim (Bool-cases (stable at_time t)) [
      | inl same ↦
          let f : some ((at_time t).write_position, (at_time (t + 1)).read_position) ≡ some (w, r) =
            rw same at e in
          (t + 1, omega arith, between at_time t grows same ∙ ap fst_or f, ap snd_or f)
      | inr differs ↦
          let f : acquire_read_and_write_position at_time fuel (t + 4) ≡ some (w, r) =
            rw differs at e in
          let (u, later, here, there) =
            acquire_read_and_write_position_sound at_time fuel (t + 4) w r grows f in
          (u, omega arith, here, there)
    ]

-- In a queue that nobody changes, one round is enough.
pub acquire_read_and_write_position_quiet :
    (q : IndexQueue) (fuel t : ℕ)
    → acquire_read_and_write_position (λ _. q) (suc fuel) t
      ≡ some (q.write_position, q.read_position)
unfolding acquire_read_and_write_position
acquire_read_and_write_position_quiet q fuel t =
    rw (eq→== q.write_position q.write_position refl, eq→== q.read_position q.read_position refl)
