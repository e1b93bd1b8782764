-- ===== src/Sync/WriterPreference/Accesses.antt =====
-- Every access and every call keeps the counts.
use iceoryx_in_rust.Prelude.{
  ℕ, ◌+◌, ◌*◌, ◌%◌, le→leb, lt→leb, ◌≤◌, ◌<◌, ◌≡◌, ◌≢◌, refl, sym, Bool, true, false, arith, eq→==,
  ne→==, ℕ_discrete, dec_lt, lt→ltb, le→ltb, if◌then◌else◌,
}
use mathlib.Core.Bool.{true≢false}
use iceoryx_in_rust.Prelude.Word.{add_u32}
use iceoryx_in_rust.Sync.ReaderPreference.{
  write_locked, spin_repetitions, Event, call_try_read_lock, call_read_lock, call_try_write_lock,
  call_write_lock, call_unlock, access,
}
use iceoryx_in_rust.Sync.WriterPreference.{
  RwLockWriterPreference, Thread, outside, try_reading, try_joining, read_loading, read_waiting,
  joining, reader, try_writing, write_loading, write_exchanging, marking, write_waiting, sleeping,
  unmarking, announcing, writer, reader_unlocking, writer_unlocking, storing, subtracting,
  try_read_lock_load, try_read_lock_exchange, read_lock_test, read_lock_wait, read_lock_exchange,
  try_write_lock, write_lock_give_up, write_lock_next, write_lock_test, write_lock_exchange,
  write_lock_mark, write_lock_unmark, write_lock_wait, unlock_load, unlock_subtract, call, advance,
  act,
}
use iceoryx_in_rust.Sync.WriterPreference.Counts.{readers, writers, Ok, StateOk, Kept}

-- A lock that is changed only for the threads that wait.
abbrev Neutral : Thread → Type 0
Neutral t = Ok t × (readers t ≡ 0) × (writers t ≡ 0)

Neutral-Kept :
    (q : RwLockWriterPreference) (t : Thread) (r w : ℕ) → Neutral t → StateOk q r w → Kept q t r w
Neutral-Kept q t r w (ok, e, f) h = rw e (rw f (ok, (omega (arith, h), omega (arith, h), h.2)))

tested-Neutral :
    (seen spins : ℕ) (keep_running : Bool) → Neutral (read_lock_test seen spins keep_running)
unfolding read_lock_test
tested-Neutral seen spins keep_running = elim (ℕ_discrete (seen % 2) 1) [
  | yes odd ↦ rw (eq→== (seen % 2) 1 odd) (kept keep_running)
  | no even ↦ rw (ne→== (seen % 2) 1 even) (even, refl, refl)
]
  where
    kept : (b : Bool) → Neutral (if b then read_waiting seen spins else outside)
    kept true = (tt, refl, refl)
    kept false = (tt, refl, refl)

give_up-Neutral : (seen : ℕ) → Neutral (write_lock_give_up seen)
unfolding write_lock_give_up
give_up-Neutral seen = elim (ℕ_discrete (seen % 2) 0) [
  | yes even ↦ rw (eq→== (seen % 2) 0 even) (tt, refl, refl)
  | no odd ↦ elim (ℕ_discrete seen write_locked) [
    | yes full ↦ rw (ne→== (seen % 2) 0 odd, eq→== seen write_locked full) (tt, refl, refl)
    | no other ↦
        rw (ne→== (seen % 2) 0 odd, ne→== seen write_locked other) ((odd, other), refl, refl)
  ]
]

next-Neutral :
    (seen spins : ℕ) (keep_running : Bool) → Neutral (write_lock_next seen spins keep_running)
unfolding write_lock_next
next-Neutral seen spins true = elim (ℕ_discrete (seen % 2) 0) [
  | yes even ↦ rw (eq→== (seen % 2) 0 even) (even, refl, refl)
  | no odd ↦ rw (ne→== (seen % 2) 0 odd) (tt, refl, refl)
]
next-Neutral seen spins false = give_up-Neutral seen

write_tested-Neutral :
    (seen spins : ℕ) (keep_running : Bool) → Neutral (write_lock_test seen spins keep_running)
unfolding write_lock_test
write_tested-Neutral seen spins keep_running = elim (dec_lt 1 seen) [
  | yes held ↦ rw (lt→leb seen 1 held) (next-Neutral seen spins keep_running)
  | no free ↦ rw (le→leb seen 1 (omega (arith, free))) (omega (arith, free), refl, refl)
]

joined :
    (q : RwLockWriterPreference) (seen r w : ℕ)
    → q.state ≡ seen
    → seen % 2 ≢ 1
    → 2 * r + 3 < write_locked
    → StateOk q r w
    → Kept (record q { state = add_u32 seen 2 }) reader r w
joined q seen r w now even room (a, b, c) = (
  tt,
  (
    omega (arith, now, even, room, a, b, c),
    omega (arith, now, even, room, a, b, c),
    omega (arith, now, even, room, a, b, c),
  ),
)

locked :
    (q : RwLockWriterPreference) (r w : ℕ)
    → q.state ≤ 1
    → StateOk q r w
    → Kept (record q { state = write_locked }) writer r w
locked q r w free (a, b, c) = (tt, (omega (arith, free, a), omega (arith, free, a), omega arith))

plain : (q : RwLockWriterPreference) (r w : ℕ) → StateOk q (r + 0) (w + 0) → StateOk q r w
plain q r w (a, b, c) = (omega (arith, a), omega (arith, b), c)

advance-Kept :
    (woken : Bool) (q : RwLockWriterPreference) (t : Thread) (r w : ℕ)
    → 2 * r + 3 < write_locked
    → Ok t
    → StateOk q (r + readers t) (w + writers t)
    → Kept (advance woken q t).1 (advance woken q t).0 r w
unfolding advance
advance-Kept woken q outside r w room ok h = (ok, h)
advance-Kept woken q reader r w room ok h = (ok, h)
advance-Kept woken q writer r w room ok h = (ok, h)
advance-Kept woken q try_reading r w room ok h = elim (ℕ_discrete (q.state % 2) 1) [
  | yes odd ↦ rw (try_read_lock_load, eq→== (q.state % 2) 1 odd) (tt, h)
  | no even ↦ rw (try_read_lock_load, ne→== (q.state % 2) 1 even) (even, h)
]
advance-Kept woken q (try_joining seen) r w room ok h = elim (ℕ_discrete q.state seen) [
  | yes now ↦
      rw (try_read_lock_exchange, eq→== q.state seen now)
        (joined q seen r w now ok room (plain q r w h))
  | no moved ↦ rw (try_read_lock_exchange, ne→== q.state seen moved) (tt, h)
]
advance-Kept woken q (read_loading spins keep_running) r w room ok h =
    Neutral-Kept q (read_lock_test q.state spins keep_running) r w
      (tested-Neutral q.state spins keep_running) (plain q r w h)
advance-Kept woken q (read_waiting seen spins) r w room ok h =
    elim (dec_lt spins spin_repetitions) [
      | yes spin ↦ rw (read_lock_wait, lt→ltb spins spin_repetitions spin) (tt, h)
      | no sleep ↦ rw (read_lock_wait, le→ltb spins spin_repetitions (omega (arith, sleep))) (tt, h)
    ]
advance-Kept woken q (joining seen spins keep_running) r w room ok h =
    elim (ℕ_discrete q.state seen) [
      | yes now ↦
          rw (read_lock_exchange, eq→== q.state seen now)
            (joined q seen r w now ok room (plain q r w h))
      | no moved ↦
          rw (read_lock_exchange, ne→== q.state seen moved)
            (Neutral-Kept q (read_lock_test q.state spins keep_running) r w
              (tested-Neutral q.state spins keep_running) (plain q r w h))
    ]
advance-Kept woken q try_writing r w room ok h = elim (ℕ_discrete q.state 0) [
  | yes free ↦
      rw (try_write_lock, eq→== q.state 0 free) (locked q r w (omega (arith, free)) (plain q r w h))
  | no held ↦ rw (try_write_lock, ne→== q.state 0 held) (tt, h)
]
advance-Kept woken q (write_loading spins keep_running) r w room ok h =
    Neutral-Kept q (write_lock_test q.state spins keep_running) r w
      (write_tested-Neutral q.state spins keep_running) (plain q r w h)
advance-Kept woken q (write_exchanging seen spins keep_running) r w room ok h =
    elim (ℕ_discrete q.state seen) [
      | yes now ↦
          rw (write_lock_exchange, eq→== q.state seen now)
            (locked q r w (omega (arith, now, ok)) (plain q r w h))
      | no moved ↦
          rw (write_lock_exchange, ne→== q.state seen moved)
            (Neutral-Kept q (write_lock_next q.state spins keep_running) r w
              (next-Neutral q.state spins keep_running) (plain q r w h))
    ]
advance-Kept woken q (marking seen spins) r w room ok (a, b, c) = elim (ℕ_discrete q.state seen) [
  | yes now ↦
      rw (write_lock_mark, eq→== q.state seen now)
        (
          tt,
          (
            omega (arith, now, ok, room, a, b, c),
            omega (arith, now, ok, room, a, b, c),
            omega (arith, now, ok, room, a, b, c),
          ),
        )
  | no moved ↦ rw (write_lock_mark, ne→== q.state seen moved) (tt, (a, b, c))
]
advance-Kept woken q (write_waiting spins) r w room ok h = elim (dec_lt spins spin_repetitions) [
  | yes spin ↦ rw (write_lock_wait, lt→ltb spins spin_repetitions spin) (tt, h)
  | no sleep ↦ rw (write_lock_wait, le→ltb spins spin_repetitions (omega (arith, sleep))) (tt, h)
]
advance-Kept woken q (sleeping wake_counter spins) r w room ok h = (tt, h)
advance-Kept woken q (unmarking seen) r w room (odd, other) (a, b, c) =
    elim (ℕ_discrete q.state seen) [
      | yes now ↦
          rw (write_lock_unmark, eq→== q.state seen now)
            (
              tt,
              (
                omega (arith, now, odd, other, room, a, b, c),
                omega (arith, now, odd, other, room, a, b, c),
                omega (arith, now, odd, other, room, a, b, c),
              ),
            )
      | no moved ↦
          rw (write_lock_unmark, ne→== q.state seen moved)
            (Neutral-Kept q (write_lock_give_up q.state) r w (give_up-Neutral q.state)
              (plain q r w (a, b, c)))
    ]
advance-Kept woken q announcing r w room ok h = (tt, h)
advance-Kept woken q reader_unlocking r w room ok (a, b, c) =
    elim (ℕ_discrete q.state write_locked) [
      | yes full ↦ absurd (omega (arith, full, a, b, c, room))
      | no other ↦ rw (unlock_load, ne→== q.state write_locked other) (refl, (a, b, c))
    ]
advance-Kept woken q writer_unlocking r w room ok (a, b, c) =
    elim (ℕ_discrete q.state write_locked) [
      | yes full ↦ rw (unlock_load, eq→== q.state write_locked full) (refl, (a, b, c))
      | no other ↦ absurd (omega (arith, other, a, b, c))
    ]
advance-Kept woken q (storing true) r w room ok (a, b, c) =
    (tt, (omega (arith, a, b, c), omega (arith, a, b, c), omega arith))
advance-Kept woken q (storing false) r w room ok h = absurd (true≢false (sym ok))
advance-Kept woken q (subtracting true) r w room ok h = absurd (true≢false ok)
advance-Kept woken q (subtracting false) r w room ok (a, b, c) = elim (ℕ_discrete q.state 3) [
  | yes last ↦
      rw (unlock_subtract, eq→== q.state 3 last)
        (tt, (omega (arith, a, b, c, room), omega (arith, a, b, c, room), omega (arith, a, b, c)))
  | no more ↦
      rw (unlock_subtract, ne→== q.state 3 more)
        (tt, (omega (arith, a, b, c, room), omega (arith, a, b, c, room), omega (arith, a, b, c)))
]

called-Kept :
    (e : Event) (q : RwLockWriterPreference) (t : Thread) (r w : ℕ)
    → Ok t
    → StateOk q (r + readers t) (w + writers t)
    → Kept q (call e t) r w
unfolding call
called-Kept call_try_read_lock q outside r w ok h = (tt, h)
called-Kept call_read_lock q outside r w ok h = (tt, h)
called-Kept call_try_write_lock q outside r w ok h = (tt, h)
called-Kept call_write_lock q outside r w ok h = (tt, h)
called-Kept call_unlock q reader r w ok h = (tt, h)
called-Kept call_unlock q writer r w ok h = (tt, h)
called-Kept _ q t r w ok h = (ok, h)

pub act-Kept :
    (e : Event) (q : RwLockWriterPreference) (t : Thread) (r w : ℕ)
    → 2 * r + 3 < write_locked
    → Ok t
    → StateOk q (r + readers t) (w + writers t)
    → Kept (act e q t).1 (act e q t).0 r w
unfolding act
act-Kept (access woken) q t r w room ok h = advance-Kept woken q t r w room ok h
act-Kept call_try_read_lock q t r w room ok h = called-Kept call_try_read_lock q t r w ok h
act-Kept call_read_lock q t r w room ok h = called-Kept call_read_lock q t r w ok h
act-Kept call_try_write_lock q t r w room ok h = called-Kept call_try_write_lock q t r w ok h
act-Kept call_write_lock q t r w room ok h = called-Kept call_write_lock q t r w ok h
act-Kept call_unlock q t r w room ok h = called-Kept call_unlock q t r w ok h
