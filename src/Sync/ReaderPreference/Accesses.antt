-- ===== src/Sync/ReaderPreference/Accesses.antt =====
-- Every access and every call keeps the counts.
use iceoryx_in_rust.Prelude.{
  ℕ, ◌+◌, ◌<◌, ◌≡◌, ◌≢◌, refl, sym, Bool, true, false, arith, eq→==, ne→==, ℕ_discrete, dec_lt,
  lt→ltb, le→ltb, if◌then◌else◌,
}
use mathlib.Core.Bool.{true≢false}
use iceoryx_in_rust.Prelude.Word.{add_u32}
use iceoryx_in_rust.Sync.ReaderPreference.{
  write_locked, unlocked, spin_repetitions, RwLockReaderPreference, Thread, outside, try_reading,
  try_joining, read_loading, read_waiting, joining, reader, try_writing, writing, write_waiting,
  writer, reader_unlocking, writer_unlocking, storing, subtracting, try_read_lock_load,
  try_read_lock_exchange, read_lock_test, read_lock_wait, read_lock_exchange, try_write_lock,
  write_lock_exchange, write_lock_wait, unlock_load, Event, call_try_read_lock, call_read_lock,
  call_try_write_lock, call_write_lock, call_unlock, access, call, advance, act,
}
use iceoryx_in_rust.Sync.ReaderPreference.Counts.{readers, writers, Ok, StateOk, Kept}

tested-Ok :
    (seen spins : ℕ) (keep_running : Bool) (q : RwLockReaderPreference) (r w : ℕ)
    → StateOk q r w
    → Kept q (read_lock_test seen spins keep_running) r w
unfolding read_lock_test
tested-Ok seen spins keep_running q r w h = elim (ℕ_discrete seen write_locked) [
  | yes locked ↦ rw (eq→== seen write_locked locked) (kept keep_running)
  | no other ↦ rw (ne→== seen write_locked other) (other, (omega (arith, h.0), h.1))
]
  where
    kept : (b : Bool) → Kept q (if b then read_waiting seen spins else outside) r w
    kept true = (tt, (omega (arith, h.0), h.1))
    kept false = (tt, (omega (arith, h.0), h.1))

-- A thread moves on without a change of the lock, and is counted as before.
stays :
    (q : RwLockReaderPreference) (t t' : Thread) (r w : ℕ)
    → readers t' ≡ readers t
    → writers t' ≡ writers t
    → Ok t'
    → StateOk q (r + readers t) (w + writers t)
    → Kept q t' r w
stays q t t' r w e f ok h = rw e (rw f (ok, h))

joined :
    (q : RwLockReaderPreference) (seen r w : ℕ)
    → q.reader_count ≡ seen
    → seen ≢ write_locked
    → r + 1 < write_locked
    → StateOk q r w
    → Kept (record { reader_count = add_u32 seen 1 }) reader r w
joined q seen r w now other room h =
    (tt, (omega (arith, now, other, room, h.0, h.1), omega (arith, now, other, room, h.0, h.1)))

locked :
    (q : RwLockReaderPreference) (r w : ℕ)
    → q.reader_count ≡ unlocked
    → StateOk q r w
    → Kept (record { reader_count = write_locked }) writer r w
locked q r w free h = (tt, (omega (arith, free, h.0), omega arith))

advance-Kept :
    (woken : Bool) (q : RwLockReaderPreference) (t : Thread) (r w : ℕ)
    → r + 1 < write_locked
    → Ok t
    → StateOk q (r + readers t) (w + writers t)
    → Kept (advance woken q t).1 (advance woken q t).0 r w
unfolding advance
advance-Kept woken q outside r w room ok h = (ok, h)
advance-Kept woken q reader r w room ok h = (ok, h)
advance-Kept woken q writer r w room ok h = (ok, h)
advance-Kept woken q try_reading r w room ok h = elim (ℕ_discrete q.reader_count write_locked) [
  | yes full ↦ rw (try_read_lock_load, eq→== q.reader_count write_locked full) (tt, h)
  | no other ↦ rw (try_read_lock_load, ne→== q.reader_count write_locked other) (other, h)
]
advance-Kept woken q (try_joining seen) r w room ok h = elim (ℕ_discrete q.reader_count seen) [
  | yes now ↦
      rw (try_read_lock_exchange, eq→== q.reader_count seen now)
        (joined q seen r w now ok room (omega (arith, h.0), h.1))
  | no moved ↦ rw (try_read_lock_exchange, ne→== q.reader_count seen moved) (tt, h)
]
advance-Kept woken q (read_loading spins keep_running) r w room ok h =
    tested-Ok q.reader_count spins keep_running q r w (omega (arith, h.0), h.1)
advance-Kept woken q (read_waiting seen spins) r w room ok h =
    elim (dec_lt spins spin_repetitions) [
      | yes spin ↦ rw (read_lock_wait, lt→ltb spins spin_repetitions spin) (tt, h)
      | no sleep ↦ rw (read_lock_wait, le→ltb spins spin_repetitions (omega (arith, sleep))) (tt, h)
    ]
advance-Kept woken q (joining seen spins keep_running) r w room ok h =
    elim (ℕ_discrete q.reader_count seen) [
      | yes now ↦
          rw (read_lock_exchange, eq→== q.reader_count seen now)
            (joined q seen r w now ok room (omega (arith, h.0), h.1))
      | no moved ↦
          rw (read_lock_exchange, ne→== q.reader_count seen moved)
            (tested-Ok q.reader_count spins keep_running q r w (omega (arith, h.0), h.1))
    ]
advance-Kept woken q try_writing r w room ok h = elim (ℕ_discrete q.reader_count unlocked) [
  | yes free ↦
      rw (try_write_lock, eq→== q.reader_count unlocked free)
        (locked q r w free (omega (arith, h.0), h.1))
  | no held ↦ rw (try_write_lock, ne→== q.reader_count unlocked held) (tt, h)
]
advance-Kept woken q (writing spins keep_running) r w room ok h =
    elim (ℕ_discrete q.reader_count unlocked) [
      | yes free ↦
          rw (write_lock_exchange, eq→== q.reader_count unlocked free)
            (locked q r w free (omega (arith, h.0), h.1))
      | no held ↦ rw (write_lock_exchange, ne→== q.reader_count unlocked held) (kept keep_running)
    ]
  where
    kept : (b : Bool) → Kept q (if b then write_waiting q.reader_count spins else outside) r w
    kept true = (tt, h)
    kept false = (tt, h)
advance-Kept woken q (write_waiting seen spins) r w room ok h =
    elim (dec_lt spins spin_repetitions) [
      | yes spin ↦ rw (write_lock_wait, lt→ltb spins spin_repetitions spin) (tt, h)
      | no sleep ↦
          rw (write_lock_wait, le→ltb spins spin_repetitions (omega (arith, sleep))) (tt, h)
    ]
advance-Kept woken q reader_unlocking r w room ok h =
    elim (ℕ_discrete q.reader_count write_locked) [
      | yes full ↦ absurd (omega (arith, full, h.0, room))
      | no other ↦ rw (unlock_load, ne→== q.reader_count write_locked other) (refl, h)
    ]
advance-Kept woken q writer_unlocking r w room ok h =
    elim (ℕ_discrete q.reader_count write_locked) [
      | yes full ↦ rw (unlock_load, eq→== q.reader_count write_locked full) (refl, h)
      | no other ↦ absurd (omega (arith, other, h.0, h.1))
    ]
advance-Kept woken q (storing true) r w room ok h = (tt, (omega (arith, h.0, h.1), omega arith))
advance-Kept woken q (storing false) r w room ok h = absurd (true≢false (sym ok))
advance-Kept woken q (subtracting true) r w room ok h = absurd (true≢false ok)
advance-Kept woken q (subtracting false) r w room ok h =
    (tt, (omega (arith, h.0, h.1, room), omega (arith, h.0, h.1)))

called-Kept :
    (e : Event) (q : RwLockReaderPreference) (t : Thread) (r w : ℕ)
    → Ok t
    → StateOk q (r + readers t) (w + writers t)
    → Kept q (call e t) r w
unfolding call
called-Kept call_try_read_lock q outside r w ok h = (tt, h)
called-Kept call_read_lock q outside r w ok h = (tt, h)
called-Kept call_try_write_lock q outside r w ok h = (tt, h)
called-Kept call_write_lock q outside r w ok h = (tt, h)
called-Kept call_unlock q reader r w ok h = (tt, h)
called-Kept call_unlock q writer r w ok h = (tt, h)
called-Kept _ q t r w ok h = (ok, h)

pub act-Kept :
    (e : Event) (q : RwLockReaderPreference) (t : Thread) (r w : ℕ)
    → r + 1 < write_locked
    → Ok t
    → StateOk q (r + readers t) (w + writers t)
    → Kept (act e q t).1 (act e q t).0 r w
unfolding act
act-Kept (access woken) q t r w room ok h = advance-Kept woken q t r w room ok h
act-Kept call_try_read_lock q t r w room ok h = called-Kept call_try_read_lock q t r w ok h
act-Kept call_read_lock q t r w room ok h = called-Kept call_read_lock q t r w ok h
act-Kept call_try_write_lock q t r w room ok h = called-Kept call_try_write_lock q t r w ok h
act-Kept call_write_lock q t r w room ok h = called-Kept call_write_lock q t r w ok h
act-Kept call_unlock q t r w room ok h = called-Kept call_unlock q t r w ok h
