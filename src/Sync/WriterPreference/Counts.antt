-- ===== src/Sync/WriterPreference/Counts.antt =====
-- What the state says about the readers and writers, and what each thread relies on.
use iceoryx_in_rust.Prelude.{
  ℕ, ◌+◌, ◌*◌, ◌%◌, ◌≤◌, ◌≡◌, ◌≢◌, refl, true, false, arith, replicate, zero, suc,
}
use iceoryx_in_rust.Sync.Family.{total, Every}
use iceoryx_in_rust.Sync.ReaderPreference.{write_locked}
use iceoryx_in_rust.Sync.WriterPreference.{
  RwLockWriterPreference, Thread, outside, try_joining, joining, reader, write_exchanging, marking,
  unmarking, writer, reader_unlocking, writer_unlocking, storing, subtracting,
}

abbrev pub readers : Thread → ℕ
readers reader = 1
readers reader_unlocking = 1
readers (storing false) = 1
readers (subtracting false) = 1
readers _ = 0

abbrev pub writers : Thread → ℕ
writers writer = 1
writers writer_unlocking = 1
writers (storing true) = 1
writers (subtracting true) = 1
writers _ = 0

abbrev pub Ok : Thread → Type 0
Ok (try_joining seen) = seen % 2 ≢ 1
Ok (joining seen spins keep_running) = seen % 2 ≢ 1
Ok (write_exchanging seen spins keep_running) = seen ≤ 1
Ok (marking seen spins) = seen % 2 ≡ 0
Ok (unmarking seen) = (seen % 2 ≢ 0) × (seen ≢ write_locked)
Ok (storing is_writer) = is_writer ≡ true
Ok (subtracting is_writer) = is_writer ≡ false
Ok _ = Unit

-- The state is the mark of the one writer, or twice the number of the readers, and one more if a
-- writer waits.
abbrev pub StateOk : RwLockWriterPreference → ℕ → ℕ → Type 0
StateOk q r w =
    (2 * r + w * write_locked ≤ q.state)
    × (q.state ≤ 2 * r + w * write_locked + 1)
    × (q.state ≤ write_locked)

abbrev pub Kept : RwLockWriterPreference → Thread → ℕ → ℕ → Type 0
Kept q t r w = Ok t × StateOk q (r + readers t) (w + writers t)

pub readers_single : (t : Thread) → readers t ≤ 1
readers_single reader = omega arith
readers_single reader_unlocking = omega arith
readers_single (storing false) = omega arith
readers_single (subtracting false) = omega arith
readers_single _ = omega arith

pub writers_single : (t : Thread) → writers t ≤ 1
writers_single writer = omega arith
writers_single writer_unlocking = omega arith
writers_single (storing true) = omega arith
writers_single (subtracting true) = omega arith
writers_single _ = omega arith

pub outside_all :
    (n : ℕ)
    → Every Ok (replicate n outside)
      × (total readers (replicate n outside) ≡ 0)
      × (total writers (replicate n outside) ≡ 0)
unfolding Every total
outside_all zero = (tt, refl, refl)
outside_all (suc n) =
    let (all, r, w) = outside_all n in ((tt, all), omega (arith, r), omega (arith, w))
