-- ===== src/Sync/Mutex/Exclusion.antt =====
-- That one thread at most owns the mutex.
use iceoryx_in_rust.Prelude.{
  ℕ, zero, suc, ◌+◌, ◌≤◌, ◌≡◌, refl, Bool, true, false, List, arith, ◌==◌, eq→==, ne→==, ℕ_discrete,
  if◌then◌else◌, replicate, length-replicate,
}
use iceoryx_in_rust.Sync.Family.{total, Every, run-Inv}
use iceoryx_in_rust.Sync.ReaderPreference.{spin_repetitions}
use iceoryx_in_rust.Sync.Mutex.{
  Mutex, new, Thread, outside, trying, lock_trying, spinning, sleeping, exchanging, owner, exchange,
  try_lock, uncontested_lock_first, uncontested_lock_spin, lock_exchange, unlock, Event,
  call_try_lock, call_lock, call_unlock, access, act, run_threads,
}

abbrev pub owners : Thread → ℕ
owners owner = 1
owners _ = 0

abbrev StateOk : Mutex → ℕ → ℕ → Type 0
StateOk m r w = (m.state ≡ r) × (r ≤ 1)

abbrev Kept : Mutex → Thread → ℕ → ℕ → Type 0
Kept m t r w = Unit {0} × StateOk m (r + owners t) (w + 0)

exchange-Kept :
    (m : Mutex) (t : Thread) (r w : ℕ)
    → owners t ≡ 0
    → StateOk m (r + 0) (w + 0)
    → Kept (exchange m t).1 (exchange m t).0 r w
unfolding exchange
exchange-Kept m t r w e h = elim (ℕ_discrete m.state 0) [
  | yes free ↦ rw (eq→== m.state 0 free) (tt, (omega (arith, free, h.0), omega (arith, free, h.0)))
  | no held ↦ rw (ne→== m.state 0 held) (tt, (omega (arith, h.0, e), omega (arith, h.1, e)))
]

act-Kept :
    (e : Event) (m : Mutex) (t : Thread) (r w : ℕ)
    → StateOk m (r + owners t) (w + 0)
    → Kept (act e m t).1 (act e m t).0 r w
unfolding act try_lock uncontested_lock_first uncontested_lock_spin lock_exchange unlock
act-Kept call_try_lock m outside r w h = (tt, h)
act-Kept call_lock m outside r w h = (tt, h)
act-Kept call_unlock m owner r w h = (tt, (omega (arith, h.1), omega (arith, h.1)))
act-Kept (access woken) m trying r w h = exchange-Kept m outside r w refl h
act-Kept (access woken) m lock_trying r w h = exchange-Kept m (spinning 0) r w refl h
act-Kept (access woken) m (spinning retry_counter) r w h =
    exchange-Kept m
      (if spin_repetitions == retry_counter + 1 then sleeping else spinning (retry_counter + 1)) r w
      (go (spin_repetitions == retry_counter + 1)) h
  where
    go : (b : Bool) → owners (if b then sleeping else spinning (retry_counter + 1)) ≡ 0
    go true = refl
    go false = refl
act-Kept (access woken) m sleeping r w h = (tt, h)
act-Kept (access woken) m (exchanging keep_running) r w h =
    exchange-Kept m (if keep_running then sleeping else outside) r w (go keep_running) h
  where
    go : (b : Bool) → owners (if b then sleeping else outside) ≡ 0
    go true = refl
    go false = refl
act-Kept _ m t r w h = (tt, h)

owners_single : (t : Thread) → owners t ≤ 1
owners_single owner = omega arith
owners_single _ = omega arith

outside_all :
    (n : ℕ) → Every (λ t. Unit {0}) (replicate n outside) × (total owners (replicate n outside) ≡ 0)
unfolding Every total
outside_all zero = (tt, refl)
outside_all (suc n) = let (all, r) = outside_all n in ((tt, all), omega (arith, r))

-- Whatever the schedule of any number of threads, one at most owns the mutex, and its state is the
-- number of owners.
pub one_lock_owner :
    (n : ℕ) (schedule : List (ℕ × Event))
    → ((run_threads schedule (new, replicate n outside)).0.state
        ≡ total owners (run_threads schedule (new, replicate n outside)).1)
      × (total owners (run_threads schedule (new, replicate n outside)).1 ≤ 1)
unfolding new
one_lock_owner n schedule =
    let (all, r) = outside_all n in
    (run-Inv outside act owners (λ t. 0) owners_single (λ t. omega arith) (λ t. Unit {0}) StateOk n
      (λ e m t i j room ok h. act-Kept e m t i j h) schedule (new, replicate n outside)
      (length-replicate n outside, all, (omega (arith, r), omega (arith, r)))).2
