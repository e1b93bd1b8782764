-- ===== src/Sync/Semaphore/Permits.antt =====
-- That the permits taken are permits that were there.
use iceoryx_in_rust.Prelude.{
  ℕ, zero, suc, ◌+◌, ◌*◌, ◌<◌, ◌≡◌, ◌≢◌, Bool, true, false, List, arith, eq→==, ne→==, ℕ_discrete,
  dec_lt, lt→ltb, le→ltb, if◌then◌else◌, replicate, length-replicate, ◌^◌,
}
use iceoryx_in_rust.Prelude.Word.{sub_u32}
use iceoryx_in_rust.Sync.Family.{Every, Inv, run-Inv}
use iceoryx_in_rust.Sync.ReaderPreference.{spin_repetitions}
use iceoryx_in_rust.Sync.Semaphore.{
  Semaphore, new, Thread, outside, loading, waiting, exchanging, try_loading, try_exchanging, post,
  wait_test, wait_sleep, wait_exchange, try_wait_test, try_wait_exchange, Event, call_post,
  call_wait, call_try_wait, access, act, run_threads,
}

abbrev Ok : Thread → Type 0
Ok (exchanging current_value retry_counter keep_running) = current_value ≢ 0
Ok (try_exchanging current_value) = current_value ≢ 0
Ok _ = Unit

-- Every 2^32nd post that finds the counter at its top loses that many permits.
abbrev StateOk : ℕ → Semaphore → ℕ → ℕ → Type 0
StateOk initial s r w =
    (s.value < 2 ^ 32) × (lost : ℕ) × (s.value + s.taken + lost * 4294967296 ≡ initial + s.posted)

wait_test-Ok :
    (v retry_counter : ℕ) (keep_running : Bool) → Ok (wait_test v retry_counter keep_running)
unfolding wait_test
wait_test-Ok v retry_counter keep_running = elim (ℕ_discrete v 0) [
  | yes none_left ↦ rw (eq→== v 0 none_left) (go keep_running)
  | no some_left ↦ rw (ne→== v 0 some_left) some_left
]
  where
    go : (b : Bool) → Ok (if b then waiting retry_counter else outside)
    go true = tt
    go false = tt

wait_sleep-Ok : (woken : Bool) (retry_counter : ℕ) → Ok (wait_sleep woken retry_counter)
unfolding wait_sleep
wait_sleep-Ok woken retry_counter = elim (dec_lt retry_counter spin_repetitions) [
  | yes spin ↦ rw (lt→ltb retry_counter spin_repetitions spin) tt
  | no sleep ↦ rw (le→ltb retry_counter spin_repetitions (omega (arith, sleep))) tt
]

try_wait_test-Ok : (v : ℕ) → Ok (try_wait_test v)
unfolding try_wait_test
try_wait_test-Ok v = elim (ℕ_discrete v 0) [
  | yes none_left ↦ rw (eq→== v 0 none_left) tt
  | no some_left ↦ rw (ne→== v 0 some_left) some_left
]

module _ (initial : ℕ) where
  abbrev Kept : Semaphore → Thread → Type 0
  Kept s t = Ok t × StateOk initial s 0 0

  taken-Kept :
      (s : Semaphore) (v : ℕ)
      → s.value ≡ v
      → v ≢ 0
      → StateOk initial s 0 0
      → Kept (record s { value = sub_u32 v 1; taken = s.taken + 1 }) outside
  taken-Kept s v now some_left (small, lost, e) =
      (tt, (omega (arith, small), lost, omega (arith, now, some_left, small, e)))

  act-Kept :
      (e : Event) (s : Semaphore) (t : Thread)
      → Ok t
      → StateOk initial s 0 0
      → Kept (act e s t).1 (act e s t).0
  unfolding act post wait_exchange try_wait_exchange
  act-Kept call_post s outside ok (small, lost, e) = elim (dec_lt (s.value + 1) (2 ^ 32)) [
    | yes fits ↦ (tt, (omega arith, lost, omega (arith, fits, e)))
    | no wraps ↦ (tt, (omega arith, lost + 1, omega (arith, wraps, small, e)))
  ]
  act-Kept call_wait s outside ok h = (tt, h)
  act-Kept call_try_wait s outside ok h = (tt, h)
  act-Kept (access woken spurious) s (loading retry_counter keep_running) ok h =
      (wait_test-Ok s.value retry_counter keep_running, h)
  act-Kept (access woken spurious) s (waiting retry_counter) ok h =
      (wait_sleep-Ok woken retry_counter, h)
  act-Kept (access woken true) s (exchanging v retry_counter keep_running) ok h =
      elim (ℕ_discrete s.value v) [
        | yes now ↦ rw (eq→== s.value v now) (wait_test-Ok s.value retry_counter keep_running, h)
        | no moved ↦ rw (ne→== s.value v moved) (wait_test-Ok s.value retry_counter keep_running, h)
      ]
  act-Kept (access woken false) s (exchanging v retry_counter keep_running) ok h =
      elim (ℕ_discrete s.value v) [
        | yes now ↦ rw (eq→== s.value v now) (taken-Kept s v now ok h)
        | no moved ↦ rw (ne→== s.value v moved) (wait_test-Ok s.value retry_counter keep_running, h)
      ]
  act-Kept (access woken spurious) s try_loading ok h = (try_wait_test-Ok s.value, h)
  act-Kept (access woken true) s (try_exchanging v) ok h = elim (ℕ_discrete s.value v) [
    | yes now ↦ rw (eq→== s.value v now) (try_wait_test-Ok s.value, h)
    | no moved ↦ rw (ne→== s.value v moved) (try_wait_test-Ok s.value, h)
  ]
  act-Kept (access woken false) s (try_exchanging v) ok h = elim (ℕ_discrete s.value v) [
    | yes now ↦ rw (eq→== s.value v now) (taken-Kept s v now ok h)
    | no moved ↦ rw (ne→== s.value v moved) (try_wait_test-Ok s.value, h)
  ]
  act-Kept _ s t ok h = (ok, h)

outside_all : (n : ℕ) → Every Ok (replicate n outside)
unfolding Every
outside_all zero = tt
outside_all (suc n) = (tt, outside_all n)

-- Whatever the schedule, as long as the initial value and the number of posts together fit `u32`,
-- the value of the semaphore is the initial value with the posts added and the permits taken away.
pub permits_conserved :
    (initial n : ℕ) (schedule : List (ℕ × Event))
    → initial + (run_threads schedule (new initial, replicate n outside)).0.posted < 2 ^ 32
    → (run_threads schedule (new initial, replicate n outside)).0.value
        + (run_threads schedule (new initial, replicate n outside)).0.taken
      ≡ initial + (run_threads schedule (new initial, replicate n outside)).0.posted
unfolding new
permits_conserved initial n schedule fits =
    let (small, lost, e) = inv.2 in omega (arith, small, e, fits)
  where
    inv :
        Inv
          (λ t. 0)
          (λ t. 0)
          Ok
          (StateOk initial)
          n
          (run_threads schedule (new initial, replicate n outside))
    inv =
        run-Inv outside act (λ t. 0) (λ t. 0) (λ t. omega arith) (λ t. omega arith) Ok
          (StateOk initial) n (λ e s t i j room ok h. act-Kept initial e s t ok h) schedule
          (new initial, replicate n outside)
          (length-replicate n outside, outside_all n, (omega (arith, fits), 0, omega arith))
