-- ===== src/Sync/Semaphore/Tests.antt =====
-- The law of the semaphore at one post and one wait.
use iceoryx_in_rust.Prelude.{ℕ, ◌+◌, ◌≡◌, refl, true, false, List, [], ◌∷◌, arith, replicate}
use iceoryx_in_rust.Sync.Family.{step, run}
use iceoryx_in_rust.Sync.Semaphore.{
  Semaphore, new, Thread, outside, Event, call_post, call_wait, access, act, post, wait_test,
  wait_exchange, run_threads,
}
use iceoryx_in_rust.Sync.Semaphore.Permits.{permits_conserved}

abbrev permits : List (ℕ × Event)
permits = (0, call_post) ∷ (1, call_wait) ∷ (1, access true false) ∷ (1, access true false) ∷ []

abbrev after_permits : Semaphore × List Thread
after_permits = run_threads permits (new 1, replicate 2 outside)

one_post : after_permits.0.posted ≡ 1
unfolding run step new act post wait_test wait_exchange
one_post = refl

permits_conserved_example :
    after_permits.0.value + after_permits.0.taken ≡ 1 + after_permits.0.posted
permits_conserved_example = permits_conserved 1 2 permits (omega (arith, one_post))
