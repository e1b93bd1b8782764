-- ===== src/LockFree/UnrestrictedAtomic/Progress.antt =====
-- How many accesses a call of `store` takes, and how many a call of `load` that no store disturbs.
use iceoryx_in_rust.Prelude.{
  ℕ, ◌+◌, ◌-◌, ◌<◌, ◌≤◌, ◌≡◌, refl, sym, ◌∙◌, ap, subst, ◌^◌, List, [], ◌∷◌, ◌++◌, arith, length,
  get_or, set,
}
use iceoryx_in_rust.Outcome.{Outcome, done, panic, fault, ◌>>=◌, assume_init}
use iceoryx_in_rust.LockFree.UnrestrictedAtomic.{
  UnrestrictedAtomic, Producer, idle, starting, writing, written_first, publishing, Consumer,
  resting, loading, reading, read_first, checking, cell_at, Call, stored, loaded, System, Event,
  store, producer_access, load, consumer_access, produce, consume, begin_store, step, run, start,
}
use iceoryx_in_rust.LockFree.UnrestrictedAtomic.Register.{run-Inv, start-Inv}
use iceoryx_in_rust.LockFree.UnrestrictedAtomic.Invariant.{Inv}

-- What holds of the result of a call, if it has one.
abbrev Ends : {A : Type 0} → (A → Type 0) → Outcome A → Type 0
Ends P (done y) = P y
Ends P _ = Unit

Ends-bind :
    {A B : Type 0} (Q : A → Type 0) (P : B → Type 0) (f : A → Outcome B)
    → ((a : A) → Q a → Ends P (f a))
    → (m : Outcome A) → Ends Q m
    → Ends P (m >>= f)
Ends-bind Q P f h (done a) q = h a q
Ends-bind Q P f h panic q = tt
Ends-bind Q P f h fault q = tt

Ends-map :
    {A : Type 0} (Q P : A → Type 0) → ((a : A) → Q a → P a) → (m : Outcome A) → Ends Q m → Ends P m
Ends-map Q P h (done a) q = h a q
Ends-map Q P h panic q = tt
Ends-map Q P h fault q = tt

Ends-always : {A : Type 0} (m : Outcome A) → Ends (λ _. Unit {0}) m
Ends-always (done a) = tt
Ends-always panic = tt
Ends-always fault = tt

module _ {A B : Type 0} where
  -- The accesses that the call of `store` still has to make.
  unfoldable pub remaining : Producer A B → ℕ
  remaining idle = 0
  remaining (starting a b) = 4
  remaining (writing a b w) = 3
  remaining (written_first a b w) = 2
  remaining (publishing a b) = 1

  -- How many accesses of a schedule are the producer's, if it begins no other call.
  unfoldable pub accesses : List (Event A B) → ℕ
  accesses [] = 0
  accesses (producer_access ∷ es) = 1 + accesses es
  accesses (e ∷ es) = accesses es

  unfoldable pub NoStore : List (Event A B) → Type 0
  NoStore [] = Unit
  NoStore (store a b ∷ es) = ⊥
  NoStore (e ∷ es) = NoStore es

  -- The values that have been stored, the latest first.
  unfoldable pub stores : List (Call A B) → List (A × B)
  stores [] = []
  stores (stored a b ∷ log) = (a, b) ∷ stores log
  stores (loaded a b ∷ log) = stores log

  -- What the call will have stored when it has ended.
  unfoldable pub pending : Producer A B → List (A × B) → List (A × B)
  pending idle vs = vs
  pending (starting a b) vs = (a, b) ∷ vs
  pending (writing a b w) vs = (a, b) ∷ vs
  pending (written_first a b w) vs = (a, b) ∷ vs
  pending (publishing a b) vs = (a, b) ∷ vs

  abbrev Left : System A B → System A B → ℕ → Type 0
  Left x y n =
      (remaining y.producer ≡ remaining x.producer - n)
      × (pending y.producer (stores y.log) ≡ pending x.producer (stores x.log))

  produce-Left :
      (t : Producer A B) (x : System A B)
      → x.producer ≡ t
      → (remaining (produce t x).producer ≡ remaining t - 1)
        × (pending (produce t x).producer (stores (produce t x).log) ≡ pending t (stores x.log))
  unfolding produce remaining pending stores
  produce-Left idle x e = rw e (refl, refl)
  produce-Left (starting a b) x e = (refl, refl)
  produce-Left (writing a b w) x e = (refl, refl)
  produce-Left (written_first a b w) x e = (refl, refl)
  produce-Left (publishing a b) x e = (refl, refl)

  consume-stores :
      (s : UnrestrictedAtomic A B) (t : Consumer A B) (log : List (Call A B))
      → Ends (λ r. stores (r.1 ++ log) ≡ stores log) (consume s t)
  unfolding consume stores
  consume-stores s resting log = refl
  consume-stores s loading log = refl
  consume-stores s (reading r) log =
      Ends-bind (λ _. Unit {0}) _ _ (λ _ _. refl) (assume_init (cell_at s r).0) (Ends-always _)
  consume-stores s (read_first r a) log =
      Ends-bind (λ _. Unit {0}) _ _ (λ _ _. refl) (assume_init (cell_at s r).1) (Ends-always _)
  consume-stores s (checking r a b) log = ground arith

  -- After the accesses of a schedule without another `store`, the call under way has that many fewer to
  -- make, and what it stores is unchanged.
  run-Left :
      (es : List (Event A B)) (x : System A B)
      → NoStore es
      → Ends (λ y. Left x y (accesses es)) (run es x)
  unfolding run step accesses NoStore
  run-Left [] x quiet = (omega arith, refl)
  run-Left (store a b ∷ es) x quiet = absurd quiet
  run-Left (producer_access ∷ es) x quiet =
      let (fewer, same) = produce-Left x.producer x refl in
      Ends-map (λ y. Left (produce x.producer x) y (accesses es)) (λ y. Left x y (1 + accesses es))
        (λ y ends. (omega (arith, ends.0, fewer), ends.1 ∙ same)) (run es (produce x.producer x))
        (run-Left es (produce x.producer x) quiet)
  run-Left (load i ∷ es) x quiet = run-Left es _ quiet
  run-Left (consumer_access i ∷ es) x quiet =
      let t = get_or x.consumers i resting in
      let after = λ (r : Consumer A B × List (Call A B)). record x {
        consumers = set x.consumers i r.0;
        log = r.1 ++ x.log;
      } in
      Ends-bind (λ y. Ends (λ z. Left x z (accesses es)) (run es y)) (λ z. Left x z (accesses es))
        (run es) (λ y ends. ends) (consume x.atomic t >>= λ r. done (after r))
        (Ends-bind (λ r. stores (r.1 ++ x.log) ≡ stores x.log)
          (λ y. Ends (λ z. Left x z (accesses es)) (run es y)) (λ r. done (after r))
          (λ r same.
            Ends-map (λ z. Left (after r) z (accesses es)) (λ z. Left x z (accesses es))
              (λ z ends. (ends.0, ends.1 ∙ ap (pending x.producer) same)) (run es (after r))
              (run-Left es (after r) quiet))
          (consume x.atomic t) (consume-stores x.atomic t x.log))

  idle-left : (t : Producer A B) → remaining t ≡ 0 → t ≡ idle
  unfolding remaining
  idle-left idle e = refl
  idle-left (starting a b) e = absurd (omega (arith, e))
  idle-left (writing a b w) e = absurd (omega (arith, e))
  idle-left (written_first a b w) e = absurd (omega (arith, e))
  idle-left (publishing a b) e = absurd (omega (arith, e))

  begun :
      (t : Producer A B) (c : A) (d : B) (vs : List (A × B))
      → t ≡ idle
      → (remaining (begin_store t c d) ≡ 4) × (pending (begin_store t c d) vs ≡ (c, d) ∷ vs)
  unfolding begin_store remaining pending
  begun t c d vs e = rw e (refl, refl)

  -- In every order of fewer than `2 ^ 64 - 2` accesses: a call of `store` that begins when no other is
  -- under way has ended after four accesses of its own, however many accesses the consumers make
  -- between them and whatever they do, and then its value is the only one stored since.
  pub store_wait_free :
      (n : ℕ) (a : A) (b : B) (before after : List (Event A B)) (c : A) (d : B) (x : System A B)
      → length before + length after + 2 < 2 ^ 64
      → run before (start n a b) ≡ done x
      → x.producer ≡ idle
      → NoStore after
      → 4 ≤ accesses after
      → (y : System A B) × (run (store c d ∷ after) x ≡ done y)
        × (y.producer ≡ idle)
        × (stores y.log ≡ (c, d) ∷ stores x.log)
  unfolding run step pending
  store_wait_free n a b before after c d x small e free quiet enough =
      let InvNow : System A B → Type 0 = Inv (a, b) (0 + length before) in
      let (x', f, inv') =
        run-Inv (a, b) 0 before (start n a b) (omega (arith, small)) (start-Inv n a b) in
      let inv : InvNow x = subst (Ends InvNow) (sym f ∙ e) inv' in
      let (y, g, _) =
        run-Inv (a, b) (0 + length before) (store c d ∷ after) x (omega (arith, small)) inv in
      let first : System A B = record x { producer = begin_store x.producer c d } in
      let (four, one) = begun x.producer c d (stores x.log) free in
      let (left, all) : Left first y (accesses after) =
        subst (Ends (λ z. Left first z (accesses after))) g (run-Left after first quiet) in
      let stops : y.producer ≡ idle = idle-left y.producer (omega (arith, left, enough, four)) in
      (y, g, stops, ap (λ t. pending t (stores y.log)) (sym stops) ∙ all ∙ one)
