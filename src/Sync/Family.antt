-- ===== src/Sync/Family.antt =====
-- A shared state and a family of threads: a schedule names, for each event, the thread that it is
-- for. An event for a thread that is not there does nothing.
use iceoryx_in_rust.Prelude.{
  ℕ, zero, suc, ◌+◌, ◌≤◌, ◌<◌, ◌≡◌, refl, List, [], ◌∷◌, arith, length, get_or, set, ltb, lt→ltb,
  le→ltb, dec_lt, if◌then◌else◌, length-set, replicate,
}

module _ {T : Type 0} (f : T → ℕ) where
  unfoldable pub total : List T → ℕ
  total [] = 0
  total (t ∷ ts) = f t + total ts

  -- The total without thread `i`.
  pub others :
      (d : T) (ts : List T) (i : ℕ)
      → ((t : T) → f t ≤ 1)
      → i < length ts
      → (rest : ℕ) × (total ts ≡ rest + f (get_or ts i d))
        × ((t : T) → total (set ts i t) ≡ rest + f t)
        × (rest + 1 ≤ length ts)
  unfolding total
  others d [] i single h = absurd (omega arith)
  others d (x ∷ xs) zero single h =
      (total xs, omega arith, λ t. omega arith, omega (arith, total_le xs))
    where
      total_le : (ts : List T) → total ts ≤ length ts
      total_le [] = omega arith
      total_le (t ∷ ts) = omega (arith, total_le ts, single t)
  others d (x ∷ xs) (suc i) single h =
      let (rest, now, after, room) = others d xs i single (omega arith) in
      (f x + rest, omega (arith, now), λ t. omega (arith, after t), omega (arith, room, single x))

module _ {T : Type 0} (f : T → ℕ) where
  pub get-le_total : (d : T) (ts : List T) (i : ℕ) → i < length ts → f (get_or ts i d) ≤ total f ts
  unfolding total
  get-le_total d [] i h = absurd (omega arith)
  get-le_total d (x ∷ xs) zero h = omega arith
  get-le_total d (x ∷ xs) (suc i) h = omega (arith, get-le_total d xs i (omega arith))

  pub total-replicate : (t : T) (n : ℕ) → f t ≡ 0 → total f (replicate n t) ≡ 0
  unfolding total
  total-replicate t zero e = refl
  total-replicate t (suc n) e = omega (arith, e, total-replicate t n e)

module _ {T : Type 0} (Ok : T → Type 0) where
  unfoldable pub Every : List T → Type 0
  Every [] = Unit
  Every (t ∷ ts) = Ok t × Every ts

  pub Every-get : (d : T) (ts : List T) (i : ℕ) → i < length ts → Every ts → Ok (get_or ts i d)
  unfolding Every
  Every-get d [] i h all = absurd (omega arith)
  Every-get d (x ∷ xs) zero h all = all.0
  Every-get d (x ∷ xs) (suc i) h all = Every-get d xs i (omega arith) all.1

  pub Every-get_or : (d : T) (ts : List T) (i : ℕ) → Ok d → Every ts → Ok (get_or ts i d)
  unfolding Every
  Every-get_or d [] i ok all = ok
  Every-get_or d (x ∷ xs) zero ok all = all.0
  Every-get_or d (x ∷ xs) (suc i) ok all = Every-get_or d xs i ok all.1

  pub Every-set : (ts : List T) (i : ℕ) (t : T) → Ok t → Every ts → Every (set ts i t)
  unfolding Every
  Every-set [] i t ok all = tt
  Every-set (x ∷ xs) zero t ok all = (ok, all.1)
  Every-set (x ∷ xs) (suc i) t ok all = (all.0, Every-set xs i t ok all.1)

  pub Every-replicate : (t : T) (n : ℕ) → Ok t → Every (replicate n t)
  unfolding Every
  Every-replicate t zero ok = tt
  Every-replicate t (suc n) ok = (ok, Every-replicate t n ok)

module _ {T : Type 0} (Ok After : T → Type 0) (move : (t : T) → Ok t → After t) where
  pub Every-map : (ts : List T) → Every Ok ts → Every After ts
  unfolding Every
  Every-map [] all = tt
  Every-map (t ∷ ts) all = (move t all.0, Every-map ts all.1)

module _ {T : Type 0} (f : T → ℕ) (Ok After : T → Type 0)
    (move : (t : T) → f t ≡ 0 → Ok t → After t) where
  Every-move : (ts : List T) → total f ts ≡ 0 → Every Ok ts → Every After ts
  unfolding total Every
  Every-move [] none_left all = tt
  Every-move (t ∷ ts) none_left all =
      (move t (omega (arith, none_left)) all.0, Every-move ts (omega (arith, none_left)) all.1)

  -- Only thread `i` counts; what each other thread relies on moves on.
  pub Every-update :
      (d : T) (ts : List T) (i : ℕ) (t : T)
      → i < length ts
      → total f ts ≡ f (get_or ts i d)
      → After t
      → Every Ok ts
      → Every After (set ts i t)
  unfolding total Every
  Every-update d [] i t h only ok all = absurd (omega arith)
  Every-update d (x ∷ xs) zero t h only ok all = (ok, Every-move xs (omega (arith, only)) all.1)
  Every-update d (x ∷ xs) (suc i) t h only ok all =
      let below : f (get_or xs i d) ≤ total f xs = get-le_total f d xs i (omega arith) in
      (
        move x (omega (arith, only, below)) all.0,
        Every-update d xs i t (omega arith) (omega (arith, only, below)) ok all.1,
      )

module _ {S T : Type 0} (first second : T → ℕ) (Ok : T → Type 0) (StateOk : S → ℕ → ℕ → Type 0)
    (n : ℕ) where
  abbrev pub Inv : S × List T → Type 0
  Inv (s, ts) = (length ts ≡ n) × Every Ok ts × StateOk s (total first ts) (total second ts)

module _ {S T E : Type 0} (d : T) (act : E → S → T → T × S) where
  unfoldable pub step : ℕ × E → S × List T → S × List T
  step (i, e) (s, ts) =
      if ltb i (length ts)
      then ((act e s (get_or ts i d)).1, set ts i (act e s (get_or ts i d)).0)
      else (s, ts)

  unfoldable pub run : List (ℕ × E) → S × List T → S × List T
  run [] system = system
  run (e ∷ es) system = run es (step e system)

  -- A property of the state, of how many threads are of a first and of a second kind, and of each
  -- thread alone, is kept by every schedule if each event keeps it whatever the other threads are.
  module _ (first second : T → ℕ) (first_single : (t : T) → first t ≤ 1)
      (second_single : (t : T) → second t ≤ 1) (Ok : T → Type 0) (StateOk : S → ℕ → ℕ → Type 0)
      (n : ℕ)
      (keep : (e : E) (s : S) (t : T) (r w : ℕ)
        → r + 1 ≤ n
        → Ok t
        → StateOk s (r + first t) (w + second t)
        → Ok (act e s t).0
          × StateOk (act e s t).1 (r + first (act e s t).0) (w + second (act e s t).0)) where
    pub step-Inv :
        (e : ℕ × E) (system : S × List T)
        → Inv first second Ok StateOk n system
        → Inv first second Ok StateOk n (step e system)
    unfolding step
    step-Inv (i, e) (s, ts) (size, all, ok) = elim (dec_lt i (length ts)) [
      | yes there ↦
          let t : T = get_or ts i d in
          let (r, now, after, room) = others first d ts i first_single there in
          let (w, now', after', room') = others second d ts i second_single there in
          let t' : T = (act e s t).0 in
          let (fine, good) =
            keep e s t r w (omega (arith, room, size)) (Every-get Ok d ts i there all)
              (rw now at (rw now' at ok)) in
          rw (lt→ltb i (length ts) there, after t', after' t')
            (omega (arith, length-set ts i t', size), Every-set Ok ts i t' fine all, good)
      | no gone ↦ rw (le→ltb i (length ts) (omega (arith, gone))) (size, all, ok)
    ]

    pub run-Inv :
        (es : List (ℕ × E)) (system : S × List T)
        → Inv first second Ok StateOk n system
        → Inv first second Ok StateOk n (run es system)
    unfolding run
    run-Inv [] system inv = inv
    run-Inv (e ∷ es) system inv = run-Inv es (step e system) (step-Inv e system inv)
