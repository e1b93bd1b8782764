-- ===== src/Container/Vec/Refine.antt =====
-- `Vec` implements a list of at most `capacity` values, with every index in range and no read of an
-- empty cell.
use iceoryx_in_rust.Prelude.{
  ℕ, zero, suc, ◌+◌, ◌-◌, ◌≤◌, ◌<◌, ◌≡◌, refl, sym, ◌∙◌, ap, true, false, Option, none, some, List,
  [], ◌∷◌, ◌++◌, arith, length, length-append, length-set, length-replicate, length-take, get_or,
  get_elem?, get_elem?-some, get_elem?-none, set, take, replicate, leb, ◌==◌, eq→==, ne→==, le→leb,
  lt→leb, lt→ltb, ℕ_discrete, dec_lt, take-set, take-set_self, get_or-take, append_assoc,
  append-nil, take-take,
}
use iceoryx_in_rust.Outcome.{Outcome, done, assume_init}
use iceoryx_in_rust.Container.Vec.{
  Vec, new, push, push_unchecked, fill, fill_rounds, pop, pop_unchecked, clear, clear_rounds, get,
  write_mut,
}
use iceoryx_in_rust.Container.Vec.Bounded

module _ {A : Type 0} where
  abbrev somes : List A → List (Option A)
  somes [] = []
  somes (x ∷ xs) = some x ∷ somes xs

  somes-append : (xs ys : List A) → somes (xs ++ ys) ≡ somes xs ++ somes ys
  somes-append [] ys = refl
  somes-append (x ∷ xs) ys = ap (◌∷◌ (some x)) (somes-append xs ys)

  length-somes : (xs : List A) → length (somes xs) ≡ length xs
  length-somes [] = refl
  length-somes (x ∷ xs) = ap suc (length-somes xs)

  get_or-somes : (xs : List A) (k : ℕ) → get_or (somes xs) k none ≡ get_elem? xs k
  get_or-somes [] k = refl
  get_or-somes (x ∷ xs) zero = refl
  get_or-somes (x ∷ xs) (suc k) = get_or-somes xs k

  somes-take : (n : ℕ) (xs : List A) → take n (somes xs) ≡ somes (take n xs)
  somes-take zero xs = refl
  somes-take (suc n) [] = refl
  somes-take (suc n) (x ∷ xs) = ap (◌∷◌ (some x)) (somes-take n xs)

  set-somes : (xs : List A) (i : ℕ) (a : A) → set (somes xs) i (some a) ≡ somes (set xs i a)
  set-somes [] i a = refl
  set-somes (x ∷ xs) zero a = refl
  set-somes (x ∷ xs) (suc i) a = ap (◌∷◌ (some x)) (set-somes xs i a)

  set-take :
      (n i : ℕ) (v : Option A) (xs : List (Option A))
      → i < n
      → take n (set xs i v) ≡ set (take n xs) i v
  set-take zero i v xs h = absurd (omega arith)
  set-take (suc n) i v [] h = refl
  set-take (suc n) zero v (x ∷ xs) h = refl
  set-take (suc n) (suc i) v (x ∷ xs) h = ap (◌∷◌ x) (set-take n i v xs (omega arith))

  -- The vector holds `xs` in its first `len` cells.
  pub record Represents (v : Vec A) (xs : List A) : Type 0 where
    pub room : length v.cells ≡ v.capacity
    pub ready : v.is_initialized ≡ true
    pub count : v.len ≡ length xs
    pub fits : v.len ≤ v.capacity
    pub held : take v.len v.cells ≡ somes xs

  -- A call returns the value, and leaves a vector of the same capacity that holds the values.
  abbrev pub Refines : {B : Type 0} → Vec A → Outcome (B × Vec A) → B × List A → Type 0
  Refines v r spec =
      (v' : Vec A) × (r ≡ done (spec.0, v')) × Represents v' spec.1 × (v'.capacity ≡ v.capacity)

  new-Represents : (capacity : ℕ) → Represents (new capacity) []
  unfolding new
  new-Represents capacity = record {
    room = length-replicate capacity none;
    ready = refl;
    count = refl;
    fits = omega arith;
    held = refl;
  }

  module _ (v : Vec A) (xs : List A) (a : A) (h : Represents v xs) (less : v.len < v.capacity) where
    abbrev pushed : Vec A
    pushed = record v { cells = set v.cells v.len (some a); len = v.len + 1 }

    push_unchecked-pushed : push_unchecked v a ≡ done pushed
    unfolding push_unchecked
    push_unchecked-pushed = rw (lt→ltb v.len (length v.cells) (omega (arith, h.room)))

    pushed-Represents : Represents pushed (xs ++ (a ∷ []))
    pushed-Represents = record {
      room = omega (arith, h.room, length-set v.cells v.len (some a));
      ready = h.ready;
      count = omega (arith, h.count, length-append xs (a ∷ []));
      fits = omega arith;
      held =
          let e : v.len + 1 ≡ suc v.len = omega arith in
          rw (e, somes-append xs (a ∷ []), ← h.held)
            (take-set_self v.len (some a) v.cells (omega (arith, h.room)));
    }

  -- `push` on a vector that holds `xs` refuses the value if they fill the capacity, and else puts it
  -- behind them.
  pub vec_push-Refines :
      (v : Vec A) (xs : List A) (a : A)
      → Represents v xs
      → Refines v (push v a) (Bounded.push v.capacity xs a)
  unfolding push Bounded.push
  vec_push-Refines v xs a h = elim (ℕ_discrete v.len v.capacity) [
    | yes full ↦
        let e : (length xs == v.capacity) ≡ true =
          eq→== (length xs) v.capacity (omega (arith, h.count)) in
        (v, rw (eq→== v.len v.capacity full, e), rw e h, refl)
    | no ne ↦
        let less : v.len < v.capacity = omega (arith, h.fits) in
        let e : (length xs == v.capacity) ≡ false =
          ne→== (length xs) v.capacity (omega (arith, h.count)) in
        (
          pushed v xs a h less,
          rw (ne→== v.len v.capacity ne, push_unchecked-pushed v xs a h less, h.ready, e),
          rw e (pushed-Represents v xs a h less),
          refl,
        )
  ]

  fill_rounds_total :
      (n : ℕ) (v : Vec A) (xs : List A) (a : A)
      → Represents v xs
      → v.len + n ≤ v.capacity
      → (v' : Vec A) × (fill_rounds n v a ≡ done v')
        × Represents v' (xs ++ replicate n a)
        × (v'.capacity ≡ v.capacity)
  unfolding fill_rounds
  fill_rounds_total zero v xs a h room = (v, refl, rw (append-nil xs) h, refl)
  fill_rounds_total (suc n) v xs a h room =
      let less : v.len < v.capacity = omega arith in
      let (v', e, r, c) =
        fill_rounds_total n (pushed v xs a h less) (xs ++ (a ∷ [])) a
          (pushed-Represents v xs a h less) (omega arith) in
      (v', rw (push_unchecked-pushed v xs a h less) e, rw append_assoc at r, c)

  -- `fill` on a vector that holds `xs` puts copies of the value behind them, up to the capacity.
  pub fill_total :
      (v : Vec A) (xs : List A) (a : A)
      → Represents v xs
      → (v' : Vec A) × (fill v a ≡ done v')
        × Represents v' (xs ++ replicate (v.capacity - length xs) a)
        × (v'.len ≡ v.capacity)
  unfolding fill
  fill_total v xs a h =
      let (v', e, r, c) = fill_rounds_total (v.capacity - v.len) v xs a h (omega (arith, h.fits)) in
      let n : v.capacity - v.len ≡ v.capacity - length xs = omega (arith, h.count) in
      (
        v',
        e,
        rw n at r,
        omega (
          arith,
          r.count,
          h.count,
          h.fits,
          length-append xs (replicate (v.capacity - v.len) a),
          length-replicate (v.capacity - v.len) a,
        ),
      )

  module _ (v : Vec A) (xs : List A) (h : Represents v xs) (some_left : 0 < v.len) where
    abbrev popped : Vec A
    popped = record v { cells = set v.cells (v.len - 1) none; len = v.len - 1 }

    last_cell : get_or v.cells (v.len - 1) none ≡ get_elem? xs (length xs - 1)
    last_cell =
        sym (get_or-take v.len (v.len - 1) v.cells none (omega arith))
        ∙ (let e : v.len - 1 ≡ length xs - 1 = omega (arith, h.count) in
            rw (h.held, e) (get_or-somes xs (length xs - 1)))

    pop_unchecked-popped :
        (a : A) → get_elem? xs (length xs - 1) ≡ some a → pop_unchecked v ≡ done (a, popped)
    unfolding pop_unchecked assume_init
    pop_unchecked-popped a e = rw (ne→== v.len 0 (omega arith), last_cell, e)

    last : (a : A) × (get_elem? xs (length xs - 1) ≡ some a)
    last = get_elem?-some xs (length xs - 1) (omega (arith, h.count))

    popped-Represents : Represents popped (take (length xs - 1) xs)
    popped-Represents = record {
      room = omega (arith, h.room, length-set v.cells (v.len - 1) none);
      ready = h.ready;
      count = omega (arith, h.count, length-take (length xs - 1) xs);
      fits = omega (arith, h.fits);
      held =
          take-set (v.len - 1) (v.len - 1) none v.cells (omega arith)
          ∙ sym (take-take (v.len - 1) v.len v.cells (omega arith))
          ∙ (let e : v.len - 1 ≡ length xs - 1 = omega (arith, h.count) in
              rw (h.held, e) (somes-take (length xs - 1) xs));
    }

  -- `pop` on a vector that holds `xs` returns the last value and leaves the others, or returns
  -- `None` if there is no value.
  pub vec_pop-Refines :
      (v : Vec A) (xs : List A) → Represents v xs → Refines v (pop v) (Bounded.pop xs)
  unfolding pop Bounded.pop
  vec_pop-Refines v xs h = elim (ℕ_discrete v.len 0) [
    | yes e ↦
        let f : (length xs == 0) ≡ true = eq→== (length xs) 0 (omega (arith, h.count)) in
        (v, rw (eq→== v.len 0 e, f), rw f h, refl)
    | no ne ↦
        let f : (length xs == 0) ≡ false = ne→== (length xs) 0 (omega (arith, h.count)) in
        let (a, e) = last v xs h (omega arith) in
        (
          popped v xs h (omega arith),
          rw (ne→== v.len 0 ne, pop_unchecked-popped v xs h (omega arith) a e, h.ready, f, e),
          rw f (popped-Represents v xs h (omega arith)),
          refl,
        )
  ]

  clear_rounds_total :
      (n : ℕ) (v : Vec A) (xs : List A)
      → Represents v xs
      → v.len ≡ n
      → (v' : Vec A) × (clear_rounds n v ≡ done v') × Represents v' [] × (v'.capacity ≡ v.capacity)
  unfolding clear_rounds
  clear_rounds_total zero v [] h e = (v, refl, h, refl)
  clear_rounds_total zero v (x ∷ xs) h e = absurd (omega (arith, h.count))
  clear_rounds_total (suc n) v xs h e =
      let (a, f) = last v xs h (omega arith) in
      let (v', g, r, c) =
        clear_rounds_total n (popped v xs h (omega arith)) (take (length xs - 1) xs)
          (popped-Represents v xs h (omega arith)) (omega arith) in
      (v', rw (pop_unchecked-popped v xs h (omega arith) a f) g, r, c)

  -- `clear` on a vector that holds values leaves an empty vector of the same capacity.
  pub vec_clear_total :
      (v : Vec A) (xs : List A)
      → Represents v xs
      → (v' : Vec A) × (clear v ≡ done v') × Represents v' [] × (v'.capacity ≡ v.capacity)
  unfolding clear
  vec_clear_total v xs h = clear_rounds_total v.len v xs h refl

  -- `get` on a vector that holds `xs` returns the value at the index, or `None` if there is none.
  pub vec_get_refines :
      (v : Vec A) (xs : List A) (index : ℕ)
      → Represents v xs
      → get v index ≡ done (get_elem? xs index)
  unfolding get assume_init
  vec_get_refines v xs index h = elim (dec_lt index v.len) [
    | yes inside ↦
        let (a, e) = get_elem?-some xs index (omega (arith, h.count)) in
        let cell : get_or v.cells index none ≡ some a =
          sym (get_or-take v.len index v.cells none inside)
          ∙ rw h.held (get_or-somes xs index)
          ∙ e in
        rw (lt→leb v.len index inside, h.ready, cell, e)
    | no outside ↦
        let e : get_elem? xs index ≡ none = get_elem?-none xs index (omega (arith, h.count)) in
        rw (le→leb v.len index (omega arith), e)
  ]

  -- A write through `get_mut` on a vector that holds `xs` replaces the value at the index and no
  -- other; at an index out of range there is no reference, and nothing changes.
  pub write_mut-Refines :
      (v : Vec A) (xs : List A) (index : ℕ) (a : A)
      → Represents v xs
      → Refines v (write_mut v index a) (Bounded.write_mut xs index a)
  unfolding write_mut Bounded.write_mut
  write_mut-Refines v xs index a h = elim (dec_lt index v.len) [
    | yes inside ↦
        let e : leb (length xs) index ≡ false = lt→leb (length xs) index (omega (arith, h.count)) in
        (
          record v { cells = set v.cells index (some a) },
          rw (
            lt→leb v.len index inside,
            lt→ltb index (length v.cells) (omega (arith, h.room, h.fits)),
            h.ready,
            e,
          ),
          rw e (record {
            room = omega (arith, h.room, length-set v.cells index (some a));
            ready = h.ready;
            count = omega (arith, h.count, length-set xs index a);
            fits = h.fits;
            held = set-take v.len index (some a) v.cells inside ∙ rw h.held (set-somes xs index a);
          }),
          refl,
        )
    | no outside ↦
        let e : leb (length xs) index ≡ true = le→leb (length xs) index (omega (arith, h.count)) in
        (v, rw (le→leb v.len index (omega arith), e), rw e h, refl)
  ]
