-- ===== src/Container/Queue/Refine.antt =====
-- `Queue` implements the bounded FIFO, with every index in range and no read of an empty cell.
use native.Mathlib.Nat.{mod-lt}
use iceoryx_in_rust.Prelude.{
  ℕ, zero, suc, ◌+◌, ◌-◌, ◌%◌, ◌^◌, ◌≤◌, ◌<◌, ◌≡◌, refl, ◌∙◌, ap, true, false, Option, none, some,
  List, [], ◌∷◌, ◌++◌, arith, length, length-append, length-set, length-replicate, get_or,
  get_elem?, get_elem?-some, get_elem?-none, set, ◌==◌, eq→==, ne→==, le→leb, lt→leb, lt→ltb,
  ℕ_discrete, dec_lt,
}
use iceoryx_in_rust.Prelude.Word.{add_usize, sub_usize}
use iceoryx_in_rust.Outcome.{Outcome, done}
use iceoryx_in_rust.Ring.{Holds, Holds-push, Holds-clear, Holds-get}
use iceoryx_in_rust.Container.Queue.{
  Queue, new, pop, push, push_with_overflow, unchecked_push, clear, clear_loop, get,
}
use iceoryx_in_rust.Container.Queue.Fifo

module _ {A : Type 0} where
  abbrev somes : List A → List (Option A)
  somes [] = []
  somes (x ∷ xs) = some x ∷ somes xs

  length-somes : (xs : List A) → length (somes xs) ≡ length xs
  length-somes [] = refl
  length-somes (x ∷ xs) = ap suc (length-somes xs)

  somes-append : (xs ys : List A) → somes (xs ++ ys) ≡ somes xs ++ somes ys
  somes-append [] ys = refl
  somes-append (x ∷ xs) ys = ap (◌∷◌ (some x)) (somes-append xs ys)

  -- The queue holds `xs`, oldest first, in the `len` cells before `start`.
  pub record Represents (q : Queue A) (xs : List A) : Type 0 where
    pub room : length q.cells ≡ q.capacity
    pub ready : q.is_initialized ≡ true
    pub count : q.len ≡ length xs
    pub fits : q.len ≤ q.capacity
    pub started : q.len ≤ q.start
    pub no_wrap : q.start < 2 ^ 64
    pub held : Holds none q.cells q.capacity (q.start - q.len) (somes xs)

  -- A call returns the value, and leaves a queue of the same capacity that holds the values.
  abbrev pub Refines : {B : Type 0} → Queue A → Outcome (B × Queue A) → B × List A → Type 0
  Refines q r spec =
      (q' : Queue A) × (r ≡ done (spec.0, q')) × Represents q' spec.1 × (q'.capacity ≡ q.capacity)

  -- A new queue is empty.
  pub new-Represents : (cap : ℕ) → Represents (new cap) []
  unfolding new
  new-Represents cap = record {
    room = length-replicate cap none;
    ready = refl;
    count = refl;
    fits = omega arith;
    started = omega arith;
    no_wrap = omega arith;
    held = tt;
  }

  module _ (q : Queue A) where
    -- The state that `pop` leaves, if the queue holds a value.
    abbrev popped : Queue A
    popped = record q { cells = set q.cells ((q.start - q.len) % q.capacity) none; len = q.len - 1 }

    popped-Represents : (x : A) (xs : List A) → Represents q (x ∷ xs) → Represents popped xs
    popped-Represents x xs h = record {
      room = omega (arith, h.room, length-set q.cells ((q.start - q.len) % q.capacity) none);
      ready = h.ready;
      count = omega (arith, h.count);
      fits = omega (arith, h.fits);
      started = omega (arith, h.started);
      no_wrap = h.no_wrap;
      held =
          let e : q.start - (q.len - 1) ≡ q.start - q.len + 1 = omega (arith, h.count, h.started) in
          rw e (
            Holds-clear none q.cells q.capacity (q.start - q.len) (somes xs) none
              (omega (arith, length-somes xs, h.count, h.fits)) h.held.1);
    }

    pop-popped : (x : A) (xs : List A) → Represents q (x ∷ xs) → pop q ≡ done (some x, popped)
    unfolding pop
    pop-popped x xs h =
        let e : sub_usize q.start q.len ≡ q.start - q.len = omega (arith, h.started, h.no_wrap) in
        rw (
          ne→== q.len 0 (omega (arith, h.count)),
          h.ready,
          ne→== q.capacity 0 (omega (arith, h.count, h.fits)),
          e,
          h.held.0,
        )

  -- `pop` on a queue that holds `xs` returns the oldest value and leaves the others.
  pub queue_pop-Refines :
      (q : Queue A) (xs : List A) → Represents q xs → Refines q (pop q) (Fifo.pop xs)
  unfolding Fifo.pop pop
  queue_pop-Refines q [] h = (q, rw (eq→== q.len 0 h.count), h, refl)
  queue_pop-Refines q (x ∷ xs) h = (popped q, pop-popped q x xs h, popped-Represents q x xs h, refl)

  module _ (q : Queue A) (xs : List A) (v : A) (h : Represents q xs) (more : q.start + 1 < 2 ^ 64)
      (less : q.len < q.capacity) where
    abbrev pushed : Queue A
    pushed = record q {
      cells = set q.cells (q.start % q.capacity) (some v);
      start = q.start + 1;
      len = q.len + 1;
    }

    pushed-Represents : Represents pushed (xs ++ (v ∷ []))
    pushed-Represents = record {
      room = omega (arith, h.room, length-set q.cells (q.start % q.capacity) (some v));
      ready = h.ready;
      count = omega (arith, h.count, length-append xs (v ∷ []));
      fits = omega arith;
      started = omega (arith, h.started);
      no_wrap = more;
      held =
          let e : q.start + 1 - (q.len + 1) ≡ q.start - q.len = omega arith in
          let f : q.start - q.len + length (somes xs) ≡ q.start =
            omega (arith, length-somes xs, h.count, h.started) in
          rw (e, somes-append xs (v ∷ []))
            (rw f at (
              Holds-push none q.cells q.capacity (q.start - q.len) (somes xs) (some v) h.room
                (omega (arith, length-somes xs, h.count)) h.held));
    }

    unchecked_push-pushed : unchecked_push q v ≡ done pushed
    unfolding unchecked_push
    unchecked_push-pushed =
        let e : add_usize q.start 1 ≡ q.start + 1 = omega arith in
        let f : add_usize q.len 1 ≡ q.len + 1 = omega (arith, h.started) in
        let inside : q.start % q.capacity < length q.cells =
          omega (arith, h.room, mod-lt q.start {m = q.capacity} (omega arith)) in
        rw (
          ne→== q.capacity 0 (omega arith),
          lt→ltb (q.start % q.capacity) (length q.cells) inside,
          e,
          f,
        )

  -- `push` on a queue that holds `xs` refuses the value if `xs` fill the capacity, and else puts it
  -- behind them, as long as the count of all pushes fits `usize`.
  pub queue_push-Refines :
      (q : Queue A) (xs : List A) (v : A)
      → Represents q xs
      → q.start + 1 < 2 ^ 64
      → Refines q (push q v) (Fifo.push q.capacity xs v)
  unfolding push Fifo.push
  queue_push-Refines q xs v h more = elim (ℕ_discrete q.len q.capacity) [
    | yes full ↦ (
      q,
      rw (eq→== q.len q.capacity full, eq→== (length xs) q.capacity (omega (arith, h.count))),
      rw (eq→== (length xs) q.capacity (omega (arith, h.count))) h,
      refl,
    )
    | no ne ↦
        let less : q.len < q.capacity = omega (arith, h.fits) in
        let e : (length xs == q.capacity) ≡ false =
          ne→== (length xs) q.capacity (omega (arith, h.count)) in
        (
          pushed q xs v h more less,
          rw (ne→== q.len q.capacity ne, unchecked_push-pushed q xs v h more less, h.ready, e),
          rw e (pushed-Represents q xs v h more less),
          refl,
        )
  ]

  -- On a queue with a capacity that is not zero that holds `xs`, and whose `start` can grow by one
  -- without wrapping around: `push_with_overflow` puts the value behind `xs`, and if `xs` fill the
  -- capacity, it first takes the oldest away and returns it; otherwise it returns none.
  pub push_with_overflow-Refines :
      (q : Queue A) (xs : List A) (v : A)
      → Represents q xs
      → q.start + 1 < 2 ^ 64
      → 0 < q.capacity
      → Refines q (push_with_overflow q v) (Fifo.push_with_overflow q.capacity xs v)
  unfolding push_with_overflow Fifo.push_with_overflow
  push_with_overflow-Refines q [] v h more positive = (
    pushed q [] v h more (omega (arith, h.count)),
    rw (
      ne→== q.len q.capacity (omega (arith, h.count)),
      unchecked_push-pushed q [] v h more (omega (arith, h.count)),
      h.ready,
      ne→== 0 q.capacity (omega arith),
    ),
    rw (ne→== 0 q.capacity (omega arith))
        (pushed-Represents q [] v h more (omega (arith, h.count))),
    refl,
  )
  push_with_overflow-Refines q (x ∷ xs) v h more positive = elim (ℕ_discrete q.len q.capacity) [
    | yes full ↦
        let e : (suc (length xs) == q.capacity) ≡ true =
          eq→== (suc (length xs)) q.capacity (omega (arith, h.count)) in
        let p = popped-Represents q x xs h in
        let less : q.len - 1 < q.capacity = omega (arith, h.fits) in
        (
          pushed (popped q) xs v p more less,
          rw (
            eq→== q.len q.capacity full,
            pop-popped q x xs h,
            unchecked_push-pushed (popped q) xs v p more less,
            h.ready,
            e,
          ),
          rw e (pushed-Represents (popped q) xs v p more less),
          refl,
        )
    | no ne ↦
        let less : q.len < q.capacity = omega (arith, h.fits) in
        let e : (suc (length xs) == q.capacity) ≡ false =
          ne→== (suc (length xs)) q.capacity (omega (arith, h.count)) in
        (
          pushed q (x ∷ xs) v h more less,
          rw (
            ne→== q.len q.capacity ne,
            unchecked_push-pushed q (x ∷ xs) v h more less,
            h.ready,
            e,
          ),
          rw e (pushed-Represents q (x ∷ xs) v h more less),
          refl,
        )
  ]

  -- The loop of `clear` ends: with fuel for one more call than there are values it empties the queue.
  clear_loop_total :
      (fuel : ℕ) (q : Queue A) (xs : List A)
      → Represents q xs
      → length xs < fuel
      → (q' : Queue A) × (clear_loop fuel q ≡ done q')
        × Represents q' []
        × (q'.capacity ≡ q.capacity)
  unfolding clear_loop Fifo.pop
  clear_loop_total zero q xs h less = absurd (omega arith)
  clear_loop_total (suc fuel) q [] h less =
      let (q', e, r, c) = queue_pop-Refines q [] h in (q', rw e, r, c)
  clear_loop_total (suc fuel) q (x ∷ xs) h less =
      let (q', e, r, c) =
        clear_loop_total fuel (popped q) xs (popped-Represents q x xs h) (omega arith) in
      (q', rw (pop-popped q x xs h) e, r, c)

  -- `clear` on any queue that holds values returns, and leaves an empty queue of the same capacity.
  pub queue_clear_total :
      (q : Queue A) (xs : List A)
      → Represents q xs
      → (q' : Queue A) × (clear q ≡ done q') × Represents q' [] × (q'.capacity ≡ q.capacity)
  unfolding clear
  queue_clear_total q xs h = clear_loop_total (q.len + 1) q xs h (omega (arith, h.count))

  get_or-somes : (xs : List A) (k : ℕ) → get_or (somes xs) k none ≡ get_elem? xs k
  get_or-somes [] k = refl
  get_or-somes (x ∷ xs) zero = refl
  get_or-somes (x ∷ xs) (suc k) = get_or-somes xs k

  -- `get` on a queue that holds `xs` returns the value at the index, counted from the oldest, and
  -- panics if there is none.
  pub queue_get_refines :
      (q : Queue A) (xs : List A) (index : ℕ) → Represents q xs → get q index ≡ Fifo.get xs index
  unfolding get Fifo.get
  queue_get_refines q xs index h = elim (dec_lt index q.len) [
    | yes inside ↦
        let e : sub_usize q.start q.len ≡ q.start - q.len = omega (arith, h.started, h.no_wrap) in
        let f : add_usize (q.start - q.len) index ≡ q.start - q.len + index =
          omega (arith, h.started, h.no_wrap) in
        let (a, value) = get_elem?-some xs index (omega (arith, h.count)) in
        let cell : get_or q.cells ((q.start - q.len + index) % q.capacity) none ≡ some a =
          Holds-get none q.cells q.capacity (q.start - q.len) index (q.start - q.len + index)
            (somes xs) (omega (arith, length-somes xs, h.count)) refl h.held
          ∙ get_or-somes xs index
          ∙ value in
        rw (
          lt→leb q.len index inside,
          ne→== q.capacity 0 (omega (arith, h.fits)),
          e,
          f,
          cell,
          value,
          Fifo.get,
        )
    | no outside ↦
        let none_there : get_elem? xs index ≡ none =
          get_elem?-none xs index (omega (arith, h.count)) in
        rw (le→leb q.len index (omega arith), none_there, Fifo.get)
  ]
