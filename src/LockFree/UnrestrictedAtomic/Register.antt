-- ===== src/LockFree/UnrestrictedAtomic/Register.antt =====
-- A value that is loaded is the one that was stored last: never a mixture of two, and never a cell
-- that was not written.
use iceoryx_in_rust.Prelude.{
  ℕ, ◌+◌, ◌^◌, ◌<◌, ◌≡◌, refl, sym, ◌∙◌, ap, ap₂, subst, List, [], ◌∷◌, ◌++◌, arith, length, get_or,
  set, ℕ_discrete, eq→==, ne→==,
}
use mathlib.Core.Option.{some-injective}
use iceoryx_in_rust.Prelude.Word.{sub_usize}
use iceoryx_in_rust.Outcome.{done, assume_init}
use iceoryx_in_rust.Sync.Family.{Every, Every-get_or, Every-set, Every-replicate}
use iceoryx_in_rust.LockFree.UnrestrictedAtomic.{
  UnrestrictedAtomic, Producer, idle, starting, writing, written_first, publishing, Consumer,
  resting, loading, reading, read_first, checking, Call, loaded, System, Event, store,
  producer_access, load, consumer_access, new, cell_at, produce, consume, begin_store, begin_load,
  step, run, start,
}
use iceoryx_in_rust.LockFree.UnrestrictedAtomic.Invariant.{
  held, Register, full, Ok, ProducerOk, Written, Inv, produce-Inv, move-Inv,
}

module _ {A B : Type 0} where
  module _ (v : A × B) (steps : ℕ) (x : System A B) (inv : Inv v steps x) where
    abbrev w : ℕ
    w = x.atomic.write_cell

    -- The cell before the counter holds the latest value.
    latest_cell :
        (r : ℕ) (u : A × B) → cell_at x.atomic r ≡ full u → r + 1 ≡ w → full u ≡ full (held v x.log)
    latest_cell r u e now = sym e ∙ ap (cell_at x.atomic) (omega (arith, now)) ∙ inv.latest

    consume-Ok :
        (t : Consumer A B)
        → steps + 2 < 2 ^ 64
        → Ok w (held v x.log) t
        → (r : Consumer A B × List (Call A B)) × (consume x.atomic t ≡ done r)
          × Ok w (held v x.log) r.0
          × (held v (r.1 ++ x.log) ≡ held v x.log)
          × Register v (r.1 ++ x.log)
    unfolding consume held Register assume_init
    consume-Ok resting small ok = ((resting, []), refl, tt, refl, inv.register)
    consume-Ok loading small ok = (
      (reading (sub_usize w 1), []),
      refl,
      omega (arith, inv.positive, inv.counter, small),
      refl,
      inv.register,
    )
    consume-Ok (reading r) small ok =
        let (u, e) = inv.written r ok in
        (
          (read_first r u.0, []),
          rw (ap (λ c. c.0) e) refl,
          (ok, λ now. some-injective _ _ (ap (λ c. c.0) (latest_cell r u e now))),
          refl,
          inv.register,
        )
    consume-Ok (read_first r a) small (below, first) =
        let (u, e) = inv.written r below in
        (
          (checking r a u.1, []),
          rw (ap (λ c. c.1) e) refl,
          (
            below,
            λ now.
                ap₂ (λ p q. (p, q)) (first now)
                  (some-injective _ _ (ap (λ c. c.1) (latest_cell r u e now))),
          ),
          refl,
          inv.register,
        )
    consume-Ok (checking r a b) small (below, both) = elim (ℕ_discrete (sub_usize w 1) r) [
      | yes same ↦ (
        (resting, loaded a b ∷ []),
        rw (eq→== (sub_usize w 1) r same) refl,
        tt,
        refl,
        (both (omega (arith, same, inv.positive, inv.counter, small)), inv.register),
      )
      | no other ↦ (
        (reading (sub_usize w 1), []),
        rw (ne→== (sub_usize w 1) r other) refl,
        omega (arith, inv.positive, inv.counter, small),
        refl,
        inv.register,
      )
    ]

  begin_store-Ok :
      (s : UnrestrictedAtomic A B) (t : Producer A B) (a : A) (b : B)
      → ProducerOk s t
      → ProducerOk s (begin_store t a b)
  unfolding begin_store
  begin_store-Ok s idle a b ok = tt
  begin_store-Ok s (starting _ _) a b ok = ok
  begin_store-Ok s (writing _ _ _) a b ok = ok
  begin_store-Ok s (written_first _ _ _) a b ok = ok
  begin_store-Ok s (publishing _ _) a b ok = ok

  begin_load-Ok : (w : ℕ) (v : A × B) (t : Consumer A B) → Ok w v t → Ok w v (begin_load t)
  unfolding begin_load
  begin_load-Ok w v resting ok = tt
  begin_load-Ok w v loading ok = ok
  begin_load-Ok w v (reading _) ok = ok
  begin_load-Ok w v (read_first _ _) ok = ok
  begin_load-Ok w v (checking _ _ _) ok = ok

  step-Inv :
      (v : A × B) (steps : ℕ) (e : Event A B) (x : System A B)
      → steps + 2 < 2 ^ 64
      → Inv v steps x
      → (y : System A B) × (step e x ≡ done y) × Inv v (steps + 1) y
  unfolding step
  step-Inv v steps (store a b) x small inv = (
    record x { producer = begin_store x.producer a b },
    refl,
    move-Inv v steps x inv (begin_store x.producer a b)
        (begin_store-Ok x.atomic x.producer a b inv.producer_ok),
  )
  step-Inv v steps producer_access x small inv =
      (produce x.producer x, refl, produce-Inv v steps x x.producer small refl inv)
  step-Inv v steps (load i) x small inv = (
    record x { consumers = set x.consumers i (begin_load (get_or x.consumers i resting)) },
    refl,
    record {
      length_two = inv.length_two;
      positive = inv.positive;
      counter = omega (arith, inv.counter);
      latest = inv.latest;
      written = inv.written;
      producer_ok = inv.producer_ok;
      consumers_ok =
          Every-set (Ok x.atomic.write_cell (held v x.log)) x.consumers i
            (begin_load (get_or x.consumers i resting))
            (begin_load-Ok x.atomic.write_cell (held v x.log) (get_or x.consumers i resting) (
              Every-get_or (Ok x.atomic.write_cell (held v x.log)) resting x.consumers i tt
                inv.consumers_ok))
            inv.consumers_ok;
      register = inv.register;
    },
  )
  step-Inv v steps (consumer_access i) x small inv =
      let OkNow : Consumer A B → Type 0 = Ok x.atomic.write_cell (held v x.log) in
      let (r, e, ok, same, all) =
        consume-Ok v steps x inv (get_or x.consumers i resting) small
          (Every-get_or OkNow resting x.consumers i tt inv.consumers_ok) in
      (
        record x { consumers = set x.consumers i r.0; log = r.1 ++ x.log },
        rw e refl,
        record {
          length_two = inv.length_two;
          positive = inv.positive;
          counter = omega (arith, inv.counter);
          latest = inv.latest ∙ ap full (sym same);
          written = inv.written;
          producer_ok = inv.producer_ok;
          consumers_ok =
              subst (λ u. Every (Ok x.atomic.write_cell u) (set x.consumers i r.0)) (sym same)
                (Every-set OkNow x.consumers i r.0 ok inv.consumers_ok);
          register = all;
        },
      )

  pub run-Inv :
      (v : A × B) (steps : ℕ) (es : List (Event A B)) (x : System A B)
      → steps + length es + 1 < 2 ^ 64
      → Inv v steps x
      → (y : System A B) × (run es x ≡ done y) × Inv v (steps + length es) y
  unfolding run
  run-Inv v steps [] x small inv = (x, refl, subst (λ n. Inv v n x) (omega arith) inv)
  run-Inv v steps (e ∷ es) x small inv =
      let (y, f, now) = step-Inv v steps e x (omega (arith, small)) inv in
      let (z, g, after) = run-Inv v (steps + 1) es y (omega (arith, small)) now in
      (z, rw f g, subst (λ n. Inv v n z) (omega arith) after)

  pub start-Inv : (n : ℕ) (a : A) (b : B) → Inv (a, b) 0 (start n a b)
  unfolding start new cell_at held Register
  start-Inv n a b = record {
    length_two = refl;
    positive = omega arith;
    counter = omega arith;
    latest = refl;
    written =
        λ r below. subst (λ k. Written (cell_at (new a b) k)) (zero_of r below) ((a, b), refl);
    producer_ok = tt;
    consumers_ok = Every-replicate (Ok 1 (a, b)) resting n tt;
    register = tt;
  }
    where
      zero_of : (r : ℕ) → r < 1 → 0 ≡ r
      zero_of r below = omega (arith, below)

  -- From a new atomic, in every order of fewer than `2 ^ 64 - 1` accesses of one producer and any
  -- number of consumers, no access reads memory without a value, and each call of `load` that returns
  -- yields, both parts together, the value that was stored last at this moment, or the first value if
  -- none was stored.
  pub load_is_atomic :
      (n : ℕ) (a : A) (b : B) (es : List (Event A B))
      → length es + 1 < 2 ^ 64
      → (x : System A B) × (run es (start n a b) ≡ done x) × Register (a, b) x.log
  load_is_atomic n a b es small =
      let (x, e, inv) =
        run-Inv (a, b) 0 es (start n a b) (omega (arith, small)) (start-Inv n a b) in
      (x, e, inv.register)
