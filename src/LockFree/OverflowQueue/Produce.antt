-- ===== src/LockFree/OverflowQueue/Produce.antt =====
-- Every access of `push` keeps the invariant.
use iceoryx_in_rust.Prelude.{
  ℕ, ◌+◌, ◌%◌, ◌^◌, ◌<◌, ◌≡◌, ◌≢◌, refl, sym, ◌∙◌, ap, subst, Bool, true, false, List, [], ◌∷◌,
  ◌++◌, arith, length, length-append, length-set, get_or, set, ◌==◌, eq→==, ne→==, ==_iff,
  ℕ_discrete, get_or-set_self,
}
use mathlib.Core.Bool.{true≢false}
use native.Mathlib.Nat.{mod-lt}
use iceoryx_in_rust.Prelude.Word.{add_usize}
use iceoryx_in_rust.Ring.{Holds, Holds-set_ne, Holds-append, mod-ne}
use iceoryx_in_rust.LockFree.OverflowQueue.{
  OverflowQueue, Producer, starting, loaded, checked, written, evicting, evicted, Consumer, at,
  produce, log_push, log_return,
}
use iceoryx_in_rust.LockFree.OverflowQueue.Invariant.{
  count, count-append, in_hand, ProducerOk, ConsumerOk, Inv,
}
use iceoryx_in_rust.LockFree.OverflowQueue.Threads.{
  written-ConsumerOk, longer-ConsumerOk, evicted-ConsumerOk, oldest, moved,
}

module _ {capacity n : ℕ} (small : n + capacity + 1 < 2 ^ 64) (wide : 0 < capacity) where
  checked-Inv :
      (q : OverflowQueue) (c : Consumer) (pushed popped recycled : List ℕ) (v w r : ℕ)
      (is_full : Bool)
      → Inv capacity n q (checked v w r is_full) c pushed popped recycled
      → Inv capacity
          (n + 1)
          (record q { cells = set q.cells (at q w) v })
          (written v w r is_full)
          c
          pushed
          popped
          recycled
  checked-Inv q c pushed popped recycled v w r is_full inv =
      let (here, behind, near, e, less) = inv.producer in
      record {
        pending = inv.pending;
        same = inv.same;
        room = omega (arith, inv.room, length-set q.cells (at q w) v);
        positions = inv.positions;
        steps = omega (arith, inv.steps);
        conserved = inv.conserved;
        held =
            Holds-set_ne 0 q.cells (q.capacity + 1) q.read_position w v inv.pending
              (λ i below above.
                mod-ne i w (q.capacity + 1) (omega (arith, here, inv.positions))
                  (omega (arith, here, inv.positions, less)))
              inv.held;
        producer = (
          here,
          behind,
          near,
          e,
          less,
          get_or-set_self q.cells (at q w) v 0
              (omega (arith, inv.room, mod-lt w {m = q.capacity + 1} (omega arith))),
        );
        consumer = written-ConsumerOk q (set q.cells (at q w) v) inv.pending c inv.consumer;
      }

  published-Inv :
      (q : OverflowQueue) (c : Consumer) (pushed popped recycled : List ℕ) (v w r : ℕ)
      (is_full : Bool) (p : Producer)
      (inv : Inv capacity n q (written v w r is_full) c pushed popped recycled)
      → in_hand (record q { write_position = w + 1 }) p ≡ []
      → ProducerOk (record q { write_position = w + 1 }) (inv.pending ++ (v ∷ [])) p
      → Inv capacity (n + 1) (record q { write_position = w + 1 }) p c (v ∷ pushed) popped recycled
  published-Inv q c pushed popped recycled v w r is_full p inv none_in_hand ready =
      let (here, behind, near, e, less, cell) = inv.producer in
      let f : q.read_position + length inv.pending ≡ w = omega (arith, here, inv.positions) in
      record {
        pending = inv.pending ++ (v ∷ []);
        same = inv.same;
        room = inv.room;
        positions = omega (arith, here, inv.positions, length-append inv.pending (v ∷ []));
        steps = omega (arith, here, inv.steps);
        conserved =
            λ a. rw none_in_hand (omega (arith, inv.conserved a, count-append a inv.pending v));
        held =
            Holds-append 0 q.cells (q.capacity + 1) q.read_position inv.pending (v ∷ []) inv.held
              (rw f (cell, tt));
        producer = ready;
        consumer = longer-ConsumerOk q (w + 1) v inv.pending c inv.consumer;
      }

  evicted-Inv :
      (q : OverflowQueue) (c : Consumer) (pushed popped recycled : List ℕ) (v r : ℕ)
      → r ≡ q.read_position
      → Inv capacity n q (evicting v r) c pushed popped recycled
      → Inv capacity
          (n + 1)
          (record q { read_position = q.read_position + 1 })
          (evicted v r)
          c
          pushed
          popped
          recycled
  evicted-Inv q c pushed popped recycled v r now inv =
      let (full, behind) = inv.producer in
      let (rest, e) = oldest q inv.pending (omega (arith, full, now, inv.positions)) inv.held in
      record {
        pending = rest;
        same = inv.same;
        room = inv.room;
        positions = omega (arith, inv.positions, ap length e);
        steps = omega (arith, inv.steps);
        conserved = λ a. omega (
          arith,
          inv.conserved a,
          ap (count a) e,
          ap (λ i. count a (get_or q.cells (i % (q.capacity + 1)) 0 ∷ [])) now,
        );
        held = (subst (Holds 0 q.cells (q.capacity + 1) q.read_position) e inv.held).1;
        producer = omega (arith, full, now, inv.positions, ap length e);
        consumer =
            evicted-ConsumerOk q (get_or q.cells (q.read_position % (q.capacity + 1)) 0) rest c
              (omega (arith, full, now, inv.positions, ap length e, inv.same, wide))
              (subst (λ xs. ConsumerOk q xs c) e inv.consumer);
      }

  pub produce-Inv :
      (q : OverflowQueue) (p : Producer) (c : Consumer) (pushed popped recycled : List ℕ)
      → Inv capacity n q p c pushed popped recycled
      → Inv capacity
          (n + 1)
          (produce q p).1
          (produce q p).0
          c
          (log_push p pushed)
          popped
          (log_return (produce q p).2 recycled)
  unfolding produce log_push log_return
  produce-Inv q Producer.idle c pushed popped recycled inv =
      moved inv Producer.idle c refl inv.producer inv.consumer
  produce-Inv q (starting v) c pushed popped recycled inv =
      moved inv (loaded v q.write_position) c refl (refl, inv.producer) inv.consumer
  produce-Inv q (loaded v w) c pushed popped recycled inv =
      let e : add_usize q.read_position q.capacity ≡ q.read_position + q.capacity =
        omega (arith, inv.positions, inv.steps, inv.same) in
      rw e (
        moved inv (checked v w q.read_position (w == q.read_position + q.capacity)) c refl
          (
            inv.producer.0,
            omega arith,
            omega (arith, inv.producer, inv.positions),
            refl,
            inv.producer.1,
          )
          inv.consumer)
  produce-Inv q (checked v w r is_full) c pushed popped recycled inv =
      checked-Inv q c pushed popped recycled v w r is_full inv
  produce-Inv q (written v w r true) c pushed popped recycled inv =
      let (here, behind, near, e, less, cell) = inv.producer in
      let f : add_usize w 1 ≡ w + 1 = omega (arith, here, inv.steps) in
      let g : w ≡ r + q.capacity = (==_iff w (r + q.capacity)).0 (sym e) in
      rw f (
        published-Inv q c pushed popped recycled v w r true (evicting v r) inv refl
          (omega (arith, g), behind))
  produce-Inv q (written v w r false) c pushed popped recycled inv =
      let (here, behind, near, e, less, cell) = inv.producer in
      let f : add_usize w 1 ≡ w + 1 = omega (arith, here, inv.steps) in
      let g : w ≢ r + q.capacity =
        λ same. true≢false (sym (eq→== w (r + q.capacity) same) ∙ sym e) in
      rw f (
        published-Inv q c pushed popped recycled v w r false Producer.idle inv refl
          (omega (arith, g, near, behind, here, inv.positions, length-append inv.pending (v ∷ []))))
  produce-Inv q (evicting v r) c pushed popped recycled inv = elim (ℕ_discrete q.read_position r) [
    | yes now ↦
        let f : add_usize r 1 ≡ q.read_position + 1 =
          omega (arith, now, inv.positions, inv.steps) in
        rw (eq→== q.read_position r now, f)
          (evicted-Inv q c pushed popped recycled v r (sym now) inv)
    | no moved_on ↦ rw (ne→== q.read_position r moved_on) (
        moved inv Producer.idle c refl (omega (arith, moved_on, inv.producer, inv.positions))
          inv.consumer)
  ]
  produce-Inv q (evicted v r) c pushed popped recycled inv = record {
    pending = inv.pending;
    same = inv.same;
    room = inv.room;
    positions = inv.positions;
    steps = omega (arith, inv.steps);
    conserved = λ a. omega (arith, inv.conserved a);
    held = inv.held;
    producer = inv.producer;
    consumer = inv.consumer;
  }
