-- ===== src/LockFree/OverflowQueue/Consume.antt =====
-- Every access of `pop` keeps the invariant.
use iceoryx_in_rust.Prelude.{
  ℕ, ◌+◌, ◌^◌, ◌<◌, ◌≡◌, ◌≢◌, inl, inr, refl, sym, ap, subst, List, ◌∷◌, arith, length, get_or,
  eq→==, ne→==, ℕ_discrete,
}
use iceoryx_in_rust.Prelude.Word.{add_usize}
use iceoryx_in_rust.Ring.{Holds}
use iceoryx_in_rust.LockFree.OverflowQueue.{
  OverflowQueue, Producer, Consumer, taking, taken, at, consume, log_return,
}
use iceoryx_in_rust.LockFree.OverflowQueue.Invariant.{count, ProducerOk, IsCurrent, ConsumerOk, Inv}
use iceoryx_in_rust.LockFree.OverflowQueue.Threads.{
  popped-ProducerOk, popped-in_hand, oldest, moved,
}

module _ {capacity n : ℕ} (small : n + capacity + 1 < 2 ^ 64) (wide : 0 < capacity) where
  popped-Inv :
      (q : OverflowQueue) (p : Producer) (pushed popped recycled : List ℕ) (r v : ℕ)
      → r ≡ q.read_position
      → Inv capacity n q p (taken r v) pushed popped recycled
      → Inv capacity
          (n + 1)
          (record q { read_position = q.read_position + 1 })
          p
          Consumer.idle
          pushed
          (v ∷ popped)
          recycled
  popped-Inv q p pushed popped recycled r v now inv =
      let (rest, e) = current inv.consumer.1 in
      record {
        pending = rest;
        same = inv.same;
        room = inv.room;
        positions = omega (arith, inv.positions, ap length e);
        steps = omega (arith, inv.steps);
        conserved = λ a.
            rw (popped-in_hand q (q.read_position + 1) p)
              (omega (arith, inv.conserved a, ap (count a) e));
        held = (subst (Holds 0 q.cells (q.capacity + 1) q.read_position) e inv.held).1;
        producer = popped-ProducerOk q v rest p (subst (λ xs. ProducerOk q xs p) e inv.producer);
        consumer = tt;
      }
    where
      current : IsCurrent q inv.pending r v → (rest : List ℕ) × (inv.pending ≡ v ∷ rest)
      current (inl old) = absurd (omega (arith, old, now))
      current (inr (here, rest, e)) = (rest, e)

  pub consume-Inv :
      (q : OverflowQueue) (p : Producer) (c : Consumer) (pushed popped recycled : List ℕ)
      → Inv capacity n q p c pushed popped recycled
      → Inv capacity
          (n + 1)
          (consume q c).1
          p
          (consume q c).0
          pushed
          (log_return (consume q c).2 popped)
          recycled
  unfolding consume log_return
  consume-Inv q p Consumer.idle pushed popped recycled inv =
      moved inv p Consumer.idle refl inv.producer tt
  consume-Inv q p Consumer.starting pushed popped recycled inv =
      moved inv p (Consumer.loaded q.read_position) refl inv.producer (inl refl)
  consume-Inv q p (Consumer.loaded r) pushed popped recycled inv =
      elim (ℕ_discrete r q.write_position) [
        | yes empty ↦
            rw (eq→== r q.write_position empty) (moved inv p Consumer.idle refl inv.producer tt)
        | no more ↦
            rw (ne→== r q.write_position more)
              (moved inv p (taking r) refl inv.producer (left more inv.consumer))
      ]
    where
      left :
          r ≢ q.write_position
          → ConsumerOk q inv.pending (Consumer.loaded r)
          → ConsumerOk q inv.pending (taking r)
      left more (inl here) = (omega arith, omega (arith, here, more, inv.positions))
      left more (inr (old, some_left)) = (omega (arith, old), some_left)
  consume-Inv q p (taking r) pushed popped recycled inv =
      let (near, some_left) = inv.consumer in
      let (rest, e) = oldest q inv.pending some_left inv.held in
      moved inv p (taken r (get_or q.cells (at q r) 0)) refl inv.producer (
        some_left,
        elim (ℕ_discrete r q.read_position) [
          | yes now ↦ inr (now, rest, rw now e)
          | no old ↦ inl (omega (arith, near, old))
        ],
      )
  consume-Inv q p (taken r v) pushed popped recycled inv = elim (ℕ_discrete q.read_position r) [
    | yes now ↦
        let f : add_usize r 1 ≡ q.read_position + 1 =
          omega (arith, now, inv.positions, inv.steps) in
        rw (eq→== q.read_position r now, f)
          (popped-Inv q p pushed popped recycled r v (sym now) inv)
    | no old ↦
        rw (ne→== q.read_position r old)
          (moved inv p (taking q.read_position) refl inv.producer (omega arith, inv.consumer.0))
  ]
