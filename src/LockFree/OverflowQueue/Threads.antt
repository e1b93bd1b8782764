-- ===== src/LockFree/OverflowQueue/Threads.antt =====
-- What an access of one thread means for what the other relies on, and a move without a change.
use iceoryx_in_rust.Prelude.{
  ℕ, ◌+◌, ◌%◌, ◌<◌, ◌≡◌, inl, inr, refl, sym, ap, List, [], ◌∷◌, ◌++◌, arith, length, length-append,
  get_or,
}
use iceoryx_in_rust.Ring.{Holds}
use iceoryx_in_rust.LockFree.OverflowQueue.{
  OverflowQueue, Producer, starting, loaded, checked, written, evicting, evicted, Consumer, taking,
  taken, begin_push, begin_pop,
}
use iceoryx_in_rust.LockFree.OverflowQueue.Invariant.{
  in_hand, ProducerOk, IsCurrent, ConsumerOk, Inv,
}

-- A write behind the values changes nothing that the consumer relies on.
pub written-ConsumerOk :
    (q : OverflowQueue) (cells pending : List ℕ) (c : Consumer)
    → ConsumerOk q pending c
    → ConsumerOk (record q { cells = cells }) pending c
written-ConsumerOk q cells pending Consumer.idle h = tt
written-ConsumerOk q cells pending Consumer.starting h = tt
written-ConsumerOk q cells pending (Consumer.loaded r) h = h
written-ConsumerOk q cells pending (taking r) h = h
written-ConsumerOk q cells pending (taken r v) h = h

longer-IsCurrent :
    (q : OverflowQueue) (w v : ℕ) (pending : List ℕ) (r u : ℕ)
    → IsCurrent q pending r u
    → IsCurrent (record q { write_position = w }) (pending ++ (v ∷ [])) r u
longer-IsCurrent q w v pending r u (inl old) = inl old
longer-IsCurrent q w v pending r u (inr (here, rest, e)) =
    inr (here, rest ++ (v ∷ []), ap (λ xs. xs ++ (v ∷ [])) e)

pub longer-ConsumerOk :
    (q : OverflowQueue) (w v : ℕ) (pending : List ℕ) (c : Consumer)
    → ConsumerOk q pending c
    → ConsumerOk (record q { write_position = w }) (pending ++ (v ∷ [])) c
longer-ConsumerOk q w v pending Consumer.idle h = tt
longer-ConsumerOk q w v pending Consumer.starting h = tt
longer-ConsumerOk q w v pending (Consumer.loaded r) (inl here) = inl here
longer-ConsumerOk q w v pending (Consumer.loaded r) (inr old) =
    inr (old.0, omega (arith, length-append pending (v ∷ [])))
longer-ConsumerOk q w v pending (taking r) h =
    (h.0, omega (arith, h.1, length-append pending (v ∷ [])))
longer-ConsumerOk q w v pending (taken r u) h =
    (omega (arith, h.0, length-append pending (v ∷ [])), longer-IsCurrent q w v pending r u h.1)

-- The producer takes the oldest value away, and leaves others.
pub evicted-ConsumerOk :
    (q : OverflowQueue) (v : ℕ) (rest : List ℕ) (c : Consumer)
    → 0 < length rest
    → ConsumerOk q (v ∷ rest) c
    → ConsumerOk (record q { read_position = q.read_position + 1 }) rest c
evicted-ConsumerOk q v rest Consumer.idle more h = tt
evicted-ConsumerOk q v rest Consumer.starting more h = tt
evicted-ConsumerOk q v rest (Consumer.loaded r) more h = inr (omega (arith, h), more)
evicted-ConsumerOk q v rest (taking r) more h = (omega (arith, h.0), more)
evicted-ConsumerOk q v rest (taken r u) more h = (more, inl (older h.1))
  where
    older : IsCurrent q (v ∷ rest) r u → r < q.read_position + 1
    older (inl old) = omega arith
    older (inr (here, rest', e)) = omega arith

-- The consumer takes the oldest value away.
pub popped-ProducerOk :
    (q : OverflowQueue) (v : ℕ) (rest : List ℕ) (p : Producer)
    → ProducerOk q (v ∷ rest) p
    → ProducerOk (record q { read_position = q.read_position + 1 }) rest p
popped-ProducerOk q v rest Producer.idle h = omega (arith, h)
popped-ProducerOk q v rest (starting x) h = omega (arith, h)
popped-ProducerOk q v rest (loaded x w) h = (h.0, omega (arith, h.1))
popped-ProducerOk q v rest (checked x w r is_full) (a, b, c, d, e) =
    (a, omega (arith, b), c, d, omega (arith, e))
popped-ProducerOk q v rest (written x w r is_full) (a, b, c, d, e, f) =
    (a, omega (arith, b), c, d, omega (arith, e), f)
popped-ProducerOk q v rest (evicting x r) h = (h.0, omega (arith, h.1))
popped-ProducerOk q v rest (evicted x r) h = omega (arith, h)

pub popped-in_hand :
    (q : OverflowQueue) (w : ℕ) (p : Producer)
    → in_hand (record q { read_position = w }) p ≡ in_hand q p
popped-in_hand q w Producer.idle = refl
popped-in_hand q w (starting x) = refl
popped-in_hand q w (loaded x y) = refl
popped-in_hand q w (checked x y r is_full) = refl
popped-in_hand q w (written x y r is_full) = refl
popped-in_hand q w (evicting x r) = refl
popped-in_hand q w (evicted x r) = refl

pub oldest :
    (q : OverflowQueue) (pending : List ℕ)
    → 0 < length pending
    → Holds 0 q.cells (q.capacity + 1) q.read_position pending
    → (rest : List ℕ) × (pending ≡ get_or q.cells (q.read_position % (q.capacity + 1)) 0 ∷ rest)
oldest q [] some_left h = absurd (omega (arith, some_left))
oldest q (x ∷ rest) some_left (here, _) = (rest, ap (λ y. y ∷ rest) (sym here))

pub begin_push-ProducerOk :
    (q : OverflowQueue) (pending : List ℕ) (v : ℕ) (p : Producer)
    → ProducerOk q pending p
    → ProducerOk q pending (begin_push v p) × (in_hand q (begin_push v p) ≡ in_hand q p)
unfolding begin_push
begin_push-ProducerOk q pending v Producer.idle h = (h, refl)
begin_push-ProducerOk q pending v (starting x) h = (h, refl)
begin_push-ProducerOk q pending v (loaded x w) h = (h, refl)
begin_push-ProducerOk q pending v (checked x w r is_full) h = (h, refl)
begin_push-ProducerOk q pending v (written x w r is_full) h = (h, refl)
begin_push-ProducerOk q pending v (evicting x r) h = (h, refl)
begin_push-ProducerOk q pending v (evicted x r) h = (h, refl)

pub begin_pop-ConsumerOk :
    (q : OverflowQueue) (pending : List ℕ) (c : Consumer)
    → ConsumerOk q pending c
    → ConsumerOk q pending (begin_pop c)
unfolding begin_pop
begin_pop-ConsumerOk q pending Consumer.idle h = tt
begin_pop-ConsumerOk q pending Consumer.starting h = h
begin_pop-ConsumerOk q pending (Consumer.loaded r) h = h
begin_pop-ConsumerOk q pending (taking r) h = h
begin_pop-ConsumerOk q pending (taken r v) h = h

-- A thread moves on without a change of the queue.
pub moved :
    {capacity n : ℕ} {q : OverflowQueue} {p : Producer} {c : Consumer}
    {pushed popped recycled : List ℕ} (inv : Inv capacity n q p c pushed popped recycled)
    (p' : Producer) (c' : Consumer)
    → in_hand q p' ≡ in_hand q p
    → ProducerOk q inv.pending p'
    → ConsumerOk q inv.pending c'
    → Inv capacity (n + 1) q p' c' pushed popped recycled
moved inv p' c' e hp hc = record {
  pending = inv.pending;
  same = inv.same;
  room = inv.room;
  positions = inv.positions;
  steps = omega (arith, inv.steps);
  conserved = λ a. rw e (inv.conserved a);
  held = inv.held;
  producer = hp;
  consumer = hc;
}
