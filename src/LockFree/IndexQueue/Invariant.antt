-- ===== src/LockFree/IndexQueue/Invariant.antt =====
-- The invariant of the queue and its two threads, and that every access keeps it.
use iceoryx_in_rust.Prelude.{
  ℕ, suc, ◌+◌, ◌%◌, ◌^◌, ◌≤◌, ◌<◌, ◌≡◌, refl, sym, ◌∙◌, ap, subst, List, [], ◌∷◌, ◌++◌,
  append_assoc, arith, length, length-append, length-set, length-replicate, get_or, set, eq→==,
  ne→==, ℕ_discrete, get_or-set_self,
}
use native.Mathlib.Nat.{mod-lt}
use iceoryx_in_rust.Prelude.Word.{add_usize}
use iceoryx_in_rust.Ring.{Holds, Holds-set_ne, Holds-append, mod-ne}
use iceoryx_in_rust.LockFree.IndexQueue.{
  IndexQueue, new, Producer, starting, loaded, admitted, written, Consumer, taking, taken, at,
  produce, consume, log_push, log_pop, begin_push, begin_pop, System, Event, call_push, call_pop,
  run_producer, run_consumer, step, run, start,
}

-- What the locals of a call of `push` say about the queue, which holds `pending`.
abbrev pub ProducerOk : IndexQueue → List ℕ → Producer → Type 0
ProducerOk q pending (loaded v w) = w ≡ q.write_position
ProducerOk q pending (admitted v w) = (w ≡ q.write_position) × (length pending < q.capacity)
ProducerOk q pending (written v w) =
    (w ≡ q.write_position) × (length pending < q.capacity) × (get_or q.cells (w % q.capacity) 0 ≡ v)
ProducerOk q pending _ = Unit

-- What the locals of a call of `pop` say about the queue.
abbrev pub ConsumerOk : IndexQueue → List ℕ → Consumer → Type 0
ConsumerOk q pending (Consumer.loaded r) = r ≡ q.read_position
ConsumerOk q pending (taking r) = (r ≡ q.read_position) × (0 < length pending)
ConsumerOk q pending (taken r v) = (r ≡ q.read_position) × (rest : List ℕ) × (pending ≡ v ∷ rest)
ConsumerOk q pending _ = Unit

-- After at most `n` events: the values that were pushed and not yet popped lie in the cells from the
-- read position up to the write position, and nothing has wrapped around.
pub record Inv (capacity n : ℕ) (q : IndexQueue) (p : Producer) (c : Consumer)
    (pushed popped : List ℕ) : Type 0 where
  pub pending : List ℕ
  pub same : q.capacity ≡ capacity
  pub room : length q.cells ≡ q.capacity
  pub count : q.write_position ≡ q.read_position + length pending
  pub fits : length pending ≤ q.capacity
  pub steps : q.write_position ≤ n
  pub order : pushed ≡ popped ++ pending
  pub held : Holds 0 q.cells q.capacity q.read_position pending
  pub producer : ProducerOk q pending p
  pub consumer : ConsumerOk q pending c

start-Inv : (capacity : ℕ) → Inv capacity 0 (new capacity) Producer.idle Consumer.idle [] []
unfolding new
start-Inv capacity = record {
  pending = [];
  same = refl;
  room = length-replicate capacity 0;
  count = omega arith;
  fits = omega arith;
  steps = omega arith;
  order = refl;
  held = tt;
  producer = tt;
  consumer = tt;
}

written-ConsumerOk :
    (q : IndexQueue) (cells : List ℕ) (pending : List ℕ) (c : Consumer)
    → ConsumerOk q pending c
    → ConsumerOk (record q { cells = cells }) pending c
written-ConsumerOk q cells pending Consumer.idle h = tt
written-ConsumerOk q cells pending Consumer.starting h = tt
written-ConsumerOk q cells pending (Consumer.loaded r) h = h
written-ConsumerOk q cells pending (taking r) h = h
written-ConsumerOk q cells pending (taken r v) h = h

-- More values arrive behind the ones that the consumer looks at.
longer-ConsumerOk :
    (q : IndexQueue) (w v : ℕ) (pending : List ℕ) (c : Consumer)
    → ConsumerOk q pending c
    → ConsumerOk (record q { write_position = w }) (pending ++ (v ∷ [])) c
longer-ConsumerOk q w v pending Consumer.idle h = tt
longer-ConsumerOk q w v pending Consumer.starting h = tt
longer-ConsumerOk q w v pending (Consumer.loaded r) h = h
longer-ConsumerOk q w v pending (taking r) h =
    (h.0, omega (arith, h.1, length-append pending (v ∷ [])))
longer-ConsumerOk q w v pending (taken r u) h =
    (h.0, h.1 ++ (v ∷ []), ap (λ xs. xs ++ (v ∷ [])) h.2)

-- Fewer values leave the producer more room.
shorter-ProducerOk :
    (q : IndexQueue) (r v : ℕ) (rest : List ℕ) (p : Producer)
    → ProducerOk q (v ∷ rest) p
    → ProducerOk (record q { read_position = r }) rest p
shorter-ProducerOk q r v rest Producer.idle h = tt
shorter-ProducerOk q r v rest (starting x) h = tt
shorter-ProducerOk q r v rest (loaded x w) h = h
shorter-ProducerOk q r v rest (admitted x w) h = (h.0, omega (arith, h.1))
shorter-ProducerOk q r v rest (written x w) h = (h.0, omega (arith, h.1), h.2)

-- The value at the read position is the oldest one.
oldest :
    (q : IndexQueue) (pending : List ℕ)
    → 0 < length pending
    → Holds 0 q.cells q.capacity q.read_position pending
    → (rest : List ℕ) × (pending ≡ get_or q.cells (at q q.read_position) 0 ∷ rest)
oldest q [] h held = absurd (omega arith)
oldest q (v ∷ rest) h held = (rest, ap (λ x. x ∷ rest) (sym held.0))

module _ {capacity n : ℕ} (small : n + capacity + 1 < 2 ^ 64) where
  -- A thread moves on without a change of the queue.
  moved :
      {q : IndexQueue} {p : Producer} {c : Consumer} {pushed popped : List ℕ}
      (inv : Inv capacity n q p c pushed popped) (p' : Producer) (c' : Consumer)
      → ProducerOk q inv.pending p'
      → ConsumerOk q inv.pending c'
      → Inv capacity (n + 1) q p' c' pushed popped
  moved inv p' c' hp hc = record {
    pending = inv.pending;
    same = inv.same;
    room = inv.room;
    count = inv.count;
    fits = inv.fits;
    steps = omega (arith, inv.steps);
    order = inv.order;
    held = inv.held;
    producer = hp;
    consumer = hc;
  }

  produce-Inv :
      (q : IndexQueue) (p : Producer) (c : Consumer) (pushed popped : List ℕ)
      → Inv capacity n q p c pushed popped
      → Inv capacity
          (n + 1)
          (produce q p).1
          (produce q p).0
          c
          (log_push (produce q p).2 pushed)
          popped
  unfolding produce log_push
  produce-Inv q Producer.idle c pushed popped inv = moved inv Producer.idle c tt inv.consumer
  produce-Inv q (starting v) c pushed popped inv =
      moved inv (loaded v q.write_position) c refl inv.consumer
  produce-Inv q (loaded v w) c pushed popped inv =
      let e : add_usize q.read_position q.capacity ≡ q.read_position + q.capacity =
        omega (arith, inv.count, inv.steps, inv.same) in
      rw e (elim (ℕ_discrete w (q.read_position + q.capacity)) [
        | yes full ↦
            rw (eq→== w (q.read_position + q.capacity) full)
              (moved inv Producer.idle c tt inv.consumer)
        | no less ↦ rw (ne→== w (q.read_position + q.capacity) less) (
            moved inv (admitted v w) c
              (inv.producer, omega (arith, inv.producer, inv.count, inv.fits)) inv.consumer)
      ])
  produce-Inv q (admitted v w) c pushed popped inv =
      let (here, less) = inv.producer in
      record {
        pending = inv.pending;
        same = inv.same;
        room = omega (arith, inv.room, length-set q.cells (w % q.capacity) v);
        count = inv.count;
        fits = inv.fits;
        steps = omega (arith, inv.steps);
        order = inv.order;
        held =
            Holds-set_ne 0 q.cells q.capacity q.read_position w v inv.pending
              (λ i below above.
                mod-ne i w q.capacity (omega (arith, here, inv.count))
                  (omega (arith, here, inv.count)))
              inv.held;
        producer = (
          here,
          less,
          get_or-set_self q.cells (w % q.capacity) v 0
              (omega (arith, inv.room, mod-lt w {m = q.capacity} (omega arith))),
        );
        consumer = written-ConsumerOk q (set q.cells (w % q.capacity) v) inv.pending c inv.consumer;
      }
  produce-Inv q (written v w) c pushed popped inv =
      let (here, less, cell) = inv.producer in
      let e : add_usize w 1 ≡ w + 1 = omega (arith, here, inv.steps) in
      let f : q.read_position + length inv.pending ≡ w = omega (arith, here, inv.count) in
      rw e (record {
        pending = inv.pending ++ (v ∷ []);
        same = inv.same;
        room = inv.room;
        count = omega (arith, here, inv.count, length-append inv.pending (v ∷ []));
        fits = omega (arith, less, length-append inv.pending (v ∷ []));
        steps = omega (arith, here, inv.steps);
        order = ap (λ xs. xs ++ (v ∷ [])) inv.order ∙ append_assoc popped inv.pending (v ∷ []);
        held =
            Holds-append 0 q.cells q.capacity q.read_position inv.pending (v ∷ []) inv.held
              (rw f (cell, tt));
        producer = tt;
        consumer = longer-ConsumerOk q (w + 1) v inv.pending c inv.consumer;
      })

  consume-Inv :
      (q : IndexQueue) (p : Producer) (c : Consumer) (pushed popped : List ℕ)
      → Inv capacity n q p c pushed popped
      → Inv capacity
          (n + 1)
          (consume q c).1
          p
          (consume q c).0
          pushed
          (log_pop (consume q c).2 popped)
  unfolding consume log_pop
  consume-Inv q p Consumer.idle pushed popped inv = moved inv p Consumer.idle inv.producer tt
  consume-Inv q p Consumer.starting pushed popped inv =
      moved inv p (Consumer.loaded q.read_position) inv.producer refl
  consume-Inv q p (Consumer.loaded r) pushed popped inv = elim (ℕ_discrete r q.write_position) [
    | yes empty ↦ rw (eq→== r q.write_position empty) (moved inv p Consumer.idle inv.producer tt)
    | no more ↦
        rw (ne→== r q.write_position more) (
          moved inv p (taking r) inv.producer
            (inv.consumer, omega (arith, inv.consumer, inv.count)))
  ]
  consume-Inv q p (taking r) pushed popped inv =
      let (here, some_left) = inv.consumer in
      let (rest, e) = oldest q inv.pending some_left inv.held in
      moved inv p (taken r (get_or q.cells (at q r) 0)) inv.producer
        (here, rest, let f : r ≡ q.read_position = here in rw f e)
  consume-Inv q p (taken r v) pushed popped inv =
      let (here, rest, e) = inv.consumer in
      let f : add_usize r 1 ≡ q.read_position + 1 = omega (arith, here, inv.steps, inv.count) in
      rw f (record {
        pending = rest;
        same = inv.same;
        room = inv.room;
        count = omega (arith, inv.count, ap length e);
        fits = omega (arith, inv.fits, ap length e);
        steps = omega (arith, inv.steps);
        order = inv.order ∙ ap (λ xs. popped ++ xs) e ∙ sym (append_assoc popped (v ∷ []) rest);
        held = (subst (Holds 0 q.cells q.capacity q.read_position) e inv.held).1;
        producer =
            shorter-ProducerOk q (q.read_position + 1) v rest p
              (subst (λ xs. ProducerOk q xs p) e inv.producer);
        consumer = tt;
      })

begin_push-ProducerOk :
    (q : IndexQueue) (pending : List ℕ) (v : ℕ) (p : Producer)
    → ProducerOk q pending p
    → ProducerOk q pending (begin_push v p)
unfolding begin_push
begin_push-ProducerOk q pending v Producer.idle h = tt
begin_push-ProducerOk q pending v (starting x) h = h
begin_push-ProducerOk q pending v (loaded x w) h = h
begin_push-ProducerOk q pending v (admitted x w) h = h
begin_push-ProducerOk q pending v (written x w) h = h

begin_pop-ConsumerOk :
    (q : IndexQueue) (pending : List ℕ) (c : Consumer)
    → ConsumerOk q pending c
    → ConsumerOk q pending (begin_pop c)
unfolding begin_pop
begin_pop-ConsumerOk q pending Consumer.idle h = tt
begin_pop-ConsumerOk q pending Consumer.starting h = h
begin_pop-ConsumerOk q pending (Consumer.loaded r) h = h
begin_pop-ConsumerOk q pending (taking r) h = h
begin_pop-ConsumerOk q pending (taken r v) h = h

abbrev pub SystemInv : ℕ → ℕ → System → Type 0
SystemInv capacity n s = Inv capacity n s.queue s.producer s.consumer s.pushed s.popped

step-Inv :
    {capacity n : ℕ} (e : Event) (s : System)
    → n + capacity + 1 < 2 ^ 64
    → SystemInv capacity n s
    → SystemInv capacity (n + 1) (step e s)
unfolding step
step-Inv (call_push v) s small inv =
    moved small inv (begin_push v s.producer) s.consumer
      (begin_push-ProducerOk s.queue inv.pending v s.producer inv.producer) inv.consumer
step-Inv call_pop s small inv =
    moved small inv s.producer (begin_pop s.consumer) inv.producer
      (begin_pop-ConsumerOk s.queue inv.pending s.consumer inv.consumer)
step-Inv run_producer s small inv =
    produce-Inv small s.queue s.producer s.consumer s.pushed s.popped inv
step-Inv run_consumer s small inv =
    consume-Inv small s.queue s.producer s.consumer s.pushed s.popped inv

run-Inv_from :
    {capacity : ℕ} (es : List Event) (n : ℕ) (s : System)
    → n + length es + capacity < 2 ^ 64
    → SystemInv capacity n s
    → SystemInv capacity (n + length es) (run es s)
unfolding run
run-Inv_from [] n s small inv = let e : n + 0 ≡ n = omega arith in rw e inv
run-Inv_from (e ∷ es) n s small inv =
    let f : n + suc (length es) ≡ n + 1 + length es = omega arith in
    rw f (run-Inv_from es (n + 1) (step e s) (omega arith) (step-Inv e s (omega arith) inv))

pub run-Inv :
    (capacity : ℕ) (es : List Event)
    → length es + capacity < 2 ^ 64
    → SystemInv capacity (length es) (run es (start capacity))
unfolding start
run-Inv capacity es small =
    let f : 0 + length es ≡ length es = omega arith in
    rw f at (run-Inv_from es 0 (start capacity) (omega arith) (start-Inv capacity))
