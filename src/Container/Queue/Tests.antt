-- ===== src/Container/Queue/Tests.antt =====
-- The laws of the queue at a queue of capacity 2.
use iceoryx_in_rust.Prelude.{ℕ, refl, true, some, [], ◌∷◌, arith}
use iceoryx_in_rust.Container.Queue.{Queue, push, push_with_overflow}
use iceoryx_in_rust.Container.Queue.Fifo
use iceoryx_in_rust.Container.Queue.Refine.{
  Represents, Refines, queue_push-Refines, push_with_overflow-Refines,
}

-- It holds 5 and 6, the oldest in the last cell.
abbrev two : Queue ℕ
two = record {
  cells = some 6 ∷ some 5 ∷ [];
  capacity = 2;
  start = 3;
  len = 2;
  is_initialized = true;
}

two-Represents : Represents two (5 ∷ 6 ∷ [])
two-Represents = record {
  room = refl;
  ready = refl;
  count = refl;
  fits = omega arith;
  started = omega arith;
  no_wrap = omega arith;
  held = (refl, (refl, tt));
}

queue_push-Refines_example : Refines two (push two 9) (Fifo.push 2 (5 ∷ 6 ∷ []) 9)
queue_push-Refines_example = queue_push-Refines two (5 ∷ 6 ∷ []) 9 two-Represents (omega arith)

push_with_overflow-Refines_example :
    Refines two (push_with_overflow two 9) (Fifo.push_with_overflow 2 (5 ∷ 6 ∷ []) 9)
push_with_overflow-Refines_example =
    push_with_overflow-Refines two (5 ∷ 6 ∷ []) 9 two-Represents (omega arith) (omega arith)
