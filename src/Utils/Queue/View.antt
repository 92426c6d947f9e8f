-- ===== src/Utils/Queue/View.antt =====
-- The queue of src/main/utils/queue.c as the list of its values, for the clients that count them.
use nettle.Prelude.{
  ℕ, ◌+◌, ◌<◌, ◌≡◌, refl, ap, ◌∙◌, arith, List, [], ◌∷◌, ◌++◌, true, false, Option, none, some, ltb,
  length, inl, Bool,
}
use nettle.Utils.Queue.{Queue, init, push, pop}
use nettle.Utils.Queue.Ring.{IsQueue, collect, contents}
use nettle.Utils.Queue.Fifo.{
  push_op, pop_op, Answer, pushed, popped, call, fifo_call, call-Matches, init-IsQueue, size_of,
}

-- The queue holds these values, and at most `capacity`.
pub record Holds (queue : Queue) (capacity : ℕ) (xs : List ℕ) : Type 0 where
  pub valid : IsQueue queue
  pub same_capacity : queue.capacity ≡ capacity
  pub holds : contents queue ≡ xs

-- The answer of a push and of a pop.
abbrev pushed? : Answer → Bool
pushed? (pushed b) = b
pushed? (popped _) = false

abbrev popped? : Answer → Option ℕ
popped? (pushed b) = none
popped? (popped o) = o

pub init-Holds : (capacity : ℕ) → Holds (init capacity) capacity []
unfolding init collect
init-Holds capacity = record {
  valid = init-IsQueue capacity;
  same_capacity = refl;
  holds =
      ap (collect (capacity + 1) (init capacity).entries 0)
        (size_of (init capacity) 0 (init-IsQueue capacity) (omega arith) (inl refl));
}

pub push-Holds :
    (queue : Queue) (capacity v : ℕ) (xs : List ℕ)
    → Holds queue capacity xs
    → length xs < capacity
    → ((push queue v).1 ≡ true) × Holds (push queue v).0 capacity (xs ++ v ∷ [])
unfolding call fifo_call
push-Holds queue capacity v xs w h =
    let m = call-Matches queue (push_op v) w.valid in
    let room : ltb (length (contents queue)) queue.capacity ≡ true =
      rw (w.holds, w.same_capacity) (ground arith) in
    (
      ap pushed? m.same_answer ∙ rw room refl,
      record {
        valid = m.valid;
        same_capacity = m.same_capacity ∙ w.same_capacity;
        holds = m.same_contents ∙ rw (room, w.holds) refl;
      },
    )

pub pop-Holds :
    (queue : Queue) (capacity x : ℕ) (xs : List ℕ)
    → Holds queue capacity (x ∷ xs)
    → ((pop queue).1 ≡ some x) × Holds (pop queue).0 capacity xs
unfolding call fifo_call
pop-Holds queue capacity x xs w =
    let m = call-Matches queue pop_op w.valid in
    (
      ap popped? m.same_answer ∙ rw w.holds refl,
      record {
        valid = m.valid;
        same_capacity = m.same_capacity ∙ w.same_capacity;
        holds = m.same_contents ∙ rw w.holds refl;
      },
    )

pub pop-Holds_nil :
    (queue : Queue) (capacity : ℕ)
    → Holds queue capacity []
    → ((pop queue).1 ≡ none) × Holds (pop queue).0 capacity []
unfolding call fifo_call
pop-Holds_nil queue capacity w =
    let m = call-Matches queue pop_op w.valid in
    (
      ap popped? m.same_answer ∙ rw w.holds refl,
      record {
        valid = m.valid;
        same_capacity = m.same_capacity ∙ w.same_capacity;
        holds = m.same_contents ∙ rw w.holds refl;
      },
    )
