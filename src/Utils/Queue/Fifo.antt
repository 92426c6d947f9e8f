-- ===== src/Utils/Queue/Fifo.antt =====
-- The queue of src/main/utils/queue.c implements a bounded first-in first-out list.
use nettle.Prelude.{
  ℕ, zero, suc, ◌+◌, ◌<◌, ◌≡◌, ◌⊎◌, inl, inr, refl, sym, ap, ap₂, ◌∙◌, arith, List, [], ◌∷◌, ◌++◌,
  Bool, true, false, Option, none, some, ltb, leb, ◌==◌, if◌then◌else◌, get_or, set, length,
  length-set, length-replicate,
}
use native.Mathlib.Decide.{dec_lt}
use nettle.Utils.Queue.{Queue, init, size, push, pop, next_entry}
use nettle.Utils.Queue.Ring.{
  IsQueue, collect, contents, next-lt, next-cases, length-collect, size-cases, size-lt, collect-set,
}

pub data Op : Type 0 where
  push_op : ℕ → Op
  pop_op : Op

pub data Answer : Type 0 where
  pushed : Bool → Answer
  popped : Option ℕ → Answer

-- One call on the ring.
unfoldable pub call : Op → Queue → Queue × Answer
call (push_op v) queue = let r = push queue v in (r.0, pushed r.1)
call pop_op queue = let r = pop queue in (r.0, popped r.1)

-- One call on a list of at most `capacity` values.
unfoldable pub fifo_call : ℕ → Op → List ℕ → List ℕ × Answer
fifo_call capacity (push_op v) xs =
    if ltb (length xs) capacity then (xs ++ v ∷ [], pushed true) else (xs, pushed false)
fifo_call capacity pop_op [] = ([], popped none)
fifo_call capacity pop_op (x ∷ xs) = (xs, popped (some x))

-- The answers to a sequence of calls.
unfoldable pub run : List Op → Queue → List Answer
run [] queue = []
run (op ∷ ops) queue = let r = call op queue in r.1 ∷ run ops r.0

unfoldable pub fifo_run : ℕ → List Op → List ℕ → List Answer
fifo_run capacity [] xs = []
fifo_run capacity (op ∷ ops) xs =
    let r = fifo_call capacity op xs in r.1 ∷ fifo_run capacity ops r.0

-- The size by where the ends are.
pub size_of :
    (queue : Queue) (n : ℕ)
    → IsQueue queue
    → n < queue.entry_num
    → ((queue.head + n ≡ queue.tail) ⊎ (queue.head + n ≡ queue.tail + queue.entry_num))
    → size queue ≡ n
size_of queue n w h at = elim (size-cases queue w) [
  | inl a ↦ elim at [ inl b ↦ omega arith | inr b ↦ absurd (omega arith) ]
  | inr a ↦ elim at [ inl b ↦ absurd (omega (arith, size-lt queue w)) | inr b ↦ omega arith ]
]

module _ (queue : Queue) (w : IsQueue queue) (v : ℕ) where
  abbrev advanced : Queue
  advanced = record {
    capacity = queue.capacity;
    entry_num = queue.entry_num;
    head = queue.head;
    tail = next_entry queue queue.tail;
    entries = set queue.entries queue.tail v;
  }

  advanced-IsQueue : IsQueue advanced
  advanced-IsQueue = record {
    one_more = w.one_more;
    head-lt = w.head-lt;
    tail-lt = next-lt queue.entry_num queue.tail w.tail-lt;
    room = length-set queue.entries queue.tail v ∙ w.room;
  }

  size-advanced : size queue < queue.capacity → size advanced ≡ suc (size queue)
  size-advanced h =
      size_of advanced (suc (size queue)) advanced-IsQueue (omega (arith, w.one_more))
        (elim (next-cases queue.entry_num queue.tail w.tail-lt) [
          | inl l ↦ elim (size-cases queue w) [
            | inl a ↦ inl (omega (arith, l))
            | inr a ↦ inr (omega (arith, l))
          ]
          | inr r ↦ elim (size-cases queue w) [
            | inl a ↦ inr (omega (arith, r))
            | inr a ↦ absurd (omega (arith, r, w.head-lt, w.one_more))
          ]
        ])

  contents-advanced : size queue < queue.capacity → contents advanced ≡ contents queue ++ v ∷ []
  contents-advanced h =
      ap (collect queue.entry_num (set queue.entries queue.tail v) queue.head) (size-advanced h)
      ∙ collect-set queue.entry_num (size queue) queue.head queue.tail v queue.entries w.head-lt
          w.tail-lt (size-lt queue w) w.room (size-cases queue w)

module _ (queue : Queue) (w : IsQueue queue) where
  abbrev popped_one : Queue
  popped_one = record {
    capacity = queue.capacity;
    entry_num = queue.entry_num;
    head = next_entry queue queue.head;
    tail = queue.tail;
    entries = queue.entries;
  }

  popped-IsQueue : IsQueue popped_one
  popped-IsQueue = record {
    one_more = w.one_more;
    head-lt = next-lt queue.entry_num queue.head w.head-lt;
    tail-lt = w.tail-lt;
    room = w.room;
  }

  size-popped : (n : ℕ) → size queue ≡ suc n → size popped_one ≡ n
  size-popped n e =
      size_of popped_one n popped-IsQueue (omega (arith, size-lt queue w))
        (elim (next-cases queue.entry_num queue.head w.head-lt) [
          | inl l ↦ elim (size-cases queue w) [
            | inl a ↦ inl (omega (arith, l))
            | inr a ↦ inr (omega (arith, l))
          ]
          | inr r ↦ elim (size-cases queue w) [
            | inl a ↦ absurd (omega (arith, r, w.tail-lt))
            | inr a ↦ inl (omega (arith, r))
          ]
        ])

  contents-popped :
      (n : ℕ)
      → size queue ≡ suc n
      → contents queue ≡ get_or queue.entries queue.head 0 ∷ contents popped_one
  unfolding collect
  contents-popped n e =
      ap (collect queue.entry_num queue.entries queue.head) e
      ∙ ap
          (λ k.
            get_or queue.entries queue.head 0
            ∷ collect queue.entry_num queue.entries (next_entry queue queue.head) k)
          (sym (size-popped n e))

-- What one call does, seen from the list.
pub record Matches (queue : Queue) (op : Op) : Type 0 where
  pub valid : IsQueue (call op queue).0
  pub same_capacity : (call op queue).0.capacity ≡ queue.capacity
  pub same_answer : (call op queue).1 ≡ (fifo_call queue.capacity op (contents queue)).1
  pub same_contents : contents (call op queue).0 ≡ (fifo_call queue.capacity op (contents queue)).0

push-Matches : (queue : Queue) (v : ℕ) → IsQueue queue → Matches queue (push_op v)
unfolding call fifo_call push
push-Matches queue v w = elim (dec_lt (size queue) queue.capacity) [
  | yes room ↦
      let b : leb queue.capacity (size queue) ≡ false = ground arith in
      let f : ltb (length (contents queue)) queue.capacity ≡ true =
        rw (length-collect queue.entry_num queue.head (size queue) queue.entries) (ground arith) in
      record {
        valid = rw b (advanced-IsQueue queue w v);
        same_capacity = rw b refl;
        same_answer = rw (b, f) refl;
        same_contents = rw (b, f) (contents-advanced queue w v room);
      }
  | no full ↦
      let b : leb queue.capacity (size queue) ≡ true = ground arith in
      let f : ltb (length (contents queue)) queue.capacity ≡ false =
        rw (length-collect queue.entry_num queue.head (size queue) queue.entries) (ground arith) in
      record {
        valid = rw b w;
        same_capacity = rw b refl;
        same_answer = rw (b, f) refl;
        same_contents = rw (b, f) refl;
      }
]

pop-Matches : (queue : Queue) (n : ℕ) → size queue ≡ n → IsQueue queue → Matches queue pop_op
unfolding call fifo_call pop collect
pop-Matches queue zero e w =
    let empty : contents queue ≡ [] = ap (collect queue.entry_num queue.entries queue.head) e in
    let b : (size queue == 0) ≡ true = ground arith in
    record {
      valid = rw b w;
      same_capacity = rw b refl;
      same_answer = rw (b, empty) refl;
      same_contents = rw (b, empty) refl;
    }
pop-Matches queue (suc n) e w =
    let first = contents-popped queue w n e in
    let b : (size queue == 0) ≡ false = ground arith in
    record {
      valid = rw b (popped-IsQueue queue w);
      same_capacity = rw b refl;
      same_answer = rw (b, first) refl;
      same_contents = rw (b, first) refl;
    }

pub call-Matches : (queue : Queue) (op : Op) → IsQueue queue → Matches queue op
call-Matches queue (push_op v) w = push-Matches queue v w
call-Matches queue pop_op w = pop-Matches queue (size queue) refl w

run-fifo_run :
    (ops : List Op) (queue : Queue)
    → IsQueue queue
    → run ops queue ≡ fifo_run queue.capacity ops (contents queue)
unfolding run fifo_run
run-fifo_run [] queue w = refl
run-fifo_run (op ∷ ops) queue w =
    let m = call-Matches queue op w in
    ap₂ (λ a r. a ∷ r) m.same_answer
      (run-fifo_run ops (call op queue).0 m.valid
        ∙ ap₂ (λ c xs. fifo_run c ops xs) m.same_capacity m.same_contents)

pub init-IsQueue : (capacity : ℕ) → IsQueue (init capacity)
unfolding init
init-IsQueue capacity = record {
  one_more = refl;
  head-lt = omega arith;
  tail-lt = omega arith;
  room = length-replicate {A = ℕ} (capacity + 1) 0;
}

-- A queue that `queue_init` makes answers every sequence of `queue_push` and `queue_pop` as a list of
-- at most `capacity` values does, first in first out, from the empty list.
pub run-init : (capacity : ℕ) (ops : List Op) → run ops (init capacity) ≡ fifo_run capacity ops []
unfolding init size collect
run-init capacity ops =
    run-fifo_run ops (init capacity) (init-IsQueue capacity)
    ∙ ap (fifo_run capacity ops) (
        ap (collect (capacity + 1) (init capacity).entries 0)
          (size_of (init capacity) 0 (init-IsQueue capacity) (omega arith) (inl refl)))
