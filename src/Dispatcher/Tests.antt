-- ===== src/Dispatcher/Tests.antt =====
-- Runs of the worker.
use nettle.Prelude.{
  ℕ, zero, suc, ◌+◌, ◌-◌, ◌^◌, ◌≡◌, ◌≢◌, refl, arith, ltb, if◌then◌else◌, Bool, true, false, Option,
  none, some, [],
}
use nettle.Utils.Queue
use nettle.Dispatcher.Pool.{fill, pool_init, pool_new}
use nettle.Dispatcher.Worker.{
  Message, EventFd, Worker, worker_init, take_buffer, put_message, worker_send, send_in,
  send_queued, send_written, queued, signal, signalled, worker_message_count,
}
use nettle.Dispatcher.Worker.Steps.{
  Shared, hold, with_worker, Reach, started, begin_send, put, here, next,
}
use nettle.Dispatcher.Worker.Sound.{IsCounter, Step-ne-none, event-eq-count}
use nettle.Dispatcher.Worker.Calls.{worker_send-Reach}

abbrev counter_fd : EventFd ℕ
counter_fd = record {
  write = λ e. if ltb (e + 1) (2 ^ 64 - 1) then (suc e, true) else (e, false);
  read = λ e. elim e [ zero ↦ (0, none) | suc n ↦ (0, some (suc n)) ];
}

abbrev as_is : ℕ → ℕ
as_is e = e

counter_fd-IsCounter : IsCounter counter_fd as_is
counter_fd-IsCounter = record {
  write_counts = λ e h. (ground arith, ground arith);
  read_zero = λ e h. (ground arith, ground arith);
  read_all = λ e n h. (ground arith, ground arith);
}

abbrev pointer : ℕ → ℕ
pointer i = i + 100

abbrev note : Message
note = record { content = 7; free = 1 }

abbrev memory : ℕ → Message
memory p = note

abbrev new_worker : Worker ℕ
new_worker = worker_init counter_fd pointer memory 16 0 2

-- A sender has taken a buffer.
abbrev one_held : Shared ℕ
one_held = record (started new_worker) {
  worker = (take_buffer counter_fd new_worker).0;
  holding = hold (take_buffer counter_fd new_worker).1 [];
}

one_held-Reach : Reach counter_fd (started new_worker) one_held
one_held-Reach = next _ here (begin_send _ refl) refl

Step-ne-none_example :
    with_worker
      (record one_held { holding = []; writing = 1 })
      (put_message counter_fd one_held.worker 100 note)
    ≢ none
unfolding take_buffer worker_init pool_init pool_new fill Queue.init Queue.push Queue.pop Queue.size
Step-ne-none_example =
    Step-ne-none counter_fd as_is counter_fd-IsCounter 2 pointer memory 16 0 (omega arith) refl
      one_held-Reach (put [] [] 100 note _ refl refl)

event-eq-count_example :
    as_is one_held.worker.event ≡ worker_message_count counter_fd one_held.worker
event-eq-count_example =
    event-eq-count counter_fd as_is counter_fd-IsCounter 2 pointer memory 16 0 (omega arith) refl
      one_held-Reach refl refl

-- The worker after a message.
abbrev after_note : Option (Worker ℕ × Bool) → Worker ℕ
after_note none = new_worker
after_note (some (w, _)) = w

worker_send-Reach_example :
    Reach counter_fd
      (started new_worker)
      (started (after_note (worker_send counter_fd new_worker note)))
unfolding worker_send send_in send_queued send_written put_message queued signal signalled
    take_buffer worker_init pool_init pool_new fill Queue.init Queue.push Queue.pop Queue.size
worker_send-Reach_example = worker_send-Reach counter_fd (started new_worker) note _ true refl
