-- ===== src/Dispatcher/Worker/Steps.antt =====
-- The steps of the threads that share the worker of src/main/dispatcher/worker.c: any number of senders, each of
-- them in a call of `worker_send`, and the one thread that runs `callback`.
use nettle.Prelude.{ℕ, suc, ◌+◌, ◌≡◌, Option, none, some, List, [], ◌∷◌, ◌++◌}
use nettle.Dispatcher.Worker.{
  Message, EventFd, Worker, take_buffer, put_message, signal, read_event, take_message,
  free_message,
}

-- The worker, with what the threads are about to do: the buffers of the senders that have to put a message in,
-- the number of the senders that have to write, the rounds that `callback` has left, and the
-- buffer that it works on.
pub record Shared (E : Type 0) : Type 0 where
  pub worker : Worker E
  pub holding : List ℕ
  pub writing : ℕ
  pub rounds : ℕ
  pub in_hand : List ℕ

-- What a sender has after the first piece.
abbrev pub hold : Option ℕ → List ℕ → List ℕ
hold none holding = holding
hold (some m) holding = m ∷ holding

-- What `callback` has after its `read`.
abbrev pub rounds_of : Option ℕ → ℕ
rounds_of none = 0
rounds_of (some num) = num

-- A worker after a piece that can fail, in the place of the old one.
abbrev pub with_worker : {E : Type 0} → Shared E → Option (Worker E) → Option (Shared E)
with_worker s none = none
with_worker s (some worker) = some (record s { worker = worker })

-- The worker after the pop, and the buffer.
abbrev pub with_taken : {E : Type 0} → Shared E → Option (Worker E × ℕ) → Option (Shared E)
with_taken s none = none
with_taken s (some (worker, m)) = some (record s { worker = worker; in_hand = m ∷ [] })

module _ {E : Type 0} (fd : EventFd E) where
  -- One piece of a thread; `none` is a failed `ensure`. Any sender may be next.
  pub data Step (s : Shared E) : Option (Shared E) → Type 0 where
    begin_send :
        (r : Option (Shared E))
        → r
          ≡ some (record s {
            worker = (take_buffer fd s.worker).0;
            holding = hold (take_buffer fd s.worker).1 s.holding;
          })
        → Step s r
    put :
        (before after : List ℕ) (m : ℕ) (message : Message) (r : Option (Shared E))
        → s.holding ≡ before ++ (m ∷ after)
        → r
          ≡ with_worker
              (record s { holding = before ++ after; writing = s.writing + 1 })
              (put_message fd s.worker m message)
        → Step s r
    write :
        (writers : ℕ) (r : Option (Shared E))
        → s.writing ≡ suc writers
        → r ≡ with_worker (record s { writing = writers }) (signal fd s.worker)
        → Step s r
    wake :
        (r : Option (Shared E))
        → s.rounds ≡ 0
        → s.in_hand ≡ []
        → r
          ≡ some (record s {
            worker = (read_event fd s.worker).0;
            rounds = rounds_of (read_event fd s.worker).1;
          })
        → Step s r
    take_next :
        (rounds : ℕ) (r : Option (Shared E))
        → s.rounds ≡ suc rounds
        → s.in_hand ≡ []
        → r ≡ with_taken (record s { rounds = rounds }) (take_message fd s.worker)
        → Step s r
    give_back :
        (m : ℕ) (r : Option (Shared E))
        → s.in_hand ≡ m ∷ []
        → r ≡ with_worker (record s { in_hand = [] }) (free_message fd s.worker m)
        → Step s r

  -- The states that threads can bring about from one.
  pub data Reach (s : Shared E) : Shared E → Type 0 where
    here : Reach s s
    next : {t u : Shared E} (r : Option (Shared E)) → Reach s t → Step t r → r ≡ some u → Reach s u

-- The state after `worker_init`.
abbrev pub started : {E : Type 0} → Worker E → Shared E
started worker = record { worker = worker; holding = []; writing = 0; rounds = 0; in_hand = [] }
