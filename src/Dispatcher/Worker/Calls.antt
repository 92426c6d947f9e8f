-- ===== src/Dispatcher/Worker/Calls.antt =====
-- The whole calls of src/main/dispatcher/worker.c are sequences of the steps.
use nettle.Prelude.{ℕ, ◌+◌, ◌≡◌, refl, ap, arith, Bool, Option, none, some, [], ◌∷◌}
use mathlib.Core.Path.{subst}
use mathlib.Core.Option.{some-injective, none-ne-some}
use nettle.Dispatcher.Worker.{
  Message, EventFd, Worker, take_buffer, put_message, signal, send_in, send_queued, send_written,
  worker_send,
}
use nettle.Dispatcher.Worker.Steps.{Shared, hold, with_worker, Reach, begin_send, put, write, here}

module _ {E : Type 0} (fd : EventFd E) where
  send_written-Reach :
      (s : Shared E) (worker : Worker E) (o : Option (Worker E)) (w : Worker E) (b : Bool)
      → Reach fd s (record s { worker = worker; writing = s.writing + 1 })
      → signal fd worker ≡ o
      → send_written fd o ≡ some (w, b)
      → Reach fd s (record s { worker = w })
  unfolding send_written
  send_written-Reach s worker none w b path f e = absurd (none-ne-some _ e)
  send_written-Reach s worker (some worker') w b path f e =
      subst (λ x. Reach fd s (record s { worker = x }))
        (ap (λ (x : Worker E × Bool). x.0) (some-injective _ _ e))
        (Reach.next _ path (write s.writing _ (omega arith) refl) (ap (with_worker s) f))

  send_queued-Reach :
      (s : Shared E) (worker : Worker E) (m : ℕ) (message : Message) (o : Option (Worker E))
      (w : Worker E) (b : Bool)
      → Reach fd s (record s { worker = worker; holding = m ∷ s.holding })
      → put_message fd worker m message ≡ o
      → send_queued fd o ≡ some (w, b)
      → Reach fd s (record s { worker = w })
  unfolding send_queued
  send_queued-Reach s worker m message none w b path f e = absurd (none-ne-some _ e)
  send_queued-Reach s worker m message (some worker') w b path f e =
      send_written-Reach s worker' _ w b
        (Reach.next _ path (put [] s.holding m message _ refl refl)
          (ap (with_worker (record s { writing = s.writing + 1 })) f))
        refl e

  send_in-Reach :
      (s : Shared E) (worker : Worker E) (buffer : Option ℕ) (message : Message) (w : Worker E)
      (b : Bool)
      → Reach fd s (record s { worker = worker; holding = hold buffer s.holding })
      → send_in fd worker buffer message ≡ some (w, b)
      → Reach fd s (record s { worker = w })
  unfolding send_in
  send_in-Reach s worker none message w b path e =
      subst (λ x. Reach fd s (record s { worker = x }))
        (ap (λ (x : Worker E × Bool). x.0) (some-injective _ _ e)) path
  send_in-Reach s worker (some m) message w b path e =
      send_queued-Reach s worker m message _ w b path refl e

  -- A call of `worker_send` that no other thread comes between is a sequence of the steps: what it leaves, the
  -- threads' steps reach.
  pub worker_send-Reach :
      (s : Shared E) (message : Message) (w : Worker E) (b : Bool)
      → worker_send fd s.worker message ≡ some (w, b)
      → Reach fd s (record s { worker = w })
  unfolding worker_send
  worker_send-Reach s message w b e =
      send_in-Reach s (take_buffer fd s.worker).0 (take_buffer fd s.worker).1 message w b
        (Reach.next _ here (begin_send _ refl) refl) e
