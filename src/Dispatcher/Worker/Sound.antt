-- ===== src/Dispatcher/Worker/Sound.antt =====
-- The counts that keep the checks of src/main/dispatcher/worker.c from failing.
use nettle.Prelude.{
  ℕ, zero, suc, ◌+◌, ◌-◌, ◌^◌, ◌<◌, ◌≡◌, ◌≢◌, refl, sym, ap, ◌∙◌, arith, Bool, true, false, Option,
  none, some, List, [], ◌∷◌, ◌++◌, length, length-append,
}
use mathlib.Core.Path.{subst}
use mathlib.Core.Option.{some-injective, none-ne-some}
use nettle.Utils.Queue.{size}
use nettle.Utils.Queue.Ring.{length-collect}
use nettle.Utils.Queue.View.{Holds, init-Holds, push-Holds, pop-Holds, pop-Holds_nil}
use nettle.Utils.ConcurrentQueue.{ConcurrentQueue}
use nettle.Dispatcher.Pool.{pool_new, pool_init}
use nettle.Dispatcher.Pool.Buffers.{fresh_from, length-fresh_from, pool_init-Holds, pool_free-Holds}
use nettle.Dispatcher.Worker.{
  Message, EventFd, Worker, worker_init, take_buffer, put_message, queued, signalled, signal,
  read_event, taken, take_message, free_message, given_back, worker_message_count,
}
use nettle.Dispatcher.Worker.Steps.{
  Shared, hold, rounds_of, with_worker, with_taken, Step, Reach, started, begin_send, put, write,
  wake, take_next, give_back, here, next,
}

-- What the documentation of eventfd says: it counts the writes, up to 2 ^ 64 - 2, and a read takes them all.
pub record IsCounter {E : Type 0} (fd : EventFd E) (counted : E → ℕ) : Type 0 where
  pub write_counts :
      (e : E)
      → counted e + 1 < 2 ^ 64 - 1
      → ((fd.write e).1 ≡ true) × (counted (fd.write e).0 ≡ suc (counted e))
  pub read_zero : (e : E) → counted e ≡ 0 → ((fd.read e).1 ≡ none) × (counted (fd.read e).0 ≡ 0)
  pub read_all :
      (e : E) (n : ℕ)
      → counted e ≡ suc n
      → ((fd.read e).1 ≡ some (suc n)) × (counted (fd.read e).0 ≡ 0)

module _ {E : Type 0} (fd : EventFd E) (counted : E → ℕ) (law : IsCounter fd counted)
    (capacity : ℕ) where
  -- Every buffer is in one place, and every message queued will be asked for.
  pub record IsSound (s : Shared E) : Type 0 where
    pub free : List ℕ
    pub waiting : List ℕ
    pub pool_view : Holds s.worker.pool.queue capacity free
    pub mq_view : Holds s.worker.mq capacity waiting
    pub total : length free + length s.holding + length waiting + length s.in_hand ≡ capacity
    pub signals : length waiting ≡ counted s.worker.event + s.rounds + s.writing

  -- A piece does not fail, and what it leaves is sound.
  abbrev Goes : Option (Shared E) → Type 0
  Goes r = (u : Shared E) × (r ≡ some u) × IsSound u

  begin-IsSound :
      (s : Shared E) (free : List ℕ) (v : IsSound s)
      → v.free ≡ free
      → IsSound (record s {
        worker = (take_buffer fd s.worker).0;
        holding = hold (take_buffer fd s.worker).1 s.holding;
      })
  unfolding take_buffer pool_new
  begin-IsSound s [] v e =
      let (none_left, p) = pop-Holds_nil s.worker.pool.queue capacity (rw (← e) v.pool_view) in
      record {
        free = [];
        waiting = v.waiting;
        pool_view = p;
        mq_view = v.mq_view;
        total = rw none_left (omega (arith, v.total, ap length e));
        signals = v.signals;
      }
  begin-IsSound s (m ∷ free) v e =
      let (first, p) = pop-Holds s.worker.pool.queue capacity m free (rw (← e) v.pool_view) in
      record {
        free = free;
        waiting = v.waiting;
        pool_view = p;
        mq_view = v.mq_view;
        total = rw first (omega (arith, v.total, ap length e));
        signals = v.signals;
      }

  queued-true :
      (worker : Worker E) (r : ConcurrentQueue × Bool)
      → r.1 ≡ true
      → queued fd worker r ≡ some (record worker { mq = r.0 })
  unfolding queued
  queued-true worker (mq, true) e = refl
  queued-true worker (mq, false) e = cc

  put-Goes :
      (s : Shared E) (before after : List ℕ) (m : ℕ) (message : Message)
      → IsSound s
      → s.holding ≡ before ++ (m ∷ after)
      → Goes (
          with_worker
            (record s { holding = before ++ after; writing = s.writing + 1 })
            (put_message fd s.worker m message))
  unfolding put_message
  put-Goes s before after m message v e =
      let held = ap length e ∙ length-append before (m ∷ after) in
      let (done, q) =
        push-Holds s.worker.mq capacity m v.waiting v.mq_view (omega (arith, v.total, held)) in
      (
        _,
        ap (with_worker (record s { holding = before ++ after; writing = s.writing + 1 }))
            (queued-true _ _ done),
        record {
          free = v.free;
          waiting = v.waiting ++ m ∷ [];
          pool_view = v.pool_view;
          mq_view = q;
          total =
              omega (
                arith,
                v.total,
                held,
                length-append v.waiting (m ∷ []),
                length-append before after,
              );
          signals = omega (arith, v.signals, length-append v.waiting (m ∷ []));
        },
      )

  signalled-true :
      (worker : Worker E) (r : E × Bool)
      → r.1 ≡ true
      → signalled fd worker r ≡ some (record worker { event = r.0 })
  unfolding signalled
  signalled-true worker (event, true) e = refl
  signalled-true worker (event, false) e = cc

  write-Goes :
      (s : Shared E) (writers : ℕ)
      → capacity < 2 ^ 64 - 1
      → IsSound s
      → s.writing ≡ suc writers
      → Goes (with_worker (record s { writing = writers }) (signal fd s.worker))
  unfolding signal
  write-Goes s writers small v e =
      let (done, more) = law.write_counts s.worker.event (omega (arith, v.total, v.signals, e)) in
      (
        _,
        ap (with_worker (record s { writing = writers })) (signalled-true _ _ done),
        record {
          free = v.free;
          waiting = v.waiting;
          pool_view = v.pool_view;
          mq_view = v.mq_view;
          total = v.total;
          signals = omega (arith, v.signals, more, e);
        },
      )

  wake-IsSound :
      (s : Shared E) (n : ℕ)
      → IsSound s
      → counted s.worker.event ≡ n
      → s.rounds ≡ 0
      → IsSound (record s {
        worker = (read_event fd s.worker).0;
        rounds = rounds_of (read_event fd s.worker).1;
      })
  unfolding read_event
  wake-IsSound s zero v e idle =
      let (nothing, left) = law.read_zero s.worker.event e in
      record {
        free = v.free;
        waiting = v.waiting;
        pool_view = v.pool_view;
        mq_view = v.mq_view;
        total = v.total;
        signals = rw nothing (omega (arith, v.signals, left, idle, e));
      }
  wake-IsSound s (suc n) v e idle =
      let (all, left) = law.read_all s.worker.event n e in
      record {
        free = v.free;
        waiting = v.waiting;
        pool_view = v.pool_view;
        mq_view = v.mq_view;
        total = v.total;
        signals = rw all (omega (arith, v.signals, left, idle, e));
      }

  taken-some :
      (worker : Worker E) (r : ConcurrentQueue × Option ℕ) (m : ℕ)
      → r.1 ≡ some m
      → taken fd worker r ≡ some (record worker { mq = r.0 }, m)
  unfolding taken
  taken-some worker (mq, none) m e = cc
  taken-some worker (mq, some x) m e = ground arith

  take-Goes :
      (s : Shared E) (rounds : ℕ) (waiting : List ℕ) (v : IsSound s)
      → v.waiting ≡ waiting
      → s.rounds ≡ suc rounds
      → s.in_hand ≡ []
      → Goes (with_taken (record s { rounds = rounds }) (take_message fd s.worker))
  unfolding take_message
  take-Goes s rounds [] v w e idle = absurd (omega (arith, v.signals, ap length w, e))
  take-Goes s rounds (m ∷ waiting) v w e idle =
      let (first, q) = pop-Holds s.worker.mq capacity m waiting (rw (← w) v.mq_view) in
      (
        _,
        ap (with_taken (record s { rounds = rounds })) (taken-some _ _ m first),
        record {
          free = v.free;
          waiting = waiting;
          pool_view = v.pool_view;
          mq_view = q;
          total = omega (arith, v.total, ap length w, ap length idle);
          signals = omega (arith, v.signals, ap length w, e);
        },
      )

  give-Goes :
      (s : Shared E) (m : ℕ)
      → IsSound s
      → s.in_hand ≡ m ∷ []
      → Goes (with_worker (record s { in_hand = [] }) (free_message fd s.worker m))
  unfolding free_message given_back
  give-Goes s m v e =
      let (done, p) =
        pool_free-Holds s.worker.pool capacity m v.free v.pool_view
          (omega (arith, v.total, ap length e)) in
      (
        _,
        ap (λ o. with_worker (record s { in_hand = [] }) (given_back fd s.worker o)) done,
        record {
          free = v.free ++ m ∷ [];
          waiting = v.waiting;
          pool_view = p;
          mq_view = v.mq_view;
          total = omega (arith, v.total, ap length e, length-append v.free (m ∷ []));
          signals = v.signals;
        },
      )

  Step-Goes :
      {s : Shared E} {r : Option (Shared E)}
      → Step fd s r
      → capacity < 2 ^ 64 - 1
      → IsSound s
      → Goes r
  Step-Goes {s} (begin_send r e) small v = (_, e, begin-IsSound s v.free v refl)
  Step-Goes {s} (put before after m message r h e) small v =
      let (u, f, w) = put-Goes s before after m message v h in (u, e ∙ f, w)
  Step-Goes {s} (write writers r h e) small v =
      let (u, f, w) = write-Goes s writers small v h in (u, e ∙ f, w)
  Step-Goes {s} (wake r h idle e) small v = (_, e, wake-IsSound s _ v refl h)
  Step-Goes {s} (take_next rounds r h idle e) small v =
      let (u, f, w) = take-Goes s rounds v.waiting v refl h idle in (u, e ∙ f, w)
  Step-Goes {s} (give_back m r h e) small v = let (u, f, w) = give-Goes s m v h in (u, e ∙ f, w)

  Reach-IsSound : {s t : Shared E} → capacity < 2 ^ 64 - 1 → IsSound s → Reach fd s t → IsSound t
  Reach-IsSound small v here = v
  Reach-IsSound small v (next r path step e) =
      let (u, f, w) = Step-Goes step small (Reach-IsSound small v path) in
      subst IsSound (some-injective _ _ (sym f ∙ e)) w

  module _ (fresh : ℕ → ℕ) (memory : ℕ → Message) (message_size : ℕ) (event : E)
      (small : capacity < 2 ^ 64 - 1) (quiet : counted event ≡ 0) where
    started-IsSound : IsSound (started (worker_init fd fresh memory message_size event capacity))
    unfolding worker_init pool_init
    started-IsSound = record {
      free = fresh_from fresh capacity 0;
      waiting = [];
      pool_view = pool_init-Holds fresh capacity message_size;
      mq_view = init-Holds capacity;
      total = omega (arith, length-fresh_from fresh capacity 0);
      signals = omega arith;
    }

    -- Whatever order the pieces of `worker_send`, in any number of threads, and of `callback` come in, from a new
    -- worker of less than 2 ^ 64 - 1 messages with a new eventfd, none of their checks fails: the queue takes every
    -- message, the write succeeds, every round finds a message and every buffer goes back.
    pub Step-ne-none :
        {t : Shared E} {r : Option (Shared E)}
        → Reach fd (started (worker_init fd fresh memory message_size event capacity)) t
        → Step fd t r
        → r ≢ none
    Step-ne-none path step =
        let (u, f, w) = Step-Goes step small (Reach-IsSound small started-IsSound path) in
        λ e. none-ne-some _ (sym e ∙ f)

    -- From such a start, when no sender has yet to write and `callback` has no round left, the eventfd counts as
    -- many as there are messages in the queue, so no message waits without a wake-up.
    pub event-eq-count :
        {t : Shared E}
        → Reach fd (started (worker_init fd fresh memory message_size event capacity)) t
        → t.writing ≡ 0
        → t.rounds ≡ 0
        → counted t.worker.event ≡ worker_message_count fd t.worker
    event-eq-count {t} path a b =
        let v = Reach-IsSound small started-IsSound path in
        omega (
          arith,
          v.signals,
          ap length v.mq_view.holds,
          length-collect t.worker.mq.entry_num t.worker.mq.head (size t.worker.mq)
              t.worker.mq.entries,
        )
