-- ===== src/Dispatcher/Worker.antt =====
-- The worker of src/main/dispatcher/worker.h and src/main/dispatcher/worker.c, which gets messages from other
-- threads. The system's eventfd is a parameter that changes a state `E`. The pieces of `worker_send` and of
-- `callback` that other threads can come between are functions of their own. A failed `ensure` is
-- `none`.
pub mod Steps
pub mod Sound
pub mod Calls
use nettle.Prelude.{
  ℕ, zero, suc, ◌+◌, ◌-◌, ◌<◌, ◌^◌, ◌≡◌, Bool, true, false, Option, none, some, ◌==◌, if◌then◌else◌,
}
use nettle.Utils.ConcurrentQueue.{
  ConcurrentQueue, conqueue_init, conqueue_size, conqueue_push, conqueue_pop,
}
use nettle.Dispatcher.Pool.{Pool, pool_init, pool_new, pool_free}

-- `message_t`; the function `free` is its number.
pub record Message : Type 0 where
  pub content : ℕ
  pub free : ℕ

-- `write` of the number 1 to an eventfd, and `read` of its number; they tell whether the call succeeded.
pub record EventFd (E : Type 0) : Type 0 where
  pub write : E → E × Bool
  pub read : E → E × Option ℕ

-- `worker_t`, with the memory of the messages' buffers.
pub record Worker (E : Type 0) : Type 0 where
  pub mq : ConcurrentQueue
  pub pool : Pool
  pub mq_capacity : ℕ
  pub memory : ℕ → Message
  pub event : E

module _ {E : Type 0} (fd : EventFd E) where
  -- `worker_init`, where the eventfd is new and `message_size` is `sizeof(message_t)`.
  unfoldable pub worker_init : (ℕ → ℕ) → (ℕ → Message) → ℕ → E → ℕ → Worker E
  worker_init fresh memory message_size event mq_capacity = record {
    mq = conqueue_init mq_capacity;
    pool = pool_init fresh mq_capacity message_size;
    mq_capacity = mq_capacity;
    memory = memory;
    event = event;
  }

  -- The first piece of `worker_send`
  unfoldable pub take_buffer : Worker E → Worker E × Option ℕ
  take_buffer worker = let r = pool_new worker.pool in (record worker { pool = r.0 }, r.1)

  -- What `worker_send` does with the result of the push.
  unfoldable pub queued : Worker E → ConcurrentQueue × Bool → Option (Worker E)
  queued worker (mq, true) = some (record worker { mq = mq })
  queued worker (mq, false) = none

  -- The second piece: the message is written to its buffer and queued.
  unfoldable pub put_message : Worker E → ℕ → Message → Option (Worker E)
  put_message worker m message =
      queued (record worker { memory = λ p. if p == m then message else worker.memory p })
        (conqueue_push worker.mq m)

  -- What `worker_send` does with the result of `write`.
  unfoldable pub signalled : Worker E → E × Bool → Option (Worker E)
  signalled worker (event, true) = some (record worker { event = event })
  signalled worker (event, false) = none

  -- The third piece
  unfoldable pub signal : Worker E → Option (Worker E)
  signal worker = signalled worker (fd.write worker.event)

  -- What `worker_send` returns after the write.
  unfoldable pub send_written : Option (Worker E) → Option (Worker E × Bool)
  send_written none = none
  send_written (some worker) = some (worker, true)

  -- What it does after the push.
  unfoldable pub send_queued : Option (Worker E) → Option (Worker E × Bool)
  send_queued none = none
  send_queued (some worker) = send_written (signal worker)

  -- What it does with a buffer.
  unfoldable pub send_in : Worker E → Option ℕ → Message → Option (Worker E × Bool)
  send_in worker none message = some (worker, false)
  send_in worker (some m) message = send_queued (put_message worker m message)

  -- `worker_send`
  unfoldable pub worker_send : Worker E → Message → Option (Worker E × Bool)
  worker_send worker message = let r = take_buffer worker in send_in r.0 r.1 message

  -- `worker_message_count`
  abbrev pub worker_message_count : Worker E → ℕ
  worker_message_count worker = conqueue_size worker.mq

  -- The `read` of `callback`
  unfoldable pub read_event : Worker E → Worker E × Option ℕ
  read_event worker = let r = fd.read worker.event in (record worker { event = r.0 }, r.1)

  -- What the loop of `callback` does with the result of the pop.
  unfoldable pub taken : Worker E → ConcurrentQueue × Option ℕ → Option (Worker E × ℕ)
  taken worker (mq, none) = none
  taken worker (mq, some m) = some (record worker { mq = mq }, m)

  -- `ensure(conqueue_pop(...))`
  unfoldable pub take_message : Worker E → Option (Worker E × ℕ)
  take_message worker = taken worker (conqueue_pop worker.mq)

  -- The worker with what `pool_free` leaves.
  unfoldable pub given_back : Worker E → Option Pool → Option (Worker E)
  given_back worker none = none
  given_back worker (some pool) = some (record worker { pool = pool })

  -- `pool_free(msg)`
  unfoldable pub free_message : Worker E → ℕ → Option (Worker E)
  free_message worker m = given_back worker (pool_free worker.pool m)

  module _ {S : Type 0} (on_message : S → ℕ → Option S) (free : ℕ → S → ℕ → Option S) where
    -- `on_message` and `free` of the message in a buffer.
    unfoldable pub handle : Message → S → Option S
    handle message s = elim (on_message s message.content) [
      | none ↦ none
      | some s' ↦ free message.free s' message.content
    ]

    -- The loop of `callback` for the rounds that are left.
    unfoldable pub callback_loop : ℕ → Worker E → S → Option (Worker E × S)
    callback_loop zero worker s = some (worker, s)
    callback_loop (suc rounds) worker s = elim (take_message worker) [
      | none ↦ none
      | some (worker', m) ↦ elim (handle (worker'.memory m) s) [
        | none ↦ none
        | some s' ↦ elim (free_message worker' m) [
          | none ↦ none
          | some worker'' ↦ callback_loop rounds worker'' s'
        ]
      ]
    ]

    -- `callback`
    unfoldable pub callback : Worker E → S → Option (Worker E × S)
    callback worker s =
        let r = read_event worker in
        elim r.1 [ none ↦ some (r.0, s) | some num ↦ callback_loop num r.0 s ]
