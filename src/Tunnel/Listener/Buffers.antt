-- ===== src/Tunnel/Listener/Buffers.antt =====
-- Where the buffers of the readers of src/main/tunnel/nt_listener.c go.
use nettle.Prelude.{
  ℕ, zero, suc, ◌+◌, ◌%◌, ◌<◌, ◌≡◌, ◌≢◌, ◌⊎◌, inl, inr, refl, sym, ◌∙◌, ap, arith, Bool, true,
  false, Bool-cases, Option, none, some, List, [], ◌∷◌, ◌++◌, length, set, ◌==◌,
}
use native.Mathlib.Nat.{mod-lt}
use nettle.Utils.Queue.View.{Holds, pop-Holds}
use nettle.Dispatcher.Counters.{Counter}
use nettle.Dispatcher.Pool.{pool_new}
use nettle.Dispatcher.Pool.Buffers.{pool_free-Holds}
use nettle.Dispatcher.Udp.{Udp, Received, received}
use nettle.Dispatcher.Worker.{EventFd, Message, Worker, worker_send, worker_message_count}
use nettle.Tunnel.Fec.{ByteOrder, to_header, header_block_id, header_message_size}
use nettle.Tunnel.Listener.{
  Listener, at, cleaned, cleanup, pool_free_number, handed, hand_over, choose, stamp,
  dispatch_message, accept_stamped, accept_message, read_message, api_handle_read, dispatch_packet,
  accept_packet, read_packet, tun_handle_read,
}

at-lt : {A : Type 0} (xs : List A) (i : ℕ) → i < length xs → (x : A) × (at xs i ≡ some x)
at-lt [] i h = absurd (omega arith)
at-lt (x ∷ xs) zero h = (x, refl)
at-lt (x ∷ xs) (suc i) h = at-lt xs i (omega arith)

-- The message of a buffer.
abbrev pub message_of : ℕ → Message
message_of buffer = record { content = buffer; free = pool_free_number }

-- No check fails in sending the buffer to any of these processors.
abbrev pub Ready : {E : Type 0} → EventFd E → ℕ → List (Worker E) → Type 0
Ready {E} fd buffer workers =
    (i : ℕ) (worker : Worker E)
    → at workers i ≡ some worker
    → worker_send fd worker (message_of buffer) ≢ none

choose-lt :
    {E : Type 0} (fd : EventFd E) (workers : List (Worker E)) (last : ℕ) (o : Option (Worker E))
    → last < length workers
    → choose fd workers last o < length workers
unfolding choose
choose-lt fd workers last none h = h
choose-lt fd workers last (some worker) h =
    let next : (last + 1) % length workers < length workers = mod-lt (last + 1) (omega arith) in
    elim (Bool-cases (worker_message_count fd worker == 0)) [
      | inl idle ↦ rw idle h
      | inr busy ↦ rw busy next
    ]

module _ {E W : Type 0} (fd : EventFd E) (capacity buffer : ℕ) (free : List ℕ)
    (room : length free < capacity) where
  -- The buffer was given to one processor, whose `worker_send` took it.
  pub record HandedOver (before after : Listener E W) : Type 0 where
    pub workers : List (Worker E)
    pub index : ℕ
    pub worker : Worker E
    pub worker' : Worker E
    pub had : before.processors ≡ some workers
    pub chosen : at workers index ≡ some worker
    pub took : worker_send fd worker (message_of buffer) ≡ some (worker', true)
    pub has : after.processors ≡ some (set workers index worker')

  -- A processor was asked to take the buffer, and its `worker_send` refused.
  pub record Refused (before after : Listener E W) : Type 0 where
    pub workers : List (Worker E)
    pub index : ℕ
    pub worker : Worker E
    pub worker' : Worker E
    pub had : before.processors ≡ some workers
    pub chosen : at workers index ≡ some worker
    pub refused : worker_send fd worker (message_of buffer) ≡ some (worker', false)
    pub has : after.processors ≡ some (set workers index worker')

  -- No processor took the buffer: none was asked, or the one that was asked refused.
  abbrev pub Kept : Listener E W → Listener E W → Type 0
  Kept before after = (after.processors ≡ before.processors) ⊎ Refused before after

  -- The buffer is back in the pool and no processor took it, or it is out of the pool and one processor took it.
  abbrev pub Settled : Listener E W → Listener E W → Type 0
  Settled before after =
      (Holds after.pool.queue capacity (free ++ buffer ∷ []) × Kept before after)
      ⊎ (Holds after.pool.queue capacity free × HandedOver before after)

  abbrev Settles : Listener E W → Option (Listener E W) → Type 0
  Settles before r = (after : Listener E W) × (r ≡ some after) × Settled before after

  -- The label `cleanup`, where no processor took the buffer.
  cleanup-Settles :
      (l before : Listener E W)
      → Holds l.pool.queue capacity free
      → Kept before l
      → Settles before (cleanup buffer l)
  unfolding cleanup cleaned
  cleanup-Settles l before w (inl same) =
      let (done, w') = pool_free-Holds l.pool capacity buffer free w room in
      (_, ap (cleaned l) done, inl (w', inl same))
  cleanup-Settles l before w (inr r) =
      let (done, w') = pool_free-Holds l.pool capacity buffer free w room in
      (
        _,
        ap (cleaned l) done,
        inl (
          w',
          inr (record {
            workers = r.workers;
            index = r.index;
            worker = r.worker;
            worker' = r.worker';
            had = r.had;
            chosen = r.chosen;
            refused = r.refused;
            has = r.has;
          }),
        ),
      )

  handed-Settles :
      (l before : Listener E W) (workers : List (Worker E)) (i : ℕ) (busy : Counter)
      (worker : Worker E) (r : Option (Worker E × Bool))
      → Holds l.pool.queue capacity free
      → before.processors ≡ some workers
      → at workers i ≡ some worker
      → worker_send fd worker (message_of buffer) ≡ r
      → r ≢ none
      → Settles before (handed fd buffer workers i busy r l)
  unfolding handed
  handed-Settles l before workers i busy worker none w had e sent ok = absurd (ok refl)
  handed-Settles l before workers i busy worker (some (worker', false)) w had e sent ok =
      cleanup-Settles _ before w (
        inr (record {
          workers = workers;
          index = i;
          worker = worker;
          worker' = worker';
          had = had;
          chosen = e;
          refused = sent;
          has = refl;
        }))
  handed-Settles l before workers i busy worker (some (worker', true)) w had e sent ok = (
    _,
    refl,
    inr (
      w,
      record {
        workers = workers;
        index = i;
        worker = worker;
        worker' = worker';
        had = had;
        chosen = e;
        took = sent;
        has = refl;
      },
    ),
  )

  hand_over-Settles :
      (l before : Listener E W) (workers : List (Worker E)) (i : ℕ) (busy : Counter)
      → Holds l.pool.queue capacity free
      → before.processors ≡ some workers
      → Ready fd buffer workers
      → i < length workers
      → Settles before (hand_over fd buffer workers i busy (at workers i) l)
  unfolding hand_over
  hand_over-Settles l before workers i busy w had ready h =
      let (worker, e) = at-lt workers i h in
      rw e (handed-Settles l before workers i busy worker _ w had e refl (ready i worker e))

  -- The array of processors, if there is one, has an element, and is ready.
  pub record InUse (l : Listener E W) : Type 0 where
    pub none_empty : (workers : List (Worker E)) → l.processors ≡ some workers → 0 < length workers
    pub all_ready :
        (workers : List (Worker E)) → l.processors ≡ some workers → Ready fd buffer workers

  -- The processor used last is one of the array, if there is one.
  abbrev pub LastInside : Listener E W → Type 0
  LastInside l =
      (workers : List (Worker E)) → l.processors ≡ some workers → l.last_processor < length workers

  module _ (o : ByteOrder) (udp : Udp W) where
    dispatch_message-Settles :
        (l before : Listener E W) (processors : Option (List (Worker E)))
        → Holds l.pool.queue capacity free
        → InUse before
        → LastInside before
        → before.processors ≡ processors
        → l.processors ≡ processors
        → before.last_processor ≡ l.last_processor
        → Settles before (dispatch_message o fd udp buffer processors l)
    unfolding dispatch_message
    dispatch_message-Settles l before none w u li e g f =
        cleanup-Settles l before w (inl (g ∙ sym e))
    dispatch_message-Settles l before (some workers) w u li e g f =
        hand_over-Settles _ before workers _ Counter.encoder_busy w e (u.all_ready workers e) (
          choose-lt fd workers l.last_processor (at workers l.last_processor)
            (omega (arith, li workers e, f)))

    accept_stamped-Settles :
        (l before : Listener E W) (size : ℕ) (stamped : Option (List ℕ × Bool))
        → Holds l.pool.queue capacity free
        → InUse before
        → LastInside before
        → before.processors ≡ l.processors
        → before.last_processor ≡ l.last_processor
        → Settles before (accept_stamped o fd udp buffer size stamped l)
    unfolding accept_stamped
    accept_stamped-Settles l before size none w u li e f = cleanup-Settles _ before w (inl (sym e))
    accept_stamped-Settles l before size (some (bytes, true)) w u li e f =
        dispatch_message-Settles _ before l.processors w u li e refl f
    accept_stamped-Settles l before size (some (bytes, false)) w u li e f =
        dispatch_message-Settles _ before l.processors w u li e refl f

    accept_message-Settles :
        (l before : Listener E W) (r : Received)
        → Holds l.pool.queue capacity free
        → InUse before
        → LastInside before
        → before.processors ≡ l.processors
        → before.last_processor ≡ l.last_processor
        → Settles before (accept_message o fd udp buffer r l)
    unfolding accept_message
    accept_message-Settles l before (Received.failed _) w u li e f =
        cleanup-Settles _ before w (inl (sym e))
    accept_message-Settles l before (received size bytes src _) w u li e f =
        accept_stamped-Settles _ before size (stamp o bytes size src) w u li e f

    dispatch_packet-Settles :
        (l before : Listener E W) (bytes : List ℕ) (processors : Option (List (Worker E)))
        → Holds l.pool.queue capacity free
        → InUse before
        → before.processors ≡ processors
        → l.processors ≡ processors
        → Settles before (dispatch_packet o fd udp buffer bytes processors l)
    unfolding dispatch_packet
    dispatch_packet-Settles l before bytes none w u e g =
        cleanup-Settles _ before w (inl (g ∙ sym e))
    dispatch_packet-Settles l before bytes (some []) w u e g =
        absurd (omega (arith, u.none_empty [] e))
    dispatch_packet-Settles l before bytes (some (worker ∷ workers)) w u e g =
        hand_over-Settles _ before (worker ∷ workers) _ Counter.decoder_busy w e
          (u.all_ready (worker ∷ workers) e)
          (mod-lt (header_block_id o (to_header bytes)) (omega arith))

    accept_packet-Settles :
        (l before : Listener E W) (r : Received)
        → Holds l.pool.queue capacity free
        → InUse before
        → before.processors ≡ l.processors
        → Settles before (accept_packet o fd udp buffer r l)
    unfolding accept_packet
    accept_packet-Settles l before (Received.failed _) w u e =
        cleanup-Settles _ before w (inl (sym e))
    accept_packet-Settles l before (received size bytes src _) w u e =
        elim (Bool-cases (header_message_size o (to_header bytes) == size)) [
          | inl whole ↦ rw whole (dispatch_packet-Settles _ before bytes l.processors w u e refl)
          | inr partial ↦ rw partial (cleanup-Settles _ before w (inl (sym e)))
        ]

    -- With a buffer in the pool, `nt_api_handle_read` fails no check, and whatever it reads, at its end the buffer is
    -- back in the pool and no processor took it, or one processor took it and it is out of the pool; the other buffers
    -- of the pool stay there. It is assumed that `last_processor` is an index of the processors, if there is an array of
    -- them, and that `worker_send` to them fails no check.
    pub api_handle_read-Settles :
        (l : Listener E W)
        → Holds l.pool.queue capacity (buffer ∷ free)
        → InUse l
        → LastInside l
        → Settles l (api_handle_read o fd udp l)
    unfolding api_handle_read read_message pool_new
    api_handle_read-Settles l w u inside =
        let (first, w') = pop-Holds l.pool.queue capacity buffer free w in
        rw first (accept_message-Settles _ l _ w' u inside refl refl)

    -- With a buffer in the pool, `nt_tun_handle_read` fails no check and does not divide by zero, and whatever it
    -- reads, at its end the buffer is back in the pool and no processor took it, or one processor took it and it is out
    -- of the pool; the other buffers of the pool stay there. It is assumed that there is a processor, if there is an array of them, and that
    -- `worker_send` to them fails no check.
    pub tun_handle_read-Settles :
        (l : Listener E W)
        → Holds l.pool.queue capacity (buffer ∷ free)
        → InUse l
        → Settles l (tun_handle_read o fd udp l)
    unfolding tun_handle_read read_packet pool_new
    tun_handle_read-Settles l w u =
        let (first, w') = pop-Holds l.pool.queue capacity buffer free w in
        rw first (accept_packet-Settles _ l _ w' u refl)
