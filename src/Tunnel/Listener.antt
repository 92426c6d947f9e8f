-- ===== src/Tunnel/Listener.antt =====
-- The readers of src/main/tunnel/nt_listener.c. Buffers are pointers into `memory`; a failed `ensure`, and
-- an index past the array of processors, is `none`. The processors' queues are those of the encoders for
-- the clients' reader and those of the decoders for the tunnel's.
pub mod Blocks
pub mod Buffers
mod Tests
use nettle.Prelude.{
  ℕ, zero, suc, ◌+◌, ◌/◌, ◌%◌, Bool, true, false, Option, none, some, List, [], ◌∷◌, ◌++◌, ◌==◌,
  not, if◌then◌else◌, length, set, drop,
}
use nettle.Dispatcher.Address.{Address, address_get_addr4, address_get_port}
use nettle.Dispatcher.Counters.{Counter, Perf, perf_inc}
use nettle.Dispatcher.Pool.{Pool, pool_new, pool_free}
use nettle.Dispatcher.Udp.{Udp, Received, received, udp_recvfrom}
use nettle.Dispatcher.Worker.{EventFd, Message, Worker, worker_send, worker_message_count}
use nettle.Tunnel.Fec.{
  ByteOrder, Header, of_header, to_header, fec_size, header_block_id, set_block_id,
  header_message_size,
}
use nettle.Tunnel.Proto.{
  to_api, of_api, to_api2, of_api2, api_size, api2_size, api_is_valid, api2_is_valid,
  api_message_size, api2_message_size,
}

-- `nt_listener_t` with its `nt_fec_listener_context_t`; `processors` is `NULL` or an array.
pub record Listener (E W : Type 0) : Type 0 where
  pub pool : Pool
  pub memory : ℕ → List ℕ
  pub max_buffer_size : ℕ
  pub world : W
  pub perf : Perf
  pub processors : Option (List (Worker E))
  pub last_processor : ℕ

abbrev pub at : {A : Type 0} → List A → ℕ → Option A
at [] i = none
at (x ∷ xs) zero = some x
at (x ∷ xs) (suc i) = at xs i

module _ {E W : Type 0} where
  -- `nt_fec_listener_context_init`, in a listener that has its pool.
  unfoldable pub context_init : Listener E W → Option (List (Worker E)) → Perf → Listener E W
  context_init listener processors perf = record listener {
    processors = processors;
    last_processor = 0;
    perf = perf;
  }

  abbrev pub count_in : Listener E W → Counter → ℕ → Listener E W
  count_in l name n = record l { perf = perf_inc l.perf name n }

  -- The label `cleanup`, with what `pool_free` leaves.
  unfoldable pub cleaned : Listener E W → Option Pool → Option (Listener E W)
  cleaned l none = none
  cleaned l (some pool) = some (record l { pool = pool })

  unfoldable pub cleanup : ℕ → Listener E W → Option (Listener E W)
  cleanup buffer l = cleaned l (pool_free l.pool buffer)

  -- The buffer's bytes, and its new ones.
  abbrev pub write_buffer : Listener E W → ℕ → List ℕ → Listener E W
  write_buffer l buffer bytes = record l { memory = λ p. if p == buffer then bytes else l.memory p }

-- The number of `pool_free` among the functions that free a message.
abbrev pub pool_free_number : ℕ
pool_free_number = 0

module _ {E W : Type 0} (fd : EventFd E) where
  -- After a message was handed to the processor `i`, or was not.
  unfoldable pub handed :
      ℕ
      → List (Worker E)
      → ℕ
      → Counter
      → Option (Worker E × Bool)
      → Listener E W
      → Option (Listener E W)
  handed buffer workers i busy none l = none
  handed buffer workers i busy (some (worker, true)) l =
      some (record l { processors = some (set workers i worker) })
  handed buffer workers i busy (some (worker, false)) l =
      cleanup buffer (count_in (record l { processors = some (set workers i worker) }) busy 1)

  -- `nt_fec_processor_encode` and `nt_fec_processor_decode`, with what follows them.
  unfoldable pub hand_over :
      ℕ → List (Worker E) → ℕ → Counter → Option (Worker E) → Listener E W → Option (Listener E W)
  hand_over buffer workers i busy none l = none
  hand_over buffer workers i busy (some worker) l =
      handed buffer workers i busy
        (worker_send fd worker (record { content = buffer; free = pool_free_number })) l

module _ {E : Type 0} (fd : EventFd E) where
  -- The processor that `nt_api_handle_read` chooses: the last one, or the next one if it has messages.
  unfoldable pub choose : List (Worker E) → ℕ → Option (Worker E) → ℕ
  choose workers last none = last
  choose workers last (some worker) =
      if not (worker_message_count fd worker == 0) then (last + 1) % length workers else last

module _ (o : ByteOrder) where
  -- A packet with its sender in its header, in either protocol, and whether it is of the first; `none` is
  -- `recv_failure`.
  unfoldable pub stamp : List ℕ → ℕ → Address → Option (List ℕ × Bool)
  stamp bytes size src =
      if address_get_addr4 src == 0
      then none
      else if api_is_valid bytes
      then (if not (api_message_size o (to_api bytes) == size)
          then none
          else some (
            of_api (record (to_api bytes) {
              src_ip = address_get_addr4 src;
              src_port = address_get_port src;
            })
                ++ drop api_size bytes,
            true,
          ))
      else if api2_is_valid bytes
      then (if not (api2_message_size o (to_api2 bytes) == size)
          then none
          else some (
            of_api2 (record (to_api2 bytes) {
              src_ip = address_get_addr4 src;
              src_port = address_get_port src;
            })
                ++ drop api2_size bytes,
            false,
          ))
      else none

  -- A packet of the tunnel with the block of its processor.
  unfoldable pub split_block : ℕ → List ℕ → List ℕ
  split_block processor_num bytes =
      of_header
        (set_block_id o (to_header bytes) (header_block_id o (to_header bytes) / processor_num))
      ++ drop fec_size bytes

  module _ {E W : Type 0} (fd : EventFd E) (udp : Udp W) where
    -- The counters after a packet was accepted.
    abbrev pub count_received : Bool → ℕ → Listener E W → Listener E W
    count_received v1 size l =
        count_in
          (count_in (if v1 then count_in l Counter.api_received_v1 1 else l) Counter.api_received 1)
          Counter.api_received_bytes size

    -- The end of `nt_api_handle_read`, from `context->processors` on.
    unfoldable pub dispatch_message :
        ℕ → Option (List (Worker E)) → Listener E W → Option (Listener E W)
    dispatch_message buffer none l = cleanup buffer l
    dispatch_message buffer (some workers) l =
        let i = choose fd workers l.last_processor (at workers l.last_processor) in
        hand_over fd buffer workers i Counter.encoder_busy (at workers i)
          (record l { last_processor = i })

    unfoldable pub accept_stamped :
        ℕ → ℕ → Option (List ℕ × Bool) → Listener E W → Option (Listener E W)
    accept_stamped buffer size none l = cleanup buffer (count_in l Counter.api_receive_error 1)
    accept_stamped buffer size (some (bytes, v1)) l =
        dispatch_message buffer l.processors (count_received v1 size (write_buffer l buffer bytes))

    unfoldable pub accept_message : ℕ → Received → Listener E W → Option (Listener E W)
    accept_message buffer (Received.failed _) l =
        cleanup buffer (count_in l Counter.api_receive_error 1)
    accept_message buffer (received size bytes src _) l =
        accept_stamped buffer size (stamp bytes size src) (write_buffer l buffer bytes)

    unfoldable pub read_message : Option ℕ → Listener E W → Option (Listener E W)
    read_message none l = some l
    read_message (some buffer) l =
        let r = udp_recvfrom udp l.world l.max_buffer_size in
        accept_message buffer r.1 (record l { world = r.0 })

    -- `nt_api_handle_read`
    unfoldable pub api_handle_read : Listener E W → Option (Listener E W)
    api_handle_read l = let r = pool_new l.pool in read_message r.1 (record l { pool = r.0 })

    -- The end of `nt_tun_handle_read`, from `block_id` on; a remainder by 0 is `none`.
    unfoldable pub dispatch_packet :
        ℕ → List ℕ → Option (List (Worker E)) → Listener E W → Option (Listener E W)
    dispatch_packet buffer bytes none l = cleanup buffer (count_in l Counter.tun_receive_error 1)
    dispatch_packet buffer bytes (some []) l = none
    dispatch_packet buffer bytes (some (w ∷ workers)) l =
        let i = header_block_id o (to_header bytes) % suc (length workers) in
        hand_over fd buffer (w ∷ workers) i Counter.decoder_busy (at (w ∷ workers) i)
          (write_buffer l buffer (split_block (suc (length workers)) bytes))

    unfoldable pub accept_packet : ℕ → Received → Listener E W → Option (Listener E W)
    accept_packet buffer (Received.failed _) l =
        cleanup buffer (count_in l Counter.tun_receive_error 1)
    accept_packet buffer (received size bytes src _) l =
        if not (header_message_size o (to_header bytes) == size)
        then cleanup buffer (count_in (write_buffer l buffer bytes) Counter.tun_receive_error 1)
        else dispatch_packet buffer bytes l.processors (
            count_in (count_in (write_buffer l buffer bytes) Counter.tun_received 1)
              Counter.tun_received_bytes size)

    unfoldable pub read_packet : Option ℕ → Listener E W → Option (Listener E W)
    read_packet none l = some l
    read_packet (some buffer) l =
        let r = udp_recvfrom udp l.world l.max_buffer_size in
        accept_packet buffer r.1 (record l { world = r.0 })

    -- `nt_tun_handle_read`
    unfoldable pub tun_handle_read : Listener E W → Option (Listener E W)
    tun_handle_read l = let r = pool_new l.pool in read_packet r.1 (record l { pool = r.0 })
