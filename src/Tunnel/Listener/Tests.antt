-- ===== src/Tunnel/Listener/Tests.antt =====
-- Runs of the readers on concrete datagrams.
use nettle.Prelude.{
  ℕ, zero, suc, ◌+◌, ◌<◌, ◌≡◌, ◌≢◌, arith, true, Option, none, some, List, [], ◌∷◌, length, pos,
  negsuc,
}
use mathlib.Core.Path.{subst}
use mathlib.Core.Option.{some-injective, none-ne-some}
use nettle.Utils.Queue
use nettle.Utils.Queue.View.{Holds}
use nettle.Dispatcher.Address.{inet}
use nettle.Dispatcher.Pool.{fill, pool_init, pool_new}
use nettle.Dispatcher.Pool.Buffers.{fresh_from, pool_init-Holds}
use nettle.Dispatcher.Udp.{Udp}
use nettle.Dispatcher.Worker.{
  EventFd, Message, Worker, worker_init, worker_send, send_in, send_queued, send_written,
  take_buffer, put_message, queued, signal, signalled,
}
use nettle.Tunnel.Fec.{ByteOrder}
use nettle.Tunnel.Listener.{Listener, api_handle_read, tun_handle_read}
use nettle.Tunnel.Listener.Buffers.{
  Ready, message_of, Settled, InUse, LastInside, api_handle_read-Settles, tun_handle_read-Settles,
}

abbrev plain_order : ByteOrder
plain_order = record { htonl = λ x. x; ntohl = λ x. x; htons = λ x. x; ntohs = λ x. x }

-- A packet of the block 7.
abbrev block_packet : List ℕ
block_packet = 39 ∷ (0 ∷ (0 ∷ (7 ∷ (0 ∷ (0 ∷ (0 ∷ (2 ∷ (1 ∷ (0 ∷ (5 ∷ []))))))))))

abbrev plain_fd : EventFd ℕ
plain_fd = record { write = λ e. (suc e, true); read = λ e. (0, some e) }

abbrev cell : ℕ → ℕ
cell i = i + 1

abbrev idle_worker : Worker ℕ
idle_worker = worker_init plain_fd cell (λ p. record { content = 0; free = 0 }) 16 0 1

-- Every reception gives the packet of the block 7.
abbrev source : Udp ℕ
source = record {
  sendmsg = λ w m. (w, negsuc 0);
  sendto = λ w bytes address. (w, negsuc 0);
  recvmsg =
      λ w lens. (w, record { size = pos 11; bytes = block_packet; name = inet 9 5; controls = [] });
  recvfrom =
      λ w len. (w, record { size = pos 11; bytes = block_packet; name = inet 9 5; controls = [] });
  errno = λ w. 11;
}

abbrev listening : Listener ℕ ℕ
listening = record {
  pool = pool_init cell 2 1500;
  memory = λ p. [];
  max_buffer_size = 1500;
  world = 0;
  perf = λ c. 0;
  processors = some (idle_worker ∷ []);
  last_processor = 0;
}

listening-Holds : Holds listening.pool.queue 2 (1 ∷ (2 ∷ []))
unfolding fresh_from
listening-Holds = pool_init-Holds cell 2 1500

idle_worker-sends : (m : Message) → worker_send plain_fd idle_worker m ≢ none
unfolding worker_send send_in send_queued send_written put_message queued signal signalled
    take_buffer worker_init pool_init pool_new fill Queue.init Queue.push Queue.pop Queue.size
idle_worker-sends m e = cc

one-Ready : Ready plain_fd 1 (idle_worker ∷ [])
one-Ready zero worker f =
    subst (λ w. worker_send plain_fd w (message_of 1) ≢ none) (some-injective _ _ f)
      (idle_worker-sends (message_of 1))
one-Ready (suc i) worker f = absurd (none-ne-some _ f)

listening-InUse : InUse plain_fd 2 1 (2 ∷ []) (omega arith) listening
listening-InUse = record {
  none_empty = λ workers e. subst (λ ws. 0 < length ws) (some-injective _ _ e) (omega arith);
  all_ready = λ workers e. subst (Ready plain_fd 1) (some-injective _ _ e) one-Ready;
}

listening-LastInside : LastInside plain_fd 2 1 (2 ∷ []) (omega arith) listening
listening-LastInside workers e = subst (λ ws. 0 < length ws) (some-injective _ _ e) (omega arith)

abbrev Handled : (Listener ℕ ℕ → Option (Listener ℕ ℕ)) → Type 0
Handled handle =
    (after : Listener ℕ ℕ) × (handle listening ≡ some after)
    × Settled plain_fd 2 1 (2 ∷ []) (omega arith) listening after

api_handle_read-Settles_example : Handled (api_handle_read plain_order plain_fd source)
api_handle_read-Settles_example =
    api_handle_read-Settles plain_fd 2 1 (2 ∷ []) (omega arith) plain_order source listening
      listening-Holds listening-InUse listening-LastInside

tun_handle_read-Settles_example : Handled (tun_handle_read plain_order plain_fd source)
tun_handle_read-Settles_example =
    tun_handle_read-Settles plain_fd 2 1 (2 ∷ []) (omega arith) plain_order source listening
      listening-Holds listening-InUse
