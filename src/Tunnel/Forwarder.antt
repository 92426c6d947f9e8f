-- ===== src/Tunnel/Forwarder.antt =====
-- The forwarder of src/main/tunnel/nt_forwarder.h and src/main/tunnel/nt_forwarder.c, which sends a client's packet
-- without a code. A failed `ensure` is `none`.
use nettle.Prelude.{ℕ, Bool, true, false, Option, none, some, List, ◌==◌, if◌then◌else◌, take}
use nettle.Dispatcher.Address.{address_init4}
use nettle.Dispatcher.Udp.{Udp, Sent, sent, udp_send, udp_sendto}
use nettle.Tunnel.Fec.{ByteOrder}
use nettle.Tunnel.Proto.{to_api, api_message_size}
use nettle.Tunnel.Processor.Types.{NtPath}

-- `nt_forwarder_t`
pub record Forwarder (W : Type 0) : Type 0 where
  pub path : NtPath
  pub api_udp : Udp W
  pub tun_udp : Udp W

-- `nt_forwarder_init`
unfoldable pub forwarder_init : {W : Type 0} → NtPath → Udp W → Udp W → Forwarder W
forwarder_init path api_udp tun_udp = record { path = path; api_udp = api_udp; tun_udp = tun_udp }

-- What both return for the result of the sending.
unfoldable pub forwarded : {W : Type 0} → ℕ → W × Sent → Option (W × Bool)
forwarded size (w, Sent.failed _) = some (w, false)
forwarded size (w, sent n) = if n == size then some (w, true) else none

module _ (o : ByteOrder) {W : Type 0} (forwarder : Forwarder W) where
  -- `nt_forwarder_send`, of the buffer with the packet
  unfoldable pub forwarder_send : List ℕ → W → Option (W × Bool)
  forwarder_send buffer w =
      let size = api_message_size o (to_api buffer) in
      forwarded size (
        udp_send forwarder.tun_udp w (take size buffer) (some forwarder.path.src)
          (some forwarder.path.dst))

  -- `nt_forwarder_receive`, of the buffer with the packet
  unfoldable pub forwarder_receive : List ℕ → W → Option (W × Bool)
  forwarder_receive buffer w =
      let size = api_message_size o (to_api buffer) in
      forwarded size (
        udp_sendto forwarder.api_udp w (take size buffer)
          (address_init4 (to_api buffer).dst_ip (to_api buffer).dst_port))
