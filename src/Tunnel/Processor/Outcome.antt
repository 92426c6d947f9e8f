-- ===== src/Tunnel/Processor/Outcome.antt =====
-- What the callbacks of src/main/tunnel/nt_fec_processor.c should leave after one datagram, said of the
-- result of the system's call.
use nettle.Prelude.{ℕ, ◌≡◌, refl, ◌==◌, if◌then◌else◌, Option, none, some}
use nettle.Dispatcher.Counters.{Counter, perf_inc}
use nettle.Dispatcher.Udp.{Sent, sent}
use nettle.Tunnel.Fec.{ByteOrder, Header, Fec, header_message_size}
use nettle.Tunnel.Processor.Types.{Config, Effects, Processor}
use nettle.Tunnel.Processor.Encoder.{tun_sent, ensure_encoded}
use nettle.Tunnel.Processor.Decoder.{api_sent, count_error, decoded_result}

module _ {W : Type 0} where
  -- A datagram into the tunnel: one error, or one datagram with its bytes, which are all of it.
  unfoldable pub into_tunnel : ℕ → W × Sent → Effects W → Option (Effects W)
  into_tunnel size (w, Sent.failed _) s =
      some (record { world = w; perf = perf_inc s.perf Counter.tun_send_error 1 })
  into_tunnel size (w, sent n) s =
      if n == size
      then some (record {
        world = w;
        perf = perf_inc (perf_inc s.perf Counter.tun_sent 1) Counter.tun_sent_bytes n;
      })
      else none

  -- A datagram to a client.
  unfoldable pub to_client : ℕ → W × Sent → Effects W → Option (Effects W)
  to_client size (w, Sent.failed _) s =
      some (record { world = w; perf = perf_inc s.perf Counter.api_send_error 1 })
  to_client size (w, sent n) s =
      if n == size
      then some (record {
        world = w;
        perf =
            perf_inc (perf_inc (perf_inc s.perf Counter.api_sent_v1 1) Counter.api_sent 1)
              Counter.api_sent_bytes n;
      })
      else none

  -- A processor with these effects, and nothing else counted.
  abbrev pub processor_with : {F : Type 0} → F → Option (Effects W) → Option (Processor F W)
  processor_with f none = none
  processor_with f (some s) = some (record { fec = f; effects = s })

module _ (o : ByteOrder) {W : Type 0} (c : Config W) where
  pub tun_sent_lem :
      (header : Header) (r : W × Sent) (s : Effects W)
      → tun_sent o c header r s ≡ into_tunnel (header_message_size o header) r s
  unfolding tun_sent into_tunnel
  tun_sent_lem header (w, Sent.failed _) s = refl
  tun_sent_lem header (w, sent n) s = refl

  pub api_sent_lem :
      (size : ℕ) (r : W × Sent) (s : Effects W) → api_sent o c size r s ≡ to_client size r s
  unfolding api_sent to_client
  api_sent_lem size (w, Sent.failed _) s = refl
  api_sent_lem size (w, sent n) s = refl

  module _ {F : Type 0} (code : Fec F (Option (Effects W))) where
    pub ensure_encoded_lem :
        (f : F) (r : Option (Effects W)) → ensure_encoded o c code (f, r, 0) ≡ processor_with f r
    ensure_encoded_lem f none = refl
    ensure_encoded_lem f (some s) = refl

    pub decoded_result_lem :
        (f : F) (r : Option (Effects W)) → decoded_result o c code (f, r, 0) ≡ processor_with f r
    unfolding count_error
    decoded_result_lem f none = refl
    decoded_result_lem f (some s) = refl
