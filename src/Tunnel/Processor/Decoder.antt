-- ===== src/Tunnel/Processor/Decoder.antt =====
-- `on_decode` and `decoder_on_message` of src/main/tunnel/nt_fec_processor.c.
use nettle.Prelude.{
  ℕ, ◌-◌, ◌%◌, ◌^◌, Option, none, some, List, [], ◌∷◌, ◌==◌, if◌then◌else◌, length, take, leb, not,
}
use nettle.Dispatcher.Address.{address_init4}
use nettle.Dispatcher.Udp.{Sent, sent, udp_send_v, udp_sendto}
use nettle.Dispatcher.Counters.{Counter}
use nettle.Tunnel.Fec.{ByteOrder, Fec, to_header, header_payload, header_payload_size}
use nettle.Tunnel.Proto.{
  Api2, to_api, to_api2, of_api, api_from, api_is_valid, api2_is_valid, api_message_size,
  api2_message_size, api2_payload_size, api2_set_payload_size, api2_payload, encrypt_none,
  encrypt_kc,
}
use nettle.Tunnel.Processor.Types.{Encryptor, Config, Effects, Processor, count}

-- `E_FEC_INVALID_HEADER` and `E_FEC_DECODER_BUFFER_FULL`
abbrev pub fec_invalid_header : ℕ
fec_invalid_header = 100002

abbrev pub fec_buffer_full : ℕ
fec_buffer_full = 100003

module _ (o : ByteOrder) {W : Type 0} (c : Config W) where
  -- The counters after a datagram of `on_decode` of the size that it ensures.
  unfoldable pub api_sent : ℕ → W × Sent → Effects W → Option (Effects W)
  api_sent size (w, Sent.failed _) s =
      some (count (record s { world = w }) Counter.api_send_error 1)
  api_sent size (w, sent n) s =
      if n == size
      then some (
          count (count (count (record s { world = w }) Counter.api_sent_v1 1) Counter.api_sent 1)
            Counter.api_sent_bytes n)
      else none

  -- The branch of the first protocol: the packet goes out as it is.
  unfoldable pub deliver : List ℕ → Effects W → Option (Effects W)
  deliver decoded s =
      if not (length decoded == api_message_size o (to_api decoded))
      then some (count s Counter.corrupt_decoded_data 1)
      else api_sent (length decoded)
          (udp_sendto c.api_udp s.world decoded
            (address_init4 (to_api decoded).dst_ip (to_api decoded).dst_port))
          s

  -- The end of the branch of the second one: the header with its payload goes out as a packet of the first.
  unfoldable pub deliver_converted : Api2 → List ℕ → Effects W → Option (Effects W)
  deliver_converted header payload s =
      api_sent (api_message_size o (api_from header))
        (udp_send_v c.api_udp s.world
          (of_api (api_from header) ∷ (take (api2_payload_size o header) payload ∷ [])) none
          (some (address_init4 header.dst_ip header.dst_port)))
        s

  -- The case `NT_ENCRYPT_TYPE_KC`, with the decryptor's result
  unfoldable pub deliver_opened : Api2 → Option (List ℕ) → Effects W → Option (Effects W)
  deliver_opened header none s = some (count s Counter.decrypt_error 1)
  deliver_opened header (some decrypted) s =
      deliver_converted (api2_set_payload_size o header (length decrypted % 2 ^ 16)) decrypted s

  unfoldable pub open_and_deliver :
      Option (Encryptor W) → Api2 → List ℕ → Effects W → Option (Effects W)
  open_and_deliver none header payload s = deliver_opened header none s
  open_and_deliver (some encryptor) header payload s =
      let r = encryptor.decrypt s.world (take (api2_payload_size o header) payload) in
      deliver_opened header r.1 (record s { world = r.0 })

  -- The `switch` on the type of the encryption
  unfoldable pub deliver_by_type : Api2 → List ℕ → Effects W → Option (Effects W)
  deliver_by_type header payload s =
      if header.encrypt_type == encrypt_none
      then deliver_converted header payload s
      else if header.encrypt_type == encrypt_kc
      then open_and_deliver c.encryptor header payload s
      else none

  -- The branch of the second protocol
  unfoldable pub deliver2 : List ℕ → Effects W → Option (Effects W)
  deliver2 decoded s =
      if not (length decoded == api2_message_size o (to_api2 decoded))
      then some (count s Counter.corrupt_decoded_data 1)
      else if leb (to_api2 decoded).ttl 0
      then some (count s Counter.ttl_exceeded 1)
      else deliver_by_type (record (to_api2 decoded) { ttl = (to_api2 decoded).ttl - 1 })
          (api2_payload decoded) s

  -- `on_decode`
  unfoldable pub on_decode : Option (Effects W) → List ℕ → Option (Effects W) × ℕ
  on_decode none decoded = (none, 0)
  on_decode (some s) decoded =
      if api_is_valid decoded
      then (deliver decoded s, 0)
      else if api2_is_valid decoded
      then (deliver2 decoded s, 0)
      else (some (count s Counter.corrupt_decoded_data 1), 0)

  module _ {F : Type 0} (code : Fec F (Option (Effects W))) where
    -- The `switch` on the code's error
    unfoldable pub count_error : ℕ → Effects W → Effects W
    count_error err s =
        if err == 0
        then s
        else if err == fec_buffer_full
        then count s Counter.decoder_buffer_full 1
        else if err == fec_invalid_header
        then count s Counter.invalid_encoded_data 1
        else count s Counter.decode_error 1

    abbrev pub decoded_result : F × Option (Effects W) × ℕ → Option (Processor F W)
    decoded_result (f, none, err) = none
    decoded_result (f, some s, err) = some (record { fec = f; effects = count_error err s })

    -- `decoder_on_message`. The code gets the size that the header says, of bytes that are there: `nt_tun_handle_read` lets
    -- no other datagram through to the decoder. Of a shorter one it would get the bytes there are.
    unfoldable pub decoder_on_message : List ℕ → Processor F W → Option (Processor F W)
    decoder_on_message message p = decoded_result (
        code.decode p.fec on_decode (to_header message)
          (take (header_payload_size o (to_header message)) (header_payload message))
          (some p.effects))
