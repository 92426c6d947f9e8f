-- ===== src/Tunnel/Processor/Encoder.antt =====
-- `on_encode` and `encoder_on_message` of src/main/tunnel/nt_fec_processor.c.
use nettle.Prelude.{
  ℕ, zero, suc, ◌+◌, ◌%◌, ◌^◌, Option, none, some, List, [], ◌∷◌, ◌++◌, ◌==◌, if◌then◌else◌, length,
  take, get_or,
}
use nettle.Dispatcher.Udp.{Sent, sent, udp_send_v}
use nettle.Dispatcher.Counters.{Counter}
use nettle.Tunnel.Distributor.{no_path, path, select}
use nettle.Tunnel.Fec.{ByteOrder, Header, Fec, of_header, header_message_size}
use nettle.Tunnel.Proto.{
  to_api, to_api2, of_api2, api_is_valid, api2_is_valid, api_message_size, api2_message_size,
  api2_payload_size, api2_set_payload_size, api2_payload, encrypt_none, encrypt_kc,
}
use nettle.Tunnel.Processor.Types.{null_path, Encryptor, Config, Effects, Processor, count}

module _ (o : ByteOrder) where
  -- The message in `buf` of the case `NT_ENCRYPT_TYPE_KC`, of a cipher text.
  abbrev pub sealed_message : List ℕ → List ℕ → List ℕ
  sealed_message message encrypted =
      of_api2 (api2_set_payload_size o (to_api2 message) (length encrypted % 2 ^ 16)) ++ encrypted

module _ (o : ByteOrder) {W : Type 0} (c : Config W) where
  -- The counters after a datagram of `on_encode`; `none` is its failed `ensure`.
  unfoldable pub tun_sent : Header → W × Sent → Effects W → Option (Effects W)
  tun_sent header (w, Sent.failed _) s =
      some (count (record s { world = w }) Counter.tun_send_error 1)
  tun_sent header (w, sent n) s =
      if n == header_message_size o header
      then some (count (count (record s { world = w }) Counter.tun_sent 1) Counter.tun_sent_bytes n)
      else none

  -- One datagram of `on_encode`, to the path of the number `n`.
  unfoldable pub send_copy : Header → List ℕ → ℕ → Effects W → Option (Effects W)
  send_copy header payload n s =
      tun_sent header
        (udp_send_v c.tun_udp s.world (of_header header ∷ (payload ∷ []))
          (some (get_or c.paths n null_path).src) (some (get_or c.paths n null_path).dst))
        s

  -- The loop of `on_encode` from `i` on, of `fuel` rounds; `none` is a failure or the end of the fuel.
  unfoldable pub send_copies : ℕ → Header → List ℕ → ℕ → Effects W → Option (Effects W)
  send_copies zero header payload i s = none
  send_copies (suc fuel) header payload i s = elim (select c.distributor header.block_index i) [
    | none ↦ none
    | some no_path ↦ some s
    | some (path n) ↦ elim (send_copy header payload n s) [
      | none ↦ none
      | some s' ↦ send_copies fuel header payload (i + 1) s'
    ]
  ]

  -- `on_encode`; the loop ends at the number of copies at last.
  unfoldable pub on_encode : Option (Effects W) → Header → List ℕ → Option (Effects W) × ℕ
  on_encode none header payload = (none, 0)
  on_encode (some s) header payload =
      (send_copies (suc c.distributor.dup_num) header payload 0 s, 0)

  module _ {F : Type 0} (code : Fec F (Option (Effects W))) where
    -- `ensure` that a result of the code is 0.
    abbrev pub ensure_encoded : F × Option (Effects W) × ℕ → Option (Processor F W)
    ensure_encoded (f, none, err) = none
    ensure_encoded (f, some s, err) =
        if err == 0 then some (record { fec = f; effects = s }) else none

    -- `ensure(nt_fec_encode(...) == 0)`
    unfoldable pub encode_all : List ℕ → Processor F W → Option (Processor F W)
    encode_all input p = ensure_encoded (code.encode p.fec on_encode input (some p.effects))

    -- What that case does with the encryptor's result.
    unfoldable pub send_sealed : List ℕ → Option (List ℕ) → Processor F W → Option (Processor F W)
    send_sealed message none p =
        some (record p { effects = count p.effects Counter.encrypt_error 1 })
    send_sealed message (some encrypted) p =
        encode_all
          (take (api2_message_size o (to_api2 (sealed_message o message encrypted)))
            (sealed_message o message encrypted))
          p

    -- The case `NT_ENCRYPT_TYPE_KC`
    unfoldable pub seal_and_send :
        Option (Encryptor W) → List ℕ → Processor F W → Option (Processor F W)
    seal_and_send none message p = send_sealed message none p
    seal_and_send (some encryptor) message p =
        let r =
          encryptor.encrypt p.effects.world
            (take (api2_payload_size o (to_api2 message)) (api2_payload message)) in
        send_sealed message r.1 (record p { effects = record p.effects { world = r.0 } })

    -- `encoder_on_message`
    unfoldable pub encoder_on_message : List ℕ → Processor F W → Option (Processor F W)
    encoder_on_message message p =
        if api_is_valid message
        then encode_all (take (api_message_size o (to_api message)) message) p
        else if api2_is_valid message
        then (if (to_api2 message).encrypt_type == encrypt_none
            then encode_all (take (api2_message_size o (to_api2 message)) message) p
            else if (to_api2 message).encrypt_type == encrypt_kc
            then seal_and_send c.encryptor message p
            else none)
        else none
