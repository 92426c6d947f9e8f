-- ===== src/Tunnel/Processor/Plain.antt =====
-- The encoder and the decoder of src/main/tunnel/nt_fec_processor.c with the code that adds nothing,
-- `nt_dummy_fec` of src/main/tunnel/nt_fec.c.
use nettle.Prelude.{
  ℕ, ◌==◌, ◌||◌, not, ◌%◌, ◌^◌, ◌<◌, ◌≡◌, refl, ap, ◌∙◌, arith, true, Option, some, List, [], ◌∷◌,
  length, take, take-length, Bool-cases, inl, inr,
}
use mathlib.Core.List.{append-nil}
use native.Mathlib.Nat.{mod-eq_of_lt}
use nettle.Dispatcher.Address.{address_init4}
use nettle.Dispatcher.Udp.{SendsWhole, joined, udp_sendto}
use nettle.Tunnel.Fec.{
  ByteOrder, IsByteOrder, Header, dummy_fec, dummy_encode, dummy_decode, dummy_tag, header_init,
  of_header, to_header, header_payload, header_payload_size,
}
use nettle.Tunnel.Fec.Layout.{HeaderFits, to_header-of_header, header_payload-of_header}
use nettle.Tunnel.Proto.{api_is_valid, api_message_size, to_api}
use nettle.Tunnel.Processor.Types.{Config, Effects, Processor}
use nettle.Tunnel.Processor.Encoder.{encoder_on_message, encode_all, ensure_encoded}
use nettle.Tunnel.Processor.Decoder.{
  decoded_result, deliver, on_decode, decoder_on_message, fec_invalid_header,
}
use nettle.Tunnel.Processor.Outcome.{
  to_client, processor_with, api_sent_lem, ensure_encoded_lem, decoded_result_lem,
}
use nettle.Tunnel.Processor.Copies.{send_each-returns, chosen, row_of, send_each, on_encode-row}
use nettle.Tunnel.Processor.Safe.{on_decode-returns}

-- The header that `nt_dummy_fec_encode` gives a packet.
abbrev pub plain_header : ByteOrder → List ℕ → Header
plain_header o input = header_init o dummy_tag 0 0 0 0 (length input % 2 ^ 16)

module _ (o : ByteOrder) (byte_order : IsByteOrder o) {W : Type 0} (c : Config W) where
  plain_header-HeaderFits : (input : List ℕ) → HeaderFits (plain_header o input)
  unfolding header_init
  plain_header-HeaderFits input = record {
    tag_lt = omega arith;
    n_lt = omega arith;
    k_lt = omega arith;
    block_id_lt = byte_order.htonl-lt 0 (omega arith);
    block_index_lt = omega arith;
    payload_size_lt = byte_order.htons-lt (length input % 2 ^ 16) (omega arith);
  }

  encode_plain :
      (input : List ℕ) (p : Processor (Unit {0}) W)
      → 0 < c.distributor.seq_num
      → encode_all o c (dummy_fec o fec_invalid_header) input p
        ≡ processor_with p.fec
            (send_each o c (plain_header o input) input (chosen (row_of c.distributor 0)) p.effects)
  unfolding encode_all dummy_fec dummy_encode header_init
  encode_plain input p h =
      ap
        (λ (r : Option (Effects W) × ℕ).
          ensure_encoded o c (dummy_fec o fec_invalid_header) (p.fec, r.0, r.1))
        (on_encode-row o c (plain_header o input) input p.effects h)
      ∙ ensure_encoded_lem o c (dummy_fec o fec_invalid_header) p.fec _

  decode_plain :
      (input : List ℕ) (q : Processor (Unit {0}) W)
      → length input < 2 ^ 16
      → decoder_on_message o c
          (dummy_fec o fec_invalid_header)
          (joined (of_header (plain_header o input) ∷ (input ∷ [])))
          q
        ≡ decoded_result o c (dummy_fec o fec_invalid_header) (
          q.fec,
          (on_decode o c (some q.effects) input).0,
          (on_decode o c (some q.effects) input).1,
        )
  unfolding decoder_on_message dummy_fec dummy_decode header_init
  decode_plain input q l =
      rw
        (
          append-nil input,
          to_header-of_header (plain_header o input) input (plain_header-HeaderFits input),
          header_payload-of_header (plain_header o input) input,
          mod-eq_of_lt l,
          byte_order.ntohs-htons (length input) l,
          take-length (length input) input refl,
        )
        refl

  -- A whole packet of the first protocol is a decoded packet that goes to its destination.
  on_decode-whole :
      (message : List ℕ) (s : Effects W)
      → api_is_valid message ≡ true
      → length message ≡ api_message_size o (to_api message)
      → on_decode o c (some s) message ≡ (
        to_client
            (length message)
            (udp_sendto c.api_udp s.world message
              (address_init4 (to_api message).dst_ip (to_api message).dst_port))
            s,
        0,
      )
  unfolding on_decode deliver
  on_decode-whole message s v e =
      let whole : (length message == api_message_size o (to_api message)) ≡ true = ground arith in
      rw (v, whole) (ap (λ r. (r, 0)) (api_sent_lem o c (length message) _ s))

  -- A whole packet of the first protocol that the encoder gets goes out as it is behind one header, as a datagram
  -- to each path of the row 0, from the path's source to its destination, and nothing else changes but what each
  -- call counts. The decoder that gets such a datagram sends the packet as it is to the destination that its header
  -- names, and nothing else changes but what this call counts. The packet is shorter than 2 ^ 16 bytes, and the
  -- distributor has a row in use.
  pub decoder-encoder :
      (message : List ℕ) (p q : Processor (Unit {0}) W)
      → length message < 2 ^ 16
      → 0 < c.distributor.seq_num
      → api_is_valid message ≡ true
      → length message ≡ api_message_size o (to_api message)
      → (encoder_on_message o c (dummy_fec o fec_invalid_header) message p
          ≡ processor_with p.fec (
              send_each o c
                (plain_header o message)
                message
                (chosen (row_of c.distributor 0))
                p.effects))
        × (decoder_on_message o c
              (dummy_fec o fec_invalid_header)
              (joined (of_header (plain_header o message) ∷ (message ∷ [])))
              q
            ≡ processor_with q.fec (
                to_client
                  (length message)
                  (udp_sendto c.api_udp q.effects.world message
                    (address_init4 (to_api message).dst_ip (to_api message).dst_port))
                  q.effects))
  unfolding encoder_on_message
  decoder-encoder message p q l h v e = (
    rw (v, take-length (api_message_size o (to_api message)) message e) (encode_plain message p h),
    decode_plain message q l
        ∙ rw (on_decode-whole message q.effects v e)
            (decoded_result_lem o c (dummy_fec o fec_invalid_header) q.fec _),
  )

  -- With this code the decoder fails no `ensure` whatever datagram arrives, provided that the client's socket
  -- sends a datagram whole or not at all.
  pub decoder_on_message-returns :
      (message : List ℕ) (q : Processor (Unit {0}) W)
      → SendsWhole c.api_udp
      → (q' : Processor (Unit {0}) W) × (decoder_on_message o c
            (dummy_fec o fec_invalid_header)
            message
            q
          ≡ some q')
  unfolding decoder_on_message dummy_fec dummy_decode
  decoder_on_message-returns message q law =
      let h = to_header message in
      let (s', done) =
        on_decode-returns o byte_order c law
          (take (header_payload_size o h) (header_payload message)) q.effects in
      elim (Bool-cases (not (h.tag == dummy_tag) || not (h.n == 0) || not (h.k == 0))) [
        | inl refused ↦ rw refused (_, refl)
        | inr taken ↦ rw (taken, done) (_, refl)
      ]

  -- With this code the encoder fails no `ensure` on a whole packet of the first protocol of less than 2 ^ 16 bytes,
  -- provided that the distributor has a row in use and that the tunnel's socket sends a datagram whole or not at all.
  pub encoder_on_message-returns :
      (message : List ℕ) (p : Processor (Unit {0}) W)
      → SendsWhole c.tun_udp
      → length message < 2 ^ 16
      → 0 < c.distributor.seq_num
      → api_is_valid message ≡ true
      → length message ≡ api_message_size o (to_api message)
      → (p' : Processor (Unit {0}) W) × (encoder_on_message o c
            (dummy_fec o fec_invalid_header)
            message
            p
          ≡ some p')
  unfolding header_init
  encoder_on_message-returns message p law l h v e =
      let (s', done) =
        send_each-returns o c (plain_header o message) message (chosen (row_of c.distributor 0))
          p.effects law
          (byte_order.ntohs-htons (length message % 2 ^ 16) (omega arith) ∙ mod-eq_of_lt l) in
      (record { fec = p.fec; effects = s' }, (decoder-encoder message p p l h v e).0 ∙ rw done refl)
