-- ===== src/Tunnel/Processor/Safe.antt =====
-- No input makes `on_decode` of src/main/tunnel/nt_fec_processor.c fail an `ensure`.
use nettle.Prelude.{
  ℕ, ◌==◌, leb, length-drop, ◌-◌, ◌%◌, ◌^◌, ◌≤◌, ◌<◌, ◌≡◌, refl, ap, ◌∙◌, arith, true, Option, none,
  some, List, [], ◌++◌, length, take, Bool-cases, length-append, length-take, inl, inr,
}
use mathlib.Core.List.{append-nil}
use nettle.Dispatcher.Counters.{Counter}
use nettle.Dispatcher.Udp.{SendsWhole, udp_send_v-whole, udp_sendto-whole, Sent, sent}
use nettle.Tunnel.Fec.{ByteOrder, IsByteOrder}
use nettle.Tunnel.Proto.{
  to_api, api2_message_size, Api2, to_api2, of_api, api_from, api_is_valid, api2_is_valid,
  api_message_size, api2_payload_size, api2_set_payload_size, api2_payload, encrypt_num,
}
use nettle.Tunnel.Proto.Layout.{length-of_api}
use nettle.Tunnel.Processor.Types.{Config, Effects, Encryptor, count}
use nettle.Tunnel.Processor.Decoder.{
  api_sent, deliver, deliver_converted, deliver_opened, open_and_deliver, deliver_by_type, deliver2,
  on_decode,
}

module _ (o : ByteOrder) (byte_order : IsByteOrder o) {W : Type 0} (c : Config W)
    (law : SendsWhole c.api_udp) where
  api_sent-returns :
      (size : ℕ) (r : W × Sent) (s : Effects W)
      → ((n : ℕ) → r.1 ≡ sent n → n ≡ size)
      → (s' : Effects W) × (api_sent o c size r s ≡ some s')
  unfolding api_sent
  api_sent-returns size (w, Sent.failed _) s whole = (_, refl)
  api_sent-returns size (w, sent n) s whole = (
    count (count (count (record s { world = w }) Counter.api_sent_v1 1) Counter.api_sent 1)
        Counter.api_sent_bytes n,
    ground (arith, whole n refl),
  )

  deliver-returns :
      (decoded : List ℕ) (s : Effects W) → (s' : Effects W) × (deliver o c decoded s ≡ some s')
  unfolding deliver
  deliver-returns decoded s =
      elim (Bool-cases (length decoded == api_message_size o (to_api decoded))) [
        | inl e ↦ rw e (api_sent-returns _ _ s (udp_sendto-whole c.api_udp law s.world decoded _))
        | inr e ↦ rw e (_, refl)
      ]

  deliver_converted-returns :
      (header : Api2) (payload : List ℕ) (s : Effects W)
      → api2_payload_size o header ≤ length payload
      → (s' : Effects W) × (deliver_converted o c header payload s ≡ some s')
  unfolding deliver_converted api_from
  deliver_converted-returns header payload s e =
      let body = take (api2_payload_size o header) payload in
      api_sent-returns _ _ s (λ m f.
        udp_send_v-whole c.api_udp law s.world _ _ _ m f
        ∙ omega (
          arith,
          e,
          length-append (of_api (api_from header)) (body ++ []),
          length-of_api (api_from header),
          ap length (append-nil body),
          length-take (api2_payload_size o header) payload,
        ))

  deliver_opened-returns :
      (header : Api2) (decrypted : Option (List ℕ)) (s : Effects W)
      → (s' : Effects W) × (deliver_opened o c header decrypted s ≡ some s')
  unfolding deliver_opened
  deliver_opened-returns header none s = (_, refl)
  deliver_opened-returns header (some text) s =
      deliver_converted-returns (api2_set_payload_size o header (length text % 2 ^ 16)) text s
        (omega (arith, byte_order.ntohs-htons (length text % 2 ^ 16) (omega arith)))

  open_and_deliver-returns :
      (encryptor : Option (Encryptor W)) (header : Api2) (payload : List ℕ) (s : Effects W)
      → (s' : Effects W) × (open_and_deliver o c encryptor header payload s ≡ some s')
  unfolding open_and_deliver
  open_and_deliver-returns none header payload s = deliver_opened-returns header none s
  open_and_deliver-returns (some encryptor) header payload s = deliver_opened-returns header _ _

  deliver_by_type-returns :
      (header : Api2) (payload : List ℕ) (s : Effects W)
      → header.encrypt_type < encrypt_num
      → api2_payload_size o header ≤ length payload
      → (s' : Effects W) × (deliver_by_type o c header payload s ≡ some s')
  unfolding deliver_by_type
  deliver_by_type-returns header payload s t e = elim (Bool-cases (header.encrypt_type == 0)) [
    | inl plain ↦ rw plain (deliver_converted-returns header payload s e)
    | inr other ↦
        let kc : (header.encrypt_type == 1) ≡ true = ground arith in
        rw (other, kc) (open_and_deliver-returns c.encryptor header payload s)
  ]

  deliver2-returns :
      (decoded : List ℕ) (s : Effects W)
      → api2_is_valid decoded ≡ true
      → (s' : Effects W) × (deliver2 o c decoded s ≡ some s')
  unfolding deliver2
  deliver2-returns decoded s valid =
      elim (Bool-cases (length decoded == api2_message_size o (to_api2 decoded))) [
        | inr wrong ↦ rw wrong (_, refl)
        | inl whole ↦ elim (Bool-cases (leb (to_api2 decoded).ttl 0)) [
          | inl expired ↦ rw (whole, expired) (_, refl)
          | inr alive ↦
              rw (whole, alive)
                (deliver_by_type-returns
                  (record (to_api2 decoded) { ttl = (to_api2 decoded).ttl - 1 })
                  (api2_payload decoded) s (ground arith) (ground (arith, length-drop 28 decoded)))
        ]
      ]

  -- Whatever bytes the code decodes, `on_decode` fails no `ensure` and returns 0, provided that the
  -- client's socket sends a datagram whole or not at all.
  pub on_decode-returns :
      (decoded : List ℕ) (s : Effects W)
      → (s' : Effects W) × (on_decode o c (some s) decoded ≡ (some s', 0))
  unfolding on_decode
  on_decode-returns decoded s = elim (Bool-cases (api_is_valid decoded)) [
    | inl v1 ↦ let (s', e) = deliver-returns decoded s in (s', rw (v1, e) refl)
    | inr other ↦ elim (Bool-cases (api2_is_valid decoded)) [
      | inl v2 ↦ let (s', e) = deliver2-returns decoded s v2 in (s', rw (other, v2, e) refl)
      | inr neither ↦ (count s Counter.corrupt_decoded_data 1, rw (other, neither) refl)
    ]
  ]
