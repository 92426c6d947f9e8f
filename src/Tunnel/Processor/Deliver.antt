-- ===== src/Tunnel/Processor/Deliver.antt =====
-- What `on_decode` of src/main/tunnel/nt_fec_processor.c makes of a packet of the second protocol.
use nettle.Tunnel.Client.Exchange.{api2_init-Api2Fits}
use nettle.Prelude.{
  take-length, ℕ, leb, ◌+◌, ◌-◌, ◌^◌, ◌<◌, ◌≡◌, refl, ap, ◌∙◌, arith, false, if◌then◌else◌, Option,
  none, some, List, [], ◌∷◌, ◌++◌, length, length-append,
}
use nettle.Dispatcher.Address.{address_init4}
use nettle.Dispatcher.Counters.{Counter}
use nettle.Dispatcher.Udp.{udp_send_v}
use nettle.Tunnel.Fec.{ByteOrder, IsByteOrder}
use nettle.Tunnel.Proto.{
  api_from, to_api, Api2, of_api2, of_api, api_init, api2_init, api_is_valid, api2_payload_size,
  api2_tag, encrypt_none, encrypt_kc,
}
use nettle.Tunnel.Proto.Layout.{Api2Fits, to_api2-of_api2, api2_payload-of_api2, length-of_api2}
use nettle.Tunnel.Processor.Types.{Encryptor, Config, Effects, count}
use nettle.Tunnel.Processor.Encoder.{sealed_message}
use native.Mathlib.Nat.{mod-eq_of_lt}
use nettle.Tunnel.Processor.Decoder.{
  api_sent, deliver_converted, deliver_opened, open_and_deliver, deliver_by_type, deliver2,
  on_decode,
}

module _ (o : ByteOrder) {W : Type 0} (c : Config W) where
  -- The tag of a packet is its first byte, of whichever protocol.
  not_v1 :
      (h : Api2) (payload : List ℕ) → h.tag ≡ api2_tag → api_is_valid (of_api2 h ++ payload) ≡ false
  unfolding of_api2 to_api
  not_v1 h payload e = rw e refl

  on_decode-of_api2 :
      (h : Api2) (payload : List ℕ) (s : Effects W)
      → Api2Fits h
      → h.tag ≡ api2_tag
      → h.encrypt_type < 2
      → api2_payload_size o h ≡ length payload
      → on_decode o c (some s) (of_api2 h ++ payload) ≡ (
        if leb h.ttl 0
            then some (count s Counter.ttl_exceeded 1)
            else deliver_by_type o c (record h { ttl = h.ttl - 1 }) payload s,
        0,
      )
  unfolding on_decode deliver2
  on_decode-of_api2 h payload s f t e p =
      rw (not_v1 h payload t, to_api2-of_api2 h payload f, api2_payload-of_api2 h payload f)
        (ground (arith, length-append (of_api2 h) payload, length-of_api2 h f))

  module _ (byte_order : IsByteOrder o) (id src_ip src_port dst_ip dst_port ttl : ℕ)
      (id_lt : id < 2 ^ 32) (src_ip_lt : src_ip < 2 ^ 32) (src_port_lt : src_port < 2 ^ 16)
      (dst_ip_lt : dst_ip < 2 ^ 32) (dst_port_lt : dst_port < 2 ^ 16) (ttl_lt : ttl < 256)
      (ttl_pos : 0 < ttl) where
    deliver_converted-init :
        (encrypt_type : ℕ) (text : List ℕ) (s : Effects W)
        → length text < 2 ^ 16
        → deliver_converted o c
            (record (api2_init o id src_ip src_port dst_ip dst_port encrypt_type ttl
              (length text)) { ttl = ttl - 1 })
            text
            s
          ≡ api_sent o c
              (19 + length text)
              (udp_send_v c.api_udp s.world
                (of_api (api_init o id src_ip src_port dst_ip dst_port (length text)) ∷ (text ∷ []))
                none
                (some (address_init4 dst_ip dst_port)))
              s
    unfolding deliver_converted api2_init api_init api_from
    deliver_converted-init encrypt_type text s l =
        rw (byte_order.ntohs-htons (length text) l, take-length (length text) text refl) refl

    -- A packet of the second protocol, not encrypted and with time left to live, goes to its destination as the
    -- packet of the first protocol with the same identifier, addresses and payload.
    pub on_decode-converts :
        (payload : List ℕ) (s : Effects W)
        → length payload < 2 ^ 16
        → on_decode o c (some s) (
            of_api2
              (api2_init o id src_ip src_port dst_ip dst_port encrypt_none ttl (length payload))
            ++ payload)
          ≡ (
            api_sent o c
                (19 + length payload)
                (udp_send_v c.api_udp s.world
                  (of_api (api_init o id src_ip src_port dst_ip dst_port (length payload))
                    ∷ (payload ∷ []))
                  none
                  (some (address_init4 dst_ip dst_port)))
                s,
            0,
          )
    unfolding deliver_by_type api2_init
    on_decode-converts payload s l =
        let h = api2_init o id src_ip src_port dst_ip dst_port encrypt_none ttl (length payload) in
        let fits =
          api2_init-Api2Fits o byte_order id src_ip src_port dst_ip dst_port encrypt_none ttl
            (length payload) id_lt src_ip_lt src_port_lt dst_ip_lt dst_port_lt ttl_lt l in
        let alive : leb ttl 0 ≡ false = ground arith in
        on_decode-of_api2 h payload s fits refl (omega arith)
          (byte_order.ntohs-htons (length payload) l)
        ∙ ap (λ (r : Option (Effects W)). (r, 0))
            (rw alive (deliver_converted-init encrypt_none payload s l))

    -- A packet of the second protocol that is encrypted and has time left to live, with a cipher text that
    -- decrypts to a text in its place, as the encoder's `buf` has it, goes to its destination as the packet of the
    -- first protocol with the same identifier and addresses and the text as payload.
    pub on_decode-sealed :
        (encryptor : Encryptor W) (text cipher : List ℕ) (s : Effects W) (w : W)
        → c.encryptor ≡ some encryptor
        → encryptor.decrypt s.world cipher ≡ (w, some text)
        → length text < 2 ^ 16
        → length cipher < 2 ^ 16
        → on_decode o c (some s) (
            sealed_message o
              (of_api2 (api2_init o id src_ip src_port dst_ip dst_port encrypt_kc ttl (length text))
                ++ text)
              cipher)
          ≡ (
            api_sent o c
                (19 + length text)
                (udp_send_v c.api_udp w
                  (of_api (api_init o id src_ip src_port dst_ip dst_port (length text))
                    ∷ (text ∷ []))
                  none
                  (some (address_init4 dst_ip dst_port)))
                (record s { world = w }),
            0,
          )
    unfolding deliver_by_type open_and_deliver deliver_opened api2_init deliver_converted api_sent
    on_decode-sealed encryptor text cipher s w e d l m =
        let plain = api2_init o id src_ip src_port dst_ip dst_port encrypt_kc ttl (length text) in
        let fits =
          api2_init-Api2Fits o byte_order id src_ip src_port dst_ip dst_port encrypt_kc ttl
            (length text) id_lt src_ip_lt src_port_lt dst_ip_lt dst_port_lt ttl_lt l in
        let h = api2_init o id src_ip src_port dst_ip dst_port encrypt_kc ttl (length cipher) in
        let fits' =
          api2_init-Api2Fits o byte_order id src_ip src_port dst_ip dst_port encrypt_kc ttl
            (length cipher) id_lt src_ip_lt src_port_lt dst_ip_lt dst_port_lt ttl_lt m in
        let alive : leb ttl 0 ≡ false = ground arith in
        rw (to_api2-of_api2 plain text fits, mod-eq_of_lt m)
          (on_decode-of_api2 h cipher s fits' refl (omega arith)
              (byte_order.ntohs-htons (length cipher) m)
            ∙ ap (λ (r : Option (Effects W)). (r, 0))
                (rw
                  (
                    alive,
                    e,
                    byte_order.ntohs-htons (length cipher) m,
                    take-length (length cipher) cipher refl,
                    d,
                    mod-eq_of_lt l,
                  )
                  (deliver_converted-init encrypt_kc text (record s { world = w }) l)))
