-- ===== src/Tunnel/Processor/Tests.antt =====
-- Runs of the encoder, the decoder and the client on concrete datagrams.
use nettle.Prelude.{ℕ, ◌+◌, ◌≡◌, refl, arith, pos, negsuc, none, some, List, [], ◌∷◌, ◌++◌, length}
use nettle.Dispatcher.Address.{Address, inet, address_init4}
use nettle.Dispatcher.Udp.{
  local_address, recv_v, Udp, Reply, SendsWhole, joined, udp_send_v, udp_sendto, udp_recv_v,
}
use nettle.Tunnel.Fec.{ByteOrder, IsByteOrder, Header, dummy_fec, header_init, of_header}
use nettle.Tunnel.Proto.{to_api, api_init, of_api, api2_init, of_api2, encrypt_none, encrypt_kc}
use nettle.Tunnel.Processor.Types.{Config, Effects, Processor, Encryptor}
use nettle.Tunnel.Processor.Encoder.{on_encode, encoder_on_message, sealed_message}
use nettle.Tunnel.Processor.Decoder.{on_decode, decoder_on_message, api_sent, fec_invalid_header}
use nettle.Tunnel.Processor.Copies.{chosen, row_of, send_each, on_encode-row, on_encode-returns}
use nettle.Tunnel.Processor.Outcome.{to_client, processor_with}
use nettle.Tunnel.Processor.Safe.{on_decode-returns}
use nettle.Tunnel.Processor.Deliver.{on_decode-converts, on_decode-sealed}
use nettle.Tunnel.Processor.Plain.{plain_header, decoder-encoder, encoder_on_message-returns}
use nettle.Tunnel.Client.{
  tunnel_iov, tunnel2_iov, udp_recvfrom_tunnel, udp_recvfrom_tunnel2, delivered, delivered2,
}
use nettle.Tunnel.Client.Exchange.{recvfrom_tunnel-iov, recvfrom_tunnel2-iov}

abbrev same_order : ByteOrder
same_order = record { htonl = λ x. x; ntohl = λ x. x; htons = λ x. x; ntohs = λ x. x }

same_order-IsByteOrder : IsByteOrder same_order
same_order-IsByteOrder = record {
  ntohl-htonl = λ x h. refl;
  ntohs-htons = λ x h. refl;
  htonl-lt = λ x h. h;
  htons-lt = λ x h. h;
  ntohl-lt = λ x h. h;
  ntohs-lt = λ x h. h;
}

-- The world is the datagrams sent, the last one first; what is received is the last one sent, by a
-- fixed sender.
abbrev Wire : Type 0
Wire = List (List ℕ)

abbrev peer : Address
peer = inet 9 5

abbrev last_sent : Wire → Reply
last_sent [] = record { size = negsuc 0; bytes = []; name = peer; controls = [] }
last_sent (d ∷ _) = record { size = pos (length d); bytes = d; name = peer; controls = [] }

abbrev wire : Udp Wire
wire = record {
  sendmsg = λ w m. (joined m.iov ∷ w, pos (length (joined m.iov)));
  sendto = λ w bytes address. (bytes ∷ w, pos (length bytes));
  recvmsg = λ w lens. (w, last_sent w);
  recvfrom = λ w len. (w, last_sent w);
  errno = λ w. 11;
}

wire-SendsWhole : SendsWhole wire
wire-SendsWhole = record {
  sendmsg_whole = λ w m n e. ground arith;
  sendto_whole = λ w bytes address n e. ground arith;
}

abbrev cipher : Encryptor Wire
cipher = record {
  encrypt = λ w text. (w, some (7 ∷ text));
  decrypt = λ w text. (w, elim text [ [] ↦ none | x ∷ xs ↦ some xs ]);
}

-- Two copies of each packet, one to each of two paths.
abbrev config : Config Wire
config = record {
  distributor = record { path_num = 2; seq2addr = pos 1 ∷ (pos 0 ∷ []); seq_num = 1; dup_num = 2 };
  paths =
      record { src = inet 1 1; dst = inet 2 2 } ∷ (record { src = inet 3 3; dst = inet 4 4 } ∷ []);
  api_udp = wire;
  tun_udp = wire;
  encryptor = some cipher;
}

abbrev start : Effects Wire
start = record { world = []; perf = λ c. 0 }

abbrev processor : Processor (Unit {0}) Wire
processor = record { fec = tt; effects = start }

abbrev packet : List ℕ
packet = 1 ∷ (2 ∷ (3 ∷ []))

abbrev some_header : Header
some_header = header_init same_order 49 2 1 6 3 3

on_encode-row_example : on_encode same_order config (some start) some_header packet ≡ (
  send_each same_order config some_header packet (chosen (row_of config.distributor 3)) start,
  0,
)
unfolding header_init
on_encode-row_example = on_encode-row same_order config some_header packet start (omega arith)

on_encode-returns_example :
    (s' : Effects Wire) × (on_encode same_order config (some start) some_header packet
      ≡ (some s', 0))
unfolding header_init
on_encode-returns_example =
    on_encode-returns same_order config some_header packet start (omega arith) wire-SendsWhole refl

on_decode-returns_example :
    (s' : Effects Wire) × (on_decode same_order config (some start) packet ≡ (some s', 0))
on_decode-returns_example =
    on_decode-returns same_order same_order-IsByteOrder config wire-SendsWhole packet start

on_decode-converts_example :
    on_decode same_order config
      (some start)
      (of_api2 (api2_init same_order 70000 1 2 3 4 encrypt_none 8 (length packet)) ++ packet)
    ≡ (
      api_sent same_order config
          (19 + length packet)
          (udp_send_v wire []
            (of_api (api_init same_order 70000 1 2 3 4 (length packet)) ∷ (packet ∷ []))
            none
            (some (address_init4 3 4)))
          start,
      0,
    )
on_decode-converts_example =
    on_decode-converts same_order config same_order-IsByteOrder 70000 1 2 3 4 8 (omega arith)
      (omega arith) (omega arith) (omega arith) (omega arith) (omega arith) (omega arith) packet
      start (omega arith)

on_decode-sealed_example :
    on_decode same_order config (some start) (
      sealed_message same_order
        (of_api2 (api2_init same_order 70000 1 2 3 4 encrypt_kc 8 (length packet)) ++ packet)
        (7 ∷ packet))
    ≡ (
      api_sent same_order config
          (19 + length packet)
          (udp_send_v wire []
            (of_api (api_init same_order 70000 1 2 3 4 (length packet)) ∷ (packet ∷ []))
            none
            (some (address_init4 3 4)))
          start,
      0,
    )
on_decode-sealed_example =
    on_decode-sealed same_order config same_order-IsByteOrder 70000 1 2 3 4 8 (omega arith)
      (omega arith) (omega arith) (omega arith) (omega arith) (omega arith) (omega arith) cipher
      packet (7 ∷ packet) start [] refl refl (omega arith) (omega arith)

-- A packet of the first protocol.
abbrev message : List ℕ
message =
    87
    ∷ (0
        ∷ (0
            ∷ (0
                ∷ (5
                    ∷ (0
                        ∷ (0
                            ∷ (0
                                ∷ (0
                                    ∷ (0
                                        ∷ (0
                                            ∷ (3
                                                ∷ (0
                                                    ∷ (0
                                                        ∷ (0
                                                            ∷ (4
                                                            ∷ (0
                                                            ∷ (3 ∷ (0 ∷ packet))))))))))))))))))

decoder-encoder_example :
    (encoder_on_message same_order config
        (dummy_fec same_order fec_invalid_header)
        message
        processor
      ≡ processor_with tt (
          send_each same_order config
            (plain_header same_order message)
            message
            (chosen (row_of config.distributor 0))
            start))
    × (decoder_on_message same_order config
          (dummy_fec same_order fec_invalid_header)
          (joined (of_header (plain_header same_order message) ∷ (message ∷ [])))
          processor
        ≡ processor_with tt (
            to_client
              (length message)
              (udp_sendto wire [] message
                (address_init4 (to_api message).dst_ip (to_api message).dst_port))
              start))
unfolding to_api
decoder-encoder_example =
    decoder-encoder same_order same_order-IsByteOrder config message processor processor
      (omega arith) (omega arith) refl refl

encoder_on_message-returns_example :
    (p' : Processor (Unit {0}) Wire) × (encoder_on_message same_order config
        (dummy_fec same_order fec_invalid_header)
        message
        processor
      ≡ some p')
unfolding to_api
encoder_on_message-returns_example =
    encoder_on_message-returns same_order same_order-IsByteOrder config message processor
      wire-SendsWhole (omega arith) (omega arith) refl refl

recvfrom_tunnel-iov_example :
    (udp_recvfrom_tunnel same_order wire
      (joined (tunnel_iov same_order packet peer 70000) ∷ [])
      1500).1
    ≡ delivered
        (record { payload = packet; src_addr = inet 0 0; id = 70000; tunnel_addr = peer; size = 3 })
unfolding udp_recv_v recv_v local_address
recvfrom_tunnel-iov_example =
    recvfrom_tunnel-iov same_order same_order-IsByteOrder wire
      (joined (tunnel_iov same_order packet peer 70000) ∷ []) peer none packet peer 70000 1500 refl
      (omega arith) (omega arith) (omega arith) (omega arith)

recvfrom_tunnel2-iov_example :
    (udp_recvfrom_tunnel2 same_order wire
      (joined (tunnel2_iov same_order packet peer 70000 1 8) ∷ [])
      1500).1
    ≡ delivered2
        (record { payload = packet; src_addr = inet 0 0; id = 70000; tunnel_addr = peer; size = 3 })
        1
        8
unfolding udp_recv_v recv_v local_address
recvfrom_tunnel2-iov_example =
    recvfrom_tunnel2-iov same_order same_order-IsByteOrder wire
      (joined (tunnel2_iov same_order packet peer 70000 1 8) ∷ []) peer none packet peer 70000 1500
      1 8 refl (omega arith) (omega arith) (omega arith) (omega arith) (omega arith) (omega arith)
