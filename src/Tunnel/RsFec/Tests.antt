-- ===== src/Tunnel/RsFec/Tests.antt =====
-- The last packet of data of a block of two packets with one redundant packet.
use nettle.Prelude.{ℕ, ◌*◌, ◌≡◌, arith, some, List, [], ◌∷◌, ◌++◌, replicate}
use nettle.Rs.Coder.{Rs, rs_init, max_encoded_size}
use nettle.Tunnel.Fec.{ByteOrder}
use nettle.Tunnel.Fec.Codec.{Message, record_message}
use nettle.Tunnel.RsFec.{RsFec, rs_fec_encode}
use nettle.Tunnel.RsFec.Sends.{block_message, redundants, advanced, rs_fec_encode-sends}

abbrev direct_order : ByteOrder
direct_order = record { htonl = λ x. x; ntohl = λ x. x; htons = λ x. x; ntohs = λ x. x }

abbrev small_coder : Rs
small_coder = rs_init 3 2 4 (replicate 256 0) (replicate 256 0) (replicate 255 0)

abbrev half_full : RsFec
half_full = record {
  rs = small_coder;
  block_id = 6;
  buffer = record { count = 1; checks = replicate 8 0 };
}

abbrev last_packet : List ℕ
last_packet = 1 ∷ (2 ∷ (3 ∷ []))

abbrev no_messages : List Message
no_messages = []

rs_fec_encode-sends_example :
    rs_fec_encode direct_order record_message half_full 7 (replicate 8 9) last_packet no_messages
    ≡ some (
      (
        record {
          rs = small_coder;
          block_id = 7;
          buffer = record { count = 0; checks = replicate (max_encoded_size 4 * 1) 0 };
        },
        8,
      ),
      (no_messages ++ block_message direct_order half_full 1 last_packet ∷ [])
          ++ redundants direct_order (advanced half_full last_packet) 1 0 (replicate 8 9),
      0,
    )
unfolding rs_init
rs_fec_encode-sends_example =
    rs_fec_encode-sends direct_order half_full (omega arith) (omega arith) 7 (replicate 8 9)
      last_packet no_messages (omega arith) (omega arith)
