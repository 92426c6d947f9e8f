-- ===== src/Tunnel/Proto.antt =====
-- The headers of the tunnel's client protocols, src/main/tunnel/nt_proto.h, src/main/tunnel/nt_proto.c,
-- src/main/tunnel/nt_proto2.h and src/main/tunnel/nt_proto2.c. `to_api` and `to_api2` are the casts of
-- a buffer to a header, `of_api` and `of_api2` the bytes of a header: packed structs whose words stand
-- with the low byte first. The byte order functions of the C library are parameters.
pub mod Layout
use nettle.Prelude.{
  ℕ, ◌+◌, ◌-◌, ◌%◌, ◌^◌, Bool, List, ◌++◌, ◌==◌, ◌&&◌, leb, ltb, get_or, replicate, take, drop,
  bytes_of, word_at,
}
use nettle.Tunnel.Fec.{ByteOrder}

-- `nt_api_header_t`; the fields whose name ends in `_n` are in the network's byte order, and so are
-- the addresses and ports.
pub record Api : Type 0 where
  pub tag : ℕ
  pub id_n : ℕ
  pub src_ip : ℕ
  pub src_port : ℕ
  pub dst_ip : ℕ
  pub dst_port : ℕ
  pub payload_size_n : ℕ

-- `nt_api2_header_t`
pub record Api2 : Type 0 where
  pub tag : ℕ
  pub id_n : ℕ
  pub src_ip : ℕ
  pub src_port : ℕ
  pub dst_ip : ℕ
  pub dst_port : ℕ
  pub encrypt_type : ℕ
  pub ttl : ℕ
  pub payload_size_n : ℕ
  pub reserved : List ℕ

-- `NT_API_TAG` and `NT_API2_TAG`
abbrev pub api_tag : ℕ
api_tag = 87

abbrev pub api2_tag : ℕ
api2_tag = 89

-- `nt_encrypt_type_t`
abbrev pub encrypt_none : ℕ
encrypt_none = 0

abbrev pub encrypt_kc : ℕ
encrypt_kc = 1

abbrev pub encrypt_num : ℕ
encrypt_num = 2

-- `sizeof(nt_api_header_t)` and `sizeof(nt_api2_header_t)`
abbrev pub api_size : ℕ
api_size = 19

abbrev pub api2_size : ℕ
api2_size = 28

unfoldable pub to_api : List ℕ → Api
to_api bytes = record {
  tag = word_at 1 bytes;
  id_n = word_at 4 (drop 1 bytes);
  src_ip = word_at 4 (drop 5 bytes);
  src_port = word_at 2 (drop 9 bytes);
  dst_ip = word_at 4 (drop 11 bytes);
  dst_port = word_at 2 (drop 15 bytes);
  payload_size_n = word_at 2 (drop 17 bytes);
}

unfoldable pub of_api : Api → List ℕ
of_api h =
    bytes_of 1 h.tag
    ++ (bytes_of 4 h.id_n
        ++ (bytes_of 4 h.src_ip
            ++ (bytes_of 2 h.src_port
                ++ (bytes_of 4 h.dst_ip
                    ++ (bytes_of 2 h.dst_port ++ bytes_of 2 h.payload_size_n)))))

unfoldable pub to_api2 : List ℕ → Api2
to_api2 bytes = record {
  tag = word_at 1 bytes;
  id_n = word_at 4 (drop 1 bytes);
  src_ip = word_at 4 (drop 5 bytes);
  src_port = word_at 2 (drop 9 bytes);
  dst_ip = word_at 4 (drop 11 bytes);
  dst_port = word_at 2 (drop 15 bytes);
  encrypt_type = word_at 1 (drop 17 bytes);
  ttl = word_at 1 (drop 18 bytes);
  payload_size_n = word_at 2 (drop 19 bytes);
  reserved = take 7 (drop 21 bytes);
}

unfoldable pub of_api2 : Api2 → List ℕ
of_api2 h =
    bytes_of 1 h.tag
    ++ (bytes_of 4 h.id_n
        ++ (bytes_of 4 h.src_ip
            ++ (bytes_of 2 h.src_port
                ++ (bytes_of 4 h.dst_ip
                    ++ (bytes_of 2 h.dst_port
                        ++ (bytes_of 1 h.encrypt_type
                            ++ (bytes_of 1 h.ttl
                                ++ (bytes_of 2 h.payload_size_n ++ h.reserved))))))))

-- `nt_api_header_from`
unfoldable pub api_from : Api2 → Api
api_from header = record {
  tag = api_tag;
  id_n = header.id_n;
  src_ip = header.src_ip;
  src_port = header.src_port;
  dst_ip = header.dst_ip;
  dst_port = header.dst_port;
  payload_size_n = header.payload_size_n;
}

-- `nt_api_header_is_valid`, of a buffer
abbrev pub api_is_valid : List ℕ → Bool
api_is_valid buffer = (to_api buffer).tag == api_tag

-- `nt_api2_header_is_valid`, of a buffer; the type of the encryption is not negative.
abbrev pub api2_is_valid : List ℕ → Bool
api2_is_valid buffer =
    ((to_api2 buffer).tag == api2_tag)
    && (leb encrypt_none (to_api2 buffer).encrypt_type
        && ltb (to_api2 buffer).encrypt_type encrypt_num)

module _ (o : ByteOrder) where
  -- `nt_api_header_init`
  unfoldable pub api_init : ℕ → ℕ → ℕ → ℕ → ℕ → ℕ → Api
  api_init id src_ip src_port dst_ip dst_port payload_size = record {
    tag = api_tag;
    id_n = o.htonl id;
    src_ip = src_ip;
    src_port = src_port;
    dst_ip = dst_ip;
    dst_port = dst_port;
    payload_size_n = o.htons payload_size;
  }

  -- `nt_api2_header_init`
  unfoldable pub api2_init : ℕ → ℕ → ℕ → ℕ → ℕ → ℕ → ℕ → ℕ → Api2
  api2_init id src_ip src_port dst_ip dst_port encrypt_type ttl payload_size = record {
    tag = api2_tag;
    id_n = o.htonl id;
    src_ip = src_ip;
    src_port = src_port;
    dst_ip = dst_ip;
    dst_port = dst_port;
    encrypt_type = encrypt_type % 256;
    ttl = ttl;
    payload_size_n = o.htons payload_size;
    reserved = replicate 7 0;
  }

  -- `nt_api_header_id` and `nt_api_header_payload_size`
  abbrev pub api_id : Api → ℕ
  api_id header = o.ntohl header.id_n

  abbrev pub api_payload_size : Api → ℕ
  api_payload_size header = o.ntohs header.payload_size_n

  -- `nt_api_message_size`
  abbrev pub api_message_size : Api → ℕ
  api_message_size header = api_size + api_payload_size header

  -- `nt_api2_header_id` and `nt_api2_header_payload_size`
  abbrev pub api2_id : Api2 → ℕ
  api2_id header = o.ntohl header.id_n

  abbrev pub api2_payload_size : Api2 → ℕ
  api2_payload_size header = o.ntohs header.payload_size_n

  -- `nt_api2_header_set_payload_size`
  abbrev pub api2_set_payload_size : Api2 → ℕ → Api2
  api2_set_payload_size header payload_size = record header {
    payload_size_n = o.htons payload_size;
  }

  -- `nt_api2_message_size`
  abbrev pub api2_message_size : Api2 → ℕ
  api2_message_size header = api2_size + api2_payload_size header

-- `nt_api_message_payload` and `nt_api2_message_payload`: what stands behind the header.
abbrev pub api_payload : List ℕ → List ℕ
api_payload buffer = drop api_size buffer

abbrev pub api2_payload : List ℕ → List ℕ
api2_payload buffer = drop api2_size buffer
