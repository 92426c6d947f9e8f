-- ===== src/Tunnel/Proto/Layout.antt =====
-- A header is read back from its bytes.
use nettle.Prelude.{drop-append, take-append, length, ℕ, ◌^◌, ◌<◌, ◌≡◌, refl, arith, List, ◌++◌}
use nettle.Prelude.{word1, word2, word4}
use nettle.Tunnel.Proto.{api2_payload, of_api2, api_payload, to_api2, Api2, Api, to_api, of_api}

-- The fields hold words of their widths.
pub record ApiFits (h : Api) : Type 0 where
  pub tag_lt : h.tag < 256
  pub id_lt : h.id_n < 2 ^ 32
  pub src_ip_lt : h.src_ip < 2 ^ 32
  pub src_port_lt : h.src_port < 2 ^ 16
  pub dst_ip_lt : h.dst_ip < 2 ^ 32
  pub dst_port_lt : h.dst_port < 2 ^ 16
  pub payload_size_lt : h.payload_size_n < 2 ^ 16

pub to_api-of_api : (h : Api) (rest : List ℕ) → ApiFits h → to_api (of_api h ++ rest) ≡ h
unfolding to_api of_api
to_api-of_api h rest f = cc (
  word1 h.tag f.tag_lt,
  word4 h.id_n f.id_lt,
  word4 h.src_ip f.src_ip_lt,
  word2 h.src_port f.src_port_lt,
  word4 h.dst_ip f.dst_ip_lt,
  word2 h.dst_port f.dst_port_lt,
  word2 h.payload_size_n f.payload_size_lt,
)

pub record Api2Fits (h : Api2) : Type 0 where
  pub tag_lt : h.tag < 256
  pub id_lt : h.id_n < 2 ^ 32
  pub src_ip_lt : h.src_ip < 2 ^ 32
  pub src_port_lt : h.src_port < 2 ^ 16
  pub dst_ip_lt : h.dst_ip < 2 ^ 32
  pub dst_port_lt : h.dst_port < 2 ^ 16
  pub encrypt_type_lt : h.encrypt_type < 256
  pub ttl_lt : h.ttl < 256
  pub payload_size_lt : h.payload_size_n < 2 ^ 16
  pub reserved_length : length h.reserved ≡ 7

pub to_api2-of_api2 : (h : Api2) (rest : List ℕ) → Api2Fits h → to_api2 (of_api2 h ++ rest) ≡ h
unfolding to_api2 of_api2
to_api2-of_api2 h rest f = cc (
  word1 h.tag f.tag_lt,
  word4 h.id_n f.id_lt,
  word4 h.src_ip f.src_ip_lt,
  word2 h.src_port f.src_port_lt,
  word4 h.dst_ip f.dst_ip_lt,
  word2 h.dst_port f.dst_port_lt,
  word1 h.encrypt_type f.encrypt_type_lt,
  word1 h.ttl f.ttl_lt,
  word2 h.payload_size_n f.payload_size_lt,
  take-append 7 h.reserved rest f.reserved_length,
)

pub api_payload-of_api : (h : Api) (rest : List ℕ) → api_payload (of_api h ++ rest) ≡ rest
unfolding of_api
api_payload-of_api h rest = refl

pub api2_payload-of_api2 :
    (h : Api2) (rest : List ℕ) → Api2Fits h → api2_payload (of_api2 h ++ rest) ≡ rest
unfolding of_api2
api2_payload-of_api2 h rest f = drop-append 7 h.reserved rest f.reserved_length

pub length-of_api : (h : Api) → length (of_api h) ≡ 19
unfolding of_api
length-of_api h = refl

pub length-of_api2 : (h : Api2) → Api2Fits h → length (of_api2 h) ≡ 28
unfolding of_api2
length-of_api2 h f = omega (arith, f.reserved_length)
