-- ===== src/Tunnel/Fec/Layout.antt =====
-- The header of a packet is read back from its bytes.
use nettle.Prelude.{ℕ, ◌^◌, ◌<◌, ◌≡◌, refl, List, ◌++◌, length}
use nettle.Tunnel.Fec.{Header, of_header, to_header, header_payload}
use nettle.Prelude.{word1, word2, word4}

-- The fields hold words of their widths.
pub record HeaderFits (h : Header) : Type 0 where
  pub tag_lt : h.tag < 256
  pub n_lt : h.n < 256
  pub k_lt : h.k < 256
  pub block_id_lt : h.block_id_n < 2 ^ 32
  pub block_index_lt : h.block_index < 256
  pub payload_size_lt : h.payload_size_n < 2 ^ 16

pub to_header-of_header :
    (h : Header) (rest : List ℕ) → HeaderFits h → to_header (of_header h ++ rest) ≡ h
unfolding to_header of_header
to_header-of_header h rest f = cc (
  word1 h.tag f.tag_lt,
  word1 h.n f.n_lt,
  word1 h.k f.k_lt,
  word4 h.block_id_n f.block_id_lt,
  word1 h.block_index f.block_index_lt,
  word2 h.payload_size_n f.payload_size_lt,
)

pub header_payload-of_header :
    (h : Header) (rest : List ℕ) → header_payload (of_header h ++ rest) ≡ rest
unfolding of_header
header_payload-of_header h rest = refl

pub length-of_header : (h : Header) → length (of_header h) ≡ 10
unfolding of_header
length-of_header h = refl
