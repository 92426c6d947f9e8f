-- ===== src/Tunnel/RsFec.antt =====
-- The sender of the Reed-Solomon codec, `nt_rs_fec_encode` of src/main/tunnel/nt_rs_fec.c. The processors share
-- the generator of block numbers, so `idgen` is what it holds when it is asked, and what it holds then is a result;
-- a call that does not ask leaves it. A failed `ensure` is `none`. `memory` is what the array `encoded` holds at first.
pub mod Sends
mod Tests
use nettle.Prelude.{
  ℕ, zero, suc, ◌+◌, ◌-◌, ◌%◌, ◌^◌, ℤ, pos, negsuc, negative, Option, none, some, List, length,
  take, ◌==◌, if◌then◌else◌,
}
use nettle.Rs.Coder.{Rs, Ec, Packet, t_size, max_encoded_size, reset_ec}
use nettle.Rs.Coder.Send.{Encoded, encode_result}
use nettle.Rs.Coder.Send
use nettle.Rs.Coder.Receive.{rounds_to}
use nettle.Tunnel.Fec.{ByteOrder, Header, header_init}

-- `NT_RS_FEC_TAG` and `E_FEC_INTERNAL_ERROR`
abbrev pub rs_tag : ℕ
rs_tag = 69

abbrev pub internal_error : ℕ
internal_error = 100001

-- The sender's fields of `nt_rs_fec_t`, with its `encode_buffer_t`.
pub record RsFec : Type 0 where
  pub rs : Rs
  pub block_id : ℕ
  pub buffer : Ec

-- `reset_encode_buffer`
unfoldable pub reset_encode_buffer : RsFec → ℕ → RsFec × ℕ
reset_encode_buffer fec idgen =
    (record fec { block_id = idgen; buffer = reset_ec fec.rs }, (idgen + 1) % 2 ^ 32)

module _ (o : ByteOrder) where
  -- The header of a packet of this degree.
  unfoldable pub rs_header : RsFec → ℕ → ℕ → Header
  rs_header fec degree size =
      header_init o rs_tag (fec.rs.n % 256) (fec.rs.k % 256) fec.block_id
        ((fec.rs.n - 1 - degree) % 256) (size % 2 ^ 16)

  module _ {S : Type 0} (on_encode : S → Header → List ℕ → S × ℕ) where
    -- The loop over the redundant packets from `i` on.
    unfoldable pub redundant_loop : RsFec → ℕ → ℕ → List ℕ → S → S × ℕ
    redundant_loop fec zero i encoded s = (s, 0)
    redundant_loop fec (suc rounds) i encoded s =
        let p =
          encode_result fec.rs fec.buffer (pos i) encoded
            (pos (max_encoded_size fec.rs.max_data_size)) 0 in
        let r =
          on_encode s (rs_header fec p.degree (rounds_to p.size))
            (take (rounds_to p.size) p.buffer) in
        let rest = redundant_loop fec rounds (i + 1) p.buffer r.0 in
        if negative p.result then (s, internal_error) else if r.1 == 0 then rest else r

    -- After the loop.
    unfoldable pub send_redundant : RsFec → ℕ → ℕ → List ℕ → S → (RsFec × ℕ) × S × ℕ
    send_redundant fec idgen n memory s =
        let r = redundant_loop fec n 0 memory s in (reset_encode_buffer fec idgen, r.0, r.1)

    -- `nt_rs_fec_encode` after `rs_encode`, with its result, and with the packet in the buffer.
    unfoldable pub send_encoded :
        RsFec → ℕ → ℕ → ℤ → List ℕ → List ℕ → S → Option ((RsFec × ℕ) × S × ℕ)
    send_encoded fec idgen degree (negsuc _) memory input s = none
    send_encoded fec idgen degree (pos n) memory input s =
        let r = on_encode s (rs_header fec degree (length input)) input in
        if r.1 == 0
        then (if n == 0
            then some ((fec, idgen), r.0, 0)
            else some (send_redundant fec idgen n memory r.0))
        else some ((fec, idgen), r.0, r.1)

    unfoldable pub send_result :
        RsFec → ℕ → Option Encoded → List ℕ → List ℕ → S → Option ((RsFec × ℕ) × S × ℕ)
    send_result fec idgen none memory input s = none
    send_result fec idgen (some e) memory input s =
        send_encoded (record fec { buffer = e.ec }) idgen e.degree e.result memory input s

    -- `nt_rs_fec_encode`
    unfoldable pub rs_fec_encode : RsFec → ℕ → List ℕ → List ℕ → S → Option ((RsFec × ℕ) × S × ℕ)
    rs_fec_encode fec idgen memory input s =
        send_result fec idgen (Send.encode fec.rs fec.buffer input (pos (length input)) 0) memory
          input s
