-- ===== src/Tunnel/Fec/Codec.antt =====
-- What the codecs of src/main/tunnel/nt_fec.c and src/main/tunnel/nt_dup_fec.c send.
use nettle.Prelude.{
  ℕ, zero, suc, ◌+◌, ◌%◌, ◌^◌, ◌<◌, ◌≡◌, refl, sym, ap, ◌∙◌, List, [], ◌∷◌, ◌++◌, length, map,
}
use mathlib.Core.List.{append-nil, append_assoc, head-eq_of_cons-eq, tail-eq_of_cons-eq}
use nettle.Tunnel.Fec.{
  of_header, to_header, header_payload, Header, ByteOrder, IsByteOrder, dup_tag, header_init,
  header_block_id, header_payload_size, dummy_encode, dummy_decode, dup_loop, dup_encode,
}
use nettle.Tunnel.Fec.Layout.{HeaderFits, to_header-of_header, header_payload-of_header}

-- A message on the wire.
pub record Message : Type 0 where
  pub header : Header
  pub payload : List ℕ

-- A callback that records what it is handed, and accepts it.
unfoldable pub record_message : List Message → Header → List ℕ → List Message × ℕ
record_message sent header payload = (sent ++ record { header = header; payload = payload } ∷ [], 0)

-- The numbers from `i` on, `n` of them.
unfoldable pub upward : ℕ → ℕ → List ℕ
upward zero i = []
upward (suc n) i = i ∷ upward n (i + 1)

-- A packet of the tunnel whose header was made of words of their widths, and that was written byte for byte, is
-- read as a header with the same tag, numbers, index, block and size, the block and the size out of the order of
-- bytes of the network, and with the same payload.
pub to_header-header_init :
    (o : ByteOrder) (w : IsByteOrder o) (tag n k block_id block_index payload_size : ℕ)
    (payload : List ℕ)
    → tag < 256
    → n < 256
    → k < 256
    → block_id < 2 ^ 32
    → block_index < 256
    → payload_size < 2 ^ 16
    → let packet = of_header (header_init o tag n k block_id block_index payload_size) ++ payload in
      ((to_header packet).tag ≡ tag)
      × ((to_header packet).n ≡ n)
      × ((to_header packet).k ≡ k)
      × ((to_header packet).block_index ≡ block_index)
      × (header_block_id o (to_header packet) ≡ block_id)
      × (header_payload_size o (to_header packet) ≡ payload_size)
      × (header_payload packet ≡ payload)
unfolding header_init
to_header-header_init o w tag n k block_id block_index payload_size payload ht hn hk hb hi hp =
    let h = header_init o tag n k block_id block_index payload_size in
    let fits : HeaderFits h = record {
      tag_lt = ht;
      n_lt = hn;
      k_lt = hk;
      block_id_lt = w.htonl-lt block_id hb;
      block_index_lt = hi;
      payload_size_lt = w.htons-lt payload_size hp;
    } in
    rw (to_header-of_header h payload fits) (
      refl,
      refl,
      refl,
      refl,
      w.ntohl-htonl block_id hb,
      w.ntohs-htons payload_size hp,
      header_payload-of_header h payload,
    )

-- The copy `i` of a packet.
abbrev pub copy_of : ByteOrder → ℕ → ℕ → List ℕ → ℕ → Message
copy_of o n block_id input i = record {
  header = header_init o dup_tag n 1 block_id i (length input % 2 ^ 16);
  payload = input;
}

dup_loop-copies :
    (o : ByteOrder) (n block_id rounds i : ℕ) (input : List ℕ) (sent : List Message)
    → dup_loop o record_message n block_id input rounds i sent
      ≡ (sent ++ map (copy_of o n block_id input) (upward rounds i), 0)
unfolding dup_loop upward record_message
dup_loop-copies o n block_id zero i input sent = ap (λ l. (l, 0)) (sym (append-nil sent))
dup_loop-copies o n block_id (suc rounds) i input sent =
    dup_loop-copies o n block_id rounds (i + 1) input (sent ++ copy_of o n block_id input i ∷ [])
    ∙ ap (λ l. (l, 0))
        (append_assoc sent (copy_of o n block_id input i ∷ [])
          (map (copy_of o n block_id input) (upward rounds (i + 1))))

-- With a callback that accepts every message, `nt_dup_fec_encode` sends one message for each of its
-- copies, numbered from 0, with the packet as payload, and returns 0; the generator is counted on.
pub dup_encode-copies :
    (o : ByteOrder) (n id : ℕ) (input : List ℕ) (sent : List Message)
    → dup_encode o record_message n id input sent
      ≡ ((sent ++ map (copy_of o n id input) (upward n 0), 0), (id + 1) % 2 ^ 32)
unfolding dup_encode
dup_encode-copies o n id input sent =
    ap (λ r. (r, (id + 1) % 2 ^ 32)) (dup_loop-copies o n id n 0 input sent)

-- `nt_dummy_fec_encode` hands its callback one message with the packet as payload, and
-- `nt_dummy_fec_decode` of that message hands the packet to its own callback and returns its result.
pub dummy_decode-encode :
    (o : ByteOrder) (S : Type 0) (on_decode : S → List ℕ → S × ℕ) (invalid_header : ℕ)
    (input : List ℕ) (s : S) (sent : List Message) (m : Message)
    → dummy_encode o record_message input [] ≡ (m ∷ sent, 0)
    → (sent ≡ [])
      × (dummy_decode o on_decode invalid_header m.header m.payload s ≡ on_decode s input)
unfolding dummy_encode dummy_decode record_message header_init
dummy_decode-encode o S on_decode invalid_header input s sent m e =
    let l = ap (λ (r : List Message × ℕ). r.0) e in
    (
      sym (tail-eq_of_cons-eq l),
      ap (λ (q : Message). dummy_decode o on_decode invalid_header q.header q.payload s)
          (sym (head-eq_of_cons-eq l)),
    )
