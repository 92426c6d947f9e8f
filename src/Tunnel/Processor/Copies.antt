-- ===== src/Tunnel/Processor/Copies.antt =====
-- The copies that `on_encode` of src/main/tunnel/nt_fec_processor.c sends, against the distributor's row.
use nettle.Prelude.{
  length-append, ℕ, zero, suc, ◌+◌, ◌*◌, ◌%◌, ◌≤◌, ◌<◌, ◌≡◌, refl, ap, ◌∙◌, arith, ℤ, pos, negsuc,
  Option, none, some, List, [], ◌∷◌, ◌++◌, length, get_or, take, drop,
}
use nettle.Tunnel.Fec.Layout.{length-of_header}
use mathlib.Core.List.{append-nil}
use nettle.Dispatcher.Counters.{Counter, perf_inc}
use nettle.Dispatcher.Udp.{SendsWhole, udp_send_v, udp_send_v-whole, Sent, sent}
use nettle.Tunnel.Distributor.{Distributor, no_path, path, select}
use nettle.Tunnel.Fec.{header_message_size, header_payload_size, ByteOrder, Header, of_header}
use nettle.Tunnel.Processor.Types.{null_path, Config, Effects}
use nettle.Tunnel.Processor.Outcome.{into_tunnel, tun_sent_lem}
use nettle.Tunnel.Processor.Encoder.{send_copy, send_copies, on_encode}

-- The path numbers of a list up to the first negative one.
unfoldable pub chosen : List ℤ → List ℕ
chosen [] = []
chosen (negsuc _ ∷ _) = []
chosen (pos n ∷ row) = n ∷ chosen row

-- The row of the matrix for the packet `seq` of a block.
unfoldable pub row_of : Distributor → ℕ → List ℤ
row_of d seq = take d.dup_num (drop (seq % d.seq_num * d.dup_num) d.seq2addr)

module _ (o : ByteOrder) {W : Type 0} (c : Config W) (header : Header) (payload : List ℕ) where
  -- One datagram of the header and the payload to each path of a list, in its order, from the source to the
  -- destination of the path.
  unfoldable pub send_each : List ℕ → Effects W → Option (Effects W)
  send_each [] s = some s
  send_each (n ∷ ns) s =
      elim (into_tunnel (header_message_size o header)
        (udp_send_v c.tun_udp s.world (of_header header ∷ (payload ∷ []))
          (some (get_or c.paths n null_path).src) (some (get_or c.paths n null_path).dst))
        s) [ none ↦ none | some s' ↦ send_each ns s' ]

row_step :
    (s : List ℤ) (base n : ℕ)
    → chosen (take (suc n) (drop base s)) ≡ elim (get_or s base (negsuc 0)) [
      | negsuc _ ↦ []
      | pos p ↦ p ∷ chosen (take n (drop (suc base) s))
    ]
unfolding chosen
row_step [] zero n = refl
row_step [] (suc base) n = refl
row_step (pos p ∷ s) zero n = refl
row_step (negsuc p ∷ s) zero n = refl
row_step (x ∷ s) (suc base) n = row_step s base n

select-entry :
    (d : Distributor) (seq i : ℕ)
    → i < d.dup_num
    → 0 < d.seq_num
    → select d seq i ≡ elim (get_or d.seq2addr (seq % d.seq_num * d.dup_num + i) (negsuc 0)) [
      | negsuc _ ↦ some no_path
      | pos n ↦ some (path n)
    ]
unfolding select
select-entry d seq i l h = ground arith

select-end : (d : Distributor) (seq i : ℕ) → d.dup_num ≤ i → select d seq i ≡ some no_path
unfolding select
select-end d seq i l = ground arith

module _ (o : ByteOrder) {W : Type 0} (c : Config W) (header : Header) (payload : List ℕ) where
  same_rest :
      (r : Option (Effects W)) (f g : Effects W → Option (Effects W))
      → ((s : Effects W) → f s ≡ g s)
      → ◌≡◌ {A = Option (Effects W)}
          (elim r [ none ↦ none | some s ↦ f s ])
          (elim r [ none ↦ none | some s ↦ g s ])
  same_rest none f g h = refl
  same_rest (some s) f g h = h s

  send_copy_lem :
      (n : ℕ) (s : Effects W)
      → send_copy o c header payload n s
        ≡ into_tunnel
            (header_message_size o header)
            (udp_send_v c.tun_udp s.world
              (of_header header ∷ (payload ∷ []))
              (some (get_or c.paths n null_path).src)
              (some (get_or c.paths n null_path).dst))
            s
  unfolding send_copy
  send_copy_lem n s = tun_sent_lem o c header _ s

  -- The rest of the loop after the round whose entry of the matrix is known.
  copy_step :
      (entry : ℤ) (fuel i : ℕ) (ns : List ℕ) (s : Effects W)
      → ((s' : Effects W)
          → send_copies o c fuel header payload (i + 1) s' ≡ send_each o c header payload ns s')
      → get_or c.distributor.seq2addr
          (header.block_index % c.distributor.seq_num * c.distributor.dup_num + i)
          (negsuc 0)
        ≡ entry
      → i < c.distributor.dup_num
      → 0 < c.distributor.seq_num
      → send_copies o c (suc fuel) header payload i s
        ≡ send_each o c header payload (elim entry [ negsuc _ ↦ [] | pos p ↦ p ∷ ns ]) s
  unfolding send_copies send_each
  copy_step (negsuc _) fuel i ns s ih e l h =
      rw (send_copies, select-entry c.distributor header.block_index i l h, e) refl
  copy_step (pos p) fuel i ns s ih e l h =
      rw (send_copies, select-entry c.distributor header.block_index i l h, e, send_copy_lem p s)
        (same_rest _ _ _ ih)

  send_copies-row :
      (n i : ℕ) (s : Effects W)
      → i + n ≡ c.distributor.dup_num
      → 0 < c.distributor.seq_num
      → send_copies o c (suc n) header payload i s
        ≡ send_each o c header payload
            (chosen (
              take n (
                drop
                  (header.block_index % c.distributor.seq_num * c.distributor.dup_num + i)
                  c.distributor.seq2addr)))
            s
  unfolding send_each send_copies chosen
  send_copies-row zero i s e h =
      rw (send_copies, select-end c.distributor header.block_index i (omega arith)) refl
  send_copies-row (suc n) i s e h =
      let base = header.block_index % c.distributor.seq_num * c.distributor.dup_num in
      rw (row_step c.distributor.seq2addr (base + i) n) (
        copy_step _ (suc n) i (chosen (take n (drop (suc (base + i)) c.distributor.seq2addr))) s
          (λ s'.
            send_copies-row n (i + 1) s' (omega arith) h
            ∙ ap
                (λ k.
                  send_each o c header payload (chosen (take n (drop k c.distributor.seq2addr))) s')
                {x = base + (i + 1)} {y = suc (base + i)} (omega arith))
          refl (omega arith) h)

  -- When the distributor has a row in use, `on_encode` sends a datagram of the header and the packet once to each
  -- path of the row of the packet's index up to the first negative entry, in this order, from the path's source
  -- to its destination, counts each by what its call gives, and returns 0.
  pub on_encode-row :
      (s : Effects W)
      → 0 < c.distributor.seq_num
      → on_encode o c (some s) header payload
        ≡ (send_each o c header payload (chosen (row_of c.distributor header.block_index)) s, 0)
  unfolding on_encode row_of
  on_encode-row s h =
      ap (λ r. (r, 0))
        (send_copies-row c.distributor.dup_num 0 s (omega arith) h
          ∙ ap
              (λ k.
                send_each o c header payload
                  (chosen (take c.distributor.dup_num (drop k c.distributor.seq2addr))) s)
              {x = header.block_index % c.distributor.seq_num * c.distributor.dup_num + 0}
              {y = header.block_index % c.distributor.seq_num * c.distributor.dup_num}
              (omega arith))

  into_tunnel-returns :
      (r : W × Sent) (size : ℕ) (s : Effects W)
      → ((n : ℕ) → r.1 ≡ sent n → n ≡ size)
      → (s' : Effects W) × (into_tunnel size r s ≡ some s')
  unfolding into_tunnel
  into_tunnel-returns (w, Sent.failed _) size s whole = (_, refl)
  into_tunnel-returns (w, sent n) size s whole = (
    record {
      world = w;
      perf = perf_inc (perf_inc s.perf Counter.tun_sent 1) Counter.tun_sent_bytes n;
    },
    ground (arith, whole n refl),
  )

  copy-returns :
      (n : ℕ) (s : Effects W)
      → SendsWhole c.tun_udp
      → header_payload_size o header ≡ length payload
      → (s' : Effects W) × (into_tunnel
            (header_message_size o header)
            (udp_send_v c.tun_udp s.world
              (of_header header ∷ (payload ∷ []))
              (some (get_or c.paths n null_path).src)
              (some (get_or c.paths n null_path).dst))
            s
          ≡ some s')
  copy-returns n s law e = into_tunnel-returns _ _ s (λ m f.
      udp_send_v-whole c.tun_udp law s.world (of_header header ∷ (payload ∷ [])) _ _ m f
      ∙ omega (
        arith,
        e,
        length-of_header header,
        ap length (append-nil payload),
        length-append (of_header header) (payload ++ []),
      ))

  pub send_each-returns :
      (ns : List ℕ) (s : Effects W)
      → SendsWhole c.tun_udp
      → header_payload_size o header ≡ length payload
      → (s' : Effects W) × (send_each o c header payload ns s ≡ some s')
  unfolding send_each
  send_each-returns [] s law e = (s, refl)
  send_each-returns (n ∷ ns) s law e =
      let (s', first) = copy-returns n s law e in
      let (last, rest) = send_each-returns ns s' law e in (last, rw (send_each, first) rest)

  -- When the distributor has a row in use, the sockets send a datagram whole or not at all, and the header
  -- says the payload's size, `on_encode` ends, fails no `ensure` and returns 0.
  pub on_encode-returns :
      (s : Effects W)
      → 0 < c.distributor.seq_num
      → SendsWhole c.tun_udp
      → header_payload_size o header ≡ length payload
      → (s' : Effects W) × (on_encode o c (some s) header payload ≡ (some s', 0))
  on_encode-returns s h law e =
      let done = send_each-returns (chosen (row_of c.distributor header.block_index)) s law e in
      (done.0, on_encode-row s h ∙ ap (λ r. (r, 0)) done.1)
