-- ===== src/Tunnel/Client/Exchange.antt =====
-- What one client sends, another receives.
use nettle.Prelude.{
  ℕ, ◌%◌, ◌^◌, ◌<◌, ◌≡◌, refl, arith, Option, List, [], ◌∷◌, ◌++◌, length, length-append,
}
use native.Mathlib.Nat.{mod-eq_of_lt}
use mathlib.Core.List.{append-nil}
use nettle.Dispatcher.Address.{Address, address_get_addr4, address_get_port, address_init4}
use nettle.Dispatcher.Udp.{Udp, received, joined, udp_recv_v}
use nettle.Tunnel.Fec.{ByteOrder, IsByteOrder}
use nettle.Tunnel.Proto.{api_init, api2_init, api_size, api2_size}
use nettle.Tunnel.Proto.Layout.{
  length-of_api2, length-of_api, ApiFits, Api2Fits, to_api-of_api, to_api2-of_api2,
  api_payload-of_api, api2_payload-of_api2,
}
use nettle.Tunnel.Client.{
  of_api2, delivered2, of_api, tunnel_iov, tunnel2_iov, accept_tunnel, accept_tunnel2, delivered,
  udp_recvfrom_tunnel, udp_recvfrom_tunnel2,
}

module _ (o : ByteOrder) (w : IsByteOrder o) where
  pub api_init-ApiFits :
      (id src_ip src_port dst_ip dst_port payload_size : ℕ)
      → id < 2 ^ 32
      → src_ip < 2 ^ 32
      → src_port < 2 ^ 16
      → dst_ip < 2 ^ 32
      → dst_port < 2 ^ 16
      → payload_size < 2 ^ 16
      → ApiFits (api_init o id src_ip src_port dst_ip dst_port payload_size)
  unfolding api_init
  api_init-ApiFits id src_ip src_port dst_ip dst_port payload_size a b c d e f = record {
    tag_lt = omega arith;
    id_lt = w.htonl-lt id a;
    src_ip_lt = b;
    src_port_lt = c;
    dst_ip_lt = d;
    dst_port_lt = e;
    payload_size_lt = w.htons-lt payload_size f;
  }

  accept_tunnel-iov :
      (buf : List ℕ) (dst tunnel : Address) (id : ℕ) (local : Option Address)
      → length buf < 2 ^ 16
      → id < 2 ^ 32
      → address_get_addr4 dst < 2 ^ 32
      → address_get_port dst < 2 ^ 16
      → accept_tunnel o (
          received
            (length (joined (tunnel_iov o buf dst id)))
            (joined (tunnel_iov o buf dst id))
            tunnel
            local)
        ≡ delivered (record {
          payload = buf;
          src_addr = address_init4 0 0;
          id = id;
          tunnel_addr = tunnel;
          size = length buf;
        })
  unfolding accept_tunnel api_init
  accept_tunnel-iov buf dst tunnel id local a b c d =
      let h =
        api_init o id 0 0 (address_get_addr4 dst) (address_get_port dst) (length buf % 2 ^ 16) in
      let fits =
        api_init-ApiFits id 0 0 _ _ (length buf % 2 ^ 16) b (omega arith) (omega arith) c d
          (omega arith) in
      rw (to_api-of_api h (buf ++ []) fits, api_payload-of_api h, append-nil buf)
        (ground (
          arith,
          length-append (of_api h) buf,
          length-of_api h,
          mod-eq_of_lt a,
          w.ntohs-htons (length buf) a,
          w.ntohl-htonl id b,
        ))

  pub api2_init-Api2Fits :
      (id src_ip src_port dst_ip dst_port encrypt_type ttl payload_size : ℕ)
      → id < 2 ^ 32
      → src_ip < 2 ^ 32
      → src_port < 2 ^ 16
      → dst_ip < 2 ^ 32
      → dst_port < 2 ^ 16
      → ttl < 256
      → payload_size < 2 ^ 16
      → Api2Fits (api2_init o id src_ip src_port dst_ip dst_port encrypt_type ttl payload_size)
  unfolding api2_init
  api2_init-Api2Fits id src_ip src_port dst_ip dst_port encrypt_type ttl payload_size a b c d e g
        f =
      record {
        tag_lt = omega arith;
        id_lt = w.htonl-lt id a;
        src_ip_lt = b;
        src_port_lt = c;
        dst_ip_lt = d;
        dst_port_lt = e;
        encrypt_type_lt = omega arith;
        ttl_lt = g;
        payload_size_lt = w.htons-lt payload_size f;
        reserved_length = refl;
      }

  accept_tunnel2-iov :
      (buf : List ℕ) (dst tunnel : Address) (id encrypt_type ttl : ℕ) (local : Option Address)
      → length buf < 2 ^ 16
      → id < 2 ^ 32
      → address_get_addr4 dst < 2 ^ 32
      → address_get_port dst < 2 ^ 16
      → encrypt_type < 2
      → ttl < 256
      → accept_tunnel2 o (
          received
            (length (joined (tunnel2_iov o buf dst id encrypt_type ttl)))
            (joined (tunnel2_iov o buf dst id encrypt_type ttl))
            tunnel
            local)
        ≡ delivered2
            (record {
              payload = buf;
              src_addr = address_init4 0 0;
              id = id;
              tunnel_addr = tunnel;
              size = length buf;
            })
            encrypt_type
            ttl
  unfolding accept_tunnel2 api2_init
  accept_tunnel2-iov buf dst tunnel id encrypt_type ttl local a b c d e f =
      let h =
        api2_init o id 0 0 (address_get_addr4 dst) (address_get_port dst) encrypt_type ttl
          (length buf % 2 ^ 16) in
      let fits =
        api2_init-Api2Fits id 0 0 _ _ encrypt_type ttl (length buf % 2 ^ 16) b (omega arith)
          (omega arith) c d f (omega arith) in
      let enc : encrypt_type < 256 = omega arith in
      rw
        (
          to_api2-of_api2 h (buf ++ []) fits,
          api2_payload-of_api2 h (buf ++ []) fits,
          append-nil buf,
          mod-eq_of_lt enc,
        )
        (ground (
          arith,
          length-append (of_api2 h) buf,
          length-of_api2 h fits,
          mod-eq_of_lt a,
          w.ntohs-htons (length buf) a,
          w.ntohl-htonl id b,
        ))

  module _ {W : Type 0} (udp : Udp W) (world : W) (from : Address) (local : Option Address)
      (buf : List ℕ) (dst : Address) (id : ℕ) where
    -- When a datagram that `udp_sendto_tunnel` makes of a message of less than 2 ^ 16 bytes arrives as it is,
    -- `udp_recvfrom_tunnel` delivers the message with its identifier and size, from no source.
    pub recvfrom_tunnel-iov :
        (room : ℕ)
        → (udp_recv_v udp world (api_size ∷ (room ∷ []))).1
          ≡ received
              (length (joined (tunnel_iov o buf dst id)))
              (joined (tunnel_iov o buf dst id))
              from
              local
        → length buf < 2 ^ 16
        → id < 2 ^ 32
        → address_get_addr4 dst < 2 ^ 32
        → address_get_port dst < 2 ^ 16
        → (udp_recvfrom_tunnel o udp world room).1
          ≡ delivered (record {
            payload = buf;
            src_addr = address_init4 0 0;
            id = id;
            tunnel_addr = from;
            size = length buf;
          })
    unfolding udp_recvfrom_tunnel
    recvfrom_tunnel-iov room e a b c d = rw e (accept_tunnel-iov buf dst from id local a b c d)

    -- When a datagram that `udp_sendto_tunnel2` makes of a message of less than 2 ^ 16 bytes arrives as it is,
    -- `udp_recvfrom_tunnel2` delivers the message with its identifier, size, type of encryption and time to
    -- live, from no source.
    pub recvfrom_tunnel2-iov :
        (room encrypt_type ttl : ℕ)
        → (udp_recv_v udp world (api2_size ∷ (room ∷ []))).1
          ≡ received
              (length (joined (tunnel2_iov o buf dst id encrypt_type ttl)))
              (joined (tunnel2_iov o buf dst id encrypt_type ttl))
              from
              local
        → length buf < 2 ^ 16
        → id < 2 ^ 32
        → address_get_addr4 dst < 2 ^ 32
        → address_get_port dst < 2 ^ 16
        → encrypt_type < 2
        → ttl < 256
        → (udp_recvfrom_tunnel2 o udp world room).1
          ≡ delivered2
              (record {
                payload = buf;
                src_addr = address_init4 0 0;
                id = id;
                tunnel_addr = from;
                size = length buf;
              })
              encrypt_type
              ttl
    unfolding udp_recvfrom_tunnel2
    recvfrom_tunnel2-iov room encrypt_type ttl e a b c d f g =
        rw e (accept_tunnel2-iov buf dst from id encrypt_type ttl local a b c d f g)
