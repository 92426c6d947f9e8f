-- ===== src/Tunnel/Client.antt =====
-- The client's calls of src/main/tunnel/nt_client.c. A datagram shorter than a header leaves the rest of
-- the header as it was, which reads as 0 here: it is refused for its size whatever stands there.
pub mod Exchange
use nettle.Prelude.{
  ℕ, ◌+◌, ◌%◌, ◌^◌, ◌≡◌, Bool, Option, none, some, List, [], ◌∷◌, ◌==◌, ◌||◌, not, if◌then◌else◌,
  length, take, drop,
}
use nettle.Dispatcher.Address.{Address, address_get_addr4, address_get_port, address_init4}
use nettle.Dispatcher.Udp.{Udp, Sent, Received, received, udp_send_v, udp_recv_v}
use nettle.Tunnel.Fec.{ByteOrder}
use nettle.Tunnel.Proto.{
  Api, Api2, to_api, of_api, to_api2, of_api2, api_init, api2_init, api_is_valid, api2_is_valid,
  api_size, api2_size, api_message_size, api2_message_size, api_payload_size, api2_payload_size,
  api_payload, api2_payload, api_id, api2_id,
}

-- `E_API_INVALID_HEADER`
abbrev pub api_invalid_header : ℕ
api_invalid_header = 100004

-- What a reception gives the client, beside the protocol's own fields.
pub record Delivery : Type 0 where
  pub payload : List ℕ
  pub src_addr : Address
  pub id : ℕ
  pub tunnel_addr : Address
  pub size : ℕ

-- The results of `udp_recvfrom_tunnel` and `udp_recvfrom_tunnel2`: an error code, or 0 with the delivery,
-- for the second version with the type of the encryption and the time to live.
pub data Result : Type 0 where
  failed : ℕ → Result
  delivered : Delivery → Result
  delivered2 : Delivery → ℕ → ℕ → Result

module _ (o : ByteOrder) where
  -- The parts of the datagram in `udp_sendto_tunnel`.
  abbrev pub tunnel_iov : List ℕ → Address → ℕ → List (List ℕ)
  tunnel_iov buf dst_addr id =
      of_api (
        api_init o id 0 0 (address_get_addr4 dst_addr) (address_get_port dst_addr)
          (length buf % 2 ^ 16))
      ∷ (buf ∷ [])

  -- The parts of the datagram in `udp_sendto_tunnel2`.
  abbrev pub tunnel2_iov : List ℕ → Address → ℕ → ℕ → ℕ → List (List ℕ)
  tunnel2_iov buf dst_addr id encrypt_type ttl =
      of_api2 (
        api2_init o id 0 0 (address_get_addr4 dst_addr) (address_get_port dst_addr) encrypt_type ttl
          (length buf % 2 ^ 16))
      ∷ (buf ∷ [])

  -- What `udp_recvfrom_tunnel` does with what it received.
  unfoldable pub accept_tunnel : Received → Result
  accept_tunnel (Received.failed err) = Result.failed err
  accept_tunnel (received received_raw bytes tunnel_addr _) =
      if not (api_is_valid bytes) || not (received_raw == api_message_size o (to_api bytes))
      then Result.failed api_invalid_header
      else delivered (record {
        payload = api_payload bytes;
        src_addr = address_init4 (to_api bytes).src_ip (to_api bytes).src_port;
        id = api_id o (to_api bytes);
        tunnel_addr = tunnel_addr;
        size = api_payload_size o (to_api bytes);
      })

  -- What `udp_recvfrom_tunnel2` does with what it received.
  unfoldable pub accept_tunnel2 : Received → Result
  accept_tunnel2 (Received.failed err) = Result.failed err
  accept_tunnel2 (received received_raw bytes tunnel_addr _) =
      if not (api2_is_valid bytes) || not (received_raw == api2_message_size o (to_api2 bytes))
      then Result.failed api_invalid_header
      else delivered2
          (record {
            payload = api2_payload bytes;
            src_addr = address_init4 (to_api2 bytes).src_ip (to_api2 bytes).src_port;
            id = api2_id o (to_api2 bytes);
            tunnel_addr = tunnel_addr;
            size = api2_payload_size o (to_api2 bytes);
          })
          (to_api2 bytes).encrypt_type (to_api2 bytes).ttl

  module _ {W : Type 0} (udp : Udp W) where
    -- `udp_sendto_tunnel`
    unfoldable pub udp_sendto_tunnel : W → List ℕ → Address → ℕ → Address → W × Sent
    udp_sendto_tunnel w buf dst_addr id tunnel_addr =
        udp_send_v udp w (tunnel_iov buf dst_addr id) none (some tunnel_addr)

    -- `udp_sendto_tunnel2`
    unfoldable pub udp_sendto_tunnel2 : W → List ℕ → Address → ℕ → Address → ℕ → ℕ → W × Sent
    udp_sendto_tunnel2 w buf dst_addr id tunnel_addr encrypt_type ttl =
        udp_send_v udp w (tunnel2_iov buf dst_addr id encrypt_type ttl) none (some tunnel_addr)

    -- `udp_recvfrom_tunnel`
    unfoldable pub udp_recvfrom_tunnel : W → ℕ → W × Result
    udp_recvfrom_tunnel w len =
        let r = udp_recv_v udp w (api_size ∷ (len ∷ [])) in (r.0, accept_tunnel r.1)

    -- `udp_recvfrom_tunnel2`
    unfoldable pub udp_recvfrom_tunnel2 : W → ℕ → W × Result
    udp_recvfrom_tunnel2 w len =
        let r = udp_recv_v udp w (api2_size ∷ (len ∷ [])) in (r.0, accept_tunnel2 r.1)
