-- ===== src/Dispatcher/Udp.antt =====
-- Datagrams: `send_v` and `recv_v` of src/main/dispatcher/common.c, and src/main/dispatcher/udp.c over them.
-- The system's calls on a socket are parameters that change a state of the world, `W`.
use nettle.Prelude.{
  ℕ, ◌≡◌, refl, arith, ℤ, pos, negsuc, Option, none, some, List, [], ◌∷◌, ◌++◌, length,
}
use nettle.Dispatcher.Address.{Address, inet, inet6, address_init4, address_init6}

-- A control message: `IP_PKTINFO` or `IPV6_PKTINFO` with its address, or any other.
pub data Control : Type 0 where
  pktinfo : ℕ → Control
  pktinfo6 : List ℕ → Control
  other_control : Control

-- `struct msghdr`, to send.
pub record Msg : Type 0 where
  pub name : Option Address
  pub name_len : ℕ
  pub iov : List (List ℕ)
  pub control : Option Control

-- What a reception gives: its result, the bytes that the buffers hold, the sender, the control messages.
pub record Reply : Type 0 where
  pub size : ℤ
  pub bytes : List ℕ
  pub name : Address
  pub controls : List Control

-- The system's calls on a socket; a buffer to receive into is its length.
pub record Udp (W : Type 0) : Type 0 where
  pub sendmsg : W → Msg → W × ℤ
  pub sendto : W → List ℕ → Address → W × ℤ
  pub recvmsg : W → List ℕ → W × Reply
  pub recvfrom : W → ℕ → W × Reply
  pub errno : W → ℕ

-- The bytes that the parts of an `iovec` array hold.
abbrev pub joined : List (List ℕ) → List ℕ
joined [] = []
joined (part ∷ iov) = part ++ joined iov

-- What the calls' documentation says of a datagram: it is sent whole, or not at all.
pub record SendsWhole {W : Type 0} (udp : Udp W) : Type 0 where
  pub sendmsg_whole :
      (w : W) (m : Msg) (n : ℕ) → (udp.sendmsg w m).1 ≡ pos n → n ≡ length (joined m.iov)
  pub sendto_whole :
      (w : W) (bytes : List ℕ) (address : Address) (n : ℕ)
      → (udp.sendto w bytes address).1 ≡ pos n
      → n ≡ length bytes

-- The result of the operations that send: an error, or 0 with the size sent.
pub data Sent : Type 0 where
  failed : ℕ → Sent
  sent : ℕ → Sent

-- The result of those that receive: an error, or 0 with the size received, the bytes and addresses.
pub data Received : Type 0 where
  failed : ℕ → Received
  received : ℕ → List ℕ → Address → Option Address → Received

-- `sizeof dst->addr`, of a `struct sockaddr`
abbrev pub sockaddr_size : ℕ
sockaddr_size = 16

-- The control message of `send_v`.
abbrev pub source_control : Option Address → Option Control
source_control none = none
source_control (some (inet addr port)) = some (pktinfo addr)
source_control (some (inet6 addr port)) = some (pktinfo6 addr)

-- The length of the name in `send_v`.
abbrev pub name_length : Option Address → ℕ
name_length none = 0
name_length (some _) = sockaddr_size

-- The loop of `recv_v` over the control messages.
unfoldable pub local_address : List Control → Option Address
local_address [] = none
local_address (pktinfo addr ∷ _) = some (address_init4 addr 0)
local_address (pktinfo6 addr ∷ _) = some (address_init6 addr 0)
local_address (other_control ∷ rest) = local_address rest

module _ {W : Type 0} (udp : Udp W) where
  -- `send_v`
  unfoldable pub send_v : W → List (List ℕ) → Option Address → Option Address → W × ℤ
  send_v w iov src dst =
      udp.sendmsg w
        (record { name = dst; name_len = name_length dst; iov = iov; control = source_control src })

  -- What the senders return for the system's result.
  abbrev pub sent_result : W × ℤ → W × Sent
  sent_result (w, negsuc _) = (w, Sent.failed (udp.errno w))
  sent_result (w, pos n) = (w, sent n)

  -- `udp_sendto`
  unfoldable pub udp_sendto : W → List ℕ → Address → W × Sent
  udp_sendto w buf address = sent_result (udp.sendto w buf address)

  -- `udp_send_v`
  unfoldable pub udp_send_v : W → List (List ℕ) → Option Address → Option Address → W × Sent
  udp_send_v w iov src dst = sent_result (send_v w iov src dst)

  -- `udp_send`
  unfoldable pub udp_send : W → List ℕ → Option Address → Option Address → W × Sent
  udp_send w buf src dst = udp_send_v w (buf ∷ []) src dst

  -- `recv_v`; the addresses that the caller does not want are its to ignore.
  unfoldable pub recv_v : W → List ℕ → W × Reply
  recv_v w lens = udp.recvmsg w lens

  -- What the receivers return for the system's reply.
  abbrev pub received_result : W → ℤ → Reply → W × Received
  received_result w (negsuc _) reply = (w, Received.failed (udp.errno w))
  received_result w (pos n) reply =
      (w, received n reply.bytes reply.name (local_address reply.controls))

  -- `udp_recvfrom`, which asks for no control messages
  unfoldable pub udp_recvfrom : W → ℕ → W × Received
  udp_recvfrom w len =
      let r = udp.recvfrom w len in received_result r.0 r.1.size (record r.1 { controls = [] })

  -- `udp_recv_v`
  unfoldable pub udp_recv_v : W → List ℕ → W × Received
  udp_recv_v w lens = let r = recv_v w lens in received_result r.0 r.1.size r.1

  -- `udp_recv`
  unfoldable pub udp_recv : W → ℕ → W × Received
  udp_recv w len = udp_recv_v w (len ∷ [])

  whole :
      (r : W × ℤ) (size n : ℕ)
      → ((m : ℕ) → r.1 ≡ pos m → m ≡ size)
      → (sent_result r).1 ≡ sent n
      → n ≡ size
  whole (w, negsuc _) size n law e = cc
  whole (w, pos m) size n law e = ground (arith, law m refl)

  pub udp_send_v-whole :
      (law : SendsWhole udp) (w : W) (iov : List (List ℕ)) (src dst : Option Address) (n : ℕ)
      → (udp_send_v w iov src dst).1 ≡ sent n
      → n ≡ length (joined iov)
  unfolding udp_send_v send_v
  udp_send_v-whole law w iov src dst n = whole _ _ n (law.sendmsg_whole w _)

  pub udp_sendto-whole :
      (law : SendsWhole udp) (w : W) (buf : List ℕ) (address : Address) (n : ℕ)
      → (udp_sendto w buf address).1 ≡ sent n
      → n ≡ length buf
  unfolding udp_sendto
  udp_sendto-whole law w buf address n = whole _ _ n (law.sendto_whole w buf address)
