-- ===== src/Dispatcher/Address.antt =====
-- The socket addresses of src/main/dispatcher/common.h and src/main/dispatcher/common.c.
-- Ports and IPv4 addresses are words in the network's byte order; an IPv6 address is its bytes.
use nettle.Prelude.{ℕ, List}

-- `address_t`: the family, with the address and the port.
pub data Address : Type 0 where
  inet : ℕ → ℕ → Address
  inet6 : List ℕ → ℕ → Address

-- `address_init4`
abbrev pub address_init4 : ℕ → ℕ → Address
address_init4 addr port = inet addr port

-- `address_init6`
abbrev pub address_init6 : List ℕ → ℕ → Address
address_init6 addr port = inet6 addr port

-- `address_get_port`
abbrev pub address_get_port : Address → ℕ
address_get_port (inet addr port) = port
address_get_port (inet6 addr port) = port

-- `address_set_port`
abbrev pub address_set_port : Address → ℕ → Address
address_set_port (inet addr _) port = inet addr port
address_set_port (inet6 addr _) port = inet6 addr port

-- `address_get_addr4`
abbrev pub address_get_addr4 : Address → ℕ
address_get_addr4 (inet addr port) = addr
address_get_addr4 (inet6 addr port) = 0

-- `address_set_addr4`
abbrev pub address_set_addr4 : Address → ℕ → Address
address_set_addr4 address addr = address_init4 addr (address_get_port address)
