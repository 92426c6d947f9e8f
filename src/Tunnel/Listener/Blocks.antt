-- ===== src/Tunnel/Listener/Blocks.antt =====
-- The split of blocks among processors in `nt_tun_handle_read` of src/main/tunnel/nt_listener.c.
use nettle.Dispatcher.Udp.{Udp}
use nettle.Dispatcher.Worker.{Worker}
use nettle.Tunnel.Listener.{Listener}
