-- ===== src/Tunnel/Processor.antt =====
-- The encoder and the decoder of src/main/tunnel/nt_fec_processor.c. The code, the sockets, the encryptor
-- and the paths do not change and are the configuration. A failed `ensure` ends the program, and is
-- `none`. The callbacks' `extra` is the sockets' world with the counters; a callback that follows an
-- aborted one does nothing.
pub mod Types
pub mod Encoder
pub mod Decoder
pub mod Outcome
pub mod Copies
pub mod Safe
pub mod Deliver
pub mod Plain
mod Tests
