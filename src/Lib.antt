-- ===== src/Lib.antt =====
-- The Reed-Solomon tunnel nettle, of src/main: a tunnel over several links that repairs lost packets with
-- a Reed-Solomon code. Packets are split into symbols of a field of 256 elements; a block of packets
-- gets redundant packets, and the receiver restores what is missing.
--
-- Files and the code that they model:
--   Prelude: shared names, C arrays as lists (a read out of range gives a default, a write there does
--     nothing), the bitwise sum of words.
--   Rs/Galois: src/main/rs/galois.h and src/main/rs/galois.c, the field by exponent and logarithm tables.
--   Rs/RsCode: src/main/rs/rscode.h and src/main/rs/rscode.c, the code, one symbol at a time.
--   Rs/Coder: src/main/rs/rs.h and src/main/rs/rs.c, the packets over the code; Send has `rs_encode` and
--     `rs_encode_result`, Receive has `rs_decode` and `rs_decode_result`. Each row of the packets' bytes
--     is a code word, whose state is a row of the flat arrays `checks` and `syndromes`.
--   Tunnel/Distributor: src/main/tunnel/nt_distributor.h and src/main/tunnel/nt_distributor.c, the choice of paths.
--   Tunnel/Parse: the parsers of src/main/tunnel/nt_distributor.c; `sscanf` and the resolver are parameters, and a write
--     outside an array is `none`.
--   Tunnel/Fec: src/main/tunnel/nt_fec.h, src/main/tunnel/nt_fec.c and the sender of src/main/tunnel/nt_dup_fec.c;
--     the byte order functions of the C library are parameters.
--     Fec is the table of a code's two operations, with the callbacks' state threaded through.
--   Tunnel/Proto: src/main/tunnel/nt_proto.h, src/main/tunnel/nt_proto.c, src/main/tunnel/nt_proto2.h and
--     src/main/tunnel/nt_proto2.c, the clients' headers; a buffer is its bytes, and a cast reads them.
--   Tunnel/Client: src/main/tunnel/nt_client.c, `udp_sendto_tunnel` and its relatives.
--   Tunnel/Processor: src/main/tunnel/nt_fec_processor.c; Encoder has `on_encode` and `encoder_on_message`, Decoder
--     has `on_decode` and `decoder_on_message`, Outcome what one datagram should leave. The loop of `on_encode` has fuel for one round more than
--     there are copies.
--   Tunnel/RsFec: the sender of src/main/tunnel/nt_rs_fec.c, `nt_rs_fec_encode`, over Rs/Coder. The generator of block
--     numbers, which the processors share, is an argument and a result.
--   Tunnel/Listener: src/main/tunnel/nt_listener.c, `nt_api_handle_read` and `nt_tun_handle_read`; Blocks is about the
--     split of blocks among processors, Buffers about the pool.
--   Tunnel/Forwarder: src/main/tunnel/nt_forwarder.c.
--   Dispatcher/Address and Dispatcher/Udp: the addresses, `send_v` and `recv_v` of src/main/dispatcher/common.c, and
--     src/main/dispatcher/udp.c. The system's calls are parameters that change a state of the world.
--   Utils/ConcurrentQueue: src/main/utils/conqueue.h and src/main/utils/conqueue.c, the queue under its lock.
--   Dispatcher/Pool: src/main/dispatcher/pool.h and src/main/dispatcher/pool.c, the buffers of fixed number.
--   Dispatcher/Worker: src/main/dispatcher/worker.h and src/main/dispatcher/worker.c; Steps has the interleavings of the
--     senders' and the callback's pieces as a step relation. The eventfd of the system is a parameter.
--   Dispatcher/Counters: src/main/dispatcher/counter.h, src/main/dispatcher/perf.c and src/main/tunnel/nt_perf.def.
--   Utils/Heap: src/main/utils/heap.h and src/main/utils/heap.c, the bounded binary heap; its loops run on fuel,
--     the index where `shift_up` starts and the size where `shift_down` does.
--   Utils/Strings: the text helpers and `idgen_next` of src/main/utils/utils.h.
--   Utils/Bitmap: src/main/utils/bitmap.h and src/main/utils/bitmap.c, a set of keys.
--   Utils/LinkedList: src/main/utils/list.h and src/main/utils/list.c, over a memory of the entries.
--   Utils/Queue: src/main/utils/queue.h and src/main/utils/queue.c, the bounded queue.
-- A pointer to an array that the caller hands over is a list that the operation takes and returns.
-- A word of w bits is a number, reduced modulo 2 ^ w where the code can wrap. A loop is a recursion on
-- the number of rounds that its bounds give, so it needs no fuel
-- but in the heap and in `on_encode`. Division by zero, a failed `ensure`
-- and an undefined shift are `none`.
--
-- Not modelled: the threads' own life, opening sockets, timers of the system, logging and printing.
pub mod Dispatcher
pub mod Prelude
pub mod Rs
pub mod Tunnel
pub mod Utils
