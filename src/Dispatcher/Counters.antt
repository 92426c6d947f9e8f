-- ===== src/Dispatcher/Counters.antt =====
-- The counters of src/main/dispatcher/counter.h and src/main/dispatcher/perf.c, with the names of
-- src/main/tunnel/nt_perf.def. The map from names to counters is a function;
-- every name is in it, because `perf_init` is given all of them.
use nettle.Prelude.{ℕ, ◌+◌, ◌%◌, ◌^◌, ◌==◌, if◌then◌else◌}

-- The names; a pointer to a name is its number.
pub data Counter : Type 0 where
  api_sent tun_sent api_received tun_received : Counter
  direct_tun_sent direct_api_sent api_sent_bytes tun_sent_bytes : Counter
  api_received_bytes tun_received_bytes direct_tun_sent_bytes direct_api_sent_bytes : Counter
  api_send_error tun_send_error api_receive_error tun_receive_error : Counter
  direct_tun_send_error direct_api_send_error encrypt_error decrypt_error : Counter
  api_sent_v1 api_received_v1 ttl_exceeded decode_error : Counter
  invalid_encoded_data corrupt_decoded_data encoder_busy decoder_busy : Counter
  decoder_buffer_full decoder_block_count decoder_block_complete decoder_block_restore : Counter
  decoder_block_expire decoder_raw decoder_restore : Counter

abbrev pub number : Counter → ℕ
number Counter.api_sent = 0
number Counter.tun_sent = 1
number Counter.api_received = 2
number Counter.tun_received = 3
number Counter.direct_tun_sent = 4
number Counter.direct_api_sent = 5
number Counter.api_sent_bytes = 6
number Counter.tun_sent_bytes = 7
number Counter.api_received_bytes = 8
number Counter.tun_received_bytes = 9
number Counter.direct_tun_sent_bytes = 10
number Counter.direct_api_sent_bytes = 11
number Counter.api_send_error = 12
number Counter.tun_send_error = 13
number Counter.api_receive_error = 14
number Counter.tun_receive_error = 15
number Counter.direct_tun_send_error = 16
number Counter.direct_api_send_error = 17
number Counter.encrypt_error = 18
number Counter.decrypt_error = 19
number Counter.api_sent_v1 = 20
number Counter.api_received_v1 = 21
number Counter.ttl_exceeded = 22
number Counter.decode_error = 23
number Counter.invalid_encoded_data = 24
number Counter.corrupt_decoded_data = 25
number Counter.encoder_busy = 26
number Counter.decoder_busy = 27
number Counter.decoder_buffer_full = 28
number Counter.decoder_block_count = 29
number Counter.decoder_block_complete = 30
number Counter.decoder_block_restore = 31
number Counter.decoder_block_expire = 32
number Counter.decoder_raw = 33
number Counter.decoder_restore = 34

-- `perf_t`: the value of each counter, a `uint64_t`.
abbrev pub Perf : Type 0
Perf = Counter → ℕ

-- `counter_inc`
abbrev pub counter_inc : ℕ → ℕ → ℕ
counter_inc value n = (value + n) % 2 ^ 64

-- `perf_inc`
unfoldable pub perf_inc : Perf → Counter → ℕ → Perf
perf_inc perf name n = λ c. if number c == number name then counter_inc (perf c) n else perf c

-- `perf_get`
abbrev pub perf_get : Perf → Counter → ℕ
perf_get perf name = perf name
