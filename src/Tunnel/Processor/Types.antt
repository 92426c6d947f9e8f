-- ===== src/Tunnel/Processor/Types.antt =====
-- What the encoder and the decoder of src/main/tunnel/nt_fec_processor.h share.
use nettle.Prelude.{ℕ, Option, List}
use nettle.Dispatcher.Address.{Address, inet}
use nettle.Dispatcher.Counters.{Counter, Perf, perf_inc}
use nettle.Dispatcher.Udp.{Udp}
use nettle.Tunnel.Distributor.{Distributor}

-- `nt_path_t`
pub record NtPath : Type 0 where
  pub src : Address
  pub dst : Address

abbrev pub null_path : NtPath
null_path = record { src = inet 0 0; dst = inet 0 0 }

-- `ka_encryptor_t`, a library's: the text in the other form, or `NULL`.
pub record Encryptor (W : Type 0) : Type 0 where
  pub encrypt : W → List ℕ → W × Option (List ℕ)
  pub decrypt : W → List ℕ → W × Option (List ℕ)

-- The fields of `nt_fec_processor_t` that do not change; `paths` are the distributor's.
pub record Config (W : Type 0) : Type 0 where
  pub distributor : Distributor
  pub paths : List NtPath
  pub api_udp : Udp W
  pub tun_udp : Udp W
  pub encryptor : Option (Encryptor W)

-- What the callbacks change.
pub record Effects (W : Type 0) : Type 0 where
  pub world : W
  pub perf : Perf

-- `perf_inc` of the processor's counters.
abbrev pub count : {W : Type 0} → Effects W → Counter → ℕ → Effects W
count s name n = record s { perf = perf_inc s.perf name n }

-- The fields of `nt_fec_processor_t` that change.
pub record Processor (F W : Type 0) : Type 0 where
  pub fec : F
  pub effects : Effects W
