-- ===== src/Dispatcher/Pool.antt =====
-- The buffers of src/main/dispatcher/pool.h and src/main/dispatcher/pool.c. A buffer is its pointer; `fresh` gives
-- the pointers that the allocations of `pool_init` return.
pub mod Buffers
use nettle.Prelude.{ℕ, zero, suc, ◌+◌, Bool, true, false, Option, none, some}
use nettle.Utils.ConcurrentQueue.{ConcurrentQueue, conqueue_init, conqueue_push, conqueue_pop}

-- `pool_t`
pub record Pool : Type 0 where
  pub queue : ConcurrentQueue
  pub capacity : ℕ
  pub size : ℕ

-- The loop of `pool_init` from `i` on.
unfoldable pub fill : (ℕ → ℕ) → ℕ → ℕ → ConcurrentQueue → ConcurrentQueue
fill fresh zero i queue = queue
fill fresh (suc rounds) i queue = fill fresh rounds (i + 1) (conqueue_push queue (fresh i)).0

-- `pool_init`
unfoldable pub pool_init : (ℕ → ℕ) → ℕ → ℕ → Pool
pool_init fresh capacity size = record {
  queue = fill fresh capacity 0 (conqueue_init capacity);
  capacity = capacity;
  size = size;
}

-- `pool_new`; `none` is `NULL`.
unfoldable pub pool_new : Pool → Pool × Option ℕ
pool_new pool = let r = conqueue_pop pool.queue in (record pool { queue = r.0 }, r.1)

-- What `pool_free` does with the result of the push.
unfoldable pub freed : Pool → ConcurrentQueue × Bool → Option Pool
freed pool (queue, true) = some (record pool { queue = queue })
freed pool (queue, false) = none

-- `pool_free`; `none` is its failed `ensure`.
unfoldable pub pool_free : Pool → ℕ → Option Pool
pool_free pool buffer = freed pool (conqueue_push pool.queue buffer)
