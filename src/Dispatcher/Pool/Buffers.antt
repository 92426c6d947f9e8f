-- ===== src/Dispatcher/Pool/Buffers.antt =====
-- A pool holds its buffers.
use nettle.Prelude.{
  ℕ, zero, suc, ◌+◌, ◌<◌, ◌≤◌, ◌≡◌, refl, ap, arith, List, [], ◌∷◌, ◌++◌, length, length-append,
  Bool, true, false, some,
}
use mathlib.Core.List.{append-nil, append_assoc}
use nettle.Utils.ConcurrentQueue.{ConcurrentQueue, conqueue_init}
use nettle.Utils.Queue.View.{Holds, init-Holds, push-Holds}
use nettle.Dispatcher.Pool.{conqueue_push, Pool, fill, pool_init, freed, pool_free}

-- The pointers from the number `i` on, `n` of them.
unfoldable pub fresh_from : (ℕ → ℕ) → ℕ → ℕ → List ℕ
fresh_from fresh zero i = []
fresh_from fresh (suc n) i = fresh i ∷ fresh_from fresh n (i + 1)

pub length-fresh_from : (fresh : ℕ → ℕ) (n i : ℕ) → length (fresh_from fresh n i) ≡ n
unfolding fresh_from
length-fresh_from fresh zero i = refl
length-fresh_from fresh (suc n) i = ap suc (length-fresh_from fresh n (i + 1))

fill-Holds :
    (fresh : ℕ → ℕ) (n i capacity : ℕ) (queue : ConcurrentQueue) (xs : List ℕ)
    → Holds queue capacity xs
    → length xs + n ≤ capacity
    → Holds (fill fresh n i queue) capacity (xs ++ fresh_from fresh n i)
unfolding fill fresh_from
fill-Holds fresh zero i capacity queue xs w h = rw (append-nil xs) w
fill-Holds fresh (suc n) i capacity queue xs w h =
    let (_, w') = push-Holds queue capacity (fresh i) xs w (omega arith) in
    rw (← append_assoc xs (fresh i ∷ []) (fresh_from fresh n (i + 1))) (
      fill-Holds fresh n (i + 1) capacity (conqueue_push queue (fresh i)).0 (xs ++ fresh i ∷ []) w'
        (omega (arith, length-append xs (fresh i ∷ []))))

pub pool_init-Holds :
    (fresh : ℕ → ℕ) (capacity size : ℕ)
    → Holds (pool_init fresh capacity size).queue capacity (fresh_from fresh capacity 0)
unfolding pool_init
pool_init-Holds fresh capacity size =
    fill-Holds fresh capacity 0 capacity (conqueue_init capacity) [] (init-Holds capacity)
      (omega arith)

freed-true :
    (pool : Pool) (r : ConcurrentQueue × Bool)
    → r.1 ≡ true
    → freed pool r ≡ some (record pool { queue = r.0 })
unfolding freed
freed-true pool (queue, true) e = refl
freed-true pool (queue, false) e = cc

pub pool_free-Holds :
    (pool : Pool) (capacity m : ℕ) (xs : List ℕ)
    → Holds pool.queue capacity xs
    → length xs < capacity
    → (pool_free pool m ≡ some (record pool { queue = (conqueue_push pool.queue m).0 }))
      × Holds (conqueue_push pool.queue m).0 capacity (xs ++ m ∷ [])
unfolding pool_free
pool_free-Holds pool capacity m xs w h =
    let (done, w') = push-Holds pool.queue capacity m xs w h in (freed-true pool _ done, w')
