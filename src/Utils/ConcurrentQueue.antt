-- ===== src/Utils/ConcurrentQueue.antt =====
-- The queue of src/main/utils/conqueue.h and src/main/utils/conqueue.c, which threads share. Its lock, of the
-- threads' library, makes each operation one step; taking and leaving it does not fail.
use nettle.Prelude.{ℕ, Bool, Option}
use nettle.Utils.Queue
use nettle.Utils.Queue.{Queue}

-- `conqueue_t`, less the lock
abbrev pub ConcurrentQueue : Type 0
ConcurrentQueue = Queue

-- `conqueue_init`
abbrev pub conqueue_init : ℕ → ConcurrentQueue
conqueue_init capacity = Queue.init capacity

-- `conqueue_size`
abbrev pub conqueue_size : ConcurrentQueue → ℕ
conqueue_size queue = Queue.size queue

-- `conqueue_push`
abbrev pub conqueue_push : ConcurrentQueue → ℕ → ConcurrentQueue × Bool
conqueue_push queue value = Queue.push queue value

-- `conqueue_pop`
abbrev pub conqueue_pop : ConcurrentQueue → ConcurrentQueue × Option ℕ
conqueue_pop queue = Queue.pop queue
