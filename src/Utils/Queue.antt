-- ===== src/Utils/Queue.antt =====
-- The bounded queue of src/main/utils/queue.h and src/main/utils/queue.c, a ring with one unused entry.
-- A pointer is a number, and 0 is `NULL`; `size_t` does not overflow at the capacities that memory has.
pub mod Ring
pub mod Fifo
pub mod View
use nettle.Prelude.{
  ℕ, zero, suc, ◌+◌, ◌-◌, ◌*◌, ◌%◌, Bool, true, false, Option, none, some, List, get_or, set,
  replicate, leb, ◌==◌, if◌then◌else◌,
}

-- `queue_t`
pub record Queue : Type 0 where
  pub capacity : ℕ
  pub entry_num : ℕ
  pub head : ℕ
  pub tail : ℕ
  pub entries : List ℕ

-- `queue_init`
unfoldable pub init : ℕ → Queue
init capacity = record {
  capacity = capacity;
  entry_num = capacity + 1;
  head = 0;
  tail = 0;
  entries = replicate (capacity + 1) 0;
}

-- `queue_size`
unfoldable pub size : Queue → ℕ
size queue = (queue.entry_num + queue.tail - queue.head) % queue.entry_num

-- `NEXT`
abbrev pub next_entry : Queue → ℕ → ℕ
next_entry queue p = (p + 1) % queue.entry_num

-- `queue_push`
unfoldable pub push : Queue → ℕ → Queue × Bool
push queue value = if leb queue.capacity (size queue) then (queue, false) else (
  record {
    capacity = queue.capacity;
    entry_num = queue.entry_num;
    head = queue.head;
    tail = next_entry queue queue.tail;
    entries = set queue.entries queue.tail value;
  },
  true,
)

-- `queue_pop`; `none` is `false`, and else the value that it hands out.
unfoldable pub pop : Queue → Queue × Option ℕ
pop queue = if size queue == 0 then (queue, none) else (
  record {
    capacity = queue.capacity;
    entry_num = queue.entry_num;
    head = next_entry queue queue.head;
    tail = queue.tail;
    entries = queue.entries;
  },
  some (get_or queue.entries queue.head 0),
)

-- `queue_begin` and `queue_end`
abbrev pub begin : Queue → ℕ
begin queue = queue.head

abbrev pub end : Queue → ℕ
end queue = queue.tail

-- `queue_next`: the value and the next iterator; `none` is its failed `ensure`.
unfoldable pub next : Queue → ℕ → Option (ℕ × ℕ)
next queue iter =
    if iter == end queue
    then none
    else some (get_or queue.entries queue.head 0, next_entry queue iter)
