-- ===== src/Utils/Heap.antt =====
-- The bounded binary heap of src/main/utils/heap.h and src/main/utils/heap.c. A key is a `long`, and a value is
-- a pointer, a number. A loop runs on fuel: the index where it starts is enough for `shift_up`, and the
-- size for `shift_down`.
pub mod Up
use nettle.Prelude.{
  ℕ, zero, suc, ◌+◌, ◌-◌, ◌*◌, ◌/◌, ℤ, pos, negsuc, Bool, true, false, Option, none, some, List,
  get_or, set, replicate, leb, ltb, ◌==◌, ◌&&◌, not, if◌then◌else◌,
}

-- `<=` on `long`
unfoldable pub key_le : ℤ → ℤ → Bool
key_le (pos a) (pos b) = leb a b
key_le (pos a) (negsuc b) = false
key_le (negsuc a) (pos b) = true
key_le (negsuc a) (negsuc b) = leb b a

-- `entry_t`
pub record Entry : Type 0 where
  pub key : ℤ
  pub value : ℕ

abbrev pub no_entry : Entry
no_entry = record { key = pos 0; value = 0 }

-- `heap_s`
pub record Heap : Type 0 where
  pub capacity : ℕ
  pub size : ℕ
  pub buffer : List Entry

-- `left`, `right` and `parent`
abbrev pub left : ℕ → ℕ
left n = 2 * n + 1

abbrev pub right : ℕ → ℕ
right n = 2 * n + 2

abbrev pub parent : ℕ → ℕ
parent n = (n - 1) / 2

-- `make_heap`, whose memory is not cleared: `buffer` is what it holds.
abbrev pub make_heap : ℕ → List Entry → Heap
make_heap capacity buffer = record { capacity = capacity; size = 0; buffer = buffer }

-- The assignments that exchange two entries, in both loops.
unfoldable pub exchange : List Entry → ℕ → ℕ → List Entry
exchange buffer p n =
    let p_entry = get_or buffer p no_entry in
    set (set buffer p (get_or buffer n no_entry)) n p_entry

-- `shift_up`
unfoldable pub shift_up : ℕ → List Entry → ℕ → List Entry
shift_up zero buffer n = buffer
shift_up (suc fuel) buffer n =
    let p = parent n in
    let rest = shift_up fuel (exchange buffer p n) p in
    if n == 0
    then buffer
    else if key_le (get_or buffer p no_entry).key (get_or buffer n no_entry).key
    then buffer
    else rest

-- `mc`, the child of `n` with the smaller key.
unfoldable pub min_child : List Entry → ℕ → ℕ → ℕ
min_child buffer size n =
    if ltb (right n) size
      && not (key_le (get_or buffer (left n) no_entry).key (get_or buffer (right n) no_entry).key)
    then right n
    else left n

-- `shift_down`
unfoldable pub shift_down : ℕ → List Entry → ℕ → ℕ → List Entry
shift_down zero buffer size n = buffer
shift_down (suc fuel) buffer size n =
    let mc = min_child buffer size n in
    let rest = shift_down fuel (exchange buffer mc n) size mc in
    if leb size (left n)
    then buffer
    else if key_le (get_or buffer n no_entry).key (get_or buffer mc no_entry).key
    then buffer
    else rest

-- `heap_head`; `none` is `false`.
unfoldable pub head : Heap → Option Entry
head heap = if heap.size == 0 then none else some (get_or heap.buffer 0 no_entry)

-- `heap_push`
unfoldable pub push : Heap → ℤ → ℕ → Heap × Bool
push heap key value = if leb heap.capacity heap.size then (heap, false) else (
  record {
    capacity = heap.capacity;
    size = heap.size + 1;
    buffer =
        shift_up heap.size (set heap.buffer heap.size (record { key = key; value = value }))
          heap.size;
  },
  true,
)

-- `heap_pop`; `none` is `false`.
unfoldable pub pop : Heap → Heap × Option Entry
pop heap = elim (head heap) [
  | none ↦ (heap, none)
  | some e ↦
      let size = heap.size - 1 in
      (
        record {
          capacity = heap.capacity;
          size = size;
          buffer = shift_down size (set heap.buffer 0 (get_or heap.buffer size no_entry)) size 0;
        },
        some e,
      )
]
