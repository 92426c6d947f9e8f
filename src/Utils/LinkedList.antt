-- ===== src/Utils/LinkedList.antt =====
-- The doubly linked list of src/main/utils/list.h and src/main/utils/list.c: addresses are numbers, NULL is 0, and the
-- memory of the entries is one map for each field.
pub mod Chain
mod Tests
use nettle.Prelude.{ℕ, ◌==◌, ◌||◌, Option, none, some, if◌then◌else◌}

-- `list_entry_s`: what the fields of the entry at each address hold.
pub record Entries : Type 0 where
  pub prev : ℕ → ℕ
  pub next : ℕ → ℕ

-- `list_t`: the addresses of its two sentinels.
pub record LinkedList : Type 0 where
  pub head : ℕ
  pub tail : ℕ

-- An assignment to a field of the entry at `a`.
unfoldable pub put : (ℕ → ℕ) → ℕ → ℕ → ℕ → ℕ
put field a value b = if b == a then value else field b

-- `list_init`
unfoldable pub list_init : LinkedList → Entries → Entries
list_init list s = record {
  prev = put (put s.prev list.head 0) list.tail list.head;
  next = put (put s.next list.head list.tail) list.tail 0;
}

-- `list_push_front`, the two halves of it in the order of the assignments.
unfoldable pub link_after : LinkedList → ℕ → Entries → Entries
link_after list entry s = record {
  prev = put s.prev entry list.head;
  next = put (put s.next entry (s.next list.head)) list.head entry;
}

unfoldable pub link_back : ℕ → Entries → Entries
link_back entry s = record s { prev = put s.prev (s.next entry) entry }

unfoldable pub list_push_front : LinkedList → ℕ → Entries → Entries
list_push_front list entry s = link_back entry (link_after list entry s)

-- The assignments of `list_remove`: the neighbours first, then the fields of the entry.
unfoldable pub bypass_back : ℕ → Entries → Entries
bypass_back entry s = record s { prev = put s.prev (s.next entry) (s.prev entry) }

unfoldable pub bypass : ℕ → Entries → Entries
bypass entry s = record s { next = put s.next (s.prev entry) (s.next entry) }

unfoldable pub clear : ℕ → Entries → Entries
clear entry s = record { prev = put s.prev entry 0; next = put s.next entry 0 }

-- `list_remove`, which is none where `ensure` stops the program.
unfoldable pub list_remove : ℕ → Entries → Option Entries
list_remove entry s =
    if (s.next entry == 0) || (s.prev entry == 0)
    then none
    else some (clear entry (bypass entry (bypass_back entry s)))

-- `list_pop_front`: it is none where `ensure` stops the program.
unfoldable pub popped : ℕ → Option Entries → Option (Entries × ℕ)
popped entry none = none
popped entry (some s) = some (s, entry)

unfoldable pub list_pop_front : LinkedList → Entries → Option (Entries × ℕ)
list_pop_front list s = popped (s.next list.head) (list_remove (s.next list.head) s)

-- `list_push_back`, in the order of its assignments.
unfoldable pub link_before : LinkedList → ℕ → Entries → Entries
link_before list entry s = record {
  prev = put (put s.prev entry (s.prev list.tail)) list.tail entry;
  next = put s.next entry list.tail;
}

unfoldable pub link_forward : ℕ → Entries → Entries
link_forward entry s = record s { next = put s.next (s.prev entry) entry }

unfoldable pub list_push_back : LinkedList → ℕ → Entries → Entries
list_push_back list entry s = link_forward entry (link_before list entry s)

-- `list_pop_back`
unfoldable pub list_pop_back : LinkedList → Entries → Option (Entries × ℕ)
list_pop_back list s = popped (s.prev list.tail) (list_remove (s.prev list.tail) s)

-- `list_peek_front` and `list_peek_back`, which `ensure` stops at a sentinel.
unfoldable pub peeked : ℕ → Entries → Option ℕ
peeked entry s = if (s.next entry == 0) || (s.prev entry == 0) then none else some entry

unfoldable pub list_peek_front : LinkedList → Entries → Option ℕ
list_peek_front list s = peeked (s.next list.head) s

unfoldable pub list_peek_back : LinkedList → Entries → Option ℕ
list_peek_back list s = peeked (s.prev list.tail) s
