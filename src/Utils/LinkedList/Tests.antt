-- ===== src/Utils/LinkedList/Tests.antt =====
-- Concrete lists: the sentinels at 1 and 2, entries from 3.
use nettle.Prelude.{[], ◌∷◌, arith}
use nettle.Utils.LinkedList.{Entries, LinkedList, list_init, list_push_front, list_pop_front}
use nettle.Utils.LinkedList.Chain.{
  Holds, Fresh, Pops, list_init-Holds, push_front-Holds, pop_front-Pops,
}

abbrev list : LinkedList
list = record { head = 1; tail = 2 }

abbrev empty_entries : Entries
empty_entries = list_init list (record { prev = λ x. 0; next = λ x. 0 })

empty-Holds : Holds list [] empty_entries
empty-Holds = list_init-Holds list _ (omega arith) (omega arith) (omega arith)

abbrev one_entry : Entries
one_entry = list_push_front list 3 empty_entries

one-Holds : Holds list (3 ∷ []) one_entry
unfolding Fresh
one-Holds = push_front-Holds list 3 _ (omega arith) (omega arith) [] empty-Holds (omega arith) tt

push_front-Holds_example : Holds list (4 ∷ 3 ∷ []) (list_push_front list 4 one_entry)
unfolding Fresh
push_front-Holds_example =
    push_front-Holds list 4 one_entry (omega arith) (omega arith) (3 ∷ []) one-Holds (omega arith)
      ((omega arith), tt)

pop_front-Pops_example : Pops list (3 ∷ []) (list_pop_front list one_entry)
pop_front-Pops_example = pop_front-Pops list one_entry (3 ∷ []) one-Holds
