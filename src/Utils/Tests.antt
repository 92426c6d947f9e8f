-- ===== src/Utils/Tests.antt =====
-- Runs of the data structures on concrete values.
use nettle.Prelude.{
  ℕ, zero, suc, ◌+◌, ◌<◌, ◌≡◌, ◌⊎◌, refl, arith, pos, negsuc, true, false, [], ◌∷◌,
}
use nettle.Utils.Heap.{Heap, key_le, parent, push}
use nettle.Utils.Heap.Up.{Le, key_of, IsHeap, push-IsHeap}
use nettle.Utils.Queue.{init}
use nettle.Utils.Queue.Fifo.{run, fifo_run, run-init}
use nettle.Utils.Queue.Fifo.Op.{push_op, pop_op}

run-init_example :
    run (push_op 3 ∷ push_op 4 ∷ push_op 5 ∷ pop_op ∷ push_op 6 ∷ pop_op ∷ []) (init 2)
    ≡ fifo_run 2 (push_op 3 ∷ push_op 4 ∷ push_op 5 ∷ pop_op ∷ push_op 6 ∷ pop_op ∷ []) []
run-init_example = run-init 2 (push_op 3 ∷ push_op 4 ∷ push_op 5 ∷ pop_op ∷ push_op 6 ∷ pop_op ∷ [])

-- Two entries in room for three.
abbrev two : Heap
two = record {
  capacity = 3;
  size = 2;
  buffer =
      record { key = pos 5; value = 1 }
      ∷ record { key = pos 9; value = 2 }
      ∷ record { key = pos 0; value = 0 }
      ∷ [];
}

two_ordered : (i : ℕ) → 0 < i → i < 2 → Le (key_of two.buffer (parent i)) (key_of two.buffer i)
unfolding key_le
two_ordered zero p h = absurd (omega arith)
two_ordered (suc zero) p h = refl
two_ordered (suc (suc i)) p h = absurd (omega arith)

two-IsHeap : IsHeap two
two-IsHeap = record {
  fits = omega arith;
  room = omega arith;
  order = record { ordered = two_ordered };
}

push-IsHeap_example :
    IsHeap (push two (negsuc 3) 7).0
    × (((push two (negsuc 3) 7).1 ≡ true) × (2 < 3) × ((push two (negsuc 3) 7).0.size ≡ 2 + 1)
        ⊎ ((push two (negsuc 3) 7).1 ≡ false)
          × (two.size ≡ two.capacity)
          × ((push two (negsuc 3) 7).0 ≡ two))
push-IsHeap_example = push-IsHeap two (negsuc 3) 7 two-IsHeap
