-- ===== src/Utils/Heap/Up.antt =====
-- `heap_push` of src/main/utils/heap.c keeps the order of the heap.
use nettle.Prelude.{
  ℕ, zero, suc, ◌+◌, ◌≤◌, ◌<◌, ◌≡◌, ◌≢◌, ◌⊎◌, inl, inr, refl, sym, ap, subst, subst₂, ◌∙◌, arith, ℤ,
  pos, Bool, true, false, List, get_or, set, length, length-set, get_or-set_self, get_or-set_ne,
  leb, ◌==◌, if◌then◌else◌,
}
use native.Mathlib.Decide.{ℕ_discrete, dec_lt}
use nettle.Utils.Heap.{Entry, Heap, no_entry, key_le, parent, exchange, shift_up, push}

abbrev pub Le : ℤ → ℤ → Type 0
Le a b = key_le a b ≡ true

le_trans : (a b c : ℤ) → Le a b → Le b c → Le a c
unfolding key_le
le_trans (pos a) (pos b) (pos c) p q = ground arith
le_trans a b c p q = grind arith

le_total : (a b : ℤ) → key_le a b ≡ false → Le b a
unfolding key_le
le_total a b p = grind arith

abbrev pub key_of : List Entry → ℕ → ℤ
key_of buffer i = (get_or buffer i no_entry).key

-- No key is smaller than its parent's.
pub record IsOrdered (size : ℕ) (buffer : List Entry) : Type 0 where
  pub ordered : (i : ℕ) → 0 < i → i < size → Le (key_of buffer (parent i)) (key_of buffer i)

-- The order, but for the entry `n`, which may be smaller than its parent.
record Near (size n : ℕ) (buffer : List Entry) : Type 0 where
  others : (i : ℕ) → 0 < i → i < size → i ≢ n → Le (key_of buffer (parent i)) (key_of buffer i)
  below :
      (i : ℕ)
      → 0 < n
      → 0 < i
      → i < size
      → parent i ≡ n
      → Le (key_of buffer (parent n)) (key_of buffer i)

module _ (buffer : List Entry) (p n : ℕ) (hp : p < length buffer) (hn : n < length buffer)
    (ne : p ≢ n) where
  key-exchange_first : key_of (exchange buffer p n) p ≡ key_of buffer n
  unfolding exchange
  key-exchange_first =
      ap (λ (e : Entry). e.key)
        (get_or-set_ne (set buffer p (get_or buffer n no_entry)) n p (get_or buffer p no_entry)
            no_entry (λ e. ne (sym e))
          ∙ get_or-set_self buffer p (get_or buffer n no_entry) no_entry hp)

  key-exchange_second : key_of (exchange buffer p n) n ≡ key_of buffer p
  unfolding exchange
  key-exchange_second =
      ap (λ (e : Entry). e.key)
        (get_or-set_self (set buffer p (get_or buffer n no_entry)) n (get_or buffer p no_entry)
          no_entry (omega (arith, length-set buffer p (get_or buffer n no_entry))))

  key-exchange_other : (i : ℕ) → i ≢ p → i ≢ n → key_of (exchange buffer p n) i ≡ key_of buffer i
  unfolding exchange
  key-exchange_other i a b =
      ap (λ (e : Entry). e.key)
        (get_or-set_ne (set buffer p (get_or buffer n no_entry)) n i (get_or buffer p no_entry)
            no_entry (λ e. b (sym e))
          ∙ get_or-set_ne buffer p i (get_or buffer n no_entry) no_entry (λ e. a (sym e)))

length-exchange : (buffer : List Entry) (p n : ℕ) → length (exchange buffer p n) ≡ length buffer
unfolding exchange
length-exchange buffer p n = length-set (set buffer p _) n _ ∙ length-set buffer p _

-- One round of `shift_up`.
Near-exchange :
    (size n : ℕ) (buffer : List Entry)
    → 0 < n
    → n < size
    → size ≤ length buffer
    → key_le (key_of buffer (parent n)) (key_of buffer n) ≡ false
    → Near size n buffer
    → Near size (parent n) (exchange buffer (parent n) n)
Near-exchange size n buffer pn hn room small w =
    let p = parent n in
    let hp : p < length buffer = omega arith in
    let ne : p ≢ n = λ e. omega (arith, e) in
    let at_p = key-exchange_first buffer p n hp (omega arith) ne in
    let at_n = key-exchange_second buffer p n hp (omega arith) ne in
    let at = key-exchange_other buffer p n hp (omega arith) ne in
    let order = le_total (key_of buffer p) (key_of buffer n) small in
    record {
      others = λ i pi hi np. elim (ℕ_discrete i n) [
        | yes same ↦
            subst₂ Le (sym at_p ∙ ap (key_of (exchange buffer p n)) (ap parent (sym same)))
              (sym at_n ∙ ap (key_of (exchange buffer p n)) (sym same)) order
        | no nn ↦ elim (ℕ_discrete (parent i) n) [
          | yes child ↦
              subst₂ Le (sym at_n ∙ ap (key_of (exchange buffer p n)) (sym child))
                (sym (at i np nn)) (w.below i pn pi hi child)
          | no nc ↦ elim (ℕ_discrete (parent i) p) [
            | yes sibling ↦
                subst₂ Le (sym at_p ∙ ap (key_of (exchange buffer p n)) (sym sibling))
                  (sym (at i np nn))
                  (le_trans (key_of buffer n) (key_of buffer p) (key_of buffer i) order (
                    subst (λ q. Le (key_of buffer q) (key_of buffer i)) sibling
                      (w.others i pi hi nn)))
            | no far ↦
                subst₂ Le (sym (at (parent i) far nc)) (sym (at i np nn)) (w.others i pi hi nn)
          ]
        ]
      ];
      below = λ i pp pi hi child.
          let up = w.others p pp (omega arith) ne in
          let same_top = at (parent p) (λ e. omega (arith, e)) (λ e. omega (arith, e)) in
          elim (ℕ_discrete i n) [
            | yes same ↦
                subst₂ Le (sym same_top) (sym at_n ∙ ap (key_of (exchange buffer p n)) (sym same))
                  up
            | no nn ↦ subst₂ Le (sym same_top) (sym (at i (λ e. omega (arith, e)) nn)) (
                le_trans (key_of buffer (parent p)) (key_of buffer p) (key_of buffer i) up
                  (subst (λ q. Le (key_of buffer q) (key_of buffer i)) child (w.others i pi hi nn)))
          ];
    }

-- Fuel as large as the index is enough.
shift_up-IsOrdered :
    (fuel size n : ℕ) (buffer : List Entry)
    → n ≤ fuel
    → n < size
    → size ≤ length buffer
    → Near size n buffer
    → IsOrdered size (shift_up fuel buffer n)
unfolding shift_up
shift_up-IsOrdered zero size n buffer enough hn room w = record {
  ordered = λ i pi hi. w.others i pi hi (λ e. omega (arith, e));
}
shift_up-IsOrdered (suc fuel) size n buffer enough hn room w = elim (ℕ_discrete n 0) [
  | yes top ↦
      let b : (n == 0) ≡ true = ground arith in
      rw b (record { ordered = λ i pi hi. w.others i pi hi (λ e. omega (arith, e)) })
  | no inner ↦
      let b : (n == 0) ≡ false = ground arith in
      let up = exchange buffer (parent n) n in
      let rest = λ (e : key_le (key_of buffer (parent n)) (key_of buffer n) ≡ false).
        shift_up-IsOrdered fuel size (parent n) up (omega arith) (omega arith)
          (omega (arith, length-exchange buffer (parent n) n))
          (Near-exchange size n buffer (omega arith) hn room e w) in
      rw b (either (key_le (key_of buffer (parent n)) (key_of buffer n)) refl rest)
]
  where
    either :
        (t : Bool)
        → key_le (key_of buffer (parent n)) (key_of buffer n) ≡ t
        → (key_le (key_of buffer (parent n)) (key_of buffer n) ≡ false
            → IsOrdered size (shift_up fuel (exchange buffer (parent n) n) (parent n)))
        → IsOrdered size
            (if t then buffer else shift_up fuel (exchange buffer (parent n) n) (parent n))
    either true e rest = record {
      ordered = λ i pi hi. elim (ℕ_discrete i n) [
        | yes same ↦ subst (λ q. Le (key_of buffer (parent q)) (key_of buffer q)) (sym same) e
        | no other ↦ w.others i pi hi other
      ];
    }
    either false e rest = rest e

-- A heap in use: its entries fit in the memory, and no key is smaller than its parent's.
pub record IsHeap (heap : Heap) : Type 0 where
  pub fits : heap.size ≤ heap.capacity
  pub room : heap.capacity ≤ length heap.buffer
  pub order : IsOrdered heap.size heap.buffer

length-shift_up :
    (fuel : ℕ) (buffer : List Entry) (n : ℕ) → length (shift_up fuel buffer n) ≡ length buffer
unfolding shift_up
length-shift_up zero buffer n = refl
length-shift_up (suc fuel) buffer n =
    let rest = length-shift_up fuel (exchange buffer (parent n) n) (parent n) in
    let same = length-exchange buffer (parent n) n in grind arith

-- `heap_push` on a heap gives a heap, whether it takes the entry in or, when the heap is full, refuses;
-- it refuses only then, and the size counts the entries taken in.
pub push-IsHeap :
    (heap : Heap) (key : ℤ) (value : ℕ)
    → IsHeap heap
    → IsHeap (push heap key value).0
      × (((push heap key value).1 ≡ true)
            × (heap.size < heap.capacity)
            × ((push heap key value).0.size ≡ heap.size + 1)
          ⊎ ((push heap key value).1 ≡ false)
            × (heap.size ≡ heap.capacity)
            × ((push heap key value).0 ≡ heap))
unfolding push
push-IsHeap heap key value w = elim (dec_lt heap.size heap.capacity) [
  | yes room ↦
      let b : leb heap.capacity heap.size ≡ false = ground arith in
      let e : Entry = record { key = key; value = value } in
      let added = set heap.buffer heap.size e in
      let same = length-set heap.buffer heap.size e in
      rw b (
        record {
          fits = omega arith;
          room = omega (arith, w.room, same, length-shift_up heap.size added heap.size);
          order =
              shift_up-IsOrdered heap.size (heap.size + 1) heap.size added (omega arith)
                (omega arith) (omega (arith, w.room, same))
                (record {
                  others = λ i pi hi ne.
                      subst₂ Le
                        (ap (λ (x : Entry). x.key)
                          (sym (
                            get_or-set_ne heap.buffer heap.size (parent i) e no_entry
                              (λ q. omega (arith, q)))))
                        (ap (λ (x : Entry). x.key)
                          (sym (
                            get_or-set_ne heap.buffer heap.size i e no_entry
                              (λ q. omega (arith, q)))))
                        (w.order.ordered i pi (omega arith));
                  below = λ i pn pi hi child. absurd (omega arith);
                });
        },
        inl (refl, room, refl),
      )
  | no full ↦
      let b : leb heap.capacity heap.size ≡ true = ground arith in
      rw b (w, inr (refl, omega (arith, w.fits), refl))
]
