-- ===== src/Utils/Queue/Ring.antt =====
-- The values that a ring holds, and where its operations put them.
use nettle.Prelude.{
  ℕ, zero, suc, ◌+◌, ◌-◌, ◌%◌, ◌<◌, ◌≡◌, ◌⊎◌, inl, inr, refl, ap, ap₂, ◌∙◌, arith, List, [], ◌∷◌,
  ◌++◌, get_or, set, length, get_or-set_self, get_or-set_ne,
}
use native.Mathlib.Nat.{mod-eq_of_lt, mod_self, mod-lt, add-mod_left}
use native.Mathlib.Decide.{dec_lt}
use nettle.Utils.Queue.{Queue, size}

-- The state of every queue in use.
pub record IsQueue (queue : Queue) : Type 0 where
  pub one_more : queue.entry_num ≡ queue.capacity + 1
  pub head-lt : queue.head < queue.entry_num
  pub tail-lt : queue.tail < queue.entry_num
  pub room : length queue.entries ≡ queue.entry_num

-- The `n` values from entry `p` on, round the ring of `m` entries.
unfoldable pub collect : ℕ → List ℕ → ℕ → ℕ → List ℕ
collect m entries p zero = []
collect m entries p (suc n) = get_or entries p 0 ∷ collect m entries ((p + 1) % m) n

-- The values, the first one in first.
abbrev pub contents : Queue → List ℕ
contents queue = collect queue.entry_num queue.entries queue.head (size queue)

-- The entry after `p`.
pub next-cases :
    (m p : ℕ) → p < m → (((p + 1) % m ≡ p + 1) × (p + 1 < m)) ⊎ (((p + 1) % m ≡ 0) × (p + 1 ≡ m))
next-cases m p h = elim (dec_lt (p + 1) m) [
  | yes l ↦ inl (mod-eq_of_lt l, l)
  | no n ↦ let e : p + 1 ≡ m = omega arith in inr (ap (λ k. k % m) e ∙ mod_self m, e)
]

pub next-lt : (m p : ℕ) → p < m → (p + 1) % m < m
next-lt m p h = elim (next-cases m p h) [ inl l ↦ omega (arith, l) | inr r ↦ omega (arith, r) ]

pub length-collect : (m p n : ℕ) (entries : List ℕ) → length (collect m entries p n) ≡ n
unfolding collect
length-collect m p zero entries = refl
length-collect m p (suc n) entries = ap suc (length-collect m ((p + 1) % m) n entries)

-- The size, without a division.
pub size-cases :
    (queue : Queue)
    → IsQueue queue
    → (queue.head + size queue ≡ queue.tail)
      ⊎ (queue.head + size queue ≡ queue.tail + queue.entry_num)
unfolding size
size-cases queue w =
    let d = queue.entry_num + queue.tail - queue.head in
    elim (dec_lt queue.tail queue.head) [
      | yes wrapped ↦ inr (omega (arith, mod-eq_of_lt {n = d} {m = queue.entry_num} (omega arith)))
      | no ahead ↦
          let k = queue.tail - queue.head in
          let e : d ≡ queue.entry_num + k = omega arith in
          inl (
            omega (
              arith,
              ap (λ j. j % queue.entry_num) e,
              add-mod_left queue.entry_num k,
              mod-eq_of_lt {n = k} {m = queue.entry_num} (omega arith),
            ))
    ]

pub size-lt : (queue : Queue) → IsQueue queue → size queue < queue.entry_num
unfolding size
size-lt queue w = mod-lt _ (omega arith)

-- The entry `n` steps after `p` is written: the values before it stay, and it is the last one.
pub collect-set :
    (m n p t v : ℕ) (entries : List ℕ)
    → p < m
    → t < m
    → n < m
    → length entries ≡ m
    → ((p + n ≡ t) ⊎ (p + n ≡ t + m))
    → collect m (set entries t v) p (suc n) ≡ collect m entries p n ++ v ∷ []
unfolding collect
collect-set m zero p t v entries hp ht hn room at =
    let e : p ≡ t = omega (arith, at) in
    ap (λ k. k ∷ [])
      (ap (λ k. get_or (set entries t v) k 0) e ∙ get_or-set_self entries t v 0 (omega arith))
collect-set m (suc n) p t v entries hp ht hn room at =
    ap₂ (λ x xs. x ∷ xs) (get_or-set_ne entries t p v 0 (λ e. omega (arith, at, e)))
      (collect-set m n ((p + 1) % m) t v entries (next-lt m p hp) ht (omega arith) room
        (elim (next-cases m p hp) [
          | inl l ↦ elim at [ inl a ↦ inl (omega (arith, l)) | inr a ↦ inr (omega (arith, l)) ]
          | inr r ↦ elim at [ inl a ↦ absurd (omega (arith, r)) | inr a ↦ inl (omega (arith, r)) ]
        ]))
