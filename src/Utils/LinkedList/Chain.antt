-- ===== src/Utils/LinkedList/Chain.antt =====
-- The sequence of addresses that a linked list holds, and what the operations of src/main/utils/list.h do to it.
use nettle.Prelude.{ℕ, ◌≡◌, ◌≢◌, refl, ap, sym, ◌∙◌, Option, none, some, List, [], ◌∷◌, arith}
use nettle.Utils.LinkedList.{
  Entries, LinkedList, put, list_init, link_after, link_back, list_push_front, bypass_back, bypass,
  clear, list_remove, popped, list_pop_front,
}

-- From `p` through the addresses to `t`, the links agree in both directions.
unfoldable pub Chain : Entries → ℕ → List ℕ → ℕ → Type 0
Chain s p [] t = (s.next p ≡ t) × (s.prev t ≡ p)
Chain s p (x ∷ xs) t = (s.next p ≡ x) × (s.prev x ≡ p) × Chain s x xs t

-- An address that no item of a list has.
unfoldable pub Fresh : ℕ → List ℕ → Type 0
Fresh e [] = Unit
Fresh e (x ∷ xs) = (e ≢ x) × Fresh e xs

unfoldable pub Distinct : List ℕ → Type 0
Distinct [] = Unit
Distinct (x ∷ xs) = Fresh x xs × Distinct xs

-- The entries hold the list `xs` between the sentinels of `list`.
pub record Holds (list : LinkedList) (xs : List ℕ) (s : Entries) : Type 0 where
  pub chain : Chain s list.head xs list.tail
  pub last : s.next list.tail ≡ 0
  pub ends_apart : list.head ≢ list.tail
  pub head_filled : 0 ≢ list.head
  pub tail_filled : 0 ≢ list.tail
  pub head_fresh : Fresh list.head xs
  pub tail_fresh : Fresh list.tail xs
  pub filled : Fresh 0 xs
  pub distinct : Distinct xs

put-same : (f : ℕ → ℕ) (a v : ℕ) → put f a v a ≡ v
unfolding put
put-same f a v = ground arith

put-other : (f : ℕ → ℕ) (a v b : ℕ) → a ≢ b → put f a v b ≡ f b
unfolding put
put-other f a v b h = ground arith

Chain-next :
    (s : Entries) (p : ℕ) (xs : List ℕ) (t a v : ℕ)
    → a ≢ p
    → Fresh a xs
    → Chain s p xs t
    → Chain (record s { next = put s.next a v }) p xs t
unfolding Chain Fresh
Chain-next s p [] t a v h fresh c = (put-other s.next a v p h ∙ c.0, c.1)
Chain-next s p (x ∷ xs) t a v h fresh c =
    (put-other s.next a v p h ∙ c.0, c.1, Chain-next s x xs t a v fresh.0 fresh.1 c.2)

Chain-prev :
    (s : Entries) (p : ℕ) (xs : List ℕ) (t a v : ℕ)
    → a ≢ t
    → Fresh a xs
    → Chain s p xs t
    → Chain (record s { prev = put s.prev a v }) p xs t
unfolding Chain Fresh
Chain-prev s p [] t a v h fresh c = (c.0, put-other s.prev a v t h ∙ c.1)
Chain-prev s p (x ∷ xs) t a v h fresh c =
    (c.0, put-other s.prev a v x fresh.0 ∙ c.1, Chain-prev s x xs t a v h fresh.1 c.2)

-- A list after `list_init` is empty.
pub list_init-Holds :
    (list : LinkedList) (s : Entries)
    → list.head ≢ list.tail
    → 0 ≢ list.head
    → 0 ≢ list.tail
    → Holds list [] (list_init list s)
unfolding list_init Chain Fresh Distinct
list_init-Holds list s apart head tail = record {
  chain = (
    put-other _ list.tail 0 list.head (λ q. apart (sym q)) ∙ put-same s.next list.head list.tail,
    put-same _ list.tail list.head,
  );
  last = put-same _ list.tail 0;
  ends_apart = apart;
  head_filled = head;
  tail_filled = tail;
  head_fresh = tt;
  tail_fresh = tt;
  filled = tt;
  distinct = tt;
}

-- `list_push_front` on an unused address that is not NULL.
module _ (list : LinkedList) (e : ℕ) (s : Entries) (new_head : e ≢ list.head)
    (new_tail : e ≢ list.tail) where
  link_after-entry : put (put s.next e (s.next list.head)) list.head e e ≡ s.next list.head
  link_after-entry =
      put-other _ list.head e e (λ q. new_head (sym q)) ∙ put-same s.next e (s.next list.head)

  -- The field `prev` of the new entry, whose follower is another one.
  new_prev : (x : ℕ) → e ≢ x → put (put s.prev e list.head) x e e ≡ list.head
  new_prev x h = put-other _ x e e (λ q. h (sym q)) ∙ put-same s.prev e list.head

  push_front-Chain :
      (xs : List ℕ)
      → Holds list xs s
      → Fresh e xs
      → Chain (list_push_front list e s) list.head (e ∷ xs) list.tail
  unfolding Chain Fresh Distinct list_push_front link_after link_back
  push_front-Chain [] h fresh =
      let first = link_after-entry ∙ h.chain.0 in
      rw first (put-same _ list.head e, new_prev list.tail new_tail, (refl, put-same _ list.tail e))
  push_front-Chain (x ∷ xs) h fresh =
      let first = link_after-entry ∙ h.chain.0 in
      (
        put-same _ list.head e,
        rw first (new_prev x fresh.0),
        (
          first,
          rw first (put-same _ x e),
          Chain-next _ x xs list.tail list.head e h.head_fresh.0 h.head_fresh.1 (
              Chain-next _ x xs list.tail e _ fresh.0 fresh.1 (
                Chain-prev _ x xs list.tail _ e (rw first (λ q. h.tail_fresh.0 (sym q)))
                  (rw first h.distinct.0)
                  (Chain-prev s x xs list.tail e list.head new_tail fresh.1 h.chain.2))),
        ),
      )

  -- Where the entries hold a list, `list_push_front` of an entry that is not NULL, not a sentinel and not in the list makes
  -- them hold the list with the entry in front: all links agree in both directions.
  pub push_front-Holds :
      (xs : List ℕ)
      → Holds list xs s
      → 0 ≢ e
      → Fresh e xs
      → Holds list (e ∷ xs) (list_push_front list e s)
  unfolding Fresh Distinct list_push_front link_after link_back
  push_front-Holds xs h filled fresh = record {
    chain = push_front-Chain xs h fresh;
    last =
        put-other _ list.head e list.tail h.ends_apart
        ∙ put-other s.next e (s.next list.head) list.tail new_tail
        ∙ h.last;
    ends_apart = h.ends_apart;
    head_filled = h.head_filled;
    tail_filled = h.tail_filled;
    head_fresh = ((λ q. new_head (sym q)), h.head_fresh);
    tail_fresh = ((λ q. new_tail (sym q)), h.tail_fresh);
    filled = (filled, h.filled);
    distinct = (fresh, h.distinct);
  }

-- `list_pop_front` where the list has an entry `x`.
module _ (list : LinkedList) (s : Entries) (x : ℕ) where
  -- The follower of `x` is another entry, and not NULL.
  follower : (xs : List ℕ) → Holds list (x ∷ xs) s → (s.next x ≢ x) × (0 ≢ s.next x)
  unfolding Chain Fresh Distinct
  follower [] h = rw (h.chain.2.0) (h.tail_fresh.0, h.tail_filled)
  follower (y ∷ ys) h = rw (h.chain.2.0) ((λ q. h.distinct.0.0 (sym q)), h.filled.1.0)

  leader : (xs : List ℕ) → Holds list (x ∷ xs) s → s.prev x ≡ list.head
  unfolding Chain
  leader xs h = h.chain.1

  back : (xs : List ℕ) → Holds list (x ∷ xs) s → put s.prev (s.next x) (s.prev x) x ≡ list.head
  back xs h = put-other s.prev (s.next x) (s.prev x) x (follower xs h).0 ∙ leader xs h

  pop_front-Chain :
      (xs : List ℕ)
      → Holds list (x ∷ xs) s
      → Chain (clear x (bypass x (bypass_back x s))) list.head xs list.tail
  unfolding Chain Fresh Distinct clear bypass bypass_back
  pop_front-Chain [] h =
      rw (h.chain.2.0, h.chain.1, put-other s.prev list.tail list.head x h.tail_fresh.0, h.chain.1)
        (
          put-other _ x 0 list.head (λ q. h.head_fresh.0 (sym q)) ∙ put-same _ list.head list.tail,
          put-other _ x 0 list.tail (λ q. h.tail_fresh.0 (sym q)) ∙ put-same _ list.tail list.head,
        )
  pop_front-Chain (y ∷ ys) h =
      let next = h.chain.2.0 in
      let behind = back (y ∷ ys) h in
      (
        put-other _ x 0 list.head (λ q. h.head_fresh.0 (sym q))
            ∙ rw behind (put-same s.next list.head (s.next x))
            ∙ next,
        put-other _ x 0 y h.distinct.0.0 ∙ rw next (put-same s.prev y (s.prev x)) ∙ h.chain.1,
        Chain-next _ y ys list.tail x 0 h.distinct.0.0 h.distinct.0.1 (
            Chain-prev _ y ys list.tail x 0 (λ q. h.tail_fresh.0 (sym q)) h.distinct.0.1
              (Chain-next _ y ys list.tail _ _ (rw behind h.head_fresh.1.0)
                (rw behind h.head_fresh.1.1)
                (Chain-prev s y ys list.tail _ _ (rw next (λ q. h.tail_fresh.1.0 (sym q)))
                  (rw next h.distinct.1.0) h.chain.2.2))),
      )

  removed :
      (xs : List ℕ)
      → Holds list (x ∷ xs) s
      → list_remove x s ≡ some (clear x (bypass x (bypass_back x s)))
  unfolding list_remove
  removed xs h = let neighbour = (follower xs h).1 in ground (arith, leader xs h, h.head_filled)

  rest-Holds :
      (xs : List ℕ) → Holds list (x ∷ xs) s → Holds list xs (clear x (bypass x (bypass_back x s)))
  unfolding Fresh Distinct clear bypass bypass_back
  rest-Holds xs h = record {
    chain = pop_front-Chain xs h;
    last =
        put-other _ x 0 list.tail (λ q. h.tail_fresh.0 (sym q))
        ∙ put-other s.next _ _ list.tail (rw (back xs h) h.ends_apart)
        ∙ h.last;
    ends_apart = h.ends_apart;
    head_filled = h.head_filled;
    tail_filled = h.tail_filled;
    head_fresh = h.head_fresh.1;
    tail_fresh = h.tail_fresh.1;
    filled = h.filled.1;
    distinct = h.distinct.1;
  }

-- What a pop returns and leaves, for each content of the list.
unfoldable pub Pops : LinkedList → List ℕ → Option (Entries × ℕ) → Type 0
Pops list [] result = result ≡ none
Pops list (x ∷ xs) result = (s : Entries) × (result ≡ some (s, x)) × Holds list xs s

-- Where the entries hold a list, `list_pop_front` stops the program if the list is empty; else it
-- returns the first entry, and the entries then hold the rest of the list.
pub pop_front-Pops :
    (list : LinkedList) (s : Entries) (xs : List ℕ)
    → Holds list xs s
    → Pops list xs (list_pop_front list s)
unfolding Pops Chain list_pop_front popped list_remove
pop_front-Pops list s [] h = rw (h.chain.0, h.last) refl
pop_front-Pops list s (x ∷ xs) h = rw (h.chain.0) (
  clear x (bypass x (bypass_back x s)),
  ap (popped x) (removed list s x xs h),
  rest-Holds list s x xs h,
)
