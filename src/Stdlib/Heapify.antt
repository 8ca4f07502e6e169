-- ===== src/Stdlib/Heapify.antt =====
-- heapify of lib/stdlib.c makes a heap of a subtree, and its rounds are enough.
use tony_henry_niklas.Stdlib.{
  Items, Compare, is_greater, inside, exchanged, do_swap, larger, heapify,
}
use tony_henry_niklas.Stdlib.Swap.{
  IsArranged, IsArranged-refl, IsArranged-trans, exchanged-IsArranged,
}
use tony_henry_niklas.Stdlib.Float.{
  IsOrder, IsHeap, IsFloating, picked, larger_lem, IsMax, round_lem, float_step,
}
use tony_henry_niklas.Common.{
  ℕ, zero, suc, ◌+◌, ◌*◌, ◌/◌, ◌%◌, ◌^◌, ◌≤◌, ◌<◌, ◌≡◌, sym, ap, ◌∙◌, ◌⊎◌, inl, inr, true, false,
  ◌&&◌, Option, some, arith, ◌==◌, passes, chosen, passed_over, and_then, if◌then◌else◌, ◌>>=◌,
  Bool-cases, subst, ==_iff,
}

pub do_swap_lem :
    (a : Items) (i j : ℕ)
    → 1 ≤ i
    → i ≤ a.limit
    → 1 ≤ j
    → j ≤ a.limit
    → do_swap a i j ≡ some (record { limit = a.limit; at = exchanged a.at i j })
unfolding do_swap
do_swap_lem a i j h k h' k' = passes {c = inside a i && inside a j} (ground arith)

-- An element that is at least its children ends the way down.
settled :
    (compare : Compare) (lo n i : ℕ) (f : ℕ → ℕ)
    → IsFloating compare lo n i f
    → ((c : ℕ) → 2 ≤ c → c ≤ n → c / 2 ≡ i → is_greater (compare (f c) (f i)) ≡ false)
    → IsHeap compare lo n f
settled compare lo n i f s most j two end par = elim (Bool-cases (j / 2 == i)) [
  | inl e ↦
      let up : j / 2 ≡ i = (==_iff (j / 2) i).0 e in
      subst (λ x. is_greater (compare (f j) (f x)) ≡ false) (sym up) (most j two end up)
  | inr e ↦ s.others j two end par (λ p. absurd (ground (arith, e, p)))
]

abbrev pub Made : Compare → ℕ → ℕ → Items → Option Items → Type 0
Made compare lo n a o =
    (f : ℕ → ℕ) × (o ≡ some (record { limit = a.limit; at = f }))
    × IsHeap compare lo n f
    × IsArranged n a.at f

pub heapify_lem :
    (rounds : ℕ) (compare : Compare) (lo i n : ℕ) (a : Items)
    → IsOrder compare
    → n < 2 ^ 31
    → n ≤ a.limit
    → 1 ≤ lo
    → lo ≤ i
    → i ≤ n
    → n < rounds + i
    → IsFloating compare lo n i a.at
    → Made compare lo n a (heapify rounds compare i n a)
unfolding heapify
heapify_lem zero compare lo i n a ord small room one low end enough s = absurd (omega arith)
heapify_lem (suc rounds) compare lo i n a ord small room one low end enough s =
    let f : ℕ → ℕ = a.at in
    let first : ℕ = picked compare f n (2 * i) i in
    let max : ℕ = picked compare f n (2 * i + 1) first in
    let left : 2 * i % 2 ^ 32 ≡ 2 * i = omega arith in
    let right : (2 * i + 1) % 2 ^ 32 ≡ 2 * i + 1 = omega arith in
    let in_heap : (1 ≤ first) × (first ≤ n) = (ground arith, ground arith) in
    let one_left = larger_lem compare a n (2 * i) i room (omega arith) (omega arith) end in
    let one_right =
      larger_lem compare a n (2 * i + 1) first room (omega arith) in_heap.0 in_heap.1 in
    let down : ℕ → Items → Option Items = λ m x. heapify rounds compare m n x in
    let last : ℕ → Option Items = λ m. if m == i then some a else (do_swap a i m >>= down m) in
    let second : ℕ → Option Items = λ m. larger compare a n ((2 * i + 1) % 2 ^ 32) m >>= last in
    let found : heapify (suc rounds) compare i n a ≡ last max =
      ap (λ c. larger compare a n c i >>= second) left
      ∙ and_then second one_left
      ∙ ap (λ c. larger compare a n c first >>= last) right
      ∙ and_then last one_right in
    subst (Made compare lo n a) (sym found) (
      ending max (round_lem compare f n i ord (omega arith)) (Bool-cases (max == i))
        (λ m l e r t. heapify_lem rounds compare lo m n (swapped m) ord small room one l e r t))
  where
    swapped : ℕ → Items
    swapped m = record { limit = a.limit; at = exchanged a.at i m }

    ending :
        (m : ℕ)
        → IsMax compare a.at n i m
        → ((m == i) ≡ true) ⊎ ((m == i) ≡ false)
        → ((k : ℕ)
            → lo ≤ k
            → k ≤ n
            → n < rounds + k
            → IsFloating compare lo n k (swapped k).at
            → Made compare lo n (swapped k) (heapify rounds compare k n (swapped k)))
        → Made compare lo n a
            (if m == i then some a else (do_swap a i m >>= λ x. heapify rounds compare m n x))
    ending m (which, most) (inl e) again =
        let same : m ≡ i = (==_iff m i).0 e in
        (
          a.at,
          chosen _ e,
          settled compare lo n i a.at s (λ c l h p.
              subst (λ x. is_greater (compare (a.at c) (a.at x)) ≡ false) same (most c l h p)),
          IsArranged-refl n a.at,
        )
    ending m (inl same, most) (inr e) again = absurd (ground (arith, e, same))
    ending m (inr (at, fit, gr), most) (inr e) again =
        let b : Items = swapped m in
        let (f, q, heap, all) =
          again m (omega arith) fit (omega arith)
            (float_step compare lo n i m a.at ord low (omega arith) at fit gr most s) in
        (
          f,
          passed_over (some a) e
              ∙ and_then (λ x. heapify rounds compare m n x)
                  (do_swap_lem a i m (omega arith) (omega arith) (omega arith) (omega arith))
              ∙ q,
          heap,
          IsArranged-trans n a.at b.at f
              (exchanged-IsArranged n i m a.at (omega arith) end (omega arith) fit) all,
        )
