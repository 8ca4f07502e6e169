-- ===== src/Stdlib/Sort.antt =====
-- sort of lib/stdlib.c leaves the elements in order.
use tony_henry_niklas.Stdlib.{
  Items, Compare, is_greater, exchanged, heapify, build_from, sort_from, sort,
}
use tony_henry_niklas.Stdlib.Swap.{
  count, IsArranged, IsArranged-refl, IsArranged-trans, exchanged-IsArranged,
}
use tony_henry_niklas.Stdlib.Float.{
  IsOrder, IsHeap, IsFloating, not_greater, irrefl, at_first, at_second, at_other,
}
use tony_henry_niklas.Stdlib.Heapify.{Made, do_swap_lem, heapify_lem}
use tony_henry_niklas.Common.{
  ℕ, zero, suc, ◌+◌, ◌/◌, ◌^◌, ◌≤◌, ◌<◌, ◌≡◌, refl, sym, ◌∙◌, inl, inr, false, Option, some, arith,
  leb, ◌==◌, and_then, ◌>>=◌, Bool-cases, subst, leb→le, ==_iff,
}

build_from_lem :
    (compare : Compare) (n i : ℕ) (a : Items)
    → IsOrder compare
    → n < 2 ^ 31
    → n ≤ a.limit
    → i ≤ n
    → IsHeap compare (suc i) n a.at
    → Made compare 1 n a (build_from compare n i a)
unfolding build_from
build_from_lem compare n zero a ord small room fit heap = (a.at, refl, heap, IsArranged-refl n a.at)
build_from_lem compare n (suc i) a ord small room fit heap =
    let floating : IsFloating compare (suc i) n (suc i) a.at = record {
      others = λ j two end par off. heap j two end (omega arith);
      under = λ c end up par. absurd (omega arith);
    } in
    let (f, q, heap', all) =
      heapify_lem (n + 1) compare (suc i) (suc i) n a ord small room (omega arith) (omega arith) fit
        (omega arith) floating in
    let b : Items = record { limit = a.limit; at = f } in
    let (g, q', heap'', all') = build_from_lem compare n i b ord small room (omega arith) heap' in
    (
      g,
      and_then (λ x. build_from compare n i x) q ∙ q',
      heap'',
      IsArranged-trans n a.at f g all all',
    )

-- No element of a heap is greater than its root.
root_max :
    (rounds : ℕ) (compare : Compare) (n : ℕ) (f : ℕ → ℕ) (z : ℕ)
    → IsOrder compare
    → IsHeap compare 1 n f
    → z ≤ rounds
    → 1 ≤ z
    → z ≤ n
    → is_greater (compare (f z) (f 1)) ≡ false
root_max zero compare n f z ord heap h low end = absurd (omega arith)
root_max (suc rounds) compare n f z ord heap h low end = elim (Bool-cases (z == 1)) [
  | inl e ↦
      subst (λ x. is_greater (compare (f x) (f 1)) ≡ false) (sym ((==_iff z 1).0 e))
        (irrefl compare (f 1) ord)
  | inr e ↦
      let two : 2 ≤ z = ground (arith, e) in
      ord.trans (f z) (f (z / 2)) (f 1) (heap z two end (omega arith))
        (root_max rounds compare n f (z / 2) ord heap (omega arith) (omega arith) (omega arith))
]

-- An arrangement of the first elements is one of more of them.
widen : (m n : ℕ) (f g : ℕ → ℕ) → m ≤ n → IsArranged m f g → IsArranged n f g
unfolding count
widen m n f g h r = record {
  counts = λ v. counted n v h;
  from = λ x low end. elim (Bool-cases (leb x m)) [
    | inl e ↦ let (y, l, k, q) = r.from x low (leb→le x m e) in (y, l, omega (arith, k, h), q)
    | inr e ↦ (x, low, end, r.beyond x (ground (arith, e)))
  ];
  beyond = λ x k. r.beyond x (omega arith);
}
  where
    counted : (k v : ℕ) → m ≤ k → count v g k ≡ count v f k
    counted zero v l = refl
    counted (suc k) v l = elim (Bool-cases (m == suc k)) [
      | inl e ↦ subst (λ x. count v g x ≡ count v f x) ((==_iff m (suc k)).0 e) (r.counts v)
      | inr e ↦
          let rest = counted k v (ground (arith, e)) in
          let here = r.beyond (suc k) (ground (arith, e)) in ground (arith, rest, here)
    ]

abbrev pub InOrder : Compare → ℕ → ℕ → (ℕ → ℕ) → Type 0
InOrder compare low n f = (q : ℕ) → low ≤ q → q < n → is_greater (compare (f q) (f (q + 1))) ≡ false

-- The first `i` elements are a heap, the others are in order, and none of the first is greater than one
-- of the others.
record IsPart (compare : Compare) (i n : ℕ) (f : ℕ → ℕ) : Type 0 where
  heap : IsHeap compare 1 i f
  ordered : InOrder compare (suc i) n f
  bound : (p q : ℕ) → 1 ≤ p → p ≤ i → i < q → q ≤ n → is_greater (compare (f p) (f q)) ≡ false

-- The root has gone behind the heap, and the element from there is on its way down.
swapped-IsFloating :
    (compare : Compare) (k n : ℕ) (f : ℕ → ℕ)
    → IsPart compare (suc (suc k)) n f
    → IsFloating compare 1 (suc k) 1 (exchanged f 1 (suc (suc k)))
swapped-IsFloating compare k n f s = record {
  others = λ j two end par off.
      not_greater compare _ _ (f j) (f (j / 2))
        (at_other f 1 (suc (suc k)) j (λ p. absurd (omega arith)) (λ p. absurd (omega arith)))
        (at_other f 1 (suc (suc k)) (j / 2) off (λ p. absurd (omega arith)))
        (s.heap j two (omega arith) par);
  under = λ c end up par. absurd (omega arith);
}

next-IsPart :
    (compare : Compare) (k n : ℕ) (f g : ℕ → ℕ)
    → IsOrder compare
    → suc (suc k) ≤ n
    → IsPart compare (suc (suc k)) n f
    → IsHeap compare 1 (suc k) g
    → IsArranged (suc k) (exchanged f 1 (suc (suc k))) g
    → IsPart compare (suc k) n g
next-IsPart compare k n f g ord fit s heap r = record {
  heap = heap;
  ordered = λ q low end. elim (Bool-cases (q == i)) [
    | inl e ↦
        let at : q ≡ i = (==_iff q i).0 e in
        not_greater compare (g q) (g (q + 1)) (f 1) (f (q + 1)) (last q at)
          (later (q + 1) (omega (arith, at)))
          (s.bound 1 (q + 1) (omega arith) (omega arith) (omega (arith, at)) (omega arith))
    | inr e ↦
        let more : i < q = ground (arith, e) in
        not_greater compare (g q) (g (q + 1)) (f q) (f (q + 1)) (later q more)
          (later (q + 1) (omega arith)) (s.ordered q more end)
  ];
  bound = λ p q low end high top.
      let (z, one, most, e) = source p low end in
      elim (Bool-cases (q == i)) [
        | inl d ↦
            not_greater compare (g p) (g q) (f z) (f 1) e (last q ((==_iff q i).0 d))
              (root_max z compare i f z ord s.heap (omega arith) one most)
        | inr d ↦
            let more : i < q = ground (arith, d) in
            not_greater compare (g p) (g q) (f z) (f q) e (later q more)
              (s.bound z q one most more top)
      ];
}
  where
    i : ℕ
    i = suc (suc k)

    last : (q : ℕ) → q ≡ i → g q ≡ f 1
    last q e = r.beyond q (omega (arith, e)) ∙ at_second f 1 i q e

    later : (q : ℕ) → i < q → g q ≡ f q
    later q h =
        r.beyond q (omega arith)
        ∙ at_other f 1 i q (λ p. absurd (omega arith)) (λ p. absurd (omega arith))

    source : (p : ℕ) → 1 ≤ p → p ≤ suc k → (z : ℕ) × (1 ≤ z) × (z ≤ i) × (g p ≡ f z)
    source p low end =
        let (y, l, h, e) = r.from p low end in
        elim (Bool-cases (y == 1)) [
          | inl d ↦
              (i, omega arith, omega arith, e ∙ at_first f 1 i y ((==_iff y 1).0 d) (omega arith))
          | inr d ↦ (
            y,
            l,
            omega (arith, h),
            e
                ∙ at_other f 1 i y (λ x. absurd (ground (arith, d, x)))
                    (λ x. absurd (omega (arith, h, x))),
          )
        ]

sort_from_lem :
    (compare : Compare) (i n : ℕ) (a : Items)
    → IsOrder compare
    → n < 2 ^ 31
    → n ≤ a.limit
    → i ≤ n
    → IsPart compare i n a.at
    → (f : ℕ → ℕ) × (sort_from compare i a ≡ some (record { limit = a.limit; at = f }))
      × InOrder compare 1 n f
      × IsArranged n a.at f
unfolding sort_from
sort_from_lem compare zero n a ord small room fit s =
    (a.at, refl, s.ordered, IsArranged-refl n a.at)
sort_from_lem compare (suc zero) n a ord small room fit s = (
  a.at,
  refl,
  λ q low end. elim (Bool-cases (q == 1)) [
    | inl e ↦ s.bound q (q + 1) low (ground (arith, e)) (omega arith) (omega arith)
    | inr e ↦ s.ordered q (ground (arith, e)) end
  ],
  IsArranged-refl n a.at,
)
sort_from_lem compare (suc (suc k)) n a ord small room fit s =
    let i : ℕ = suc (suc k) in
    let b : Items = record { limit = a.limit; at = exchanged a.at 1 i } in
    let (f, q, heap, all) =
      heapify_lem i compare 1 1 (suc k) b ord (omega arith) (omega arith) (omega arith)
        (omega arith) (omega arith) (omega arith) (swapped-IsFloating compare k n a.at s) in
    let c : Items = record { limit = a.limit; at = f } in
    let (g, q', ordered, all') =
      sort_from_lem compare (suc k) n c ord small room (omega arith)
        (next-IsPart compare k n a.at f ord fit s heap all) in
    let rest : Items → Option Items = λ x. sort_from compare (suc k) x in
    let down : Items → Option Items = λ x. heapify i compare 1 (suc k) x >>= rest in
    (
      g,
      and_then down (do_swap_lem a 1 i (omega arith) (omega arith) (omega arith) (omega arith))
          ∙ and_then rest q
          ∙ q',
      ordered,
      IsArranged-trans n a.at b.at g
          (exchanged-IsArranged n 1 i a.at (omega arith) (omega arith) (omega arith) fit)
          (IsArranged-trans n b.at f g (widen (suc k) n b.at f (omega arith) all) all'),
    )

-- With a comparison that is a strict weak order, sort of an array of fewer than 2 ^ 31 elements
-- makes no access outside it and ends; no element is greater than the one after it then, each
-- value occurs as often as before, and what stands behind the elements stays.
pub sort_lem :
    (compare : Compare) (cnt : ℕ) (a : Items)
    → IsOrder compare
    → cnt < 2 ^ 31
    → cnt ≤ a.limit
    → (f : ℕ → ℕ) × (sort compare cnt a ≡ some (record { limit = a.limit; at = f }))
      × InOrder compare 1 cnt f
      × IsArranged cnt a.at f
unfolding sort
sort_lem compare n a ord small room =
    let (f, q, heap, all) =
      build_from_lem compare n (n / 2) a ord small room (omega arith)
        (λ j two end par. absurd (omega arith)) in
    let b : Items = record { limit = a.limit; at = f } in
    let part : IsPart compare n n f = record {
      heap = heap;
      ordered = λ q' low end. absurd (omega arith);
      bound = λ p q' l h m t. absurd (omega arith);
    } in
    let (g, q', ordered, all') = sort_from_lem compare n n b ord small room (omega arith) part in
    (g, and_then (λ x. sort_from compare n x) q ∙ q', ordered, IsArranged-trans n a.at f g all all')
