-- ===== src/Stdlib/Search.antt =====
-- binary_search of lib/stdlib.c finds a match exactly where there is one.
use Prim.Native.Nat.{Ordering}
use tony_henry_niklas.Stdlib.{Items, Compare, is_greater, inside, search_from, binary_search}
use tony_henry_niklas.Stdlib.Float.{IsOrder, irrefl}
use tony_henry_niklas.Stdlib.Sort.{InOrder}
use tony_henry_niklas.Common.{
  ℕ, zero, suc, ◌+◌, ◌-◌, ◌/◌, ◌≤◌, ◌<◌, ◌≡◌, refl, ap, ◌∙◌, ◌≢◌, ◌↔◌, ◌⊎◌, inl, inr, true, false,
  Option, none, some, arith, ltb, leb, passes, chosen, passed_over, Bool-cases, subst, ltb→lt,
  leb→le,
}

Ordering-cases : (o : Ordering) → (o ≡ Ordering.lt) ⊎ ((o ≡ Ordering.gt) ⊎ (o ≡ Ordering.eq))
Ordering-cases Ordering.lt = inl refl
Ordering-cases Ordering.gt = inr (inl refl)
Ordering-cases Ordering.eq = inr (inr refl)

-- The two results of a comparison belong together.
abbrev pub IsMirrored : Compare → Type 0
IsMirrored compare = (x y : ℕ) → (compare x y ≡ Ordering.lt) ↔ (compare y x ≡ Ordering.gt)

abbrev pub Matches : Compare → ℕ → ℕ → (ℕ → ℕ) → Option ℕ → Type 0
Matches compare key n f none = (j : ℕ) → 1 ≤ j → j ≤ n → compare key (f j) ≢ Ordering.eq
Matches compare key n f (some m) = (m < n) × (compare key (f (m + 1)) ≡ Ordering.eq)

-- The elements in front of `first` are less than the key, those from `last` on are greater.
record IsRange (compare : Compare) (key n first last : ℕ) (f : ℕ → ℕ) : Type 0 where
  less : (j : ℕ) → 1 ≤ j → j ≤ first → compare key (f j) ≡ Ordering.gt
  more : (j : ℕ) → last < j → j ≤ n → compare key (f j) ≡ Ordering.lt

-- What holds along an array in order holds from any place on.
along :
    (compare : Compare) (n : ℕ) (f : ℕ → ℕ)
    → IsOrder compare
    → InOrder compare 1 n f
    → (d i : ℕ) → 1 ≤ i
    → i + d ≤ n
    → is_greater (compare (f i) (f (i + d))) ≡ false
along compare n f ord s zero i low end =
    let same : i ≡ i + 0 = omega arith in
    subst (λ x. is_greater (compare (f i) (f x)) ≡ false) same (irrefl compare (f i) ord)
along compare n f ord s (suc d) i low end =
    let next : i + d + 1 ≡ i + suc d = omega arith in
    subst (λ x. is_greater (compare (f i) (f x)) ≡ false) next
      (ord.trans (f i) (f (i + d)) (f (i + d + 1)) (along compare n f ord s d i low (omega arith))
        (s (i + d) (omega arith) (omega arith)))

to_greater : (o : Ordering) → is_greater o ≡ true → o ≡ Ordering.gt
to_greater Ordering.gt e = refl
to_greater Ordering.lt e = absurd (ground (arith, e))
to_greater Ordering.eq e = absurd (ground (arith, e))

-- Behind an element that is greater than the key, all are; in front of one that is less, all are.
above :
    (compare : Compare) (key n : ℕ) (f : ℕ → ℕ)
    → IsOrder compare
    → IsMirrored compare
    → InOrder compare 1 n f
    → (i j : ℕ) → 1 ≤ i
    → i ≤ j
    → j ≤ n
    → compare key (f i) ≡ Ordering.lt
    → compare key (f j) ≡ Ordering.lt
above compare key n f ord mirror s i j low le end e =
    let place : i + (j - i) ≡ j = omega arith in
    let kept : is_greater (compare (f i) (f j)) ≡ false =
      subst (λ x. is_greater (compare (f i) (f x)) ≡ false) place
        (along compare n f ord s (j - i) i low (omega arith)) in
    let big : is_greater (compare (f i) key) ≡ true = ap is_greater ((mirror key (f i)).0 e) in
    elim (Bool-cases (is_greater (compare (f j) key))) [
      | inl g ↦ (mirror key (f j)).1 (to_greater (compare (f j) key) g)
      | inr g ↦ absurd (ground (arith, big, ord.trans (f i) (f j) key kept g))
    ]

below :
    (compare : Compare) (key n : ℕ) (f : ℕ → ℕ)
    → IsOrder compare
    → InOrder compare 1 n f
    → (i j : ℕ) → 1 ≤ i
    → i ≤ j
    → j ≤ n
    → compare key (f j) ≡ Ordering.gt
    → compare key (f i) ≡ Ordering.gt
below compare key n f ord s i j low le end e =
    let place : i + (j - i) ≡ j = omega arith in
    let kept : is_greater (compare (f i) (f j)) ≡ false =
      subst (λ x. is_greater (compare (f i) (f x)) ≡ false) place
        (along compare n f ord s (j - i) i low (omega arith)) in
    elim (Bool-cases (is_greater (compare key (f i)))) [
      | inl g ↦ to_greater (compare key (f i)) g
      | inr g ↦ absurd (ground (arith, ap is_greater e, ord.trans key (f i) (f j) g kept))
    ]

gt_not_eq : (o : Ordering) → o ≡ Ordering.gt → o ≢ Ordering.eq
gt_not_eq Ordering.gt e d = absurd (ground (arith, ap is_greater d))
gt_not_eq Ordering.lt e d = absurd (ground (arith, ap is_greater e))
gt_not_eq Ordering.eq e d = absurd (ground (arith, ap is_greater e))

lt_not_eq : (o : Ordering) → o ≡ Ordering.lt → o ≢ Ordering.eq
lt_not_eq Ordering.lt e d = absurd (ground (arith, d))
lt_not_eq Ordering.gt e d = absurd (ground (arith, ap is_greater e))
lt_not_eq Ordering.eq e d = absurd (ground (arith, e))

no_match :
    (compare : Compare) (key n first last : ℕ) (f : ℕ → ℕ)
    → last ≤ first
    → IsRange compare key n first last f
    → Matches compare key n f none
no_match compare key n first last f h range j low end = elim (Bool-cases (leb j first)) [
  | inl e ↦ gt_not_eq (compare key (f j)) (range.less j low (leb→le j first e))
  | inr e ↦ lt_not_eq (compare key (f j)) (range.more j (ground (arith, e)) end)
]

abbrev Answer : Compare → ℕ → ℕ → Items → Option (Option ℕ) → Type 0
Answer compare key n a o = (r : Option ℕ) × (o ≡ some r) × Matches compare key n a.at r

search_from_lem :
    (rounds : ℕ) (compare : Compare) (key n first last : ℕ) (a : Items)
    → IsOrder compare
    → IsMirrored compare
    → InOrder compare 1 n a.at
    → n ≤ a.limit
    → first ≤ last
    → last ≤ n
    → last ≤ first + rounds
    → IsRange compare key n first last a.at
    → Answer compare key n a (search_from rounds compare key first last a)
unfolding search_from
search_from_lem zero compare key n first last a ord mirror s room le end enough range =
    let empty : ltb first last ≡ false = ground arith in
    (none, passed_over none empty, no_match compare key n first last a.at (omega arith) range)
search_from_lem (suc rounds) compare key n first last a ord mirror s room le end enough range =
    let middle : ℕ = first + (last - first) / 2 in
    let m : ℕ = a.at (middle + 1) in
    let under : Option (Option ℕ) = search_from rounds compare key first middle a in
    let over : Option (Option ℕ) = search_from rounds compare key (middle + 1) last a in
    let branch : Ordering → Option (Option ℕ) =
      λ o. elim o [ Ordering.lt ↦ under | Ordering.gt ↦ over | Ordering.eq ↦ some (some middle) ] in
    elim (Bool-cases (ltb first last)) [
      | inr e ↦
          (none, passed_over _ e, no_match compare key n first last a.at (ground (arith, e)) range)
      | inl e ↦
          let some_left : first < last = ltb→lt first last e in
          let here : middle + 1 ≤ last = omega arith in
          let valid : inside a (middle + 1) ≡ true = ground (arith, here, end, room) in
          let step : search_from (suc rounds) compare key first last a ≡ branch (compare key m) =
            chosen (some none) e ∙ passes {c = inside a (middle + 1)} valid in
          elim (Ordering-cases (compare key m)) [
            | inl o ↦
                let (r, q, h) =
                  search_from_lem rounds compare key n first middle a ord mirror s room
                    (omega arith) (omega (arith, here)) (omega (arith, here))
                    (record {
                      less = range.less;
                      more = λ j l k.
                          above compare key n a.at ord mirror s (middle + 1) j (omega arith)
                            (omega arith) k o;
                    }) in
                (r, step ∙ ap branch o ∙ q, h)
            | inr (inl o) ↦
                let (r, q, h) =
                  search_from_lem rounds compare key n (middle + 1) last a ord mirror s room here
                    end (omega arith)
                    (record {
                      less = λ j l k.
                          below compare key n a.at ord s j (middle + 1) l k (omega (arith, here)) o;
                      more = range.more;
                    }) in
                (r, step ∙ ap branch o ∙ q, h)
            | inr (inr o) ↦ (some middle, step ∙ ap branch o, (omega (arith, here), o))
          ]
    ]

-- in an array in order by the comparison, a strict weak order whose two results belong together,
-- binary_search makes no access outside the array and ends; it returns an element that compares
-- equal to the key, or a null pointer exactly where there is none.
pub binary_search_lem :
    (compare : Compare) (key cnt : ℕ) (a : Items)
    → IsOrder compare
    → IsMirrored compare
    → InOrder compare 1 cnt a.at
    → cnt ≤ a.limit
    → (r : Option ℕ) × (binary_search compare key cnt a ≡ some r) × Matches compare key cnt a.at r
unfolding binary_search
binary_search_lem compare key n a ord mirror s room =
    search_from_lem n compare key n 0 n a ord mirror s room (omega arith) (omega arith)
      (omega arith)
      (record { less = λ j l k. absurd (omega arith); more = λ j l k. absurd (omega arith) })
