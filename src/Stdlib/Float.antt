-- ===== src/Stdlib/Float.antt =====
-- One round of heapify of lib/stdlib.c: the greatest of an element and its children moves up.
use Prim.Native.Nat.{Ordering}
use tony_henry_niklas.Stdlib.{Items, Compare, is_greater, inside, exchanged, do_compare, larger}
use tony_henry_niklas.Common.{
  ℕ, ◌+◌, ◌*◌, ◌/◌, ◌≤◌, ◌<◌, ◌≡◌, refl, sym, ap, ◌∙◌, ◌≢◌, ◌⊎◌, inl, inr, true, false, ◌&&◌,
  Option, some, arith, leb, ◌==◌, passes, chosen, passed_over, and_then, if◌then◌else◌, Bool-cases,
  subst, leb→le, ==_iff,
}

-- `compare` orders the elements: it is a strict weak order.
pub record IsOrder (compare : Compare) : Type 0 where
  pub asym : (x y : ℕ) → is_greater (compare x y) ≡ true → is_greater (compare y x) ≡ false
  pub trans :
      (x y z : ℕ)
      → is_greater (compare x y) ≡ false
      → is_greater (compare y z) ≡ false
      → is_greater (compare x z) ≡ false

-- Element `j` is at most its parent, for all parents from `lo` on but `k`.
abbrev pub Below : Compare → (ℕ → ℕ) → ℕ → Type 0
Below compare f j = is_greater (compare (f j) (f (j / 2))) ≡ false

abbrev pub IsHeap : Compare → ℕ → ℕ → (ℕ → ℕ) → Type 0
IsHeap compare lo n f = (j : ℕ) → 2 ≤ j → j ≤ n → lo ≤ j / 2 → Below compare f j

-- A heap but for the element at `k`, whose children may be put under its parent.
pub record IsFloating (compare : Compare) (lo n k : ℕ) (f : ℕ → ℕ) : Type 0 where
  pub others : (j : ℕ) → 2 ≤ j → j ≤ n → lo ≤ j / 2 → j / 2 ≢ k → Below compare f j
  pub under :
      (c : ℕ) → c ≤ n → c / 2 ≡ k → lo ≤ k / 2 → is_greater (compare (f c) (f (k / 2))) ≡ false

-- `larger` picks the child where it is in the heap and greater.
abbrev pub picked : Compare → (ℕ → ℕ) → ℕ → ℕ → ℕ → ℕ
picked compare f n child max =
    if leb child n && is_greater (compare (f child) (f max)) then child else max

pub larger_lem :
    (compare : Compare) (a : Items) (n child max : ℕ)
    → n ≤ a.limit
    → 1 ≤ child
    → 1 ≤ max
    → max ≤ n
    → larger compare a n child max ≡ some (picked compare a.at n child max)
unfolding larger do_compare
larger_lem compare a n child max h c l k = elim (Bool-cases (leb child n)) [
  | inl e ↦
      let low : child ≤ n = leb→le child n e in
      let both : (inside a child && inside a max) ≡ true = ground arith in
      let pick : Ordering → Option ℕ = λ o. some (if is_greater o then child else max) in
      chosen (some max) e
      ∙ and_then pick (passes both)
      ∙ ap (λ b. some (if b && is_greater (compare (a.at child) (a.at max)) then child else max))
          (sym e)
  | inr e ↦
      passed_over _ e
      ∙ ap (λ b. some (if b && is_greater (compare (a.at child) (a.at max)) then child else max))
          (sym e)
]

-- What the two tests of a round find: the element is at least its children, or one of these is
-- greater and at least the other.
abbrev pub IsMax : Compare → (ℕ → ℕ) → ℕ → ℕ → ℕ → Type 0
IsMax compare f n i max =
    ((max ≡ i) ⊎ ((max / 2 ≡ i) × (max ≤ n) × (is_greater (compare (f max) (f i)) ≡ true)))
    × ((c : ℕ) → 2 ≤ c → c ≤ n → c / 2 ≡ i → is_greater (compare (f c) (f max)) ≡ false)

pub irrefl : (compare : Compare) (x : ℕ) → IsOrder compare → is_greater (compare x x) ≡ false
irrefl compare x ord = elim (Bool-cases (is_greater (compare x x))) [
  | inl e ↦ absurd (ground (arith, e, ord.asym x x e))
  | inr e ↦ e
]

greater_trans :
    (compare : Compare) (x y z : ℕ)
    → IsOrder compare
    → is_greater (compare x y) ≡ true
    → is_greater (compare y z) ≡ true
    → is_greater (compare x z) ≡ true
greater_trans compare x y z ord g h = elim (Bool-cases (is_greater (compare x z))) [
  | inl e ↦ e
  | inr e ↦ absurd (ground (arith, g, ord.trans x z y e (ord.asym y z h)))
]

children :
    (n i : ℕ) (P : ℕ → Type 0)
    → (2 * i ≤ n → P (2 * i))
    → (2 * i + 1 ≤ n → P (2 * i + 1))
    → (c : ℕ) → 2 ≤ c
    → c ≤ n
    → c / 2 ≡ i
    → P c
children n i P l r c low fit at = elim (Bool-cases (c == 2 * i)) [
  | inl e ↦ let same : 2 * i ≡ c = sym ((==_iff c (2 * i)).0 e) in subst P same (l (ground arith))
  | inr e ↦ let same : 2 * i + 1 ≡ c = ground arith in subst P same (r (omega (arith, same, fit)))
]

test_failed :
    (compare : Compare) (f : ℕ → ℕ) (n c m : ℕ)
    → (leb c n && is_greater (compare (f c) (f m))) ≡ false
    → c ≤ n
    → is_greater (compare (f c) (f m)) ≡ false
test_failed compare f n c m e h = ground (arith, e)

test_passed :
    (compare : Compare) (f : ℕ → ℕ) (n c m : ℕ)
    → (leb c n && is_greater (compare (f c) (f m))) ≡ true
    → (c ≤ n) × (is_greater (compare (f c) (f m)) ≡ true)
test_passed compare f n c m e = (ground (arith, e), ground (arith, e))

pub round_lem :
    (compare : Compare) (f : ℕ → ℕ) (n i : ℕ)
    → IsOrder compare
    → 1 ≤ i
    → IsMax compare f n i (picked compare f n (2 * i + 1) (picked compare f n (2 * i) i))
round_lem compare f n i ord h = elim (Bool-cases (leb l n && is_greater (compare (f l) (f i)))) [
  | inl e ↦
      subst (λ m. IsMax compare f n i (picked compare f n r m)) (sym (chosen i e)) (left_greater e)
  | inr e ↦
      subst (λ m. IsMax compare f n i (picked compare f n r m)) (sym (passed_over l e)) (left_not e)
]
  where
    l : ℕ
    l = 2 * i

    r : ℕ
    r = 2 * i + 1

    half_l : l / 2 ≡ i
    half_l = omega arith

    half_r : r / 2 ≡ i
    half_r = omega arith

    left_greater :
        (leb l n && is_greater (compare (f l) (f i))) ≡ true
        → IsMax compare f n i (picked compare f n r l)
    left_greater e =
        let (fit, g) = test_passed compare f n l i e in
        elim (Bool-cases (leb r n && is_greater (compare (f r) (f l)))) [
          | inl d ↦
              let (fit', g') = test_passed compare f n r l d in
              subst (IsMax compare f n i) (sym (chosen l d)) (
                inr (half_r, fit', greater_trans compare (f r) (f l) (f i) ord g' g),
                children n i (λ c. is_greater (compare (f c) (f r)) ≡ false)
                    (λ k. ord.asym (f r) (f l) g') (λ k. irrefl compare (f r) ord),
              )
          | inr d ↦ subst (IsMax compare f n i) (sym (passed_over r d)) (
            inr (half_l, fit, g),
            children n i (λ c. is_greater (compare (f c) (f l)) ≡ false)
                (λ k. irrefl compare (f l) ord) (λ k. test_failed compare f n r l d k),
          )
        ]

    left_not :
        (leb l n && is_greater (compare (f l) (f i))) ≡ false
        → IsMax compare f n i (picked compare f n r i)
    left_not e = elim (Bool-cases (leb r n && is_greater (compare (f r) (f i)))) [
      | inl d ↦
          let (fit, g) = test_passed compare f n r i d in
          subst (IsMax compare f n i) (sym (chosen i d)) (
            inr (half_r, fit, g),
            children n i (λ c. is_greater (compare (f c) (f r)) ≡ false)
                (λ k.
                  ord.trans (f l) (f i) (f r) (test_failed compare f n l i e k)
                    (ord.asym (f r) (f i) g))
                (λ k. irrefl compare (f r) ord),
          )
      | inr d ↦ subst (IsMax compare f n i) (sym (passed_over r d)) (
        inl refl,
        children n i (λ c. is_greater (compare (f c) (f i)) ≡ false)
            (λ k. test_failed compare f n l i e k) (λ k. test_failed compare f n r i d k),
      )
    ]

-- The values that are compared, by other names.
pub not_greater :
    (compare : Compare) (x y u v : ℕ)
    → x ≡ u
    → y ≡ v
    → is_greater (compare u v) ≡ false
    → is_greater (compare x y) ≡ false
not_greater compare x y u v e d h =
    ap (λ z. is_greater (compare z y)) e ∙ ap (λ z. is_greater (compare u z)) d ∙ h

pub at_second : (f : ℕ → ℕ) (k m x : ℕ) → x ≡ m → exchanged f k m x ≡ f k
at_second f k m x e = chosen _ ((==_iff x m).1 e)

pub at_first : (f : ℕ → ℕ) (k m x : ℕ) → x ≡ k → k < m → exchanged f k m x ≡ f m
at_first f k m x e h =
    let other : (x == m) ≡ false = ground arith in
    passed_over (f k) other ∙ chosen (f x) ((==_iff x k).1 e)

pub at_other : (f : ℕ → ℕ) (k m x : ℕ) → x ≢ k → x ≢ m → exchanged f k m x ≡ f x
at_other f k m x d e =
    let a : (x == m) ≡ false = ground (arith, e) in
    let b : (x == k) ≡ false = ground (arith, d) in passed_over (f k) a ∙ passed_over (f m) b

pub float_step :
    (compare : Compare) (lo n k m : ℕ) (f : ℕ → ℕ)
    → IsOrder compare
    → lo ≤ k
    → 1 ≤ k
    → m / 2 ≡ k
    → m ≤ n
    → is_greater (compare (f m) (f k)) ≡ true
    → ((c : ℕ) → 2 ≤ c → c ≤ n → c / 2 ≡ k → is_greater (compare (f c) (f m)) ≡ false)
    → IsFloating compare lo n k f
    → IsFloating compare lo n m (exchanged f k m)
float_step compare lo n k m f ord low h at fit gr most s = record {
  others = λ j two end par apart.
      let less : k < m = omega arith in
      elim (Bool-cases (j / 2 == k)) [
        | inl e ↦
            let up : j / 2 ≡ k = (==_iff (j / 2) k).0 e in
            let parent = at_first f k m (j / 2) up less in
            elim (Bool-cases (j == m)) [
              | inl d ↦
                  not_greater compare (g j) (g (j / 2)) (f k) (f m)
                    (at_second f k m j ((==_iff j m).0 d)) parent (ord.asym (f m) (f k) gr)
              | inr d ↦
                  not_greater compare (g j) (g (j / 2)) (f j) (f m)
                    (at_other f k m j (λ p. absurd (omega arith))
                      (λ p. absurd (ground (arith, d, p))))
                    parent (most j two end up)
            ]
        | inr e ↦
            let off : j / 2 ≢ k = λ p. absurd (ground (arith, e, p)) in
            let parent = at_other f k m (j / 2) off apart in
            elim (Bool-cases (j == k)) [
              | inl d ↦
                  let same : j ≡ k = (==_iff j k).0 d in
                  not_greater compare (g j) (g (j / 2)) (f m) (f (k / 2))
                    (at_first f k m j same less) (parent ∙ ap (λ x. f (x / 2)) same)
                    (s.under m fit at (subst (λ x. lo ≤ x / 2) same par))
              | inr d ↦
                  not_greater compare (g j) (g (j / 2)) (f j) (f (j / 2))
                    (at_other f k m j (λ p. absurd (ground (arith, d, p)))
                      (λ p. off (ap (λ x. x / 2) p ∙ at)))
                    parent (s.others j two end par off)
            ]
      ];
  under = λ c end up par.
      let less : k < m = omega arith in
      not_greater compare (g c) (g (m / 2)) (f c) (f (c / 2))
        (at_other f k m c (λ p. absurd (omega arith)) (λ p. absurd (omega arith)))
        (at_first f k m (m / 2) at less ∙ ap f (sym up))
        (s.others c (omega arith) end (omega arith) (λ p. absurd (omega arith)));
}
  where
    g : ℕ → ℕ
    g = exchanged f k m
