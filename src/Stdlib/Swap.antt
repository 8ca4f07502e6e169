-- ===== src/Stdlib/Swap.antt =====
-- do_swap of lib/stdlib.c keeps the elements: each value is there as often as before.
use tony_henry_niklas.Stdlib.{exchanged}
use tony_henry_niklas.Common.{
  ℕ, zero, suc, ◌+◌, ◌≤◌, ◌<◌, ◌≡◌, refl, sym, ap, ◌∙◌, ◌≢◌, inl, inr, arith, ◌==◌, chosen,
  passed_over, if◌then◌else◌, Bool-cases, ==_iff,
}

-- How often `v` occurs at the indexes 1 to `n`.
unfoldable pub count : ℕ → (ℕ → ℕ) → ℕ → ℕ
count v f zero = 0
count v f (suc n) = (if f (suc n) == v then 1 else 0) + count v f n

-- The same elements at the indexes 1 to `n`, and the same behind them.
pub record IsArranged (n : ℕ) (f g : ℕ → ℕ) : Type 0 where
  pub counts : (v : ℕ) → count v g n ≡ count v f n
  pub from : (x : ℕ) → 1 ≤ x → x ≤ n → (y : ℕ) × (1 ≤ y) × (y ≤ n) × (g x ≡ f y)
  pub beyond : (x : ℕ) → n < x → g x ≡ f x

pub IsArranged-refl : (n : ℕ) (f : ℕ → ℕ) → IsArranged n f f
IsArranged-refl n f = record {
  counts = λ v. refl;
  from = λ x h k. (x, h, k, refl);
  beyond = λ x h. refl;
}

pub IsArranged-trans :
    (n : ℕ) (f g h : ℕ → ℕ) → IsArranged n f g → IsArranged n g h → IsArranged n f h
IsArranged-trans n f g h r s = record {
  counts = λ v. s.counts v ∙ r.counts v;
  from = λ x low high.
      let (y, l, k, e) = s.from x low high in
      let (z, l', k', e') = r.from y l k in (z, l', k', e ∙ e');
  beyond = λ x k. s.beyond x k ∙ r.beyond x k;
}

-- One more value is the same where only later indexes differ.
count_same :
    (v n : ℕ) (f g : ℕ → ℕ) → ((x : ℕ) → 1 ≤ x → x ≤ n → g x ≡ f x) → count v g n ≡ count v f n
unfolding count
count_same v zero f g e = refl
count_same v (suc n) f g e = ground (
  arith,
  e (suc n) (omega arith) (omega arith),
  count_same v n f g (λ x h k. e x h (omega arith)),
)

-- Writing `w` at `i` trades the value there for `w`.
count_write :
    (v n i w : ℕ) (f g : ℕ → ℕ)
    → 1 ≤ i
    → i ≤ n
    → g i ≡ w
    → ((x : ℕ) → x ≢ i → g x ≡ f x)
    → count v g n + (if f i == v then 1 else 0) ≡ count v f n + (if w == v then 1 else 0)
unfolding count
count_write v zero i w f g h k e o = absurd (omega arith)
count_write v (suc n) i w f g h k e o = elim (Bool-cases (i == suc n)) [
  | inl p ↦
      let at : i ≡ suc n = (==_iff i (suc n)).0 p in
      let rest = count_same v n f g (λ x l m. o x (λ q. absurd (omega (arith, q, at)))) in
      let here : g (suc n) ≡ w = ap g (sym at) ∙ e in
      let there : f i ≡ f (suc n) = ap f at in ground (arith, rest, here, there)
  | inr p ↦
      let apart : suc n ≢ i = λ q. absurd (ground (arith, p, q)) in
      ground (arith, o (suc n) apart, count_write v n i w f g h (ground (arith, p)) e o)
]

pub exchanged-IsArranged :
    (n i j : ℕ) (f : ℕ → ℕ) → 1 ≤ i → i ≤ n → 1 ≤ j → j ≤ n → IsArranged n f (exchanged f i j)
exchanged-IsArranged n i j f hi ki hj kj = record {
  counts = λ v.
      let m : ℕ → ℕ = λ x. if x == i then f j else f x in
      let first = count_write v n i (f j) f m hi ki (ground arith) (λ x d. ground (arith, d)) in
      let second =
        count_write v n j (f i) m (exchanged f i j) hj kj (ground arith)
          (λ x d. ground (arith, d)) in
      let same : m j ≡ f j = ground arith in ground (arith, first, second, same);
  from = λ x h k. elim (Bool-cases (x == j)) [
    | inl e ↦ (i, hi, ki, chosen _ e)
    | inr e ↦ elim (Bool-cases (x == i)) [
      | inl d ↦ (j, hj, kj, passed_over (f i) e ∙ chosen (f x) d)
      | inr d ↦ (x, h, k, passed_over (f i) e ∙ passed_over (f j) d)
    ]
  ];
  beyond = λ x h. ground arith;
}
