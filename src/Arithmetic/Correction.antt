-- ===== src/Arithmetic/Correction.antt =====
-- The two estimates behind udiv64 of lib/arithmetic.c: how far the quotient by the top word can be off, and what the correction makes of it.
use tony_henry_niklas.Arithmetic.{sub64}
use native.Mathlib.Nat.{mul-le-mul, mul-le-mul_left, mul-le-mul_right}
use tony_henry_niklas.Common.{
  ℕ, zero, suc, ◌+◌, ◌-◌, ◌*◌, ◌%◌, ◌^◌, ◌≤◌, ◌<◌, ◌≡◌, ap, ◌∙◌, inl, inr, true, false, arith, ltb,
  ◌==◌, if◌then◌else◌, Bool-cases, ltb→lt, lt→ltb, ==_iff,
}

-- Dividing by `v * e` in place of `d`, which is at most `e - 1` larger, gives at most one more.
gap_core :
    (n d v g q w : ℕ)
    → n < 2 ^ 64
    → n < (q + 1) * d
    → w ≡ v * (g + 2)
    → d ≤ w + (g + 1)
    → 2 ^ 31 ≤ v
    → (q + 2) * w ≤ n
    → ⊥
gap_core n d v g q w small above e near large contra =
    let f1 = mul-le-mul_left (q + 1) near in
    let f2 : w ≤ (q + 1) * (g + 1) = grind arith in
    let f3 = mul-le-mul_right w f2 in
    let f4 : (q + 1) * w ≤ n = grind arith in
    let f5 = mul-le-mul_left (g + 1) f4 in
    let f6 : 2 ^ 31 * (g + 2) ≤ w = omega (arith, mul-le-mul_right (g + 2) large) in
    let f7 = mul-le-mul f6 f6 in
    let f8 : n ≤ 2 ^ 64 - 1 = omega arith in let f9 = mul-le-mul_left (g + 1) f8 in grind arith

pub gap :
    (n d v e q : ℕ)
    → n < 2 ^ 64
    → n < (q + 1) * d
    → d < (v + 1) * e
    → 2 ^ 31 ≤ v
    → 2 ≤ e
    → n < (q + 2) * (v * e)
gap n d v zero q small above near large two = absurd (omega arith)
gap n d v (suc zero) q small above near large two = absurd (omega arith)
gap n d v (suc (suc g)) q small above near large two =
    let size : v * suc (suc g) ≡ v * (g + 2) = ap (λ k. v * k) (omega arith) in
    let close : d ≤ v * suc (suc g) + (g + 1) = grind arith in
    elim (Bool-cases (ltb n ((q + 2) * (v * suc (suc g))))) [
      | inl l ↦ ltb→lt _ _ l
      | inr m ↦
          absurd (gap_core n d v g q (v * suc (suc g)) small above size close large (ground arith))
    ]

pub sub64_lem : (a b : ℕ) → b ≤ a → a < 2 ^ 64 → sub64 a b ≡ a - b
unfolding sub64
sub64_lem a b l h = omega arith

pred_mul : (c d : ℕ) → 0 < c → (c - 1) * d + d ≡ c * d
pred_mul zero d h = absurd (omega arith)
pred_mul (suc m) d h =
    let less : suc m - 1 ≡ m = omega arith in
    let more : m * d + d ≡ suc m * d = grind arith in ap (λ k. k * d + d) less ∙ more

zero_divisor : {n : ℕ} (d q : ℕ) → n < (q + 1) * d → 0 < d
zero_divisor zero q h = absurd (omega arith)
zero_divisor (suc d) q h = omega arith

-- The correction: a quotient that is right or one too large ends right.
pub corrected :
    (n d q : ℕ)
    → n < 2 ^ 64
    → 0 < q
    → q * d ≤ n
    → n < (q + 1) * d
    → (c : ℕ) → q ≤ c
    → c < q + 2
    → c < 2 ^ 64
    → (if ltb (sub64 n (sub64 c 1 * d % 2 ^ 64)) d then sub64 c 1 else c) ≡ q
corrected n d q small p below above c lo hi word =
    let positive : 0 < d = zero_divisor d q above in
    let q_small : q ≤ n = grind arith in
    elim (Bool-cases (c == q)) [
      | inl e ↦
          let at : c ≡ q = (==_iff c q).0 e in
          let one_less = sub64_lem c 1 (omega arith) (omega arith) in
          let product : (c - 1) * d + d ≡ c * d = pred_mul c d (omega arith) in
          let same : c * d ≡ q * d = ap (λ k. k * d) at in
          let wrap : (c - 1) * d % 2 ^ 64 ≡ (c - 1) * d = omega arith in
          let rest = sub64_lem n ((c - 1) * d) (omega arith) small in
          let big : ltb (n - (c - 1) * d) d ≡ false = ground arith in
          ap (λ k. if ltb (sub64 n (k * d % 2 ^ 64)) d then k else c) one_less
          ∙ ap (λ k. if ltb (sub64 n k) d then c - 1 else c) wrap
          ∙ ap (λ k. if ltb k d then c - 1 else c) rest
          ∙ ap (λ b. if b then c - 1 else c) big
          ∙ at
      | inr e ↦
          let at : c ≡ q + 1 = ground arith in
          let one_less : sub64 c 1 ≡ q = sub64_lem c 1 (omega arith) (omega arith) ∙ omega arith in
          let wrap : q * d % 2 ^ 64 ≡ q * d = omega arith in
          let rest = sub64_lem n (q * d) below small in
          let left : n < q * d + d = grind arith in
          let big : ltb (n - q * d) d ≡ true = lt→ltb _ _ (omega arith) in
          ap (λ k. if ltb (sub64 n (k * d % 2 ^ 64)) d then k else c) one_less
          ∙ ap (λ k. if ltb (sub64 n k) d then q else c) wrap
          ∙ ap (λ k. if ltb k d then q else c) rest
          ∙ ap (λ b. if b then q else c) big
    ]
