-- ===== src/Arithmetic/Wide.antt =====
-- udiv64 of lib/arithmetic.c for a divisor of two words: a quotient by the divisor's top word that is
-- at most one too large, then a correction.
use tony_henry_niklas.Arithmetic.Correction.{gap, corrected}
use tony_henry_niklas.Arithmetic.{divl, nlz, sub64, udiv64_wide}
use tony_henry_niklas.Arithmetic.Nlz.{nlz_lem, pow-add, pow_pos}
use tony_henry_niklas.Arithmetic.Narrow.{divl_fits}
use native.Mathlib.Nat.{
  mul-le-mul, div-eq_of_lt, div-le_self, mod-eq_of_lt, mul_comm, mul-lt-mul_of_pos_right,
  mul-le-mul_left, mul-le-mul_right, mul-div-mul_right, div-div-eq-div-mul, le-div_iff_mul-le,
  div-lt_iff_lt-mul, div-mul-le_self, lt-div-mul-add,
}
use tony_henry_niklas.Common.{
  ℕ, ◌+◌, ◌-◌, ◌*◌, ◌/◌, ◌%◌, ◌^◌, ◌≤◌, ◌<◌, ◌≡◌, sym, ap, ◌∙◌, inl, inr, Option, some, arith, ltb,
  leb, and_then, if◌then◌else◌, ◌>>=◌, Bool-cases, ltb→lt, leb→le,
}

-- The parts of the top word: `p` brings the divisor's first bit to the top, and `e` is the rest.
pub record Parts (d p e : ℕ) : Type 0 where
  pub whole : p * e ≡ 2 ^ 32
  pub positive : 0 < p
  pub divisor_fits : d * p < 2 ^ 64
  pub top_word : d * p / 2 ^ 32 ≡ d / e
  pub large : 2 ^ 31 ≤ d / e
  pub even : 2 ≤ e

parts :
    (d p e : ℕ)
    → 2 ^ 32 ≤ d
    → p * e ≡ 2 ^ 32
    → 0 < p
    → 2 ≤ e
    → 2 ^ 31 ≤ d / 2 ^ 32 * p
    → d / 2 ^ 32 * p < 2 ^ 32
    → Parts d p e
parts d p e h w pos two lo hi =
    let d1 = d / 2 ^ 32 in
    let low : d1 * 2 ^ 32 ≤ d = omega arith in
    let high : d < (d1 + 1) * 2 ^ 32 = omega arith in
    let scaled = mul-le-mul_right p low in
    let few : d1 + 1 ≤ e = elim (Bool-cases (leb (d1 + 1) e)) [
      | inl l ↦ leb→le _ _ l
      | inr m ↦
          let small : e ≤ d1 = ground arith in
          let product = mul-le-mul_left p small in absurd (grind arith)
    ] in
    let fits : d * p < 2 ^ 64 =
      let below : d < e * 2 ^ 32 = omega arith in
      let product = mul-lt-mul_of_pos_right below pos in grind arith in
    let word : d * p / 2 ^ 32 ≡ d / e =
      ap (λ k. d * p / k) (sym w ∙ mul_comm p e) ∙ mul-div-mul_right d e pos in
    let many : 2 ^ 31 ≤ d * p / 2 ^ 32 = omega arith in
    record {
      whole = w;
      positive = pos;
      divisor_fits = fits;
      top_word = word;
      large = omega arith;
      even = two;
    }

double : (v half e : ℕ) → e ≡ 2 * half → 2 * (v * half) ≡ v * e
double v half e two =
    let inner : 2 * (v * half) ≡ v * (2 * half) = grind arith in inner ∙ ap (λ k. v * k) (sym two)

-- The estimate by the top word.
estimate :
    (n d p e half : ℕ)
    → Parts d p e
    → n < 2 ^ 64
    → d ≤ n
    → e ≡ 2 * half
    → (divl (n / 2) (d * p % 2 ^ 64 / 2 ^ 32) ≡ some (n / 2 / (d / e)))
      × (n / 2 / (d / e) / half ≡ n / (d / e * e))
estimate n d p e half s h le two =
    let large = s.large in
    let kept : d * p % 2 ^ 64 ≡ d * p = mod-eq_of_lt s.divisor_fits in
    let top : d * p % 2 ^ 64 / 2 ^ 32 ≡ d / e = ap (λ k. k / 2 ^ 32) kept ∙ s.top_word in
    let positive : 0 < d / e = omega arith in
    let fits : n / 2 / (d / e) < 2 ^ 32 = (div-lt_iff_lt-mul positive).1 (omega arith) in
    let joined = double (d / e) half e two in
    (
      ap (divl (n / 2)) top ∙ divl_fits (n / 2) (d / e) positive fits,
      div-div-eq-div-mul (n / 2) (d / e) half
          ∙ div-div-eq-div-mul n 2 (d / e * half)
          ∙ ap (λ k. n / k) joined,
    )

next_multiple : {n : ℕ} (q d : ℕ) → n < q * d + d → n < (q + 1) * d
next_multiple q d h = grind arith

product_pos : (a b : ℕ) → 0 < a → 0 < b → 0 < a * b
product_pos a b h k = omega (arith, mul-le-mul h k)

quotient_near :
    (n d p e : ℕ)
    → Parts d p e
    → n < 2 ^ 64
    → 0 < d
    → (n / d ≤ n / (d / e * e)) × (n / (d / e * e) < n / d + 2)
quotient_near n d p e s h pos =
    let large = s.large in
    let even = s.even in
    let e_pos : 0 < e = omega arith in
    let some_e : 0 < d / e = omega arith in
    let below = div-mul-le_self n d in
    let under = div-mul-le_self d e in
    let product = mul-le-mul_left (n / d) under in
    let last : n < n / d * d + d = lt-div-mul-add pos in
    let last' : d < d / e * e + e = lt-div-mul-add e_pos in
    let above : n < (n / d + 1) * d = next_multiple (n / d) d last in
    let over : d < (d / e + 1) * e = next_multiple (d / e) e last' in
    let divisor = product_pos (d / e) e some_e e_pos in
    let between = gap n d (d / e) e (n / d) h above over large even in
    ((le-div_iff_mul-le divisor).1 (omega arith), (div-lt_iff_lt-mul divisor).1 between)

-- What the shift by `s` and by `31 - s` leaves of a word.
shifts : (s : ℕ) → s ≤ 31 → (2 ^ s * 2 ^ (32 - s) ≡ 2 ^ 32) × (2 ^ (32 - s) ≡ 2 * 2 ^ (31 - s))
shifts s h =
    let all : s + (32 - s) ≡ 32 = omega arith in
    let next : 32 - s ≡ 1 + (31 - s) = omega arith in
    (sym (pow-add s (32 - s)) ∙ ap (λ k. 2 ^ k) all, ap (λ k. 2 ^ k) next ∙ pow-add 1 (31 - s))

-- The branch of `udiv64_wide` that divides, by the shift.
divided : ℕ → ℕ → ℕ → Option ℕ
divided n d s = divl (n / 2) (d * 2 ^ s % 2 ^ 64 / 2 ^ 32) >>= λ high. some (
    if ltb (sub64 n (sub64 (high / 2 ^ (31 - s)) 1 * d % 2 ^ 64)) d
    then sub64 (high / 2 ^ (31 - s)) 1
    else high / 2 ^ (31 - s))

divided_lem :
    (n d s : ℕ)
    → n < 2 ^ 64
    → d ≤ n
    → 2 ^ 32 ≤ d
    → 2 ^ 31 ≤ d / 2 ^ 32 * 2 ^ s
    → d / 2 ^ 32 * 2 ^ s < 2 ^ 32
    → s ≤ 31
    → divided n d s ≡ some (n / d)
unfolding divided
divided_lem n d s h le wide lo hi few =
    let (w, two) = shifts s few in
    let even : 2 ≤ 2 ^ (32 - s) = omega (arith, two, pow_pos (31 - s)) in
    let p = parts d (2 ^ s) (2 ^ (32 - s)) wide w (pow_pos s) even lo hi in
    let (found, joined) = estimate n d (2 ^ s) (2 ^ (32 - s)) (2 ^ (31 - s)) p h le two in
    let pos : 0 < d = omega arith in
    let (at_least, at_most) = quotient_near n d (2 ^ s) (2 ^ (32 - s)) p h pos in
    let some_quotient : 0 < n / d = (le-div_iff_mul-le pos).1 (omega arith) in
    let last : n < n / d * d + d = lt-div-mul-add pos in
    let word : n / (d / 2 ^ (32 - s) * 2 ^ (32 - s)) < 2 ^ 64 =
      omega (arith, div-le_self n (d / 2 ^ (32 - s) * 2 ^ (32 - s))) in
    and_then
      (λ high. some (
        if ltb (sub64 n (sub64 (high / 2 ^ (31 - s)) 1 * d % 2 ^ 64)) d
        then sub64 (high / 2 ^ (31 - s)) 1
        else high / 2 ^ (31 - s)))
      found
    ∙ ap (λ q. some (if ltb (sub64 n (sub64 q 1 * d % 2 ^ 64)) d then sub64 q 1 else q)) joined
    ∙ ap some (
        corrected n d (n / d) h some_quotient (div-mul-le_self n d) (next_multiple (n / d) d last) _
          at_least at_most word)

-- A divisor of two words: no divide error, and the quotient.
pub udiv64_wide_lem :
    (n d : ℕ) → n < 2 ^ 64 → 2 ^ 32 ≤ d → d < 2 ^ 64 → udiv64_wide n d ≡ some (n / d)
unfolding udiv64_wide divided sub64
udiv64_wide_lem n d h wide l = elim (Bool-cases (ltb n d)) [
  | inl e ↦ let less = ltb→lt n d e in rw e (ap some (sym (div-eq_of_lt less)))
  | inr e ↦
      let le : d ≤ n = ground arith in
      let (lo, hi, few) = nlz_lem (d / 2 ^ 32) (omega arith) (omega arith) in
      let rest = divided_lem n d (nlz (d / 2 ^ 32)) h le wide lo hi few in rw e rest
]
