-- ===== src/Arithmetic/Quotient.antt =====
-- udiv64 and umod64 of lib/arithmetic.c against division and remainder.
use tony_henry_niklas.Arithmetic.{udiv64, umod64, sub64}
use tony_henry_niklas.Arithmetic.Narrow.{udiv64_narrow_lem}
use tony_henry_niklas.Arithmetic.Correction.{sub64_lem}
use tony_henry_niklas.Arithmetic.Wide.{udiv64_wide_lem}
use native.Mathlib.Nat.{div-add-mod}
use tony_henry_niklas.Common.{
  ℕ, ◌+◌, ◌*◌, ◌/◌, ◌%◌, ◌^◌, ◌≤◌, ◌<◌, ◌≡◌, ap, ◌∙◌, inl, inr, some, arith, ◌==◌, and_then,
  Bool-cases,
}

-- udiv64 of two 64-bit integers, the divisor not zero, raises no divide error and returns the
-- quotient, by both of its ways.
pub udiv64_lem : (n d : ℕ) → n < 2 ^ 64 → 0 < d → d < 2 ^ 64 → udiv64 n d ≡ some (n / d)
unfolding udiv64
udiv64_lem n d h pos l = elim (Bool-cases (d / 2 ^ 32 == 0)) [
  | inl e ↦
      let small : d < 2 ^ 32 = ground arith in
      let rest = udiv64_narrow_lem n d h pos small in rw e rest
  | inr e ↦
      let wide : 2 ^ 32 ≤ d = ground arith in let rest = udiv64_wide_lem n d h wide l in rw e rest
]

-- umod64 of two 64-bit integers, the divisor not zero, returns the low 32 bits of the remainder:
-- the remainder itself only where that is below 2 ^ 32.
pub umod64_lem : (n d : ℕ) → n < 2 ^ 64 → 0 < d → d < 2 ^ 64 → umod64 n d ≡ some (n % d % 2 ^ 32)
unfolding umod64 sub64
umod64_lem n d h pos l =
    let product : d * (n / d) + n % d ≡ n = div-add-mod n d in
    let wrap : d * (n / d) % 2 ^ 64 ≡ d * (n / d) = omega arith in
    let rest : sub64 n (d * (n / d)) ≡ n % d =
      sub64_lem n (d * (n / d)) (omega arith) h ∙ omega arith in
    and_then (λ q. some (sub64 n (d * q % 2 ^ 64) % 2 ^ 32)) (udiv64_lem n d h pos l)
    ∙ ap (λ k. some (sub64 n k % 2 ^ 32)) wrap
    ∙ ap (λ k. some (k % 2 ^ 32)) rest
