-- ===== src/Arithmetic/Narrow.antt =====
-- udiv64 of lib/arithmetic.c for a divisor of one word: two divisions by divl.
use tony_henry_niklas.Arithmetic.{divl, udiv64_narrow}
use native.Mathlib.Nat.{add-mul-div_left, div-lt_iff_lt-mul, div-add-mod, mod-lt}
use tony_henry_niklas.Common.{
  ℕ, ◌+◌, ◌*◌, ◌/◌, ◌%◌, ◌^◌, ◌<◌, ◌≡◌, refl, ap, ◌∙◌, Option, some, arith, ltb, check, passes,
  and_then, ◌>>=◌, lt→ltb,
}

-- The quotient by parts: of the high word, and of its remainder with the low word.
by_parts :
    (n1 n0 d : ℕ)
    → 0 < d
    → (4294967296 * n1 + n0) / d ≡ (4294967296 * (n1 % d) + n0) / d + 4294967296 * (n1 / d)
by_parts n1 n0 d p =
    let e : 4294967296 * n1 + n0 ≡ 4294967296 * (n1 % d) + n0 + d * (4294967296 * (n1 / d)) =
      grind (arith, div-add-mod n1 d) in
    ap (λ m. m / d) e ∙ add-mul-div_left _ (4294967296 * (n1 / d)) p

low_fits : (r n0 d : ℕ) → r < d → n0 < 4294967296 → (4294967296 * r + n0) / d < 4294967296
low_fits r n0 d h l = let p : 0 < d = omega arith in (div-lt_iff_lt-mul p).1 (omega arith)

-- `divl` gives the quotient where it fits.
pub divl_fits : (n d : ℕ) → 0 < d → n / d < 2 ^ 32 → divl n d ≡ some (n / d)
unfolding divl
divl_fits n d p f = passes (lt→ltb 0 d p) ∙ passes (lt→ltb (n / d) (2 ^ 32) f)

body : ℕ → ℕ → Option ℕ
body n d0 = check (ltb 0 d0) (
    divl ((4294967296 * (n / 4294967296 % d0) + n % 4294967296) % 2 ^ 64) d0 >>= λ q.
    some ((q + 4294967296 * (n / 4294967296 / d0)) % 2 ^ 64))

unfolding_body : (n d : ℕ) → udiv64_narrow n d ≡ body n (d % 4294967296)
unfolding udiv64_narrow body
unfolding_body n d = refl

quotient_fits : (n d : ℕ) → n < 2 ^ 64 → 0 < d → n / d < 2 ^ 64
quotient_fits n d h p = (div-lt_iff_lt-mul p).1 (omega arith)

body_lem : (n d : ℕ) → n < 2 ^ 64 → 0 < d → d < 2 ^ 32 → body n d ≡ some (n / d)
unfolding body
body_lem n d h p l =
    let n1 = n / 4294967296 in
    let n0 = n % 4294967296 in
    let r : n1 % d < d = mod-lt n1 p in
    let fits = low_fits (n1 % d) n0 d r (omega arith) in
    let word : (4294967296 * (n1 % d) + n0) % 2 ^ 64 ≡ 4294967296 * (n1 % d) + n0 = omega arith in
    let parts : n / d ≡ (4294967296 * (n1 % d) + n0) / d + 4294967296 * (n1 / d) =
      ap (λ m. m / d) (omega arith) ∙ by_parts n1 n0 d p in
    let small = quotient_fits n d h p in
    let sum : ((4294967296 * (n1 % d) + n0) / d + 4294967296 * (n1 / d)) % 2 ^ 64 ≡ n / d =
      omega arith in
    passes (lt→ltb 0 d p)
    ∙ and_then (λ q. some ((q + 4294967296 * (n1 / d)) % 2 ^ 64))
        (ap (λ m. divl m d) word ∙ divl_fits _ d p fits)
    ∙ ap some sum

-- A divisor of one word, not zero: no divide error, and the quotient.
pub udiv64_narrow_lem :
    (n d : ℕ) → n < 2 ^ 64 → 0 < d → d < 2 ^ 32 → udiv64_narrow n d ≡ some (n / d)
udiv64_narrow_lem n d h p l =
    let d0 : d % 4294967296 ≡ d = omega arith in
    unfolding_body n d ∙ ap (body n) d0 ∙ body_lem n d h p l
