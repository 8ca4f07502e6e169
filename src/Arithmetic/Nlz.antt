-- ===== src/Arithmetic/Nlz.antt =====
-- nlz of lib/arithmetic.c brings the first set bit to the top.
use tony_henry_niklas.Arithmetic.{nlz_step, nlz}
use native.Mathlib.Nat.{pow-suc, mul_assoc, mul-le-mul_right}
use tony_henry_niklas.Common.{
  ℕ, zero, suc, ◌+◌, ◌*◌, ◌%◌, ◌^◌, ◌≤◌, ◌<◌, ◌≡◌, sym, ap, ◌∙◌, inl, inr, arith, leb,
  if◌then◌else◌, Bool-cases, leb→le,
}

pub pow-add : (n m : ℕ) → 2 ^ (n + m) ≡ 2 ^ n * 2 ^ m
pow-add n zero =
    let same : n + 0 ≡ n = omega arith in
    let once : 2 ^ n ≡ 2 ^ n * 1 = omega arith in ap (λ k. 2 ^ k) same ∙ once
pow-add n (suc m) =
    let next : n + suc m ≡ suc (n + m) = omega arith in
    ap (λ k. 2 ^ k) next
    ∙ pow-suc 2 (n + m)
    ∙ ap (λ k. k * 2) (pow-add n m)
    ∙ mul_assoc (2 ^ n) (2 ^ m) 2
    ∙ ap (λ k. 2 ^ n * k) (sym (pow-suc 2 m))

pub pow_pos : (n : ℕ) → 0 < 2 ^ n
pow_pos zero = omega arith
pow_pos (suc n) = omega (arith, pow-suc 2 n, pow_pos n)

-- The word is `x` shifted left by the count, with nothing shifted out.
record Shifted (x low most : ℕ) (r : ℕ × ℕ) : Type 0 where
  is_shifted : r.1 ≡ x * 2 ^ r.0
  from_low : low ≤ r.1
  fits : r.1 < 2 ^ 32
  counted : r.0 ≤ most

nlz_step_lem :
    (x limit shift low low' most : ℕ) (r : ℕ × ℕ)
    → Shifted x low most r
    → (limit + 1) * 2 ^ shift ≤ 2 ^ 32
    → low' ≤ limit + 1
    → low' ≤ low * 2 ^ shift
    → Shifted x low' (most + shift) (nlz_step limit shift r)
unfolding nlz_step
nlz_step_lem x limit shift low low' most (n, y) s small a b = elim (Bool-cases (leb y limit)) [
  | inl e ↦
      let l = leb→le y limit e in
      let up = mul-le-mul_right (2 ^ shift) l in
      let positive = pow_pos shift in
      let room : y * 2 ^ shift < 2 ^ 32 = grind arith in
      let kept : y * 2 ^ shift % 2 ^ 32 ≡ y * 2 ^ shift = omega arith in
      rw (e, kept)
        record {
          is_shifted =
              ap (λ z. z * 2 ^ shift) s.is_shifted
              ∙ mul_assoc x (2 ^ n) (2 ^ shift)
              ∙ ap (λ z. x * z) (sym (pow-add n shift));
          from_low = omega (arith, mul-le-mul_right (2 ^ shift) s.from_low);
          fits = room;
          counted = omega (arith, s.counted);
        }
  | inr e ↦ rw e record {
    is_shifted = s.is_shifted;
    from_low = ground arith;
    fits = s.fits;
    counted = omega (arith, s.counted);
  }
]

top :
    (x : ℕ) (r : ℕ × ℕ)
    → Shifted x (2 ^ 30) 30 r
    → (2 ^ 31 ≤ x * 2 ^ (if leb r.1 0x7FFFFFFF then r.0 + 1 else r.0))
      × (x * 2 ^ (if leb r.1 0x7FFFFFFF then r.0 + 1 else r.0) < 2 ^ 32)
      × ((if leb r.1 0x7FFFFFFF then r.0 + 1 else r.0) ≤ 31)
top x (n, y) s = elim (Bool-cases (leb y 0x7FFFFFFF)) [
  | inl e ↦
      let l = leb→le y 0x7FFFFFFF e in
      let twice : x * 2 ^ (n + 1) ≡ y * 2 =
        ap (λ z. x * z) (pow-add n 1)
        ∙ sym (mul_assoc x (2 ^ n) 2)
        ∙ ap (λ z. z * 2) (sym s.is_shifted) in
      rw e (omega (arith, twice, s.from_low), omega (arith, twice), omega (arith, s.counted))
  | inr e ↦
      let as_is = s.is_shifted in
      rw e (ground arith, omega (arith, as_is, s.fits), omega (arith, s.counted))
]

-- For a word that is not zero, nlz is the shift, at most 31, that brings its first set bit to
-- the top.
pub nlz_lem :
    (x : ℕ)
    → 0 < x
    → x < 2 ^ 32
    → (2 ^ 31 ≤ x * 2 ^ nlz x) × (x * 2 ^ nlz x < 2 ^ 32) × (nlz x ≤ 31)
unfolding nlz
nlz_lem x p h =
    let s0 : Shifted x 1 0 (0, x) = record {
      is_shifted = omega arith;
      from_low = p;
      fits = h;
      counted = omega arith;
    } in
    let s1 =
      nlz_step_lem x 0x0000FFFF 16 1 (2 ^ 16) 0 _ s0 (omega arith) (omega arith) (omega arith) in
    let s2 =
      nlz_step_lem x 0x00FFFFFF 8 (2 ^ 16) (2 ^ 24) 16 _ s1 (omega arith) (omega arith)
        (omega arith) in
    let s3 =
      nlz_step_lem x 0x0FFFFFFF 4 (2 ^ 24) (2 ^ 28) 24 _ s2 (omega arith) (omega arith)
        (omega arith) in
    let s4 =
      nlz_step_lem x 0x3FFFFFFF 2 (2 ^ 28) (2 ^ 30) 28 _ s3 (omega arith) (omega arith)
        (omega arith) in
    top x _ s4
