-- ===== src/Bits.antt =====
-- The binary digits of the results of `|`, `&` and `^`, one digit at a time.
use Prim.Native.Nat.{
  min, max, differ, digits, bitwise, bit_and, bit_or, bit_xor, bit_and-bitwise, bit_or-bitwise,
  bit_xor-bitwise,
}
use native.Mathlib.Nat.{pow-suc}
use tony_henry_niklas.Common.{
  ℕ, zero, suc, ◌+◌, ◌-◌, ◌*◌, ◌/◌, ◌%◌, ◌^◌, ◌≤◌, ◌<◌, ◌≡◌, refl, ap, ◌∙◌, arith, ◌==◌,
  if◌then◌else◌,
}

-- Digit `j` of `a`.
unfoldable pub digit : ℕ → ℕ → ℕ
digit a zero = a % 2
digit a (suc j) = digit (a / 2) j

pub digit-le-one : (a j : ℕ) → digit a j ≤ 1
unfolding digit
digit-le-one a zero = omega arith
digit-le-one a (suc j) = digit-le-one (a / 2) j

-- Any fuel from the first operand on gives the same digits.
module _ (end : ℕ → ℕ) (op : ℕ → ℕ → ℕ) where
  enough : (n m a b : ℕ) → a ≤ n → a ≤ m → digits end op n a b ≡ digits end op m a b
  enough n m zero b p q = none_left n m
    where
      none_left : (n m : ℕ) → digits end op n 0 b ≡ digits end op m 0 b
      none_left zero zero = refl
      none_left zero (suc m) = refl
      none_left (suc n) zero = refl
      none_left (suc n) (suc m) = refl
  enough zero m (suc a) b p q = absurd (omega arith)
  enough (suc n) zero (suc a) b p q = absurd (omega arith)
  enough (suc n) (suc m) (suc a) b p q =
      ap (λ (t : ℕ). t * 2 + op (suc a % 2) (b % 2))
        (enough n m (suc a / 2) (b / 2) (omega arith) (omega arith))

  unroll :
      (a b : ℕ)
      → bitwise end op (suc a) b ≡ bitwise end op (suc a / 2) (b / 2) * 2 + op (suc a % 2) (b % 2)
  unroll a b =
      ap (λ (t : ℕ). t * 2 + op (suc a % 2) (b % 2))
        (enough a (suc a / 2) (suc a / 2) (b / 2) (omega arith) (omega arith))

or_step : (a b : ℕ) → bit_or a b ≡ bit_or (a / 2) (b / 2) * 2 + max (a % 2) (b % 2)
or_step zero b = simp bit_or-bitwise (omega arith)
or_step (suc a) b = simp bit_or-bitwise (unroll (λ y. y) max a b)

and_step : (a b : ℕ) → bit_and a b ≡ bit_and (a / 2) (b / 2) * 2 + min (a % 2) (b % 2)
and_step zero b = simp bit_and-bitwise (omega arith)
and_step (suc a) b = simp bit_and-bitwise (unroll (λ y. 0) min a b)

xor_step : (a b : ℕ) → bit_xor a b ≡ bit_xor (a / 2) (b / 2) * 2 + differ (a % 2) (b % 2)
xor_step zero b = simp bit_xor-bitwise (omega arith)
xor_step (suc a) b = simp bit_xor-bitwise (unroll (λ y. y) differ a b)

pub digit-bit_or : (j a b : ℕ) → digit (bit_or a b) j ≡ max (digit a j) (digit b j)
unfolding digit
digit-bit_or zero a b = omega (arith, or_step a b)
digit-bit_or (suc j) a b =
    let half : bit_or a b / 2 ≡ bit_or (a / 2) (b / 2) = omega (arith, or_step a b) in
    rw half (digit-bit_or j (a / 2) (b / 2))

pub digit-bit_and : (j a b : ℕ) → digit (bit_and a b) j ≡ min (digit a j) (digit b j)
unfolding digit
digit-bit_and zero a b = omega (arith, and_step a b)
digit-bit_and (suc j) a b =
    let half : bit_and a b / 2 ≡ bit_and (a / 2) (b / 2) = omega (arith, and_step a b) in
    rw half (digit-bit_and j (a / 2) (b / 2))

differ-lt : (x y : ℕ) → x < 2 → y < 2 → differ x y < 2
differ-lt zero zero p q = omega arith
differ-lt zero (suc zero) p q = omega arith
differ-lt zero (suc (suc y)) p q = absurd (omega arith)
differ-lt (suc zero) zero p q = omega arith
differ-lt (suc zero) (suc zero) p q = omega arith
differ-lt (suc zero) (suc (suc y)) p q = absurd (omega arith)
differ-lt (suc (suc x)) y p q = absurd (omega arith)

pub digit-bit_xor : (j a b : ℕ) → digit (bit_xor a b) j ≡ differ (digit a j) (digit b j)
unfolding digit
digit-bit_xor zero a b =
    omega (arith, xor_step a b, differ-lt (a % 2) (b % 2) (omega arith) (omega arith))
digit-bit_xor (suc j) a b =
    let half : bit_xor a b / 2 ≡ bit_xor (a / 2) (b / 2) =
      omega (arith, xor_step a b, differ-lt (a % 2) (b % 2) (omega arith) (omega arith)) in
    rw half (digit-bit_xor j (a / 2) (b / 2))

digit-zero : (j : ℕ) → digit 0 j ≡ 0
unfolding digit
digit-zero zero = refl
digit-zero (suc j) = digit-zero j

-- A mask of one bit.
pub digit-pow : (k j : ℕ) → digit (2 ^ k) j ≡ (if k == j then 1 else 0)
unfolding digit
digit-pow zero zero = refl
digit-pow zero (suc j) = digit-zero j ∙ ground arith
digit-pow (suc k) zero = ground (arith, pow-suc 2 k)
digit-pow (suc k) (suc j) =
    let half : 2 ^ suc k / 2 ≡ 2 ^ k = omega (arith, pow-suc 2 k) in
    rw half (digit-pow k j ∙ ground arith)

bit_and-zero_below : (n a : ℕ) → a ≤ n → bit_and a 0 ≡ 0
bit_and-zero_below n zero h = simp bit_and-bitwise
bit_and-zero_below zero (suc a) h = absurd (omega arith)
bit_and-zero_below (suc n) (suc a) h =
    omega (arith, and_step (suc a) 0, bit_and-zero_below n (suc a / 2) (omega arith))

-- `&` with a mask of one bit keeps that bit.
pub bit_and-pow : (k a : ℕ) → bit_and a (2 ^ k) ≡ digit a k * 2 ^ k
unfolding digit
bit_and-pow zero a = omega (arith, and_step a 1, bit_and-zero_below (a / 2) (a / 2) (omega arith))
bit_and-pow (suc k) a =
    let double : 2 ^ suc k ≡ 2 * 2 ^ k = pow-suc 2 k ∙ omega arith in
    let half : 2 ^ suc k / 2 ≡ 2 ^ k = omega arith in
    let step = and_step a (2 ^ suc k) in
    let even : 2 ^ suc k % 2 ≡ 0 = omega arith in
    omega (
      arith,
      rw half at step,
      bit_and-pow k (a / 2),
      even,
      ap (λ (t : ℕ). digit (a / 2) k * t) double,
    )

-- The digits of `~m` at `w` bits.
pub digit-complement : (w j m : ℕ) → m < 2 ^ w → j < w → digit (2 ^ w - 1 - m) j ≡ 1 - digit m j
unfolding digit
digit-complement zero j m p q = absurd (omega arith)
digit-complement (suc w) zero m p q = omega (arith, pow-suc 2 w)
digit-complement (suc w) (suc j) m p q =
    let half : (2 ^ suc w - 1 - m) / 2 ≡ 2 ^ w - 1 - m / 2 = omega (arith, pow-suc 2 w) in
    rw half (digit-complement w j (m / 2) (omega (arith, pow-suc 2 w)) (omega arith))
