-- ===== src/Arithmetic/Signed.antt =====
-- sdiv64 of lib/arithmetic.c against division of integers that rounds towards zero.
use tony_henry_niklas.Common.Int.{ℤ, pos, negsuc}
use tony_henry_niklas.Arithmetic.{abs64, sub64, neg64, sdiv64, is_negative, bool_eq}
use tony_henry_niklas.Arithmetic.Quotient.{udiv64_lem}
use native.Mathlib.Nat.{div-le_self, div-lt_iff_lt-mul}
use tony_henry_niklas.Common.{
  ℕ, zero, suc, ◌+◌, ◌-◌, ◌*◌, ◌/◌, ◌%◌, ◌^◌, ◌≤◌, ◌<◌, ◌≡◌, refl, sym, ap, ◌∙◌, ◌≢◌, Bool, true,
  false, some, arith, and_then, if◌then◌else◌,
}

-- The integer that 64 bits stand for.
abbrev pub value : ℕ → ℤ
value x = if is_negative x then negsuc (2 ^ 64 - 1 - x) else pos x

abbrev pub neg : ℕ → ℤ
neg zero = pos 0
neg (suc m) = negsuc m

-- Division that rounds towards zero.
unfoldable pub tdiv : ℤ → ℤ → ℤ
tdiv (pos a) (pos b) = pos (a / b)
tdiv (pos a) (negsuc b) = neg (a / suc b)
tdiv (negsuc a) (pos b) = neg (suc a / b)
tdiv (negsuc a) (negsuc b) = pos (suc a / suc b)

value_small : (q : ℕ) → q < 2 ^ 63 → value q ≡ pos q
value_small q h = ground arith

value_neg : (q : ℕ) → q ≤ 2 ^ 63 → value (sub64 0 q) ≡ neg q
unfolding sub64
value_neg zero h = ground arith
value_neg (suc m) h =
    let word : (0 + 2 ^ 64 - suc m) % 2 ^ 64 ≡ 2 ^ 64 - suc m = omega arith in
    let back : 2 ^ 64 - 1 - (2 ^ 64 - suc m) ≡ m = omega arith in
    let sign : is_negative (2 ^ 64 - suc m) ≡ true = ground arith in
    ap value word ∙ rw sign (ap negsuc back)

neg64_lem : (q : ℕ) → q < 2 ^ 63 → neg64 q ≡ some (sub64 0 q)
unfolding neg64
neg64_lem q h = ground (arith, h)

-- The magnitudes, by the sign.
abs_neg : (x : ℕ) → x < 2 ^ 64 → is_negative x ≡ true → abs64 x ≡ suc (2 ^ 64 - 1 - x)
unfolding abs64 sub64
abs_neg x h s = rw s (ground arith)

abs_pos : (x : ℕ) → is_negative x ≡ false → abs64 x ≡ x
unfolding abs64
abs_pos x s = rw s refl

quotient_le : (a b : ℕ) → 0 < b → a ≤ 2 ^ 63 → a / b ≤ 2 ^ 63
quotient_le a b p h = omega (arith, div-le_self a b)

divides :
    (n d : ℕ)
    → n < 2 ^ 64
    → d < 2 ^ 64
    → 0 < abs64 d
    → abs64 d < 2 ^ 64
    → abs64 n < 2 ^ 64
    → sdiv64 n d ≡ (
        if bool_eq (is_negative n) (is_negative d)
        then some (abs64 n / abs64 d)
        else neg64 (abs64 n / abs64 d))
unfolding sdiv64
divides n d h l p k m =
    and_then (λ q. if bool_eq (is_negative n) (is_negative d) then some q else neg64 q)
      (udiv64_lem (abs64 n) (abs64 d) m p k)

-- `divides` with the signs and the magnitudes as given.
run :
    (n d a b : ℕ) (s t : Bool)
    → n < 2 ^ 64
    → d < 2 ^ 64
    → is_negative n ≡ s
    → is_negative d ≡ t
    → abs64 n ≡ a
    → abs64 d ≡ b
    → a < 2 ^ 64
    → 0 < b
    → b < 2 ^ 64
    → sdiv64 n d ≡ (if bool_eq s t then some (a / b) else neg64 (a / b))
run n d a b s t h l e f ea eb m p k =
    divides n d h l (omega arith) (omega arith) (omega arith)
    ∙ ap
        (λ z.
          if bool_eq z (is_negative d) then some (abs64 n / abs64 d) else neg64 (abs64 n / abs64 d))
        e
    ∙ ap (λ z. if bool_eq s z then some (abs64 n / abs64 d) else neg64 (abs64 n / abs64 d)) f
    ∙ ap (λ z. if bool_eq s t then some (z / abs64 d) else neg64 (z / abs64 d)) ea
    ∙ ap (λ z. if bool_eq s t then some (a / z) else neg64 (a / z)) eb

finish :
    (n d r : ℕ) (x y : ℤ)
    → value n ≡ x
    → value d ≡ y
    → sdiv64 n d ≡ some r
    → value r ≡ tdiv x y
    → (r : ℕ) × (sdiv64 n d ≡ some r) × (value r ≡ tdiv (value n) (value d))
finish n d r x y vn vd e v = (r, e, v ∙ ap (λ z. tdiv z y) (sym vn) ∙ ap (tdiv (value n)) (sym vd))

value_negative : (x : ℕ) → is_negative x ≡ true → value x ≡ negsuc (2 ^ 64 - 1 - x)
value_negative x e = rw e refl

value_positive : (x : ℕ) → is_negative x ≡ false → value x ≡ pos x
value_positive x e = rw e refl

signs :
    (n d : ℕ)
    → n < 2 ^ 64
    → 0 < d
    → d < 2 ^ 64
    → (n ≡ 2 ^ 63 → (d ≢ 1) × (d ≢ 2 ^ 64 - 1))
    → (s t : Bool) → is_negative n ≡ s
    → is_negative d ≡ t
    → (r : ℕ) × (sdiv64 n d ≡ some r) × (value r ≡ tdiv (value n) (value d))
unfolding tdiv
signs n d h p l apart false false e f =
    let small : n < 2 ^ 63 = ground arith in
    let small' : d < 2 ^ 63 = ground arith in
    let q = div-le_self n d in
    finish n d (n / d) (pos n) (pos d) (value_positive n e) (value_positive d f)
      (run n d n d false false h l e f (abs_pos n e) (abs_pos d f) h p l)
      (value_small (n / d) (omega arith))
signs n d h p l apart false true e f =
    let small : n < 2 ^ 63 = ground arith in
    let b = 2 ^ 64 - 1 - d in
    let q = div-le_self n (suc b) in
    finish n d (sub64 0 (n / suc b)) (pos n) (negsuc b) (value_positive n e) (value_negative d f)
      (run n d n (suc b) false true h l e f (abs_pos n e) (abs_neg d l f) h (omega arith)
          (omega arith)
        ∙ neg64_lem (n / suc b) (omega arith))
      (value_neg (n / suc b) (omega arith))
signs n d h p l apart true false e f =
    let big : 2 ^ 63 ≤ n = ground arith in
    let a = 2 ^ 64 - 1 - n in
    let q = div-le_self (suc a) d in
    let over : suc a < 2 ^ 63 * d = ground (arith, λ (x : n ≡ 2 ^ 63). (apart x).0) in
    finish n d (sub64 0 (suc a / d)) (negsuc a) (pos d) (value_negative n e) (value_positive d f)
      (run n d (suc a) d true false h l e f (abs_neg n h e) (abs_pos d f) (omega arith) p l
        ∙ neg64_lem (suc a / d) ((div-lt_iff_lt-mul p).1 over))
      (value_neg (suc a / d) (omega arith))
signs n d h p l apart true true e f =
    let big : 2 ^ 63 ≤ n = ground arith in
    let big' : 2 ^ 63 ≤ d = ground arith in
    let a = 2 ^ 64 - 1 - n in
    let b = 2 ^ 64 - 1 - d in
    let over : suc a < 2 ^ 63 * suc b = ground arith in
    let pos_b : 0 < suc b = omega arith in
    finish n d (suc a / suc b) (negsuc a) (negsuc b) (value_negative n e) (value_negative d f)
      (run n d (suc a) (suc b) true true h l e f (abs_neg n h e) (abs_neg d l f) (omega arith)
        (omega arith) (omega arith))
      (value_small (suc a / suc b) ((div-lt_iff_lt-mul pos_b).1 over))

-- sdiv64 of two 64-bit integers returns the quotient rounded towards zero, for every divisor but
-- zero, except that the least integer is divided neither by -1 nor by 1.
pub sdiv64_lem :
    (n d : ℕ)
    → n < 2 ^ 64
    → 0 < d
    → d < 2 ^ 64
    → (n ≡ 2 ^ 63 → (d ≢ 1) × (d ≢ 2 ^ 64 - 1))
    → (r : ℕ) × (sdiv64 n d ≡ some r) × (value r ≡ tdiv (value n) (value d))
sdiv64_lem n d h p l apart = signs n d h p l apart _ _ refl refl
