-- ===== src/Bitmap/Single.antt =====
-- Single bits of a bitmap: what bitmap_test reads, and what bitmap_mark, bitmap_reset, bitmap_flip and
-- bitmap_set change.
use Prim.Native.Nat.{bit_and, bit_or, bit_xor, differ}
use native.Mathlib.Nat.{one-le-pow, pow-suc}
use tony_henry_niklas.Bits.{
  digit, digit-le-one, digit-bit_or, digit-bit_and, digit-bit_xor, digit-pow, digit-complement,
  bit_and-pow,
}
use tony_henry_niklas.Bitmap.{
  Bitmap, elem_idx, bit_mask, on_elem, bitmap_mark, bitmap_reset, bitmap_flip, bitmap_set,
  bitmap_test,
}
use tony_henry_niklas.Common.{
  ℕ, zero, suc, ◌+◌, ◌-◌, ◌*◌, ◌/◌, ◌%◌, ◌^◌, ◌≤◌, ◌<◌, ◌≡◌, refl, sym, ap, ◌∙◌, ◌↔◌, Bool, true,
  false, not, List, [], ◌∷◌, some, arith, ◌==◌, if◌then◌else◌, length, get_elem?, set, lt→ltb,
  ==_iff, length-set, get_or,
}

-- The elements reach as far as the bits, and sizes stay within a size_t.
pub record IsValid (b : Bitmap) : Type 0 where
  pub small : b.bit_cnt + 31 < 2 ^ 32
  pub room : b.bit_cnt ≤ 32 * length b.bits

-- Bit `i` of the bitmap.
abbrev pub bit : Bitmap → ℕ → Bool
bit b i = digit (get_or b.bits (i / 32) 0) (i % 32) == 1

get_elem?-get_or : (l : List ℕ) (i : ℕ) → i < length l → get_elem? l i ≡ some (get_or l i 0)
get_elem?-get_or [] i h = absurd (omega arith)
get_elem?-get_or (x ∷ l) zero h = refl
get_elem?-get_or (x ∷ l) (suc i) h = get_elem?-get_or l i (omega arith)

get_or-set :
    (l : List ℕ) (i j v : ℕ)
    → i < length l
    → get_or (set l i v) j 0 ≡ (if i == j then v else get_or l j 0)
get_or-set [] i j v h = absurd (omega arith)
get_or-set (x ∷ l) zero zero v h = refl
get_or-set (x ∷ l) zero (suc j) v h = ground arith
get_or-set (x ∷ l) (suc i) zero v h = ground arith
get_or-set (x ∷ l) (suc i) (suc j) v h = ground (arith, get_or-set l i j v (omega arith))

-- An update of the element that holds bit `i`.
changed : Bitmap → ℕ → (ℕ → ℕ) → Bitmap
changed b i f = record b { bits = set b.bits (i / 32) (f (get_or b.bits (i / 32) 0)) }

on_elem_lem :
    (b : Bitmap) (i : ℕ) (f : ℕ → ℕ)
    → IsValid b
    → i < b.bit_cnt
    → on_elem b (elem_idx i) f ≡ some (changed b i f)
unfolding changed
on_elem_lem b i f v h = rw (get_elem?-get_or b.bits (i / 32) (ground (arith, v.room)))

changed-IsValid : (b : Bitmap) (i : ℕ) (f : ℕ → ℕ) → IsValid b → IsValid (changed b i f)
unfolding changed
changed-IsValid b i f v = record {
  small = v.small;
  room = omega (arith, v.room, length-set b.bits (i / 32) (f (get_or b.bits (i / 32) 0)));
}

-- What the update makes of bit `j`, by what it makes of each digit of its element.
bit-changed :
    (b : Bitmap) (i j : ℕ) (f : ℕ → ℕ) (value : Bool)
    → IsValid b
    → i < b.bit_cnt
    → ((e d : ℕ) → d < 32 → (digit (f e) d == 1) ≡ (if i % 32 == d then value else digit e d == 1))
    → bit (changed b i f) j ≡ (if i == j then value else bit b j)
unfolding changed
bit-changed b i j f value v h digits = ground (
  arith,
  get_or-set b.bits (i / 32) (j / 32) (f (get_or b.bits (i / 32) 0)) (ground (arith, v.room)),
  digits (get_or b.bits (j / 32) 0) (j % 32) (omega arith),
)

or_digits :
    (k e d : ℕ)
    → d < 32
    → (digit (bit_or e (2 ^ k)) d == 1) ≡ (if k == d then true else digit e d == 1)
or_digits k e d h = ground (arith, digit-bit_or d e (2 ^ k), digit-pow k d, digit-le-one e d)

pow-lt : (k w : ℕ) → k < w → 2 ^ k < 2 ^ w
pow-lt k zero h = absurd (omega arith)
pow-lt zero (suc w) h = omega (arith, pow-suc 2 w, one-le-pow w 2)
pow-lt (suc k) (suc w) h = omega (arith, pow-suc 2 w, pow-suc 2 k, pow-lt k w (omega arith))

pow-below : (k : ℕ) → k < 32 → 2 ^ k < 2 ^ 32
pow-below k h = pow-lt k 32 h

and_digits :
    (k e d : ℕ)
    → k < 32
    → d < 32
    → (digit (bit_and e (2 ^ 32 - 1 - 2 ^ k)) d == 1) ≡ (if k == d then false else digit e d == 1)
and_digits k e d l h = ground (
  arith,
  digit-bit_and d e (2 ^ 32 - 1 - 2 ^ k),
  digit-complement 32 d (2 ^ k) (pow-below k l) h,
  digit-pow k d,
  digit-le-one e d,
)

differ_flips :
    (x y : ℕ) → x ≤ 1 → y ≤ 1 → (differ x y == 1) ≡ (if y == 1 then not (x == 1) else x == 1)
differ_flips zero zero p q = refl
differ_flips zero (suc zero) p q = refl
differ_flips (suc zero) zero p q = refl
differ_flips (suc zero) (suc zero) p q = refl
differ_flips x (suc (suc y)) p q = absurd (omega arith)
differ_flips (suc (suc x)) y p q = absurd (omega arith)

xor_digits :
    (k e d : ℕ)
    → d < 32
    → (digit (bit_xor e (2 ^ k)) d == 1) ≡ (if k == d then not (digit e d == 1) else digit e d == 1)
xor_digits k e d h = ground (
  arith,
  digit-bit_xor d e (2 ^ k),
  differ_flips (digit e d) (digit (2 ^ k) d) (digit-le-one e d) (digit-le-one (2 ^ k) d),
  digit-pow k d,
)

masked_digit : (d p : ℕ) → d ≤ 1 → 1 ≤ p → not (d * p == 0) ≡ (d == 1)
masked_digit zero p h q = ground arith
masked_digit (suc zero) p h q = ground arith
masked_digit (suc (suc d)) p h q = absurd (omega arith)

-- bitmap_test reads the bit, for every index below the size of a valid bitmap.
pub bitmap_test_lem :
    (b : Bitmap) (i : ℕ) → IsValid b → i < b.bit_cnt → bitmap_test b i ≡ some (bit b i)
unfolding bitmap_test
bitmap_test_lem b i v h =
    rw
      (
        lt→ltb i b.bit_cnt h,
        get_elem?-get_or b.bits (i / 32) (ground (arith, v.room)),
        bit_and-pow (i % 32) (get_or b.bits (i / 32) 0),
      )
      (ap some (
        masked_digit (digit (get_or b.bits (i / 32) 0) (i % 32)) (2 ^ (i % 32))
          (digit-le-one (get_or b.bits (i / 32) 0) (i % 32)) (one-le-pow (i % 32) 2 (omega arith))))

mark_lem :
    (b : Bitmap) (i : ℕ)
    → IsValid b
    → i < b.bit_cnt
    → bitmap_mark b i ≡ some (changed b i (λ e. bit_or e (bit_mask i)))
unfolding bitmap_mark
mark_lem b i v h = on_elem_lem b i (λ e. bit_or e (bit_mask i)) v h

reset_lem :
    (b : Bitmap) (i : ℕ)
    → IsValid b
    → i < b.bit_cnt
    → bitmap_reset b i ≡ some (changed b i (λ e. bit_and e (2 ^ 32 - 1 - bit_mask i)))
unfolding bitmap_reset
reset_lem b i v h = on_elem_lem b i (λ e. bit_and e (2 ^ 32 - 1 - bit_mask i)) v h

-- What an operation on bit `i` did: it gave the bit a value and left all else alone.
pub record SetTo (b : Bitmap) (i : ℕ) (value : Bool) (b' : Bitmap) : Type 0 where
  pub valid : IsValid b'
  pub size : b'.bit_cnt ≡ b.bit_cnt
  pub bits : (j : ℕ) → bit b' j ≡ (if i == j then value else bit b j)

changed-SetTo :
    (b : Bitmap) (i : ℕ) (f : ℕ → ℕ) (value : Bool)
    → IsValid b
    → i < b.bit_cnt
    → ((e d : ℕ) → d < 32 → (digit (f e) d == 1) ≡ (if i % 32 == d then value else digit e d == 1))
    → SetTo b i value (changed b i f)
changed-SetTo b i f value v h digits = record {
  valid = changed-IsValid b i f v;
  size = unfold changed in refl;
  bits = λ j. bit-changed b i j f value v h digits;
}

-- For an index below the size of a valid bitmap, bitmap_set gives the bit the value and changes
-- no other bit.
pub bitmap_set_lem :
    (b : Bitmap) (i : ℕ) (value : Bool)
    → IsValid b
    → i < b.bit_cnt
    → (b' : Bitmap) × (bitmap_set b i value ≡ some b') × SetTo b i value b'
unfolding bitmap_set
bitmap_set_lem b i true v h = (
  changed b i (λ e. bit_or e (bit_mask i)),
  rw (lt→ltb i b.bit_cnt h) (mark_lem b i v h),
  changed-SetTo b i (λ e. bit_or e (bit_mask i)) true v h (λ e d l. or_digits (i % 32) e d l),
)
bitmap_set_lem b i false v h = (
  changed b i (λ e. bit_and e (2 ^ 32 - 1 - bit_mask i)),
  rw (lt→ltb i b.bit_cnt h) (reset_lem b i v h),
  changed-SetTo b i (λ e. bit_and e (2 ^ 32 - 1 - bit_mask i)) false v h
      (λ e d l. and_digits (i % 32) e d (omega arith) l),
)

bit_flipped :
    (b : Bitmap) (i j : ℕ)
    → IsValid b
    → i < b.bit_cnt
    → bit (changed b i (λ e. bit_xor e (bit_mask i))) j
      ≡ (if i == j then not (bit b j) else bit b j)
unfolding changed
bit_flipped b i j v h = ground (
  arith,
  get_or-set b.bits (i / 32) (j / 32) (bit_xor (get_or b.bits (i / 32) 0) (bit_mask i))
      (ground (arith, v.room)),
  xor_digits (i % 32) (get_or b.bits (j / 32) 0) (j % 32) (omega arith),
)

-- For an index below the size of a valid bitmap, bitmap_flip negates the bit and changes no
-- other bit.
pub bitmap_flip_lem :
    (b : Bitmap) (i : ℕ)
    → IsValid b
    → i < b.bit_cnt
    → (b' : Bitmap) × (bitmap_flip b i ≡ some b') × SetTo b i (not (bit b i)) b'
unfolding bitmap_flip
bitmap_flip_lem b i v h = (
  changed b i (λ e. bit_xor e (bit_mask i)),
  on_elem_lem b i (λ e. bit_xor e (bit_mask i)) v h,
  record {
    valid = changed-IsValid b i (λ e. bit_xor e (bit_mask i)) v;
    size = unfold changed in refl;
    bits = λ j. bit_flipped b i j v h ∙ same (i == j) (==_iff i j);
  },
)
  where
    same :
        {j : ℕ} (t : Bool)
        → ((t ≡ true) ↔ (i ≡ j))
        → (if t then not (bit b j) else bit b j) ≡ (if t then not (bit b i) else bit b j)
    same true e = ap (λ k. not (bit b k)) (sym (e.0 refl))
    same false e = refl
