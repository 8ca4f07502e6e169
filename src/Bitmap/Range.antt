-- ===== src/Bitmap/Range.antt =====
-- Ranges of bits: bitmap_set_multiple, bitmap_count, bitmap_contains, bitmap_all, bitmap_none.
use tony_henry_niklas.Bitmap.{
  Bitmap, bool_eq, in_range, set_from, bitmap_set_multiple, count_from, bitmap_count, contains_from,
  bitmap_contains,
}
use tony_henry_niklas.Bitmap.Single.{IsValid, bit, bitmap_set_lem, bitmap_test_lem}
use tony_henry_niklas.Common.{
  ℕ, zero, suc, ◌+◌, ◌≤◌, ◌<◌, ◌≡◌, refl, sym, ap, ◌∙◌, inl, inr, Bool, true, false, ◌&&◌, not,
  some, arith, ltb, leb, ◌==◌, if◌then◌else◌, Bool-cases, subst, ==_iff,
}

abbrev pub within : ℕ → ℕ → ℕ → Bool
within start cnt j = leb start j && ltb j (start + cnt)

-- All bits of a range have the value, the others are as before.
pub record RangeSet (b : Bitmap) (start cnt : ℕ) (value : Bool) (b' : Bitmap) : Type 0 where
  pub valid : IsValid b'
  pub size : b'.bit_cnt ≡ b.bit_cnt
  pub bits : (j : ℕ) → bit b' j ≡ (if within start cnt j then value else bit b j)

-- The first bit of a range, then the others.
range_step :
    (start cnt j : ℕ) (value x y : Bool)
    → x ≡ (if start == j then value else y)
    → (if within (start + 1) cnt j then value else x)
      ≡ (if within start (suc cnt) j then value else y)
range_step start cnt j value x y e = ground arith

set_from_lem :
    (cnt start : ℕ) (value : Bool) (b : Bitmap)
    → IsValid b
    → start + cnt ≤ b.bit_cnt
    → (b' : Bitmap) × (set_from cnt start value b ≡ some b') × RangeSet b start cnt value b'
unfolding set_from
set_from_lem zero start value b v h =
    (b, refl, record { valid = v; size = refl; bits = λ j. ground arith })
set_from_lem (suc cnt) start value b v h =
    let (b1, e, s) = bitmap_set_lem b start value v (omega arith) in
    let size = s.size in
    let (b2, e', r) = set_from_lem cnt (start + 1) value b1 s.valid (omega arith) in
    (
      b2,
      rw e e',
      record {
        valid = r.valid;
        size = r.size ∙ s.size;
        bits = λ j. r.bits j ∙ range_step start cnt j value (bit b1 j) (bit b j) (s.bits j);
      },
    )

in_range_lem :
    (b : Bitmap) (start cnt : ℕ) → IsValid b → start + cnt ≤ b.bit_cnt → in_range b start cnt ≡ true
in_range_lem b start cnt v h = ground (arith, v.small)

-- bitmap_set_multiple gives every bit of a range inside a valid bitmap the value and changes no
-- bit outside it.
pub bitmap_set_multiple_lem :
    (b : Bitmap) (start cnt : ℕ) (value : Bool)
    → IsValid b
    → start + cnt ≤ b.bit_cnt
    → (b' : Bitmap) × (bitmap_set_multiple b start cnt value ≡ some b')
      × RangeSet b start cnt value b'
unfolding bitmap_set_multiple
bitmap_set_multiple_lem b start cnt value v h =
    let (b', e, r) = set_from_lem cnt start value b v h in
    (b', rw (in_range_lem b start cnt v h) e, r)

-- The number of bits of a range that have the value.
pub range_count : Bitmap → ℕ → ℕ → Bool → ℕ
range_count b start zero value = 0
range_count b start (suc cnt) value =
    (if bool_eq (bit b start) value then 1 else 0) + range_count b (start + 1) cnt value

count_from_lem :
    (cnt start : ℕ) (value : Bool) (n : ℕ) (b : Bitmap)
    → IsValid b
    → start + cnt ≤ b.bit_cnt
    → count_from cnt start value n b ≡ some (n + range_count b start cnt value)
unfolding count_from range_count
count_from_lem zero start value n b v h = ap some (omega arith)
count_from_lem (suc cnt) start value n b v h =
    let m = if bool_eq (bit b start) value then n + 1 else n in
    rw (bitmap_test_lem b start v (omega arith))
      (count_from_lem cnt (start + 1) value m b v (omega arith) ∙ ap some (ground arith))

-- bitmap_count counts the bits of a range inside a valid bitmap that have the value.
pub bitmap_count_lem :
    (b : Bitmap) (start cnt : ℕ) (value : Bool)
    → IsValid b
    → start + cnt ≤ b.bit_cnt
    → bitmap_count b start cnt value ≡ some (range_count b start cnt value)
unfolding bitmap_count
bitmap_count_lem b start cnt value v h =
    rw (in_range_lem b start cnt v h)
      (count_from_lem cnt start value 0 b v h ∙ ap some (omega arith))

-- What an answer of `bitmap_contains` says of the range.
abbrev pub Answers : Bitmap → ℕ → ℕ → Bool → Bool → Type 0
Answers b start cnt value true = (j : ℕ) × (start ≤ j) × (j < start + cnt) × (bit b j ≡ value)
Answers b start cnt value false = (j : ℕ) → start ≤ j → j < start + cnt → bit b j ≡ not value

bool_eq-true : (x y : Bool) → bool_eq x y ≡ true → x ≡ y
bool_eq-true true y e = sym e
bool_eq-true false true e = cc
bool_eq-true false false e = refl

bool_eq-false : (x y : Bool) → bool_eq x y ≡ false → x ≡ not y
bool_eq-false true true e = cc
bool_eq-false true false e = refl
bool_eq-false false true e = refl
bool_eq-false false false e = cc

-- An answer for the bits after the first, carried over to the whole range.
answer_after :
    (b : Bitmap) (start cnt : ℕ) (value v : Bool)
    → bit b start ≡ not value
    → Answers b (start + 1) cnt value v
    → Answers b start (suc cnt) value v
answer_after b start cnt value true e (j, p, q, r) = (j, omega arith, omega arith, r)
answer_after b start cnt value false e a = λ j p q. elim (Bool-cases (start == j)) [
  | inl at ↦ subst (λ i. bit b i ≡ not value) ((==_iff start j).0 at) e
  | inr after ↦ a j (ground arith) (omega arith)
]

contains_from_lem :
    (cnt start : ℕ) (value : Bool) (b : Bitmap)
    → IsValid b
    → start + cnt ≤ b.bit_cnt
    → (v : Bool) × (contains_from cnt start value b ≡ some v) × Answers b start cnt value v
unfolding contains_from
contains_from_lem zero start value b v h = (false, refl, λ j p q. absurd (omega arith))
contains_from_lem (suc cnt) start value b v h = elim (Bool-cases (bool_eq (bit b start) value)) [
  | inl hit ↦ (
    true,
    rw (bitmap_test_lem b start v (omega arith), hit),
    (start, omega arith, omega arith, bool_eq-true (bit b start) value hit),
  )
  | inr miss ↦
      let (r, e, a) = contains_from_lem cnt (start + 1) value b v (omega arith) in
      (
        r,
        rw (bitmap_test_lem b start v (omega arith), miss) e,
        answer_after b start cnt value r (bool_eq-false (bit b start) value miss) a,
      )
]

-- On a range inside a valid bitmap, bitmap_contains answers, and its answer is true exactly
-- where some bit of the range has the value.
pub bitmap_contains_lem :
    (b : Bitmap) (start cnt : ℕ) (value : Bool)
    → IsValid b
    → start + cnt ≤ b.bit_cnt
    → (v : Bool) × (bitmap_contains b start cnt value ≡ some v) × Answers b start cnt value v
unfolding bitmap_contains
bitmap_contains_lem b start cnt value v h =
    let (r, e, a) = contains_from_lem cnt start value b v h in
    (r, rw (in_range_lem b start cnt v h) e, a)
