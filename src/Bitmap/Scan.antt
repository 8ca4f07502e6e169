-- ===== src/Bitmap/Scan.antt =====
-- bitmap_scan finds the first group of bits, and bitmap_scan_and_flip takes it.
use tony_henry_niklas.Bitmap.{
  Bitmap, bitmap_error, bitmap_contains, bitmap_all, scan_from, bitmap_scan,
}
use tony_henry_niklas.Bitmap.Single.{IsValid, bit}
use tony_henry_niklas.Bitmap.Range.{Answers, bitmap_contains_lem}
use tony_henry_niklas.Common.{
  ℕ, zero, suc, ◌+◌, ◌-◌, ◌≤◌, ◌<◌, ◌≡◌, refl, ◌∙◌, ◌⊎◌, inl, inr, Bool, true, false, not, Option,
  some, arith, and_then, leb, ◌==◌, if◌then◌else◌, ◌>>=◌, Bool-cases, subst, leb→le, ==_iff,
}

-- A group of `cnt` bits from `i` on that all have the value.
abbrev pub Group : Bitmap → ℕ → ℕ → Bool → Type 0
Group b i cnt value = (j : ℕ) → i ≤ j → j < i + cnt → bit b j ≡ value

-- A bit in the range that has the other value.
abbrev pub Spoiled : Bitmap → ℕ → ℕ → Bool → Type 0
Spoiled b i cnt value = (j : ℕ) × (i ≤ j) × (j < i + cnt) × (bit b j ≡ not value)

-- What the scan from `start` returns: the first place of a group, or BITMAP_ERROR where every
-- place up to the last is spoiled.
abbrev pub Found : Bitmap → ℕ → ℕ → Bool → ℕ → Type 0
Found b start cnt value idx =
    (start ≤ idx)
    × (idx + cnt ≤ b.bit_cnt)
    × Group b idx cnt value
    × ((i : ℕ) → start ≤ i → i < idx → Spoiled b i cnt value)

abbrev pub NotFound : Bitmap → ℕ → ℕ → Bool → ℕ → Type 0
NotFound b start cnt value idx =
    (idx ≡ bitmap_error) × ((i : ℕ) → start ≤ i → i + cnt ≤ b.bit_cnt → Spoiled b i cnt value)

not-not : (x : Bool) → not (not x) ≡ x
not-not true = refl
not-not false = refl

-- From one place to the next.
spoil_earlier :
    (b : Bitmap) (i j cnt : ℕ) (value : Bool)
    → i ≤ j
    → Spoiled b i cnt value
    → (i + 1 ≤ j → Spoiled b j cnt value)
    → Spoiled b j cnt value
spoil_earlier b i j cnt value l s later = elim (Bool-cases (i == j)) [
  | inl at ↦ subst (λ k. Spoiled b k cnt value) ((==_iff i j).0 at) s
  | inr after ↦ later (ground arith)
]

scan_from_lem :
    (rounds i cnt : ℕ) (value : Bool) (b : Bitmap)
    → IsValid b
    → i + rounds + cnt ≡ b.bit_cnt + 1
    → (idx : ℕ) × (scan_from rounds i cnt value b ≡ some idx)
      × (Found b i cnt value idx ⊎ NotFound b i cnt value idx)
unfolding scan_from
scan_from_lem zero i cnt value b v h =
    (bitmap_error, refl, inr (refl, λ j p q. absurd (omega arith)))
scan_from_lem (suc rounds) i cnt value b v h =
    let (r, e, a) = bitmap_contains_lem b i cnt (not value) v (omega arith) in
    let (idx, e', f) = scan_from_lem rounds (i + 1) cnt value b v (omega arith) in
    pick r a e idx e' f
  where
    pick :
        (r : Bool)
        → Answers b i cnt (not value) r
        → bitmap_contains b i cnt (not value) ≡ some r
        → (idx : ℕ) → scan_from rounds (i + 1) cnt value b ≡ some idx
        → Found b (i + 1) cnt value idx ⊎ NotFound b (i + 1) cnt value idx
        → (idx : ℕ) × ((bitmap_contains b i cnt (not value) >>= λ v.
              if v then scan_from rounds (i + 1) cnt value b else some i)
            ≡ some idx)
          × (Found b i cnt value idx ⊎ NotFound b i cnt value idx)
    pick false a e idx e' f = (
      i,
      rw e,
      inl (
        omega arith,
        omega arith,
        (λ j p q. a j p q ∙ not-not value),
        λ j p q. absurd (omega arith),
      ),
    )
    pick true a e idx e' (inl (p, q, g, first)) = (
      idx,
      rw (e, e'),
      inl (omega arith, q, g, λ j l m. spoil_earlier b i j cnt value l a (λ l'. first j l' m)),
    )
    pick true a e idx e' (inr (p, n)) =
        (idx, rw (e, e'), inr (p, λ j l m. spoil_earlier b i j cnt value l a (λ l'. n j l' m)))

scan-inside :
    (b : Bitmap) (start cnt : ℕ) (value : Bool) {o : Option ℕ}
    → start + cnt ≤ b.bit_cnt
    → scan_from (b.bit_cnt - cnt + 1 - start) start cnt value b ≡ o
    → bitmap_scan b start cnt value ≡ o
unfolding bitmap_scan
scan-inside b start cnt value l e =
    let in_range : leb start b.bit_cnt ≡ true = ground arith in
    let room : leb cnt b.bit_cnt ≡ true = ground arith in rw (in_range, room) e

no_rounds :
    (rounds i cnt : ℕ) (value : Bool) (b : Bitmap)
    → rounds ≡ 0
    → scan_from rounds i cnt value b ≡ some bitmap_error
unfolding scan_from
no_rounds zero i cnt value b e = refl
no_rounds (suc rounds) i cnt value b e = absurd (omega arith)

scan-outside :
    (b : Bitmap) (start cnt : ℕ) (value : Bool)
    → start ≤ b.bit_cnt
    → b.bit_cnt < start + cnt
    → bitmap_scan b start cnt value ≡ some bitmap_error
unfolding bitmap_scan
scan-outside b start cnt value h l =
    let in_range : leb start b.bit_cnt ≡ true = ground arith in
    elim (Bool-cases (leb cnt b.bit_cnt)) [
      | inl room ↦
          let l' = leb→le cnt b.bit_cnt room in
          let none_left = no_rounds (b.bit_cnt - cnt + 1 - start) start cnt value b (omega arith) in
          rw (in_range, room) none_left
      | inr room ↦ rw (in_range, room) refl
    ]

-- bitmap_scan, from a start inside a valid bitmap, returns the first place at or after the start
-- from which a group of bits has the value, and BITMAP_ERROR exactly where there is none.
pub bitmap_scan_lem :
    (b : Bitmap) (start cnt : ℕ) (value : Bool)
    → IsValid b
    → start ≤ b.bit_cnt
    → (idx : ℕ) × (bitmap_scan b start cnt value ≡ some idx)
      × (Found b start cnt value idx ⊎ NotFound b start cnt value idx)
bitmap_scan_lem b start cnt value v h = elim (Bool-cases (leb (start + cnt) b.bit_cnt)) [
  | inl fits ↦
      let l = leb→le (start + cnt) b.bit_cnt fits in
      let (idx, e, f) =
        scan_from_lem (b.bit_cnt - cnt + 1 - start) start cnt value b v (omega arith) in
      (idx, scan-inside b start cnt value l e, f)
  | inr beyond ↦
      let l : b.bit_cnt < start + cnt = ground arith in
      (bitmap_error, scan-outside b start cnt value h l, inr (refl, λ i p q. absurd (omega arith)))
]

pub bitmap_all_lem :
    (b : Bitmap) (start cnt : ℕ)
    → IsValid b
    → start + cnt ≤ b.bit_cnt
    → Group b start cnt true
    → bitmap_all b start cnt ≡ some true
unfolding bitmap_all
bitmap_all_lem b start cnt v h g = answered (bitmap_contains_lem b start cnt false v h)
  where
    answered :
        (r : Bool) × (bitmap_contains b start cnt false ≡ some r) × Answers b start cnt false r
        → (bitmap_contains b start cnt false >>= λ r. some (not r)) ≡ some true
    answered (false, e, a) = and_then (λ r. some (not r)) e
    answered (true, e, (j, p, q, r)) = absurd (ground (arith, g j p q, r))
