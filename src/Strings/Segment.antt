-- ===== src/Strings/Segment.antt =====
-- memcpy of lib/string.c where the two pointers stand inside blocks.
use tony_henry_niklas.Strings.Memory.{memcpy, memcpy_lem}
use tony_henry_niklas.Common.{length-take, length-drop}
use tony_henry_niklas.Common.{
  ℕ, zero, suc, ◌+◌, ◌-◌, ◌≤◌, ◌<◌, ◌≡◌, refl, ap, ◌∙◌, ◌&&◌, List, [], ◌∷◌, ◌++◌, Option, some,
  arith, ltb, leb, and_then, if◌then◌else◌, length, get_elem?, ◌>>=◌, take, drop, length-append,
}

-- `memcpy (dst + i, src + j, n)`
unfoldable pub copy_at : List ℕ → ℕ → List ℕ → ℕ → ℕ → Option (List ℕ)
copy_at dst i src j n = memcpy (drop i dst) (drop j src) n >>= λ r. some (take i dst ++ r)

-- What the bytes of `dst` become.
abbrev pub overlaid : List ℕ → ℕ → List ℕ → ℕ → ℕ → ℕ → Option ℕ
overlaid dst i src j n k =
    if leb i k && ltb k (i + n) then get_elem? src (j + (k - i)) else get_elem? dst k

suc_add : (n k : ℕ) → suc (n + k) ≡ suc n + k
suc_add n k = omega arith

zero_add : (k : ℕ) → k ≡ 0 + k
zero_add k = omega arith

module _ {ℓ} {A : Type ℓ} where
  pub get_elem?-append :
      (xs ys : List A) (k : ℕ)
      → get_elem? (xs ++ ys) k
        ≡ (if ltb k (length xs) then get_elem? xs k else get_elem? ys (k - length xs))
  get_elem?-append [] ys k = ground arith
  get_elem?-append (x ∷ xs) ys zero = ground arith
  get_elem?-append (x ∷ xs) ys (suc k) = ground (arith, get_elem?-append xs ys k)

  pub get_elem?-drop :
      (n : ℕ) (xs : List A) (k : ℕ) → get_elem? (drop n xs) k ≡ get_elem? xs (n + k)
  get_elem?-drop zero xs k = ap (get_elem? xs) (zero_add k)
  get_elem?-drop (suc n) [] k = refl
  get_elem?-drop (suc n) (x ∷ xs) k = get_elem?-drop n xs k ∙ ap (get_elem? (x ∷ xs)) (suc_add n k)

  pub get_elem?-take :
      (n : ℕ) (xs : List A) (k : ℕ) → k < n → get_elem? (take n xs) k ≡ get_elem? xs k
  get_elem?-take zero xs k h = absurd (omega arith)
  get_elem?-take (suc n) [] k h = refl
  get_elem?-take (suc n) (x ∷ xs) zero h = refl
  get_elem?-take (suc n) (x ∷ xs) (suc k) h = get_elem?-take n xs k (omega arith)

copied-get_elem? :
    (dst : List ℕ) (i : ℕ) (src : List ℕ) (j n k : ℕ)
    → i + n ≤ length dst
    → j + n ≤ length src
    → get_elem? (take i dst ++ (take n (drop j src) ++ drop n (drop i dst))) k
      ≡ overlaid dst i src j n k
copied-get_elem? dst i src j n k h l =
    let d = length-drop i dst in
    let s = length-drop j src in
    let t : length (take i dst) ≡ i = omega (arith, length-take i dst) in
    let c : length (take n (drop j src)) ≡ n = omega (arith, length-take n (drop j src)) in
    let back : List ℕ = drop n (drop i dst) in
    let outer = get_elem?-append (take i dst) (take n (drop j src) ++ back) k in
    let inner = get_elem?-append (take n (drop j src)) back (k - i) in
    let front = get_elem?-take i dst k in
    let middle = get_elem?-take n (drop j src) (k - i) in
    let source = get_elem?-drop j src (k - i) in
    let last = get_elem?-drop n (drop i dst) (k - i - n) ∙ get_elem?-drop i dst (n + (k - i - n)) in
    ground (arith, outer, inner, front, middle, source, last)

pub copy_at_lem :
    (dst : List ℕ) (i : ℕ) (src : List ℕ) (j n : ℕ)
    → i + n ≤ length dst
    → j + n ≤ length src
    → (m : List ℕ) × (copy_at dst i src j n ≡ some m)
      × (length m ≡ length dst)
      × ((k : ℕ) → get_elem? m k ≡ overlaid dst i src j n k)
unfolding copy_at
copy_at_lem dst i src j n h l =
    let d = length-drop i dst in
    let s = length-drop j src in
    let t = length-take i dst in
    let c = length-take n (drop j src) in
    let back : List ℕ = drop n (drop i dst) in
    let body : List ℕ = take n (drop j src) ++ back in
    let e = length-append (take i dst) body in
    let b = length-append (take n (drop j src)) back in
    let r = length-drop n (drop i dst) in
    let ran = memcpy_lem (drop i dst) (drop j src) n (omega arith) (omega arith) in
    (
      take i dst ++ body,
      and_then (λ x. some (take i dst ++ x)) ran,
      omega arith,
      λ k. copied-get_elem? dst i src j n k h l,
    )
