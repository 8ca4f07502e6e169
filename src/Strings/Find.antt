-- ===== src/Strings/Find.antt =====
-- strstr of lib/string.c, and that it finds the first occurrence.
use tony_henry_niklas.Common.Int.{ℤ, pos, negsuc}
use tony_henry_niklas.Strings.Text.{strlen, memcmp}
use tony_henry_niklas.Strings.Order.{NoNul, c_string, strlen_lem}
use tony_henry_niklas.Strings.Copy.{length-c_string}
use tony_henry_niklas.Common.{
  ℕ, zero, suc, ◌+◌, ◌-◌, ◌≤◌, ◌<◌, ◌≡◌, refl, sym, ap, ◌∙◌, ◌≢◌, ◌↔◌, inl, inr, Bool, true, false,
  ◌&&◌, List, [], ◌∷◌, Option, none, some, arith, ltb, leb, ◌==◌, if◌then◌else◌, length, ◌>>=◌,
  Bool-cases, leb→le, drop,
}

-- The `for` loop, with `rounds` of it left, at offset `i`; `haystack` is the text from there.
strstr_from : List ℕ → List ℕ → ℕ → ℕ → ℕ → Option (Option ℕ)
strstr_from haystack needle needle_len i zero = some none
strstr_from haystack needle needle_len i (suc rounds) =
    let rest = strstr_from (drop 1 haystack) needle needle_len (i + 1) rounds in
    memcmp haystack needle needle_len >>= λ c. elim c [
      | pos zero ↦ some (some i)
      | pos (suc n) ↦ rest
      | negsuc n ↦ rest
    ]

pub strstr : List ℕ → List ℕ → Option (Option ℕ)
strstr haystack needle = do
  haystack_len ← strlen haystack
  needle_len ← strlen needle
  if leb needle_len haystack_len
      then strstr_from haystack needle needle_len 0 (haystack_len - needle_len + 1)
      else some none

-- The specification: the first suffix of the text that begins with the needle.
unfoldable pub starts_with : List ℕ → List ℕ → Bool
starts_with s [] = true
starts_with [] (y ∷ t) = false
starts_with (x ∷ s) (y ∷ t) = x == y && starts_with s t

unfoldable pub find : List ℕ → List ℕ → ℕ → Option ℕ
find [] t i = if starts_with [] t then some i else none
find (x ∷ s) t i = let rest = find s t (i + 1) in if starts_with (x ∷ s) t then some i else rest

-- Comparing a needle's length of the text tells whether the text begins with it.
memcmp-starts_with :
    (s t r q : List ℕ)
    → NoNul t
    → length t ≤ length (c_string s r)
    → (c : ℤ) × (memcmp (c_string s r) (c_string t q) (length t) ≡ some c)
      × ((c ≡ pos 0) ↔ (starts_with s t ≡ true))
unfolding memcmp starts_with
memcmp-starts_with s [] r q h l = (pos 0, refl, (λ _. refl, λ _. refl))
memcmp-starts_with [] (y ∷ t) r q h l =
    (if ltb y 0 then pos 1 else negsuc 0, ground arith, (λ e. ground arith, λ e. cc))
memcmp-starts_with (x ∷ s) (y ∷ t) r q h l = elim (Bool-cases (x == y)) [
  | inl e ↦ let (c, m, i) = memcmp-starts_with s t r q h.1 (omega arith) in (c, rw e m, rw e i)
  | inr e ↦ (if ltb y x then pos 1 else negsuc 0, rw e, rw e (λ p. ground arith, λ p. cc))
]

starts_with-le : (s t : List ℕ) → starts_with s t ≡ true → length t ≤ length s
unfolding starts_with
starts_with-le s [] e = omega arith
starts_with-le [] (y ∷ t) e = cc
starts_with-le (x ∷ s) (y ∷ t) e = ground (arith, starts_with-le s t)

find_short : (s t : List ℕ) (i : ℕ) → length s < length t → find s t i ≡ none
unfolding find
find_short [] t i h = ground (arith, starts_with-le [] t)
find_short (x ∷ s) t i h = ground (arith, starts_with-le (x ∷ s) t, find_short s t (i + 1))

-- One round, by what the comparison returned.
round_hit :
    (hay needle : List ℕ) (n i k : ℕ)
    → memcmp hay needle n ≡ some (pos 0)
    → strstr_from hay needle n i (suc k) ≡ some (some i)
unfolding strstr_from
round_hit hay needle n i k e = rw e

round_miss :
    (hay needle : List ℕ) (n i k : ℕ) (c : ℤ)
    → memcmp hay needle n ≡ some c
    → c ≢ pos 0
    → strstr_from hay needle n i (suc k) ≡ strstr_from (drop 1 hay) needle n (i + 1) k
unfolding strstr_from
round_miss hay needle n i k (pos zero) e h = absurd (h refl)
round_miss hay needle n i k (pos (suc m)) e h = rw e
round_miss hay needle n i k (negsuc m) e h = rw e

no_round :
    (hay needle s t : List ℕ) (n i : ℕ)
    → length s < length t
    → strstr_from hay needle n i 0 ≡ some (find s t i)
unfolding strstr_from
no_round hay needle s t n i h = rw (find_short s t i h)

find_hit : (s t : List ℕ) (i : ℕ) → starts_with s t ≡ true → find s t i ≡ some i
unfolding find
find_hit [] t i e = rw e
find_hit (x ∷ s) t i e = rw e

find_miss :
    (x : ℕ) (s t : List ℕ) (i : ℕ)
    → starts_with (x ∷ s) t ≡ false
    → find (x ∷ s) t i ≡ find s t (i + 1)
unfolding find
find_miss x s t i e = rw e

starts_with-empty : (s t : List ℕ) → length t ≤ 0 → starts_with s t ≡ true
unfolding starts_with
starts_with-empty s [] h = refl
starts_with-empty s (y ∷ t) h = absurd (omega arith)

-- `k` rounds are left: one for each place where the needle may still stand.
strstr_from_lem :
    (s t r q : List ℕ) (i k : ℕ)
    → NoNul t
    → length t + k ≡ suc (length s)
    → strstr_from (c_string s r) (c_string t q) (length t) i k ≡ some (find s t i)
strstr_from_lem s t r q i zero h e = no_round _ _ s t (length t) i (omega arith)
strstr_from_lem [] t r q i (suc k) h e =
    let (c, m, iff) = memcmp-starts_with [] t r q h (omega arith) in
    let hit = starts_with-empty [] t (omega arith) in
    round_hit _ _ _ i k (m ∙ ap some (iff.1 hit)) ∙ ap some (sym (find_hit [] t i hit))
strstr_from_lem (x ∷ s) t r q i (suc k) h e =
    let (c, m, iff) =
      memcmp-starts_with (x ∷ s) t r q h (omega (arith, length-c_string (x ∷ s) r)) in
    let rest = strstr_from_lem s t r q (i + 1) k h (omega arith) in
    elim (Bool-cases (starts_with (x ∷ s) t)) [
      | inl hit ↦
          round_hit _ _ _ i k (m ∙ ap some (iff.1 hit)) ∙ ap some (sym (find_hit (x ∷ s) t i hit))
      | inr miss ↦
          round_miss _ _ _ i k c m (λ z. cc (iff.0 z))
          ∙ rest
          ∙ ap some (sym (find_miss x s t i miss))
    ]

-- strstr of two null-terminated strings returns the place of the first occurrence of the needle,
-- and a null pointer exactly where there is none; it stays inside its arguments.
pub strstr_lem :
    (s t r q : List ℕ)
    → NoNul s
    → NoNul t
    → strstr (c_string s r) (c_string t q) ≡ some (find s t 0)
unfolding strstr
strstr_lem s t r q h k = elim (Bool-cases (leb (length t) (length s))) [
  | inl fits ↦
      let le = leb→le (length t) (length s) fits in
      rw (strlen_lem s r h, strlen_lem t q k, fits)
        (strstr_from_lem s t r q 0 (length s - length t + 1) k (omega arith))
  | inr short ↦
      rw (strlen_lem s r h, strlen_lem t q k, short)
        (ap some (sym (find_short s t 0 (ground arith))))
]

-- What the specification finds: the text from there on begins with the needle, and from no
-- earlier place it does.
pub find_first :
    (s t : List ℕ) (i : ℕ) {j : ℕ}
    → find s t i ≡ some j
    → (k : ℕ) × (j ≡ i + k)
      × (starts_with (drop k s) t ≡ true)
      × ((m : ℕ) → m < k → starts_with (drop m s) t ≡ false)
unfolding find
find_first [] t i e = (0, ground arith, ground arith, λ m h. absurd (omega arith))
find_first (x ∷ s) t i e = elim (Bool-cases (starts_with (x ∷ s) t)) [
  | inl hit ↦ (0, ground arith, hit, λ m h. absurd (omega arith))
  | inr miss ↦
      let (k, p, b, first) = find_first s t (i + 1) (rw miss at e) in
      (suc k, omega arith, b, before miss first)
]
  where
    before :
        {k : ℕ}
        → starts_with (x ∷ s) t ≡ false
        → ((m : ℕ) → m < k → starts_with (drop m s) t ≡ false)
        → (m : ℕ) → m < suc k
        → starts_with (drop m (x ∷ s)) t ≡ false
    before miss first zero h = miss
    before miss first (suc m) h = first m (omega arith)
