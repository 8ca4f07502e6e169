-- ===== src/Strings/Order.antt =====
-- Lengths of strings, and the order that strcmp and memcmp of lib/string.c compute.
use tony_henry_niklas.Common.Int.{ℤ, pos, negsuc}
use tony_henry_niklas.Strings.Text.{strlen, memcmp, strcmp}
use tony_henry_niklas.Common.{
  ℕ, zero, suc, ◌≤◌, ◌≡◌, refl, ap, ◌∙◌, ◌≢◌, ◌↔◌, inl, inr, List, [], ◌∷◌, ◌++◌, some, arith, ltb,
  ◌==◌, if◌then◌else◌, length, Bool-cases, Option-cases, subst, take, drop,
}

-- Text with no null byte: what stands before a string's terminator.
abbrev pub NoNul : List ℕ → Type 0
NoNul [] = Unit
NoNul (c ∷ s) = (c ≢ 0) × NoNul s

abbrev pub c_string : List ℕ → List ℕ → List ℕ
c_string s rest = s ++ (0 ∷ rest)

-- `strlen` of a null-terminated string is the number of its bytes before the null byte.
pub strlen_lem : (s rest : List ℕ) → NoNul s → strlen (c_string s rest) ≡ some (length s)
unfolding strlen
strlen_lem [] rest h = refl
strlen_lem (c ∷ s) rest h = ground (arith, strlen_lem s rest h.1)

-- Where strlen returns, the string ends there, and at no byte before.
pub strlen_sound :
    (s : List ℕ) {n : ℕ}
    → strlen s ≡ some n
    → (s ≡ c_string (take n s) (drop (suc n) s)) × NoNul (take n s)
unfolding strlen
strlen_sound [] e = cc
strlen_sound (c ∷ s) {n = zero} e =
    let z : c ≡ 0 = ground (arith, Option-cases (strlen s)) in (ap (λ k. k ∷ s) z, tt)
strlen_sound (c ∷ s) {n = suc n} e =
    let nz : c ≢ 0 = ground arith in
    let p : strlen s ≡ some n = ground arith in
    (ap (λ r. c ∷ r) (strlen_sound s p).0, (nz, (strlen_sound s p).1))

-- The order of strings, byte by byte: a proper prefix is smaller.
unfoldable pub lex : List ℕ → List ℕ → ℤ
lex [] [] = pos 0
lex [] (y ∷ t) = negsuc 0
lex (x ∷ s) [] = pos 1
lex (x ∷ s) (y ∷ t) = if ltb x y then negsuc 0 else if ltb y x then pos 1 else lex s t

-- strcmp of two null-terminated strings returns -1, 0 or 1 as their order is, and reads no byte
-- beyond their ends.
pub strcmp_lem :
    (s t r q : List ℕ) → NoNul s → NoNul t → strcmp (c_string s r) (c_string t q) ≡ some (lex s t)
unfolding strcmp lex
strcmp_lem [] [] r q h k = refl
strcmp_lem [] (y ∷ t) r q h k = ground arith
strcmp_lem (x ∷ s) [] r q h k = ground arith
strcmp_lem (x ∷ s) (y ∷ t) r q h k = ground (arith, strcmp_lem s t r q h.1 k.1)

pub lex-eq-zero : (s t : List ℕ) → lex s t ≡ pos 0 → s ≡ t
unfolding lex
lex-eq-zero [] [] e = refl
lex-eq-zero [] (y ∷ t) e = cc
lex-eq-zero (x ∷ s) [] e = cc
lex-eq-zero (x ∷ s) (y ∷ t) e = ground (arith, lex-eq-zero s t)

pub lex_refl : (s : List ℕ) → lex s s ≡ pos 0
unfolding lex
lex_refl [] = refl
lex_refl (x ∷ s) = ground (arith, lex_refl s)

pub lex_swap : (s t : List ℕ) → lex s t ≡ pos 1 → lex t s ≡ negsuc 0
unfolding lex
lex_swap [] [] e = cc
lex_swap [] (y ∷ t) e = cc
lex_swap (x ∷ s) [] e = refl
lex_swap (x ∷ s) (y ∷ t) e = ground (arith, lex_swap s t)

-- `memcmp` is zero exactly where the blocks agree.
pub memcmp-eq-zero : (n : ℕ) (a b : List ℕ) → memcmp a b n ≡ some (pos 0) → take n a ≡ take n b
unfolding memcmp
memcmp-eq-zero zero a b e = refl
memcmp-eq-zero (suc n) [] b e = cc
memcmp-eq-zero (suc n) (x ∷ a) [] e = cc
memcmp-eq-zero (suc n) (x ∷ a) (y ∷ b) e = ground (arith, memcmp-eq-zero n a b)

pub memcmp_total :
    (n : ℕ) (a b : List ℕ) → n ≤ length a → n ≤ length b → (c : ℤ) × (memcmp a b n ≡ some c)
unfolding memcmp
memcmp_total zero a b h k = (pos 0, refl)
memcmp_total (suc n) [] b h k = absurd (omega arith)
memcmp_total (suc n) (x ∷ a) [] h k = absurd (omega arith)
memcmp_total (suc n) (x ∷ a) (y ∷ b) h k = elim (Bool-cases (x == y)) [
  | inl e ↦ let (c, p) = memcmp_total n a b (omega arith) (omega arith) in (c, rw (e, p))
  | inr e ↦ (if ltb y x then pos 1 else negsuc 0, rw e)
]

-- strcmp of two null-terminated strings is zero exactly where the strings are equal, and never
-- leaves the two arguments.
pub strcmp_equal :
    (s t r q : List ℕ)
    → NoNul s
    → NoNul t
    → (strcmp (c_string s r) (c_string t q) ≡ some (pos 0)) ↔ (s ≡ t)
strcmp_equal s t r q h k = (
  λ e. lex-eq-zero s t (cc (strcmp_lem s t r q h k)),
  λ e. strcmp_lem s t r q h k ∙ ap some (subst (λ u. lex s u ≡ pos 0) e (lex_refl s)),
)
