-- ===== src/Strings/Copy.antt =====
-- What strlcpy and strlcat of lib/string.c leave in the destination.
use mathlib.Core.List.{append_assoc}
use native.Mathlib.Nat.{zero-add}
use Prim.Native.Nat.{min}
use tony_henry_niklas.Strings.Memory.{memcpy, memcpy_lem, store}
use tony_henry_niklas.Strings.Text.{strlcpy, strlcat}
use tony_henry_niklas.Strings.Order.{NoNul, c_string, strlen_lem}
use tony_henry_niklas.Common.{
  ℕ, zero, suc, ◌+◌, ◌-◌, ◌≤◌, ◌<◌, ◌≡◌, refl, ap, inl, inr, ◌&&◌, List, [], ◌∷◌, ◌++◌, Option,
  some, arith, ltb, if◌then◌else◌, length, set, ◌>>=◌, Bool-cases, ltb→lt, lt→ltb, take, drop,
  length-append,
}

pub length-c_string : (s r : List ℕ) → length (c_string s r) ≡ length s + suc (length r)
length-c_string s r = length-append s (0 ∷ r)

pub take-append_of_le : (n : ℕ) (s t : List ℕ) → n ≤ length s → take n (s ++ t) ≡ take n s
take-append_of_le zero s t h = refl
take-append_of_le (suc n) [] t h = absurd (omega arith)
take-append_of_le (suc n) (x ∷ s) t h = ap (λ r. x ∷ r) (take-append_of_le n s t (omega arith))

-- The byte after a prefix is the first of the rest.
pub set-append :
    (s : List ℕ) (n v : ℕ) (t : List ℕ)
    → length s ≡ n
    → 0 < length t
    → set (s ++ t) n v ≡ s ++ (v ∷ drop 1 t)
set-append [] zero v [] e h = absurd (omega arith)
set-append [] zero v (y ∷ t) e h = refl
set-append [] (suc n) v t e h = absurd (omega arith)
set-append (x ∷ s) zero v t e h = absurd (omega arith)
set-append (x ∷ s) (suc n) v t e h = ap (λ r. x ∷ r) (set-append s n v t (omega arith) h)

drop-drop : (n : ℕ) (s : List ℕ) → drop 1 (drop n s) ≡ drop (suc n) s
drop-drop zero s = refl
drop-drop (suc n) [] = refl
drop-drop (suc n) (x ∷ s) = drop-drop n s

pub length-drop : (n : ℕ) (s : List ℕ) → length (drop n s) ≡ length s - n
length-drop zero s = omega arith
length-drop (suc n) [] = omega arith
length-drop (suc n) (x ∷ s) = omega (arith, length-drop n s)

pub length-take_of_le : (n : ℕ) (s : List ℕ) → n ≤ length s → length (take n s) ≡ n
length-take_of_le zero s h = refl
length-take_of_le (suc n) [] h = absurd (omega arith)
length-take_of_le (suc n) (x ∷ s) h = omega (arith, length-take_of_le n s (omega arith))

-- Copying `k` bytes of the source string and ending the copy there, behind `front`.
copy_end {ℓ} :
    {B : Type ℓ} (f : List ℕ → Option B) (front dst s rest : List ℕ) (k : ℕ)
    → k < length dst
    → k ≤ length s
    → (memcpy dst (c_string s rest) k >>= λ copied.
        store (front ++ copied) (length front + k) 0 >>= f)
      ≡ f (front ++ (take k s ++ (0 ∷ drop (suc k) dst)))
copy_end f front dst s rest k h l =
    let t = length-take_of_le k s l in
    let d = length-drop k dst in
    let e = append_assoc front (take k s) (drop k dst) in
    let e' = append_assoc front (take k s) (0 ∷ drop (suc k) dst) in
    let t' : length (front ++ take k s) ≡ length front + k =
      omega (arith, length-append front (take k s)) in
    let inside : length front + k < length ((front ++ take k s) ++ drop k dst) =
      omega (arith, length-append (front ++ take k s) (drop k dst)) in
    rw (
      memcpy_lem dst (c_string s rest) k (omega arith) (omega (arith, length-c_string s rest)),
      take-append_of_le k s (0 ∷ rest) l,
      ← e,
      lt→ltb _ _ inside,
      set-append (front ++ take k s) (length front + k) 0 (drop k dst) t' (omega arith),
      drop-drop k dst,
      e',
    )

copy_end_front {ℓ} :
    {B : Type ℓ} (f : List ℕ → Option B) (dst s rest : List ℕ) (k : ℕ)
    → k < length dst
    → k ≤ length s
    → (memcpy dst (c_string s rest) k >>= λ copied. store copied k 0 >>= f)
      ≡ f (take k s ++ (0 ∷ drop (suc k) dst))
copy_end_front f dst s rest k h l = rw zero-add at (copy_end f [] dst s rest k h l)

if_ltb-eq-min : (a b : ℕ) → (if ltb a b then a else b) ≡ min a b
if_ltb-eq-min a b = ground arith

-- strlcpy returns the length of the source and stores its first size - 1 bytes, ended by a null
-- byte, and what follows in the destination stays; nothing is written where size is 0. The
-- destination has size bytes.
pub strlcpy_lem :
    (dst s rest : List ℕ) (size : ℕ)
    → NoNul s
    → size ≤ length dst
    → strlcpy dst (c_string s rest) size
      ≡ some (
        length s,
        if ltb 0 size
            then take (min (length s) (size - 1)) s
              ++ (0 ∷ drop (suc (min (length s) (size - 1))) dst)
            else dst,
      )
unfolding strlcpy
strlcpy_lem dst s rest size h l = elim (Bool-cases (ltb 0 size)) [
  | inl p ↦
      let q = ltb→lt 0 size p in
      rw (strlen_lem s rest h, p, if_ltb-eq-min (length s) (size - 1))
        (copy_end_front _ dst s rest (min (length s) (size - 1)) (omega arith) (omega arith))
  | inr p ↦ rw (strlen_lem s rest h, p)
]

pub take-append_self : (s t : List ℕ) → take (length s) (s ++ t) ≡ s
take-append_self [] t = refl
take-append_self (x ∷ s) t = ap (λ r. x ∷ r) (take-append_self s t)

pub drop-append_self : (s t : List ℕ) → drop (length s) (s ++ t) ≡ t
drop-append_self [] t = refl
drop-append_self (x ∷ s) t = drop-append_self s t

-- strlcat returns the length that the whole concatenation has, and stores as much of it as size
-- - 1 bytes hold, ended by a null byte; where size leaves no room the destination stays. The
-- destination has size bytes and holds a string.
pub strlcat_lem :
    (d dst_rest s rest : List ℕ) (size : ℕ)
    → NoNul d
    → NoNul s
    → size ≤ length (c_string d dst_rest)
    → strlcat (c_string d dst_rest) (c_string s rest) size
      ≡ some (
        length s + length d,
        if ltb 0 size && ltb (length d) size
            then d
              ++ (take (min (length s) (size - length d - 1)) s
                  ++ (0 ∷ drop (min (length s) (size - length d - 1)) dst_rest))
            else c_string d dst_rest,
      )
unfolding strlcat
strlcat_lem d dr s rest size h k l = elim (Bool-cases (ltb 0 size && ltb (length d) size)) [
  | inl p ↦
      let q : length d < size = ground arith in
      rw
        (
          strlen_lem s rest k,
          strlen_lem d dr h,
          p,
          if_ltb-eq-min (length s) (size - length d - 1),
          take-append_self d (0 ∷ dr),
          drop-append_self d (0 ∷ dr),
        )
        (copy_end _ d (0 ∷ dr) s rest (min (length s) (size - length d - 1))
          (omega (arith, length-c_string d dr)) (omega arith))
  | inr p ↦ rw (strlen_lem s rest k, strlen_lem d dr h, p)
]
