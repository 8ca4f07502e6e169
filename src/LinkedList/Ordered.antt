-- ===== src/LinkedList/Ordered.antt =====
-- list_insert_ordered of lib/kernel/list.c.
use tony_henry_niklas.LinkedList.Walk.{next_lem, at_end, move}
use tony_henry_niklas.LinkedList.{Links, ListEnds, list_next, list_insert}
use tony_henry_niklas.LinkedList.Order.{place_from, list_insert_ordered}
use tony_henry_niklas.LinkedList.Chain.{has, behind, IsList, begins, begin_of}
use tony_henry_niklas.LinkedList.Insert.{Elsewhere, list_insert_lem}
use tony_henry_niklas.Common.{
  ℕ, zero, suc, ◌≤◌, ◌≡◌, refl, sym, ap, ◌∙◌, inl, inr, Bool, true, false, not, List, [], ◌∷◌, ◌++◌,
  Option, none, some, arith, ◌==◌, passes, chosen, passed_over, and_then, if◌then◌else◌, length,
  ◌>>=◌, Bool-cases, subst,
}

-- The elements before the first that is greater than `elem`, and those from it on.
abbrev pub not_above : (ℕ → ℕ → Bool) → ℕ → List ℕ → List ℕ
not_above less elem [] = []
not_above less elem (y ∷ ys) =
    let rest : List ℕ = y ∷ not_above less elem ys in if less elem y then [] else rest

abbrev pub from_above : (ℕ → ℕ → Bool) → ℕ → List ℕ → List ℕ
from_above less elem [] = []
from_above less elem (y ∷ ys) =
    let rest : List ℕ = from_above less elem ys in if less elem y then y ∷ ys else rest

above_append :
    (less : ℕ → ℕ → Bool) (elem : ℕ) (ys : List ℕ)
    → not_above less elem ys ++ from_above less elem ys ≡ ys
above_append less elem [] = refl
above_append less elem (y ∷ ys) = elim (Bool-cases (less elem y)) [
  | inl e ↦ rw e
  | inr e ↦ rw e (ap (λ l. y ∷ l) (above_append less elem ys))
]

place_from_lem :
    (rounds : ℕ) (less : ℕ → ℕ → Bool) (elem : ℕ) (m : Links) (list : ListEnds) (xs ys : List ℕ)
    → IsList m list (xs ++ ys)
    → length ys ≤ rounds
    → place_from rounds less list elem (begin_of list ys) m
      ≡ some (begin_of list (from_above less elem ys))
unfolding place_from
place_from_lem zero less elem m list xs [] s h = chosen none (at_end list.tail)
place_from_lem zero less elem m list xs (y ∷ ys) s h = absurd (omega arith)
place_from_lem (suc rounds) less elem m list xs [] s h = chosen _ (at_end list.tail)
place_from_lem (suc rounds) less elem m list xs (y ∷ ys) s h =
    let (e, other) = next_lem m list xs y ys s in
    let step : Option ℕ = list_next y m >>= λ e'. place_from rounds less list elem e' m in
    elim (Bool-cases (less elem y)) [
      | inl l ↦
          passed_over (some y) other
          ∙ chosen step l
          ∙ ap (λ zs. some (begin_of list zs)) (sym (chosen (from_above less elem ys) l))
      | inr l ↦
          passed_over (some y) other
          ∙ passed_over (some y) l
          ∙ and_then (λ x. place_from rounds less list elem x m) e
          ∙ place_from_lem rounds less elem m list (xs ++ (y ∷ [])) ys (move m list xs y ys s)
              (omega arith)
          ∙ ap (λ zs. some (begin_of list zs)) (sym (passed_over (y ∷ ys) l))
    ]

-- No element is less than the one before it, `u` standing before the first.
abbrev pub SortedFrom : (ℕ → ℕ → Bool) → ℕ → List ℕ → Type 0
SortedFrom less u [] = Unit
SortedFrom less u (y ∷ ys) = (less y u ≡ false) × SortedFrom less y ys

abbrev pub IsSorted : (ℕ → ℕ → Bool) → List ℕ → Type 0
IsSorted less [] = Unit
IsSorted less (y ∷ ys) = SortedFrom less y ys

inserted_from :
    (less : ℕ → ℕ → Bool) (elem u : ℕ) (ys : List ℕ)
    → ((x y : ℕ) → less x y ≡ true → less y x ≡ false)
    → less elem u ≡ false
    → SortedFrom less u ys
    → SortedFrom less u (not_above less elem ys ++ (elem ∷ from_above less elem ys))
inserted_from less elem u [] asym l s = (l, tt)
inserted_from less elem u (y ∷ ys) asym l (n, s) = elim (Bool-cases (less elem y)) [
  | inl e ↦
      subst (SortedFrom less u)
        (sym (
          ap (λ zs. zs ++ (elem ∷ from_above less elem (y ∷ ys)))
            (chosen (y ∷ not_above less elem ys) e)
          ∙ ap (λ zs. elem ∷ zs) (chosen (from_above less elem ys) e)))
        (l, (asym elem y e, s))
  | inr e ↦
      subst (SortedFrom less u)
        (sym (
          ap (λ zs. zs ++ (elem ∷ from_above less elem (y ∷ ys))) (passed_over [] e)
          ∙ ap (λ zs. y ∷ (not_above less elem ys ++ (elem ∷ zs))) (passed_over (y ∷ ys) e)))
        (n, inserted_from less elem y ys asym e s)
]

inserted :
    (less : ℕ → ℕ → Bool) (elem : ℕ) (ys : List ℕ)
    → ((x y : ℕ) → less x y ≡ true → less y x ≡ false)
    → IsSorted less ys
    → IsSorted less (not_above less elem ys ++ (elem ∷ from_above less elem ys))
inserted less elem [] asym s = tt
inserted less elem (y ∷ ys) asym s = elim (Bool-cases (less elem y)) [
  | inl e ↦
      subst (IsSorted less)
        (sym (
          ap (λ zs. zs ++ (elem ∷ from_above less elem (y ∷ ys)))
            (chosen (y ∷ not_above less elem ys) e)
          ∙ ap (λ zs. elem ∷ zs) (chosen (from_above less elem ys) e)))
        (asym elem y e, s)
  | inr e ↦
      subst (IsSorted less)
        (sym (
          ap (λ zs. zs ++ (elem ∷ from_above less elem (y ∷ ys))) (passed_over [] e)
          ∙ ap (λ zs. y ∷ (not_above less elem ys ++ (elem ∷ zs))) (passed_over (y ∷ ys) e)))
        (inserted_from less elem y ys asym e s)
]

-- With a comparison by which no two elements are each less than the other, and a round for each
-- element, list_insert_ordered of a new element into a sorted list ends and puts it before the
-- first element that it is less than; the list is sorted afterwards, and the links of all
-- addresses that are not in it stay.
pub list_insert_ordered_lem :
    (rounds : ℕ) (less : ℕ → ℕ → Bool) (elem : ℕ) (m : Links) (list : ListEnds) (xs : List ℕ)
    → IsList m list xs
    → (elem == 0) ≡ false
    → has elem (list.head ∷ behind list xs) ≡ false
    → length xs ≤ rounds
    → ((x y : ℕ) → less x y ≡ true → less y x ≡ false)
    → IsSorted less xs
    → (m' : Links) × (list_insert_ordered rounds less list elem m ≡ some m')
      × IsList m' list (not_above less elem xs ++ (elem ∷ from_above less elem xs))
      × (not_above less elem xs ++ from_above less elem xs ≡ xs)
      × IsSorted less (not_above less elem xs ++ (elem ∷ from_above less elem xs))
      × Elsewhere m m' (elem ∷ list.head ∷ behind list xs)
unfolding list_insert_ordered
list_insert_ordered_lem rounds less elem m list xs s z h enough asym sorted =
    let lo : List ℕ = not_above less elem xs in
    let hi : List ℕ = from_above less elem xs in
    let same : lo ++ hi ≡ xs = above_append less elem xs in
    let (m', q, s', o) =
      list_insert_lem m list lo hi elem (subst (IsList m list) (sym same) s) z
        (subst (λ l. has elem (list.head ∷ behind list l) ≡ false) (sym same) h) in
    (
      m',
      passes (ap not z)
          ∙ ap (λ e. place_from rounds less list elem e m >>= λ x. list_insert x elem m)
              (begins m list xs s)
          ∙ and_then (λ x. list_insert x elem m)
              (place_from_lem rounds less elem m list [] xs s enough)
          ∙ q,
      s',
      same,
      inserted less elem xs asym sorted,
      subst (λ l. Elsewhere m m' (elem ∷ list.head ∷ behind list l)) same o,
    )
