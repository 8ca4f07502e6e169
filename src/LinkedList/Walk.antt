-- ===== src/LinkedList/Walk.antt =====
-- Walking along a list of lib/kernel/list.c: list_next, list_size.
use mathlib.Core.List.{append_assoc}
use tony_henry_niklas.LinkedList.{
  Links, ListEnds, is_head, is_interior, list_next, size_from, list_size,
}
use tony_henry_niklas.LinkedList.Chain.{
  has, last_of, behind, IsList, IsNodes, begins, front, behind_append, begin_of, rest_of,
  has-append, has-last_of, differs, split, Distinct-append, unequal,
}
use tony_henry_niklas.Common.{
  ℕ, zero, suc, ◌+◌, ◌≤◌, ◌≡◌, sym, ap, ◌∙◌, true, false, ◌||◌, List, [], ◌∷◌, ◌++◌, none, some,
  arith, ◌==◌, passes, chosen, passed_over, and_then, length, subst,
}

-- list_next of an element goes to what stands behind it, and an element is not the tail.
pub next_lem :
    (m : Links) (list : ListEnds) (xs : List ℕ) (y : ℕ) (ys : List ℕ)
    → IsList m list (xs ++ (y ∷ ys))
    → (list_next y m ≡ some (begin_of list ys)) × ((y == list.tail) ≡ false)
unfolding has list_next is_interior
next_lem m list xs y ys s =
    let h : ℕ = list.head in
    let q : ℕ = begin_of list ys in
    let whole : behind list (xs ++ (y ∷ ys)) ≡ xs ++ (y ∷ q ∷ rest_of list ys) =
      behind_append list xs (y ∷ ys) ∙ ap (λ l. xs ++ (y ∷ l)) (sym (front list ys)) in
    let s' : IsNodes m h list.tail (xs ++ (y ∷ q ∷ rest_of list ys)) =
      subst (IsNodes m h list.tail) whole s in
    let (a, n, p, (n', p', r)) = split m h xs y (q ∷ rest_of list ys) s'.linked in
    let (du, dv, apart) = Distinct-append (h ∷ xs) (y ∷ q ∷ rest_of list ys) s'.distinct in
    let zero_at = s'.present in
    let z = has-append 0 xs (y ∷ q ∷ rest_of list ys) in
    let w_0 : (last_of h xs == 0) ≡ false =
      differs (last_of h xs) 0 (h ∷ xs) (has-last_of h xs) (ground (arith, z, zero_at)) in
    let y_0 : (y == 0) ≡ false = ground (arith, z, zero_at) in
    let q_0 : (q == 0) ≡ false = ground (arith, z, zero_at) in
    let prev_0 : (m.prev y == 0) ≡ false = ap (λ x. x == 0) p ∙ w_0 in
    let next_0 : (m.next y == 0) ≡ false = ap (λ x. x == 0) n' ∙ q_0 in
    let t_in : has list.tail (q ∷ rest_of list ys) ≡ true =
      subst (λ l. has list.tail l ≡ true) (sym (front list ys))
        (ground (arith, has-append list.tail ys (list.tail ∷ []))) in
    (
      passes {c = is_head m y || is_interior m y} (ground (arith, prev_0, next_0, y_0))
          ∙ ap some n',
      unequal list.tail y (differs list.tail y (q ∷ rest_of list ys) t_in dv.0),
    )

pub at_end : (t : ℕ) → (t == t) ≡ true
at_end t = ground arith

-- The list with its elements up to the walk in front.
pub move :
    (m : Links) (list : ListEnds) (xs : List ℕ) (y : ℕ) (ys : List ℕ)
    → IsList m list (xs ++ (y ∷ ys))
    → IsList m list ((xs ++ (y ∷ [])) ++ ys)
move m list xs y ys s = subst (IsList m list) (sym (append_assoc xs (y ∷ []) ys)) s

size_from_lem :
    (rounds cnt : ℕ) (m : Links) (list : ListEnds) (xs ys : List ℕ)
    → IsList m list (xs ++ ys)
    → length ys ≤ rounds
    → size_from rounds list (begin_of list ys) cnt m ≡ some (cnt + length ys)
unfolding size_from
size_from_lem zero cnt m list xs [] s h = chosen none (at_end list.tail) ∙ ap some (omega arith)
size_from_lem zero cnt m list xs (y ∷ ys) s h = absurd (omega arith)
size_from_lem (suc rounds) cnt m list xs [] s h =
    chosen _ (at_end list.tail) ∙ ap some (omega arith)
size_from_lem (suc rounds) cnt m list xs (y ∷ ys) s h =
    let (e, other) = next_lem m list xs y ys s in
    passed_over (some cnt) other
    ∙ and_then (λ x. size_from rounds list x (cnt + 1) m) e
    ∙ size_from_lem rounds (cnt + 1) m list (xs ++ (y ∷ [])) ys (move m list xs y ys s)
        (omega arith)
    ∙ ap some (omega arith)

-- list_size counts the elements.
pub list_size_lem :
    (rounds : ℕ) (m : Links) (list : ListEnds) (xs : List ℕ)
    → IsList m list xs
    → length xs ≤ rounds
    → list_size rounds list m ≡ some (length xs)
unfolding list_size
list_size_lem rounds m list xs s h =
    ap (λ e. size_from rounds list e 0 m) (begins m list xs s)
    ∙ size_from_lem rounds 0 m list [] xs s h
    ∙ ap some (omega arith)
