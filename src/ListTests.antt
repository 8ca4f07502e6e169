-- ===== src/ListTests.antt =====
-- Runs of the code of lib/kernel/list.c on a list of three elements.
use tony_henry_niklas.LinkedList.{
  Links, ListEnds, is_head, is_interior, is_tail, list_next, list_prev, list_insert, list_splice,
  move_before, list_remove, link_out, list_reverse, reverse_from, swap_ends,
}
use tony_henry_niklas.LinkedList.Order.{
  is_sorted, is_sorted_from, find_end_of_run, run_from, inplace_merge, merge_from, list_sort,
  sort_passes, sort_pass, list_insert_ordered, list_unique, unique_from, list_max, max_from,
  list_min, min_from,
}
use tony_henry_niklas.LinkedList.Chain.{has, IsList}
use tony_henry_niklas.LinkedList.Insert.{Elsewhere, list_insert_lem}
use tony_henry_niklas.LinkedList.Remove.{list_remove_lem}
use tony_henry_niklas.LinkedList.Ordered.{IsSorted, list_insert_ordered_lem}
use tony_henry_niklas.Common.{
  ℕ, zero, suc, ◌/◌, ◌≡◌, refl, Bool, true, false, List, [], ◌∷◌, Option, none, some, arith, ltb,
  ◌==◌, if◌then◌else◌,
}

abbrev ends : ListEnds
ends = record { head = 1; tail = 2 }

-- The elements 5, 3 and 7, in this order; 9 is in no list.
abbrev after : ℕ → ℕ
after a = if a == 1 then 5 else if a == 5 then 3 else if a == 3 then 7 else if a == 7 then 2 else 0

abbrev ahead : ℕ → ℕ
ahead a = if a == 5 then 1 else if a == 3 then 5 else if a == 7 then 3 else if a == 2 then 7 else 0

abbrev links : Links
links = record { prev = ahead; next = after }

links-IsList : IsList links ends (5 ∷ 3 ∷ 7 ∷ [])
unfolding has
links-IsList = record {
  linked = (refl, refl, (refl, refl, (refl, refl, (refl, refl, tt))));
  distinct = (refl, (refl, (refl, (refl, (refl, tt)))));
  present = refl;
  first = refl;
  last = refl;
  ends = refl;
}

list_insert_lem_example :
    (m : Links) × (list_insert 3 9 links ≡ some m)
    × IsList m ends (5 ∷ 9 ∷ 3 ∷ 7 ∷ [])
    × Elsewhere links m (9 ∷ 1 ∷ 5 ∷ 3 ∷ 7 ∷ 2 ∷ [])
unfolding has
list_insert_lem_example = list_insert_lem links ends (5 ∷ []) (3 ∷ 7 ∷ []) 9 links-IsList refl refl

list_remove_lem_example :
    (m : Links) × (list_remove 3 links ≡ some (7, m))
    × IsList m ends (5 ∷ 7 ∷ [])
    × Elsewhere links m (1 ∷ 5 ∷ 7 ∷ 2 ∷ [])
list_remove_lem_example = list_remove_lem links ends (5 ∷ []) 3 (7 ∷ []) links-IsList

-- Greater addresses first.
abbrev descending : ℕ → ℕ → Bool
descending a b = ltb b a

descending_once : (a b : ℕ) → descending a b ≡ true → descending b a ≡ false
descending_once a b h = ground arith

-- The elements 5 and 3 only.
abbrev pair : Links
pair = record {
  prev = λ a. if a == 5 then 1 else if a == 3 then 5 else if a == 2 then 3 else 0;
  next = λ a. if a == 1 then 5 else if a == 5 then 3 else if a == 3 then 2 else 0;
}

pair-IsList : IsList pair ends (5 ∷ 3 ∷ [])
unfolding has
pair-IsList = record {
  linked = (refl, refl, (refl, refl, (refl, refl, tt)));
  distinct = (refl, (refl, (refl, (refl, tt))));
  present = refl;
  first = refl;
  last = refl;
  ends = refl;
}

list_insert_ordered_lem_example :
    (m : Links) × (list_insert_ordered 2 descending ends 4 pair ≡ some m)
    × IsList m ends (5 ∷ 4 ∷ 3 ∷ [])
    × (◌≡◌ {A = List ℕ} (5 ∷ 3 ∷ []) (5 ∷ 3 ∷ []))
    × IsSorted descending (5 ∷ 4 ∷ 3 ∷ [])
    × Elsewhere pair m (4 ∷ 1 ∷ 5 ∷ 3 ∷ 2 ∷ [])
unfolding has
list_insert_ordered_lem_example =
    list_insert_ordered_lem 2 descending 4 pair ends (5 ∷ 3 ∷ []) pair-IsList refl refl
      (omega arith) descending_once (refl, tt)

-- What the links lead to from the head on.
abbrev walk : ℕ → ℕ → Links → List ℕ
walk zero a m = []
walk (suc n) a m = m.next a ∷ walk n (m.next a) m

abbrev seen : Option Links → List ℕ
seen none = []
seen (some m) = walk 4 1 m

sorted_run : seen (list_sort 8 ltb ends links) ≡ 3 ∷ 5 ∷ 7 ∷ 2 ∷ []
unfolding list_sort sort_passes sort_pass find_end_of_run run_from inplace_merge merge_from
    is_sorted is_sorted_from list_next list_prev list_splice move_before is_head is_interior is_tail
sorted_run = refl

reversed_run : seen (list_reverse 4 ends links) ≡ 7 ∷ 3 ∷ 5 ∷ 2 ∷ []
unfolding list_reverse reverse_from swap_ends
reversed_run = refl

greatest_run : list_max 4 ltb ends links ≡ some 7
unfolding list_max max_from list_next is_head is_interior
greatest_run = refl

least_run : list_min 4 ltb ends links ≡ some 3
unfolding list_min min_from list_next is_head is_interior
least_run = refl

-- With a comparison by which 5 and 3 are equal.
unique_run : seen (list_unique 4 (λ a b. ltb (a / 6) (b / 6)) ends none links) ≡ 5 ∷ 7 ∷ 2 ∷ 0 ∷ []
unfolding list_unique unique_from list_next list_remove link_out is_head is_interior
unique_run = refl
