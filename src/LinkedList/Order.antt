-- ===== src/LinkedList/Order.antt =====
-- The functions of lib/kernel/list.c that compare elements. `less` is the comparison with `aux` applied;
-- a loop takes the rounds that it may go, and is `none` where they do not do.
use tony_henry_niklas.LinkedList.{
  Links, ListEnds, present, list_begin, list_empty, list_next, list_prev, list_insert, list_splice,
  list_remove, list_push_back,
}
use tony_henry_niklas.Common.{
  ℕ, zero, suc, ◌+◌, Bool, true, false, ◌&&◌, ◌||◌, not, Option, none, some, ltb, ◌==◌, check,
  if◌then◌else◌, ◌>>=◌,
}

-- `while ((a = list_next (a)) != b)`
unfoldable pub is_sorted_from : ℕ → (ℕ → ℕ → Bool) → ℕ → ℕ → Links → Option Bool
is_sorted_from zero less a b m = none
is_sorted_from (suc rounds) less a b m = list_next a m >>= λ a'.
    if a' == b
    then some true
    else (list_prev a' m >>= λ p.
        let rest : Option Bool = is_sorted_from rounds less a' b m in
        if less a' p then some false else rest)

unfoldable pub is_sorted : ℕ → (ℕ → ℕ → Bool) → ℕ → ℕ → Links → Option Bool
is_sorted rounds less a b m = if a == b then some true else is_sorted_from rounds less a b m

-- The do-while loop of `find_end_of_run`.
unfoldable pub run_from : ℕ → (ℕ → ℕ → Bool) → ℕ → ℕ → Links → Option ℕ
run_from zero less a b m = none
run_from (suc rounds) less a b m = list_next a m >>= λ a'.
    if a' == b
    then some a'
    else (list_prev a' m >>= λ p.
        let rest : Option ℕ = run_from rounds less a' b m in if less a' p then some a' else rest)

unfoldable pub find_end_of_run : ℕ → (ℕ → ℕ → Bool) → ℕ → ℕ → Links → Option ℕ
find_end_of_run rounds less a b m =
    check (present a) (check (present b) (check (not (a == b)) (run_from rounds less a b m)))

unfoldable pub merge_from : ℕ → (ℕ → ℕ → Bool) → ℕ → ℕ → ℕ → Links → Option Links
merge_from zero less a0 a1b0 b1 m = if a0 == a1b0 || a1b0 == b1 then some m else none
merge_from (suc rounds) less a0 a1b0 b1 m =
    if a0 == a1b0 || a1b0 == b1
    then some m
    else if not (less a1b0 a0)
    then (list_next a0 m >>= λ a0'. merge_from rounds less a0' a1b0 b1 m)
    else (list_next a1b0 m >>= λ n. list_prev n m >>= λ first.
        list_splice a0 first n m >>= λ m'. merge_from rounds less a0 n b1 m')

unfoldable pub inplace_merge : ℕ → (ℕ → ℕ → Bool) → ℕ → ℕ → ℕ → Links → Option Links
inplace_merge rounds less a0 a1b0 b1 m = check (present a0) (
    check (present a1b0) (
      check (present b1) (
        is_sorted rounds less a0 a1b0 m >>= λ left. check left (
          is_sorted rounds less a1b0 b1 m >>= λ right.
          check right (merge_from rounds less a0 a1b0 b1 m)))))

-- One pass from `a0` on. The pair is `output_run_cnt` and the links; `limit` bounds the inner loops.
unfoldable pub sort_pass : ℕ → ℕ → (ℕ → ℕ → Bool) → ListEnds → ℕ → ℕ → Links → Option (ℕ × Links)
sort_pass zero limit less list a0 runs m = if a0 == list.tail then some (runs, m) else none
sort_pass (suc rounds) limit less list a0 runs m =
    if a0 == list.tail
    then some (runs, m)
    else (find_end_of_run limit less a0 list.tail m >>= λ a1b0.
        if a1b0 == list.tail
        then some (runs + 1, m)
        else (find_end_of_run limit less a1b0 list.tail m >>= λ b1.
            inplace_merge limit less a0 a1b0 b1 m >>= λ m'.
            sort_pass rounds limit less list b1 (runs + 1) m'))

-- `do ... while (output_run_cnt > 1);`
unfoldable pub sort_passes : ℕ → ℕ → (ℕ → ℕ → Bool) → ListEnds → Links → Option Links
sort_passes zero limit less list m = none
sort_passes (suc rounds) limit less list m =
    sort_pass limit limit less list (list_begin list m) 0 m >>= λ r.
    if ltb 1 r.0 then sort_passes rounds limit less list r.1 else some r.1

unfoldable pub list_sort : ℕ → (ℕ → ℕ → Bool) → ListEnds → Links → Option Links
list_sort rounds less list m = sort_passes rounds rounds less list m >>= λ m'.
    is_sorted rounds less (list_begin list m') list.tail m' >>= λ sorted. check sorted (some m')

-- The loop of `list_insert_ordered`.
unfoldable pub place_from : ℕ → (ℕ → ℕ → Bool) → ListEnds → ℕ → ℕ → Links → Option ℕ
place_from zero less list elem e m = if e == list.tail then some e else none
place_from (suc rounds) less list elem e m =
    if e == list.tail
    then some e
    else if less elem e
    then some e
    else (list_next e m >>= λ e'. place_from rounds less list elem e' m)

unfoldable pub list_insert_ordered : ℕ → (ℕ → ℕ → Bool) → ListEnds → ℕ → Links → Option Links
list_insert_ordered rounds less list elem m =
    check (present elem)
      (place_from rounds less list elem (list_begin list m) m >>= λ e. list_insert e elem m)

abbrev pub add_duplicate : Option ListEnds → ℕ → Links → Option Links
add_duplicate none elem m = some m
add_duplicate (some list) elem m = list_push_back list elem m

unfoldable pub unique_from :
    ℕ → (ℕ → ℕ → Bool) → ListEnds → Option ListEnds → ℕ → Links → Option Links
unique_from zero less list duplicates elem m = none
unique_from (suc rounds) less list duplicates elem m = list_next elem m >>= λ next.
    if next == list.tail
    then some m
    else if not (less elem next) && not (less next elem)
    then (list_remove next m >>= λ r.
        add_duplicate duplicates next r.1 >>= λ m'. unique_from rounds less list duplicates elem m')
    else unique_from rounds less list duplicates next m

unfoldable pub list_unique : ℕ → (ℕ → ℕ → Bool) → ListEnds → Option ListEnds → Links → Option Links
list_unique rounds less list duplicates m =
    if list_empty list m
    then some m
    else unique_from rounds less list duplicates (list_begin list m) m

unfoldable pub max_from : ℕ → (ℕ → ℕ → Bool) → ListEnds → ℕ → ℕ → Links → Option ℕ
max_from zero less list max e m = if e == list.tail then some max else none
max_from (suc rounds) less list max e m =
    if e == list.tail
    then some max
    else (list_next e m >>= λ e'. max_from rounds less list (if less max e then e else max) e' m)

unfoldable pub list_max : ℕ → (ℕ → ℕ → Bool) → ListEnds → Links → Option ℕ
list_max rounds less list m =
    let max : ℕ = list_begin list m in
    if max == list.tail
    then some max
    else (list_next max m >>= λ e. max_from rounds less list max e m)

unfoldable pub min_from : ℕ → (ℕ → ℕ → Bool) → ListEnds → ℕ → ℕ → Links → Option ℕ
min_from zero less list min e m = if e == list.tail then some min else none
min_from (suc rounds) less list min e m =
    if e == list.tail
    then some min
    else (list_next e m >>= λ e'. min_from rounds less list (if less e min then e else min) e' m)

unfoldable pub list_min : ℕ → (ℕ → ℕ → Bool) → ListEnds → Links → Option ℕ
list_min rounds less list m =
    let min : ℕ = list_begin list m in
    if min == list.tail
    then some min
    else (list_next min m >>= λ e. min_from rounds less list min e m)
