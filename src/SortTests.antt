-- ===== src/SortTests.antt =====
-- Runs of the code of lib/stdlib.c on an array of five numbers.
use Prim.Native.Nat.{compare}
use tony_henry_niklas.Stdlib.{Items, Compare, sort, binary_search, search_from}
use tony_henry_niklas.Stdlib.Swap.{IsArranged}
use tony_henry_niklas.Stdlib.Float.{IsOrder}
use tony_henry_niklas.Stdlib.Sort.{InOrder, sort_lem}
use tony_henry_niklas.Stdlib.Search.{IsMirrored, Matches, binary_search_lem}
use tony_henry_niklas.Common.{ℕ, ◌*◌, ◌≡◌, refl, Option, none, some, arith, ◌==◌, if◌then◌else◌}

abbrev by_value : Compare
by_value x y = compare x y

by_value-IsOrder : IsOrder by_value
by_value-IsOrder = record {
  asym = λ x y e. ground (arith, e);
  trans = λ x y z e d. ground (arith, e, d);
}

by_value-IsMirrored : IsMirrored by_value
by_value-IsMirrored x y = (λ e. ground (arith, e), λ e. ground (arith, e))

-- 30, 10, 50, 20, 40
abbrev numbers : Items
numbers = record {
  limit = 5;
  at = λ i.
      if i == 1
      then 30
      else if i == 2
      then 10
      else if i == 3
      then 50
      else if i == 4
      then 20
      else 40;
}

sort_lem_example :
    (f : ℕ → ℕ) × (sort by_value 5 numbers ≡ some (record { limit = 5; at = f }))
    × InOrder by_value 1 5 f
    × IsArranged 5 numbers.at f
sort_lem_example = sort_lem by_value 5 numbers by_value-IsOrder (omega arith) (omega arith)

-- 10, 20, ..., 50
abbrev tens : Items
tens = record { limit = 5; at = λ i. i * 10 }

tens-InOrder : InOrder by_value 1 5 tens.at
tens-InOrder q low end = ground arith

binary_search_lem_example :
    (r : Option ℕ) × (binary_search by_value 40 5 tens ≡ some r) × Matches by_value 40 5 tens.at r
binary_search_lem_example =
    binary_search_lem by_value 40 5 tens by_value-IsOrder by_value-IsMirrored tens-InOrder
      (omega arith)

found_run : binary_search by_value 40 5 tens ≡ some (some 3)
unfolding binary_search search_from
found_run = refl

missing_run : binary_search by_value 45 5 tens ≡ some none
unfolding binary_search search_from
missing_run = refl
