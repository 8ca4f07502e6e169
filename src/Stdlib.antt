-- ===== src/Stdlib.antt =====
-- Sorting and searching, lib/stdlib.c of OS-lab2-master/pintos/src. The SIZE bytes of an element are one
-- value, and `compare` tells the sign of the source's int, AUX applied. Indexes are 1-based as in the
-- source; an access outside the array is `none`.
pub mod Swap
pub mod Float
pub mod Heapify
pub mod Sort
pub mod Search
use Prim.Native.Nat.{Ordering}
use tony_henry_niklas.Common.{
  ℕ, zero, suc, ◌+◌, ◌-◌, ◌*◌, ◌/◌, ◌%◌, ◌^◌, ◌≤◌, ◌<◌, ◌≡◌, refl, sym, ap, ◌∙◌, ◌≢◌, ◌↔◌, ◌⊎◌, inl,
  inr, Bool, true, false, ◌&&◌, ◌||◌, not, List, [], ◌∷◌, ◌++◌, map, Option, none, some, arith, ltb,
  leb, ◌==◌, check, passes, chosen, passed_over, and_then, if◌then◌else◌, length, get_elem?, set,
  ◌>>=◌, Bool-cases, Option-cases, subst, fun_ext, ltb→lt, leb→le, lt→ltb, ==_iff, take, drop,
  replicate, length-set, get_elem?-set_self, get_elem?-set_ne, length-append, get_or,
}

-- An array of `limit` elements.
pub record Items : Type 0 where
  pub limit : ℕ
  pub at : ℕ → ℕ

abbrev pub Compare : Type 0
Compare = ℕ → ℕ → Ordering

-- `> 0`
abbrev pub is_greater : Ordering → Bool
is_greater Ordering.gt = true
is_greater Ordering.lt = false
is_greater Ordering.eq = false

abbrev pub inside : Items → ℕ → Bool
inside a i = leb 1 i && leb i a.limit

abbrev pub exchanged : (ℕ → ℕ) → ℕ → ℕ → ℕ → ℕ
exchanged f i j x = if x == j then f i else if x == i then f j else f x

unfoldable pub do_swap : Items → ℕ → ℕ → Option Items
do_swap a a_idx b_idx =
    check (inside a a_idx && inside a b_idx)
      (some (record { limit = a.limit; at = exchanged a.at a_idx b_idx }))

unfoldable pub do_compare : Compare → Items → ℕ → ℕ → Option Ordering
do_compare compare a a_idx b_idx =
    check (inside a a_idx && inside a b_idx) (some (compare (a.at a_idx) (a.at b_idx)))

-- `if (child <= cnt && do_compare (array, child, max, ...) > 0) max = child;`
unfoldable pub larger : Compare → Items → ℕ → ℕ → ℕ → Option ℕ
larger compare a cnt child max =
    if leb child cnt
    then (do_compare compare a child max >>= λ c. some (if is_greater c then child else max))
    else some max

-- `for (;;)`, with the rounds left.
unfoldable pub heapify : ℕ → Compare → ℕ → ℕ → Items → Option Items
heapify zero compare i cnt a = none
heapify (suc rounds) compare i cnt a = larger compare a cnt (2 * i % 2 ^ 32) i >>= λ first.
    larger compare a cnt ((2 * i + 1) % 2 ^ 32) first >>= λ max.
    if max == i then some a else (do_swap a i max >>= λ a'. heapify rounds compare max cnt a')

-- `for (i = cnt / 2; i > 0; i--)`, from `i` on.
unfoldable pub build_from : Compare → ℕ → ℕ → Items → Option Items
build_from compare cnt zero a = some a
build_from compare cnt (suc i) a =
    heapify (cnt + 1) compare (suc i) cnt a >>= λ a'. build_from compare cnt i a'

-- `for (i = cnt; i > 1; i--)`, from `i` on.
unfoldable pub sort_from : Compare → ℕ → Items → Option Items
sort_from compare zero a = some a
sort_from compare (suc zero) a = some a
sort_from compare (suc (suc i)) a = do_swap a 1 (suc (suc i)) >>= λ a'.
    heapify (suc (suc i)) compare 1 (suc i) a' >>= λ a''. sort_from compare (suc i) a''

unfoldable pub sort : Compare → ℕ → Items → Option Items
sort compare cnt a = build_from compare cnt (cnt / 2) a >>= λ a'. sort_from compare cnt a'

-- `qsort` passes `compare` through `compare_thunk`.
abbrev pub qsort : Compare → ℕ → Items → Option Items
qsort compare cnt a = sort compare cnt a

-- `while (first < last)`, the pointers by the elements before them, with the rounds left. The result
-- is the number of elements before the match, or `none` inside for a null pointer.
unfoldable pub search_from : ℕ → Compare → ℕ → ℕ → ℕ → Items → Option (Option ℕ)
search_from zero compare key first last a = if ltb first last then none else some none
search_from (suc rounds) compare key first last a =
    let middle : ℕ = first + (last - first) / 2 in
    let below : Option (Option ℕ) = search_from rounds compare key first middle a in
    let above : Option (Option ℕ) = search_from rounds compare key (middle + 1) last a in
    if ltb first last
    then check (inside a (middle + 1)) (elim (compare key (a.at (middle + 1))) [
      | Ordering.lt ↦ below
      | Ordering.gt ↦ above
      | Ordering.eq ↦ some (some middle)
    ])
    else some none

unfoldable pub binary_search : Compare → ℕ → ℕ → Items → Option (Option ℕ)
binary_search compare key cnt a = search_from cnt compare key 0 cnt a

abbrev pub bsearch : Compare → ℕ → ℕ → Items → Option (Option ℕ)
bsearch compare key cnt a = binary_search compare key cnt a
