-- ===== src/LinkedList.antt =====
-- Doubly linked lists, lib/kernel/list.c of OS-lab2-master/pintos/src, on the links of all elements by
-- their addresses, with 0 for the null pointer. A failed assertion and a loop that does not end within
-- the rounds it is given are `none`. `less` is the comparison with `aux` applied.
pub mod Chain
pub mod Insert
pub mod Remove
pub mod Walk
pub mod Ordered
pub mod Order
use tony_henry_niklas.Common.{
  ℕ, zero, suc, ◌+◌, ◌-◌, ◌*◌, ◌/◌, ◌%◌, ◌^◌, ◌≤◌, ◌<◌, ◌≡◌, refl, sym, ap, ◌∙◌, ◌≢◌, ◌↔◌, ◌⊎◌, inl,
  inr, Bool, true, false, ◌&&◌, ◌||◌, not, List, [], ◌∷◌, ◌++◌, map, Option, none, some, arith, ltb,
  leb, ◌==◌, check, passes, chosen, passed_over, and_then, if◌then◌else◌, length, get_elem?, set,
  ◌>>=◌, Bool-cases, Option-cases, subst, fun_ext, ltb→lt, leb→le, lt→ltb, ==_iff, take, drop,
  replicate, length-set, get_elem?-set_self, get_elem?-set_ne, length-append, get_or,
}

-- The fields of all `struct list_elem`.
pub record Links : Type 0 where
  pub prev : ℕ → ℕ
  pub next : ℕ → ℕ

-- The addresses of the two elements of a `struct list`.
pub record ListEnds : Type 0 where
  pub head : ℕ
  pub tail : ℕ

abbrev pub update : (ℕ → ℕ) → ℕ → ℕ → ℕ → ℕ
update f a v x = if x == a then v else f x

abbrev pub set_prev : Links → ℕ → ℕ → Links
set_prev m a v = record { prev = update m.prev a v; next = m.next }

abbrev pub set_next : Links → ℕ → ℕ → Links
set_next m a v = record { prev = m.prev; next = update m.next a v }

abbrev pub present : ℕ → Bool
present a = not (a == 0)

unfoldable pub is_head : Links → ℕ → Bool
is_head m elem = present elem && (m.prev elem == 0 && present (m.next elem))

unfoldable pub is_interior : Links → ℕ → Bool
is_interior m elem = present elem && (present (m.prev elem) && present (m.next elem))

unfoldable pub is_tail : Links → ℕ → Bool
is_tail m elem = present elem && (present (m.prev elem) && m.next elem == 0)

unfoldable pub list_init : ListEnds → Links → Links
list_init list m =
    let m1 : Links = set_prev m list.head 0 in
    let m2 : Links = set_next m1 list.head list.tail in
    let m3 : Links = set_prev m2 list.tail list.head in set_next m3 list.tail 0

abbrev pub list_begin : ListEnds → Links → ℕ
list_begin list m = m.next list.head

abbrev pub list_rbegin : ListEnds → Links → ℕ
list_rbegin list m = m.prev list.tail

unfoldable pub list_next : ℕ → Links → Option ℕ
list_next elem m = check (is_head m elem || is_interior m elem) (some (m.next elem))

unfoldable pub list_prev : ℕ → Links → Option ℕ
list_prev elem m = check (is_interior m elem || is_tail m elem) (some (m.prev elem))

-- The four writes of `list_insert`.
unfoldable pub link_in : ℕ → ℕ → Links → Links
link_in before elem m =
    let m1 : Links = set_prev m elem (m.prev before) in
    let m2 : Links = set_next m1 elem before in
    let m3 : Links = set_next m2 (m2.prev before) elem in set_prev m3 before elem

unfoldable pub list_insert : ℕ → ℕ → Links → Option Links
list_insert before elem m =
    check (is_interior m before || is_tail m before)
      (check (present elem) (some (link_in before elem m)))

-- The six writes of `list_splice`, on the inclusive last element.
unfoldable pub move_before : ℕ → ℕ → ℕ → Links → Links
move_before before first last m =
    let m1 : Links = set_next m (m.prev first) (m.next last) in
    let m2 : Links = set_prev m1 (m1.next last) (m1.prev first) in
    let m3 : Links = set_prev m2 first (m2.prev before) in
    let m4 : Links = set_next m3 last before in
    let m5 : Links = set_next m4 (m4.prev before) first in set_prev m5 before last

unfoldable pub list_splice : ℕ → ℕ → ℕ → Links → Option Links
list_splice before first last m = check (is_interior m before || is_tail m before) (
    if first == last
    then some m
    else (list_prev last m >>= λ last'.
        check (is_interior m first)
          (check (is_interior m last') (some (move_before before first last' m)))))

unfoldable pub list_push_front : ListEnds → ℕ → Links → Option Links
list_push_front list elem m = list_insert (list_begin list m) elem m

unfoldable pub list_push_back : ListEnds → ℕ → Links → Option Links
list_push_back list elem m = list_insert list.tail elem m

-- The two writes of `list_remove`.
unfoldable pub link_out : ℕ → Links → Links
link_out elem m =
    let m1 : Links = set_next m (m.prev elem) (m.next elem) in
    set_prev m1 (m1.next elem) (m1.prev elem)

-- The pair is the element that followed and the links.
unfoldable pub list_remove : ℕ → Links → Option (ℕ × Links)
list_remove elem m =
    check (is_interior m elem) (let m' : Links = link_out elem m in some (m'.next elem, m'))

abbrev pub list_empty : ListEnds → Links → Bool
list_empty list m = list_begin list m == list.tail

unfoldable pub list_front : ListEnds → Links → Option ℕ
list_front list m = check (not (list_empty list m)) (some (m.next list.head))

unfoldable pub list_back : ListEnds → Links → Option ℕ
list_back list m = check (not (list_empty list m)) (some (m.prev list.tail))

unfoldable pub list_pop_front : ListEnds → Links → Option (ℕ × Links)
list_pop_front list m =
    list_front list m >>= λ front. list_remove front m >>= λ r. some (front, r.1)

unfoldable pub list_pop_back : ListEnds → Links → Option (ℕ × Links)
list_pop_back list m = list_back list m >>= λ back. list_remove back m >>= λ r. some (back, r.1)

-- `for (e = ...; e != list_end (list); e = list_next (e)) cnt++;`
unfoldable pub size_from : ℕ → ListEnds → ℕ → ℕ → Links → Option ℕ
size_from zero list e cnt m = if e == list.tail then some cnt else none
size_from (suc rounds) list e cnt m =
    if e == list.tail
    then some cnt
    else (list_next e m >>= λ e'. size_from rounds list e' (cnt + 1) m)

-- A size_t of 32 bits does not overflow: there are fewer addresses.
unfoldable pub list_size : ℕ → ListEnds → Links → Option ℕ
list_size rounds list m = size_from rounds list (list_begin list m) 0 m

abbrev pub swap_links : ℕ → Links → Links
swap_links e m = set_next (set_prev m e (m.next e)) e (m.prev e)

unfoldable pub reverse_from : ℕ → ListEnds → ℕ → Links → Option Links
reverse_from zero list e m = if e == list.tail then some m else none
reverse_from (suc rounds) list e m =
    let m' : Links = swap_links e m in
    if e == list.tail then some m else reverse_from rounds list (m'.prev e) m'

-- The last two exchanges of `list_reverse`.
unfoldable pub swap_ends : ListEnds → Links → Links
swap_ends list m =
    let first : ℕ = m.prev list.tail in
    let last : ℕ = m.next list.head in
    let m1 : Links = set_prev (set_next m list.head first) list.tail last in
    set_next (set_prev m1 first (m1.next last)) last (m1.prev first)

unfoldable pub list_reverse : ℕ → ListEnds → Links → Option Links
list_reverse rounds list m =
    if list_empty list m
    then some m
    else (reverse_from rounds list (list_begin list m) m >>= λ m'. some (swap_ends list m'))
