-- ===== src/LinkedList/Insert.antt =====
-- list_insert and the pushes of lib/kernel/list.c.
use mathlib.Core.List.{append-nil}
use tony_henry_niklas.LinkedList.{
  Links, ListEnds, set_prev, set_next, update, is_interior, is_tail, link_in, list_insert,
  list_push_front, list_push_back,
}
use tony_henry_niklas.LinkedList.Chain.{
  has, Distinct, Linked, last_of, behind, IsList, IsNodes, begins, front, behind_append, begin_of,
  rest_of, last_of-append, has-append, has-last_of, differs, split, join, same_at, new_at,
  set_prev-Linked, set_next-Linked, set_last-Linked, Distinct-append, not_before, unequal,
}
use tony_henry_niklas.Common.{
  ℕ, ◌≡◌, sym, ap, ◌∙◌, true, false, ◌||◌, not, List, [], ◌∷◌, ◌++◌, some, arith, ◌==◌, passes,
  passed_over, subst,
}

insert-Distinct :
    (e : ℕ) (us vs : List ℕ)
    → Distinct (us ++ vs)
    → has e (us ++ vs) ≡ false
    → Distinct (us ++ (e ∷ vs))
unfolding has
insert-Distinct e [] vs d h = (h, d)
insert-Distinct e (u ∷ us) vs (n, d) h = (
  ground (arith, has-append u us vs, has-append u us (e ∷ vs), n, h),
  insert-Distinct e us vs d (ground (arith, h)),
)

-- The four writes put `e` between `q` and the node before it.
link_in-Linked :
    (m : Links) (u : ℕ) (us : List ℕ) (e q : ℕ) (vs : List ℕ)
    → Distinct (u ∷ (us ++ (q ∷ vs)))
    → has e (u ∷ (us ++ (q ∷ vs))) ≡ false
    → Linked m u (us ++ (q ∷ vs))
    → Linked (link_in q e m) u (us ++ (e ∷ q ∷ vs))
unfolding has link_in
link_in-Linked m u us e q vs d h l =
    let (a, n, p, r) = split m u us q vs l in
    let (du, dv, apart) = Distinct-append (u ∷ us) (q ∷ vs) d in
    let w : ℕ = last_of u us in
    let at_w = has-last_of u us in
    let he = has-append e us (q ∷ vs) in
    let e_us : has e (u ∷ us) ≡ false = ground (arith, he, h) in
    let e_vs : has e (q ∷ vs) ≡ false = ground (arith, he, h) in
    let q_us : has q (u ∷ us) ≡ false = not_before (u ∷ us) q vs apart in
    let w_vs : has w (q ∷ vs) ≡ false = apart w at_w in
    let e_q : (e == q) ≡ false = ground (arith, e_vs) in
    let e_w : (e == w) ≡ false = unequal w e (differs w e (u ∷ us) at_w e_us) in
    let m1 : Links = set_prev m e (m.prev q) in
    let m2 : Links = set_next m1 e q in
    let m3 : Links = set_next m2 w e in
    let m4 : Links = set_prev m3 q e in
    let prev_q : m2.prev q ≡ w = same_at m.prev e (m.prev q) q (unequal e q e_q) ∙ p in
    let front : Linked m4 u us = set_prev-Linked m3 q e u us (ground (arith, q_us)) (
      set_last-Linked m2 e u us du (
        set_next-Linked m1 e q u us e_us
          (set_prev-Linked m e (m.prev q) u us (ground (arith, e_us)) a))) in
    let back : Linked m4 q vs = set_prev-Linked m3 q e q vs dv.0 (
      set_next-Linked m2 w e q vs w_vs (
        set_next-Linked m1 e q q vs e_vs
          (set_prev-Linked m e (m.prev q) q vs (ground (arith, e_vs)) r))) in
    let to_e : m4.prev e ≡ w = same_at m1.prev q e e e_q ∙ new_at m.prev e (m.prev q) ∙ p in
    let from_e : m4.next e ≡ q = same_at m2.next w e e e_w ∙ new_at m.next e q in
    subst (λ x. Linked x u (us ++ (e ∷ q ∷ vs)))
      (sym (ap (λ x. set_prev (set_next m2 x e) q e) prev_q))
      (join m4 u us e (q ∷ vs) front (new_at m2.next w e) to_e (from_e, new_at m3.prev q e, back))

-- The links of every address that is not among the nodes are as before.
abbrev pub Elsewhere : Links → Links → List ℕ → Type 0
Elsewhere m m' ns = (a : ℕ) → has a ns ≡ false → (m'.prev a ≡ m.prev a) × (m'.next a ≡ m.next a)

prev_elsewhere :
    (m : Links) (e q x : ℕ)
    → (x == e) ≡ false
    → (x == q) ≡ false
    → (link_in q e m).prev x ≡ m.prev x
unfolding link_in
prev_elsewhere m e q x h k = passed_over e k ∙ passed_over (m.prev q) h

next_elsewhere :
    (m : Links) (e q w x : ℕ)
    → m.prev q ≡ w
    → (e == q) ≡ false
    → (x == e) ≡ false
    → (x == w) ≡ false
    → (link_in q e m).next x ≡ m.next x
unfolding link_in
next_elsewhere m e q w x p g h k =
    let prev_q : update m.prev e (m.prev q) q ≡ w =
      same_at m.prev e (m.prev q) q (unequal e q g) ∙ p in
    passed_over e (ap (λ y. x == y) prev_q ∙ k) ∙ passed_over q h

insert-IsNodes :
    (m : Links) (u t : ℕ) (us : List ℕ) (e q : ℕ) (vs : List ℕ)
    → IsNodes m u t (us ++ (q ∷ vs))
    → (e == 0) ≡ false
    → has e (u ∷ (us ++ (q ∷ vs))) ≡ false
    → (list_insert q e m ≡ some (link_in q e m))
      × IsNodes (link_in q e m) u t (us ++ (e ∷ q ∷ vs))
      × Elsewhere m (link_in q e m) (e ∷ u ∷ (us ++ (q ∷ vs)))
unfolding has list_insert is_interior is_tail
insert-IsNodes m u t us e q vs s z h =
    let (du, dv, apart) = Distinct-append (u ∷ us) (q ∷ vs) s.distinct in
    let (a, n, p, r) = split m u us q vs s.linked in
    let w : ℕ = last_of u us in
    let at_w = has-last_of u us in
    let none_at = s.present in
    let z_us = has-append 0 us (q ∷ vs) in
    let w_0 : (w == 0) ≡ false = differs w 0 (u ∷ us) at_w (ground (arith, z_us, none_at)) in
    let q_0 : (q == 0) ≡ false = ground (arith, z_us, none_at) in
    let prev_0 : (m.prev q == 0) ≡ false = ap (λ y. y == 0) p ∙ w_0 in
    let he = has-append e us (q ∷ vs) in
    let e_us : has e (u ∷ us) ≡ false = ground (arith, he, h) in
    let e_vs : has e (q ∷ vs) ≡ false = ground (arith, he, h) in
    let e_q : (e == q) ≡ false = ground (arith, e_vs) in
    let u_vs : has u (q ∷ vs) ≡ false = apart u (ground arith) in
    let t_vs : has t (q ∷ vs) ≡ true =
      subst (λ x. has x (q ∷ vs) ≡ true) (sym (last_of-append u us q vs) ∙ s.ends)
        (has-last_of q vs) in
    (
      passes {c = is_interior m q || is_tail m q} (ground (arith, prev_0, q_0)) ∙ passes (ap not z),
      record {
        linked = link_in-Linked m u us e q vs s.distinct h s.linked;
        distinct = insert-Distinct e (u ∷ us) (q ∷ vs) s.distinct h;
        present = ground (arith, none_at, z_us, has-append 0 us (e ∷ q ∷ vs), z);
        first = prev_elsewhere m e q u (ground (arith, e_us)) (ground (arith, u_vs)) ∙ s.first;
        last =
            next_elsewhere m e q w t p e_q (differs t e (q ∷ vs) t_vs e_vs)
              (differs t w (q ∷ vs) t_vs (apart w at_w))
            ∙ s.last;
        ends = last_of-append u us e (q ∷ vs) ∙ sym (last_of-append u us q vs) ∙ s.ends;
      },
      λ x k.
          let hx = has-append x us (q ∷ vs) in
          let x_e : (x == e) ≡ false = ground (arith, k) in
          let x_q : (x == q) ≡ false = ground (arith, k, hx) in
          let x_us : has x (u ∷ us) ≡ false = ground (arith, k, hx) in
          (
            prev_elsewhere m e q x x_e x_q,
            next_elsewhere m e q w x p e_q x_e (unequal w x (differs w x (u ∷ us) at_w x_us)),
          ),
    )

-- On links that stand for a sequence of elements, list_insert of a new element before any
-- element or the tail fails no assertion and leaves links that stand for the sequence with the
-- element put in there; the links of all other addresses stay.
pub list_insert_lem :
    (m : Links) (list : ListEnds) (xs ys : List ℕ) (elem : ℕ)
    → IsList m list (xs ++ ys)
    → (elem == 0) ≡ false
    → has elem (list.head ∷ behind list (xs ++ ys)) ≡ false
    → (m' : Links) × (list_insert (begin_of list ys) elem m ≡ some m')
      × IsList m' list (xs ++ (elem ∷ ys))
      × Elsewhere m m' (elem ∷ list.head ∷ behind list (xs ++ ys))
list_insert_lem m list xs ys e s z h =
    let q : ℕ = begin_of list ys in
    let same = behind_append list xs ys in
    let (r, s', o) =
      insert-IsNodes m list.head list.tail xs e q (rest_of list ys)
        (subst (IsNodes m list.head list.tail) same s) z
        (subst (λ l. has e (list.head ∷ l) ≡ false) same h) in
    (
      link_in q e m,
      r,
      subst (IsNodes (link_in q e m) list.head list.tail)
          (ap (λ l. xs ++ (e ∷ l)) (front list ys) ∙ sym (behind_append list xs (e ∷ ys))) s',
      subst (λ l. Elsewhere m (link_in q e m) (e ∷ list.head ∷ l)) (sym same) o,
    )

-- The pushes, at either end of the list.
pub list_push_lem :
    (m : Links) (list : ListEnds) (xs : List ℕ) (elem : ℕ)
    → IsList m list xs
    → (elem == 0) ≡ false
    → has elem (list.head ∷ behind list xs) ≡ false
    → ((m' : Links) × (list_push_front list elem m ≡ some m')
        × IsList m' list (elem ∷ xs)
        × Elsewhere m m' (elem ∷ list.head ∷ behind list xs))
      × ((m' : Links) × (list_push_back list elem m ≡ some m')
          × IsList m' list (xs ++ (elem ∷ []))
          × Elsewhere m m' (elem ∷ list.head ∷ behind list xs))
unfolding list_push_front list_push_back
list_push_lem m list xs e s z h =
    let all : xs ++ [] ≡ xs = append-nil xs in
    let (m1, q1, s1, o1) = list_insert_lem m list [] xs e s z h in
    let (m2, q2, s2, o2) =
      list_insert_lem m list xs [] e (subst (IsList m list) (sym all) s) z
        (subst (λ l. has e (list.head ∷ behind list l) ≡ false) (sym all) h) in
    (
      (m1, ap (λ q. list_insert q e m) (begins m list xs s) ∙ q1, s1, o1),
      (m2, q2, s2, subst (λ l. Elsewhere m m2 (e ∷ list.head ∷ behind list l)) all o2),
    )
