-- ===== src/LinkedList/Remove.antt =====
-- list_remove and the pops of lib/kernel/list.c.
use mathlib.Core.List.{append-nil}
use tony_henry_niklas.LinkedList.{
  Links, ListEnds, set_prev, set_next, update, is_interior, link_out, list_remove, list_front,
  list_back, list_pop_front, list_pop_back, list_empty,
}
use tony_henry_niklas.LinkedList.Chain.{
  has, Distinct, Linked, last_of, behind, IsList, IsNodes, begins, front, behind_append, begin_of,
  rest_of, last_of-append, has-append, has-last_of, differs, split, join, same_at, new_at,
  set_prev-Linked, set_next-Linked, set_last-Linked, Distinct-append, not_before, unequal,
}
use tony_henry_niklas.LinkedList.Insert.{Elsewhere}
use tony_henry_niklas.Common.{
  ℕ, ◌≡◌, sym, ap, ◌∙◌, true, false, not, List, [], ◌∷◌, ◌++◌, Option, some, arith, ◌==◌, passes,
  and_then, ◌>>=◌, subst,
}

remove-Distinct : (e : ℕ) (us vs : List ℕ) → Distinct (us ++ (e ∷ vs)) → Distinct (us ++ vs)
unfolding has
remove-Distinct e [] vs d = d.1
remove-Distinct e (u ∷ us) vs (n, d) =
    (ground (arith, has-append u us vs, has-append u us (e ∷ vs), n), remove-Distinct e us vs d)

-- The two writes for `e` between the node `w` before it and `q`.
link_out_lem :
    (m : Links) (e w q : ℕ)
    → m.prev e ≡ w
    → m.next e ≡ q
    → (e == w) ≡ false
    → link_out e m ≡ set_prev (set_next m w q) q w
unfolding link_out
link_out_lem m e w q p n k =
    let at_e : update m.next w q e ≡ q = same_at m.next w q e k ∙ n in
    ap (λ x. set_prev (set_next m x (m.next e)) (update m.next x (m.next e) e) x) p
    ∙ ap (λ x. set_prev (set_next m w x) (update m.next w x e) w) n
    ∙ ap (λ x. set_prev (set_next m w q) x w) at_e

remove-IsNodes :
    (m : Links) (u t : ℕ) (us : List ℕ) (e q : ℕ) (vs : List ℕ)
    → IsNodes m u t (us ++ (e ∷ q ∷ vs))
    → (m' : Links) × (list_remove e m ≡ some (q, m'))
      × IsNodes m' u t (us ++ (q ∷ vs))
      × Elsewhere m m' (u ∷ (us ++ (q ∷ vs)))
unfolding has list_remove is_interior
remove-IsNodes m u t us e q vs s =
    let (du, (e_vs, (q_vs, dv)), apart) = Distinct-append (u ∷ us) (e ∷ q ∷ vs) s.distinct in
    let (a, n, p, (n', p', r)) = split m u us e (q ∷ vs) s.linked in
    let w : ℕ = last_of u us in
    let at_w = has-last_of u us in
    let w_vs : has w (e ∷ q ∷ vs) ≡ false = apart w at_w in
    let none_at = s.present in
    let z_us = has-append 0 us (e ∷ q ∷ vs) in
    let w_0 : (w == 0) ≡ false = differs w 0 (u ∷ us) at_w (ground (arith, z_us, none_at)) in
    let e_0 : (e == 0) ≡ false = ground (arith, z_us, none_at) in
    let q_0 : (q == 0) ≡ false = ground (arith, z_us, none_at) in
    let prev_0 : (m.prev e == 0) ≡ false = ap (λ y. y == 0) p ∙ w_0 in
    let next_0 : (m.next e == 0) ≡ false = ap (λ y. y == 0) n' ∙ q_0 in
    let e_w : (e == w) ≡ false = unequal w e (ground (arith, w_vs)) in
    let e_us : has e (u ∷ us) ≡ false = not_before (u ∷ us) e (q ∷ vs) apart in
    let q_us : has q (u ∷ us) ≡ false =
      not_before (u ∷ us) q vs (λ x h. ground (arith, apart x h)) in
    let u_vs : has u (e ∷ q ∷ vs) ≡ false = apart u (ground arith) in
    let t_vs : has t (q ∷ vs) ≡ true =
      subst (λ x. has x (q ∷ vs) ≡ true) (sym (last_of-append u us e (q ∷ vs)) ∙ s.ends)
        (has-last_of q vs) in
    let m1 : Links = set_next m w q in
    let m2 : Links = set_prev m1 q w in
    let shape : link_out e m ≡ m2 = link_out_lem m e w q p n' e_w in
    let follows : m2.next e ≡ q = same_at m.next w q e e_w ∙ n' in
    let front : Linked m2 u us =
      set_prev-Linked m1 q w u us (ground (arith, q_us)) (set_last-Linked m q u us du a) in
    let back : Linked m2 q vs =
      set_prev-Linked m1 q w q vs q_vs (set_next-Linked m w q q vs (ground (arith, w_vs)) r) in
    (
      m2,
      passes {c = is_interior m e} (ground (arith, prev_0, next_0, e_0))
          ∙ ap (λ x. some (x.next e, x)) shape
          ∙ ap (λ x. some (x, m2)) follows,
      record {
        linked = join m2 u us q vs front (new_at m.next w q) (new_at m.prev q w) back;
        distinct = remove-Distinct e (u ∷ us) (q ∷ vs) s.distinct;
        present = ground (arith, none_at, z_us, has-append 0 us (q ∷ vs));
        first = same_at m.prev q w u (ground (arith, u_vs)) ∙ s.first;
        last = same_at m.next w q t (differs t w (q ∷ vs) t_vs (ground (arith, w_vs))) ∙ s.last;
        ends = last_of-append u us q vs ∙ sym (last_of-append u us e (q ∷ vs)) ∙ s.ends;
      },
      λ x k.
          let hx = has-append x us (q ∷ vs) in
          let x_us : has x (u ∷ us) ≡ false = ground (arith, k, hx) in
          (
            same_at m.prev q w x (ground (arith, k, hx)),
            same_at m.next w q x (unequal w x (differs w x (u ∷ us) at_w x_us)),
          ),
    )

-- On links that stand for a sequence of elements, list_remove of any of them fails no assertion,
-- returns the element or tail that followed, and leaves links that stand for the sequence
-- without the element; the links of all addresses outside the list that is left stay.
pub list_remove_lem :
    (m : Links) (list : ListEnds) (xs : List ℕ) (elem : ℕ) (ys : List ℕ)
    → IsList m list (xs ++ (elem ∷ ys))
    → (m' : Links) × (list_remove elem m ≡ some (begin_of list ys, m'))
      × IsList m' list (xs ++ ys)
      × Elsewhere m m' (list.head ∷ behind list (xs ++ ys))
list_remove_lem m list xs e ys s =
    let h : ℕ = list.head in
    let t : ℕ = list.tail in
    let whole : behind list (xs ++ (e ∷ ys)) ≡ xs ++ (e ∷ begin_of list ys ∷ rest_of list ys) =
      behind_append list xs (e ∷ ys) ∙ ap (λ l. xs ++ (e ∷ l)) (sym (front list ys)) in
    let same = behind_append list xs ys in
    let (m', q, s', o) =
      remove-IsNodes m h t xs e (begin_of list ys) (rest_of list ys)
        (subst (IsNodes m h t) whole s) in
    (m', q, subst (IsNodes m' h t) (sym same) s', subst (λ l. Elsewhere m m' (h ∷ l)) (sym same) o)

tail_in : (list : ListEnds) (xs : List ℕ) → has list.tail (behind list xs) ≡ true
unfolding has
tail_in list xs = ground (arith, has-append list.tail xs (list.tail ∷ []))

some_left :
    (m : Links) (list : ListEnds) (x : ℕ) (xs : List ℕ)
    → IsList m list (x ∷ xs)
    → list_empty list m ≡ false
some_left m list x xs s =
    ap (λ y. y == list.tail) (begins m list (x ∷ xs) s)
    ∙ unequal list.tail x (differs list.tail x (behind list xs) (tail_in list xs) s.distinct.1.0)

some_before :
    (m : Links) (list : ListEnds) (xs : List ℕ) (x : ℕ)
    → IsList m list (xs ++ (x ∷ []))
    → list_empty list m ≡ false
some_before m list [] x s = some_left m list x [] s
some_before m list (y ∷ xs) x s = some_left m list y (xs ++ (x ∷ [])) s

-- The pops, at either end of the list.
pub list_pop_lem :
    (m : Links) (list : ListEnds) (xs : List ℕ) (elem : ℕ)
    → (IsList m list (elem ∷ xs)
        → (m' : Links) × (list_pop_front list m ≡ some (elem, m'))
          × IsList m' list xs
          × Elsewhere m m' (list.head ∷ behind list xs))
      × (IsList m list (xs ++ (elem ∷ []))
          → (m' : Links) × (list_pop_back list m ≡ some (elem, m'))
            × IsList m' list xs
            × Elsewhere m m' (list.head ∷ behind list xs))
unfolding list_pop_front list_pop_back list_front list_back
list_pop_lem m list xs e = (λ s. popped_front s, λ s. popped_back s)
  where
    popped_front :
        IsList m list (e ∷ xs)
        → (m' : Links) × (list_pop_front list m ≡ some (e, m'))
          × IsList m' list xs
          × Elsewhere m m' (list.head ∷ behind list xs)
    popped_front s =
        let (m', q, s', o) = list_remove_lem m list [] e xs s in
        let rest : ℕ → Option (ℕ × Links) = λ x. list_remove x m >>= λ r. some (x, r.1) in
        (
          m',
          and_then rest (passes (ap not (some_left m list e xs s)))
              ∙ ap rest (begins m list (e ∷ xs) s)
              ∙ and_then (λ r. some (e, r.1)) q,
          s',
          o,
        )

    popped_back :
        IsList m list (xs ++ (e ∷ []))
        → (m' : Links) × (list_pop_back list m ≡ some (e, m'))
          × IsList m' list xs
          × Elsewhere m m' (list.head ∷ behind list xs)
    popped_back s =
        let (m', q, s', o) = list_remove_lem m list xs e [] s in
        let rest : ℕ → Option (ℕ × Links) = λ x. list_remove x m >>= λ r. some (x, r.1) in
        let (a, n, p, (n', p', r)) =
          split m list.head xs e (list.tail ∷ [])
            (subst (Linked m list.head) (behind_append list xs (e ∷ [])) s.linked) in
        let all = append-nil xs in
        (
          m',
          and_then rest (passes (ap not (some_before m list xs e s)))
              ∙ ap rest p'
              ∙ and_then (λ r. some (e, r.1)) q,
          subst (IsList m' list) all s',
          subst (λ l. Elsewhere m m' (list.head ∷ behind list l)) all o,
        )
