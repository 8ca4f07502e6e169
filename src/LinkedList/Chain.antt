-- ===== src/LinkedList/Chain.antt =====
-- The sequences that the links of lib/kernel/list.c stand for, and the writes that leave them alone.
use tony_henry_niklas.LinkedList.{Links, ListEnds, list_begin, set_prev, set_next, update}
use tony_henry_niklas.Common.{
  ℕ, ◌≡◌, refl, sym, ap, ◌∙◌, inl, inr, Bool, true, false, ◌||◌, List, [], ◌∷◌, ◌++◌, arith, ◌==◌,
  passed_over, Bool-cases, subst, ==_iff,
}

unfoldable pub has : ℕ → List ℕ → Bool
has x [] = false
has x (y ∷ ys) = x == y || has x ys

abbrev pub Distinct : List ℕ → Type 0
Distinct [] = Unit
Distinct (x ∷ xs) = (has x xs ≡ false) × Distinct xs

-- From `u` on, each node links to its neighbours.
abbrev pub Linked : Links → ℕ → List ℕ → Type 0
Linked m u [] = Unit
Linked m u (v ∷ vs) = (m.next u ≡ v) × (m.prev v ≡ u) × Linked m v vs

abbrev pub last_of : ℕ → List ℕ → ℕ
last_of u [] = u
last_of u (v ∷ vs) = last_of v vs

-- The nodes behind the head of a list that holds `xs`.
abbrev pub behind : ListEnds → List ℕ → List ℕ
behind list xs = xs ++ (list.tail ∷ [])

-- A whole list: `u` is its head, `t` its tail, `ns` the nodes behind the head.
pub record IsNodes (m : Links) (u t : ℕ) (ns : List ℕ) : Type 0 where
  pub linked : Linked m u ns
  pub distinct : Distinct (u ∷ ns)
  pub present : has 0 (u ∷ ns) ≡ false
  pub first : m.prev u ≡ 0
  pub last : m.next t ≡ 0
  pub ends : last_of u ns ≡ t

-- The links of the list stand for the sequence of its elements.
abbrev pub IsList : Links → ListEnds → List ℕ → Type 0
IsList m list xs = IsNodes m list.head list.tail (behind list xs)

-- The element at which `ys` begins, or the tail.
abbrev pub begin_of : ListEnds → List ℕ → ℕ
begin_of list [] = list.tail
begin_of list (y ∷ ys) = y

abbrev pub rest_of : ListEnds → List ℕ → List ℕ
rest_of list [] = []
rest_of list (y ∷ ys) = behind list ys

pub behind_append :
    (list : ListEnds) (xs ys : List ℕ)
    → behind list (xs ++ ys) ≡ xs ++ (begin_of list ys ∷ rest_of list ys)
behind_append list [] [] = refl
behind_append list [] (y ∷ ys) = refl
behind_append list (x ∷ xs) ys = ap (λ l. x ∷ l) (behind_append list xs ys)

pub last_of-append :
    (u : ℕ) (us : List ℕ) (q : ℕ) (vs : List ℕ) → last_of u (us ++ (q ∷ vs)) ≡ last_of q vs
last_of-append u [] q vs = refl
last_of-append u (w ∷ us) q vs = last_of-append w us q vs

pub has-append : (x : ℕ) (us vs : List ℕ) → has x (us ++ vs) ≡ (has x us || has x vs)
unfolding has
has-append x [] vs = refl
has-append x (u ∷ us) vs = ground (arith, has-append x us vs)

pub has-last_of : (u : ℕ) (us : List ℕ) → has (last_of u us) (u ∷ us) ≡ true
unfolding has
has-last_of u [] = ground arith
has-last_of u (v ∷ us) = ground (arith, has-last_of v us)

-- What does not occur differs from what does.
pub differs : (x y : ℕ) (us : List ℕ) → has x us ≡ true → has y us ≡ false → (x == y) ≡ false
differs x y us h k = elim (Bool-cases (x == y)) [
  | inl e ↦ absurd (ground (arith, subst (λ z. has z us ≡ true) ((==_iff x y).0 e) h, k))
  | inr e ↦ e
]

pub unequal : (x y : ℕ) → (x == y) ≡ false → (y == x) ≡ false
unequal x y e = ground arith

pub split :
    (m : Links) (u : ℕ) (us : List ℕ) (q : ℕ) (vs : List ℕ)
    → Linked m u (us ++ (q ∷ vs))
    → Linked m u us × (m.next (last_of u us) ≡ q) × (m.prev q ≡ last_of u us) × Linked m q vs
split m u [] q vs (n, p, r) = (tt, n, p, r)
split m u (v ∷ us) q vs (n, p, r) = let (a, b, c, d) = split m v us q vs r in ((n, p, a), b, c, d)

pub join :
    (m : Links) (u : ℕ) (us : List ℕ) (q : ℕ) (vs : List ℕ)
    → Linked m u us
    → m.next (last_of u us) ≡ q
    → m.prev q ≡ last_of u us
    → Linked m q vs
    → Linked m u (us ++ (q ∷ vs))
join m u [] q vs a b c d = (b, c, d)
join m u (v ∷ us) q vs (n, p, r) b c d = (n, p, join m v us q vs r b c d)

pub same_at : (f : ℕ → ℕ) (a v x : ℕ) → (x == a) ≡ false → update f a v x ≡ f x
same_at f a v x e = passed_over v e

pub new_at : (f : ℕ → ℕ) (a v : ℕ) → update f a v a ≡ v
new_at f a v = ground arith

pub set_prev-Linked :
    (m : Links) (a v u : ℕ) (us : List ℕ)
    → has a us ≡ false
    → Linked m u us
    → Linked (set_prev m a v) u us
unfolding has
set_prev-Linked m a v u [] h l = tt
set_prev-Linked m a v u (w ∷ us) h (n, p, r) = (
  n,
  same_at m.prev a v w (ground (arith, h)) ∙ p,
  set_prev-Linked m a v w us (ground (arith, h)) r,
)

pub set_next-Linked :
    (m : Links) (a v u : ℕ) (us : List ℕ)
    → has a (u ∷ us) ≡ false
    → Linked m u us
    → Linked (set_next m a v) u us
unfolding has
set_next-Linked m a v u [] h l = tt
set_next-Linked m a v u (w ∷ us) h (n, p, r) = (
  same_at m.next a v u (ground (arith, h)) ∙ n,
  p,
  set_next-Linked m a v w us (ground (arith, h)) r,
)

-- The link that leads on from the last node may change too.
pub set_last-Linked :
    (m : Links) (v u : ℕ) (us : List ℕ)
    → Distinct (u ∷ us)
    → Linked m u us
    → Linked (set_next m (last_of u us) v) u us
set_last-Linked m v u [] d l = tt
set_last-Linked m v u (w ∷ us) (e, d) (n, p, r) =
    let other : (u == last_of w us) ≡ false =
      unequal (last_of w us) u (differs (last_of w us) u (w ∷ us) (has-last_of w us) e) in
    (same_at m.next (last_of w us) v u other ∙ n, p, set_last-Linked m v w us d r)

-- Two parts of a sequence without repetitions.
pub Distinct-append :
    (us vs : List ℕ)
    → Distinct (us ++ vs)
    → Distinct us × Distinct vs × ((x : ℕ) → has x us ≡ true → has x vs ≡ false)
unfolding has
Distinct-append [] vs d = (tt, d, λ x h. absurd (ground arith))
Distinct-append (u ∷ us) vs (e, d) =
    let (a, b, c) = Distinct-append us vs d in
    let n = has-append u us vs in
    (
      (ground (arith, n, e), a),
      b,
      λ x h. elim (Bool-cases (x == u)) [
        | inl p ↦ subst (λ y. has y vs ≡ false) (sym ((==_iff x u).0 p)) (ground (arith, n, e))
        | inr p ↦ c x (ground arith)
      ],
    )

-- The first node of the second part does not occur in the first.
pub not_before :
    (us : List ℕ) (q : ℕ) (vs : List ℕ)
    → ((x : ℕ) → has x us ≡ true → has x (q ∷ vs) ≡ false)
    → has q us ≡ false
unfolding has
not_before us q vs apart = elim (Bool-cases (has q us)) [
  | inl e ↦ absurd (ground (arith, apart q e))
  | inr e ↦ e
]

pub begins :
    (m : Links) (list : ListEnds) (xs : List ℕ)
    → IsList m list xs
    → list_begin list m ≡ begin_of list xs
begins m list [] s = s.linked.0
begins m list (x ∷ xs) s = s.linked.0

pub front : (list : ListEnds) (ys : List ℕ) → begin_of list ys ∷ rest_of list ys ≡ behind list ys
front list [] = refl
front list (y ∷ ys) = refl
