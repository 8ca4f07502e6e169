-- ===== src/Inode/Entries.antt =====
-- The list of open inodes of filesys/inode.c: one inode for each address and for each sector.
use Prim.{Unit, tt}
use mathlib.Core.Option.{some-injective, none-ne-some}
use tony_henry_niklas.Inode.{Inode}
use tony_henry_niklas.Inode.Table.{find_sector, find_inode, put_inode}
use tony_henry_niklas.Common.{
  ℕ, ◌≤◌, ◌<◌, ◌≡◌, refl, sym, ap, ◌∙◌, inl, inr, false, List, [], ◌∷◌, none, some, ◌==◌, chosen,
  passed_over, if◌then◌else◌, Bool-cases, subst, ==_iff,
}

-- No two open inodes have an address or a sector in common, and each has an opener for itself and
-- for every denial of writes.
abbrev pub IsTable : List (ℕ × Inode) → Type 0
IsTable [] = Unit
IsTable ((a, i) ∷ rest) =
    (find_inode a rest ≡ none)
    × (find_sector i.sector rest ≡ none)
    × (0 < i.open_cnt)
    × (i.deny_write_cnt ≤ i.open_cnt)
    × IsTable rest

pub find_inode-put_inode :
    (a : ℕ) (j : Inode) (l : List (ℕ × Inode)) (i : Inode)
    → find_inode a l ≡ some i
    → find_inode a (put_inode a j l) ≡ some j
find_inode-put_inode a j [] i h = absurd (none-ne-some _ h)
find_inode-put_inode a j ((b, k) ∷ l) i h = elim (Bool-cases (b == a)) [
  | inl e ↦ ap (find_inode a) (chosen ((b, k) ∷ put_inode a j l) e) ∙ chosen (find_inode a l) e
  | inr e ↦
      ap (find_inode a) (passed_over ((b, j) ∷ l) e)
      ∙ passed_over (some k) e
      ∙ find_inode-put_inode a j l i (sym (passed_over (some k) e) ∙ h)
]

pub put_inode-put_inode :
    (a : ℕ) (j : Inode) (l : List (ℕ × Inode)) (i : Inode)
    → find_inode a l ≡ some i
    → put_inode a i (put_inode a j l) ≡ l
put_inode-put_inode a j [] i h = refl
put_inode-put_inode a j ((b, k) ∷ l) i h = elim (Bool-cases (b == a)) [
  | inl e ↦
      ap (put_inode a i) (chosen ((b, k) ∷ put_inode a j l) e)
      ∙ chosen ((b, j) ∷ put_inode a i l) e
      ∙ ap (λ x. (b, x) ∷ l) (some-injective i k (sym h ∙ chosen (find_inode a l) e))
  | inr e ↦
      ap (put_inode a i) (passed_over ((b, j) ∷ l) e)
      ∙ passed_over ((b, i) ∷ put_inode a j l) e
      ∙ ap (λ r. (b, k) ∷ r) (put_inode-put_inode a j l i (sym (passed_over (some k) e) ∙ h))
]

apart :
    (b a : ℕ) (l : List (ℕ × Inode)) (i : Inode)
    → find_inode b l ≡ none
    → find_inode a l ≡ some i
    → (b == a) ≡ false
apart b a l i h k = elim (Bool-cases (b == a)) [
  | inl e ↦ absurd (none-ne-some i (sym h ∙ ap (λ x. find_inode x l) ((==_iff b a).0 e) ∙ k))
  | inr e ↦ e
]

-- The inode that a sector is found at.
pub found_inode :
    (s : ℕ) (l : List (ℕ × Inode)) (a : ℕ)
    → IsTable l
    → find_sector s l ≡ some a
    → (i : Inode) × (find_inode a l ≡ some i)
      × (i.sector ≡ s)
      × (0 < i.open_cnt)
      × (i.deny_write_cnt ≤ i.open_cnt)
found_inode s [] a t h = absurd (none-ne-some _ h)
found_inode s ((b, k) ∷ l) a (new, alone, used, denied, t) h = elim (Bool-cases (k.sector == s)) [
  | inl e ↦
      let same : b ≡ a = some-injective b a (sym (chosen (find_sector s l) e) ∙ h) in
      (k, chosen (find_inode a l) ((==_iff b a).1 same), (==_iff k.sector s).0 e, used, denied)
  | inr e ↦
      let (i, q, r, o, d) = found_inode s l a t (sym (passed_over (some b) e) ∙ h) in
      let other : (b == a) ≡ false = apart b a l i new q in
      (i, passed_over (some k) other ∙ q, r, o, d)
]

still_new :
    (a b : ℕ) (j : Inode) (l : List (ℕ × Inode))
    → find_inode b l ≡ none
    → find_inode b (put_inode a j l) ≡ none
still_new a b j [] h = refl
still_new a b j ((c, k) ∷ l) h = elim (Bool-cases (c == b)) [
  | inl e ↦ absurd (none-ne-some k (sym h ∙ chosen (find_inode b l) e))
  | inr e ↦ elim (Bool-cases (c == a)) [
    | inl f ↦
        ap (find_inode b) (chosen ((c, k) ∷ put_inode a j l) f)
        ∙ passed_over (some j) e
        ∙ sym (passed_over (some k) e)
        ∙ h
    | inr f ↦
        ap (find_inode b) (passed_over ((c, j) ∷ l) f)
        ∙ passed_over (some k) e
        ∙ still_new a b j l (sym (passed_over (some k) e) ∙ h)
  ]
]

pub find_sector-put_inode :
    (a s : ℕ) (i j : Inode) (l : List (ℕ × Inode))
    → find_inode a l ≡ some i
    → j.sector ≡ i.sector
    → find_sector s (put_inode a j l) ≡ find_sector s l
find_sector-put_inode a s i j [] h e = refl
find_sector-put_inode a s i j ((c, k) ∷ l) h e = elim (Bool-cases (c == a)) [
  | inl f ↦
      let same : k ≡ i = some-injective k i (sym (chosen (find_inode a l) f) ∙ h) in
      ap (find_sector s) (chosen ((c, k) ∷ put_inode a j l) f)
      ∙ ap (λ x. if x == s then some c else find_sector s l) (e ∙ ap (λ x. x.sector) (sym same))
  | inr f ↦
      ap (find_sector s) (passed_over ((c, j) ∷ l) f)
      ∙ ap (λ x. if k.sector == s then some c else x)
          (find_sector-put_inode a s i j l (sym (passed_over (some k) f) ∙ h) e)
]

pub put_inode-IsTable :
    (a : ℕ) (i j : Inode) (l : List (ℕ × Inode))
    → IsTable l
    → find_inode a l ≡ some i
    → j.sector ≡ i.sector
    → 0 < j.open_cnt
    → j.deny_write_cnt ≤ j.open_cnt
    → IsTable (put_inode a j l)
put_inode-IsTable a i j [] t h e o d = tt
put_inode-IsTable a i j ((c, k) ∷ l) (new, alone, used, denied, t) h e o d =
    elim (Bool-cases (c == a)) [
      | inl f ↦
          let same : k ≡ i = some-injective k i (sym (chosen (find_inode a l) f) ∙ h) in
          let sector : k.sector ≡ j.sector = ap (λ x. x.sector) same ∙ sym e in
          subst IsTable (sym (chosen ((c, k) ∷ put_inode a j l) f))
            (new, subst (λ x. find_sector x l ≡ none) sector alone, o, d, t)
      | inr f ↦
          let h' : find_inode a l ≡ some i = sym (passed_over (some k) f) ∙ h in
          subst IsTable (sym (passed_over ((c, j) ∷ l) f)) (
            still_new a c j l new,
            find_sector-put_inode a k.sector i j l h' e ∙ alone,
            used,
            denied,
            put_inode-IsTable a i j l t h' e o d,
          )
    ]
