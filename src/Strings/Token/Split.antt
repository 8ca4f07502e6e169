-- ===== src/Strings/Token/Split.antt =====
-- The loop over strtok_r yields the fields of the string, none of them empty.
use mathlib.Core.List.{append_assoc, append-nil}
use tony_henry_niklas.Strings.Text.{strchr}
use tony_henry_niklas.Strings.Order.{NoNul, c_string}
use tony_henry_niklas.Strings.Token.{skip_delimiters, skip_token}
use tony_henry_niklas.Common.{
  ℕ, suc, ◌<◌, ◌≡◌, refl, ap, ◌∙◌, ◌≢◌, ◌⊎◌, inl, inr, Bool, true, false, ◌||◌, List, [], ◌∷◌, ◌++◌,
  none, some, arith, ◌==◌, if◌then◌else◌, length, Bool-cases,
}

abbrev pub IsText : List ℕ → Type 0
IsText [] = Unit
IsText (c ∷ s) = (c ≢ 0) × (c < 256) × IsText s

pub IsText-NoNul : (s : List ℕ) → IsText s → NoNul s
IsText-NoNul [] h = tt
IsText-NoNul (c ∷ s) h = (h.0, IsText-NoNul s h.2)

unfoldable pub member : List ℕ → ℕ → Bool
member [] c = false
member (x ∷ d) c = x == c || member d c

unfoldable pub emit : List ℕ → List (List ℕ) → List (List ℕ)
emit [] r = r
emit (x ∷ w) r = (x ∷ w) ∷ r

-- The specification: the maximal runs of bytes that are no delimiters. `word` is the run so far.
unfoldable pub fields : List ℕ → List ℕ → List ℕ → List (List ℕ)
unfolding emit member
fields d word [] = emit word []
fields d word (c ∷ s) =
    let next = fields d [] s in
    let more = fields d (word ++ (c ∷ [])) s in if member d c then emit word next else more

-- `strchr` finds a byte that is among the delimiters, and the null byte always.
pub strchr_hit :
    (d q : List ℕ) (c : ℕ)
    → c < 256
    → NoNul d
    → (member d c ≡ true) ⊎ (c ≡ 0)
    → (i : ℕ) × (strchr (c_string d q) c ≡ some (some i))
unfolding strchr member
strchr_hit [] q c b n h = (0, ground arith)
strchr_hit (x ∷ d) q c b n h = elim (Bool-cases (x == c)) [
  | inl e ↦ (0, ground arith)
  | inr e ↦ let (i, p) = strchr_hit d q c b n.1 (ground arith) in (suc i, ground arith)
]

strchr_miss :
    (d q : List ℕ) (c : ℕ)
    → c < 256
    → NoNul d
    → member d c ≡ false
    → c ≢ 0
    → strchr (c_string d q) c ≡ some none
unfolding strchr member
strchr_miss [] q c b n h z = ground arith
strchr_miss (x ∷ d) q c b n h z = ground (arith, strchr_miss d q c b n.1)

abbrev pub is_empty : List ℕ → Bool
is_empty [] = true
is_empty (c ∷ s) = false

abbrev pub StartsField : List ℕ → List ℕ → Type 0
StartsField d [] = Unit
StartsField d (c ∷ s) = member d c ≡ false

abbrev pub EndsField : List ℕ → List ℕ → Type 0
EndsField d [] = Unit
EndsField d (c ∷ s) = member d c ≡ true

-- What the first loop passes over: the leading delimiters, which start no field.
pub skip_lem :
    (s r d q : List ℕ)
    → IsText s
    → NoNul d
    → (lead rest : List ℕ) × (s ≡ lead ++ rest)
      × (skip_delimiters (c_string s r) (c_string d q) ≡ some (length lead, is_empty rest))
      × (fields d [] s ≡ fields d [] rest)
      × IsText rest
      × StartsField d rest
unfolding skip_delimiters fields
skip_lem [] r d q h n =
    let (i, e) = strchr_hit d q 0 (omega arith) n (inr refl) in ([], [], refl, rw e, refl, tt, tt)
skip_lem (c ∷ s) r d q (nz, b, h) n = elim (Bool-cases (member d c)) [
  | inl yes' ↦
      let (i, e) = strchr_hit d q c b n (inl yes') in
      let (lead, rest, p, k, f, t, m) = skip_lem s r d q h n in
      (c ∷ lead, rest, ap (λ l. c ∷ l) p, rw (e, k) (ground arith), rw yes' f, t, m)
  | inr no' ↦ ([], c ∷ s, refl, rw (strchr_miss d q c b n no' nz), refl, (nz, b, h), no')
]

pub IsText-append : (s t : List ℕ) → IsText (s ++ t) → IsText t
IsText-append [] t h = h
IsText-append (c ∷ s) t h = IsText-append s t h.2

pub emit-append :
    (u : List ℕ) (c : ℕ) (w : List ℕ) (r : List (List ℕ))
    → emit (u ++ (c ∷ w)) r ≡ (u ++ (c ∷ w)) ∷ r
unfolding emit
emit-append [] c w r = refl
emit-append (x ∷ u) c w r = refl

-- What the second loop passes over: the rest of the field, up to a delimiter or the end.
pub token_lem :
    (s r d q : List ℕ)
    → IsText s
    → NoNul d
    → (w rest : List ℕ) × (s ≡ w ++ rest)
      × (skip_token (c_string s r) (c_string d q) ≡ some (length w))
      × ((u : List ℕ) → fields d u s ≡ fields d (u ++ w) rest)
      × EndsField d rest
unfolding skip_token fields
token_lem [] r d q h n =
    let (i, e) = strchr_hit d q 0 (omega arith) n (inr refl) in
    ([], [], refl, rw e, λ u. rw append-nil, tt)
token_lem (c ∷ s) r d q (nz, b, h) n = elim (Bool-cases (member d c)) [
  | inl yes' ↦
      let (i, e) = strchr_hit d q c b n (inl yes') in
      ([], c ∷ s, refl, rw e, λ u. rw append-nil, yes')
  | inr no' ↦
      let (w, rest, p, k, f, t) = token_lem s r d q h n in
      (
        c ∷ w,
        rest,
        ap (λ l. c ∷ l) p,
        rw (strchr_miss d q c b n no' nz, k),
        λ u. rw no' (f (u ++ (c ∷ [])) ∙ ap (λ v. fields d v rest) (append_assoc u (c ∷ []) w)),
        t,
      )
]
