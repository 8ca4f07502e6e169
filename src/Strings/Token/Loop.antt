-- ===== src/Strings/Token/Loop.antt =====
-- The loop over strtok_r yields the fields of the string, none of them empty.
use native.Mathlib.Nat.{add-zero, zero-add}
use mathlib.Core.List.{append_assoc}
use tony_henry_niklas.Strings.Order.{NoNul, c_string, strlen_lem}
use tony_henry_niklas.Strings.Copy.{take-append_self, drop-append_self, set-append, length-drop}
use tony_henry_niklas.Strings.Token.{skip_delimiters, skip_token, strtok_r, all_tokens}
use tony_henry_niklas.Strings.Token.Split.{
  IsText, IsText-NoNul, IsText-append, member, emit, fields, is_empty, StartsField, EndsField,
  skip_lem, token_lem,
}
use tony_henry_niklas.Common.{
  ℕ, zero, suc, ◌+◌, ◌<◌, ◌≡◌, refl, sym, ap, ◌∙◌, ◌≢◌, true, false, List, [], ◌∷◌, ◌++◌, none,
  some, arith, ◌==◌, length, get_elem?, ◌>>=◌, subst, drop, length-append,
}

get_elem?-append : (s : List ℕ) (x : ℕ) (t : List ℕ) → get_elem? (s ++ (x ∷ t)) (length s) ≡ some x
get_elem?-append [] x t = refl
get_elem?-append (y ∷ s) x t = get_elem?-append s x t

-- The string behind the leading delimiters and the token, as the call leaves it.
tail_rest : List ℕ → List ℕ → List ℕ
tail_rest [] r = r
tail_rest (c ∷ s) r = c_string s r

tail_save : List ℕ → ℕ
tail_save [] = 0
tail_save (c ∷ s) = 1

strtok_none :
    (s delimiters : List ℕ) (k : ℕ)
    → skip_delimiters s delimiters ≡ some (k, true)
    → strtok_r s delimiters ≡ some (record { bytes = s; token = none; save = k })
unfolding strtok_r
strtok_none s d k e = rw e

strtok_some :
    (lead w rest r delimiters : List ℕ)
    → IsText rest
    → skip_delimiters (lead ++ (w ++ c_string rest r)) delimiters ≡ some (length lead, false)
    → skip_token (w ++ c_string rest r) delimiters ≡ some (length w)
    → strtok_r (lead ++ (w ++ c_string rest r)) delimiters
      ≡ some (record {
        bytes = lead ++ (c_string w (tail_rest rest r));
        token = some (length lead);
        save = length lead + length w + tail_save rest;
      })
unfolding strtok_r tail_rest tail_save
strtok_some lead w [] r d h k n =
    rw
      (
        k,
        drop-append_self lead (w ++ (0 ∷ r)),
        n,
        ← append_assoc lead w (0 ∷ r),
        ← length-append lead w,
        get_elem?-append (lead ++ w) 0 r,
      )
      (rw add-zero)
strtok_some lead w (c ∷ s) r d h k n =
    let nz : (c == 0) ≡ false = let z = h.0 in ground arith in
    rw (
      k,
      drop-append_self lead (w ++ c_string (c ∷ s) r),
      n,
      ← append_assoc lead w (c_string (c ∷ s) r),
      ← append_assoc lead w (0 ∷ c_string s r),
      ← length-append lead w,
      get_elem?-append (lead ++ w) c (c_string s r),
      nz,
      set-append (lead ++ w) (length (lead ++ w)) 0 (c_string (c ∷ s) r) refl (omega arith),
    )

drop-append : (s t : List ℕ) (n : ℕ) → drop (length s + n) (s ++ t) ≡ drop n t
drop-append [] t n = rw zero-add
drop-append (x ∷ s) t n =
    let e : length (x ∷ s) + n ≡ suc (length s + n) = omega arith in rw e (drop-append s t n)

drop-tail_save :
    (lead w rest r : List ℕ)
    → drop (length lead + length w + tail_save rest) (lead ++ c_string w (tail_rest rest r))
      ≡ c_string (drop 1 rest) r
unfolding tail_rest tail_save
drop-tail_save lead w [] r =
    rw (← length-append lead w, ← append_assoc lead w (0 ∷ r)) (drop-append (lead ++ w) (0 ∷ r) 0)
drop-tail_save lead w (c ∷ s) r =
    rw (← length-append lead w, ← append_assoc lead w (0 ∷ c_string s r))
      (drop-append (lead ++ w) (0 ∷ c_string s r) 1)

fields-end :
    (d w rest : List ℕ)
    → EndsField d rest
    → w ≢ []
    → fields d w rest ≡ w ∷ fields d [] (drop 1 rest)
unfolding fields emit
fields-end d [] rest e h = absurd (h refl)
fields-end d (x ∷ w) [] e h = refl
fields-end d (x ∷ w) (c ∷ s) e h = rw e

-- One call and the reading of its token.
all_tokens_step :
    (lead w rest r delimiters : List ℕ) (fuel : ℕ)
    → IsText rest
    → NoNul w
    → skip_delimiters (lead ++ (w ++ c_string rest r)) delimiters ≡ some (length lead, false)
    → skip_token (w ++ c_string rest r) delimiters ≡ some (length w)
    → all_tokens (suc fuel) (lead ++ (w ++ c_string rest r)) delimiters
      ≡ (all_tokens fuel (c_string (drop 1 rest) r) delimiters >>= λ more. some (w ∷ more))
unfolding all_tokens
all_tokens_step lead w rest r d fuel h z k n = rw (
  strtok_some lead w rest r d h k n,
  drop-append_self lead (c_string w (tail_rest rest r)),
  strlen_lem w (tail_rest rest r) z,
  drop-tail_save lead w rest r,
  take-append_self w (0 ∷ tail_rest rest r),
)

all_tokens_end :
    (s delimiters : List ℕ) (k fuel : ℕ)
    → skip_delimiters s delimiters ≡ some (k, true)
    → all_tokens (suc fuel) s delimiters ≡ some []
unfolding all_tokens
all_tokens_end s d k fuel e = rw (strtok_none s d k e)

IsText-prefix : (s t : List ℕ) → IsText (s ++ t) → IsText s
IsText-prefix [] t h = tt
IsText-prefix (c ∷ s) t h = (h.0, h.1, IsText-prefix s t h.2)

-- A field that starts is not empty.
word_ne :
    (d w rest c_rest : List ℕ) (c : ℕ)
    → (c ∷ c_rest) ≡ w ++ rest
    → member d c ≡ false
    → EndsField d rest
    → w ≢ []
word_ne d [] [] cs c e m f z = cc
word_ne d [] (x ∷ rest) cs c e m f z =
    let p : c ≡ x = cc in let q : member d x ≡ false = subst (λ v. member d v ≡ false) p m in cc
word_ne d (x ∷ w) rest cs c e m f z = cc

IsText-drop : (s : List ℕ) → IsText s → IsText (drop 1 s)
IsText-drop [] h = tt
IsText-drop (c ∷ s) h = h.2

regroup :
    (lead w rest r : List ℕ) → c_string (lead ++ (w ++ rest)) r ≡ lead ++ (w ++ c_string rest r)
regroup lead w rest r =
    append_assoc lead (w ++ rest) (0 ∷ r) ∙ ap (λ t. lead ++ t) (append_assoc w rest (0 ∷ r))

-- The calls from a field on, when the calls behind it are known.
from_field :
    (lead s r d q : List ℕ) (c fuel : ℕ)
    → ((s' : List ℕ)
        → IsText s'
        → length s' < fuel
        → all_tokens fuel (c_string s' r) (c_string d q) ≡ some (fields d [] s'))
    → IsText (c ∷ s)
    → NoNul d
    → member d c ≡ false
    → length (lead ++ (c ∷ s)) < suc fuel
    → skip_delimiters (c_string (lead ++ (c ∷ s)) r) (c_string d q) ≡ some (length lead, false)
    → all_tokens (suc fuel) (c_string (lead ++ (c ∷ s)) r) (c_string d q)
      ≡ some (fields d [] (c ∷ s))
from_field lead s r d q c fuel ih h n m l k =
    let (w, rest, e, t, f, b) = token_lem (c ∷ s) r d q h n in
    let text : IsText (w ++ rest) = subst IsText e h in
    let more = IsText-append w rest text in
    let ne = word_ne d w rest s c e m b in
    let short : length (drop 1 rest) < fuel = omega (
      arith,
      length-append lead (c ∷ s),
      ap length e,
      length-append w rest,
      length-drop 1 rest,
      nonempty w ne,
    ) in
    let group = ap (λ u. c_string (lead ++ u) r) e ∙ regroup lead w rest r in
    let group' = ap (λ u. c_string u r) e ∙ append_assoc w rest (0 ∷ r) in
    let step =
      all_tokens_step lead w rest r (c_string d q) fuel more
        (IsText-NoNul w (IsText-prefix w rest text)) (rw group at k) (rw group' at t) in
    rw group (
      step
      ∙ rw (ih (drop 1 rest) (IsText-drop rest more) short)
          (ap some (sym (f [] ∙ fields-end d w rest b ne))))
  where
    nonempty : (w : List ℕ) → w ≢ [] → 0 < length w
    nonempty [] z = absurd (z refl)
    nonempty (x ∷ w) z = omega arith

-- The loop over strtok_r ends after at most one call more than the string has bytes, and yields
-- the maximal runs of bytes that are no delimiters, in order.
pub all_tokens_lem :
    (fuel : ℕ) (s r d q : List ℕ)
    → IsText s
    → NoNul d
    → length s < fuel
    → all_tokens fuel (c_string s r) (c_string d q) ≡ some (fields d [] s)
unfolding fields
all_tokens_lem zero s r d q h n l = absurd (omega arith)
all_tokens_lem (suc fuel) s r d q h n l =
    let (lead, rest, p, k, f, t, m) = skip_lem s r d q h n in
    rw f (from_rest (λ s' h' l'. all_tokens_lem fuel s' r d q h' n l') s lead rest p k t m l)
  where
    from_rest :
        ((s' : List ℕ)
          → IsText s'
          → length s' < fuel
          → all_tokens fuel (c_string s' r) (c_string d q) ≡ some (fields d [] s'))
        → (s lead rest : List ℕ) → s ≡ lead ++ rest
        → skip_delimiters (c_string s r) (c_string d q) ≡ some (length lead, is_empty rest)
        → IsText rest
        → StartsField d rest
        → length s < suc fuel
        → all_tokens (suc fuel) (c_string s r) (c_string d q) ≡ some (fields d [] rest)
    from_rest ih s lead [] p k t m l = all_tokens_end _ _ (length lead) fuel k
    from_rest ih s lead (c ∷ cs) p k t m l =
        rw p (from_field lead cs r d q c fuel ih t n m (rw p at l) (rw p at k))
