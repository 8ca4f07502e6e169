-- ===== src/Shell/Reading.antt =====
-- What nexttoken of code/parse.c leaves of a parser, wherever its pointer stands.
use mathlib.Core.List.{append_assoc}
use tony_henry_niklas.Strings.Order.{NoNul, c_string}
use tony_henry_niklas.Strings.Copy.{length-drop, length-take_of_le}
use tony_henry_niklas.Shell.{Parser, nexttoken, is_special, is_space}
use tony_henry_niklas.Shell.Bytes.{first_token, spaces, ended, used, at}
use tony_henry_niklas.Shell.Token.{length-word, nexttoken_lem}
use tony_henry_niklas.Common.{
  ℕ, zero, suc, ◌+◌, ◌*◌, ◌≤◌, ◌≡◌, refl, sym, ap, ◌∙◌, inl, inr, true, List, [], ◌∷◌, ◌++◌, some,
  arith, length, get_elem?, Bool-cases, take, drop, take-append-drop, length-append,
}

-- A parser is the one whose buffer is filled up to its pointer.
at_self :
    (st : Parser) → st.cp ≤ length st.cbuf → at st (take st.cp st.cbuf) (drop st.cp st.cbuf) ≡ st
at_self st h =
    ap (λ b. record st { cbuf = b; cp = length (take st.cp st.cbuf) })
      (take-append-drop st.cp st.cbuf)
    ∙ ap (λ n. record st { cp = n }) (length-take_of_le st.cp st.cbuf h)

sum_le : (t : List ℕ) → spaces t + length (first_token t) ≤ length t
unfolding first_token spaces
sum_le [] = omega arith
sum_le (c ∷ s) = elim (Bool-cases (is_space c)) [
  | inl e ↦ rw e (omega (arith, sum_le s))
  | inr e ↦ elim (Bool-cases (is_special c)) [
    | inl f ↦ rw (e, f) (omega arith)
    | inr f ↦ rw (e, f) (omega (arith, length-word s))
  ]
]

used_le_sum : (t tok : List ℕ) → used t tok ≤ spaces t + length tok
unfolding used
used_le_sum t [] = omega arith
used_le_sum t (c ∷ s) = omega arith

pub used_le : (t : List ℕ) → used t (first_token t) ≤ length t
used_le t = omega (arith, sum_le t, used_le_sum t (first_token t))

pub length-ended_le : (t tok : List ℕ) → length (ended tok) ≤ 2 * used t tok
unfolding ended used
length-ended_le t [] = omega arith
length-ended_le t (c ∷ s) = omega (arith, length-append (c ∷ s) (0 ∷ []))

pub drop-c_string :
    (n : ℕ) (t rest : List ℕ) → n ≤ length t → drop n (c_string t rest) ≡ c_string (drop n t) rest
drop-c_string zero t rest h = refl
drop-c_string (suc n) [] rest h = absurd (omega arith)
drop-c_string (suc n) (x ∷ t) rest h = drop-c_string n t rest (omega arith)

pub NoNul-drop : (n : ℕ) (t : List ℕ) → NoNul t → NoNul (drop n t)
NoNul-drop zero t h = h
NoNul-drop (suc n) [] h = tt
NoNul-drop (suc n) (x ∷ t) h = NoNul-drop n t h.1

pub special_alone :
    (t : List ℕ) {c : ℕ} {s : List ℕ} → first_token t ≡ c ∷ s → is_special c ≡ true → s ≡ []
unfolding first_token
special_alone [] e sp = cc
special_alone (x ∷ t) e sp = elim (Bool-cases (is_space x)) [
  | inl w ↦ special_alone t (rw w at e) sp
  | inr w ↦ elim (Bool-cases (is_special x)) [
    | inl f ↦ cc (rw (w, f) at e)
    | inr f ↦ cc (rw (w, f) at e)
  ]
]

get_elem?-middle : (pre post : List ℕ) (c : ℕ) → get_elem? (pre ++ (c ∷ post)) (length pre) ≡ some c
get_elem?-middle [] post c = refl
get_elem?-middle (x ∷ pre) post c = get_elem?-middle pre post c

-- What `nexttoken` leaves, for any parser with room.
pub record Read (t : List ℕ) (st st' : Parser) (n : ℕ) : Type 0 where
  pub consumed : n ≡ used t (first_token t)
  pub size : length st'.cbuf ≡ length st.cbuf
  pub pointer : st'.cp ≡ st.cp + length (ended (first_token t))
  pub first : (c : ℕ) → (s : List ℕ) → first_token t ≡ c ∷ s → get_elem? st'.cbuf st.cp ≡ some c
  pub others : (st'.pbuf ≡ st.pbuf) × (st'.pp ≡ st.pp)

pub nexttoken_total :
    (t rest : List ℕ) (st : Parser)
    → NoNul t
    → st.cp + length t + 2 ≤ length st.cbuf
    → (n : ℕ) × (st' : Parser) × (nexttoken (c_string t rest) st ≡ some (n, st.cp, st'))
      × Read t st st' n
unfolding ended
nexttoken_total t rest st h room =
    let pre = take st.cp st.cbuf in
    let post = drop st.cp st.cbuf in
    let len = length-take_of_le st.cp st.cbuf (omega arith) in
    let left = length-drop st.cp st.cbuf in
    let same = at_self st (omega arith) in
    let (post', e, l, behind) = nexttoken_lem t rest st pre post h (omega arith) in
    let tok = first_token t in
    let st' = at st (pre ++ ended tok) post' in
    (
      used t tok,
      st',
      ap (nexttoken (c_string t rest)) (sym same) ∙ e ∙ ap (λ k. some (used t tok, k, st')) len,
      record {
        consumed = refl;
        size = omega (arith, length-append (pre ++ ended tok) post', length-append pre (ended tok));
        pointer = length-append pre (ended tok) ∙ ap (λ k. k + length (ended tok)) len;
        first = λ c s f. ap (get_elem? st'.cbuf) (sym len) ∙ stands pre post' c s tok f;
        others = (refl, refl);
      },
    )
  where
    stands :
        (pre post : List ℕ) (c : ℕ) (s tok : List ℕ)
        → tok ≡ c ∷ s
        → get_elem? ((pre ++ ended tok) ++ post) (length pre) ≡ some c
    stands pre post c s tok f =
        ap (λ k. get_elem? ((pre ++ ended k) ++ post) (length pre)) f
        ∙ ap (λ l. get_elem? l (length pre)) (append_assoc pre (ended (c ∷ s)) post)
        ∙ get_elem?-middle pre ((s ++ (0 ∷ [])) ++ post) c
