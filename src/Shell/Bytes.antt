-- ===== src/Shell/Bytes.antt =====
-- What nexttoken of code/parse.c reads and writes.
use mathlib.Core.List.{append_assoc, append-nil}
use tony_henry_niklas.Strings.Order.{NoNul, c_string}
use tony_henry_niklas.Strings.Copy.{set-append, length-drop}
use tony_henry_niklas.Shell.{Parser, put, skip_spaces, copy_token, is_special, is_space, ends_token}
use tony_henry_niklas.Common.{
  zero, ℕ, suc, ◌+◌, ◌-◌, ◌<◌, ◌≡◌, refl, sym, ap, ◌∙◌, ◌≢◌, ◌⊎◌, inl, inr, true, false, List, [],
  ◌∷◌, ◌++◌, some, arith, ◌==◌, passes, and_then, if◌then◌else◌, length, set, ◌>>=◌, Bool-cases,
  subst, lt→ltb, drop, length-append,
}

-- The specification: the first token of a text is a special character, or the longest run from the
-- first character that is no white space to the next that is one or is special.
unfoldable pub word : List ℕ → List ℕ
word [] = []
word (c ∷ s) = if ends_token c then [] else c ∷ word s

unfoldable pub first_token : List ℕ → List ℕ
unfolding word
first_token [] = []
first_token (c ∷ s) =
    if is_space c then first_token s else if is_special c then c ∷ [] else c ∷ word s

-- How much white space stands before it.
unfoldable pub spaces : List ℕ → ℕ
spaces [] = 0
spaces (c ∷ s) = if is_space c then suc (spaces s) else 0

-- A token as it stands in the buffer, where there is one.
unfoldable pub ended : List ℕ → List ℕ
ended [] = []
ended (c ∷ s) = (c ∷ s) ++ (0 ∷ [])

unfoldable pub used : List ℕ → List ℕ → ℕ
used t [] = 0
used t (c ∷ s) = spaces t + length (c ∷ s)

-- The parser whose character buffer is filled with `pre`.
abbrev pub at : Parser → List ℕ → List ℕ → Parser
at st pre post = record st { cbuf = pre ++ post; cp = length pre }

pub put_lem :
    (st : Parser) (pre post : List ℕ) (c : ℕ)
    → 0 < length post
    → put c (at st pre post) ≡ some (at st (pre ++ (c ∷ [])) (drop 1 post))
unfolding put
put_lem st pre post c h =
    let inside : length pre < length (pre ++ post) = omega (arith, length-append pre post) in
    let longer : length pre + 1 ≡ length (pre ++ (c ∷ [])) =
      omega (arith, length-append pre (c ∷ [])) in
    let written : set (pre ++ post) (length pre) c ≡ (pre ++ (c ∷ [])) ++ drop 1 post =
      set-append pre (length pre) c post refl h ∙ sym (append_assoc pre (c ∷ []) (drop 1 post)) in
    passes (lt→ltb _ _ inside)
    ∙ ap (λ b. some (record st { cbuf = b; cp = length pre + 1 })) written
    ∙ ap (λ n. some (record st { cbuf = (pre ++ (c ∷ [])) ++ drop 1 post; cp = n })) longer

space_of_nul : is_space 0 ≡ false
unfolding is_space
space_of_nul = refl

nul_ends : ends_token 0 ≡ true
unfolding ends_token is_space is_special
nul_ends = refl

pub not_nul : (c : ℕ) → c ≢ 0 → (c == 0) ≡ false
not_nul c h = ground arith

-- White space up to the first character of the token, or to the null byte.
abbrev pub Skipped : List ℕ → List ℕ → Type 0
Skipped t rest =
    ((skip_spaces (c_string t rest) ≡ some (length t, 0, rest)) × (first_token t ≡ []))
    ⊎ ((c : ℕ) × (s : List ℕ) × (skip_spaces (c_string t rest)
          ≡ some (spaces t, c, c_string s rest))
        × (spaces t + suc (length s) ≡ length t)
        × (c ≢ 0)
        × (is_space c ≡ false)
        × NoNul s
        × (first_token t ≡ (if is_special c then c ∷ [] else c ∷ word s)))

pub skip_spaces_lem : (t rest : List ℕ) → NoNul t → Skipped t rest
unfolding skip_spaces first_token spaces
skip_spaces_lem [] rest h = inl (ground (arith, space_of_nul), refl)
skip_spaces_lem (c ∷ s) rest h = elim (Bool-cases (is_space c)) [
  | inl e ↦ more (skip_spaces_lem s rest h.1) e
  | inr e ↦ inr (c, s, rw e refl, rw e (omega arith), h.0, e, h.1, rw e refl)
]
  where
    more : Skipped s rest → is_space c ≡ true → Skipped (c ∷ s) rest
    more (inl (p, q)) e =
        let nz : (c == 0) ≡ false = not_nul c h.0 in inl (rw (e, nz, p) refl, rw e q)
    more (inr (c', s', p, l, z, ns, nn, f)) e =
        let nz : (c == 0) ≡ false = not_nul c h.0 in
        inr (c', s', rw (e, nz, p) refl, rw e (omega arith), z, ns, nn, rw e f)

-- The character that ends a token is written, and overwritten later.
round_stop :
    (c : ℕ) (s : List ℕ) (st : Parser) (pre post : List ℕ)
    → ends_token c ≡ true
    → 0 < length post
    → copy_token (c ∷ s) (at st pre post) ≡ some (0, at st pre (c ∷ drop 1 post))
unfolding copy_token
round_stop c s st pre post e room =
    let back : length (pre ++ (c ∷ [])) - 1 ≡ length pre =
      omega (arith, length-append pre (c ∷ [])) in
    and_then
      (λ st'.
        if ends_token c
        then some (0, record st' { cp = st'.cp - 1 })
        else (copy_token s st' >>= λ r. some (suc r.0, r.1)))
      (put_lem st pre post c room)
    ∙ ap
        (λ b.
          if b
          then some (
            0,
            record (at st (pre ++ (c ∷ [])) (drop 1 post)) { cp = length (pre ++ (c ∷ [])) - 1 },
          )
          else (copy_token s (at st (pre ++ (c ∷ [])) (drop 1 post)) >>= λ r. some (suc r.0, r.1)))
        e
    ∙ ap (λ n. some (0, record st { cbuf = (pre ++ (c ∷ [])) ++ drop 1 post; cp = n })) back
    ∙ ap (λ b. some (0, record st { cbuf = b; cp = length pre }))
        (append_assoc pre (c ∷ []) (drop 1 post))

round_go :
    (c n : ℕ) (s : List ℕ) (st st2 : Parser) (pre post : List ℕ)
    → ends_token c ≡ false
    → 0 < length post
    → copy_token s (at st (pre ++ (c ∷ [])) (drop 1 post)) ≡ some (n, st2)
    → copy_token (c ∷ s) (at st pre post) ≡ some (suc n, st2)
unfolding copy_token
round_go c n s st st2 pre post e room rest =
    and_then
      (λ st'.
        if ends_token c
        then some (0, record st' { cp = st'.cp - 1 })
        else (copy_token s st' >>= λ r. some (suc r.0, r.1)))
      (put_lem st pre post c room)
    ∙ ap
        (λ b.
          if b
          then some (
            0,
            record (at st (pre ++ (c ∷ [])) (drop 1 post)) { cp = length (pre ++ (c ∷ [])) - 1 },
          )
          else (copy_token s (at st (pre ++ (c ∷ [])) (drop 1 post)) >>= λ r. some (suc r.0, r.1)))
        e
    ∙ and_then (λ r. some (suc r.0, r.1)) rest

word_stop : (c : ℕ) (s : List ℕ) → ends_token c ≡ true → word (c ∷ s) ≡ []
unfolding word
word_stop c s e = rw e refl

word_go : (c : ℕ) (s : List ℕ) → ends_token c ≡ false → word (c ∷ s) ≡ c ∷ word s
unfolding word
word_go c s e = rw e refl

pub drop_first : (n : ℕ) (s : List ℕ) → drop n (drop 1 s) ≡ drop (suc n) s
drop_first zero [] = refl
drop_first (suc n) [] = refl
drop_first n (x ∷ s) = refl

-- What copying the rest of a token makes of the buffer.
abbrev pub Copied : List ℕ → List ℕ → Parser → List ℕ → List ℕ → List ℕ → Type 0
Copied s rest st pre post w =
    (post' : List ℕ) × (copy_token (c_string s rest) (at st pre post)
      ≡ some (length w, at st (pre ++ w) post'))
    × (length post' + length w ≡ length post)
    × (drop 1 post' ≡ drop (suc (length w)) post)

stopped :
    (c : ℕ) (s t rest : List ℕ) (st : Parser) (pre post : List ℕ)
    → ends_token c ≡ true
    → 0 < length post
    → c_string t rest ≡ c ∷ s
    → Copied t rest st pre post []
stopped c s t rest st pre post e room same =
    let less = length-drop 1 post in
    (
      c ∷ drop 1 post,
      ap (λ u. copy_token u (at st pre post)) same
          ∙ round_stop c s st pre post e room
          ∙ ap (λ p. some (0, record st { cbuf = p ++ (c ∷ drop 1 post); cp = length p }))
              (sym (append-nil pre)),
      omega arith,
      refl,
    )

pub copy_token_lem :
    (s rest : List ℕ) (st : Parser) (pre post : List ℕ)
    → NoNul s
    → length s < length post
    → Copied s rest st pre post (word s)
unfolding word
copy_token_lem [] rest st pre post h room =
    stopped 0 rest [] rest st pre post nul_ends (omega arith) refl
copy_token_lem (c ∷ s) rest st pre post h room = elim (Bool-cases (ends_token c)) [
  | inl e ↦
      subst (Copied (c ∷ s) rest st pre post) (sym (word_stop c s e))
        (stopped c (c_string s rest) (c ∷ s) rest st pre post e (omega arith) refl)
  | inr e ↦
      let less = length-drop 1 post in
      let (post', p, l, behind) =
        copy_token_lem s rest st (pre ++ (c ∷ [])) (drop 1 post) h.1 (omega arith) in
      subst (Copied (c ∷ s) rest st pre post) (sym (word_go c s e)) (
        post',
        round_go c (length (word s)) (c_string s rest) st _ pre post e (omega arith) p
            ∙ ap (λ b. some (suc (length (word s)), at st b post'))
                (append_assoc pre (c ∷ []) (word s)),
        omega arith,
        behind ∙ drop_first (suc (length (word s))) post,
      )
]
