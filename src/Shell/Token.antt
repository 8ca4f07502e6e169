-- ===== src/Shell/Token.antt =====
-- nexttoken of code/parse.c takes the first token of a text into the character buffer.
use mathlib.Core.List.{append_assoc, append-nil}
use tony_henry_niklas.Strings.Order.{NoNul, c_string}
use tony_henry_niklas.Strings.Copy.{length-drop}
use tony_henry_niklas.Shell.{
  Parser, put, skip_spaces, copy_token, read_token, nexttoken, is_special,
}
use tony_henry_niklas.Shell.Bytes.{
  word, first_token, spaces, ended, used, at, Skipped, put_lem, not_nul, skip_spaces_lem,
  copy_token_lem, drop_first,
}
use tony_henry_niklas.Common.{
  ℕ, suc, ◌+◌, ◌≤◌, ◌<◌, ◌≡◌, refl, sym, ap, ◌∙◌, inl, inr, true, false, List, [], ◌∷◌, ◌++◌, some,
  arith, ◌==◌, and_then, chosen, passed_over, length, ◌>>=◌, Bool-cases, subst, drop, length-append,
}

-- The token stands behind what was in the buffer, with its null byte, and no byte before it or behind
-- its null byte has changed.
abbrev pub Taken : List ℕ → List ℕ → Parser → List ℕ → List ℕ → List ℕ → Type 0
Taken t rest st pre post tok =
    (post' : List ℕ) × (nexttoken (c_string t rest) (at st pre post)
      ≡ some (used t tok, length pre, at st (pre ++ ended tok) post'))
    × (length post' + length (ended tok) ≡ length post)
    × (post' ≡ drop (length (ended tok)) post)

read_end : (st : Parser) (n : ℕ) (s : List ℕ) → read_token st (n, 0, s) ≡ some (0, st.cp, st)
unfolding read_token
read_end st n s = refl

read_special :
    (st : Parser) (n c : ℕ) (s pre post : List ℕ)
    → (c == 0) ≡ false
    → is_special c ≡ true
    → 2 ≤ length post
    → read_token (at st pre post) (n, c, s)
      ≡ some (n + 1, length pre, at st ((pre ++ (c ∷ [])) ++ (0 ∷ [])) (drop 1 (drop 1 post)))
unfolding read_token
read_special st n c s pre post z sp room =
    let less = length-drop 1 post in
    passed_over _ z
    ∙ chosen _ sp
    ∙ and_then (λ st1. put 0 st1 >>= λ st2. some (n + 1, length pre, st2))
        (put_lem st pre post c (omega arith))
    ∙ and_then (λ st2. some (n + 1, length pre, st2))
        (put_lem st (pre ++ (c ∷ [])) (drop 1 post) 0 (omega arith))

read_word :
    (st : Parser) (n k c : ℕ) (s pre post pre' post' : List ℕ)
    → (c == 0) ≡ false
    → is_special c ≡ false
    → 0 < length post
    → copy_token s (at st (pre ++ (c ∷ [])) (drop 1 post)) ≡ some (k, at st pre' post')
    → 0 < length post'
    → read_token (at st pre post) (n, c, s)
      ≡ some (n + 1 + k, length pre, at st (pre' ++ (0 ∷ [])) (drop 1 post'))
unfolding read_token
read_word st n k c s pre post pre' post' z sp room copied room' =
    passed_over _ z
    ∙ passed_over _ sp
    ∙ and_then
        (λ st1. copy_token s st1 >>= λ t. put 0 t.1 >>= λ st2. some (n + 1 + t.0, length pre, st2))
        (put_lem st pre post c room)
    ∙ and_then (λ t. put 0 t.1 >>= λ st2. some (n + 1 + t.0, length pre, st2)) copied
    ∙ and_then (λ st2. some (n + 1 + k, length pre, st2)) (put_lem st pre' post' 0 room')

pub length-word : (s : List ℕ) → length (word s) ≤ length s
unfolding word
length-word [] = omega arith
length-word (c ∷ s) = ground (arith, length-word s)

took_none :
    (t rest : List ℕ) (st : Parser) (pre post : List ℕ)
    → skip_spaces (c_string t rest) ≡ some (length t, 0, rest)
    → Taken t rest st pre post []
unfolding nexttoken used ended
took_none t rest st pre post skip = (
  post,
  and_then (read_token (at st pre post)) skip
      ∙ read_end (at st pre post) (length t) rest
      ∙ ap (λ b. some (0, length pre, record st { cbuf = b ++ post; cp = length b }))
          (sym (append-nil pre)),
  omega arith,
  refl,
)

took_special :
    (t s rest : List ℕ) (c : ℕ) (st : Parser) (pre post : List ℕ)
    → skip_spaces (c_string t rest) ≡ some (spaces t, c, c_string s rest)
    → (c == 0) ≡ false
    → is_special c ≡ true
    → 2 ≤ length post
    → Taken t rest st pre post (c ∷ [])
unfolding nexttoken used ended
took_special t s rest c st pre post skip z sp room =
    let less = length-drop 1 post in
    let less' = length-drop 1 (drop 1 post) in
    (
      drop 1 (drop 1 post),
      and_then (read_token (at st pre post)) skip
          ∙ read_special st (spaces t) c (c_string s rest) pre post z sp room
          ∙ ap (λ b. some (spaces t + 1, length pre, at st b (drop 1 (drop 1 post))))
              (append_assoc pre (c ∷ []) (0 ∷ [])),
      omega arith,
      drop_first 1 post,
    )

took_word :
    (t s rest : List ℕ) (c : ℕ) (st : Parser) (pre post : List ℕ)
    → skip_spaces (c_string t rest) ≡ some (spaces t, c, c_string s rest)
    → (c == 0) ≡ false
    → is_special c ≡ false
    → NoNul s
    → length s + 3 ≤ length post
    → Taken t rest st pre post (c ∷ word s)
unfolding nexttoken used ended
took_word t s rest c st pre post skip z sp nn room =
    let less = length-drop 1 post in
    let (post', e, l, behind) =
      copy_token_lem s rest st (pre ++ (c ∷ [])) (drop 1 post) nn (omega arith) in
    let less' = length-drop 1 post' in
    let few = length-word s in
    let longer = length-append (c ∷ word s) (0 ∷ []) in
    let whole : suc (suc (length (word s))) ≡ length (ended (c ∷ word s)) = omega (arith, longer) in
    let sum : spaces t + 1 + length (word s) ≡ spaces t + suc (length (word s)) = omega arith in
    (
      drop 1 post',
      and_then (read_token (at st pre post)) skip
          ∙ read_word st (spaces t) (length (word s)) c (c_string s rest) pre post _ post' z sp
              (omega arith) e (omega arith)
          ∙ ap (λ b. some (spaces t + 1 + length (word s), length pre, at st b (drop 1 post')))
              (ap (λ b. b ++ (0 ∷ [])) (append_assoc pre (c ∷ []) (word s))
                ∙ append_assoc pre (c ∷ word s) (0 ∷ []))
          ∙ ap (λ n. some (n, length pre, at st (pre ++ ((c ∷ word s) ++ (0 ∷ []))) (drop 1 post')))
              sum,
      omega arith,
      behind ∙ drop_first (suc (length (word s))) post ∙ ap (λ n. drop n post) whole,
    )

-- nexttoken on a text, the buffer having room for its bytes and two more, stores the first token
-- of the text behind what the buffer holds, ended by a null byte, and returns its place and how
-- many characters it and the white space before it take; for a blank text it returns 0 and the
-- buffer stays as it was. No byte before the token or behind its null byte changes, and no write
-- is out of bounds.
pub nexttoken_lem :
    (t rest : List ℕ) (st : Parser) (pre post : List ℕ)
    → NoNul t
    → length t + 2 ≤ length post
    → Taken t rest st pre post (first_token t)
nexttoken_lem t rest st pre post h room = took (skip_spaces_lem t rest h)
  where
    took : Skipped t rest → Taken t rest st pre post (first_token t)
    took (inl (skip, e)) =
        subst (Taken t rest st pre post) (sym e) (took_none t rest st pre post skip)
    took (inr (c, s, skip, l, nz, ns, nn, e)) =
        let z = not_nul c nz in
        elim (Bool-cases (is_special c)) [
          | inl sp ↦
              let token = e ∙ chosen _ sp in
              subst (Taken t rest st pre post) (sym token)
                (took_special t s rest c st pre post skip z sp (omega arith))
          | inr sp ↦
              let token = e ∙ passed_over _ sp in
              subst (Taken t rest st pre post) (sym token)
                (took_word t s rest c st pre post skip z sp nn (omega arith))
        ]
