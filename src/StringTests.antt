-- ===== src/StringTests.antt =====
-- Runs of the string functions, and the theorems about them at concrete strings.
use tony_henry_niklas.Strings.Memory.{memmove, IsMoved, memmove_lem}
use tony_henry_niklas.Strings.Text.{strlen, strlcpy, strspn, strchr}
use tony_henry_niklas.Strings.Order.{NoNul, c_string, strlen_lem}
use tony_henry_niklas.Strings.Copy.{strlcpy_lem}
use tony_henry_niklas.Strings.Find.{strstr, find, strstr_lem}
use tony_henry_niklas.Strings.Token.{all_tokens}
use tony_henry_niklas.Strings.Token.Split.{IsText, fields}
use tony_henry_niklas.Strings.Token.Loop.{all_tokens_lem}
use tony_henry_niklas.Common.{
  ℕ, ◌+◌, ◌≡◌, refl, List, [], ◌∷◌, some, arith, ltb, if◌then◌else◌, length,
}

-- "ab", "b" and "b,b"
abbrev ab : List ℕ
ab = 97 ∷ 98 ∷ []

abbrev just_b : List ℕ
just_b = 98 ∷ []

abbrev comma : List ℕ
comma = 44 ∷ []

abbrev b_comma_b : List ℕ
b_comma_b = 98 ∷ 44 ∷ 98 ∷ []

ab-NoNul : NoNul ab
ab-NoNul = ((λ e. cc), ((λ e. cc), tt))

b-NoNul : NoNul just_b
b-NoNul = ((λ e. cc), tt)

b_comma_b-IsText : IsText b_comma_b
b_comma_b-IsText = ((λ e. cc), omega arith, ((λ e. cc), omega arith, ((λ e. cc), omega arith, tt)))

span_test : strspn (c_string ab []) (c_string ab []) ≡ some 2
unfolding strspn strchr
span_test = refl

memmove_lem_example :
    (m : List ℕ) × (memmove (1 ∷ 2 ∷ 3 ∷ []) 0 1 2 ≡ some (if ltb 0 1 then 0 + 2 else 0, m))
    × IsMoved (1 ∷ 2 ∷ 3 ∷ []) 0 1 2 m
memmove_lem_example = memmove_lem (1 ∷ 2 ∷ 3 ∷ []) 0 1 2 (omega arith) (omega arith)

strlen_lem_example : strlen (c_string ab (7 ∷ [])) ≡ some (length ab)
strlen_lem_example = strlen_lem ab (7 ∷ []) ab-NoNul

strlcpy_lem_example : strlcpy (9 ∷ 9 ∷ 9 ∷ []) (c_string ab []) 2 ≡ some (2, 97 ∷ 0 ∷ 9 ∷ [])
strlcpy_lem_example = strlcpy_lem (9 ∷ 9 ∷ 9 ∷ []) ab [] 2 ab-NoNul (omega arith)

strstr_lem_example : strstr (c_string ab []) (c_string just_b []) ≡ some (find ab just_b 0)
strstr_lem_example = strstr_lem ab just_b [] [] ab-NoNul b-NoNul

all_tokens_lem_example :
    all_tokens 4 (c_string b_comma_b []) (c_string comma []) ≡ some (fields comma [] b_comma_b)
all_tokens_lem_example =
    all_tokens_lem 4 b_comma_b [] comma [] b_comma_b-IsText ((λ e. cc), tt) (omega arith)

-- The two tokens of "b,b".
tokens_test : fields comma [] b_comma_b ≡ just_b ∷ just_b ∷ []
unfolding fields
tokens_test = refl
