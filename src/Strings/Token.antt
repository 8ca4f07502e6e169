-- ===== src/Strings/Token.antt =====
-- strtok_r of lib/string.c, and the loop over it that its comment shows.
pub mod Split
pub mod Loop
use mathlib.Core.Option
use tony_henry_niklas.Strings.Text.{strlen, strchr}
use tony_henry_niklas.Common.{
  ℕ, zero, suc, ◌+◌, ◌-◌, ◌*◌, ◌/◌, ◌%◌, ◌^◌, ◌≤◌, ◌<◌, ◌≡◌, refl, sym, ap, ◌∙◌, ◌≢◌, ◌↔◌, ◌⊎◌, inl,
  inr, Bool, true, false, ◌&&◌, ◌||◌, not, List, [], ◌∷◌, ◌++◌, map, Option, none, some, arith, ltb,
  leb, ◌==◌, if◌then◌else◌, length, get_elem?, set, ◌>>=◌, Bool-cases, Option-cases, ltb→lt, leb→le,
  lt→ltb, ==_iff, take, drop, replicate, length-set, get_elem?-set_self, get_elem?-set_ne,
  length-append, get_or,
}

-- The string from `s` on as the call leaves it, with the token and the saved pointer as offsets.
pub record Step : Type 0 where
  pub bytes : List ℕ
  pub token : Option ℕ
  pub save : ℕ

-- `while (strchr (delimiters, *s) != NULL)`: how far `s` goes, and whether to a null byte.
unfoldable pub skip_delimiters : List ℕ → List ℕ → Option (ℕ × Bool)
skip_delimiters [] delimiters = none
skip_delimiters (c ∷ s) delimiters =
    let rest = skip_delimiters s delimiters in
    strchr delimiters c >>= λ found. elim found [
      | none ↦ some (0, false)
      | some _ ↦ if c == 0 then some (0, true) else Option.map (λ p. (suc p.0, p.1)) rest
    ]

-- `while (strchr (delimiters, *s) == NULL)`
unfoldable pub skip_token : List ℕ → List ℕ → Option ℕ
skip_token [] delimiters = none
skip_token (c ∷ s) delimiters =
    let rest = skip_token s delimiters in
    strchr delimiters c >>= λ found. elim found [ none ↦ Option.map suc rest | some _ ↦ some 0 ]

pub strtok_r : List ℕ → List ℕ → Option Step
strtok_r s delimiters = skip_delimiters s delimiters >>= λ p.
    if p.1
    then some (record { bytes = s; token = none; save = p.0 })
    else (skip_token (drop p.0 s) delimiters >>= λ n. get_elem? s (p.0 + n) >>= λ c. some (
        if c == 0
        then record { bytes = s; token = some p.0; save = p.0 + n }
        else record { bytes = set s (p.0 + n) 0; token = some p.0; save = p.0 + n + 1 }))

-- `for (token = strtok_r (s, ...); token != NULL; token = strtok_r (NULL, ...))`, which reads each
-- token as a string. Fuel bounds the number of calls.
pub all_tokens : ℕ → List ℕ → List ℕ → Option (List (List ℕ))
all_tokens zero s delimiters = none
all_tokens (suc fuel) s delimiters = strtok_r s delimiters >>= λ step. elim step.token [
  | none ↦ some []
  | some t ↦ strlen (drop t step.bytes) >>= λ n.
      all_tokens fuel (drop step.save step.bytes) delimiters >>= λ rest.
      some (take n (drop t step.bytes) ∷ rest)
]
