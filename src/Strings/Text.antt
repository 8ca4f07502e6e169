-- ===== src/Strings/Text.antt =====
-- The functions of lib/string.c on strings that end in a null byte, and memcmp, memchr, memset.
use mathlib.Core.Option
use tony_henry_niklas.Common.Int.{ℤ, pos, negsuc}
use tony_henry_niklas.Strings.Memory.{memcpy, store}
use tony_henry_niklas.Common.{
  ℕ, zero, suc, ◌+◌, ◌-◌, ◌%◌, ◌&&◌, not, List, [], ◌∷◌, ◌++◌, Option, none, some, ltb, ◌==◌,
  if◌then◌else◌, ◌>>=◌, take, drop,
}

unfoldable pub strlen : List ℕ → Option ℕ
strlen [] = none
strlen (c ∷ s) = if c == 0 then some 0 else Option.map suc (strlen s)

-- `string[length] != 0 && length < maxlen`: the byte is read first.
unfoldable pub strnlen : List ℕ → ℕ → Option ℕ
strnlen [] n = none
strnlen (c ∷ s) zero = some 0
strnlen (c ∷ s) (suc n) = if c == 0 then some 0 else Option.map suc (strnlen s n)

unfoldable pub memcmp : List ℕ → List ℕ → ℕ → Option ℤ
memcmp a b zero = some (pos 0)
memcmp [] b (suc n) = none
memcmp (x ∷ a) [] (suc n) = none
memcmp (x ∷ a) (y ∷ b) (suc n) =
    let rest = memcmp a b n in if x == y then rest else some (if ltb y x then pos 1 else negsuc 0)

unfoldable pub strcmp : List ℕ → List ℕ → Option ℤ
strcmp [] b = none
strcmp (x ∷ a) [] = none
strcmp (x ∷ a) (y ∷ b) =
    let rest = strcmp a b in
    if not (x == 0) && x == y
    then rest
    else some (if ltb x y then negsuc 0 else if ltb y x then pos 1 else pos 0)

-- The search of `memchr`, `ch` cast to an unsigned char.
memchr_byte : List ℕ → ℕ → ℕ → Option (Option ℕ)
memchr_byte block ch zero = some none
memchr_byte [] ch (suc n) = none
memchr_byte (x ∷ block) ch (suc n) =
    if x == ch then some (some 0) else Option.map (Option.map suc) (memchr_byte block ch n)

unfoldable pub memchr : List ℕ → ℕ → ℕ → Option (Option ℕ)
unfolding memchr_byte
memchr block ch size = memchr_byte block (ch % 256) size

unfoldable pub strchr_byte : List ℕ → ℕ → Option (Option ℕ)
strchr_byte [] c = none
strchr_byte (x ∷ s) c =
    if x == c
    then some (some 0)
    else if x == 0
    then some none
    else Option.map (Option.map suc) (strchr_byte s c)

unfoldable pub strchr : List ℕ → ℕ → Option (Option ℕ)
unfolding strchr_byte
strchr s c = strchr_byte s (c % 256)

unfoldable pub strcspn : List ℕ → List ℕ → Option ℕ
strcspn [] stop = none
strcspn (c ∷ s) stop =
    let rest = strcspn s stop in
    if c == 0
    then some 0
    else strchr stop c >>= λ r. elim r [ some _ ↦ some 0 | none ↦ Option.map suc rest ]

unfoldable pub strspn : List ℕ → List ℕ → Option ℕ
strspn [] skip = none
strspn (c ∷ s) skip =
    let rest = strspn s skip in
    if c == 0
    then some 0
    else strchr skip c >>= λ r. elim r [ some _ ↦ Option.map suc rest | none ↦ some 0 ]

unfoldable pub strpbrk : List ℕ → List ℕ → Option (Option ℕ)
strpbrk [] stop = none
strpbrk (c ∷ s) stop =
    let rest = strpbrk s stop in
    if c == 0
    then some none
    else strchr stop c >>= λ r. elim r [
      | some _ ↦ some (some 0)
      | none ↦ Option.map (Option.map suc) rest
    ]

-- `i` is the offset of the scan, `p` that of the last match.
strrchr_from : List ℕ → ℕ → ℕ → Option ℕ → Option (Option ℕ)
strrchr_from [] c i p = none
strrchr_from (x ∷ s) c i p =
    let rest = strrchr_from s c (i + 1) (if x == c then some i else p) in
    if x == 0 then some p else rest

unfoldable pub strrchr : List ℕ → ℕ → Option (Option ℕ)
unfolding strrchr_from
strrchr s c = strrchr_from s (c % 256) 0 none

unfoldable pub memset : List ℕ → ℕ → ℕ → Option (List ℕ)
memset dst value zero = some dst
memset [] value (suc n) = none
memset (d ∷ dst) value (suc n) = Option.map (λ r. (value % 256) ∷ r) (memset dst value n)

-- The pair is the returned length and the destination.
unfoldable pub strlcpy : List ℕ → List ℕ → ℕ → Option (ℕ × List ℕ)
strlcpy dst src size = do
  src_len ← strlen src
  let dst_len = if ltb src_len (size - 1) then src_len else size - 1
  if ltb 0 size
      then (do
        copied ← memcpy dst src dst_len
        ended ← store copied dst_len 0
        some (src_len, ended))
      else some (src_len, dst)

unfoldable pub strlcat : List ℕ → List ℕ → ℕ → Option (ℕ × List ℕ)
strlcat dst src size = do
  src_len ← strlen src
  dst_len ← strlen dst
  let copy_cnt = if ltb src_len (size - dst_len - 1) then src_len else size - dst_len - 1
  if ltb 0 size && ltb dst_len size
      then (do
        tail ← memcpy (drop dst_len dst) src copy_cnt
        ended ← store (take dst_len dst ++ tail) (dst_len + copy_cnt) 0
        some (src_len + dst_len, ended))
      else some (src_len + dst_len, dst)
