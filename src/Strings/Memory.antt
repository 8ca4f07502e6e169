-- ===== src/Strings/Memory.antt =====
-- memcpy, memmove, memcmp, memchr and memset of lib/string.c.
use mathlib.Core.Option
use tony_henry_niklas.Common.{
  ℕ, zero, suc, ◌+◌, ◌-◌, ◌≤◌, ◌<◌, ◌≡◌, refl, ◌∙◌, inl, inr, ◌&&◌, List, [], ◌∷◌, ◌++◌, Option,
  none, some, arith, ltb, leb, ◌==◌, if◌then◌else◌, length, get_elem?, set, ◌>>=◌, Bool-cases,
  ltb→lt, lt→ltb, ==_iff, take, drop, length-set, get_elem?-set_self, get_elem?-set_ne,
}

-- The loop of `memcpy`, on the bytes from `dst` and from `src` on.
unfoldable pub memcpy : List ℕ → List ℕ → ℕ → Option (List ℕ)
memcpy dst src zero = some dst
memcpy [] src (suc n) = none
memcpy (d ∷ ds) [] (suc n) = none
memcpy (d ∷ ds) (x ∷ xs) (suc n) = Option.map (λ r. x ∷ r) (memcpy ds xs n)

-- One memory, since the blocks may overlap.
abbrev pub store : List ℕ → ℕ → ℕ → Option (List ℕ)
store mem i v = if ltb i (length mem) then some (set mem i v) else none

-- `while (size-- > 0) *dst++ = *src++;`
move_up : List ℕ → ℕ → ℕ → ℕ → Option (List ℕ)
move_up mem dst src zero = some mem
move_up mem dst src (suc n) = do
  v ← get_elem? mem src
  mem' ← store mem dst v
  move_up mem' (dst + 1) (src + 1) n

-- `while (size-- > 0) *--dst = *--src;`
move_down : List ℕ → ℕ → ℕ → ℕ → Option (List ℕ)
move_down mem dst src zero = some mem
move_down mem dst src (suc n) = do
  v ← get_elem? mem (src - 1)
  mem' ← store mem (dst - 1) v
  move_down mem' (dst - 1) (src - 1) n

-- The pair is the returned pointer and the memory. Each branch returns `dst` as its loop leaves it.
pub memmove : List ℕ → ℕ → ℕ → ℕ → Option (ℕ × List ℕ)
memmove mem dst src size =
    if ltb dst src
    then Option.map (λ m. (dst + size, m)) (move_up mem dst src size)
    else Option.map (λ m. (dst + size - size, m)) (move_down mem (dst + size) (src + size) size)

-- What `memcpy` leaves: the copied bytes, then the rest of the destination.
pub memcpy_lem :
    (dst src : List ℕ) (n : ℕ)
    → n ≤ length dst
    → n ≤ length src
    → memcpy dst src n ≡ some (take n src ++ drop n dst)
unfolding memcpy
memcpy_lem dst src zero h k = refl
memcpy_lem [] src (suc n) h k = absurd (omega arith)
memcpy_lem (d ∷ ds) [] (suc n) h k = absurd (omega arith)
memcpy_lem (d ∷ ds) (x ∷ xs) (suc n) h k = rw (memcpy_lem ds xs n (omega arith) (omega arith))

pub get_elem?_total : (m : List ℕ) (i : ℕ) → i < length m → (v : ℕ) × (get_elem? m i ≡ some v)
get_elem?_total [] i h = absurd (omega arith)
get_elem?_total (x ∷ m) zero h = (x, refl)
get_elem?_total (x ∷ m) (suc i) h = get_elem?_total m i (omega arith)

get_elem?-set :
    (m : List ℕ) (i j v : ℕ)
    → i < length m
    → get_elem? (set m i v) j ≡ (if i == j then some v else get_elem? m j)
get_elem?-set m i j v h = elim (Bool-cases (i == j)) [
  | inl e ↦ let p = (==_iff i j).0 e in rw (e, ← p) (get_elem?-set_self m i v h)
  | inr e ↦ rw e (get_elem?-set_ne m v (λ p. absurd (ground arith)))
]

-- The byte at `i` after a block of `n` bytes has gone from `src` to `dst`.
abbrev pub moved : List ℕ → ℕ → ℕ → ℕ → ℕ → Option ℕ
moved mem dst src n i =
    if leb dst i && ltb i (dst + n) then get_elem? mem (src + (i - dst)) else get_elem? mem i

abbrev pub IsMoved : List ℕ → ℕ → ℕ → ℕ → List ℕ → Type 0
IsMoved mem dst src n m =
    (length m ≡ length mem) × ((i : ℕ) → get_elem? m i ≡ moved mem dst src n i)

moved-step_up :
    (mem : List ℕ) (dst src n i v : ℕ)
    → dst < src
    → dst < length mem
    → get_elem? mem src ≡ some v
    → moved (set mem dst v) (dst + 1) (src + 1) n i ≡ moved mem dst src (suc n) i
moved-step_up mem dst src n i v lt h e =
    ground
      (arith, get_elem?-set mem dst (src + 1 + (i - (dst + 1))) v h, get_elem?-set mem dst i v h)

moved-step_down :
    (mem : List ℕ) (dst src n i v to from : ℕ)
    → src ≤ dst
    → dst + n < length mem
    → to ≡ dst + n
    → from ≡ src + n
    → get_elem? mem from ≡ some v
    → moved (set mem to v) dst src n i ≡ moved mem dst src (suc n) i
moved-step_down mem dst src n i v to from lt h t f e = ground (
  arith,
  get_elem?-set mem to (src + (i - dst)) v (omega arith),
  get_elem?-set mem to i v (omega arith),
)

move_up_lem :
    (n dst src : ℕ) (mem : List ℕ)
    → dst < src
    → src + n ≤ length mem
    → (m : List ℕ) × (move_up mem dst src n ≡ some m) × IsMoved mem dst src n m
unfolding move_up
move_up_lem zero dst src mem lt h = (mem, refl, (refl, λ i. ground arith))
move_up_lem (suc n) dst src mem lt h =
    let (v, e) = get_elem?_total mem src (omega arith) in
    let l = length-set mem dst v in
    let (m, q, p) = move_up_lem n (dst + 1) (src + 1) (set mem dst v) (omega arith) (omega arith) in
    (
      m,
      rw (e, lt→ltb dst (length mem) (omega arith)) q,
      (p.0 ∙ l, λ i. p.1 i ∙ moved-step_up mem dst src n i v lt (omega arith) e),
    )

-- `dst` and `src` stand here for the first bytes: the loop starts behind the last ones.
move_down_lem :
    (n dst src dst_end src_end : ℕ) (mem : List ℕ)
    → src ≤ dst
    → dst + n ≤ length mem
    → dst_end ≡ dst + n
    → src_end ≡ src + n
    → (m : List ℕ) × (move_down mem dst_end src_end n ≡ some m) × IsMoved mem dst src n m
unfolding move_down
move_down_lem zero dst src dst_end src_end mem le h d s = (mem, refl, (refl, λ i. ground arith))
move_down_lem (suc n) dst src dst_end src_end mem le h d s =
    let d' : dst_end - 1 ≡ dst + n = omega arith in
    let s' : src_end - 1 ≡ src + n = omega arith in
    let (v, e) = get_elem?_total mem (src_end - 1) (omega arith) in
    let l = length-set mem (dst_end - 1) v in
    let (m, q, p) =
      move_down_lem n dst src (dst_end - 1) (src_end - 1) (set mem (dst_end - 1) v) le (omega arith)
        d' s' in
    (
      m,
      rw (e, lt→ltb (dst_end - 1) (length mem) (omega arith)) q,
      (
        p.0 ∙ l,
        λ i.
            p.1 i
            ∙ moved-step_down mem dst src n i v (dst_end - 1) (src_end - 1) le (omega arith) d' s'
                e,
      ),
    )

-- Overlapping or not, memmove moves a block inside the memory, leaves the bytes outside it alone
-- and keeps the size of the memory, with no access out of bounds; the pointer it returns is the
-- start of the block only where the destination does not stand before the source.
pub memmove_lem :
    (mem : List ℕ) (dst src size : ℕ)
    → dst + size ≤ length mem
    → src + size ≤ length mem
    → (m : List ℕ) × (memmove mem dst src size ≡ some (if ltb dst src then dst + size else dst, m))
      × IsMoved mem dst src size m
unfolding memmove
memmove_lem mem dst src size h k = elim (Bool-cases (ltb dst src)) [
  | inl up ↦
      let (m, q, p) = move_up_lem size dst src mem (ltb→lt dst src up) k in (m, rw (up, q), p)
  | inr down ↦
      let (m, q, p) =
        move_down_lem size dst src (dst + size) (src + size) mem (ground arith) h refl refl in
      let back : dst + size - size ≡ dst = omega arith in (m, rw (down, q, back), p)
]
