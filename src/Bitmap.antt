-- ===== src/Bitmap.antt =====
-- lib/kernel/bitmap.c of OS-lab2-master/pintos/src, on 32-bit elements. ASSERT failures and
-- accesses outside `bits` are faults, `none`.
pub mod Single
pub mod Range
pub mod Scan
pub mod Take
use Prim.Native.Nat.{bit_and, bit_or, bit_xor}
use tony_henry_niklas.Common.{
  ℕ, zero, suc, ◌+◌, ◌-◌, ◌*◌, ◌/◌, ◌%◌, ◌^◌, ◌≤◌, ◌<◌, ◌≡◌, refl, sym, ap, ◌∙◌, ◌≢◌, ◌↔◌, ◌⊎◌, inl,
  inr, Bool, true, false, ◌&&◌, ◌||◌, not, List, [], ◌∷◌, ◌++◌, map, Option, none, some, arith, ltb,
  leb, ◌==◌, check, if◌then◌else◌, length, get_elem?, set, ◌>>=◌, Bool-cases, Option-cases, subst,
  fun_ext, ltb→lt, leb→le, lt→ltb, ==_iff, take, drop, replicate, length-set, get_elem?-set_self,
  get_elem?-set_ne, length-append, get_or,
}

pub record Bitmap : Type 0 where
  pub bit_cnt : ℕ
  pub bits : List ℕ

-- sizeof (elem_type) * CHAR_BIT
abbrev pub elem_bits : ℕ
elem_bits = 32

abbrev pub elem_idx : ℕ → ℕ
elem_idx bit_idx = bit_idx / elem_bits

abbrev pub bit_mask : ℕ → ℕ
bit_mask bit_idx = 2 ^ (bit_idx % elem_bits)

-- DIV_ROUND_UP (bit_cnt, ELEM_BITS), on a size_t of 32 bits.
abbrev pub elem_cnt : ℕ → ℕ
elem_cnt bit_cnt = (bit_cnt + elem_bits - 1) % 2 ^ 32 / elem_bits

abbrev pub byte_cnt : ℕ → ℕ
byte_cnt bit_cnt = 4 * elem_cnt bit_cnt

unfoldable pub last_mask : Bitmap → ℕ
last_mask b =
    let last_bits = b.bit_cnt % elem_bits in
    if last_bits == 0 then 2 ^ 32 - 1 else 2 ^ last_bits - 1

-- The read-modify-write of one element by a single instruction.
abbrev pub on_elem : Bitmap → ℕ → (ℕ → ℕ) → Option Bitmap
on_elem b idx f = get_elem? b.bits idx >>= λ e. some (record b { bits = set b.bits idx (f e) })

unfoldable pub bitmap_mark : Bitmap → ℕ → Option Bitmap
bitmap_mark b bit_idx = on_elem b (elem_idx bit_idx) (λ e. bit_or e (bit_mask bit_idx))

-- `~mask`
unfoldable pub bitmap_reset : Bitmap → ℕ → Option Bitmap
bitmap_reset b bit_idx =
    on_elem b (elem_idx bit_idx) (λ e. bit_and e (2 ^ 32 - 1 - bit_mask bit_idx))

unfoldable pub bitmap_flip : Bitmap → ℕ → Option Bitmap
bitmap_flip b bit_idx = on_elem b (elem_idx bit_idx) (λ e. bit_xor e (bit_mask bit_idx))

unfoldable pub bitmap_set : Bitmap → ℕ → Bool → Option Bitmap
bitmap_set b idx value =
    check (ltb idx b.bit_cnt) (if value then bitmap_mark b idx else bitmap_reset b idx)

unfoldable pub bitmap_test : Bitmap → ℕ → Option Bool
bitmap_test b idx =
    check (ltb idx b.bit_cnt)
      (get_elem? b.bits (elem_idx idx) >>= λ e. some (not (bit_and e (bit_mask idx) == 0)))

-- `for (i = 0; i < cnt; i++) bitmap_set (b, start + i, value);` with `cnt` rounds left.
unfoldable pub set_from : ℕ → ℕ → Bool → Bitmap → Option Bitmap
set_from zero idx value b = some b
set_from (suc cnt) idx value b = bitmap_set b idx value >>= λ b'. set_from cnt (idx + 1) value b'

-- The last two of the three assertions; `start + cnt` is a size_t.
abbrev pub in_range : Bitmap → ℕ → ℕ → Bool
in_range b start cnt = leb start b.bit_cnt && leb ((start + cnt) % 2 ^ 32) b.bit_cnt

unfoldable pub bitmap_set_multiple : Bitmap → ℕ → ℕ → Bool → Option Bitmap
bitmap_set_multiple b start cnt value = check (in_range b start cnt) (set_from cnt start value b)

unfoldable pub bitmap_set_all : Bitmap → Bool → Option Bitmap
bitmap_set_all b value = bitmap_set_multiple b 0 b.bit_cnt value

abbrev pub bool_eq : Bool → Bool → Bool
bool_eq true y = y
bool_eq false y = not y

unfoldable pub count_from : ℕ → ℕ → Bool → ℕ → Bitmap → Option ℕ
count_from zero idx value value_cnt b = some value_cnt
count_from (suc cnt) idx value value_cnt b = bitmap_test b idx >>= λ v.
    count_from cnt (idx + 1) value (if bool_eq v value then value_cnt + 1 else value_cnt) b

unfoldable pub bitmap_count : Bitmap → ℕ → ℕ → Bool → Option ℕ
bitmap_count b start cnt value = check (in_range b start cnt) (count_from cnt start value 0 b)

unfoldable pub contains_from : ℕ → ℕ → Bool → Bitmap → Option Bool
contains_from zero idx value b = some false
contains_from (suc cnt) idx value b =
    let rest = contains_from cnt (idx + 1) value b in
    bitmap_test b idx >>= λ v. if bool_eq v value then some true else rest

unfoldable pub bitmap_contains : Bitmap → ℕ → ℕ → Bool → Option Bool
bitmap_contains b start cnt value = check (in_range b start cnt) (contains_from cnt start value b)

unfoldable pub bitmap_any : Bitmap → ℕ → ℕ → Option Bool
bitmap_any b start cnt = bitmap_contains b start cnt true

unfoldable pub bitmap_none : Bitmap → ℕ → ℕ → Option Bool
bitmap_none b start cnt = bitmap_contains b start cnt true >>= λ v. some (not v)

unfoldable pub bitmap_all : Bitmap → ℕ → ℕ → Option Bool
bitmap_all b start cnt = bitmap_contains b start cnt false >>= λ v. some (not v)

-- BITMAP_ERROR is SIZE_MAX.
abbrev pub bitmap_error : ℕ
bitmap_error = 2 ^ 32 - 1

-- `for (i = start; i <= last; i++)`, with the rounds left.
unfoldable pub scan_from : ℕ → ℕ → ℕ → Bool → Bitmap → Option ℕ
scan_from zero i cnt value b = some bitmap_error
scan_from (suc rounds) i cnt value b =
    let rest = scan_from rounds (i + 1) cnt value b in
    bitmap_contains b i cnt (not value) >>= λ v. if v then rest else some i

unfoldable pub bitmap_scan : Bitmap → ℕ → ℕ → Bool → Option ℕ
bitmap_scan b start cnt value = check (leb start b.bit_cnt) (
    let last = b.bit_cnt - cnt in
    if leb cnt b.bit_cnt then scan_from (last + 1 - start) start cnt value b else some bitmap_error)

-- The pair is the returned index and the bitmap.
unfoldable pub bitmap_scan_and_flip : Bitmap → ℕ → ℕ → Bool → Option (ℕ × Bitmap)
bitmap_scan_and_flip b start cnt value = bitmap_scan b start cnt value >>= λ idx.
    if idx == bitmap_error
    then some (idx, b)
    else (bitmap_set_multiple b idx cnt (not value) >>= λ b'. some (idx, b'))

-- What malloc hands out may hold anything: `bits` is the block for the elements, and `none` stands
-- for a null pointer. The first argument is whether the header's block was there.
unfoldable pub bitmap_create : Bool → Option (List ℕ) → ℕ → Option (Option Bitmap)
bitmap_create header block bit_cnt =
    if header
    then elim block [
      | some bits ↦
          bitmap_set_all (record { bit_cnt = bit_cnt; bits = bits }) false >>= λ b. some (some b)
      | none ↦
          if bit_cnt == 0
          then (bitmap_set_all (record { bit_cnt = bit_cnt; bits = [] }) false >>= λ b.
              some (some b))
          else some none
    ]
    else some none
