-- ===== src/Arithmetic.antt =====
-- Division of 64-bit integers by 32-bit steps, lib/arithmetic.c of OS-lab2-master/pintos/src. An
-- unsigned integer of w bits is a number below 2 ^ w, a signed one the number with the same bits.
-- A divide error is `none`.
pub mod Nlz
pub mod Narrow
pub mod Correction
pub mod Wide
pub mod Quotient
pub mod Signed
use tony_henry_niklas.Common.{
  ℕ, zero, suc, ◌+◌, ◌-◌, ◌*◌, ◌/◌, ◌%◌, ◌^◌, ◌≤◌, ◌<◌, ◌≡◌, refl, sym, ap, ◌∙◌, ◌≢◌, ◌↔◌, ◌⊎◌, inl,
  inr, Bool, true, false, ◌&&◌, ◌||◌, not, List, [], ◌∷◌, ◌++◌, map, Option, none, some, arith, ltb,
  leb, ◌==◌, check, if◌then◌else◌, length, get_elem?, set, ◌>>=◌, Bool-cases, Option-cases, subst,
  fun_ext, ltb→lt, leb→le, lt→ltb, ==_iff, take, drop, replicate, length-set, get_elem?-set_self,
  get_elem?-set_ne, length-append, get_or,
}

-- The assembler line of `divl`: the quotient of a 64-bit by a 32-bit integer, where it fits.
unfoldable pub divl : ℕ → ℕ → Option ℕ
divl n d = check (ltb 0 d) (check (ltb (n / d) (2 ^ 32)) (some (n / d)))

-- One step of `nlz`: the count so far, and the word with what is shifted out on the left gone.
unfoldable pub nlz_step : ℕ → ℕ → ℕ × ℕ → ℕ × ℕ
nlz_step limit shift (n, x) = if leb x limit then (n + shift, x * 2 ^ shift % 2 ^ 32) else (n, x)

unfoldable pub nlz : ℕ → ℕ
unfolding nlz_step
nlz x =
    let (n, x') =
      nlz_step 0x3FFFFFFF 2
        (nlz_step 0x0FFFFFFF 4 (nlz_step 0x00FFFFFF 8 (nlz_step 0x0000FFFF 16 (0, x)))) in
    if leb x' 0x7FFFFFFF then n + 1 else n

-- `(d >> 32) == 0`
unfoldable pub udiv64_narrow : ℕ → ℕ → Option ℕ
udiv64_narrow n d =
    let b = 2 ^ 32 in
    let n1 = n / 2 ^ 32 in
    let n0 = n % 2 ^ 32 in
    let d0 = d % 2 ^ 32 in
    check (ltb 0 d0)
      (divl ((b * (n1 % d0) + n0) % 2 ^ 64) d0 >>= λ q. some ((q + b * (n1 / d0)) % 2 ^ 64))

unfoldable pub sub64 : ℕ → ℕ → ℕ
sub64 a b = (a + 2 ^ 64 - b) % 2 ^ 64

unfoldable pub udiv64_wide : ℕ → ℕ → Option ℕ
unfolding sub64
udiv64_wide n d =
    if ltb n d
    then some 0
    else (let d1 = d / 2 ^ 32 in
        let s = nlz d1 in
        divl (n / 2) (d * 2 ^ s % 2 ^ 64 / 2 ^ 32) >>= λ high.
        let q = high / 2 ^ (31 - s) in
        some (if ltb (sub64 n (sub64 q 1 * d % 2 ^ 64)) d then sub64 q 1 else q))

unfoldable pub udiv64 : ℕ → ℕ → Option ℕ
udiv64 n d = if d / 2 ^ 32 == 0 then udiv64_narrow n d else udiv64_wide n d

-- The result is a uint32_t.
unfoldable pub umod64 : ℕ → ℕ → Option ℕ
unfolding sub64
umod64 n d = udiv64 n d >>= λ q. some (sub64 n (d * q % 2 ^ 64) % 2 ^ 32)

abbrev pub is_negative : ℕ → Bool
is_negative x = leb (2 ^ 63) x

-- `n >= 0 ? (uint64_t) n : -(uint64_t) n`
unfoldable pub abs64 : ℕ → ℕ
unfolding sub64
abs64 x = if is_negative x then sub64 0 x else x

abbrev pub bool_eq : Bool → Bool → Bool
bool_eq a b = if a then b else not b

-- The negation of an int64_t: that of the least one overflows, which is undefined.
unfoldable pub neg64 : ℕ → Option ℕ
unfolding sub64
neg64 q = if q == 2 ^ 63 then none else some (sub64 0 q)

unfoldable pub sdiv64 : ℕ → ℕ → Option ℕ
unfolding abs64
sdiv64 n d = udiv64 (abs64 n) (abs64 d) >>= λ q_abs.
    if bool_eq (is_negative n) (is_negative d) then some q_abs else neg64 q_abs

-- The result is an int32_t, by its bits.
unfoldable pub smod64 : ℕ → ℕ → Option ℕ
unfolding sub64
smod64 n d = sdiv64 n d >>= λ q. some (sub64 n (d * q % 2 ^ 64) % 2 ^ 32)

-- The routines that GCC calls. The value of `__moddi3` is a long long, so that the sign of the
-- int32_t goes on to the left.
unfoldable pub divdi3 : ℕ → ℕ → Option ℕ
divdi3 n d = sdiv64 n d

unfoldable pub moddi3 : ℕ → ℕ → Option ℕ
moddi3 n d = smod64 n d >>= λ r. some (if leb (2 ^ 31) r then 2 ^ 64 - 2 ^ 32 + r else r)

unfoldable pub udivdi3 : ℕ → ℕ → Option ℕ
udivdi3 n d = udiv64 n d

unfoldable pub umoddi3 : ℕ → ℕ → Option ℕ
umoddi3 n d = umod64 n d
