-- ===== src/NumberTests.antt =====
-- Runs of the 64-bit division and the random numbers, and the theorems about them at concrete values.
use tony_henry_niklas.Arithmetic.{udiv64, umod64, sdiv64, udiv64_wide, nlz, divl}
use tony_henry_niklas.Arithmetic.Quotient.{udiv64_lem, umod64_lem}
use tony_henry_niklas.Arithmetic.Signed.{value, tdiv, sdiv64_lem}
use tony_henry_niklas.Random.{Generator, random_bytes}
use tony_henry_niklas.Random.Draw.{IsReady, Drawn, random_bytes_lem}
use tony_henry_niklas.Common.{ℕ, ◌/◌, ◌≡◌, refl, true, false, [], some, arith}

wide_test : udiv64 18446744073709551615 4294967297 ≡ some 4294967295
unfolding udiv64 udiv64_wide nlz divl
wide_test = refl

udiv64_lem_example :
    udiv64 18446744073709551615 4294967297 ≡ some (18446744073709551615 / 4294967297)
udiv64_lem_example =
    udiv64_lem 18446744073709551615 4294967297 (omega arith) (omega arith) (omega arith)

-- 2 ^ 32 modulo 2 ^ 32 + 1 is 2 ^ 32, of which umod64 returns 0.
umod64_lem_example : umod64 4294967296 4294967297 ≡ some 0
umod64_lem_example = umod64_lem 4294967296 4294967297 (omega arith) (omega arith) (omega arith)

-- -7 by 2
sdiv64_lem_example :
    (r : ℕ) × (sdiv64 18446744073709551609 2 ≡ some r)
    × (value r ≡ tdiv (value 18446744073709551609) (value 2))
sdiv64_lem_example =
    sdiv64_lem 18446744073709551609 2 (omega arith) (omega arith) (omega arith)
      (λ e. absurd (omega arith))

abbrev fresh : Generator
fresh = record { s = []; s_i = 0; s_j = 0; inited = false }

fresh-IsReady : fresh.inited ≡ true → IsReady fresh
fresh-IsReady e = cc

random_bytes_lem_example : Drawn 4 (random_bytes 4 fresh)
random_bytes_lem_example = random_bytes_lem 4 fresh fresh-IsReady
