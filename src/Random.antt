-- ===== src/Random.antt =====
-- The pseudo-random number generator of lib/random.c of OS-lab2-master/pintos/src. `unsigned` and
-- `unsigned long` have 32 bits, the least byte first.
pub mod Permutation
pub mod Draw
use tony_henry_niklas.Common.{
  ℕ, zero, suc, ◌+◌, ◌-◌, ◌*◌, ◌/◌, ◌%◌, ◌^◌, ◌≤◌, ◌<◌, ◌≡◌, refl, sym, ap, ◌∙◌, ◌≢◌, ◌↔◌, ◌⊎◌, inl,
  inr, Bool, true, false, ◌&&◌, ◌||◌, not, List, [], ◌∷◌, ◌++◌, map, Option, none, some, arith, ltb,
  leb, ◌==◌, check, passes, and_then, if◌then◌else◌, length, get_elem?, set, ◌>>=◌, Bool-cases,
  Option-cases, subst, fun_ext, ltb→lt, leb→le, lt→ltb, ==_iff, take, drop, replicate, length-set,
  get_elem?-set_self, get_elem?-set_ne, length-append, get_or,
}

-- The static variables.
pub record Generator : Type 0 where
  pub s : List ℕ
  pub s_i : ℕ
  pub s_j : ℕ
  pub inited : Bool

-- The bytes at `a` and `b` of the state.
unfoldable pub swap_byte : ℕ → ℕ → List ℕ → Option (List ℕ)
swap_byte a b s = get_elem? s a >>= λ t. get_elem? s b >>= λ y. some (set (set s a y) b t)

-- `for (i = 0; i < 256; i++) s[i] = i;`, from `i` on.
unfoldable pub fill : ℕ → ℕ → List ℕ
fill zero i = []
fill (suc rounds) i = i ∷ fill rounds (i + 1)

unfoldable pub seed_byte : ℕ → ℕ → ℕ
seed_byte seed i = seed / 2 ^ (8 * (i % 4)) % 256

-- `for (i = j = 0; i < 256; i++)`, from `i` on.
unfoldable pub mix : ℕ → ℕ → ℕ → ℕ → List ℕ → Option (List ℕ)
unfolding swap_byte seed_byte
mix zero seed i j s = some s
mix (suc rounds) seed i j s = get_elem? s i >>= λ x.
    let j' = (j + (x + seed_byte seed i)) % 256 in
    swap_byte i j' s >>= λ s'. mix rounds seed (i + 1) j' s'

unfoldable pub random_init : ℕ → Option Generator
random_init seed =
    mix 256 seed 0 0 (fill 256 0) >>= λ s. some (record { s = s; s_i = 0; s_j = 0; inited = true })

-- One byte: the body of the loop of `random_bytes`.
unfoldable pub random_byte : Generator → Option (ℕ × Generator)
unfolding swap_byte
random_byte g =
    let i = (g.s_i + 1) % 256 in
    get_elem? g.s i >>= λ x.
    let j = (g.s_j + x) % 256 in
    swap_byte i j g.s >>= λ s. get_elem? s i >>= λ a. get_elem? s j >>= λ b.
    get_elem? s ((a + b) % 256) >>= λ byte. some (byte, record g { s = s; s_i = i; s_j = j })

unfoldable pub bytes_loop : ℕ → Generator → Option (List ℕ × Generator)
bytes_loop zero g = some ([], g)
bytes_loop (suc size) g =
    random_byte g >>= λ r. bytes_loop size r.1 >>= λ rest. some (r.0 ∷ rest.0, rest.1)

unfoldable pub random_bytes : ℕ → Generator → Option (List ℕ × Generator)
random_bytes size g =
    if g.inited then bytes_loop size g else (random_init 0 >>= λ g'. bytes_loop size g')

abbrev pub from_bytes : List ℕ → ℕ
from_bytes [] = 0
from_bytes (b ∷ l) = b + 256 * from_bytes l

unfoldable pub random_ulong : Generator → Option (ℕ × Generator)
random_ulong g = random_bytes 4 g >>= λ r. some (from_bytes r.0, r.1)
