-- ===== src/Random/Draw.antt =====
-- random_init and random_bytes of lib/random.c run through, and keep the state a permutation.
use tony_henry_niklas.Random.{
  Generator, swap_byte, fill, random_init, random_byte, bytes_loop, random_bytes,
}
use tony_henry_niklas.Random.Permutation.{
  IsPermutation, get_elem?_total, byte_bound, swap_byte_lem, mix_lem, fill-IsPermutation,
}
use tony_henry_niklas.Common.{
  ℕ, zero, suc, ◌+◌, ◌%◌, ◌<◌, ◌≡◌, refl, sym, ap, ◌∙◌, inl, inr, true, List, [], ◌∷◌, Option, some,
  arith, and_then, if◌then◌else◌, length, get_elem?, ◌>>=◌, Bool-cases, subst,
}

-- The generator once it is initialized.
pub record IsReady (g : Generator) : Type 0 where
  pub permuted : IsPermutation g.s
  pub i_in : g.s_i < 256
  pub j_in : g.s_j < 256
  pub initialized : g.inited ≡ true

-- random_init initializes the generator for every seed: no access is out of bounds, and each
-- byte stands in the state exactly once.
pub random_init_lem : (seed : ℕ) → (g : Generator) × (random_init seed ≡ some g) × IsReady g
unfolding random_init
random_init_lem seed =
    let (s, e, p) = mix_lem 256 seed 0 0 (fill 256 0) fill-IsPermutation (omega arith) in
    (
      record { s = s; s_i = 0; s_j = 0; inited = true },
      and_then (λ s. some (record { s = s; s_i = 0; s_j = 0; inited = true })) e,
      record { permuted = p; i_in = omega arith; j_in = omega arith; initialized = refl },
    )

random_byte_lem :
    (g : Generator)
    → IsReady g
    → (byte : ℕ) × (g' : Generator) × (random_byte g ≡ some (byte, g')) × (byte < 256) × IsReady g'
unfolding random_byte
random_byte_lem g r =
    let p = r.permuted in
    let size = p.size in
    let i = (g.s_i + 1) % 256 in
    let (x, at) = get_elem?_total g.s i (omega arith) in
    let j = (g.s_j + x) % 256 in
    let (s, e, q) = swap_byte_lem g.s i j p (omega arith) (omega arith) in
    let size' = q.size in
    let (a, at_i) = get_elem?_total s i (omega arith) in
    let (b, at_j) = get_elem?_total s j (omega arith) in
    let (byte, found) = get_elem?_total s ((a + b) % 256) (omega arith) in
    let g' : Generator = record g { s = s; s_i = i; s_j = j } in
    (
      byte,
      g',
      and_then
            (λ x. swap_byte i ((g.s_j + x) % 256) g.s >>= λ s. get_elem? s i >>= λ a.
              get_elem? s ((g.s_j + x) % 256) >>= λ b. get_elem? s ((a + b) % 256) >>= λ byte.
              some (byte, record g { s = s; s_i = i; s_j = (g.s_j + x) % 256 }))
            at
          ∙ and_then
              (λ s. get_elem? s i >>= λ a. get_elem? s j >>= λ b.
                get_elem? s ((a + b) % 256) >>= λ byte.
                some (byte, record g { s = s; s_i = i; s_j = j }))
              e
          ∙ and_then
              (λ a. get_elem? s j >>= λ b. get_elem? s ((a + b) % 256) >>= λ byte. some (byte, g'))
              at_i
          ∙ and_then (λ b. get_elem? s ((a + b) % 256) >>= λ byte. some (byte, g')) at_j
          ∙ and_then (λ byte. some (byte, g')) found,
      byte_bound s _ byte q found,
      record { permuted = q; i_in = omega arith; j_in = omega arith; initialized = r.initialized },
    )

abbrev pub AllBytes : List ℕ → Type 0
AllBytes [] = Unit
AllBytes (b ∷ l) = (b < 256) × AllBytes l

-- What a call leaves: `size` bytes, and the generator ready.
abbrev pub Drawn : ℕ → Option (List ℕ × Generator) → Type 0
Drawn size o =
    (out : List ℕ) × (g' : Generator) × (o ≡ some (out, g'))
    × (length out ≡ size)
    × AllBytes out
    × IsReady g'

bytes_loop_lem : (size : ℕ) (g : Generator) → IsReady g → Drawn size (bytes_loop size g)
unfolding bytes_loop
bytes_loop_lem zero g r = ([], g, refl, refl, tt, r)
bytes_loop_lem (suc size) g r =
    let (byte, g1, e, small, r1) = random_byte_lem g r in
    let (out, g2, e', l, all, r2) = bytes_loop_lem size g1 r1 in
    (
      byte ∷ out,
      g2,
      and_then (λ r. bytes_loop size r.1 >>= λ rest. some (r.0 ∷ rest.0, rest.1)) e
          ∙ and_then (λ rest. some (byte ∷ rest.0, rest.1)) e',
      ap suc l,
      (small, all),
      r2,
    )

-- random_bytes writes as many bytes as asked for, whether or not the generator was initialized
-- before, and leaves it initialized, its state a permutation of the bytes.
pub random_bytes_lem :
    (size : ℕ) (g : Generator) → (g.inited ≡ true → IsReady g) → Drawn size (random_bytes size g)
unfolding random_bytes
random_bytes_lem size g r = elim (Bool-cases g.inited) [
  | inl e ↦
      let step : random_bytes size g ≡ bytes_loop size g =
        ap (λ b. if b then bytes_loop size g else (random_init 0 >>= λ g'. bytes_loop size g')) e in
      subst (Drawn size) (sym step) (bytes_loop_lem size g (r e))
  | inr e ↦
      let (g', e', r') = random_init_lem 0 in
      let step : random_bytes size g ≡ bytes_loop size g' =
        ap (λ b. if b then bytes_loop size g else (random_init 0 >>= λ g'. bytes_loop size g')) e
        ∙ and_then (λ g'. bytes_loop size g') e' in
      subst (Drawn size) (sym step) (bytes_loop_lem size g' r')
]
