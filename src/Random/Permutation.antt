-- ===== src/Random/Permutation.antt =====
-- The generator's state stays a permutation of the bytes.
use tony_henry_niklas.Random.{swap_byte, fill, seed_byte, mix}
use tony_henry_niklas.Threads.{count}
use tony_henry_niklas.Common.{
  ℕ, zero, suc, ◌+◌, ◌%◌, ◌≤◌, ◌<◌, ◌≡◌, refl, ap, ◌∙◌, ◌&&◌, List, [], ◌∷◌, some, arith, ltb, leb,
  ◌==◌, and_then, if◌then◌else◌, length, get_elem?, set, ◌>>=◌, length-set,
}

-- Each byte stands in the state exactly once.
pub record IsPermutation (s : List ℕ) : Type 0 where
  pub size : length s ≡ 256
  pub each_once : (x : ℕ) → count x s ≡ (if ltb x 256 then 1 else 0)

count-set :
    (l : List ℕ) (i v x o : ℕ)
    → get_elem? l i ≡ some o
    → count x (set l i v) + (if o == x then 1 else 0) ≡ count x l + (if v == x then 1 else 0)
count-set [] i v x o e = cc
count-set (y ∷ l) zero v x o e = ground arith
count-set (y ∷ l) (suc i) v x o e = ground (arith, count-set l i v x o e)

pub get_elem?_total : (l : List ℕ) (i : ℕ) → i < length l → (o : ℕ) × (get_elem? l i ≡ some o)
get_elem?_total [] i h = absurd (omega arith)
get_elem?_total (x ∷ l) zero h = (x, refl)
get_elem?_total (x ∷ l) (suc i) h = get_elem?_total l i (omega arith)

-- A byte of the state is a byte.
byte_in : (l : List ℕ) (i o : ℕ) → get_elem? l i ≡ some o → 0 < count o l
byte_in [] i o e = cc
byte_in (x ∷ l) zero o e = ground arith
byte_in (x ∷ l) (suc i) o e = ground (arith, byte_in l i o e)

pub byte_bound : (s : List ℕ) (i o : ℕ) → IsPermutation s → get_elem? s i ≡ some o → o < 256
byte_bound s i o p e = ground (arith, byte_in s i o e, p.each_once o)

get_elem?-set_same :
    (s : List ℕ) (a b y : ℕ) → get_elem? s b ≡ some y → get_elem? (set s a y) b ≡ some y
get_elem?-set_same [] a b y e = e
get_elem?-set_same (x ∷ s) zero zero y e = refl
get_elem?-set_same (x ∷ s) zero (suc b) y e = e
get_elem?-set_same (x ∷ s) (suc a) zero y e = e
get_elem?-set_same (x ∷ s) (suc a) (suc b) y e = get_elem?-set_same s a b y e

exchanged :
    (s : List ℕ) (a b t y : ℕ)
    → IsPermutation s
    → get_elem? s a ≡ some t
    → get_elem? s b ≡ some y
    → IsPermutation (set (set s a y) b t)
exchanged s a b t y p at to = record {
  size = length-set (set s a y) b t ∙ length-set s a y ∙ p.size;
  each_once = λ x.
      let one = count-set s a y x t at in
      let two = count-set (set s a y) b t x y (get_elem?-set_same s a b y to) in
      let same : count x (set (set s a y) b t) ≡ count x s = ground arith in same ∙ p.each_once x;
}

pub swap_byte_lem :
    (s : List ℕ) (a b : ℕ)
    → IsPermutation s
    → a < 256
    → b < 256
    → (s' : List ℕ) × (swap_byte a b s ≡ some s') × IsPermutation s'
unfolding swap_byte
swap_byte_lem s a b p h l =
    let size = p.size in
    let (t, at) = get_elem?_total s a (omega arith) in
    let (y, to) = get_elem?_total s b (omega arith) in
    (set (set s a y) b t, rw (at, to) refl, exchanged s a b t y p at to)

pub mix_lem :
    (rounds seed i j : ℕ) (s : List ℕ)
    → IsPermutation s
    → i + rounds ≤ 256
    → (s' : List ℕ) × (mix rounds seed i j s ≡ some s') × IsPermutation s'
unfolding mix
mix_lem zero seed i j s p h = (s, refl, p)
mix_lem (suc rounds) seed i j s p h =
    let size = p.size in
    let (x, at) = get_elem?_total s i (omega arith) in
    let j' = (j + (x + seed_byte seed i)) % 256 in
    let (s1, e1, p1) = swap_byte_lem s i j' p (omega arith) (omega arith) in
    let (s2, e2, p2) = mix_lem rounds seed (i + 1) j' s1 p1 (omega arith) in
    (
      s2,
      and_then
            (λ x. swap_byte i ((j + (x + seed_byte seed i)) % 256) s >>= λ s'.
              mix rounds seed (i + 1) ((j + (x + seed_byte seed i)) % 256) s')
            at
          ∙ and_then (λ s'. mix rounds seed (i + 1) j' s') e1
          ∙ e2,
      p2,
    )

fill-count :
    (rounds i x : ℕ) → count x (fill rounds i) ≡ (if leb i x && ltb x (i + rounds) then 1 else 0)
unfolding fill
fill-count zero i x = ground arith
fill-count (suc rounds) i x = ground (arith, fill-count rounds (i + 1) x)

length-fill : (rounds i : ℕ) → length (fill rounds i) ≡ rounds
unfolding fill
length-fill zero i = refl
length-fill (suc rounds) i = ap suc (length-fill rounds (i + 1))

pub fill-IsPermutation : IsPermutation (fill 256 0)
fill-IsPermutation = record {
  size = length-fill 256 0;
  each_once = λ x. fill-count 256 0 x ∙ ground arith;
}
