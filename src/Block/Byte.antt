-- ===== src/Block/Byte.antt =====
-- The bytes of a block device, devices/block.c, numbered across its sectors.
use tony_henry_niklas.Block.{Block, block_read, block_write}
use tony_henry_niklas.Common.{
  ℕ, zero, suc, ◌+◌, ◌*◌, ◌/◌, ◌%◌, ◌^◌, ◌<◌, ◌≡◌, refl, sym, ap, ◌∙◌, ◌≢◌, inl, inr, false, not,
  List, [], ◌∷◌, Option, some, arith, ◌==◌, passes, and_then, if◌then◌else◌, length, get_elem?, set,
  ◌>>=◌, Bool-cases, lt→ltb, ==_iff, length-set, get_elem?-set_self, get_elem?-set_ne,
}

-- Byte `q` of the device.
unfoldable pub byte_of : List (List ℕ) → ℕ → Option ℕ
byte_of sectors q = get_elem? sectors (q / 512) >>= λ bytes. get_elem? bytes (q % 512)

-- A device for a file system: as many sectors as it says, and whole ones.
pub record IsWhole (b : Block) : Type 0 where
  pub native : b.foreign ≡ false
  pub count : length b.sectors ≡ b.size
  pub full : (s : ℕ) (bytes : List ℕ) → get_elem? b.sectors s ≡ some bytes → length bytes ≡ 512

pub get_elem?_inside {ℓ} :
    {A : Type ℓ} (xs : List A) (i : ℕ) → i < length xs → (v : A) × (get_elem? xs i ≡ some v)
get_elem?_inside [] i h = absurd (omega arith)
get_elem?_inside (x ∷ xs) zero h = (x, refl)
get_elem?_inside (x ∷ xs) (suc i) h = get_elem?_inside xs i (omega arith)

pub byte_of_sector :
    (sectors : List (List ℕ)) (s k : ℕ) (bytes : List ℕ)
    → k < 512
    → get_elem? sectors s ≡ some bytes
    → byte_of sectors (s * 512 + k) ≡ get_elem? bytes k
unfolding byte_of
byte_of_sector sectors s k bytes h e =
    let d : (s * 512 + k) / 512 ≡ s = omega arith in
    let r : (s * 512 + k) % 512 ≡ k = omega arith in rw (d, e, r) refl

-- Reading a sector inside a whole device faults nowhere and leaves the sectors alone.
pub block_read_lem :
    (b : Block) (s : ℕ)
    → IsWhole b
    → s < b.size
    → (bytes : List ℕ) × (b' : Block) × (block_read b s ≡ some (bytes, b'))
      × (length bytes ≡ 512)
      × ((k : ℕ) → k < 512 → get_elem? bytes k ≡ byte_of b.sectors (s * 512 + k))
      × (b'.sectors ≡ b.sectors)
      × (b'.size ≡ b.size)
      × IsWhole b'
unfolding block_read
block_read_lem b s w h =
    let n = w.count in
    let (bytes, e) = get_elem?_inside b.sectors s (omega arith) in
    let b' : Block = record b { read_cnt = (b.read_cnt + 1) % 2 ^ 64 } in
    (
      bytes,
      b',
      passes (lt→ltb s b.size h) ∙ and_then _ e,
      w.full s bytes e,
      λ k l. sym (byte_of_sector b.sectors s k bytes l e),
      refl,
      refl,
      record { native = w.native; count = w.count; full = w.full },
    )

-- Writing a whole sector replaces its bytes and no other byte of the device.
pub block_write_lem :
    (b : Block) (s : ℕ) (buffer : List ℕ)
    → IsWhole b
    → s < b.size
    → length buffer ≡ 512
    → (b' : Block) × (block_write b s buffer ≡ some b')
      × ((q : ℕ)
          → byte_of b'.sectors q
            ≡ (if q / 512 == s then get_elem? buffer (q % 512) else byte_of b.sectors q))
      × (b'.size ≡ b.size)
      × IsWhole b'
unfolding block_write byte_of
block_write_lem b s buffer w h l =
    let n = w.count in
    let b' : Block = record b {
      sectors = set b.sectors s buffer;
      write_cnt = (b.write_cnt + 1) % 2 ^ 64;
    } in
    (
      b',
      passes (lt→ltb s b.size h) ∙ passes (ap not w.native),
      λ q. written q,
      refl,
      record {
        native = w.native;
        count = length-set b.sectors s buffer ∙ w.count;
        full = λ t bytes e. kept t bytes e;
      },
    )
  where
    written :
        (q : ℕ)
        → byte_of (set b.sectors s buffer) q
          ≡ (if q / 512 == s then get_elem? buffer (q % 512) else byte_of b.sectors q)
    written q = elim (Bool-cases (q / 512 == s)) [
      | inl e ↦
          let at : q / 512 ≡ s = (==_iff (q / 512) s).0 e in
          let n = w.count in
          let here = get_elem?-set_self b.sectors s buffer (omega arith) in rw (e, at, here) refl
      | inr e ↦
          let other : s ≢ q / 512 = λ p. absurd (ground arith) in
          rw (e, get_elem?-set_ne b.sectors buffer other) refl
    ]

    kept :
        (t : ℕ) (bytes : List ℕ)
        → get_elem? (set b.sectors s buffer) t ≡ some bytes
        → length bytes ≡ 512
    kept t bytes e = elim (Bool-cases (s == t)) [
      | inl p ↦
          let at : s ≡ t = (==_iff s t).0 p in
          let n = w.count in
          let here = get_elem?-set_self b.sectors s buffer (omega arith) in
          ground (arith, here, e, at, l)
      | inr p ↦
          let other : s ≢ t = λ q. absurd (ground arith) in
          w.full t bytes (sym (get_elem?-set_ne b.sectors buffer other) ∙ e)
    ]
