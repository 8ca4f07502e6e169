-- ===== src/Bitmap/Take.antt =====
-- bitmap_scan_and_flip takes the group that bitmap_scan finds, and bitmap_create starts with a
-- bitmap of zeros (lib/kernel/bitmap.c).
use tony_henry_niklas.Bitmap.{
  Bitmap, bitmap_error, bitmap_scan, bitmap_scan_and_flip, bitmap_set_all, bitmap_create,
}
use tony_henry_niklas.Bitmap.Single.{IsValid, bit}
use tony_henry_niklas.Bitmap.Range.{within, RangeSet, bitmap_set_multiple_lem}
use tony_henry_niklas.Bitmap.Scan.{Found, NotFound, bitmap_scan_lem}
use tony_henry_niklas.Common.{
  ℕ, ◌+◌, ◌*◌, ◌^◌, ◌≤◌, ◌<◌, ◌≡◌, refl, ◌∙◌, ◌⊎◌, inl, inr, Bool, true, false, not, List, some,
  arith, ◌==◌, if◌then◌else◌, length, ==_iff,
}

pub error-not_found :
    (b : Bitmap) (idx cnt : ℕ) → IsValid b → idx + cnt ≤ b.bit_cnt → (idx == bitmap_error) ≡ false
error-not_found b idx cnt v h = let n = v.small in ground arith

-- bitmap_scan_and_flip, from a start inside a valid bitmap, either returns the first place of a
-- group of bits that have the value, sets exactly that group to the other value, or, where there
-- is no group, returns BITMAP_ERROR and the same bitmap.
pub bitmap_scan_and_flip_lem :
    (b : Bitmap) (start cnt : ℕ) (value : Bool)
    → IsValid b
    → start ≤ b.bit_cnt
    → (idx : ℕ) × (b' : Bitmap) × (bitmap_scan_and_flip b start cnt value ≡ some (idx, b'))
      × ((Found b start cnt value idx × RangeSet b idx cnt (not value) b')
          ⊎ (NotFound b start cnt value idx × (b' ≡ b)))
unfolding bitmap_scan_and_flip
bitmap_scan_and_flip_lem b start cnt value v h = took (bitmap_scan_lem b start cnt value v h)
  where
    took :
        (idx : ℕ) × (bitmap_scan b start cnt value ≡ some idx)
          × (Found b start cnt value idx ⊎ NotFound b start cnt value idx)
        → (idx : ℕ) × (b' : Bitmap) × (bitmap_scan_and_flip b start cnt value ≡ some (idx, b'))
          × ((Found b start cnt value idx × RangeSet b idx cnt (not value) b')
              ⊎ (NotFound b start cnt value idx × (b' ≡ b)))
    took (idx, e, inl (p, q, g, first)) =
        let (b', s, r) = bitmap_set_multiple_lem b idx cnt (not value) v q in
        let differs = error-not_found b idx cnt v q in
        (idx, b', rw (e, differs, s) refl, inl ((p, q, g, first), r))
    took (idx, e, inr (at_end, n)) =
        let same : (idx == bitmap_error) ≡ true = (==_iff idx bitmap_error).1 at_end in
        (idx, b, rw (e, same) refl, inr ((at_end, n), refl))

cleared : (j n : ℕ) (old : Bool) → j < n → (if within 0 n j then false else old) ≡ false
cleared j n old l = ground arith

-- When both blocks are there and the one for the bits has room, bitmap_create returns a valid
-- bitmap of the size asked for whose bits are all 0, whatever the block held.
pub bitmap_create_lem :
    (bits : List ℕ) (bit_cnt : ℕ)
    → bit_cnt + 31 < 2 ^ 32
    → bit_cnt ≤ 32 * length bits
    → (b : Bitmap) × (bitmap_create true (some bits) bit_cnt ≡ some (some b))
      × IsValid b
      × (b.bit_cnt ≡ bit_cnt)
      × ((j : ℕ) → j < bit_cnt → bit b j ≡ false)
unfolding bitmap_create bitmap_set_all
bitmap_create_lem bits bit_cnt small room =
    let fresh : Bitmap = record { bit_cnt = bit_cnt; bits = bits } in
    let (b, e, r) =
      bitmap_set_multiple_lem fresh 0 bit_cnt false (record { small = small; room = room })
        (omega arith) in
    (b, rw e refl, r.valid, r.size, λ j l. r.bits j ∙ cleared j bit_cnt (bit fresh j) l)
