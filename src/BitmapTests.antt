-- ===== src/BitmapTests.antt =====
-- Runs of the bitmap operations, and the theorems about them at a bitmap of 40 bits.
use tony_henry_niklas.Bitmap.{Bitmap, bitmap_scan_and_flip}
use tony_henry_niklas.Bitmap.Single.{IsValid}
use tony_henry_niklas.Bitmap.Range.{RangeSet}
use tony_henry_niklas.Bitmap.Scan.{Found, NotFound}
use tony_henry_niklas.FreeMap.{FreeMap, free_map_allocate}
use tony_henry_niklas.FreeMap.Sectors.{Allocated, free_map_allocate_lem}
use tony_henry_niklas.Bitmap.Take.{bitmap_scan_and_flip_lem}
use tony_henry_niklas.Common.{ℕ, ◌≡◌, ◌⊎◌, true, false, not, [], ◌∷◌, Option, some, arith}

-- Bits 0, 2 and 32 are set.
abbrev sample : Bitmap
sample = record { bit_cnt = 40; bits = 5 ∷ 1 ∷ [] }

sample-IsValid : IsValid sample
sample-IsValid = record { small = omega arith; room = omega arith }

bitmap_scan_and_flip_lem_example :
    (idx : ℕ) × (b' : Bitmap) × (bitmap_scan_and_flip sample 0 4 false ≡ some (idx, b'))
    × ((Found sample 0 4 false idx × RangeSet sample idx 4 (not false) b')
        ⊎ (NotFound sample 0 4 false idx × (b' ≡ sample)))
bitmap_scan_and_flip_lem_example =
    bitmap_scan_and_flip_lem sample 0 4 false sample-IsValid (omega arith)

abbrev sectors : FreeMap
sectors = record { map = sample; file_open = true }

-- The map cannot be written.
free_map_allocate_lem_example :
    (r : Option ℕ) × (f' : FreeMap) × (free_map_allocate 4 false sectors ≡ some (r, f'))
    × IsValid f'.map
    × (f'.file_open ≡ sectors.file_open)
    × Allocated 4 sectors r f'
free_map_allocate_lem_example = free_map_allocate_lem 4 false sectors sample-IsValid
