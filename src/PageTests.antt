-- ===== src/PageTests.antt =====
-- Runs of the code of threads/palloc.c at concrete values.
use tony_henry_niklas.Bitmap.{
  bitmap_scan_and_flip, bitmap_scan, scan_from, bitmap_contains, contains_from, bitmap_test,
  bitmap_set_multiple, set_from, bitmap_set, bitmap_mark,
}
use tony_henry_niklas.Palloc.{
  Flags, Pages, kernel_pages, take_from, hand_out, palloc_get_multiple, palloc_free_multiple,
}
use tony_henry_niklas.Palloc.Get.{IsSound, Took, palloc_get_multiple_lem}
use tony_henry_niklas.Palloc.Free.{SameMaps, palloc_free_multiple-palloc_get_multiple}
use tony_henry_niklas.Common.{ℕ, ◌≡◌, refl, true, false, [], ◌∷◌, Option, none, some, arith}

-- Pages 16 to 19 for the kernel, the first of them in use, and 20 to 23 for the user.
abbrev memory : Pages
memory = record {
  kernel_pool = record { used_map = record { bit_cnt = 4; bits = 1 ∷ [] }; base = 65536 };
  user_pool = record { used_map = record { bit_cnt = 4; bits = 0 ∷ [] }; base = 81920 };
  bytes = λ a. 7;
}

memory-IsSound : IsSound memory
memory-IsSound = record {
  kernel = record { small = omega arith; room = omega arith };
  user = record { small = omega arith; room = omega arith };
  kernel_aligned = refl;
  user_aligned = refl;
  low = omega arith;
  apart = omega arith;
}

abbrev zeroed : Flags
zeroed = record { pal_assert = false; pal_zero = true; pal_user = false }

palloc_get_multiple_lem_example :
    Took zeroed 2 memory.kernel_pool
      (kernel_pages memory)
      memory.bytes
      (palloc_get_multiple zeroed 2 memory)
palloc_get_multiple_lem_example =
    palloc_get_multiple_lem zeroed 2 memory memory-IsSound (omega arith)

abbrev handed : Option (ℕ × Pages) → ℕ
handed none = 0
handed (some (pages, st)) = pages

abbrev state_of : Option (ℕ × Pages) → Pages
state_of none = memory
state_of (some (pages, st)) = st

two_pages :
    palloc_get_multiple zeroed 2 memory
    ≡ some (69632, state_of (palloc_get_multiple zeroed 2 memory))
unfolding palloc_get_multiple take_from hand_out bitmap_scan_and_flip bitmap_scan scan_from
    bitmap_contains contains_from bitmap_test bitmap_set_multiple set_from bitmap_set bitmap_mark
two_pages = refl

palloc_free_multiple-palloc_get_multiple_example :
    (st : Pages) × (palloc_free_multiple 69632 2 (state_of (palloc_get_multiple zeroed 2 memory))
      ≡ some st)
    × SameMaps memory st
palloc_free_multiple-palloc_get_multiple_example =
    palloc_free_multiple-palloc_get_multiple zeroed 2 memory 69632
      (state_of (palloc_get_multiple zeroed 2 memory)) memory-IsSound (omega arith) two_pages
      (omega arith)
