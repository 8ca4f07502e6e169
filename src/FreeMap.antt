-- ===== src/FreeMap.antt =====
-- The map of free sectors, filesys/free-map.c of OS-lab2-master/pintos/src: what its calls do to the map.
-- Whether the map can be written to its file is an argument here; Inode.Table has the calls with
-- what they write.
pub mod Sectors
pub mod Release
use tony_henry_niklas.Bitmap.{
  Bitmap, bitmap_error, bitmap_scan_and_flip, bitmap_set_multiple, bitmap_all, bitmap_mark,
  bitmap_create,
}
use tony_henry_niklas.Common.{
  ℕ, zero, suc, ◌+◌, ◌-◌, ◌*◌, ◌/◌, ◌%◌, ◌^◌, ◌≤◌, ◌<◌, ◌≡◌, refl, sym, ap, ◌∙◌, ◌≢◌, ◌↔◌, ◌⊎◌, inl,
  inr, Bool, true, false, ◌&&◌, ◌||◌, not, List, [], ◌∷◌, ◌++◌, map, Option, none, some, arith, ltb,
  leb, ◌==◌, check, passes, and_then, if◌then◌else◌, length, get_elem?, set, ◌>>=◌, Bool-cases,
  Option-cases, subst, fun_ext, ltb→lt, leb→le, lt→ltb, ==_iff, take, drop, replicate, length-set,
  get_elem?-set_self, get_elem?-set_ne, length-append, get_or,
}

-- `free_map`, and whether `free_map_file` is open.
pub record FreeMap : Type 0 where
  pub map : Bitmap
  pub file_open : Bool

-- The map lives in sector 0, the root directory in sector 1. The first arguments are those of
-- `bitmap_create`: its two blocks.
unfoldable pub free_map_init : Bool → Option (List ℕ) → ℕ → Option FreeMap
free_map_init header block size = bitmap_create header block size >>= λ created. created >>= λ b.
    bitmap_mark b 0 >>= λ b1.
    bitmap_mark b1 1 >>= λ b2. some (record { map = b2; file_open = false })

-- What `free_map_allocate` does with the group that was found and taken, or with BITMAP_ERROR. The
-- sector is `none` where the call returns false.
unfoldable pub write_or_restore : ℕ → Bool → FreeMap → ℕ × Bitmap → Option (Option ℕ × FreeMap)
write_or_restore cnt written f r =
    if r.0 == bitmap_error
    then some (none, record f { map = r.1 })
    else if f.file_open && not written
    then (bitmap_set_multiple r.1 r.0 cnt false >>= λ b. some (none, record f { map = b }))
    else some (some r.0, record f { map = r.1 })

unfoldable pub free_map_allocate : ℕ → Bool → FreeMap → Option (Option ℕ × FreeMap)
free_map_allocate cnt written f =
    bitmap_scan_and_flip f.map 0 cnt false >>= write_or_restore cnt written f

-- The result of `bitmap_write` is ignored; the file must be open.
unfoldable pub free_map_release : ℕ → ℕ → FreeMap → Option FreeMap
free_map_release sector cnt f = bitmap_all f.map sector cnt >>= λ all. check all (
    bitmap_set_multiple f.map sector cnt false >>= λ b.
    check f.file_open (some (record f { map = b })))
