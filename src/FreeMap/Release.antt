-- ===== src/FreeMap/Release.antt =====
-- free_map_release of filesys/free-map.c gives back what free_map_allocate took.
use mathlib.Core.Option.{some-injective, none-ne-some}
use tony_henry_niklas.Bitmap.{bitmap_set_multiple}
use tony_henry_niklas.Bitmap.Single.{IsValid, bit}
use tony_henry_niklas.Bitmap.Range.{within, RangeSet, bitmap_set_multiple_lem}
use tony_henry_niklas.Bitmap.Scan.{Group, bitmap_all_lem}
use tony_henry_niklas.FreeMap.{FreeMap, free_map_allocate, free_map_release}
use tony_henry_niklas.FreeMap.Sectors.{Allocated, free_map_allocate_lem, restored}
use tony_henry_niklas.Common.{
  ℕ, ◌+◌, ◌≤◌, ◌≡◌, sym, ap, ◌∙◌, Bool, true, false, Option, none, some, arith, check, passes,
  chosen, and_then, ◌>>=◌,
}

pub free_map_release_lem :
    (sector cnt : ℕ) (f : FreeMap)
    → IsValid f.map
    → sector + cnt ≤ f.map.bit_cnt
    → Group f.map sector cnt true
    → f.file_open ≡ true
    → (f' : FreeMap) × (free_map_release sector cnt f ≡ some f')
      × RangeSet f.map sector cnt false f'.map
      × (f'.file_open ≡ true)
unfolding free_map_release
free_map_release_lem sector cnt f v h g opened =
    let (b, e, r) = bitmap_set_multiple_lem f.map sector cnt false v h in
    let set : Bool → Option FreeMap = λ all. check all (
      bitmap_set_multiple f.map sector cnt false >>= λ x.
      check f.file_open (some (record f { map = x }))) in
    (
      record f { map = b },
      and_then set (bitmap_all_lem f.map sector cnt v h g)
          ∙ and_then (λ x. check f.file_open (some (record f { map = x }))) e
          ∙ passes opened,
      r,
      opened,
    )

-- With the file of the map open, free_map_release of the sectors that free_map_allocate has
-- returned on a valid map fails no assertion and gives every sector the state that it had
-- before.
pub free_map_release-free_map_allocate :
    (cnt : ℕ) (written : Bool) (f : FreeMap)
    → IsValid f.map
    → f.file_open ≡ true
    → (r : Option ℕ) × (f' : FreeMap) × (free_map_allocate cnt written f ≡ some (r, f'))
      × ((s : ℕ)
          → r ≡ some s
          → (f'' : FreeMap) × (free_map_release s cnt f' ≡ some f'')
            × ((j : ℕ) → bit f''.map j ≡ bit f.map j))
free_map_release-free_map_allocate cnt written f v opened =
    let (r, f', e, v', still, a) = free_map_allocate_lem cnt written f v in
    (r, f', e, λ s p. given r f' v' (still ∙ opened) a s p)
  where
    given :
        (r : Option ℕ) (f' : FreeMap)
        → IsValid f'.map
        → f'.file_open ≡ true
        → Allocated cnt f r f'
        → (s : ℕ) → r ≡ some s
        → (f'' : FreeMap) × (free_map_release s cnt f' ≡ some f'')
          × ((j : ℕ) → bit f''.map j ≡ bit f.map j)
    given none f' v' o a s p = absurd (none-ne-some s p)
    given (some t) f' v' o ((low, fit, g, first), taken) s p =
        let same : t ≡ s = some-injective t s p in
        let size = taken.size in
        let full : Group f'.map t cnt true = λ j l m.
          let inside : within t cnt j ≡ true = ground arith in
          taken.bits j ∙ chosen (bit f.map j) inside in
        let (f'', e, r, o') = free_map_release_lem t cnt f' v' (omega arith) full o in
        (
          f'',
          ap (λ x. free_map_release x cnt f') (sym same) ∙ e,
          restored f.map f'.map f''.map t cnt g taken r,
        )
