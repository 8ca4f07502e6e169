-- ===== src/FreeMap/Sectors.antt =====
-- What free_map_allocate of filesys/free-map.c takes, and that it gives it back when it fails.
use tony_henry_niklas.Bitmap.{Bitmap, bitmap_error, bitmap_scan_and_flip, bitmap_set_multiple}
use tony_henry_niklas.Bitmap.Single.{IsValid, bit}
use tony_henry_niklas.Bitmap.Range.{within, RangeSet, bitmap_set_multiple_lem}
use tony_henry_niklas.Bitmap.Scan.{Group, Found, NotFound}
use tony_henry_niklas.Bitmap.Take.{error-not_found, bitmap_scan_and_flip_lem}
use tony_henry_niklas.FreeMap.{FreeMap, write_or_restore, free_map_allocate}
use tony_henry_niklas.Common.{
  ℕ, ◌+◌, ◌≤◌, ◌<◌, ◌≡◌, refl, sym, ap, ◌∙◌, ◌⊎◌, inl, inr, Bool, true, false, ◌&&◌, not, Option,
  none, some, arith, ◌==◌, and_then, chosen, passed_over, if◌then◌else◌, ◌>>=◌, Bool-cases, subst,
  ==_iff,
}

-- What a call returns: a group of sectors that were free and are taken now, or false with a map
-- in which no sector has changed.
abbrev pub Allocated : ℕ → FreeMap → Option ℕ → FreeMap → Type 0
Allocated cnt f none f' = (f'.map.bit_cnt ≡ f.map.bit_cnt) × ((j : ℕ) → bit f'.map j ≡ bit f.map j)
Allocated cnt f (some s) f' = Found f.map 0 cnt false s × RangeSet f.map s cnt true f'.map

-- Clearing a group that was clear before it was set.
pub restored :
    (b b' b'' : Bitmap) (i cnt : ℕ)
    → Group b i cnt false
    → RangeSet b i cnt true b'
    → RangeSet b' i cnt false b''
    → (j : ℕ) → bit b'' j ≡ bit b j
restored b b' b'' i cnt g r r' j = elim (Bool-cases (within i cnt j)) [
  | inl e ↦
      let low : i ≤ j = ground arith in
      let high : j < i + cnt = ground arith in
      r'.bits j ∙ ap (λ w. if w then false else bit b' j) e ∙ sym (g j low high)
  | inr e ↦
      r'.bits j
      ∙ ap (λ w. if w then false else bit b' j) e
      ∙ r.bits j
      ∙ ap (λ w. if w then true else bit b j) e
]

abbrev Answer : ℕ → FreeMap → Option (Option ℕ × FreeMap) → Type 0
Answer cnt f o =
    (r : Option ℕ) × (f' : FreeMap) × (o ≡ some (r, f'))
    × IsValid f'.map
    × (f'.file_open ≡ f.file_open)
    × Allocated cnt f r f'

take_none :
    (cnt idx : ℕ) (written : Bool) (f : FreeMap) (b' : Bitmap)
    → IsValid f.map
    → idx ≡ bitmap_error
    → b' ≡ f.map
    → Answer cnt f (write_or_restore cnt written f (idx, b'))
unfolding write_or_restore
take_none cnt idx written f b' v e same =
    let at_end : (idx == bitmap_error) ≡ true = (==_iff idx bitmap_error).1 e in
    (
      none,
      record f { map = b' },
      chosen _ at_end,
      subst IsValid (sym same) v,
      refl,
      (ap (λ b. b.bit_cnt) same, λ j. ap (λ b. bit b j) same),
    )

take_group :
    (cnt idx : ℕ) (written : Bool) (f : FreeMap) (b' : Bitmap)
    → IsValid f.map
    → Found f.map 0 cnt false idx
    → RangeSet f.map idx cnt true b'
    → Answer cnt f (write_or_restore cnt written f (idx, b'))
unfolding write_or_restore
take_group cnt idx written f b' v (p, q, g, first) r =
    let inside = error-not_found f.map idx cnt v q in
    let size = r.size in
    let (b'', e, r') = bitmap_set_multiple_lem b' idx cnt false r.valid (omega arith) in
    let restore : Option (Option ℕ × FreeMap) =
      bitmap_set_multiple b' idx cnt false >>= λ b. some (none, record f { map = b }) in
    let keep : Option (Option ℕ × FreeMap) = some (some idx, record f { map = b' }) in
    let step : write_or_restore cnt written f (idx, b')
        ≡ (if f.file_open && not written then restore else keep) =
      passed_over _ inside in
    elim (Bool-cases (f.file_open && not written)) [
      | inl fails ↦ (
        none,
        record f { map = b'' },
        step ∙ chosen keep fails ∙ and_then (λ b. some (none, record f { map = b })) e,
        r'.valid,
        refl,
        (r'.size ∙ size, restored f.map b' b'' idx cnt g r r'),
      )
      | inr writes ↦ (
        some idx,
        record f { map = b' },
        step ∙ passed_over restore writes,
        r.valid,
        refl,
        ((p, q, g, first), r),
      )
    ]

-- free_map_allocate on a valid map fails no assertion and leaves a valid map; either it returns
-- the first group of free sectors and takes exactly these, or it returns false and no sector
-- changes, also where the group was there and the map could not be written.
pub free_map_allocate_lem :
    (cnt : ℕ) (written : Bool) (f : FreeMap)
    → IsValid f.map
    → (r : Option ℕ) × (f' : FreeMap) × (free_map_allocate cnt written f ≡ some (r, f'))
      × IsValid f'.map
      × (f'.file_open ≡ f.file_open)
      × Allocated cnt f r f'
unfolding free_map_allocate
free_map_allocate_lem cnt written f v =
    took (bitmap_scan_and_flip_lem f.map 0 cnt false v (omega arith))
  where
    took :
        (idx : ℕ) × (b' : Bitmap) × (bitmap_scan_and_flip f.map 0 cnt false ≡ some (idx, b'))
          × ((Found f.map 0 cnt false idx × RangeSet f.map idx cnt true b')
              ⊎ (NotFound f.map 0 cnt false idx × (b' ≡ f.map)))
        → Answer cnt f (free_map_allocate cnt written f)
    took (idx, b', e, inr (n, same)) =
        let step = and_then (write_or_restore cnt written f) e in
        subst (Answer cnt f) (sym step) (take_none cnt idx written f b' v n.0 same)
    took (idx, b', e, inl (found, r)) =
        let step = and_then (write_or_restore cnt written f) e in
        subst (Answer cnt f) (sym step) (take_group cnt idx written f b' v found r)
