-- ===== src/Palloc/Free.antt =====
-- palloc_free_multiple of threads/palloc.c gives back what palloc_get_multiple handed out.
use mathlib.Core.Option.{some-injective, none-ne-some}
use tony_henry_niklas.Bitmap.{Bitmap, bitmap_set_multiple, bitmap_all}
use tony_henry_niklas.Bitmap.Single.{IsValid, bit}
use tony_henry_niklas.Bitmap.Range.{RangeSet, within, bitmap_set_multiple_lem}
use tony_henry_niklas.Bitmap.Scan.{Group, bitmap_all_lem}
use tony_henry_niklas.FreeMap.Sectors.{restored}
use tony_henry_niklas.Palloc.{
  Flags, Pool, Pages, kernel_pages, user_pages, fill_bytes, page_from_pool, give_back,
  palloc_get_multiple, palloc_free_multiple,
}
use tony_henry_niklas.Palloc.Get.{IsSound, IsHanded, cleared, Took, palloc_get_multiple_lem}
use tony_henry_niklas.Common.{
  ℕ, ◌+◌, ◌-◌, ◌*◌, ◌/◌, ◌%◌, ◌≤◌, ◌<◌, ◌≡◌, refl, sym, ap, ◌∙◌, inl, inr, Bool, true, false, ◌||◌,
  Option, some, arith, ◌==◌, check, passes, chosen, passed_over, and_then, if◌then◌else◌, ◌>>=◌,
  subst,
}

-- The state with a map for the pool, and the bytes.
abbrev left : (Pool → Pages) → Pool → Bitmap → (ℕ → ℕ) → Pages
left put pool b bytes = record (put (record pool { used_map = b })) { bytes = bytes }

give_back_lem :
    (pages n idx : ℕ) (pool : Pool) (put : Pool → Pages)
    → IsValid pool.used_map
    → pool.base % 4096 ≡ 0
    → pages ≡ pool.base + 4096 * idx
    → idx + n ≤ pool.used_map.bit_cnt
    → Group pool.used_map idx n true
    → (b : Bitmap) × (bytes : ℕ → ℕ) × (give_back pages n pool put ≡ some (left put pool b bytes))
      × RangeSet pool.used_map idx n false b
unfolding give_back
give_back_lem pages n idx pool put v al at fit g =
    let same : pages / 4096 - pool.base / 4096 ≡ idx = omega (arith, at) in
    let (b, e, r) = bitmap_set_multiple_lem pool.used_map idx n false v fit in
    let put_back : Bitmap → Option Pages = λ x.
      let st : Pages = put (record pool { used_map = x }) in
      some (record st { bytes = fill_bytes pages (4096 * n) 204 st.bytes }) in
    let clear : ℕ → Bool → Option Pages =
      λ i all. check all (bitmap_set_multiple pool.used_map i n false >>= put_back) in
    let st : Pages = put (record pool { used_map = b }) in
    (
      b,
      fill_bytes pages (4096 * n) 204 st.bytes,
      ap (λ i. bitmap_all pool.used_map i n >>= clear i) same
          ∙ and_then (clear idx) (bitmap_all_lem pool.used_map idx n v fit g)
          ∙ and_then put_back e,
      r,
    )

-- The pages stand in the pool that they are of.
in_pool :
    (pool : Pool) (pages n idx : ℕ)
    → pool.base % 4096 ≡ 0
    → pages ≡ pool.base + 4096 * idx
    → 0 < n
    → idx + n ≤ pool.used_map.bit_cnt
    → page_from_pool pool pages ≡ true
unfolding page_from_pool
in_pool pool pages n idx al at h fit = ground (arith, at)

full-Group : (b b' : Bitmap) (idx n : ℕ) → RangeSet b idx n true b' → Group b' idx n true
full-Group b b' idx n r j l m =
    let inside : within idx n j ≡ true = ground arith in r.bits j ∙ chosen (bit b j) inside

-- Every page of both pools is as it was.
abbrev pub SameMaps : Pages → Pages → Type 0
SameMaps st st' =
    ((j : ℕ) → bit st'.kernel_pool.used_map j ≡ bit st.kernel_pool.used_map j)
    × ((j : ℕ) → bit st'.user_pool.used_map j ≡ bit st.user_pool.used_map j)

abbrev Freed : ℕ → ℕ → Pages → Pages → Type 0
Freed pages n st st' =
    (st'' : Pages) × (palloc_free_multiple pages n st' ≡ some st'') × SameMaps st st''

free_kernel :
    (flags : Flags) (n pages : ℕ) (st st' : Pages)
    → IsSound st
    → 0 < n
    → 0 < pages
    → IsHanded flags n st.kernel_pool (kernel_pages st) st.bytes pages st'
    → Freed pages n st st'
unfolding palloc_free_multiple
free_kernel flags n pages st st' s h p r =
    let pool : Pool = record st.kernel_pool { used_map = r.map } in
    let bytes : ℕ → ℕ = cleared flags.pal_zero pages n st.bytes in
    let now : Pages = left (kernel_pages st) st.kernel_pool r.map bytes in
    let (after, fit, group, first) = r.found in
    let used = r.used in
    let size = used.size in
    let al = s.kernel_aligned in
    let at = r.place in
    let mine = in_pool pool pages n r.idx al at h (omega arith) in
    let aligned : (pages % 4096 == 0) ≡ true = ground arith in
    let real : (pages == 0 || n == 0) ≡ false = ground arith in
    let (b, bytes', e, back) =
      give_back_lem pages n r.idx pool (kernel_pages now) used.valid al at (omega arith)
        (full-Group st.kernel_pool.used_map r.map r.idx n used) in
    (
      left (kernel_pages now) pool b bytes',
      ap (palloc_free_multiple pages n) r.stored
          ∙ passes aligned
          ∙ passed_over (some now) real
          ∙ chosen _ mine
          ∙ e,
      (restored st.kernel_pool.used_map r.map b r.idx n group used back, λ j. refl),
    )

free_user :
    (flags : Flags) (n pages : ℕ) (st st' : Pages)
    → IsSound st
    → 0 < n
    → 0 < pages
    → IsHanded flags n st.user_pool (user_pages st) st.bytes pages st'
    → Freed pages n st st'
unfolding palloc_free_multiple page_from_pool
free_user flags n pages st st' s h p r =
    let pool : Pool = record st.user_pool { used_map = r.map } in
    let bytes : ℕ → ℕ = cleared flags.pal_zero pages n st.bytes in
    let now : Pages = left (user_pages st) st.user_pool r.map bytes in
    let (after, fit, group, first) = r.found in
    let used = r.used in
    let size = used.size in
    let al = s.user_aligned in
    let at = r.place in
    let apart = s.apart in
    let mine = in_pool pool pages n r.idx al at h (omega arith) in
    let other : page_from_pool st.kernel_pool pages ≡ false = ground arith in
    let aligned : (pages % 4096 == 0) ≡ true = ground arith in
    let real : (pages == 0 || n == 0) ≡ false = ground arith in
    let (b, bytes', e, back) =
      give_back_lem pages n r.idx pool (user_pages now) used.valid al at (omega arith)
        (full-Group st.user_pool.used_map r.map r.idx n used) in
    let from_kernel : Option Pages = give_back pages n now.kernel_pool (kernel_pages now) in
    (
      left (user_pages now) pool b bytes',
      ap (palloc_free_multiple pages n) r.stored
          ∙ passes aligned
          ∙ passed_over (some now) real
          ∙ passed_over from_kernel other
          ∙ passes mine
          ∙ e,
      (λ j. refl, restored st.user_pool.used_map r.map b r.idx n group used back),
    )

-- On two pools of whole pages, the kernel pool in front of the user pool, palloc_free_multiple
-- of the pages that palloc_get_multiple has returned fails no assertion, finds their pool again,
-- and gives every page of both pools the state that it had before.
pub palloc_free_multiple-palloc_get_multiple :
    (flags : Flags) (page_cnt : ℕ) (st : Pages) (pages : ℕ) (st' : Pages)
    → IsSound st
    → 0 < page_cnt
    → palloc_get_multiple flags page_cnt st ≡ some (pages, st')
    → 0 < pages
    → (st'' : Pages) × (palloc_free_multiple pages page_cnt st' ≡ some st'') × SameMaps st st''
palloc_free_multiple-palloc_get_multiple flags n st pages st' s h e p =
    by flags.pal_user (palloc_get_multiple_lem flags n st s h)
  where
    by :
        (u : Bool)
        → Took flags n
            (if u then st.user_pool else st.kernel_pool)
            (if u then user_pages st else kernel_pages st)
            st.bytes
            (palloc_get_multiple flags n st)
        → Freed pages n st st'
    by u (inl (q, group, a)) =
        let same = some-injective _ _ (sym q ∙ e) in
        let null : 0 ≡ pages = ap (λ x. x.0) same in absurd (omega (arith, null))
    by u (inr (inl (q, group, a))) = absurd (none-ne-some _ (sym q ∙ e))
    by true (inr (inr (pages1, st1, q, p1, r))) =
        let same = some-injective _ _ (sym q ∙ e) in
        subst (λ x. Freed x.0 n st x.1) same (free_user flags n pages1 st st1 s h p1 r)
    by false (inr (inr (pages1, st1, q, p1, r))) =
        let same = some-injective _ _ (sym q ∙ e) in
        subst (λ x. Freed x.0 n st x.1) same (free_kernel flags n pages1 st st1 s h p1 r)
