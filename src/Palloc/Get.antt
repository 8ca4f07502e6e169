-- ===== src/Palloc/Get.antt =====
-- What palloc_get_multiple of threads/palloc.c hands out.
use tony_henry_niklas.Bitmap.{Bitmap, bitmap_error, bitmap_scan_and_flip}
use tony_henry_niklas.Bitmap.Single.{IsValid}
use tony_henry_niklas.Bitmap.Range.{RangeSet}
use tony_henry_niklas.Bitmap.Scan.{Found, NotFound}
use tony_henry_niklas.Bitmap.Take.{error-not_found, bitmap_scan_and_flip_lem}
use tony_henry_niklas.Palloc.{
  Flags, Pool, Pages, kernel_pages, user_pages, fill_bytes, hand_out, take_from,
  palloc_get_multiple,
}
use tony_henry_niklas.Common.{
  ℕ, ◌+◌, ◌*◌, ◌/◌, ◌%◌, ◌≤◌, ◌<◌, ◌≡◌, refl, sym, ap, ◌∙◌, ◌⊎◌, inl, inr, Bool, true, false, not,
  Option, none, some, arith, ◌==◌, check, passes, chosen, passed_over, and_then, if◌then◌else◌,
  ◌>>=◌, Bool-cases, subst,
}

-- The pools are whole pages, the kernel's in front of the user's.
pub record IsSound (st : Pages) : Type 0 where
  pub kernel : IsValid st.kernel_pool.used_map
  pub user : IsValid st.user_pool.used_map
  pub kernel_aligned : st.kernel_pool.base % 4096 ≡ 0
  pub user_aligned : st.user_pool.base % 4096 ≡ 0
  pub low : 0 < st.kernel_pool.base
  pub apart :
      st.kernel_pool.base / 4096 + st.kernel_pool.used_map.bit_cnt ≤ st.user_pool.base / 4096

-- What the bytes are after pages have been handed out.
abbrev pub cleared : Bool → ℕ → ℕ → (ℕ → ℕ) → ℕ → ℕ
cleared clear pages page_cnt bytes =
    if clear then fill_bytes pages (4096 * page_cnt) 0 bytes else bytes

-- The pages were free and are used now, no page before them would have done, and no other page and
-- no other pool has changed.
pub record IsHanded (flags : Flags) (page_cnt : ℕ) (pool : Pool) (put : Pool → Pages) (old : ℕ → ℕ)
    (pages : ℕ) (st : Pages) : Type 0 where
  pub idx : ℕ
  pub map : Bitmap
  pub place : pages ≡ pool.base + 4096 * idx
  pub found : Found pool.used_map 0 page_cnt false idx
  pub used : RangeSet pool.used_map idx page_cnt true map
  pub stored : st ≡ record (put (record pool { used_map = map })) {
    bytes = cleared flags.pal_zero pages page_cnt old;
  }

abbrev pub NoGroup : ℕ → Pool → Type 0
NoGroup page_cnt pool = NotFound pool.used_map 0 page_cnt false bitmap_error

-- A null pointer and nothing changed, a panic, or pages.
abbrev pub Took : Flags → ℕ → Pool → (Pool → Pages) → (ℕ → ℕ) → Option (ℕ × Pages) → Type 0
Took flags page_cnt pool put old o =
    ((o ≡ some (0, put pool)) × NoGroup page_cnt pool × (flags.pal_assert ≡ false))
    ⊎ ((o ≡ none) × NoGroup page_cnt pool × (flags.pal_assert ≡ true))
    ⊎ ((pages : ℕ) × (st : Pages) × (o ≡ some (pages, st))
        × (0 < pages)
        × IsHanded flags page_cnt pool put old pages st)

-- `hand_out` once the place of the pages is known.
answer : Flags → ℕ → Pool → (Pool → Pages) → Bitmap → ℕ → Option (ℕ × Pages)
answer flags n pool put b pages =
    let st : Pages = put (record pool { used_map = b }) in
    let zeroed : Pages = record st { bytes = fill_bytes pages (4096 * n) 0 st.bytes } in
    if not (pages == 0)
    then some (pages, if flags.pal_zero then zeroed else st)
    else check (not flags.pal_assert) (some (0, st))

take_refused :
    (flags : Flags) (n : ℕ) (pool : Pool) (put : Pool → Pages) (old : ℕ → ℕ) (b : Bitmap)
    → b ≡ pool.used_map
    → NoGroup n pool
    → Took flags n pool put old (hand_out flags n pool put (bitmap_error, b))
unfolding hand_out answer
take_refused flags n pool put old b same group =
    let none_found : (bitmap_error == bitmap_error) ≡ true = ground arith in
    let pages_none : Option (ℕ × Pages) = some (0, put (record pool { used_map = b })) in
    let null : Option (ℕ × Pages) = check (not flags.pal_assert) pages_none in
    let step : hand_out flags n pool put (bitmap_error, b) ≡ null =
      ap (answer flags n pool put b)
        (chosen {x = 0} (pool.base + 4096 * bitmap_error) none_found) in
    elim (Bool-cases flags.pal_assert) [
      | inl e ↦ inr (inl (step ∙ ap (λ c. check (not c) pages_none) e, group, e))
      | inr e ↦ inl (
        step ∙ passes (ap not e) ∙ ap (λ x. some (0, put (record pool { used_map = x }))) same,
        group,
        e,
      )
    ]

take_given :
    (flags : Flags) (n : ℕ) (pool : Pool) (put : Pool → Pages) (old : ℕ → ℕ)
    → ((p : Pool) → (put p).bytes ≡ old)
    → IsValid pool.used_map
    → 0 < pool.base
    → (idx : ℕ) (b : Bitmap) → Found pool.used_map 0 n false idx
    → RangeSet pool.used_map idx n true b
    → Took flags n pool put old (hand_out flags n pool put (idx, b))
unfolding hand_out answer
take_given flags n pool put old same v low idx b found used =
    let (after, fit, group, first) = found in
    let missed : (idx == bitmap_error) ≡ false = error-not_found pool.used_map idx n v fit in
    let pages : ℕ = pool.base + 4096 * idx in
    let nonzero : not (pages == 0) ≡ true = ground arith in
    let st : Pages = put (record pool { used_map = b }) in
    let zeroed : Pages = record st { bytes = fill_bytes pages (4096 * n) 0 st.bytes } in
    let left : Pages = if flags.pal_zero then zeroed else st in
    let step : hand_out flags n pool put (idx, b) ≡ answer flags n pool put b pages =
      ap (answer flags n pool put b) (passed_over 0 missed) in
    inr (
      inr (
        pages,
        left,
        step ∙ chosen _ nonzero,
        omega (arith, low),
        record {
          idx = idx;
          map = b;
          place = refl;
          found = found;
          used = used;
          stored = elim (Bool-cases flags.pal_zero) [
            | inl z ↦
                chosen st z
                ∙ ap (λ y. record st { bytes = fill_bytes pages (4096 * n) 0 y }) (same _)
                ∙ ap (λ y. record st { bytes = y }) (sym (chosen old z))
            | inr z ↦
                passed_over zeroed z
                ∙ ap (λ y. record st { bytes = y }) (same _ ∙ sym (passed_over _ z))
          ];
        },
      ))

take_from_lem :
    (flags : Flags) (page_cnt : ℕ) (pool : Pool) (put : Pool → Pages) (old : ℕ → ℕ)
    → ((p : Pool) → (put p).bytes ≡ old)
    → IsValid pool.used_map
    → 0 < pool.base
    → Took flags page_cnt pool put old (take_from flags page_cnt pool put)
unfolding take_from
take_from_lem flags n pool put old same v low =
    took (bitmap_scan_and_flip_lem pool.used_map 0 n false v (omega arith))
  where
    took :
        (idx : ℕ) × (b : Bitmap) × (bitmap_scan_and_flip pool.used_map 0 n false ≡ some (idx, b))
          × ((Found pool.used_map 0 n false idx × RangeSet pool.used_map idx n true b)
              ⊎ (NotFound pool.used_map 0 n false idx × (b ≡ pool.used_map)))
        → Took flags n pool put old
            (bitmap_scan_and_flip pool.used_map 0 n false >>= hand_out flags n pool put)
    took (idx, b, e, inl (found, used)) =
        subst (Took flags n pool put old) (sym (and_then (hand_out flags n pool put) e))
          (take_given flags n pool put old same v low idx b found used)
    took (idx, b, e, inr ((at, spoiled), kept)) =
        subst (Took flags n pool put old) (sym (and_then (hand_out flags n pool put) e)) (
          subst (λ i. Took flags n pool put old (hand_out flags n pool put (i, b))) (sym at)
            (take_refused flags n pool put old b kept (refl, spoiled)))

-- palloc_get_multiple of at least one page returns a group of pages that were free in the pool
-- asked for, as low as possible, which are in use then, and zeroed where that is asked for, with
-- no other page changed; where there is no such group it returns a null pointer with nothing
-- changed, or panics, as PAL_ASSERT says.
pub palloc_get_multiple_lem :
    (flags : Flags) (page_cnt : ℕ) (st : Pages)
    → IsSound st
    → 0 < page_cnt
    → Took flags page_cnt
        (if flags.pal_user then st.user_pool else st.kernel_pool)
        (if flags.pal_user then user_pages st else kernel_pages st)
        st.bytes
        (palloc_get_multiple flags page_cnt st)
unfolding palloc_get_multiple
palloc_get_multiple_lem flags n st s h =
    let some_pages : (n == 0) ≡ false = ground arith in
    subst
      (Took flags n (if flags.pal_user then st.user_pool else st.kernel_pool)
        (if flags.pal_user then user_pages st else kernel_pages st) st.bytes)
      (sym (passed_over (some (0, st)) some_pages)) (picked flags.pal_user)
  where
    picked :
        (u : Bool)
        → Took flags n
            (if u then st.user_pool else st.kernel_pool)
            (if u then user_pages st else kernel_pages st)
            st.bytes
            (if u
              then take_from flags n st.user_pool (user_pages st)
              else take_from flags n st.kernel_pool (kernel_pages st))
    picked true =
        let low = s.low in
        let apart = s.apart in
        let aligned = s.kernel_aligned in
        take_from_lem flags n st.user_pool (user_pages st) st.bytes (λ p. refl) s.user (omega arith)
    picked false =
        take_from_lem flags n st.kernel_pool (kernel_pages st) st.bytes (λ p. refl) s.kernel s.low
