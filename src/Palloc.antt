-- ===== src/Palloc.antt =====
-- The page allocator, threads/palloc.c of OS-lab2-master/pintos/src, on addresses of bytes, with 0 for
-- the null pointer. A panic is `none`. The locks of the pools are free: one caller at a time.
pub mod Get
pub mod Free
use tony_henry_niklas.Bitmap.{
  Bitmap, bitmap_error, byte_cnt, bitmap_scan_and_flip, bitmap_set_multiple, bitmap_set_all,
  bitmap_all,
}
use tony_henry_niklas.Common.{
  ℕ, zero, suc, ◌+◌, ◌-◌, ◌*◌, ◌/◌, ◌%◌, ◌^◌, ◌≤◌, ◌<◌, ◌≡◌, refl, sym, ap, ◌∙◌, ◌≢◌, ◌↔◌, ◌⊎◌, inl,
  inr, Bool, true, false, ◌&&◌, ◌||◌, not, List, [], ◌∷◌, ◌++◌, map, Option, none, some, arith, ltb,
  leb, ◌==◌, check, passes, chosen, passed_over, and_then, if◌then◌else◌, length, get_elem?, set,
  ◌>>=◌, Bool-cases, Option-cases, subst, fun_ext, ltb→lt, leb→le, lt→ltb, ==_iff, take, drop,
  replicate, length-set, get_elem?-set_self, get_elem?-set_ne, length-append, get_or,
}

-- The bits of enum palloc_flags.
pub record Flags : Type 0 where
  pub pal_assert : Bool
  pub pal_zero : Bool
  pub pal_user : Bool

pub record Pool : Type 0 where
  pub used_map : Bitmap
  pub base : ℕ

-- The two pools, and the byte at each address.
pub record Pages : Type 0 where
  pub kernel_pool : Pool
  pub user_pool : Pool
  pub bytes : ℕ → ℕ

abbrev pub kernel_pages : Pages → Pool → Pages
kernel_pages st pool = record st { kernel_pool = pool }

abbrev pub user_pages : Pages → Pool → Pages
user_pages st pool = record st { user_pool = pool }

-- `memset`
abbrev pub fill_bytes : ℕ → ℕ → ℕ → (ℕ → ℕ) → ℕ → ℕ
fill_bytes start n value bytes a = if leb start a && ltb a (start + n) then value else bytes a

-- The pages that a call returns and the pools, once the map has been scanned; `put` stores the pool.
unfoldable pub hand_out : Flags → ℕ → Pool → (Pool → Pages) → ℕ × Bitmap → Option (ℕ × Pages)
hand_out flags page_cnt pool put r =
    let st : Pages = put (record pool { used_map = r.1 }) in
    let pages : ℕ = if r.0 == bitmap_error then 0 else pool.base + 4096 * r.0 in
    let zeroed : Pages = record st { bytes = fill_bytes pages (4096 * page_cnt) 0 st.bytes } in
    if not (pages == 0)
    then some (pages, if flags.pal_zero then zeroed else st)
    else check (not flags.pal_assert) (some (0, st))

unfoldable pub take_from : Flags → ℕ → Pool → (Pool → Pages) → Option (ℕ × Pages)
take_from flags page_cnt pool put =
    bitmap_scan_and_flip pool.used_map 0 page_cnt false >>= hand_out flags page_cnt pool put

unfoldable pub palloc_get_multiple : Flags → ℕ → Pages → Option (ℕ × Pages)
palloc_get_multiple flags page_cnt st =
    if page_cnt == 0
    then some (0, st)
    else if flags.pal_user
    then take_from flags page_cnt st.user_pool (user_pages st)
    else take_from flags page_cnt st.kernel_pool (kernel_pages st)

abbrev pub palloc_get_page : Flags → Pages → Option (ℕ × Pages)
palloc_get_page flags st = palloc_get_multiple flags 1 st

unfoldable pub page_from_pool : Pool → ℕ → Bool
page_from_pool pool page =
    let page_no : ℕ = page / 4096 in
    let start_page : ℕ = pool.base / 4096 in
    let end_page : ℕ = start_page + pool.used_map.bit_cnt in
    leb start_page page_no && ltb page_no end_page

unfoldable pub give_back : ℕ → ℕ → Pool → (Pool → Pages) → Option Pages
give_back pages page_cnt pool put =
    let page_idx : ℕ = pages / 4096 - pool.base / 4096 in
    bitmap_all pool.used_map page_idx page_cnt >>= λ all. check all (
      bitmap_set_multiple pool.used_map page_idx page_cnt false >>= λ b.
      let st : Pages = put (record pool { used_map = b }) in
      some (record st { bytes = fill_bytes pages (4096 * page_cnt) 204 st.bytes }))

unfoldable pub palloc_free_multiple : ℕ → ℕ → Pages → Option Pages
palloc_free_multiple pages page_cnt st = check (pages % 4096 == 0) (
    if pages == 0 || page_cnt == 0
    then some st
    else if page_from_pool st.kernel_pool pages
    then give_back pages page_cnt st.kernel_pool (kernel_pages st)
    else check (page_from_pool st.user_pool pages)
        (give_back pages page_cnt st.user_pool (user_pages st)))

abbrev pub palloc_free_page : ℕ → Pages → Option Pages
palloc_free_page page st = palloc_free_multiple page 1 st

-- sizeof (struct bitmap) is 8.
abbrev pub bitmap_buf_size : ℕ → ℕ
bitmap_buf_size bit_cnt = 8 + byte_cnt bit_cnt

-- `bits` is what the block holds behind the header.
unfoldable pub bitmap_create_in_buf : ℕ → List ℕ → ℕ → Option Bitmap
bitmap_create_in_buf bit_cnt bits block_size =
    check (leb (bitmap_buf_size bit_cnt) block_size)
      (bitmap_set_all (record { bit_cnt = bit_cnt; bits = bits }) false)

-- `bits` is what the memory at the base of the pool holds behind the header of the bitmap.
unfoldable pub init_pool : ℕ → ℕ → List ℕ → Option Pool
init_pool base page_cnt bits =
    let bm_pages : ℕ = (bitmap_buf_size page_cnt + 4096 - 1) / 4096 in
    check (leb bm_pages page_cnt) (
      bitmap_create_in_buf (page_cnt - bm_pages) bits (bm_pages * 4096) >>= λ b.
      some (record { used_map = b; base = base + bm_pages * 4096 }))

-- `init_ram_pages` is a variable of threads/start.S; memory stands at PHYS_BASE, 0xc0000000.
unfoldable pub palloc_init : ℕ → ℕ → List ℕ → List ℕ → (ℕ → ℕ) → Option Pages
palloc_init init_ram_pages user_page_limit kernel_bits user_bits bytes =
    let free_start : ℕ = 3221225472 + 1024 * 1024 in
    let free_end : ℕ = 3221225472 + init_ram_pages * 4096 in
    let free_pages : ℕ = (free_end - free_start) / 4096 in
    let half : ℕ = free_pages / 2 in
    let user : ℕ = if ltb user_page_limit half then user_page_limit else half in
    let kernel : ℕ = free_pages - user in
    init_pool free_start kernel kernel_bits >>= λ k.
    init_pool (free_start + kernel * 4096) user user_bits >>= λ u.
    some (record { kernel_pool = k; user_pool = u; bytes = bytes })
