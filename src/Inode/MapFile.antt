-- ===== src/Inode/MapFile.antt =====
-- bitmap_write of lib/kernel/bitmap.c to the file of the free map, and what free_map_allocate and
-- free_map_release of filesys/free-map.c change on the device by it.
use tony_henry_niklas.Block.{Block}
use tony_henry_niklas.Block.Byte.{byte_of, IsWhole}
use tony_henry_niklas.Bitmap.{Bitmap, bitmap_error, byte_cnt}
use tony_henry_niklas.Bitmap.Single.{IsValid}
use tony_henry_niklas.Bitmap.Range.{RangeSet}
use tony_henry_niklas.Bitmap.Scan.{Group}
use tony_henry_niklas.Bitmap.Take.{bitmap_scan_and_flip_lem}
use tony_henry_niklas.FreeMap.{FreeMap, write_or_restore, free_map_allocate}
use tony_henry_niklas.FreeMap.Sectors.{Allocated, free_map_allocate_lem}
use tony_henry_niklas.FreeMap.Release.{free_map_release_lem}
use tony_henry_niklas.Inode.{Inode, inode_length}
use tony_henry_niklas.Inode.Access.{Lies, address}
use tony_henry_niklas.Inode.Put.{stored}
use tony_henry_niklas.Inode.Write.{inode_write_at_lem}
use tony_henry_niklas.Inode.Table.{
  FileSystem, word_bytes, elem_bytes, bitmap_write, write_found, allocate_sectors, release_sectors,
}
use tony_henry_niklas.Common.{
  ℕ, ◌+◌, ◌-◌, ◌*◌, ◌≤◌, ◌<◌, ◌≡◌, refl, sym, ◌∙◌, inl, inr, Bool, true, false, ◌&&◌, not, List, [],
  ◌∷◌, Option, some, arith, ltb, leb, ◌==◌, chosen, passed_over, and_then, length, get_elem?, set,
  ◌>>=◌, Bool-cases, subst,
}

length-elem_bytes : (bits : List ℕ) → length (elem_bytes bits) ≡ 4 * length bits
unfolding elem_bytes word_bytes
length-elem_bytes [] = omega arith
length-elem_bytes (w ∷ bits) = omega (arith, length-elem_bytes bits)

-- No byte outside the file has changed.
abbrev pub SameOutside : Inode → Block → Block → Type 0
SameOutside file device device' =
    (q : ℕ)
    → ¬ ((address file 0 ≤ q) × (q < address file 0 + inode_length file))
    → byte_of device'.sectors q ≡ byte_of device.sectors q

-- The device after the map may have been written to its file.
pub record IsMapWrite (fs : FileSystem) (device : Block) : Type 0 where
  pub outside : SameOutside fs.map_file fs.device device
  pub size : device.size ≡ fs.device.size
  pub whole : IsWhole device
  pub closed : fs.free_map.file_open ≡ false → device ≡ fs.device

-- The sectors of the map's file lie on the device, and no file denies writes to it.
pub record HasMapFile (fs : FileSystem) : Type 0 where
  pub lies : Lies fs.map_file fs.device
  pub writable : fs.map_file.deny_write_cnt ≡ 0

stored_outside :
    (buffer : List ℕ) (sectors : List (List ℕ)) (a n m q : ℕ)
    → n ≤ m
    → ¬ ((a ≤ q) × (q < a + m))
    → stored buffer 0 sectors a n q ≡ byte_of sectors q
stored_outside buffer sectors a n m q h out =
    let away : (leb a q && ltb q (a + n)) ≡ false = ground (arith, h, out) in
    passed_over (get_elem? buffer (0 + (q - a))) away

bitmap_write_lem :
    (memory : Bool) (file : Inode) (b : Bitmap) (device : Block)
    → IsValid b
    → IsWhole device
    → Lies file device
    → file.deny_write_cnt ≡ 0
    → (ok : Bool) × (device' : Block) × (bitmap_write memory file b device ≡ some (ok, device'))
      × SameOutside file device device'
      × (device'.size ≡ device.size)
      × IsWhole device'
unfolding bitmap_write
bitmap_write_lem memory file b device v w l writable =
    let bytes : List ℕ = elem_bytes b.bits in
    let size : ℕ = byte_cnt b.bit_cnt in
    let room : size ≤ length bytes = omega (arith, length-elem_bytes b.bits, v.small, v.room) in
    let (n, d, e, most, all, put, same, w') =
      inode_write_at_lem memory file bytes size 0 device w l room writable in
    let fits : n ≤ inode_length file = ground (arith, most) in
    (
      n == size,
      d,
      and_then (λ r. some (r.0 == size, r.1)) e,
      λ q out.
          put q
          ∙ stored_outside bytes device.sectors (address file 0) n (inode_length file) q fits out,
      same,
      w',
    )

-- What the write does for what the search has found.
write_found_lem :
    (memory : Bool) (fs : FileSystem) (r : ℕ × Bitmap)
    → IsValid r.1
    → IsWhole fs.device
    → HasMapFile fs
    → (ok : Bool) × (device : Block) × (write_found memory fs r ≡ some (ok, device))
      × IsMapWrite fs device
unfolding write_found
write_found_lem memory fs r v w has =
    elim (Bool-cases (not (r.0 == bitmap_error) && fs.free_map.file_open)) [
      | inl e ↦
          let (ok, d, p, outside, size, w') =
            bitmap_write_lem memory fs.map_file r.1 fs.device v w has.lies has.writable in
          (
            ok,
            d,
            chosen (some (true, fs.device)) e ∙ p,
            record {
              outside = outside;
              size = size;
              whole = w';
              closed = λ c. absurd (ground (arith, e, c));
            },
          )
      | inr e ↦ (
        true,
        fs.device,
        passed_over (bitmap_write memory fs.map_file r.1 fs.device) e,
        record { outside = λ q out. refl; size = refl; whole = w; closed = λ c. refl },
      )
    ]

pub allocate_sectors_lem :
    (cnt : ℕ) (memory : Bool) (fs : FileSystem)
    → IsValid fs.free_map.map
    → IsWhole fs.device
    → HasMapFile fs
    → (r : Option ℕ) × (f' : FreeMap) × (device : Block) × (allocate_sectors cnt memory fs
        ≡ some (r, record fs { free_map = f'; device = device }))
      × IsMapWrite fs device
      × IsValid f'.map
      × (f'.file_open ≡ fs.free_map.file_open)
      × Allocated cnt fs.free_map r f'
unfolding allocate_sectors free_map_allocate
allocate_sectors_lem cnt memory fs v w has =
    let f : FreeMap = fs.free_map in
    let (idx, b', e, found) = bitmap_scan_and_flip_lem f.map 0 cnt false v (omega arith) in
    let v' : IsValid b' = elim found [
      | inl (group, set) ↦ set.valid
      | inr (nothing, same) ↦ subst IsValid (sym same) v
    ] in
    let (ok, d, p, write) = write_found_lem memory fs (idx, b') v' w has in
    let (r, f', q, v'', opened, taken) = free_map_allocate_lem cnt ok f v in
    let kept : write_or_restore cnt ok f (idx, b') ≡ some (r, f') =
      sym (and_then (write_or_restore cnt ok f) e) ∙ q in
    let answer : Block → Option ℕ × FreeMap → Option (Option ℕ × FileSystem) =
      λ x a. some (a.0, record fs { free_map = a.1; device = x }) in
    let restore : ℕ × Bitmap → Bool × Block → Option (Option ℕ × FileSystem) =
      λ x y. write_or_restore cnt y.0 f x >>= answer y.1 in
    let body : ℕ × Bitmap → Option (Option ℕ × FileSystem) =
      λ x. write_found memory fs x >>= restore x in
    (
      r,
      f',
      d,
      and_then body e ∙ and_then (restore (idx, b')) p ∙ and_then (answer d) kept,
      write,
      v'',
      opened,
      taken,
    )

pub release_sectors_lem :
    (sector cnt : ℕ) (fs : FileSystem)
    → IsValid fs.free_map.map
    → sector + cnt ≤ fs.free_map.map.bit_cnt
    → Group fs.free_map.map sector cnt true
    → fs.free_map.file_open ≡ true
    → IsWhole fs.device
    → HasMapFile fs
    → (f' : FreeMap) × (device : Block) × (release_sectors sector cnt fs
        ≡ some (record fs { free_map = f'; device = device }))
      × RangeSet fs.free_map.map sector cnt false f'.map
      × (f'.file_open ≡ true)
      × SameOutside fs.map_file fs.device device
      × (device.size ≡ fs.device.size)
      × IsWhole device
unfolding release_sectors
release_sectors_lem sector cnt fs v h group opened w has =
    let (f', e, r, o) = free_map_release_lem sector cnt fs.free_map v h group opened in
    let (ok, d, p, outside, size, w') =
      bitmap_write_lem fs.map_memory fs.map_file f'.map fs.device r.valid w has.lies has.writable in
    let answer : FreeMap → Bool × Block → Option FileSystem =
      λ x y. some (record fs { free_map = x; device = y.1 }) in
    let write : FreeMap → Option FileSystem =
      λ x. bitmap_write fs.map_memory fs.map_file x.map fs.device >>= answer x in
    (f', d, and_then write e ∙ and_then (answer f') p, r, o, outside, size, w')
