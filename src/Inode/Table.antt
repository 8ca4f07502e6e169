-- ===== src/Inode/Table.antt =====
-- The open inodes and the creation of inodes, filesys/inode.c of OS-lab2-master/pintos/src. A pointer to
-- an inode is the address that malloc handed out; what malloc answers is an argument. A use of an
-- inode that is not open is a fault, `none`.
use tony_henry_niklas.Block.{Block, block_read, block_write}
use tony_henry_niklas.Bitmap.{Bitmap, bitmap_error, byte_cnt, bitmap_scan_and_flip}
use tony_henry_niklas.FreeMap.{FreeMap, write_or_restore, free_map_release}
use tony_henry_niklas.Inode.{InodeDisk, Inode, inode_magic, bytes_to_sectors, inode_write_at}
use tony_henry_niklas.Common.{
  ℕ, zero, suc, ◌+◌, ◌-◌, ◌*◌, ◌/◌, ◌%◌, ◌^◌, ◌&&◌, not, Bool, true, false, List, [], ◌∷◌, ◌++◌,
  Option, none, some, ltb, leb, ◌==◌, check, if◌then◌else◌, length, ◌>>=◌, replicate, get_or,
}

-- `fs_device`, the free map and `open_inodes`. `map_file` is the inode behind `free_map_file`, as it stays
-- while that file is open; `map_memory` is whether malloc has memory when a release writes the map.
pub record FileSystem : Type 0 where
  pub device : Block
  pub free_map : FreeMap
  pub open_inodes : List (ℕ × Inode)
  pub map_file : Inode
  pub map_memory : Bool

-- The bytes of a 32-bit word, the lowest first.
unfoldable pub word_bytes : ℕ → List ℕ
word_bytes w = w % 256 ∷ w / 256 % 256 ∷ w / 65536 % 256 ∷ w / 16777216 % 256 ∷ []

unfoldable pub word_at : List ℕ → ℕ → ℕ
word_at bytes i =
    get_or bytes i 0
    + 256 * get_or bytes (i + 1) 0
    + 65536 * get_or bytes (i + 2) 0
    + 16777216 * get_or bytes (i + 3) 0

-- The elements of a bitmap as they lie in memory.
unfoldable pub elem_bytes : List ℕ → List ℕ
elem_bytes [] = []
elem_bytes (w ∷ bits) = word_bytes w ++ elem_bytes bits

-- The first argument is whether there is memory for a bounce buffer.
unfoldable pub bitmap_write : Bool → Inode → Bitmap → Block → Option (Bool × Block)
bitmap_write memory file b device =
    inode_write_at memory file (elem_bytes b.bits) (byte_cnt b.bit_cnt) 0 device >>= λ r.
    some (r.0 == byte_cnt b.bit_cnt, r.1)

-- The condition of `free_map_allocate` up to `bitmap_write`, for what the search has found.
unfoldable pub write_found : Bool → FileSystem → ℕ × Bitmap → Option (Bool × Block)
write_found memory fs r =
    if not (r.0 == bitmap_error) && fs.free_map.file_open
    then bitmap_write memory fs.map_file r.1 fs.device
    else some (true, fs.device)

-- All of `free_map_allocate`, with what it writes to the device.
unfoldable pub allocate_sectors : ℕ → Bool → FileSystem → Option (Option ℕ × FileSystem)
allocate_sectors cnt memory fs = bitmap_scan_and_flip fs.free_map.map 0 cnt false >>= λ r.
    write_found memory fs r >>= λ w. write_or_restore cnt w.0 fs.free_map r >>= λ a.
    some (a.0, record fs { free_map = a.1; device = w.1 })

-- All of `free_map_release`: the result of `bitmap_write` is ignored.
unfoldable pub release_sectors : ℕ → ℕ → FileSystem → Option FileSystem
release_sectors sector cnt fs = free_map_release sector cnt fs.free_map >>= λ f.
    bitmap_write fs.map_memory fs.map_file f.map fs.device >>= λ w.
    some (record fs { free_map = f; device = w.1 })

-- A `struct inode_disk` in memory, `unused` as calloc leaves it.
unfoldable pub to_sector : InodeDisk → List ℕ
to_sector d = word_bytes d.start ++ (word_bytes d.length ++ (word_bytes d.magic ++ replicate 500 0))

unfoldable pub of_sector : List ℕ → InodeDisk
of_sector bytes = record {
  start = word_at bytes 0;
  length = word_at bytes 4;
  magic = word_at bytes 8;
}

-- `for (i = 0; i < sectors; i++) block_write (fs_device, disk_inode->start + i, zeros);`
unfoldable pub write_zeros : ℕ → ℕ → Block → Option Block
write_zeros zero sector device = some device
write_zeros (suc sectors) sector device = block_write device sector (replicate 512 0) >>= λ d.
    write_zeros sectors ((sector + 1) % 2 ^ 32) d

-- What happens once the sectors at `start` are allocated.
unfoldable pub write_inode : ℕ → ℕ → ℕ → FileSystem → Option (Bool × FileSystem)
write_inode sector length start fs =
    block_write fs.device sector
      (to_sector (record { start = start; length = length; magic = inode_magic }))
    >>= λ d. write_zeros (bytes_to_sectors length) start d >>= λ d'.
        some (true, record fs { device = d' })

abbrev pub with_sectors : ℕ → ℕ → Option ℕ × FileSystem → Option (Bool × FileSystem)
with_sectors sector length (none, fs) = some (false, fs)
with_sectors sector length (some start, fs) = write_inode sector length start fs

-- The first arguments are whether there is memory for the header, and for a bounce buffer when the
-- free map is written.
unfoldable pub inode_create : Bool → Bool → ℕ → ℕ → FileSystem → Option (Bool × FileSystem)
inode_create memory bounce sector length fs =
    if memory
    then (allocate_sectors (bytes_to_sectors length) bounce fs >>= with_sectors sector length)
    else some (false, fs)

abbrev pub find_sector : ℕ → List (ℕ × Inode) → Option ℕ
find_sector sector [] = none
find_sector sector ((address, inode) ∷ rest) =
    if inode.sector == sector then some address else find_sector sector rest

abbrev pub find_inode : ℕ → List (ℕ × Inode) → Option Inode
find_inode address [] = none
find_inode address ((a, inode) ∷ rest) =
    if a == address then some inode else find_inode address rest

abbrev pub put_inode : ℕ → Inode → List (ℕ × Inode) → List (ℕ × Inode)
put_inode address inode [] = []
put_inode address inode ((a, i) ∷ rest) =
    if a == address then (a, inode) ∷ rest else (a, i) ∷ put_inode address inode rest

-- `list_remove (&inode->elem)`
abbrev pub remove_inode : ℕ → List (ℕ × Inode) → List (ℕ × Inode)
remove_inode address [] = []
remove_inode address ((a, i) ∷ rest) =
    if a == address then rest else (a, i) ∷ remove_inode address rest

abbrev pub change_inode : (Inode → Inode) → ℕ → FileSystem → Option FileSystem
change_inode f address fs = find_inode address fs.open_inodes >>= λ inode.
    some (record fs { open_inodes = put_inode address (f inode) fs.open_inodes })

-- A null pointer is `none`.
unfoldable pub inode_reopen : Option ℕ → FileSystem → Option FileSystem
inode_reopen none fs = some fs
inode_reopen (some address) fs =
    change_inode (λ inode. record inode { open_cnt = inode.open_cnt + 1 }) address fs

abbrev pub open_new : ℕ → Option ℕ → FileSystem → Option (Option ℕ × FileSystem)
open_new sector none fs = some (none, fs)
open_new sector (some address) fs = block_read fs.device sector >>= λ r. some (
  some address,
  record fs {
    device = r.1;
    open_inodes =
        (
          address,
          record {
            sector = sector;
            open_cnt = 1;
            removed = false;
            deny_write_cnt = 0;
            disk_inode = of_sector r.0;
          },
        )
        ∷ fs.open_inodes;
  },
)

abbrev pub open_found : ℕ → Option ℕ → FileSystem → Option ℕ → Option (Option ℕ × FileSystem)
open_found sector memory fs none = open_new sector memory fs
open_found sector memory fs (some address) =
    inode_reopen (some address) fs >>= λ fs'. some (some address, fs')

-- The first argument is the address that malloc answers, the result the pointer to the inode.
unfoldable pub inode_open : Option ℕ → ℕ → FileSystem → Option (Option ℕ × FileSystem)
inode_open memory sector fs = open_found sector memory fs (find_sector sector fs.open_inodes)

unfoldable pub inode_get_inumber : ℕ → FileSystem → Option ℕ
inode_get_inumber address fs = find_inode address fs.open_inodes >>= λ inode. some inode.sector

-- The blocks of an inode that was removed.
unfoldable pub free_blocks : Inode → FileSystem → Option FileSystem
free_blocks inode fs = release_sectors inode.sector 1 fs >>= λ fs'.
    release_sectors inode.disk_inode.start (bytes_to_sectors inode.disk_inode.length) fs'

-- An inode on the list has an opener at least, so that `--open_cnt` does not go below 0.
unfoldable pub close_open : ℕ → Inode → FileSystem → Option FileSystem
close_open address inode fs =
    if inode.open_cnt == 1
    then (let fs' : FileSystem = record fs { open_inodes = remove_inode address fs.open_inodes } in
        if inode.removed then free_blocks inode fs' else some fs')
    else some (record fs {
      open_inodes =
          put_inode address (record inode { open_cnt = inode.open_cnt - 1 }) fs.open_inodes;
    })

unfoldable pub inode_close : Option ℕ → FileSystem → Option FileSystem
inode_close none fs = some fs
inode_close (some address) fs =
    find_inode address fs.open_inodes >>= λ inode. close_open address inode fs

unfoldable pub inode_remove : ℕ → FileSystem → Option FileSystem
inode_remove address fs = change_inode (λ inode. record inode { removed = true }) address fs

unfoldable pub inode_deny_write : ℕ → FileSystem → Option FileSystem
inode_deny_write address fs = find_inode address fs.open_inodes >>= λ inode.
    check (leb (inode.deny_write_cnt + 1) inode.open_cnt) (
      some (record fs {
        open_inodes =
            put_inode address (record inode { deny_write_cnt = inode.deny_write_cnt + 1 })
              fs.open_inodes;
      }))

unfoldable pub inode_allow_write : ℕ → FileSystem → Option FileSystem
inode_allow_write address fs = find_inode address fs.open_inodes >>= λ inode.
    check (ltb 0 inode.deny_write_cnt) (
      check (leb inode.deny_write_cnt inode.open_cnt) (
        some (record fs {
          open_inodes =
              put_inode address (record inode { deny_write_cnt = inode.deny_write_cnt - 1 })
                fs.open_inodes;
        })))
