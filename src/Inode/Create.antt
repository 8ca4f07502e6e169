-- ===== src/Inode/Create.antt =====
-- inode_create of filesys/inode.c: the header and the zeros that it writes.
use tony_henry_niklas.Inode.Header.{zeroed}
use tony_henry_niklas.Block.{Block}
use tony_henry_niklas.Block.Byte.{byte_of, IsWhole}
use tony_henry_niklas.Bitmap.Single.{IsValid, bit}
use tony_henry_niklas.FreeMap.{FreeMap}
use tony_henry_niklas.FreeMap.Sectors.{Allocated}
use tony_henry_niklas.Inode.Access.{Lies-resized}
use tony_henry_niklas.Inode.MapFile.{HasMapFile, IsMapWrite}
use tony_henry_niklas.Inode.{InodeDisk, inode_magic, bytes_to_sectors}
use tony_henry_niklas.Inode.Table.{FileSystem, to_sector}
use tony_henry_niklas.Common.{
  ℕ, ◌/◌, ◌%◌, ◌^◌, ◌<◌, ◌≡◌, sym, ◌∙◌, Bool, true, false, List, Option, some, arith, ◌==◌,
  if◌then◌else◌, length, get_elem?,
}

-- The header that the file gets.
abbrev pub header : ℕ → ℕ → InodeDisk
header start length = record { start = start; length = length; magic = inode_magic }

-- Byte `q` of the device once the header and the zeros are written.
abbrev pub created : List (List ℕ) → ℕ → ℕ → ℕ → ℕ → Option ℕ
created sectors sector size start q =
    if q / 512 == sector
    then get_elem? (to_sector (header start size)) (q % 512)
    else zeroed sectors start (bytes_to_sectors size) q

-- What a call that returns true or false has done.
abbrev pub Outcome : ℕ → ℕ → FileSystem → Bool → FileSystem → Type 0
Outcome sector size fs true fs' =
    (start : ℕ) × Allocated (bytes_to_sectors size) fs.free_map (some start) fs'.free_map
    × ((q : ℕ) → byte_of fs'.device.sectors q ≡ created fs.device.sectors sector size start q)
Outcome sector size fs false fs' =
    (fs'.device ≡ fs.device) × ((j : ℕ) → bit fs'.free_map.map j ≡ bit fs.free_map.map j)

-- A file system whose map covers its device and has its file there.
pub record IsSound (fs : FileSystem) : Type 0 where
  pub whole : IsWhole fs.device
  pub small : fs.device.size < 2 ^ 32
  pub valid : IsValid fs.free_map.map
  pub covers : fs.free_map.map.bit_cnt ≡ fs.device.size
  pub map_file : HasMapFile fs

abbrev Result : ℕ → ℕ → FileSystem → Option (Bool × FileSystem) → Type 0
Result sector size fs o =
    (made : Bool) × (fs' : FileSystem) × (o ≡ some (made, fs'))
    × (fs'.open_inodes ≡ fs.open_inodes)
    × IsSound fs'
    × Outcome sector size fs made fs'

-- The device after the map has been written, for what follows.
pub after_write-IsSound :
    (fs : FileSystem) (device : Block)
    → IsSound fs
    → IsMapWrite fs device
    → IsSound (record fs { device = device })
after_write-IsSound fs device ok write = record {
  whole = write.whole;
  small = omega (arith, write.size, ok.small);
  valid = ok.valid;
  covers = ok.covers ∙ sym write.size;
  map_file = record {
    lies = Lies-resized fs.map_file fs.device device write.size ok.map_file.lies;
    writable = ok.map_file.writable;
  };
}
