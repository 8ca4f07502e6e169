-- ===== src/FileTests.antt =====
-- Runs of the code of filesys/inode.c, file.c and free-map.c at concrete values.
use mathlib.Core.Option.{some-injective, none-ne-some}
use tony_henry_niklas.Block.{Block}
use tony_henry_niklas.Block.Byte.{byte_of, IsWhole}
use tony_henry_niklas.Bitmap.Single.{bit}
use tony_henry_niklas.FreeMap.{FreeMap, free_map_allocate, free_map_release}
use tony_henry_niklas.FreeMap.Release.{free_map_release-free_map_allocate}
use tony_henry_niklas.Inode.{
  Inode, inode_magic, inode_length, byte_to_sector, chunk_size, inode_read_at, inode_write_at,
}
use tony_henry_niklas.Inode.Access.{Lies, available, address}
use tony_henry_niklas.Inode.Read.{filled, inode_read_at_lem}
use tony_henry_niklas.Inode.Put.{stored}
use tony_henry_niklas.Inode.Write.{inode_write_at_lem}
use tony_henry_niklas.Inode.RoundTrip.{inode_read_at-inode_write_at, inode_write_at-Apart}
use tony_henry_niklas.Inode.Table.{FileSystem}
use tony_henry_niklas.Inode.Create.{IsSound}
use tony_henry_niklas.File.{File}
use tony_henry_niklas.Common.{length-replicate}
use tony_henry_niklas.Common.{
  ℕ, zero, suc, ◌-◌, ◌^◌, ◌≤◌, ◌<◌, ◌≡◌, refl, sym, ap, ◌∙◌, inl, true, false, List, [], ◌∷◌,
  Option, some, arith, length, get_elem?, replicate,
}

-- A device of eight sectors of zeros.
abbrev disk : Block
disk = record {
  size = 8;
  foreign = false;
  sectors = replicate 8 (replicate 512 0);
  read_cnt = 0;
  write_cnt = 0;
}

all_alike : (n s : ℕ) (a x : List ℕ) → get_elem? (replicate n a) s ≡ some x → length x ≡ length a
all_alike zero s a x h = absurd (none-ne-some x h)
all_alike (suc n) zero a x h = ap length (sym (some-injective a x h))
all_alike (suc n) (suc s) a x h = all_alike n s a x h

disk-IsWhole : IsWhole disk
disk-IsWhole = record {
  native = refl;
  count = refl;
  full = λ s x h. all_alike 8 s (replicate 512 0) x h ∙ length-replicate {A = ℕ} 512 0;
}

-- A file of 700 bytes in sectors 4 and 5, one of 600 bytes in sectors 6 and 7.
abbrev notes : Inode
notes = record {
  sector = 2;
  open_cnt = 1;
  removed = false;
  deny_write_cnt = 0;
  disk_inode = record { start = 4; length = 700; magic = inode_magic };
}

abbrev other : Inode
other = record {
  sector = 3;
  open_cnt = 1;
  removed = false;
  deny_write_cnt = 0;
  disk_inode = record { start = 6; length = 600; magic = inode_magic };
}

notes-Lies : Lies notes disk
notes-Lies = (omega arith, omega arith)

abbrev text : List ℕ
text = 97 ∷ 98 ∷ 99 ∷ 100 ∷ []

chunk_across : chunk_size notes 4 510 ≡ 2
unfolding chunk_size
chunk_across = refl

sector_behind : byte_to_sector notes 700 ≡ 2 ^ 32 - 1
unfolding byte_to_sector
sector_behind = refl

-- Across the border of the two sectors, and up to the end of the file.
inode_write_at_lem_example :
    (n : ℕ) × (disk' : Block) × (inode_write_at true notes text 4 510 disk ≡ some (n, disk'))
    × (n ≤ available notes 4 510)
    × (true ≡ true → n ≡ available notes 4 510)
    × ((q : ℕ) → byte_of disk'.sectors q ≡ stored text 0 disk.sectors (address notes 510) n q)
    × (disk'.size ≡ disk.size)
    × IsWhole disk'
inode_write_at_lem_example =
    inode_write_at_lem true notes text 4 510 disk disk-IsWhole notes-Lies (omega arith) refl

inode_read_at_lem_example :
    (n : ℕ) × (buffer : List ℕ) × (disk' : Block) × (inode_read_at true notes text 4 698 disk
      ≡ some (n, buffer, disk'))
    × (n ≤ available notes 4 698)
    × (true ≡ true → n ≡ available notes 4 698)
    × (length buffer ≡ length text)
    × ((k : ℕ) → get_elem? buffer k ≡ filled text 0 disk.sectors (address notes 698) n k)
    × (disk'.sectors ≡ disk.sectors)
    × (disk'.size ≡ disk.size)
    × IsWhole disk'
inode_read_at_lem_example =
    inode_read_at_lem true notes text 4 698 disk disk-IsWhole notes-Lies (omega arith)

inode_read_at-inode_write_at_example :
    (disk' : Block) × (disk'' : Block) × (out : List ℕ) × (inode_write_at true notes text 3 511 disk
      ≡ some (3, disk'))
    × (inode_read_at true notes (0 ∷ 0 ∷ 0 ∷ []) 3 511 disk' ≡ some (3, out, disk''))
    × ((k : ℕ) → k < 3 → get_elem? out k ≡ get_elem? text k)
inode_read_at-inode_write_at_example =
    inode_read_at-inode_write_at notes text (0 ∷ 0 ∷ 0 ∷ []) 3 511 disk disk-IsWhole notes-Lies refl
      (omega arith) (omega arith) (omega arith)

inode_write_at-Apart_example :
    (n : ℕ) × (disk' : Block) × (inode_write_at true notes text 4 696 disk ≡ some (n, disk'))
    × ((k : ℕ)
        → k < inode_length other
        → byte_of disk'.sectors (address other k) ≡ byte_of disk.sectors (address other k))
inode_write_at-Apart_example =
    inode_write_at-Apart true notes other text 4 696 disk disk-IsWhole notes-Lies (omega arith) refl
      (inl (omega arith))

-- The map of eight sectors, in sector 1.
abbrev map_inode : Inode
map_inode = record {
  sector = 0;
  open_cnt = 1;
  removed = false;
  deny_write_cnt = 0;
  disk_inode = record { start = 1; length = 4; magic = inode_magic };
}

-- Sectors 0 to 2 are taken, and nothing else is open.
abbrev empty_fs : FileSystem
empty_fs = record {
  device = disk;
  free_map = record { map = record { bit_cnt = 8; bits = 7 ∷ [] }; file_open = true };
  open_inodes = [];
  map_file = map_inode;
  map_memory = true;
}

empty_fs-IsSound : IsSound empty_fs
empty_fs-IsSound = record {
  whole = disk-IsWhole;
  small = omega arith;
  valid = record { small = omega arith; room = omega arith };
  covers = refl;
  map_file = record { lies = (omega arith, omega arith); writable = refl };
}

free_map_release-free_map_allocate_example :
    (r : Option ℕ) × (f' : FreeMap) × (free_map_allocate 2 true empty_fs.free_map ≡ some (r, f'))
    × ((s : ℕ)
        → r ≡ some s
        → (f'' : FreeMap) × (free_map_release s 2 f' ≡ some f'')
          × ((j : ℕ) → bit f''.map j ≡ bit empty_fs.free_map.map j))
free_map_release-free_map_allocate_example =
    free_map_release-free_map_allocate 2 true empty_fs.free_map empty_fs-IsSound.valid refl

-- Both files are open.
abbrev busy : FileSystem
busy = record empty_fs { open_inodes = (9, notes) ∷ (5, other) ∷ [] }

abbrev notes_file : File
notes_file = record { inode = 9; pos = 0; deny_write = false }

abbrev other_file : File
other_file = record { inode = 5; pos = 3; deny_write = false }

-- The first file is marked as removed, and its sectors 2, 4 and 5 are taken.
abbrev gone : Inode
gone = record notes { removed = true }

abbrev doomed : FileSystem
doomed = record busy {
  free_map = record { map = record { bit_cnt = 8; bits = 55 ∷ [] }; file_open = true };
  open_inodes = (9, gone) ∷ (5, other) ∷ [];
}
