-- ===== src/Filesys.antt =====
-- The calls of filesys/filesys.c on names in the root directory.
use tony_henry_niklas.Inode.Table.{FileSystem, allocate_sectors, release_sectors, inode_create}
use tony_henry_niklas.Directory.{Dir, dir_open_root, dir_close, dir_lookup, dir_add, dir_remove}
use tony_henry_niklas.File.{File, file_open}
use tony_henry_niklas.Common.{
  ℕ, Bool, false, ◌&&◌, not, List, Option, none, some, ◌==◌, if◌then◌else◌, ◌>>=◌,
}

-- What the code outside these functions answers in one call.
pub record Answers : Type 0 where
  -- The address of the inode of the root directory, where there is memory for it.
  pub root : Option ℕ
  -- Whether there is memory for the directory.
  pub dir : Bool
  -- Whether there is memory to write the free map, for the sector of the inode and for the data.
  pub sector_bounce : Bool
  pub data_bounce : Bool
  -- Whether there is memory for the header of the inode, and for bounce buffers.
  pub header : Bool
  pub bounce : Bool

-- `if (!success && inode_sector != 0) free_map_release (inode_sector, 1);`
unfoldable pub give_back_sector : ℕ → Bool → FileSystem → Option FileSystem
give_back_sector sector success fs =
    if not success && not (sector == 0) then release_sectors sector 1 fs else some fs

-- The end of `filesys_create`.
unfoldable pub finish_create : Dir → ℕ → Bool × FileSystem → Option (Bool × FileSystem)
finish_create dir sector (success, fs) = give_back_sector sector success fs >>= λ fs'.
    dir_close (some dir) fs' >>= λ fs''. some (success, fs'')

abbrev pub create_at :
    Answers
    → List ℕ
    → ℕ
    → List ℕ
    → List ℕ
    → Dir
    → Option ℕ × FileSystem
    → Option (Bool × FileSystem)
create_at answers name initial_size inner e dir (none, fs) = finish_create dir 0 (false, fs)
create_at answers name initial_size inner e dir (some sector, fs) =
    inode_create answers.header answers.data_bounce sector initial_size fs >>= λ r.
    (if r.0 then dir_add answers.bounce dir name sector inner e r.1 else some r)
    >>= finish_create dir sector

abbrev pub create_in :
    Answers → List ℕ → ℕ → List ℕ → List ℕ → Option Dir × FileSystem → Option (Bool × FileSystem)
create_in answers name initial_size inner e (none, fs) = some (false, fs)
create_in answers name initial_size inner e (some dir, fs) =
    allocate_sectors 1 answers.sector_bounce fs >>= create_at answers name initial_size inner e dir

-- `inner` and `e` are the entries that the loops of the directory start from.
unfoldable pub filesys_create :
    Answers → List ℕ → ℕ → List ℕ → List ℕ → FileSystem → Option (Bool × FileSystem)
filesys_create answers name initial_size inner e fs =
    dir_open_root answers.dir answers.root fs >>= create_in answers name initial_size inner e

abbrev pub open_in :
    Answers
    → Option ℕ
    → Bool
    → List ℕ
    → List ℕ
    → Option Dir × FileSystem
    → Option (Option File × FileSystem)
open_in answers address memory name e (none, fs) = file_open memory none fs
open_in answers address memory name e (some dir, fs) =
    dir_lookup answers.bounce address dir name e fs >>= λ r.
    dir_close (some dir) r.1 >>= λ fs'. file_open memory r.0 fs'

-- The address is the one for the inode of the file, the flag whether there is memory for the file.
unfoldable pub filesys_open :
    Answers → Option ℕ → Bool → List ℕ → List ℕ → FileSystem → Option (Option File × FileSystem)
filesys_open answers address memory name e fs =
    dir_open_root answers.dir answers.root fs >>= open_in answers address memory name e

abbrev pub remove_in :
    Answers → Option ℕ → List ℕ → List ℕ → Option Dir × FileSystem → Option (Bool × FileSystem)
remove_in answers address name e (none, fs) = some (false, fs)
remove_in answers address name e (some dir, fs) =
    dir_remove answers.bounce address dir name e fs >>= λ r.
    dir_close (some dir) r.1 >>= λ fs'. some (r.0, fs')

unfoldable pub filesys_remove :
    Answers → Option ℕ → List ℕ → List ℕ → FileSystem → Option (Bool × FileSystem)
filesys_remove answers address name e fs =
    dir_open_root answers.dir answers.root fs >>= remove_in answers address name e
