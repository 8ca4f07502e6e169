-- ===== src/File/Calls.antt =====
-- The calls of filesys/file.c keep the counts of the inodes right, so none of their assertions fails.
use tony_henry_niklas.Block.{Block}
use tony_henry_niklas.FreeMap.{FreeMap}
use tony_henry_niklas.Inode.{Inode}
use tony_henry_niklas.Inode.Table.{FileSystem, find_inode}
use tony_henry_niklas.File.{File, file_open}
use tony_henry_niklas.File.Accounts.{IsAccount}
use tony_henry_niklas.File.Close.{IsOwned, inode_close_lem}
use tony_henry_niklas.Common.{
  ℕ, ◌≡◌, refl, Bool, true, false, List, ◌∷◌, Option, none, some, and_then, if◌then◌else◌,
}

-- A file as file_open makes it; a pointer to an inode that no file has yet counts as one.
abbrev pub new_file : ℕ → File
new_file a = record { inode = a; pos = 0; deny_write = false }

-- The inode at `a` has its sectors, should it be marked as removed.
abbrev pub Owned : ℕ → FileSystem → Type 0
Owned a fs =
    (i : Inode)
    → find_inode a fs.open_inodes ≡ some i
    → i.removed ≡ true
    → IsOwned i fs.free_map fs.device fs.map_file

abbrev pub with_file : Option File → List File → List File
with_file none files = files
with_file (some file) files = file ∷ files

pub file_open_lem :
    (memory : Bool) (a : ℕ) (files : List File) (fs : FileSystem)
    → IsAccount fs.open_inodes (new_file a ∷ files)
    → Owned a fs
    → (r : Option File) × (fs' : FileSystem) × (file_open memory (some a) fs ≡ some (r, fs'))
      × IsAccount fs'.open_inodes (with_file r files)
      × (r ≡ (if memory then some (new_file a) else none))
unfolding file_open
file_open_lem true a files fs s own = (some (new_file a), fs, refl, s, refl)
file_open_lem false a files fs s own =
    let (fs', q, s') = inode_close_lem (new_file a) files fs s refl own in
    (none, fs', and_then (λ x. some (none, x)) q, s', refl)
