-- ===== src/File.antt =====
-- Open files, filesys/file.c of OS-lab2-master/pintos/src. The calls take the file and return it as they
-- leave it; whether calloc and malloc have memory are arguments. A fault or a panic is `none`.
pub mod Accounts
pub mod Calls
pub mod Close
use tony_henry_niklas.Inode.{Inode, inode_read_at, inode_write_at}
use tony_henry_niklas.Inode.Table.{
  FileSystem, find_inode, inode_reopen, inode_close, inode_deny_write, inode_allow_write,
}
use tony_henry_niklas.Common.{
  ℕ, zero, suc, ◌+◌, ◌-◌, ◌*◌, ◌/◌, ◌%◌, ◌^◌, ◌≤◌, ◌<◌, ◌≡◌, refl, sym, ap, ◌∙◌, ◌≢◌, ◌↔◌, ◌⊎◌, inl,
  inr, Bool, true, false, ◌&&◌, ◌||◌, not, List, [], ◌∷◌, ◌++◌, map, Option, none, some, arith, ltb,
  leb, ◌==◌, check, passes, chosen, passed_over, and_then, if◌then◌else◌, length, get_elem?, set,
  ◌>>=◌, Bool-cases, Option-cases, subst, fun_ext, ltb→lt, leb→le, lt→ltb, ==_iff, take, drop,
  replicate, length-set, get_elem?-set_self, get_elem?-set_ne, length-append, get_or,
}

pub record File : Type 0 where
  -- The address of the inode.
  pub inode : ℕ
  pub pos : ℕ
  pub deny_write : Bool

unfoldable pub file_open : Bool → Option ℕ → FileSystem → Option (Option File × FileSystem)
file_open memory none fs = some (none, fs)
file_open memory (some inode) fs =
    if memory
    then some (some (record { inode = inode; pos = 0; deny_write = false }), fs)
    else (inode_close (some inode) fs >>= λ fs'. some (none, fs'))

unfoldable pub file_reopen : Bool → File → FileSystem → Option (Option File × FileSystem)
file_reopen memory file fs =
    inode_reopen (some file.inode) fs >>= λ fs'. file_open memory (some file.inode) fs'

unfoldable pub file_allow_write : File → FileSystem → Option (File × FileSystem)
file_allow_write file fs =
    if file.deny_write
    then (inode_allow_write file.inode fs >>= λ fs'. some (record file { deny_write = false }, fs'))
    else some (file, fs)

unfoldable pub file_deny_write : File → FileSystem → Option (File × FileSystem)
file_deny_write file fs =
    if not file.deny_write
    then (inode_deny_write file.inode fs >>= λ fs'. some (record file { deny_write = true }, fs'))
    else some (file, fs)

unfoldable pub file_close : Option File → FileSystem → Option FileSystem
file_close none fs = some fs
file_close (some file) fs = file_allow_write file fs >>= λ r. inode_close (some r.0.inode) r.1

abbrev pub file_get_inode : File → ℕ
file_get_inode file = file.inode

unfoldable pub file_read_at :
    Bool → File → List ℕ → ℕ → ℕ → FileSystem → Option (ℕ × List ℕ × FileSystem)
file_read_at memory file buffer size file_ofs fs = find_inode file.inode fs.open_inodes >>= λ inode.
    inode_read_at memory inode buffer size file_ofs fs.device >>= λ r.
    some (r.0, r.1, record fs { device = r.2 })

unfoldable pub file_write_at : Bool → File → List ℕ → ℕ → ℕ → FileSystem → Option (ℕ × FileSystem)
file_write_at memory file buffer size file_ofs fs =
    find_inode file.inode fs.open_inodes >>= λ inode.
    inode_write_at memory inode buffer size file_ofs fs.device >>= λ r.
    some (r.0, record fs { device = r.1 })

-- The result has the returned count, the buffer, the file and the file system.
unfoldable pub file_read :
    Bool → File → List ℕ → ℕ → FileSystem → Option (ℕ × List ℕ × File × FileSystem)
file_read memory file buffer size fs = file_read_at memory file buffer size file.pos fs >>= λ r.
    some (r.0, r.1, record file { pos = file.pos + r.0 }, r.2)

unfoldable pub file_write : Bool → File → List ℕ → ℕ → FileSystem → Option (ℕ × File × FileSystem)
file_write memory file buffer size fs = file_write_at memory file buffer size file.pos fs >>= λ r.
    some (r.0, record file { pos = file.pos + r.0 }, r.1)

unfoldable pub file_length : File → FileSystem → Option ℕ
file_length file fs = find_inode file.inode fs.open_inodes >>= λ inode. some inode.disk_inode.length

unfoldable pub file_seek : File → ℕ → File
file_seek file new_pos = record file { pos = new_pos }

abbrev pub file_tell : File → ℕ
file_tell file = file.pos
