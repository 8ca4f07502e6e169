-- ===== src/Directory.antt =====
-- Directories, filesys/directory.c of OS-lab2-master/pintos/src. A `struct dir_entry` is its 20 bytes: the
-- sector, the name and the flag. What the local variable `e` holds at first, and what malloc and calloc
-- answer, are arguments. A fault, a panic or a loop without end is `none`.
pub mod Entry
pub mod Lookup
pub mod Slot
pub mod Written
pub mod Add
use tony_henry_niklas.Common.Int.{ℤ, pos, negsuc}
use tony_henry_niklas.Strings.Text.{strlen, strcmp, strlcpy}
use tony_henry_niklas.Inode.{Inode, inode_length, inode_read_at, inode_write_at}
use tony_henry_niklas.Inode.Table.{
  FileSystem, word_bytes, word_at, find_inode, inode_create, inode_open, inode_reopen, inode_close,
  inode_remove,
}
use tony_henry_niklas.Common.{
  ℕ, zero, suc, ◌+◌, ◌-◌, ◌*◌, ◌/◌, ◌%◌, ◌^◌, ◌≤◌, ◌<◌, ◌≡◌, refl, sym, ap, ◌∙◌, ◌≢◌, ◌↔◌, ◌⊎◌, inl,
  inr, Bool, true, false, ◌&&◌, ◌||◌, not, List, [], ◌∷◌, ◌++◌, map, Option, none, some, arith, ltb,
  leb, ◌==◌, check, passes, chosen, passed_over, and_then, if◌then◌else◌, length, get_elem?, set,
  ◌>>=◌, Bool-cases, Option-cases, subst, fun_ext, ltb→lt, leb→le, lt→ltb, ==_iff, take, drop,
  replicate, length-set, get_elem?-set_self, get_elem?-set_ne, length-append, get_or,
}

pub record Dir : Type 0 where
  -- The address of the inode.
  pub inode : ℕ
  pub pos : ℕ

-- ROOT_DIR_SECTOR
abbrev pub root_dir_sector : ℕ
root_dir_sector = 1

-- `sizeof` makes the product an unsigned integer of 32 bits; a length from 2 ^ 31 on is negative as off_t.
unfoldable pub dir_create : Bool → Bool → ℕ → ℕ → FileSystem → Option (Bool × FileSystem)
dir_create memory bounce sector entry_cnt fs =
    let length : ℕ = (entry_cnt * 20) % 2 ^ 32 in
    if ltb length (2 ^ 31) then inode_create memory bounce sector length fs else none

-- The first argument is whether calloc has memory.
unfoldable pub dir_open : Bool → Option ℕ → FileSystem → Option (Option Dir × FileSystem)
dir_open memory none fs = some (none, fs)
dir_open memory (some inode) fs =
    if memory
    then some (some (record { inode = inode; pos = 0 }), fs)
    else (inode_close (some inode) fs >>= λ fs'. some (none, fs'))

unfoldable pub dir_open_root : Bool → Option ℕ → FileSystem → Option (Option Dir × FileSystem)
dir_open_root memory address fs =
    inode_open address root_dir_sector fs >>= λ r. dir_open memory r.0 r.1

unfoldable pub dir_reopen : Bool → Dir → FileSystem → Option (Option Dir × FileSystem)
dir_reopen memory dir fs =
    inode_reopen (some dir.inode) fs >>= λ fs'. dir_open memory (some dir.inode) fs'

unfoldable pub dir_close : Option Dir → FileSystem → Option FileSystem
dir_close none fs = some fs
dir_close (some dir) fs = inode_close (some dir.inode) fs

abbrev pub dir_get_inode : Dir → ℕ
dir_get_inode dir = dir.inode

-- `inode_read_at (dir->inode, &e, sizeof e, ofs)`
unfoldable pub read_entry : Bool → ℕ → List ℕ → ℕ → FileSystem → Option (ℕ × List ℕ × FileSystem)
read_entry memory address e ofs fs = find_inode address fs.open_inodes >>= λ inode.
    inode_read_at memory inode e 20 ofs fs.device >>= λ r.
    some (r.0, r.1, record fs { device = r.2 })

unfoldable pub write_entry : Bool → ℕ → List ℕ → ℕ → FileSystem → Option (ℕ × FileSystem)
write_entry memory address e ofs fs = find_inode address fs.open_inodes >>= λ inode.
    inode_write_at memory inode e 20 ofs fs.device >>= λ r. some (r.0, record fs { device = r.1 })

abbrev pub in_use : List ℕ → Bool
in_use e = not (get_or e 19 0 == 0)

abbrev pub is_zero : ℤ → Bool
is_zero (pos n) = n == 0
is_zero (negsuc n) = false

-- `e.in_use && !strcmp (name, e.name)`
unfoldable pub matches : List ℕ → List ℕ → Option Bool
matches name e = if in_use e then (strcmp name (drop 4 e) >>= λ c. some (is_zero c)) else some false

-- The loop of `lookup` from `ofs` on. The result is the entry and its offset, or `none` inside.
unfoldable pub lookup_from :
    ℕ → Bool → ℕ → List ℕ → ℕ → List ℕ → FileSystem → Option (Option (List ℕ × ℕ) × FileSystem)
lookup_from zero memory address name ofs e fs = none
lookup_from (suc rounds) memory address name ofs e fs = read_entry memory address e ofs fs >>= λ r.
    if r.0 == 20
    then (matches name r.1 >>= λ found.
        if found
        then some (some (r.1, ofs), r.2)
        else lookup_from rounds memory address name (ofs + 20) r.1 r.2)
    else some (none, r.2)

-- More rounds than the directory has entries.
abbrev pub entry_rounds : Inode → ℕ
entry_rounds inode = inode_length inode / 20 + 1

unfoldable pub lookup :
    Bool → Dir → List ℕ → List ℕ → FileSystem → Option (Option (List ℕ × ℕ) × FileSystem)
lookup memory dir name e fs = find_inode dir.inode fs.open_inodes >>= λ inode.
    lookup_from (entry_rounds inode) memory dir.inode name 0 e fs

abbrev pub open_entry : Option ℕ → Option (List ℕ × ℕ) × FileSystem → Option (Option ℕ × FileSystem)
open_entry address (none, fs) = some (none, fs)
open_entry address (some (e, ofs), fs) = inode_open address (word_at e 0) fs

-- The result has the pointer stored in *INODE; the call returns whether it is not null.
unfoldable pub dir_lookup :
    Bool → Option ℕ → Dir → List ℕ → List ℕ → FileSystem → Option (Option ℕ × FileSystem)
dir_lookup memory address dir name e fs = lookup memory dir name e fs >>= open_entry address

-- The second loop of `dir_add`: the offset, `e` and the file system it ends with.
unfoldable pub slot_from : ℕ → Bool → ℕ → ℕ → List ℕ → FileSystem → Option (ℕ × List ℕ × FileSystem)
slot_from zero memory address ofs e fs = none
slot_from (suc rounds) memory address ofs e fs = read_entry memory address e ofs fs >>= λ r.
    if r.0 == 20
    then (if not (in_use r.1)
        then some (ofs, r.1, r.2)
        else slot_from rounds memory address (ofs + 20) r.1 r.2)
    else some (ofs, r.1, r.2)

-- `e` once its three fields are set.
unfoldable pub new_entry : List ℕ → ℕ → List ℕ → Option (List ℕ)
new_entry name inode_sector e = strlcpy (take 15 (drop 4 e)) name 15 >>= λ r.
    some (word_bytes inode_sector ++ (r.1 ++ (1 ∷ [])))

abbrev pub add_entry :
    Bool
    → Dir
    → List ℕ
    → ℕ
    → Inode
    → List ℕ
    → Option (List ℕ × ℕ) × FileSystem
    → Option (Bool × FileSystem)
add_entry memory dir name inode_sector inode e (some hit, fs) = some (false, fs)
add_entry memory dir name inode_sector inode e (none, fs) =
    slot_from (entry_rounds inode) memory dir.inode 0 e fs >>= λ r.
    new_entry name inode_sector r.1 >>= λ e'.
    write_entry memory dir.inode e' r.0 r.2 >>= λ w. some (w.0 == 20, w.1)

-- `lookup` has its own `e`, given apart.
unfoldable pub dir_add :
    Bool → Dir → List ℕ → ℕ → List ℕ → List ℕ → FileSystem → Option (Bool × FileSystem)
dir_add memory dir name inode_sector inner e fs = strlen name >>= λ n.
    if get_or name 0 0 == 0 || ltb 14 n
    then some (false, fs)
    else (find_inode dir.inode fs.open_inodes >>= λ inode.
        lookup memory dir name inner fs >>= add_entry memory dir name inode_sector inode e)

-- `done:`, with the inode that was opened.
abbrev pub close_removed : Option ℕ → Bool → FileSystem → Option (Bool × FileSystem)
close_removed inode success fs = inode_close inode fs >>= λ fs'. some (success, fs')

abbrev pub erase : Bool → Dir → List ℕ → ℕ → Option ℕ × FileSystem → Option (Bool × FileSystem)
erase memory dir e ofs (none, fs) = close_removed none false fs
erase memory dir e ofs (some inode, fs) = write_entry memory dir.inode (set e 19 0) ofs fs >>= λ w.
    if w.0 == 20
    then (inode_remove inode w.1 >>= close_removed (some inode) true)
    else close_removed (some inode) false w.1

abbrev pub remove_found :
    Bool → Option ℕ → Dir → Option (List ℕ × ℕ) × FileSystem → Option (Bool × FileSystem)
remove_found memory address dir (none, fs) = close_removed none false fs
remove_found memory address dir (some (e, ofs), fs) =
    inode_open address (word_at e 0) fs >>= erase memory dir e ofs

unfoldable pub dir_remove :
    Bool → Option ℕ → Dir → List ℕ → List ℕ → FileSystem → Option (Bool × FileSystem)
dir_remove memory address dir name e fs =
    lookup memory dir name e fs >>= remove_found memory address dir

-- The loop of `dir_readdir`; `name` is the caller's 15 bytes. The result has `name` where there is a
-- next entry.
unfoldable pub readdir_from :
    ℕ → Bool → Dir → List ℕ → List ℕ → FileSystem → Option (Option (List ℕ) × Dir × FileSystem)
readdir_from zero memory dir name e fs = none
readdir_from (suc rounds) memory dir name e fs = read_entry memory dir.inode e dir.pos fs >>= λ r.
    let dir' : Dir = record dir { pos = dir.pos + 20 } in
    if r.0 == 20
    then (if in_use r.1
        then (strlcpy name (drop 4 r.1) 15 >>= λ s. some (some s.1, dir', r.2))
        else readdir_from rounds memory dir' name r.1 r.2)
    else some (none, dir, r.2)

unfoldable pub dir_readdir :
    Bool → Dir → List ℕ → List ℕ → FileSystem → Option (Option (List ℕ) × Dir × FileSystem)
dir_readdir memory dir name e fs = find_inode dir.inode fs.open_inodes >>= λ inode.
    readdir_from (entry_rounds inode) memory dir name e fs
