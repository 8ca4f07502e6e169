-- ===== src/Inode/Opening.antt =====
-- inode_open and inode_close of filesys/inode.c: opening an inode once more finds the same one.
use tony_henry_niklas.Inode.Entries.{IsTable}
use tony_henry_niklas.Block.{Block}
use tony_henry_niklas.Inode.{Inode}
use tony_henry_niklas.Inode.Table.{FileSystem, find_sector, find_inode, inode_close}
use tony_henry_niklas.Common.{ℕ, ◌≡◌, List, Option, none, some}

-- An address that malloc answers is not that of an open inode.
abbrev pub Fresh : Option ℕ → List (ℕ × Inode) → Type 0
Fresh memory l = (a : ℕ) → memory ≡ some a → find_inode a l ≡ none

-- What the pointer that inode_open returns stands for, and what else has changed.
abbrev pub Opened : ℕ → FileSystem → Option ℕ → FileSystem → Type 0
Opened sector fs none fs' = fs' ≡ fs
Opened sector fs (some a) fs' =
    (find_sector sector fs'.open_inodes ≡ some a)
    × (i : Inode) × (find_inode a fs'.open_inodes ≡ some i)
    × (i.sector ≡ sector)

abbrev Answer : ℕ → FileSystem → Option (Option ℕ × FileSystem) → Type 0
Answer sector fs o =
    (p : Option ℕ) × (fs' : FileSystem) × (fs'' : FileSystem) × (o ≡ some (p, fs'))
    × (inode_close p fs' ≡ some fs'')
    × IsTable fs'.open_inodes
    × Opened sector fs p fs'
    × (fs''.open_inodes ≡ fs.open_inodes)
    × (fs''.free_map ≡ fs.free_map)
    × (fs''.device.sectors ≡ fs.device.sectors)
