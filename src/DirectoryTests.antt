-- ===== src/DirectoryTests.antt =====
-- Runs of the code of filesys/directory.c at concrete values.
use mathlib.Core.Option.{some-injective}
use tony_henry_niklas.Block.{Block}
use tony_henry_niklas.Block.Byte.{byte_of, byte_of_sector, IsWhole}
use tony_henry_niklas.Inode.{Inode, inode_magic}
use tony_henry_niklas.Inode.Access.{Lies}
use tony_henry_niklas.Inode.Table.{FileSystem}
use tony_henry_niklas.Directory.{Dir, lookup, dir_add}
use tony_henry_niklas.Directory.Entry.{IsEntry, IsLegible, same_entry}
use tony_henry_niklas.Directory.Add.{AddRun, lookup-dir_add}
use tony_henry_niklas.Directory.Lookup.{IsLegibleDir, Searched, lookup_lem}
use tony_henry_niklas.Common.{
  ◌+◌, ℕ, zero, suc, ◌<◌, ◌≡◌, refl, sym, ap, ◌∙◌, true, false, List, [], ◌∷◌, ◌++◌, some, arith,
  length, get_elem?, subst, replicate,
}

-- The file of sector 2 is called "ab".
abbrev ab_entry : List ℕ
ab_entry = 2 ∷ 0 ∷ 0 ∷ 0 ∷ 97 ∷ 98 ∷ (replicate 13 0 ++ (1 ∷ []))

abbrev free_entry : List ℕ
free_entry = replicate 20 0

abbrev zeros : List ℕ
zeros = replicate 512 0

abbrev dir_sector : List ℕ
dir_sector = ab_entry ++ (free_entry ++ replicate 472 0)

-- The directory is sector 0.
abbrev dir_disk : Block
dir_disk = record {
  size = 4;
  foreign = false;
  sectors = dir_sector ∷ zeros ∷ zeros ∷ zeros ∷ [];
  read_cnt = 0;
  write_cnt = 0;
}

three_alike :
    (s : ℕ) (x : List ℕ) → get_elem? (zeros ∷ zeros ∷ zeros ∷ []) s ≡ some x → length x ≡ 512
three_alike zero x h = ap length (sym (some-injective zeros x h))
three_alike (suc zero) x h = ap length (sym (some-injective zeros x h))
three_alike (suc (suc zero)) x h = ap length (sym (some-injective zeros x h))
three_alike (suc (suc (suc s))) x h = absurd (ground (arith, h))

dir_full : (s : ℕ) (x : List ℕ) → get_elem? dir_disk.sectors s ≡ some x → length x ≡ 512
dir_full zero x h = ap length (sym (some-injective dir_sector x h))
dir_full (suc s) x h = three_alike s x h

dir_disk-IsWhole : IsWhole dir_disk
dir_disk-IsWhole = record { native = refl; count = refl; full = dir_full }

abbrev root_inode : Inode
root_inode = record {
  sector = 1;
  open_cnt = 1;
  removed = false;
  deny_write_cnt = 0;
  disk_inode = record { start = 0; length = 40; magic = inode_magic };
}

root_inode-Lies : Lies root_inode dir_disk
root_inode-Lies = (omega arith, omega arith)

abbrev dir_fs : FileSystem
dir_fs = record {
  device = dir_disk;
  free_map = record { map = record { bit_cnt = 4; bits = 7 ∷ [] }; file_open = true };
  open_inodes = (9, root_inode) ∷ [];
  map_file = record root_inode {
    sector = 0;
    disk_inode = record { start = 2; length = 4; magic = inode_magic };
  };
  map_memory = true;
}

abbrev root_dir : Dir
root_dir = record { inode = 9; pos = 0 }

within : (xs ys : List ℕ) (b : ℕ) → b < length xs → get_elem? (xs ++ ys) b ≡ get_elem? xs b
within [] ys b l = absurd (omega (arith, l))
within (x ∷ xs) ys zero l = refl
within (x ∷ xs) ys (suc b) l = within xs ys b (omega (arith, l))

behind : (xs ys : List ℕ) (b : ℕ) → get_elem? (xs ++ ys) (b + length xs) ≡ get_elem? ys b
behind [] ys b = let same : b + 0 ≡ b = omega arith in ap (get_elem? ys) same
behind (x ∷ xs) ys b =
    let next : b + suc (length xs) ≡ suc (b + length xs) = omega arith in
    ap (get_elem? (x ∷ (xs ++ ys))) next ∙ behind xs ys b

ab_entry-IsEntry : IsEntry dir_disk.sectors root_inode 0 ab_entry
ab_entry-IsEntry = (
  refl,
  λ b l.
      sym (within ab_entry (free_entry ++ replicate 472 0) b l)
      ∙ sym (byte_of_sector dir_disk.sectors 0 b dir_sector (omega (arith, l)) refl)
      ∙ ap (byte_of dir_disk.sectors) (omega arith),
)

free_entry-IsEntry : IsEntry dir_disk.sectors root_inode 1 free_entry
free_entry-IsEntry = (
  refl,
  λ b l.
      sym (within free_entry (replicate 472 0) b l)
      ∙ sym (behind ab_entry (free_entry ++ replicate 472 0) b)
      ∙ sym (byte_of_sector dir_disk.sectors 0 (b + 20) dir_sector (omega (arith, l)) refl)
      ∙ ap (byte_of dir_disk.sectors) (omega arith),
)

root-IsLegibleDir : IsLegibleDir dir_disk.sectors root_inode
root-IsLegibleDir zero room e entry =
    subst IsLegible (same_entry dir_disk.sectors root_inode 0 ab_entry e ab_entry-IsEntry entry)
      (λ u. (97 ∷ 98 ∷ [], (omega arith, (omega arith, tt)), replicate 12 0 ++ (1 ∷ []), refl))
root-IsLegibleDir (suc zero) room e entry =
    subst IsLegible (same_entry dir_disk.sectors root_inode 1 free_entry e free_entry-IsEntry entry)
      (λ u. absurd (ground (arith, u)))
root-IsLegibleDir (suc (suc j)) room e entry = absurd (omega (arith, room))

lookup_lem_example :
    Searched dir_disk.sectors root_inode
      (97 ∷ 98 ∷ [])
      0
      dir_fs
      (lookup true root_dir (97 ∷ 98 ∷ 0 ∷ []) (replicate 20 7) dir_fs)
lookup_lem_example =
    lookup_lem root_dir root_inode (97 ∷ 98 ∷ []) [] (replicate 20 7) dir_fs refl dir_disk-IsWhole
      root_inode-Lies (omega arith, (omega arith, tt)) root-IsLegibleDir refl

lookup-dir_add_example :
    AddRun dir_disk.sectors root_inode root_dir
      (99 ∷ [])
      []
      3
      (replicate 20 7)
      (dir_add true root_dir (99 ∷ 0 ∷ []) 3 (replicate 20 7) (replicate 20 7) dir_fs)
lookup-dir_add_example =
    lookup-dir_add root_dir root_inode (99 ∷ []) [] (replicate 20 7) (replicate 20 7) 3 dir_fs refl
      dir_disk-IsWhole root_inode-Lies (omega arith, tt) (omega arith) (omega arith)
      root-IsLegibleDir refl refl refl (omega arith)
