-- ===== src/File/Close.antt =====
-- file_close and inode_close of filesys/file.c and filesys/inode.c: the last opener takes the inode off
-- the list and frees the sectors of a removed file.
use mathlib.Core.Option.{none-ne-some}
use tony_henry_niklas.Bitmap.Single.{IsValid, bit}
use tony_henry_niklas.Bitmap.Range.{within}
use tony_henry_niklas.Bitmap.Scan.{Group}
use tony_henry_niklas.Block.{Block}
use tony_henry_niklas.Block.Byte.{IsWhole}
use tony_henry_niklas.FreeMap.{FreeMap}
use tony_henry_niklas.Inode.{Inode, bytes_to_sectors}
use tony_henry_niklas.Inode.Access.{Lies, Lies-resized}
use tony_henry_niklas.Inode.MapFile.{HasMapFile, release_sectors_lem}
use tony_henry_niklas.Inode.Table.{
  FileSystem, find_inode, find_sector, put_inode, remove_inode, free_blocks, release_sectors,
  close_open, inode_close,
}
use tony_henry_niklas.Inode.Entries.{IsTable}
use tony_henry_niklas.File.{File}
use tony_henry_niklas.File.Accounts.{
  openers, deniers, deniers_most, open_cnt_of, deny_write_cnt_of, IsAccount, its_inode, recount,
}
use tony_henry_niklas.Common.{
  ℕ, ◌+◌, ◌-◌, ◌≤◌, ◌<◌, ◌≡◌, refl, sym, ap, ◌∙◌, ◌⊎◌, inl, inr, true, false, ◌||◌, List, [], ◌∷◌,
  Option, none, some, arith, ◌==◌, chosen, passed_over, and_then, if◌then◌else◌, Bool-cases, subst,
  ==_iff,
}

gone_inode :
    (a b : ℕ) (l : List (ℕ × Inode))
    → IsTable l
    → find_inode b (remove_inode a l) ≡ (if a == b then none else find_inode b l)
gone_inode a b [] t = ground arith
gone_inode a b ((c, k) ∷ l) (new, alone, used, denied, t) = elim (Bool-cases (c == a)) [
  | inl e ↦
      let at : c ≡ a = (==_iff c a).0 e in
      ap (find_inode b) (chosen ((c, k) ∷ remove_inode a l) e) ∙ here at (Bool-cases (a == b))
  | inr e ↦
      ap (find_inode b) (passed_over l e)
      ∙ ap (λ x. if c == b then some k else x) (gone_inode a b l t)
      ∙ elsewhere e (Bool-cases (c == b))
]
  where
    here :
        c ≡ a
        → ((a == b) ≡ true) ⊎ ((a == b) ≡ false)
        → find_inode b l ≡ (if a == b then none else if c == b then some k else find_inode b l)
    here at (inl e) =
        ap (λ x. find_inode x l) (sym ((==_iff a b).0 e) ∙ sym at) ∙ new ∙ sym (chosen _ e)
    here at (inr e) =
        let other : (c == b) ≡ false = ground arith in
        sym (passed_over none e ∙ passed_over (some k) other)

    elsewhere :
        (c == a) ≡ false
        → ((c == b) ≡ true) ⊎ ((c == b) ≡ false)
        → (if c == b then some k else if a == b then none else find_inode b l)
          ≡ (if a == b then none else if c == b then some k else find_inode b l)
    elsewhere e f = ground arith

gone_sector :
    (a s : ℕ) (l : List (ℕ × Inode))
    → find_sector s l ≡ none
    → find_sector s (remove_inode a l) ≡ none
gone_sector a s [] h = refl
gone_sector a s ((c, k) ∷ l) h = elim (Bool-cases (k.sector == s)) [
  | inl e ↦ absurd (none-ne-some c (sym h ∙ chosen (find_sector s l) e))
  | inr e ↦
      let h' : find_sector s l ≡ none = sym (passed_over (some c) e) ∙ h in
      elim (Bool-cases (c == a)) [
        | inl f ↦ ap (find_sector s) (chosen ((c, k) ∷ remove_inode a l) f) ∙ h'
        | inr f ↦
            ap (find_sector s) (passed_over l f) ∙ passed_over (some c) e ∙ gone_sector a s l h'
      ]
]

remove_inode-IsTable : (a : ℕ) (l : List (ℕ × Inode)) → IsTable l → IsTable (remove_inode a l)
remove_inode-IsTable a [] t = tt
remove_inode-IsTable a ((c, k) ∷ l) (new, alone, used, denied, t) = elim (Bool-cases (c == a)) [
  | inl e ↦ subst IsTable (sym (chosen ((c, k) ∷ remove_inode a l) e)) t
  | inr e ↦ subst IsTable (sym (passed_over l e)) (
    gone_inode a c l t ∙ ap (λ x. if a == c then none else x) new ∙ neither (Bool-cases (a == c)),
    gone_sector a k.sector l alone,
    used,
    denied,
    remove_inode-IsTable a l t,
  )
]
  where
    neither :
        ((a == c) ≡ true) ⊎ ((a == c) ≡ false)
        → ◌≡◌ {A = Option Inode} (if a == c then none else none) none
    neither (inl e) = chosen none e
    neither (inr e) = passed_over none e

-- The sectors of the inode are taken in the free map, and the map's file is open, can be written and
-- lies on a whole device.
pub record IsOwned (i : Inode) (f : FreeMap) (device : Block) (file : Inode) : Type 0 where
  pub valid : IsValid f.map
  pub opened : f.file_open ≡ true
  pub whole : IsWhole device
  pub lies : Lies file device
  pub writable : file.deny_write_cnt ≡ 0
  pub header : i.sector < f.map.bit_cnt
  pub header_taken : bit f.map i.sector ≡ true
  pub blocks : i.disk_inode.start + bytes_to_sectors i.disk_inode.length ≤ f.map.bit_cnt
  pub blocks_taken : Group f.map i.disk_inode.start (bytes_to_sectors i.disk_inode.length) true
  pub apart : ¬ (
      (i.disk_inode.start ≤ i.sector)
      × (i.sector < i.disk_inode.start + bytes_to_sectors i.disk_inode.length))

-- The header and the blocks are free afterwards, and no other sector has changed.
pub free_blocks_lem :
    (i : Inode) (fs : FileSystem)
    → IsOwned i fs.free_map fs.device fs.map_file
    → (f : FreeMap) × (device : Block) × (free_blocks i fs
        ≡ some (record fs { free_map = f; device = device }))
      × ((j : ℕ)
          → bit f.map j ≡ (
              if within i.disk_inode.start (bytes_to_sectors i.disk_inode.length) j
                || (i.sector == j)
              then false
              else bit fs.free_map.map j))
unfolding free_blocks
free_blocks_lem i fs own =
    let f : FreeMap = fs.free_map in
    let s : ℕ = i.disk_inode.start in
    let n : ℕ = bytes_to_sectors i.disk_inode.length in
    let only : Group f.map i.sector 1 true =
      λ j l m. ap (bit f.map) (ground arith) ∙ own.header_taken in
    let header = own.header in
    let has : HasMapFile fs = record { lies = own.lies; writable = own.writable } in
    let (f', d, e, r, o, outside, size, w) =
      release_sectors_lem i.sector 1 fs own.valid (omega arith) only own.opened own.whole has in
    let fs1 : FileSystem = record fs { free_map = f'; device = d } in
    let has1 : HasMapFile fs1 = record {
      lies = Lies-resized fs.map_file fs.device d size own.lies;
      writable = own.writable;
    } in
    let apart = own.apart in
    let still : Group f'.map s n true = λ j l m.
      let other : within i.sector 1 j ≡ false = ground arith in
      r.bits j ∙ passed_over false other ∙ own.blocks_taken j l m in
    let (f'', d', e', r', o', outside', size', w') =
      release_sectors_lem s n fs1 r.valid (omega (arith, r.size, own.blocks)) still o w has1 in
    (f'', d', and_then (release_sectors s n) e ∙ e', λ j. ground (arith, r.bits j, r'.bits j))

-- The table once the inode of the head file is off it.
last_closed :
    (file : File) (files : List File) (l : List (ℕ × Inode))
    → IsAccount l (file ∷ files)
    → openers file.inode files ≡ 0
    → IsAccount (remove_inode file.inode l) files
unfolding openers deniers
last_closed file files l s z = record {
  table = remove_inode-IsTable file.inode l s.table;
  opens = λ b.
      ap open_cnt_of (gone_inode file.inode b l s.table)
      ∙ counted open_cnt_of refl b (openers b files) (λ p. subst (λ x. openers x files ≡ 0) p z)
          (λ e. s.opens b ∙ ground (arith, e));
  denies = λ b.
      ap deny_write_cnt_of (gone_inode file.inode b l s.table)
      ∙ counted deny_write_cnt_of refl b (deniers b files)
          (λ p.
            let most = deniers_most b files in
            let zero_left = subst (λ x. openers x files ≡ 0) p z in omega arith)
          (λ e. s.denies b ∙ ground (arith, e));
}
  where
    counted :
        (count : Option Inode → ℕ)
        → count none ≡ 0
        → (b n : ℕ) → (file.inode ≡ b → n ≡ 0)
        → ((file.inode == b) ≡ false → count (find_inode b l) ≡ n)
        → count (if file.inode == b then none else find_inode b l) ≡ n
    counted count c b n here there = elim (Bool-cases (file.inode == b)) [
      | inl e ↦ ap count (chosen _ e) ∙ c ∙ sym (here ((==_iff file.inode b).0 e))
      | inr e ↦ ap count (passed_over none e) ∙ there e
    ]

pub inode_close_lem :
    (file : File) (files : List File) (fs : FileSystem)
    → IsAccount fs.open_inodes (file ∷ files)
    → file.deny_write ≡ false
    → ((i : Inode)
        → find_inode file.inode fs.open_inodes ≡ some i
        → i.removed ≡ true
        → IsOwned i fs.free_map fs.device fs.map_file)
    → (fs' : FileSystem) × (inode_close (some file.inode) fs ≡ some fs')
      × IsAccount fs'.open_inodes files
unfolding inode_close close_open openers deniers
inode_close_lem file files fs s quiet own =
    let (i, q, o, d) = its_inode fs.open_inodes file files s in
    let a : ℕ = file.inode in
    let closed : Inode → Option FileSystem = λ x. close_open a x fs in
    let l' : List (ℕ × Inode) = remove_inode a fs.open_inodes in
    let fs' : FileSystem = record fs { open_inodes = l' } in
    let j : Inode = record i { open_cnt = i.open_cnt - 1 } in
    let less : FileSystem = record fs { open_inodes = put_inode a j fs.open_inodes } in
    let last : Option FileSystem = if i.removed then free_blocks i fs' else some fs' in
    let most = deniers_most a files in
    elim (Bool-cases (i.open_cnt == 1)) [
      | inl e ↦
          let done = last_closed file files fs.open_inodes s (ground arith) in
          elim (Bool-cases i.removed) [
            | inl r ↦
                let (f, d, p, bits) = free_blocks_lem i fs' (own i q r) in
                (
                  record fs' { free_map = f; device = d },
                  and_then closed q ∙ chosen (some less) e ∙ chosen (some fs') r ∙ p,
                  done,
                )
            | inr r ↦ (
              fs',
              and_then closed q ∙ chosen (some less) e ∙ passed_over (free_blocks i fs') r,
              done,
            )
          ]
      | inr e ↦ (
        less,
        and_then closed q ∙ passed_over last e,
        recount a i j fs.open_inodes (file ∷ files) files s q refl (ground arith) (omega arith)
            (ground (arith, d, quiet)) (λ b h. ground (arith, h)) (λ b h. ground (arith, h)),
      )
    ]
