-- ===== src/File/Accounts.antt =====
-- The counts in an inode of filesys/inode.c agree with the open files of filesys/file.c.
use mathlib.Core.Option.{some-injective}
use tony_henry_niklas.Inode.{Inode}
use tony_henry_niklas.Inode.Table.{
  FileSystem, find_inode, put_inode, inode_deny_write, inode_allow_write,
}
use tony_henry_niklas.Inode.Entries.{IsTable, find_inode-put_inode, put_inode-IsTable}
use tony_henry_niklas.File.{File, file_allow_write, file_deny_write}
use tony_henry_niklas.Common.{
  ℕ, suc, ◌+◌, ◌-◌, ◌≤◌, ◌<◌, ◌≡◌, refl, sym, ap, ◌∙◌, inl, inr, Bool, true, false, ◌&&◌, not, List,
  [], ◌∷◌, Option, none, some, arith, ltb, leb, ◌==◌, passes, chosen, passed_over, and_then,
  if◌then◌else◌, Bool-cases, Option-cases, subst, ==_iff,
}

-- How many of the files have the inode at `a` open, and how many of them deny writes to it.
unfoldable pub openers : ℕ → List File → ℕ
openers a [] = 0
openers a (file ∷ files) = (if file.inode == a then 1 else 0) + openers a files

unfoldable pub deniers : ℕ → List File → ℕ
deniers a [] = 0
deniers a (file ∷ files) = (if file.inode == a && file.deny_write then 1 else 0) + deniers a files

pub deniers_most : (a : ℕ) (files : List File) → deniers a files ≤ openers a files
unfolding openers deniers
deniers_most a [] = omega arith
deniers_most a (file ∷ files) = ground (arith, deniers_most a files)

-- An address that is not in the table counts nothing.
abbrev pub open_cnt_of : Option Inode → ℕ
open_cnt_of none = 0
open_cnt_of (some i) = i.open_cnt

abbrev pub deny_write_cnt_of : Option Inode → ℕ
deny_write_cnt_of none = 0
deny_write_cnt_of (some i) = i.deny_write_cnt

-- Each open inode counts the files that have it open and those of them that deny writes, and no file
-- has an inode that is not open.
pub record IsAccount (l : List (ℕ × Inode)) (files : List File) : Type 0 where
  pub table : IsTable l
  pub opens : (a : ℕ) → open_cnt_of (find_inode a l) ≡ openers a files
  pub denies : (a : ℕ) → deny_write_cnt_of (find_inode a l) ≡ deniers a files

find_inode-put_other :
    (a b : ℕ) (j : Inode) (l : List (ℕ × Inode))
    → (a == b) ≡ false
    → find_inode b (put_inode a j l) ≡ find_inode b l
find_inode-put_other a b j [] h = refl
find_inode-put_other a b j ((c, k) ∷ l) h = elim (Bool-cases (c == a)) [
  | inl e ↦
      let other : (c == b) ≡ false = ground arith in
      ap (find_inode b) (chosen ((c, k) ∷ put_inode a j l) e)
      ∙ passed_over (some j) other
      ∙ sym (passed_over (some k) other)
  | inr e ↦
      ap (find_inode b) (passed_over ((c, j) ∷ l) e)
      ∙ ap (λ x. if c == b then some k else x) (find_inode-put_other a b j l h)
]

-- The file at the head has its inode open.
pub its_inode :
    (l : List (ℕ × Inode)) (file : File) (files : List File)
    → IsAccount l (file ∷ files)
    → (i : Inode) × (find_inode file.inode l ≡ some i)
      × (i.open_cnt ≡ suc (openers file.inode files))
      × (i.deny_write_cnt ≡ (if file.deny_write then 1 else 0) + deniers file.inode files)
unfolding openers deniers
its_inode l file files s =
    let self : (file.inode == file.inode) ≡ true = ground arith in
    let o = s.opens file.inode in
    let d = s.denies file.inode in
    elim (Option-cases (find_inode file.inode l)) [
      | inl e ↦ absurd (ground (arith, ap open_cnt_of (sym e) ∙ o, self))
      | inr (i, e) ↦ (
        i,
        e,
        ground (arith, ap open_cnt_of (sym e) ∙ o, self),
        ground (arith, ap deny_write_cnt_of (sym e) ∙ d, self),
      )
    ]

-- One inode changes its counts as the file does.
pub recount :
    (a : ℕ) (i j : Inode) (l : List (ℕ × Inode)) (files files' : List File)
    → IsAccount l files
    → find_inode a l ≡ some i
    → j.sector ≡ i.sector
    → 0 < j.open_cnt
    → j.open_cnt ≡ openers a files'
    → j.deny_write_cnt ≡ deniers a files'
    → ((b : ℕ) → (a == b) ≡ false → openers b files' ≡ openers b files)
    → ((b : ℕ) → (a == b) ≡ false → deniers b files' ≡ deniers b files)
    → IsAccount (put_inode a j l) files'
recount a i j l files files' s q at o c d others others' = record {
  table = put_inode-IsTable a i j l s.table q at o (omega (arith, deniers_most a files'));
  opens = λ b. elim (Bool-cases (a == b)) [
    | inl e ↦
        subst (λ x. open_cnt_of (find_inode x (put_inode a j l)) ≡ openers x files')
          ((==_iff a b).0 e) (ap open_cnt_of (find_inode-put_inode a j l i q) ∙ c)
    | inr e ↦ ap open_cnt_of (find_inode-put_other a b j l e) ∙ s.opens b ∙ sym (others b e)
  ];
  denies = λ b. elim (Bool-cases (a == b)) [
    | inl e ↦
        subst (λ x. deny_write_cnt_of (find_inode x (put_inode a j l)) ≡ deniers x files')
          ((==_iff a b).0 e) (ap deny_write_cnt_of (find_inode-put_inode a j l i q) ∙ d)
    | inr e ↦ ap deny_write_cnt_of (find_inode-put_other a b j l e) ∙ s.denies b ∙ sym (others' b e)
  ];
}

-- The inode at `a` has changed in its counts only; the free map, its file and the device have not.
abbrev pub Kept : ℕ → FileSystem → FileSystem → Type 0
Kept a fs fs' =
    ((fs'.free_map ≡ fs.free_map) × (fs'.device ≡ fs.device) × (fs'.map_file ≡ fs.map_file))
    × ((i' : Inode)
        → find_inode a fs'.open_inodes ≡ some i'
        → (i : Inode) × (find_inode a fs.open_inodes ≡ some i)
          × (i' ≡ record i { open_cnt = i'.open_cnt; deny_write_cnt = i'.deny_write_cnt }))

pub put_inode-Kept :
    (a : ℕ) (i : Inode) (o d : ℕ) (fs : FileSystem)
    → find_inode a fs.open_inodes ≡ some i
    → Kept a fs (record fs {
      open_inodes = put_inode a (record i { open_cnt = o; deny_write_cnt = d }) fs.open_inodes;
    })
put_inode-Kept a i o d fs q =
    let j : Inode = record i { open_cnt = o; deny_write_cnt = d } in
    (
      (refl, refl, refl),
      λ i' e.
          let same : j ≡ i' =
            some-injective j i' (sym (find_inode-put_inode a j fs.open_inodes i q) ∙ e) in
          (
            i,
            q,
            sym same
                ∙ ap (λ x. record i { open_cnt = x.open_cnt; deny_write_cnt = x.deny_write_cnt })
                    same,
          ),
    )

abbrev pub Denies : List File → FileSystem → File × FileSystem → Bool → File → Type 0
Denies files fs r value file =
    (r.0 ≡ record file { deny_write = value })
    × IsAccount r.1.open_inodes (r.0 ∷ files)
    × Kept file.inode fs r.1

pub file_deny_write_lem :
    (file : File) (files : List File) (fs : FileSystem)
    → IsAccount fs.open_inodes (file ∷ files)
    → (r : File × FileSystem) × (file_deny_write file fs ≡ some r) × Denies files fs r true file
unfolding file_deny_write inode_deny_write openers deniers
file_deny_write_lem file files fs s = elim (Bool-cases file.deny_write) [
  | inl e ↦ (
    (file, fs),
    passed_over _ (ap not e),
    (ap (λ x. record file { deny_write = x }) e, s, ((refl, refl, refl), λ i' q. (i', q, refl))),
  )
  | inr e ↦
      let (i, q, o, d) = its_inode fs.open_inodes file files s in
      let most = deniers_most file.inode files in
      let j : Inode = record i { deny_write_cnt = i.deny_write_cnt + 1 } in
      let file' : File = record file { deny_write = true } in
      let fits : leb (i.deny_write_cnt + 1) i.open_cnt ≡ true = ground arith in
      let self : (file.inode == file.inode) ≡ true = ground arith in
      let fs' : FileSystem = record fs { open_inodes = put_inode file.inode j fs.open_inodes } in
      (
        (file', fs'),
        chosen (some (file, fs)) (ap not e) ∙ and_then _ (and_then _ q ∙ passes fits),
        (
          refl,
          recount file.inode i j fs.open_inodes (file ∷ files) (file' ∷ files) s q refl
              (omega arith) (ground arith) (ground arith) (λ b h. refl) (λ b h. ground arith),
          put_inode-Kept file.inode i i.open_cnt (i.deny_write_cnt + 1) fs q,
        ),
      )
]

pub file_allow_write_lem :
    (file : File) (files : List File) (fs : FileSystem)
    → IsAccount fs.open_inodes (file ∷ files)
    → (r : File × FileSystem) × (file_allow_write file fs ≡ some r) × Denies files fs r false file
unfolding file_allow_write inode_allow_write openers deniers
file_allow_write_lem file files fs s = elim (Bool-cases file.deny_write) [
  | inr e ↦ (
    (file, fs),
    passed_over _ e,
    (ap (λ x. record file { deny_write = x }) e, s, ((refl, refl, refl), λ i' q. (i', q, refl))),
  )
  | inl e ↦
      let (i, q, o, d) = its_inode fs.open_inodes file files s in
      let most = deniers_most file.inode files in
      let j : Inode = record i { deny_write_cnt = i.deny_write_cnt - 1 } in
      let file' : File = record file { deny_write = false } in
      let some_denied : ltb 0 i.deny_write_cnt ≡ true = ground arith in
      let fits : leb i.deny_write_cnt i.open_cnt ≡ true = ground arith in
      let self : (file.inode == file.inode) ≡ true = ground arith in
      let fs' : FileSystem = record fs { open_inodes = put_inode file.inode j fs.open_inodes } in
      (
        (file', fs'),
        chosen (some (file, fs)) e ∙ and_then _ (and_then _ q ∙ passes some_denied ∙ passes fits),
        (
          refl,
          recount file.inode i j fs.open_inodes (file ∷ files) (file' ∷ files) s q refl
              (omega arith) (ground arith) (ground arith) (λ b h. refl) (λ b h. ground arith),
          put_inode-Kept file.inode i i.open_cnt (i.deny_write_cnt - 1) fs q,
        ),
      )
]
