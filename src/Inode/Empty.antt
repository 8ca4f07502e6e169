-- ===== src/Inode/Empty.antt =====
-- A file that inode_create of filesys/inode.c has made is opened with its length, and reads as zeros.
use mathlib.Core.Option.{some-injective}
use tony_henry_niklas.Block.{Block}
use tony_henry_niklas.Block.Byte.{byte_of, IsWhole}
use tony_henry_niklas.Inode.{Inode, inode_length}
use tony_henry_niklas.Inode.Access.{Lies, address}
use tony_henry_niklas.Inode.Table.{FileSystem, find_inode, inode_open}
use tony_henry_niklas.Common.{
  ℕ, suc, ◌<◌, ◌≡◌, refl, ap, ◌∙◌, List, [], ◌∷◌, Option, some, arith, length, get_elem?,
}

pub same_elements :
    (xs ys : List ℕ)
    → length xs ≡ length ys
    → ((k : ℕ) → k < length xs → get_elem? xs k ≡ get_elem? ys k)
    → xs ≡ ys
same_elements [] [] h e = refl
same_elements [] (y ∷ ys) h e = absurd (omega (arith, h))
same_elements (x ∷ xs) [] h e = absurd (omega (arith, h))
same_elements (x ∷ xs) (y ∷ ys) h e =
    let first : x ≡ y = some-injective x y (e 0 (omega arith)) in
    let rest : xs ≡ ys = same_elements xs ys (omega (arith, h)) (λ k l. e (suc k) (omega arith)) in
    ap (λ a. a ∷ xs) first ∙ ap (λ l. y ∷ l) rest

abbrev Ready : ℕ → ℕ → ℕ → FileSystem → Type 0
Ready a sector size fs' =
    (i : Inode) × (fs'' : FileSystem) × (inode_open (some a) sector fs' ≡ some (some a, fs''))
    × (find_inode a fs''.open_inodes ≡ some i)
    × (inode_length i ≡ size)
    × Lies i fs''.device
    × IsWhole fs''.device
    × ((k : ℕ) → k < size → byte_of fs''.device.sectors (address i k) ≡ some 0)
