-- ===== src/Directory/Written.antt =====
-- The entries of a directory after one of them has been written, for dir_add of filesys/directory.c.
use tony_henry_niklas.Block.Byte.{byte_of, IsWhole}
use tony_henry_niklas.Strings.Order.{NoNul, c_string}
use tony_henry_niklas.Inode.{Inode, inode_length}
use tony_henry_niklas.Inode.Access.{Lies, address}
use tony_henry_niklas.Inode.Put.{stored}
use tony_henry_niklas.Inode.Table.{FileSystem, find_inode}
use tony_henry_niklas.Directory.{Dir, lookup}
use tony_henry_niklas.Directory.Entry.{IsEntry, same_entry, HasName, IsLegible}
use tony_henry_niklas.Directory.Lookup.{IsLegibleDir, IsAnswer, lookup_lem}
use tony_henry_niklas.Common.{
  ℕ, ◌+◌, ◌-◌, ◌*◌, ◌≤◌, ◌≡◌, sym, ap, ◌∙◌, ◌≢◌, ◌⊎◌, inl, inr, true, false, ◌&&◌, List, Option,
  none, some, arith, ltb, leb, ◌==◌, chosen, passed_over, length, get_elem?, Bool-cases, subst,
  ==_iff,
}

-- Where the 20 bytes of `made` have been written to the place of entry `j`.
module _ (old new : List (List ℕ)) (inode : Inode) (j : ℕ) (made : List ℕ) (size : length made ≡ 20)
    (put : (q : ℕ) → byte_of new q ≡ stored made 0 old (address inode (20 * j)) 20 q) where
  written-IsEntry : IsEntry new inode j made
  written-IsEntry = (
    size,
    λ b l.
        let q : ℕ = address inode (20 * j + b) in
        let at : ℕ = address inode (20 * j) in
        let inside : (leb at q && ltb q (at + 20)) ≡ true = ground (arith, l) in
        sym (put q ∙ chosen (byte_of old q) inside ∙ ap (get_elem? made) (omega arith)),
  )

  others-IsEntry : (i : ℕ) (e : List ℕ) → i ≢ j → IsEntry new inode i e → IsEntry old inode i e
  others-IsEntry i e apart (h, bytes) = (
    h,
    λ b l.
        let q : ℕ = address inode (20 * i + b) in
        let at : ℕ = address inode (20 * j) in
        let outside : (leb at q && ltb q (at + 20)) ≡ false = ground (arith, l, apart) in
        bytes b l ∙ put q ∙ passed_over (get_elem? made (0 + (q - at))) outside,
  )

  -- Each entry is the one that was written, or was there before.
  either-IsEntry :
      (i : ℕ) (e : List ℕ) → IsEntry new inode i e → ((i ≡ j) × (e ≡ made)) ⊎ IsEntry old inode i e
  either-IsEntry i e entry = elim (Bool-cases (i == j)) [
    | inl at ↦
        let same : i ≡ j = (==_iff i j).0 at in
        inl (
          same,
          same_entry new inode j e made (subst (λ z. IsEntry new inode z e) same entry)
              written-IsEntry,
        )
    | inr other ↦ inr (others-IsEntry i e (λ p. absurd (ground (arith, other, p))) entry)
  ]

  written-IsLegibleDir :
      (name : List ℕ)
      → NoNul name
      → HasName name made
      → IsLegibleDir old inode
      → IsLegibleDir new inode
  written-IsLegibleDir name n named legible i room e entry = elim (either-IsEntry i e entry) [
    | inl (at, same) ↦
        subst IsLegible (sym same) (λ u. let (used, rest, q) = named in (name, n, rest, q))
    | inr before ↦ legible i room e before
  ]

  -- A name that was nowhere is found where it was written.
  written-found :
      (name : List ℕ) (hit : Option (List ℕ × ℕ))
      → HasName name made
      → 20 * j + 20 ≤ inode_length inode
      → IsAnswer old inode name 0 none
      → IsAnswer new inode name 0 hit
      → hit ≡ some (made, 20 * j)
  unfolding IsAnswer
  written-found name none named room missing answer =
      absurd (answer j (omega arith) room made written-IsEntry named)
  written-found name (some (e, ofs)) named room missing (i, low, at, inside, entry, has, first) =
      elim (either-IsEntry i e entry) [
        | inl (here, same) ↦
            ap some (ap (λ x. (x, ofs)) same ∙ ap (λ x. (made, x)) (at ∙ ap (λ x. 20 * x) here))
        | inr before ↦ absurd (missing i (omega arith) inside e before has)
      ]

pub lookup-written :
    (dir : Dir) (inode : Inode) (name r inner made : List ℕ) (j : ℕ) (old : List (List ℕ))
    (fs : FileSystem)
    → find_inode dir.inode fs.open_inodes ≡ some inode
    → IsWhole fs.device
    → Lies inode fs.device
    → NoNul name
    → IsLegibleDir old inode
    → length inner ≡ 20
    → length made ≡ 20
    → HasName name made
    → 20 * j + 20 ≤ inode_length inode
    → IsAnswer old inode name 0 none
    → ((x : ℕ) → byte_of fs.device.sectors x ≡ stored made 0 old (address inode (20 * j)) 20 x)
    → (fs' : FileSystem) × (lookup true dir (c_string name r) inner fs
        ≡ some (some (made, 20 * j), fs'))
lookup-written dir inode name r inner made j old fs q w l n legible h h' named room missing put =
    let new : List (List ℕ) = fs.device.sectors in
    let legible' : IsLegibleDir new inode =
      written-IsLegibleDir old new inode j made h' put name n named legible in
    let (hit, fs', found, kept, answer) = lookup_lem dir inode name r inner fs q w l n legible' h in
    let same : hit ≡ some (made, 20 * j) =
      written-found old new inode j made h' put name hit named room missing answer in
    (fs', found ∙ ap (λ x. some (x, fs')) same)
