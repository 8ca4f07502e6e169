-- ===== src/Directory/Add.antt =====
-- A name that filesys/directory.c has added is found.
use tony_henry_niklas.Block.{Block}
use tony_henry_niklas.Block.Byte.{byte_of, IsWhole}
use tony_henry_niklas.Strings.Order.{NoNul, c_string, strlen_lem}
use tony_henry_niklas.Inode.{Inode, inode_length, inode_write_at}
use tony_henry_niklas.Inode.Access.{Lies, Lies-resized, available, address}
use tony_henry_niklas.Inode.Put.{stored}
use tony_henry_niklas.Inode.Write.{inode_write_at_lem}
use tony_henry_niklas.Inode.Table.{FileSystem, find_inode, word_at}
use tony_henry_niklas.Directory.{
  Dir, lookup, new_entry, write_entry, entry_rounds, add_entry, dir_add,
}
use tony_henry_niklas.Directory.Entry.{IsEntry, IsKept, IsKept-Lies, HasName}
use tony_henry_niklas.Directory.Lookup.{IsLegibleDir, IsAnswer, lookup_lem}
use tony_henry_niklas.Directory.Written.{lookup-written}
use tony_henry_niklas.Directory.Slot.{new_entry_lem, IsFull, slot_from_lem}
use tony_henry_niklas.Common.{
  ◌+◌, ℕ, ◌*◌, ◌^◌, ◌≤◌, ◌<◌, ◌≡◌, refl, sym, ap, ◌∙◌, ◌≢◌, ◌⊎◌, inl, inr, Bool, true, false, ◌||◌,
  List, [], ◌∷◌, Option, none, some, arith, ltb, ◌==◌, passed_over, and_then, if◌then◌else◌, length,
  ◌>>=◌, subst, ==_iff, get_or,
}

-- Neither too long nor empty.
valid_name :
    (name r : List ℕ)
    → NoNul name
    → 0 < length name
    → length name ≤ 14
    → (get_or (c_string name r) 0 0 == 0 || ltb 14 (length name)) ≡ false
valid_name [] r n some_text short = absurd (omega (arith, some_text))
valid_name (c ∷ s) r n some_text short = let nz : c ≢ 0 = n.0 in ground (arith, nz, short)

-- The end of a call that adds a name: it is found there with its sector; or it was there before, or
-- there is no free slot.
abbrev pub Added :
    List (List ℕ) → Inode → Dir → List ℕ → List ℕ → ℕ → List ℕ → Bool → FileSystem → Type 0
Added sectors inode dir name r sector e ok fs' =
    ((ok ≡ true)
      × IsAnswer sectors inode name 0 none
      × (made : List ℕ) × (ofs : ℕ) × (fs'' : FileSystem) × (lookup true dir (c_string name r) e fs'
          ≡ some (some (made, ofs), fs''))
      × (word_at made 0 ≡ sector))
    ⊎ ((ok ≡ false)
        × (((made : List ℕ) × (j : ℕ) × (20 * j + 20 ≤ inode_length inode)
              × IsEntry sectors inode j made
              × HasName name made)
            ⊎ IsFull sectors inode 0))

abbrev pub AddRun :
    List (List ℕ) → Inode → Dir → List ℕ → List ℕ → ℕ → List ℕ → Option (Bool × FileSystem) → Type 0
AddRun sectors inode dir name r sector e o =
    (ok : Bool) × (fs' : FileSystem) × (o ≡ some (ok, fs'))
    × IsWhole fs'.device
    × Added sectors inode dir name r sector e ok fs'

write_new :
    (dir : Dir) (inode : Inode) (name r inner e : List ℕ) (sector : ℕ) (fs : FileSystem)
    → find_inode dir.inode fs.open_inodes ≡ some inode
    → IsWhole fs.device
    → Lies inode fs.device
    → NoNul name
    → length name ≤ 14
    → IsLegibleDir fs.device.sectors inode
    → length inner ≡ 20
    → length e ≡ 20
    → inode.deny_write_cnt ≡ 0
    → sector < 2 ^ 32
    → IsAnswer fs.device.sectors inode name 0 none
    → AddRun fs.device.sectors inode dir name r sector inner
        (add_entry true dir (c_string name r) sector inode e (none, fs))
unfolding write_entry
write_new dir inode name r inner e sector fs q w l n short legible h h' writable low missing =
    let (j, e2, fs2, run2, h2, kept, place) =
      slot_from_lem (entry_rounds inode) dir.inode 0 fs.device.sectors inode e fs refl q w l h'
        (omega arith) (omega arith) in
    let (made, build, h3, named, word) = new_entry_lem name r e2 sector n short h2 low in
    let (count, d, run3, most, all, put, size, w') =
      inode_write_at_lem true inode made 20 (20 * j) fs2.device kept.whole
        (IsKept-Lies inode fs fs2 kept l) (omega (arith, h3)) writable in
    let fs3 : FileSystem = record fs2 { device = d } in
    let counted : count ≡ available inode 20 (20 * j) = all refl in
    let q2 : find_inode dir.inode fs2.open_inodes ≡ some inode =
      ap (find_inode dir.inode) kept.open_inodes ∙ q in
    let answer : ℕ × FileSystem → Option (Bool × FileSystem) = λ w. some (w.0 == 20, w.1) in
    let store : ℕ → FileSystem → List ℕ → Option (Bool × FileSystem) =
      λ o y m. write_entry true dir.inode m o y >>= answer in
    let after : ℕ × List ℕ × FileSystem → Option (Bool × FileSystem) =
      λ x. new_entry (c_string name r) sector x.1 >>= store x.0 x.2 in
    let update : ℕ × Block → Option (ℕ × FileSystem) =
      λ x. some (x.0, record fs2 { device = x.1 }) in
    let write : Inode → Option (ℕ × FileSystem) =
      λ i. inode_write_at true i made 20 (20 * j) fs2.device >>= update in
    let wrote : write_entry true dir.inode made (20 * j) fs2 ≡ some (count, fs3) =
      and_then write q2 ∙ and_then update run3 in
    let run : add_entry true dir (c_string name r) sector inode e (none, fs)
        ≡ some (count == 20, fs3) =
      and_then after run2 ∙ and_then (store (20 * j) fs2) build ∙ and_then answer wrote in
    (
      count == 20,
      fs3,
      run,
      w',
      elim place [
        | inl room ↦
            let full : count ≡ 20 = ground (arith, counted, room) in
            let put' : (x : ℕ)
                → byte_of d.sectors x
                  ≡ stored made 0 fs.device.sectors (address inode (20 * j)) 20 x =
              λ x.
                put x
                ∙ ap (λ m. stored made 0 fs2.device.sectors (address inode (20 * j)) m x) full
                ∙ ap (λ s. stored made 0 s (address inode (20 * j)) 20 x) kept.sectors in
            let (fs4, found) =
              lookup-written dir inode name r inner made j fs.device.sectors fs3 q2 w'
                (Lies-resized inode fs2.device d size (IsKept-Lies inode fs fs2 kept l)) n legible h
                h3 named room missing put' in
            inl ((==_iff count 20).1 full, missing, made, 20 * j, fs4, found, word)
        | inr (ends, full) ↦ inr (ground (arith, counted, ends), inr full)
      ],
    )

-- The branches after the search.
add_answered :
    (dir : Dir) (inode : Inode) (name r inner e : List ℕ) (sector : ℕ) (fs fs' : FileSystem)
    (hit : Option (List ℕ × ℕ))
    → find_inode dir.inode fs.open_inodes ≡ some inode
    → IsKept fs fs'
    → Lies inode fs.device
    → NoNul name
    → length name ≤ 14
    → IsLegibleDir fs.device.sectors inode
    → length inner ≡ 20
    → length e ≡ 20
    → inode.deny_write_cnt ≡ 0
    → sector < 2 ^ 32
    → IsAnswer fs.device.sectors inode name 0 hit
    → AddRun fs.device.sectors inode dir name r sector inner
        (add_entry true dir (c_string name r) sector inode e (hit, fs'))
unfolding IsAnswer
add_answered dir inode name r inner e sector fs fs' (some (made, ofs)) q kept l n short legible h h'
      writable low (j, least, at, room, entry, named, first) =
    (false, fs', refl, kept.whole, inr (refl, inl (made, j, room, entry, named)))
add_answered dir inode name r inner e sector fs fs' none q kept l n short legible h h' writable low
      missing =
    subst
      (λ s.
        AddRun s inode dir name r sector inner
          (add_entry true dir (c_string name r) sector inode e (none, fs')))
      kept.sectors
      (write_new dir inode name r inner e sector fs'
        (ap (find_inode dir.inode) kept.open_inodes ∙ q) kept.whole
        (IsKept-Lies inode fs fs' kept l) n short
        (subst (λ s. IsLegibleDir s inode) (sym kept.sectors) legible) h h' writable low
        (subst (λ s. IsAnswer s inode name 0 none) (sym kept.sectors) missing))

-- dir_add of a string of 1 to 14 bytes to a directory whose sectors lie on a whole device, with
-- memory, no writes denied and every entry in use having a name that ends, for the sector of a
-- 32-bit number, fails no assertion and ends; either it returns true, the name was in no entry,
-- and lookup now finds it, with the sector that was given; or it returns false, and a whole
-- entry of the directory had the name before, or every whole entry is in use.
pub lookup-dir_add :
    (dir : Dir) (inode : Inode) (name r inner e : List ℕ) (sector : ℕ) (fs : FileSystem)
    → find_inode dir.inode fs.open_inodes ≡ some inode
    → IsWhole fs.device
    → Lies inode fs.device
    → NoNul name
    → 0 < length name
    → length name ≤ 14
    → IsLegibleDir fs.device.sectors inode
    → length inner ≡ 20
    → length e ≡ 20
    → inode.deny_write_cnt ≡ 0
    → sector < 2 ^ 32
    → AddRun fs.device.sectors inode dir name r sector inner
        (dir_add true dir (c_string name r) sector inner e fs)
unfolding dir_add
lookup-dir_add dir inode name r inner e sector fs q w l n some_text short legible h h' writable
      low =
    let (hit, fs', found, kept, answer) = lookup_lem dir inode name r inner fs q w l n legible h in
    let continue : Inode → Option (List ℕ × ℕ) × FileSystem → Option (Bool × FileSystem) =
      λ i. add_entry true dir (c_string name r) sector i e in
    let search : Inode → Option (Bool × FileSystem) =
      λ i. lookup true dir (c_string name r) inner fs >>= continue i in
    let body : ℕ → Option (Bool × FileSystem) = λ m.
      if get_or (c_string name r) 0 0 == 0 || ltb 14 m
      then some (false, fs)
      else (find_inode dir.inode fs.open_inodes >>= search) in
    let start : dir_add true dir (c_string name r) sector inner e fs ≡ continue inode (hit, fs') =
      and_then body (strlen_lem name r n)
      ∙ passed_over (some (false, fs)) (valid_name name r n some_text short)
      ∙ and_then search q
      ∙ and_then (continue inode) found in
    let (ok, fs'', ran, whole, done) =
      add_answered dir inode name r inner e sector fs fs' hit q kept l n short legible h h' writable
        low answer in
    (ok, fs'', start ∙ ran, whole, done)
