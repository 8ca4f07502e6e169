-- ===== src/Directory/Lookup.antt =====
-- The search of filesys/directory.c for a name.
use mathlib.Core.Option.{some-injective}
use tony_henry_niklas.Block.Byte.{IsWhole}
use tony_henry_niklas.Strings.Order.{NoNul, c_string}
use tony_henry_niklas.Inode.{Inode, inode_length}
use tony_henry_niklas.Inode.Access.{Lies}
use tony_henry_niklas.Inode.Table.{FileSystem, find_inode}
use tony_henry_niklas.Directory.{Dir, matches, lookup_from, lookup, entry_rounds}
use tony_henry_niklas.Directory.Entry.{
  IsEntry, IsKept, IsKept-trans, IsKept-Lies, same_entry, read_entry_lem, HasName, IsLegible,
  HasName-matches, matches_lem,
}
use tony_henry_niklas.Common.{
  ℕ, zero, suc, ◌+◌, ◌*◌, ◌≤◌, ◌<◌, ◌≡◌, refl, sym, ap, ◌∙◌, inl, inr, Bool, true, List, Option,
  none, some, arith, ◌==◌, chosen, passed_over, and_then, if◌then◌else◌, length, ◌>>=◌, Bool-cases,
  subst, ==_iff,
}

-- Every whole entry that is in use has a name that ends.
abbrev pub IsLegibleDir : List (List ℕ) → Inode → Type 0
IsLegibleDir sectors inode =
    (j : ℕ)
    → 20 * j + 20 ≤ inode_length inode
    → (e : List ℕ) → IsEntry sectors inode j e
    → IsLegible e

-- Entry `j` does not have the name.
abbrev pub Lacks : List (List ℕ) → Inode → List ℕ → ℕ → Type 0
Lacks sectors inode name j = (e : List ℕ) → IsEntry sectors inode j e → ¬ HasName name e

-- What the search from entry `k` on has to answer: the first entry of the name with its offset, or
-- nothing where no entry has it.
unfoldable pub IsAnswer : List (List ℕ) → Inode → List ℕ → ℕ → Option (List ℕ × ℕ) → Type 0
IsAnswer sectors inode name k none =
    (j : ℕ) → k ≤ j → 20 * j + 20 ≤ inode_length inode → Lacks sectors inode name j
IsAnswer sectors inode name k (some (e, ofs)) =
    (j : ℕ) × (k ≤ j)
    × (ofs ≡ 20 * j)
    × (20 * j + 20 ≤ inode_length inode)
    × IsEntry sectors inode j e
    × HasName name e
    × ((i : ℕ) → k ≤ i → i < j → Lacks sectors inode name i)

-- An entry without the name can be put before what was searched.
IsAnswer-before :
    (sectors : List (List ℕ)) (inode : Inode) (name : List ℕ) (k : ℕ) (hit : Option (List ℕ × ℕ))
    → Lacks sectors inode name k
    → IsAnswer sectors inode name (k + 1) hit
    → IsAnswer sectors inode name k hit
unfolding IsAnswer
IsAnswer-before sectors inode name k none miss rest = λ j l room. elim (Bool-cases (k == j)) [
  | inl same ↦ subst (Lacks sectors inode name) ((==_iff k j).0 same) miss
  | inr other ↦ rest j (ground (arith, other, l)) room
]
IsAnswer-before sectors inode name k (some (e, ofs)) miss (j, l, at, room, entry, named, first) = (
  j,
  omega (arith, l),
  at,
  room,
  entry,
  named,
  λ i low high. elim (Bool-cases (k == i)) [
    | inl same ↦ subst (Lacks sectors inode name) ((==_iff k i).0 same) miss
    | inr other ↦ first i (ground (arith, other, low)) high
  ],
)

-- The search ends, and answers so.
abbrev pub Searched :
    List (List ℕ)
    → Inode
    → List ℕ
    → ℕ
    → FileSystem
    → Option (Option (List ℕ × ℕ) × FileSystem)
    → Type 0
Searched sectors inode name k fs o =
    (hit : Option (List ℕ × ℕ)) × (fs' : FileSystem) × (o ≡ some (hit, fs'))
    × IsKept fs fs'
    × IsAnswer sectors inode name k hit

lookup_from_lem :
    (rounds a k : ℕ) (sectors : List (List ℕ)) (inode : Inode) (name r e : List ℕ) (fs : FileSystem)
    → fs.device.sectors ≡ sectors
    → find_inode a fs.open_inodes ≡ some inode
    → IsWhole fs.device
    → Lies inode fs.device
    → NoNul name
    → IsLegibleDir sectors inode
    → length e ≡ 20
    → 20 * k ≤ inode_length inode
    → inode_length inode < 20 * (k + rounds)
    → Searched sectors inode name k fs (lookup_from rounds true a (c_string name r) (20 * k) e fs)
unfolding lookup_from IsAnswer
lookup_from_lem zero a k sectors inode name r e fs same q w l n legible h low high =
    absurd (omega arith)
lookup_from_lem (suc rounds) a k sectors inode name r e fs same q w l n legible h low high =
    let (count, e', fs', run, h', kept, read) = read_entry_lem a k inode e fs q w l h in
    let choose : List ℕ → FileSystem → Bool → Option (Option (List ℕ × ℕ) × FileSystem) =
      λ x y found.
        if found
        then some (some (x, 20 * k), y)
        else lookup_from rounds true a (c_string name r) (20 * k + 20) x y in
    let body : ℕ × List ℕ × FileSystem → Option (Option (List ℕ × ℕ) × FileSystem) = λ x.
      if x.0 == 20 then (matches (c_string name r) x.1 >>= choose x.1 x.2) else some (none, x.2) in
    let missed : List ℕ → FileSystem → Option (Option (List ℕ × ℕ) × FileSystem) =
      λ x y. matches (c_string name r) x >>= choose x y in
    elim read [
      | inl (whole, room, entry) ↦
          let here : IsEntry sectors inode k e' = subst (λ z. IsEntry z inode k e') same entry in
          let counted : (count == 20) ≡ true = (==_iff count 20).1 whole in
          let (found, decided, right) = matches_lem name r e' n (legible k room e' here) in
          let start : body (count, e', fs') ≡ choose e' fs' found =
            chosen (some (none, fs')) counted ∙ and_then (choose e' fs') decided in
          elim (Bool-cases found) [
            | inl hits ↦ (
              some (e', 20 * k),
              fs',
              and_then body run
                  ∙ start
                  ∙ chosen (lookup_from rounds true a (c_string name r) (20 * k + 20) e' fs') hits,
              kept,
              (
                k,
                omega arith,
                refl,
                room,
                here,
                right hits,
                λ i lo hi. absurd (omega (arith, lo, hi)),
              ),
            )
            | inr misses ↦
                let (hit, fs'', ran, kept', answer) =
                  lookup_from_lem rounds a (k + 1) sectors inode name r e' fs' (kept.sectors ∙ same)
                    (ap (find_inode a) kept.open_inodes ∙ q) kept.whole
                    (IsKept-Lies inode fs fs' kept l) n legible h' (omega (arith, room))
                    (omega (arith, high)) in
                let lacks : Lacks sectors inode name k = λ e'' entry' named.
                  let equal : e'' ≡ e' = same_entry sectors inode k e'' e' entry' here in
                  let hit : matches (c_string name r) e' ≡ some true =
                    HasName-matches name r e' n (subst (HasName name) equal named) in
                  let both : found ≡ true = some-injective found true (sym decided ∙ hit) in
                  absurd (ground (arith, both, misses)) in
                (
                  hit,
                  fs'',
                  and_then body run
                      ∙ start
                      ∙ passed_over (some (some (e', 20 * k), fs')) misses
                      ∙ ap (λ o. lookup_from rounds true a (c_string name r) o e' fs') (omega arith)
                      ∙ ran,
                  IsKept-trans fs fs' fs'' kept kept',
                  IsAnswer-before sectors inode name k hit lacks answer,
                )
          ]
      | inr (part, ends) ↦ (
        none,
        fs',
        and_then body run ∙ passed_over (missed e' fs') (ground (arith, part)),
        kept,
        λ j lo room. absurd (omega (arith, ends, lo, room)),
      )
    ]

-- lookup in a directory whose sectors lie on a whole device, with memory and a string for the
-- name, every entry in use having a name that ends, fails no assertion and ends; it returns the
-- first whole entry in use that has the name, with its offset, or false where no entry has it,
-- and leaves the sectors alone.
pub lookup_lem :
    (dir : Dir) (inode : Inode) (name r e : List ℕ) (fs : FileSystem)
    → find_inode dir.inode fs.open_inodes ≡ some inode
    → IsWhole fs.device
    → Lies inode fs.device
    → NoNul name
    → IsLegibleDir fs.device.sectors inode
    → length e ≡ 20
    → Searched fs.device.sectors inode name 0 fs (lookup true dir (c_string name r) e fs)
unfolding lookup
lookup_lem dir inode name r e fs q w l n legible h =
    let find : Inode → Option (Option (List ℕ × ℕ) × FileSystem) =
      λ i. lookup_from (entry_rounds i) true dir.inode (c_string name r) 0 e fs in
    let (hit, fs', run, kept, answer) =
      lookup_from_lem (entry_rounds inode) dir.inode 0 fs.device.sectors inode name r e fs refl q w
        l n legible h (omega arith) (omega arith) in
    (hit, fs', and_then find q ∙ run, kept, answer)
