-- ===== src/Directory/Slot.antt =====
-- The search of filesys/directory.c for a free slot, and the entry that is written there.
use Prim.Native.Nat.{min}
use mathlib.Core.List.{append_assoc}
use tony_henry_niklas.Block.Byte.{IsWhole}
use tony_henry_niklas.Strings.Text.{strlcpy}
use tony_henry_niklas.Strings.Copy.{strlcpy_lem}
use tony_henry_niklas.Strings.Order.{NoNul, c_string}
use tony_henry_niklas.Inode.{Inode, inode_length}
use tony_henry_niklas.Inode.Access.{Lies}
use tony_henry_niklas.Inode.Table.{FileSystem, find_inode, word_bytes, word_at}
use tony_henry_niklas.Directory.{in_use, slot_from, new_entry}
use tony_henry_niklas.Directory.Entry.{
  IsEntry, IsKept, IsKept-trans, IsKept-Lies, same_entry, read_entry_lem, HasName,
}
use tony_henry_niklas.Common.{
  ℕ, zero, suc, ◌+◌, ◌*◌, ◌^◌, ◌≤◌, ◌<◌, ◌≡◌, refl, sym, ap, ◌∙◌, ◌⊎◌, inl, inr, true, not, List,
  [], ◌∷◌, ◌++◌, Option, some, arith, ◌==◌, chosen, passed_over, and_then, if◌then◌else◌, length,
  Bool-cases, subst, ==_iff, take, drop, length-append, length-take, length-drop, get_or,
}

last_byte : (xs : List ℕ) (y i : ℕ) → length xs ≡ i → get_or (xs ++ (y ∷ [])) i 0 ≡ y
last_byte [] y zero h = refl
last_byte [] y (suc i) h = absurd (omega (arith, h))
last_byte (x ∷ xs) y zero h = absurd (omega (arith, h))
last_byte (x ∷ xs) y (suc i) h = last_byte xs y i (omega (arith, h))

take_whole : (xs : List ℕ) (n : ℕ) → length xs ≤ n → take n xs ≡ xs
take_whole [] zero h = refl
take_whole [] (suc n) h = refl
take_whole (x ∷ xs) zero h = absurd (omega (arith, h))
take_whole (x ∷ xs) (suc n) h = ap (λ l. x ∷ l) (take_whole xs n (omega (arith, h)))

word_at-word_bytes : (w : ℕ) (rest : List ℕ) → w < 2 ^ 32 → word_at (word_bytes w ++ rest) 0 ≡ w
unfolding word_at word_bytes
word_at-word_bytes w rest h = omega arith

-- The entry that is made has the name and the sector.
abbrev pub Made : List ℕ → ℕ → Option (List ℕ) → Type 0
Made name sector o =
    (e : List ℕ) × (o ≡ some e) × (length e ≡ 20) × HasName name e × (word_at e 0 ≡ sector)

pub new_entry_lem :
    (name r e : List ℕ) (sector : ℕ)
    → NoNul name
    → length name ≤ 14
    → length e ≡ 20
    → sector < 2 ^ 32
    → Made name sector (new_entry (c_string name r) sector e)
unfolding new_entry word_bytes
new_entry_lem name r e sector n short h low =
    let old : List ℕ = take 15 (drop 4 e) in
    let full : length old ≡ 15 = omega (arith, length-take 15 (drop 4 e), length-drop 4 e, h) in
    let least : min (length name) 14 ≡ length name = omega (arith, short) in
    let stored : ℕ → List ℕ → Option (ℕ × List ℕ) =
      λ m x. some (length name, x ++ (0 ∷ drop (suc m) old)) in
    let text : List ℕ = name ++ (0 ∷ drop (suc (length name)) old) in
    let size : length text ≡ 15 = omega (
      arith,
      length-append name (0 ∷ drop (suc (length name)) old),
      length-drop (suc (length name)) old,
      full,
    ) in
    let finish : ℕ × List ℕ → Option (List ℕ) =
      λ x. some (word_bytes sector ++ (x.1 ++ (1 ∷ []))) in
    let copied : strlcpy old (c_string name r) 15 ≡ some (length name, text) =
      strlcpy_lem old name r 15 n (omega (arith, full))
      ∙ ap (λ m. stored m (take m name)) least
      ∙ ap (stored (length name)) (take_whole name (length name) (omega arith)) in
    (
      word_bytes sector ++ (text ++ (1 ∷ [])),
      and_then finish copied,
      omega (arith, length-append text (1 ∷ []), size),
      (
        ap (λ b. not (b == 0)) (last_byte text 1 15 size),
        drop (suc (length name)) old ++ (1 ∷ []),
        append_assoc name (0 ∷ drop (suc (length name)) old) (1 ∷ []),
      ),
      word_at-word_bytes sector (text ++ (1 ∷ [])) low,
    )

-- Every whole entry from `k` on is in use.
abbrev pub IsFull : List (List ℕ) → Inode → ℕ → Type 0
IsFull sectors inode k =
    (i : ℕ)
    → k ≤ i
    → 20 * i + 20 ≤ inode_length inode
    → (e : List ℕ) → IsEntry sectors inode i e
    → in_use e ≡ true

-- The place for a new entry: the first free slot from entry `k` on, or the end.
abbrev pub Placed :
    List (List ℕ) → Inode → ℕ → FileSystem → Option (ℕ × List ℕ × FileSystem) → Type 0
Placed sectors inode k fs o =
    (j : ℕ) × (e : List ℕ) × (fs' : FileSystem) × (o ≡ some (20 * j, e, fs'))
    × (length e ≡ 20)
    × IsKept fs fs'
    × ((20 * j + 20 ≤ inode_length inode)
        ⊎ ((inode_length inode < 20 * j + 20) × IsFull sectors inode k))

IsFull-before :
    (sectors : List (List ℕ)) (inode : Inode) (k j : ℕ) (e : List ℕ)
    → IsEntry sectors inode k e
    → in_use e ≡ true
    → (20 * j + 20 ≤ inode_length inode)
      ⊎ ((inode_length inode < 20 * j + 20) × IsFull sectors inode (k + 1))
    → (20 * j + 20 ≤ inode_length inode)
      ⊎ ((inode_length inode < 20 * j + 20) × IsFull sectors inode k)
IsFull-before sectors inode k j e here used (inl room) = inl room
IsFull-before sectors inode k j e here used (inr (ends, full)) = inr (
  ends,
  λ i low room x entry. elim (Bool-cases (k == i)) [
    | inl at ↦
        let moved : IsEntry sectors inode k x =
          subst (λ z. IsEntry sectors inode z x) (sym ((==_iff k i).0 at)) entry in
        ap in_use (same_entry sectors inode k x e moved here) ∙ used
    | inr other ↦ full i (ground (arith, other, low)) room x entry
  ],
)

pub slot_from_lem :
    (rounds a k : ℕ) (sectors : List (List ℕ)) (inode : Inode) (e : List ℕ) (fs : FileSystem)
    → fs.device.sectors ≡ sectors
    → find_inode a fs.open_inodes ≡ some inode
    → IsWhole fs.device
    → Lies inode fs.device
    → length e ≡ 20
    → 20 * k ≤ inode_length inode
    → inode_length inode < 20 * (k + rounds)
    → Placed sectors inode k fs (slot_from rounds true a (20 * k) e fs)
unfolding slot_from
slot_from_lem zero a k sectors inode e fs same q w l h low high = absurd (omega arith)
slot_from_lem (suc rounds) a k sectors inode e fs same q w l h low high =
    let (count, e', fs', run, h', kept, read) = read_entry_lem a k inode e fs q w l h in
    let go_on : List ℕ → FileSystem → Option (ℕ × List ℕ × FileSystem) = λ x y.
      if not (in_use x) then some (20 * k, x, y) else slot_from rounds true a (20 * k + 20) x y in
    let body : ℕ × List ℕ × FileSystem → Option (ℕ × List ℕ × FileSystem) =
      λ x. if x.0 == 20 then go_on x.1 x.2 else some (20 * k, x.1, x.2) in
    elim read [
      | inl (whole, room, entry) ↦
          let counted : (count == 20) ≡ true = (==_iff count 20).1 whole in
          let start : body (count, e', fs') ≡ go_on e' fs' =
            chosen (some (20 * k, e', fs')) counted in
          elim (Bool-cases (not (in_use e'))) [
            | inl free ↦ (
              k,
              e',
              fs',
              and_then body run
                  ∙ start
                  ∙ chosen (slot_from rounds true a (20 * k + 20) e' fs') free,
              h',
              kept,
              inl room,
            )
            | inr taken ↦
                let here : IsEntry sectors inode k e' =
                  subst (λ z. IsEntry z inode k e') same entry in
                let used : in_use e' ≡ true = ground (arith, taken) in
                let (j, e'', fs'', ran, h'', kept', behind) =
                  slot_from_lem rounds a (k + 1) sectors inode e' fs' (kept.sectors ∙ same)
                    (ap (find_inode a) kept.open_inodes ∙ q) kept.whole
                    (IsKept-Lies inode fs fs' kept l) h' (omega (arith, room))
                    (omega (arith, high)) in
                (
                  j,
                  e'',
                  fs'',
                  and_then body run
                      ∙ start
                      ∙ passed_over (some (20 * k, e', fs')) taken
                      ∙ ap (λ o. slot_from rounds true a o e' fs') (omega arith)
                      ∙ ran,
                  h'',
                  IsKept-trans fs fs' fs'' kept kept',
                  IsFull-before sectors inode k j e' here used behind,
                )
          ]
      | inr (part, ends) ↦ (
        k,
        e',
        fs',
        and_then body run ∙ passed_over (go_on e' fs') (ground (arith, part)),
        h',
        kept,
        inr (ends, λ i lo room. absurd (omega (arith, ends, lo, room))),
      )
    ]
