-- ===== src/Directory/Entry.antt =====
-- What filesys/directory.c reads at the place of an entry, and how it compares the name.
use tony_henry_niklas.Common.Int.{ℤ, pos, negsuc}
use tony_henry_niklas.Block.{Block}
use tony_henry_niklas.Block.Byte.{byte_of, IsWhole}
use tony_henry_niklas.Strings.Text.{strcmp}
use tony_henry_niklas.Strings.Order.{NoNul, c_string, lex, strcmp_lem, lex-eq-zero, lex_refl}
use tony_henry_niklas.Inode.{Inode, inode_length, inode_read_at}
use tony_henry_niklas.Inode.Access.{Lies, Lies-resized, available, address}
use tony_henry_niklas.Inode.Read.{inode_read_at_lem}
use tony_henry_niklas.Inode.Table.{FileSystem, find_inode}
use tony_henry_niklas.Inode.Empty.{same_elements}
use tony_henry_niklas.Directory.{read_entry, in_use, is_zero, matches}
use tony_henry_niklas.Common.{
  ℕ, ◌+◌, ◌*◌, ◌≤◌, ◌<◌, ◌≡◌, refl, sym, ap, ◌∙◌, ◌≢◌, ◌⊎◌, inl, inr, Bool, true, false, ◌&&◌, List,
  Option, some, arith, ltb, leb, chosen, passed_over, and_then, length, get_elem?, ◌>>=◌,
  Bool-cases, leb→le, ==_iff, drop,
}

-- The 20 bytes of entry `k`.
abbrev pub IsEntry : List (List ℕ) → Inode → ℕ → List ℕ → Type 0
IsEntry sectors inode k e =
    (length e ≡ 20)
    × ((b : ℕ) → b < 20 → get_elem? e b ≡ byte_of sectors (address inode (20 * k + b)))

-- Only the counters of the device may have changed.
pub record IsKept (fs fs' : FileSystem) : Type 0 where
  pub open_inodes : fs'.open_inodes ≡ fs.open_inodes
  pub free_map : fs'.free_map ≡ fs.free_map
  pub sectors : fs'.device.sectors ≡ fs.device.sectors
  pub size : fs'.device.size ≡ fs.device.size
  pub whole : IsWhole fs'.device

pub IsKept-trans : (fs fs' fs'' : FileSystem) → IsKept fs fs' → IsKept fs' fs'' → IsKept fs fs''
IsKept-trans fs fs' fs'' r s = record {
  open_inodes = s.open_inodes ∙ r.open_inodes;
  free_map = s.free_map ∙ r.free_map;
  sectors = s.sectors ∙ r.sectors;
  size = s.size ∙ r.size;
  whole = s.whole;
}

pub IsKept-Lies :
    (inode : Inode) (fs fs' : FileSystem)
    → IsKept fs fs'
    → Lies inode fs.device
    → Lies inode fs'.device
IsKept-Lies inode fs fs' kept l = Lies-resized inode fs.device fs'.device kept.size l

pub same_entry :
    (sectors : List (List ℕ)) (inode : Inode) (k : ℕ) (e e' : List ℕ)
    → IsEntry sectors inode k e
    → IsEntry sectors inode k e'
    → e ≡ e'
same_entry sectors inode k e e' (h, p) (h', p') =
    same_elements e e' (h ∙ sym h')
      (λ b l. let low : b < 20 = omega (arith, l, h) in p b low ∙ sym (p' b low))

-- A whole entry is read, or a part or nothing where the file ends before it does.
abbrev pub EntryRead : Inode → ℕ → FileSystem → Option (ℕ × List ℕ × FileSystem) → Type 0
EntryRead inode k fs o =
    (n : ℕ) × (e : List ℕ) × (fs' : FileSystem) × (o ≡ some (n, e, fs'))
    × (length e ≡ 20)
    × IsKept fs fs'
    × (((n ≡ 20) × (20 * k + 20 ≤ inode_length inode) × IsEntry fs.device.sectors inode k e)
        ⊎ ((n ≢ 20) × (inode_length inode < 20 * k + 20)))

pub read_entry_lem :
    (a k : ℕ) (inode : Inode) (e : List ℕ) (fs : FileSystem)
    → find_inode a fs.open_inodes ≡ some inode
    → IsWhole fs.device
    → Lies inode fs.device
    → length e ≡ 20
    → EntryRead inode k fs (read_entry true a e (20 * k) fs)
unfolding read_entry
read_entry_lem a k inode e fs q w l h =
    let (n, e', d, r, most, all, room, got, kept, size, w') =
      inode_read_at_lem true inode e 20 (20 * k) fs.device w l (omega (arith, h)) in
    let fs' : FileSystem = record fs { device = d } in
    let count : n ≡ available inode 20 (20 * k) = all refl in
    let result : ℕ × List ℕ × Block → Option (ℕ × List ℕ × FileSystem) =
      λ x. some (x.0, x.1, record fs { device = x.2 }) in
    let run : Inode → Option (ℕ × List ℕ × FileSystem) =
      λ i. inode_read_at true i e 20 (20 * k) fs.device >>= result in
    (
      n,
      e',
      fs',
      and_then run q ∙ and_then result r,
      room ∙ h,
      record { open_inodes = refl; free_map = refl; sectors = kept; size = size; whole = w' },
      elim (Bool-cases (leb (20 * k + 20) (inode_length inode))) [
        | inl f ↦ inl (
          ground (arith, count, f),
          leb→le (20 * k + 20) (inode_length inode) f,
          (
            room ∙ h,
            λ b low.
                let full : n ≡ 20 = ground (arith, count, f) in
                let placed : (leb 0 b && ltb b (0 + n)) ≡ true = ground (arith, full, low) in
                got b
                ∙ chosen (get_elem? e b) placed
                ∙ ap (byte_of fs.device.sectors) (omega arith),
          ),
        )
        | inr f ↦ inr (λ p. absurd (ground (arith, count, f, p)), ground (arith, f))
      ],
    )

-- An entry with the name of a string.
abbrev pub HasName : List ℕ → List ℕ → Type 0
HasName name e = (in_use e ≡ true) × (rest : List ℕ) × (drop 4 e ≡ c_string name rest)

-- An entry that is in use has a name that ends.
abbrev pub IsLegible : List ℕ → Type 0
IsLegible e =
    in_use e ≡ true
    → (name : List ℕ) × NoNul name × (rest : List ℕ) × (drop 4 e ≡ c_string name rest)

is_zero-eq : (z : ℤ) → is_zero z ≡ true → z ≡ pos 0
is_zero-eq (pos n) e = ap pos ((==_iff n 0).0 e)
is_zero-eq (negsuc n) e = absurd (ground (arith, e))

pub HasName-matches :
    (name r e : List ℕ) → NoNul name → HasName name e → matches (c_string name r) e ≡ some true
unfolding matches
HasName-matches name r e h (used, rest, q) =
    let compare : Option ℤ → Option Bool = λ o. o >>= λ c. some (is_zero c) in
    chosen (some false) used
    ∙ ap compare (ap (strcmp (c_string name r)) q ∙ strcmp_lem name name r rest h h)
    ∙ ap (λ c. some (is_zero c)) (lex_refl name)

pub matches_lem :
    (name r e : List ℕ)
    → NoNul name
    → IsLegible e
    → (b : Bool) × (matches (c_string name r) e ≡ some b) × (b ≡ true → HasName name e)
unfolding matches
matches_lem name r e h legible = elim (Bool-cases (in_use e)) [
  | inl u ↦
      let (other, h', rest, q) = legible u in
      (
        is_zero (lex name other),
        chosen (some false) u
            ∙ ap (λ o. o >>= λ c. some (is_zero c))
                (ap (strcmp (c_string name r)) q ∙ strcmp_lem name other r rest h h'),
        λ z.
            let same : name ≡ other = lex-eq-zero name other (is_zero-eq (lex name other) z) in
            (u, rest, q ∙ ap (λ s. c_string s rest) (sym same)),
      )
  | inr u ↦ (
    false,
    passed_over (strcmp (c_string name r) (drop 4 e) >>= λ c. some (is_zero c)) u,
    λ f. absurd (ground (arith, f)),
  )
]
