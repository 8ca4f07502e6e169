-- ===== src/Inode/RoundTrip.antt =====
-- What a write of filesys/inode.c means for the reads after it.
use tony_henry_niklas.Block.{Block}
use tony_henry_niklas.Block.Byte.{byte_of, IsWhole}
use tony_henry_niklas.Inode.{Inode, bytes_to_sectors, inode_length, inode_read_at, inode_write_at}
use tony_henry_niklas.Inode.Access.{Lies, available, address}
use tony_henry_niklas.Inode.Read.{filled, inode_read_at_lem}
use tony_henry_niklas.Inode.Put.{stored}
use tony_henry_niklas.Inode.Write.{inode_write_at_lem}
use tony_henry_niklas.Common.{
  ℕ, ◌+◌, ◌≤◌, ◌<◌, ◌≡◌, refl, ap, ◌∙◌, ◌⊎◌, Bool, true, false, ◌&&◌, List, some, arith, ltb, leb,
  passed_over, length, get_elem?,
}

-- With memory for the bounce buffer, a write inside an open inode whose sectors lie on a whole
-- device, while no file denies writes, transfers all its bytes, and a read of the same range
-- afterwards returns exactly these, wherever the borders of the sectors are.
pub inode_read_at-inode_write_at :
    (inode : Inode) (buffer out : List ℕ) (size offset : ℕ) (device : Block)
    → IsWhole device
    → Lies inode device
    → inode.deny_write_cnt ≡ 0
    → offset + size ≤ inode_length inode
    → size ≤ length buffer
    → size ≤ length out
    → (device' : Block) × (device'' : Block) × (out' : List ℕ) × (inode_write_at true inode buffer
          size offset device
        ≡ some (size, device'))
      × (inode_read_at true inode out size offset device' ≡ some (size, out', device''))
      × ((k : ℕ) → k < size → get_elem? out' k ≡ get_elem? buffer k)
inode_read_at-inode_write_at inode buffer out size offset device w l d inside h h' =
    let (n, device', q, most, all, put, same, w') =
      inode_write_at_lem true inode buffer size offset device w l h d in
    let all_size : available inode size offset ≡ size = ground arith in
    let l' : Lies inode device' = let z = same in (omega (arith, l.0), omega (arith, l.1)) in
    let (n', out', device'', q', most', all', room, got, kept, same', w'') =
      inode_read_at_lem true inode out size offset device' w' l' h' in
    let e : n ≡ size = all refl ∙ all_size in
    let e' : n' ≡ size = all' refl ∙ all_size in
    (
      device',
      device'',
      out',
      q ∙ ap (λ i. some (i, device')) e,
      q' ∙ ap (λ i. some (i, out', device'')) e',
      λ k m.
          got k
          ∙ there out device'.sectors (address inode offset) n' k (omega arith)
          ∙ put (address inode offset + k)
          ∙ back buffer device.sectors (address inode offset) n k (omega arith),
    )
  where
    there :
        (out : List ℕ) (sectors : List (List ℕ)) (q n k : ℕ)
        → k < n
        → filled out 0 sectors q n k ≡ byte_of sectors (q + k)
    there out sectors q n k h = ground arith

    back :
        (buffer : List ℕ) (sectors : List (List ℕ)) (q n k : ℕ)
        → k < n
        → stored buffer 0 sectors q n (q + k) ≡ get_elem? buffer k
    back buffer sectors q n k h = ground arith

-- Two files have no sector in common.
abbrev pub Apart : Inode → Inode → Type 0
Apart i j =
    (i.disk_inode.start + bytes_to_sectors (inode_length i) ≤ j.disk_inode.start)
    ⊎ (j.disk_inode.start + bytes_to_sectors (inode_length j) ≤ i.disk_inode.start)

outside :
    (i j : Inode) (offset n k size : ℕ)
    → Apart i j
    → n ≤ available i size offset
    → k < inode_length j
    → (leb (address i offset) (address j k) && ltb (address j k) (address i offset + n)) ≡ false
outside i j offset n k size a h m = ground arith

-- A write to one file, its sectors on a whole device and no file denying writes to it, returns
-- and changes no byte of any other file that has no sector in common with it.
pub inode_write_at-Apart :
    (memory : Bool) (i j : Inode) (buffer : List ℕ) (size offset : ℕ) (device : Block)
    → IsWhole device
    → Lies i device
    → size ≤ length buffer
    → i.deny_write_cnt ≡ 0
    → Apart i j
    → (n : ℕ) × (device' : Block) × (inode_write_at memory i buffer size offset device
        ≡ some (n, device'))
      × ((k : ℕ)
          → k < inode_length j
          → byte_of device'.sectors (address j k) ≡ byte_of device.sectors (address j k))
inode_write_at-Apart memory i j buffer size offset device w l h d a =
    let (n, device', q, most, all, put, same, w') =
      inode_write_at_lem memory i buffer size offset device w l h d in
    (n, device', q, λ k m. put (address j k) ∙ passed_over _ (outside i j offset n k size a most m))
