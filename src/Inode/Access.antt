-- ===== src/Inode/Access.antt =====
-- The chunks and sectors that inode_read_at and inode_write_at of filesys/inode.c go through.
use tony_henry_niklas.Block.{Block}
use tony_henry_niklas.Inode.{Inode, bytes_to_sectors, byte_to_sector, inode_length, chunk_size}
use tony_henry_niklas.Common.{
  sym, subst, ℕ, ◌+◌, ◌-◌, ◌*◌, ◌/◌, ◌%◌, ◌^◌, ◌≤◌, ◌<◌, ◌≡◌, ◌∙◌, ◌≢◌, arith, ltb, chosen,
  if◌then◌else◌, lt→ltb,
}

-- The sectors of the file are sectors of the device.
abbrev pub Lies : Inode → Block → Type 0
Lies inode device =
    (inode.disk_inode.start + bytes_to_sectors (inode_length inode) ≤ device.size)
    × (device.size ≤ 2 ^ 32)

pub Lies-resized :
    (inode : Inode) (device device' : Block)
    → device'.size ≡ device.size
    → Lies inode device
    → Lies inode device'
Lies-resized inode device device' size l =
    subst (λ z. (inode.disk_inode.start + bytes_to_sectors (inode_length inode) ≤ z) × (z ≤ 2 ^ 32))
      (sym size) l

-- How many bytes a call can transfer.
abbrev pub available : Inode → ℕ → ℕ → ℕ
available inode size offset =
    let left : ℕ = inode_length inode - offset in if ltb size left then size else left

-- The number on the device of the file's byte `offset`.
abbrev pub address : Inode → ℕ → ℕ
address inode offset = inode.disk_inode.start * 512 + offset

-- A chunk ends with its sector, and at the latest where the call has to end.
pub record IsChunk (inode : Inode) (size offset chunk : ℕ) : Type 0 where
  pub inside : offset % 512 + chunk ≤ 512
  pub asked : chunk ≤ available inode size offset
  pub progress : available inode size offset ≢ 0 → chunk ≢ 0

pub chunk_size-IsChunk :
    (inode : Inode) (size offset : ℕ) → IsChunk inode size offset (chunk_size inode size offset)
unfolding chunk_size
chunk_size-IsChunk inode size offset = record {
  inside = ground arith;
  asked = ground arith;
  progress = ground arith;
}

pub byte_to_sector_lem :
    (inode : Inode) (device : Block) (offset : ℕ)
    → Lies inode device
    → offset < inode_length inode
    → (byte_to_sector inode offset ≡ inode.disk_inode.start + offset / 512)
      × (inode.disk_inode.start + offset / 512 < device.size)
unfolding byte_to_sector
byte_to_sector_lem inode device offset (h, k) l =
    let low : inode.disk_inode.start + offset / 512 < device.size = omega arith in
    (chosen _ (lt→ltb offset (inode_length inode) l) ∙ omega arith, low)
