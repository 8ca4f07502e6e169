-- ===== src/Inode.antt =====
-- Inodes, filesys/inode.c of OS-lab2-master/pintos/src: where a file lies on the device and how its
-- bytes are read and written. Sizes and offsets are the nonnegative values of off_t. Whether malloc
-- hands out the bounce buffer is an argument. A fault, a panic or a loop without end is `none`.
pub mod Access
pub mod Loop
pub mod Read
pub mod Write
pub mod Put
pub mod Empty
pub mod Entries
pub mod Opening
pub mod MapFile
pub mod Header
pub mod Create
pub mod Table
pub mod RoundTrip
use tony_henry_niklas.Block.{Block, block_read, block_write}
use tony_henry_niklas.Strings.Segment.{copy_at}
use tony_henry_niklas.Common.{
  ℕ, zero, suc, ◌+◌, ◌-◌, ◌*◌, ◌/◌, ◌%◌, ◌^◌, ◌≤◌, ◌<◌, ◌≡◌, refl, sym, ap, ◌∙◌, ◌≢◌, ◌↔◌, ◌⊎◌, inl,
  inr, Bool, true, false, ◌&&◌, ◌||◌, not, List, [], ◌∷◌, ◌++◌, map, Option, none, some, arith, ltb,
  leb, ◌==◌, check, passes, chosen, passed_over, and_then, if◌then◌else◌, length, get_elem?, set,
  ◌>>=◌, Bool-cases, Option-cases, subst, fun_ext, ltb→lt, leb→le, lt→ltb, ==_iff, take, drop,
  replicate, length-set, get_elem?-set_self, get_elem?-set_ne, length-append, get_or,
}

-- INODE_MAGIC
abbrev pub inode_magic : ℕ
inode_magic = 1229868868

pub record InodeDisk : Type 0 where
  pub start : ℕ
  pub length : ℕ
  pub magic : ℕ

-- `disk_inode` is the field `data`. The list of the open inodes stands for `elem`.
pub record Inode : Type 0 where
  pub sector : ℕ
  pub open_cnt : ℕ
  pub removed : Bool
  pub deny_write_cnt : ℕ
  pub disk_inode : InodeDisk

-- DIV_ROUND_UP (size, BLOCK_SECTOR_SIZE)
abbrev pub bytes_to_sectors : ℕ → ℕ
bytes_to_sectors size = (size + 512 - 1) / 512

unfoldable pub byte_to_sector : Inode → ℕ → ℕ
byte_to_sector inode pos =
    if ltb pos inode.disk_inode.length
    then (inode.disk_inode.start + pos / 512) % 2 ^ 32
    else 2 ^ 32 - 1

abbrev pub inode_length : Inode → ℕ
inode_length inode = inode.disk_inode.length

-- Where `offset` is behind the end, `inode_left` is negative in the code and 0 here: the loops stop.
unfoldable pub chunk_size : Inode → ℕ → ℕ → ℕ
chunk_size inode size offset =
    let sector_ofs : ℕ = offset % 512 in
    let inode_left : ℕ = inode_length inode - offset in
    let sector_left : ℕ = 512 - sector_ofs in
    let min_left : ℕ = if ltb inode_left sector_left then inode_left else sector_left in
    if ltb size min_left then size else min_left

-- The variables of the two loops: the caller's buffer, `bytes_read` or `bytes_written`, whether
-- `bounce` is there, and the device.
pub record Transfer : Type 0 where
  pub buffer : List ℕ
  pub bytes : ℕ
  pub bounced : Bool
  pub device : Block

unfoldable pub read_full : Inode → ℕ → ℕ → Transfer → Option (Option (ℕ × Transfer))
read_full inode chunk offset t = block_read t.device (byte_to_sector inode offset) >>= λ r.
    copy_at t.buffer t.bytes r.0 0 512 >>= λ buffer. some (
      some (
        chunk,
        record { buffer = buffer; bytes = t.bytes + chunk; bounced = t.bounced; device = r.1 },
      ))

unfoldable pub read_part : Inode → ℕ → ℕ → Transfer → Option (Option (ℕ × Transfer))
read_part inode chunk offset t = block_read t.device (byte_to_sector inode offset) >>= λ r.
    copy_at t.buffer t.bytes r.0 (offset % 512) chunk >>= λ buffer. some (
      some
        (chunk, record { buffer = buffer; bytes = t.bytes + chunk; bounced = true; device = r.1 }))

-- One round, with the size of the chunk; `none` inside stands for `break`. The first argument is
-- whether there is memory for the bounce buffer.
unfoldable pub read_round : Bool → Inode → ℕ → ℕ → Transfer → Option (Option (ℕ × Transfer))
read_round memory inode size offset t =
    let chunk : ℕ = chunk_size inode size offset in
    if chunk == 0
    then some none
    else if offset % 512 == 0 && chunk == 512
    then read_full inode chunk offset t
    else if t.bounced || memory
    then read_part inode chunk offset t
    else some none

-- The bytes of `buffer + i`, as many as are written.
unfoldable pub span : List ℕ → ℕ → ℕ → Option (List ℕ)
span buffer i n = if leb (i + n) (length buffer) then some (take n (drop i buffer)) else none

unfoldable pub write_full : Inode → ℕ → ℕ → Transfer → Option (Option (ℕ × Transfer))
write_full inode chunk offset t = span t.buffer t.bytes 512 >>= λ sector.
    block_write t.device (byte_to_sector inode offset) sector >>= λ device.
    some (some (chunk, record t { bytes = t.bytes + chunk; device = device }))

-- What the bounce buffer holds before the chunk is copied into it, and the device.
unfoldable pub fill_bounce : Inode → ℕ → ℕ → Block → Option (List ℕ × Block)
fill_bounce inode chunk offset device =
    let sector_left : ℕ = 512 - offset % 512 in
    if ltb 0 (offset % 512) || ltb chunk sector_left
    then block_read device (byte_to_sector inode offset)
    else some (replicate 512 0, device)

unfoldable pub write_part : Inode → ℕ → ℕ → Transfer → Option (Option (ℕ × Transfer))
write_part inode chunk offset t = fill_bounce inode chunk offset t.device >>= λ r.
    copy_at r.0 (offset % 512) t.buffer t.bytes chunk >>= λ bounce.
    block_write r.1 (byte_to_sector inode offset) bounce >>= λ device.
    some (some (chunk, record t { bytes = t.bytes + chunk; bounced = true; device = device }))

unfoldable pub write_round : Bool → Inode → ℕ → ℕ → Transfer → Option (Option (ℕ × Transfer))
write_round memory inode size offset t =
    let chunk : ℕ = chunk_size inode size offset in
    if chunk == 0
    then some none
    else if offset % 512 == 0 && chunk == 512
    then write_full inode chunk offset t
    else if t.bounced || memory
    then write_part inode chunk offset t
    else some none

abbrev pub Round : Type 0
Round = ℕ → ℕ → Transfer → Option (Option (ℕ × Transfer))

abbrev pub after_round :
    (ℕ → ℕ → Transfer → Option Transfer)
    → ℕ
    → ℕ
    → Transfer
    → Option (ℕ × Transfer)
    → Option Transfer
after_round loop size offset t none = some t
after_round loop size offset t (some (chunk, t')) = loop (size - chunk) (offset + chunk) t'

-- `while (size > 0)`, with the rounds left.
unfoldable pub transfer : ℕ → Round → ℕ → ℕ → Transfer → Option Transfer
transfer zero round size offset t = if size == 0 then some t else none
transfer (suc rounds) round size offset t =
    if size == 0
    then some t
    else (round size offset t >>= after_round (transfer rounds round) size offset t)

abbrev pub before : List ℕ → Block → Transfer
before buffer device = record { buffer = buffer; bytes = 0; bounced = false; device = device }

-- The result has the returned count, the buffer and the device.
unfoldable pub inode_read_at : Bool → Inode → List ℕ → ℕ → ℕ → Block → Option (ℕ × List ℕ × Block)
inode_read_at memory inode buffer size offset device =
    transfer size (read_round memory inode) size offset (before buffer device) >>= λ t.
    some (t.bytes, t.buffer, t.device)

unfoldable pub inode_write_at : Bool → Inode → List ℕ → ℕ → ℕ → Block → Option (ℕ × Block)
inode_write_at memory inode buffer size offset device =
    if not (inode.deny_write_cnt == 0)
    then some (0, device)
    else (transfer size (write_round memory inode) size offset (before buffer device) >>= λ t.
        some (t.bytes, t.device))
