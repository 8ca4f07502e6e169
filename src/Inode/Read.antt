-- ===== src/Inode/Read.antt =====
-- inode_read_at of filesys/inode.c reads the bytes of the file.
use tony_henry_niklas.Block.{Block, block_read}
use tony_henry_niklas.Block.Byte.{byte_of, IsWhole, block_read_lem}
use tony_henry_niklas.Strings.Segment.{copy_at, copy_at_lem}
use tony_henry_niklas.Inode.{
  Inode, Transfer, inode_length, chunk_size, byte_to_sector, read_full, read_part, read_round,
  before, inode_read_at,
}
use tony_henry_niklas.Inode.Access.{
  Lies, available, address, IsChunk, chunk_size-IsChunk, byte_to_sector_lem,
}
use tony_henry_niklas.Inode.Loop.{Goes, transfer_lem}
use tony_henry_niklas.Common.{
  ℕ, ◌+◌, ◌-◌, ◌*◌, ◌/◌, ◌%◌, ◌≤◌, ◌<◌, ◌≡◌, refl, ap, ◌∙◌, ◌≢◌, inl, inr, Bool, true, ◌&&◌, ◌||◌,
  List, Option, none, some, arith, ltb, leb, ◌==◌, chosen, passed_over, and_then, if◌then◌else◌,
  length, get_elem?, ◌>>=◌, Bool-cases,
}

-- Byte `k` of the buffer after `n` bytes of the device from `q` on have come to `at`.
abbrev pub filled : List ℕ → ℕ → List (List ℕ) → ℕ → ℕ → ℕ → Option ℕ
filled buffer at sectors q n k =
    if leb at k && ltb k (at + n) then byte_of sectors (q + (k - at)) else get_elem? buffer k

pub record IsRead (inode : Inode) (t : Transfer) (o n : ℕ) (t' : Transfer) : Type 0 where
  pub count : t'.bytes ≡ t.bytes + n
  pub room : length t'.buffer ≡ length t.buffer
  pub got :
      (k : ℕ)
      → get_elem? t'.buffer k ≡ filled t.buffer t.bytes t.device.sectors (address inode o) n k
  pub kept : t'.device.sectors ≡ t.device.sectors
  pub size : t'.device.size ≡ t.device.size
  pub whole : IsWhole t.device → IsWhole t'.device

pub record IsReady (inode : Inode) (size : ℕ) (t : Transfer) : Type 0 where
  pub whole : IsWhole t.device
  pub lies : Lies inode t.device
  pub room : t.bytes + size ≤ length t.buffer

stay : (inode : Inode) (t : Transfer) (o : ℕ) → IsRead inode t o 0 t
stay inode t o = record {
  count = omega arith;
  room = refl;
  got = λ k. ground arith;
  kept = refl;
  size = refl;
  whole = λ w. w;
}

join :
    (inode : Inode) (t t' t'' : Transfer) (o c n : ℕ)
    → IsRead inode t o c t'
    → IsRead inode t' (o + c) n t''
    → IsRead inode t o (c + n) t''
join inode t t' t'' o c n r r' = record {
  count = let e = r.count in let e' = r'.count in omega arith;
  room = r'.room ∙ r.room;
  got = λ k. ground (arith, r'.got k, r.got k, r.kept, r.count);
  kept = r'.kept ∙ r.kept;
  size = r'.size ∙ r.size;
  whole = λ w. r'.whole (r.whole w);
}

abbrev Read : Inode → ℕ → ℕ → Transfer → ℕ → Option (Option (ℕ × Transfer)) → Type 0
Read inode size o t c r =
    (t' : Transfer) × (r ≡ some (some (c, t')))
    × IsRead inode t o c t'
    × IsReady inode (size - c) t'

-- One sector is read and `c` bytes of it from `j` on go to the caller.
fetch :
    (inode : Inode) (size o j n c : ℕ) (t : Transfer) (bounced : Bool)
    → IsReady inode size t
    → o < inode_length inode
    → j ≡ o % 512
    → o % 512 + c ≤ 512
    → c ≤ size
    → n ≡ c
    → Read inode size o t c (
        block_read t.device (byte_to_sector inode o) >>= λ r.
        copy_at t.buffer t.bytes r.0 j n >>= λ buffer. some (
          some
            (c, record { buffer = buffer; bytes = t.bytes + c; bounced = bounced; device = r.1 })))
fetch inode size o j n c t bounced ok l at inside low exact =
    let room = ok.room in
    let (place, valid) = byte_to_sector_lem inode t.device o ok.lies l in
    let s : ℕ = inode.disk_inode.start + o / 512 in
    let (sector', b', e, full, got, same, size', whole) =
      block_read_lem t.device s ok.whole valid in
    let (m, q, same_room, over) =
      copy_at_lem t.buffer t.bytes sector' j n (omega arith) (omega arith) in
    let done : Block → List ℕ → Option (Option (ℕ × Transfer)) = λ device buffer. some (
      some
        (c, record { buffer = buffer; bytes = t.bytes + c; bounced = bounced; device = device })) in
    let copied : List ℕ × Block → Option (Option (ℕ × Transfer)) =
      λ r. copy_at t.buffer t.bytes r.0 j n >>= done r.1 in
    (
      record { buffer = m; bytes = t.bytes + c; bounced = bounced; device = b' },
      ap (λ i. block_read t.device i >>= copied) place ∙ and_then copied e ∙ and_then (done b') q,
      record {
        count = refl;
        room = same_room;
        got = λ k.
            let near : k - t.bytes < c → j + (k - t.bytes) < 512 = λ h. omega arith in
            let spot : s * 512 + (j + (k - t.bytes)) ≡ address inode o + (k - t.bytes) =
              omega arith in
            ground (arith, over k, got (j + (k - t.bytes)), spot, near, exact);
        kept = same;
        size = size';
        whole = λ w. whole;
      },
      record {
        whole = whole;
        lies = let z = size' in (omega (arith, ok.lies.0), omega (arith, ok.lies.1));
        room = omega (arith, same_room);
      },
    )

goes :
    (memory : Bool) (inode : Inode) (size o : ℕ) (t : Transfer)
    → size ≢ 0
    → IsReady inode size t
    → Goes memory inode (read_round memory inode) (IsReady inode) (IsRead inode) size o t
unfolding read_round read_full read_part
goes memory inode size o t z ok =
    let chunk : ℕ = chunk_size inode size o in
    let is : IsChunk inode size o chunk = chunk_size-IsChunk inode size o in
    let full : Option (Option (ℕ × Transfer)) = read_full inode chunk o t in
    let part : Option (Option (ℕ × Transfer)) = read_part inode chunk o t in
    let stop : Option (Option (ℕ × Transfer)) = some none in
    let bounce : Option (Option (ℕ × Transfer)) = if t.bounced || memory then part else stop in
    let some_chunk : Option (Option (ℕ × Transfer)) =
      if o % 512 == 0 && chunk == 512 then full else bounce in
    elim (Bool-cases (chunk == 0)) [
      | inl e ↦ inl (chosen some_chunk e, inl (ground (arith, is.progress)))
      | inr e ↦
          let nonzero : chunk ≢ 0 = λ p. absurd (ground arith) in
          let least = is.asked in
          let before_end : o < inode_length inode = ground arith in
          let low : chunk ≤ size = ground arith in
          elim (Bool-cases (o % 512 == 0 && chunk == 512)) [
            | inl f ↦
                let aligned : 0 ≡ o % 512 = ground arith in
                let (t', q, moved, ok') =
                  fetch inode size o 0 512 chunk t t.bounced ok before_end aligned is.inside low
                    (ground arith) in
                inr
                  (chunk, t', passed_over stop e ∙ chosen bounce f ∙ q, nonzero, least, moved, ok')
            | inr f ↦ elim (Bool-cases (t.bounced || memory)) [
              | inl g ↦
                  let (t', q, moved, ok') =
                    fetch inode size o (o % 512) chunk chunk t true ok before_end refl is.inside low
                      refl in
                  inr (
                    chunk,
                    t',
                    passed_over stop e ∙ passed_over full f ∙ chosen stop g ∙ q,
                    nonzero,
                    least,
                    moved,
                    ok',
                  )
              | inr g ↦
                  inl (
                    passed_over stop e ∙ passed_over full f ∙ passed_over part g,
                    inr (ground arith),
                  )
            ]
          ]
    ]

-- inode_read_at from an inode whose sectors lie on a whole device fails no assertion and ends;
-- it returns a number n of bytes, at most what is asked for and what the file has left, and
-- equal to the lesser of these where there is memory for the bounce buffer; the first n bytes of
-- the buffer become the bytes of the file from the offset on, the others stay, and so do the
-- sectors.
pub inode_read_at_lem :
    (memory : Bool) (inode : Inode) (buffer : List ℕ) (size offset : ℕ) (device : Block)
    → IsWhole device
    → Lies inode device
    → size ≤ length buffer
    → (n : ℕ) × (buffer' : List ℕ) × (device' : Block) × (inode_read_at memory inode buffer size
          offset device
        ≡ some (n, buffer', device'))
      × (n ≤ available inode size offset)
      × (memory ≡ true → n ≡ available inode size offset)
      × (length buffer' ≡ length buffer)
      × ((k : ℕ) → get_elem? buffer' k ≡ filled buffer 0 device.sectors (address inode offset) n k)
      × (device'.sectors ≡ device.sectors)
      × (device'.size ≡ device.size)
      × IsWhole device'
unfolding inode_read_at
inode_read_at_lem memory inode buffer size offset device w l h =
    let t : Transfer = before buffer device in
    let ok : IsReady inode size t = record { whole = w; lies = l; room = omega (arith, h) } in
    let (n, t', q, most, all, r) =
      transfer_lem memory inode (read_round memory inode) (IsReady inode) (IsRead inode)
        (stay inode) (join inode) (goes memory inode) size size offset t (omega arith) ok in
    let e : t'.bytes ≡ n = omega (arith, r.count) in
    let answer : Transfer → Option (ℕ × List ℕ × Block) = λ u. some (u.bytes, u.buffer, u.device) in
    (
      n,
      t'.buffer,
      t'.device,
      and_then answer q ∙ ap (λ i. some (i, t'.buffer, t'.device)) e,
      most,
      all,
      r.room,
      r.got,
      r.kept,
      r.size,
      r.whole w,
    )
