-- ===== src/Inode/Write.antt =====
-- inode_write_at of filesys/inode.c writes the bytes of the file and no others.
use tony_henry_niklas.Inode.Put.{stored, IsWritten, IsReady, stay, join, write_whole, write_some}
use tony_henry_niklas.Block.{Block}
use tony_henry_niklas.Block.Byte.{byte_of, IsWhole}
use tony_henry_niklas.Inode.{
  Inode, Transfer, inode_length, chunk_size, write_full, write_part, write_round, before,
  inode_write_at,
}
use tony_henry_niklas.Inode.Access.{Lies, available, address, IsChunk, chunk_size-IsChunk}
use tony_henry_niklas.Inode.Loop.{Goes, transfer_lem}
use tony_henry_niklas.Common.{
  ℕ, ◌%◌, ◌≤◌, ◌<◌, ◌≡◌, ap, ◌∙◌, ◌≢◌, inl, inr, Bool, true, false, ◌&&◌, ◌||◌, not, List, Option,
  none, some, arith, ◌==◌, chosen, passed_over, and_then, if◌then◌else◌, length, Bool-cases,
}

goes :
    (memory : Bool) (inode : Inode) (size o : ℕ) (t : Transfer)
    → size ≢ 0
    → IsReady inode size t
    → Goes memory inode (write_round memory inode) (IsReady inode) (IsWritten inode) size o t
unfolding write_round
goes memory inode size o t z ok =
    let chunk : ℕ = chunk_size inode size o in
    let is : IsChunk inode size o chunk = chunk_size-IsChunk inode size o in
    let full : Option (Option (ℕ × Transfer)) = write_full inode chunk o t in
    let part : Option (Option (ℕ × Transfer)) = write_part inode chunk o t in
    let stop : Option (Option (ℕ × Transfer)) = some none in
    let bounce : Option (Option (ℕ × Transfer)) = if t.bounced || memory then part else stop in
    let some_chunk : Option (Option (ℕ × Transfer)) =
      if o % 512 == 0 && chunk == 512 then full else bounce in
    elim (Bool-cases (chunk == 0)) [
      | inl e ↦ inl (chosen some_chunk e, inl (ground (arith, is.progress)))
      | inr e ↦
          let nonzero : chunk ≢ 0 = λ p. absurd (ground arith) in
          let least = is.asked in
          let before_end : o < inode_length inode = ground arith in
          let low : chunk ≤ size = ground arith in
          elim (Bool-cases (o % 512 == 0 && chunk == 512)) [
            | inl f ↦
                let (t', q, r, ok') =
                  write_whole inode size o chunk t ok before_end (ground arith) (ground arith)
                    low in
                inr (chunk, t', passed_over stop e ∙ chosen bounce f ∙ q, nonzero, least, r, ok')
            | inr f ↦
                let inside = is.inside in
                let partial : ¬ ((o % 512 ≡ 0) × (chunk ≡ 512)) = λ p. absurd (ground arith) in
                elim (Bool-cases (t.bounced || memory)) [
                  | inl g ↦
                      let (t', q, r, ok') =
                        write_some inode size o chunk t ok before_end partial inside low in
                      inr (
                        chunk,
                        t',
                        passed_over stop e ∙ passed_over full f ∙ chosen stop g ∙ q,
                        nonzero,
                        least,
                        r,
                        ok',
                      )
                  | inr g ↦ inl (
                    passed_over stop e ∙ passed_over full f ∙ passed_over part g,
                    inr (ground arith),
                  )
                ]
          ]
    ]

-- inode_write_at to an inode whose sectors lie on a whole device, while no file denies writes,
-- fails no assertion and ends; it returns a number n of bytes, at most what is asked for and
-- what the file has left, and equal to the lesser of these where there is memory for the bounce
-- buffer; exactly the n bytes of the device from the offset in the file on become those of the
-- buffer, and every other byte of the device stays.
pub inode_write_at_lem :
    (memory : Bool) (inode : Inode) (buffer : List ℕ) (size offset : ℕ) (device : Block)
    → IsWhole device
    → Lies inode device
    → size ≤ length buffer
    → inode.deny_write_cnt ≡ 0
    → (n : ℕ) × (device' : Block) × (inode_write_at memory inode buffer size offset device
        ≡ some (n, device'))
      × (n ≤ available inode size offset)
      × (memory ≡ true → n ≡ available inode size offset)
      × ((q : ℕ)
          → byte_of device'.sectors q ≡ stored buffer 0 device.sectors (address inode offset) n q)
      × (device'.size ≡ device.size)
      × IsWhole device'
unfolding inode_write_at
inode_write_at_lem memory inode buffer size offset device w l h d =
    let t : Transfer = before buffer device in
    let ok : IsReady inode size t = record { whole = w; lies = l; room = omega (arith, h) } in
    let (n, t', q, most, all, r) =
      transfer_lem memory inode (write_round memory inode) (IsReady inode) (IsWritten inode)
        (stay inode) (join inode) (goes memory inode) size size offset t (omega arith) ok in
    let e : t'.bytes ≡ n = omega (arith, r.count) in
    let answer : Transfer → Option (ℕ × Block) = λ u. some (u.bytes, u.device) in
    let allowed : not (inode.deny_write_cnt == 0) ≡ false = ground arith in
    (
      n,
      t'.device,
      passed_over _ allowed ∙ and_then answer q ∙ ap (λ i. some (i, t'.device)) e,
      most,
      all,
      r.put,
      r.size,
      r.whole w,
    )
