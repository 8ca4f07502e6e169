-- ===== src/Inode/Put.antt =====
-- What one round of the loop in inode_write_at of filesys/inode.c writes.
use tony_henry_niklas.Block.{Block, block_read, block_write}
use tony_henry_niklas.Block.Byte.{byte_of, IsWhole, block_read_lem, block_write_lem}
use tony_henry_niklas.Strings.Segment.{copy_at, copy_at_lem, get_elem?-take, get_elem?-drop}
use tony_henry_niklas.Inode.{
  Inode, Transfer, inode_length, byte_to_sector, span, write_full, write_part, fill_bounce,
}
use tony_henry_niklas.Inode.Access.{Lies, address, byte_to_sector_lem}
use tony_henry_niklas.Common.{length-take, length-drop}
use tony_henry_niklas.Common.{
  ℕ, ◌+◌, ◌-◌, ◌*◌, ◌/◌, ◌%◌, ◌≤◌, ◌<◌, ◌≡◌, refl, sym, ap, ◌∙◌, inl, inr, Bool, true, false, ◌&&◌,
  ◌||◌, List, Option, none, some, arith, ltb, leb, ◌==◌, chosen, passed_over, and_then,
  if◌then◌else◌, length, get_elem?, ◌>>=◌, Bool-cases, take, drop,
}

-- Byte `q` of the device after `n` bytes of the buffer from `at` on have come to `a`.
abbrev pub stored : List ℕ → ℕ → List (List ℕ) → ℕ → ℕ → ℕ → Option ℕ
stored buffer at sectors a n q =
    if leb a q && ltb q (a + n) then get_elem? buffer (at + (q - a)) else byte_of sectors q

pub record IsWritten (inode : Inode) (t : Transfer) (o n : ℕ) (t' : Transfer) : Type 0 where
  pub count : t'.bytes ≡ t.bytes + n
  pub buffer : t'.buffer ≡ t.buffer
  pub put :
      (q : ℕ)
      → byte_of t'.device.sectors q ≡ stored t.buffer t.bytes t.device.sectors (address inode o) n q
  pub size : t'.device.size ≡ t.device.size
  pub whole : IsWhole t.device → IsWhole t'.device

pub record IsReady (inode : Inode) (size : ℕ) (t : Transfer) : Type 0 where
  pub whole : IsWhole t.device
  pub lies : Lies inode t.device
  pub room : t.bytes + size ≤ length t.buffer

pub stay : (inode : Inode) (t : Transfer) (o : ℕ) → IsWritten inode t o 0 t
stay inode t o = record {
  count = omega arith;
  buffer = refl;
  put = λ q. ground arith;
  size = refl;
  whole = λ w. w;
}

pub join :
    (inode : Inode) (t t' t'' : Transfer) (o c n : ℕ)
    → IsWritten inode t o c t'
    → IsWritten inode t' (o + c) n t''
    → IsWritten inode t o (c + n) t''
join inode t t' t'' o c n r r' = record {
  count = let e = r.count in let e' = r'.count in omega arith;
  buffer = r'.buffer ∙ r.buffer;
  put = λ q. ground (arith, r'.put q, r.put q, r.buffer, r.count);
  size = r'.size ∙ r.size;
  whole = λ w. r'.whole (r.whole w);
}

abbrev pub Written : Inode → ℕ → ℕ → Transfer → ℕ → Option (Option (ℕ × Transfer)) → Type 0
Written inode size o t c r =
    (t' : Transfer) × (r ≡ some (some (c, t')))
    × IsWritten inode t o c t'
    × IsReady inode (size - c) t'

-- The sector goes out with `c` bytes of the buffer from `o % 512` on and the others as they were.
write_sector :
    (inode : Inode) (size o c : ℕ) (t : Transfer) (bounced : Bool) (device : Block)
    (sector : List ℕ)
    → IsReady inode size t
    → o < inode_length inode
    → o % 512 + c ≤ 512
    → c ≤ size
    → IsWhole device
    → device.sectors ≡ t.device.sectors
    → device.size ≡ t.device.size
    → length sector ≡ 512
    → ((k : ℕ)
        → k < 512
        → get_elem? sector k
          ≡ stored t.buffer t.bytes t.device.sectors
              (address inode o)
              c
              ((inode.disk_inode.start + o / 512) * 512 + k))
    → Written inode size o t c (
        block_write device (byte_to_sector inode o) sector >>= λ d. some (
          some
            (c, record { buffer = t.buffer; bytes = t.bytes + c; bounced = bounced; device = d })))
write_sector inode size o c t bounced device sector ok l inside low w same same_size full content =
    let room = ok.room in
    let (place, valid) = byte_to_sector_lem inode t.device o ok.lies l in
    let s : ℕ = inode.disk_inode.start + o / 512 in
    let (d, e, put, size', whole) = block_write_lem device s sector w (omega (arith, valid)) full in
    let done : Block → Option (Option (ℕ × Transfer)) = λ x. some (
      some (c, record { buffer = t.buffer; bytes = t.bytes + c; bounced = bounced; device = x })) in
    (
      record { buffer = t.buffer; bytes = t.bytes + c; bounced = bounced; device = d },
      ap (λ i. block_write device i sector >>= done) place ∙ and_then done e,
      record {
        count = refl;
        buffer = refl;
        put = λ q. elim (Bool-cases (q / 512 == s)) [
          | inl h ↦
              let at : s * 512 + q % 512 ≡ q = ground arith in
              put q
              ∙ chosen (byte_of device.sectors q) h
              ∙ content (q % 512) (omega arith)
              ∙ ap (stored t.buffer t.bytes t.device.sectors (address inode o) c) at
          | inr h ↦
              let apart : (leb (address inode o) q && ltb q (address inode o + c)) ≡ false =
                ground arith in
              put q
              ∙ passed_over (get_elem? sector (q % 512)) h
              ∙ ap (λ x. byte_of x q) same
              ∙ sym (passed_over _ apart)
        ];
        size = size' ∙ same_size;
        whole = λ w. whole;
      },
      record {
        whole = whole;
        lies = let z = size' in (omega (arith, ok.lies.0), omega (arith, ok.lies.1));
        room = omega arith;
      },
    )

-- `stored` by the place in the sector that starts at byte `b`.
stored_at :
    (buffer : List ℕ) (at : ℕ) (sectors : List (List ℕ)) (a b j c k : ℕ)
    → a ≡ b + j
    → stored buffer at sectors a c (b + k) ≡ (
        if leb j k && ltb k (j + c)
        then get_elem? buffer (at + (k - j))
        else byte_of sectors (b + k))
stored_at buffer at sectors a b j c k e = ground arith

stored_whole :
    (buffer : List ℕ) (at : ℕ) (sectors : List (List ℕ)) (a b c k : ℕ)
    → a ≡ b
    → k < c
    → get_elem? buffer (at + k) ≡ stored buffer at sectors a c (b + k)
stored_whole buffer at sectors a b c k e h = ground arith

span_lem :
    (buffer : List ℕ) (i n : ℕ)
    → i + n ≤ length buffer
    → (span buffer i n ≡ some (take n (drop i buffer)))
      × (length (take n (drop i buffer)) ≡ n)
      × ((k : ℕ) → k < n → get_elem? (take n (drop i buffer)) k ≡ get_elem? buffer (i + k))
unfolding span
span_lem buffer i n h =
    let fits : leb (i + n) (length buffer) ≡ true = ground arith in
    let d = length-drop i buffer in
    (
      chosen none fits,
      omega (arith, length-take n (drop i buffer)),
      λ k l. get_elem?-take n (drop i buffer) k l ∙ get_elem?-drop i buffer k,
    )

pub write_whole :
    (inode : Inode) (size o c : ℕ) (t : Transfer)
    → IsReady inode size t
    → o < inode_length inode
    → o % 512 ≡ 0
    → c ≡ 512
    → c ≤ size
    → Written inode size o t c (write_full inode c o t)
unfolding write_full
write_whole inode size o c t ok l aligned full low =
    let room = ok.room in
    let (e, n, content) = span_lem t.buffer t.bytes 512 (omega arith) in
    let sector : List ℕ = take 512 (drop t.bytes t.buffer) in
    let put : List ℕ → Option (Option (ℕ × Transfer)) = λ x.
      block_write t.device (byte_to_sector inode o) x >>= λ d.
      some (some (c, record t { bytes = t.bytes + c; device = d })) in
    let (t', q, moved, ok') =
      write_sector inode size o c t t.bounced t.device sector ok l (omega arith) low ok.whole refl
        refl n
        (λ k h.
          content k h
          ∙ stored_whole t.buffer t.bytes t.device.sectors (address inode o)
              ((inode.disk_inode.start + o / 512) * 512) c k (omega arith) (omega arith)) in
    (t', and_then put e ∙ q, moved, ok')

-- Only a whole sector does not have to be read first.
fill_bounce_lem :
    (inode : Inode) (o c : ℕ) (t : Transfer) (size : ℕ)
    → IsReady inode size t
    → o < inode_length inode
    → ¬ ((o % 512 ≡ 0) × (c ≡ 512))
    → o % 512 + c ≤ 512
    → (sector : List ℕ) × (device : Block) × (fill_bounce inode c o t.device
        ≡ some (sector, device))
      × (length sector ≡ 512)
      × ((k : ℕ)
          → k < 512
          → get_elem? sector k
            ≡ byte_of t.device.sectors ((inode.disk_inode.start + o / 512) * 512 + k))
      × (device.sectors ≡ t.device.sectors)
      × (device.size ≡ t.device.size)
      × IsWhole device
unfolding fill_bounce
fill_bounce_lem inode o c t size ok l part inside =
    let (place, valid) = byte_to_sector_lem inode t.device o ok.lies l in
    let s : ℕ = inode.disk_inode.start + o / 512 in
    let (sector, device, e, n, content, same, same_size, whole) =
      block_read_lem t.device s ok.whole valid in
    let partial : (ltb 0 (o % 512) || ltb c (512 - o % 512)) ≡ true = ground arith in
    (
      sector,
      device,
      chosen _ partial ∙ ap (block_read t.device) place ∙ e,
      n,
      content,
      same,
      same_size,
      whole,
    )

pub write_some :
    (inode : Inode) (size o c : ℕ) (t : Transfer)
    → IsReady inode size t
    → o < inode_length inode
    → ¬ ((o % 512 ≡ 0) × (c ≡ 512))
    → o % 512 + c ≤ 512
    → c ≤ size
    → Written inode size o t c (write_part inode c o t)
unfolding write_part
write_some inode size o c t ok l part inside low =
    let room = ok.room in
    let (sector, device, e, n, old, same, same_size, whole) =
      fill_bounce_lem inode o c t size ok l part inside in
    let (m, q, keeps, over) =
      copy_at_lem sector (o % 512) t.buffer t.bytes c (omega arith) (omega arith) in
    let put : Block → List ℕ → Option (Option (ℕ × Transfer)) = λ b x.
      block_write b (byte_to_sector inode o) x >>= λ d.
      some (some (c, record t { bytes = t.bytes + c; bounced = true; device = d })) in
    let filled : List ℕ × Block → Option (Option (ℕ × Transfer)) =
      λ r. copy_at r.0 (o % 512) t.buffer t.bytes c >>= put r.1 in
    let (t', p, moved, ok') =
      write_sector inode size o c t true device m ok l inside low whole same same_size (keeps ∙ n)
        (λ k h.
          over k
          ∙ ap
              (λ r.
                if leb (o % 512) k && ltb k (o % 512 + c)
                then get_elem? t.buffer (t.bytes + (k - o % 512))
                else r)
              (old k h)
          ∙ sym (
              stored_at t.buffer t.bytes t.device.sectors (address inode o)
                ((inode.disk_inode.start + o / 512) * 512) (o % 512) c k (omega arith))) in
    (t', and_then filled e ∙ and_then (put device) q ∙ p, moved, ok')
