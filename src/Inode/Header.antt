-- ===== src/Inode/Header.antt =====
-- The header and the zeros of a new file, for inode_create of filesys/inode.c.
use tony_henry_niklas.Block.{Block}
use tony_henry_niklas.Block.Byte.{byte_of, IsWhole, block_write_lem}
use tony_henry_niklas.Inode.{InodeDisk}
use tony_henry_niklas.Inode.Table.{word_bytes, word_at, to_sector, of_sector, write_zeros}
use tony_henry_niklas.Common.{length-replicate}
use tony_henry_niklas.Common.{
  ℕ, zero, suc, ◌+◌, ◌*◌, ◌/◌, ◌%◌, ◌^◌, ◌≤◌, ◌<◌, ◌≡◌, refl, ap, ◌∙◌, ◌&&◌, List, Option, some,
  arith, ltb, leb, ◌==◌, and_then, if◌then◌else◌, length, get_elem?, replicate,
}

word_lem :
    (w : ℕ)
    → w < 2 ^ 32
    → w % 256 + 256 * (w / 256 % 256) + 65536 * (w / 65536 % 256) + 16777216 * (w / 16777216 % 256)
      ≡ w
word_lem w h = omega arith

-- A header is read back from its sector as it was written.
pub of_sector-to_sector :
    (d : InodeDisk)
    → d.start < 2 ^ 32
    → d.length < 2 ^ 32
    → d.magic < 2 ^ 32
    → (length (to_sector d) ≡ 512) × (of_sector (to_sector d) ≡ d)
unfolding to_sector of_sector word_at word_bytes
of_sector-to_sector d s l m = (
  omega (arith, length-replicate {A = ℕ} 500 0),
  ap (λ x. record { start = x; length = word_at (to_sector d) 4; magic = word_at (to_sector d) 8 })
        (word_lem d.start s)
      ∙ ap (λ x. record { start = d.start; length = x; magic = word_at (to_sector d) 8 })
          (word_lem d.length l)
      ∙ ap (λ x. record { start = d.start; length = d.length; magic = x }) (word_lem d.magic m),
)

get_elem?-replicate : (n : ℕ) (a : ℕ) (i : ℕ) → i < n → get_elem? (replicate n a) i ≡ some a
get_elem?-replicate zero a i h = absurd (omega arith)
get_elem?-replicate (suc n) a zero h = refl
get_elem?-replicate (suc n) a (suc i) h = get_elem?-replicate n a i (omega arith)

-- The bytes of the sectors from `s` on are zero, and no others have changed.
abbrev pub zeroed : List (List ℕ) → ℕ → ℕ → ℕ → Option ℕ
zeroed sectors s n q =
    if leb (s * 512) q && ltb q (s * 512 + n * 512) then some 0 else byte_of sectors q

-- The first sector, then the others.
zero_step :
    (s n q : ℕ) (x y z : Option ℕ)
    → x ≡ (if leb ((s + 1) * 512) q && ltb q ((s + 1) * 512 + n * 512) then some 0 else y)
    → y ≡ (if q / 512 == s then some 0 else z)
    → x ≡ (if leb (s * 512) q && ltb q (s * 512 + suc n * 512) then some 0 else z)
zero_step s n q x y z e e' = ground arith

pub write_zeros_lem :
    (n s : ℕ) (b : Block)
    → IsWhole b
    → s + n ≤ b.size
    → b.size < 2 ^ 32
    → (b' : Block) × (write_zeros n s b ≡ some b')
      × ((q : ℕ) → byte_of b'.sectors q ≡ zeroed b.sectors s n q)
      × (b'.size ≡ b.size)
      × IsWhole b'
unfolding write_zeros
write_zeros_lem zero s b w h k = (b, refl, λ q. ground arith, refl, w)
write_zeros_lem (suc n) s b w h k =
    let (d, e, put, size, w') =
      block_write_lem b s (replicate 512 0) w (omega arith) (length-replicate {A = ℕ} 512 0) in
    let next : (s + 1) % 2 ^ 32 ≡ s + 1 = omega arith in
    let (b', e', put', size', w'') =
      write_zeros_lem n (s + 1) d w' (omega (arith, size)) (omega (arith, size)) in
    (
      b',
      and_then (λ x. write_zeros n ((s + 1) % 2 ^ 32) x) e ∙ ap (λ i. write_zeros n i d) next ∙ e',
      λ q.
          zero_step s n q (byte_of b'.sectors q) (byte_of d.sectors q) (byte_of b.sectors q)
            (put' q)
            (put q
              ∙ ap (λ z. if q / 512 == s then z else byte_of b.sectors q)
                  (get_elem?-replicate 512 0 (q % 512) (omega arith))),
      size' ∙ size,
      w'',
    )
