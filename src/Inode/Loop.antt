-- ===== src/Inode/Loop.antt =====
-- The `while (size > 0)` loop that inode_read_at and inode_write_at of filesys/inode.c share.
use tony_henry_niklas.Inode.{Inode, Transfer, Round, after_round, transfer}
use tony_henry_niklas.Inode.Access.{available}
use tony_henry_niklas.Common.{
  ℕ, zero, suc, ◌+◌, ◌-◌, ◌≤◌, ◌≡◌, ◌∙◌, ◌≢◌, ◌⊎◌, inl, inr, Bool, true, false, Option, none, some,
  arith, ◌==◌, chosen, passed_over, and_then, Bool-cases, ==_iff,
}

-- `Ok` holds of the size left and the variables before a round, `Moved t o n t'` says what changed when
-- `n` bytes from offset `o` on were transferred.
module _ (memory : Bool) (inode : Inode) (round : Round) (Ok : ℕ → Transfer → Type 0)
    (Moved : Transfer → ℕ → ℕ → Transfer → Type 0) where
  -- A round transfers a chunk, or it ends the loop: everything is there, or memory ran out.
  abbrev pub Goes : ℕ → ℕ → Transfer → Type 0
  Goes size o t =
      ((round size o t ≡ some none) × ((available inode size o ≡ 0) ⊎ (memory ≡ false)))
      ⊎ ((c : ℕ) × (t' : Transfer) × (round size o t ≡ some (some (c, t')))
          × (c ≢ 0)
          × (c ≤ available inode size o)
          × Moved t o c t'
          × Ok (size - c) t')

  abbrev pub Ends : ℕ → ℕ → ℕ → Transfer → Type 0
  Ends rounds size o t =
      (n : ℕ) × (t' : Transfer) × (transfer rounds round size o t ≡ some t')
      × (n ≤ available inode size o)
      × (memory ≡ true → n ≡ available inode size o)
      × Moved t o n t'

module _ (memory : Bool) (inode : Inode) (round : Round) (Ok : ℕ → Transfer → Type 0)
    (Moved : Transfer → ℕ → ℕ → Transfer → Type 0) (stay : (t : Transfer) (o : ℕ) → Moved t o 0 t)
    (join : (t t' t'' : Transfer) (o c n : ℕ)
      → Moved t o c t'
      → Moved t' (o + c) n t''
      → Moved t o (c + n) t'')
    (goes : (size o : ℕ) (t : Transfer)
      → size ≢ 0
      → Ok size t
      → Goes memory inode round Ok Moved size o t) where
  zero_rounds :
      (rounds size o : ℕ) (t : Transfer)
      → size ≡ 0
      → Ends memory inode round Ok Moved rounds size o t
  unfolding transfer
  zero_rounds zero size o t z =
      (0, t, chosen _ ((==_iff size 0).1 z), omega arith, λ m. ground arith, stay t o)
  zero_rounds (suc rounds) size o t z =
      (0, t, chosen _ ((==_iff size 0).1 z), omega arith, λ m. ground arith, stay t o)

  next_round :
      (rounds size o : ℕ) (t : Transfer) (r : Option (ℕ × Transfer))
      → size ≢ 0
      → round size o t ≡ some r
      → transfer (suc rounds) round size o t ≡ after_round (transfer rounds round) size o t r
  unfolding transfer
  next_round rounds size o t r z e =
      let nonzero : (size == 0) ≡ false = ground arith in
      passed_over _ nonzero ∙ and_then (after_round (transfer rounds round) size o t) e

  -- As many rounds as there are bytes are enough.
  pub transfer_lem :
      (rounds size o : ℕ) (t : Transfer)
      → size ≤ rounds
      → Ok size t
      → Ends memory inode round Ok Moved rounds size o t
  transfer_lem zero size o t h ok = zero_rounds zero size o t (omega arith)
  transfer_lem (suc rounds) size o t h ok = elim (Bool-cases (size == 0)) [
    | inl e ↦ zero_rounds (suc rounds) size o t ((==_iff size 0).0 e)
    | inr e ↦
        let z : size ≢ 0 = λ p. absurd (ground arith) in
        elim (goes size o t z ok) [
          | inl (q, why) ↦ (
            0,
            t,
            next_round rounds size o t none z q,
            omega arith,
            λ m. ground (arith, why),
            stay t o,
          )
          | inr (c, t', q, progress, most, moved, ok') ↦
              let left : available inode (size - c) (o + c) ≡ available inode size o - c =
                ground arith in
              let (n, t'', q', low, all, moved') =
                transfer_lem rounds (size - c) (o + c) t' (omega arith) ok' in
              (
                c + n,
                t'',
                next_round rounds size o t (some (c, t')) z q ∙ q',
                omega arith,
                λ m. let a = all m in omega arith,
                join t t' t'' o c n moved moved',
              )
        ]
  ]
