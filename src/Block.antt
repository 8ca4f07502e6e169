-- ===== src/Block.antt =====
-- Block devices, devices/block.c of OS-lab2-master/pintos/src. What the driver behind `ops` keeps is
-- the list of the sectors; a fault or a panic is `none`.
pub mod Byte
use tony_henry_niklas.Common.{
  ℕ, zero, suc, ◌+◌, ◌-◌, ◌*◌, ◌/◌, ◌%◌, ◌^◌, ◌≤◌, ◌<◌, ◌≡◌, refl, sym, ap, ◌∙◌, ◌≢◌, ◌↔◌, ◌⊎◌, inl,
  inr, Bool, true, false, ◌&&◌, ◌||◌, not, List, [], ◌∷◌, ◌++◌, map, Option, none, some, arith, ltb,
  leb, ◌==◌, check, passes, chosen, passed_over, and_then, if◌then◌else◌, length, get_elem?, set,
  ◌>>=◌, Bool-cases, Option-cases, subst, fun_ext, ltb→lt, leb→le, lt→ltb, ==_iff, take, drop,
  replicate, length-set, get_elem?-set_self, get_elem?-set_ne, length-append, get_or,
}

pub record Block : Type 0 where
  pub size : ℕ
  -- Whether `type` is BLOCK_FOREIGN.
  pub foreign : Bool
  pub sectors : List (List ℕ)
  pub read_cnt : ℕ
  pub write_cnt : ℕ

-- BLOCK_SECTOR_SIZE of devices/block.h.
abbrev pub sector_size : ℕ
sector_size = 512

-- `check_sector`
abbrev pub check_sector {ℓ} : {A : Type ℓ} → Block → ℕ → Option A → Option A
check_sector block sector k = check (ltb sector block.size) k

-- The pair is what the buffer holds then and the device.
unfoldable pub block_read : Block → ℕ → Option (List ℕ × Block)
block_read block sector = check_sector block sector (
    get_elem? block.sectors sector >>= λ bytes.
    some (bytes, record block { read_cnt = (block.read_cnt + 1) % 2 ^ 64 }))

unfoldable pub block_write : Block → ℕ → List ℕ → Option Block
block_write block sector buffer = check_sector block sector (
    check (not block.foreign) (
      some (record block {
        sectors = set block.sectors sector buffer;
        write_cnt = (block.write_cnt + 1) % 2 ^ 64;
      })))
