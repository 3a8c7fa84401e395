-- ===== src/Membit.antt =====
-- The pool of equal blocks of mg/source/membit.c. A block is named by its offset behind the pool's
-- head; a set bit of the mask is a free block. `pool` is not null; `heap_malloc` is a Bool.
pub mod Bits
pub mod Blocks
use cc_rpc.Base.{
  ℕ, zero, suc, ◌+◌, ◌-◌, ◌*◌, ◌/◌, ◌%◌, ◌^◌, Bool, true, false, not, Option, none, some, ltb, ◌==◌,
  if◌then◌else◌, Outcome, done, fault,
}

-- Bit `i` of `m`, `m & ~(1u << i)`, `m | (1u << i)`, one binary digit after the other.
unfoldable pub bit : ℕ → ℕ → Bool
bit zero m = m % 2 == 1
bit (suc i) m = bit i (m / 2)

unfoldable pub clear_bit : ℕ → ℕ → ℕ
clear_bit zero m = m / 2 * 2
clear_bit (suc i) m = clear_bit i (m / 2) * 2 + m % 2

unfoldable pub set_bit : ℕ → ℕ → ℕ
set_bit zero m = m / 2 * 2 + 1
set_bit (suc i) m = set_bit i (m / 2) * 2 + m % 2

-- `__builtin_ctz` of a number that is not 0 and has at most `width` bits.
unfoldable pub lowbit_index : ℕ → ℕ → ℕ
lowbit_index zero m = 0
lowbit_index (suc width) m =
    let rest = lowbit_index width (m / 2) in if m % 2 == 1 then 0 else suc rest

pub record MembitPool : Type 0 where
  pub bitmask : ℕ
  pub block_size : ℕ
  pub count : ℕ

-- The size is a `uint16_t`, and so is its round-up.
unfoldable pub round_up : ℕ → ℕ
round_up size = if size % 8 == 0 then size else ((size + 7) % 2 ^ 16) / 8 * 8

unfoldable pub full_mask : ℕ → ℕ
full_mask count = if count == 32 then 0xFFFFFFFF else 2 ^ count - 1

unfoldable pub membit_create : Bool → ℕ → ℕ → Option MembitPool
unfolding round_up full_mask
membit_create granted size count =
    let count' = if ltb 32 count then 32 else count in
    if not granted
    then none
    else some (record { bitmask = full_mask count'; block_size = round_up size; count = count' })

-- The offset of the block, and the pool after it.
unfoldable pub membit_alloc : MembitPool → Option (ℕ × MembitPool)
membit_alloc pool =
    let idx = lowbit_index 32 pool.bitmask in
    if pool.bitmask == 0
    then none
    else some (pool.block_size * idx, record pool { bitmask = clear_bit idx pool.bitmask })

-- `off` is `(size_t)addr - ((size_t)pool + head_size)`, and `idx` a `uint8_t`. A division by 0 and
-- a shift by 32 or more are undefined.
unfoldable pub membit_free : MembitPool → ℕ → Outcome MembitPool
membit_free pool off =
    let idx = (off / pool.block_size) % 2 ^ 8 in
    if pool.block_size == 0
    then fault
    else (if ltb idx 32 then done (record pool { bitmask = set_bit idx pool.bitmask }) else fault)

unfoldable pub membit_reset : MembitPool → MembitPool
unfolding full_mask
membit_reset pool = record pool { bitmask = full_mask pool.count }
