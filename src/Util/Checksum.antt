-- ===== src/Util/Checksum.antt =====
-- src/common/tdb_util.c: the CRC-32C of a byte string by its table, and its FNV-1a hash.
pub mod Laws
use transaction_db.Base.{
  ℕ, zero, suc, ◌+◌, ◌-◌, ◌*◌, ◌/◌, ◌%◌, ◌^◌, bit_and, bit_xor, List, [], ◌∷◌, ◌==◌, if◌then◌else◌,
}

-- One round of the bit loop of `tdb_crc32c_init`.
crc_bit : ℕ → ℕ
crc_bit crc = if bit_and crc 1 == 0 then crc / 2 else bit_xor (crc / 2) 0x82F63B78

crc_bits : ℕ → ℕ → ℕ
crc_bits zero crc = crc
crc_bits (suc k) crc = crc_bits k (crc_bit crc)

-- `tdb__crc32c_table[i]`
crc_table : ℕ → ℕ
unfolding crc_bit crc_bits
crc_table i = crc_bits 8 i

-- `~x` on a `uint32_t`
pub complement : ℕ → ℕ
complement x = 2 ^ 32 - 1 - x % 2 ^ 32

crc_loop : ℕ → List ℕ → ℕ
unfolding crc_table
crc_loop crc [] = crc
crc_loop crc (b ∷ bs) =
    crc_loop (bit_xor (crc_table (bit_and (bit_xor crc b) 0xff)) (crc / 2 ^ 8)) bs

-- `tdb_crc32c`
pub crc32c : ℕ → List ℕ → ℕ
unfolding crc_loop complement
crc32c seed p = complement (crc_loop (complement seed) p)

fnv_loop : ℕ → List ℕ → ℕ
fnv_loop h [] = h
fnv_loop h (b ∷ bs) = fnv_loop (bit_xor h b * 1099511628211 % 2 ^ 64) bs

-- `tdb_fnv1a`
pub fnv1a : List ℕ → ℕ
unfolding fnv_loop
fnv1a p = fnv_loop 1469598103934665603 p
