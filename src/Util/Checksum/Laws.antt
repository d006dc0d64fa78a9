-- ===== src/Util/Checksum/Laws.antt =====
-- The checksum can be computed piece by piece, which is how the log checks a frame and its header.
use transaction_db.Base.{
  ℕ, zero, suc, ◌/◌, ◌^◌, ◌<◌, ◌≡◌, refl, List, [], ◌∷◌, ◌++◌, arith, bit_and, bit_xor,
}
use transaction_db.Base.Bits.{bit_xor-lt, bit_and-lt}
use transaction_db.Util.Checksum.{complement, crc_bit, crc_bits, crc_table, crc_loop, crc32c}

abbrev pub IsU32 : ℕ → Type 0
IsU32 v = v < 2 ^ 32

crc_bit-IsU32 : (c : ℕ) → IsU32 c → IsU32 (crc_bit c)
unfolding crc_bit
crc_bit-IsU32 c h = ground (arith, bit_xor-lt 32 (c / 2) 0x82F63B78)

crc_bits-IsU32 : (k c : ℕ) → IsU32 c → IsU32 (crc_bits k c)
unfolding crc_bits
crc_bits-IsU32 zero c h = h
crc_bits-IsU32 (suc k) c h = crc_bits-IsU32 k (crc_bit c) (crc_bit-IsU32 c h)

-- One round of the byte loop.
abbrev next : ℕ → ℕ → ℕ
next crc b = bit_xor (crc_table (bit_and (bit_xor crc b) 0xff)) (crc / 2 ^ 8)

crc_loop-append : (p q : List ℕ) (crc : ℕ) → crc_loop crc (p ++ q) ≡ crc_loop (crc_loop crc p) q
unfolding crc_loop
crc_loop-append [] q crc = refl
crc_loop-append (b ∷ bs) q crc = crc_loop-append bs q (next crc b)

crc_table-IsU32 : (a : ℕ) → IsU32 (crc_table (bit_and a 0xff))
unfolding crc_table
crc_table-IsU32 a =
    crc_bits-IsU32 8 (bit_and a 0xff) (omega (arith, bit_and-lt 8 a 0xff (omega arith)))

crc_loop-IsU32 : (p : List ℕ) (crc : ℕ) → IsU32 crc → IsU32 (crc_loop crc p)
unfolding crc_loop
crc_loop-IsU32 [] crc h = h
crc_loop-IsU32 (b ∷ bs) crc h = crc_loop-IsU32 bs (next crc b) (
    bit_xor-lt 32 (crc_table (bit_and (bit_xor crc b) 0xff)) (crc / 2 ^ 8)
      (crc_table-IsU32 (bit_xor crc b)) (omega arith))

complement-complement : (x : ℕ) → IsU32 x → complement (complement x) ≡ x
unfolding complement
complement-complement x h = omega arith

complement-IsU32 : (x : ℕ) → IsU32 (complement x)
unfolding complement
complement-IsU32 x = omega arith

-- The CRC-32C of a concatenation is that of the second part with the CRC-32C of the first as its
-- seed, and it is a `uint32_t`.
pub crc32c-append :
    (seed : ℕ) (p q : List ℕ)
    → (crc32c seed (p ++ q) ≡ crc32c (crc32c seed p) q) × IsU32 (crc32c seed (p ++ q))
unfolding crc32c
crc32c-append seed p q =
    let start = complement-IsU32 seed in
    let first = crc_loop-IsU32 p (complement seed) start in
    (
      rw (
        crc_loop-append p q (complement seed),
        complement-complement (crc_loop (complement seed) p) first,
      ),
      complement-IsU32 (crc_loop (complement seed) (p ++ q)),
    )

-- The code computes the published check value of CRC-32C.
crc32c_check_value :
    crc32c 0 (b'1' ∷ b'2' ∷ b'3' ∷ b'4' ∷ b'5' ∷ b'6' ∷ b'7' ∷ b'8' ∷ b'9' ∷ []) ≡ 0xE3069283
unfolding crc32c crc_table
crc32c_check_value = refl
