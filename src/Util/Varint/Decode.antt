-- ===== src/Util/Varint/Decode.antt =====
-- `tdb_get_varint` on any input, well formed or not.
use transaction_db.Base.{
  ℕ, ◌+◌, ◌*◌, ◌%◌, ◌^◌, ◌≤◌, ◌<◌, ◌≡◌, some, List, [], ◌∷◌, ◌++◌, arith, length, bit_and, bit_or,
}
use transaction_db.Base.Bits.{bit_or-lt}
use transaction_db.Util.Varint.{IsU64, get_varint_loop, get_varint}

get_varint_loop_takes :
    (p : List ℕ) (i shift result v n : ℕ)
    → IsU64 result
    → get_varint_loop p i shift result ≡ some (v, n)
    → IsU64 v × (i < n) × (n ≤ 10) × (n ≤ i + length p)
unfolding get_varint_loop
get_varint_loop_takes [] i shift result v n h e = cc
get_varint_loop_takes (b ∷ bs) i shift result v n h e =
    let group : ℕ = bit_and b 0x7f * 2 ^ shift % 2 ^ 64 in
    let stays : bit_or result group < 2 ^ 64 = bit_or-lt 64 result group h (omega arith) in
    ground
      (arith, stays, get_varint_loop_takes bs (i + 1) (shift + 7) (bit_or result group) v n stays)

-- A successful read yields a `uint64_t` and takes 1 to 10 bytes, no more than there are.
pub get_varint_takes :
    (p : List ℕ) (v n : ℕ)
    → get_varint p ≡ some (v, n)
    → IsU64 v × (1 ≤ n) × (n ≤ 10) × (n ≤ length p)
unfolding get_varint
get_varint_takes p v n e = ground (arith, get_varint_loop_takes p 0 0 0 v n (omega arith))

get_varint_loop-append :
    (p more : List ℕ) (i shift result : ℕ) (r : ℕ × ℕ)
    → get_varint_loop p i shift result ≡ some r
    → get_varint_loop (p ++ more) i shift result ≡ some r
unfolding get_varint_loop
get_varint_loop-append [] more i shift result r e = cc
get_varint_loop-append (b ∷ bs) more i shift result r e =
    let result' : ℕ = bit_or result (bit_and b 0x7f * 2 ^ shift % 2 ^ 64) in
    ground (arith, get_varint_loop-append bs more (i + 1) (shift + 7) result' r)

-- A successful read does not depend on what follows the number.
pub get_varint-append :
    (p more : List ℕ) (r : ℕ × ℕ) → get_varint p ≡ some r → get_varint (p ++ more) ≡ some r
unfolding get_varint
get_varint-append p more r e = get_varint_loop-append p more 0 0 0 r e
