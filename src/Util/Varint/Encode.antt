-- ===== src/Util/Varint/Encode.antt =====
-- What `tdb_put_varint` writes.
use transaction_db.Base.{ℕ, zero, suc, ◌+◌, ◌/◌, ◌^◌, ◌≤◌, ◌<◌, ◌≡◌, arith, length, All}
use transaction_db.Base.Bits.{set_top_bit}
use transaction_db.Util.Varint.{
  IsByte, IsU64, varint_len_loop, varint_len, put_varint_loop, put_varint,
}
use transaction_db.Base.Order.{lt_wf}
use mathlib.Core.WellFounded.{Acc}

-- A number below 128 ^ (k + 1) takes at most k + 1 bytes.
length-put_varint_loop :
    (k v : ℕ) (w : Acc ◌<◌ v)
    → v < 128 ^ suc k
    → (1 ≤ length (put_varint_loop v w)) × (length (put_varint_loop v w) ≤ suc k)
unfolding put_varint_loop
length-put_varint_loop zero v (Acc.intro _ smaller) h = grind arith
length-put_varint_loop (suc k) v (Acc.intro _ smaller) h =
    grind (arith, λ (w : Acc ◌<◌ (v / 128)). length-put_varint_loop k (v / 128) w (omega arith))

pub length-put_varint :
    (v : ℕ) → IsU64 v → (1 ≤ length (put_varint v)) × (length (put_varint v) ≤ 10)
unfolding put_varint
length-put_varint v h = length-put_varint_loop 9 v _ (omega arith)

put_varint_loop-IsByte :
    (k v : ℕ) (w : Acc ◌<◌ v) → v < 128 ^ suc k → All IsByte (put_varint_loop v w)
unfolding put_varint_loop
put_varint_loop-IsByte zero v (Acc.intro _ smaller) h = grind arith
put_varint_loop-IsByte (suc k) v (Acc.intro _ smaller) h = grind (
  arith,
  set_top_bit v,
  λ (w : Acc ◌<◌ (v / 128)). put_varint_loop-IsByte k (v / 128) w (omega arith),
)

pub put_varint-IsByte : (v : ℕ) → IsU64 v → All IsByte (put_varint v)
unfolding put_varint
put_varint-IsByte v h = put_varint_loop-IsByte 9 v _ (omega arith)

varint_len_loop-length :
    (k n v : ℕ) (w w' : Acc ◌<◌ v)
    → v < 128 ^ suc k
    → varint_len_loop (n + 1) v w ≡ n + length (put_varint_loop v w')
unfolding varint_len_loop put_varint_loop
varint_len_loop-length zero n v (Acc.intro _ s) (Acc.intro _ s') h = grind arith
varint_len_loop-length (suc k) n v (Acc.intro _ s) (Acc.intro _ s') h = grind (
  arith,
  λ (w : Acc ◌<◌ (v / 128)) (w' : Acc ◌<◌ (v / 128)).
      varint_len_loop-length k (n + 1) (v / 128) w w' (omega arith),
)

-- For a `uint64_t`, `tdb_varint_len` is the number of bytes that `tdb_put_varint` writes.
pub varint_len-length : (v : ℕ) → IsU64 v → varint_len v ≡ length (put_varint v)
unfolding varint_len put_varint
varint_len-length v h =
    omega (arith, varint_len_loop-length 9 0 v (lt_wf.apply v) (lt_wf.apply v) (omega arith))
