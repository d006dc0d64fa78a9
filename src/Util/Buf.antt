-- ===== src/Util/Buf.antt =====
-- src/common/tdb_buf.c: the growable byte buffer. The bytes `data[0 .. len)` are a list, so `len` is
-- its length; what lies in `data[len .. cap)` is not kept. `alloc n` says whether the C library's
-- allocator grants a request for n bytes (src/common/tdb_mem.c passes each request on to it).
pub mod Grow
pub mod Write
use transaction_db.Base.{
  ℕ, zero, suc, ◌+◌, ◌*◌, ◌%◌, ◌^◌, ◌≤◌, Bool, true, false, Option, none, some, List, [], ◌∷◌, ◌++◌,
  length, leb, ltb, ◌==◌, if◌then◌else◌,
}
use transaction_db.Status.{Result, ok, err, stuck, nomem, ◌>>=◌}
use transaction_db.Util.Varint.{put_varint}

-- `tdb_buf`
pub record Buf : Type 0 where
  pub content : List ℕ
  pub cap : ℕ

abbrev pub IsValid : Buf → Type 0
IsValid b = length b.content ≤ b.cap

unfoldable pub init : Buf
init = record { content = []; cap = 0 }

-- `tdb_buf_free` leaves the same empty buffer.
pub free : Buf → Buf
free b = record { content = []; cap = 0 }

pub reset : Buf → Buf
reset b = record b { content = [] }

abbrev pub size_mod : ℕ
size_mod = 2 ^ 64

-- `while (cap < b->len + need) cap *= 2;` with fuel, on the wrapping arithmetic of `size_t`.
grow_loop : ℕ → ℕ → ℕ → Option ℕ
grow_loop zero cap want = none
grow_loop (suc f) cap want =
    let rest = grow_loop f (cap * 2 % size_mod) want in if ltb cap want then rest else some cap

-- Doubling 64 times takes every capacity past the largest `size_t`.
abbrev pub grow_fuel : ℕ
grow_fuel = 65

module _ (alloc : ℕ → Bool) where
  finish_reserve : Buf → Option ℕ → Result Buf
  finish_reserve b none = stuck
  finish_reserve b (some cap) = if alloc cap then ok (record b { cap = cap }) else err nomem

  pub reserve : Buf → ℕ → Result Buf
  reserve b need =
      let want = (length b.content + need) % size_mod in
      if leb want b.cap
      then ok b
      else finish_reserve b (grow_loop grow_fuel (if b.cap == 0 then 64 else b.cap) want)

  pub append : Buf → List ℕ → Result Buf
  append b p = do b' ← reserve b (length p); ok (record b' { content = b'.content ++ p })

  pub putc : Buf → ℕ → Result Buf
  putc b c = do b' ← reserve b 1; ok (record b' { content = b'.content ++ (c ∷ []) })

  pub buf_put_varint : Buf → ℕ → Result Buf
  buf_put_varint b v = do b' ← reserve b 10; ok (record b' { content = b'.content ++ put_varint v })
