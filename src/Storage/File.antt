-- ===== src/Storage/File.antt =====
-- storage/tdb_file.h and storage/tdb_file.c: what the pager and the log call of a file, and the file in
-- memory. The file of the operating system is input and output, and is not modelled.
pub mod Memory
use transaction_db.Base.{
  ℕ, zero, suc, ◌+◌, ◌-◌, ◌*◌, ◌%◌, ◌^◌, ◌⊎◌, min, Bool, Option, none, some, List, ◌++◌, length,
  take, drop, replicate, leb, ltb, ◌==◌, if◌then◌else◌,
}
use transaction_db.Status.{Failure, nomem}

-- `tdb_vfs` as the code calls it: a read gives the bytes it put into the buffer.
pub record FileOps : Type 1 where
  pub State : Type 0
  pub read : State → ℕ → ℕ → Failure ⊎ List ℕ
  pub write : State → List ℕ → ℕ → Option Failure × State
  pub sync : State → Option Failure × State
  pub truncate : State → ℕ → Option Failure × State
  pub file_size : State → Failure ⊎ ℕ

-- `n` bytes from `off` on of the bytes `p`, with zeros behind their end.
unfoldable pub read_bytes : List ℕ → ℕ → ℕ → List ℕ
read_bytes p n off = let q = take n (drop off p) in q ++ replicate (n - length q) 0

-- `mem_handle`: `bytes` is all of the buffer, so `cap` is its length.
pub record MemHandle : Type 0 where
  pub bytes : List ℕ
  pub size : ℕ

-- `while (cap < need) cap *= 2;` with fuel, on the wrapping arithmetic of `uint64_t`.
unfoldable pub mem_cap : ℕ → ℕ → ℕ → Option ℕ
mem_cap zero cap need = none
mem_cap (suc f) cap need =
    let rest = mem_cap f (cap * 2 % 2 ^ 64) need in if ltb cap need then rest else some cap

-- The loop of `mem_grow` and what follows it; `none` where the loop does not end.
unfoldable pub mem_extend : (ℕ → Bool) → MemHandle → Option ℕ → Option (Option Failure × MemHandle)
mem_extend alloc h none = none
mem_extend alloc h (some cap) =
    if alloc cap
    then some (none, record h { bytes = h.bytes ++ replicate (cap - length h.bytes) 0 })
    else some (some nomem, h)

unfoldable pub mem_grow : (ℕ → Bool) → MemHandle → ℕ → Option (Option Failure × MemHandle)
mem_grow alloc h need =
    let cap = length h.bytes in
    if leb need cap
    then some (none, h)
    else mem_extend alloc h (mem_cap 65 (if cap == 0 then 4096 else cap) need)

unfoldable pub mem_read : MemHandle → ℕ → ℕ → List ℕ
mem_read h n off =
    let copy = min (h.size - off) n in
    if leb h.size off then replicate n 0 else take copy (drop off h.bytes) ++ replicate (n - copy) 0

-- `memcpy` into the buffer.
unfoldable pub overwrite : List ℕ → ℕ → List ℕ → List ℕ
overwrite p off q = take off p ++ (q ++ drop (off + length q) p)

unfoldable pub mem_store : List ℕ → ℕ → Option Failure × MemHandle → Option Failure × MemHandle
mem_store p off (some e, h) = (some e, h)
mem_store p off (none, h) = (
  none,
  record {
    bytes = overwrite h.bytes off p;
    size = (if ltb h.size (off + length p) then off + length p else h.size);
  },
)

unfoldable pub mem_write : (ℕ → Bool) → MemHandle → List ℕ → ℕ → Option (Option Failure × MemHandle)
mem_write alloc h p off = elim (mem_grow alloc h (off + length p)) [
  | none ↦ none
  | some r ↦ some (mem_store p off r)
]

unfoldable pub mem_truncate : MemHandle → ℕ → MemHandle
mem_truncate h size = if ltb size h.size then record h { size = size } else h
