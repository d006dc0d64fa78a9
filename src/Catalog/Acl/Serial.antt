-- ===== src/Catalog/Acl/Serial.antt =====
-- catalog/tdb_acl.c: an entry as bytes. The statuses of the writes are ignored, as in the code; a
-- C string stands for its bytes without the NUL.
pub mod RoundTrip
pub mod Escape
use transaction_db.Base.{
  ℕ, zero, suc, ◌+◌, ◌-◌, ◌%◌, ◌^◌, ◌≡◌, Bool, true, false, not, ◌&&◌, ◌||◌, Option, none, some,
  List, [], ◌∷◌, ◌==◌, ltb, leb, if◌then◌else◌, length, take, drop,
}
use transaction_db.Status.{Result, ok, err, stuck}
use transaction_db.Util.Varint.{get_varint}
use transaction_db.Util.Buf.{Buf, append, putc, buf_put_varint}
use transaction_db.Catalog.Acl.{Entry, strdup}

-- The buffer after a write whose status is ignored.
unfoldable pub after : Buf → Result Buf → Buf
after b (ok b') = b'
after b (err e) = b
after b stuck = b

module _ (alloc : ℕ → Bool) where
  unfoldable pub w_str : Buf → Option (List ℕ) → Buf
  w_str b none = after b (buf_put_varint alloc b 0)
  w_str b (some s) =
      let b' = after b (buf_put_varint alloc b (suc (length s))) in after b' (append alloc b' s)

  unfoldable pub entry_serialize : Entry → Buf → Buf
  entry_serialize e b =
      let marked = after b (putc alloc b b'G') in
      let kinded = after marked (append alloc marked (e.kind % 256 ∷ [])) in
      w_str (w_str (w_str kinded e.grantee) e.priv) e.object

-- What `tdb_acl_entry_deserialize` comes to: TDB_OK with the entry, TDB_CORRUPT, or an access outside of
-- the bytes or an overflow, after which nothing is known.
pub data Reading {ℓ} (A : Type ℓ) : Type ℓ where
  done : A → Reading A
  corrupted : Reading A
  escaped : Reading A

-- `tdb_strndup` of a length that is negative by `back`, and the step of the position by it: the size
-- that is asked for wraps, a copy of that many bytes runs out of the memory, and without memory the
-- string is NULL and the position goes back, to `none` if it is before the bytes then.
unfoldable pub step_back : (ℕ → Bool) → ℕ → ℕ → Reading (Option (List ℕ) × Option ℕ)
step_back alloc back pos =
    if alloc ((2 ^ 64 - back + 1) % 2 ^ 64)
    then escaped
    else done (none, (if leb back pos then some (pos - back) else none))

-- One turn of the loop at `pos`: the string, and the new position. A `pos + slen` beyond the largest
-- `int` overflows.
unfoldable pub read_str : (ℕ → Bool) → List ℕ → ℕ → Reading (Option (List ℕ) × Option ℕ)
read_str alloc p pos = elim (get_varint (drop pos p)) [
  | none ↦ corrupted
  | some (zero, a) ↦ done (none, some (pos + a))
  | some (suc l, a) ↦
      let slen = l % 2 ^ 32 in
      if leb (2 ^ 31) slen
      then step_back alloc (2 ^ 32 - slen) (pos + a)
      else if leb (2 ^ 31) (pos + a + slen)
      then escaped
      else if ltb (length p) (pos + a + slen)
      then corrupted
      else done (strdup (alloc (slen + 1)) (take slen (drop (pos + a) p)), some (pos + a + slen))
]

-- The loop over the strings, which ends where the bytes do: `k` strings are still to be read. A turn
-- before the bytes reads outside of them.
unfoldable pub read_strs : (ℕ → Bool) → List ℕ → ℕ → Option ℕ → Reading (List (Option (List ℕ)))
read_strs alloc p zero pos = done []
read_strs alloc p (suc k) none = escaped
read_strs alloc p (suc k) (some pos) =
    if leb (length p) pos then done [] else (elim (read_str alloc p pos) [
      | corrupted ↦ corrupted
      | escaped ↦ escaped
      | done (s, pos') ↦ elim (read_strs alloc p k pos') [
        | corrupted ↦ corrupted
        | escaped ↦ escaped
        | done ss ↦ done (s ∷ ss)
      ]
    ])

-- The strings that were read, in the fields, which start as NULL.
unfoldable pub entry_of : ℕ → List (Option (List ℕ)) → Entry
entry_of k [] = record { grantee = none; priv = none; kind = k; object = none }
entry_of k (g ∷ []) = record { grantee = g; priv = none; kind = k; object = none }
entry_of k (g ∷ p ∷ []) = record { grantee = g; priv = p; kind = k; object = none }
entry_of k (g ∷ p ∷ o ∷ ss) = record { grantee = g; priv = p; kind = k; object = o }

unfoldable pub read_entry : ℕ → Reading (List (Option (List ℕ))) → Reading Entry
read_entry k corrupted = corrupted
read_entry k escaped = escaped
read_entry k (done ss) = done (entry_of k ss)

unfoldable pub entry_deserialize : (ℕ → Bool) → List ℕ → Reading Entry
entry_deserialize alloc [] = corrupted
entry_deserialize alloc (m ∷ []) = corrupted
entry_deserialize alloc (m ∷ k ∷ p) =
    if m == b'G' then read_entry k (read_strs alloc (m ∷ k ∷ p) 3 (some 2)) else corrupted
