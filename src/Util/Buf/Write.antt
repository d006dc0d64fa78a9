-- ===== src/Util/Buf/Write.antt =====
-- The writes to a buffer: what they add, that they stay within the capacity, and that they succeed.
use transaction_db.Base.{
  ℕ, ◌+◌, ◌^◌, ◌≤◌, ◌<◌, ◌≡◌, Bool, true, List, [], ◌∷◌, ◌++◌, arith, length, length-append,
  append_assoc, ◌∙◌,
}
use transaction_db.Status.{Result, ok, >>=-eq-ok, ◌>>=◌}
use transaction_db.Util.Varint.{put_varint, IsU64}
use transaction_db.Util.Varint.Encode.{length-put_varint}
use transaction_db.Util.Buf.{Buf, IsValid, size_mod, reserve, append, putc, buf_put_varint}
use transaction_db.Util.Buf.Grow.{reserve_ok, reserve_total}

-- A write of `p` into a reservation of `need` bytes, which all writes are.
abbrev pub write : (ℕ → Bool) → Buf → ℕ → List ℕ → Result Buf
write alloc b need p = do b' ← reserve alloc b need; ok (record b' { content = b'.content ++ p })

module _ (alloc : ℕ → Bool) (b : Buf) (need : ℕ) (p : List ℕ) (room : length p ≤ need) where
  -- A granted write puts the bytes behind what is there, within the capacity.
  pub write_ok :
      {b' : Buf}
      → length b.content + need < size_mod
      → write alloc b need p ≡ ok b'
      → (b'.content ≡ b.content ++ p) × IsValid b'
  write_ok {b'} fits e =
      let (r, granted, wrote) =
        >>=-eq-ok (reserve alloc b need) (λ (r : Buf). ok (record r { content = r.content ++ p }))
          e in
      let (same, large) = reserve_ok alloc b need fits granted in
      ground (arith, same, large, wrote, length-append b.content p)

  pub write_total :
      ((n : ℕ) → alloc n ≡ true)
      → length b.content + need ≤ 2 ^ 63
      → (b' : Buf) × (write alloc b need p ≡ ok b') × (b'.content ≡ b.content ++ p) × IsValid b'
  write_total granted fits =
      let (r, e) = reserve_total alloc b need granted fits in
      let b' : Buf = record r { content = r.content ++ p } in
      let done : write alloc b need p ≡ ok b' = rw e in
      let (same, valid) = write_ok {b' = b'} (omega arith) done in (b', done, same, valid)

-- What a write that is granted leaves: the bytes `p` behind those of `b`, within the capacity.
pub record Wrote (b : Buf) (p : List ℕ) (r : Result Buf) : Type 0 where
  pub out : Buf
  pub granted : r ≡ ok out
  pub content : out.content ≡ b.content ++ p
  pub valid : IsValid out

module _ (alloc : ℕ → Bool) (all_granted : (n : ℕ) → alloc n ≡ true) where
  pub write-Wrote :
      (b : Buf) (need : ℕ) (p : List ℕ)
      → length p ≤ need
      → length b.content + need ≤ 2 ^ 63
      → Wrote b p (write alloc b need p)
  write-Wrote b need p room fits =
      let (b', e, same, valid) = write_total alloc b need p room all_granted fits in
      record { out = b'; granted = e; content = same; valid = valid }

  -- With memory to be had, and up to 2 ^ 63 bytes in all, `tdb_buf_append` succeeds and puts the bytes
  -- it is given behind those of the buffer, within its capacity.
  pub append-Wrote :
      (b : Buf) (p : List ℕ) → length b.content + length p ≤ 2 ^ 63 → Wrote b p (append alloc b p)
  unfolding append
  append-Wrote b p fits = write-Wrote b (length p) p (omega arith) fits

  pub putc-Wrote :
      (b : Buf) (c : ℕ) → length b.content + 1 ≤ 2 ^ 63 → Wrote b (c ∷ []) (putc alloc b c)
  unfolding putc
  putc-Wrote b c fits = write-Wrote b 1 (c ∷ []) (omega arith) fits

  pub buf_put_varint-Wrote :
      (b : Buf) (v : ℕ)
      → IsU64 v
      → length b.content + 10 ≤ 2 ^ 63
      → Wrote b (put_varint v) (buf_put_varint alloc b v)
  unfolding buf_put_varint
  buf_put_varint-Wrote b v hv fits = write-Wrote b 10 (put_varint v) (length-put_varint v hv).1 fits

-- A step after a write writes behind it.
pub then-Wrote :
    (b : Buf) (p q : List ℕ) (r : Result Buf) (f : Buf → Result Buf)
    → (w : Wrote b p r) → Wrote w.out q (f w.out)
    → Wrote b (p ++ q) (r >>= f)
then-Wrote b p q r f w w' = record {
  out = w'.out;
  granted = rw w.granted w'.granted;
  content = w'.content ∙ rw w.content (append_assoc b.content p q);
  valid = w'.valid;
}
