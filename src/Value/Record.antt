-- ===== src/Value/Record.antt =====
-- src/value/tdb_record.c: `tdb_record_encode` and `tdb_record_decode`, and the composite values of
-- src/value/tdb_value.c, which are records.
pub mod Encode
pub mod Decode
pub mod RoundTrip
pub mod Bounds
use transaction_db.Base.{
  ℕ, zero, suc, ◌+◌, ◌-◌, ◌*◌, ◌%◌, ◌^◌, ◌<◌, Bool, true, false, not, ◌&&◌, Option, none, some,
  List, [], ◌∷◌, ◌++◌, map, length, take, drop, get_elem?, ltb, leb, ◌==◌, if◌then◌else◌,
}
use transaction_db.Base.Int.{ℤ, pos, negsuc}
use transaction_db.Status.{Result, ok, err, stuck, nomem, corrupt, range, ◌>>=◌, ◌>>◌}
use transaction_db.Util.Varint.{get_varint}
use transaction_db.Util.BigEndian.{put_u64, get_u64}
use transaction_db.Util.Buf.{Buf, reserve, buf_put_varint, init}
use transaction_db.Value.{Value, null, int, real, text, blob, composite}
use transaction_db.Value.Serial.{serial_body_len, serial_of, put_be_signed, get_be_signed}

-- The test before a body is written: whether the value is TEXT, BLOB or COMPOSITE.
unfoldable pub has_bytes : Value → Bool
has_bytes null = false
has_bytes (int v) = false
has_bytes (real r) = false
has_bytes (text s) = true
has_bytes (blob s) = true
has_bytes (composite s) = true

-- What the switch of the body loop writes: `bl` bytes.
unfoldable pub body_of : Value → ℕ → List ℕ
body_of null bl = []
body_of (int v) bl = put_be_signed v bl
body_of (real r) bl = put_u64 r
body_of (text s) bl = s
body_of (blob s) bl = s
body_of (composite s) bl = s

module _ (alloc : ℕ → Bool) where
  unfoldable pub put_serials : Buf → List Value → Result Buf
  put_serials out [] = ok out
  put_serials out (v ∷ vs) = do out' ← buf_put_varint alloc out (serial_of v).0; put_serials out' vs

  unfoldable pub put_body : Buf → Value → Result Buf
  put_body out v =
      let bl = (serial_of v).1 in
      if bl == 0 && not (has_bytes v) then ok out else (do
        out' ← reserve alloc out (bl + 8)
        ok (record out' { content = out'.content ++ body_of v bl }))

  unfoldable pub put_bodies : Buf → List Value → Result Buf
  put_bodies out [] = ok out
  put_bodies out (v ∷ vs) = do out' ← put_body out v; put_bodies out' vs

  -- More than 16 values need two arrays from the allocator, of 8 and of 4 bytes a value.
  unfoldable pub arrays_granted : ℕ → Bool
  arrays_granted n = if ltb 16 n then alloc (8 * n) && alloc (4 * n) else true

  -- `tdb_record_encode`. What it leaves in the buffer when it fails is not kept.
  unfoldable pub record_encode : List Value → Buf → Result Buf
  record_encode vals out =
      if arrays_granted (length vals)
      then (do
        out' ← buf_put_varint alloc out (length vals)
        out'' ← put_serials out' vals
        put_bodies out'' vals)
      else err nomem

-- The first loop of `tdb_record_decode`: `n` serial types, and the bytes behind them.
unfoldable pub read_serials : ℕ → List ℕ → Option (List ℕ × List ℕ)
read_serials zero p = some ([], p)
read_serials (suc n) p = elim (get_varint p) [
  | none ↦ none
  | some (st, adv) ↦ elim (read_serials n (drop adv p)) [
    | none ↦ none
    | some (sts, rest) ↦ some (st ∷ sts, rest)
  ]
]

-- The first loop on `n` columns. From 2 ^ 61 columns on the size of the array wraps, so that it has
-- `n % 2 ^ 61` entries, and a type that is read behind them is stored past it.
unfoldable pub read_types : ℕ → List ℕ → Result (List ℕ × List ℕ)
read_types n p =
    if leb (2 ^ 61) n
    then (elim (read_serials (n % 2 ^ 61 + 1) p) [ none ↦ err corrupt | some r ↦ stuck ])
    else (elim (read_serials n p) [ none ↦ err corrupt | some r ↦ ok r ])

-- The value that the second loop stores for a serial type with a body of `bl` bytes.
unfoldable pub read_body : ℕ → ℕ → List ℕ → Value
read_body st bl body =
    if st == 0
    then null
    else if st == 8
    then int (pos 0)
    else if st == 9
    then int (pos 1)
    else if leb 1 st && leb st 6
    then int (get_be_signed body bl)
    else if st == 7
    then real (get_u64 body)
    else if leb 12 st && st % 2 == 0
    then blob (take bl body)
    else text (take bl body)

-- The second loop: the first `max` values, and `none` for a corrupt record. `p` is what stands at
-- `p + off`, so its length is `len - off`. For up to 2 ^ 31 columns, the cast of the index to `int`
-- keeps it.
unfoldable pub read_bodies : List ℕ → ℕ → List ℕ → Option (List Value)
read_bodies [] max p = some []
read_bodies (st ∷ sts) max p = elim (serial_body_len st) [
  | none ↦ none
  | some bl ↦ if ltb (length p) bl then none else (elim (read_bodies sts (max - 1) (drop bl p)) [
    | none ↦ none
    | some vs ↦ some (if ltb 0 max then read_body st bl p ∷ vs else vs)
  ])
]

-- The second loop on `n` columns. The index 2 ^ 31 is negative as an `int` and so below `max`: unless
-- the record is corrupt up to there, its value is stored far behind `out`, and the rest has no
-- defined behaviour.
unfoldable pub decode_bodies : ℕ → ℕ → List ℕ → List ℕ → Result (ℕ × List Value)
decode_bodies n max sts p =
    if ltb (2 ^ 31) n
    then (elim (read_bodies (take (2 ^ 31 + 1) sts) max p) [ none ↦ err corrupt | some vs ↦ stuck ])
    else (elim (read_bodies sts max p) [ none ↦ err corrupt | some vs ↦ ok (n, vs) ])

-- `tdb_record_decode`: `*ncols`, as a pattern of 32 bits, and the values stored in `out`. The array of
-- serial types is from the allocator beyond 16 of them, and its size wraps.
unfoldable pub record_decode : (ℕ → Bool) → List ℕ → ℕ → Result (ℕ × List Value)
record_decode alloc p max = elim (get_varint p) [
  | none ↦ err corrupt
  | some (n, adv) ↦
      if ltb 16 n && not (alloc (8 * n % 2 ^ 64))
      then err nomem
      else read_types n (drop adv p) >>= λ r. decode_bodies n max r.0 r.1
]
