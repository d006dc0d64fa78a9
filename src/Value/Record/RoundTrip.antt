-- ===== src/Value/Record/RoundTrip.antt =====
-- `tdb_record_decode` after `tdb_record_encode`, and what any successful decoding has stored.
use transaction_db.Base.{
  drop-append, ℕ, zero, suc, ◌-◌, ◌*◌, ◌%◌, ◌^◌, ◌<◌, ◌≤◌, ◌≡◌, refl, Bool, true, false, List, [],
  ◌∷◌, ◌++◌, length, take, drop, arith, All, some, map, ltb, leb, if◌then◌else◌, append_assoc,
  append-nil, length-append, not, ◌&&◌,
}
use transaction_db.Status.{ok}
use transaction_db.Util.Varint.{put_varint, get_varint}
use transaction_db.Util.Varint.RoundTrip.{get_varint-put_varint}
use transaction_db.Util.Buf.{Buf, init}
use transaction_db.Value.{Value, IsValue}
use transaction_db.Value.Serial.{serial_of}
use transaction_db.Value.Record.{
  body_of, decode_bodies, read_bodies, read_serials, read_types, record_encode, record_decode,
}
use transaction_db.Value.Record.Encode.{
  serials, bodies, encoding, room, serial_of-IsU64, length-body_of, record_encode-Wrote,
}
use transaction_db.Value.Record.Decode.{decoded, serial_body_len-serial_of, read_body-body_of}

read_serials_step :
    (n : ℕ) (p q : List ℕ) {st adv : ℕ} {sts rest : List ℕ}
    → get_varint p ≡ some (st, adv)
    → drop adv p ≡ q
    → read_serials n q ≡ some (sts, rest)
    → read_serials (suc n) p ≡ some (st ∷ sts, rest)
unfolding read_serials
read_serials_step n p q e d r = rw (e, read_serials) (rw (d, read_serials) (rw (r, read_serials)))

read_serials-serials :
    (vs : List Value) (rest : List ℕ)
    → All IsValue vs
    → read_serials (length vs) (serials vs ++ rest) ≡ some (map (λ v. (serial_of v).0) vs, rest)
read_serials-serials [] rest h = unfold read_serials in refl
read_serials-serials (v ∷ vs) rest (hv, hvs) =
    let st : ℕ = (serial_of v).0 in
    rw (append_assoc (put_varint st) (serials vs) rest) (
      read_serials_step (length vs) (put_varint st ++ (serials vs ++ rest)) (serials vs ++ rest)
        (get_varint-put_varint st (serials vs ++ rest) (serial_of-IsU64 v hv))
        (drop-append (put_varint st) (serials vs ++ rest)) (read_serials-serials vs rest hvs))

-- One round of the second loop on the body of a value.
read_bodies_step :
    (v : Value) (sts : List ℕ) (max : ℕ) (rest : List ℕ) (out : List Value)
    → IsValue v
    → read_bodies sts (max - 1) rest ≡ some out
    → read_bodies ((serial_of v).0 ∷ sts) max (body_of v (serial_of v).1 ++ rest)
      ≡ some (if ltb 0 max then decoded v ∷ out else out)
unfolding read_bodies
read_bodies_step v sts max rest out h e =
    let bl : ℕ = (serial_of v).1 in
    let body : List ℕ = body_of v bl in
    let behind : drop bl (body ++ rest) ≡ rest = rw (length-body_of v) at (drop-append body rest) in
    let enough : ltb (length (body ++ rest)) bl ≡ false =
      ground (arith, length-append body rest, length-body_of v) in
    rw (serial_body_len-serial_of v h, read_bodies)
      (rw (enough, read_bodies)
        (rw (behind, read_bodies) (rw (e, read_bodies) (rw (read_body-body_of v rest h)))))

read_bodies-bodies :
    (vs : List Value) (max : ℕ) (rest : List ℕ)
    → All IsValue vs
    → read_bodies (map (λ v. (serial_of v).0) vs) max (bodies vs ++ rest)
      ≡ some (take max (map decoded vs))
read_bodies-bodies [] zero rest h = unfold read_bodies in refl
read_bodies-bodies [] (suc max) rest h = unfold read_bodies in refl
read_bodies-bodies (v ∷ vs) zero rest (hv, hvs) =
    let e : 0 - 1 ≡ 0 = omega arith in
    rw (append_assoc (body_of v (serial_of v).1) (bodies vs) rest) (
      read_bodies_step v (map (λ v. (serial_of v).0) vs) zero (bodies vs ++ rest) [] hv
        (rw e (read_bodies-bodies vs zero rest hvs)))
read_bodies-bodies (v ∷ vs) (suc max) rest (hv, hvs) =
    let e : suc max - 1 ≡ max = omega arith in
    let more : ltb 0 (suc max) ≡ true = ground arith in
    let step =
      read_bodies_step v (map (λ v. (serial_of v).0) vs) (suc max) (bodies vs ++ rest)
        (take max (map decoded vs)) hv (rw e (read_bodies-bodies vs max rest hvs)) in
    rw (append_assoc (body_of v (serial_of v).1) (bodies vs) rest) (rw more at step)

record_decode_step :
    (alloc : ℕ → Bool) (p q : List ℕ) (max n : ℕ) {adv : ℕ} {sts rest : List ℕ} {vs : List Value}
    → ((n : ℕ) → alloc n ≡ true)
    → n < 2 ^ 31
    → get_varint p ≡ some (n, adv)
    → drop adv p ≡ q
    → read_serials n q ≡ some (sts, rest)
    → read_bodies sts max rest ≡ some vs
    → record_decode alloc p max ≡ ok (n, vs)
unfolding record_decode read_types decode_bodies
record_decode_step alloc p q max n granted few e d r s =
    let plain : ltb (2 ^ 31) n ≡ false = ground arith in
    let fits : leb (2 ^ 61) n ≡ false = ground arith in
    let array : (ltb 16 n && not (alloc (8 * n % 2 ^ 64))) ≡ false =
      ground (arith, granted (8 * n % 2 ^ 64)) in
    rw (e, record_decode)
      (rw (array, record_decode)
        (rw (d, record_decode) (rw fits (rw (r, read_types) (rw plain (rw (s, decode_bodies)))))))

pub record_decode-encoding :
    (alloc : ℕ → Bool) (vs : List Value) (max : ℕ)
    → ((n : ℕ) → alloc n ≡ true)
    → All IsValue vs
    → length vs < 2 ^ 31
    → record_decode alloc (encoding vs) max ≡ ok (length vs, take max (map decoded vs))
record_decode-encoding alloc vs max granted h few =
    let tail : List ℕ = serials vs ++ bodies vs in
    record_decode_step alloc (encoding vs) tail max (length vs) granted few
      (get_varint-put_varint (length vs) tail (omega arith))
      (drop-append (put_varint (length vs)) tail) (read_serials-serials vs (bodies vs) h)
      (rw append-nil at (read_bodies-bodies vs max [] h))

-- With memory to be had, for fewer than 2 ^ 31 values that fit their C fields and whose record is not
-- gigantic: `tdb_record_encode` into an empty buffer succeeds, and `tdb_record_decode` of what it wrote
-- yields the number of the values and the first `max` of them, composites as the BLOB of their bytes.
pub record_decode-record_encode :
    (alloc : ℕ → Bool) (vs : List Value) (max : ℕ)
    → ((n : ℕ) → alloc n ≡ true)
    → All IsValue vs
    → length vs < 2 ^ 31
    → 2 * room vs ≤ 2 ^ 61
    → (b : Buf) × (record_encode alloc vs init ≡ ok b)
      × (record_decode alloc b.content max ≡ ok (length vs, take max (map decoded vs)))
unfolding init
record_decode-record_encode alloc vs max granted h few small =
    let w = record_encode-Wrote alloc granted vs init h (omega arith) few (omega arith) in
    (w.out, w.granted, rw w.content (record_decode-encoding alloc vs max granted h few))
