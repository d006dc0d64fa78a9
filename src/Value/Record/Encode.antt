-- ===== src/Value/Record/Encode.antt =====
-- What `tdb_record_encode` writes.
use transaction_db.Base.{
  ℕ, ◌+◌, ◌*◌, ◌^◌, ◌<◌, ◌≤◌, ◌≡◌, refl, sym, Bool, true, List, [], ◌∷◌, ◌++◌, length, arith, All,
  Bool-cases, inl, inr, append-nil, ◌==◌, ◌&&◌, not, length-append,
}
use transaction_db.Base.Int.{ℤ}
use transaction_db.Status.{◌>>=◌}
use transaction_db.Util.Varint.{put_varint, IsU64}
use transaction_db.Util.Varint.Encode.{length-put_varint}
use transaction_db.Util.BigEndian.{length-put_u64}
use transaction_db.Util.Buf.{Buf, IsValid}
use transaction_db.Util.Buf.Write.{Wrote, write-Wrote, buf_put_varint-Wrote, then-Wrote}
use transaction_db.Value.{Value, IsValue, null, int, real, text, blob, composite}
use transaction_db.Value.Serial.{serial_of, int_serial_type, put_be_signed}
use transaction_db.Value.Serial.Bytes.{length-put_be_loop}
use transaction_db.Value.Record.{
  has_bytes, body_of, put_serials, put_body, put_bodies, arrays_granted, record_encode,
}

abbrev pub serials : List Value → List ℕ
serials [] = []
serials (v ∷ vs) = put_varint (serial_of v).0 ++ serials vs

abbrev pub bodies : List Value → List ℕ
bodies [] = []
bodies (v ∷ vs) = body_of v (serial_of v).1 ++ bodies vs

-- The record: the number of the values, their serial types, their bodies.
abbrev pub encoding : List Value → List ℕ
encoding vs = put_varint (length vs) ++ (serials vs ++ bodies vs)

-- The room that the encoder asks for, at most.
abbrev pub room : List Value → ℕ
room [] = 0
room (v ∷ vs) = (serial_of v).1 + 28 + room vs

int_serial_type_small : (v : ℤ) → ((int_serial_type v).0 < 10) × ((int_serial_type v).1 < 9)
unfolding int_serial_type
int_serial_type_small v = ground arith

pub serial_of-IsU64 : (v : Value) → IsValue v → IsU64 (serial_of v).0
unfolding serial_of
serial_of-IsU64 null h = omega arith
serial_of-IsU64 (int v) h = omega (arith, int_serial_type_small v)
serial_of-IsU64 (real r) h = omega arith
serial_of-IsU64 (text s) h = omega arith
serial_of-IsU64 (blob s) h = omega arith
serial_of-IsU64 (composite s) h = omega arith

-- The body that is written is as long as the encoder says.
pub length-body_of : (v : Value) → length (body_of v (serial_of v).1) ≡ (serial_of v).1
unfolding body_of serial_of
length-body_of null = refl
length-body_of (int v) =
    unfold put_be_signed in omega (arith, length-put_be_loop (int_serial_type v).1 v [])
length-body_of (real r) = length-put_u64 r
length-body_of (text s) = refl
length-body_of (blob s) = refl
length-body_of (composite s) = refl

length-zero : (p : List ℕ) → length p ≡ 0 → p ≡ []
length-zero [] h = refl
length-zero (b ∷ bs) h = absurd (omega arith)

module _ (alloc : ℕ → Bool) (all_granted : (n : ℕ) → alloc n ≡ true) where
  put_serials-Wrote :
      (vs : List Value) (b : Buf)
      → All IsValue vs
      → IsValid b
      → length b.content + room vs ≤ 2 ^ 62
      → Wrote b (serials vs) (put_serials alloc b vs)
  unfolding put_serials
  put_serials-Wrote [] b h valid fits = record {
    out = b;
    granted = refl;
    content = sym (append-nil b.content);
    valid = valid;
  }
  put_serials-Wrote (v ∷ vs) b (hv, hvs) valid fits =
      let st : ℕ = (serial_of v).0 in
      let small = serial_of-IsU64 v hv in
      let w = buf_put_varint-Wrote alloc all_granted b st small (omega arith) in
      let grown : length w.out.content ≡ length b.content + length (put_varint st) =
        rw w.content (length-append b.content (put_varint st)) in
      then-Wrote b (put_varint st) (serials vs) _ (λ o. put_serials alloc o vs) w
        (put_serials-Wrote vs w.out hvs w.valid (omega (arith, grown, length-put_varint st small)))

  put_body-Wrote :
      (v : Value) (b : Buf)
      → IsValid b
      → length b.content + (serial_of v).1 + 8 ≤ 2 ^ 63
      → Wrote b (body_of v (serial_of v).1) (put_body alloc b v)
  unfolding put_body
  put_body-Wrote v b valid fits =
      let bl : ℕ = (serial_of v).1 in
      elim (Bool-cases (bl == 0 && not (has_bytes v))) [
        | inl skipped ↦
            let none_left = length-zero (body_of v bl) (ground (arith, length-body_of v)) in
            rw (skipped, none_left)
              (record {
                out = b;
                granted = refl;
                content = sym (append-nil b.content);
                valid = valid;
              })
        | inr written ↦ rw written (
            write-Wrote alloc all_granted b (bl + 8) (body_of v bl)
              (omega (arith, length-body_of v)) (omega arith))
      ]

  put_bodies-Wrote :
      (vs : List Value) (b : Buf)
      → IsValid b
      → length b.content + room vs ≤ 2 ^ 62
      → Wrote b (bodies vs) (put_bodies alloc b vs)
  unfolding put_bodies
  put_bodies-Wrote [] b valid fits = record {
    out = b;
    granted = refl;
    content = sym (append-nil b.content);
    valid = valid;
  }
  put_bodies-Wrote (v ∷ vs) b valid fits =
      let p : List ℕ = body_of v (serial_of v).1 in
      let w = put_body-Wrote v b valid (omega arith) in
      let grown : length w.out.content ≡ length b.content + length p =
        rw w.content (length-append b.content p) in
      then-Wrote b p (bodies vs) _ (λ o. put_bodies alloc o vs) w
        (put_bodies-Wrote vs w.out w.valid (omega (arith, grown, length-body_of v)))

  length-serials : (vs : List Value) → All IsValue vs → length (serials vs) ≤ room vs
  length-serials [] h = omega arith
  length-serials (v ∷ vs) (hv, hvs) =
      let st : ℕ = (serial_of v).0 in
      omega (
        arith,
        length-append (put_varint st) (serials vs),
        length-put_varint st (serial_of-IsU64 v hv),
        length-serials vs hvs,
      )

  -- With memory to be had, `tdb_record_encode` succeeds and appends the encoding of the values,
  -- within the capacity of the buffer.
  pub record_encode-Wrote :
      (vs : List Value) (b : Buf)
      → All IsValue vs
      → IsValid b
      → length vs < 2 ^ 31
      → length b.content + 2 * room vs ≤ 2 ^ 61
      → Wrote b (encoding vs) (record_encode alloc vs b)
  unfolding record_encode arrays_granted
  record_encode-Wrote vs b h valid few fits =
      let n : ℕ = length vs in
      let arrays : arrays_granted alloc n ≡ true =
        ground (arith, all_granted (8 * n), all_granted (4 * n)) in
      let w = buf_put_varint-Wrote alloc all_granted b n (omega arith) (omega arith) in
      let ln = length-put_varint n (omega arith) in
      let l₁ : length w.out.content ≡ length b.content + length (put_varint n) =
        rw w.content (length-append b.content (put_varint n)) in
      let w₂ = put_serials-Wrote vs w.out h w.valid (omega (arith, l₁, ln)) in
      let l₂ : length w₂.out.content ≡ length w.out.content + length (serials vs) =
        rw w₂.content (length-append w.out.content (serials vs)) in
      let w₃ =
        put_bodies-Wrote vs w₂.out w₂.valid (omega (arith, l₁, l₂, ln, length-serials vs h)) in
      let tail = then-Wrote w.out (serials vs) (bodies vs) _ (λ o. put_bodies alloc o vs) w₂ w₃ in
      rw arrays (
        then-Wrote b (put_varint n) (serials vs ++ bodies vs) _
          (λ o. put_serials alloc o vs >>= λ o'. put_bodies alloc o' vs) w tail)

  length-bodies : (vs : List Value) → length (bodies vs) ≤ room vs
  length-bodies [] = omega arith
  length-bodies (v ∷ vs) = omega (
    arith,
    length-append (body_of v (serial_of v).1) (bodies vs),
    length-body_of v,
    length-bodies vs,
  )

  -- A record is no longer than twice the room, and the bytes of the number of values.
  pub length-encoding :
      (vs : List Value)
      → All IsValue vs
      → length vs < 2 ^ 31
      → length (encoding vs) ≤ 2 * room vs + 10
  length-encoding vs h few =
      let n : ℕ = length vs in
      omega (
        arith,
        length-append (put_varint n) (serials vs ++ bodies vs),
        length-append (serials vs) (bodies vs),
        length-put_varint n (omega arith),
        length-serials vs h,
        length-bodies vs,
      )
