-- ===== src/Value/Record/Bounds.antt =====
-- What `tdb_record_decode` does on any input.
use transaction_db.Base.{
  ℕ, leb, Option, none, zero, suc, ◌+◌, ◌-◌, ◌*◌, ◌%◌, ◌^◌, ◌&&◌, not, ltb, false, refl, ◌⊎◌,
  Bool-cases, ◌<◌, ◌≤◌, ◌≡◌, Bool, List, [], ◌∷◌, length, drop, arith, some, min, length-drop,
  Option-cases, inl, inr,
}
use transaction_db.Status.{Result, ok, err, stuck, corrupt, nomem}
use transaction_db.Util.Varint.{get_varint}
use transaction_db.Util.Varint.Decode.{get_varint_takes}
use transaction_db.Value.{Value}
use transaction_db.Value.Serial.{serial_body_len}
use transaction_db.Value.Record.{
  decode_bodies, read_bodies, read_serials, read_types, record_decode,
}

-- Every serial type takes a byte at least.
read_serials_takes :
    (n : ℕ) (p sts rest : List ℕ)
    → read_serials n p ≡ some (sts, rest)
    → (length sts ≡ n) × (n + length rest ≤ length p)
unfolding read_serials
read_serials_takes zero p sts rest e = ground arith
read_serials_takes (suc n) p sts rest e = elim (Option-cases (get_varint p)) [
  | inl bad ↦ cc (rw (bad, read_serials) at e)
  | inr ((st, adv), e₁) ↦ elim (Option-cases (read_serials n (drop adv p))) [
    | inl bad ↦ ground arith
    | inr ((sts', rest'), e₂) ↦ ground (
      arith,
      read_serials_takes n (drop adv p) sts' rest' e₂,
      get_varint_takes p st adv e₁,
      length-drop adv p,
    )
  ]
]

read_bodies_count :
    (sts : List ℕ) (max : ℕ) (p : List ℕ) (vs : List Value)
    → read_bodies sts max p ≡ some vs
    → length vs ≡ min max (length sts)
unfolding read_bodies
read_bodies_count [] max p vs e = ground arith
read_bodies_count (st ∷ sts) max p vs e = elim (Option-cases (serial_body_len st)) [
  | inl bad ↦ ground arith
  | inr (bl, e₁) ↦ elim (Option-cases (read_bodies sts (max - 1) (drop bl p))) [
    | inl bad ↦ ground arith
    | inr (vs', e₂) ↦ ground (arith, read_bodies_count sts (max - 1) (drop bl p) vs' e₂)
  ]
]

-- The count of columns that a record starts with, where there is one, is below 2 ^ 61.
abbrev pub IsSane : Option (ℕ × ℕ) → Type 0
IsSane none = Unit
IsSane (some (n, a)) = n < 2 ^ 61

-- What a decoding of `p` into `max` values may end with.
abbrev pub IsBounded : List ℕ → ℕ → Result (ℕ × List Value) → Type 0
IsBounded p max (ok (n, vs)) = (n < length p) × (length vs ≡ min max n)
IsBounded p max (err e) = (e ≡ corrupt) ⊎ (e ≡ nomem)
IsBounded p max stuck = ⊥

decode_bodies-IsBounded :
    (p : List ℕ) (n max : ℕ) (sts rest : List ℕ)
    → length p ≤ 2 ^ 31
    → n < length p
    → length sts ≡ n
    → IsBounded p max (decode_bodies n max sts rest)
unfolding decode_bodies
decode_bodies-IsBounded p n max sts rest short few count =
    let plain : ltb (2 ^ 31) n ≡ false = ground arith in
    elim (Option-cases (read_bodies sts max rest)) [
      | inl bad ↦ rw plain (rw (bad, decode_bodies) (inl refl))
      | inr (vs, e) ↦
          rw plain (rw (e, decode_bodies) (few, rw count at (read_bodies_count sts max rest vs e)))
    ]

-- On at most 2 ^ 31 bytes that start with a count below 2 ^ 61 or with none, and whatever the allocator
-- does, `tdb_record_decode` ends with TDB_CORRUPT, TDB_NOMEM or success. If it succeeds, it
-- reports fewer columns than there are bytes, and it has stored that many values or `max`,
-- whichever is less: it never writes past `out[max - 1]`.
pub record_decode-IsBounded :
    (alloc : ℕ → Bool) (p : List ℕ) (max : ℕ)
    → length p ≤ 2 ^ 31
    → IsSane (get_varint p)
    → IsBounded p max (record_decode alloc p max)
unfolding record_decode read_types
record_decode-IsBounded alloc p max short sane = elim (Option-cases (get_varint p)) [
  | inl bad ↦ rw (bad, record_decode) (inl refl)
  | inr ((n, adv), e₁) ↦
      let fits : leb (2 ^ 61) n ≡ false = let below : n < 2 ^ 61 = rw e₁ at sane in ground arith in
      elim (Bool-cases (ltb 16 n && not (alloc (8 * n % 2 ^ 64)))) [
        | inl refused ↦ rw (e₁, record_decode) (rw refused (inr refl))
        | inr granted ↦ elim (Option-cases (read_serials n (drop adv p))) [
          | inl bad ↦ rw (e₁, record_decode) (rw (granted, fits) (rw (bad, read_types) (inl refl)))
          | inr ((sts, rest), e₂) ↦
              let (count, room) = read_serials_takes n (drop adv p) sts rest e₂ in
              let few : n < length p =
                omega (arith, get_varint_takes p n adv e₁, length-drop adv p, room) in
              rw (e₁, record_decode)
                (rw (granted, fits)
                  (rw (e₂, read_types) (decode_bodies-IsBounded p n max sts rest short few count)))
        ]
      ]
]
