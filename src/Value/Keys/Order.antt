-- ===== src/Value/Keys/Order.antt =====
-- The order of keys is the same seen from both sides.
use transaction_db.Base.{
  ℕ, ◌+◌, ◌^◌, leb, ap, ◌≤◌, length, max, ◌≡◌, refl, Bool, true, false, Option, none, some, List,
  [], ◌∷◌, arith, ltb, Bool-cases, inl, inr,
}
use transaction_db.Status.{Result, ok, err, stuck}
use transaction_db.Util.Varint.{get_varint}
use transaction_db.Value.{Value}
use transaction_db.Value.Record.{record_decode}
use transaction_db.Value.Record.Bounds.{IsSane, IsBounded, record_decode-IsBounded}
use transaction_db.Value.Compare.{RealOps, Sign, less, same, more, sign_ℕ, value_compare}
use transaction_db.Value.Compare.Order.{flip, sign-flip, value_compare-flip}
use transaction_db.Value.Keys.{
  KeyInfo, coll_at, desc_at, max_columns, offset, rounds, negate, or_next, compare_cols,
  compare_decoded, compare_results, record_compare,
}

abbrev pub flip_result : Option Sign → Option Sign
flip_result none = none
flip_result (some c) = some (flip c)

negate-flip : (d : Bool) (c : Sign) → negate d (flip c) ≡ flip (negate d c)
unfolding negate
negate-flip false c = refl
negate-flip true less = refl
negate-flip true same = refl
negate-flip true more = refl

or_next-flip : (c d : Sign) → or_next (flip c) (flip d) ≡ flip (or_next c d)
unfolding or_next
or_next-flip less d = refl
or_next-flip same d = refl
or_next-flip more d = refl

module _ (f : RealOps) (asym : (a b : ℕ) → f.lt a b ≡ true → f.lt b a ≡ false)
    (ki : Option KeyInfo) where
  cols-flip :
      (i : ℕ) (vs ws : List Value) → compare_cols f ki i ws vs ≡ flip (compare_cols f ki i vs ws)
  unfolding compare_cols
  cols-flip i [] [] = refl
  cols-flip i [] (w ∷ ws) = refl
  cols-flip i (v ∷ vs) [] = refl
  cols-flip i (v ∷ vs) (w ∷ ws) =
      let c : Sign = value_compare f (coll_at ki i) v w in
      rw
        (
          value_compare-flip f asym (coll_at ki i) v w,
          negate-flip (desc_at ki i) c,
          cols-flip (i + 1) vs ws,
        )
        (or_next-flip (negate (desc_at ki i) c) (compare_cols f ki (i + 1) vs ws))

  decoded-flip :
      (a b : ℕ × List Value) → compare_decoded f ki b a ≡ flip_result (compare_decoded f ki a b)
  unfolding compare_decoded
  decoded-flip (ca, va) (cb, vb) =
      let e : max cb ca ≡ max ca cb = omega arith in
      let e' : max (rounds cb) (rounds ca) ≡ max (rounds ca) (rounds cb) = omega arith in
      rw
        (
          e,
          e',
          cols-flip 0 va vb,
          sign-flip ca cb,
          or_next-flip (compare_cols f ki 0 va vb) (sign_ℕ ca cb),
        )
        (elim (Bool-cases (ltb (max_columns ki) (max (rounds ca) (rounds cb)))) [
          | inl more_columns ↦ rw more_columns refl
          | inr fits ↦ elim (Bool-cases (leb (2 ^ 31) (max ca cb))) [
            | inl negative ↦ rw (fits, negative) (ap some (sign-flip (offset ca) (offset cb)))
            | inr decoded ↦ rw (fits, decoded) refl
          ]
        ])

  results-flip :
      (p q : List ℕ) (max : ℕ) (a b : Result (ℕ × List Value))
      → IsBounded p max a
      → IsBounded q max b
      → compare_results f ki b a ≡ flip_result (compare_results f ki a b)
  unfolding compare_results
  results-flip p q max (ok a) (ok b) h k = decoded-flip a b
  results-flip p q max (ok a) (err e) h k = refl
  results-flip p q max (err e) (ok b) h k = refl
  results-flip p q max (err e) (err e') h k = refl
  results-flip p q max a stuck h k = absurd k
  results-flip p q max stuck b h k = absurd h

  -- Where `<` on floating-point numbers never holds both ways: `tdb_record_compare` of two byte
  -- strings of at most 2 ^ 31 bytes, each of which starts with a count below 2 ^ 61 or with none, in
  -- the other order gives the opposite answer, for all collations and directions of the columns,
  -- whether the bytes decode or not, and it has no result in one order exactly if it has none in the
  -- other.
  pub record_compare-flip :
      (alloc : ℕ → Bool) (a b : List ℕ)
      → length a ≤ 2 ^ 31
      → length b ≤ 2 ^ 31
      → IsSane (get_varint a)
      → IsSane (get_varint b)
      → record_compare f ki alloc b a ≡ flip_result (record_compare f ki alloc a b)
  unfolding record_compare
  record_compare-flip alloc a b short short' sane sane' =
      let max : ℕ = max_columns ki in
      results-flip a b max (record_decode alloc a max) (record_decode alloc b max)
        (record_decode-IsBounded alloc a max short sane)
        (record_decode-IsBounded alloc b max short' sane')
