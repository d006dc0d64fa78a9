-- ===== src/Sql/Literal/Blob.antt =====
-- What `quote_value` writes of a blob is read back by the lexer and the parser.
use transaction_db.Base.{
  ℕ, suc, ◌+◌, ◌-◌, ◌*◌, ◌/◌, ◌%◌, ◌^◌, ◌<◌, ◌≡◌, refl, ap, ◌∙◌, inl, inr, Bool, true, false, not,
  some, List, [], ◌∷◌, ◌++◌, arith, length, append_assoc, length-append, All, leb, ltb, ◌==◌,
  Bool-cases,
}
use transaction_db.Base.CString.{is_space}
use transaction_db.Status.{ok}
use transaction_db.Value.{Value}
use transaction_db.Sql.Token.{tk_blob}
use transaction_db.Sql.Lexer.{Numbers, Token, run, skip_while}
use transaction_db.Sql.Lexer.Next.{to_int, token, step_over, lex_until, lex_next}
use transaction_db.Sql.Literal.{
  Printing, hex_digit, hex_bytes, quoted, quote_value, text_of, digit_value, join_digits,
  decode_pairs, blob_literal,
}
use transaction_db.Sql.Literal.RoundTrip.{lex_next_start, lex_blob, text_at}

digit_value-hex_digit : (n : ℕ) → n < 16 → digit_value (hex_digit n) ≡ some n
unfolding digit_value hex_digit
digit_value-hex_digit n h = elim (Bool-cases (leb n 9)) [
  | inl e ↦
      let size : b'0' + n - b'0' ≡ n = omega arith in
      let low : leb b'0' (b'0' + n) ≡ true = ground arith in
      let high : leb (b'0' + n) b'9' ≡ true = ground arith in rw e (rw (low, high, size) refl)
  | inr e ↦
      let c : ℕ = b'a' + (n - 10) in
      let size : c - b'a' + 10 ≡ n = ground arith in
      let past_nine : leb c b'9' ≡ false = ground arith in
      let digit : leb b'0' c ≡ true = ground arith in
      let low : leb b'a' c ≡ true = ground arith in
      let high : leb c b'f' ≡ true = ground arith in
      rw e (rw (digit, past_nine, low, high, size) refl)
]

hex_digit_other : (n : ℕ) → (hex_digit n == b'\'') ≡ false
unfolding hex_digit
hex_digit_other n = ground arith

skip_while-append :
    (p : ℕ → Bool) (s : List ℕ) (c : ℕ) (rest : List ℕ) (pos : ℕ)
    → All (λ b. p b ≡ true) s
    → p c ≡ false
    → skip_while p (s ++ (c ∷ rest)) pos ≡ pos + length s
unfolding skip_while
skip_while-append p [] c rest pos hs h = rw h (omega arith)
skip_while-append p (b ∷ s) c rest pos (hb, hs) h =
    rw hb (skip_while-append p s c rest (pos + 1) hs h ∙ omega arith)

hex_bytes_other : (s : List ℕ) → All (λ b. not (b == b'\'') ≡ true) (hex_bytes s)
unfolding hex_bytes
hex_bytes_other [] = tt
hex_bytes_other (c ∷ s) =
    (rw (hex_digit_other (c / 16)) refl, (rw (hex_digit_other (c % 16)) refl, hex_bytes_other s))

length-hex_bytes : (s : List ℕ) → length (hex_bytes s) ≡ 2 * length s
unfolding hex_bytes
length-hex_bytes [] = refl
length-hex_bytes (c ∷ s) = omega (arith, length-hex_bytes s)

decode_pairs-hex_bytes : (s : List ℕ) → All (λ b. b < 256) s → decode_pairs (hex_bytes s) ≡ inr s
unfolding decode_pairs hex_bytes
decode_pairs-hex_bytes [] hs = refl
decode_pairs-hex_bytes (c ∷ s) (h, hs) =
    let whole : c / 16 * 16 + c % 16 ≡ c = omega arith in
    rw
      (
        digit_value-hex_digit (c / 16) (omega arith),
        digit_value-hex_digit (c % 16) (omega arith),
        decode_pairs-hex_bytes s hs,
      )
      (unfold join_digits in (rw whole refl))

blob_literal-hex_bytes :
    (z s : List ℕ) (start : ℕ)
    → All (λ b. b < 256) s
    → text_of z (token tk_blob start (length (hex_bytes s))) ≡ hex_bytes s
    → blob_literal z (token tk_blob start (length (hex_bytes s))) ≡ inr (Value.blob s)
unfolding blob_literal
blob_literal-hex_bytes z s start hs e =
    let even : ((token tk_blob start (length (hex_bytes s))).n % 2 == 1) ≡ false =
      unfold token to_int in ground (arith, length-hex_bytes s) in
    rw even (rw (e, decode_pairs-hex_bytes s hs) refl)

lex_until-hex_bytes :
    (s rest : List ℕ)
    → lex_until tk_blob b'\'' (b'X' ∷ b'\'' ∷ (hex_bytes s ++ (b'\'' ∷ rest))) 2
      ≡ (token tk_blob 2 (length (hex_bytes s)), length (hex_bytes s) + 3)
unfolding lex_until step_over run
lex_until-hex_bytes s rest =
    let body : List ℕ = hex_bytes s in
    let end =
      skip_while-append (λ b. not (b == b'\'')) body b'\'' rest 2 (hex_bytes_other s) refl in
    let inside : ltb (2 + length body) (length (b'X' ∷ b'\'' ∷ (body ++ (b'\'' ∷ rest)))) ≡ true =
      ground (arith, length-append body (b'\'' ∷ rest)) in
    let size : 2 + length body - 2 ≡ length body = omega arith in
    let behind : 2 + length body + 1 ≡ length body + 3 = omega arith in
    rw end (rw (inside, size, behind) refl)

-- For every blob of bytes whose literal is shorter than 2 ^ 31 bytes, and whatever follows it: `tdb_lex_next` on what `quote_value` writes of the
-- blob gives a token of the kind TK_BLOB and ends right behind the literal, and the parser decodes
-- its digits, without an error, to the same blob.
pub quote_value-blob :
    (libc : Numbers) (pr : Printing) (s rest : List ℕ) (past : ℕ)
    → All (λ b. b < 256) s
    → length (quote_value pr (Value.blob s)) < 2 ^ 31
    → let z = quote_value pr (Value.blob s) ++ rest in
      (t : Token) × (lex_next libc (record { z = z; past = past; pos = 0 })
        ≡ ok (t, record { z = z; past = past; pos = length (quote_value pr (Value.blob s)) }))
      × (t.kind ≡ tk_blob)
      × (blob_literal z t ≡ inr (Value.blob s))
unfolding quote_value quoted
quote_value-blob libc pr s rest past hs short =
    let body : List ℕ = hex_bytes s in
    let y : List ℕ = body ++ (b'\'' ∷ rest) in
    let e : (body ++ (b'\'' ∷ [])) ++ rest ≡ y = append_assoc body (b'\'' ∷ []) rest in
    let long : suc (suc (length (body ++ (b'\'' ∷ [])))) ≡ length body + 3 =
      omega (arith, length-append body (b'\'' ∷ [])) in
    let small : length body < 2 ^ 31 = omega (arith, short, length-append body (b'\'' ∷ [])) in
    rw (e, long)
      (
        token tk_blob 2 (length body),
        lex_next_start libc past b'X' (b'\'' ∷ y) (token tk_blob 2 (length body)) (length body + 3)
            (unfold is_space in refl) refl refl
            (lex_blob libc past (b'X' ∷ b'\'' ∷ y) ∙ ap ok (lex_until-hex_bytes s rest)),
        unfold token in refl,
        blob_literal-hex_bytes (b'X' ∷ b'\'' ∷ y) s 2 hs (
            text_at (b'X' ∷ b'\'' ∷ []) body (b'\'' ∷ rest) 2 (length body) tk_blob refl refl
              small),
      )
