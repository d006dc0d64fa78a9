-- ===== src/Sql/Literal/RoundTrip.antt =====
-- What `quote_value` writes of a text or a blob is read back by the lexer and the parser.
use transaction_db.Base.{
  ℕ, suc, ◌+◌, ◌-◌, ◌%◌, ◌^◌, ◌<◌, ◌≡◌, refl, ap, ◌∙◌, inl, inr, true, false, some, List, [], ◌∷◌,
  ◌++◌, arith, length, get_or, take, append_assoc, take-append, drop-append, length-append, All,
  leb, ltb, ◌==◌, Bool-cases,
}
use transaction_db.Base.CString.{is_space}
use transaction_db.Status.{ok}
use transaction_db.Value.{Value}
use transaction_db.Sql.Token.{Kind, tk_string, tk_blob}
use transaction_db.Sql.Lexer.{
  Numbers, Token, strlen, is_digit, is_alpha, is_id_start, pair_at, run, skip_while, skip_trivia,
}
use transaction_db.Sql.Lexer.Next.{
  to_int, token, step_over, lex_until, quote_end, scan_quoted, lex_rest, lex_at, lex_here, lex_next,
}
use transaction_db.Sql.Literal.{
  Printing, double_quotes, quoted, quote_value, text_of, decode_string, text_literal,
  string_literal,
}

quote_end_plain :
    (d c : ℕ) (s : List ℕ) (pos : ℕ)
    → (c == d) ≡ false
    → quote_end d (c ∷ s) pos ≡ quote_end d s (pos + 1)
unfolding quote_end
quote_end_plain d c [] pos h = rw h refl
quote_end_plain d c (e ∷ s) pos h = rw h refl

quote_end_double :
    (c : ℕ) (s : List ℕ) (pos : ℕ)
    → (c == b'\'') ≡ true
    → quote_end b'\'' (c ∷ b'\'' ∷ s) pos ≡ quote_end b'\'' s (pos + 2)
unfolding quote_end
quote_end_double c s pos h = rw h refl

quote_end_last :
    (rest : List ℕ) (pos : ℕ)
    → (get_or rest 0 0 == b'\'') ≡ false
    → quote_end b'\'' (b'\'' ∷ rest) pos ≡ pos
unfolding quote_end
quote_end_last [] pos h = refl
quote_end_last (e ∷ rest) pos h = rw h refl

-- The scan passes the doubled quotes and stops at the quote that closes.
quote_end-double_quotes :
    (s rest : List ℕ) (pos : ℕ)
    → (get_or rest 0 0 == b'\'') ≡ false
    → quote_end b'\'' (double_quotes s ++ (b'\'' ∷ rest)) pos ≡ pos + length (double_quotes s)
unfolding double_quotes
quote_end-double_quotes [] rest pos h = quote_end_last rest pos h ∙ omega arith
quote_end-double_quotes (c ∷ s) rest pos h = elim (Bool-cases (c == b'\'')) [
  | inl e ↦ rw e (
      quote_end_double c (double_quotes s ++ (b'\'' ∷ rest)) pos e
      ∙ quote_end-double_quotes s rest (pos + 2) h
      ∙ omega arith)
  | inr e ↦ rw e (
      quote_end_plain b'\'' c (double_quotes s ++ (b'\'' ∷ rest)) pos e
      ∙ quote_end-double_quotes s rest (pos + 1) h
      ∙ omega arith)
]

decode_string_plain :
    (c : ℕ) (s : List ℕ) → (c == b'\'') ≡ false → decode_string (c ∷ s) ≡ c ∷ decode_string s
unfolding decode_string
decode_string_plain c [] h = refl
decode_string_plain c (e ∷ s) h = rw h refl

decode_string_double :
    (c : ℕ) (s : List ℕ) → (c == b'\'') ≡ true → decode_string (c ∷ b'\'' ∷ s) ≡ c ∷ decode_string s
unfolding decode_string
decode_string_double c s h = rw h refl

decode_string-double_quotes : (s : List ℕ) → decode_string (double_quotes s) ≡ s
unfolding double_quotes
decode_string-double_quotes [] = unfold decode_string in refl
decode_string-double_quotes (c ∷ s) = elim (Bool-cases (c == b'\'')) [
  | inl e ↦
      rw e (
        decode_string_double c (double_quotes s) e
        ∙ ap (λ t. c ∷ t) (decode_string-double_quotes s))
  | inr e ↦
      rw e (
        decode_string_plain c (double_quotes s) e ∙ ap (λ t. c ∷ t) (decode_string-double_quotes s))
]

strlen_lem : (s : List ℕ) → All (λ c. (c == 0) ≡ false) s → strlen s ≡ length s
unfolding strlen
strlen_lem [] hs = refl
strlen_lem (c ∷ s) (h, hs) = rw h (omega (arith, strlen_lem s hs))

take_all : (s : List ℕ) → take (length s) s ≡ s
take_all [] = refl
take_all (c ∷ s) = ap (λ t. c ∷ t) (take_all s)

text_literal-double_quotes :
    (s : List ℕ)
    → All (λ c. (c == 0) ≡ false) s
    → text_literal (decode_string (double_quotes s)) ≡ Value.text s
unfolding text_literal
text_literal-double_quotes s hs =
    rw (decode_string-double_quotes s, strlen_lem s hs, take_all s) refl

string_literal-token :
    (z p : List ℕ) (start : ℕ)
    → length p < 2 ^ 31
    → text_of z (token tk_string start (length p)) ≡ p
    → string_literal z (token tk_string start (length p)) ≡ ok (text_literal (decode_string p))
unfolding string_literal
string_literal-token z p start small e =
    let n : (token tk_string start (length p)).n ≡ length p = unfold token to_int in omega arith in
    let plain : leb (2 ^ 31) (length p) ≡ false = ground arith in rw (e, n, plain) refl

pair_at_other :
    (a b : ℕ) (z : List ℕ) (pos : ℕ) → (get_or z pos 0 == a) ≡ false → pair_at a b z pos ≡ false
unfolding pair_at
pair_at_other a b z pos h = elim (Bool-cases (ltb (pos + 1) (length z))) [
  | inl e ↦ rw (e, h) refl
  | inr e ↦ rw e refl
]

-- At the start of a source, a byte that is no space and opens no comment is left.
skip_trivia_none :
    (c : ℕ) (z : List ℕ)
    → is_space c ≡ false
    → (c == b'-') ≡ false
    → (c == b'/') ≡ false
    → skip_trivia (length (c ∷ z) + 1) (c ∷ z) 0 ≡ some 0
unfolding skip_trivia run skip_while
skip_trivia_none c z hs h₁ h₂ =
    let fuel : length (c ∷ z) + 1 ≡ suc (length z + 1) = omega arith in
    rw fuel
      (rw hs (rw (pair_at_other b'-' b'-' (c ∷ z) 0 h₁, pair_at_other b'/' b'*' (c ∷ z) 0 h₂) refl))

-- The call on a source that starts so.
pub lex_next_start :
    (libc : Numbers) (past c : ℕ) (z : List ℕ) (t : Token) (end : ℕ)
    → is_space c ≡ false
    → (c == b'-') ≡ false
    → (c == b'/') ≡ false
    → lex_at libc past (c ∷ z) 0 c (get_or z 0 0) ≡ ok (t, end)
    → lex_next libc (record { z = c ∷ z; past = past; pos = 0 })
      ≡ ok (t, record { z = c ∷ z; past = past; pos = end })
unfolding lex_next lex_here
lex_next_start libc past c z t end hs h₁ h₂ e =
    let here : leb (length (c ∷ z)) 0 ≡ false = ground arith in
    rw (skip_trivia_none c z hs h₁ h₂, lex_next) (rw (here, lex_here) (rw e refl))

lex_string :
    (libc : Numbers) (past : ℕ) (z : List ℕ) (d : ℕ)
    → lex_at libc past z 0 b'\'' d ≡ ok (scan_quoted b'\'' tk_string z 1)
unfolding lex_at lex_rest is_id_start is_alpha is_digit
lex_string libc past z d = refl

pub lex_blob :
    (libc : Numbers) (past : ℕ) (z : List ℕ)
    → lex_at libc past z 0 b'X' b'\'' ≡ ok (lex_until tk_blob b'\'' z 2)
unfolding lex_at
lex_blob libc past z = refl

-- The token that stands at `start` of a source that goes on behind it.
pub text_at :
    (front p rest : List ℕ) (start n : ℕ) (kind : Kind)
    → length front ≡ start
    → length p ≡ n
    → n < 2 ^ 31
    → text_of (front ++ (p ++ rest)) (token kind start n) ≡ p
unfolding text_of token to_int
text_at front p rest start n kind h k small =
    let same : n % 2 ^ 32 ≡ n = omega arith in
    let fits : ltb n (2 ^ 31) ≡ true = ground arith in
    rw (same, fits, ← h) (rw (drop-append front (p ++ rest)) (rw (← k) (take-append p rest)))

-- The lexing of a literal whose text is `body`, from behind its opening quote on.
scan_quoted-body :
    (body rest : List ℕ)
    → quote_end b'\'' (body ++ (b'\'' ∷ rest)) 1 ≡ 1 + length body
    → scan_quoted b'\'' tk_string (b'\'' ∷ (body ++ (b'\'' ∷ rest))) 1
      ≡ (token tk_string 1 (length body), length body + 2)
unfolding scan_quoted step_over
scan_quoted-body body rest e =
    let inside : ltb (1 + length body) (length (b'\'' ∷ (body ++ (b'\'' ∷ rest)))) ≡ true =
      ground (arith, length-append body (b'\'' ∷ rest)) in
    let size : 1 + length body - 1 ≡ length body = omega arith in
    let behind : 1 + length body + 1 ≡ length body + 2 = omega arith in
    rw e (rw (inside, size, behind) refl)

-- For a text without NUL bytes whose literal is shorter than 2 ^ 31 bytes, and whatever follows it, if
-- that does not start with a quote:
-- `tdb_lex_next` on what `quote_value` writes of the text gives a token of the kind TK_STRING and ends
-- right behind the literal, and `decode_string` and `tdb_value_set_text` make the same text of it.
pub quote_value-text :
    (libc : Numbers) (pr : Printing) (s rest : List ℕ) (past : ℕ)
    → All (λ c. (c == 0) ≡ false) s
    → (get_or rest 0 0 == b'\'') ≡ false
    → length (quote_value pr (Value.text s)) < 2 ^ 31
    → let z = quote_value pr (Value.text s) ++ rest in
      (t : Token) × (lex_next libc (record { z = z; past = past; pos = 0 })
        ≡ ok (t, record { z = z; past = past; pos = length (quote_value pr (Value.text s)) }))
      × (t.kind ≡ tk_string)
      × (string_literal z t ≡ ok (Value.text s))
unfolding quote_value quoted
quote_value-text libc pr s rest past hs h short =
    let body : List ℕ = double_quotes s in
    let y : List ℕ = body ++ (b'\'' ∷ rest) in
    let e : (body ++ (b'\'' ∷ [])) ++ rest ≡ y = append_assoc body (b'\'' ∷ []) rest in
    let scanned = scan_quoted-body body rest (quote_end-double_quotes s rest 1 h ∙ omega arith) in
    let long : suc (length (body ++ (b'\'' ∷ []))) ≡ length body + 2 =
      omega (arith, length-append body (b'\'' ∷ [])) in
    let small : length body < 2 ^ 31 = omega (arith, short, length-append body (b'\'' ∷ [])) in
    let there =
      text_at (b'\'' ∷ []) body (b'\'' ∷ rest) 1 (length body) tk_string refl refl small in
    rw (e, long)
      (
        token tk_string 1 (length body),
        lex_next_start libc past b'\'' y (token tk_string 1 (length body)) (length body + 2)
            (unfold is_space in refl) refl refl
            (lex_string libc past (b'\'' ∷ y) (get_or y 0 0) ∙ ap ok scanned),
        unfold token in refl,
        string_literal-token (b'\'' ∷ y) body 1 small there
            ∙ ap ok (text_literal-double_quotes s hs),
      )
