-- ===== src/Sql/Lexer/Branches.antt =====
-- The branches of `tdb_lex_next`: where each leaves the lexer, and where its token lies.
use transaction_db.Base.{
  ℕ, zero, suc, ◌+◌, ◌-◌, ◌^◌, ◌<◌, ◌≤◌, ◌≡◌, refl, ◌⊎◌, inl, inr, Bool, true, false, ◌&&◌, not,
  List, [], ◌∷◌, arith, length, get_or, take, drop, length-drop, length-take, ltb, ◌==◌,
  if◌then◌else◌, Bool-cases,
}
use transaction_db.Sql.Token.{Kind}
use transaction_db.Sql.Lexer.{Token, is_digit, is_alpha, is_id_start, is_id_char, run}
use transaction_db.Sql.Lexer.Next.{
  to_int, token, lex_until, quote_end, scan_quoted, dollar_end, lex_param, tag_end,
  lex_dollar_quote, lex_dollar, lex_word, operator, lex_operator,
}
use transaction_db.Sql.Lexer.Bounds.{
  and_true, run_lem, run_moves, quote_end_lem, step_over_lem, dollar_end_lem,
}

-- A token from `pos` on: the position behind it is past `pos` and inside the source, and its text lies
-- between the two.
abbrev pub IsLexed : ℕ → ℕ → Token × ℕ → Type 0
IsLexed len pos (t, end) = (pos < end) × (end ≤ len) × (pos ≤ t.start) × (t.start + t.n ≤ end)

pub lex_until-IsLexed :
    (kind : Kind) (c : ℕ) (z : List ℕ) (pos start : ℕ)
    → pos < start
    → start ≤ length z
    → length z < 2 ^ 31
    → IsLexed (length z) pos (lex_until kind c z start)
unfolding lex_until token to_int
lex_until-IsLexed kind c z pos start h inside small =
    let (a, b) = run_lem (λ t. not (t == c)) z start inside in
    let (d, e) = step_over_lem z (run (λ t. not (t == c)) z start) b in
    (omega (arith, a, d), e, omega arith, omega (arith, a, d))

pub scan_quoted-IsLexed :
    (d : ℕ) (kind : Kind) (z : List ℕ) (pos start : ℕ)
    → pos < start
    → start ≤ length z
    → length z < 2 ^ 31
    → IsLexed (length z) pos (scan_quoted d kind z start)
unfolding scan_quoted token to_int
scan_quoted-IsLexed d kind z pos start h inside small =
    let (a, b) = quote_end_lem d (drop start z) start in
    let b' : quote_end d (drop start z) start ≤ length z = omega (arith, b, length-drop start z) in
    let (c, e) = step_over_lem z (quote_end d (drop start z) start) b' in
    (omega (arith, a, c), e, omega arith, omega (arith, a, c))

pub lex_param-IsLexed :
    (z : List ℕ) (pos : ℕ)
    → pos < length z
    → length z < 2 ^ 31
    → IsLexed (length z) pos (lex_param z pos)
unfolding lex_param token to_int
lex_param-IsLexed z pos h small =
    let (a, b) = run_lem is_id_char z (pos + 1) (omega arith) in
    (omega (arith, a), b, omega arith, omega (arith, a))

id_start_char : (c : ℕ) → is_id_start c ≡ true → is_id_char c ≡ true
unfolding is_id_start is_id_char is_alpha is_digit
id_start_char c e = elim (Bool-cases (is_alpha c)) [
  | inl letter ↦ rw letter refl
  | inr other ↦
      let low : (c == b'_') ≡ true = rw other at e in
      let same : c ≡ b'_' = ground arith in rw same refl
]

pub lex_word-IsLexed :
    (z : List ℕ) (pos : ℕ)
    → pos < length z
    → is_id_start (get_or z pos 0) ≡ true
    → length z < 2 ^ 31
    → IsLexed (length z) pos (lex_word z pos)
unfolding lex_word token to_int
lex_word-IsLexed z pos h e small =
    let (a, b) = run_moves is_id_char z pos h (id_start_char (get_or z pos 0) e) in
    (a, b, omega arith, omega (arith, a))

pub get_or-inside : (z : List ℕ) (i : ℕ) → (get_or z i 0 == 0) ≡ false → i < length z
get_or-inside [] i e = cc
get_or-inside (c ∷ z) zero e = omega arith
get_or-inside (c ∷ z) (suc i) e = omega (arith, get_or-inside z i e)

operator_len : (c d : ℕ) → (1 ≤ (operator c d).1) × ((operator c d).1 ≤ (if d == 0 then 1 else 2))
unfolding operator
operator_len c d = ground arith

pub lex_operator-IsLexed :
    (z : List ℕ) (pos : ℕ)
    → pos < length z
    → IsLexed (length z) pos (lex_operator pos (get_or z pos 0) (get_or z (pos + 1) 0))
unfolding lex_operator token to_int operator
lex_operator-IsLexed z pos h =
    let c : ℕ = get_or z pos 0 in
    let d : ℕ = get_or z (pos + 1) 0 in
    let (a, b) = operator_len c d in
    let inside : pos + (operator c d).1 ≤ length z = elim (Bool-cases (d == 0)) [
      | inl e ↦ let one : (operator c d).1 ≤ 1 = rw e at b in omega (arith, one)
      | inr e ↦
          let two : (operator c d).1 ≤ 2 = rw e at b in
          omega (arith, two, get_or-inside z (pos + 1) e)
    ] in
    (omega (arith, a), inside, omega arith, omega arith)

pub lex_dollar_quote-IsLexed :
    (past : ℕ) (z : List ℕ) (pos t : ℕ)
    → (past == b'$') ≡ false
    → pos < t
    → t < length z
    → length z < 2 ^ 31
    → IsLexed (length z) pos (lex_dollar_quote past z pos t)
unfolding lex_dollar_quote token to_int
lex_dollar_quote-IsLexed past z pos t h lo hi small =
    let taglen : ℕ = t - (pos + 1) in
    let tag : List ℕ = take taglen (drop (pos + 1) z) in
    let end : ℕ = dollar_end past tag (drop (t + 1) z) (t + 1) in
    let size : length tag ≡ taglen =
      omega (arith, length-take taglen (drop (pos + 1) z), length-drop (pos + 1) z) in
    let (a, b) = dollar_end_lem past tag (drop (t + 1) z) (t + 1) h in
    let inside : (end ≡ length z) ⊎ (end + taglen + 2 ≤ length z) = elim b [
      | inl whole ↦ inl (omega (arith, whole, length-drop (t + 1) z))
      | inr more ↦ inr (omega (arith, more, size, length-drop (t + 1) z))
    ] in
    elim (Bool-cases (ltb end (length z))) [
      | inl e ↦
          let room : end + taglen + 2 ≤ length z = elim inside [
            | inl whole ↦ absurd (ground arith)
            | inr more ↦ more
          ] in
          rw e (omega (arith, a), omega (arith, room), omega arith, omega (arith, a))
      | inr e ↦
          let bound : end ≤ length z = elim inside [
            | inl whole ↦ omega (arith, whole)
            | inr more ↦ omega (arith, more)
          ] in
          rw e (omega (arith, a), bound, omega arith, omega (arith, a))
    ]

pub lex_dollar-IsLexed :
    (past : ℕ) (z : List ℕ) (pos : ℕ)
    → (past == b'$') ≡ false
    → pos < length z
    → length z < 2 ^ 31
    → IsLexed (length z) pos (lex_dollar past z pos)
unfolding lex_dollar tag_end
lex_dollar-IsLexed past z pos h lo small =
    let p : ℕ → Bool = λ b. is_id_char b && not (b == b'$') in
    let t : ℕ = run p z (pos + 1) in
    let (a, b) = run_lem p z (pos + 1) (omega arith) in
    elim (Bool-cases (ltb t (length z) && get_or z t 0 == b'$')) [
      | inl e ↦
          let (inside, dollar) = and_true (ltb t (length z)) (get_or z t 0 == b'$') e in
          rw e (lex_dollar_quote-IsLexed past z pos t h (omega (arith, a)) (ground arith) small)
      | inr e ↦ rw e (lex_param-IsLexed z pos lo small)
    ]
