-- ===== src/Sql/Lexer/Progress.antt =====
-- `tdb_lex_next` moves on and stays inside the source.
use transaction_db.Base.{
  ℕ, ◌+◌, ◌^◌, ◌<◌, ◌≤◌, ◌≡◌, refl, ◌⊎◌, inl, inr, Bool, true, false, ◌&&◌, ◌||◌, List, arith,
  length, get_or, leb, ◌==◌, Bool-cases,
}
use transaction_db.Status.{ok}
use transaction_db.Sql.Token.{tk_eof, tk_string, tk_id, tk_blob}
use transaction_db.Sql.Lexer.{Numbers, Token, Lexer, is_digit, is_id_start}
use transaction_db.Sql.Lexer.Next.{to_int, token, lex_rest, lex_at, lex_here, lex_next}
use transaction_db.Sql.Lexer.Bounds.{and_true, skip_trivia_lem}
use transaction_db.Sql.Lexer.Branches.{
  IsLexed, get_or-inside, lex_until-IsLexed, scan_quoted-IsLexed, lex_param-IsLexed,
  lex_word-IsLexed, lex_operator-IsLexed, lex_dollar-IsLexed,
}
use transaction_db.Sql.Lexer.Digits.{lex_number-IsLexed}

or_true : (a b : Bool) → (a || b) ≡ true → (a ≡ true) ⊎ (b ≡ true)
or_true true b h = inl refl
or_true false b h = inr h

number_start :
    (c d : ℕ)
    → (is_digit c || c == b'.' && is_digit d) ≡ true
    → (is_digit c ≡ true) ⊎ ((c == b'.') ≡ true)
number_start c d e = elim (or_true (is_digit c) (c == b'.' && is_digit d) e) [
  | inl digit ↦ inl digit
  | inr point ↦ inr (and_true (c == b'.') (is_digit d) point).0
]

lex_rest-IsLexed :
    (past : ℕ) (z : List ℕ) (pos : ℕ)
    → (past == b'$') ≡ false
    → pos < length z
    → length z < 2 ^ 31
    → IsLexed (length z) pos (lex_rest past z pos (get_or z pos 0) (get_or z (pos + 1) 0))
unfolding lex_rest
lex_rest-IsLexed past z pos h lo small =
    let c : ℕ = get_or z pos 0 in
    let next : pos < pos + 1 = omega arith in
    let more : pos + 1 ≤ length z = omega arith in
    elim (Bool-cases (c == b'\'')) [
      | inl e ↦ rw e (scan_quoted-IsLexed b'\'' tk_string z pos (pos + 1) next more small)
      | inr e₁ ↦ elim (Bool-cases (c == b'"')) [
        | inl e ↦ rw (e₁, e) (scan_quoted-IsLexed b'"' tk_id z pos (pos + 1) next more small)
        | inr e₂ ↦ elim (Bool-cases (c == b'`')) [
          | inl e ↦ rw (e₁, e₂, e) (scan_quoted-IsLexed b'`' tk_id z pos (pos + 1) next more small)
          | inr e₃ ↦ elim (Bool-cases (c == b'[')) [
            | inl e ↦
                rw (e₁, e₂, e₃, e) (lex_until-IsLexed tk_id b']' z pos (pos + 1) next more small)
            | inr e₄ ↦ elim (Bool-cases (c == b'$')) [
              | inl e ↦ rw (e₁, e₂, e₃, e₄, e) (lex_dollar-IsLexed past z pos h lo small)
              | inr e₅ ↦ elim (Bool-cases (c == b'?' || c == b':' || c == b'@')) [
                | inl e ↦ rw (e₁, e₂, e₃, e₄, e₅, e) (lex_param-IsLexed z pos lo small)
                | inr e ↦ rw (e₁, e₂, e₃, e₄, e₅, e) (lex_operator-IsLexed z pos lo)
              ]
            ]
          ]
        ]
      ]
    ]

-- Each branch of the lexer.
lex_at-IsLexed :
    (libc : Numbers) (past : ℕ) (z : List ℕ) (pos : ℕ)
    → (past == b'$') ≡ false
    → pos < length z
    → length z < 2 ^ 31
    → (t : Token × ℕ) × (lex_at libc past z pos (get_or z pos 0) (get_or z (pos + 1) 0) ≡ ok t)
      × IsLexed (length z) pos t
unfolding lex_at
lex_at-IsLexed libc past z pos h lo small =
    let c : ℕ = get_or z pos 0 in
    let d : ℕ = get_or z (pos + 1) 0 in
    elim (Bool-cases ((c == b'x' || c == b'X') && d == b'\'')) [
      | inl e ↦
          let (x, quote) = and_true (c == b'x' || c == b'X') (d == b'\'') e in
          let there : (d == 0) ≡ false = ground arith in
          let inside = get_or-inside z (pos + 1) there in
          rw e (
            _,
            refl,
            lex_until-IsLexed tk_blob b'\'' z pos (pos + 2) (omega arith) (omega (arith, inside))
                small,
          )
      | inr e₁ ↦ elim (Bool-cases (is_id_start c)) [
        | inl e ↦ rw (e₁, e) (_, refl, lex_word-IsLexed z pos lo e small)
        | inr e₂ ↦ elim (Bool-cases (is_digit c || c == b'.' && is_digit d)) [
          | inl e ↦ rw (e₁, e₂, e) (lex_number-IsLexed libc z pos lo (number_start c d e) small)
          | inr e₃ ↦ rw (e₁, e₂, e₃) (_, refl, lex_rest-IsLexed past z pos h lo small)
        ]
      ]
    ]

-- What a call gives: the end of the source, or a token.
abbrev pub IsNext : Lexer → Token × Lexer → Type 0
IsNext lx (t, lx') =
    (lx'.z ≡ lx.z)
    × (lx'.past ≡ lx.past)
    × (((t.kind ≡ tk_eof) × (t.n ≡ 0) × (lx'.pos ≡ length lx.z))
        ⊎ IsLexed (length lx.z) lx.pos (t, lx'.pos))

IsLexed-later : (len p q : ℕ) (r : Token × ℕ) → p ≤ q → IsLexed len q r → IsLexed len p r
IsLexed-later len p q (t, end) h (a, b, c, d) = (omega arith, b, omega arith, d)

lex_here-IsNext :
    (libc : Numbers) (lx : Lexer) (pos : ℕ)
    → lx.pos ≤ pos
    → pos ≤ length lx.z
    → length lx.z < 2 ^ 31
    → (lx.past == b'$') ≡ false
    → (r : Token × ℕ) × (lex_here libc lx pos ≡ ok r) × IsNext lx (r.0, record lx { pos = r.1 })
unfolding lex_here token to_int
lex_here-IsNext libc lx pos lo hi small h = elim (Bool-cases (leb (length lx.z) pos)) [
  | inl e ↦ rw e (_, refl, (refl, refl, inl (refl, refl, ground arith)))
  | inr e ↦
      let (r, same, lexed) = lex_at-IsLexed libc lx.past lx.z pos h (ground arith) small in
      rw e (r, same, (refl, refl, inr (IsLexed-later (length lx.z) lx.pos pos r lo lexed)))
]

-- For a lexer inside its source of fewer than 2 ^ 31 bytes, with a byte other than a dollar sign behind
-- it (as the NUL of a C string is), `tdb_lex_next` ends, whatever the bytes are: no loop runs out of
-- its rounds. It leaves the source alone and gives either the end-of-file token of length 0 with the
-- position at the end, or a token with the position strictly further on, still inside the source,
-- and the text of the token between the old position and the new.
pub lex_next-IsNext :
    (libc : Numbers) (lx : Lexer)
    → lx.pos ≤ length lx.z
    → length lx.z < 2 ^ 31
    → (lx.past == b'$') ≡ false
    → (r : Token × Lexer) × (lex_next libc lx ≡ ok r) × IsNext lx r
unfolding lex_next
lex_next-IsNext libc lx inside small h =
    let (pos, e, lo, hi) = skip_trivia_lem (length lx.z + 1) lx.z lx.pos inside (omega arith) in
    let (r, same, next) = lex_here-IsNext libc lx pos lo hi small h in
    ((r.0, record lx { pos = r.1 }), rw (e, lex_next) (rw same refl), next)
