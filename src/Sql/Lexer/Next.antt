-- ===== src/Sql/Lexer/Next.antt =====
-- `tdb_lex_next`: the branches, each with its token and the position behind it.
use transaction_db.Base.{
  ℕ, ◌+◌, ◌-◌, ◌%◌, ◌^◌, min, Bool, true, false, ◌&&◌, ◌||◌, not, none, some, List, [], ◌∷◌, ◌++◌,
  length, get_or, take, drop, leb, ltb, ◌==◌, if◌then◌else◌,
}
use transaction_db.Status.{Result, ok, stuck, ◌>>=◌}
use transaction_db.Sql.Token.{
  Kind, tk_eof, tk_illegal, tk_id, tk_string, tk_integer, tk_float, tk_blob, tk_param, tk_lp, tk_rp,
  tk_comma, tk_semi, tk_dot, tk_star, tk_plus, tk_minus, tk_slash, tk_percent, tk_eq, tk_ne, tk_lt,
  tk_le, tk_gt, tk_ge, tk_concat, tk_bitand, tk_bitor, tk_bitnot, tk_shl, tk_shr,
}
use transaction_db.Sql.Lexer.{
  Numbers, Token, Lexer, keyword_lookup, is_digit, is_xdigit, is_id_start, is_id_char, run,
  skip_trivia,
}

-- `(int)n`, as a pattern.
unfoldable pub to_int : ℕ → ℕ
to_int n = n % 2 ^ 32

-- The fields that are not set keep the 0 of `memset`. The length is cast to `int`.
unfoldable pub token : Kind → ℕ → ℕ → Token
token kind start n = record { kind = kind; start = start; n = to_int n; ival = 0; rval = 0 }

-- `if (lx->pos < lx->len) lx->pos++;`
unfoldable pub step_over : List ℕ → ℕ → ℕ
step_over z pos = if ltb pos (length z) then pos + 1 else pos

-- `while (lx->pos < lx->len && lx->z[lx->pos] != c) lx->pos++;`, the bytes on the way being the token.
unfoldable pub lex_until : Kind → ℕ → List ℕ → ℕ → Token × ℕ
lex_until kind c z start =
    let end = run (λ b. not (b == c)) z start in (token kind start (end - start), step_over z end)

-- The loop of `scan_quoted`.
unfoldable pub quote_end : ℕ → List ℕ → ℕ → ℕ
quote_end d [] pos = pos
quote_end d (c ∷ []) pos = if c == d then pos else pos + 1
quote_end d (c ∷ e ∷ cs) pos =
    let escaped = quote_end d cs (pos + 2) in
    let plain = quote_end d (e ∷ cs) (pos + 1) in
    if c == d then (if e == d then escaped else pos) else plain

-- `scan_quoted`, with the position behind the opening delimiter.
unfoldable pub scan_quoted : ℕ → Kind → List ℕ → ℕ → Token × ℕ
scan_quoted d kind z start =
    let end = quote_end d (drop start z) start in (token kind start (end - start), step_over z end)

-- `parse_number`. A negative `n` makes `memcpy` run past the buffer.
unfoldable pub parse_number : Numbers → Bool → List ℕ → ℕ → ℕ → Result Token
parse_number libc is_float z start n =
    let buf = take (min n 79) (drop start z) in
    if leb (2 ^ 31) n
    then stuck
    else if is_float
    then ok (record {
      kind = tk_float;
      start = start;
      n = n;
      ival = libc.to_int64 (libc.strtod buf);
      rval = libc.strtod buf;
    })
    else ok (record {
      kind = tk_integer;
      start = start;
      n = n;
      ival = libc.strtoll buf;
      rval = libc.to_double (libc.strtoll buf);
    })

-- The fraction and the exponent of a number: whether they are there, and the position behind them.
unfoldable pub fraction : List ℕ → ℕ → Bool × ℕ
fraction z pos =
    if ltb pos (length z) && get_or z pos 0 == b'.'
    then (true, run is_digit z (pos + 1))
    else (false, pos)

unfoldable pub sign_end : List ℕ → ℕ → ℕ
sign_end z pos =
    if ltb pos (length z) && (get_or z pos 0 == b'+' || get_or z pos 0 == b'-')
    then pos + 1
    else pos

unfoldable pub exponent : List ℕ → Bool × ℕ → Bool × ℕ
exponent z (is_float, pos) =
    if ltb pos (length z) && (get_or z pos 0 == b'e' || get_or z pos 0 == b'E')
    then (true, run is_digit z (sign_end z (pos + 1)))
    else (is_float, pos)

unfoldable pub number_end : List ℕ → ℕ → ℕ → ℕ → Bool × ℕ
number_end z start c d =
    if c == b'0' && (d == b'x' || d == b'X')
    then (false, run is_xdigit z (start + 2))
    else exponent z (fraction z (run is_digit z start))

unfoldable pub lex_number : Numbers → List ℕ → ℕ → ℕ → ℕ → Result (Token × ℕ)
lex_number libc z start c d =
    let (is_float, end) = number_end z start c d in
    parse_number libc is_float z start (to_int (end - start)) >>= λ t. ok (t, end)

-- `strncmp(p, tag, taglen) == 0` where the tag has no NUL.
unfoldable pub starts_with : List ℕ → List ℕ → Bool
starts_with [] s = true
starts_with (t ∷ tag) [] = false
starts_with (t ∷ tag) (c ∷ s) = t == c && starts_with tag s

-- The rest of the test for the end of a dollar quote, `s` being what is behind a dollar sign.
unfoldable pub closes : ℕ → List ℕ → List ℕ → Bool
closes past tag s =
    leb (length tag) (length s)
    && starts_with tag s
    && get_or (s ++ (past ∷ [])) (length tag) 0 == b'$'

-- The loop to the end of a dollar quote with the tag `tag`.
unfoldable pub dollar_end : ℕ → List ℕ → List ℕ → ℕ → ℕ
dollar_end past tag [] pos = pos
dollar_end past tag (c ∷ cs) pos =
    let rest = dollar_end past tag cs (pos + 1) in
    if c == b'$' && closes past tag cs then pos else rest

unfoldable pub lex_param : List ℕ → ℕ → Token × ℕ
lex_param z pos = let end = run is_id_char z (pos + 1) in (token tk_param pos (end - pos), end)

-- The end of the tag of a dollar quote.
unfoldable pub tag_end : List ℕ → ℕ → ℕ
tag_end z pos = run (λ b. is_id_char b && not (b == b'$')) z (pos + 1)

unfoldable pub lex_dollar_quote : ℕ → List ℕ → ℕ → ℕ → Token × ℕ
lex_dollar_quote past z pos t =
    let taglen = t - (pos + 1) in
    let start = t + 1 in
    let end = dollar_end past (take taglen (drop (pos + 1) z)) (drop start z) start in
    (token tk_string start (end - start), (if ltb end (length z) then end + (taglen + 2) else end))

unfoldable pub lex_dollar : ℕ → List ℕ → ℕ → Token × ℕ
lex_dollar past z pos =
    let t = tag_end z pos in
    if ltb t (length z) && get_or z t 0 == b'$'
    then lex_dollar_quote past z pos t
    else lex_param z pos

-- No keyword has a negative length.
unfoldable pub word_kind : List ℕ → ℕ → ℕ → Kind
word_kind z pos n = if leb (2 ^ 31) n then tk_id else keyword_lookup (take n (drop pos z))

unfoldable pub lex_word : List ℕ → ℕ → Token × ℕ
lex_word z pos =
    let end = run is_id_char z pos in
    (token (word_kind z pos (to_int (end - pos))) pos (end - pos), end)

-- The kind and the length of an operator: `c` is its first byte, `d` the one behind it.
unfoldable pub operator : ℕ → ℕ → Kind × ℕ
operator c d =
    if c == b'('
    then (tk_lp, 1)
    else if c == b')'
    then (tk_rp, 1)
    else if c == b','
    then (tk_comma, 1)
    else if c == b';'
    then (tk_semi, 1)
    else if c == b'.'
    then (tk_dot, 1)
    else if c == b'*'
    then (tk_star, 1)
    else if c == b'+'
    then (tk_plus, 1)
    else if c == b'-'
    then (tk_minus, 1)
    else if c == b'/'
    then (tk_slash, 1)
    else if c == b'%'
    then (tk_percent, 1)
    else if c == b'='
    then (tk_eq, (if d == b'=' then 2 else 1))
    else if c == b'<'
    then (if d == b'='
        then (tk_le, 2)
        else if d == b'>'
        then (tk_ne, 2)
        else if d == b'<'
        then (tk_shl, 2)
        else (tk_lt, 1))
    else if c == b'>'
    then (if d == b'=' then (tk_ge, 2) else if d == b'>' then (tk_shr, 2) else (tk_gt, 1))
    else if c == b'!'
    then (if d == b'=' then (tk_ne, 2) else (tk_illegal, 1))
    else if c == b'|'
    then (if d == b'|' then (tk_concat, 2) else (tk_bitor, 1))
    else if c == b'&'
    then (tk_bitand, 1)
    else if c == b'~'
    then (tk_bitnot, 1)
    else (tk_illegal, 1)

unfoldable pub lex_operator : ℕ → ℕ → ℕ → Token × ℕ
lex_operator pos c d = let (kind, n) = operator c d in (token kind pos n, pos + n)

-- The branches behind those of names and numbers.
unfoldable pub lex_rest : ℕ → List ℕ → ℕ → ℕ → ℕ → Token × ℕ
lex_rest past z pos c d =
    if c == b'\''
    then scan_quoted b'\'' tk_string z (pos + 1)
    else if c == b'"'
    then scan_quoted b'"' tk_id z (pos + 1)
    else if c == b'`'
    then scan_quoted b'`' tk_id z (pos + 1)
    else if c == b'['
    then lex_until tk_id b']' z (pos + 1)
    else if c == b'$'
    then lex_dollar past z pos
    else if c == b'?' || c == b':' || c == b'@'
    then lex_param z pos
    else lex_operator pos c d

-- `tdb_lex_next` behind the trivia: `c` and `d` are the bytes at `pos`.
unfoldable pub lex_at : Numbers → ℕ → List ℕ → ℕ → ℕ → ℕ → Result (Token × ℕ)
lex_at libc past z pos c d =
    if (c == b'x' || c == b'X') && d == b'\''
    then ok (lex_until tk_blob b'\'' z (pos + 2))
    else if is_id_start c
    then ok (lex_word z pos)
    else if is_digit c || c == b'.' && is_digit d
    then lex_number libc z pos c d
    else ok (lex_rest past z pos c d)

unfoldable pub lex_here : Numbers → Lexer → ℕ → Result (Token × ℕ)
lex_here libc lx pos =
    if leb (length lx.z) pos
    then ok (token tk_eof pos 0, pos)
    else lex_at libc lx.past lx.z pos (get_or lx.z pos 0) (get_or lx.z (pos + 1) 0)

-- `tdb_lex_next`
unfoldable pub lex_next : Numbers → Lexer → Result (Token × Lexer)
lex_next libc lx = elim (skip_trivia (length lx.z + 1) lx.z lx.pos) [
  | none ↦ stuck
  | some pos ↦ lex_here libc lx pos >>= λ r. ok (r.0, record lx { pos = r.1 })
]
