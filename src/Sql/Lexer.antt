-- ===== src/Sql/Lexer.antt =====
-- sql/tdb_lexer.c: the lexer. A position is its offset in the source, whose bytes up to `len` are the
-- list `z`; `past` is the byte behind them, which the search for the end of a dollar quote can read.
-- The length of a token is cast to `int`, whose pattern of 32 bits is kept. `strtoll` and `strtod` are
-- parameters, and a number of 64 bits is its pattern.
pub mod Next
pub mod Bounds
pub mod Branches
pub mod Digits
pub mod Progress
use transaction_db.Base.{
  ℕ, zero, suc, ◌+◌, ◌-◌, min, Bool, true, false, ◌&&◌, ◌||◌, not, Option, none, some, List, [],
  ◌∷◌, ◌++◌, length, get_or, take, drop, leb, ltb, ◌==◌, if◌then◌else◌,
}
use transaction_db.Base.CString.{is_space, str_case_eq}
use transaction_db.Status.{Result, ok, err, stuck, range}
use transaction_db.Sql.Token.{
  Kind, Keyword, keywords, all_keywords, tk_eof, tk_illegal, tk_id, tk_string, tk_integer, tk_float,
  tk_blob, tk_param, tk_lp, tk_rp, tk_comma, tk_semi, tk_dot, tk_star, tk_plus, tk_minus, tk_slash,
  tk_percent, tk_eq, tk_ne, tk_lt, tk_le, tk_gt, tk_ge, tk_concat, tk_bitand, tk_bitor, tk_bitnot,
  tk_shl, tk_shr,
}

-- The calls of the C library on the digits of a number, and the conversions of the C language.
pub record Numbers : Type 0 where
  pub strtoll : List ℕ → ℕ
  pub strtod : List ℕ → ℕ
  pub to_double : ℕ → ℕ
  pub to_int64 : ℕ → ℕ

-- `tdb_token`, with `z` as an offset, and `n` as the pattern of an `int`.
pub record Token : Type 0 where
  pub kind : Kind
  pub start : ℕ
  pub n : ℕ
  pub ival : ℕ
  pub rval : ℕ

-- `tdb_lexer`
pub record Lexer : Type 0 where
  pub z : List ℕ
  pub past : ℕ
  pub pos : ℕ

-- `strlen`
unfoldable pub strlen : List ℕ → ℕ
strlen [] = 0
strlen (c ∷ s) = let rest = strlen s in if c == 0 then 0 else rest + 1

-- `tdb_lex_init`
unfoldable pub lex_init : List ℕ → ℕ → Lexer
lex_init sql len =
    let n = if len == 0 then strlen sql else len in
    record { z = take n sql; past = get_or sql n 0; pos = 0 }

unfoldable pub find_keyword : List ℕ → List Keyword → Kind
find_keyword s [] = tk_id
find_keyword s (k ∷ ks) =
    let rest = find_keyword s ks in if str_case_eq s k.name then k.kind else rest

-- `tdb_keyword_lookup`
unfoldable pub keyword_lookup : List ℕ → Kind
keyword_lookup s = find_keyword s keywords

-- `tdb_keyword_count`
unfoldable pub keyword_count : ℕ
keyword_count = length all_keywords

-- `tdb_keyword_name`, for an index that is not negative.
unfoldable pub keyword_name : ℕ → Result (List ℕ)
keyword_name i = if leb keyword_count i then err range else ok (get_or all_keywords i [])

unfoldable pub find_listed : List ℕ → List (List ℕ) → Bool
find_listed s [] = false
find_listed s (name ∷ names) =
    let rest = find_listed s names in if str_case_eq s name then true else rest

-- `tdb_keyword_check`
unfoldable pub keyword_check : List ℕ → Bool
keyword_check s = find_listed s all_keywords

unfoldable pub is_alpha : ℕ → Bool
is_alpha c = leb b'A' c && leb c b'Z' || leb b'a' c && leb c b'z'

unfoldable pub is_digit : ℕ → Bool
is_digit c = leb b'0' c && leb c b'9'

unfoldable pub is_xdigit : ℕ → Bool
is_xdigit c = is_digit c || leb b'A' c && leb c b'F' || leb b'a' c && leb c b'f'

unfoldable pub is_id_start : ℕ → Bool
is_id_start c = is_alpha c || c == b'_'

unfoldable pub is_id_char : ℕ → Bool
is_id_char c = is_alpha c || is_digit c || c == b'_' || c == b'$'

-- The position behind the bytes that pass a test, from those at `pos` on.
unfoldable pub skip_while : (ℕ → Bool) → List ℕ → ℕ → ℕ
skip_while p [] pos = pos
skip_while p (c ∷ cs) pos = let rest = skip_while p cs (pos + 1) in if p c then rest else pos

-- `while (lx->pos < lx->len && p(lx->z[lx->pos])) lx->pos++;`
unfoldable pub run : (ℕ → Bool) → List ℕ → ℕ → ℕ
run p z pos = skip_while p (drop pos z) pos

-- The position behind the end of a comment.
unfoldable pub comment_end : List ℕ → ℕ → ℕ
comment_end [] pos = pos
comment_end (a ∷ []) pos = pos + 1
comment_end (a ∷ b ∷ cs) pos =
    let rest = comment_end (b ∷ cs) (pos + 1) in if a == b'*' && b == b'/' then pos + 2 else rest

-- Two bytes inside the source.
unfoldable pub pair_at : ℕ → ℕ → List ℕ → ℕ → Bool
pair_at a b z pos = ltb (pos + 1) (length z) && get_or z pos 0 == a && get_or z (pos + 1) 0 == b

-- `skip_trivia`, with fuel: `none` where it has not ended.
unfoldable pub skip_trivia : ℕ → List ℕ → ℕ → Option ℕ
skip_trivia zero z pos = none
skip_trivia (suc f) z pos =
    let p = run is_space z pos in
    let behind_line = skip_trivia f z (run (λ c. not (c == b'\n')) z (p + 2)) in
    let behind_block = skip_trivia f z (comment_end (drop (p + 2) z) (p + 2)) in
    if pair_at b'-' b'-' z p
    then behind_line
    else if pair_at b'/' b'*' z p
    then behind_block
    else some p
