-- ===== src/Tests/Sql.antt =====
-- src/sql on concrete inputs.
use transaction_db.Base.{ℕ, ◌≡◌, refl, List, [], ◌∷◌, ◌++◌, arith, length, inr}
use transaction_db.Base.CString.{to_lower, str_case_eq}
use transaction_db.Status.{ok}
use transaction_db.Value.{Value}
use transaction_db.Sql.Token.{tk_string, tk_blob, tk_select}
use transaction_db.Sql.Lexer.{Numbers, Token, Lexer, find_keyword, keyword_lookup}
use transaction_db.Sql.Lexer.Next.{lex_next}
use transaction_db.Sql.Lexer.Progress.{IsNext, lex_next-IsNext}
use transaction_db.Sql.Literal.{
  Printing, quoted, double_quotes, hex_bytes, quote_value, decode_string, string_literal,
  blob_literal,
}
use transaction_db.Sql.Literal.RoundTrip.{quote_value-text}
use transaction_db.Sql.Literal.Blob.{quote_value-blob}

-- Numbers that are all read as 0.
abbrev no_numbers : Numbers
no_numbers = record { strtoll = λ s. 0; strtod = λ s. 0; to_double = λ n. 0; to_int64 = λ n. 0 }

abbrev no_printing : Printing
no_printing = record { print_int = λ i. []; print_real = λ r. [] }

-- "-- a\nselect 'it''s'"
abbrev select_text : List ℕ
select_text =
    b'-' ∷ b'-' ∷ b' ' ∷ b'a' ∷ b'\n' ∷ b's' ∷ b'e' ∷ b'l' ∷ b'e' ∷ b'c' ∷ b't' ∷ b' ' ∷ b'\''
    ∷ b'i' ∷ b't' ∷ b'\'' ∷ b'\'' ∷ b's' ∷ b'\'' ∷ []

select_kind : keyword_lookup (b's' ∷ b'e' ∷ b'l' ∷ b'e' ∷ b'c' ∷ b't' ∷ []) ≡ tk_select
unfolding keyword_lookup find_keyword str_case_eq to_lower
select_kind = refl

abbrev select_lexer : Lexer
select_lexer = record { z = select_text; past = 0; pos = 0 }

lex_next-IsNext_example :
    (r : Token × Lexer) × (lex_next no_numbers select_lexer ≡ ok r) × IsNext select_lexer r
lex_next-IsNext_example = lex_next-IsNext no_numbers select_lexer (omega arith) (omega arith) refl

quote_value-text_example :
    (t : Token) × (lex_next no_numbers (record {
      z = quote_value no_printing (Value.text (b'i' ∷ b't' ∷ b'\'' ∷ b's' ∷ [])) ++ (b';' ∷ []);
      past = 0;
      pos = 0;
    })
      ≡ ok (
        t,
        record {
          z = quote_value no_printing (Value.text (b'i' ∷ b't' ∷ b'\'' ∷ b's' ∷ [])) ++ (b';' ∷ []);
          past = 0;
          pos = length (quote_value no_printing (Value.text (b'i' ∷ b't' ∷ b'\'' ∷ b's' ∷ [])));
        },
      ))
    × (t.kind ≡ tk_string)
    × (string_literal
          (quote_value no_printing (Value.text (b'i' ∷ b't' ∷ b'\'' ∷ b's' ∷ [])) ++ (b';' ∷ []))
          t
        ≡ ok (Value.text (b'i' ∷ b't' ∷ b'\'' ∷ b's' ∷ [])))
quote_value-text_example =
    quote_value-text no_numbers no_printing (b'i' ∷ b't' ∷ b'\'' ∷ b's' ∷ []) (b';' ∷ []) 0
      (refl, (refl, (refl, (refl, tt)))) refl
      (unfold quote_value quoted double_quotes in omega arith)

quote_value-blob_example :
    (t : Token) × (lex_next no_numbers (record {
      z = quote_value no_printing (Value.blob (171 ∷ 0 ∷ [])) ++ [];
      past = 0;
      pos = 0;
    })
      ≡ ok (
        t,
        record {
          z = quote_value no_printing (Value.blob (171 ∷ 0 ∷ [])) ++ [];
          past = 0;
          pos = length (quote_value no_printing (Value.blob (171 ∷ 0 ∷ [])));
        },
      ))
    × (t.kind ≡ tk_blob)
    × (blob_literal (quote_value no_printing (Value.blob (171 ∷ 0 ∷ [])) ++ []) t
        ≡ inr (Value.blob (171 ∷ 0 ∷ [])))
quote_value-blob_example =
    quote_value-blob no_numbers no_printing (171 ∷ 0 ∷ []) [] 0 (omega arith, (omega arith, tt))
      (unfold quote_value quoted hex_bytes in omega arith)

-- A dollar quote that holds two quotes loses one of them.
dollar_quote_loses : decode_string (b'a' ∷ b'\'' ∷ b'\'' ∷ b'b' ∷ []) ≡ b'a' ∷ b'\'' ∷ b'b' ∷ []
unfolding decode_string
dollar_quote_loses = refl
