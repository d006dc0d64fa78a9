-- ===== src/Sql/Literal.antt =====
-- Literals: `quote_value` of sql/tdb_exec_funcs.inc writes them, and `decode_string` and the branch for
-- TK_BLOB of sql/tdb_parser.c read the tokens that the lexer makes of them. Memory is granted, and the
-- printing of numbers by `snprintf` is a parameter.
pub mod RoundTrip
pub mod Blob
use transaction_db.Base.{
  ℕ, ◌+◌, ◌-◌, ◌*◌, ◌/◌, ◌%◌, ◌^◌, not, ◌⊎◌, inl, inr, Bool, ◌&&◌, Option, none, some, List, [],
  ◌∷◌, ◌++◌, take, drop, ltb, leb, ◌==◌, if◌then◌else◌,
}
use transaction_db.Base.Int.{ℤ}
use transaction_db.Status.{Result, ok, stuck}
use transaction_db.Value.{Value}
use transaction_db.Sql.Lexer.{Token, strlen}

-- `snprintf` with "%lld" and "%g".
pub record Printing : Type 0 where
  pub print_int : ℤ → List ℕ
  pub print_real : ℕ → List ℕ

-- The loop that doubles the quotes.
unfoldable pub double_quotes : List ℕ → List ℕ
double_quotes [] = []
double_quotes (c ∷ s) =
    let rest = double_quotes s in if c == b'\'' then c ∷ b'\'' ∷ rest else c ∷ rest

-- `hexd`
unfoldable pub hex_digit : ℕ → ℕ
hex_digit n = if leb n 9 then b'0' + n else b'a' + (n - 10)

unfoldable pub hex_bytes : List ℕ → List ℕ
hex_bytes [] = []
hex_bytes (c ∷ s) = hex_digit (c / 16) ∷ hex_digit (c % 16) ∷ hex_bytes s

unfoldable pub quoted : List ℕ → List ℕ
quoted s = b'\'' ∷ (s ++ (b'\'' ∷ []))

-- `quote_value`
unfoldable pub quote_value : Printing → Value → List ℕ
quote_value libc Value.null = b'N' ∷ b'U' ∷ b'L' ∷ b'L' ∷ []
quote_value libc (Value.int i) = libc.print_int i
quote_value libc (Value.real r) = libc.print_real r
quote_value libc (Value.blob s) = b'X' ∷ quoted (hex_bytes s)
quote_value libc (Value.text s) = quoted (double_quotes s)
quote_value libc (Value.composite s) = quoted (double_quotes s)

-- The bytes of a token that a loop up to its length sees: none if the length is negative.
unfoldable pub text_of : List ℕ → Token → List ℕ
text_of z t = if ltb t.n (2 ^ 31) then take t.n (drop t.start z) else []

-- `decode_string`
unfoldable pub decode_string : List ℕ → List ℕ
decode_string [] = []
decode_string (c ∷ []) = c ∷ []
decode_string (c ∷ e ∷ s) =
    let behind = decode_string s in
    let rest = decode_string (e ∷ s) in if c == b'\'' && e == b'\'' then c ∷ behind else c ∷ rest

-- `tdb_value_set_text` takes the length up to the first NUL.
unfoldable pub text_literal : List ℕ → Value
text_literal s = Value.text (take (strlen s) s)

-- The value of a string literal. For a length of -1, `decode_string` asks for 0 bytes and writes the NUL
-- there; for any other negative length it asks for nearly 2 ^ 64 bytes, and writes the NUL
-- into memory that it does not have.
unfoldable pub string_literal : List ℕ → Token → Result Value
string_literal z t =
    if leb (2 ^ 31) t.n && not (t.n == 2 ^ 32 - 1)
    then stuck
    else ok (text_literal (decode_string (text_of z t)))

-- The value of a digit, `none` for the -1 of the code.
unfoldable pub digit_value : ℕ → Option ℕ
digit_value c =
    if leb b'0' c && leb c b'9'
    then some (c - b'0')
    else if leb b'a' c && leb c b'f'
    then some (c - b'a' + 10)
    else if leb b'A' c && leb c b'F'
    then some (c - b'A' + 10)
    else none

-- The errors of a blob literal.
pub data BlobError : Type 0 where
  odd_length invalid_digit : BlobError

unfoldable pub join_digits : Option ℕ → Option ℕ → BlobError ⊎ List ℕ → BlobError ⊎ List ℕ
join_digits (some hv) (some lv) (inr s) = inr ((hv * 16 + lv) ∷ s)
join_digits (some hv) (some lv) (inl e) = inl e
join_digits none lv rest = inl invalid_digit
join_digits (some hv) none rest = inl invalid_digit

unfoldable pub decode_pairs : List ℕ → BlobError ⊎ List ℕ
decode_pairs [] = inr []
decode_pairs (a ∷ []) = inr []
decode_pairs (a ∷ b ∷ s) = join_digits (digit_value a) (digit_value b) (decode_pairs s)

-- The branch for TK_BLOB. Of an even length that is negative no digit is decoded, and the blob is
-- empty.
unfoldable pub blob_literal : List ℕ → Token → BlobError ⊎ Value
blob_literal z t =
    if t.n % 2 == 1
    then inl odd_length
    else (elim (decode_pairs (text_of z t)) [ inl e ↦ inl e | inr s ↦ inr (Value.blob s) ])
