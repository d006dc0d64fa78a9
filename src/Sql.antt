-- ===== src/Sql.antt =====
-- sql/: the tokens of SQL.
pub mod Token
pub mod Lexer
pub mod Literal
