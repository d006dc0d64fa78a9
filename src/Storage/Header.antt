-- ===== src/Storage/Header.antt =====
-- storage/tdb_pager.c and storage/tdb_format.h: the header of the database in the first 100 bytes of
-- page 1.
use transaction_db.Base.{
  ℕ, zero, suc, ◌%◌, ◌^◌, ◌<◌, ◌≤◌, ◌≡◌, refl, List, [], ◌∷◌, ◌++◌, arith, leb, ◌==◌, if◌then◌else◌,
  drop,
}
use transaction_db.Util.BigEndian.{
  put_u16, put_u32, put_u64, get_u16, get_u32, get_u64, get_u16-put_u16, get_u32-put_u32,
  get_u64-put_u64,
}
use transaction_db.Util.Checksum.{crc32c}

-- `tdb_dbhdr`
pub record Header : Type 0 where
  pub page_size : ℕ
  pub change_counter : ℕ
  pub db_size : ℕ
  pub freelist_head : ℕ
  pub freelist_count : ℕ
  pub catalog_root : ℕ
  pub schema_cookie : ℕ
  pub text_encoding : ℕ
  pub max_txnid : ℕ
  pub reserved_per_page : ℕ

-- `hdr_parse`; a stored page size of 0 stands for 65536.
unfoldable pub page_size_of : ℕ → ℕ
page_size_of n = if n == 0 then 65536 else n

unfoldable pub hdr_parse : List ℕ → Header
hdr_parse b = record {
  page_size = page_size_of (get_u16 (drop 16 b));
  change_counter = get_u32 (drop 24 b);
  db_size = get_u32 (drop 28 b);
  freelist_head = get_u32 (drop 32 b);
  freelist_count = get_u32 (drop 36 b);
  catalog_root = get_u32 (drop 40 b);
  schema_cookie = get_u32 (drop 44 b);
  text_encoding = get_u32 (drop 48 b);
  max_txnid = get_u64 (drop 52 b);
  reserved_per_page = get_u32 (drop 60 b);
}

-- `TDB_MAGIC` with its padding.
abbrev pub magic : List ℕ
magic =
    b'T' ∷ b'r' ∷ b'a' ∷ b'n' ∷ b's' ∷ b'a' ∷ b'c' ∷ b't' ∷ b'i' ∷ b'o' ∷ b'n' ∷ b'D' ∷ b'B' ∷ 0 ∷ 0
    ∷ 0 ∷ []

unfoldable pub zeros : ℕ → List ℕ
zeros zero = []
zeros (suc n) = 0 ∷ zeros n

-- The fields from the change counter on, which end at byte 64.
unfoldable pub hdr_fields : Header → List ℕ
hdr_fields h =
    put_u32 h.change_counter
    ++ (put_u32 h.db_size
        ++ (put_u32 h.freelist_head
            ++ (put_u32 h.freelist_count
                ++ (put_u32 h.catalog_root
                    ++ (put_u32 h.schema_cookie
                        ++ (put_u32 h.text_encoding
                            ++ (put_u64 h.max_txnid ++ put_u32 h.reserved_per_page)))))))

unfoldable pub stored_size : ℕ → ℕ
stored_size n = if leb 65536 n then 0 else n % 2 ^ 16

-- The 96 bytes before the checksum.
unfoldable pub hdr_body : Header → List ℕ
hdr_body h =
    magic
    ++ (put_u16 (stored_size h.page_size) ++ (1 ∷ 1 ∷ (put_u32 1 ++ (hdr_fields h ++ zeros 32))))

-- The 100 bytes that `hdr_serialize` writes.
unfoldable pub hdr_serialize : Header → List ℕ
hdr_serialize h = hdr_body h ++ put_u32 (crc32c 0 (hdr_body h))

-- The fields fit their C types, and the page size is at most 65536.
abbrev pub IsHeader : Header → Type 0
IsHeader h =
    (1 ≤ h.page_size)
    × (h.page_size ≤ 65536)
    × (h.change_counter < 2 ^ 32)
    × (h.db_size < 2 ^ 32)
    × (h.freelist_head < 2 ^ 32)
    × (h.freelist_count < 2 ^ 32)
    × (h.catalog_root < 2 ^ 32)
    × (h.schema_cookie < 2 ^ 32)
    × (h.text_encoding < 2 ^ 32)
    × (h.max_txnid < 2 ^ 64)
    × (h.reserved_per_page < 2 ^ 32)

page_size_of-stored_size : (n : ℕ) → 1 ≤ n → n ≤ 65536 → page_size_of (stored_size n) ≡ n
unfolding page_size_of stored_size
page_size_of-stored_size n h h' = ground arith

stored_size_lt : (n : ℕ) → stored_size n < 2 ^ 16
unfolding stored_size
stored_size_lt n = ground arith

-- For a header whose fields fit and whose page size is between 1 and 65536, whatever bytes of the
-- page follow it: `hdr_parse` reads from what `hdr_serialize` wrote the same header.
pub hdr_parse-hdr_serialize :
    (h : Header) (rest : List ℕ) → IsHeader h → hdr_parse (hdr_serialize h ++ rest) ≡ h
unfolding hdr_parse hdr_serialize hdr_body hdr_fields zeros put_u16 put_u32 put_u64
hdr_parse-hdr_serialize h rest (s₁, s₂, a, b, c, d, e, f, g, i, j) =
    rw
      (
        get_u16-put_u16 (stored_size h.page_size) _ (stored_size_lt h.page_size),
        page_size_of-stored_size h.page_size s₁ s₂,
        get_u32-put_u32 h.change_counter _ a,
        get_u32-put_u32 h.db_size _ b,
        get_u32-put_u32 h.freelist_head _ c,
        get_u32-put_u32 h.freelist_count _ d,
        get_u32-put_u32 h.catalog_root _ e,
        get_u32-put_u32 h.schema_cookie _ f,
        get_u32-put_u32 h.text_encoding _ g,
        get_u64-put_u64 h.max_txnid _ i,
        get_u32-put_u32 h.reserved_per_page _ j,
      )
      refl
