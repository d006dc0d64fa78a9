-- ===== src/Tests/Storage.antt =====
-- src/storage on concrete inputs.
use transaction_db.Base.{ℕ, ◌+◌, ◌^◌, ◌≡◌, refl, true, false, none, List, [], ◌∷◌, ◌++◌, arith, inr}
use transaction_db.Util.BigEndian.{get_u32}
use transaction_db.Storage.Header.{Header, hdr_parse, hdr_serialize, hdr_parse-hdr_serialize}
use transaction_db.Storage.Pager.{StoreOps, Pager, cache_lookup}
use transaction_db.Storage.Pager.FreeList.{leaf_count}
use transaction_db.Storage.Pager.Commit.{rollback}
use transaction_db.Storage.Pager.Commit.Levels.{pager_ops, pager-HasStack}
use transaction_db.Storage.Pager.Commit.Ended.{if_clean, rollback-clean}
use transaction_db.Txn.Session.Savepoints.{HasStack}

-- A log that counts its frames and an empty file.
abbrev counting_store : StoreOps
counting_store = record {
  State = ℕ;
  read_image = λ s n. inr (0 ∷ []);
  wal_append = λ s n d last size. (none, s + 1);
  wal_sync = λ s. (none, s);
  frame_count = λ s. s;
  checkpoint_all = λ s. (none, 0);
}

abbrev small_header : Header
small_header = record {
  page_size = 65536;
  change_counter = 7;
  db_size = 3;
  freelist_head = 2;
  freelist_count = 1;
  catalog_root = 1;
  schema_cookie = 5;
  text_encoding = 1;
  max_txnid = 2 ^ 40;
  reserved_per_page = 0;
}

abbrev two_pages : Pager counting_store
two_pages = record {
  is_readonly = false;
  in_txn = true;
  page_size = 512;
  hdr = small_header;
  hdr_dirty = false;
  cache =
      record { pgno = 3; content = []; dirty = true; refs = 1 }
      ∷ record { pgno = 2; content = []; dirty = false; refs = 0 }
      ∷ [];
  lru = 3 ∷ 2 ∷ [];
  sps = [];
  store = 0;
}

hdr_parse-hdr_serialize_example : hdr_parse (hdr_serialize small_header ++ (9 ∷ [])) ≡ small_header
hdr_parse-hdr_serialize_example = hdr_parse-hdr_serialize small_header (9 ∷ []) (
  omega arith,
  omega arith,
  omega arith,
  omega arith,
  omega arith,
  omega arith,
  omega arith,
  omega arith,
  omega arith,
  omega arith,
  omega arith,
)

pager-HasStack_example : HasStack (pager_ops counting_store true)
pager-HasStack_example = pager-HasStack counting_store true

rollback-clean_example :
    (cache_lookup (rollback counting_store true two_pages).cache 3
      ≡ if_clean (cache_lookup two_pages.cache 3))
    × ((rollback counting_store true two_pages).sps ≡ [])
    × ((rollback counting_store true two_pages).in_txn ≡ false)
unfolding cache_lookup
rollback-clean_example = rollback-clean counting_store true two_pages 3 (refl, (refl, tt))

abbrev trunk : List ℕ
trunk = 0xfe ∷ 0 ∷ 0 ∷ 0 ∷ 0 ∷ 0 ∷ 0 ∷ 0 ∷ 0 ∷ 0 ∷ 0 ∷ 0 ∷ 0 ∷ []

trunk_empty : leaf_count trunk ≡ 0
unfolding leaf_count get_u32
trunk_empty = refl
