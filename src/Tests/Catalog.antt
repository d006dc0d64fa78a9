-- ===== src/Tests/Catalog.antt =====
-- src/catalog on concrete inputs.
use transaction_db.Base.{
  ℕ, ◌+◌, ◌≡◌, refl, true, false, inr, map, ◌||◌, some, none, List, [], ◌∷◌, ◌++◌, arith, length,
  if◌then◌else◌, ◌==◌,
}
use transaction_db.Base.Int.{pos}
use transaction_db.Util.Buf.{init}
use transaction_db.Value.Compare.{binary}
use transaction_db.Value.Sqltype.{t_integer}
use transaction_db.Catalog.Schema.{Column, Table, gen_none, drop_column}
use transaction_db.Catalog.Schema.Drop.{index_columns, period_column, drop_column_keeps}
use transaction_db.Catalog.Acl.{Entry, Acl, Granted, matches, check, grant}
use transaction_db.Catalog.Acl.Kinds.{kind_of, kind_name, kind_of-kind_name}
use transaction_db.Catalog.Acl.Grant.{plenty, entry, check-grant, grant_widens}
use transaction_db.Catalog.Acl.Serial.{entry_serialize, entry_deserialize, done}
use transaction_db.Catalog.Acl.Serial.RoundTrip.{entry_deserialize-serialize}

abbrev ann : List ℕ
ann = b'a' ∷ b'n' ∷ b'n' ∷ []

abbrev select : List ℕ
select = b's' ∷ b'e' ∷ b'l' ∷ b'e' ∷ b'c' ∷ b't' ∷ []

abbrev ann_entry : Entry
ann_entry = entry (some ann) (some select) 1 none

abbrev ann_list : Acl
ann_list = record { entries = ann_entry ∷ []; count = 1 }

abbrev no_copy : Granted
no_copy = record plenty { for_priv = false }

check-grant_example :
    ((grant plenty ann_list (some ann) (some select) 1 none).0 ≡ none)
    × (check
          (grant plenty ann_list (some ann) (some select) 1 none).1
          (some ann)
          (some select)
          1
          none
        ≡ (check ann_list (some ann) (some select) 1 none
            || matches
                (entry (some ann) (some select) 1 none)
                (entry (some ann) (some select) 1 none)))
check-grant_example = check-grant ann_list ann select 1 none (omega arith) ann (some select) 1 none

grant_widens_example :
    ((grant no_copy ann_list (some ann) (some select) 1 none).0 ≡ none)
    × (check (grant no_copy ann_list (some ann) (some select) 1 none).1 (some ann) (some ann) 1 none
        ≡ true)
grant_widens_example =
    grant_widens no_copy ann_list ann select 1 none (omega arith) refl refl (some ann)

kind_of-kind_name_example : kind_of (some (kind_name 6 ++ (b' ' ∷ []))) ≡ (if 6 == 6 then 1 else 6)
kind_of-kind_name_example = kind_of-kind_name (b' ' ∷ []) 6 (omega arith) (omega arith)

entry_deserialize-serialize_example :
    entry_deserialize (λ n. true) (entry_serialize (λ n. true) ann_entry init).content
    ≡ done ann_entry
entry_deserialize-serialize_example =
    entry_deserialize-serialize (λ n. true) (λ n. refl) ann_entry (omega arith) (omega arith)

abbrev plain_column : List ℕ → Column
plain_column name = record {
  name = some name;
  type = record { id = t_integer; length = pos 0; precision = pos 0; scale = pos 0 };
  coll = binary;
  notnull = false;
  pk = false;
  unique = false;
  hidden = false;
  default_sql = none;
  check_sql = none;
  generated = gen_none;
  generated_sql = none;
  lua_compute = none;
  refs = [];
}

-- Three columns, an index on the third and the first, and a period that starts at the third.
abbrev three_columns : Table
three_columns = record {
  name = some (b't' ∷ []);
  cols = plain_column (b'a' ∷ []) ∷ plain_column (b'b' ∷ []) ∷ plain_column (b'c' ∷ []) ∷ [];
  indexes =
      record {
        name = none;
        root = 4;
        unique = false;
        col_idx = 2 ∷ 0 ∷ [];
        descending = false ∷ false ∷ [];
        kind = 0;
      }
      ∷ [];
  row_start_col = some 2;
  row_end_col = none;
}

drop_column_keeps_example :
    (t' : Table) × (drop_column three_columns 1 ≡ inr t')
    × (length t'.cols + 1 ≡ 3)
    × (map (index_columns t'.cols) t'.indexes
        ≡ map (index_columns three_columns.cols) three_columns.indexes)
    × (period_column t'.cols t'.row_start_col ≡ some (plain_column (b'c' ∷ [])))
    × (period_column t'.cols t'.row_end_col ≡ none)
drop_column_keeps_example =
    drop_column_keeps three_columns 1 (omega arith) ((refl, (refl, tt)), tt) refl tt
