-- ===== src/Sql/Token.antt =====
-- sql/tdb_token.h and the tables of sql/tdb_lexer.c: the kinds of tokens, the keywords that the lexer
-- reads, and those that the API lists. Names are their ASCII bytes.
use transaction_db.Base.{ℕ, List, [], ◌∷◌}

-- `tdb_token_kind`
pub data Kind : Type 0 where
  tk_eof tk_illegal tk_id tk_string tk_integer tk_float tk_blob tk_param : Kind
  tk_lp tk_rp tk_comma tk_semi tk_dot tk_star tk_plus tk_minus : Kind
  tk_slash tk_percent tk_eq tk_ne tk_lt tk_le tk_gt tk_ge : Kind
  tk_concat tk_bitand tk_bitor tk_bitnot tk_shl tk_shr tk_select tk_from : Kind
  tk_where tk_group tk_by tk_having tk_order tk_asc tk_desc tk_limit : Kind
  tk_offset tk_distinct tk_all tk_as tk_join tk_inner tk_left tk_right : Kind
  tk_full tk_outer tk_cross tk_on tk_using tk_and tk_or tk_not : Kind
  tk_null tk_is tk_in tk_like tk_between tk_exists tk_case tk_when : Kind
  tk_then tk_else tk_end tk_cast tk_true tk_false tk_insert tk_into : Kind
  tk_values tk_update tk_set tk_delete tk_create tk_table tk_index tk_unique : Kind
  tk_view tk_materialized tk_drop tk_if tk_temp tk_primary tk_key tk_foreign : Kind
  tk_references tk_default tk_check tk_collate tk_constraint tk_autoincrement tk_generated
        tk_always :
      Kind
  tk_stored tk_virtual tk_with tk_system tk_versioning tk_period tk_for tk_begin : Kind
  tk_commit tk_rollback tk_transaction tk_savepoint tk_release tk_to tk_function tk_procedure : Kind
  tk_language tk_returns tk_call tk_prepare tk_alter tk_add tk_column tk_rename : Kind
  tk_union tk_except tk_intersect tk_explain tk_vacuum tk_returning tk_glob tk_escape : Kind
  tk_tablespace tk_partition tk_range tk_list tk_hash tk_truncate tk_analyze tk_reindex : Kind
  tk_comment tk_compression tk_grant tk_revoke tk_privileges tk_role tk_user tk_owned : Kind
  tk_attach tk_detach tk_database tk_lock tk_type tk_location tk_max : Kind

-- `kw`
pub record Keyword : Type 0 where
  pub name : List ℕ
  pub kind : Kind

-- `k_keywords`
abbrev pub keywords : List Keyword
keywords =
    record { name = 83 ∷ 69 ∷ 76 ∷ 69 ∷ 67 ∷ 84 ∷ []; kind = tk_select }
    ∷ record { name = 70 ∷ 82 ∷ 79 ∷ 77 ∷ []; kind = tk_from }
    ∷ record { name = 87 ∷ 72 ∷ 69 ∷ 82 ∷ 69 ∷ []; kind = tk_where }
    ∷ record { name = 71 ∷ 82 ∷ 79 ∷ 85 ∷ 80 ∷ []; kind = tk_group }
    ∷ record { name = 66 ∷ 89 ∷ []; kind = tk_by }
    ∷ record { name = 72 ∷ 65 ∷ 86 ∷ 73 ∷ 78 ∷ 71 ∷ []; kind = tk_having }
    ∷ record { name = 79 ∷ 82 ∷ 68 ∷ 69 ∷ 82 ∷ []; kind = tk_order }
    ∷ record { name = 65 ∷ 83 ∷ 67 ∷ []; kind = tk_asc }
    ∷ record { name = 68 ∷ 69 ∷ 83 ∷ 67 ∷ []; kind = tk_desc }
    ∷ record { name = 76 ∷ 73 ∷ 77 ∷ 73 ∷ 84 ∷ []; kind = tk_limit }
    ∷ record { name = 79 ∷ 70 ∷ 70 ∷ 83 ∷ 69 ∷ 84 ∷ []; kind = tk_offset }
    ∷ record { name = 68 ∷ 73 ∷ 83 ∷ 84 ∷ 73 ∷ 78 ∷ 67 ∷ 84 ∷ []; kind = tk_distinct }
    ∷ record { name = 65 ∷ 76 ∷ 76 ∷ []; kind = tk_all }
    ∷ record { name = 65 ∷ 83 ∷ []; kind = tk_as }
    ∷ record { name = 74 ∷ 79 ∷ 73 ∷ 78 ∷ []; kind = tk_join }
    ∷ record { name = 73 ∷ 78 ∷ 78 ∷ 69 ∷ 82 ∷ []; kind = tk_inner }
    ∷ record { name = 76 ∷ 69 ∷ 70 ∷ 84 ∷ []; kind = tk_left }
    ∷ record { name = 82 ∷ 73 ∷ 71 ∷ 72 ∷ 84 ∷ []; kind = tk_right }
    ∷ record { name = 70 ∷ 85 ∷ 76 ∷ 76 ∷ []; kind = tk_full }
    ∷ record { name = 79 ∷ 85 ∷ 84 ∷ 69 ∷ 82 ∷ []; kind = tk_outer }
    ∷ record { name = 67 ∷ 82 ∷ 79 ∷ 83 ∷ 83 ∷ []; kind = tk_cross }
    ∷ record { name = 79 ∷ 78 ∷ []; kind = tk_on }
    ∷ record { name = 85 ∷ 83 ∷ 73 ∷ 78 ∷ 71 ∷ []; kind = tk_using }
    ∷ record { name = 65 ∷ 78 ∷ 68 ∷ []; kind = tk_and }
    ∷ record { name = 79 ∷ 82 ∷ []; kind = tk_or }
    ∷ record { name = 78 ∷ 79 ∷ 84 ∷ []; kind = tk_not }
    ∷ record { name = 78 ∷ 85 ∷ 76 ∷ 76 ∷ []; kind = tk_null }
    ∷ record { name = 73 ∷ 83 ∷ []; kind = tk_is }
    ∷ record { name = 73 ∷ 78 ∷ []; kind = tk_in }
    ∷ record { name = 76 ∷ 73 ∷ 75 ∷ 69 ∷ []; kind = tk_like }
    ∷ record { name = 66 ∷ 69 ∷ 84 ∷ 87 ∷ 69 ∷ 69 ∷ 78 ∷ []; kind = tk_between }
    ∷ record { name = 69 ∷ 88 ∷ 73 ∷ 83 ∷ 84 ∷ 83 ∷ []; kind = tk_exists }
    ∷ record { name = 67 ∷ 65 ∷ 83 ∷ 69 ∷ []; kind = tk_case }
    ∷ record { name = 87 ∷ 72 ∷ 69 ∷ 78 ∷ []; kind = tk_when }
    ∷ record { name = 84 ∷ 72 ∷ 69 ∷ 78 ∷ []; kind = tk_then }
    ∷ record { name = 69 ∷ 76 ∷ 83 ∷ 69 ∷ []; kind = tk_else }
    ∷ record { name = 69 ∷ 78 ∷ 68 ∷ []; kind = tk_end }
    ∷ record { name = 67 ∷ 65 ∷ 83 ∷ 84 ∷ []; kind = tk_cast }
    ∷ record { name = 84 ∷ 82 ∷ 85 ∷ 69 ∷ []; kind = tk_true }
    ∷ record { name = 70 ∷ 65 ∷ 76 ∷ 83 ∷ 69 ∷ []; kind = tk_false }
    ∷ record { name = 73 ∷ 78 ∷ 83 ∷ 69 ∷ 82 ∷ 84 ∷ []; kind = tk_insert }
    ∷ record { name = 73 ∷ 78 ∷ 84 ∷ 79 ∷ []; kind = tk_into }
    ∷ record { name = 86 ∷ 65 ∷ 76 ∷ 85 ∷ 69 ∷ 83 ∷ []; kind = tk_values }
    ∷ record { name = 85 ∷ 80 ∷ 68 ∷ 65 ∷ 84 ∷ 69 ∷ []; kind = tk_update }
    ∷ record { name = 83 ∷ 69 ∷ 84 ∷ []; kind = tk_set }
    ∷ record { name = 68 ∷ 69 ∷ 76 ∷ 69 ∷ 84 ∷ 69 ∷ []; kind = tk_delete }
    ∷ record { name = 67 ∷ 82 ∷ 69 ∷ 65 ∷ 84 ∷ 69 ∷ []; kind = tk_create }
    ∷ record { name = 84 ∷ 65 ∷ 66 ∷ 76 ∷ 69 ∷ []; kind = tk_table }
    ∷ record { name = 73 ∷ 78 ∷ 68 ∷ 69 ∷ 88 ∷ []; kind = tk_index }
    ∷ record { name = 85 ∷ 78 ∷ 73 ∷ 81 ∷ 85 ∷ 69 ∷ []; kind = tk_unique }
    ∷ record { name = 86 ∷ 73 ∷ 69 ∷ 87 ∷ []; kind = tk_view }
    ∷ record {
      name = 77 ∷ 65 ∷ 84 ∷ 69 ∷ 82 ∷ 73 ∷ 65 ∷ 76 ∷ 73 ∷ 90 ∷ 69 ∷ 68 ∷ [];
      kind = tk_materialized;
    }
    ∷ record { name = 68 ∷ 82 ∷ 79 ∷ 80 ∷ []; kind = tk_drop }
    ∷ record { name = 73 ∷ 70 ∷ []; kind = tk_if }
    ∷ record { name = 84 ∷ 69 ∷ 77 ∷ 80 ∷ []; kind = tk_temp }
    ∷ record { name = 84 ∷ 69 ∷ 77 ∷ 80 ∷ 79 ∷ 82 ∷ 65 ∷ 82 ∷ 89 ∷ []; kind = tk_temp }
    ∷ record { name = 80 ∷ 82 ∷ 73 ∷ 77 ∷ 65 ∷ 82 ∷ 89 ∷ []; kind = tk_primary }
    ∷ record { name = 75 ∷ 69 ∷ 89 ∷ []; kind = tk_key }
    ∷ record { name = 70 ∷ 79 ∷ 82 ∷ 69 ∷ 73 ∷ 71 ∷ 78 ∷ []; kind = tk_foreign }
    ∷ record { name = 82 ∷ 69 ∷ 70 ∷ 69 ∷ 82 ∷ 69 ∷ 78 ∷ 67 ∷ 69 ∷ 83 ∷ []; kind = tk_references }
    ∷ record { name = 68 ∷ 69 ∷ 70 ∷ 65 ∷ 85 ∷ 76 ∷ 84 ∷ []; kind = tk_default }
    ∷ record { name = 67 ∷ 72 ∷ 69 ∷ 67 ∷ 75 ∷ []; kind = tk_check }
    ∷ record { name = 67 ∷ 79 ∷ 76 ∷ 76 ∷ 65 ∷ 84 ∷ 69 ∷ []; kind = tk_collate }
    ∷ record { name = 67 ∷ 79 ∷ 78 ∷ 83 ∷ 84 ∷ 82 ∷ 65 ∷ 73 ∷ 78 ∷ 84 ∷ []; kind = tk_constraint }
    ∷ record {
      name = 65 ∷ 85 ∷ 84 ∷ 79 ∷ 73 ∷ 78 ∷ 67 ∷ 82 ∷ 69 ∷ 77 ∷ 69 ∷ 78 ∷ 84 ∷ [];
      kind = tk_autoincrement;
    }
    ∷ record { name = 71 ∷ 69 ∷ 78 ∷ 69 ∷ 82 ∷ 65 ∷ 84 ∷ 69 ∷ 68 ∷ []; kind = tk_generated }
    ∷ record { name = 65 ∷ 76 ∷ 87 ∷ 65 ∷ 89 ∷ 83 ∷ []; kind = tk_always }
    ∷ record { name = 83 ∷ 84 ∷ 79 ∷ 82 ∷ 69 ∷ 68 ∷ []; kind = tk_stored }
    ∷ record { name = 86 ∷ 73 ∷ 82 ∷ 84 ∷ 85 ∷ 65 ∷ 76 ∷ []; kind = tk_virtual }
    ∷ record { name = 87 ∷ 73 ∷ 84 ∷ 72 ∷ []; kind = tk_with }
    ∷ record { name = 83 ∷ 89 ∷ 83 ∷ 84 ∷ 69 ∷ 77 ∷ []; kind = tk_system }
    ∷ record { name = 86 ∷ 69 ∷ 82 ∷ 83 ∷ 73 ∷ 79 ∷ 78 ∷ 73 ∷ 78 ∷ 71 ∷ []; kind = tk_versioning }
    ∷ record { name = 80 ∷ 69 ∷ 82 ∷ 73 ∷ 79 ∷ 68 ∷ []; kind = tk_period }
    ∷ record { name = 70 ∷ 79 ∷ 82 ∷ []; kind = tk_for }
    ∷ record { name = 66 ∷ 69 ∷ 71 ∷ 73 ∷ 78 ∷ []; kind = tk_begin }
    ∷ record { name = 67 ∷ 79 ∷ 77 ∷ 77 ∷ 73 ∷ 84 ∷ []; kind = tk_commit }
    ∷ record { name = 82 ∷ 79 ∷ 76 ∷ 76 ∷ 66 ∷ 65 ∷ 67 ∷ 75 ∷ []; kind = tk_rollback }
    ∷ record {
      name = 84 ∷ 82 ∷ 65 ∷ 78 ∷ 83 ∷ 65 ∷ 67 ∷ 84 ∷ 73 ∷ 79 ∷ 78 ∷ [];
      kind = tk_transaction;
    }
    ∷ record { name = 83 ∷ 65 ∷ 86 ∷ 69 ∷ 80 ∷ 79 ∷ 73 ∷ 78 ∷ 84 ∷ []; kind = tk_savepoint }
    ∷ record { name = 82 ∷ 69 ∷ 76 ∷ 69 ∷ 65 ∷ 83 ∷ 69 ∷ []; kind = tk_release }
    ∷ record { name = 84 ∷ 79 ∷ []; kind = tk_to }
    ∷ record { name = 70 ∷ 85 ∷ 78 ∷ 67 ∷ 84 ∷ 73 ∷ 79 ∷ 78 ∷ []; kind = tk_function }
    ∷ record { name = 80 ∷ 82 ∷ 79 ∷ 67 ∷ 69 ∷ 68 ∷ 85 ∷ 82 ∷ 69 ∷ []; kind = tk_procedure }
    ∷ record { name = 76 ∷ 65 ∷ 78 ∷ 71 ∷ 85 ∷ 65 ∷ 71 ∷ 69 ∷ []; kind = tk_language }
    ∷ record { name = 82 ∷ 69 ∷ 84 ∷ 85 ∷ 82 ∷ 78 ∷ 83 ∷ []; kind = tk_returns }
    ∷ record { name = 67 ∷ 65 ∷ 76 ∷ 76 ∷ []; kind = tk_call }
    ∷ record { name = 80 ∷ 82 ∷ 69 ∷ 80 ∷ 65 ∷ 82 ∷ 69 ∷ []; kind = tk_prepare }
    ∷ record { name = 65 ∷ 76 ∷ 84 ∷ 69 ∷ 82 ∷ []; kind = tk_alter }
    ∷ record { name = 65 ∷ 68 ∷ 68 ∷ []; kind = tk_add }
    ∷ record { name = 67 ∷ 79 ∷ 76 ∷ 85 ∷ 77 ∷ 78 ∷ []; kind = tk_column }
    ∷ record { name = 82 ∷ 69 ∷ 78 ∷ 65 ∷ 77 ∷ 69 ∷ []; kind = tk_rename }
    ∷ record { name = 85 ∷ 78 ∷ 73 ∷ 79 ∷ 78 ∷ []; kind = tk_union }
    ∷ record { name = 69 ∷ 88 ∷ 67 ∷ 69 ∷ 80 ∷ 84 ∷ []; kind = tk_except }
    ∷ record { name = 73 ∷ 78 ∷ 84 ∷ 69 ∷ 82 ∷ 83 ∷ 69 ∷ 67 ∷ 84 ∷ []; kind = tk_intersect }
    ∷ record { name = 69 ∷ 88 ∷ 80 ∷ 76 ∷ 65 ∷ 73 ∷ 78 ∷ []; kind = tk_explain }
    ∷ record { name = 86 ∷ 65 ∷ 67 ∷ 85 ∷ 85 ∷ 77 ∷ []; kind = tk_vacuum }
    ∷ record { name = 82 ∷ 69 ∷ 84 ∷ 85 ∷ 82 ∷ 78 ∷ 73 ∷ 78 ∷ 71 ∷ []; kind = tk_returning }
    ∷ record { name = 71 ∷ 76 ∷ 79 ∷ 66 ∷ []; kind = tk_glob }
    ∷ record { name = 69 ∷ 83 ∷ 67 ∷ 65 ∷ 80 ∷ 69 ∷ []; kind = tk_escape }
    ∷ record { name = 84 ∷ 65 ∷ 66 ∷ 76 ∷ 69 ∷ 83 ∷ 80 ∷ 65 ∷ 67 ∷ 69 ∷ []; kind = tk_tablespace }
    ∷ record { name = 80 ∷ 65 ∷ 82 ∷ 84 ∷ 73 ∷ 84 ∷ 73 ∷ 79 ∷ 78 ∷ []; kind = tk_partition }
    ∷ record { name = 84 ∷ 82 ∷ 85 ∷ 78 ∷ 67 ∷ 65 ∷ 84 ∷ 69 ∷ []; kind = tk_truncate }
    ∷ record { name = 65 ∷ 78 ∷ 65 ∷ 76 ∷ 89 ∷ 90 ∷ 69 ∷ []; kind = tk_analyze }
    ∷ record { name = 82 ∷ 69 ∷ 73 ∷ 78 ∷ 68 ∷ 69 ∷ 88 ∷ []; kind = tk_reindex }
    ∷ record { name = 67 ∷ 79 ∷ 77 ∷ 77 ∷ 69 ∷ 78 ∷ 84 ∷ []; kind = tk_comment }
    ∷ record {
      name = 67 ∷ 79 ∷ 77 ∷ 80 ∷ 82 ∷ 69 ∷ 83 ∷ 83 ∷ 73 ∷ 79 ∷ 78 ∷ [];
      kind = tk_compression;
    }
    ∷ record { name = 71 ∷ 82 ∷ 65 ∷ 78 ∷ 84 ∷ []; kind = tk_grant }
    ∷ record { name = 82 ∷ 69 ∷ 86 ∷ 79 ∷ 75 ∷ 69 ∷ []; kind = tk_revoke }
    ∷ record { name = 65 ∷ 84 ∷ 84 ∷ 65 ∷ 67 ∷ 72 ∷ []; kind = tk_attach }
    ∷ record { name = 68 ∷ 69 ∷ 84 ∷ 65 ∷ 67 ∷ 72 ∷ []; kind = tk_detach }
    ∷ record { name = 68 ∷ 65 ∷ 84 ∷ 65 ∷ 66 ∷ 65 ∷ 83 ∷ 69 ∷ []; kind = tk_database }
    ∷ record { name = 76 ∷ 79 ∷ 67 ∷ 75 ∷ []; kind = tk_lock }
    ∷ record { name = 76 ∷ 79 ∷ 67 ∷ 65 ∷ 84 ∷ 73 ∷ 79 ∷ 78 ∷ []; kind = tk_location }
    ∷ []

-- `k_all_keywords`
abbrev pub all_keywords : List (List ℕ)
all_keywords =
    (65 ∷ 66 ∷ 79 ∷ 82 ∷ 84 ∷ [])
    ∷ (65 ∷ 67 ∷ 84 ∷ 73 ∷ 79 ∷ 78 ∷ [])
    ∷ (65 ∷ 68 ∷ 68 ∷ [])
    ∷ (65 ∷ 70 ∷ 84 ∷ 69 ∷ 82 ∷ [])
    ∷ (65 ∷ 76 ∷ 76 ∷ [])
    ∷ (65 ∷ 76 ∷ 84 ∷ 69 ∷ 82 ∷ [])
    ∷ (65 ∷ 76 ∷ 87 ∷ 65 ∷ 89 ∷ 83 ∷ [])
    ∷ (65 ∷ 78 ∷ 65 ∷ 76 ∷ 89 ∷ 90 ∷ 69 ∷ [])
    ∷ (65 ∷ 78 ∷ 68 ∷ [])
    ∷ (65 ∷ 83 ∷ [])
    ∷ (65 ∷ 83 ∷ 67 ∷ [])
    ∷ (65 ∷ 84 ∷ 84 ∷ 65 ∷ 67 ∷ 72 ∷ [])
    ∷ (65 ∷ 85 ∷ 84 ∷ 79 ∷ 73 ∷ 78 ∷ 67 ∷ 82 ∷ 69 ∷ 77 ∷ 69 ∷ 78 ∷ 84 ∷ [])
    ∷ (66 ∷ 69 ∷ 70 ∷ 79 ∷ 82 ∷ 69 ∷ [])
    ∷ (66 ∷ 69 ∷ 71 ∷ 73 ∷ 78 ∷ [])
    ∷ (66 ∷ 69 ∷ 84 ∷ 87 ∷ 69 ∷ 69 ∷ 78 ∷ [])
    ∷ (66 ∷ 73 ∷ 84 ∷ [])
    ∷ (66 ∷ 89 ∷ [])
    ∷ (67 ∷ 65 ∷ 76 ∷ 76 ∷ [])
    ∷ (67 ∷ 65 ∷ 83 ∷ 67 ∷ 65 ∷ 68 ∷ 69 ∷ [])
    ∷ (67 ∷ 65 ∷ 83 ∷ 69 ∷ [])
    ∷ (67 ∷ 65 ∷ 83 ∷ 84 ∷ [])
    ∷ (67 ∷ 72 ∷ 69 ∷ 67 ∷ 75 ∷ [])
    ∷ (67 ∷ 79 ∷ 76 ∷ 76 ∷ 65 ∷ 84 ∷ 69 ∷ [])
    ∷ (67 ∷ 79 ∷ 76 ∷ 85 ∷ 77 ∷ 78 ∷ [])
    ∷ (67 ∷ 79 ∷ 77 ∷ 77 ∷ 69 ∷ 78 ∷ 84 ∷ [])
    ∷ (67 ∷ 79 ∷ 77 ∷ 77 ∷ 73 ∷ 84 ∷ [])
    ∷ (67 ∷ 79 ∷ 77 ∷ 80 ∷ 82 ∷ 69 ∷ 83 ∷ 83 ∷ 73 ∷ 79 ∷ 78 ∷ [])
    ∷ (67 ∷ 79 ∷ 78 ∷ 70 ∷ 76 ∷ 73 ∷ 67 ∷ 84 ∷ [])
    ∷ (67 ∷ 79 ∷ 78 ∷ 83 ∷ 84 ∷ 82 ∷ 65 ∷ 73 ∷ 78 ∷ 84 ∷ [])
    ∷ (67 ∷ 82 ∷ 69 ∷ 65 ∷ 84 ∷ 69 ∷ [])
    ∷ (67 ∷ 82 ∷ 79 ∷ 83 ∷ 83 ∷ [])
    ∷ (67 ∷ 85 ∷ 82 ∷ 82 ∷ 69 ∷ 78 ∷ 84 ∷ [])
    ∷ (67 ∷ 85 ∷ 82 ∷ 82 ∷ 69 ∷ 78 ∷ 84 ∷ 95 ∷ 68 ∷ 65 ∷ 84 ∷ 69 ∷ [])
    ∷ (67 ∷ 85 ∷ 82 ∷ 82 ∷ 69 ∷ 78 ∷ 84 ∷ 95 ∷ 84 ∷ 73 ∷ 77 ∷ 69 ∷ [])
    ∷ (67 ∷ 85 ∷ 82 ∷ 82 ∷ 69 ∷ 78 ∷ 84 ∷ 95 ∷ 84 ∷ 73 ∷ 77 ∷ 69 ∷ 83 ∷ 84 ∷ 65 ∷ 77 ∷ 80 ∷ [])
    ∷ (68 ∷ 65 ∷ 84 ∷ 65 ∷ 66 ∷ 65 ∷ 83 ∷ 69 ∷ [])
    ∷ (68 ∷ 69 ∷ 70 ∷ 65 ∷ 85 ∷ 76 ∷ 84 ∷ [])
    ∷ (68 ∷ 69 ∷ 70 ∷ 69 ∷ 82 ∷ 82 ∷ 65 ∷ 66 ∷ 76 ∷ 69 ∷ [])
    ∷ (68 ∷ 69 ∷ 70 ∷ 69 ∷ 82 ∷ 82 ∷ 69 ∷ 68 ∷ [])
    ∷ (68 ∷ 69 ∷ 76 ∷ 69 ∷ 84 ∷ 69 ∷ [])
    ∷ (68 ∷ 69 ∷ 83 ∷ 67 ∷ [])
    ∷ (68 ∷ 69 ∷ 84 ∷ 65 ∷ 67 ∷ 72 ∷ [])
    ∷ (68 ∷ 73 ∷ 83 ∷ 84 ∷ 73 ∷ 78 ∷ 67 ∷ 84 ∷ [])
    ∷ (68 ∷ 79 ∷ [])
    ∷ (68 ∷ 82 ∷ 79 ∷ 80 ∷ [])
    ∷ (69 ∷ 65 ∷ 67 ∷ 72 ∷ [])
    ∷ (69 ∷ 76 ∷ 83 ∷ 69 ∷ [])
    ∷ (69 ∷ 76 ∷ 83 ∷ 73 ∷ 70 ∷ [])
    ∷ (69 ∷ 78 ∷ 68 ∷ [])
    ∷ (69 ∷ 83 ∷ 67 ∷ 65 ∷ 80 ∷ 69 ∷ [])
    ∷ (69 ∷ 88 ∷ 67 ∷ 69 ∷ 80 ∷ 84 ∷ [])
    ∷ (69 ∷ 88 ∷ 67 ∷ 76 ∷ 85 ∷ 68 ∷ 69 ∷ [])
    ∷ (69 ∷ 88 ∷ 67 ∷ 76 ∷ 85 ∷ 83 ∷ 73 ∷ 86 ∷ 69 ∷ [])
    ∷ (69 ∷ 88 ∷ 73 ∷ 83 ∷ 84 ∷ 83 ∷ [])
    ∷ (69 ∷ 88 ∷ 80 ∷ 76 ∷ 65 ∷ 73 ∷ 78 ∷ [])
    ∷ (70 ∷ 65 ∷ 73 ∷ 76 ∷ [])
    ∷ (70 ∷ 73 ∷ 76 ∷ 84 ∷ 69 ∷ 82 ∷ [])
    ∷ (70 ∷ 73 ∷ 82 ∷ 83 ∷ 84 ∷ [])
    ∷ (70 ∷ 79 ∷ 76 ∷ 76 ∷ 79 ∷ 87 ∷ 73 ∷ 78 ∷ 71 ∷ [])
    ∷ (70 ∷ 79 ∷ 82 ∷ [])
    ∷ (70 ∷ 79 ∷ 82 ∷ 69 ∷ 73 ∷ 71 ∷ 78 ∷ [])
    ∷ (70 ∷ 82 ∷ 79 ∷ 77 ∷ [])
    ∷ (70 ∷ 85 ∷ 76 ∷ 76 ∷ [])
    ∷ (70 ∷ 85 ∷ 78 ∷ 67 ∷ 84 ∷ 73 ∷ 79 ∷ 78 ∷ [])
    ∷ (71 ∷ 69 ∷ 78 ∷ 69 ∷ 82 ∷ 65 ∷ 84 ∷ 69 ∷ 68 ∷ [])
    ∷ (71 ∷ 76 ∷ 79 ∷ 66 ∷ [])
    ∷ (71 ∷ 82 ∷ 65 ∷ 78 ∷ 84 ∷ [])
    ∷ (71 ∷ 82 ∷ 79 ∷ 85 ∷ 80 ∷ [])
    ∷ (71 ∷ 82 ∷ 79 ∷ 85 ∷ 80 ∷ 83 ∷ [])
    ∷ (72 ∷ 65 ∷ 83 ∷ 72 ∷ [])
    ∷ (72 ∷ 65 ∷ 86 ∷ 73 ∷ 78 ∷ 71 ∷ [])
    ∷ (73 ∷ 70 ∷ [])
    ∷ (73 ∷ 71 ∷ 78 ∷ 79 ∷ 82 ∷ 69 ∷ [])
    ∷ (73 ∷ 77 ∷ 77 ∷ 69 ∷ 68 ∷ 73 ∷ 65 ∷ 84 ∷ 69 ∷ [])
    ∷ (73 ∷ 78 ∷ [])
    ∷ (73 ∷ 78 ∷ 68 ∷ 69 ∷ 88 ∷ [])
    ∷ (73 ∷ 78 ∷ 68 ∷ 69 ∷ 88 ∷ 69 ∷ 68 ∷ [])
    ∷ (73 ∷ 78 ∷ 73 ∷ 84 ∷ 73 ∷ 65 ∷ 76 ∷ 76 ∷ 89 ∷ [])
    ∷ (73 ∷ 78 ∷ 78 ∷ 69 ∷ 82 ∷ [])
    ∷ (73 ∷ 78 ∷ 83 ∷ 69 ∷ 82 ∷ 84 ∷ [])
    ∷ (73 ∷ 78 ∷ 83 ∷ 84 ∷ 69 ∷ 65 ∷ 68 ∷ [])
    ∷ (73 ∷ 78 ∷ 84 ∷ 69 ∷ 82 ∷ 83 ∷ 69 ∷ 67 ∷ 84 ∷ [])
    ∷ (73 ∷ 78 ∷ 84 ∷ 69 ∷ 82 ∷ 86 ∷ 65 ∷ 76 ∷ [])
    ∷ (73 ∷ 78 ∷ 84 ∷ 79 ∷ [])
    ∷ (73 ∷ 83 ∷ [])
    ∷ (73 ∷ 83 ∷ 78 ∷ 85 ∷ 76 ∷ 76 ∷ [])
    ∷ (74 ∷ 79 ∷ 73 ∷ 78 ∷ [])
    ∷ (75 ∷ 69 ∷ 89 ∷ [])
    ∷ (76 ∷ 65 ∷ 78 ∷ 71 ∷ 85 ∷ 65 ∷ 71 ∷ 69 ∷ [])
    ∷ (76 ∷ 65 ∷ 83 ∷ 84 ∷ [])
    ∷ (76 ∷ 69 ∷ 70 ∷ 84 ∷ [])
    ∷ (76 ∷ 73 ∷ 75 ∷ 69 ∷ [])
    ∷ (76 ∷ 73 ∷ 77 ∷ 73 ∷ 84 ∷ [])
    ∷ (76 ∷ 73 ∷ 83 ∷ 84 ∷ [])
    ∷ (76 ∷ 79 ∷ 67 ∷ 65 ∷ 84 ∷ 73 ∷ 79 ∷ 78 ∷ [])
    ∷ (76 ∷ 79 ∷ 67 ∷ 75 ∷ [])
    ∷ (76 ∷ 79 ∷ 79 ∷ 80 ∷ [])
    ∷ (77 ∷ 65 ∷ 84 ∷ 67 ∷ 72 ∷ [])
    ∷ (77 ∷ 65 ∷ 84 ∷ 69 ∷ 82 ∷ 73 ∷ 65 ∷ 76 ∷ 73 ∷ 90 ∷ 69 ∷ 68 ∷ [])
    ∷ (78 ∷ 65 ∷ 84 ∷ 85 ∷ 82 ∷ 65 ∷ 76 ∷ [])
    ∷ (78 ∷ 79 ∷ [])
    ∷ (78 ∷ 79 ∷ 84 ∷ [])
    ∷ (78 ∷ 79 ∷ 84 ∷ 72 ∷ 73 ∷ 78 ∷ 71 ∷ [])
    ∷ (78 ∷ 79 ∷ 84 ∷ 78 ∷ 85 ∷ 76 ∷ 76 ∷ [])
    ∷ (78 ∷ 85 ∷ 76 ∷ 76 ∷ [])
    ∷ (78 ∷ 85 ∷ 76 ∷ 76 ∷ 83 ∷ [])
    ∷ (79 ∷ 70 ∷ [])
    ∷ (79 ∷ 70 ∷ 70 ∷ 83 ∷ 69 ∷ 84 ∷ [])
    ∷ (79 ∷ 78 ∷ [])
    ∷ (79 ∷ 82 ∷ [])
    ∷ (79 ∷ 82 ∷ 68 ∷ 69 ∷ 82 ∷ [])
    ∷ (79 ∷ 84 ∷ 72 ∷ 69 ∷ 82 ∷ 83 ∷ [])
    ∷ (79 ∷ 85 ∷ 84 ∷ 69 ∷ 82 ∷ [])
    ∷ (79 ∷ 86 ∷ 69 ∷ 82 ∷ [])
    ∷ (79 ∷ 87 ∷ 78 ∷ 69 ∷ 68 ∷ [])
    ∷ (80 ∷ 65 ∷ 82 ∷ 84 ∷ 73 ∷ 84 ∷ 73 ∷ 79 ∷ 78 ∷ [])
    ∷ (80 ∷ 69 ∷ 82 ∷ 73 ∷ 79 ∷ 68 ∷ [])
    ∷ (80 ∷ 76 ∷ 65 ∷ 78 ∷ [])
    ∷ (80 ∷ 82 ∷ 65 ∷ 71 ∷ 77 ∷ 65 ∷ [])
    ∷ (80 ∷ 82 ∷ 69 ∷ 67 ∷ 69 ∷ 68 ∷ 73 ∷ 78 ∷ 71 ∷ [])
    ∷ (80 ∷ 82 ∷ 69 ∷ 80 ∷ 65 ∷ 82 ∷ 69 ∷ [])
    ∷ (80 ∷ 82 ∷ 73 ∷ 77 ∷ 65 ∷ 82 ∷ 89 ∷ [])
    ∷ (80 ∷ 82 ∷ 73 ∷ 86 ∷ 73 ∷ 76 ∷ 69 ∷ 71 ∷ 69 ∷ 83 ∷ [])
    ∷ (80 ∷ 82 ∷ 79 ∷ 67 ∷ 69 ∷ 68 ∷ 85 ∷ 82 ∷ 69 ∷ [])
    ∷ (81 ∷ 85 ∷ 69 ∷ 82 ∷ 89 ∷ [])
    ∷ (82 ∷ 65 ∷ 73 ∷ 83 ∷ 69 ∷ [])
    ∷ (82 ∷ 65 ∷ 78 ∷ 71 ∷ 69 ∷ [])
    ∷ (82 ∷ 69 ∷ 67 ∷ 85 ∷ 82 ∷ 83 ∷ 73 ∷ 86 ∷ 69 ∷ [])
    ∷ (82 ∷ 69 ∷ 70 ∷ 69 ∷ 82 ∷ 69 ∷ 78 ∷ 67 ∷ 69 ∷ 83 ∷ [])
    ∷ (82 ∷ 69 ∷ 71 ∷ 69 ∷ 88 ∷ 80 ∷ [])
    ∷ (82 ∷ 69 ∷ 73 ∷ 78 ∷ 68 ∷ 69 ∷ 88 ∷ [])
    ∷ (82 ∷ 69 ∷ 76 ∷ 69 ∷ 65 ∷ 83 ∷ 69 ∷ [])
    ∷ (82 ∷ 69 ∷ 78 ∷ 65 ∷ 77 ∷ 69 ∷ [])
    ∷ (82 ∷ 69 ∷ 80 ∷ 76 ∷ 65 ∷ 67 ∷ 69 ∷ [])
    ∷ (82 ∷ 69 ∷ 83 ∷ 84 ∷ 82 ∷ 73 ∷ 67 ∷ 84 ∷ [])
    ∷ (82 ∷ 69 ∷ 84 ∷ 85 ∷ 82 ∷ 78 ∷ 73 ∷ 78 ∷ 71 ∷ [])
    ∷ (82 ∷ 69 ∷ 84 ∷ 85 ∷ 82 ∷ 78 ∷ 83 ∷ [])
    ∷ (82 ∷ 69 ∷ 86 ∷ 79 ∷ 75 ∷ 69 ∷ [])
    ∷ (82 ∷ 73 ∷ 71 ∷ 72 ∷ 84 ∷ [])
    ∷ (82 ∷ 79 ∷ 76 ∷ 69 ∷ [])
    ∷ (82 ∷ 79 ∷ 76 ∷ 76 ∷ 66 ∷ 65 ∷ 67 ∷ 75 ∷ [])
    ∷ (82 ∷ 79 ∷ 87 ∷ [])
    ∷ (82 ∷ 79 ∷ 87 ∷ 83 ∷ [])
    ∷ (83 ∷ 65 ∷ 86 ∷ 69 ∷ 80 ∷ 79 ∷ 73 ∷ 78 ∷ 84 ∷ [])
    ∷ (83 ∷ 69 ∷ 76 ∷ 69 ∷ 67 ∷ 84 ∷ [])
    ∷ (83 ∷ 69 ∷ 81 ∷ 85 ∷ 69 ∷ 78 ∷ 67 ∷ 69 ∷ [])
    ∷ (83 ∷ 69 ∷ 84 ∷ [])
    ∷ (83 ∷ 84 ∷ 79 ∷ 82 ∷ 69 ∷ 68 ∷ [])
    ∷ (83 ∷ 89 ∷ 83 ∷ 84 ∷ 69 ∷ 77 ∷ [])
    ∷ (84 ∷ 65 ∷ 66 ∷ 76 ∷ 69 ∷ [])
    ∷ (84 ∷ 65 ∷ 66 ∷ 76 ∷ 69 ∷ 83 ∷ 80 ∷ 65 ∷ 67 ∷ 69 ∷ [])
    ∷ (84 ∷ 69 ∷ 77 ∷ 80 ∷ [])
    ∷ (84 ∷ 69 ∷ 77 ∷ 80 ∷ 79 ∷ 82 ∷ 65 ∷ 82 ∷ 89 ∷ [])
    ∷ (84 ∷ 72 ∷ 69 ∷ 78 ∷ [])
    ∷ (84 ∷ 73 ∷ 69 ∷ 83 ∷ [])
    ∷ (84 ∷ 79 ∷ [])
    ∷ (84 ∷ 82 ∷ 65 ∷ 78 ∷ 83 ∷ 65 ∷ 67 ∷ 84 ∷ 73 ∷ 79 ∷ 78 ∷ [])
    ∷ (84 ∷ 82 ∷ 73 ∷ 71 ∷ 71 ∷ 69 ∷ 82 ∷ [])
    ∷ (84 ∷ 82 ∷ 85 ∷ 78 ∷ 67 ∷ 65 ∷ 84 ∷ 69 ∷ [])
    ∷ (84 ∷ 89 ∷ 80 ∷ 69 ∷ [])
    ∷ (85 ∷ 78 ∷ 66 ∷ 79 ∷ 85 ∷ 78 ∷ 68 ∷ 69 ∷ 68 ∷ [])
    ∷ (85 ∷ 78 ∷ 73 ∷ 79 ∷ 78 ∷ [])
    ∷ (85 ∷ 78 ∷ 73 ∷ 81 ∷ 85 ∷ 69 ∷ [])
    ∷ (85 ∷ 80 ∷ 68 ∷ 65 ∷ 84 ∷ 69 ∷ [])
    ∷ (85 ∷ 83 ∷ 69 ∷ 82 ∷ [])
    ∷ (85 ∷ 83 ∷ 73 ∷ 78 ∷ 71 ∷ [])
    ∷ (86 ∷ 65 ∷ 67 ∷ 85 ∷ 85 ∷ 77 ∷ [])
    ∷ (86 ∷ 65 ∷ 76 ∷ 85 ∷ 69 ∷ 83 ∷ [])
    ∷ (86 ∷ 65 ∷ 82 ∷ 66 ∷ 73 ∷ 84 ∷ [])
    ∷ (86 ∷ 69 ∷ 82 ∷ 83 ∷ 73 ∷ 79 ∷ 78 ∷ 73 ∷ 78 ∷ 71 ∷ [])
    ∷ (86 ∷ 73 ∷ 69 ∷ 87 ∷ [])
    ∷ (86 ∷ 73 ∷ 82 ∷ 84 ∷ 85 ∷ 65 ∷ 76 ∷ [])
    ∷ (87 ∷ 72 ∷ 69 ∷ 78 ∷ [])
    ∷ (87 ∷ 72 ∷ 69 ∷ 82 ∷ 69 ∷ [])
    ∷ (87 ∷ 72 ∷ 73 ∷ 76 ∷ 69 ∷ [])
    ∷ (87 ∷ 73 ∷ 78 ∷ 68 ∷ 79 ∷ 87 ∷ [])
    ∷ (87 ∷ 73 ∷ 84 ∷ 72 ∷ [])
    ∷ (87 ∷ 73 ∷ 84 ∷ 72 ∷ 79 ∷ 85 ∷ 84 ∷ [])
    ∷ (88 ∷ 77 ∷ 76 ∷ [])
    ∷ []
