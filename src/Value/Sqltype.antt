-- ===== src/Value/Sqltype.antt =====
-- value/tdb_sqltype.c: the names of the SQL types, and what they are stored as. `sscanf` is a parameter;
-- the coercion of values to a type is not modelled.
pub mod Names
use transaction_db.Base.{ℕ, Bool, Option, none, some, List, [], ◌∷◌, ◌==◌, if◌then◌else◌}
use transaction_db.Base.Int.{ℤ, pos}
use transaction_db.Base.CString.{is_space, case_prefix}

-- `tdb_typeid`
pub data Typeid : Type 0 where
  t_unknown t_boolean t_tinyint t_smallint t_integer t_bigint t_decimal : Typeid
  t_real t_double t_char t_varchar t_text t_binary t_varbinary : Typeid
  t_blob t_date t_time t_timestamp t_bit t_varbit t_json : Typeid
  t_xml t_uuid t_interval t_geometry t_point t_geography t_composite : Typeid

-- `tdb_valtype`
pub data Valtype : Type 0 where
  val_null val_int val_real val_text val_blob val_composite : Valtype

-- `tdb_typespec`
pub record Typespec : Type 0 where
  pub id : Typeid
  pub length : ℤ
  pub precision : ℤ
  pub scale : ℤ

-- `type_alias`
pub record Alias : Type 0 where
  pub name : List ℕ
  pub id : Typeid

-- `k_aliases`
abbrev pub aliases : List Alias
aliases =
    record { name = b'B' ∷ b'O' ∷ b'O' ∷ b'L' ∷ b'E' ∷ b'A' ∷ b'N' ∷ []; id = t_boolean }
    ∷ record { name = b'B' ∷ b'O' ∷ b'O' ∷ b'L' ∷ []; id = t_boolean }
    ∷ record { name = b'T' ∷ b'I' ∷ b'N' ∷ b'Y' ∷ b'I' ∷ b'N' ∷ b'T' ∷ []; id = t_tinyint }
    ∷ record { name = b'S' ∷ b'M' ∷ b'A' ∷ b'L' ∷ b'L' ∷ b'I' ∷ b'N' ∷ b'T' ∷ []; id = t_smallint }
    ∷ record { name = b'I' ∷ b'N' ∷ b'T' ∷ b'2' ∷ []; id = t_smallint }
    ∷ record { name = b'B' ∷ b'I' ∷ b'G' ∷ b'I' ∷ b'N' ∷ b'T' ∷ []; id = t_bigint }
    ∷ record { name = b'I' ∷ b'N' ∷ b'T' ∷ b'8' ∷ []; id = t_bigint }
    ∷ record { name = b'I' ∷ b'N' ∷ b'T' ∷ b'E' ∷ b'R' ∷ b'V' ∷ b'A' ∷ b'L' ∷ []; id = t_interval }
    ∷ record { name = b'I' ∷ b'N' ∷ b'T' ∷ b'E' ∷ b'G' ∷ b'E' ∷ b'R' ∷ []; id = t_integer }
    ∷ record { name = b'I' ∷ b'N' ∷ b'T' ∷ b'4' ∷ []; id = t_integer }
    ∷ record { name = b'I' ∷ b'N' ∷ b'T' ∷ []; id = t_integer }
    ∷ record { name = b'D' ∷ b'E' ∷ b'C' ∷ b'I' ∷ b'M' ∷ b'A' ∷ b'L' ∷ []; id = t_decimal }
    ∷ record { name = b'N' ∷ b'U' ∷ b'M' ∷ b'E' ∷ b'R' ∷ b'I' ∷ b'C' ∷ []; id = t_decimal }
    ∷ record { name = b'N' ∷ b'U' ∷ b'M' ∷ b'B' ∷ b'E' ∷ b'R' ∷ []; id = t_decimal }
    ∷ record { name = b'D' ∷ b'O' ∷ b'U' ∷ b'B' ∷ b'L' ∷ b'E' ∷ []; id = t_double }
    ∷ record { name = b'F' ∷ b'L' ∷ b'O' ∷ b'A' ∷ b'T' ∷ b'8' ∷ []; id = t_double }
    ∷ record { name = b'R' ∷ b'E' ∷ b'A' ∷ b'L' ∷ []; id = t_real }
    ∷ record { name = b'F' ∷ b'L' ∷ b'O' ∷ b'A' ∷ b'T' ∷ []; id = t_real }
    ∷ record { name = b'F' ∷ b'L' ∷ b'O' ∷ b'A' ∷ b'T' ∷ b'4' ∷ []; id = t_real }
    ∷ record { name = b'V' ∷ b'A' ∷ b'R' ∷ b'C' ∷ b'H' ∷ b'A' ∷ b'R' ∷ []; id = t_varchar }
    ∷ record { name = b'N' ∷ b'V' ∷ b'A' ∷ b'R' ∷ b'C' ∷ b'H' ∷ b'A' ∷ b'R' ∷ []; id = t_varchar }
    ∷ record { name = b'V' ∷ b'A' ∷ b'R' ∷ b'C' ∷ b'H' ∷ b'A' ∷ b'R' ∷ b'2' ∷ []; id = t_varchar }
    ∷ record {
      name =
          b'C' ∷ b'H' ∷ b'A' ∷ b'R' ∷ b'A' ∷ b'C' ∷ b'T' ∷ b'E' ∷ b'R' ∷ b' ' ∷ b'V' ∷ b'A' ∷ b'R'
          ∷ b'Y' ∷ b'I' ∷ b'N' ∷ b'G' ∷ [];
      id = t_varchar;
    }
    ∷ record { name = b'N' ∷ b'C' ∷ b'H' ∷ b'A' ∷ b'R' ∷ []; id = t_char }
    ∷ record { name = b'C' ∷ b'H' ∷ b'A' ∷ b'R' ∷ []; id = t_char }
    ∷ record {
      name = b'C' ∷ b'H' ∷ b'A' ∷ b'R' ∷ b'A' ∷ b'C' ∷ b'T' ∷ b'E' ∷ b'R' ∷ [];
      id = t_char;
    }
    ∷ record { name = b'C' ∷ b'L' ∷ b'O' ∷ b'B' ∷ []; id = t_text }
    ∷ record { name = b'T' ∷ b'E' ∷ b'X' ∷ b'T' ∷ []; id = t_text }
    ∷ record { name = b'S' ∷ b'T' ∷ b'R' ∷ b'I' ∷ b'N' ∷ b'G' ∷ []; id = t_text }
    ∷ record {
      name = b'V' ∷ b'A' ∷ b'R' ∷ b'B' ∷ b'I' ∷ b'N' ∷ b'A' ∷ b'R' ∷ b'Y' ∷ [];
      id = t_varbinary;
    }
    ∷ record { name = b'B' ∷ b'Y' ∷ b'T' ∷ b'E' ∷ b'A' ∷ []; id = t_varbinary }
    ∷ record { name = b'B' ∷ b'I' ∷ b'N' ∷ b'A' ∷ b'R' ∷ b'Y' ∷ []; id = t_binary }
    ∷ record { name = b'B' ∷ b'L' ∷ b'O' ∷ b'B' ∷ []; id = t_blob }
    ∷ record { name = b'R' ∷ b'A' ∷ b'W' ∷ []; id = t_blob }
    ∷ record {
      name = b'T' ∷ b'I' ∷ b'M' ∷ b'E' ∷ b'S' ∷ b'T' ∷ b'A' ∷ b'M' ∷ b'P' ∷ [];
      id = t_timestamp;
    }
    ∷ record { name = b'D' ∷ b'A' ∷ b'T' ∷ b'E' ∷ b'T' ∷ b'I' ∷ b'M' ∷ b'E' ∷ []; id = t_timestamp }
    ∷ record { name = b'D' ∷ b'A' ∷ b'T' ∷ b'E' ∷ []; id = t_date }
    ∷ record { name = b'T' ∷ b'I' ∷ b'M' ∷ b'E' ∷ []; id = t_time }
    ∷ record { name = b'J' ∷ b'S' ∷ b'O' ∷ b'N' ∷ []; id = t_json }
    ∷ record { name = b'J' ∷ b'S' ∷ b'O' ∷ b'N' ∷ b'B' ∷ []; id = t_json }
    ∷ record { name = b'X' ∷ b'M' ∷ b'L' ∷ []; id = t_xml }
    ∷ record {
      name = b'B' ∷ b'I' ∷ b'T' ∷ b' ' ∷ b'V' ∷ b'A' ∷ b'R' ∷ b'Y' ∷ b'I' ∷ b'N' ∷ b'G' ∷ [];
      id = t_varbit;
    }
    ∷ record { name = b'V' ∷ b'A' ∷ b'R' ∷ b'B' ∷ b'I' ∷ b'T' ∷ []; id = t_varbit }
    ∷ record { name = b'B' ∷ b'I' ∷ b'T' ∷ []; id = t_bit }
    ∷ record { name = b'U' ∷ b'U' ∷ b'I' ∷ b'D' ∷ []; id = t_uuid }
    ∷ record { name = b'G' ∷ b'U' ∷ b'I' ∷ b'D' ∷ []; id = t_uuid }
    ∷ record { name = b'G' ∷ b'E' ∷ b'O' ∷ b'M' ∷ b'E' ∷ b'T' ∷ b'R' ∷ b'Y' ∷ []; id = t_geometry }
    ∷ record { name = b'G' ∷ b'E' ∷ b'O' ∷ b'M' ∷ []; id = t_geometry }
    ∷ record { name = b'P' ∷ b'O' ∷ b'I' ∷ b'N' ∷ b'T' ∷ []; id = t_point }
    ∷ record {
      name = b'G' ∷ b'E' ∷ b'O' ∷ b'G' ∷ b'R' ∷ b'A' ∷ b'P' ∷ b'H' ∷ b'Y' ∷ [];
      id = t_geography;
    }
    ∷ record { name = b'G' ∷ b'E' ∷ b'O' ∷ b'G' ∷ []; id = t_geography }
    ∷ record {
      name = b'C' ∷ b'O' ∷ b'M' ∷ b'P' ∷ b'O' ∷ b'S' ∷ b'I' ∷ b'T' ∷ b'E' ∷ [];
      id = t_composite;
    }
    ∷ record { name = b'S' ∷ b'T' ∷ b'R' ∷ b'U' ∷ b'C' ∷ b'T' ∷ []; id = t_composite }
    ∷ record { name = b'R' ∷ b'O' ∷ b'W' ∷ []; id = t_composite }
    ∷ []

-- `tdb_typeid_name`
unfoldable pub typeid_name : Typeid → List ℕ
typeid_name t_unknown = b'U' ∷ b'N' ∷ b'K' ∷ b'N' ∷ b'O' ∷ b'W' ∷ b'N' ∷ []
typeid_name t_boolean = b'B' ∷ b'O' ∷ b'O' ∷ b'L' ∷ b'E' ∷ b'A' ∷ b'N' ∷ []
typeid_name t_tinyint = b'T' ∷ b'I' ∷ b'N' ∷ b'Y' ∷ b'I' ∷ b'N' ∷ b'T' ∷ []
typeid_name t_smallint = b'S' ∷ b'M' ∷ b'A' ∷ b'L' ∷ b'L' ∷ b'I' ∷ b'N' ∷ b'T' ∷ []
typeid_name t_integer = b'I' ∷ b'N' ∷ b'T' ∷ b'E' ∷ b'G' ∷ b'E' ∷ b'R' ∷ []
typeid_name t_bigint = b'B' ∷ b'I' ∷ b'G' ∷ b'I' ∷ b'N' ∷ b'T' ∷ []
typeid_name t_decimal = b'D' ∷ b'E' ∷ b'C' ∷ b'I' ∷ b'M' ∷ b'A' ∷ b'L' ∷ []
typeid_name t_real = b'R' ∷ b'E' ∷ b'A' ∷ b'L' ∷ []
typeid_name t_double = b'D' ∷ b'O' ∷ b'U' ∷ b'B' ∷ b'L' ∷ b'E' ∷ []
typeid_name t_char = b'C' ∷ b'H' ∷ b'A' ∷ b'R' ∷ []
typeid_name t_varchar = b'V' ∷ b'A' ∷ b'R' ∷ b'C' ∷ b'H' ∷ b'A' ∷ b'R' ∷ []
typeid_name t_text = b'T' ∷ b'E' ∷ b'X' ∷ b'T' ∷ []
typeid_name t_binary = b'B' ∷ b'I' ∷ b'N' ∷ b'A' ∷ b'R' ∷ b'Y' ∷ []
typeid_name t_varbinary = b'V' ∷ b'A' ∷ b'R' ∷ b'B' ∷ b'I' ∷ b'N' ∷ b'A' ∷ b'R' ∷ b'Y' ∷ []
typeid_name t_blob = b'B' ∷ b'L' ∷ b'O' ∷ b'B' ∷ []
typeid_name t_date = b'D' ∷ b'A' ∷ b'T' ∷ b'E' ∷ []
typeid_name t_time = b'T' ∷ b'I' ∷ b'M' ∷ b'E' ∷ []
typeid_name t_timestamp = b'T' ∷ b'I' ∷ b'M' ∷ b'E' ∷ b'S' ∷ b'T' ∷ b'A' ∷ b'M' ∷ b'P' ∷ []
typeid_name t_bit = b'B' ∷ b'I' ∷ b'T' ∷ []
typeid_name t_varbit =
    b'B' ∷ b'I' ∷ b'T' ∷ b' ' ∷ b'V' ∷ b'A' ∷ b'R' ∷ b'Y' ∷ b'I' ∷ b'N' ∷ b'G' ∷ []
typeid_name t_json = b'J' ∷ b'S' ∷ b'O' ∷ b'N' ∷ []
typeid_name t_xml = b'X' ∷ b'M' ∷ b'L' ∷ []
typeid_name t_uuid = b'U' ∷ b'U' ∷ b'I' ∷ b'D' ∷ []
typeid_name t_interval = b'I' ∷ b'N' ∷ b'T' ∷ b'E' ∷ b'R' ∷ b'V' ∷ b'A' ∷ b'L' ∷ []
typeid_name t_geometry = b'G' ∷ b'E' ∷ b'O' ∷ b'M' ∷ b'E' ∷ b'T' ∷ b'R' ∷ b'Y' ∷ []
typeid_name t_point = b'P' ∷ b'O' ∷ b'I' ∷ b'N' ∷ b'T' ∷ []
typeid_name t_geography = b'G' ∷ b'E' ∷ b'O' ∷ b'G' ∷ b'R' ∷ b'A' ∷ b'P' ∷ b'H' ∷ b'Y' ∷ []
typeid_name t_composite = b'C' ∷ b'O' ∷ b'M' ∷ b'P' ∷ b'O' ∷ b'S' ∷ b'I' ∷ b'T' ∷ b'E' ∷ []

-- The first alias that begins the declaration.
unfoldable pub find_alias : List ℕ → List Alias → Typeid
find_alias decl [] = t_text
find_alias decl (a ∷ later) =
    let rest = find_alias decl later in if case_prefix decl a.name then a.id else rest

unfoldable pub skip_leading : List ℕ → List ℕ
skip_leading [] = []
skip_leading (c ∷ s) = let rest = skip_leading s in if is_space c then rest else c ∷ s

-- `strchr(s, c)`: the string from there on.
unfoldable pub strchr : ℕ → List ℕ → Option (List ℕ)
strchr c [] = none
strchr c (d ∷ s) = let rest = strchr c s in if d == c then some (d ∷ s) else rest

-- The sizes from what `sscanf(lp, "(%d,%d", &a, &b)` gives: no number, the first, or both.
unfoldable pub with_sizes : Typeid → Option (ℤ × Option ℤ) → Typespec
with_sizes id none = record { id = id; length = pos 0; precision = pos 0; scale = pos 0 }
with_sizes t_decimal (some (a, none)) = record {
  id = t_decimal;
  length = pos 0;
  precision = a;
  scale = pos 0;
}
with_sizes t_decimal (some (a, some b)) = record {
  id = t_decimal;
  length = pos 0;
  precision = a;
  scale = b;
}
with_sizes id (some (a, b)) = record { id = id; length = a; precision = pos 0; scale = pos 0 }

unfoldable pub sizes : (List ℕ → Option (ℤ × Option ℤ)) → Option (List ℕ) → Option (ℤ × Option ℤ)
sizes sscanf none = none
sizes sscanf (some lp) = sscanf lp

unfoldable pub parse_decl : (List ℕ → Option (ℤ × Option ℤ)) → List ℕ → Typespec
parse_decl sscanf decl = with_sizes (find_alias decl aliases) (sizes sscanf (strchr b'(' decl))

-- `tdb_typespec_parse`; `none` is NULL.
unfoldable pub typespec_parse : (List ℕ → Option (ℤ × Option ℤ)) → Option (List ℕ) → Typespec
typespec_parse sscanf none = record {
  id = t_text;
  length = pos 0;
  precision = pos 0;
  scale = pos 0;
}
typespec_parse sscanf (some decl) = parse_decl sscanf (skip_leading decl)

-- `tdb_typespec_storage`
unfoldable pub typespec_storage : Typespec → Valtype
typespec_storage ts = elim ts.id [
  | t_boolean ↦ val_int
  | t_tinyint ↦ val_int
  | t_smallint ↦ val_int
  | t_integer ↦ val_int
  | t_bigint ↦ val_int
  | t_real ↦ val_real
  | t_double ↦ val_real
  | t_binary ↦ val_blob
  | t_varbinary ↦ val_blob
  | t_blob ↦ val_blob
  | t_bit ↦ val_blob
  | t_varbit ↦ val_blob
  | t_geometry ↦ val_blob
  | t_point ↦ val_blob
  | t_geography ↦ val_blob
  | t_composite ↦ val_blob
  | _ ↦ val_text
]
