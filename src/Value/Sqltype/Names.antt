-- ===== src/Value/Sqltype/Names.antt =====
-- The names of the types are read back.
use transaction_db.Base.{ℕ, ◌≡◌, ◌≢◌, refl, Option, none, some, List, ◌∷◌, ◌++◌}
use transaction_db.Base.Int.{ℤ, pos}
use transaction_db.Base.CString.{is_space, case_prefix, to_lower}
use transaction_db.Value.Sqltype.{
  Typeid, Typespec, typeid_name, find_alias, skip_leading, strchr, sizes, with_sizes, parse_decl,
  typespec_parse, t_unknown, t_boolean, t_tinyint, t_smallint, t_integer, t_bigint, t_decimal,
  t_real, t_double, t_char, t_varchar, t_text, t_binary, t_varbinary, t_blob, t_date, t_time,
  t_timestamp, t_bit, t_varbit, t_json, t_xml, t_uuid, t_interval, t_geometry, t_point, t_geography,
  t_composite,
}

-- What a declaration should give: the type, and of the numbers that stand behind it the length, but for
-- DECIMAL the precision and the scale. What is not given is 0.
abbrev pub IsSpec : Typeid → Option (ℤ × Option ℤ) → Typespec → Type 0
IsSpec id none ts = (ts.id ≡ id) × (ts.length ≡ pos 0) × (ts.precision ≡ pos 0) × (ts.scale ≡ pos 0)
IsSpec id (some (a, b)) ts =
    (ts.id ≡ id)
    × (id ≢ t_decimal → (ts.length ≡ a) × (ts.precision ≡ pos 0) × (ts.scale ≡ pos 0))
    × (id ≡ t_decimal
        → (ts.length ≡ pos 0)
          × (ts.precision ≡ a)
          × (b ≡ none → ts.scale ≡ pos 0)
          × ((c : ℤ) → b ≡ some c → ts.scale ≡ c))

with_sizes-IsSpec :
    (id : Typeid) (answer : Option (ℤ × Option ℤ)) → IsSpec id answer (with_sizes id answer)
unfolding with_sizes
with_sizes-IsSpec id none = (refl, refl, refl, refl)
with_sizes-IsSpec t_decimal (some (a, none)) =
    (refl, (λ other. absurd (other refl)), λ e. (refl, refl, (λ e. refl), λ c e. cc))
with_sizes-IsSpec t_decimal (some (a, some b)) =
    (refl, (λ other. absurd (other refl)), λ e. (refl, refl, (λ e. cc), λ c e. cc))
with_sizes-IsSpec t_unknown (some (a, b)) = (refl, (λ other. (refl, refl, refl)), λ e. cc)
with_sizes-IsSpec t_boolean (some (a, b)) = (refl, (λ other. (refl, refl, refl)), λ e. cc)
with_sizes-IsSpec t_tinyint (some (a, b)) = (refl, (λ other. (refl, refl, refl)), λ e. cc)
with_sizes-IsSpec t_smallint (some (a, b)) = (refl, (λ other. (refl, refl, refl)), λ e. cc)
with_sizes-IsSpec t_integer (some (a, b)) = (refl, (λ other. (refl, refl, refl)), λ e. cc)
with_sizes-IsSpec t_bigint (some (a, b)) = (refl, (λ other. (refl, refl, refl)), λ e. cc)
with_sizes-IsSpec t_real (some (a, b)) = (refl, (λ other. (refl, refl, refl)), λ e. cc)
with_sizes-IsSpec t_double (some (a, b)) = (refl, (λ other. (refl, refl, refl)), λ e. cc)
with_sizes-IsSpec t_char (some (a, b)) = (refl, (λ other. (refl, refl, refl)), λ e. cc)
with_sizes-IsSpec t_varchar (some (a, b)) = (refl, (λ other. (refl, refl, refl)), λ e. cc)
with_sizes-IsSpec t_text (some (a, b)) = (refl, (λ other. (refl, refl, refl)), λ e. cc)
with_sizes-IsSpec t_binary (some (a, b)) = (refl, (λ other. (refl, refl, refl)), λ e. cc)
with_sizes-IsSpec t_varbinary (some (a, b)) = (refl, (λ other. (refl, refl, refl)), λ e. cc)
with_sizes-IsSpec t_blob (some (a, b)) = (refl, (λ other. (refl, refl, refl)), λ e. cc)
with_sizes-IsSpec t_date (some (a, b)) = (refl, (λ other. (refl, refl, refl)), λ e. cc)
with_sizes-IsSpec t_time (some (a, b)) = (refl, (λ other. (refl, refl, refl)), λ e. cc)
with_sizes-IsSpec t_timestamp (some (a, b)) = (refl, (λ other. (refl, refl, refl)), λ e. cc)
with_sizes-IsSpec t_bit (some (a, b)) = (refl, (λ other. (refl, refl, refl)), λ e. cc)
with_sizes-IsSpec t_varbit (some (a, b)) = (refl, (λ other. (refl, refl, refl)), λ e. cc)
with_sizes-IsSpec t_json (some (a, b)) = (refl, (λ other. (refl, refl, refl)), λ e. cc)
with_sizes-IsSpec t_xml (some (a, b)) = (refl, (λ other. (refl, refl, refl)), λ e. cc)
with_sizes-IsSpec t_uuid (some (a, b)) = (refl, (λ other. (refl, refl, refl)), λ e. cc)
with_sizes-IsSpec t_interval (some (a, b)) = (refl, (λ other. (refl, refl, refl)), λ e. cc)
with_sizes-IsSpec t_geometry (some (a, b)) = (refl, (λ other. (refl, refl, refl)), λ e. cc)
with_sizes-IsSpec t_point (some (a, b)) = (refl, (λ other. (refl, refl, refl)), λ e. cc)
with_sizes-IsSpec t_geography (some (a, b)) = (refl, (λ other. (refl, refl, refl)), λ e. cc)
with_sizes-IsSpec t_composite (some (a, b)) = (refl, (λ other. (refl, refl, refl)), λ e. cc)

-- The name and the sizes reach `with_sizes`.
parse-typeid_name :
    (sscanf : List ℕ → Option (ℤ × Option ℤ)) (id : Typeid) (rest : List ℕ)
    → id ≢ t_unknown
    → (typespec_parse sscanf (some (typeid_name id)) ≡ with_sizes id none)
      × (typespec_parse sscanf (some (typeid_name id ++ (b'(' ∷ rest)))
          ≡ with_sizes id (sscanf (b'(' ∷ rest)))
unfolding typespec_parse parse_decl sizes strchr find_alias skip_leading typeid_name is_space
    case_prefix to_lower
parse-typeid_name sscanf t_unknown rest h = absurd (h refl)
parse-typeid_name sscanf t_boolean rest h = (refl, refl)
parse-typeid_name sscanf t_tinyint rest h = (refl, refl)
parse-typeid_name sscanf t_smallint rest h = (refl, refl)
parse-typeid_name sscanf t_integer rest h = (refl, refl)
parse-typeid_name sscanf t_bigint rest h = (refl, refl)
parse-typeid_name sscanf t_decimal rest h = (refl, refl)
parse-typeid_name sscanf t_real rest h = (refl, refl)
parse-typeid_name sscanf t_double rest h = (refl, refl)
parse-typeid_name sscanf t_char rest h = (refl, refl)
parse-typeid_name sscanf t_varchar rest h = (refl, refl)
parse-typeid_name sscanf t_text rest h = (refl, refl)
parse-typeid_name sscanf t_binary rest h = (refl, refl)
parse-typeid_name sscanf t_varbinary rest h = (refl, refl)
parse-typeid_name sscanf t_blob rest h = (refl, refl)
parse-typeid_name sscanf t_date rest h = (refl, refl)
parse-typeid_name sscanf t_time rest h = (refl, refl)
parse-typeid_name sscanf t_timestamp rest h = (refl, refl)
parse-typeid_name sscanf t_bit rest h = (refl, refl)
parse-typeid_name sscanf t_varbit rest h = (refl, refl)
parse-typeid_name sscanf t_json rest h = (refl, refl)
parse-typeid_name sscanf t_xml rest h = (refl, refl)
parse-typeid_name sscanf t_uuid rest h = (refl, refl)
parse-typeid_name sscanf t_interval rest h = (refl, refl)
parse-typeid_name sscanf t_geometry rest h = (refl, refl)
parse-typeid_name sscanf t_point rest h = (refl, refl)
parse-typeid_name sscanf t_geography rest h = (refl, refl)
parse-typeid_name sscanf t_composite rest h = (refl, refl)

-- For every type but TDB_T_UNKNOWN and whatever `sscanf` answers: `tdb_typespec_parse` reads the name that
-- `tdb_typeid_name` gives back as the type, with no sizes; and behind the name and an opening
-- parenthesis it takes the sizes that `sscanf` finds from there on, as a length, or for DECIMAL as
-- precision and scale. No alias that is a prefix of another one gets in its way.
pub typespec_parse-typeid_name :
    (sscanf : List ℕ → Option (ℤ × Option ℤ)) (id : Typeid) (rest : List ℕ)
    → id ≢ t_unknown
    → IsSpec id none (typespec_parse sscanf (some (typeid_name id)))
      × IsSpec id
          (sscanf (b'(' ∷ rest))
          (typespec_parse sscanf (some (typeid_name id ++ (b'(' ∷ rest))))
typespec_parse-typeid_name sscanf id rest h =
    let (bare, sized) = parse-typeid_name sscanf id rest h in
    (rw bare (with_sizes-IsSpec id none), rw sized (with_sizes-IsSpec id (sscanf (b'(' ∷ rest))))
