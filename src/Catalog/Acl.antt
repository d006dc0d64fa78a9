-- ===== src/Catalog/Acl.antt =====
-- catalog/tdb_acl.c: the access-control list. A `char *` that may be NULL is an option of the bytes of
-- the string. `grant` takes the answers of the allocator as an argument.
pub mod Kinds
pub mod Rules
pub mod Grant
pub mod Serial
use transaction_db.Base.{
  ℕ, ◌+◌, ◌-◌, ◌≡◌, refl, Bool, true, false, not, ◌&&◌, ◌||◌, Option, some, none, List, [], ◌∷◌,
  map, ◌==◌, if◌then◌else◌, length, arith,
}
use transaction_db.Base.CString.{to_upper, str_case_eq}
use transaction_db.Status.{Failure, misuse, nomem}

-- `tdb_acl_entry`, with the `TDB_ACL_*` kind as its number, 0 for none.
pub record Entry : Type 0 where
  pub grantee : Option (List ℕ)
  pub priv : Option (List ℕ)
  pub kind : ℕ
  pub object : Option (List ℕ)

-- `tdb_acl`
pub record Acl : Type 0 where
  pub entries : List Entry
  pub count : ℕ

unfoldable pub init : Acl
init = record { entries = []; count = 0 }

-- `s && !strcasecmp(want, s)`
unfoldable pub same_text : List ℕ → Option (List ℕ) → Bool
same_text want none = false
same_text want (some s) = str_case_eq want s

-- `match_grantee` for the wildcard "PUBLIC", `match_priv` for "ALL".
unfoldable pub match_word : List ℕ → Option (List ℕ) → Option (List ℕ) → Bool
match_word wildcard none s = true
match_word wildcard (some []) s = true
match_word wildcard (some (c ∷ want)) s = str_case_eq (c ∷ want) wildcard || same_text (c ∷ want) s

abbrev pub public_word : List ℕ
public_word = b'P' ∷ b'U' ∷ b'B' ∷ b'L' ∷ b'I' ∷ b'C' ∷ []

abbrev pub all_word : List ℕ
all_word = b'A' ∷ b'L' ∷ b'L' ∷ []

unfoldable pub match_grantee : Option (List ℕ) → Option (List ℕ) → Bool
match_grantee = match_word public_word

unfoldable pub match_priv : Option (List ℕ) → Option (List ℕ) → Bool
match_priv = match_word all_word

unfoldable pub match_kind : ℕ → ℕ → Bool
match_kind want kind = want == 0 || want == kind

unfoldable pub match_object : Option (List ℕ) → Option (List ℕ) → Bool
match_object none object = true
match_object (some []) object = true
match_object (some (c ∷ want)) object = same_text (c ∷ want) object

-- The four tests of an entry, `want` against `have`.
unfoldable pub matches : Entry → Entry → Bool
matches want have =
    match_grantee want.grantee have.grantee
    && match_priv want.priv have.priv
    && match_kind want.kind have.kind
    && match_object want.object have.object

-- The loop of `tdb_acl_check`.
unfoldable pub check_entries : List Entry → Entry → Bool
check_entries [] request = false
check_entries (e ∷ es) request = if matches e request then true else check_entries es request

unfoldable pub check : Acl → Option (List ℕ) → Option (List ℕ) → ℕ → Option (List ℕ) → Bool
check a none priv kind object = true
check a (some user) priv kind object =
    check_entries a.entries
      record { grantee = some user; priv = priv; kind = kind; object = object }

-- `a && b && !strcasecmp(a, b)`
unfoldable pub both_same : Option (List ℕ) → Option (List ℕ) → Bool
both_same none t = false
both_same (some s) t = same_text s t

unfoldable pub object_equal : Option (List ℕ) → Option (List ℕ) → Bool
object_equal none none = true
object_equal none (some t) = false
object_equal (some s) t = same_text s t

unfoldable pub entry_equal : Entry → Entry → Bool
entry_equal a b =
    a.kind == b.kind
    && both_same a.grantee b.grantee
    && both_same a.priv b.priv
    && object_equal a.object b.object

-- The loop of `tdb_acl_grant` that looks for the entry.
unfoldable pub has_entry : List Entry → Entry → Bool
has_entry [] probe = false
has_entry (e ∷ es) probe = if entry_equal e probe then true else has_entry es probe

-- Which of the four allocations of `tdb_acl_grant` succeed.
pub record Granted : Type 0 where
  pub for_priv : Bool
  pub for_entry : Bool
  pub for_grantee : Bool
  pub for_object : Bool

-- `tdb_strdup`, which yields NULL where there is no memory.
unfoldable pub strdup : Bool → List ℕ → Option (List ℕ)
strdup there s = if there then some s else none

unfoldable pub up_strdup : Bool → List ℕ → Option (List ℕ)
up_strdup there s = strdup there (map to_upper s)

unfoldable pub dup_object : Bool → Option (List ℕ) → Option (List ℕ)
dup_object there none = none
dup_object there (some s) = strdup there s

-- `tdb_acl_grant` behind its test of the arguments.
unfoldable pub add_entry :
    Granted → Acl → List ℕ → List ℕ → ℕ → Option (List ℕ) → Option Failure × Acl
add_entry mem a grantee priv kind object =
    let upper = up_strdup mem.for_priv priv in
    let probe : Entry = record {
      grantee = some grantee;
      priv = upper;
      kind = kind;
      object = object;
    } in
    if has_entry a.entries probe
    then (none, a)
    else if not mem.for_entry
    then (some nomem, a)
    else (
      none,
      record {
        entries =
            record {
              grantee = strdup mem.for_grantee grantee;
              priv = upper;
              kind = kind;
              object = dup_object mem.for_object object;
            }
            ∷ a.entries;
        count = a.count + 1;
      },
    )

unfoldable pub grant :
    Granted → Acl → Option (List ℕ) → Option (List ℕ) → ℕ → Option (List ℕ) → Option Failure × Acl
grant mem a none priv kind object = (some misuse, a)
grant mem a (some grantee) none kind object = (some misuse, a)
grant mem a (some grantee) (some priv) kind object =
    if kind == 0 then (some misuse, a) else add_entry mem a grantee priv kind object

-- The loop of `tdb_acl_revoke`: the entries that stay.
unfoldable pub keep_entries : Entry → List Entry → List Entry
keep_entries want [] = []
keep_entries want (e ∷ es) =
    let rest = keep_entries want es in if matches want e then rest else e ∷ rest

-- The loop of `tdb_acl_revoke`: the number of the entries that go.
unfoldable pub count_hits : Entry → List Entry → ℕ
count_hits want [] = 0
count_hits want (e ∷ es) =
    let rest = count_hits want es in if matches want e then rest + 1 else rest

unfoldable pub revoke : Acl → Entry → ℕ × Acl
revoke a want = (
  count_hits want a.entries,
  record { entries = keep_entries want a.entries; count = a.count - count_hits want a.entries },
)
